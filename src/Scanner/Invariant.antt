-- ===== src/Scanner/Invariant.antt =====
-- Every turn of the scanner keeps the page table and its configuration in order.
use mathlib.Core.Path.{◌∙◌, ap, sym, subst}
use memory_tiering.Base.{
  ℕ, ◌^◌, ◌<◌, ◌≡◌, ◌≢◌, refl, Bool, true, false, some, List, [], ◌∷◌, arith, ◌==◌, Bool-cases,
  Option-cases, inl, inr, length, eq_of_==, ne_of_==,
}
use memory_tiering.Base.Run.{Run, Returns, returns, Returns-bind, Returns-mono}
use memory_tiering.Common.{PageLayer, numa_remote, PolicyConfig, is_full}
use memory_tiering.Machine.{Machine}
use memory_tiering.Metrics.{Metrics}
use memory_tiering.PageTable.{World, scan_next, migrate_page, layer_info}
use memory_tiering.PageTable.Entries.{PageTableEntry, find}
use memory_tiering.PageTable.Consistent.{IsConsistent, IsConsistent-same}
use memory_tiering.PageTable.Spec.{MovesPages, MigrateSpec, Moves, migrate_page-Result}
use memory_tiering.Scanner.{DoubleOps, scan_step, run_scanner}
use memory_tiering.Scanner.Keeps.{scan_step-Keeps}
use memory_tiering.Scanner.Policy.{IsTyped, with_ticks, Ticked}

-- With two tiers no page is on the remote layer.
abbrev pub KeepsTiers : ℕ → World → Type 0
KeepsTiers num_tiers w =
    num_tiers ≡ 2
    → (i : ℕ) (e : PageTableEntry) → find i w.table ≡ some e
    → e.page_layer ≢ numa_remote

pub record Inv (num_tiers : ℕ) (w : World) : Type 0 where
  pub off : w.enable_cache_ring ≡ false
  pub consistent : IsConsistent w
  pub index : w.scan_index < length w.table
  pub small : length w.table < 2 ^ 64
  pub tiers : KeepsTiers num_tiers w

module _ (num_tiers : ℕ) where
  pub Inv-Ticked : (w w' : World) → Ticked w w' → Inv num_tiers w → Inv num_tiers w'
  Inv-Ticked w w' (n, e) v = subst (Inv num_tiers) (sym e) (record {
    off = v.off;
    consistent = IsConsistent-same w (with_ticks w n) refl refl v.consistent;
    index = v.index;
    small = v.small;
    tiers = v.tiers;
  })

  -- The metrics are no part of it.
  pub Inv-metrics :
      (w : World) (m : Metrics) → Inv num_tiers w → Inv num_tiers (record w { metrics = m })
  Inv-metrics w m v = record {
    off = v.off;
    consistent = IsConsistent-same w (record w { metrics = m }) refl refl v.consistent;
    index = v.index;
    small = v.small;
    tiers = v.tiers;
  }

  tiers_moved :
      (w : World) (page_id : ℕ) (d : PageTableEntry) (target : PageLayer) (w' : World)
      → (num_tiers ≡ 2 → target ≢ numa_remote)
      → Moves w page_id d target w'
      → KeepsTiers num_tiers w
      → KeepsTiers num_tiers w'
  tiers_moved w page_id d target w' fits m keeps two i e at = elim (Bool-cases (page_id == i)) [
    | inl q ↦
        let here : find page_id w'.table ≡ some e =
          ap (λ k. find k w'.table) (eq_of_== page_id i q) ∙ at in
        let same : target ≡ e.page_layer = ground (arith, m.moved) in λ z. fits two (same ∙ z)
    | inr ne ↦ keeps two i e (sym (m.others i (ne_of_== page_id i ne)) ∙ at)
  ]

  -- A migration to a layer that the configuration has.
  tiers_after :
      (w : World) (page_id : ℕ) (target : PageLayer) (w' : World)
      → (num_tiers ≡ 2 → target ≢ numa_remote)
      → MigrateSpec w page_id target w'
      → KeepsTiers num_tiers w
      → KeepsTiers num_tiers w'
  tiers_after w page_id target w' fits spec keeps two i e at =
      elim (Option-cases (find page_id w.table)) [
        | inl absent ↦
            let same : w' ≡ w = rw (absent, MigrateSpec) at spec in
            keeps two i e (sym (ap (λ v. find i v.table) same) ∙ at)
        | inr (d, found) ↦ elim (Bool-cases (is_full (layer_info target w))) [
          | inl full ↦
              let same : w' ≡ w = rw (found, MigrateSpec, full) at spec in
              keeps two i e (sym (ap (λ v. find i v.table) same) ∙ at)
          | inr room ↦
              let m : Moves w page_id d target w' = rw (found, MigrateSpec, room) at spec in
              tiers_moved w page_id d target w' fits m keeps two i e at
        ]
      ]

  pub scan_next-Inv :
      (w : World)
      → Inv num_tiers w
      → Returns (λ k w'. Inv num_tiers w' × (k < length w'.table)) (scan_next w)
  unfolding scan_next
  scan_next-Inv w v = returns (
    record {
      off = v.off;
      consistent = IsConsistent-same w _ refl refl v.consistent;
      index = ground (arith, v.index, v.small);
      small = v.small;
      tiers = v.tiers;
    },
    v.index,
  )

  module _ (machine : Machine) (moves : MovesPages machine) where
    pub migrate-Inv :
        (page_id : ℕ) (target : PageLayer) (w : World)
        → (num_tiers ≡ 2 → target ≢ numa_remote)
        → Inv num_tiers w
        → Returns (λ u w'. Inv num_tiers w') (migrate_page machine 2 page_id target w)
    migrate-Inv page_id target w fits v =
        Returns-mono (migrate_page-Result machine moves 1 w page_id target v.off)
          λ u w' (spec, keep, same). record {
            off = same.same_ring ∙ v.off;
            consistent = keep v.consistent;
            index = omega (arith, same.same_scan_index, same.same_size, v.index);
            small = omega (arith, same.same_size, v.small);
            tiers = tiers_after w page_id target w' fits spec v.tiers;
          }

    module _ {F : Type 0} (ops : DoubleOps F) (policy : PolicyConfig F)
        (typed : IsTyped policy) where
      abbrev Keeps : {A : Type 0} → Run World A → Type 0
      Keeps m = Returns (λ a w'. Inv num_tiers w') m

      -- A turn of the scanner returns, and keeps the invariant.
      pub scan_step-Inv :
          (w : World) → Inv num_tiers w → Keeps (scan_step ops machine policy num_tiers w)
      scan_step-Inv =
          scan_step-Keeps num_tiers machine ops policy typed (Inv num_tiers) Inv-Ticked
            (λ w v. Returns-mono (scan_next-Inv w v) λ k w' (v', _). v') migrate-Inv

      -- If every `move_pages` succeeds, and without the cache ring and with a policy that holds the
      -- parameters of its type, the scanner thread returns and keeps the invariant (no cache ring, counts that are those of the pages and within the
      -- capacities, the index in range, no remote page with two tiers), however often it goes round.
      pub run_scanner-Inv :
          (stops : List Bool) (w : World)
          → Inv num_tiers w
          → Keeps (run_scanner ops machine policy num_tiers stops w)
      unfolding run_scanner
      run_scanner-Inv [] w v = returns v
      run_scanner-Inv (true ∷ stops) w v = returns v
      run_scanner-Inv (false ∷ stops) w v =
          Returns-bind (scan_step-Inv w v) λ u w' v'. run_scanner-Inv stops w' v'
