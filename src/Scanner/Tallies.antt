-- ===== src/Scanner/Tallies.antt =====
-- The scanner loses no page and counts no access; an access to a page that is there is counted.
use memory_tiering.Base.{
  ℕ, ◌+◌, ◌<◌, ◌≡◌, ◌≢◌, refl, sym, ap, ◌∙◌, subst, some, arith, ◌==◌, inl, inr, Bool-cases,
  Option-cases, eq_of_==, ne_of_==, add64, length,
}
use memory_tiering.Base.Run.{Returns, returns, Returns-both, Returns-Whenever}
use memory_tiering.Common.{PageLayer, numa_remote, PolicyConfig, is_full}
use memory_tiering.Machine.{Machine}
use memory_tiering.PageTable.{World, scan_next, migrate_page, access_page_of, layer_info, accessed}
use memory_tiering.PageTable.Entries.{PageTableEntry, find}
use memory_tiering.PageTable.Spec.{MovesPages, MigrateSpec, Moves, migrate_page-Result}
use memory_tiering.PageTable.Tally.{Tallied, total_accesses, total-count_access}
use memory_tiering.PageTable.Access.{access_page_of-Accesses}
use memory_tiering.Scanner.{DoubleOps, scan_step}
use memory_tiering.Scanner.Policy.{IsTyped, with_ticks, Ticked}
use memory_tiering.Scanner.Keeps.{scan_step-Keeps}
use memory_tiering.Scanner.Accesses.{access-Inv}
use memory_tiering.Scanner.Invariant.{Inv, Inv-Ticked, scan_next-Inv, migrate-Inv}

abbrev pub Has : World → ℕ → Type 0
Has w i = (e : PageTableEntry) × (find i w.table ≡ some e)

-- The pages below `pages` are there, and so many accesses have been counted.
pub record Counted (num_tiers pages k : ℕ) (w : World) : Type 0 where
  pub inv : Inv num_tiers w
  pub present : (i : ℕ) → i < pages → Has w i
  pub tally : Tallied k w

-- A page stays there when another entry, or its own, is written.
Has-written :
    (w w' : World) (page_id : ℕ) (d : PageTableEntry)
    → find page_id w'.table ≡ some d
    → ((i : ℕ) → page_id ≢ i → find i w'.table ≡ find i w.table)
    → (i : ℕ) → Has w i
    → Has w' i
Has-written w w' page_id d own others i (e, at) = elim (Bool-cases (page_id == i)) [
  | inl q ↦ (d, subst (λ j. find j w'.table ≡ some d) (eq_of_== page_id i q) own)
  | inr q ↦ (e, others i (ne_of_== page_id i q) ∙ at)
]

Has-migrated :
    (w : World) (page_id : ℕ) (target : PageLayer) (w' : World)
    → MigrateSpec w page_id target w'
    → (i : ℕ) → Has w i
    → Has w' i
Has-migrated w page_id target w' spec i (e, at) = elim (Option-cases (find page_id w.table)) [
  | inl absent ↦
      let same : w' ≡ w = rw (absent, MigrateSpec) at spec in
      (e, ap (λ v. find i v.table) same ∙ at)
  | inr (d, found) ↦ elim (Bool-cases (is_full (layer_info target w))) [
    | inl full ↦
        let same : w' ≡ w = rw (found, MigrateSpec, full) at spec in
        (e, ap (λ v. find i v.table) same ∙ at)
    | inr room ↦
        let m : Moves w page_id d target w' = rw (found, MigrateSpec, room) at spec in
        Has-written w w' page_id _ m.moved m.others i (e, at)
  ]
]

module _ (num_tiers pages k : ℕ) where
  abbrev CountedOf : World → Type 0
  CountedOf = Counted num_tiers pages k

  Counted-Ticked : (w w' : World) → Ticked w w' → CountedOf w → CountedOf w'
  Counted-Ticked w w' (n, e) v = subst CountedOf (sym e) (record {
    inv = Inv-Ticked num_tiers w (with_ticks w n) (n, refl) v.inv;
    present = v.present;
    tally = record { samples = v.tally.samples; counters = v.tally.counters };
  })

  scan_next-Counted : (w : World) → CountedOf w → Returns (λ j w'. CountedOf w') (scan_next w)
  unfolding scan_next
  scan_next-Counted w v = returns (record {
    inv = (Returns-Whenever _ (scan_next-Inv num_tiers w v.inv)).0;
    present = v.present;
    tally = record { samples = v.tally.samples; counters = v.tally.counters };
  })

  module _ (machine : Machine) (moves : MovesPages machine) where
    migrate-Counted :
        (page_id : ℕ) (target : PageLayer) (w : World)
        → (num_tiers ≡ 2 → target ≢ numa_remote)
        → CountedOf w
        → Returns (λ u w'. CountedOf w') (migrate_page machine 2 page_id target w)
    migrate-Counted page_id target w fits v =
        Returns-both (migrate-Inv num_tiers machine moves page_id target w fits v.inv)
          (migrate_page-Result machine moves 1 w page_id target v.inv.off)
          λ u w' inv (spec, keep, same). record {
            inv = inv;
            present = λ i h. Has-migrated w page_id target w' spec i (v.present i h);
            tally = record {
              samples = ap (length {0}) same.same_samples ∙ v.tally.samples;
              counters = same.same_accesses ∙ v.tally.counters;
            };
          }

    -- A turn of the scanner returns, keeps every page and the invariant, and counts no access.
    pub scan_step-Counted :
        {F : Type 0} (ops : DoubleOps F) (policy : PolicyConfig F)
        → IsTyped policy
        → (w : World) → CountedOf w
        → Returns (λ u w'. CountedOf w') (scan_step ops machine policy num_tiers w)
    scan_step-Counted ops policy typed =
        scan_step-Keeps num_tiers machine ops policy typed CountedOf Counted-Ticked
          scan_next-Counted migrate-Counted

-- An access to one of the pages returns, and is counted.
pub access-Counted :
    (num_tiers pages k page_id : ℕ) (machine : Machine) (w : World)
    → page_id < pages
    → Counted num_tiers pages k w
    → Returns (λ u w'. Counted num_tiers pages (k + 1) w') (access_page_of machine page_id w)
access-Counted num_tiers pages k page_id machine w lt v =
    let (e, found) = v.present page_id lt in
    Returns-both (access-Inv num_tiers machine page_id w v.inv)
      (access_page_of-Accesses machine page_id w e found (rw v.inv.off refl))
      λ u w' inv a. record {
        inv = inv;
        present =
            λ i h. Has-written w w' page_id (accessed a.now e) a.noted a.others i (v.present i h);
        tally = record {
          samples = omega (arith, ap (length {0}) a.samples, v.tally.samples);
          counters = omega (
            arith,
            ap total_accesses a.counters,
            total-count_access e.page_layer (record (w.metrics.now) {
              total_latency = add64 w.metrics.now.total_latency a.latency;
            }),
            v.tally.counters,
          );
        };
      }
