-- ===== src/Scanner/Keeps.antt =====
-- What a turn of the scanner keeps, given what its steps keep: any property of the page table that
-- survives a reading of the clock, the choice of the next page and a migration to a layer that the
-- configuration has.
use memory_tiering.Base.{ℕ, ◌≡◌, ◌≢◌, true, false, ◌==◌, if◌then◌else◌, ==-true}
use memory_tiering.Base.Run.{Run, pure, Returns, returns, Returns-bind, ◌>>=◌}
use memory_tiering.Common.{PageLayer, numa_local, numa_remote, pmem, PolicyConfig}
use memory_tiering.Machine.{Machine}
use memory_tiering.PageTable.{World, scan_next, migrate_page}
use memory_tiering.Scanner.{
  DoubleOps, PageStatus, hot, warm, cold, react, migrate, scan_step, classify_hot_page,
}
use memory_tiering.Scanner.Policy.{IsTyped, Ticked, classify_hot-Ticked, classify_page-Ticked}

module _ (num_tiers : ℕ) (machine : Machine) {F : Type 0} (ops : DoubleOps F)
    (policy : PolicyConfig F) (typed : IsTyped policy) (P : World → Type 0)
    (ticked : (w w' : World) → Ticked w w' → P w → P w')
    (chosen : (w : World) → P w → Returns (λ k w'. P w') (scan_next w))
    (moved : (page_id : ℕ) (target : PageLayer) (w : World)
      → (num_tiers ≡ 2 → target ≢ numa_remote)
      → P w
      → Returns (λ u w'. P w') (migrate_page machine 2 page_id target w)) where
  abbrev Keeps : {A : Type 0} → Run World A → Type 0
  Keeps m = Returns (λ a w'. P w') m

  step_migrate :
      (page_id : ℕ) (target : PageLayer) (w : World)
      → (num_tiers ≡ 2 → target ≢ numa_remote)
      → P w
      → Keeps (migrate ops machine policy page_id target w)
  unfolding migrate
  step_migrate = moved

  promote_if_hot :
      (page_id last cnt : ℕ) (w : World)
      → P w
      → Keeps (
          (classify_hot_page ops machine policy last cnt >>= λ is_so.
          if is_so then migrate ops machine policy page_id numa_local else pure tt)
            w)
  promote_if_hot page_id last cnt w v =
      Returns-bind (classify_hot-Ticked ops machine policy typed last cnt w) (elim [
        | true ↦ λ w' t. step_migrate page_id numa_local w' (λ _ e. cc) (ticked w w' t v)
        | false ↦ λ w' t. returns (ticked w w' t v)
      ])

  tier_below : (num_tiers ≡ 2 → (if num_tiers == 2 then pmem else numa_remote) ≢ numa_remote)
  tier_below two = rw (==-true num_tiers 2 two) (λ e. cc)

  tier_above : (num_tiers ≡ 2 → (if num_tiers == 2 then numa_local else numa_remote) ≢ numa_remote)
  tier_above two = rw (==-true num_tiers 2 two) (λ e. cc)

  react-Keeps :
      (page_id last cnt : ℕ) (layer : PageLayer) (status : PageStatus) (w : World)
      → P w
      → Keeps (react ops machine policy num_tiers page_id last cnt layer status w)
  unfolding react
  react-Keeps page_id last cnt numa_local hot w v = returns v
  react-Keeps page_id last cnt numa_local warm w v = returns v
  react-Keeps page_id last cnt numa_local cold w v = step_migrate page_id _ w tier_below v
  react-Keeps page_id last cnt numa_remote hot w v = promote_if_hot page_id last cnt w v
  react-Keeps page_id last cnt numa_remote warm w v = promote_if_hot page_id last cnt w v
  react-Keeps page_id last cnt numa_remote cold w v = step_migrate page_id pmem w (λ _ e. cc) v
  react-Keeps page_id last cnt pmem hot w v = step_migrate page_id numa_local w (λ _ e. cc) v
  react-Keeps page_id last cnt pmem warm w v = step_migrate page_id _ w tier_above v
  react-Keeps page_id last cnt pmem cold w v = returns v

  pub scan_step-Keeps : (w : World) → P w → Keeps (scan_step ops machine policy num_tiers w)
  unfolding scan_step
  scan_step-Keeps w v = Returns-bind (chosen w v) λ k w1 v1.
      Returns-bind (classify_page-Ticked ops machine policy _ _ typed w1)
        λ status w2 t. react-Keeps k _ _ _ status w2 (ticked w1 w2 t v1)
