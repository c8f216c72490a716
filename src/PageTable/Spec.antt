-- ===== src/PageTable/Spec.antt =====
-- `migratePage` as a whole, when there is no cache ring.
use memory_tiering.Base.{
  ℕ, suc, ◌≡◌, ◌≢◌, refl, ◌∙◌, false, none, some, if◌then◌else◌, Bool-cases, inl, inr, Option-cases,
  length,
}
use memory_tiering.Base.Run.{Returns, Returns-ok}
use memory_tiering.Common.{
  PageLayer, numa_local, numa_remote, pmem, LayerInfo, ServerMemoryConfig, is_full,
}
use memory_tiering.Machine.{Machine}
use memory_tiering.PageTable.{
  World, layer_info, uses_ring, migrate_page, set_count, set_layer_info, count_event,
}
use memory_tiering.PageTable.Entries.{PageTableEntry, find, length-update}
use memory_tiering.PageTable.Consistent.{IsConsistent}
use memory_tiering.PageTable.Tally.{total_accesses, total-count_migration}
use memory_tiering.PageTable.Migrate.{after, migrate_absent, migrate_full, migrate_ok}
use memory_tiering.PageTable.Moves.{find_after, find_after_ne, after-IsConsistent}

-- The page is on the target layer with its access count cleared, and no other page has changed.
pub record Moves (w : World) (page_index : ℕ) (e : PageTableEntry) (target : PageLayer) (w' : World)
    : Type 0 where
  pub now : ℕ
  pub moved :
      find page_index w'.table
      ≡ some (record e { page_layer = target; last_access_time_ms = now; access_cnt = 0 })
  pub others : (i : ℕ) → page_index ≢ i → find i w'.table ≡ find i w.table

-- What `migratePage` is to do: move the page, if it is there and the target layer is not full.
abbrev pub MigrateSpec : World → ℕ → PageLayer → World → Type 0
MigrateSpec w page_index target w' = elim (find page_index w.table) [
  | none ↦ w' ≡ w
  | some e ↦ if is_full (layer_info target w) then w' ≡ w else Moves w page_index e target w'
]

-- The system call succeeds whenever it is made.
abbrev pub MovesPages : Machine → Type 0
MovesPages machine = (n addr node : ℕ) → machine.move_pages n addr node ≡ 0

-- What every run of `migratePage` leaves as it is.
pub record SameSetup (w w' : World) : Type 0 where
  pub same_ring : w'.enable_cache_ring ≡ w.enable_cache_ring
  pub same_scan_index : w'.scan_index ≡ w.scan_index
  pub same_size : length w'.table ≡ length w.table
  pub same_tiers : w'.server_config.num_tiers ≡ w.server_config.num_tiers
  pub same_samples : w'.metrics.access_latency ≡ w.metrics.access_latency
  pub same_accesses : total_accesses w'.metrics.now ≡ total_accesses w.metrics.now

abbrev pub Result : World → ℕ → PageLayer → Unit {0} → World → Type 0
Result w page_index target u w' =
    MigrateSpec w page_index target w' × (IsConsistent w → IsConsistent w') × SameSetup w w'

SameSetup-refl : (w : World) → SameSetup w w
SameSetup-refl w = record {
  same_ring = refl;
  same_scan_index = refl;
  same_size = refl;
  same_tiers = refl;
  same_samples = refl;
  same_accesses = refl;
}

pub uses_ring_off :
    (w : World) (l : PageLayer) → w.enable_cache_ring ≡ false → uses_ring w l ≡ false
uses_ring_off w l off = rw off refl

pub num_tiers-set :
    (l : PageLayer) (i : LayerInfo) (c : ServerMemoryConfig)
    → (set_layer_info l i c).num_tiers ≡ c.num_tiers
unfolding set_layer_info
num_tiers-set numa_local i c = refl
num_tiers-set numa_remote i c = refl
num_tiers-set pmem i c = refl

module _ (machine : Machine) (moves : MovesPages machine) (fuel : ℕ) (w : World) (page_index : ℕ)
    (target : PageLayer) (off : w.enable_cache_ring ≡ false) where
  after-SameSetup :
      (e : PageTableEntry) (found : find page_index w.table ≡ some e)
      (o : uses_ring w e.page_layer ≡ false) (o' : uses_ring w target ≡ false)
      → SameSetup w (after machine w page_index target e found o o')
  unfolding count_event set_count
  after-SameSetup e found o o' = record {
    same_ring = refl;
    same_scan_index = refl;
    same_size = length-update page_index _ _ ∙ length-update page_index _ w.table;
    same_tiers = num_tiers-set target _ _ ∙ num_tiers-set e.page_layer _ w.server_config;
    same_samples = refl;
    same_accesses = total-count_migration e.page_layer target w.metrics.now;
  }

  migrate_found :
      (e : PageTableEntry)
      → find page_index w.table ≡ some e
      → Returns (Result w page_index target) (migrate_page machine (suc fuel) page_index target w)
  migrate_found e found =
      let o = uses_ring_off w e.page_layer off in
      let o' = uses_ring_off w target off in
      elim (Bool-cases (is_full (layer_info target w))) [
        | inl full ↦
            Returns-ok tt w (migrate_full machine w page_index target e found o o' fuel full)
              (rw (found, MigrateSpec, full) refl, λ c. c, SameSetup-refl w)
        | inr room ↦
            Returns-ok tt (after machine w page_index target e found o o')
              (migrate_ok machine w page_index target e found o o' fuel room (moves _ _ _))
              (
                rw (found, MigrateSpec, room)
                    (record {
                      now = _;
                      moved = find_after machine w page_index target e found o o';
                      others = find_after_ne machine w page_index target e found o o';
                    }),
                λ c. after-IsConsistent machine w page_index target e found o o' c room,
                after-SameSetup e found o o',
              )
      ]

  -- With no cache ring and a system call that succeeds, `migratePage` returns, moves the page exactly
  -- when it is there and the target layer is not full, changes nothing otherwise, and keeps the
  -- configuration consistent.
  pub migrate_page-Result :
      Returns (Result w page_index target) (migrate_page machine (suc fuel) page_index target w)
  migrate_page-Result = elim (Option-cases (find page_index w.table)) [
    | inl absent ↦
        Returns-ok tt w (migrate_absent machine w page_index target fuel absent)
          (rw (absent, MigrateSpec) refl, λ c. c, SameSetup-refl w)
    | inr (e, found) ↦ migrate_found e found
  ]
