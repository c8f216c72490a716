-- ===== src/PageTable/Moves.antt =====
-- What a migration leaves: the page on its new layer, all other pages as they were, and a consistent
-- configuration.
use memory_tiering.Base.{
  ℕ, ◌+◌, ◌≤◌, ◌<◌, ◌≡◌, ◌≢◌, refl, ap, ◌∙◌, true, false, some, arith, if◌then◌else◌, inc64, dec64,
}
use memory_tiering.Common.{PageLayer, numa_local, numa_remote, pmem, is_full}
use memory_tiering.Machine.{Machine}
use memory_tiering.PageTable.{
  World, layer_info, set_count, count_event, count_migration, uses_ring, migrated, stamped,
}
use memory_tiering.PageTable.Entries.{
  PageTableEntry, Table, find, update, same_layer, pages_on, pages_on-update, find-update_self,
  find-update_ne,
}
use memory_tiering.PageTable.Consistent.{
  IsConsistent, count-set_count, capacity-set_count, counts_follow, bit, layer_info-count_event,
}
use memory_tiering.PageTable.Migrate.{after, ms}

same_layer_refl : (l : PageLayer) → same_layer l l ≡ true
same_layer_refl numa_local = refl
same_layer_refl numa_remote = refl
same_layer_refl pmem = refl

pub layer_eq : (k l : PageLayer) → same_layer k l ≡ true → k ≡ l
layer_eq numa_local numa_local h = refl
layer_eq numa_remote numa_remote h = refl
layer_eq pmem pmem h = refl
layer_eq numa_local numa_remote h = absurd (cc)
layer_eq numa_local pmem h = absurd (cc)
layer_eq numa_remote numa_local h = absurd (cc)
layer_eq numa_remote pmem h = absurd (cc)
layer_eq pmem numa_local h = absurd (cc)
layer_eq pmem numa_remote h = absurd (cc)

module _ (machine : Machine) (w : World) (page_index : ℕ) (target : PageLayer) (e : PageTableEntry)
    (found : find page_index w.table ≡ some e) (off : uses_ring w e.page_layer ≡ false)
    (off' : uses_ring w target ≡ false) where
  abbrev w' : World
  w' = after machine w page_index target e found off off'

  abbrev moved_entry : PageTableEntry
  moved_entry = stamped (ms machine w page_index target e found off off') (migrated target e)

  abbrev mid : Table
  mid = update page_index (migrated target) w.table

  found_mid : find page_index mid ≡ some (migrated target e)
  found_mid = find-update_self page_index _ w.table e found

  table_after :
      w'.table ≡ update page_index (stamped (ms machine w page_index target e found off off')) mid
  unfolding count_event set_count
  table_after = refl

  pub find_after : find page_index w'.table ≡ some moved_entry
  find_after = ap (find page_index) table_after ∙ find-update_self page_index _ mid _ found_mid

  pub find_after_ne : (i : ℕ) → page_index ≢ i → find i w'.table ≡ find i w.table
  find_after_ne i ne =
      ap (find i) table_after
      ∙ find-update_ne page_index i _ mid ne
      ∙ find-update_ne page_index i _ w.table ne

  pages_after :
      (l : PageLayer)
      → pages_on l w'.table + bit (same_layer e.page_layer l)
        ≡ pages_on l w.table + bit (same_layer target l)
  pages_after l = omega (
    arith,
    ap (pages_on l) table_after,
    pages_on-update l page_index (stamped (ms machine w page_index target e found off off')) mid _
        found_mid,
    pages_on-update l page_index (migrated target) w.table e found,
  )

  abbrev base : World
  base = record w { ticks = w.ticks + 1 + 1; table = w'.table }

  layer_info-base : (l : PageLayer) → layer_info l base ≡ layer_info l w
  unfolding layer_info
  layer_info-base numa_local = refl
  layer_info-base numa_remote = refl
  layer_info-base pmem = refl

  less : World
  less = set_count e.page_layer dec64 base

  info_after : (l : PageLayer) → layer_info l w' ≡ layer_info l (set_count target inc64 less)
  unfolding less count_event set_count
  info_after l = layer_info-count_event (count_migration e.page_layer target) _ l

  count_less :
      (l : PageLayer)
      → (layer_info l less).count ≡ (
          if same_layer e.page_layer l
          then dec64 (layer_info l w).count
          else (layer_info l w).count)
  unfolding less
  count_less l = rw (← layer_info-base l) (count-set_count base dec64 e.page_layer l)

  count_after :
      (l : PageLayer)
      → (layer_info l w').count ≡ (
          if same_layer target l
          then inc64 (layer_info l less).count
          else (layer_info l less).count)
  count_after l = ap (λ i. i.count) (info_after l) ∙ count-set_count less inc64 target l

  capacity_after : (l : PageLayer) → (layer_info l w').capacity ≡ (layer_info l w).capacity
  unfolding less
  capacity_after l =
      ap (λ i. i.capacity) (info_after l)
      ∙ capacity-set_count (set_count e.page_layer dec64 base) inc64 target l
      ∙ capacity-set_count base dec64 e.page_layer l
      ∙ ap (λ i. i.capacity) (layer_info-base l)

  -- A migration to a layer that is not full keeps the configuration consistent.
  pub after-IsConsistent : IsConsistent w → is_full (layer_info target w) ≡ false → IsConsistent w'
  after-IsConsistent is room = record {
    counted = λ l. rw (count_after l, count_less l) (follow l).0;
    within = λ l. rw (capacity_after l, count_after l, count_less l) (follow l).1;
    small = λ l. rw (capacity_after l) (is.small l);
  }
    where
      room_at :
          (l : PageLayer)
          → same_layer target l ≡ true
          → (layer_info l w).count < (layer_info l w).capacity
      room_at l same = let q = layer_eq target l same in rw (← q) (ground arith)

      follow :
          (l : PageLayer)
          → let c =
              (if same_layer e.page_layer l
                then dec64 (layer_info l w).count
                else (layer_info l w).count) in
            let c' = (if same_layer target l then inc64 c else c) in
            (c' ≡ pages_on l w'.table) × (c' ≤ (layer_info l w).capacity)
      follow l =
          counts_follow (layer_info l w).count (layer_info l w).capacity (pages_on l w.table)
            (pages_on l w'.table) (same_layer e.page_layer l) (same_layer target l) (is.counted l)
            (is.within l) (is.small l) (pages_after l) (room_at l)
