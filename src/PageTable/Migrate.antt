-- ===== src/PageTable/Migrate.antt =====
-- `migratePage` without the cache ring: every branch, and that it keeps the configuration consistent.
use memory_tiering.Base.{
  ℕ, suc, ◌+◌, ◌/◌, ◌≡◌, refl, ◌∙◌, Bool, true, false, not, none, some, if◌then◌else◌, inc64, dec64,
}
use memory_tiering.Base.Run.{Cmd, pure, ok}
use memory_tiering.Common.{PageLayer, is_full}
use memory_tiering.Machine.{Machine}
use memory_tiering.PageTable.{
  World, layer_info, set_count, update_entry, count_event, count_migration, target_node, uses_ring,
  migrated, stamped, migrate_page, on_page, migrate_entry, make_room, carry_out, attach, detach,
  move_page_to_node, reading, now_ms,
}
use memory_tiering.PageTable.Entries.{PageTableEntry, find, update}

pub on_page-none :
    (k : ℕ) (f : PageTableEntry → Cmd World (Unit {0})) (w : World)
    → find k w.table ≡ none
    → on_page k f w ≡ ok tt w
unfolding on_page
on_page-none k f w absent = rw (absent, on_page) refl

pub on_page-some :
    (k : ℕ) (f : PageTableEntry → Cmd World (Unit {0})) (w : World) {e : PageTableEntry}
    → find k w.table ≡ some e
    → on_page k f w ≡ f e w
unfolding on_page
on_page-some k f w found = rw (found, on_page) refl

pub migrate_page-suc :
    (machine : Machine) (fuel page_index : ℕ) (target : PageLayer) (w : World)
    → migrate_page machine (suc fuel) page_index target w
      ≡ on_page page_index
          (λ e. migrate_entry machine (migrate_page machine fuel) page_index e target)
          w
unfolding migrate_page
migrate_page-suc machine fuel page_index target w = refl

module _ (machine : Machine) where
  pub detach_off :
      (page_index : ℕ) (e : PageTableEntry) (w : World)
      → uses_ring w e.page_layer ≡ false
      → detach machine page_index e w ≡ ok tt w
  unfolding detach
  detach_off page_index e w off = rw (off, detach) refl

  pub attach_off :
      (page_index : ℕ) (target : PageLayer) (w : World)
      → uses_ring w target ≡ false
      → attach machine page_index target w ≡ ok tt w
  unfolding attach
  attach_off page_index target w off = rw (off, attach) refl

  pub make_room_off :
      (again : ℕ → PageLayer → Cmd World (Unit {0})) (target : PageLayer) (w : World)
      → uses_ring w target ≡ false
      → make_room machine again target w ≡ ok (not (is_full (layer_info target w))) w
  unfolding make_room
  make_room_off again target w off = rw (off, make_room) (go (is_full (layer_info target w)))
    where
      go : (b : Bool) → (if b then pure false else pure true) w ≡ ok (not b) w
      go true = refl
      go false = refl

module _ (machine : Machine) (w : World) (page_index : ℕ) (target : PageLayer) where
  -- An unknown page is left alone.
  pub migrate_absent :
      (fuel : ℕ)
      → find page_index w.table ≡ none
      → migrate_page machine (suc fuel) page_index target w ≡ ok tt w
  migrate_absent fuel absent =
      migrate_page-suc machine fuel page_index target w ∙ on_page-none page_index _ w absent

  module _ (e : PageTableEntry) (found : find page_index w.table ≡ some e)
      (off : uses_ring w e.page_layer ≡ false) (off' : uses_ring w target ≡ false) where
    -- A full target layer: nothing happens.
    pub migrate_full :
        (fuel : ℕ)
        → is_full (layer_info target w) ≡ true
        → migrate_page machine (suc fuel) page_index target w ≡ ok tt w
    unfolding migrate_entry
    migrate_full fuel full =
        migrate_page-suc machine fuel page_index target w
        ∙ on_page-some page_index _ w found
        ∙ rw (detach_off machine page_index e w off, make_room_off machine _ target w off', full)
            refl

    -- The state after a migration.
    abbrev pub ms : ℕ
    ms = machine.steady_clock (w.ticks + 1) / 1_000_000

    abbrev pub after : World
    after = count_event (count_migration e.page_layer target) (
        set_count target inc64 (
          set_count e.page_layer dec64 (record w {
            ticks = w.ticks + 1 + 1;
            table = update page_index (stamped ms) (update page_index (migrated target) w.table);
          })))

    -- There is room, and the system call succeeds.
    pub migrate_ok :
        (fuel : ℕ)
        → is_full (layer_info target w) ≡ false
        → machine.move_pages w.ticks e.page_address (target_node target) ≡ 0
        → migrate_page machine (suc fuel) page_index target w ≡ ok tt after
    unfolding migrate_entry carry_out move_page_to_node reading now_ms update_entry
    migrate_ok fuel room moved =
        migrate_page-suc machine fuel page_index target w
        ∙ on_page-some page_index _ w found
        ∙ rw
            (
              detach_off machine page_index e w off,
              make_room_off machine _ target w off',
              room,
              moved,
              attach_off machine page_index target
                  (record w {
                    ticks = w.ticks + 1;
                    table = update page_index (migrated target) w.table;
                  })
                  off',
            )
            refl
