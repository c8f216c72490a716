-- ===== src/PageTable/Demoted.antt =====
-- `migratePage` with the cache ring on, of a local page to a lower layer that has room.
use memory_tiering.Base.{
  ℕ, suc, ◌+◌, ◌/◌, inc64, dec64, ◌≡◌, ◌≢◌, refl, sym, ap, ◌∙◌, true, false, some, List, arith,
  ◌==◌, Bool-cases, inl, inr, eq_of_==, ne_of_==,
}
use mathlib.Core.Option.{some-injective}
use memory_tiering.Base.Run.{ok, Returns, Returns-run, Returns-ok}
use memory_tiering.Common.{PageLayer, numa_local, numa_remote, pmem, is_full}
use memory_tiering.Machine.{Machine}
use memory_tiering.ClockRing.{ClockRing, Ptr, nullptr, remove}
use memory_tiering.ClockRing.Cells.{Cell, has, delete}
use memory_tiering.PageTable.{
  World, layer_info, set_layer_info, update_entry, set_count, count_event, count_migration,
  move_page_to_node, reading, now_ms, target_node, migrated, stamped, carry_out, migrate_entry,
  migrate_page, uses_ring,
}
use memory_tiering.PageTable.Entries.{
  PageTableEntry, find, update, find-update_self, find-update_ne, pages_on-update,
}
use memory_tiering.PageTable.Consistent.{IsConsistent, IsConsistent-same, layer_info-same}
use memory_tiering.PageTable.Coupled.{EntryOf}
use memory_tiering.PageTable.Migrate.{
  after, on_page-some, migrate_page-suc, make_room_off, attach_off,
}
use memory_tiering.PageTable.Moves.{find_after, find_after_ne, after-IsConsistent}
use memory_tiering.PageTable.RingFaults.{
  with_ring, far_from_ring, cleared, removed, detach_ok, same_info,
}
use memory_tiering.PageTable.Ringed.{Ringed, places, has-places}
use memory_tiering.PageTable.Deleted.{
  has-delete_self, places-delete, places_unique, Coupled-delete, Coupled-others, has_not_null,
}

-- The page is on its new layer without a node, and ring and table are in step.
pub record Demotes (w : World) (page_id : ℕ) (e : PageTableEntry) (target : PageLayer)
    (xs : List Cell) (w' : World) : Type 0 where
  pub now : ℕ
  pub moved :
      find page_id w'.table
      ≡ some (record e {
        page_layer = target;
        last_access_time_ms = now;
        access_cnt = 0;
        ring_node_ptr = nullptr;
      })
  pub others : (i : ℕ) → page_id ≢ i → find i w'.table ≡ find i w.table
  pub ringed : Ringed w' (delete e.ring_node_ptr xs)
  pub consistent : IsConsistent w → IsConsistent w'

-- The counts do not depend on whether the ring is on.
flagged :
    (w : World) (k l : PageLayer)
    → record (set_count l inc64 (set_count k dec64 (record w { enable_cache_ring = false }))) {
      enable_cache_ring = w.enable_cache_ring;
    }
      ≡ set_count l inc64 (set_count k dec64 w)
unfolding set_count layer_info set_layer_info
flagged w numa_local numa_local = refl
flagged w numa_local numa_remote = refl
flagged w numa_local pmem = refl
flagged w numa_remote numa_local = refl
flagged w numa_remote numa_remote = refl
flagged w numa_remote pmem = refl
flagged w pmem numa_local = refl
flagged w pmem numa_remote = refl
flagged w pmem pmem = refl

module _ (machine : Machine) (page_id : ℕ) (w : World) (e : PageTableEntry)
    (found : find page_id w.table ≡ some e) (xs : List Cell) (v : Ringed w xs)
    (local : e.page_layer ≡ numa_local) (target : PageLayer) (far : target ≢ numa_local) where
  abbrev p : Ptr
  p = e.ring_node_ptr

  held : has p xs ≡ true
  held = has-places page_id p xs (v.every page_id e found local)

  abbrev of : EntryOf w.table page_id p
  of = record {
    entry = e;
    found = found;
    local = local;
    node = refl;
    not_null = has_not_null w.table p xs v.coupled held;
  }

  -- The world after the page has left the ring, as it would be with the ring off.
  abbrev w1 : ClockRing → World
  w1 r = record (with_ring (cleared machine w v.ring xs v.on v.held v.is page_id p of held) r) {
    enable_cache_ring = false;
  }

  abbrev without : PageTableEntry
  without = record e { ring_node_ptr = nullptr }

  found1 : (r : ClockRing) → find page_id (w1 r).table ≡ some without
  unfolding update_entry
  found1 r = find-update_self page_id _ w.table e found

  off : (r : ClockRing) (l : PageLayer) → uses_ring (w1 r) l ≡ false
  off r l = refl

  abbrev result : ClockRing → World
  result r =
      record (after machine (w1 r) page_id target without (found1 r) (off r e.page_layer)
        (off r target)) { enable_cache_ring = w.enable_cache_ring }

  abbrev gone : ClockRing → World
  gone r = with_ring (cleared machine w v.ring xs v.on v.held v.is page_id p of held) r

  -- Before the counts are changed.
  abbrev halfway : ClockRing → World
  halfway r = record (gone r) {
    ticks = w.ticks + 1 + 1;
    table =
        update page_id (stamped (machine.steady_clock (w.ticks + 1) / 1_000_000))
          (update page_id (migrated target) (gone r).table);
  }

  demotes :
      (fuel : ℕ) (r : ClockRing)
      → remove p v.ring ≡ ok tt r
      → is_full (layer_info target w) ≡ false
      → machine.move_pages w.ticks e.page_address (target_node target) ≡ 0
      → migrate_page machine (suc fuel) page_id target w
        ≡ ok tt (
            count_event
              (count_migration e.page_layer target)
              (set_count target inc64 (set_count e.page_layer dec64 (halfway r))))
  unfolding migrate_entry carry_out move_page_to_node reading now_ms update_entry
  demotes fuel r run room moves =
      let space : is_full (layer_info target (gone r)) ≡ false =
        rw (same_info machine w v.ring xs v.on v.held v.is page_id p of held r target) room in
      migrate_page-suc machine fuel page_id target w
      ∙ on_page-some page_id _ w found
      ∙ rw
          (
            detach_ok machine w v.ring xs v.on v.held v.is page_id p of held r run,
            make_room_off machine _ target (gone r) (far_from_ring (gone r) target far),
            space,
            moves,
            attach_off machine page_id target
                (record (gone r) {
                  ticks = w.ticks + 1;
                  table = update page_id (migrated target) (gone r).table;
                })
                (far_from_ring (gone r) target far),
          )
          refl

  result_lem :
      (r : ClockRing)
      → count_event
          (count_migration e.page_layer target)
          (set_count target inc64 (set_count e.page_layer dec64 (halfway r)))
        ≡ result r
  unfolding update_entry count_event
  result_lem r =
      ap (count_event (count_migration e.page_layer target))
        (sym (flagged (halfway r) e.page_layer target))

  info1 : (r : ClockRing) (l : PageLayer) → layer_info l (w1 r) ≡ layer_info l w
  unfolding update_entry
  info1 r l = layer_info-same w (w1 r) l refl

  consistent1 : (r : ClockRing) → IsConsistent w → IsConsistent (w1 r)
  unfolding update_entry
  consistent1 r c = record {
    counted = λ l.
        ap (λ i. i.count) (info1 r l)
        ∙ c.counted l
        ∙ omega (
          arith,
          pages_on-update l page_id (λ d. record d { ring_node_ptr = nullptr }) w.table e found,
        );
    within = λ l. rw (info1 r l) (c.within l);
    small = λ l. rw (info1 r l) (c.small l);
  }

  others_after : (r : ClockRing) (i : ℕ) → page_id ≢ i → find i (result r).table ≡ find i w.table
  unfolding update_entry
  others_after r i ne =
      find_after_ne machine (w1 r) page_id target without (found1 r) (off r e.page_layer)
        (off r target) i ne
      ∙ find-update_ne page_id i _ w.table ne

  -- A page that is still local has kept its node.
  every_after :
      (r : ClockRing) (i : ℕ) (x : PageTableEntry)
      → find i (result r).table ≡ some x
      → x.page_layer ≡ numa_local
      → places i x.ring_node_ptr (delete p xs) ≡ true
  every_after r i x at near = elim (Bool-cases (page_id == i)) [
    | inl q ↦
        let here = ap (λ j. find j (result r).table) (eq_of_== page_id i q) ∙ at in
        let moved =
          find_after machine (w1 r) page_id target without (found1 r) (off r e.page_layer)
            (off r target) in
        let same = some-injective _ x (sym moved ∙ here) in
        absurd (far (ap (λ y. y.page_layer) same ∙ near))
    | inr q ↦
        let ne = ne_of_== page_id i q in
        let before = v.every i x (sym (others_after r i ne) ∙ at) near in
        let mine = v.every page_id e found local in
        places-delete i x.ring_node_ptr p xs (λ z. ne (
          places_unique page_id i p xs v.is.distinct mine
            (ap (λ a. places i a xs) (sym z) ∙ before)))
        ∙ before
  ]

  -- With the ring on and in step with the page table: a local page whose lower target layer has room
  -- is migrated, if `move_pages` succeeds; its node, and no other, leaves the ring, no other entry
  -- changes, ring and table stay in step, and so do the counts with the pages.
  pub demote_with_room :
      (fuel : ℕ)
      → is_full (layer_info target w) ≡ false
      → machine.move_pages w.ticks e.page_address (target_node target) ≡ 0
      → Returns
          (λ u w'. Demotes w page_id e target xs w')
          (migrate_page machine (suc fuel) page_id target w)
  unfolding update_entry count_event set_count
  demote_with_room fuel room moves =
      let (u, r, run, out) =
        Returns-run (removed machine w v.ring xs v.on v.held v.is page_id p of held) in
      let found' = found1 r in
      Returns-ok tt (result r) (demotes fuel r run room moves ∙ ap (ok tt) (result_lem r)) (record {
        now = _;
        moved =
            find_after machine (w1 r) page_id target without found' (off r e.page_layer)
              (off r target);
        others = others_after r;
        ringed = record {
          on = v.on;
          ring = r;
          held = refl;
          is = out.ring;
          coupled =
              Coupled-others w.table (result r).table page_id e (delete p xs) found
                (has-delete_self p xs v.is.distinct) (others_after r)
                (Coupled-delete w.table p xs v.coupled);
          every = every_after r;
        };
        consistent = λ c.
            IsConsistent-same
              (after machine (w1 r) page_id target without found' (off r e.page_layer)
                (off r target))
              (result r) refl refl
              (after-IsConsistent machine (w1 r) page_id target without found' (off r e.page_layer)
                (off r target) (consistent1 r c) (rw (info1 r target) room));
      })
