-- ===== src/PageTable/RingFaults.antt =====
-- What `migratePage` does with the cache ring: three runs that go wrong.
use memory_tiering.Base.{
  ℕ, suc, ◌+◌, ◌≡◌, ◌≢◌, refl, sym, ap, subst, ◌∙◌, Bool, true, false, none, some, List, [],
  append-nil, Bool-cases, inl, inr, length, ◌&&◌,
}
use memory_tiering.Base.Run.{Cmd, ok, fault, assert_failed, Returns, Returns-ok, Returns-run}
use memory_tiering.Common.{PageLayer, numa_local, numa_remote, pmem, is_full}
use memory_tiering.Machine.{Machine}
use memory_tiering.ClockRing
use memory_tiering.ClockRing.{ClockRing, nullptr, remove, find_eviction_candidate}
use memory_tiering.ClockRing.Cells.{Cell, has, evict, Distinct, delete}
use memory_tiering.ClockRing.Ring.{IsRing}
use memory_tiering.ClockRing.Remove.{Removed, remove_lem, remove_dangling, remove_null}
use memory_tiering.ClockRing.Insert.{insert-of_full}
use memory_tiering.ClockRing.Evict.{Evicted, find_eviction_candidate-Evicted}
use memory_tiering.PageTable.{
  World, on_ring, layer_info, update_entry, detach, make_room, attach, carry_out, move_page_to_node,
  reading, target_node, migrated, migrate_entry, migrate_page, uses_ring,
}
use memory_tiering.PageTable.Entries.{PageTableEntry, find, update, find-update_self}
use memory_tiering.PageTable.Consistent.{layer_info-same}
use memory_tiering.PageTable.Coupled.{Coupled, EntryOf, evict-Victim}
use memory_tiering.PageTable.Migrate.{on_page-some, migrate_page-suc, detach_off, make_room_off}

and_false : (b : Bool) → (b && false) ≡ false
and_false true = refl
and_false false = refl

abbrev pub with_ring : World → ClockRing → World
with_ring w r = record w { local_cache_ring = some r }

on_ring-fault :
    {A : Type 0} (m : Cmd ClockRing A) (w : World) (r : ClockRing)
    → w.local_cache_ring ≡ some r
    → m r ≡ fault
    → on_ring m w ≡ fault
unfolding on_ring
on_ring-fault m w r e f = rw (e, f, on_ring) refl

on_ring-assert :
    {A : Type 0} (m : Cmd ClockRing A) (w : World) (r : ClockRing)
    → w.local_cache_ring ≡ some r
    → m r ≡ assert_failed
    → on_ring m w ≡ assert_failed
unfolding on_ring
on_ring-assert m w r e f = rw (e, f, on_ring) refl

pub on_ring-ok :
    {A : Type 0} (m : Cmd ClockRing A) (w : World) (r : ClockRing) (a : A) (r' : ClockRing)
    → w.local_cache_ring ≡ some r
    → m r ≡ ok a r'
    → on_ring m w ≡ ok a (with_ring w r')
unfolding on_ring
on_ring-ok m w r a r' e f = rw (e, f, on_ring) refl

pub far_from_ring : (w : World) (l : PageLayer) → l ≢ numa_local → uses_ring w l ≡ false
far_from_ring w numa_local far = absurd (far refl)
far_from_ring w numa_remote far = and_false w.enable_cache_ring
far_from_ring w pmem far = and_false w.enable_cache_ring

-- Demoting a page whose node is gone from the ring.
module _ (machine : Machine) (w : World) (r : ClockRing) (page_id addr : ℕ)
    (of : EntryOf w.table page_id addr) (on : w.enable_cache_ring ≡ true)
    (ring : w.local_cache_ring ≡ some r) where
  in_ring : uses_ring w of.entry.page_layer ≡ true
  in_ring = rw (on, of.local) refl

  detach_gone : r.heap addr ≡ none → detach machine page_id of.entry w ≡ fault
  unfolding detach update_entry
  detach_gone gone =
      rw (in_ring, detach)
        (on_ring-fault (remove of.entry.ring_node_ptr)
          (update_entry page_id (λ d. record d { ring_node_ptr = nullptr }) w) r ring
          (remove_dangling r of.entry.ring_node_ptr (λ z. of.not_null (sym of.node ∙ z))
            (ap r.heap of.node ∙ gone)))

  demote_gone :
      (fuel : ℕ) (target : PageLayer)
      → r.heap addr ≡ none
      → migrate_page machine (suc fuel) page_id target w ≡ fault
  unfolding migrate_entry
  demote_gone fuel target gone =
      migrate_page-suc machine fuel page_id target w
      ∙ on_page-some page_id _ w of.found
      ∙ rw (detach_gone gone) refl

module _ (machine : Machine) (fuel : ℕ) (w : World) (r : ClockRing) (xs : List Cell)
    (on : w.enable_cache_ring ≡ true) (ring : w.local_cache_ring ≡ some r) (is : IsRing r xs)
    (coupled : Coupled w.table xs) (some_node : xs ≢ []) where
  again : ℕ → PageLayer → Cmd World (Unit {0})
  again = migrate_page machine (suc fuel)

  again_fault :
      (page_id : ℕ) (r' : ClockRing)
      → Evicted r.capacity (evict xs []) page_id r'
      → (target : PageLayer) → again page_id target (with_ring w r') ≡ fault
  unfolding again
  again_fault page_id r' v target =
      let s =
        evict-Victim w.table xs [] page_id v.cells coupled tt
          (subst Distinct (sym (append-nil xs)) is.distinct) v.chosen in
      demote_gone machine (with_ring w r') r' page_id s.addr s.of on refl fuel target
        (v.ring.only s.addr s.gone)

  local_in_ring : uses_ring w numa_local ≡ true
  local_in_ring = rw on refl

  room_fault :
      is_full (layer_info numa_local w) ≡ true → make_room machine again numa_local w ≡ fault
  unfolding make_room
  room_fault full =
      let (page_id, r', e, v) = Returns-run (find_eviction_candidate-Evicted r xs is some_node) in
      rw (local_in_ring, full, on_ring-ok find_eviction_candidate w r page_id r' ring e)
        (elim (Bool-cases (is_full w.server_config.remote_numa)) [
          | inl f ↦ rw (f, again_fault page_id r' v pmem) refl
          | inr f ↦ rw (f, again_fault page_id r' v numa_remote) refl
        ])

  -- With the cache ring on, well-formed, not empty and coupled with the table, promoting a page of
  -- another layer into a full local layer uses freed memory: the search
  -- for a page to evict removes and frees the victim's node, and the migration of the victim then
  -- removes the same node again.
  pub promote_into_full :
      (page_index : ℕ) (e : PageTableEntry)
      → find page_index w.table ≡ some e
      → e.page_layer ≢ numa_local
      → is_full (layer_info numa_local w) ≡ true
      → migrate_page machine (suc (suc fuel)) page_index numa_local w ≡ fault
  unfolding migrate_entry again
  promote_into_full page_index e found far full =
      migrate_page-suc machine (suc fuel) page_index numa_local w
      ∙ on_page-some page_index _ w found
      ∙ rw (detach_off machine page_index e w (far_from_ring w e.page_layer far), room_fault full)
          refl

module _ (machine : Machine) (w : World) (r : ClockRing) (xs : List Cell)
    (on : w.enable_cache_ring ≡ true) (ring : w.local_cache_ring ≡ some r) (is : IsRing r xs) where
  attach_full :
      (page_index : ℕ)
      → length xs ≡ r.capacity
      → attach machine page_index numa_local w ≡ assert_failed
  unfolding attach
  attach_full page_index full =
      let local : uses_ring w numa_local ≡ true = rw on refl in
      rw
        (
          local,
          on_ring-ok (ClockRing.insert page_index) w r (false, nullptr) r ring
              (insert-of_full r xs page_index is full),
        )
        refl

-- With the cache ring on and well-formed, promoting a page of another layer into a local layer that has
-- room aborts once the ring is full, if `move_pages` succeeds: the ring is as large as the pages that the clients start with, not as the layer.
pub promote_into_room :
    (machine : Machine) (w : World) (r : ClockRing) (xs : List Cell)
    → w.enable_cache_ring ≡ true
    → w.local_cache_ring ≡ some r
    → IsRing r xs
    → length xs ≡ r.capacity
    → (fuel page_index : ℕ) (e : PageTableEntry) → find page_index w.table ≡ some e
    → e.page_layer ≢ numa_local
    → is_full (layer_info numa_local w) ≡ false
    → machine.move_pages w.ticks e.page_address 0 ≡ 0
    → migrate_page machine (suc fuel) page_index numa_local w ≡ assert_failed
unfolding migrate_entry make_room carry_out move_page_to_node reading target_node update_entry
promote_into_room machine w r xs on ring is full fuel page_index e found far room moved =
    let local : uses_ring w numa_local ≡ true = rw on refl in
    migrate_page-suc machine fuel page_index numa_local w
    ∙ on_page-some page_index _ w found
    ∙ rw
        (
          detach_off machine page_index e w (far_from_ring w e.page_layer far),
          local,
          room,
          moved,
          attach_full machine
              (record w {
                ticks = w.ticks + 1;
                table = update page_index (migrated numa_local) w.table;
              })
              r xs on ring is page_index full,
        )
        refl

-- A page whose entry has lost its node; the ring, a well-formed one of the nodes `rest`, in which the
-- node is not; and the next migration of the page.
abbrev pub Stranded : Machine → ℕ → PageTableEntry → List Cell → World → Type 0
Stranded machine page_index e rest w =
    (find page_index w.table ≡ some (record e { ring_node_ptr = nullptr }))
    × ((r : ClockRing) × (w.local_cache_ring ≡ some r)
        × IsRing r rest
        × (r.heap e.ring_node_ptr ≡ none))
    × ((fuel : ℕ) (target : PageLayer)
        → migrate_page machine (suc fuel) page_index target w ≡ assert_failed)

module _ (machine : Machine) (w : World) (r : ClockRing) (xs : List Cell)
    (on : w.enable_cache_ring ≡ true) (ring : w.local_cache_ring ≡ some r) (is : IsRing r xs)
    (page_index addr : ℕ) (of : EntryOf w.table page_index addr) (held : has addr xs ≡ true) where
  abbrev e : PageTableEntry
  e = of.entry

  abbrev pub cleared : World
  cleared = update_entry page_index (λ d. record d { ring_node_ptr = nullptr }) w

  here : uses_ring w e.page_layer ≡ true
  here = rw (on, of.local) refl

  pub removed :
      Returns (Removed r e.ring_node_ptr (delete e.ring_node_ptr xs)) (remove e.ring_node_ptr r)
  removed = remove_lem r xs e.ring_node_ptr is (subst (λ a. has a xs ≡ true) (sym of.node) held)

  pub detach_ok :
      (r' : ClockRing)
      → remove e.ring_node_ptr r ≡ ok tt r'
      → detach machine page_index e w ≡ ok tt (with_ring cleared r')
  unfolding detach update_entry
  detach_ok r' run =
      rw (here, detach) (on_ring-ok (remove e.ring_node_ptr) cleared r tt r' ring run)

  -- The entry afterwards.
  abbrev pub left : PageTableEntry
  left = record e { ring_node_ptr = nullptr }

  pub found_left : (r' : ClockRing) → find page_index (with_ring cleared r').table ≡ some left
  unfolding update_entry
  found_left r' = find-update_self page_index _ w.table e of.found

  stays_on : (r' : ClockRing) → (with_ring cleared r').enable_cache_ring ≡ true
  unfolding update_entry
  stays_on r' = on

  detach-left :
      (r' : ClockRing) → detach machine page_index left (with_ring cleared r') ≡ assert_failed
  unfolding detach update_entry
  detach-left r' =
      rw (here, detach)
        (on_ring-assert (remove nullptr)
          (update_entry page_index (λ d. record d { ring_node_ptr = nullptr })
            (with_ring cleared r'))
          r' refl (remove_null r'))

  left-Stranded :
      (r' : ClockRing)
      → Removed r e.ring_node_ptr (delete e.ring_node_ptr xs) tt r'
      → Stranded machine page_index e (delete e.ring_node_ptr xs) (with_ring cleared r')
  unfolding migrate_entry
  left-Stranded r' out = (
    found_left r',
    (r', refl, out.ring, out.freed),
    λ fuel target.
        migrate_page-suc machine fuel page_index target (with_ring cleared r')
        ∙ on_page-some page_index _ (with_ring cleared r') (found_left r')
        ∙ rw (detach-left r') refl,
  )

  pub same_info :
      (r' : ClockRing) (l : PageLayer) → layer_info l (with_ring cleared r') ≡ layer_info l w
  unfolding update_entry
  same_info r' l = layer_info-same w (with_ring cleared r') l refl

  -- With the cache ring on and well-formed, and a local page whose entry points at a node of the ring:
  -- if the page is to move to another layer that is full, `migratePage` returns, and has freed the node
  -- and taken it, and no other, out of the ring; the page stays local without a node, and its next
  -- migration, to any layer, fails an assert.
  pub demote_into_full :
      (fuel : ℕ) (target : PageLayer)
      → target ≢ numa_local
      → is_full (layer_info target w) ≡ true
      → Returns
          (λ u w'. Stranded machine page_index e (delete e.ring_node_ptr xs) w')
          (migrate_page machine (suc fuel) page_index target w)
  unfolding migrate_entry
  demote_into_full fuel target far full =
      let (u, r', run, out) = Returns-run removed in
      let f : is_full (layer_info target (with_ring cleared r')) ≡ true =
        rw (same_info r' target) full in
      Returns-ok tt (with_ring cleared r')
        (migrate_page-suc machine fuel page_index target w
          ∙ on_page-some page_index _ w of.found
          ∙ rw
              (
                detach_ok r' run,
                make_room_off machine _ target (with_ring cleared r')
                    (far_from_ring (with_ring cleared r') target far),
                f,
              )
              refl)
        (left-Stranded r' out)
