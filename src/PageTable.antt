-- ===== src/PageTable.antt =====
-- include/server/PageTable.hpp and src/server/PageTable.cpp, with the memory operations of
-- include/server/Utils.hpp that they call. A method is a command on the `World`.
pub mod Entries
pub mod Init
pub mod Regions
pub mod Consistent
pub mod Migrate
pub mod Moves
pub mod Spec
pub mod Coupled
pub mod RingFaults
pub mod Ringed
pub mod Touched
pub mod Deleted
pub mod Demoted
pub mod Allocated
pub mod Constructor
pub mod Access
pub mod Tally
pub mod Scan
use memory_tiering.Base.{
  ℕ, zero, suc, ◌+◌, ◌*◌, ◌-◌, ◌/◌, ◌%◌, ◌^◌, Bool, true, false, Option, none, some, List, [], ◌∷◌,
  ◌==◌, ◌&&◌, leb, if◌then◌else◌, inc64, dec64, sub64, inc32, length,
}
use memory_tiering.Base.Run.{
  ok, exit_failure, out_of_fuel, assert_failed, fault, uncaught, Run, Cmd, pure, get_state, modify,
  assert, deref, ◌>>=◌, ◌>>◌,
}
use memory_tiering.Common.{
  OperationType, read, write, end, PageLayer, numa_local, numa_remote, pmem, LayerInfo, is_full,
  ServerMemoryConfig,
}
use memory_tiering.Machine.{Machine}
use memory_tiering.ClockRing
use memory_tiering.ClockRing.{ClockRing, nullptr}
use memory_tiering.Metrics
use memory_tiering.Metrics.{Metrics, Counters}
use Entries.{PageTableEntry, Table, find, update, same_layer}

-- The page table, with what it shares with the rest of the server: the memory configuration behind
-- `server_config_`, and the metrics. `ticks` counts the readings of the machine so far.
pub record World : Type 0 where
  pub server_config : ServerMemoryConfig
  pub table : Table
  pub local_page_load : ℕ
  pub remote_page_load : ℕ
  pub pmem_page_load : ℕ
  pub scan_index : ℕ
  pub enable_cache_ring : Bool
  pub local_cache_ring : Option ClockRing
  pub metrics : Metrics
  pub ticks : ℕ

-- A call of the clock ring through `local_cache_ring_`.
abbrev pub on_ring_of : {A : Type 0} → Run ClockRing A → Cmd World A
on_ring_of (ok a r) w = ok a (record w { local_cache_ring = some r })
on_ring_of assert_failed w = assert_failed
on_ring_of fault w = fault
on_ring_of exit_failure w = exit_failure
on_ring_of uncaught w = uncaught
on_ring_of out_of_fuel w = out_of_fuel

unfoldable pub on_ring : {A : Type 0} → Cmd ClockRing A → Cmd World A
on_ring m w = elim w.local_cache_ring [ none ↦ fault | some r ↦ on_ring_of (m r) w ]

-- One reading of the machine.
unfoldable pub reading : {A : Type 0} → (ℕ → A) → Cmd World A
reading f w = ok (f w.ticks) (record w { ticks = w.ticks + 1 })

unfoldable pub layer_info : PageLayer → World → LayerInfo
layer_info numa_local w = w.server_config.local_numa
layer_info numa_remote w = w.server_config.remote_numa
layer_info pmem w = w.server_config.pmem

unfoldable pub set_layer_info : PageLayer → LayerInfo → ServerMemoryConfig → ServerMemoryConfig
set_layer_info numa_local i c = record c { local_numa = i }
set_layer_info numa_remote i c = record c { remote_numa = i }
set_layer_info pmem i c = record c { pmem = i }

unfoldable pub set_count : PageLayer → (ℕ → ℕ) → World → World
set_count l f w = record w {
  server_config =
      set_layer_info l (record (layer_info l w) { count = f (layer_info l w).count })
        w.server_config;
}

unfoldable pub update_entry : ℕ → (PageTableEntry → PageTableEntry) → World → World
update_entry k f w = record w { table = update k f w.table }

unfoldable pub count_event : (Counters → Counters) → World → World
count_event f w = record w { metrics = record (w.metrics) { now = f w.metrics.now } }

-- The counter that an access to a page of the layer increases.
unfoldable pub count_access : PageLayer → Counters → Counters
count_access numa_local = Metrics.increment_local_access
count_access numa_remote = Metrics.increment_remote_access
count_access pmem = Metrics.increment_pmem_access

-- The counter that a migration increases; none if the layer stays the same.
unfoldable pub count_migration : PageLayer → PageLayer → Counters → Counters
count_migration numa_local numa_remote = Metrics.increment_local_to_remote
count_migration numa_local pmem = Metrics.increment_local_to_pmem
count_migration numa_remote numa_local = Metrics.increment_remote_to_local
count_migration numa_remote pmem = Metrics.increment_remote_to_pmem
count_migration pmem numa_local = Metrics.increment_pmem_to_local
count_migration pmem numa_remote = Metrics.increment_pmem_to_remote
count_migration _ _ = λ c. c

-- `scanNext`
unfoldable pub scan_next : Cmd World ℕ
scan_next w =
    let next = inc64 w.scan_index in
    ok w.scan_index (record w { scan_index = if leb (length w.table) next then 0 else next })

-- `getPageMetaData`: an unknown page reads as a local one that was never accessed.
unfoldable pub get_page_meta_data : ℕ → World → PageLayer × ℕ × ℕ
get_page_meta_data page_id w = elim (find page_id w.table) [
  | none ↦ (numa_local, 0, 0)
  | some e ↦ (e.page_layer, e.last_access_time_ms, e.access_cnt)
]

-- The search that a method begins with: it returns at once if the page is not there.
unfoldable pub on_page : ℕ → (PageTableEntry → Cmd World (Unit {0})) → Cmd World (Unit {0})
on_page page_id f w = elim (find page_id w.table) [ none ↦ ok tt w | some e ↦ f e w ]

-- The pages of the local layer are in the ring, if there is one.
abbrev pub uses_ring : World → PageLayer → Bool
uses_ring w l = w.enable_cache_ring && same_layer l numa_local

-- The node of the target tier, for `move_pages`.
unfoldable pub target_node : PageLayer → ℕ
target_node numa_local = 0
target_node numa_remote = 1
target_node pmem = 2

-- What an access and a migration write to the entry.
abbrev pub accessed : ℕ → PageTableEntry → PageTableEntry
accessed ms e = record e { last_access_time_ms = ms; access_cnt = inc32 e.access_cnt }

abbrev pub migrated : PageLayer → PageTableEntry → PageTableEntry
migrated target e = record e { page_layer = target }

abbrev pub stamped : ℕ → PageTableEntry → PageTableEntry
stamped ms e = record e { last_access_time_ms = ms; access_cnt = 0 }

module _ (machine : Machine) where
  -- Milliseconds of the steady clock.
  unfoldable pub now_ms : Cmd World ℕ
  now_ms = reading (λ n. machine.steady_clock n / 1_000_000)

  unfoldable pub get_time_ns : Cmd World ℕ
  get_time_ns =
      reading
        (λ n. let (sec, nsec) = machine.clock_gettime n in (sec * 1_000_000_000 + nsec) % 2 ^ 64)

  -- `access_page`: the memory operation lies between two readings of the clock.
  unfoldable pub access_page : Cmd World ℕ
  access_page = do
    start_time ← get_time_ns
    end_time ← get_time_ns
    pure (sub64 end_time start_time)

  -- `migrate_page`, which exits if the system call fails.
  unfoldable pub move_page_to_node : ℕ → ℕ → Cmd World (Unit {0})
  move_page_to_node addr node = do
    status ← reading (λ n. machine.move_pages n addr node)
    if status == 0 then pure tt else (λ _. exit_failure)

  -- The part of `accessPage` for a page that is there.
  unfoldable pub access_entry : ℕ → PageTableEntry → Cmd World (Unit {0})
  access_entry page_id e = do
    access_time ← access_page
    w ← get_state
    (if uses_ring w e.page_layer
        then on_ring (ClockRing.mark_accessed e.ring_node_ptr)
        else pure tt)
    ms ← now_ms
    modify (update_entry page_id (accessed ms))
    modify (λ w'. record w' { metrics = Metrics.record_access_latency access_time w'.metrics })
    modify (count_event (count_access e.page_layer))

  unfoldable pub access_page_of : ℕ → Cmd World (Unit {0})
  access_page_of page_id = on_page page_id (access_entry page_id)

  -- A page that leaves the local layer leaves the ring.
  unfoldable pub detach : ℕ → PageTableEntry → Cmd World (Unit {0})
  detach page_index e = do
    w ← get_state
    if uses_ring w e.page_layer
        then (do
          modify (update_entry page_index (λ d. record d { ring_node_ptr = nullptr }))
          on_ring (ClockRing.remove e.ring_node_ptr))
        else pure tt

  -- A page that comes to the local layer joins the ring.
  unfoldable pub attach : ℕ → PageLayer → Cmd World (Unit {0})
  attach page_index target = do
    w ← get_state
    if uses_ring w target
        then (do
          (done, node) ← on_ring (ClockRing.insert page_index)
          assert done
          modify (update_entry page_index (λ d. record d { ring_node_ptr = node })))
        else pure tt

  -- The check of the capacity: whether the migration goes on. `again` is the recursive call.
  unfoldable pub make_room : (ℕ → PageLayer → Cmd World (Unit {0})) → PageLayer → Cmd World Bool
  make_room again target = do
    w ← get_state
    if uses_ring w target
        then (if is_full (layer_info target w)
            then (do
              evict_id ← on_ring ClockRing.find_eviction_candidate
              w' ← get_state
              (if is_full w'.server_config.remote_numa
                  then again evict_id pmem
                  else again evict_id numa_remote)
              pure true)
            else pure true)
        else (if is_full (layer_info target w) then pure false else pure true)

  -- The migration itself, once there is room.
  unfoldable pub carry_out : ℕ → PageTableEntry → PageLayer → Cmd World (Unit {0})
  carry_out page_index e target = do
    move_page_to_node e.page_address (target_node target)
    modify (update_entry page_index (migrated target))
    attach page_index target
    ms ← now_ms
    modify (update_entry page_index (stamped ms))
    modify (set_count e.page_layer dec64)
    modify (set_count target inc64)
    modify (count_event (count_migration e.page_layer target))

  unfoldable pub migrate_entry :
      (ℕ → PageLayer → Cmd World (Unit {0})) → ℕ → PageTableEntry → PageLayer → Cmd World (Unit {0})
  migrate_entry again page_index e target = do
    detach page_index e
    goes_on ← make_room again target
    if goes_on then carry_out page_index e target else pure tt

  -- `migratePage`, on fuel for the call that it makes of itself to evict a page.
  unfoldable pub migrate_page : ℕ → ℕ → PageLayer → Cmd World (Unit {0})
  migrate_page zero page_index target = λ _. out_of_fuel
  migrate_page (suc fuel) page_index target =
      on_page page_index (λ e. migrate_entry (migrate_page fuel) page_index e target)
