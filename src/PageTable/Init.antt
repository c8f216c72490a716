-- ===== src/PageTable/Init.antt =====
-- The filling of the table in `PageTable::initPageTable` of src/server/PageTable.cpp, after the memory
-- is allocated: `bases` holds the addresses of the three regions. An access count starts as what its
-- memory holds (`uninitialised`).
pub mod Filled
pub mod Starts
pub mod Ringing
pub mod InStep
use memory_tiering.Base.{
  ℕ, zero, suc, ◌+◌, ◌*◌, ◌/◌, Bool, true, false, Option, none, some, List, [], ◌∷◌, ◌==◌,
  if◌then◌else◌, inc64, add64, get_elem?,
}
use memory_tiering.Base.Run.{
  Run, Cmd, ok, assert_failed, fault, exit_failure, uncaught, out_of_fuel, pure, get_state, modify,
  assert, deref, ◌>>=◌, ◌>>◌,
}
use memory_tiering.Common.{PageLayer, numa_local, numa_remote, pmem, ClientConfig}
use memory_tiering.Machine.{Machine}
use memory_tiering.ClockRing
use memory_tiering.PageTable.{World, on_ring, reading, set_count, update_entry, uses_ring}
use memory_tiering.PageTable.Entries.{PageTableEntry, emplace}

-- The locals of `initPageTable`, with the state.
pub record Filling : Type 0 where
  pub world : World
  pub current_index : ℕ
  pub local_offset_pages : ℕ
  pub remote_offset_pages : ℕ
  pub pmem_offset_pages : ℕ

unfoldable pub offset : PageLayer → Filling → ℕ
offset numa_local s = s.local_offset_pages
offset numa_remote s = s.remote_offset_pages
offset pmem s = s.pmem_offset_pages

-- `current_index++` and `offset++`
unfoldable pub advance : PageLayer → Filling → Filling
advance numa_local s = record s {
  current_index = inc64 s.current_index;
  local_offset_pages = inc64 s.local_offset_pages;
}
advance numa_remote s = record s {
  current_index = inc64 s.current_index;
  remote_offset_pages = inc64 s.remote_offset_pages;
}
advance pmem s = record s {
  current_index = inc64 s.current_index;
  pmem_offset_pages = inc64 s.pmem_offset_pages;
}

-- A command on the state.
abbrev pub within_of : {A : Type 0} → Run World A → Cmd Filling A
within_of (ok a w) s = ok a (record s { world = w })
within_of assert_failed s = assert_failed
within_of fault s = fault
within_of exit_failure s = exit_failure
within_of uncaught s = uncaught
within_of out_of_fuel s = out_of_fuel

abbrev pub on_state : {A : Type 0} → Cmd World A → Cmd Filling A
on_state m s = within_of (m s.world) s

module _ (machine : Machine) (uninitialised : ℕ → ℕ) where
  -- `PageTableEntry(addr, layer)`; the time is in microseconds.
  unfoldable pub new_entry : ℕ → PageLayer → Cmd World PageTableEntry
  new_entry addr l = reading (λ n. record {
    page_address = addr;
    page_layer = l;
    last_access_time_ms = machine.steady_clock n / 1000;
    access_cnt = uninitialised n;
    ring_node_ptr = 0;
  })

  -- The page in the table, and in the ring if it is local.
  unfoldable pub add_page : ℕ → ℕ → PageLayer → Cmd World (Unit {0})
  add_page current_index addr l = do
    e ← new_entry addr l
    modify (λ w. record w { table = emplace current_index e w.table })
    w ← get_state
    if uses_ring w l
        then (do
          (done, node) ← on_ring (ClockRing.insert current_index)
          assert done
          modify (update_entry current_index (λ d. record d { ring_node_ptr = node })))
        else pure tt

  module _ (bases : PageLayer → ℕ) where
    -- `fillPages`
    unfoldable pub fill_pages : PageLayer → (count : ℕ) → Cmd Filling (Unit {0})
    fill_pages l zero = pure tt
    fill_pages l (suc count) = do
      s ← get_state
      on_state (add_page s.current_index (bases l + offset l s * 4096) l)
      modify (advance l)
      fill_pages l count

    -- `fillPages`, and the count of the layer.
    unfoldable pub fill_layer : PageLayer → Option ℕ → Cmd Filling (Unit {0})
    fill_layer l size = do
      n ← deref size
      fill_pages l n
      on_state (modify (set_count l (λ count. add64 count n)))

    module _ {F : Type 0} where
      unfoldable pub fill_client : (num_tiers : ℕ) → ClientConfig F → Cmd Filling (Unit {0})
      fill_client num_tiers c =
          if num_tiers == 2
          then (do
            fill_layer numa_local (get_elem? c.tier_sizes 0)
            fill_layer pmem (get_elem? c.tier_sizes 1))
          else if num_tiers == 3
          then (do
            fill_layer numa_local (get_elem? c.tier_sizes 0)
            fill_layer numa_remote (get_elem? c.tier_sizes 1)
            fill_layer pmem (get_elem? c.tier_sizes 2))
          else pure tt

      -- The filling for all clients.
      unfoldable pub fill_clients : (num_tiers : ℕ) → List (ClientConfig F) → Cmd Filling (Unit {0})
      fill_clients num_tiers [] = pure tt
      fill_clients num_tiers (c ∷ clients) =
          fill_client num_tiers c >> fill_clients num_tiers clients

      unfoldable pub fill_table : List (ClientConfig F) → Cmd World (Unit {0})
      fill_table clients w =
          elim (fill_clients w.server_config.num_tiers clients (record {
            world = w;
            current_index = 0;
            local_offset_pages = 0;
            remote_offset_pages = 0;
            pmem_offset_pages = 0;
          })) [
            | ok u s ↦ ok tt s.world
            | assert_failed ↦ assert_failed
            | fault ↦ fault
            | exit_failure ↦ exit_failure
            | uncaught ↦ uncaught
            | out_of_fuel ↦ out_of_fuel
          ]
