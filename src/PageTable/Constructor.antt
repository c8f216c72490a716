-- ===== src/PageTable/Constructor.antt =====
-- The constructor of src/server/PageTable.cpp, and what it and `initPageTable` set up with the cache
-- ring on: a ring that is full from the start.
use memory_tiering.Base.{
  ℕ, suc, ◌^◌, ◌<◌, ◌≡◌, ◌≢◌, refl, sym, ap, ◌∙◌, Bool, true, Option, none, some, List, [], length,
  if◌then◌else◌, arith, Bool-cases, inl, inr, subst,
}
use mathlib.Core.Option.{some-injective}
use memory_tiering.Base.Run.{Returns, Returns-Whenever, ok, fault, assert_failed}
use memory_tiering.Common.{PageLayer, numa_local, ClientConfig, ServerMemoryConfig, is_full}
use memory_tiering.Machine.{Machine}
use memory_tiering.Metrics.{Metrics}
use memory_tiering.Config.Limits.{AllSized, demand}
use memory_tiering.ClockRing
use memory_tiering.ClockRing.{ClockRing}
use memory_tiering.ClockRing.Ring.{IsRing}
use memory_tiering.PageTable.{World, migrate_page, layer_info}
use memory_tiering.PageTable.Entries.{PageTableEntry, find}
use memory_tiering.PageTable.Regions.{Paging, Memory, no_regions, count_clients}
use memory_tiering.PageTable.Regions.Counted.{count_clients-asked}
use memory_tiering.PageTable.RingFaults.{promote_into_full, promote_into_room}
use memory_tiering.PageTable.Init.{fill_table}
use memory_tiering.PageTable.Allocated.{
  Object, AllThere, init_page_table, init_page_table-Returns, init_page_table-fills,
}
use memory_tiering.PageTable.Init.Filled.{total}
use memory_tiering.PageTable.Init.Starts.{asked}
use memory_tiering.PageTable.Init.InStep.{InStep, fill_table-InStep}

-- The object that the constructor makes, beside the metrics that are there; `none` is a read out of
-- range.
unfoldable pub construct :
    {F : Type 0}
    → List (ClientConfig F)
    → ServerMemoryConfig
    → (enable_cache_ring : Bool) → Metrics
    → (ticks : ℕ) → Option World
construct clients server_config enable_cache_ring metrics ticks =
    elim (count_clients server_config.num_tiers clients no_regions) [
      | none ↦ none
      | some r ↦ some (record {
        server_config = server_config;
        table = [];
        local_page_load = r.local_page_load;
        remote_page_load = r.remote_page_load;
        pmem_page_load = r.pmem_page_load;
        scan_index = 0;
        enable_cache_ring = enable_cache_ring;
        local_cache_ring =
            if enable_cache_ring then some (ClockRing.create r.local_page_load) else none;
        metrics = metrics;
        ticks = ticks;
      })
    ]

create-IsRing : (capacity : ℕ) → capacity < 2 ^ 64 → IsRing (ClockRing.create capacity) []
unfolding ClockRing.create
create-IsRing capacity small = record {
  circle = tt;
  distinct = tt;
  hand = refl;
  size = refl;
  room = omega arith;
  small = small;
  below = λ a i. absurd (cc);
  only = λ a o. refl;
  fresh = omega arith;
}

module _ {F : Type 0} (clients : List (ClientConfig F)) (config : ServerMemoryConfig)
    (metrics : Metrics) (ticks : ℕ) (three : config.num_tiers ≡ 3) (sized : AllSized 3 clients)
    (few : total (asked clients) < 2 ^ 64) where
  abbrev constructed : World
  constructed = record {
    server_config = config;
    table = [];
    local_page_load = demand 0 clients;
    remote_page_load = demand 1 clients;
    pmem_page_load = demand 2 clients;
    scan_index = 0;
    enable_cache_ring = true;
    local_cache_ring = some (ClockRing.create (demand 0 clients));
    metrics = metrics;
    ticks = ticks;
  }

  construct-ok : construct clients config true metrics ticks ≡ some constructed
  unfolding construct
  construct-ok =
      let counted : count_clients config.num_tiers clients no_regions ≡ some _ =
        ap (λ k. count_clients k clients no_regions) three
        ∙ count_clients-asked clients sized few in
      rw (counted, construct) refl

  constructed-InStep :
      (machine : Machine) (uninitialised : ℕ → ℕ) (bases : PageLayer → ℕ)
      → Returns
          (InStep (demand 0 clients) clients)
          (fill_table machine uninitialised bases clients constructed)
  unfolding ClockRing.create
  constructed-InStep machine uninitialised bases =
      fill_table-InStep machine uninitialised (demand 0 clients) bases clients constructed
        (ClockRing.create (demand 0 clients)) three refl refl refl
        (create-IsRing (demand 0 clients) (omega (arith, few))) refl sized (omega arith) few

  module _ (machine : Machine) (uninitialised : ℕ → ℕ) (paging : Paging) (m : Memory) where
    -- With three tiers and the ring on, clients with three sizes each, fewer than 2^64 pages in all,
    -- and a kernel that grants each mapping that has bytes, never at the address 0, and each binding:
    -- the constructor reads nothing out of range, and then `initPageTable` returns, has written through
    -- no null pointer, and leaves ring and page table in step, with one node for each local page that
    -- the clients ask for, and no room for more.
    pub construct-InStep :
        ((n bytes addr : ℕ) → paging.mmap n bytes ≡ some addr → addr ≢ 0)
        → ((n bytes : ℕ) → bytes ≢ 0 → (addr : ℕ) × (paging.mmap n bytes ≡ some addr))
        → ((n addr bytes node : ℕ) → paging.mbind n addr bytes node ≡ 0)
        → (w : World) × (construct clients config true metrics ticks ≡ some w)
          × Returns
              (λ u o. InStep (demand 0 clients) clients tt o.world × AllThere w o.regions o.memory)
              (init_page_table paging machine uninitialised clients w m)
    construct-InStep nonnull grants binds = (
      constructed,
      construct-ok,
      init_page_table-Returns paging nonnull grants binds machine uninitialised clients constructed
          m three (InStep (demand 0 clients) clients tt) (constructed-InStep machine uninitialised),
    )

    -- With three tiers and the ring on, and clients with three sizes each, a local page at least and
    -- fewer than 2^64 pages in all: in the state that the constructor and a run of `initPageTable` that
    -- returns leave, each promotion of a page of another layer to the local layer fails, though
    -- `move_pages` succeeds: it uses freed memory if the layer is full, and an assert fails if there
    -- is room.
    pub first_promotion :
        0 < demand 0 clients
        → (w : World) (o : Object) → construct clients config true metrics ticks ≡ some w
        → init_page_table paging machine uninitialised clients w m ≡ ok tt o
        → (fuel page_id : ℕ) (e : PageTableEntry) → find page_id o.world.table ≡ some e
        → e.page_layer ≢ numa_local
        → machine.move_pages o.world.ticks e.page_address 0 ≡ 0
        → migrate_page machine (suc (suc fuel)) page_id numa_local o.world
          ≡ (if is_full (layer_info numa_local o.world) then fault else assert_failed)
    first_promotion some_page w o made run fuel page_id e found far moves =
        let w' = o.world in
        let same : constructed ≡ w = some-injective constructed w (sym construct-ok ∙ made) in
        let (bases, filled) =
          init_page_table-fills paging machine uninitialised clients constructed m o
            (ap (λ v. init_page_table paging machine uninitialised clients v m) same ∙ run) in
        let s : InStep (demand 0 clients) clients tt w' =
          Returns-Whenever (InStep (demand 0 clients) clients) (
            subst (λ r. Returns (InStep (demand 0 clients) clients) r) filled
              (constructed-InStep machine uninitialised bases)) in
        let g = s.ringed in
        elim (Bool-cases (is_full (layer_info numa_local w'))) [
          | inl is_full ↦ rw is_full (
              promote_into_full machine fuel w' g.ring s.cells g.on g.held g.is g.coupled
                (λ z. omega (arith, ap (length {0}) z, s.count, some_page)) page_id e found far
                is_full)
          | inr room ↦ rw room (
              promote_into_room machine w' g.ring s.cells g.on g.held g.is (s.count ∙ sym s.limit)
                (suc fuel) page_id e found far room moves)
        ]
