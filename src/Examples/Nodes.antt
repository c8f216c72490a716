-- ===== src/Examples/Nodes.antt =====
-- Page tables in step with their cache ring, and the theorems applied to them.
use memory_tiering.Base.{ℕ, ◌≡◌, refl, true, false, some, arith, Bool-cases, ◌==◌}
use memory_tiering.Base.Run.{Returns, Run, ok, assert_failed}
use memory_tiering.Common.{numa_local, pmem}
use memory_tiering.Config.Limits.{no_clients, and_client, demand}
use memory_tiering.ClockRing.{
  create, insert, new_node, store, link, set_prev, load, at, write, set_next, set_hand,
}
use memory_tiering.PageTable.Regions.{
  no_regions, count_clients, count_client, allocate_memory, bind_region, mmap,
}
use memory_tiering.PageTable.Allocated.{
  Object, AllThere, init_page_table, generate_random_content, write_region,
}
use memory_tiering.Examples.Startup.{granting, granting-nonnull, granting-grants, memory}
use memory_tiering.PageTable.{
  World, migrate_page, layer_info, reading, on_ring, update_entry, set_count, set_layer_info,
}
use memory_tiering.PageTable.Entries.{PageTableEntry, find, emplace, update}
use memory_tiering.PageTable.Ringed.{Ringed, places}
use memory_tiering.PageTable.Demoted.{Demotes, demote_with_room}
use memory_tiering.PageTable.Constructor.{construct, construct-InStep, first_promotion}
use memory_tiering.PageTable.Init.{
  fill_table, fill_clients, fill_client, fill_layer, fill_pages, add_page, new_entry, advance,
  offset,
}
use memory_tiering.PageTable.Init.InStep.{InStep}
use memory_tiering.Examples.Rings.{three, three-IsRing, cells}
use memory_tiering.Examples.Tables.{
  machine, info, entry, ring_world, ring_world-Coupled, one_client, blank, metrics,
}

-- The persistent memory has room.
abbrev roomy : World
roomy = record (ring_world 3) {
  server_config = record {
    num_tiers = 3;
    local_numa = info 3 3;
    remote_numa = info 0 0;
    pmem = info 1 2;
  };
}

roomy-every :
    (i : ℕ) (e : PageTableEntry)
    → find i roomy.table ≡ some e
    → e.page_layer ≡ numa_local
    → places i e.ring_node_ptr (cells false) ≡ true
unfolding find places
roomy-every i e found local =
    ground (
      arith,
      Bool-cases (10 == i),
      Bool-cases (11 == i),
      Bool-cases (12 == i),
      Bool-cases (13 == i),
    )

roomy-Ringed : Ringed roomy (cells false)
roomy-Ringed = record {
  on = refl;
  ring = three 3 false;
  held = refl;
  is = three-IsRing 3 false (omega arith) (omega arith);
  coupled = ring_world-Coupled;
  every = roomy-every;
}

demote_with_room_example :
    Returns
      (λ u w'. Demotes roomy 11 (entry 8192 numa_local 2) pmem (cells false) w')
      (migrate_page machine 2 11 pmem roomy)
unfolding find layer_info
demote_with_room_example =
    demote_with_room machine 11 roomy (entry 8192 numa_local 2) refl (cells false) roomy-Ringed refl
      pmem (λ z. cc) 1 refl refl

construct-InStep_example :
    (w : World) × (construct one_client blank.server_config true metrics 0 ≡ some w)
    × Returns
        (λ u o. InStep 2 one_client tt o.world × AllThere w o.regions o.memory)
        (init_page_table granting machine (λ n. 0) one_client w memory)
unfolding demand
construct-InStep_example =
    construct-InStep one_client blank.server_config metrics 0 refl (and_client refl no_clients)
      (omega arith) machine (λ n. 0) granting memory granting-nonnull granting-grants
      (λ n addr bytes node. refl)

-- What the constructor leaves.
abbrev built : World
built = record blank {
  local_page_load = 2;
  remote_page_load = 1;
  pmem_page_load = 1;
  enable_cache_ring = true;
  local_cache_ring = some (create 2);
}

abbrev left : Run Object (Unit {0}) → Object
left (ok u o) = o
left _ = record { world = built; memory = memory; regions = no_regions }

abbrev filled : Object
filled = left (init_page_table granting machine (λ n. 0) one_client built memory)

first_promotion_example : migrate_page machine 2 3 numa_local filled.world ≡ assert_failed
unfolding construct count_clients count_client find layer_info demand fill_table fill_clients
    fill_client fill_layer fill_pages add_page new_entry reading on_ring insert create new_node
    store link set_prev load at write set_next set_hand advance update_entry set_count emplace
    update offset set_layer_info init_page_table allocate_memory bind_region mmap
    generate_random_content write_region
first_promotion_example =
    first_promotion one_client blank.server_config metrics 0 refl (and_client refl no_clients)
      (omega arith) machine (λ n. 0) granting memory (omega arith) built filled refl refl 0 3
      (record (entry 327680 pmem 0) { last_access_time_ms = 3000 }) refl (λ z. cc) refl
