-- ===== src/Examples/Tables.antt =====
-- Page tables of a few pages, with and without the cache ring, and the theorems applied to them.
use memory_tiering.Base.{
  ℕ, ◌*◌, ◌+◌, ◌≡◌, ◌≢◌, refl, Bool, true, false, none, some, List, [], ◌∷◌, arith, sub64,
}
use memory_tiering.Base.Run.{Returns}
use memory_tiering.Common.{
  PageLayer, numa_local, numa_remote, pmem, LayerInfo, PolicyConfig, lru, LruPolicyConfig,
}
use memory_tiering.Machine.{Machine}
use memory_tiering.Metrics.{Metrics, Counters, zero_counters}
use memory_tiering.Metrics.Periodic.{
  DoubleArith, report_all, sum_deltas, local_access, sum_deltas-report_all, last_snapshot, count_of,
}
use memory_tiering.PageTable.{World, migrate_page, layer_info}
use memory_tiering.PageTable.Entries.{PageTableEntry, Table, find, pages_on}
use memory_tiering.PageTable.Consistent.{IsConsistent}
use memory_tiering.PageTable.Spec.{Result, migrate_page-Result}
use memory_tiering.PageTable.Coupled.{EntryOf, Coupled}
use memory_tiering.PageTable.RingFaults.{demote_into_full, Stranded}
use memory_tiering.Common.{ClientConfig, uniform}
use memory_tiering.Scanner.{DoubleOps, run_scanner}
use memory_tiering.Scanner.Policy.{lru_typed}
use memory_tiering.Scanner.Invariant.{Inv, run_scanner-Inv}
use memory_tiering.ClockRing.Cells.{delete}
use memory_tiering.Examples.Rings.{three, three-IsRing, cells}

-- A clock that goes on by a millisecond, and system calls that succeed.
abbrev pub machine : Machine
machine = record {
  steady_clock = λ n. n * 1_000_000;
  clock_gettime = λ n. (0, n);
  move_pages = λ n addr node. 0;
}

abbrev pub info : ℕ → ℕ → LayerInfo
info count capacity = record { count = count; capacity = capacity }

abbrev pub entry : ℕ → PageLayer → ℕ → PageTableEntry
entry addr l node = record {
  page_address = addr;
  page_layer = l;
  last_access_time_ms = 0;
  access_cnt = 0;
  ring_node_ptr = node;
}

abbrev pub metrics : Metrics
metrics = record { now = zero_counters; access_latency = []; last_period = zero_counters }

abbrev two_pages : Table
two_pages = (0, entry 4096 numa_local 0) ∷ (1, entry 8192 pmem 0) ∷ []

-- Two pages, and no ring.
abbrev pub no_ring : World
no_ring = record {
  server_config = record {
    num_tiers = 3;
    local_numa = info 1 2;
    remote_numa = info 0 2;
    pmem = info 1 2;
  };
  table = two_pages;
  local_page_load = 1;
  remote_page_load = 0;
  pmem_page_load = 1;
  scan_index = 0;
  enable_cache_ring = false;
  local_cache_ring = none;
  metrics = metrics;
  ticks = 0;
}

no_ring-IsConsistent : IsConsistent no_ring
unfolding layer_info pages_on
no_ring-IsConsistent = record {
  counted = elim [ numa_local ↦ refl | numa_remote ↦ refl | pmem ↦ refl ];
  within = elim [ numa_local ↦ omega arith | numa_remote ↦ omega arith | pmem ↦ omega arith ];
  small = elim [ numa_local ↦ omega arith | numa_remote ↦ omega arith | pmem ↦ omega arith ];
}

migrate_page-Result_example :
    Returns (Result no_ring 1 numa_local) (migrate_page machine 2 1 numa_local no_ring)
migrate_page-Result_example =
    migrate_page-Result machine (λ n addr node. refl) 1 no_ring 1 numa_local refl

abbrev pub ops : DoubleOps ℕ
ops = record { zero_double = 0; add = λ a b. a + b; half = λ a. a; le = λ a b. true }

abbrev pub thresholds : LruPolicyConfig
thresholds = record { hot_threshold_ms = 100; cold_threshold_ms = 1000 }

abbrev pub policy : PolicyConfig ℕ
policy = record { config = lru thresholds; policy_type = "lru"; scan_interval = 30 }

pub no_ring-Inv : Inv 3 no_ring
no_ring-Inv = record {
  off = refl;
  consistent = no_ring-IsConsistent;
  index = omega arith;
  small = omega arith;
  tiers = λ e. absurd (omega (arith, e));
}

run_scanner-Inv_example :
    Returns
      (λ u w'. Inv 3 w')
      (run_scanner ops machine policy 3 (false ∷ false ∷ true ∷ []) no_ring)
run_scanner-Inv_example =
    run_scanner-Inv 3 machine (λ n addr node. refl) ops policy (lru_typed thresholds refl refl)
      (false ∷ false ∷ true ∷ []) no_ring no_ring-Inv

-- Three pages of the local layer in the ring, and one page of the persistent memory; `n` is the
-- capacity of the local layer.
abbrev pub ring_world : ℕ → World
ring_world n = record {
  server_config = record {
    num_tiers = 3;
    local_numa = info 3 n;
    remote_numa = info 0 0;
    pmem = info 1 1;
  };
  table =
      (10, entry 4096 numa_local 1)
      ∷ (11, entry 8192 numa_local 2)
      ∷ (12, entry 12288 numa_local 3)
      ∷ (13, entry 16384 pmem 0)
      ∷ [];
  local_page_load = 3;
  remote_page_load = 0;
  pmem_page_load = 1;
  scan_index = 0;
  enable_cache_ring = true;
  local_cache_ring = some (three 3 false);
  metrics = metrics;
  ticks = 0;
}

-- The page with the node.
abbrev at_node :
    (k addr node : ℕ)
    → node ≢ 0
    → find k (ring_world 3).table ≡ some (entry addr numa_local node)
    → EntryOf (ring_world 3).table k node
at_node k addr node ne e = record {
  entry = entry addr numa_local node;
  found = e;
  local = refl;
  node = refl;
  not_null = ne;
}

pub ring_world-Coupled : Coupled (ring_world 3).table (cells false)
unfolding find
ring_world-Coupled = (
  at_node 10 4096 1 (λ z. omega (arith, z)) refl,
  (
    at_node 11 8192 2 (λ z. omega (arith, z)) refl,
    (at_node 12 12288 3 (λ z. omega (arith, z)) refl, tt),
  ),
)

demote_into_full_example :
    Returns
      (λ u w'. Stranded machine 10 (entry 4096 numa_local 1) (delete 1 (cells false)) w')
      (migrate_page machine 2 10 pmem (ring_world 3))
unfolding find layer_info
demote_into_full_example =
    demote_into_full machine (ring_world 3) (three 3 false) (cells false) refl refl
      (three-IsRing 3 false (omega arith) (omega arith)) 10 1
      (at_node 10 4096 1 (λ z. omega (arith, z)) refl) refl 1 pmem (λ z. cc) refl

abbrev pub double : DoubleArith ℕ
double = record {
  of_uint64 = λ n. n;
  mul = λ a b. a * b;
  div = λ a b. a;
  zero_double = 0;
  giga = 1_000_000_000;
}

-- The counters with so many accesses to the local layer.
abbrev accesses : ℕ → Counters
accesses n = record zero_counters { local_access_count = n }

abbrev rows : List (Bool × Counters × ℕ)
rows = (true, accesses 3, 10) ∷ (true, accesses 8, 20) ∷ []

sum_deltas-report_all_example :
    sum_deltas local_access (report_all double no_ring.server_config rows metrics)
    ≡ sub64
        (count_of local_access (last_snapshot zero_counters rows))
        (count_of local_access zero_counters)
sum_deltas-report_all_example =
    sum_deltas-report_all double local_access no_ring.server_config rows metrics (refl, (refl, tt))
      (omega arith) (omega arith, (omega arith, tt))

-- One client with two local pages, one remote page and one of the persistent memory.
abbrev pub one_client : List (ClientConfig ℕ)
one_client = record { pattern = uniform; tier_sizes = 2 ∷ 1 ∷ 1 ∷ []; zipf_s = 1 } ∷ []

-- Before the table is filled.
abbrev pub blank : World
blank = record no_ring {
  server_config = record {
    num_tiers = 3;
    local_numa = info 0 4;
    remote_numa = info 0 2;
    pmem = info 0 2;
  };
  table = [];
}
