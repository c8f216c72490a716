-- ===== src/PageTable/Tally.antt =====
-- How many accesses the metrics have counted: the samples of the latency, and the counters of the
-- three layers taken together (modulo 2^64, as they wrap around).
use memory_tiering.Base.{ℕ, ◌+◌, ◌%◌, ◌^◌, ◌≡◌, refl, inc64, length, arith}
use memory_tiering.Common.{PageLayer, numa_local, numa_remote, pmem}
use memory_tiering.Metrics.{
  Counters, increment_local_access, increment_remote_access, increment_pmem_access,
  increment_local_to_remote, increment_remote_to_local, increment_pmem_to_remote,
  increment_remote_to_pmem, increment_local_to_pmem, increment_pmem_to_local,
}
use memory_tiering.PageTable.{World, count_access, count_migration}

abbrev pub total_accesses : Counters → ℕ
total_accesses c = (c.local_access_count + c.remote_access_count + c.pmem_access_count) % 2 ^ 64

pub record Tallied (k : ℕ) (w : World) : Type 0 where
  pub samples : length w.metrics.access_latency ≡ k
  pub counters : total_accesses w.metrics.now ≡ k % 2 ^ 64

pub total-count_access :
    (l : PageLayer) (c : Counters) → total_accesses (count_access l c) ≡ inc64 (total_accesses c)
unfolding count_access increment_local_access increment_remote_access increment_pmem_access
total-count_access numa_local c = omega arith
total-count_access numa_remote c = omega arith
total-count_access pmem c = omega arith

pub total-count_migration :
    (l k : PageLayer) (c : Counters) → total_accesses (count_migration l k c) ≡ total_accesses c
unfolding count_migration increment_local_to_remote increment_remote_to_local
    increment_pmem_to_remote increment_remote_to_pmem increment_local_to_pmem
    increment_pmem_to_local
total-count_migration numa_local numa_local c = refl
total-count_migration numa_local numa_remote c = refl
total-count_migration numa_local pmem c = refl
total-count_migration numa_remote numa_local c = refl
total-count_migration numa_remote numa_remote c = refl
total-count_migration numa_remote pmem c = refl
total-count_migration pmem numa_local c = refl
total-count_migration pmem numa_remote c = refl
total-count_migration pmem pmem c = refl
