-- ===== src/Metrics.antt =====
-- include/server/Metrics.hpp and src/server/Metrics.cpp: the counters of the singleton, and the
-- report of each period. The accumulator set of Boost is kept as the list of what was fed to it.
pub mod Periodic
pub mod Print
use memory_tiering.Base.{ℕ, ◌+◌, List, [], ◌∷◌, inc64, add64, sub64}
use memory_tiering.Common.{PageLayer, numa_local, numa_remote, pmem}

-- The counters that the server's threads increase.
pub record Counters : Type 0 where
  pub local_access_count : ℕ
  pub remote_access_count : ℕ
  pub pmem_access_count : ℕ
  pub local_to_remote_count : ℕ
  pub remote_to_local_count : ℕ
  pub pmem_to_remote_count : ℕ
  pub remote_to_pmem_count : ℕ
  pub local_to_pmem_count : ℕ
  pub pmem_to_local_count : ℕ
  pub total_latency : ℕ

-- `last_period` holds the fields `last_period_*`, the counters at the previous report.
pub record Metrics : Type 0 where
  pub now : Counters
  pub access_latency : List ℕ
  pub last_period : Counters

abbrev pub zero_counters : Counters
zero_counters = record {
  local_access_count = 0;
  remote_access_count = 0;
  pmem_access_count = 0;
  local_to_remote_count = 0;
  remote_to_local_count = 0;
  pmem_to_remote_count = 0;
  remote_to_pmem_count = 0;
  local_to_pmem_count = 0;
  pmem_to_local_count = 0;
  total_latency = 0;
}

unfoldable pub increment_local_access : Counters → Counters
increment_local_access c = record c { local_access_count = inc64 c.local_access_count }

unfoldable pub increment_remote_access : Counters → Counters
increment_remote_access c = record c { remote_access_count = inc64 c.remote_access_count }

unfoldable pub increment_pmem_access : Counters → Counters
increment_pmem_access c = record c { pmem_access_count = inc64 c.pmem_access_count }

unfoldable pub increment_local_to_remote : Counters → Counters
increment_local_to_remote c = record c { local_to_remote_count = inc64 c.local_to_remote_count }

unfoldable pub increment_remote_to_local : Counters → Counters
increment_remote_to_local c = record c { remote_to_local_count = inc64 c.remote_to_local_count }

unfoldable pub increment_pmem_to_remote : Counters → Counters
increment_pmem_to_remote c = record c { pmem_to_remote_count = inc64 c.pmem_to_remote_count }

unfoldable pub increment_remote_to_pmem : Counters → Counters
increment_remote_to_pmem c = record c { remote_to_pmem_count = inc64 c.remote_to_pmem_count }

unfoldable pub increment_local_to_pmem : Counters → Counters
increment_local_to_pmem c = record c { local_to_pmem_count = inc64 c.local_to_pmem_count }

unfoldable pub increment_pmem_to_local : Counters → Counters
increment_pmem_to_local c = record c { pmem_to_local_count = inc64 c.pmem_to_local_count }

unfoldable pub record_access_latency : ℕ → Metrics → Metrics
record_access_latency latency_ns m = record m {
  access_latency = latency_ns ∷ m.access_latency;
  now = record (m.now) { total_latency = add64 m.now.total_latency latency_ns };
}

-- `reset` clears the counters and the accumulator, and leaves `last_period_*`.
unfoldable pub reset : Metrics → Metrics
reset m = record m { now = zero_counters; access_latency = [] }
