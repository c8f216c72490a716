-- ===== src/Metrics/Periodic.antt =====
-- `Metrics::periodicalMetrics` of src/server/Metrics.cpp: the differences since the last report.
use memory_tiering.Base.{
  ℕ, ◌^◌, ◌<◌, ◌≡◌, refl, Bool, true, Option, none, some, List, [], ◌∷◌, arith, add64, sub64, ltb,
  if◌then◌else◌,
}
use memory_tiering.Common.{ServerMemoryConfig}
use memory_tiering.Metrics.{Metrics, Counters}

-- The arithmetic of `double` that the report uses: `static_cast<double>`, `*`, `/`, 0.0 and 1e9.
pub record DoubleArith (F : Type 0) : Type 0 where
  pub of_uint64 : ℕ → F
  pub mul : F → F → F
  pub div : F → F → F
  pub zero_double : F
  pub giga : F

-- A line of the output file.
pub record Report (F : Type 0) : Type 0 where
  pub avg_latency : F
  pub throughput : F
  pub deltas : Counters
  pub current_access : ℕ
  pub local_count : ℕ
  pub remote_count : ℕ
  pub pmem_count : ℕ
  pub interval : ℕ

-- The differences of all counters, modulo 2^64.
unfoldable pub differences : Counters → Counters → Counters
differences now last = record {
  local_access_count = sub64 now.local_access_count last.local_access_count;
  remote_access_count = sub64 now.remote_access_count last.remote_access_count;
  pmem_access_count = sub64 now.pmem_access_count last.pmem_access_count;
  local_to_remote_count = sub64 now.local_to_remote_count last.local_to_remote_count;
  remote_to_local_count = sub64 now.remote_to_local_count last.remote_to_local_count;
  pmem_to_remote_count = sub64 now.pmem_to_remote_count last.pmem_to_remote_count;
  remote_to_pmem_count = sub64 now.remote_to_pmem_count last.remote_to_pmem_count;
  local_to_pmem_count = sub64 now.local_to_pmem_count last.local_to_pmem_count;
  pmem_to_local_count = sub64 now.pmem_to_local_count last.pmem_to_local_count;
  total_latency = sub64 now.total_latency last.total_latency;
}

unfoldable pub total_access : Counters → ℕ
total_access c = add64 (add64 c.local_access_count c.remote_access_count) c.pmem_access_count

module _ {F : Type 0} (double : DoubleArith F) where
  unfoldable pub report : Counters → ServerMemoryConfig → ℕ → Report F
  report d config interval = record {
    avg_latency =
        if ltb 0 d.total_latency
        then double.div (double.of_uint64 d.total_latency) (double.of_uint64 (total_access d))
        else double.zero_double;
    throughput =
        if ltb 0 d.total_latency
        then double.div (double.mul (double.of_uint64 (total_access d)) double.giga)
            (double.of_uint64 d.total_latency)
        else double.zero_double;
    deltas = d;
    current_access = total_access d;
    local_count = config.local_numa.count;
    remote_count = config.remote_numa.count;
    pmem_count = config.pmem.count;
    interval = interval;
  }

  -- The new state, and the line that is written if the file opens.
  unfoldable pub periodical_metrics :
      (opens : Bool) → ServerMemoryConfig → ℕ → Metrics → Metrics × Option (Report F)
  periodical_metrics opens config interval m =
      let d = differences m.now m.last_period in
      (record m { last_period = m.now }, if opens then some (report d config interval) else none)

  -- Reports in a row, each after the server has brought the counters to the next snapshot: whether the
  -- file opens, the counters, and the interval. The lines that the file then has.
  unfoldable pub report_all :
      ServerMemoryConfig → List (Bool × Counters × ℕ) → Metrics → List (Report F)
  report_all config [] m = []
  report_all config ((opens, now, interval) ∷ rest) m =
      let (m', line) = periodical_metrics opens config interval (record m { now = now }) in
      elim line [ none ↦ report_all config rest m' | some r ↦ r ∷ report_all config rest m' ]

-- The counters, by name.
pub data Counter : Type 0 where
  local_access remote_access pmem_access latency : Counter
  local_to_remote remote_to_local pmem_to_remote remote_to_pmem local_to_pmem pmem_to_local :
      Counter

abbrev pub count_of : Counter → Counters → ℕ
count_of local_access c = c.local_access_count
count_of remote_access c = c.remote_access_count
count_of pmem_access c = c.pmem_access_count
count_of latency c = c.total_latency
count_of local_to_remote c = c.local_to_remote_count
count_of remote_to_local c = c.remote_to_local_count
count_of pmem_to_remote c = c.pmem_to_remote_count
count_of remote_to_pmem c = c.remote_to_pmem_count
count_of local_to_pmem c = c.local_to_pmem_count
count_of pmem_to_local c = c.pmem_to_local_count

count_of-differences :
    (k : Counter) (now last : Counters)
    → count_of k (differences now last) ≡ sub64 (count_of k now) (count_of k last)
unfolding differences
count_of-differences local_access now last = refl
count_of-differences remote_access now last = refl
count_of-differences pmem_access now last = refl
count_of-differences latency now last = refl
count_of-differences local_to_remote now last = refl
count_of-differences remote_to_local now last = refl
count_of-differences pmem_to_remote now last = refl
count_of-differences remote_to_pmem now last = refl
count_of-differences local_to_pmem now last = refl
count_of-differences pmem_to_local now last = refl

-- The counters at the end of a row of snapshots.
unfoldable pub last_snapshot : Counters → List (Bool × Counters × ℕ) → Counters
last_snapshot c [] = c
last_snapshot c ((opens, now, interval) ∷ rest) = last_snapshot now rest

unfoldable pub sum_deltas : {F : Type 0} → Counter → List (Report F) → ℕ
sum_deltas k [] = 0
sum_deltas k (r ∷ rs) = add64 (count_of k r.deltas) (sum_deltas k rs)

-- The file opens at every report.
abbrev pub AllOpen : List (Bool × Counters × ℕ) → Type 0
AllOpen [] = Unit {0}
AllOpen ((opens, now, interval) ∷ rows) = (opens ≡ true) × AllOpen rows

-- The snapshots of a counter are 64-bit words.
abbrev pub AreWords : Counter → List (Bool × Counters × ℕ) → Type 0
AreWords k [] = Unit {0}
AreWords k ((opens, now, interval) ∷ rows) = (count_of k now < 2 ^ 64) × AreWords k rows

last_word :
    (k : Counter) (c : Counters) (rows : List (Bool × Counters × ℕ))
    → count_of k c < 2 ^ 64
    → AreWords k rows
    → count_of k (last_snapshot c rows) < 2 ^ 64
unfolding last_snapshot
last_word k c [] h w = h
last_word k c ((opens, now, interval) ∷ rows) h w = last_word k now rows w.0 w.1

telescope :
    (a b c d s : ℕ)
    → a < 2 ^ 64
    → b < 2 ^ 64
    → c < 2 ^ 64
    → s ≡ sub64 c b
    → d ≡ sub64 b a
    → add64 d s ≡ sub64 c a
telescope a b c d s ha hb hc e e' = omega arith

module _ {F : Type 0} (double : DoubleArith F) (k : Counter) (config : ServerMemoryConfig) where
  -- If the output file opens at every report, and the counter is a 64-bit word at each: the
  -- differences that are written over any number of periods add up, modulo 2^64, to the growth of the
  -- counter from the last report before them to the last snapshot.
  pub sum_deltas-report_all :
      (rows : List (Bool × Counters × ℕ)) (m : Metrics)
      → AllOpen rows
      → count_of k m.last_period < 2 ^ 64
      → AreWords k rows
      → sum_deltas k (report_all double config rows m)
        ≡ sub64 (count_of k (last_snapshot m.last_period rows)) (count_of k m.last_period)
  unfolding sum_deltas report_all last_snapshot periodical_metrics report
  sum_deltas-report_all [] m o h w = omega arith
  sum_deltas-report_all ((opens, now, interval) ∷ rows) m (opened, o) h w = rw opened (
      telescope (count_of k m.last_period) (count_of k now) (count_of k (last_snapshot now rows)) _
        _ h w.0 (last_word k now rows w.0 w.1)
        (sum_deltas-report_all rows (record m { now = now; last_period = now }) o w.0 w.1)
        (count_of-differences k now m.last_period))
