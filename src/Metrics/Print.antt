-- ===== src/Metrics/Print.antt =====
-- The totals that src/server/Metrics.cpp prints at the end of a run, and the file with the
-- distribution of the latency.
use Prim.Native.String.{String}
use memory_tiering.Base.{
  ℕ, zero, suc, ◌+◌, Bool, Option, none, some, List, [], ◌∷◌, ◌++◌, add64, ltb, if◌then◌else◌,
}
use memory_tiering.Logger.{string, number, real, LogLine, log_info, log_error}
use memory_tiering.Metrics.{Metrics, Counters}
use memory_tiering.Metrics.Periodic.{DoubleArith, total_access}

-- The statistics of Boost on what was fed to an accumulator set: `extended_p_square` is the i-th of
-- the estimated quantiles.
pub record Statistics (F : Type 0) : Type 0 where
  pub min : List ℕ → ℕ
  pub max : List ℕ → ℕ
  pub mean : List ℕ → F
  pub extended_p_square : ℕ → List ℕ → F
  -- A `double` as a `uint64_t`.
  pub to_uint64 : F → ℕ
  -- `k / 10`, as the literals 0.1 to 0.9 denote it.
  pub tenths : ℕ → F

-- A line of the file: a percentile and its latency, or a named value.
pub data CsvRow (F : Type 0) : Type 0 where
  header : String → CsvRow F
  named_count : String → ℕ → CsvRow F
  named_value : String → F → CsvRow F
  percentile_row : (percentile : F) → (latency : ℕ) → CsvRow F

abbrev pub said : {F : Type 0} → String → LogLine F
said s = log_info (string s ∷ [])

abbrev pub counted : {F : Type 0} → String → ℕ → LogLine F
counted label n = log_info (string label ∷ number n ∷ [])

module _ {F : Type 0} (double : DoubleArith F) (stats : Statistics F) where
  open double use {of_uint64, mul, div, giga}

  abbrev pub quantile : String → ℕ → List ℕ → LogLine F
  quantile label i l = log_info (string label ∷ real (stats.extended_p_square i l) ∷ [])

  -- The latencies; the label of the maximum is not the same in both reports.
  unfoldable pub latency_lines : String → List ℕ → List (LogLine F)
  latency_lines max_label l =
      said "Access Latency (ns):"
      ∷ counted "  Min:  " (stats.min l)
      ∷ quantile "  P10:  " 0 l
      ∷ quantile "  P20:  " 1 l
      ∷ quantile "  P30:  " 2 l
      ∷ quantile "  P40:  " 3 l
      ∷ quantile "  P50:  " 4 l
      ∷ quantile "  P60:  " 5 l
      ∷ quantile "  P70:  " 6 l
      ∷ quantile "  P80:  " 7 l
      ∷ quantile "  P90:  " 8 l
      ∷ counted max_label (stats.max l)
      ∷ log_info (string "  Mean: " ∷ real (stats.mean l) ∷ [])
      ∷ []

  -- The throughput, if any time was measured.
  unfoldable pub throughput_lines : (total_access total_latency : ℕ) → List (LogLine F)
  throughput_lines total_access total_latency =
      if ltb 0 total_latency
      then said "Throughput:"
        ∷ log_info (
            string "  Throughput: "
            ∷ real (div (mul (of_uint64 total_access) giga) (of_uint64 total_latency))
            ∷ string " ops/sec"
            ∷ [])
        ∷ []
      else []

  unfoldable pub three_tier_counts : Counters → List (LogLine F)
  three_tier_counts c =
      said "======== Memory Access Metrics ========"
      ∷ said "Access Counts:"
      ∷ counted "  NUMA Local:  " c.local_access_count
      ∷ counted "  NUMA Remote: " c.remote_access_count
      ∷ counted "  PMEM:        " c.pmem_access_count
      ∷ []

  unfoldable pub three_tier_migrations : Counters → List (LogLine F)
  three_tier_migrations c =
      said "Migration Counts:"
      ∷ counted "  Local -> Remote: " c.local_to_remote_count
      ∷ counted "  Remote -> Local: " c.remote_to_local_count
      ∷ counted "  PMEM -> Remote: " c.pmem_to_remote_count
      ∷ counted "  Remote -> PMEM: " c.remote_to_pmem_count
      ∷ counted "  Local -> PMEM: " c.local_to_pmem_count
      ∷ counted "  PMEM -> Local: " c.pmem_to_local_count
      ∷ []

  unfoldable pub print_metrics_three_tiers : Metrics → List (LogLine F)
  print_metrics_three_tiers m =
      three_tier_counts m.now
      ++ (latency_lines "  Max:  " m.access_latency
          ++ (three_tier_migrations m.now
              ++ (throughput_lines (total_access m.now) m.now.total_latency
                  ++ (said "===================================" ∷ []))))

  unfoldable pub two_tier_counts : Counters → List (LogLine F)
  two_tier_counts c =
      said "======== Memory Access Metrics (Two Tiers) ========"
      ∷ said "Access Counts:"
      ∷ counted "  DRAM: " c.local_access_count
      ∷ counted "  PMEM: " c.pmem_access_count
      ∷ []

  unfoldable pub two_tier_migrations : Counters → List (LogLine F)
  two_tier_migrations c =
      said "Migration Counts:"
      ∷ counted "  DRAM -> PMEM: " c.local_to_pmem_count
      ∷ counted "  PMEM -> DRAM: " c.pmem_to_local_count
      ∷ []

  unfoldable pub print_metrics_two_tiers : Metrics → List (LogLine F)
  print_metrics_two_tiers m =
      two_tier_counts m.now
      ++ (latency_lines "  Max   " m.access_latency
          ++ (two_tier_migrations m.now
              ++ (throughput_lines (add64 m.now.local_access_count m.now.pmem_access_count)
                    m.now.total_latency
                  ++ (said "==========================================" ∷ []))))

  -- The loop over `probabilities`, for the i-th and so many more.
  unfoldable pub percentile_rows : (i n : ℕ) → List ℕ → List (CsvRow F)
  percentile_rows i zero l = []
  percentile_rows i (suc n) l =
      percentile_row (stats.tenths (i + 1)) (stats.to_uint64 (stats.extended_p_square i l))
      ∷ percentile_rows (i + 1) n l

  -- `outputLatencyCDFToFile`: what the file then holds, if it opens, and what is logged.
  unfoldable pub output_latency_cdf_to_file :
      (opens : Bool) → String → Metrics → Option (List (CsvRow F)) × List (LogLine F)
  output_latency_cdf_to_file opens filename m =
      if opens
      then (
        some (
            header "percentile,latency_ns"
            ∷ named_count "Min" (stats.min m.access_latency)
            ∷ (percentile_rows 0 9 m.access_latency
                ++ (named_count "Max" (stats.max m.access_latency)
                    ∷ named_value "Mean" (stats.mean m.access_latency)
                    ∷ []))),
        log_info (string "CDF data written to: " ∷ string filename ∷ []) ∷ [],
      )
      else (none, log_error (string "Failed to open file: " ∷ string filename ∷ []) ∷ [])
