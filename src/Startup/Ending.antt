-- ===== src/Startup/Ending.antt =====
-- The end of main.cpp: the report of the totals, the file with the latencies, and what main returns.
use memory_tiering.Base.{ℕ, Bool, Option, List, ◌++◌, ◌==◌, if◌then◌else◌}
use memory_tiering.Config.{ConfigParser}
use memory_tiering.Logger.{LogLine}
use memory_tiering.Metrics.{Metrics}
use memory_tiering.Metrics.Periodic.{DoubleArith}
use memory_tiering.Metrics.Print.{
  Statistics, CsvRow, print_metrics_three_tiers, print_metrics_two_tiers,
  output_latency_cdf_to_file,
}

-- What `main` returns if `parse` returns false.
unfoldable pub exit_early : {F : Type 0} → ConfigParser F → ℕ
exit_early config = if config.help_requested then 0 else 1

-- What is printed and written, and what `main` returns.
pub record Ending (F : Type 0) : Type 0 where
  pub lines : List (LogLine F)
  pub rows : Option (List (CsvRow F))
  pub status : ℕ

module _ {F : Type 0} (double : DoubleArith F) (stats : Statistics F) where
  unfoldable pub print_totals : (num_tiers : ℕ) → Metrics → List (LogLine F)
  print_totals num_tiers m =
      if num_tiers == 3
      then print_metrics_three_tiers double stats m
      else print_metrics_two_tiers double stats m

  unfoldable pub end_main : (opens : Bool) → ConfigParser F → Metrics → Ending F
  end_main opens config m =
      let (rows, said) = output_latency_cdf_to_file double stats opens config.cdf_output_file m in
      record {
        lines = print_totals config.server_memory_config.num_tiers m ++ said;
        rows = rows;
        status = 0;
      }
