-- ===== src/Config/Print.antt =====
-- `_printConfig` of src/common/ConfigParser.cpp: the lines that it logs. `std::get` throws if the
-- policy holds other parameters than those of its name.
use Prim.Native.String.{String}
use text.Mathlib.Text.{◌==◌ as str_eq}
use memory_tiering.Base.{
  ℕ, zero, suc, ◌+◌, Option, none, some, List, [], ◌∷◌, ◌++◌, get_elem?, if◌then◌else◌,
}
use memory_tiering.Base.Run.{Cmd, pure, get_state, deref, or_throw, ◌>>=◌}
use memory_tiering.Common.{
  AccessPattern, uniform, hot, zipfian, ClientConfig, ServerMemoryConfig, PolicyVariant, lru,
  frequency, hybrid, PolicyConfig,
}
use memory_tiering.Logger.{string, number, real, flag, LogLine, log_info}
use memory_tiering.Config.{ConfigParser, get_tier_name, capacities}

abbrev pub said : {F : Type 0} → String → LogLine F
said s = log_info (string s ∷ [])

abbrev pub counted : {F : Type 0} → String → ℕ → LogLine F
counted label n = log_info (string label ∷ number n ∷ [])

unfoldable pub pattern_name : AccessPattern → String
pattern_name uniform = "Uniform"
pattern_name hot = "Hot"
pattern_name zipfian = "Zipfian"

-- The pages of a tier.
abbrev pub sized : {F : Type 0} → (indent : String) → (tier num_tiers n : ℕ) → LogLine F
sized indent tier num_tiers n = log_info (
    string indent
    ∷ string (get_tier_name tier num_tiers)
    ∷ string ": "
    ∷ number n
    ∷ string " pages"
    ∷ [])

module _ {F : Type 0} where
  unfoldable pub lru_lines : PolicyVariant F → Option (List (LogLine F))
  lru_lines (lru c) = some (
      log_info (string "  - LRU Hot Threshold: " ∷ number c.hot_threshold_ms ∷ string " ms" ∷ [])
      ∷ log_info
          (string "  - LRU Cold Threshold: " ∷ number c.cold_threshold_ms ∷ string " ms" ∷ [])
      ∷ [])
  lru_lines (frequency c) = none
  lru_lines (hybrid c) = none

  unfoldable pub frequency_lines : PolicyVariant F → Option (List (LogLine F))
  frequency_lines (frequency c) = some (
      counted "  - Frequency Hot Count: " c.hot_access_count
      ∷ counted "  - Frequency Cold Count: " c.cold_access_count
      ∷ [])
  frequency_lines (lru c) = none
  frequency_lines (hybrid c) = none

  unfoldable pub hybrid_lines : PolicyVariant F → Option (List (LogLine F))
  hybrid_lines (hybrid c) = some (
      log_info (string "  - Hybrid Hot Threshold: " ∷ number c.hot_threshold_ms ∷ string " ms" ∷ [])
      ∷ log_info
          (string "  - Hybrid Cold Threshold: " ∷ number c.cold_threshold_ms ∷ string " ms" ∷ [])
      ∷ counted "  - Hybrid Hot Count: " c.hot_access_count
      ∷ counted "  - Hybrid Cold Count: " c.cold_access_count
      ∷ log_info (string "  - Hybrid Recency Weight: " ∷ real c.weight_recency ∷ [])
      ∷ log_info (string "  - Hybrid Frequency Weight: " ∷ real c.weight_frequency ∷ [])
      ∷ [])
  hybrid_lines (lru c) = none
  hybrid_lines (frequency c) = none

  -- The parameters of the policy, `none` if `std::get` throws.
  unfoldable pub policy_lines : PolicyConfig F → Option (List (LogLine F))
  policy_lines p =
      if str_eq p.policy_type "lru"
      then lru_lines p.config
      else if str_eq p.policy_type "frequency"
      then frequency_lines p.config
      else if str_eq p.policy_type "hybrid"
      then hybrid_lines p.config
      else some []

  -- `*sizes[i]` for the i-th tier and so many more; `none` is a read out of range.
  unfoldable pub tier_lines :
      (i n : ℕ) → (num_tiers : ℕ) → ServerMemoryConfig → Option (List (LogLine F))
  tier_lines i zero num_tiers c = some []
  tier_lines i (suc n) num_tiers c = elim (get_elem? (capacities c) i) [
    | none ↦ none
    | some size ↦ elim (tier_lines (i + 1) n num_tiers c) [
      | none ↦ none
      | some rest ↦ some (sized "  - " i num_tiers size ∷ rest)
    ]
  ]

  -- `tier_sizes[j]`, from the j-th on.
  unfoldable pub size_lines : (j num_tiers : ℕ) → List ℕ → List (LogLine F)
  size_lines j num_tiers [] = []
  size_lines j num_tiers (size ∷ sizes) =
      sized "    - " j num_tiers size ∷ size_lines (j + 1) num_tiers sizes

  unfoldable pub zipf_lines : AccessPattern → F → List (LogLine F)
  zipf_lines uniform s = []
  zipf_lines hot s = []
  zipf_lines zipfian s = log_info (string "    - Zipfs: " ∷ real s ∷ []) ∷ []

  -- The clients, from the i-th on.
  unfoldable pub client_lines : (i num_tiers : ℕ) → List (ClientConfig F) → List (LogLine F)
  client_lines i num_tiers [] = []
  client_lines i num_tiers (c ∷ clients) =
      log_info (string "  Client " ∷ number (i + 1) ∷ string ":" ∷ [])
      ∷ log_info (string "    - Pattern: " ∷ string (pattern_name c.pattern) ∷ [])
      ∷ (zipf_lines c.pattern c.zipf_s
          ++ (size_lines 0 num_tiers c.tier_sizes ++ client_lines (i + 1) num_tiers clients))

  -- What comes before the parameters of the policy, and after.
  unfoldable pub first_lines : ConfigParser F → List (LogLine F)
  first_lines s =
      said "========== Configuration Parameters =========="
      ∷ counted "Buffer Size: " s.buffer_size
      ∷ log_info (string "Running Time: " ∷ number s.running_time ∷ string " seconds" ∷ [])
      ∷ log_info (string "Read/Write Ratio: " ∷ real s.rw_ratio ∷ [])
      ∷ counted "Sample Rate: " s.sample_rate
      ∷ log_info (string "Migration Page Policy Type: " ∷ string s.policy_config.policy_type ∷ [])
      ∷ counted "Scan Interval: " s.policy_config.scan_interval
      ∷ []

  unfoldable pub file_lines : ConfigParser F → List (LogLine F)
  file_lines s =
      counted "Number of Tiers: " s.server_memory_config.num_tiers
      ∷ log_info (string "CDF Output File: " ∷ string s.cdf_output_file ∷ [])
      ∷ log_info
          (string "Periodic Metric Output File: " ∷ string s.periodic_metric_output_file ∷ [])
      ∷ said "Memory Tier Sizes:"
      ∷ []

  unfoldable pub last_lines : ConfigParser F → List (LogLine F)
  last_lines s =
      log_info (string "  - Cache Ring: " ∷ flag s.use_cache_ring ∷ [])
      ∷ said "Client Configurations:"
      ∷ (client_lines 0 s.server_memory_config.num_tiers s.client_configs
          ++ (said "==========================================" ∷ []))

  -- `_printConfig`
  unfoldable pub print_config : Cmd (ConfigParser F) (List (LogLine F))
  print_config = do
    s ← get_state
    policy ← or_throw (policy_lines s.policy_config)
    tiers ← deref (
        tier_lines 0 s.server_memory_config.num_tiers s.server_memory_config.num_tiers
          s.server_memory_config)
    pure (first_lines s ++ (policy ++ (file_lines s ++ (tiers ++ last_lines s))))
