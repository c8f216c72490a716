-- ===== src/Config.antt =====
-- include/common/ConfigParser.hpp and src/common/ConfigParser.cpp: from the options that the cxxopts
-- library has parsed to the configuration of server and clients. An option that has no default is
-- `none` where it is missing, and reading it throws, as does `std::stoul` on a text that is no
-- number. The messages that the code logs are left out.
pub mod Split
pub mod Print
pub mod Printed
pub mod Valid
pub mod Limits
use Prim.Native.String.{String}
use text.Mathlib.Text.{◌==◌ as str_eq}
use memory_tiering.Base.{
  ℕ, zero, suc, Bool, true, false, Option, none, some, List, [], ◌∷◌, ◌++◌, ◌==◌, ◌||◌, ltb, leb,
  not, if◌then◌else◌, add64, length, get_elem?,
}
use memory_tiering.Base.Run.{Cmd, pure, get_state, modify, deref, or_throw, and_also, ◌>>=◌, ◌>>◌}
use memory_tiering.Common.{
  AccessPattern, uniform, hot, zipfian, LayerInfo, ClientConfig, ServerMemoryConfig, PolicyVariant,
  lru, frequency, hybrid, PolicyConfig,
}
use Split.{split}

-- What `cxxopts` has read: the value of each option.
pub record ParseResult (F : Type 0) : Type 0 where
  pub help : Bool
  pub buffer_size : ℕ
  pub running_time : Option ℕ
  pub output : String
  pub periodic_output : String
  pub ratio : F
  pub sample_rate : ℕ
  pub cache_ring : Bool
  pub num_tiers : ℕ
  pub policy_type : String
  pub scan_interval : ℕ
  pub hot_threshold : ℕ
  pub cold_threshold : ℕ
  pub hot_count : ℕ
  pub cold_count : ℕ
  pub recency_weight : F
  pub frequency_weight : F
  pub mem_sizes : Option (List ℕ)
  pub patterns : Option (List String)
  pub client_tier_sizes : Option (List (List ℕ))
  pub zipfs : F

pub record ConfigParser (F : Type 0) : Type 0 where
  pub help_requested : Bool
  pub buffer_size : ℕ
  pub running_time : ℕ
  pub rw_ratio : F
  pub sample_rate : ℕ
  pub client_configs : List (ClientConfig F)
  pub server_memory_config : ServerMemoryConfig
  pub policy_config : PolicyConfig F
  pub use_cache_ring : Bool
  pub cdf_output_file : String
  pub periodic_metric_output_file : String

-- `_getTierName`
unfoldable pub get_tier_name : (tier_idx num_tiers : ℕ) → String
get_tier_name tier_idx num_tiers =
    if num_tiers == 2
    then (if tier_idx == 0 then "DRAM" else "PMEM")
    else (if tier_idx == 0 then "Local NUMA" else if tier_idx == 1 then "Remote NUMA" else "PMEM")

-- The name of a pattern, `none` for an unknown one.
unfoldable pub parse_pattern : String → Option AccessPattern
parse_pattern s =
    if str_eq s "uniform"
    then some uniform
    else if str_eq s "hot"
    then some hot
    else if str_eq s "zipfian"
    then some zipfian
    else none

-- `tier_totals[i] += client.tier_sizes[i]` for every tier; `none` is a read out of range.
unfoldable pub add_sizes : (tier_totals tier_sizes : List ℕ) → Option (List ℕ)
add_sizes [] sizes = some []
add_sizes (t ∷ totals) [] = none
add_sizes (t ∷ totals) (s ∷ sizes) = elim (add_sizes totals sizes) [
  | none ↦ none
  | some rest ↦ some (add64 t s ∷ rest)
]

unfoldable pub within_limits : (tier_totals tier_limits : List ℕ) → Bool
within_limits (t ∷ totals) (l ∷ limits) = if leb t l then within_limits totals limits else false
within_limits _ _ = true

abbrev pub zeros : ℕ → List ℕ
zeros zero = []
zeros (suc n) = 0 ∷ zeros n

abbrev pub capacities : ServerMemoryConfig → List ℕ
capacities m = m.local_numa.capacity ∷ m.remote_numa.capacity ∷ m.pmem.capacity ∷ []

abbrev pub with_capacity : ℕ → LayerInfo → LayerInfo
with_capacity n i = record i { capacity = n }

-- `mem_sizes.back()`
abbrev pub last_of : ℕ → List ℕ → ℕ
last_of m [] = m
last_of m (m' ∷ ms) = last_of m' ms

-- The capacities that `_parseServerConfig` sets; `none` is a read out of range.
unfoldable pub set_capacities : List ℕ → ServerMemoryConfig → Option ServerMemoryConfig
set_capacities [] c = none
set_capacities (m ∷ ms) c = elim (if c.num_tiers == 3 then get_elem? (m ∷ ms) 1 else some 0) [
  | none ↦ none
  | some r ↦ some (record c {
    local_numa = with_capacity m c.local_numa;
    remote_numa = with_capacity r c.remote_numa;
    pmem = with_capacity (last_of m ms) c.pmem;
  })
]

module _ {F : Type 0} where
  unfoldable pub sum_tiers : (tier_totals : List ℕ) → List (ClientConfig F) → Option (List ℕ)
  sum_tiers totals [] = some totals
  sum_tiers totals (c ∷ clients) = elim (add_sizes totals c.tier_sizes) [
    | none ↦ none
    | some totals' ↦ sum_tiers totals' clients
  ]

  -- `_validateMemoryConfiguration`
  unfoldable pub validate_memory_configuration : Cmd (ConfigParser F) Bool
  validate_memory_configuration = do
    s ← get_state
    tier_totals ← deref (sum_tiers (zeros s.server_memory_config.num_tiers) s.client_configs)
    pure (within_limits tier_totals (capacities s.server_memory_config))

  -- The configuration of the policy that is named, `none` for an unknown name.
  unfoldable pub parse_policy : ParseResult F → Option (PolicyVariant F)
  parse_policy o =
      if str_eq o.policy_type "lru"
      then some (
          lru (record { hot_threshold_ms = o.hot_threshold; cold_threshold_ms = o.cold_threshold }))
      else if str_eq o.policy_type "frequency"
      then some
          (frequency (record { hot_access_count = o.hot_count; cold_access_count = o.cold_count }))
      else if str_eq o.policy_type "hybrid"
      then some (
          hybrid (record {
            hot_threshold_ms = o.hot_threshold;
            cold_threshold_ms = o.cold_threshold;
            hot_access_count = o.hot_count;
            cold_access_count = o.cold_count;
            weight_recency = o.recency_weight;
            weight_frequency = o.frequency_weight;
          }))
      else none

  -- The end of `_parseBasicConfig`: the name and the interval are stored before the name is checked.
  unfoldable pub set_policy : ParseResult F → Cmd (ConfigParser F) Bool
  set_policy o = do
    modify (λ s. record s {
      policy_config = record (s.policy_config) {
        policy_type = o.policy_type;
        scan_interval = o.scan_interval;
      };
    })
    elim (parse_policy o) [
      | none ↦ pure false
      | some config ↦
          modify (λ s. record s { policy_config = record (s.policy_config) { config = config } })
          >> pure true
    ]

  -- `_parseBasicConfig`
  unfoldable pub parse_basic_config : ParseResult F → Cmd (ConfigParser F) Bool
  parse_basic_config o = do
    running_time ← or_throw o.running_time
    modify (λ s. record s {
      buffer_size = o.buffer_size;
      running_time = running_time;
      cdf_output_file = o.output;
      periodic_metric_output_file = o.periodic_output;
      rw_ratio = o.ratio;
      sample_rate = o.sample_rate;
      use_cache_ring = o.cache_ring;
      server_memory_config = record (s.server_memory_config) { num_tiers = o.num_tiers };
    })
    if ltb o.num_tiers 2 || ltb 3 o.num_tiers then pure false else set_policy o

  -- `_parseServerConfig`
  unfoldable pub parse_server_config : ParseResult F → Cmd (ConfigParser F) Bool
  parse_server_config o = do
    mem_sizes ← or_throw o.mem_sizes
    s ← get_state
    if length mem_sizes == s.server_memory_config.num_tiers
        then (do
          c ← deref (set_capacities mem_sizes s.server_memory_config)
          modify (λ s'. record s' { server_memory_config = c })
          pure true)
        else pure false

  -- `std::stoul` is a parameter; the text of an option is the list of its bytes.
  module _ (stoul : List ℕ → Option ℕ) (o : ParseResult F) where
    unfoldable pub parse_sizes : List (List ℕ) → Option (List ℕ)
    parse_sizes [] = some []
    parse_sizes (t ∷ texts) = elim (stoul t) [
      | none ↦ none
      | some n ↦ elim (parse_sizes texts) [ none ↦ none | some ns ↦ some (n ∷ ns) ]
    ]

    -- The body of the loop of `_parseClientConfigs`.
    unfoldable pub parse_client : String → List ℕ → Cmd (ConfigParser F) Bool
    parse_client pattern text = do
      s ← get_state
      let sizes = split 32 text
      if length sizes == s.server_memory_config.num_tiers
          then (do
            tier_sizes ← or_throw (parse_sizes sizes)
            elim (parse_pattern pattern) [
              | none ↦ pure false
              | some p ↦
                  modify (λ s'. record s' {
                    client_configs =
                        s'.client_configs
                        ++ (record { pattern = p; tier_sizes = tier_sizes; zipf_s = o.zipfs } ∷ []);
                  })
                  >> pure true
            ])
          else pure false

    unfoldable pub parse_clients : List String → List (List ℕ) → Cmd (ConfigParser F) Bool
    parse_clients (p ∷ patterns) (t ∷ texts) =
        and_also (parse_client p t) (parse_clients patterns texts)
    parse_clients _ _ = pure true

    -- `_parseClientConfigs`
    unfoldable pub parse_client_configs : Cmd (ConfigParser F) Bool
    parse_client_configs = do
      patterns ← or_throw o.patterns
      tier_sizes ← or_throw o.client_tier_sizes
      if length patterns == length tier_sizes then parse_clients patterns tier_sizes else pure false

    -- `parse`
    unfoldable pub parse : Cmd (ConfigParser F) Bool
    parse =
        if o.help
        then modify (λ s. record s { help_requested = true }) >> pure false
        else and_also (parse_basic_config o) (
            and_also (parse_server_config o)
              (and_also parse_client_configs validate_memory_configuration))
