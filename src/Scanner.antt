-- ===== src/Scanner.antt =====
-- include/server/Scanner.hpp and src/server/Scanner.cpp: the classification of pages and the loop
-- that migrates them.
pub mod Policy
pub mod Keeps
pub mod Invariant
pub mod Accesses
pub mod Tallies
use Prim.Native.String.{String}
use text.Mathlib.Text.{◌==◌ as str_eq}
use memory_tiering.Base.{
  ℕ, suc, ◌+◌, Bool, true, false, Option, none, some, List, [], ◌∷◌, ◌==◌, leb, if◌then◌else◌,
  sub64, length,
}
use memory_tiering.Base.Run.{Cmd, ok, pure, get_state, or_throw, ◌>>=◌, ◌>>◌}
use memory_tiering.Common.{
  PageLayer, numa_local, numa_remote, pmem, PolicyVariant, lru, frequency, hybrid, PolicyConfig,
  LruPolicyConfig, FrequencyPolicyConfig, HybridPolicyConfig,
}
use memory_tiering.Machine.{Machine}
use memory_tiering.PageTable.{World, scan_next, get_page_meta_data, migrate_page, now_ms}

pub data PageStatus : Type 0 where
  hot warm cold : PageStatus

-- The operations on `double` that the hybrid policy uses.
pub record DoubleOps (F : Type 0) : Type 0 where
  pub zero_double : F
  pub add : F → F → F
  pub half : F → F
  pub le : F → F → Bool

-- The recursive call of `migratePage` is one deep, so two rounds of fuel are enough.
abbrev pub migrate_fuel : ℕ
migrate_fuel = 2

module _ {F : Type 0} (ops : DoubleOps F) where
  -- The score of the hybrid policy against half of the weights.
  unfoldable pub hybrid_test : HybridPolicyConfig F → (recent frequent : Bool) → Bool
  hybrid_test h recent frequent =
      let recency_score = (if recent then h.weight_recency else ops.zero_double) in
      let frequency_score = (if frequent then h.weight_frequency else ops.zero_double) in
      ops.le (ops.half (ops.add h.weight_recency h.weight_frequency))
        (ops.add recency_score frequency_score)

  -- The branches of `classifyHotPage`, each with its `std::get`.
  unfoldable pub lru_hot : PolicyVariant F → ℕ → Option Bool
  lru_hot (lru p) since = some (leb since p.hot_threshold_ms)
  lru_hot _ since = none

  unfoldable pub frequency_hot : PolicyVariant F → ℕ → Option Bool
  frequency_hot (frequency p) access_count = some (leb p.hot_access_count access_count)
  frequency_hot _ access_count = none

  unfoldable pub hybrid_hot : PolicyVariant F → ℕ → ℕ → Option Bool
  hybrid_hot (hybrid h) since access_count =
      some (hybrid_test h (leb since h.hot_threshold_ms) (leb h.hot_access_count access_count))
  hybrid_hot _ since access_count = none

  -- The branches of `classifyColdPage`.
  unfoldable pub lru_cold : PolicyVariant F → ℕ → Option Bool
  lru_cold (lru p) since = some (leb p.cold_threshold_ms since)
  lru_cold _ since = none

  unfoldable pub frequency_cold : PolicyVariant F → ℕ → Option Bool
  frequency_cold (frequency p) access_count = some (leb access_count p.cold_access_count)
  frequency_cold _ access_count = none

  unfoldable pub hybrid_cold : PolicyVariant F → ℕ → ℕ → Option Bool
  hybrid_cold (hybrid h) since access_count =
      some (hybrid_test h (leb h.cold_threshold_ms since) (leb access_count h.cold_access_count))
  hybrid_cold _ since access_count = none

  -- The tests once the clock is read: `since` is the time since the last access.
  unfoldable pub is_hot : PolicyConfig F → (since access_count : ℕ) → Option Bool
  is_hot policy since access_count =
      if str_eq policy.policy_type "lru"
      then lru_hot policy.config since
      else if str_eq policy.policy_type "frequency"
      then frequency_hot policy.config access_count
      else if str_eq policy.policy_type "hybrid"
      then hybrid_hot policy.config since access_count
      else some false

  unfoldable pub is_cold : PolicyConfig F → (since access_count : ℕ) → Option Bool
  is_cold policy since access_count =
      if str_eq policy.policy_type "lru"
      then lru_cold policy.config since
      else if str_eq policy.policy_type "frequency"
      then frequency_cold policy.config access_count
      else if str_eq policy.policy_type "hybrid"
      then hybrid_cold policy.config since access_count
      else some false

  module _ (machine : Machine) (policy : PolicyConfig F) where
    unfoldable pub classify_hot_page : (last_access_time access_count : ℕ) → Cmd World Bool
    classify_hot_page last_access_time access_count = do
      current_time_ms ← now_ms machine
      or_throw (is_hot policy (sub64 current_time_ms last_access_time) access_count)

    unfoldable pub classify_cold_page : (last_access_time access_count : ℕ) → Cmd World Bool
    classify_cold_page last_access_time access_count = do
      current_time_ms ← now_ms machine
      or_throw (is_cold policy (sub64 current_time_ms last_access_time) access_count)

    unfoldable pub classify_page : (last_access_time access_count : ℕ) → Cmd World PageStatus
    classify_page last_access_time access_count = do
      is_so ← classify_hot_page last_access_time access_count
      if is_so then pure hot else (do
        is_so ← classify_cold_page last_access_time access_count
        if is_so then pure cold else pure warm)

    -- The migration that the scanner asks for.
    unfoldable pub migrate : ℕ → PageLayer → Cmd World (Unit {0})
    migrate = migrate_page machine migrate_fuel

    -- The `switch` on the layer of the page.
    unfoldable pub react :
        (num_tiers page_id last_access_time access_cnt : ℕ)
        → PageLayer
        → PageStatus
        → Cmd World (Unit {0})
    react num_tiers page_id last_access_time access_cnt numa_local cold =
        migrate page_id (if num_tiers == 2 then pmem else numa_remote)
    react num_tiers page_id last_access_time access_cnt numa_local _ = pure tt
    react num_tiers page_id last_access_time access_cnt numa_remote cold = migrate page_id pmem
    react num_tiers page_id last_access_time access_cnt numa_remote _ = do
      is_so ← classify_hot_page last_access_time access_cnt
      if is_so then migrate page_id numa_local else pure tt
    react num_tiers page_id last_access_time access_cnt pmem hot = migrate page_id numa_local
    react num_tiers page_id last_access_time access_cnt pmem warm =
        migrate page_id (if num_tiers == 2 then numa_local else numa_remote)
    react num_tiers page_id last_access_time access_cnt pmem cold = pure tt

    -- One turn of the loop of `runScanner`. The log and the promotion to huge pages at the end of a
    -- round change nothing of the state.
    unfoldable pub scan_step : ℕ → Cmd World (Unit {0})
    scan_step num_tiers = do
      page_id ← scan_next
      w ← get_state
      let (page_layer, last_access_time, access_cnt) = get_page_meta_data page_id w
      status ← classify_page last_access_time access_cnt
      react num_tiers page_id last_access_time access_cnt page_layer status

    -- `runScanner`, given what `_shouldShutdown` returns before each turn.
    unfoldable pub run_scanner : ℕ → List Bool → Cmd World (Unit {0})
    run_scanner num_tiers [] = pure tt
    run_scanner num_tiers (true ∷ _) = pure tt
    run_scanner num_tiers (false ∷ stops) = scan_step num_tiers >> run_scanner num_tiers stops
