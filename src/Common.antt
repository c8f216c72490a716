-- ===== src/Common.antt =====
-- include/common/Common.hpp: the enums and structs that all parts share. A `double` is a value of
-- the type `F`, whose operations are a parameter where the code computes with them.
pub mod Text
use Prim.Native.String.{String}
use memory_tiering.Base.{ℕ, List, Bool, leb}

pub data OperationType : Type 0 where
  read write end : OperationType

pub data AccessPattern : Type 0 where
  uniform hot zipfian : AccessPattern

pub data PageLayer : Type 0 where
  numa_local numa_remote pmem : PageLayer

pub record LayerInfo : Type 0 where
  pub count : ℕ
  pub capacity : ℕ

abbrev pub is_full : LayerInfo → Bool
is_full l = leb l.capacity l.count

pub record ClientConfig (F : Type 0) : Type 0 where
  pub pattern : AccessPattern
  pub tier_sizes : List ℕ
  pub zipf_s : F

pub record ClientMessage : Type 0 where
  pub client_id : ℕ
  pub pid : ℕ
  pub p_offset : ℕ
  pub op_type : OperationType

pub record ServerMemoryConfig : Type 0 where
  pub num_tiers : ℕ
  pub local_numa : LayerInfo
  pub remote_numa : LayerInfo
  pub pmem : LayerInfo

pub record LruPolicyConfig : Type 0 where
  pub hot_threshold_ms : ℕ
  pub cold_threshold_ms : ℕ

pub record FrequencyPolicyConfig : Type 0 where
  pub hot_access_count : ℕ
  pub cold_access_count : ℕ

pub record HybridPolicyConfig (F : Type 0) : Type 0 where
  pub hot_threshold_ms : ℕ
  pub cold_threshold_ms : ℕ
  pub hot_access_count : ℕ
  pub cold_access_count : ℕ
  pub weight_recency : F
  pub weight_frequency : F

pub data PolicyVariant (F : Type 0) : Type 0 where
  lru : LruPolicyConfig → PolicyVariant F
  frequency : FrequencyPolicyConfig → PolicyVariant F
  hybrid : HybridPolicyConfig F → PolicyVariant F

pub record PolicyConfig (F : Type 0) : Type 0 where
  pub config : PolicyVariant F
  pub policy_type : String
  pub scan_interval : ℕ
