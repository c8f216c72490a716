-- ===== src/Bench/Tables.antt =====
-- The runs of test_tools/benchmark.c and the tables that it prints.
use Prim.Native.String.{String}
use memory_tiering.Base.{
  ℕ, ◌/◌, ◌%◌, ◌^◌, Bool, true, false, Option, none, some, List, [], ◌∷◌, ◌++◌, ◌==◌, if◌then◌else◌,
  leb,
}
use memory_tiering.Base.Run.{Cmd, pure, ◌>>=◌}
use memory_tiering.Bench.{Sys, Process, Doubles}
use memory_tiering.Bench.Access.{
  MemAccessMode, read, write_normal, write_ntstore, write_clflush, write_clflushopt, write_clwb,
  AccessResult,
}
use memory_tiering.Bench.Ops.{benchmark_memory_ops}

unfoldable pub access_mode_to_string : MemAccessMode → String
access_mode_to_string read = "READ"
access_mode_to_string write_normal = "WRITE (normal)"
access_mode_to_string write_ntstore = "WRITE (ntstore)"
access_mode_to_string write_clflush = "WRITE (clflush)"
access_mode_to_string write_clflushopt = "WRITE (clflushopt)"
access_mode_to_string write_clwb = "WRITE (clwb)"

-- A row of a table: its node, and the cells for the nodes Local, Remote and PMEM.
pub record Row (A : Type 0) : Type 0 where
  pub label : String
  pub to_local : A
  pub to_remote : A
  pub to_pmem : A

abbrev row : {A : Type 0} → String → A → A → A → Row A
row label a b c = record { label = label; to_local = a; to_remote = b; to_pmem = c }

unfoldable pub access_latency_table :
    {F : Type 0}
    (local_local local_remote local_pmem remote_local remote_remote remote_pmem pmem_local
      pmem_remote pmem_pmem : AccessResult F)
    → List (Row (AccessResult F))
access_latency_table local_local local_remote local_pmem remote_local remote_remote remote_pmem
      pmem_local pmem_remote pmem_pmem =
    row "Local" local_local local_remote local_pmem
    ∷ row "Remote" remote_local remote_remote remote_pmem
    ∷ row "PMEM" pmem_local pmem_remote pmem_pmem
    ∷ []

-- `none` is printed as N/A.
unfoldable pub migration_latency_table :
    {F : Type 0} (local_remote local_pmem remote_local remote_pmem pmem_local pmem_remote : F)
    → List (Row (Option F))
migration_latency_table local_remote local_pmem remote_local remote_pmem pmem_local pmem_remote =
    row "Local" none (some local_remote) (some local_pmem)
    ∷ row "Remote" (some remote_local) none (some remote_pmem)
    ∷ row "PMEM" (some pmem_local) (some pmem_remote) none
    ∷ []

-- What is printed for a mode.
pub record Printed (F : Type 0) : Type 0 where
  pub operation_type : String
  pub access_latency : List (Row (AccessResult F))
  pub migration_latency : List (Row (Option F))

-- The bits of the CPU's flags for clflushopt and clwb.
pub record Features : Type 0 where
  pub has_clflushopt : Bool
  pub has_clwb : Bool

unfoldable pub bit_of : (n x : ℕ) → Bool
bit_of n x = ((x / 2 ^ n) % 2) == 1

-- What `cpuid` says of leaf 0 in eax, if it is there, and of leaf 7 in ebx.
unfoldable pub check_cpu_features : (leaf_0 : Option ℕ) (ebx_7 : ℕ) → Features
check_cpu_features none ebx_7 = record { has_clflushopt = false; has_clwb = false }
check_cpu_features (some eax) ebx_7 =
    if leb 7 eax
    then record { has_clflushopt = bit_of 23 ebx_7; has_clwb = bit_of 24 ebx_7 }
    else record { has_clflushopt = false; has_clwb = false }

module _ (sys : Sys) {F : Type 0} (doubles : Doubles F) (page_num offset_count : ℕ) where
  -- The nodes are 0, the local DRAM, 1, the remote one, and 2, the persistent memory.
  unfoldable pub run_benchmark_for_mode : MemAccessMode → Cmd Process (Printed F)
  run_benchmark_for_mode mode = do
    local_to_local ← benchmark_memory_ops sys doubles page_num offset_count 0 0 mode
    local_to_remote ← benchmark_memory_ops sys doubles page_num offset_count 0 1 mode
    local_to_pmem ← benchmark_memory_ops sys doubles page_num offset_count 0 2 mode
    remote_to_local ← benchmark_memory_ops sys doubles page_num offset_count 1 0 mode
    remote_to_remote ← benchmark_memory_ops sys doubles page_num offset_count 1 1 mode
    remote_to_pmem ← benchmark_memory_ops sys doubles page_num offset_count 1 2 mode
    pmem_to_local ← benchmark_memory_ops sys doubles page_num offset_count 2 0 mode
    pmem_to_remote ← benchmark_memory_ops sys doubles page_num offset_count 2 1 mode
    pmem_to_pmem ← benchmark_memory_ops sys doubles page_num offset_count 2 2 mode
    pure (record {
      operation_type = access_mode_to_string mode;
      access_latency =
          access_latency_table local_to_local.source_access local_to_remote.dest_access
            local_to_pmem.dest_access remote_to_local.dest_access remote_to_remote.source_access
            remote_to_pmem.dest_access pmem_to_local.dest_access pmem_to_remote.dest_access
            pmem_to_pmem.source_access;
      migration_latency =
          migration_latency_table local_to_remote.move_time local_to_pmem.move_time
            remote_to_local.move_time remote_to_pmem.move_time pmem_to_local.move_time
            pmem_to_remote.move_time;
    })

  abbrev pub run_if : Bool → MemAccessMode → Cmd Process (List (Printed F))
  run_if true mode = do printed ← run_benchmark_for_mode mode; pure (printed ∷ [])
  run_if false mode = pure []

  -- `main`: the exit code, and what is printed.
  unfoldable pub main : (numa_available : Bool) → Features → Cmd Process (ℕ × List (Printed F))
  main false features = pure (1, [])
  main true features = do
    reads ← run_benchmark_for_mode read
    normal ← run_benchmark_for_mode write_normal
    nt ← run_benchmark_for_mode write_ntstore
    flush ← run_benchmark_for_mode write_clflush
    opt ← run_if (features.has_clflushopt) write_clflushopt
    wb ← run_if (features.has_clwb) write_clwb
    pure (0, reads ∷ normal ∷ nt ∷ flush ∷ (opt ++ wb))
