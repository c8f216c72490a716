-- ===== src/Bench/Ops.antt =====
-- `benchmark_memory_ops` of test_tools/benchmark.c, for PAGE_NUM pages and OFFSET_COUNT accesses.
use memory_tiering.Base.{
  ℕ, zero, suc, ◌+◌, ◌*◌, ◌%◌, ◌^◌, Bool, true, false, Option, none, some, List, [], ◌∷◌, sub64,
}
use memory_tiering.Base.Run.{Cmd, ok, fault, pure, ◌>>=◌, ◌>>◌}
use memory_tiering.Bench.{Sys, Process, Doubles, reading, free, munmap, malloc, get_time_ns}
use memory_tiering.Bench.Counters.{TlbCounters, setup_tlb_counters, cleanup_tlb_counters}
use memory_tiering.Bench.Memory.{allocate_and_bind_to_numa, move_pages_to_node}
use memory_tiering.Bench.Access.{
  MemAccessMode, AccessResult, no_access, words, to_int, access_memory_with_tlb,
}

pub record BenchmarkResult (F : Type 0) : Type 0 where
  pub alloc_time : F
  pub source_access : AccessResult F
  pub move_time : F
  pub dest_access : AccessResult F

abbrev pub page_size : ℕ
page_size = 4096

-- `page * (PAGE_SIZE / sizeof(uint64_t)) + offset_in_page`, as an `int`.
unfoldable pub offset_of : (page_num page offset : ℕ) → ℕ
offset_of page_num page offset = to_int ((page % page_num) * words + offset % words)

-- A dereference of a pointer that `malloc` gave, null or not.
abbrev store_through : Bool → Cmd Process (Unit {0})
store_through true s = ok tt s
store_through false s = fault

module _ (sys : Sys) where
  -- `offsets[i] = ...` for so many random words of so many pages.
  unfoldable pub random_offsets : (there : Bool) (page_num count : ℕ) → Cmd Process (List ℕ)
  random_offsets there page_num zero = pure []
  random_offsets there page_num (suc count) = do
    page ← reading sys.rand
    offset ← reading sys.rand
    store_through there
    offsets ← random_offsets there page_num count
    pure (offset_of page_num page offset ∷ offsets)

  module _ {F : Type 0} (doubles : Doubles F) (page_num offset_count : ℕ) where
    -- The part of it that follows once there is memory.
    unfoldable pub benchmark_memory :
        (memory target_node : ℕ)
        → MemAccessMode
        → (alloc_time : F) → Option TlbCounters
        → Cmd Process (BenchmarkResult F)
    benchmark_memory memory target_node mode alloc_time tlb_counters = do
      there ← malloc sys (offset_count * 4)
      offsets ← random_offsets there page_num offset_count
      (source_access, counters) ←
          access_memory_with_tlb doubles sys memory offsets mode tlb_counters
      start ← get_time_ns sys
      move_pages_to_node sys memory page_size page_num target_node
      moved ← get_time_ns sys
      (dest_access, counters) ← access_memory_with_tlb doubles sys memory offsets mode counters
      free there
      munmap memory ((page_size * page_num) % 2 ^ 64)
      cleanup_tlb_counters counters
      pure (record {
        alloc_time = alloc_time;
        source_access = source_access;
        move_time = doubles.divide (doubles.of_uint (sub64 moved start)) (doubles.of_uint page_num);
        dest_access = dest_access;
      })

    unfoldable pub benchmark_memory_ops :
        (source_node target_node : ℕ) → MemAccessMode → Cmd Process (BenchmarkResult F)
    benchmark_memory_ops source_node target_node mode = do
      tlb_counters ← setup_tlb_counters sys
      start ← get_time_ns sys
      memory ← allocate_and_bind_to_numa sys page_size page_num source_node
      allocated ← get_time_ns sys
      let alloc_time = doubles.of_uint (sub64 allocated start)
      elim memory [
        | none ↦ (do
          cleanup_tlb_counters tlb_counters
          pure (record {
            alloc_time = alloc_time;
            source_access = no_access doubles;
            move_time = doubles.of_uint 0;
            dest_access = no_access doubles;
          }))
        | some memory ↦ benchmark_memory memory target_node mode alloc_time tlb_counters
      ]
