-- ===== src/Bench/Access.antt =====
-- The measured accesses of test_tools/benchmark.c. A system page has 512 words of 8 bytes.
use memory_tiering.Base.{
  ℕ, ◌+◌, ◌-◌, ◌*◌, ◌/◌, ◌%◌, ◌^◌, Option, List, [], ◌∷◌, length, if◌then◌else◌, ltb, add64, sub64,
}
use memory_tiering.Base.Run.{Cmd, pure, deref, ◌>>=◌, ◌>>◌}
use memory_tiering.Bench.{
  Sys, Process, Doubles, Instruction, load, store, ntstore, clflush, clflushopt, clwb, mfence,
  lfence, run, get_time_ns,
}
use memory_tiering.Bench.Counters.{TlbCounters, start_tlb_counting, stop_tlb_counting}

pub data MemAccessMode : Type 0 where
  read write_normal write_ntstore write_clflush write_clflushopt write_clwb : MemAccessMode

-- `PAGE_SIZE / sizeof(uint64_t)`
abbrev pub words : ℕ
words = 512

-- An `int` as its 32 bits, and as a `size_t`.
abbrev pub to_int : ℕ → ℕ
to_int x = x % 2 ^ 32

abbrev pub to_size : ℕ → ℕ
to_size x = if ltb x (2 ^ 31) then x else 2 ^ 64 - 2 ^ 32 + x

-- The address of an offset: of its page and its place in the page.
unfoldable pub access_addr : (addr offset : ℕ) → ℕ
access_addr addr offset =
    let page_idx = to_int (to_size offset / words) in
    let offset_in_page = to_int (to_size offset % words) in
    add64 addr ((8 * (to_size page_idx * words + to_size offset_in_page)) % 2 ^ 64)

-- The value that is written, 0xDEADBEEF.
abbrev pub value : ℕ
value = 3735928559

-- The access itself.
unfoldable pub access_by : MemAccessMode → ℕ → List Instruction
access_by read a = load a ∷ []
access_by write_normal a = store a value ∷ []
access_by write_ntstore a = ntstore a value ∷ []
access_by write_clflush a = store a value ∷ clflush a ∷ []
access_by write_clflushopt a = store a value ∷ clflushopt a ∷ []
access_by write_clwb a = store a value ∷ clwb a ∷ []

pub record AccessResult (F : Type 0) : Type 0 where
  pub time : F
  pub tlb_load_misses : ℕ
  pub tlb_store_misses : ℕ
  pub all_loads : ℕ
  pub all_stores : ℕ
  pub tlb_miss_rate : F

-- `AccessResult result = { 0 }`
abbrev pub no_access : {F : Type 0} → Doubles F → AccessResult F
no_access doubles = record {
  time = doubles.of_uint 0;
  tlb_load_misses = 0;
  tlb_store_misses = 0;
  all_loads = 0;
  all_stores = 0;
  tlb_miss_rate = doubles.of_uint 0;
}

module _ (sys : Sys) where
  -- One round of the loop, and the time that it took.
  unfoldable pub measure : MemAccessMode → ℕ → Cmd Process ℕ
  measure mode a = do
    run (clflush a ∷ mfence ∷ lfence ∷ [])
    start ← get_time_ns sys
    run (access_by mode a)
    run (lfence ∷ mfence ∷ [])
    end ← get_time_ns sys
    pure (sub64 end start)

  unfoldable pub measure_all :
      MemAccessMode → (addr : ℕ) → List ℕ → (total_time : ℕ) → Cmd Process ℕ
  measure_all mode addr [] total_time = pure total_time
  measure_all mode addr (o ∷ offsets) total_time = do
    time ← measure mode (access_addr addr o)
    measure_all mode addr offsets (add64 total_time time)

module _ {F : Type 0} (doubles : Doubles F) where
  -- The percentage, 0 without operations.
  unfoldable pub miss_rate : (total_misses total_ops : ℕ) → F
  miss_rate total_misses total_ops =
      if ltb 0 total_ops
      then doubles.times_hundred
          (doubles.divide (doubles.of_uint total_misses) (doubles.of_uint total_ops))
      else doubles.of_uint 0

  unfoldable pub result_of : (total_time count : ℕ) → TlbCounters → AccessResult F
  result_of total_time count c = record {
    time = doubles.divide (doubles.of_uint total_time) (doubles.of_uint count);
    tlb_load_misses = c.dtlb_load_misses;
    tlb_store_misses = c.dtlb_store_misses;
    all_loads = c.all_loads;
    all_stores = c.all_stores;
    tlb_miss_rate =
        miss_rate (add64 c.dtlb_load_misses c.dtlb_store_misses) (add64 c.all_loads c.all_stores);
  }

  -- `access_memory_with_tlb`, with the counters as it leaves them. It dereferences the pointer to them,
  -- null or not.
  unfoldable pub access_memory_with_tlb :
      Sys
      → (addr : ℕ) → List ℕ
      → MemAccessMode
      → Option TlbCounters
      → Cmd Process (AccessResult F × Option TlbCounters)
  access_memory_with_tlb sys addr offsets mode tlb_counters = do
    start_tlb_counting tlb_counters
    total_time ← measure_all sys mode addr offsets 0
    stopped ← stop_tlb_counting sys tlb_counters
    c ← deref stopped
    pure (result_of total_time (length offsets) c, stopped)
