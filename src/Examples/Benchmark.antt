-- ===== src/Examples/Benchmark.antt =====
-- Systems on which the benchmark runs, and the theorems on it applied to them.
use memory_tiering.Base.{
  ℕ, ◌+◌, ◌*◌, ◌≡◌, refl, true, false, none, some, List, [], ◌∷◌, ◌++◌, arith,
}
use memory_tiering.Base.Run.{Returns, and_then, fault}
use memory_tiering.Bench.{Sys, Process, Doubles, Instruction}
use memory_tiering.Bench.Counters.{setup_tlb_counters, cleanup_tlb_counters}
use memory_tiering.Bench.Access.{write_clflush, read, measure_all}
use memory_tiering.Bench.Ops.{benchmark_memory_ops, random_offsets}
use memory_tiering.Bench.Tables.{Features}
use memory_tiering.Bench.Held.{Holds}
use memory_tiering.Bench.Returning.{fds_held, blocks_held, setup-cleanup}
use memory_tiering.Bench.Restored.{benchmark-restores}
use memory_tiering.Bench.Instructions.{AllIn, accesses-AllIn}
use memory_tiering.Bench.Null.{no_counters-fault}

-- A system where every call succeeds, its files numbered by the calls.
abbrev system : Sys
system = record {
  malloc = λ n bytes. true;
  uninitialized = λ n. n;
  perf_event_open = λ n config. some (n + 3);
  read_counter = λ n fd. some (n * 10);
  mmap = λ n bytes. some (n * 4096);
  mbind = λ n addr bytes node. 0;
  madvise = λ n addr bytes. 0;
  move_pages = λ n pages nodes. 0;
  status_of_pages = λ n pages. none;
  clock_gettime = λ n. (n, 0);
  rand = λ n. n * 977;
}

-- The same, where a user may open no counter.
abbrev restricted : Sys
restricted = record system { perf_event_open = λ n config. none }

abbrev doubles : Doubles ℕ
doubles = record { of_uint = λ n. n; divide = λ a b. a; times_hundred = λ a. a * 100 }

-- A process with three open files.
abbrev process : Process
process = record {
  fds = 0 ∷ 1 ∷ 2 ∷ [];
  blocks = 4;
  maps = (65536, 4096) ∷ [];
  requests = [];
  advised = [];
  instructions = [];
  ticks = 0;
}

setup-cleanup_example :
    Returns
      (λ c t.
        Holds (fds_held c) (blocks_held c) [] process t
        × Returns (λ u t'. Holds [] 0 [] process t') (cleanup_tlb_counters c t))
      (setup_tlb_counters system process)
setup-cleanup_example = setup-cleanup system process

benchmark-restores_example :
    Returns
      (λ r t. Holds [] 0 [] process t)
      (benchmark_memory_ops system doubles 3 5 0 1 write_clflush process)
benchmark-restores_example =
    benchmark-restores system doubles 3 5 0 1 write_clflush process (λ n b. refl)
      (λ n config. (n + 3, refl)) (λ n pages nodes. refl)

no_counters-fault_example : benchmark_memory_ops restricted doubles 3 5 0 1 read process ≡ fault
no_counters-fault_example =
    no_counters-fault restricted doubles 3 5 0 1 read process (λ n b. refl)
      (λ n bytes. (n * 4096, refl)) (λ n addr bytes node. refl) (λ n config. refl)

accesses-AllIn_example :
    Returns
      (λ total t.
        (new : List Instruction) × (t.instructions ≡ process.instructions ++ new)
        × AllIn 8192 (8192 + 3 * 4096) new)
      (and_then
        (random_offsets system true 3 5 process)
        (λ offsets. measure_all system write_clflush 8192 offsets 0))
accesses-AllIn_example =
    accesses-AllIn system 3 5 write_clflush 8192 process (omega arith) (omega arith) (omega arith)

abbrev features : Features
features = record { has_clflushopt = true; has_clwb = false }
