-- ===== src/Bench/Null.antt =====
-- A benchmark without counters.
use memory_tiering.Base.{ℕ, ◌+◌, ◌*◌, ◌%◌, ◌^◌, ◌≡◌, refl, true, none, some, List}
use memory_tiering.Base.Run.{Run, Cmd, Returns, returns, Returns-bind, and_then, fault}
use memory_tiering.Bench.{Sys, Process, Doubles, free, malloc, perf_event_open, mmap, close_all}
use memory_tiering.Bench.Counters.{
  start_tlb_counting, stop_tlb_counting, open_or_give_up, setup_tlb_counters,
}
use memory_tiering.Bench.Memory.{allocate_and_bind_to_numa}
use memory_tiering.Bench.Access.{MemAccessMode, access_memory_with_tlb}
use memory_tiering.Bench.Ops.{page_size, benchmark_memory, benchmark_memory_ops}
use memory_tiering.Bench.Held.{Holds-refl, malloc-Holds, free-Holds, get_time_ns-Holds}
use memory_tiering.Bench.Restored.{
  measure_all-Holds, promote-Holds, verify-Holds, random_offsets-Holds,
}

-- What comes first returns, and what follows it is undefined.
Returns-fault :
    {S A B : Type 0} {P : A → S → Type 0} {m : Run S A} {k : A → Cmd S B}
    → Returns P m
    → ((a : A) (s : S) → P a s → k a s ≡ fault)
    → and_then m k ≡ fault
Returns-fault (returns {a} {s} p) next = next a s p

module _ {F : Type 0} (sys : Sys) (doubles : Doubles F) where
  -- The measuring dereferences the pointer to the counters, at its end.
  access-fault :
      (addr : ℕ) (offsets : List ℕ) (mode : MemAccessMode) (s : Process)
      → access_memory_with_tlb doubles sys addr offsets mode none s ≡ fault
  unfolding access_memory_with_tlb start_tlb_counting stop_tlb_counting
  access-fault addr offsets mode s =
      Returns-fault (measure_all-Holds sys mode addr offsets 0 (Holds-refl s)) (λ n t h. refl)

  module _ (page_num offset_count : ℕ) (plenty : (n b : ℕ) → sys.malloc n b ≡ true) where
    memory-fault :
        (memory target : ℕ) (mode : MemAccessMode) (alloc_time : F) (s : Process)
        → benchmark_memory sys doubles page_num offset_count memory target mode alloc_time none s
          ≡ fault
    unfolding benchmark_memory
    memory-fault memory target mode alloc_time s =
        Returns-fault (malloc-Holds sys _ plenty (Holds-refl s)) (λ there t (e, h). rw e (
          Returns-fault (random_offsets-Holds sys page_num offset_count h)
            (λ offsets t' h'. rw (access-fault memory offsets mode t') refl)))

    module _ (memory_there : (n bytes : ℕ) → (addr : ℕ) × (sys.mmap n bytes ≡ some addr))
        (binds : (n addr bytes node : ℕ) → sys.mbind n addr bytes node ≡ 0) where
      allocate_there :
          (size number node : ℕ) (t : Process)
          → Returns
              (λ a t'. (addr : ℕ) × (a ≡ some addr))
              (allocate_and_bind_to_numa sys size number node t)
      unfolding allocate_and_bind_to_numa mmap
      allocate_there size number node t =
          let (addr, e) = memory_there t.ticks ((size * number) % 2 ^ 64) in
          rw (e, binds (t.ticks + 1) addr ((size * number) % 2 ^ 64) node)
            (Returns-bind (promote-Holds sys addr _ (Holds-refl _)) (λ d t1 h1.
              Returns-bind (malloc-Holds sys _ plenty h1) (λ a t2 (ea, h2).
                Returns-bind (malloc-Holds sys _ plenty h2) (λ b t3 (eb, h3).
                  rw (ea, eb)
                    (Returns-bind
                      (Returns-bind (verify-Holds sys addr size number node h3)
                        (λ v t4 h4. Returns-bind (free-Holds h4) (λ u t5 h5. free-Holds h5)))
                      (λ u t6 h6. returns (addr, refl)))))))

      setup_gone :
          (s : Process)
          → ((n config : ℕ) → sys.perf_event_open n config ≡ none)
          → Returns (λ c t. c ≡ none) (setup_tlb_counters sys s)
      unfolding setup_tlb_counters malloc open_or_give_up perf_event_open close_all free
      setup_gone s closed = rw (plenty s.ticks 48, closed (s.ticks + 1) 4560) (returns refl)

      ops-fault :
          (source target : ℕ) (mode : MemAccessMode) (s : Process)
          → ((n config : ℕ) → sys.perf_event_open n config ≡ none)
          → benchmark_memory_ops sys doubles page_num offset_count source target mode s ≡ fault
      unfolding benchmark_memory_ops
      ops-fault source target mode s closed = Returns-fault (setup_gone s closed) (λ c t gone.
          Returns-fault (get_time_ns-Holds sys (Holds-refl t)) (λ start t1 h1.
            Returns-fault (allocate_there page_size page_num source t1) (λ a t2 (addr, e).
              Returns-fault (get_time_ns-Holds sys (Holds-refl t2))
                (λ allocated t3 h3. rw (e, gone) (memory-fault addr target mode _ t3)))))

-- Where the kernel opens no counter, but all else succeeds that allocates memory, a benchmark does not
-- return, with its warning that there are no counters: it dereferences a null pointer.
pub no_counters-fault :
    {F : Type 0} (sys : Sys) (doubles : Doubles F) (page_num offset_count source target : ℕ)
    (mode : MemAccessMode) (s : Process)
    → ((n b : ℕ) → sys.malloc n b ≡ true)
    → ((n bytes : ℕ) → (addr : ℕ) × (sys.mmap n bytes ≡ some addr))
    → ((n addr bytes node : ℕ) → sys.mbind n addr bytes node ≡ 0)
    → ((n config : ℕ) → sys.perf_event_open n config ≡ none)
    → benchmark_memory_ops sys doubles page_num offset_count source target mode s ≡ fault
no_counters-fault sys doubles page_num offset_count source target mode s plenty there binds closed =
    ops-fault sys doubles page_num offset_count plenty there binds source target mode s closed
