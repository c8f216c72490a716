-- ===== src/Bench/Restored.antt =====
-- A benchmark that returns has given back all that it took.
use memory_tiering.Base.{
  ℕ, zero, suc, ◌+◌, ◌*◌, ◌%◌, ◌^◌, ◌≡◌, refl, sym, ap, ◌∙◌, subst, true, Option, none, some, List,
  [], ◌∷◌, ◌==◌, arith, Bool-cases, Option-cases, inl, inr,
}
use memory_tiering.Base.Ranges.{times}
use memory_tiering.Base.Run.{Run, Cmd, Returns-Whenever, Returns, returns, Returns-bind}
use memory_tiering.Bench.{
  Sys, Process, Doubles, disable, reset, enable, malloc, mmap, perf_event_open,
}
use memory_tiering.Bench.Counters.{
  TlbCounters, fds_of, start_tlb_counting, open_or_give_up, setup_tlb_counters, read_counter,
  stop_tlb_counting,
}
use memory_tiering.Bench.Memory.{
  promote_to_huge_pages, verify, page_pointers, nodes_for, allocate_and_bind_to_numa,
  move_pages_to_node,
}
use memory_tiering.Bench.Access.{
  MemAccessMode, access_addr, measure, measure_all, access_memory_with_tlb,
}
use memory_tiering.Bench.Ops.{page_size, random_offsets, benchmark_memory, benchmark_memory_ops}
use memory_tiering.Bench.Held.{
  count, Holds, Holds-refl, Holds-same, free-Holds, munmap-Holds, get_time_ns-Holds, run-Holds,
  malloc-Holds,
}
use memory_tiering.Bench.Returning.{
  fds_held, blocks_held, ioctl_all-Holds, cleanup-Holds, setup_after,
}

-- The mapping of what an allocation of so many bytes returns.
abbrev maps_held : (bytes : ℕ) → Option ℕ → List (ℕ × ℕ)
maps_held bytes none = []
maps_held bytes (some addr) = (addr, bytes) ∷ []

module _ (sys : Sys) {s : Process} where
  module _ {fds : List ℕ} {blocks : ℕ} {maps : List (ℕ × ℕ)} where
    read-Holds :
        {t : Process} (fd old : ℕ)
        → Holds fds blocks maps s t
        → Returns (λ n t'. Holds fds blocks maps s t') (read_counter sys fd old t)
    unfolding read_counter
    read-Holds {t} fd old h = elim (Option-cases (sys.read_counter t.ticks fd)) [
      | inl e ↦ rw e (returns (Holds-same refl refl refl h))
      | inr (v, e) ↦ rw e (returns (Holds-same refl refl refl h))
    ]

    start-Holds :
        {t : Process} (c : Option TlbCounters)
        → Holds fds blocks maps s t
        → Returns (λ u t'. Holds fds blocks maps s t') (start_tlb_counting c t)
    unfolding start_tlb_counting
    start-Holds none h = returns h
    start-Holds (some c) h =
        Returns-bind (ioctl_all-Holds reset (fds_of c) h)
          (λ u t' h'. ioctl_all-Holds enable (fds_of c) h')

    stop-Holds :
        {t : Process} (c : TlbCounters)
        → Holds fds blocks maps s t
        → Returns
            (λ r t'.
              (d : TlbCounters) × (r ≡ some d) × (fds_of d ≡ fds_of c) × Holds fds blocks maps s t')
            (stop_tlb_counting sys (some c) t)
    unfolding stop_tlb_counting
    stop-Holds c h = Returns-bind (ioctl_all-Holds disable (fds_of c) h) (λ u t0 h0.
        Returns-bind (read-Holds c.fd_dtlb_load_misses c.dtlb_load_misses h0) (λ a t1 h1.
          Returns-bind (read-Holds c.fd_dtlb_store_misses c.dtlb_store_misses h1) (λ b t2 h2.
            Returns-bind (read-Holds c.fd_all_loads c.all_loads h2) (λ d t3 h3.
              Returns-bind (read-Holds c.fd_all_stores c.all_stores h3)
                (λ e t4 h4. returns (_, refl, refl, h4))))))

    measure-Holds :
        {t : Process} (mode : MemAccessMode) (a : ℕ)
        → Holds fds blocks maps s t
        → Returns (λ n t'. Holds fds blocks maps s t') (measure sys mode a t)
    unfolding measure
    measure-Holds mode a h = Returns-bind (run-Holds _ h) (λ u t0 h0.
        Returns-bind (get_time_ns-Holds sys h0) (λ start t1 h1.
          Returns-bind (run-Holds _ h1) (λ u' t2 h2.
            Returns-bind (run-Holds _ h2)
              (λ u'' t3 h3. Returns-bind (get_time_ns-Holds sys h3) (λ end t4 h4. returns h4)))))

    pub measure_all-Holds :
        (mode : MemAccessMode) (addr : ℕ) (offsets : List ℕ) (total : ℕ) {t : Process}
        → Holds fds blocks maps s t
        → Returns (λ n t'. Holds fds blocks maps s t') (measure_all sys mode addr offsets total t)
    unfolding measure_all
    measure_all-Holds mode addr [] total h = returns h
    measure_all-Holds mode addr (o ∷ offsets) total h =
        Returns-bind (measure-Holds mode (access_addr addr o) h)
          (λ n t' h'. measure_all-Holds mode addr offsets _ h')

    access-Holds :
        {F : Type 0} (doubles : Doubles F) {t : Process} (addr : ℕ) (offsets : List ℕ)
        (mode : MemAccessMode) (c : TlbCounters)
        → Holds fds blocks maps s t
        → Returns
            (λ r t'.
              (d : TlbCounters) × (r.1 ≡ some d)
              × (fds_of d ≡ fds_of c)
              × Holds fds blocks maps s t')
            (access_memory_with_tlb doubles sys addr offsets mode (some c) t)
    unfolding access_memory_with_tlb
    access-Holds doubles addr offsets mode c h = Returns-bind (start-Holds (some c) h) (λ u t0 h0.
        Returns-bind (measure_all-Holds mode addr offsets 0 h0) (λ total t1 h1.
          Returns-bind (stop-Holds c h1) (λ r t2 (d, e, f, h2). rw e (returns (d, refl, f, h2)))))

    pub promote-Holds :
        {t : Process} (addr size : ℕ)
        → Holds fds blocks maps s t
        → Returns (λ b t'. Holds fds blocks maps s t') (promote_to_huge_pages sys addr size t)
    unfolding promote_to_huge_pages
    promote-Holds addr size h = returns (Holds-same refl refl refl h)

    pub verify-Holds :
        {t : Process} (addr size number node : ℕ)
        → Holds fds blocks maps s t
        → Returns (λ b t'. Holds fds blocks maps s t') (verify sys addr size number node t)
    unfolding verify
    verify-Holds {t} addr size number node h =
        elim (Option-cases (sys.status_of_pages t.ticks (page_pointers addr size 0 number))) [
          | inl e ↦ rw e (returns (Holds-same refl refl refl h))
          | inr (v, e) ↦ rw e (returns (Holds-same refl refl refl h))
        ]

    pub random_offsets-Holds :
        (page_num number : ℕ) {t : Process}
        → Holds fds blocks maps s t
        → Returns (λ l t'. Holds fds blocks maps s t') (random_offsets sys true page_num number t)
    unfolding random_offsets
    random_offsets-Holds page_num zero h = returns h
    random_offsets-Holds page_num (suc number) h =
        Returns-bind (random_offsets-Holds page_num number (Holds-same refl refl refl h))
          (λ l t' h'. returns h')

  module _ {fds : List ℕ} {blocks : ℕ} (plenty : (n b : ℕ) → sys.malloc n b ≡ true) where
    move-Holds :
        {maps : List (ℕ × ℕ)} {t : Process} (addr size number target : ℕ)
        → ((n : ℕ) (pages nodes : List ℕ) → sys.move_pages n pages nodes ≡ 0)
        → Holds fds blocks maps s t
        → Returns
            (λ u t'. Holds fds blocks maps s t')
            (move_pages_to_node sys addr size number target t)
    unfolding move_pages_to_node
    move-Holds addr size number target moves h =
        Returns-bind (malloc-Holds sys _ plenty h) (λ a t0 (ea, h0).
          Returns-bind (malloc-Holds sys _ plenty h0) (λ b t1 (eb, h1).
            Returns-bind (malloc-Holds sys _ plenty h1) (λ c t2 (ec, h2).
              rw
                (
                  ea,
                  eb,
                  ec,
                  moves t2.ticks (page_pointers addr size 0 number) (nodes_for target number),
                )
                (Returns-bind (promote-Holds addr _ (Holds-same refl refl refl h2)) (λ d t3 h3.
                  Returns-bind (free-Holds h3)
                    (λ u t4 h4. Returns-bind (free-Holds h4) (λ u' t5 h5. free-Holds h5)))))))

    -- With memory to spare, what is allocated is mapped, and no block remains.
    allocate-Holds :
        {t : Process} (size number node : ℕ)
        → Holds fds blocks [] s t
        → Returns
            (λ a t'. Holds fds blocks (maps_held ((size * number) % 2 ^ 64) a) s t')
            (allocate_and_bind_to_numa sys size number node t)
    unfolding allocate_and_bind_to_numa mmap times
    allocate-Holds {t} size number node h =
        elim (Option-cases (sys.mmap t.ticks ((size * number) % 2 ^ 64))) [
          | inl e ↦ rw e (returns (Holds-same refl refl refl h))
          | inr (addr, e) ↦
              let mapped : (u : Process)
                  → u.fds ≡ t.fds
                  → u.blocks ≡ t.blocks
                  → u.maps ≡ (addr, (size * number) % 2 ^ 64) ∷ t.maps
                  → Holds fds blocks ((addr, (size * number) % 2 ^ 64) ∷ []) s u =
                λ u f b m. record {
                  opened = λ x. ap (count x) f ∙ h.opened x;
                  used = b ∙ h.used;
                  mapped = λ x. ap (times x) m ∙ omega (arith, h.mapped x);
                } in
              rw e
                (elim (Bool-cases
                  (sys.mbind (t.ticks + 1) addr ((size * number) % 2 ^ 64) node == 0)) [
                    | inl bound ↦ rw bound (
                        Returns-bind (promote-Holds addr _ (mapped _ refl refl refl)) (λ d t1 h1.
                          Returns-bind (malloc-Holds sys _ plenty h1) (λ a t2 (ea, h2).
                            Returns-bind (malloc-Holds sys _ plenty h2) (λ b t3 (eb, h3).
                              rw (ea, eb)
                                (Returns-bind
                                  (Returns-bind (verify-Holds addr size number node h3) (λ v t4 h4.
                                    Returns-bind (free-Holds h4) (λ u t5 h5. free-Holds h5)))
                                  (λ u t6 h6. returns h6))))))
                    | inr bound ↦ rw bound (
                        Returns-bind
                          (munmap-Holds addr ((size * number) % 2 ^ 64) (mapped _ refl refl refl))
                          (λ u t1 h1. returns h1))
                  ])
        ]

-- Counters that open are there.
module _ (sys : Sys) (s : Process) (plenty : (n b : ℕ) → sys.malloc n b ≡ true)
    (opens : (n config : ℕ) → (fd : ℕ) × (sys.perf_event_open n config ≡ some fd)) where
  open-some :
      {P : Option TlbCounters → Process → Type 0} (t : Process) (config : ℕ) (opened : List ℕ)
      (continue : ℕ → Cmd Process (Option TlbCounters))
      → ((fd : ℕ) (t' : Process) → Returns P (continue fd t'))
      → Returns P (open_or_give_up sys config opened continue t)
  unfolding open_or_give_up perf_event_open
  open-some {P} t config opened continue next =
      let (fd, e) = opens t.ticks config in rw e (next fd _)

  setup_there : Returns (λ c t. (d : TlbCounters) × (c ≡ some d)) (setup_tlb_counters sys s)
  unfolding setup_tlb_counters malloc
  setup_there = rw (plenty s.ticks 48) (
      open-some _ 4560 [] _ (λ a t1. open-some _ 4816 (a ∷ []) _ (λ b t2.
        open-some _ 33232 (a ∷ b ∷ []) _
          (λ c t3. open-some _ 33488 (a ∷ b ∷ c ∷ []) _ (λ d t4. returns (_, refl))))))

  setup-some :
      Returns
        (λ c t. (d : TlbCounters) × (c ≡ some d) × Holds (fds_held c) (blocks_held c) [] s t)
        (setup_tlb_counters sys s)
  setup-some = both _ setup_there (setup_after sys s (Holds-refl s))
    where
      both :
          (m : Run Process (Option TlbCounters))
          → Returns (λ c t. (d : TlbCounters) × (c ≡ some d)) m
          → Returns (λ c t'. Holds (fds_held c) (blocks_held c) [] s t') m
          → Returns
              (λ c t. (d : TlbCounters) × (c ≡ some d) × Holds (fds_held c) (blocks_held c) [] s t)
              m
      both m (returns (d, e)) h = returns (d, e, Returns-Whenever _ h)

module _ (sys : Sys) {F : Type 0} (doubles : Doubles F) (page_num offset_count : ℕ) {s : Process}
    (plenty : (n b : ℕ) → sys.malloc n b ≡ true)
    (moves : (n : ℕ) (pages nodes : List ℕ) → sys.move_pages n pages nodes ≡ 0) where
  memory-Holds :
      {t : Process} (memory target : ℕ) (mode : MemAccessMode) (alloc_time : F) (c : TlbCounters)
      → Holds (fds_of c) 1 ((memory, (page_size * page_num) % 2 ^ 64) ∷ []) s t
      → Returns
          (λ r t'. Holds [] 0 [] s t')
          (benchmark_memory sys doubles page_num offset_count memory target mode alloc_time
            (some c)
            t)
  unfolding benchmark_memory
  memory-Holds memory target mode alloc_time c h =
      Returns-bind (malloc-Holds sys _ plenty h) (λ there t0 (e, h0). rw e (
        Returns-bind (random_offsets-Holds sys page_num offset_count h0) (λ offsets t1 h1.
          Returns-bind (access-Holds sys doubles memory offsets mode c h1) (λ r t2 (c', e', f', h2).
            Returns-bind (get_time_ns-Holds sys h2) (λ start t3 h3.
              Returns-bind (move-Holds sys plenty memory page_size page_num target moves h3)
                (λ u t4 h4. Returns-bind (get_time_ns-Holds sys h4) (λ moved t5 h5. rw e' (
                  Returns-bind (access-Holds sys doubles memory offsets mode c' h5)
                    (λ r' t6 (d, e'', f'', h6). Returns-bind (free-Holds h6) (λ u1 t7 h7.
                      Returns-bind (munmap-Holds memory ((page_size * page_num) % 2 ^ 64) h7)
                        (λ u2 t8 h8. rw e'' (
                          Returns-bind
                            (cleanup-Holds (some d)
                              (subst (λ l. Holds l 1 [] s t8) (sym (f'' ∙ f')) h8))
                            (λ u3 t9 h9. returns h9)))))))))))))

-- With memory for `malloc`, counters that open and pages that move, and whatever else the kernel answers,
-- a benchmark returns, and then has open just the files, in use as many blocks, and mapped just the
-- ranges, each of its length, that it had before: also if it gets no memory on its node.
pub benchmark-restores :
    {F : Type 0} (sys : Sys) (doubles : Doubles F) (page_num offset_count source target : ℕ)
    (mode : MemAccessMode) (s : Process)
    → ((n b : ℕ) → sys.malloc n b ≡ true)
    → ((n config : ℕ) → (fd : ℕ) × (sys.perf_event_open n config ≡ some fd))
    → ((n : ℕ) (pages nodes : List ℕ) → sys.move_pages n pages nodes ≡ 0)
    → Returns
        (λ r t. Holds [] 0 [] s t)
        (benchmark_memory_ops sys doubles page_num offset_count source target mode s)
unfolding benchmark_memory_ops
benchmark-restores sys doubles page_num offset_count source target mode s plenty opens moves =
    Returns-bind (setup-some sys s plenty opens) (λ c0 t0 (c, e, h0).
      Returns-bind (get_time_ns-Holds sys h0) (λ start t1 h1.
        Returns-bind (allocate-Holds sys plenty page_size page_num source h1) (λ memory t2 h2.
          Returns-bind (get_time_ns-Holds sys h2) (λ allocated t3 h3. elim (Option-cases memory) [
            | inl gone ↦ rw gone (
                Returns-bind
                  (cleanup-Holds c0 (
                    subst
                      (λ m.
                        Holds (fds_held c0) (blocks_held c0)
                          (maps_held ((page_size * page_num) % 2 ^ 64) m) s t3)
                      gone h3))
                  (λ u t4 h4. returns h4))
            | inr (addr, got) ↦
                rw (got, e)
                  (memory-Holds sys doubles page_num offset_count plenty moves addr target mode _ c
                    (subst
                      (λ m. Holds (fds_of c) 1 (maps_held ((page_size * page_num) % 2 ^ 64) m) s t3)
                      got
                      (subst
                        (λ c.
                          Holds (fds_held c) (blocks_held c)
                            (maps_held ((page_size * page_num) % 2 ^ 64) memory) s t3)
                        e h3)))
          ]))))
