-- ===== src/Bench/Returning.antt =====
-- The benchmark gives back what it has taken, on every path on which it returns.
use memory_tiering.Base.{
  ℕ, refl, Option, none, some, List, [], ◌∷◌, ◌++◌, arith, Bool-cases, Option-cases, inl, inr,
}
use memory_tiering.Base.Run.{Returns, returns, Returns-bind, Returns-mono, Cmd}
use memory_tiering.Bench.{Sys, Process, Request, close_all, malloc, perf_event_open}
use memory_tiering.Bench.Counters.{
  TlbCounters, fds_of, ioctl_all, cleanup_tlb_counters, open_or_give_up, setup_tlb_counters,
}
use memory_tiering.Bench.Held.{
  count, count-append, Holds, Holds-refl, Holds-same, free-Holds, close-Holds, ioctl-Holds,
}

-- What a pointer to counters stands for.
abbrev pub fds_held : Option TlbCounters → List ℕ
fds_held none = []
fds_held (some c) = fds_of c

abbrev pub blocks_held : Option TlbCounters → ℕ
blocks_held none = 0
blocks_held (some c) = 1

module _ {s : Process} where
  close_all-Holds :
      {blocks : ℕ} {maps : List (ℕ × ℕ)} {t : Process} (fds : List ℕ)
      → Holds fds blocks maps s t
      → Returns (λ u t'. Holds [] blocks maps s t') (close_all fds t)
  unfolding close_all
  close_all-Holds [] h = returns h
  close_all-Holds (fd ∷ fds) h = Returns-bind (close-Holds fd h) (λ u t' h'. close_all-Holds fds h')

  pub cleanup-Holds :
      {maps : List (ℕ × ℕ)} {t : Process} (c : Option TlbCounters)
      → Holds (fds_held c) (blocks_held c) maps s t
      → Returns (λ u t'. Holds [] 0 maps s t') (cleanup_tlb_counters c t)
  unfolding cleanup_tlb_counters
  cleanup-Holds none h = returns h
  cleanup-Holds (some c) h = Returns-bind (close_all-Holds (fds_of c) h) (λ u t' h'. free-Holds h')

  pub ioctl_all-Holds :
      {xs : List ℕ} {blocks : ℕ} {maps : List (ℕ × ℕ)} {t : Process} (r : Request) (fds : List ℕ)
      → Holds xs blocks maps s t
      → Returns (λ u t'. Holds xs blocks maps s t') (ioctl_all r fds t)
  unfolding ioctl_all
  ioctl_all-Holds r [] h = returns h
  ioctl_all-Holds r (fd ∷ fds) h =
      Returns-bind (ioctl-Holds r fd h) (λ u t' h'. ioctl_all-Holds r fds h')

  module _ (sys : Sys) where
    -- One more counter is open, or all is given back.
    open-Holds :
        {maps : List (ℕ × ℕ)} {t : Process} (config : ℕ) (opened : List ℕ)
        (continue : ℕ → Cmd Process (Option TlbCounters))
        → Holds opened 1 maps s t
        → ((fd : ℕ) (t' : Process)
            → Holds (opened ++ (fd ∷ [])) 1 maps s t'
            → Returns (λ c t''. Holds (fds_held c) (blocks_held c) maps s t'') (continue fd t'))
        → Returns
            (λ c t'. Holds (fds_held c) (blocks_held c) maps s t')
            (open_or_give_up sys config opened continue t)
    unfolding open_or_give_up perf_event_open count
    open-Holds {maps} {t} config opened continue h next =
        elim (Option-cases (sys.perf_event_open t.ticks config)) [
          | inl e ↦ rw e (
              Returns-bind (close_all-Holds opened (Holds-same refl refl refl h))
                (λ u t' h'. Returns-bind (free-Holds h') (λ u' t'' h''. returns h'')))
          | inr (fd, e) ↦ rw e (
              next fd _ (record {
                opened = λ x. omega (arith, h.opened x, count-append x opened (fd ∷ []));
                used = h.used;
                mapped = h.mapped;
              }))
        ]

    pub setup_after :
        (t : Process)
        → Holds [] 0 [] s t
        → Returns (λ c t'. Holds (fds_held c) (blocks_held c) [] s t') (setup_tlb_counters sys t)
    unfolding setup_tlb_counters malloc
    setup_after t h = elim (Bool-cases (sys.malloc t.ticks 48)) [
      | inl e ↦ rw e (
          open-Holds 4560 [] _
            (record { opened = h.opened; used = omega (arith, h.used); mapped = h.mapped })
            (λ a t1 h1. open-Holds 4816 (a ∷ []) _ h1 (λ b t2 h2.
              open-Holds 33232 (a ∷ b ∷ []) _ h2 (λ c t3 h3.
                open-Holds 33488 (a ∷ b ∷ c ∷ []) _ h3
                  (λ d t4 h4. returns (Holds-same refl refl refl h4))))))
      | inr e ↦ rw e (returns (Holds-same refl refl refl h))
    ]

-- Whatever the calls into the kernel answer, `setup_tlb_counters` returns. Without counters it holds no
-- file and no block that it did not hold before; with counters it holds their four files and one block
-- more, and `cleanup_tlb_counters` gives back just these.
pub setup-cleanup :
    (sys : Sys) (s : Process)
    → Returns
        (λ c t.
          Holds (fds_held c) (blocks_held c) [] s t
          × Returns (λ u t'. Holds [] 0 [] s t') (cleanup_tlb_counters c t))
        (setup_tlb_counters sys s)
setup-cleanup sys s =
    Returns-mono (setup_after sys s (Holds-refl s)) (λ c t h. (h, cleanup-Holds c h))
