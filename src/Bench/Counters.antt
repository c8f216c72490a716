-- ===== src/Bench/Counters.antt =====
-- The TLB counters of test_tools/benchmark.c: a pointer to them is an `Option`, a null pointer `none`.
use memory_tiering.Base.{ℕ, ◌+◌, true, Option, none, some, List, [], ◌∷◌, if◌then◌else◌}
use memory_tiering.Base.Run.{Cmd, pure, ◌>>=◌, ◌>>◌}
use memory_tiering.Bench.{
  Sys, Process, Request, reset, enable, disable, reading, close_all, free, ioctl, malloc,
  perf_event_open,
}

pub record TlbCounters : Type 0 where
  pub fd_dtlb_load_misses : ℕ
  pub fd_dtlb_store_misses : ℕ
  pub fd_all_loads : ℕ
  pub fd_all_stores : ℕ
  pub dtlb_load_misses : ℕ
  pub dtlb_store_misses : ℕ
  pub all_loads : ℕ
  pub all_stores : ℕ

-- The counters, in the order in which they are opened and closed.
abbrev pub fds_of : TlbCounters → List ℕ
fds_of c = c.fd_dtlb_load_misses ∷ c.fd_dtlb_store_misses ∷ c.fd_all_loads ∷ c.fd_all_stores ∷ []

-- A request to each of the counters.
unfoldable pub ioctl_all : Request → List ℕ → Cmd Process (Unit {0})
ioctl_all r [] = pure tt
ioctl_all r (fd ∷ fds) = ioctl r fd >> ioctl_all r fds

unfoldable pub start_tlb_counting : Option TlbCounters → Cmd Process (Unit {0})
start_tlb_counting none = pure tt
start_tlb_counting (some c) = ioctl_all reset (fds_of c) >> ioctl_all enable (fds_of c)

unfoldable pub cleanup_tlb_counters : Option TlbCounters → Cmd Process (Unit {0})
cleanup_tlb_counters none = pure tt
cleanup_tlb_counters (some c) = close_all (fds_of c) >> free true

module _ (sys : Sys) where
  -- Opens a counter; if that fails, closes those opened before it and frees the struct.
  unfoldable pub open_or_give_up :
      (config : ℕ) (opened : List ℕ)
      → (ℕ → Cmd Process (Option TlbCounters))
      → Cmd Process (Option TlbCounters)
  open_or_give_up config opened continue = do
    fd ← perf_event_open sys config
    elim fd [ none ↦ (do close_all opened; free true; pure none) | some fd ↦ continue fd ]

  -- The counters 0x11d0, 0x12d0, 0x81d0 and 0x82d0.
  unfoldable pub setup_tlb_counters : Cmd Process (Option TlbCounters)
  setup_tlb_counters = do
    there ← malloc sys 48
    if there
        then (open_or_give_up 4560 [] λ a. open_or_give_up 4816 (a ∷ []) λ b.
            open_or_give_up 33232 (a ∷ b ∷ []) λ c. open_or_give_up 33488 (a ∷ b ∷ c ∷ []) λ d. (do
              (load, store, loads, stores) ← reading λ n. (
                sys.uninitialized n,
                sys.uninitialized (n + 1),
                sys.uninitialized (n + 2),
                sys.uninitialized (n + 3),
              )
              pure (
                  some (record {
                    fd_dtlb_load_misses = a;
                    fd_dtlb_store_misses = b;
                    fd_all_loads = c;
                    fd_all_stores = d;
                    dtlb_load_misses = load;
                    dtlb_store_misses = store;
                    all_loads = loads;
                    all_stores = stores;
                  }))))
        else pure none

  -- `read` into a member, which stays as it is if nothing is read.
  unfoldable pub read_counter : (fd old : ℕ) → Cmd Process ℕ
  read_counter fd old = do
    new ← reading λ n. sys.read_counter n fd
    elim new [ none ↦ pure old | some v ↦ pure v ]

  -- `stop_tlb_counting`, with the counters as it leaves them.
  unfoldable pub stop_tlb_counting : Option TlbCounters → Cmd Process (Option TlbCounters)
  stop_tlb_counting none = pure none
  stop_tlb_counting (some c) = do
    ioctl_all disable (fds_of c)
    load ← read_counter c.fd_dtlb_load_misses c.dtlb_load_misses
    store ← read_counter c.fd_dtlb_store_misses c.dtlb_store_misses
    loads ← read_counter c.fd_all_loads c.all_loads
    stores ← read_counter c.fd_all_stores c.all_stores
    pure (
        some (record c {
          dtlb_load_misses = load;
          dtlb_store_misses = store;
          all_loads = loads;
          all_stores = stores;
        }))
