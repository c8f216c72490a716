-- ===== src/Bench.antt =====
-- test_tools/benchmark.c: the latency of memory accesses and of page migrations between NUMA nodes.
-- This module has the process that the program is, as far as it matters: what it holds of the
-- operating system, and the instructions that it has measured. Printing is left out, but for the two
-- tables. `perror` and the like are no step.
pub mod Counters
pub mod Memory
pub mod Access
pub mod Ops
pub mod Tables
pub mod Held
pub mod Returning
pub mod Restored
pub mod Instructions
pub mod Null
pub mod Whole
use memory_tiering.Base.{
  ℕ, ◌+◌, ◌-◌, ◌*◌, ◌%◌, ◌^◌, ◌/◌, Bool, true, false, Option, none, some, List, [], ◌∷◌, ◌++◌, ◌==◌,
  if◌then◌else◌, add64, ltb,
}
use memory_tiering.Base.Ranges.{unmap}
use memory_tiering.Base.Run.{Cmd, ok, pure, modify, ◌>>=◌, ◌>>◌}

-- The outcomes of the calls into libc and the kernel, and what the hardware counts: the n-th call, for
-- any system. `none` stands for -1 and for MAP_FAILED.
pub record Sys : Type 0 where
  pub malloc : ℕ → (bytes : ℕ) → Bool
  -- What memory fresh from `malloc` holds.
  pub uninitialized : ℕ → ℕ
  pub perf_event_open : ℕ → (config : ℕ) → Option ℕ
  -- `read` of a counter: it may read nothing.
  pub read_counter : ℕ → (fd : ℕ) → Option ℕ
  pub mmap : ℕ → (bytes : ℕ) → Option ℕ
  pub mbind : ℕ → (addr bytes node : ℕ) → ℕ
  pub madvise : ℕ → (addr bytes : ℕ) → ℕ
  -- `move_pages` with nodes to move to, and without, where it reports the nodes of the pages.
  pub move_pages : ℕ → (pages nodes : List ℕ) → ℕ
  pub status_of_pages : ℕ → (pages : List ℕ) → Option (List ℕ)
  -- `clock_gettime`: seconds and nanoseconds.
  pub clock_gettime : ℕ → ℕ × ℕ
  pub rand : ℕ → ℕ

-- `ioctl` on a counter.
pub data Request : Type 0 where
  reset enable disable : Request

-- The instructions of the inline assembly, with their addresses and values.
pub data Instruction : Type 0 where
  load : (addr : ℕ) → Instruction
  store : (addr value : ℕ) → Instruction
  ntstore : (addr value : ℕ) → Instruction
  clflush : (addr : ℕ) → Instruction
  clflushopt : (addr : ℕ) → Instruction
  clwb : (addr : ℕ) → Instruction
  mfence lfence : Instruction

-- The file descriptors that are open, how many blocks of `malloc` are in use, what is mapped, from where and how many bytes, and what
-- was done: requests to counters, advice on ranges of memory, instructions. `ticks` counts the calls.
pub record Process : Type 0 where
  pub fds : List ℕ
  pub blocks : ℕ
  pub maps : List (ℕ × ℕ)
  pub requests : List (ℕ × Request)
  pub advised : List (ℕ × ℕ)
  pub instructions : List Instruction
  pub ticks : ℕ

-- `double`
pub record Doubles (F : Type 0) : Type 0 where
  pub of_uint : ℕ → F
  pub divide : F → F → F
  pub times_hundred : F → F

abbrev pub remove_one : ℕ → List ℕ → List ℕ
remove_one x [] = []
remove_one x (y ∷ ys) = let rest = remove_one x ys in if x == y then ys else y ∷ rest

abbrev pub reading : {A : Type 0} → (ℕ → A) → Cmd Process A
reading f s = ok (f s.ticks) (record s { ticks = s.ticks + 1 })

unfoldable pub close : ℕ → Cmd Process (Unit {0})
close fd = modify λ s. record s { fds = remove_one fd s.fds }

unfoldable pub close_all : List ℕ → Cmd Process (Unit {0})
close_all [] = pure tt
close_all (fd ∷ fds) = close fd >> close_all fds

-- `free`; of a null pointer it does nothing.
unfoldable pub free : Bool → Cmd Process (Unit {0})
free there = modify λ s. if there then record s { blocks = s.blocks - 1 } else s

-- `munmap` of a whole mapping; of anything else, it leaves what is mapped as it was.
unfoldable pub munmap : (addr bytes : ℕ) → Cmd Process (Unit {0})
munmap addr bytes = modify λ s. record s { maps = unmap (addr, bytes) s.maps }

unfoldable pub ioctl : Request → ℕ → Cmd Process (Unit {0})
ioctl r fd = modify λ s. record s { requests = s.requests ++ ((fd, r) ∷ []) }

unfoldable pub run : List Instruction → Cmd Process (Unit {0})
run is = modify λ s. record s { instructions = s.instructions ++ is }

module _ (sys : Sys) where
  unfoldable pub malloc : ℕ → Cmd Process Bool
  malloc bytes = do
    there ← reading λ n. sys.malloc n bytes
    modify λ s. if there then record s { blocks = s.blocks + 1 } else s
    pure there

  unfoldable pub perf_event_open : ℕ → Cmd Process (Option ℕ)
  perf_event_open config = do
    fd ← reading λ n. sys.perf_event_open n config
    modify λ s. elim fd [ none ↦ s | some fd ↦ record s { fds = fd ∷ s.fds } ]
    pure fd

  unfoldable pub mmap : ℕ → Cmd Process (Option ℕ)
  mmap bytes = do
    addr ← reading λ n. sys.mmap n bytes
    modify λ s. elim addr [ none ↦ s | some addr ↦ record s { maps = (addr, bytes) ∷ s.maps } ]
    pure addr

  -- `tv_sec * 1000000000 + tv_nsec`
  unfoldable pub get_time_ns : Cmd Process ℕ
  get_time_ns = do
    (sec, nsec) ← reading sys.clock_gettime
    pure ((sec * 1_000_000_000 + nsec) % 2 ^ 64)
