-- ===== src/Machine.antt =====
-- What the program reads from the operating system and the hardware: the n-th outcome of each call,
-- for any machine. None of this code is in the repository.
use memory_tiering.Base.{ℕ}

pub record Machine : Type 0 where
  -- `boost::chrono::steady_clock::now()`, in nanoseconds since its epoch.
  pub steady_clock : ℕ → ℕ
  -- `clock_gettime`, seconds and nanoseconds.
  pub clock_gettime : ℕ → ℕ × ℕ
  -- The `move_pages` system call for one page: 0 if it succeeds.
  pub move_pages : ℕ → (addr target_node : ℕ) → ℕ
