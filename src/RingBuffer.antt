-- ===== src/RingBuffer.antt =====
-- include/common/RingBuffer.hpp: the queue of messages between the clients and the server. The
-- `boost::circular_buffer` inside is a parameter, with what its documentation promises; a method
-- holds the mutex from its first line to its last, so it is one step.
pub mod Fifo
use memory_tiering.Base.{
  ℕ, ◌≤◌, ◌≡◌, Bool, true, false, Option, none, some, List, [], ◌∷◌, ◌++◌, length, leb,
  if◌then◌else◌,
}

-- `boost::circular_buffer<T>`: `contents` are its elements from the front on.
pub record CircularBuffer (T : Type 0) : Type 1 where
  pub Buffer : Type 0
  pub contents : Buffer → List T
  pub capacity : Buffer → ℕ
  pub with_capacity : ℕ → Buffer
  pub full : Buffer → Bool
  pub empty : Buffer → Bool
  pub push_back : T → Buffer → Buffer
  pub front : Buffer → Option T
  pub pop_front : Buffer → Buffer
  pub contents_new : (n : ℕ) → contents (with_capacity n) ≡ []
  pub capacity_new : (n : ℕ) → capacity (with_capacity n) ≡ n
  pub full_lem : (b : Buffer) → full b ≡ leb (capacity b) (length (contents b))
  pub empty_lem : (b : Buffer) → empty b ≡ leb (length (contents b)) 0
  pub contents-push_back :
      (x : T) (b : Buffer) → full b ≡ false → contents (push_back x b) ≡ contents b ++ (x ∷ [])
  pub capacity-push_back : (x : T) (b : Buffer) → capacity (push_back x b) ≡ capacity b
  pub front_lem : (x : T) (xs : List T) (b : Buffer) → contents b ≡ x ∷ xs → front b ≡ some x
  pub contents-pop_front :
      (x : T) (xs : List T) (b : Buffer) → contents b ≡ x ∷ xs → contents (pop_front b) ≡ xs
  pub capacity-pop_front : (b : Buffer) → capacity (pop_front b) ≡ capacity b

module _ {T : Type 0} (lib : CircularBuffer T) where
  open lib use {Buffer, with_capacity, full, empty, push_back, front, pop_front}

  -- `RingBuffer(capacity)`
  unfoldable pub create : ℕ → Buffer
  create n = with_capacity n

  unfoldable pub push : T → Buffer → Bool × Buffer
  push item b = if full b then (false, b) else (true, push_back item b)

  -- `pop`: the item, if the method returns true.
  unfoldable pub pop : Buffer → Option T × Buffer
  pop b = if empty b then (none, b) else (front b, pop_front b)
