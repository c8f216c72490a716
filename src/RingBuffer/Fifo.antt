-- ===== src/RingBuffer/Fifo.antt =====
-- The ring buffer is a bounded queue: what comes out is what went in, in that order.
use memory_tiering.Base.{
  subst, ℕ, ◌≤◌, ◌≡◌, refl, sym, ap, ◌∙◌, Bool, true, false, Option, none, some, List, [], ◌∷◌,
  ◌++◌, append_assoc, append-nil, length, length-append, leb, if◌then◌else◌, Bool-cases, inl, inr,
  arith,
}
use mathlib.Core.Path.{ap₂}
use memory_tiering.RingBuffer.{CircularBuffer, create, push, pop}

-- A call of one of the threads.
pub data Call (T : Type 0) : Type 0 where
  push_of : T → Call T
  pop_of : Call T

-- What a row of calls let in, what it gave out, and what it left.
pub record Traffic (T S : Type 0) : Type 0 where
  pub accepted : List T
  pub popped : List T
  pub last : S

-- The queue that the ring buffer stands for.
module _ {T : Type 0} where
  unfoldable pub enqueue : ℕ → T → List T → Bool × List T
  enqueue n x q = if leb n (length q) then (false, q) else (true, q ++ (x ∷ []))

  unfoldable pub dequeue : List T → Option T × List T
  dequeue [] = (none, [])
  dequeue (x ∷ q) = (some x, q)

  abbrev pub let_in : {S : Type 0} → Bool → T → Traffic T S → Traffic T S
  let_in done x t = if done then record t { accepted = x ∷ t.accepted } else t

  abbrev pub give_out : {S : Type 0} → Option T → Traffic T S → Traffic T S
  give_out none t = t
  give_out (some x) t = record t { popped = x ∷ t.popped }

  -- The calls of all threads, in the order in which they take the mutex.
  unfoldable pub traffic :
      {S : Type 0} → (T → S → Bool × S) → (S → Option T × S) → List (Call T) → S → Traffic T S
  traffic put get [] s = record { accepted = []; popped = []; last = s }
  traffic put get (push_of x ∷ calls) s = let_in (put x s).0 x (traffic put get calls (put x s).1)
  traffic put get (pop_of ∷ calls) s = give_out (get s).0 (traffic put get calls (get s).1)

module _ {T : Type 0} (lib : CircularBuffer T) where
  open lib use {Buffer, contents, capacity}

  -- `push` is `enqueue` on the contents, and keeps the capacity.
  pub push_lem :
      (x : T) (b : Buffer)
      → ((push lib x b).0 ≡ (enqueue (capacity b) x (contents b)).0)
        × (contents (push lib x b).1 ≡ (enqueue (capacity b) x (contents b)).1)
        × (capacity (push lib x b).1 ≡ capacity b)
  unfolding push enqueue
  push_lem x b = elim (Bool-cases (leb (capacity b) (length (contents b)))) [
    | inl h ↦ rw (lib.full_lem b, h) (refl, refl, refl)
    | inr h ↦
        rw (lib.full_lem b, h)
          (refl, lib.contents-push_back x b (lib.full_lem b ∙ h), lib.capacity-push_back x b)
  ]

  pub pop_lem :
      (b : Buffer)
      → ((pop lib b).0 ≡ (dequeue (contents b)).0)
        × (contents (pop lib b).1 ≡ (dequeue (contents b)).1)
        × (capacity (pop lib b).1 ≡ capacity b)
  unfolding pop dequeue
  pop_lem b = by_contents (contents b) refl
    where
      by_contents :
          (q : List T)
          → contents b ≡ q
          → ((pop lib b).0 ≡ (dequeue q).0)
            × (contents (pop lib b).1 ≡ (dequeue q).1)
            × (capacity (pop lib b).1 ≡ capacity b)
      by_contents [] e =
          let none_there : lib.empty b ≡ true = lib.empty_lem b ∙ rw e refl in
          rw none_there (refl, e, refl)
      by_contents (x ∷ q) e =
          let some_there : lib.empty b ≡ false = lib.empty_lem b ∙ rw e (ground arith) in
          rw some_there
            (lib.front_lem x q b e, lib.contents-pop_front x q b e, lib.capacity-pop_front b)

  -- What the calls did, with the buffer replaced by what it holds.
  abbrev pub on_contents : Traffic T Buffer → Traffic T (List T)
  on_contents t = record { accepted = t.accepted; popped = t.popped; last = contents t.last }

  on_contents-let_in :
      (done : Bool) (x : T) (t : Traffic T Buffer)
      → on_contents (let_in done x t) ≡ let_in done x (on_contents t)
  on_contents-let_in true x t = refl
  on_contents-let_in false x t = refl

  on_contents-give_out :
      (out : Option T) (t : Traffic T Buffer)
      → on_contents (give_out out t) ≡ give_out out (on_contents t)
  on_contents-give_out none t = refl
  on_contents-give_out (some x) t = refl

  -- Whatever calls of `push` and `pop` the threads make in whatever order, the ring buffer answers as
  -- the queue of its capacity does, and holds the same.
  pub traffic-refines :
      (n : ℕ) (calls : List (Call T)) (b : Buffer)
      → capacity b ≡ n
      → on_contents (traffic (push lib) (pop lib) calls b)
        ≡ traffic (enqueue n) dequeue calls (contents b)
  unfolding traffic
  traffic-refines n [] b e = refl
  traffic-refines n (push_of x ∷ calls) b e =
      let (done, held, same) = push_lem x b in
      let at_n = ap (λ m. enqueue m x (contents b)) e in
      on_contents-let_in (push lib x b).0 x _
      ∙ ap₂ (λ d t. let_in d x t) (done ∙ ap (λ r. r.0) at_n)
          (traffic-refines n calls (push lib x b).1 (same ∙ e)
            ∙ ap (traffic (enqueue n) dequeue calls) (held ∙ ap (λ r. r.1) at_n))
  traffic-refines n (pop_of ∷ calls) b e =
      let (out, held, same) = pop_lem b in
      on_contents-give_out (pop lib b).0 _
      ∙ ap₂ give_out out (
          traffic-refines n calls (pop lib b).1 (same ∙ e)
          ∙ ap (traffic (enqueue n) dequeue calls) held)

-- For the queue of capacity `n`: what was in it and what was let in is, in this order, what came out
-- and what is left; and it never holds more than `n`.
module _ {T : Type 0} (n : ℕ) where
  queue-fifo :
      (calls : List (Call T)) (q : List T)
      → let t = traffic (enqueue n) dequeue calls q in q ++ t.accepted ≡ t.popped ++ t.last
  unfolding traffic enqueue dequeue
  queue-fifo [] q = append-nil q
  queue-fifo (push_of x ∷ calls) q = elim (Bool-cases (leb n (length q))) [
    | inl h ↦ rw h (queue-fifo calls q)
    | inr h ↦ rw h (sym (append_assoc q (x ∷ []) _) ∙ queue-fifo calls (q ++ (x ∷ [])))
  ]
  queue-fifo (pop_of ∷ calls) [] = queue-fifo calls []
  queue-fifo (pop_of ∷ calls) (x ∷ q) = ap (λ l. x ∷ l) (queue-fifo calls q)

  queue_bounded :
      (calls : List (Call T)) (q : List T)
      → length q ≤ n
      → length (traffic (enqueue n) dequeue calls q).last ≤ n
  unfolding traffic enqueue dequeue
  queue_bounded [] q h = h
  queue_bounded (push_of x ∷ calls) q h = elim (Bool-cases (leb n (length q))) [
    | inl k ↦ rw k (queue_bounded calls q h)
    | inr k ↦
        rw k (queue_bounded calls (q ++ (x ∷ [])) (ground (arith, length-append {0} q (x ∷ []))))
  ]
  queue_bounded (pop_of ∷ calls) [] h = queue_bounded calls [] h
  queue_bounded (pop_of ∷ calls) (x ∷ q) h = queue_bounded calls q (omega (arith, h))

-- Whatever calls the threads make from an empty ring buffer, what was let in is what came out followed
-- by what is left, in this order, and what is left is never more than the capacity.
pub traffic-fifo :
    {T : Type 0} (lib : CircularBuffer T) (n : ℕ) (calls : List (Call T))
    → let t = traffic (push lib) (pop lib) calls (create lib n) in
      (t.accepted ≡ t.popped ++ lib.contents t.last) × (length (lib.contents t.last) ≤ n)
unfolding create
traffic-fifo lib n calls =
    let start = lib.with_capacity n in
    let same =
      traffic-refines lib n calls start (lib.capacity_new n)
      ∙ ap (traffic (enqueue n) dequeue calls) (lib.contents_new n) in
    let order = queue-fifo n calls [] in
    let bound = queue_bounded n calls [] (omega arith) in
    (
      ap (λ t. t.accepted) same ∙ order ∙ sym (ap (λ t. t.popped ++ t.last) same),
      subst (λ t. length t.last ≤ n) (sym same) bound,
    )
