-- ===== src/Delivery/Within.antt =====
-- What the clients ask for lies in their memory: so it is for the messages that they send.
use memory_tiering.Base.{
  ℕ, ◌+◌, ◌<◌, ◌≡◌, sym, subst, Bool, true, false, if◌then◌else◌, some, List, [], ◌∷◌, ◌++◌, arith,
  Bool-cases, inl, inr, leb,
}
use memory_tiering.Common.{OperationType, ClientMessage}
use memory_tiering.RingBuffer.{CircularBuffer, push}
use memory_tiering.Generator.{Random, RandomLaws, generate_pid}
use memory_tiering.Generator.InRange.{IsReady, generate_pid-IsReady, generate_type-IsReady}
use memory_tiering.Client.{
  Client, Thread, Phase, timing, sending, closing, finished, end_msg, next_message, read_clock,
  after_push, turn_at,
}
use memory_tiering.Delivery.{offer, pushed}
use memory_tiering.Delivery.Messages.{is_end}

abbrev pub weight : OperationType → ℕ
weight op = if is_end op then 0 else 1

-- The number of reads and writes.
unfoldable pub accesses : List ClientMessage → ℕ
accesses [] = 0
accesses (m ∷ ms) = weight m.op_type + accesses ms

pub accesses-snoc :
    (xs : List ClientMessage) (m : ClientMessage)
    → accesses (xs ++ (m ∷ [])) ≡ accesses xs + weight m.op_type
unfolding accesses
accesses-snoc [] m = omega arith
accesses-snoc (x ∷ xs) m = omega (arith, accesses-snoc xs m)

module _ (sizes : ℕ → ℕ) where
  -- A read or write is of one of the pages of its client.
  pub record IsWithin (m : ClientMessage) : Type 0 where
    pub below : is_end m.op_type ≡ false → m.pid < sizes m.client_id

  abbrev pub AllWithin : List ClientMessage → Type 0
  AllWithin [] = Unit {0}
  AllWithin (m ∷ ms) = IsWithin m × AllWithin ms

  pub AllWithin-append :
      (xs ys : List ClientMessage) → AllWithin xs → AllWithin ys → AllWithin (xs ++ ys)
  AllWithin-append [] ys h k = k
  AllWithin-append (x ∷ xs) ys h k = (h.0, AllWithin-append xs ys h.1 k)

  pub AllWithin-rest : (xs ys : List ClientMessage) → AllWithin (xs ++ ys) → AllWithin ys
  AllWithin-rest [] ys h = h
  AllWithin-rest (x ∷ xs) ys h = AllWithin-rest xs ys h.1

  -- So is the one that a thread is about to push.
  abbrev pub Holds : Phase → Type 0
  Holds timing = Unit {0}
  Holds (sending msg) = IsWithin msg
  Holds closing = Unit {0}
  Holds finished = Unit {0}

  pub record IsBound (i : ℕ) {F Engine : Type 0} (t : Thread F Engine) : Type 0 where
    pub ready : IsReady (sizes i) t.client.generator
    pub holds : Holds t.phase

  Holds-after : (done : Bool) (p q : Phase) → Holds p → Holds q → Holds (after_push done p q)
  unfolding after_push
  Holds-after true p q h k = h
  Holds-after false p q h k = k

  module _ {F Engine : Type 0} (random : Random F Engine) (laws : RandomLaws random)
      (lib : CircularBuffer ClientMessage) where
    read_clock-IsBound :
        (i elapsed : ℕ) (c : Client F Engine)
        → c.client_id ≡ i
        → IsReady (sizes i) c.generator
        → IsBound i (read_clock random elapsed c)
    unfolding read_clock next_message
    read_clock-IsBound i elapsed c named ready = elim (Bool-cases (leb c.running_time elapsed)) [
      | inl late ↦ rw late (record { ready = ready; holds = tt })
      | inr early ↦
          let (lt, ready') = generate_pid-IsReady random laws (sizes i) c.generator ready in
          rw early (record {
            ready = generate_type-IsReady random laws (sizes i) c.rw_ratio _ ready';
            holds = record {
              below =
                  λ e. subst (λ k. (generate_pid random c.generator).0 < sizes k) (sym named) lt;
            };
          })
    ]

    pub turn_at-IsBound :
        (i elapsed : ℕ) (c : Client F Engine) (p : Phase) (b : lib.Buffer)
        → c.client_id ≡ i
        → IsBound i (record { client = c; phase = p })
        → IsBound i (turn_at random lib elapsed c p b).0
    unfolding turn_at
    turn_at-IsBound i elapsed c timing b named v = read_clock-IsBound i elapsed c named v.ready
    turn_at-IsBound i elapsed c (sending msg) b named v = record {
      ready = v.ready;
      holds = Holds-after (push lib msg b).0 timing (sending msg) tt v.holds;
    }
    turn_at-IsBound i elapsed c closing b named v = record {
      ready = v.ready;
      holds = Holds-after (push lib (end_msg c.client_id) b).0 finished closing tt tt;
    }
    turn_at-IsBound i elapsed c finished b named v = v

    pushed_one :
        (m : ClientMessage) (b : lib.Buffer) → IsWithin m → AllWithin (pushed lib (some m) b)
    unfolding pushed
    pushed_one m b h = elim (Bool-cases (push lib m b).0) [ inl e ↦ rw e (h, tt) | inr e ↦ rw e tt ]

    pub pushed-AllWithin :
        (t : Thread F Engine) (p : Phase) (b : lib.Buffer)
        → Holds p
        → AllWithin (pushed lib (offer t p) b)
    unfolding pushed
    pushed-AllWithin t timing b h = tt
    pushed-AllWithin t (sending msg) b h = pushed_one msg b h
    pushed-AllWithin t closing b h =
        pushed_one (end_msg t.client.client_id) b (record { below = λ e. absurd (cc) })
    pushed-AllWithin t finished b h = tt
