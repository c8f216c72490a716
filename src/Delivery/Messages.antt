-- ===== src/Delivery/Messages.antt =====
-- Lists of messages: who has said END in one, and that none speaks after that.
use memory_tiering.Base.{
  ℕ, ◌<◌, ◌≡◌, refl, Bool, true, false, ◌&&◌, ◌||◌, List, [], ◌∷◌, ◌++◌, ◌==◌, ==-true, Bool-cases,
  inl, inr, arith, eq_of_==, subst,
}
use memory_tiering.Common.{OperationType, read, write, end, ClientMessage}

abbrev pub is_end : OperationType → Bool
is_end read = false
is_end write = false
is_end end = true

abbrev pub from : ℕ → ClientMessage → Bool
from i m = m.client_id == i

-- Client `i` has said END.
unfoldable pub ended : ℕ → List ClientMessage → Bool
ended i [] = false
ended i (m ∷ ms) = (is_end m.op_type && from i m) || ended i ms

-- Client `i` has said something.
unfoldable pub speaks : ℕ → List ClientMessage → Bool
speaks i [] = false
speaks i (m ∷ ms) = from i m || speaks i ms

-- Whoever says END says nothing after it.
abbrev pub Closed : List ClientMessage → Type 0
Closed [] = Unit {0}
Closed (m ∷ ms) = (is_end m.op_type ≡ true → speaks m.client_id ms ≡ false) × Closed ms

-- All messages are of the first `n` clients.
abbrev pub AllKnown : ℕ → List ClientMessage → Type 0
AllKnown n [] = Unit {0}
AllKnown n (m ∷ ms) = (m.client_id < n) × AllKnown n ms

pub ended-append :
    (i : ℕ) (xs ys : List ClientMessage) → ended i (xs ++ ys) ≡ (ended i xs || ended i ys)
unfolding ended
ended-append i [] ys = refl
ended-append i (x ∷ xs) ys = ground (arith, ended-append i xs ys)

pub speaks-append :
    (i : ℕ) (xs ys : List ClientMessage) → speaks i (xs ++ ys) ≡ (speaks i xs || speaks i ys)
unfolding speaks
speaks-append i [] ys = refl
speaks-append i (x ∷ xs) ys = ground (arith, speaks-append i xs ys)

pub AllKnown-append :
    (n : ℕ) (xs ys : List ClientMessage) → AllKnown n xs → AllKnown n ys → AllKnown n (xs ++ ys)
AllKnown-append n [] ys h k = k
AllKnown-append n (x ∷ xs) ys h k = (h.0, AllKnown-append n xs ys h.1 k)

pub AllKnown-rest : (n : ℕ) (xs ys : List ClientMessage) → AllKnown n (xs ++ ys) → AllKnown n ys
AllKnown-rest n [] ys h = h
AllKnown-rest n (x ∷ xs) ys h = AllKnown-rest n xs ys h.1

-- A client that has not said END may speak.
pub Closed-snoc :
    (ms : List ClientMessage) (m : ClientMessage)
    → Closed ms
    → ended m.client_id ms ≡ false
    → Closed (ms ++ (m ∷ []))
unfolding ended speaks
Closed-snoc [] m c h = (λ e. refl, tt)
Closed-snoc (x ∷ ms) m c h = (
  λ e. ground (arith, speaks-append x.client_id ms (m ∷ []), c.0 e),
  Closed-snoc ms m c.1 (ground arith),
)

-- After a client's END nothing of it follows.
pub silent_after :
    (i : ℕ) (xs ys : List ClientMessage)
    → Closed (xs ++ ys)
    → ended i xs ≡ true
    → speaks i ys ≡ false
unfolding ended
silent_after i [] ys c h = absurd (cc)
silent_after i (x ∷ xs) ys c h = elim (Bool-cases (is_end x.op_type && from i x)) [
  | inl e ↦
      let same : x.client_id ≡ i = eq_of_== x.client_id i (ground arith) in
      let quiet = c.0 (ground arith) in
      ground (
        arith,
        speaks-append x.client_id xs ys,
        subst (λ j. speaks j (xs ++ ys) ≡ false) same quiet,
        speaks-append i xs ys,
      )
  | inr e ↦ silent_after i xs ys c.1 (ground arith)
]

-- If every known client is silent, there is no message.
pub none_left :
    (n : ℕ) (ms : List ClientMessage)
    → AllKnown n ms
    → ((i : ℕ) → i < n → speaks i ms ≡ false)
    → ms ≡ []
unfolding speaks
none_left n [] k silent = refl
none_left n (m ∷ ms) k silent =
    let quiet = silent m.client_id k.0 in
    let speaker = ==-true m.client_id m.client_id refl in
    absurd (let loud : speaks m.client_id (m ∷ ms) ≡ true = rw speaker refl in cc)
