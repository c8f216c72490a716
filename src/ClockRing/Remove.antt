-- ===== src/ClockRing/Remove.antt =====
-- `ClockRing::remove` takes one node out of the ring and frees it.
use memory_tiering.Base.{
  ◌≡◌, ◌≢◌, refl, sym, subst, ap, ◌∙◌, true, false, none, some, List, [], ◌∷◌, ◌++◌, append-nil,
  arith, ◌==◌, ==-false, ==-true, length, Bool-cases, inl, inr, dec64, if◌then◌else◌,
}
use mathlib.Core.Path.{subst₂}
use memory_tiering.Base.Run.{ok, fault, assert_failed, Returns, returns, Returns-bind}
use memory_tiering.ClockRing.{
  Ptr, nullptr, ClockRingNode, Heap, ClockRing, write, at, load, store, set_next, set_prev,
  set_hand, unlink, remove, delete_node,
}
use memory_tiering.ClockRing.Cells.{
  Cell, has, Distinct, first, last, ne_of_has, has-last, delete, has-Split, has_middle,
  length_middle, first-append, has_swap, Distinct-turn,
}
use memory_tiering.ClockRing.Linked.{
  Circle, Circle-turn, Linked, node_of, frame-write, redirect_last, redirect_first, write_self,
  write_ne, Linked-last, Linked-not_null,
}
use memory_tiering.ClockRing.Ring.{IsRing, with_heap, load-ok, set_next-ok, set_prev-ok}

-- The ring after the node `a` is unlinked, `rest` being the other nodes from its successor on.
record Unlinked (r : ClockRing) (a : Ptr) (rest : List Cell) (u : Unit {0}) (r' : ClockRing)
    : Type 0 where
  circle : Circle (write r'.heap a none) rest
  same : (x : Ptr) → has x rest ≡ false → r'.heap x ≡ r.heap x
  hand : r'.hand ≡ (if r.hand == a then first rest nullptr else r.hand)
  size : r'.size ≡ r.size
  capacity : r'.capacity ≡ r.capacity
  fresh : r'.fresh ≡ r.fresh

unlink_single :
    (r : ClockRing) (c : Cell)
    → Circle r.heap (c ∷ [])
    → r.hand ≡ c.addr
    → Returns (Unlinked r c.addr []) (unlink c.addr r)
unfolding unlink set_hand
unlink_single r c circle eh =
    rw (load-ok r c.addr _ circle.0 circle.1, ==-true c.addr c.addr refl)
      (returns (record {
        circle = tt;
        same = λ x o. refl;
        hand = ground arith;
        size = refl;
        capacity = refl;
        fresh = refl;
      }))

module _ (r : ClockRing) (c d : Cell) (ys : List Cell) (circle : Circle r.heap (c ∷ d ∷ ys))
    (distinct : Distinct (c ∷ d ∷ ys)) where
  -- The predecessor and the successor of the node of `c`, and the two heaps that `unlink` writes.
  abbrev t : Ptr
  t = last d.addr ys

  before : (n : ClockRingNode) × (r.heap t ≡ some n)
  before = Linked-last r.heap c.addr d ys c.addr circle.2

  heap1 : Heap
  heap1 = write r.heap t (some (record (before.0) { next = d.addr }))

  linked1 : Linked heap1 c.addr (d ∷ ys) d.addr
  unfolding heap1
  linked1 = redirect_last r.heap c.addr (d ∷ ys) c.addr d.addr circle.2 distinct.1 before.1

  heap2 : Heap
  heap2 = write heap1 d.addr (some (record (node_of d c.addr (first ys d.addr)) { prev = t }))

  linked2 : Linked heap2 t (d ∷ ys) d.addr
  unfolding heap2
  linked2 = redirect_first heap1 c.addr t d ys d.addr linked1 distinct.1 linked1.1

  same1 : (x : Ptr) → has x (d ∷ ys) ≡ false → heap1 x ≡ r.heap x
  unfolding heap1
  same1 x o = write_ne r.heap x t _ (ne_of_has x t (d ∷ ys) o (has-last d ys))

  same2 : (x : Ptr) → has x (d ∷ ys) ≡ false → heap2 x ≡ r.heap x
  unfolding heap2
  same2 x o = write_ne heap1 x d.addr _ (ne_of_has x d.addr (d ∷ ys) o (ground arith)) ∙ same1 x o

  abbrev node : ClockRingNode
  node = node_of c t d.addr

  here2 : heap2 c.addr ≡ some node
  here2 = same2 c.addr distinct.0 ∙ circle.1

  here1 : heap1 c.addr ≡ some node
  here1 = same1 c.addr distinct.0 ∙ circle.1

  step1 : set_next t d.addr r ≡ ok tt (with_heap r heap1)
  unfolding heap1
  step1 =
      set_next-ok r t before.0 (Linked-not_null r.heap c.addr d ys c.addr circle.2) before.1 d.addr

  step2 : set_prev d.addr t (with_heap r heap1) ≡ ok tt (with_heap r heap2)
  unfolding heap2
  step2 = set_prev-ok (with_heap r heap1) d.addr _ linked1.0 linked1.1 t

  circle2 : Circle (write heap2 c.addr none) (d ∷ ys)
  circle2 = frame-write heap2 t (d ∷ ys) d.addr c.addr none linked2 distinct.0

  next_ne : d.addr ≢ c.addr
  next_ne e = ne_of_has c.addr d.addr (d ∷ ys) distinct.0 (ground arith) (sym e)

  Unlinked-of :
      (p : Ptr)
      → p ≡ (if r.hand == c.addr then d.addr else r.hand)
      → Unlinked r c.addr (d ∷ ys) tt (record r { hand = p; heap = heap2 })
  Unlinked-of p e = record {
    circle = circle2;
    same = same2;
    hand = e;
    size = refl;
    capacity = refl;
    fresh = refl;
  }

  unlink_cons : Returns (Unlinked r c.addr (d ∷ ys)) (unlink c.addr r)
  unfolding unlink set_hand
  unlink_cons =
      rw
        (
          load-ok r c.addr node circle.0 circle.1,
          ==-false d.addr c.addr next_ne,
          step1,
          load-ok (with_heap r heap1) c.addr node circle.0 here1,
          step2,
        )
        (elim (Bool-cases (r.hand == c.addr)) [
          | inl e ↦
              rw (e, load-ok (with_heap r heap2) c.addr node circle.0 here2)
                (returns (Unlinked-of d.addr (rw e refl)))
          | inr e ↦ rw e (returns (Unlinked-of r.hand (rw e refl)))
        ])

unlink_lem :
    (r : ClockRing) (c : Cell) (rest : List Cell)
    → Circle r.heap (c ∷ rest)
    → Distinct (c ∷ rest)
    → (rest ≡ [] → r.hand ≡ c.addr)
    → Returns (Unlinked r c.addr rest) (unlink c.addr r)
unlink_lem r c [] circle d alone = unlink_single r c circle (alone refl)
unlink_lem r c (x ∷ xs) circle d alone = unlink_cons r c x xs circle d

-- What `remove` makes of a ring when it is given the node `a`, and `rest` are the others.
pub record Removed (r : ClockRing) (a : Ptr) (rest : List Cell) (u : Unit {0}) (r' : ClockRing)
    : Type 0 where
  pub ring : IsRing r' rest
  pub freed : r'.heap a ≡ none
  pub capacity : r'.capacity ≡ r.capacity

-- The hand moves on if it stood at the node that goes.
next_hand :
    (xs : List Cell) (c : Cell) (ys : List Cell)
    → Distinct (xs ++ c ∷ ys)
    → (if first xs c.addr == c.addr then first (ys ++ xs) nullptr else first xs c.addr)
      ≡ first (xs ++ ys) nullptr
next_hand [] c ys d = rw (append-nil ys, ==-true c.addr c.addr refl) refl
next_hand (x ∷ xs) c ys d = ground (arith, has_middle x.addr xs c ys)

module _ (r : ClockRing) (xs : List Cell) (c : Cell) (ys : List Cell)
    (is : IsRing r (xs ++ c ∷ ys)) where
  turned : Circle r.heap (c ∷ ys ++ xs)
  turned = Circle-turn r.heap xs (c ∷ ys) is.circle

  turned_Distinct : Distinct (c ∷ ys ++ xs)
  turned_Distinct = Distinct-turn xs (c ∷ ys) is.distinct

  hand-first : r.hand ≡ first xs c.addr
  hand-first = is.hand ∙ first-append xs (c ∷ ys) nullptr

  alone : ys ++ xs ≡ [] → r.hand ≡ c.addr
  alone e = hand-first ∙ go xs e
    where
      go : (l : List Cell) → ys ++ l ≡ [] → first l c.addr ≡ c.addr
      go [] e = refl
      go (x ∷ l) e = absurd (omega (arith, length_middle ys x l, ap (length {0}) e))

  abbrev after : ClockRing → ClockRing
  after r' = record r' { heap = write r'.heap c.addr none; size = dec64 r'.size }

  has_rest : (x : Ptr) → has x (xs ++ ys) ≡ false → has x (ys ++ xs) ≡ false
  has_rest x o = has_swap x ys xs ∙ o

  only_rest :
      (r' : ClockRing)
      → Unlinked r c.addr (ys ++ xs) tt r'
      → (x : Ptr) → has x (xs ++ ys) ≡ false
      → (after r').heap x ≡ none
  unfolding write
  only_rest r' u x o = ground (arith, u.same x (has_rest x o), is.only x, has_middle x xs c ys)

  after-Removed :
      (r' : ClockRing)
      → Unlinked r c.addr (ys ++ xs) tt r'
      → Removed r c.addr (xs ++ ys) tt (after r')
  after-Removed r' u = record {
    ring = record {
      circle = Circle-turn _ ys xs u.circle;
      distinct = Distinct-turn ys xs turned_Distinct.1;
      hand = u.hand ∙ rw hand-first (next_hand xs c ys is.distinct);
      size = omega (arith, u.size, is.size, is.room, is.small, length_middle xs c ys);
      room = omega (arith, u.capacity, is.room, length_middle xs c ys);
      small = omega (arith, u.capacity, is.small);
      below = λ x i. omega (arith, u.fresh, is.below x (ground (arith, has_middle x xs c ys)));
      only = only_rest r' u;
      fresh = omega (arith, u.fresh, is.fresh);
    };
    freed = write_self r'.heap c.addr none;
    capacity = u.capacity;
  }

  pub Removed-middle : Returns (Removed r c.addr (xs ++ ys)) (remove c.addr r)
  unfolding remove store delete_node
  Removed-middle = rw (==-false c.addr nullptr turned.0) (
      Returns-bind (unlink_lem r c (ys ++ xs) turned turned_Distinct alone) λ u r' out.
        rw (load-ok r' c.addr _ turned.0 (out.same c.addr turned_Distinct.0 ∙ turned.1))
          (returns (after-Removed r' out)))

-- Given a node of a well-formed ring, `remove` returns, takes it out, keeps the others in order, and frees it.
pub remove_lem :
    (r : ClockRing) (xs : List Cell) (a : Ptr)
    → IsRing r xs
    → has a xs ≡ true
    → Returns (Removed r a (delete a xs)) (remove a r)
remove_lem r xs a is i =
    let s = has-Split a xs i in
    subst₂ (λ p ys. Returns (Removed r p ys) (remove p r)) s.here (sym s.rest)
      (Removed-middle r s.before s.cell s.after (subst (IsRing r) s.whole is))

-- `remove` aborts on a null pointer, and uses freed memory on a pointer to a node that is gone.
pub remove_null : (r : ClockRing) → remove nullptr r ≡ assert_failed
unfolding remove
remove_null r = refl

pub remove_dangling : (r : ClockRing) (a : Ptr) → a ≢ nullptr → r.heap a ≡ none → remove a r ≡ fault
unfolding remove unlink load at
remove_dangling r a ne e = rw (==-false a nullptr ne, e, ==-false a nullptr ne) refl
