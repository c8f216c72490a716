-- ===== src/ClockRing/Evict.antt =====
-- `ClockRing::findEvictionCandidate` of src/server/ClockRing.cpp is the clock algorithm on the list of
-- nodes, and ends.
use memory_tiering.Base.{
  ℕ, zero, suc, ◌+◌, ◌<◌, ◌≡◌, ◌≢◌, refl, sym, subst, ap, ◌∙◌, Bool, true, false, Option, some,
  List, [], ◌∷◌, ◌++◌, append_assoc, append-nil, arith, ==-false, ==-true, length, Bool-cases, inl,
  inr, length-append,
}
use mathlib.Core.Path.{subst₂}
use memory_tiering.Base.Run.{ok, assert_failed, Returns, returns, Returns-bind}
use memory_tiering.ClockRing.{
  nullptr, ClockRingNode, ClockRing, write, load, set_ref_bit, set_hand, remove, sweep,
  find_eviction_candidate,
}
use memory_tiering.ClockRing.Cells.{
  Cell, first, last, with_ref, evict, has-append, ne_of_has, first-append, evict_first,
  Distinct-rotate,
}
use memory_tiering.ClockRing.Linked.{Circle-rotate, node_of, frame-write, write_self, write_ne}
use memory_tiering.ClockRing.Ring.{IsRing, with_heap, load-ok, set_ref_bit-ok}
use memory_tiering.ClockRing.Remove.{Removed, Removed-middle}

-- The hand moves on to the next node.
IsRing-rotate :
    (r : ClockRing) (c : Cell) (xs : List Cell)
    → IsRing r (c ∷ xs)
    → IsRing (record r { hand = first xs c.addr }) (xs ++ c ∷ [])
IsRing-rotate r c xs is = record {
  circle = Circle-rotate r.heap c xs is.circle;
  distinct = Distinct-rotate c xs is.distinct;
  hand = sym (first-append xs (c ∷ []) nullptr);
  size = omega (arith, is.size, length-append {0} xs (c ∷ []));
  room = omega (arith, is.room, length-append {0} xs (c ∷ []));
  small = is.small;
  below = λ a i. is.below a (ground (arith, has-append a xs (c ∷ [])));
  only = λ a o. is.only a (ground (arith, has-append a xs (c ∷ [])));
  fresh = is.fresh;
}

-- Setting the bit of the first node.
IsRing-with_ref :
    (r : ClockRing) (c : Cell) (xs : List Cell) (b : Bool)
    → IsRing r (c ∷ xs)
    → IsRing
        (with_heap r (
          write r.heap c.addr
            (some (record (node_of c (last c.addr xs) (first xs c.addr)) { ref_bit = b }))))
        (with_ref c b ∷ xs)
IsRing-with_ref r c xs b is = record {
  circle = (
    is.circle.0,
    write_self r.heap c.addr _,
    frame-write r.heap c.addr xs c.addr c.addr _ is.circle.2 is.distinct.0,
  );
  distinct = is.distinct;
  hand = is.hand;
  size = is.size;
  room = is.room;
  small = is.small;
  below = is.below;
  only = λ a o.
      write_ne r.heap a c.addr _ (ne_of_has a c.addr (c ∷ xs) o (ground arith)) ∙ is.only a o;
  fresh = is.fresh;
}

abbrev AllClear : List Cell → Type 0
AllClear [] = Unit {0}
AllClear (c ∷ xs) = (c.ref_bit ≡ false) × AllClear xs

AllClear-snoc :
    (xs : List Cell) (c : Cell) → AllClear xs → c.ref_bit ≡ false → AllClear (xs ++ c ∷ [])
AllClear-snoc [] c cl e = (e, tt)
AllClear-snoc (x ∷ xs) c cl e = (cl.0, AllClear-snoc xs c cl.1 e)

-- What an eviction leaves, if the clock algorithm on the list comes to `choice`: the victim's page,
-- and the ring without its node.
pub record Evicted (capacity : ℕ) (choice : Option (ℕ × List Cell)) (page_id : ℕ) (r' : ClockRing)
    : Type 0 where
  pub cells : List Cell
  pub chosen : choice ≡ some (page_id, cells)
  pub ring : IsRing r' cells
  pub same_capacity : r'.capacity ≡ capacity

module _ (r : ClockRing) (c : Cell) (rest : List Cell) (is : IsRing r (c ∷ rest)) where
  abbrev front : ClockRingNode
  front = node_of c (last c.addr rest) (first rest c.addr)

  hand_not_null : r.hand ≢ nullptr
  hand_not_null e = is.circle.0 (sym is.hand ∙ e)

  hand_front : r.heap r.hand ≡ some front
  hand_front = ap r.heap is.hand ∙ is.circle.1

  load-hand : load r.hand r ≡ ok front r
  load-hand = load-ok r r.hand front hand_not_null hand_front

  abbrev moved_on : ClockRing
  moved_on = record r { hand = first rest c.addr }

  abbrev with_bit : Bool → ClockRing
  with_bit b = with_heap r (write r.heap r.hand (some (record front { ref_bit = b })))

  with_bit-IsRing : (b : Bool) → IsRing (with_bit b) (with_ref c b ∷ rest)
  with_bit-IsRing b =
      subst
        (λ p.
          IsRing (with_heap r (write r.heap p (some (record front { ref_bit = b }))))
            (with_ref c b ∷ rest))
        (sym is.hand) (IsRing-with_ref r c rest b is)

  set-hand_bit : (b : Bool) → set_ref_bit r.hand b r ≡ ok tt (with_bit b)
  set-hand_bit = set_ref_bit-ok r r.hand front hand_not_null hand_front

  Removed-front : Returns (Removed moved_on r.hand rest) (remove r.hand moved_on)
  Removed-front =
      subst₂ (λ p xs. Returns (Removed moved_on p xs) (remove p moved_on)) (sym is.hand)
        (append-nil rest) (Removed-middle moved_on rest c [] (IsRing-rotate r c rest is))

  -- The first node has a clear bit: it goes.
  sweep_clear :
      (fuel : ℕ)
      → c.ref_bit ≡ false
      → Returns (Evicted r.capacity (some (c.page_id, rest))) (sweep (suc fuel) r)
  unfolding sweep set_hand
  sweep_clear fuel clear =
      rw (load-hand, clear)
        (Returns-bind Removed-front λ u r' out.
          returns
            (record { cells = rest; chosen = refl; ring = out.ring; same_capacity = out.capacity }))

  -- The first node has its bit set: the bit is cleared, and the hand moves on.
  sweep_set :
      (fuel : ℕ)
      → c.ref_bit ≡ true
      → sweep (suc fuel) r ≡ sweep fuel (record (with_bit false) { hand = first rest c.addr })
  unfolding sweep set_hand
  sweep_set fuel set =
      rw
        (
          load-hand,
          set,
          set-hand_bit false,
          load-ok (with_bit false) r.hand (record front { ref_bit = false }) hand_not_null
              (write_self r.heap r.hand _),
        )
        refl

module _ (r : ClockRing) (c : Cell) (xs seen : List Cell) (is : IsRing r (c ∷ xs ++ seen)) where
  abbrev passed : ClockRing
  passed = record (with_bit r c (xs ++ seen) is false) { hand = first (xs ++ seen) c.addr }

  passed-IsRing : IsRing passed (xs ++ (seen ++ with_ref c false ∷ []))
  passed-IsRing = subst (IsRing passed) (append_assoc xs seen (with_ref c false ∷ [])) (
      IsRing-rotate (with_bit r c (xs ++ seen) is false) (with_ref c false) (xs ++ seen)
        (with_bit-IsRing r c (xs ++ seen) is false))

  some_left : 0 < length (xs ++ (seen ++ with_ref c false ∷ []))
  some_left = omega (
    arith,
    length-append {0} xs (seen ++ with_ref c false ∷ []),
    length-append {0} seen (with_ref c false ∷ []),
  )

-- Walking over the nodes of `xs`, with those of `seen` passed and their bits clear.
sweep-Evicted :
    (fuel : ℕ) (r : ClockRing) (xs seen : List Cell)
    → IsRing r (xs ++ seen)
    → AllClear seen
    → 0 < length (xs ++ seen)
    → length xs < fuel
    → Returns (Evicted r.capacity (evict xs seen)) (sweep fuel r)
unfolding evict evict_first
sweep-Evicted zero r xs seen is clear some_node enough = absurd (omega arith)
sweep-Evicted (suc fuel) r [] [] is clear some_node enough = absurd (omega arith)
sweep-Evicted (suc fuel) r [] (c ∷ seen) is clear some_node enough =
    sweep_clear r c seen is fuel clear.0
sweep-Evicted (suc fuel) r (c ∷ xs) seen is clear some_node enough = elim (Bool-cases c.ref_bit) [
  | inl set ↦
      rw (set, sweep_set r c (xs ++ seen) is fuel set)
        (sweep-Evicted fuel (passed r c xs seen is) xs (seen ++ with_ref c false ∷ [])
          (passed-IsRing r c xs seen is) (AllClear-snoc seen (with_ref c false) clear refl)
          (some_left r c xs seen is) (omega arith))
  | inr e ↦ rw e (sweep_clear r c (xs ++ seen) is fuel e)
]

-- On a well-formed ring that is not empty the search returns within one round and one step, evicts the node that
-- the clock algorithm chooses, and leaves the others in its order.
pub find_eviction_candidate-Evicted :
    (r : ClockRing) (xs : List Cell)
    → IsRing r xs
    → xs ≢ []
    → Returns (Evicted r.capacity (evict xs [])) (find_eviction_candidate r)
unfolding find_eviction_candidate
find_eviction_candidate-Evicted r [] is some_node = absurd (some_node refl)
find_eviction_candidate-Evicted r (c ∷ xs) is some_node =
    rw (==-false r.hand nullptr (hand_not_null r c xs is)) (
      sweep-Evicted (r.size + 1) r (c ∷ xs) [] (subst (IsRing r) (sym (append-nil (c ∷ xs))) is) tt
        (omega arith) (omega (arith, is.size)))

-- On an empty ring it aborts.
pub find_eviction_candidate_empty :
    (r : ClockRing) → IsRing r [] → find_eviction_candidate r ≡ assert_failed
unfolding find_eviction_candidate
find_eviction_candidate_empty r is = rw (==-true r.hand nullptr is.hand) refl
