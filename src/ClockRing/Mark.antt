-- ===== src/ClockRing/Mark.antt =====
-- `ClockRing::markAccessed` sets the reference bit of one node.
use memory_tiering.Base.{
  ◌≡◌, ◌≢◌, refl, sym, subst, ap, ◌∙◌, true, false, some, List, [], ◌∷◌, arith, ◌==◌, ==-false,
  eq_of_==, ne_of_==, length, Bool-cases, inl, inr,
}
use memory_tiering.Base.Run.{Returns, returns}
use memory_tiering.ClockRing.{Ptr, nullptr, ClockRingNode, Heap, ClockRing, write, mark_accessed}
use memory_tiering.ClockRing.Cells.{Cell, has, Distinct, first, last, with_ref, mark, ne_of_has}
use memory_tiering.ClockRing.Linked.{Circle, Linked, node_of, frame-write, write_self, write_ne}
use memory_tiering.ClockRing.Ring.{IsRing, set_ref_bit-ok}

first-mark : (a : Ptr) (xs : List Cell) (s : Ptr) → first (mark a xs) s ≡ first xs s
unfolding mark
first-mark a [] s = refl
first-mark a (c ∷ xs) s = ground arith

last-mark : (a b : Ptr) (xs : List Cell) → last b (mark a xs) ≡ last b xs
unfolding mark
last-mark a b [] = refl
last-mark a b (c ∷ xs) = ground (arith, last-mark a c.addr xs)

pub has-mark : (a x : Ptr) (xs : List Cell) → has x (mark a xs) ≡ has x xs
unfolding mark
has-mark a x [] = refl
has-mark a x (c ∷ xs) = ground (arith, has-mark a x xs)

pub length-mark : (a : Ptr) (xs : List Cell) → length (mark a xs) ≡ length xs
unfolding mark
length-mark a [] = refl
length-mark a (c ∷ xs) = ground (arith, length-mark a xs)

Distinct-mark : (a : Ptr) (xs : List Cell) → Distinct xs → Distinct (mark a xs)
unfolding mark
Distinct-mark a [] d = tt
Distinct-mark a (c ∷ xs) d = elim (Bool-cases (c.addr == a)) [
  | inl e ↦ rw e d
  | inr e ↦ rw e (has-mark a c.addr xs ∙ d.0, Distinct-mark a xs d.1)
]

abbrev set_bit : Heap → Ptr → ClockRingNode → Heap
set_bit h a n = write h a (some (record n { ref_bit = true }))

-- The node of a list at an address.
node_at :
    (h : Heap) (a b : Ptr) (xs : List Cell) (s : Ptr)
    → Linked h b xs s
    → has a xs ≡ true
    → (n : ClockRingNode) × (h a ≡ some n) × (a ≢ nullptr)
node_at h a b [] s l i = absurd (cc)
node_at h a b (c ∷ xs) s l i = elim (Bool-cases (a == c.addr)) [
  | inl e ↦ (
    node_of c b (first xs s),
    ap h (eq_of_== a c.addr e) ∙ l.1,
    λ z. l.0 (sym (eq_of_== a c.addr e) ∙ z),
  )
  | inr e ↦ node_at h a c.addr xs s l.2 (ground arith)
]

marked_here :
    (h : Heap) (c : Cell) (b : Ptr) (xs : List Cell) (s : Ptr) (n : ClockRingNode)
    → Linked h b (c ∷ xs) s
    → has c.addr xs ≡ false
    → h c.addr ≡ some n
    → Linked (set_bit h c.addr n) b (with_ref c true ∷ xs) s
marked_here h c b xs s n l o e =
    let q : some (node_of c b (first xs s)) ≡ some n = sym l.1 ∙ e in
    let same : some (record n { ref_bit = true })
        ≡ some (node_of (with_ref c true) b (first xs s)) =
      ground arith in
    (l.0, write_self h c.addr _ ∙ same, frame-write h c.addr xs s c.addr _ l.2 o)

Linked-mark :
    (h : Heap) (a b : Ptr) (xs : List Cell) (s : Ptr) (n : ClockRingNode)
    → Linked h b xs s
    → Distinct xs
    → h a ≡ some n
    → Linked (set_bit h a n) b (mark a xs) s
unfolding mark
Linked-mark h a b [] s n l d e = tt
Linked-mark h a b (c ∷ xs) s n l d e = elim (Bool-cases (c.addr == a)) [
  | inl q ↦ rw q (
      subst (λ p. Linked (set_bit h p n) b (with_ref c true ∷ xs) s) (eq_of_== c.addr a q)
        (marked_here h c b xs s n l d.0 (ap h (eq_of_== c.addr a q) ∙ e)))
  | inr q ↦ rw q (
    l.0,
    write_ne h c.addr a _ (ne_of_== c.addr a q) ∙ rw (first-mark a xs s) l.1,
    Linked-mark h a c.addr xs s n l.2 d.1 e,
  )
]

-- What `mark_accessed` makes of a ring that holds `xs`.
pub record Marked (r : ClockRing) (a : Ptr) (xs : List Cell) (u : Unit {0}) (r' : ClockRing)
    : Type 0 where
  pub ring : IsRing r' (mark a xs)
  pub same_capacity : r'.capacity ≡ r.capacity

mark-Circle :
    (h : Heap) (a : Ptr) (xs : List Cell) (n : ClockRingNode)
    → Circle h xs
    → Distinct xs
    → h a ≡ some n
    → Circle (set_bit h a n) (mark a xs)
mark-Circle h a xs n l d e =
    rw (last-mark a nullptr xs, first-mark a xs nullptr)
      (Linked-mark h a (last nullptr xs) xs (first xs nullptr) n l d e)

-- Given a node of a well-formed ring, `mark_accessed` returns, sets its bit, and leaves the other nodes,
-- their order and the capacity as they are.
pub mark_accessed_lem :
    (r : ClockRing) (a : Ptr) (xs : List Cell)
    → IsRing r xs
    → has a xs ≡ true
    → Returns (Marked r a xs) (mark_accessed a r)
unfolding mark_accessed
mark_accessed_lem r a xs is i =
    let (n, e, ne) = node_at r.heap a _ xs _ is.circle i in
    rw (==-false a nullptr ne, set_ref_bit-ok r a n ne e true)
      (returns (record {
        ring = record {
          circle = mark-Circle r.heap a xs n is.circle is.distinct e;
          distinct = Distinct-mark a xs is.distinct;
          hand = is.hand ∙ sym (first-mark a xs nullptr);
          size = is.size ∙ sym (length-mark a xs);
          room = rw (length-mark a xs) is.room;
          small = is.small;
          below = λ x j. is.below x (sym (has-mark a x xs) ∙ j);
          only = λ x o.
              let o' : has x xs ≡ false = sym (has-mark a x xs) ∙ o in
              write_ne r.heap x a _ (ne_of_has x a xs o' i) ∙ is.only x o';
          fresh = is.fresh;
        };
        same_capacity = refl;
      }))
