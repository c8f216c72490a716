-- ===== src/ClockRing/Destroy.antt =====
-- The destructor frees every node of the ring once.
use memory_tiering.Base.{
  ◌≡◌, ◌≢◌, ◌||◌, subst, refl, sym, ap, ◌∙◌, false, none, some, List, [], ◌∷◌, length, ◌==◌,
  Bool-cases, inl, inr, ==-false,
}
use memory_tiering.Base.Run.{ok, Returns, returns, Returns-bind}
use memory_tiering.ClockRing.{
  Ptr, nullptr, ClockRing, ClockRingNode, write, at, load, store, set_hand, delete_node,
  destroy_nodes, destroy,
}
use memory_tiering.ClockRing.Cells.{Cell, has, Distinct, first, last}
use memory_tiering.ClockRing.Linked.{Linked, node_of, frame-write}
use memory_tiering.ClockRing.Ring.{IsRing}

-- The nodes that are left, from the hand on; there is no other.
record Rest (r : ClockRing) (b : Ptr) (xs : List Cell) (s : Ptr) : Type 0 where
  linked : Linked r.heap b xs s
  distinct : Distinct xs
  hand : r.hand ≡ first xs s
  size : r.size ≡ length xs
  only : (a : Ptr) → has a xs ≡ false → r.heap a ≡ none

first_self : (xs : List Cell) → first xs nullptr ≡ first xs (first xs nullptr)
first_self [] = refl
first_self (c ∷ xs) = refl

at_hand :
    (r : ClockRing) (a : Ptr) (n : ClockRingNode)
    → r.hand ≡ a
    → r.hand ≢ nullptr
    → r.heap a ≡ some n
    → at r.heap r.hand ≡ some n
unfolding at
at_hand r a n same there here = rw (==-false r.hand nullptr there) (ap r.heap same ∙ here)

deleted :
    (p : Ptr) (r : ClockRing) (n : ClockRingNode)
    → at r.heap p ≡ some n
    → delete_node p r ≡ ok tt (record r { heap = write r.heap p none })
unfolding delete_node load store
deleted p r n e = rw e refl

destroy_nodes-none :
    (xs : List Cell) (r : ClockRing) (b s : Ptr)
    → Rest r b xs s
    → Returns (λ u r'. (r'.size ≡ 0) × ((a : Ptr) → r'.heap a ≡ none)) (destroy_nodes (length xs) r)
unfolding destroy_nodes load set_hand write
destroy_nodes-none [] r b s rest = returns (rest.size, λ a. rest.only a refl)
destroy_nodes-none (c ∷ xs) r b s rest =
    let (ne, here, linked) = rest.linked in
    let there : r.hand ≢ nullptr = λ z. ne (sym rest.hand ∙ z) in
    let node : at r.heap r.hand ≡ some (node_of c b (first xs s)) =
      at_hand r c.addr _ rest.hand there here in
    let r' : ClockRing = record r {
      hand = first xs s;
      heap = write r.heap r.hand none;
      size = length xs;
    } in
    let rest' : Rest r' c.addr xs s = record {
      linked =
          frame-write r.heap c.addr xs s r.hand none linked
            (ap (λ a. has a xs) rest.hand ∙ rest.distinct.0);
      distinct = rest.distinct.1;
      hand = refl;
      size = refl;
      only = λ a out. elim (Bool-cases (a == r.hand)) [
        | inl same ↦ rw same refl
        | inr other ↦
            rw other
              (rest.only a (subst (λ h. ((a == h) || has a xs) ≡ false) rest.hand (rw other out)))
      ];
    } in
    rw (node, deleted r.hand (record r { hand = first xs s }) _ node)
      (destroy_nodes-none xs r' c.addr s rest')

-- On a well-formed ring, the destructor returns, so it reads no node after its `delete` and deletes
-- none twice, both of which are faults; and then no node is left in the heap, the size is 0 and the
-- hand points to nothing.
pub destroy_lem :
    (r : ClockRing) (xs : List Cell)
    → IsRing r xs
    → Returns
        (λ u r'. (r'.hand ≡ nullptr) × (r'.size ≡ 0) × ((a : Ptr) → r'.heap a ≡ none))
        (destroy r)
unfolding destroy set_hand
destroy_lem r xs v =
    let rest : Rest r (last nullptr xs) xs (first xs nullptr) = record {
      linked = v.circle;
      distinct = v.distinct;
      hand = v.hand ∙ first_self xs;
      size = v.size;
      only = v.only;
    } in
    Returns-bind
      (subst
        (λ n. Returns (λ u r'. (r'.size ≡ 0) × ((a : Ptr) → r'.heap a ≡ none)) (destroy_nodes n r))
        (sym v.size) (destroy_nodes-none xs r (last nullptr xs) (first xs nullptr) rest))
      (λ u r' (size, gone). returns (refl, size, gone))
