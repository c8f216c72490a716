-- ===== src/ClockRing/Insert.antt =====
-- `ClockRing::insert` puts the page behind all others.
use memory_tiering.Base.{
  ℕ, ◌+◌, ◌<◌, ◌≡◌, ◌≢◌, refl, sym, subst, ◌∙◌, Bool, true, false, none, some, List, [], ◌∷◌, ◌++◌,
  arith, ==-false, length, leb, ltb, Bool-cases, inl, inr, length-append, if◌then◌else◌, ◌||◌,
}
use memory_tiering.Base.Run.{ok, Returns, returns}
use memory_tiering.ClockRing.{
  Ptr, nullptr, ClockRingNode, Heap, ClockRing, write, store, insert, link, new_node, set_hand,
}
use memory_tiering.ClockRing.Cells.{
  Cell, has, Distinct, first, last, has-append, Distinct-snoc, ne_of_has, has-last, last-append,
}
use memory_tiering.ClockRing.Linked.{
  Circle, Linked, node_of, frame-write, redirect_last, redirect_first, Linked-append, write_self,
  write_ne, Linked-last, Linked-not_null,
}
use memory_tiering.ClockRing.Ring.{IsRing, with_heap, load-ok, set_next-ok, set_prev-ok}

abbrev pub new_cell : Ptr → ℕ → Cell
new_cell p page_id = record { addr = p; page_id = page_id; ref_bit = false }

abbrev blank : ℕ → ClockRingNode
blank page_id = record { page_id = page_id; ref_bit = false; prev = nullptr; next = nullptr }

-- The heap after `insert` linked the node `f` in before the hand, the node of `c`.
record LinkedIn (r : ClockRing) (f hand : Ptr) (page_id : ℕ) (c : Cell) (xs : List Cell)
    : Type 0 where
  heap : Heap
  run : link f hand r ≡ ok tt (with_heap r heap)
  circle : Circle heap ((c ∷ xs) ++ new_cell f page_id ∷ [])
  same : (a : Ptr) → has a (c ∷ xs) ≡ false → a ≢ f → heap a ≡ r.heap a

link_cons :
    (r : ClockRing) (f hand : Ptr) (page_id : ℕ) (c : Cell) (xs : List Cell)
    → hand ≡ c.addr
    → Circle r.heap (c ∷ xs)
    → Distinct (c ∷ xs)
    → r.heap f ≡ some (blank page_id)
    → has f (c ∷ xs) ≡ false
    → f ≢ nullptr
    → LinkedIn r f hand page_id c xs
unfolding link
link_cons r f hand page_id c xs eh circle d e out ne = record {
  heap = h5;
  run =
      rw
        (
          eh,
          ==-false c.addr nullptr circle.0,
          load-ok r c.addr _ circle.0 circle.1,
          set_next-ok r t end.0 tne end.1 f,
          set_prev-ok (with_heap r h2) f _ ne e2 t,
          set_next-ok (with_heap r h3) f _ ne (write_self h2 f _) c.addr,
          set_prev-ok (with_heap r h4) c.addr _ l4.0 l4.1 f,
        )
        refl;
  circle =
      subst (λ b. Linked h5 b ((c ∷ xs) ++ new_cell f page_id ∷ []) c.addr)
        (sym (last-append c.addr xs (new_cell f page_id ∷ [])))
        (Linked-append h5 f (c ∷ xs) (new_cell f page_id ∷ []) c.addr
          (redirect_first h4 t f c xs f l4 d l4.1) (ne, e5, tt));
  same = λ a o ne'.
      write_ne h4 a c.addr _ (ne_of_has a c.addr (c ∷ xs) o (ground arith))
      ∙ write_ne h3 a f _ ne'
      ∙ write_ne h2 a f _ ne'
      ∙ write_ne r.heap a t _ (ne_of_has a t (c ∷ xs) o (has-last c xs));
}
  where
    t : Ptr
    t = last c.addr xs

    end : (n : ClockRingNode) × (r.heap t ≡ some n)
    end = Linked-last r.heap t c xs c.addr circle

    tne : t ≢ nullptr
    tne = Linked-not_null r.heap t c xs c.addr circle

    f≢t : f ≢ t
    f≢t = ne_of_has f t (c ∷ xs) out (has-last c xs)

    h2 : Heap
    h2 = write r.heap t (some (record (end.0) { next = f }))

    e2 : h2 f ≡ some (blank page_id)
    e2 = write_ne r.heap f t _ f≢t ∙ e

    h3 : Heap
    h3 = write h2 f (some (record (blank page_id) { prev = t }))

    h4 : Heap
    h4 = write h3 f (some (record (blank page_id) { prev = t; next = c.addr }))

    l4 : Linked h4 t (c ∷ xs) f
    l4 =
        frame-write _ t (c ∷ xs) f f _
          (frame-write h2 t (c ∷ xs) f f _
            (redirect_last r.heap t (c ∷ xs) c.addr f circle d (end.1)) out)
          out

    h5 : Heap
    h5 = write h4 c.addr (some (record (node_of c t (first xs f)) { prev = f }))

    e5 : h5 f ≡ some (node_of (new_cell f page_id) t c.addr)
    e5 = write_ne h4 f c.addr _ (ne_of_has f c.addr (c ∷ xs) out (ground arith)) ∙ write_self h3 f _

-- The node that `new` makes, before it is linked.
abbrev with_new : ClockRing → ℕ → ClockRing
with_new r page_id = record r {
  heap = write r.heap r.fresh (some (blank page_id));
  fresh = r.fresh + 1;
}

new_node-ok : (r : ClockRing) (page_id : ℕ) → new_node page_id r ≡ ok r.fresh (with_new r page_id)
unfolding new_node store
new_node-ok r page_id = refl

link_nil :
    (r : ClockRing) (f hand : Ptr) (page_id : ℕ)
    → hand ≡ nullptr
    → r.heap f ≡ some (blank page_id)
    → f ≢ nullptr
    → link f hand r
      ≡ ok tt (record r {
        hand = f;
        heap =
            write
              (write r.heap f (some (record (blank page_id) { prev = f })))
              f
              (some (node_of (new_cell f page_id) f f));
      })
unfolding link set_hand
link_nil r f hand page_id eh e ne =
    let h1 : Heap = write r.heap f (some (record (blank page_id) { prev = f })) in
    rw (eh, set_prev-ok r f _ ne e f, set_next-ok (with_heap r h1) f _ ne (write_self r.heap f _) f)
      refl

below_snoc :
    (f page_id : ℕ) (xs : List Cell)
    → ((a : Ptr) → has a xs ≡ true → a < f)
    → (a : Ptr) → has a (xs ++ new_cell f page_id ∷ []) ≡ true
    → a < f + 1
below_snoc f page_id xs below a i = elim (Bool-cases (has a xs)) [
  | inl j ↦ omega (arith, below a j)
  | inr o ↦
      let e : (has a xs || has a (new_cell f page_id ∷ [])) ≡ true = sym (has-append a xs _) ∙ i in
      ground arith
]

only_snoc :
    (r : ClockRing) (page_id : ℕ) (xs : List Cell)
    → ((a : Ptr) → has a xs ≡ false → r.heap a ≡ none)
    → (h : Heap) → ((a : Ptr) → has a xs ≡ false → a ≢ r.fresh → h a ≡ (with_new r page_id).heap a)
    → (a : Ptr) → has a (xs ++ new_cell r.fresh page_id ∷ []) ≡ false
    → h a ≡ none
only_snoc r page_id xs only h same a o =
    let e : (has a xs || has a (new_cell r.fresh page_id ∷ [])) ≡ false =
      sym (has-append a xs _) ∙ o in
    let o' : has a xs ≡ false = ground arith in
    let ne : a ≢ r.fresh = ground arith in same a o' ne ∙ write_ne r.heap a r.fresh _ ne ∙ only a o'

-- What `insert` does to a ring that holds `xs`: when there is room it returns the new node, which
-- stands behind the others, and when there is none it changes nothing.
pub record Inserted (r : ClockRing) (xs : List Cell) (page_id : ℕ) (out : Bool × Ptr)
    (r' : ClockRing) : Type 0 where
  pub done : out.0 ≡ ltb (length xs) r.capacity
  pub node : out.1 ≡ (if out.0 then r.fresh else nullptr)
  pub ring : IsRing r' (if out.0 then xs ++ new_cell out.1 page_id ∷ [] else xs)
  pub capacity : r'.capacity ≡ r.capacity

module _ (r : ClockRing) (page_id : ℕ) where
  insert_full :
      (xs : List Cell)
      → IsRing r xs
      → leb r.capacity r.size ≡ true
      → Returns (Inserted r xs page_id) (insert page_id r)
  unfolding insert
  insert_full xs is full =
      rw full (
        returns
          (record { done = ground (arith, is.size); node = refl; ring = is; capacity = refl }))

  not-mem-fresh : (xs : List Cell) → IsRing r xs → has r.fresh xs ≡ false
  not-mem-fresh xs is = elim (Bool-cases (has r.fresh xs)) [
    | inl i ↦ absurd (omega (arith, is.below r.fresh i))
    | inr o ↦ o
  ]

  insert_nil :
      IsRing r []
      → leb r.capacity r.size ≡ false
      → Returns (Inserted r [] page_id) (insert page_id r)
  unfolding insert write
  insert_nil is room =
      rw
        (
          room,
          new_node-ok r page_id,
          link_nil (with_new r page_id) r.fresh r.hand page_id is.hand (write_self r.heap r.fresh _)
              (omega (arith, is.fresh)),
        )
        (returns (record {
          done = ground (arith, is.size);
          node = refl;
          ring = record {
            circle = (omega (arith, is.fresh), ground arith, tt);
            distinct = (refl, tt);
            hand = refl;
            size = rw is.size refl;
            room = ground (arith, is.size);
            small = is.small;
            below = ground arith;
            only = λ a o. ground (arith, is.only a);
            fresh = omega arith;
          };
          capacity = refl;
        }))

  insert_cons :
      (c : Cell) (xs : List Cell)
      → IsRing r (c ∷ xs)
      → leb r.capacity r.size ≡ false
      → Returns (Inserted r (c ∷ xs) page_id) (insert page_id r)
  unfolding insert
  insert_cons c xs is room =
      let out = not-mem-fresh (c ∷ xs) is in
      let r1 = with_new r page_id in
      let lt : r.size < r.capacity = ground arith in
      let l : LinkedIn r1 r.fresh r.hand page_id c xs =
        link_cons r1 r.fresh r.hand page_id c xs is.hand
          (frame-write r.heap _ (c ∷ xs) _ r.fresh _ is.circle out) is.distinct
          (write_self r.heap r.fresh _) out (omega (arith, is.fresh)) in
      rw (room, new_node-ok r page_id, l.run)
        (returns (record {
          done = ground (arith, is.size);
          node = refl;
          ring = record {
            circle = l.circle;
            distinct = Distinct-snoc (c ∷ xs) (new_cell r.fresh page_id) is.distinct out;
            hand = is.hand;
            size = rw is.size (
                omega (
                  arith,
                  length-append {0} (c ∷ xs) (new_cell r.fresh page_id ∷ []),
                  lt,
                  is.small,
                ));
            room =
                ground (arith, is.size, length-append {0} (c ∷ xs) (new_cell r.fresh page_id ∷ []));
            small = is.small;
            below = λ a i. below_snoc r.fresh page_id (c ∷ xs) is.below a i;
            only = λ a o. only_snoc r page_id (c ∷ xs) is.only _ l.same a o;
            fresh = omega arith;
          };
          capacity = refl;
        }))

  insert_room :
      (xs : List Cell)
      → IsRing r xs
      → leb r.capacity r.size ≡ false
      → Returns (Inserted r xs page_id) (insert page_id r)
  insert_room [] = insert_nil
  insert_room (c ∷ xs) = insert_cons c xs

  -- On a well-formed ring `insert` returns true exactly if there is room: then the page is the last node,
  -- at the fresh address that is returned. A full ring is left as it is.
  pub insert_lem :
      (xs : List Cell) → IsRing r xs → Returns (Inserted r xs page_id) (insert page_id r)
  insert_lem xs is = elim (Bool-cases (leb r.capacity r.size)) [
    | inl full ↦ insert_full xs is full
    | inr room ↦ insert_room xs is room
  ]

-- A full ring: nothing is inserted, and there is no node to return.
pub insert-of_full :
    (r : ClockRing) (xs : List Cell) (page_id : ℕ)
    → IsRing r xs
    → length xs ≡ r.capacity
    → insert page_id r ≡ ok (false, nullptr) r
unfolding insert
insert-of_full r xs page_id is full =
    let f : leb r.capacity r.size ≡ true = ground (arith, is.size) in rw f refl
