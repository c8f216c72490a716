-- ===== src/ClockRing/Ring.antt =====
-- The representation invariant of the clock ring, and what its primitive steps do.
use memory_tiering.Base.{
  ◌^◌, ◌≤◌, ◌<◌, ◌≡◌, ◌≢◌, Bool, true, false, none, some, List, ==-false, length,
}
use memory_tiering.Base.Run.{ok}
use memory_tiering.ClockRing.{
  Ptr, nullptr, ClockRingNode, Heap, ClockRing, write, at, load, store, set_next, set_prev,
  set_ref_bit,
}
use memory_tiering.ClockRing.Cells.{Cell, has, Distinct, first}
use memory_tiering.ClockRing.Linked.{Circle}

-- The nodes of the heap are those of `xs`, linked into a circle from the hand on.
pub record IsRing (r : ClockRing) (xs : List Cell) : Type 0 where
  pub circle : Circle r.heap xs
  pub distinct : Distinct xs
  pub hand : r.hand ≡ first xs nullptr
  pub size : r.size ≡ length xs
  pub room : length xs ≤ r.capacity
  pub small : r.capacity < 2 ^ 64
  pub below : (a : Ptr) → has a xs ≡ true → a < r.fresh
  pub only : (a : Ptr) → has a xs ≡ false → r.heap a ≡ none
  pub fresh : 0 < r.fresh

abbrev pub with_heap : ClockRing → Heap → ClockRing
with_heap r h = record r { heap = h }

module _ (r : ClockRing) (p : Ptr) (n : ClockRingNode) (ne : p ≢ nullptr)
    (e : r.heap p ≡ some n) where
  pub load-ok : load p r ≡ ok n r
  unfolding load at
  load-ok = rw (==-false p nullptr ne, e)

  pub set_next-ok :
      (q : Ptr)
      → set_next p q r ≡ ok tt (with_heap r (write r.heap p (some (record n { next = q }))))
  unfolding set_next store
  set_next-ok q = rw load-ok

  pub set_prev-ok :
      (q : Ptr)
      → set_prev p q r ≡ ok tt (with_heap r (write r.heap p (some (record n { prev = q }))))
  unfolding set_prev store
  set_prev-ok q = rw load-ok

  pub set_ref_bit-ok :
      (b : Bool)
      → set_ref_bit p b r ≡ ok tt (with_heap r (write r.heap p (some (record n { ref_bit = b }))))
  unfolding set_ref_bit store
  set_ref_bit-ok b = rw load-ok
