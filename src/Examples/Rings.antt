-- ===== src/Examples/Rings.antt =====
-- A ring of three nodes, and the theorems on the clock ring applied to it.
use memory_tiering.Base.{
  none, ◌≡◌, ℕ, ◌≤◌, ◌<◌, ◌^◌, refl, Bool, true, false, none, some, List, [], ◌∷◌, ◌==◌, arith,
  if◌then◌else◌,
}
use memory_tiering.Base.Run.{Returns}
use memory_tiering.ClockRing.{ClockRing, Heap, insert, remove, find_eviction_candidate}
use memory_tiering.ClockRing.Cells.{Cell, delete, evict}
use memory_tiering.ClockRing.{destroy, Ptr, nullptr}
use memory_tiering.ClockRing.Destroy.{destroy_lem}
use memory_tiering.ClockRing.Ring.{IsRing}
use memory_tiering.ClockRing.Insert.{Inserted, insert_lem}
use memory_tiering.ClockRing.Remove.{Removed, remove_lem}
use memory_tiering.ClockRing.Evict.{Evicted, find_eviction_candidate-Evicted}

abbrev cell : ℕ → ℕ → Bool → Cell
cell a p b = record { addr = a; page_id = p; ref_bit = b }

abbrev heap_of : Bool → Heap
heap_of b a =
    if a == 1
    then some (record { page_id = 10; ref_bit = true; prev = 3; next = 2 })
    else if a == 2
    then some (record { page_id = 11; ref_bit = b; prev = 1; next = 3 })
    else if a == 3
    then some (record { page_id = 12; ref_bit = true; prev = 2; next = 1 })
    else none

-- The bit of the second node is `b`, and the capacity `n`.
abbrev pub three : ℕ → Bool → ClockRing
three n b = record { hand = 1; size = 3; capacity = n; heap = heap_of b; fresh = 4 }

abbrev pub cells : Bool → List Cell
cells b = cell 1 10 true ∷ cell 2 11 b ∷ cell 3 12 true ∷ []

pub three-IsRing : (n : ℕ) (b : Bool) → 3 ≤ n → n < 2 ^ 64 → IsRing (three n b) (cells b)
three-IsRing n b lo hi = record {
  circle = (
    λ z. omega (arith, z),
    refl,
    (λ z. omega (arith, z), refl, (λ z. omega (arith, z), refl, tt)),
  );
  distinct = (refl, (refl, (refl, tt)));
  hand = refl;
  size = refl;
  room = omega arith;
  small = hi;
  below = λ a i. ground arith;
  only = λ a o. ground arith;
  fresh = omega arith;
}

insert_lem_example : Returns (Inserted (three 4 false) (cells false) 13) (insert 13 (three 4 false))
insert_lem_example =
    insert_lem (three 4 false) 13 (cells false) (three-IsRing 4 false (omega arith) (omega arith))

destroy_lem_example :
    Returns
      (λ u r'. (r'.hand ≡ nullptr) × (r'.size ≡ 0) × ((a : Ptr) → r'.heap a ≡ none))
      (destroy (three 4 false))
destroy_lem_example =
    destroy_lem (three 4 false) (cells false) (three-IsRing 4 false (omega arith) (omega arith))

remove_lem_example :
    Returns (Removed (three 4 false) 2 (delete 2 (cells false))) (remove 2 (three 4 false))
remove_lem_example =
    remove_lem (three 4 false) (cells false) 2 (three-IsRing 4 false (omega arith) (omega arith))
      refl

find_eviction_candidate-Evicted_example :
    Returns (Evicted 4 (evict (cells false) [])) (find_eviction_candidate (three 4 false))
find_eviction_candidate-Evicted_example =
    find_eviction_candidate-Evicted (three 4 false) (cells false)
      (three-IsRing 4 false (omega arith) (omega arith)) (λ z. cc)
