-- ===== src/ClockRing/SecondChance.antt =====
-- The clock algorithm gives a second chance: a node with its bit set stays while another has its bit
-- clear.
use memory_tiering.Base.{
  arith, ℕ, ◌≡◌, ◌≢◌, subst, Option, refl, true, false, some, List, [], ◌∷◌, ◌++◌, append_assoc,
  append-nil, ap, ◌∙◌, sym,
}
use memory_tiering.Base.Run.{Returns, Returns-mono}
use memory_tiering.ClockRing.{ClockRing, find_eviction_candidate}
use memory_tiering.ClockRing.Cells.{Cell, with_ref, evict, evict_first}
use memory_tiering.ClockRing.Ring.{IsRing}
use memory_tiering.ClockRing.Evict.{Evicted, find_eviction_candidate-Evicted}

abbrev pub AllSet : List Cell → Type 0
AllSet [] = Unit {0}
AllSet (c ∷ xs) = (c.ref_bit ≡ true) × AllSet xs

abbrev pub clear_all : List Cell → List Cell
clear_all [] = []
clear_all (c ∷ xs) = with_ref c false ∷ clear_all xs

append-ne-nil : (xs : List Cell) (c : Cell) (ys : List Cell) → xs ++ c ∷ ys ≢ []
append-ne-nil [] c ys e = cc
append-ne-nil (x ∷ xs) c ys e = cc

evict_first_clear :
    (xs : List Cell) (c : Cell) (ys seen : List Cell)
    → AllSet xs
    → c.ref_bit ≡ false
    → evict (xs ++ c ∷ ys) seen ≡ some (c.page_id, ys ++ (seen ++ clear_all xs))
unfolding evict
evict_first_clear [] c ys seen set clear = rw (clear, append-nil seen) refl
evict_first_clear (x ∷ xs) c ys seen set clear = rw (set.0) (
    evict_first_clear xs c ys (seen ++ with_ref x false ∷ []) set.1 clear
    ∙ ap (λ l. some (c.page_id, ys ++ l))
        (append_assoc seen (with_ref x false ∷ []) (clear_all xs)))

evict-AllSet :
    (xs seen : List Cell) → AllSet xs → evict xs seen ≡ evict_first (seen ++ clear_all xs)
unfolding evict
evict-AllSet [] seen set = ap evict_first (sym (append-nil seen))
evict-AllSet (x ∷ xs) seen set = rw (set.0) (
    evict-AllSet xs (seen ++ with_ref x false ∷ []) set.1
    ∙ ap evict_first (append_assoc seen (with_ref x false ∷ []) (clear_all xs)))

-- What a sweep leaves: the page that it chose, and the other cells in their new order.
abbrev pub Leaves : ClockRing → ℕ → List Cell → ℕ → ClockRing → Type 0
Leaves r page_id cells p r' = (p ≡ page_id) × IsRing r' cells × (r'.capacity ≡ r.capacity)

Evicted-Leaves :
    (r : ClockRing) (choice : Option (ℕ × List Cell)) (page_id : ℕ) (cells : List Cell)
    → choice ≡ some (page_id, cells)
    → (p : ℕ) (r' : ClockRing) → Evicted r.capacity choice p r'
    → Leaves r page_id cells p r'
Evicted-Leaves r choice page_id cells e p r' v =
    let q : v.cells ≡ cells = ground (arith, v.chosen) in
    (ground (arith, v.chosen), subst (IsRing r') q v.ring, v.same_capacity)

-- If some node of a well-formed ring has a clear bit, the search returns the page of the first such node from the hand on;
-- the nodes passed on the way have their bits cleared and come last.
pub second_chance :
    (r : ClockRing) (xs : List Cell) (c : Cell) (ys : List Cell)
    → IsRing r (xs ++ c ∷ ys)
    → AllSet xs
    → c.ref_bit ≡ false
    → Returns (Leaves r c.page_id (ys ++ clear_all xs)) (find_eviction_candidate r)
second_chance r xs c ys is set clear =
    Returns-mono (find_eviction_candidate-Evicted r (xs ++ c ∷ ys) is (append-ne-nil xs c ys))
      (Evicted-Leaves r _ c.page_id (ys ++ clear_all xs) (evict_first_clear xs c ys [] set clear))

-- If every node of a well-formed ring has its bit set, the search clears them all in one round and
-- evicts the first.
pub full_round :
    (r : ClockRing) (c : Cell) (xs : List Cell)
    → IsRing r (c ∷ xs)
    → AllSet (c ∷ xs)
    → Returns (Leaves r c.page_id (clear_all xs)) (find_eviction_candidate r)
unfolding evict_first
full_round r c xs is set =
    Returns-mono (find_eviction_candidate-Evicted r (c ∷ xs) is (append-ne-nil [] c xs))
      (Evicted-Leaves r _ c.page_id (clear_all xs) (evict-AllSet (c ∷ xs) [] set))
