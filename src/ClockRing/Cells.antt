-- ===== src/ClockRing/Cells.antt =====
-- The abstract view of the ring of src/server/ClockRing.cpp: its nodes in order, from the hand on.
use memory_tiering.Base.{
  ℕ, ◌≡◌, ◌≢◌, refl, ap, Bool, true, false, ◌||◌, Option, none, some, List, [], ◌∷◌, ◌++◌, arith,
  ◌==◌, if◌then◌else◌, suc, length, Bool-cases, inl, inr, subst, append-nil, append_assoc,
}

pub record Cell : Type 0 where
  pub addr : ℕ
  pub page_id : ℕ
  pub ref_bit : Bool

abbrev pub has : ℕ → List Cell → Bool
has a [] = false
has a (c ∷ xs) = (a == c.addr) || has a xs

abbrev pub Distinct : List Cell → Type 0
Distinct [] = Unit {0}
Distinct (c ∷ xs) = (has c.addr xs ≡ false) × Distinct xs

-- The address of the first cell, or of what follows the list.
abbrev pub first : List Cell → ℕ → ℕ
first [] s = s
first (c ∷ xs) s = c.addr

-- The address of the last cell, or of what stands before the list.
abbrev pub last : ℕ → List Cell → ℕ
last b [] = b
last b (c ∷ xs) = last c.addr xs

unfoldable pub delete : ℕ → List Cell → List Cell
delete a [] = []
delete a (c ∷ xs) = if c.addr == a then xs else c ∷ delete a xs

abbrev pub with_ref : Cell → Bool → Cell
with_ref c b = record c { ref_bit = b }

unfoldable pub mark : ℕ → List Cell → List Cell
mark a [] = []
mark a (c ∷ xs) = if c.addr == a then with_ref c true ∷ xs else c ∷ mark a xs

-- The clock algorithm on the list: `seen` holds the cells passed, their bits cleared. The victim is
-- the first cell with a clear bit, or the first cell of all if every bit was set.
unfoldable pub evict_first : List Cell → Option (ℕ × List Cell)
evict_first [] = none
evict_first (c ∷ xs) = some (c.page_id, xs)

unfoldable pub evict : List Cell → List Cell → Option (ℕ × List Cell)
evict [] seen = evict_first seen
evict (c ∷ xs) seen =
    if c.ref_bit then evict xs (seen ++ with_ref c false ∷ []) else some (c.page_id, xs ++ seen)

pub has-append : (a : ℕ) (xs ys : List Cell) → has a (xs ++ ys) ≡ (has a xs || has a ys)
has-append a [] ys = refl
has-append a (x ∷ xs) ys = ground (arith, has-append a xs ys)

pub last-append : (b : ℕ) (xs ys : List Cell) → last b (xs ++ ys) ≡ last (last b xs) ys
last-append b [] ys = refl
last-append b (x ∷ xs) ys = last-append x.addr xs ys

pub first-append : (xs ys : List Cell) (s : ℕ) → first (xs ++ ys) s ≡ first xs (first ys s)
first-append [] ys s = refl
first-append (x ∷ xs) ys s = refl

pub has-last : (c : Cell) (xs : List Cell) → has (last c.addr xs) (c ∷ xs) ≡ true
has-last c [] = ground arith
has-last c (d ∷ xs) = ground (arith, has-last d xs)

pub ne_of_has : (a b : ℕ) (xs : List Cell) → has a xs ≡ false → has b xs ≡ true → a ≢ b
ne_of_has a b xs o i e = let i' : has a xs ≡ true = rw e i in cc

-- A list that may be brought to any starting point has its cells distinct wherever it starts.
pub Distinct-snoc :
    (xs : List Cell) (c : Cell) → Distinct xs → has c.addr xs ≡ false → Distinct (xs ++ c ∷ [])
Distinct-snoc [] c d o = (refl, tt)
Distinct-snoc (x ∷ xs) c d o =
    (ground (arith, has-append x.addr xs (c ∷ [])), Distinct-snoc xs c d.1 (ground arith))

pub Distinct-rotate : (c : Cell) (xs : List Cell) → Distinct (c ∷ xs) → Distinct (xs ++ c ∷ [])
Distinct-rotate c xs d = Distinct-snoc xs c d.1 d.0

-- A cell of the list splits it.
pub record Split (a : ℕ) (xs : List Cell) : Type 0 where
  pub before : List Cell
  pub cell : Cell
  pub after : List Cell
  pub whole : xs ≡ before ++ cell ∷ after
  pub here : cell.addr ≡ a
  pub rest : delete a xs ≡ before ++ after
  pub apart : has a before ≡ false

Split-there :
    (a : ℕ) (c : Cell) (xs : List Cell) → (c.addr == a) ≡ false → Split a xs → Split a (c ∷ xs)
unfolding delete
Split-there a c xs e s = record {
  before = c ∷ s.before;
  cell = s.cell;
  after = s.after;
  whole = ap (λ l. c ∷ l) s.whole;
  here = s.here;
  rest = rw e (ap (λ l. c ∷ l) s.rest);
  apart = ground (arith, s.apart);
}

Split-here : (a : ℕ) (c : Cell) (xs : List Cell) → (c.addr == a) ≡ true → Split a (c ∷ xs)
unfolding delete
Split-here a c xs e = record {
  before = [];
  cell = c;
  after = xs;
  whole = refl;
  here = ground arith;
  rest = rw e refl;
  apart = refl;
}

pub has-Split : (a : ℕ) (xs : List Cell) → has a xs ≡ true → Split a xs
has-Split a [] h = absurd (cc)
has-Split a (c ∷ xs) h = elim (Bool-cases (c.addr == a)) [
  | inl e ↦ Split-here a c xs e
  | inr e ↦ Split-there a c xs e (has-Split a xs (ground arith))
]

pub has_swap : (a : ℕ) (xs ys : List Cell) → has a (xs ++ ys) ≡ has a (ys ++ xs)
has_swap a xs ys = ground (arith, has-append a xs ys, has-append a ys xs)

pub Distinct-turn : (ys zs : List Cell) → Distinct (ys ++ zs) → Distinct (zs ++ ys)
Distinct-turn [] zs d = rw (append-nil zs) d
Distinct-turn (c ∷ ys) zs d = subst Distinct (append_assoc zs (c ∷ []) ys) (
    Distinct-turn ys (zs ++ c ∷ [])
      (subst Distinct (append_assoc ys zs (c ∷ [])) (Distinct-rotate c (ys ++ zs) d)))

pub has_middle :
    (a : ℕ) (xs : List Cell) (c : Cell) (ys : List Cell)
    → has a (xs ++ c ∷ ys) ≡ ((a == c.addr) || has a (xs ++ ys))
has_middle a [] c ys = refl
has_middle a (x ∷ xs) c ys = ground (arith, has_middle a xs c ys)

pub length_middle :
    (xs : List Cell) (c : Cell) (ys : List Cell) → length (xs ++ c ∷ ys) ≡ suc (length (xs ++ ys))
length_middle [] c ys = refl
length_middle (x ∷ xs) c ys = ap suc (length_middle xs c ys)
