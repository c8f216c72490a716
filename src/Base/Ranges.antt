-- ===== src/Base/Ranges.antt =====
-- Mappings of memory, each with its address and its length in bytes, and how often one occurs.
use memory_tiering.Base.{
  ℕ, ◌+◌, ◌<◌, ◌≡◌, refl, ap, true, Bool, List, [], ◌∷◌, ◌++◌, ◌==◌, ◌&&◌, if◌then◌else◌, arith,
  Bool-cases, inl, inr, ==-true, eq_of_==,
}

abbrev pub same_map : ℕ × ℕ → ℕ × ℕ → Bool
same_map (a, n) (b, m) = (a == b) && (n == m)

abbrev pub unmap : ℕ × ℕ → List (ℕ × ℕ) → List (ℕ × ℕ)
unmap x [] = []
unmap x (y ∷ ys) = let rest = unmap x ys in if same_map x y then ys else y ∷ rest

-- How often a mapping occurs.
unfoldable pub times : ℕ × ℕ → List (ℕ × ℕ) → ℕ
times x [] = 0
times x (y ∷ ys) = (if same_map x y then 1 else 0) + times x ys

pub times-append : (x : ℕ × ℕ) (ys zs : List (ℕ × ℕ)) → times x (ys ++ zs) ≡ times x ys + times x zs
unfolding times
times-append x [] zs = omega arith
times-append x (y ∷ ys) zs = omega (arith, times-append x ys zs)

eq_of_same_map : (x y : ℕ × ℕ) → same_map x y ≡ true → x ≡ y
eq_of_same_map (a, n) (b, m) h =
    let left : a ≡ b = eq_of_== a b (ground arith) in
    let right : n ≡ m = eq_of_== n m (ground arith) in rw (left, right) refl

pub same_map_refl : (x : ℕ × ℕ) → same_map x x ≡ true
same_map_refl (a, n) = rw (==-true a a refl, ==-true n n refl) refl

pub times-unmap :
    (x y : ℕ × ℕ) (zs : List (ℕ × ℕ))
    → 0 < times y zs
    → (if same_map x y then 1 else 0) + times x (unmap y zs) ≡ times x zs
unfolding times
times-unmap x y [] h = absurd (omega (arith, h))
times-unmap x y (z ∷ zs) h = elim (Bool-cases (same_map y z)) [
  | inl e ↦
      let same = eq_of_same_map y z e in
      rw e (ap (λ w. (if same_map x w then 1 else 0) + times x zs) same)
  | inr e ↦ let rest = times-unmap x y zs (ground (arith, h)) in rw e (omega (arith, rest))
]
