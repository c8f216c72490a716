-- ===== src/Server/Pages.antt =====
-- The page ids of different clients do not overlap.
use memory_tiering.Base.{
  ℕ, zero, suc, ◌+◌, ◌^◌, ◌<◌, ◌≤◌, ◌≡◌, sym, some, List, [], ◌∷◌, arith, add64, get_elem?,
  Option-cases, Bool-cases, ◌==◌, ◌||◌, inl, inr, trichotomy,
}
use mathlib.Core.Option.{some-injective}
use memory_tiering.Common.{ClientConfig}
use memory_tiering.Server.{client_pages, base_page_ids, create_base_page_id}

module _ {F : Type 0} (num_tiers : ℕ) where
  -- The pages of the clients from `t` on add up to less than 2^64.
  abbrev pub NoWrap : ℕ → List (ClientConfig F) → Type 0
  NoWrap t [] = t < 2 ^ 64
  NoWrap t (c ∷ clients) = (n : ℕ) × (client_pages num_tiers c ≡ some n) × NoWrap (t + n) clients

  NoWrap-lt : (t : ℕ) (clients : List (ClientConfig F)) → NoWrap t clients → t < 2 ^ 64
  NoWrap-lt t [] h = h
  NoWrap-lt t (c ∷ clients) (n, e, h) = omega (arith, NoWrap-lt (t + n) clients h)

  pub ids_cons :
      (t n : ℕ) (c : ClientConfig F) (clients : List (ClientConfig F)) {ids : List ℕ}
      → client_pages num_tiers c ≡ some n
      → add64 t n ≡ t + n
      → base_page_ids num_tiers t (c ∷ clients) ≡ some ids
      → (rest : List ℕ) × (base_page_ids num_tiers (t + n) clients ≡ some rest) × (ids ≡ t ∷ rest)
  unfolding base_page_ids
  ids_cons t n c clients {ids} e w h =
      elim (Option-cases (base_page_ids num_tiers (t + n) clients)) [
        | inl o ↦ absurd (ground (arith, w))
        | inr (rest, o) ↦ (rest, o, ground (arith, w))
      ]

  -- The ranges of clients numbered from `t` on: above `t`, within a machine word, and one behind the
  -- other.
  range_bounds :
      (t : ℕ) (clients : List (ClientConfig F)) (ids : List ℕ) (i base size : ℕ)
      (c : ClientConfig F)
      → NoWrap t clients
      → base_page_ids num_tiers t clients ≡ some ids
      → get_elem? clients i ≡ some c
      → get_elem? ids i ≡ some base
      → client_pages num_tiers c ≡ some size
      → (t ≤ base) × (base + size < 2 ^ 64)
  range_bounds t [] ids i base size c w h e e' e'' = absurd (cc)
  range_bounds t (d ∷ clients) ids zero base size c (n, z, w) h e e' e'' =
      let b = NoWrap-lt (t + n) clients w in
      let (rest, o, q) = ids_cons t n d clients z (omega arith) h in
      let base_eq : t ≡ base = ground arith in
      let same : some n ≡ some size = ground arith in
      let size_eq : n ≡ size = ground arith in (omega arith, omega arith)
  range_bounds t (d ∷ clients) ids (suc i) base size c (n, z, w) h e e' e'' =
      let b = NoWrap-lt (t + n) clients w in
      let (rest, o, q) = ids_cons t n d clients z (omega arith) h in
      let (lo, hi) = range_bounds (t + n) clients rest i base size c w o e (rw q at e') e'' in
      (omega arith, hi)

  ranges_ordered :
      (t : ℕ) (clients : List (ClientConfig F)) (ids : List ℕ) (i j base size base' size' : ℕ)
      (c c' : ClientConfig F)
      → NoWrap t clients
      → base_page_ids num_tiers t clients ≡ some ids
      → i < j
      → get_elem? clients i ≡ some c
      → get_elem? ids i ≡ some base
      → client_pages num_tiers c ≡ some size
      → get_elem? clients j ≡ some c'
      → get_elem? ids j ≡ some base'
      → client_pages num_tiers c' ≡ some size'
      → base + size ≤ base'
  ranges_ordered t [] ids i j base size base' size' c c' w h lt a b s a' b' s' = absurd (cc)
  ranges_ordered t (d ∷ clients) ids i zero base size base' size' c c' w h lt a b s a' b' s' =
      absurd (omega arith)
  ranges_ordered t (d ∷ clients) ids zero (suc j) base size base' size' c c' (n, z, w) h lt a b s a'
        b' s' =
      let small = NoWrap-lt (t + n) clients w in
      let (rest, o, q) = ids_cons t n d clients z (omega arith) h in
      let base_eq : t ≡ base = ground arith in
      let size_eq : n ≡ size = ground arith in
      let (lo, hi) = range_bounds (t + n) clients rest j base' size' c' w o a' (rw q at b') s' in
      omega arith
  ranges_ordered t (d ∷ clients) ids (suc i) (suc j) base size base' size' c c' (n, z, w) h lt a b s
        a' b' s' =
      let small = NoWrap-lt (t + n) clients w in
      let (rest, o, q) = ids_cons t n d clients z (omega arith) h in
      ranges_ordered (t + n) clients rest i j base size base' size' c c' w o (omega arith) a
        (rw q at b) s a' (rw q at b') s'

  base_page_ids_disjoint :
      (clients : List (ClientConfig F)) (ids : List ℕ) (i j base size base' size' pid pid' : ℕ)
      (c c' : ClientConfig F)
      → NoWrap 0 clients
      → base_page_ids num_tiers 0 clients ≡ some ids
      → get_elem? clients i ≡ some c
      → get_elem? ids i ≡ some base
      → client_pages num_tiers c ≡ some size
      → get_elem? clients j ≡ some c'
      → get_elem? ids j ≡ some base'
      → client_pages num_tiers c' ≡ some size'
      → pid < size
      → pid' < size'
      → add64 base pid ≡ add64 base' pid'
      → (i ≡ j) × (pid ≡ pid')
  base_page_ids_disjoint clients ids i j base size base' size' pid pid' c c' w h a b s a' b' s' p p'
        e =
      let (lo, hi) = range_bounds 0 clients ids i base size c w h a b s in
      let (lo', hi') = range_bounds 0 clients ids j base' size' c' w h a' b' s' in
      let sum : base + pid ≡ base' + pid' = omega (arith, e) in
      elim (trichotomy i j) [
        | inl lt ↦
            let o =
              ranges_ordered 0 clients ids i j base size base' size' c c' w h lt a b s a' b' s' in
            absurd (omega arith)
        | inr (inl q) ↦
            let same : some base ≡ some base' = cc in
            let same_base : base ≡ base' = ground arith in (q, omega arith)
        | inr (inr lt) ↦
            let o =
              ranges_ordered 0 clients ids j i base' size' base size c' c w h lt a' b' s' a b s in
            absurd (omega arith)
      ]

  -- With fewer than 2^64 pages in all, the i-th client's page ids are a block of its own: if the page
  -- id of message page `pid` of client i and that of page `pid'` of client j are one, with `pid` and
  -- `pid'` below the clients' numbers of pages, then i is j and `pid` is `pid'`.
  pub create_base_page_id-disjoint :
      (clients : List (ClientConfig F)) (ids : List ℕ) (i j base size base' size' pid pid' : ℕ)
      (c c' : ClientConfig F)
      → NoWrap 0 clients
      → create_base_page_id num_tiers clients ≡ some ids
      → get_elem? clients i ≡ some c
      → get_elem? ids i ≡ some base
      → client_pages num_tiers c ≡ some size
      → get_elem? clients j ≡ some c'
      → get_elem? ids j ≡ some base'
      → client_pages num_tiers c' ≡ some size'
      → pid < size
      → pid' < size'
      → add64 base pid ≡ add64 base' pid'
      → (i ≡ j) × (pid ≡ pid')
  unfolding create_base_page_id
  create_base_page_id-disjoint clients ids i j base size base' size' pid pid' c c' w h a b s a' b'
        s' p p' e =
      elim (Bool-cases (num_tiers == 2 || num_tiers == 3)) [
        | inl k ↦
            base_page_ids_disjoint clients ids i j base size base' size' pid pid' c c' w (rw k at h)
              a b s a' b' s' p p' e
        | inr k ↦ absurd (
            let none_yet = some-injective _ _ (rw k at h) in
            let none_there = rw (sym none_yet) at b in cc)
      ]
