-- ===== src/PageTable/Deleted.antt =====
-- The ring and the page table when a node is taken out of the ring.
use memory_tiering.Base.{
  ℕ, ◌≡◌, ◌≢◌, refl, sym, ap, ◌∙◌, subst, true, false, some, List, [], ◌∷◌, arith, ◌==◌, Bool-cases,
  inl, inr, eq_of_==, ne_of_==, ==-false,
}
use mathlib.Core.Option.{some-injective}
use memory_tiering.ClockRing.{Ptr, nullptr}
use memory_tiering.ClockRing.Cells.{Cell, has, Distinct, delete}
use memory_tiering.PageTable.Entries.{PageTableEntry, Table, find}
use memory_tiering.PageTable.Coupled.{Coupled}
use memory_tiering.PageTable.Ringed.{places, has-places}

-- A node taken out of a list of nodes.
pub has-delete_self : (p : Ptr) (xs : List Cell) → Distinct xs → has p (delete p xs) ≡ false
unfolding delete
has-delete_self p [] d = refl
has-delete_self p (c ∷ xs) d = elim (Bool-cases (c.addr == p)) [
  | inl q ↦ rw q (subst (λ a. has a xs ≡ false) (eq_of_== c.addr p q) d.0)
  | inr q ↦
      let other : (p == c.addr) ≡ false = ==-false p c.addr (λ z. ne_of_== c.addr p q (sym z)) in
      rw q (rw other (has-delete_self p xs d.1))
]

pub places-delete :
    (i : ℕ) (a p : Ptr) (xs : List Cell) → a ≢ p → places i a (delete p xs) ≡ places i a xs
unfolding places delete
places-delete i a p [] ne = refl
places-delete i a p (c ∷ xs) ne = ground (arith, places-delete i a p xs ne)

-- An address is that of one page.
pub places_unique :
    (i j : ℕ) (a : Ptr) (xs : List Cell)
    → Distinct xs
    → places i a xs ≡ true
    → places j a xs ≡ true
    → i ≡ j
unfolding places
places_unique i j a [] d h k = absurd (cc)
places_unique i j a (c ∷ xs) d h k = elim (Bool-cases (a == c.addr)) [
  | inl q ↦
      let alone : has a xs ≡ false =
        subst (λ x. has x xs ≡ false) (sym (eq_of_== a c.addr q)) d.0 in
      ground (arith, has-places i a xs, has-places j a xs)
  | inr q ↦ places_unique i j a xs d.1 (ground arith) (ground arith)
]

pub Coupled-delete : (t : Table) (p : Ptr) (xs : List Cell) → Coupled t xs → Coupled t (delete p xs)
unfolding delete
Coupled-delete t p [] k = tt
Coupled-delete t p (c ∷ xs) (e, k) = elim (Bool-cases (c.addr == p)) [
  | inl q ↦ rw q k
  | inr q ↦ rw q (e, Coupled-delete t p xs k)
]

-- The entry of a page without a node changes.
pub Coupled-others :
    (t t' : Table) (k : ℕ) (e : PageTableEntry) (xs : List Cell)
    → find k t ≡ some e
    → has e.ring_node_ptr xs ≡ false
    → ((i : ℕ) → k ≢ i → find i t' ≡ find i t)
    → Coupled t xs
    → Coupled t' xs
Coupled-others t t' k e [] found gone others h = tt
Coupled-others t t' k e (c ∷ xs) found gone others (o, h) = (
  record {
    entry = o.entry;
    found = others c.page_id apart ∙ o.found;
    local = o.local;
    node = o.node;
    not_null = o.not_null;
  },
  Coupled-others t t' k e xs found (ground arith) others h,
)
  where
    apart : k ≢ c.page_id
    apart z =
        let same : e ≡ o.entry =
          some-injective e o.entry (sym found ∙ ap (λ j. find j t) z ∙ o.found) in
        let at : e.ring_node_ptr ≡ c.addr = ap (λ x. x.ring_node_ptr) same ∙ o.node in
        absurd (ground arith)

pub has_not_null :
    (t : Table) (a : Ptr) (xs : List Cell) → Coupled t xs → has a xs ≡ true → a ≢ nullptr
has_not_null t a [] k h = absurd (cc)
has_not_null t a (c ∷ xs) (o, k) h = elim (Bool-cases (a == c.addr)) [
  | inl q ↦ λ z. o.not_null (sym (eq_of_== a c.addr q) ∙ z)
  | inr q ↦ has_not_null t a xs k (ground arith)
]
