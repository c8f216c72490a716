-- ===== src/PageTable/Ringed.antt =====
-- The cache ring and the page table in step: each page of the local layer has its node. An access
-- keeps them so.
use memory_tiering.Base.{
  ℕ, ◌≡◌, ◌≢◌, refl, sym, ap, ◌∙◌, Bool, true, false, ◌&&◌, ◌||◌, some, List, [], ◌∷◌, arith, ◌==◌,
  Bool-cases, inl, inr, eq_of_==, ne_of_==,
}
use mathlib.Core.Option.{some-injective}
use memory_tiering.Common.{numa_local}
use memory_tiering.ClockRing.{ClockRing, Ptr}
use memory_tiering.ClockRing.Cells.{Cell, has, mark}
use memory_tiering.ClockRing.Ring.{IsRing}
use memory_tiering.PageTable.{World}
use memory_tiering.PageTable.Entries.{PageTableEntry, Table, find}
use memory_tiering.PageTable.Coupled.{Coupled, EntryOf}

-- There is a node at the address, and it is for the page.
unfoldable pub places : (page_id : ℕ) → (addr : Ptr) → List Cell → Bool
places page_id addr [] = false
places page_id addr (c ∷ xs) = (addr == c.addr && page_id == c.page_id) || places page_id addr xs

pub has-places : (i : ℕ) (a : Ptr) (xs : List Cell) → places i a xs ≡ true → has a xs ≡ true
unfolding places
has-places i a [] h = absurd (cc)
has-places i a (c ∷ xs) h = ground (arith, has-places i a xs)

pub places-mark : (i : ℕ) (a p : Ptr) (xs : List Cell) → places i a (mark p xs) ≡ places i a xs
unfolding places mark
places-mark i a p [] = refl
places-mark i a p (c ∷ xs) = ground (arith, places-mark i a p xs)

pub Coupled-mark : (t : Table) (p : Ptr) (xs : List Cell) → Coupled t xs → Coupled t (mark p xs)
unfolding mark
Coupled-mark t p [] k = tt
Coupled-mark t p (c ∷ xs) (e, k) = elim (Bool-cases (c.addr == p)) [
  | inl q ↦ rw q (e, k)
  | inr q ↦ rw q (e, Coupled-mark t p xs k)
]

-- With the ring on: its nodes are for pages of the local layer, whose entries point back, and each page
-- of this layer has its node.
pub record Ringed (w : World) (xs : List Cell) : Type 0 where
  pub on : w.enable_cache_ring ≡ true
  pub ring : ClockRing
  pub held : w.local_cache_ring ≡ some ring
  pub is : IsRing ring xs
  pub coupled : Coupled w.table xs
  pub every :
      (i : ℕ) (e : PageTableEntry)
      → find i w.table ≡ some e
      → e.page_layer ≡ numa_local
      → places i e.ring_node_ptr xs ≡ true

-- An entry changes, but neither its layer nor its node.
module _ (t t' : Table) (k : ℕ) (e d : PageTableEntry) (found : find k t ≡ some e)
    (written : find k t' ≡ some d) (same_layer : d.page_layer ≡ e.page_layer)
    (same_node : d.ring_node_ptr ≡ e.ring_node_ptr)
    (others : (i : ℕ) → k ≢ i → find i t' ≡ find i t) where
  EntryOf-written : (i : ℕ) (a : Ptr) → EntryOf t i a → EntryOf t' i a
  EntryOf-written i a o = elim (Bool-cases (k == i)) [
    | inl q ↦
        let at : find k t ≡ some o.entry = ap (λ j. find j t) (eq_of_== k i q) ∙ o.found in
        let same : e ≡ o.entry = some-injective e o.entry (sym found ∙ at) in
        record {
          entry = d;
          found = ap (λ j. find j t') (sym (eq_of_== k i q)) ∙ written;
          local = same_layer ∙ ap (λ x. x.page_layer) same ∙ o.local;
          node = same_node ∙ ap (λ x. x.ring_node_ptr) same ∙ o.node;
          not_null = o.not_null;
        }
    | inr q ↦ record {
      entry = o.entry;
      found = others i (ne_of_== k i q) ∙ o.found;
      local = o.local;
      node = o.node;
      not_null = o.not_null;
    }
  ]

  pub Coupled-written : (xs : List Cell) → Coupled t xs → Coupled t' xs
  Coupled-written [] h = tt
  Coupled-written (c ∷ xs) (o, h) = (EntryOf-written c.page_id c.addr o, Coupled-written xs h)

  pub every-written :
      (xs : List Cell)
      → ((i : ℕ) (x : PageTableEntry)
          → find i t ≡ some x
          → x.page_layer ≡ numa_local
          → places i x.ring_node_ptr xs ≡ true)
      → (i : ℕ) (x : PageTableEntry) → find i t' ≡ some x
      → x.page_layer ≡ numa_local
      → places i x.ring_node_ptr xs ≡ true
  every-written xs all i x at local = elim (Bool-cases (k == i)) [
    | inl q ↦
        let here : find k t' ≡ some x = ap (λ j. find j t') (eq_of_== k i q) ∙ at in
        let same : d ≡ x = some-injective d x (sym written ∙ here) in
        let p : places k e.ring_node_ptr xs ≡ true =
          all k e found (sym same_layer ∙ ap (λ y. y.page_layer) same ∙ local) in
        ap (λ a. places i a xs) (ap (λ y. y.ring_node_ptr) (sym same) ∙ same_node)
        ∙ ap (λ j. places j e.ring_node_ptr xs) (sym (eq_of_== k i q))
        ∙ p
    | inr q ↦ all i x (sym (others i (ne_of_== k i q)) ∙ at) local
  ]
