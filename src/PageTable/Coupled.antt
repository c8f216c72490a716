-- ===== src/PageTable/Coupled.antt =====
-- The cache ring and the page table point at one another.
use memory_tiering.Base.{
  ℕ, ◌≡◌, ◌≢◌, subst, false, Option, some, List, [], ◌∷◌, ◌++◌, append_assoc, arith, Bool-cases,
  inl, inr,
}
use memory_tiering.Common.{numa_local}
use memory_tiering.ClockRing.{nullptr}
use memory_tiering.ClockRing.Cells.{
  Cell, has, Distinct, with_ref, evict, evict_first, Distinct-rotate,
}
use memory_tiering.PageTable.Entries.{PageTableEntry, Table, find}

-- The entry of the page that a node is for.
pub record EntryOf (t : Table) (page_id addr : ℕ) : Type 0 where
  pub entry : PageTableEntry
  pub found : find page_id t ≡ some entry
  pub local : entry.page_layer ≡ numa_local
  pub node : entry.ring_node_ptr ≡ addr
  pub not_null : addr ≢ nullptr

-- Each node is for a page of the local layer, whose entry points back at it.
abbrev pub Coupled : Table → List Cell → Type 0
Coupled t [] = Unit {0}
Coupled t (c ∷ xs) = EntryOf t c.page_id c.addr × Coupled t xs

pub Coupled-snoc :
    (t : Table) (xs : List Cell) (c : Cell)
    → Coupled t xs
    → EntryOf t c.page_id c.addr
    → Coupled t (xs ++ c ∷ [])
Coupled-snoc t [] c k e = (e, tt)
Coupled-snoc t (x ∷ xs) c k e = (k.0, Coupled-snoc t xs c k.1 e)

-- The page that an eviction chooses, with the node that it had and the ring has no longer.
pub record Victim (t : Table) (page_id : ℕ) (cells : List Cell) : Type 0 where
  pub addr : ℕ
  pub of : EntryOf t page_id addr
  pub gone : has addr cells ≡ false

Victim-of :
    (t : Table) (c : Cell) (rest : List Cell) (page_id : ℕ) (cells : List Cell)
    → EntryOf t c.page_id c.addr
    → has c.addr rest ≡ false
    → ◌≡◌ {A = Option (ℕ × List Cell)} (some (c.page_id, rest)) (some (page_id, cells))
    → Victim t page_id cells
Victim-of t c rest page_id cells e o q =
    let p : c.page_id ≡ page_id = ground arith in
    let l : rest ≡ cells = ground arith in
    record {
      addr = c.addr;
      of = subst (λ k. EntryOf t k c.addr) p e;
      gone = subst (λ k. has c.addr k ≡ false) l o;
    }

pub evict-Victim :
    (t : Table) (xs seen : List Cell) (page_id : ℕ) (cells : List Cell)
    → Coupled t xs
    → Coupled t seen
    → Distinct (xs ++ seen)
    → evict xs seen ≡ some (page_id, cells)
    → Victim t page_id cells
unfolding evict evict_first
evict-Victim t [] [] page_id cells k s d h = absurd (cc)
evict-Victim t [] (c ∷ seen) page_id cells k s d h = Victim-of t c seen page_id cells s.0 d.0 h
evict-Victim t (c ∷ xs) seen page_id cells k s d h = elim (Bool-cases c.ref_bit) [
  | inl e ↦
      evict-Victim t xs (seen ++ with_ref c false ∷ []) page_id cells k.1
        (Coupled-snoc t seen (with_ref c false) s k.0)
        (subst Distinct (append_assoc xs seen (with_ref c false ∷ []))
          (Distinct-rotate (with_ref c false) (xs ++ seen) d))
        (rw e at h)
  | inr e ↦ Victim-of t c (xs ++ seen) page_id cells k.0 d.0 (rw e at h)
]
