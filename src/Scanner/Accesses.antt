-- ===== src/Scanner/Accesses.antt =====
-- An access and the invariant of the scanner: the manager's thread does not break what the scanner
-- relies on.
use memory_tiering.Base.{
  ℕ, ◌≡◌, refl, sym, ap, ◌∙◌, some, arith, ◌==◌, Bool-cases, Option-cases, inl, inr, eq_of_==,
  ne_of_==,
}
use mathlib.Core.Option.{some-injective}
use memory_tiering.Base.Run.{Returns, Returns-mono, Returns-ok}
use memory_tiering.Machine.{Machine}
use memory_tiering.PageTable.{World, access_page_of, accessed}
use memory_tiering.PageTable.Entries.{PageTableEntry, find}
use memory_tiering.PageTable.Access.{
  Accesses, access_absent, access_page_of-Accesses, Accesses-IsConsistent,
}
use memory_tiering.Scanner.Invariant.{Inv, KeepsTiers}

module _ (num_tiers : ℕ) (machine : Machine) (page_id : ℕ) (w : World) where
  accessed_tiers :
      (e : PageTableEntry) (w' : World)
      → Accesses machine w page_id e w'
      → find page_id w.table ≡ some e
      → KeepsTiers num_tiers w
      → KeepsTiers num_tiers w'
  accessed_tiers e w' a found keeps two i d at = elim (Bool-cases (page_id == i)) [
    | inl q ↦
        let here : find page_id w'.table ≡ some d =
          ap (λ k. find k w'.table) (eq_of_== page_id i q) ∙ at in
        let same : accessed a.now e ≡ d =
          some-injective (accessed a.now e) d (sym a.noted ∙ here) in
        λ z. keeps two page_id e found (ap (λ x. x.page_layer) same ∙ z)
    | inr ne ↦ keeps two i d (sym (a.others i (ne_of_== page_id i ne)) ∙ at)
  ]

  accessed_world :
      (e : PageTableEntry) (w' : World)
      → Accesses machine w page_id e w'
      → find page_id w.table ≡ some e
      → Inv num_tiers w
      → Inv num_tiers w'
  accessed_world e w' a found v = record {
    off = a.same_enabled ∙ v.off;
    consistent = Accesses-IsConsistent machine w page_id e w' a v.consistent;
    index = omega (arith, a.same_scan_index, a.same_size, v.index);
    small = omega (arith, a.same_size, v.small);
    tiers = accessed_tiers e w' a found v.tiers;
  }

  -- An access returns, whether or not there is such a page, and keeps the scanner's invariant.
  pub access-Inv :
      Inv num_tiers w → Returns (λ u w'. Inv num_tiers w') (access_page_of machine page_id w)
  access-Inv v = elim (Option-cases (find page_id w.table)) [
    | inl absent ↦ Returns-ok tt w (access_absent machine page_id w absent) v
    | inr (e, found) ↦
        Returns-mono (access_page_of-Accesses machine page_id w e found (rw v.off refl))
          λ u w' a. accessed_world e w' a found v
  ]
