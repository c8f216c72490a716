-- ===== src/PageTable/Scan.antt =====
-- `scanNext` goes round the table: each page in turn, and then again from the first.
use memory_tiering.Base.{
  ℕ, zero, suc, ◌+◌, ◌%◌, ◌^◌, ◌<◌, ◌≡◌, ap, ◌∙◌, List, [], ◌∷◌, some, arith, length, get_elem?,
}
use native.Mathlib.Nat.{mod-eq_of_lt, mod-add-mod, mod-eq-sub-mod}
use memory_tiering.Base.Run.{ok, Run}
use memory_tiering.PageTable.{World, scan_next}

abbrev pub at_index : World → ℕ → World
at_index w i = record w { scan_index = i }

-- The pages that `n` calls of `scanNext` in a row return.
unfoldable pub scanned : ℕ → World → List ℕ
scanned zero w = []
scanned (suc n) w = elim (scan_next w) [ ok k w' ↦ k ∷ scanned n w' | _ ↦ [] ]

scan_next-mod :
    (w : World)
    → w.scan_index < length w.table
    → length w.table < 2 ^ 64
    → scan_next w ≡ ok w.scan_index (at_index w ((w.scan_index + 1) % length w.table))
unfolding scan_next
scan_next-mod w lt small =
    ap (λ i. ok w.scan_index (at_index w i))
      (ground (
        arith,
        mod-eq_of_lt {n = w.scan_index + 1} {m = length w.table},
        mod-eq-sub-mod {n = w.scan_index + 1} {m = length w.table},
      ))

scanned-suc :
    (n : ℕ) (w : World)
    → w.scan_index < length w.table
    → length w.table < 2 ^ 64
    → scanned (suc n) w
      ≡ w.scan_index ∷ scanned n (at_index w ((w.scan_index + 1) % length w.table))
unfolding scanned
scanned-suc n w lt small =
    ap (λ (r : Run World ℕ). elim r [ ok k w' ↦ k ∷ scanned n w' | _ ↦ [] ])
      (scan_next-mod w lt small)

-- With the index in range and fewer than 2^64 pages, the j-th of any number of calls in a row returns the page j places on, counting round the table.
pub scanned_round :
    (n j : ℕ) (w : World)
    → w.scan_index < length w.table
    → length w.table < 2 ^ 64
    → j < n
    → get_elem? (scanned n w) j ≡ some ((w.scan_index + j) % length w.table)
scanned_round zero j w lt small h = absurd (omega arith)
scanned_round (suc n) zero w lt small h = rw (scanned-suc n w lt small) (
    ap some (omega (arith, mod-eq_of_lt {n = w.scan_index + 0} {m = length w.table} (omega arith))))
scanned_round (suc n) (suc j) w lt small h = rw (scanned-suc n w lt small) (
    scanned_round n j (at_index w ((w.scan_index + 1) % length w.table)) (omega arith) small
      (omega arith)
    ∙ ap some (rw mod-add-mod (ap (λ k. k % length w.table) (omega arith))))
