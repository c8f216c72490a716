-- ===== src/Bench/Instructions.antt =====
-- The instructions that the benchmark measures touch its own memory only, and the advice on huge pages
-- is on whole huge pages.
use memory_tiering.Base.{
  ℕ, zero, suc, ◌+◌, ◌*◌, ◌/◌, ◌%◌, ◌^◌, ◌≤◌, ◌<◌, ◌≡◌, refl, sym, ap, ◌∙◌, true, List, [], ◌∷◌,
  ◌++◌, append_assoc, append-nil, ltb, arith, add64,
}
use native.Mathlib.Nat.{mod-lt}
use memory_tiering.Base.Run.{Returns, returns, Returns-bind, Returns-mono, and_then}
use memory_tiering.Bench.{
  Sys, Process, Instruction, load, store, ntstore, clflush, clflushopt, clwb, mfence, lfence,
  get_time_ns, run,
}
use memory_tiering.Bench.Memory.{huge_page_size, align_down, huge_range}
use memory_tiering.Bench.Access.{
  MemAccessMode, read, write_normal, write_ntstore, write_clflush, write_clflushopt, write_clwb,
  words, to_int, to_size, access_addr, access_by, measure, measure_all,
}
use memory_tiering.Bench.Ops.{offset_of, random_offsets}

-- The 8 bytes at an address lie between `lo` and `hi`.
abbrev pub Touches : (lo hi : ℕ) → Instruction → Type 0
Touches lo hi (load a) = (lo ≤ a) × (a + 8 ≤ hi)
Touches lo hi (store a v) = (lo ≤ a) × (a + 8 ≤ hi)
Touches lo hi (ntstore a v) = (lo ≤ a) × (a + 8 ≤ hi)
Touches lo hi (clflush a) = (lo ≤ a) × (a + 8 ≤ hi)
Touches lo hi (clflushopt a) = (lo ≤ a) × (a + 8 ≤ hi)
Touches lo hi (clwb a) = (lo ≤ a) × (a + 8 ≤ hi)
Touches lo hi mfence = Unit
Touches lo hi lfence = Unit

abbrev pub AllIn : (lo hi : ℕ) → List Instruction → Type 0
AllIn lo hi [] = Unit
AllIn lo hi (i ∷ is) = Touches lo hi i × AllIn lo hi is

AllIn-append :
    (lo hi : ℕ) (xs ys : List Instruction)
    → AllIn lo hi xs
    → AllIn lo hi ys
    → AllIn lo hi (xs ++ ys)
AllIn-append lo hi [] ys h k = k
AllIn-append lo hi (x ∷ xs) ys h k = (h.0, AllIn-append lo hi xs ys h.1 k)

access_by-AllIn :
    (lo hi a : ℕ) (mode : MemAccessMode) → (lo ≤ a) × (a + 8 ≤ hi) → AllIn lo hi (access_by mode a)
unfolding access_by
access_by-AllIn lo hi a read h = (h, tt)
access_by-AllIn lo hi a write_normal h = (h, tt)
access_by-AllIn lo hi a write_ntstore h = (h, tt)
access_by-AllIn lo hi a write_clflush h = (h, (h, tt))
access_by-AllIn lo hi a write_clflushopt h = (h, (h, tt))
access_by-AllIn lo hi a write_clwb h = (h, (h, tt))

small_int : (x : ℕ) → x < 2 ^ 31 → to_size (to_int x) ≡ x
small_int x h =
    let same : x % 2 ^ 32 ≡ x = omega (arith, h) in
    let small : ltb x (2 ^ 31) ≡ true = ground arith in rw (same, small) refl

small_size : (x : ℕ) → x < 2 ^ 31 → to_size x ≡ x
small_size x h = let small : ltb x (2 ^ 31) ≡ true = ground arith in rw small refl

-- The address of a word is its own.
access_addr_lem :
    (addr offset page_num : ℕ)
    → offset < page_num * words
    → page_num * words ≤ 2 ^ 31
    → addr + page_num * 4096 ≤ 2 ^ 64
    → access_addr addr offset ≡ addr + 8 * offset
unfolding access_addr
access_addr_lem addr offset page_num h small fits =
    ap
      (λ x.
        add64 addr
          ((8 * (to_size (to_int (x / words)) * words + to_size (to_int (x % words)))) % 2 ^ 64))
      (small_size offset (omega (arith, h, small)))
    ∙ ap (λ x. add64 addr ((8 * (x * words + to_size (to_int (offset % words)))) % 2 ^ 64))
        (small_int (offset / words) (omega (arith, h, small)))
    ∙ ap (λ x. add64 addr ((8 * (offset / words * words + x)) % 2 ^ 64))
        (small_int (offset % words) (omega (arith, h, small)))
    ∙ omega (arith, h, small, fits)

abbrev AllBelow : ℕ → List ℕ → Type 0
AllBelow n [] = Unit
AllBelow n (o ∷ offsets) = (o < n) × AllBelow n offsets

-- Every random word is one of the pages'.
offset_of-lt :
    (page_num page offset : ℕ)
    → 0 < page_num
    → page_num * words ≤ 2 ^ 31
    → offset_of page_num page offset < page_num * words
unfolding offset_of
offset_of-lt page_num page offset pos small = omega (arith, mod-lt page {m = page_num} pos, small)

module _ (sys : Sys) (page_num : ℕ) (pos : 0 < page_num) (small : page_num * words ≤ 2 ^ 31) where
  -- Choosing the words measures nothing.
  random_offsets-AllBelow :
      (number : ℕ) (t : Process)
      → Returns
          (λ l t'. AllBelow (page_num * words) l × (t'.instructions ≡ t.instructions))
          (random_offsets sys true page_num number t)
  unfolding random_offsets
  random_offsets-AllBelow zero t = returns (tt, refl)
  random_offsets-AllBelow (suc number) t =
      Returns-bind (random_offsets-AllBelow number _)
        (λ l t' (h, same). returns ((offset_of-lt page_num _ _ pos small, h), same))

  module _ (mode : MemAccessMode) (addr : ℕ) (fits : addr + page_num * 4096 ≤ 2 ^ 64) where
    abbrev Added : Process → Process → Type 0
    Added t t' =
        (new : List Instruction) × (t'.instructions ≡ t.instructions ++ new)
        × AllIn addr (addr + page_num * 4096) new

    measure-Added :
        (o : ℕ) (t : Process)
        → o < page_num * words
        → Returns (λ n t'. Added t t') (measure sys mode (access_addr addr o) t)
    unfolding measure get_time_ns run
    measure-Added o t h =
        let a = access_addr addr o in
        let at : a ≡ addr + 8 * o = access_addr_lem addr o page_num h small fits in
        let inside : (addr ≤ a) × (a + 8 ≤ addr + page_num * 4096) =
          (omega (arith, at), omega (arith, at, h)) in
        let hi = addr + page_num * 4096 in
        returns (
          (clflush a ∷ mfence ∷ lfence ∷ access_by mode a) ++ (lfence ∷ mfence ∷ []),
          append_assoc (t.instructions ++ _) (access_by mode a) (lfence ∷ mfence ∷ [])
              ∙ append_assoc t.instructions (clflush a ∷ mfence ∷ lfence ∷ []) _,
          AllIn-append addr hi (clflush a ∷ mfence ∷ lfence ∷ access_by mode a)
              (lfence ∷ mfence ∷ []) (inside, (tt, (tt, access_by-AllIn addr hi a mode inside)))
              (tt, (tt, tt)),
        )

    measure_all-Added :
        (offsets : List ℕ) (total : ℕ) (t : Process)
        → AllBelow (page_num * words) offsets
        → Returns (λ n t'. Added t t') (measure_all sys mode addr offsets total t)
    unfolding measure_all
    measure_all-Added [] total t h = returns ([], sym (append-nil t.instructions), tt)
    measure_all-Added (o ∷ offsets) total t (h, hs) =
        Returns-bind (measure-Added o t h) (λ n t1 (new, e, inside).
          Returns-mono (measure_all-Added offsets _ t1 hs) (λ n' t2 (new', e', inside'). (
            new ++ new',
            e' ∙ ap (λ l. l ++ new') e ∙ append_assoc t.instructions new new',
            AllIn-append addr (addr + page_num * 4096) new new' inside inside',
          )))

-- For one page or more, of no more than 2^31 words, and memory that ends at 2^64 at the latest: if so many
-- random words are chosen and then access_by, in any mode, all of this returns, and each new instruction
-- that has an address touches 8 bytes of the memory, and none outside.
pub accesses-AllIn :
    (sys : Sys) (page_num number : ℕ) (mode : MemAccessMode) (addr : ℕ) (s : Process)
    → 0 < page_num
    → page_num * words ≤ 2 ^ 31
    → addr + page_num * 4096 ≤ 2 ^ 64
    → Returns
        (λ total t.
          (new : List Instruction) × (t.instructions ≡ s.instructions ++ new)
          × AllIn addr (addr + page_num * 4096) new)
        (and_then
          (random_offsets sys true page_num number s)
          (λ offsets. measure_all sys mode addr offsets 0))
accesses-AllIn sys page_num number mode addr s pos small fits =
    Returns-bind (random_offsets-AllBelow sys page_num pos small number s) (λ offsets t (h, same).
      Returns-mono (measure_all-Added sys page_num pos small mode addr fits offsets 0 t h)
        (λ n t' (new, e, inside). (new, e ∙ ap (λ l. l ++ new) same, inside)))

-- For memory that ends 4 MB before 2^64 at the latest, the advice on huge pages is on whole pages of
-- 2 MB, all of the memory is in it, and what is in it before or after the memory is less than 2 MB each.
pub huge_range-covers :
    (addr size : ℕ)
    → addr + size + 2 * huge_page_size ≤ 2 ^ 64
    → let (from, bytes) = huge_range addr size in
      (from % huge_page_size ≡ 0)
      × (bytes % huge_page_size ≡ 0)
      × (from ≤ addr)
      × (addr < from + huge_page_size)
      × (addr + size ≤ from + bytes)
      × (from + bytes < addr + size + huge_page_size)
unfolding huge_range align_down
huge_range-covers addr size h =
    (omega arith, omega arith, omega arith, omega arith, omega (arith, h), omega (arith, h))
