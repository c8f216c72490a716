-- ===== src/Generator/InRange.antt =====
-- Every page that a generator asks for lies in the client's memory.
use memory_tiering.Base.{
  ℕ, zero, suc, ◌+◌, ◌^◌, ◌≤◌, ◌<◌, ◌≡◌, refl, sym, ap, ◌∙◌, subst, some, List, [], ◌∷◌, length,
  get_elem?, sub64, arith,
}
use mathlib.Core.Option.{some-injective}
use memory_tiering.Common.{AccessPattern, uniform, hot, zipfian}
use memory_tiering.Generator.{
  Random, RandomLaws, Generator, pages_from, first_pages, hot_page, weights_from, blank, create,
  draw, generate_pid, generate_type,
}

get-pages_from : (i n j a : ℕ) → get_elem? (pages_from i n) j ≡ some a → a < i + n
unfolding pages_from
get-pages_from i zero j a h = absurd (cc)
get-pages_from i (suc n) zero a h = let e = some-injective i a h in omega (arith, e)
get-pages_from i (suc n) (suc j) a h = omega (arith, get-pages_from (i + 1) n j a h)

length-pages_from : (i n : ℕ) → length (pages_from i n) ≡ n
unfolding pages_from
length-pages_from i zero = refl
length-pages_from i (suc n) = ap suc (length-pages_from (i + 1) n)

-- The pages that were taken are the first ones.
record Firsts (n : ℕ) (pages ps : List ℕ) : Type 0 where
  taken : first_pages n pages ≡ some ps
  count : length ps ≡ n
  from : (i a : ℕ) → get_elem? ps i ≡ some a → get_elem? pages i ≡ some a

first_pages-some : (n : ℕ) (pages : List ℕ) → n ≤ length pages → (ps : List ℕ) × Firsts n pages ps
unfolding first_pages
first_pages-some zero pages h = ([], record { taken = refl; count = refl; from = λ i a e. cc })
first_pages-some (suc n) [] h = absurd (omega (arith, h))
first_pages-some (suc n) (p ∷ pages) h =
    let (ps, f) = first_pages-some n pages (omega (arith, h)) in
    (
      p ∷ ps,
      record {
        taken = rw (f.taken, first_pages) refl;
        count = ap suc f.count;
        from = from_next ps f;
      },
    )
  where
    from_next :
        (ps : List ℕ)
        → Firsts n pages ps
        → (i a : ℕ) → get_elem? (p ∷ ps) i ≡ some a
        → get_elem? (p ∷ pages) i ≡ some a
    from_next ps f zero a e = e
    from_next ps f (suc i) a e = f.from i a e

get_elem?-some : (xs : List ℕ) (i : ℕ) → i < length xs → (a : ℕ) × (get_elem? xs i ≡ some a)
get_elem?-some [] i h = absurd (omega (arith, h))
get_elem?-some (x ∷ xs) zero h = (x, refl)
get_elem?-some (x ∷ xs) (suc i) h = get_elem?-some xs i (omega (arith, h))

hot_page-some : (pages : List ℕ) (i p : ℕ) → get_elem? pages i ≡ some p → hot_page pages i ≡ p
unfolding hot_page
hot_page-some pages i p e = rw (e, hot_page) refl

module _ {F Engine : Type 0} where
  -- What the generator draws from lies in the memory of `n` pages.
  abbrev pub Covers : ℕ → Generator F Engine → AccessPattern → Type 0
  Covers n m uniform = (m.uniform_dist.0 ≤ m.uniform_dist.1) × (m.uniform_dist.1 < n)
  Covers n m hot =
      (m.hot_dist.0 ≤ m.hot_dist.1)
      × (m.hot_dist.1 < length m.hot_pages)
      × ((i p : ℕ) → get_elem? m.hot_pages i ≡ some p → p < n)
  Covers n m zipfian = (length m.zipf_prob ≡ n) × (0 < n)

  pub record IsReady (n : ℕ) (m : Generator F Engine) : Type 0 where
    pub covers : Covers n m m.pattern

  Covers-rng :
      (n : ℕ) (m : Generator F Engine) (p : AccessPattern) (g : Engine)
      → Covers n m p
      → Covers n (record m { rng = g }) p
  Covers-rng n m uniform g c = c
  Covers-rng n m hot g c = c
  Covers-rng n m zipfian g c = c

  module _ (random : Random F Engine) where
    -- The pages of so many calls of `generatePid` in a row.
    unfoldable pub generate_pids : ℕ → Generator F Engine → List ℕ
    generate_pids zero m = []
    generate_pids (suc k) m = let (pid, m') = generate_pid random m in pid ∷ generate_pids k m'

  module _ (random : Random F Engine) (laws : RandomLaws random) where
    length-weights_from : (s : F) (i n : ℕ) → length (weights_from random s i n) ≡ n
    unfolding weights_from
    length-weights_from s i zero = refl
    length-weights_from s i (suc n) = ap suc (length-weights_from s (i + 1) n)

    -- Shuffled or not, the pages are those below `n`.
    shuffled_lt :
        (n : ℕ) (g : Engine) (i a : ℕ)
        → get_elem? (random.shuffle (pages_from 0 n) g).0 i ≡ some a
        → a < n
    shuffled_lt n g i a e =
        let (j, e') = laws.get-shuffle (pages_from 0 n) g i a e in
        omega (arith, get-pages_from 0 n j a e')

    pub create-IsReady :
        (pattern : AccessPattern) (n : ℕ) (s : F) (g : Engine)
        → 0 < n
        → n < 2 ^ 64
        → (m : Generator F Engine) × (create random pattern n s g ≡ some m) × IsReady n m
    unfolding create
    create-IsReady uniform n s g pos small =
        (_, refl, record { covers = (omega arith, omega arith) })
    create-IsReady hot n s g pos small =
        let (some_hot, few) = laws.ceil_fifth-le n pos in
        let enough = laws.length-shuffle (pages_from 0 n) g ∙ length-pages_from 0 n in
        let (ps, f) =
          first_pages-some (random.ceil_fifth n) (random.shuffle (pages_from 0 n) g).0
            (omega (arith, few, enough)) in
        let m = record (blank random hot n (random.shuffle (pages_from 0 n) g).1) {
          hot_pages = ps;
          hot_dist = (0, sub64 (random.ceil_fifth n) 1);
        } in
        (
          m,
          rw (f.taken, create) refl,
          record {
            covers = (
              omega arith,
              omega (arith, f.count, few, small, some_hot),
              λ i p e. shuffled_lt n g i p (f.from i p e),
            );
          },
        )
    create-IsReady zipfian n s g pos small = (
      _,
      refl,
      record {
        covers =
            (laws.length-shuffle (weights_from random s 1 n) g ∙ length-weights_from s 1 n, pos);
      },
    )

    draw-lt :
        (n : ℕ) (m : Generator F Engine) (pattern : AccessPattern)
        → Covers n m pattern
        → (draw random pattern m).0 < n
    unfolding draw
    draw-lt n m uniform (lo, hi) =
        let (_, in_range) = laws.uniform_int-in m.uniform_dist.0 m.uniform_dist.1 m.rng lo in
        omega arith
    draw-lt n m hot (lo, hi, pages) =
        let (_, in_range) = laws.uniform_int-in m.hot_dist.0 m.hot_dist.1 m.rng lo in
        let (p, e) =
          get_elem?-some m.hot_pages (random.uniform_int m.hot_dist.0 m.hot_dist.1 m.rng).0
            (omega (arith, in_range, hi)) in
        subst (λ x. x < n) (sym (hot_page-some m.hot_pages _ p e)) (pages _ p e)
    draw-lt n m zipfian (e, pos) =
        omega (arith, e, laws.discrete-lt m.zipf_prob m.rng (omega (arith, e, pos)))

    -- A draw leaves the distributions as they are.
    pub generate_pid-IsReady :
        (n : ℕ) (m : Generator F Engine)
        → IsReady n m
        → ((generate_pid random m).0 < n) × IsReady n (generate_pid random m).1
    unfolding generate_pid
    generate_pid-IsReady n m ready = (
      draw-lt n m m.pattern ready.covers,
      record { covers = Covers-rng n m m.pattern (draw random m.pattern m).1 ready.covers },
    )

    pub generate_type-IsReady :
        (n : ℕ) (rw_ratio : F) (m : Generator F Engine)
        → IsReady n m
        → IsReady n (generate_type random rw_ratio m).1
    unfolding generate_type
    generate_type-IsReady n rw_ratio m ready = record {
      covers = Covers-rng n m m.pattern (random.uniform_real m.rng).1 ready.covers;
    }

    ready_pids :
        (n k i pid : ℕ) (m : Generator F Engine)
        → IsReady n m
        → get_elem? (generate_pids random k m) i ≡ some pid
        → pid < n
    unfolding generate_pids
    ready_pids n zero i pid m ready h = absurd (cc)
    ready_pids n (suc k) zero pid m ready h =
        subst (λ x. x < n) (some-injective _ pid h) (generate_pid-IsReady n m ready).0
    ready_pids n (suc k) (suc i) pid m ready h =
        ready_pids n k i pid (generate_pid random m).1 (generate_pid-IsReady n m ready).1 h

    -- For a memory of `n` pages, more than none and fewer than 2^64, and any pattern, the constructor
    -- reads nothing out of range, and each of the pages that it is then asked for, however many, is
    -- below `n`.
    pub generate_pids-lt :
        (pattern : AccessPattern) (n : ℕ) (s : F) (g : Engine)
        → 0 < n
        → n < 2 ^ 64
        → (m : Generator F Engine) × (create random pattern n s g ≡ some m)
          × ((k i pid : ℕ) → get_elem? (generate_pids random k m) i ≡ some pid → pid < n)
    generate_pids-lt pattern n s g pos small =
        let (m, e, ready) = create-IsReady pattern n s g pos small in
        (m, e, λ k i pid h. ready_pids n k i pid m ready h)
