-- ===== src/Generator.antt =====
-- include/client/Generator.hpp and src/client/Generator.cpp: the pages and operations that a client
-- asks for. The random engine, the distributions and the arithmetic of `double` are parameters.
pub mod InRange
use memory_tiering.Base.{
  ℕ, zero, suc, ◌+◌, ◌-◌, ◌^◌, ◌≤◌, ◌<◌, ◌≡◌, Bool, Option, none, some, List, [], ◌∷◌, length,
  get_elem?, if◌then◌else◌, sub64,
}
use memory_tiering.Common.{AccessPattern, uniform, hot, zipfian, OperationType, read, write}

-- `<random>` and `<cmath>`: `F` is `double`, `Engine` the state of `std::mt19937`.
pub record Random (F Engine : Type 0) : Type 1 where
  pub uniform_int : (lo hi : ℕ) → Engine → ℕ × Engine
  pub uniform_real : Engine → F × Engine
  pub discrete : (weights : List F) → Engine → ℕ × Engine
  pub shuffle : {A : Type 0} → List A → Engine → List A × Engine
  pub less : F → F → Bool
  -- `1.0 / std::pow(i, s)`
  pub inverse_power : (i : ℕ) → (s : F) → F
  -- `std::ceil(n * 0.2)`
  pub ceil_fifth : ℕ → ℕ

-- What the code relies on: a distribution stays in its range, shuffling adds no element and loses
-- none in number, and a fifth of something is something, and no more.
pub record RandomLaws {F Engine : Type 0} (random : Random F Engine) : Type 1 where
  pub uniform_int-in :
      (lo hi : ℕ) (g : Engine)
      → lo ≤ hi
      → (lo ≤ (random.uniform_int lo hi g).0) × ((random.uniform_int lo hi g).0 ≤ hi)
  pub discrete-lt :
      (weights : List F) (g : Engine)
      → 0 < length weights
      → (random.discrete weights g).0 < length weights
  pub length-shuffle :
      {A : Type 0} (xs : List A) (g : Engine) → length (random.shuffle xs g).0 ≡ length xs
  pub get-shuffle :
      {A : Type 0} (xs : List A) (g : Engine) (i : ℕ) (a : A)
      → get_elem? (random.shuffle xs g).0 i ≡ some a
      → (j : ℕ) × (get_elem? xs j ≡ some a)
  pub ceil_fifth-le : (n : ℕ) → 0 < n → (0 < random.ceil_fifth n) × (random.ceil_fifth n ≤ n)

-- `MemoryAccessGenerator`. A distribution over the integers is its two bounds.
pub record Generator (F Engine : Type 0) : Type 0 where
  pub pattern : AccessPattern
  pub rng : Engine
  pub memory_space_size : ℕ
  pub uniform_dist : ℕ × ℕ
  pub hot_pages : List ℕ
  pub hot_dist : ℕ × ℕ
  pub zipf_prob : List F

-- `all_pages[i] = i`, from the i-th on.
unfoldable pub pages_from : (i n : ℕ) → List ℕ
pages_from i zero = []
pages_from i (suc n) = i ∷ pages_from (i + 1) n

-- `hot_pages_[i] = all_pages[i]`, for the first so many; `none` is a read out of range.
unfoldable pub first_pages : ℕ → List ℕ → Option (List ℕ)
first_pages zero pages = some []
first_pages (suc n) [] = none
first_pages (suc n) (p ∷ pages) = elim (first_pages n pages) [
  | none ↦ none
  | some ps ↦ some (p ∷ ps)
]

-- `hot_pages_[i]` of an `unordered_map`: a missing key reads as 0.
unfoldable pub hot_page : List ℕ → ℕ → ℕ
hot_page pages i = elim (get_elem? pages i) [ none ↦ 0 | some p ↦ p ]

module _ {F Engine : Type 0} (random : Random F Engine) where
  open random use {uniform_int, uniform_real, discrete, shuffle, less, inverse_power, ceil_fifth}

  -- `1.0 / std::pow(i, zipf_s)`, from the i-th on.
  unfoldable pub weights_from : F → (i n : ℕ) → List F
  weights_from zipf_s i zero = []
  weights_from zipf_s i (suc n) = inverse_power i zipf_s ∷ weights_from zipf_s (i + 1) n

  -- A generator with the members that a constructor leaves at their defaults.
  abbrev pub blank : AccessPattern → ℕ → Engine → Generator F Engine
  blank pattern n g = record {
    pattern = pattern;
    rng = g;
    memory_space_size = n;
    uniform_dist = (0, 2 ^ 64 - 1);
    hot_pages = [];
    hot_dist = (0, 2 ^ 64 - 1);
    zipf_prob = [];
  }

  -- The constructor, with the engine that the random device has seeded.
  unfoldable pub create :
      AccessPattern → (memory_space_size : ℕ) → F → Engine → Option (Generator F Engine)
  create uniform n zipf_s g = some (record (blank uniform n g) { uniform_dist = (0, sub64 n 1) })
  create hot n zipf_s g =
      let (all_pages, g') = shuffle (pages_from 0 n) g in
      let hot_count = ceil_fifth n in
      elim (first_pages hot_count all_pages) [
        | none ↦ none
        | some pages ↦
            some (record (blank hot n g') { hot_pages = pages; hot_dist = (0, sub64 hot_count 1) })
      ]
  create zipfian n zipf_s g =
      let (weights, g') = shuffle (weights_from zipf_s 1 n) g in
      some (record (blank zipfian n g') { zipf_prob = weights })

  unfoldable pub draw : AccessPattern → Generator F Engine → ℕ × Engine
  draw uniform m = uniform_int m.uniform_dist.0 m.uniform_dist.1 m.rng
  draw hot m =
      let (i, g) = uniform_int m.hot_dist.0 m.hot_dist.1 m.rng in (hot_page m.hot_pages i, g)
  draw zipfian m = discrete m.zipf_prob m.rng

  unfoldable pub generate_pid : Generator F Engine → ℕ × Generator F Engine
  generate_pid m = let (pid, g) = draw m.pattern m in (pid, record m { rng = g })

  unfoldable pub generate_type : F → Generator F Engine → OperationType × Generator F Engine
  generate_type rw_ratio m =
      let (x, g) = uniform_real m.rng in
      (if less x rw_ratio then read else write, record m { rng = g })
