-- ===== src/Bench/Held.antt =====
-- What the benchmark holds of the operating system, compared with what it held before, and what each
-- call does to that.
use memory_tiering.Base.{
  ℕ, suc, ◌+◌, ◌<◌, ◌≡◌, refl, ap, ◌∙◌, true, List, [], ◌∷◌, ◌++◌, ◌==◌, if◌then◌else◌, arith,
  Bool-cases, inl, inr, ==-true, eq_of_==,
}
use memory_tiering.Base.Ranges.{times, same_map_refl, times-unmap}
use memory_tiering.Base.Run.{Returns, returns}
use memory_tiering.Bench.{
  Sys, Process, Request, Instruction, remove_one, close, free, munmap, ioctl, run, malloc,
  get_time_ns,
}

unfoldable pub count : ℕ → List ℕ → ℕ
count x [] = 0
count x (y ∷ ys) = (if x == y then 1 else 0) + count x ys

pub count-append : (x : ℕ) (ys zs : List ℕ) → count x (ys ++ zs) ≡ count x ys + count x zs
unfolding count
count-append x [] zs = omega arith
count-append x (y ∷ ys) zs = omega (arith, count-append x ys zs)

count-remove_one :
    (x y : ℕ) (zs : List ℕ)
    → 0 < count y zs
    → (if x == y then 1 else 0) + count x (remove_one y zs) ≡ count x zs
unfolding count
count-remove_one x y [] h = absurd (omega (arith, h))
count-remove_one x y (z ∷ zs) h = elim (Bool-cases (y == z)) [
  | inl e ↦ let same = eq_of_== y z e in rw (e, same) refl
  | inr e ↦ let rest = count-remove_one x y zs (ground (arith, h)) in ground (arith, rest)
]

-- Since `s`, the process has opened `fds` and not closed them, has so many blocks more, and has mapped
-- `maps`; else it has what it had, in some order.
pub record Holds (fds : List ℕ) (blocks : ℕ) (maps : List (ℕ × ℕ)) (s t : Process) : Type 0 where
  pub opened : (x : ℕ) → count x t.fds ≡ count x fds + count x s.fds
  pub used : t.blocks ≡ blocks + s.blocks
  pub mapped : (x : ℕ × ℕ) → times x t.maps ≡ times x maps + times x s.maps

pub Holds-refl : (s : Process) → Holds [] 0 [] s s
unfolding count times
Holds-refl s = record { opened = λ x. omega arith; used = omega arith; mapped = λ x. omega arith }

module _ {fds : List ℕ} {blocks : ℕ} {maps : List (ℕ × ℕ)} {s t : Process} where
  pub Holds-same :
      {u : Process}
      → u.fds ≡ t.fds
      → u.blocks ≡ t.blocks
      → u.maps ≡ t.maps
      → Holds fds blocks maps s t
      → Holds fds blocks maps s u
  Holds-same f b m h = record {
    opened = λ x. ap (count x) f ∙ h.opened x;
    used = b ∙ h.used;
    mapped = λ x. ap (times x) m ∙ h.mapped x;
  }

  pub free-Holds :
      Holds fds (suc blocks) maps s t → Returns (λ u t'. Holds fds blocks maps s t') (free true t)
  unfolding free
  free-Holds h =
      returns (record { opened = h.opened; used = omega (arith, h.used); mapped = h.mapped })

  pub close-Holds :
      (fd : ℕ)
      → Holds (fd ∷ fds) blocks maps s t
      → Returns (λ u t'. Holds fds blocks maps s t') (close fd t)
  unfolding close count
  close-Holds fd h =
      let there : 0 < count fd t.fds =
        let same = ==-true fd fd refl in ground (arith, h.opened fd) in
      returns (record {
        opened = λ x. omega (arith, h.opened x, count-remove_one x fd t.fds there);
        used = h.used;
        mapped = h.mapped;
      })

  pub munmap-Holds :
      (addr bytes : ℕ)
      → Holds fds blocks ((addr, bytes) ∷ maps) s t
      → Returns (λ u t'. Holds fds blocks maps s t') (munmap addr bytes t)
  unfolding munmap times
  munmap-Holds addr bytes h =
      let there : 0 < times (addr, bytes) t.maps =
        let own = same_map_refl (addr, bytes) in
        let e = h.mapped (addr, bytes) in ground (arith, e) in
      returns (record {
        opened = h.opened;
        used = h.used;
        mapped = λ x. omega (arith, h.mapped x, times-unmap x (addr, bytes) t.maps there);
      })

  pub get_time_ns-Holds :
      (sys : Sys)
      → Holds fds blocks maps s t
      → Returns (λ n t'. Holds fds blocks maps s t') (get_time_ns sys t)
  unfolding get_time_ns
  get_time_ns-Holds sys h = returns (Holds-same refl refl refl h)

  pub ioctl-Holds :
      (r : Request) (fd : ℕ)
      → Holds fds blocks maps s t
      → Returns (λ u t'. Holds fds blocks maps s t') (ioctl r fd t)
  unfolding ioctl
  ioctl-Holds r fd h = returns (Holds-same refl refl refl h)

  pub run-Holds :
      (is : List Instruction)
      → Holds fds blocks maps s t
      → Returns (λ u t'. Holds fds blocks maps s t') (run is t)
  unfolding run
  run-Holds is h = returns (Holds-same refl refl refl h)

  -- `malloc` where there is memory.
  pub malloc-Holds :
      (sys : Sys) (bytes : ℕ)
      → ((n b : ℕ) → sys.malloc n b ≡ true)
      → Holds fds blocks maps s t
      → Returns (λ there t'. (there ≡ true) × Holds fds (suc blocks) maps s t') (malloc sys bytes t)
  unfolding malloc
  malloc-Holds sys bytes plenty h = rw (plenty t.ticks bytes) (
      returns (refl, record { opened = h.opened; used = omega (arith, h.used); mapped = h.mapped }))
