-- ===== src/PageTable/Regions/Released.antt =====
-- The destructor of the page table unmaps what was allocated.
use memory_tiering.Base.{
  ℕ, ◌+◌, ◌*◌, ◌%◌, ◌^◌, ◌<◌, ◌≡◌, ◌≢◌, refl, sym, ap, ◌∙◌, subst, some, List, [], ◌∷◌, ◌++◌,
  append-nil, append_assoc, ◌==◌, if◌then◌else◌, arith, Bool-cases, Option-cases, inl, inr,
  ==-false,
}
use memory_tiering.Base.Run.{Returns, returns, Returns-bind, and_then}
use memory_tiering.Base.Ranges.{times, times-append, same_map_refl, times-unmap}
use memory_tiering.PageTable.Regions.{
  Paging, Memory, Regions, munmap, mmap, bind_region, allocate_memory, release_region, release,
}

-- Since `s`, the mappings `extra` have come to be, and nothing else is different.
pub record Maps (extra : List (ℕ × ℕ)) (s t : Memory) : Type 0 where
  pub mapped : (x : ℕ × ℕ) → times x t.maps ≡ times x extra + times x s.maps

-- What a region's pointer stands for.
abbrev region : (base page_load : ℕ) → List (ℕ × ℕ)
region base page_load = if base == 0 then [] else (base, (page_load * 4096) % 2 ^ 64) ∷ []

module _ {s : Memory} where
  munmap-Maps :
      (addr bytes : ℕ) {extra : List (ℕ × ℕ)} {t : Memory}
      → Maps ((addr, bytes) ∷ extra) s t
      → Returns (λ u t'. Maps extra s t') (munmap addr bytes t)
  unfolding munmap times
  munmap-Maps addr bytes {extra} {t} h =
      let there : 0 < times (addr, bytes) t.maps =
        let own = same_map_refl (addr, bytes) in
        let e = h.mapped (addr, bytes) in ground (arith, e) in
      returns (record {
        mapped = λ x. omega (arith, h.mapped x, times-unmap x (addr, bytes) t.maps there);
      })

  release_region-Maps :
      (base page_load : ℕ) {extra : List (ℕ × ℕ)} {t : Memory}
      → Maps (region base page_load ++ extra) s t
      → Returns (λ u t'. Maps extra s t') (release_region base page_load t)
  unfolding release_region
  release_region-Maps base page_load {extra} {t} h = elim (Bool-cases (base == 0)) [
    | inl null ↦ rw null (
        returns (
          subst
            (λ b. Maps ((if b then [] else (base, (page_load * 4096) % 2 ^ 64) ∷ []) ++ extra) s t)
            null h))
    | inr there ↦ rw there (
        munmap-Maps base ((page_load * 4096) % 2 ^ 64) (
          subst
            (λ b. Maps ((if b then [] else (base, (page_load * 4096) % 2 ^ 64) ∷ []) ++ extra) s t)
            there h))
  ]

  module _ (paging : Paging)
      (nonnull : (n bytes addr : ℕ) → paging.mmap n bytes ≡ some addr → addr ≢ 0) where
    bind_region-Maps :
        (number node : ℕ) {extra : List (ℕ × ℕ)} {t : Memory}
        → Maps extra s t
        → Returns
            (λ base t'. Maps (extra ++ region base number) s t')
            (bind_region paging 4096 number node t)
    unfolding bind_region mmap times
    bind_region-Maps number node {extra} {t} h =
        elim (Option-cases (paging.mmap t.ticks ((4096 * number) % 2 ^ 64))) [
          | inl e ↦ rw e (
              returns (record {
                mapped =
                    λ x. h.mapped x ∙ ap (λ l. times x l + times x s.maps) (sym (append-nil extra));
              }))
          | inr (addr, e) ↦
              let there = ==-false addr 0 (nonnull t.ticks ((4096 * number) % 2 ^ 64) addr e) in
              let bytes : (4096 * number) % 2 ^ 64 ≡ (number * 4096) % 2 ^ 64 = omega arith in
              let with_it : (u : Memory)
                  → u.maps ≡ (addr, (4096 * number) % 2 ^ 64) ∷ t.maps
                  → Maps ((addr, (4096 * number) % 2 ^ 64) ∷ extra) s u =
                λ u m. record { mapped = λ x. ap (times x) m ∙ omega (arith, h.mapped x) } in
              rw e (elim (Bool-cases (paging.mbind (t.ticks + 1) addr 4096 node == 0)) [
                | inl bound ↦
                    let u : Memory = record t {
                      maps = (addr, (4096 * number) % 2 ^ 64) ∷ t.maps;
                      ticks = t.ticks + 1 + 1;
                    } in
                    rw bound (
                      returns (
                        subst
                          (λ b.
                            Maps
                              (extra ++ (if b then [] else (addr, (number * 4096) % 2 ^ 64) ∷ [])) s
                              u)
                          (sym there)
                          (record {
                            mapped = λ x.
                                (with_it u refl).mapped x
                                ∙ omega (
                                  arith,
                                  times-append x extra ((addr, (4096 * number) % 2 ^ 64) ∷ []),
                                  ap (λ b. times x ((addr, b) ∷ [])) bytes,
                                  times-append x extra ((addr, (number * 4096) % 2 ^ 64) ∷ []),
                                );
                          })))
                | inr bound ↦ rw bound (
                    Returns-bind (munmap-Maps addr ((4096 * number) % 2 ^ 64) (with_it _ refl))
                      (λ u t' h'. returns (record {
                        mapped = λ x.
                            h'.mapped x
                            ∙ ap (λ l. times x l + times x s.maps) (sym (append-nil extra));
                      })))
              ])
        ]

-- With three tiers, and no mapping at the address 0: the memory of the page table is allocated, whether the
-- kernel grants each region or not, and once the destructor has run just the mappings are left that
-- were there before.
pub allocate-release :
    (paging : Paging) (r : Regions) (s : Memory)
    → ((n bytes addr : ℕ) → paging.mmap n bytes ≡ some addr → addr ≢ 0)
    → Returns (λ u t. Maps [] s t) (and_then (allocate_memory paging 3 r s) release)
unfolding allocate_memory release times
allocate-release paging r s nonnull =
    Returns-bind {P = AllMapped}
      (Returns-bind (bind_region-Maps paging nonnull r.local_page_load 0 {extra = []} nothing)
        (λ a t1 h1.
          Returns-bind (bind_region-Maps paging nonnull r.remote_page_load 1 h1) (λ b t2 h2.
            Returns-bind (bind_region-Maps paging nonnull r.pmem_page_load 2 h2)
              (λ c t3 h3. returns h3))))
      (λ q t h.
        Returns-bind (release_region-Maps q.local_base q.local_page_load (reordered q t h))
          (λ u1 t1 h1.
            Returns-bind (release_region-Maps q.remote_base q.remote_page_load h1) (λ u2 t2 h2.
              release_region-Maps q.pmem_base q.pmem_page_load (
                subst (λ l. Maps l s t2) (sym (append-nil (region q.pmem_base q.pmem_page_load)))
                  h2))))
  where
    nothing : Maps [] s s
    nothing = record { mapped = λ x. omega arith }

    AllMapped : Regions → Memory → Type 0
    AllMapped q t =
        Maps
          ((region q.local_base q.local_page_load ++ region q.remote_base q.remote_page_load)
            ++ region q.pmem_base q.pmem_page_load)
          s t

    reordered :
        (q : Regions) (t : Memory)
        → AllMapped q t
        → Maps
            (region q.local_base q.local_page_load
              ++ (region q.remote_base q.remote_page_load ++ region q.pmem_base q.pmem_page_load))
            s
            t
    reordered q t h =
        subst (λ l. Maps l s t)
          (append_assoc (region q.local_base q.local_page_load)
            (region q.remote_base q.remote_page_load) (region q.pmem_base q.pmem_page_load))
          h
