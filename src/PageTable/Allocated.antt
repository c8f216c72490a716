-- ===== src/PageTable/Allocated.antt =====
-- The whole of `PageTable::initPageTable` of src/server/PageTable.cpp: the allocation of the three
-- regions, the writing of their content, and the filling of the table.
use memory_tiering.Base.{
  ℕ, ◌+◌, ◌*◌, ◌%◌, ◌^◌, ◌≤◌, ◌<◌, ◌≡◌, ◌≢◌, refl, ap, ◌∙◌, false, some, none, List, [], ◌==◌,
  if◌then◌else◌, add64, arith, Bool-cases, Option-cases, inl, inr, ==-true, ==-false, eq_of_==,
  ne_of_==,
}
use memory_tiering.Base.Run.{
  Run, Cmd, ok, assert_failed, fault, exit_failure, uncaught, out_of_fuel, pure, ◌>>◌, Returns,
  returns, Returns-bind, Returns-run,
}
use memory_tiering.Common.{PageLayer, numa_local, numa_remote, pmem, ClientConfig}
use memory_tiering.Machine.{Machine}
use memory_tiering.Config.Limits.{AllSized}
use memory_tiering.PageTable.{World, layer_info}
use memory_tiering.PageTable.Regions.{
  Paging, Memory, Regions, no_regions, allocate_memory, bind_region, mmap, munmap,
}
use memory_tiering.PageTable.Init.{fill_table}
use memory_tiering.PageTable.Init.Filled.{total}
use memory_tiering.PageTable.Init.Starts.{asked, Started, fill_table-Started}

-- What the method leaves: the page table with what it shares, the memory, and the regions.
pub record Object : Type 0 where
  pub world : World
  pub memory : Memory
  pub regions : Regions

-- A run on one state, and then one on another.
abbrev pub continue : {S T A B : Type 0} → Run S A → (A → S → Run T B) → Run T B
continue (ok a s) k = k a s
continue assert_failed k = assert_failed
continue fault k = fault
continue exit_failure k = exit_failure
continue uncaught k = uncaught
continue out_of_fuel k = out_of_fuel

continue-run :
    {S T A B : Type 0} (m : Run S A) (k : A → S → Run T B) (b : B) (t : T)
    → continue m k ≡ ok b t
    → (a : A) × (s : S) × (m ≡ ok a s) × (k a s ≡ ok b t)
continue-run (ok a s) k b t e = (a, s, refl, e)
continue-run assert_failed k b t e = absurd (cc)
continue-run fault k b t e = absurd (cc)
continue-run exit_failure k b t e = absurd (cc)
continue-run uncaught k b t e = absurd (cc)
continue-run out_of_fuel k b t e = absurd (cc)

-- The loop that writes a region's bytes. The content is not kept.
unfoldable pub write_region : (base bytes : ℕ) → Cmd Memory (Unit {0})
write_region base bytes =
    if base == 0 then (if bytes == 0 then pure tt else (λ _. fault)) else pure tt

-- `_generateRandomContent`
unfoldable pub generate_random_content : (num_tiers : ℕ) → Regions → Cmd Memory (Unit {0})
generate_random_content num_tiers r = do
  write_region r.local_base (
      if num_tiers == 2
      then (add64 r.local_page_load r.remote_page_load * 4096) % 2 ^ 64
      else (r.local_page_load * 4096) % 2 ^ 64)
  (if num_tiers == 3
      then write_region r.remote_base ((r.remote_page_load * 4096) % 2 ^ 64)
      else pure tt)
  write_region r.pmem_base ((r.pmem_page_load * 4096) % 2 ^ 64)

-- The members for the regions, as the constructor leaves them.
abbrev pub regions_of : World → Regions
regions_of w = record no_regions {
  local_page_load = w.local_page_load;
  remote_page_load = w.remote_page_load;
  pmem_page_load = w.pmem_page_load;
}

abbrev pub base_of : Regions → PageLayer → ℕ
base_of r numa_local = r.local_base
base_of r numa_remote = r.remote_base
base_of r pmem = r.pmem_base

abbrev pub load_of : Regions → PageLayer → ℕ
load_of r numa_local = r.local_page_load
load_of r numa_remote = r.remote_page_load
load_of r pmem = r.pmem_page_load

-- What of a region is there: a null pointer stands for no bytes at most.
abbrev pub There : ℕ → ℕ → Type 0
There base load = base ≡ 0 → (load * 4096) % 2 ^ 64 ≡ 0

-- Each region is there, if it has bytes; and each is as large as the world says.
pub record AllThere (w : World) (r : Regions) (m : Memory) : Type 0 where
  pub there : (l : PageLayer) → There (base_of r l) (load_of (regions_of w) l)
  pub local_load : r.local_page_load ≡ w.local_page_load
  pub remote_load : r.remote_page_load ≡ w.remote_page_load
  pub pmem_load : r.pmem_page_load ≡ w.pmem_page_load

abbrev world_in : World → Run Object (Unit {0}) → World
world_in w (ok u o) = o.world
world_in w _ = w

module _ (paging : Paging) where
  module _ {F : Type 0} (machine : Machine) (uninitialised : ℕ → ℕ)
      (clients : List (ClientConfig F)) where
    unfoldable pub init_page_table : World → Memory → Run Object (Unit {0})
    init_page_table w m =
        continue (allocate_memory paging w.server_config.num_tiers (regions_of w) m) λ r m1.
          continue (generate_random_content w.server_config.num_tiers r m1) λ u m2.
            continue (fill_table machine uninitialised (base_of r) clients w)
              λ u' w'. ok tt (record { world = w'; memory = m2; regions = r })

  -- A run of the method that returns has filled the table, from some addresses.
  pub init_page_table-fills :
      {F : Type 0} (machine : Machine) (uninitialised : ℕ → ℕ) (clients : List (ClientConfig F))
      (w : World) (m : Memory) (o : Object)
      → init_page_table machine uninitialised clients w m ≡ ok tt o
      → (bases : PageLayer → ℕ) × (fill_table machine uninitialised bases clients w ≡ ok tt o.world)
  unfolding init_page_table
  init_page_table-fills machine uninitialised clients w m o run =
      let (r, m1, e1, run1) =
        continue-run (allocate_memory paging w.server_config.num_tiers (regions_of w) m) _ tt o
          run in
      let (u, m2, e2, run2) =
        continue-run (generate_random_content w.server_config.num_tiers r m1) _ tt o run1 in
      let (u', w', e3, run3) =
        continue-run (fill_table machine uninitialised (base_of r) clients w) _ tt o run2 in
      (base_of r, e3 ∙ ap (ok tt) (ap (world_in w) run3))

  write_region-ok :
      (base bytes : ℕ) (m : Memory) → (base ≡ 0 → bytes ≡ 0) → write_region base bytes m ≡ ok tt m
  unfolding write_region
  write_region-ok base bytes m there = elim (Bool-cases (base == 0)) [
    | inl null ↦ rw (null, ==-true bytes 0 (there (eq_of_== base 0 null))) refl
    | inr some_base ↦ rw some_base refl
  ]

  bind_region-Returns :
      (number node : ℕ) (m : Memory)
      → Returns (λ base m'. Unit {0}) (bind_region paging 4096 number node m)
  unfolding bind_region mmap munmap
  bind_region-Returns number node m =
      elim (Option-cases (paging.mmap m.ticks ((4096 * number) % 2 ^ 64))) [
        | inl e ↦ rw e (returns tt)
        | inr (addr, e) ↦ rw e (elim (Bool-cases (paging.mbind (m.ticks + 1) addr 4096 node == 0)) [
          | inl bound ↦ rw bound (returns tt)
          | inr bound ↦ rw bound (returns tt)
        ])
      ]

  refused_region :
      (number node : ℕ) (m : Memory)
      → paging.mmap m.ticks ((4096 * number) % 2 ^ 64) ≡ none
      → bind_region paging 4096 number node m ≡ ok 0 (record m { ticks = m.ticks + 1 })
  unfolding bind_region mmap
  refused_region number node m refused = rw refused refl

  -- With three tiers, if the kernel refuses the region of the local layer, and this layer has a page
  -- (so many that their bytes are not 0 modulo 2^64), `initPageTable` writes through a null pointer.
  pub refused-fault :
      {F : Type 0} (machine : Machine) (uninitialised : ℕ → ℕ) (clients : List (ClientConfig F))
      (w : World) (m : Memory)
      → w.server_config.num_tiers ≡ 3
      → paging.mmap m.ticks ((4096 * w.local_page_load) % 2 ^ 64) ≡ none
      → (w.local_page_load * 4096) % 2 ^ 64 ≢ 0
      → init_page_table machine uninitialised clients w m ≡ fault
  unfolding init_page_table allocate_memory generate_random_content write_region
  refused-fault machine uninitialised clients w m three refused page =
      let m1 : Memory = record m { ticks = m.ticks + 1 } in
      let (b, m2, remote, t) = Returns-run (bind_region-Returns w.remote_page_load 1 m1) in
      let (d, m3, low, t') = Returns-run (bind_region-Returns w.pmem_page_load 2 m2) in
      rw
        (
          three,
          refused_region w.local_page_load 0 m refused,
          remote,
          low,
          ==-false ((w.local_page_load * 4096) % 2 ^ 64) 0 page,
        )
        refl

  module _ (nonnull : (n bytes addr : ℕ) → paging.mmap n bytes ≡ some addr → addr ≢ 0)
      (grants : (n bytes : ℕ) → bytes ≢ 0 → (addr : ℕ) × (paging.mmap n bytes ≡ some addr))
      (binds : (n addr bytes node : ℕ) → paging.mbind n addr bytes node ≡ 0) where
    bind_region-There :
        (number node : ℕ) (m : Memory)
        → Returns (λ base m'. There base number) (bind_region paging 4096 number node m)
    unfolding bind_region mmap
    bind_region-There number node m =
        elim (Option-cases (paging.mmap m.ticks ((4096 * number) % 2 ^ 64))) [
          | inl e ↦
              let no_bytes : (number * 4096) % 2 ^ 64 ≡ 0 =
                elim (Bool-cases ((4096 * number) % 2 ^ 64 == 0)) [
                  | inl q ↦ omega (arith, eq_of_== ((4096 * number) % 2 ^ 64) 0 q)
                  | inr q ↦
                      let (addr, there) =
                        grants m.ticks ((4096 * number) % 2 ^ 64)
                          (ne_of_== ((4096 * number) % 2 ^ 64) 0 q) in
                      absurd (cc)
                ] in
              rw e (returns λ z. no_bytes)
          | inr (addr, e) ↦
              rw (e, ==-true (paging.mbind (m.ticks + 1) addr 4096 node) 0 (binds _ _ _ _))
                (returns λ z. absurd (nonnull m.ticks _ addr e z))
        ]

    allocated :
        (w : World) (m : Memory) → Returns (AllThere w) (allocate_memory paging 3 (regions_of w) m)
    unfolding allocate_memory
    allocated w m = Returns-bind (bind_region-There w.local_page_load 0 m) λ a m1 f.
        Returns-bind (bind_region-There w.remote_page_load 1 m1) λ b m2 g.
          Returns-bind (bind_region-There w.pmem_page_load 2 m2) λ d m3 h. returns (record {
            there = elim [ numa_local ↦ f | numa_remote ↦ g | pmem ↦ h ];
            local_load = refl;
            remote_load = refl;
            pmem_load = refl;
          })

    written :
        (w : World) (r : Regions) (m : Memory)
        → AllThere w r m
        → generate_random_content 3 r m ≡ ok tt m
    unfolding generate_random_content
    written w r m a =
        rw
          (
            write_region-ok r.local_base ((r.local_page_load * 4096) % 2 ^ 64) m
                (λ z. ap (λ k. (k * 4096) % 2 ^ 64) a.local_load ∙ a.there numa_local z),
            write_region-ok r.remote_base ((r.remote_page_load * 4096) % 2 ^ 64) m
                (λ z. ap (λ k. (k * 4096) % 2 ^ 64) a.remote_load ∙ a.there numa_remote z),
            write_region-ok r.pmem_base ((r.pmem_page_load * 4096) % 2 ^ 64) m
                (λ z. ap (λ k. (k * 4096) % 2 ^ 64) a.pmem_load ∙ a.there pmem z),
          )
          refl

    module _ {F : Type 0} (machine : Machine) (uninitialised : ℕ → ℕ)
        (clients : List (ClientConfig F)) (w : World) (m : Memory)
        (three : w.server_config.num_tiers ≡ 3) where
      -- What the filling does from any addresses, the whole method does.
      pub init_page_table-Returns :
          (P : World → Type 0)
          → ((bases : PageLayer → ℕ)
              → Returns (λ u w'. P w') (fill_table machine uninitialised bases clients w))
          → Returns
              (λ u o. P o.world × AllThere w o.regions o.memory)
              (init_page_table machine uninitialised clients w m)
      unfolding init_page_table
      init_page_table-Returns P fills =
          let (r, m1, run, a) = Returns-run (allocated w m) in
          let (u, w', run', p) = Returns-run (fills (base_of r)) in
          let here = ap (λ k. allocate_memory paging k (regions_of w) m) three ∙ run in
          let there = ap (λ k. generate_random_content k r m1) three ∙ written w r m1 a in
          rw (init_page_table, here, there, run') (returns (p, a))

      -- With three tiers, no cache ring, an empty table and counts of zero, and clients with three
      -- sizes each, fewer than 2^64 pages in all, that fit into the layers, and a kernel that grants
      -- each mapping that has bytes, never at the address 0, and each binding: `initPageTable`
      -- returns, writes through no null pointer, and leaves as many pages on each layer as the clients
      -- ask for, counted and within the capacities, under the page ids from 0 on.
      pub init_page_table-Started :
          w.table ≡ []
          → w.enable_cache_ring ≡ false
          → ((l : PageLayer) → (layer_info l w).count ≡ 0)
          → AllSized 3 clients
          → total (asked clients) < 2 ^ 64
          → ((l : PageLayer) → asked clients l ≤ (layer_info l w).capacity)
          → ((l : PageLayer) → (layer_info l w).capacity < 2 ^ 64)
          → Returns
              (λ u o. Started w clients tt o.world × AllThere w o.regions o.memory)
              (init_page_table machine uninitialised clients w m)
      init_page_table-Started empty off zero_counts sized few fits small =
          init_page_table-Returns (Started w clients tt) λ bases.
            fill_table-Started machine uninitialised bases w clients three empty off zero_counts
              sized few fits small
