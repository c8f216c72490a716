-- ===== src/PageTable/Regions.antt =====
-- The memory of the page table, from src/server/PageTable.cpp and include/server/Utils.hpp: how many
-- pages each region has, its allocation, the advice on huge pages, and the destructor. A null pointer
-- is the address 0. Random content is not kept.
pub mod Released
pub mod Counted
use memory_tiering.Base.{
  ℕ, ◌+◌, ◌-◌, ◌*◌, ◌%◌, ◌^◌, Bool, true, false, not, ◌&&◌, ◌||◌, Option, none, some, List, [], ◌∷◌,
  ◌++◌, ◌==◌, if◌then◌else◌, add64, sub64, get_elem?,
}
use memory_tiering.Base.Run.{Run, Cmd, ok, exit_failure, pure, modify, ◌>>=◌, ◌>>◌}
use memory_tiering.Base.Ranges.{unmap}
use memory_tiering.Common.{ClientConfig}
use memory_tiering.Bench.Memory.{huge_range}

-- The outcomes of the calls into the kernel, the n-th call, for any system.
pub record Paging : Type 0 where
  pub mmap : ℕ → (bytes : ℕ) → Option ℕ
  pub mbind : ℕ → (addr bytes node : ℕ) → ℕ

-- What is mapped, from where and how many bytes, what advice was given, and how many calls were made.
pub record Memory : Type 0 where
  pub maps : List (ℕ × ℕ)
  pub advised : List (ℕ × ℕ)
  pub ticks : ℕ

pub record Regions : Type 0 where
  pub local_base : ℕ
  pub remote_base : ℕ
  pub pmem_base : ℕ
  pub local_page_load : ℕ
  pub remote_page_load : ℕ
  pub pmem_page_load : ℕ

-- The members before the loops of the constructor.
abbrev pub no_regions : Regions
no_regions = record {
  local_base = 0;
  remote_base = 0;
  pmem_base = 0;
  local_page_load = 0;
  remote_page_load = 0;
  pmem_page_load = 0;
}

module _ {F : Type 0} where
  -- The pages of a client; `none` is a read out of range.
  unfoldable pub count_client : (num_tiers : ℕ) → ClientConfig F → Regions → Option Regions
  count_client num_tiers c r =
      if num_tiers == 2
      then elim (get_elem? c.tier_sizes 0) [
        | none ↦ none
        | some a ↦ elim (get_elem? c.tier_sizes 1) [
          | none ↦ none
          | some b ↦ some (record r {
            local_page_load = add64 r.local_page_load a;
            pmem_page_load = add64 r.pmem_page_load b;
          })
        ]
      ]
      else if num_tiers == 3
      then elim (get_elem? c.tier_sizes 0) [
        | none ↦ none
        | some a ↦ elim (get_elem? c.tier_sizes 1) [
          | none ↦ none
          | some b ↦ elim (get_elem? c.tier_sizes 2) [
            | none ↦ none
            | some d ↦ some (record r {
              local_page_load = add64 r.local_page_load a;
              remote_page_load = add64 r.remote_page_load b;
              pmem_page_load = add64 r.pmem_page_load d;
            })
          ]
        ]
      ]
      else some r

  unfoldable pub count_clients : (num_tiers : ℕ) → List (ClientConfig F) → Regions → Option Regions
  count_clients num_tiers [] r = some r
  count_clients num_tiers (c ∷ clients) r = elim (count_client num_tiers c r) [
    | none ↦ none
    | some r' ↦ count_clients num_tiers clients r'
  ]

-- `munmap` of a whole mapping.
unfoldable pub munmap : (addr bytes : ℕ) → Cmd Memory (Unit {0})
munmap addr bytes = modify λ s. record s { maps = unmap (addr, bytes) s.maps }

abbrev calling : {A : Type 0} → (ℕ → A) → Cmd Memory A
calling f s = ok (f s.ticks) (record s { ticks = s.ticks + 1 })

module _ (paging : Paging) where
  unfoldable pub mmap : ℕ → Cmd Memory (Option ℕ)
  mmap bytes = do
    mem ← calling λ n. paging.mmap n bytes
    modify λ s. elim mem [ none ↦ s | some addr ↦ record s { maps = (addr, bytes) ∷ s.maps } ]
    pure mem

  -- `allocate_pages`
  unfoldable pub allocate_pages : (size number : ℕ) → Cmd Memory ℕ
  allocate_pages size number = do
    mem ← mmap ((size * number) % 2 ^ 64)
    elim mem [ none ↦ (λ s. exit_failure) | some addr ↦ pure addr ]

  -- `allocate_and_bind_to_numa`; it binds as many bytes as one page has.
  unfoldable pub bind_region : (size number numa_node : ℕ) → Cmd Memory ℕ
  bind_region size number numa_node = do
    mem ← mmap ((size * number) % 2 ^ 64)
    elim mem [
      | none ↦ pure 0
      | some addr ↦ (do
        bound ← calling λ n. paging.mbind n addr size numa_node
        if bound == 0 then pure addr else (do munmap addr ((size * number) % 2 ^ 64); pure 0))
    ]

  -- `_allocateMemory`
  unfoldable pub allocate_memory : (num_tiers : ℕ) → Regions → Cmd Memory Regions
  allocate_memory num_tiers r =
      if num_tiers == 2
      then (do
        local_base ← allocate_pages 4096 (add64 r.local_page_load r.remote_page_load)
        pmem_base ← bind_region 4096 r.pmem_page_load 2
        pure (record r { local_base = local_base; pmem_base = pmem_base }))
      else (do
        local_base ← bind_region 4096 r.local_page_load 0
        remote_base ← bind_region 4096 r.remote_page_load 1
        pmem_base ← bind_region 4096 r.pmem_page_load 2
        pure (record r {
          local_base = local_base;
          remote_base = remote_base;
          pmem_base = pmem_base;
        }))

-- A region of the destructor.
unfoldable pub release_region : (base page_load : ℕ) → Cmd Memory (Unit {0})
release_region base page_load =
    if not (base == 0) then munmap base ((page_load * 4096) % 2 ^ 64) else pure tt

-- The destructor.
unfoldable pub release : Regions → Cmd Memory (Unit {0})
release r = do
  release_region r.local_base r.local_page_load
  release_region r.remote_base r.remote_page_load
  release_region r.pmem_base r.pmem_page_load

-- `promoteRegion`: the advice is on the huge pages that the region touches, and its failure is ignored.
unfoldable pub promote_region : (base num_pages : ℕ) → Cmd Memory (Unit {0})
promote_region base num_pages =
    if base == 0 || num_pages == 0
    then pure tt
    else modify λ s. record s {
      advised = s.advised ++ (huge_range base ((num_pages * 4096) % 2 ^ 64) ∷ []);
    }

unfoldable pub promote_to_huge_page : (num_tiers : ℕ) → Regions → Cmd Memory (Unit {0})
promote_to_huge_page num_tiers r = do
  promote_region r.local_base r.local_page_load
  if num_tiers == 3 then promote_region r.remote_base r.remote_page_load else pure tt
  promote_region r.pmem_base r.pmem_page_load
