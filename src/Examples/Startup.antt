-- ===== src/Examples/Startup.antt =====
-- A client of four pages, with the theorems on the memory and the pages that it gets.
use memory_tiering.Base.{
  ℕ, ◌≢◌, none, ◌+◌, ◌*◌, ◌==◌, if◌then◌else◌, ◌≡◌, refl, some, [], ◌∷◌, arith,
}
use mathlib.Core.Option.{some-injective}
use memory_tiering.Base.Run.{fault, Returns, and_then}
use memory_tiering.PageTable.Regions.{Paging, Memory, Regions, no_regions, allocate_memory, release}
use memory_tiering.PageTable.Regions.Released.{Maps, allocate-release}
use memory_tiering.Common.{numa_local, numa_remote, pmem, uniform}
use memory_tiering.Config.Limits.{no_clients, and_client, demand}
use memory_tiering.PageTable.{World, layer_info}
use memory_tiering.PageTable.Entries.{PageTableEntry, find}
use memory_tiering.PageTable.Init.Starts.{Started}
use memory_tiering.PageTable.Allocated.{
  AllThere, init_page_table, init_page_table-Started, refused-fault,
}
use memory_tiering.Server.{client_pages, base_page_ids, create_base_page_id}
use memory_tiering.Generator
use memory_tiering.Generator.{draw, generate_pid}
use memory_tiering.Generator.InRange.{generate_pids}
use memory_tiering.Startup.{add_tier_sizes, client_page_size}
use memory_tiering.Startup.Found.{asked-Found}
use memory_tiering.Examples.Tables.{machine, blank, one_client}
use memory_tiering.Examples.Threads.{random, random-laws}

-- A kernel that grants everything.
abbrev pub granting : Paging
granting = record { mmap = λ n bytes. some (65536 * (n + 1)); mbind = λ n addr bytes node. 0 }

pub granting-nonnull : (n bytes addr : ℕ) → granting.mmap n bytes ≡ some addr → addr ≢ 0
granting-nonnull n bytes addr e z =
    let same = some-injective (65536 * (n + 1)) addr e in omega (arith, same, z)

pub granting-grants : (n bytes : ℕ) → bytes ≢ 0 → (addr : ℕ) × (granting.mmap n bytes ≡ some addr)
granting-grants n bytes some_bytes = (65536 * (n + 1), refl)

abbrev pub memory : Memory
memory = record { maps = (4096, 12288) ∷ []; advised = []; ticks = 0 }

-- The page table of the client, as the constructor leaves it.
abbrev new_table : World
new_table = record blank { local_page_load = 2; remote_page_load = 1; pmem_page_load = 1 }

init_page_table-Started_example :
    Returns
      (λ u o. Started new_table one_client tt o.world × AllThere new_table o.regions o.memory)
      (init_page_table granting machine (λ n. 0) one_client new_table memory)
unfolding layer_info demand
init_page_table-Started_example =
    init_page_table-Started granting granting-nonnull granting-grants (λ n addr bytes node. refl)
      machine (λ n. 0) one_client new_table memory refl refl refl
      (elim [ numa_local ↦ refl | numa_remote ↦ refl | pmem ↦ refl ]) (and_client refl no_clients)
      (omega arith)
      (elim [ numa_local ↦ omega arith | numa_remote ↦ omega arith | pmem ↦ omega arith ])
      (elim [ numa_local ↦ omega arith | numa_remote ↦ omega arith | pmem ↦ omega arith ])

-- A kernel that refuses everything.
abbrev refusing : Paging
refusing = record { mmap = λ n bytes. none; mbind = λ n addr bytes node. 1 }

refused-fault_example :
    init_page_table refusing machine (λ n. 0) one_client new_table memory ≡ fault
refused-fault_example =
    refused-fault refusing machine (λ n. 0) one_client new_table memory refl refl
      (λ z. omega (arith, z))

asked-Found_example :
    Returns
      (λ u o. (e : PageTableEntry) × (find 0 o.world.table ≡ some e))
      (init_page_table granting machine (λ n. 0) one_client new_table memory)
unfolding layer_info demand client_pages base_page_ids create_base_page_id Generator.create draw
    generate_pid generate_pids add_tier_sizes client_page_size
asked-Found_example =
    asked-Found random random-laws machine (λ n. 0) granting new_table memory one_client (0 ∷ []) 0
      0 (record { pattern = uniform; tier_sizes = 2 ∷ 1 ∷ 1 ∷ []; zipf_s = 1 }) 1 0 _ 2 1 0
      granting-nonnull granting-grants (λ n addr bytes node. refl) refl refl refl
      (elim [ numa_local ↦ refl | numa_remote ↦ refl | pmem ↦ refl ]) (and_client refl no_clients)
      (omega arith)
      (elim [ numa_local ↦ omega arith | numa_remote ↦ omega arith | pmem ↦ omega arith ])
      (elim [ numa_local ↦ omega arith | numa_remote ↦ omega arith | pmem ↦ omega arith ]) refl refl
      refl (omega arith) refl refl

-- A kernel that binds no memory to the second node.
abbrev paging : Paging
paging = record {
  mmap = λ n bytes. some (65536 * (n + 1));
  mbind = λ n addr bytes node. if node == 1 then 1 else 0;
}

abbrev four_pages : Regions
four_pages = record no_regions { local_page_load = 2; remote_page_load = 1; pmem_page_load = 1 }

allocate-release_example :
    Returns
      (λ u t. Maps [] memory t)
      (and_then (allocate_memory paging 3 four_pages memory) release)
allocate-release_example = allocate-release paging four_pages memory (λ n bytes addr e z.
    let same = some-injective (65536 * (n + 1)) addr e in omega (arith, same, z))
