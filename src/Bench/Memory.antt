-- ===== src/Bench/Memory.antt =====
-- The memory of test_tools/benchmark.c: its allocation on a node, huge pages, and its migration.
-- The filling of the memory with ones, which makes it resident, is left out.
use memory_tiering.Base.{
  ℕ, zero, suc, ◌+◌, ◌-◌, ◌*◌, ◌%◌, ◌^◌, Bool, Option, none, some, List, [], ◌∷◌, ◌++◌, not, ◌&&◌,
  ◌==◌, if◌then◌else◌, add64, sub64,
}
use memory_tiering.Base.Run.{Cmd, exit_failure, pure, modify, ◌>>=◌, ◌>>◌}
use memory_tiering.Bench.{Sys, Process, reading, free, munmap, malloc, mmap}

abbrev pub huge_page_size : ℕ
huge_page_size = 2 * 1024 * 1024

-- `x & ~(HUGE_PAGE_SIZE - 1)`
unfoldable pub align_down : ℕ → ℕ
align_down x = x - x % huge_page_size

-- The range that `promote_to_huge_pages` gives advice on.
unfoldable pub huge_range : (addr size : ℕ) → ℕ × ℕ
huge_range addr size =
    let aligned_addr = align_down addr in
    let aligned_size = add64 size (sub64 addr aligned_addr) in
    (aligned_addr, align_down (sub64 (add64 aligned_size huge_page_size) 1))

-- `pages[i] = (char*)addr + i * size`
unfoldable pub page_pointers : (addr size i number : ℕ) → List ℕ
page_pointers addr size i zero = []
page_pointers addr size i (suc number) =
    add64 addr ((i * size) % 2 ^ 64) ∷ page_pointers addr size (i + 1) number

-- `nodes[i] = target_node`
unfoldable pub nodes_for : (target_node number : ℕ) → List ℕ
nodes_for target_node zero = []
nodes_for target_node (suc number) = target_node ∷ nodes_for target_node number

-- The pages that are on the node asked for.
unfoldable pub correct_pages : (numa_node : ℕ) → List ℕ → ℕ
correct_pages numa_node [] = 0
correct_pages numa_node (s ∷ status) =
    let rest = correct_pages numa_node status in if s == numa_node then suc rest else rest

unfoldable pub exit : {A : Type 0} → Cmd Process A
exit s = exit_failure

module _ (sys : Sys) where
  unfoldable pub promote_to_huge_pages : (addr size : ℕ) → Cmd Process Bool
  promote_to_huge_pages addr size = do
    let (aligned_addr, aligned_size) = huge_range addr size
    result ← reading λ n. sys.madvise n aligned_addr aligned_size
    modify λ s. record s { advised = s.advised ++ ((aligned_addr, aligned_size) ∷ []) }
    pure (result == 0)

  -- Where the pages are: how many are on the node, if the kernel says so. The program prints a warning
  -- if it is not all of them.
  unfoldable pub verify : (addr size number numa_node : ℕ) → Cmd Process (Option ℕ)
  verify addr size number numa_node = do
    status ← reading λ n. sys.status_of_pages n (page_pointers addr size 0 number)
    elim status [ none ↦ pure none | some status ↦ pure (some (correct_pages numa_node status)) ]

  -- `allocate_and_bind_to_numa`. If just one of the two arrays of its last part is there, it is not
  -- freed.
  unfoldable pub allocate_and_bind_to_numa : (size number numa_node : ℕ) → Cmd Process (Option ℕ)
  allocate_and_bind_to_numa size number numa_node = do
    addr ← mmap sys ((size * number) % 2 ^ 64)
    elim addr [
      | none ↦ pure none
      | some addr ↦ (do
        bound ← reading λ n. sys.mbind n addr ((size * number) % 2 ^ 64) numa_node
        if not (bound == 0) then (do munmap addr ((size * number) % 2 ^ 64); pure none) else (do
          promote_to_huge_pages addr ((size * number) % 2 ^ 64)
          pages ← malloc sys ((number * 8) % 2 ^ 64)
          status ← malloc sys ((number * 4) % 2 ^ 64)
          if pages && status
              then (do verify addr size number numa_node; free pages; free status)
              else pure tt
          pure (some addr)))
    ]

  unfoldable pub move_pages_to_node : (addr size number target_node : ℕ) → Cmd Process (Unit {0})
  move_pages_to_node addr size number target_node = do
    pages ← malloc sys ((number * 8) % 2 ^ 64)
    nodes ← malloc sys ((number * 4) % 2 ^ 64)
    status ← malloc sys ((number * 4) % 2 ^ 64)
    if not (pages && (nodes && status)) then (do free pages; free nodes; free status; exit) else (do
      moved ←
          reading
            λ n. sys.move_pages n (page_pointers addr size 0 number) (nodes_for target_node number)
      if not (moved == 0) then (do free pages; free nodes; free status; exit) else (do
        promote_to_huge_pages addr ((size * number) % 2 ^ 64)
        free pages
        free nodes
        free status))
