-- ===== src/PageTable/Touched.antt =====
-- `accessPage` with the cache ring on.
use memory_tiering.Base.{ℕ, ◌+◌, ◌/◌, add64, sub64, ◌≡◌, ◌≢◌, some, List, ◌∷◌, if◌then◌else◌}
use memory_tiering.Common.{numa_local}
use memory_tiering.Machine.{Machine}
use memory_tiering.Metrics
use memory_tiering.ClockRing
use memory_tiering.ClockRing.{ClockRing}
use memory_tiering.ClockRing.Cells.{Cell, mark}
use memory_tiering.PageTable.{World, accessed, count_access}
use memory_tiering.PageTable.Entries.{PageTableEntry, find, same_layer}
use memory_tiering.PageTable.Access.{ns_at}
use memory_tiering.PageTable.Ringed.{Ringed}

-- The nodes after an access to the page of an entry.
abbrev pub touched : PageTableEntry → List Cell → List Cell
touched e xs = if same_layer e.page_layer numa_local then mark e.ring_node_ptr xs else xs

pub record Touches (machine : Machine) (w : World) (page_id : ℕ) (e : PageTableEntry)
    (xs : List Cell) (w' : World) : Type 0 where
  pub now : ℕ
  pub latency : ℕ
  pub time : now ≡ machine.steady_clock (w.ticks + 1 + 1) / 1_000_000
  pub taken : latency ≡ sub64 (ns_at machine (w.ticks + 1)) (ns_at machine w.ticks)
  pub noted : find page_id w'.table ≡ some (accessed now e)
  pub others : (i : ℕ) → page_id ≢ i → find i w'.table ≡ find i w.table
  pub samples : w'.metrics.access_latency ≡ latency ∷ w.metrics.access_latency
  pub counters :
      w'.metrics.now
      ≡ count_access e.page_layer
          (record (w.metrics.now) { total_latency = add64 w.metrics.now.total_latency latency })
  pub ringed : Ringed w' (touched e xs)
