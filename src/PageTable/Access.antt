-- ===== src/PageTable/Access.antt =====
-- `accessPage` for a page that is not in the cache ring, and for one that does not exist.
use memory_tiering.Base.{
  ℕ, ◌+◌, ◌*◌, ◌/◌, ◌%◌, ◌^◌, sub64, ◌≡◌, ◌≢◌, refl, false, none, some, ◌∷◌, arith, add64, length,
}
use memory_tiering.Base.Run.{ok, Returns, returns}
use memory_tiering.Common.{PageLayer}
use memory_tiering.Machine.{Machine}
use memory_tiering.Metrics
use memory_tiering.PageTable.{
  World, access_page_of, access_entry, access_page, get_time_ns, accessed, now_ms, reading,
  uses_ring, update_entry, count_event, count_access,
}
use memory_tiering.PageTable.Entries.{
  PageTableEntry, find, find-update_self, find-update_ne, pages_on, length-update, pages_on-update,
}
use memory_tiering.PageTable.Consistent.{IsConsistent, layer_info-same}
use memory_tiering.PageTable.Migrate.{on_page-none, on_page-some}

-- A reading of `clock_gettime`, in nanoseconds.
abbrev pub ns_at : Machine → ℕ → ℕ
ns_at machine n = let (sec, nsec) = machine.clock_gettime n in (sec * 1_000_000_000 + nsec) % 2 ^ 64

-- The access is noted in the page's entry and in the metrics: the time is the first reading of the
-- steady clock after it, in milliseconds, and the latency the difference of two readings round it.
pub record Accesses (machine : Machine) (w : World) (page_id : ℕ) (e : PageTableEntry) (w' : World)
    : Type 0 where
  pub now : ℕ
  pub latency : ℕ
  pub time : now ≡ machine.steady_clock (w.ticks + 1 + 1) / 1_000_000
  pub taken : latency ≡ sub64 (ns_at machine (w.ticks + 1)) (ns_at machine w.ticks)
  pub noted : find page_id w'.table ≡ some (accessed now e)
  pub others : (i : ℕ) → page_id ≢ i → find i w'.table ≡ find i w.table
  pub samples : w'.metrics.access_latency ≡ latency ∷ w.metrics.access_latency
  pub counters :
      w'.metrics.now
      ≡ count_access e.page_layer
          (record (w.metrics.now) { total_latency = add64 w.metrics.now.total_latency latency })
  pub same_config : w'.server_config ≡ w.server_config
  pub same_ring : w'.local_cache_ring ≡ w.local_cache_ring
  pub same_enabled : w'.enable_cache_ring ≡ w.enable_cache_ring
  pub same_scan_index : w'.scan_index ≡ w.scan_index
  pub same_pages : (l : PageLayer) → pages_on l w'.table ≡ pages_on l w.table
  pub same_size : length w'.table ≡ length w.table

module _ (machine : Machine) (page_id : ℕ) (w : World) where
  -- An unknown page: nothing happens.
  pub access_absent : find page_id w.table ≡ none → access_page_of machine page_id w ≡ ok tt w
  unfolding access_page_of
  access_absent absent = on_page-none page_id _ w absent

  access_entry-Accesses :
      (e : PageTableEntry)
      → find page_id w.table ≡ some e
      → uses_ring w e.page_layer ≡ false
      → Returns (λ u w'. Accesses machine w page_id e w') (access_entry machine page_id e w)
  unfolding access_entry access_page get_time_ns now_ms reading update_entry count_event
      Metrics.record_access_latency
  access_entry-Accesses e found off = rw off (
      returns (record {
        now = _;
        latency = _;
        time = refl;
        taken = refl;
        noted = find-update_self page_id _ w.table e found;
        others = λ i ne. find-update_ne page_id i _ w.table ne;
        samples = refl;
        counters = refl;
        same_config = refl;
        same_ring = refl;
        same_enabled = refl;
        same_scan_index = refl;
        same_pages = λ l. omega (arith, pages_on-update l page_id (accessed _) w.table e found);
        same_size = length-update page_id _ w.table;
      }))

  pub access_page_of-Accesses :
      (e : PageTableEntry)
      → find page_id w.table ≡ some e
      → uses_ring w e.page_layer ≡ false
      → Returns (λ u w'. Accesses machine w page_id e w') (access_page_of machine page_id w)
  unfolding access_page_of
  access_page_of-Accesses e found off =
      rw (on_page-some page_id (access_entry machine page_id) w found)
        (access_entry-Accesses e found off)

-- So an access keeps the configuration consistent.
pub Accesses-IsConsistent :
    (machine : Machine) (w : World) (page_id : ℕ) (e : PageTableEntry) (w' : World)
    → Accesses machine w page_id e w'
    → IsConsistent w
    → IsConsistent w'
Accesses-IsConsistent machine w page_id e w' a c = record {
  counted = λ l. rw (layer_info-same w w' l a.same_config, a.same_pages l) (c.counted l);
  within = λ l. rw (layer_info-same w w' l a.same_config) (c.within l);
  small = λ l. rw (layer_info-same w w' l a.same_config) (c.small l);
}
