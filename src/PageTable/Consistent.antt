-- ===== src/PageTable/Consistent.antt =====
-- The memory configuration agrees with the page table.
use memory_tiering.Base.{
  ℕ, ◌+◌, ◌^◌, ◌≤◌, ◌<◌, ◌≡◌, refl, Bool, true, false, arith, if◌then◌else◌, inc64, dec64, ap, sym,
  ◌∙◌,
}
use memory_tiering.Common.{PageLayer, numa_local, numa_remote, pmem}
use memory_tiering.PageTable.{World, layer_info, set_layer_info, set_count, count_event}
use memory_tiering.Metrics.{Counters}
use memory_tiering.PageTable.Entries.{same_layer, pages_on}

-- The count of each layer is the number of pages on it, and no layer holds more than it may.
pub record IsConsistent (w : World) : Type 0 where
  pub counted : (l : PageLayer) → (layer_info l w).count ≡ pages_on l w.table
  pub within : (l : PageLayer) → (layer_info l w).count ≤ (layer_info l w).capacity
  pub small : (l : PageLayer) → (layer_info l w).capacity < 2 ^ 64

abbrev pub bit : Bool → ℕ
bit b = if b then 1 else 0

module _ (w : World) (f : ℕ → ℕ) where
  pub count-set_count :
      (k l : PageLayer)
      → (layer_info l (set_count k f w)).count
        ≡ (if same_layer k l then f (layer_info l w).count else (layer_info l w).count)
  unfolding set_count layer_info set_layer_info
  count-set_count numa_local numa_local = refl
  count-set_count numa_local numa_remote = refl
  count-set_count numa_local pmem = refl
  count-set_count numa_remote numa_local = refl
  count-set_count numa_remote numa_remote = refl
  count-set_count numa_remote pmem = refl
  count-set_count pmem numa_local = refl
  count-set_count pmem numa_remote = refl
  count-set_count pmem pmem = refl

  pub capacity-set_count :
      (k l : PageLayer) → (layer_info l (set_count k f w)).capacity ≡ (layer_info l w).capacity
  unfolding set_count layer_info set_layer_info
  capacity-set_count numa_local numa_local = refl
  capacity-set_count numa_local numa_remote = refl
  capacity-set_count numa_local pmem = refl
  capacity-set_count numa_remote numa_local = refl
  capacity-set_count numa_remote numa_remote = refl
  capacity-set_count numa_remote pmem = refl
  capacity-set_count pmem numa_local = refl
  capacity-set_count pmem numa_remote = refl
  capacity-set_count pmem pmem = refl

-- `count--` on the one layer and `count++` on the other follow the page.
pub counts_follow :
    (count cap pages pages' : ℕ) (from to : Bool)
    → count ≡ pages
    → count ≤ cap
    → cap < 2 ^ 64
    → pages' + bit from ≡ pages + bit to
    → (to ≡ true → count < cap)
    → let c = (if from then dec64 count else count) in
      let c' = (if to then inc64 c else c) in (c' ≡ pages') × (c' ≤ cap)
counts_follow count cap pages pages' true true e b s m room = (omega arith, omega arith)
counts_follow count cap pages pages' true false e b s m room = (omega arith, omega arith)
counts_follow count cap pages pages' false true e b s m room =
    let lt : count < cap = room refl in (omega arith, omega arith)
counts_follow count cap pages pages' false false e b s m room = (omega arith, omega arith)

pub layer_info-count_event :
    (f : Counters → Counters) (w : World) (l : PageLayer)
    → layer_info l (count_event f w) ≡ layer_info l w
unfolding count_event layer_info
layer_info-count_event f w numa_local = refl
layer_info-count_event f w numa_remote = refl
layer_info-count_event f w pmem = refl

-- The predicate reads the configuration and the table alone.
pub layer_info-same :
    (w w' : World) (l : PageLayer)
    → w'.server_config ≡ w.server_config
    → layer_info l w' ≡ layer_info l w
unfolding layer_info
layer_info-same w w' numa_local e = ap (λ c. c.local_numa) e
layer_info-same w w' numa_remote e = ap (λ c. c.remote_numa) e
layer_info-same w w' pmem e = ap (λ c. c.pmem) e

pub IsConsistent-same :
    (w w' : World)
    → w'.server_config ≡ w.server_config
    → w'.table ≡ w.table
    → IsConsistent w
    → IsConsistent w'
IsConsistent-same w w' e t c = record {
  counted =
      λ l. ap (λ i. i.count) (layer_info-same w w' l e) ∙ c.counted l ∙ ap (pages_on l) (sym t);
  within = λ l. rw (layer_info-same w w' l e) (c.within l);
  small = λ l. rw (layer_info-same w w' l e) (c.small l);
}
