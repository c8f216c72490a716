-- ===== src/PageTable/Entries.antt =====
-- The page table's map from page ids to entries (`boost::unordered_map`), as an association list.
use memory_tiering.Base.{
  ℕ, ◌+◌, ◌≡◌, ◌≢◌, refl, Bool, true, false, Option, none, some, List, [], ◌∷◌, arith, ◌==◌,
  if◌then◌else◌, length,
}
use memory_tiering.Common.{PageLayer, numa_local, numa_remote, pmem}

-- `PageTableEntry` with its `PageMetadata`.
pub record PageTableEntry : Type 0 where
  pub page_address : ℕ
  pub page_layer : PageLayer
  pub last_access_time_ms : ℕ
  pub access_cnt : ℕ
  pub ring_node_ptr : ℕ

abbrev pub Table : Type 0
Table = List (ℕ × PageTableEntry)

unfoldable pub find : ℕ → Table → Option PageTableEntry
find k [] = none
find k ((j, e) ∷ t) = if j == k then some e else find k t

-- `emplace` changes nothing if the key is there.
unfoldable pub emplace : ℕ → PageTableEntry → Table → Table
emplace k e [] = (k, e) ∷ []
emplace k e ((j, d) ∷ t) = if j == k then (j, d) ∷ t else (j, d) ∷ emplace k e t

-- A change of the entry that a reference into the map denotes.
unfoldable pub update : ℕ → (PageTableEntry → PageTableEntry) → Table → Table
update k f [] = []
update k f ((j, e) ∷ t) = if j == k then (j, f e) ∷ t else (j, e) ∷ update k f t

abbrev pub same_layer : PageLayer → PageLayer → Bool
same_layer numa_local numa_local = true
same_layer numa_remote numa_remote = true
same_layer pmem pmem = true
same_layer _ _ = false

-- How many pages of the table lie on a layer.
unfoldable pub pages_on : PageLayer → Table → ℕ
pages_on l [] = 0
pages_on l ((j, e) ∷ t) = (if same_layer e.page_layer l then 1 else 0) + pages_on l t

pub find-update_self :
    (k : ℕ) (f : PageTableEntry → PageTableEntry) (t : Table) (e : PageTableEntry)
    → find k t ≡ some e
    → find k (update k f t) ≡ some (f e)
unfolding find update
find-update_self k f [] e h = cc
find-update_self k f ((j, d) ∷ t) e h = ground (arith, find-update_self k f t e)

pub find-update_ne :
    (k i : ℕ) (f : PageTableEntry → PageTableEntry) (t : Table)
    → k ≢ i
    → find i (update k f t) ≡ find i t
unfolding find update
find-update_ne k i f [] ne = refl
find-update_ne k i f ((j, d) ∷ t) ne = ground (arith, find-update_ne k i f t ne)

pub length-update :
    (k : ℕ) (f : PageTableEntry → PageTableEntry) (t : Table) → length (update k f t) ≡ length t
unfolding update
length-update k f [] = refl
length-update k f ((j, d) ∷ t) = ground (arith, length-update k f t)

-- A change of one page's layer moves one page between the two counts.
pub pages_on-update :
    (l : PageLayer) (k : ℕ) (f : PageTableEntry → PageTableEntry) (t : Table) (e : PageTableEntry)
    → find k t ≡ some e
    → pages_on l (update k f t) + (if same_layer e.page_layer l then 1 else 0)
      ≡ pages_on l t + (if same_layer (f e).page_layer l then 1 else 0)
unfolding find update pages_on
pages_on-update l k f [] e h = cc
pages_on-update l k f ((j, d) ∷ t) e h = ground (arith, pages_on-update l k f t e)
