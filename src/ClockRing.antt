-- ===== src/ClockRing.antt =====
-- include/server/ClockRing.hpp and src/server/ClockRing.cpp: nodes at addresses of an explicit
-- heap, linked both ways round the ring. `new` takes the next unused address; a freed address holds
-- no node, and reading through it is a fault.
pub mod Cells
pub mod Linked
pub mod Ring
pub mod Insert
pub mod Remove
pub mod Evict
pub mod Mark
pub mod SecondChance
pub mod Destroy
use memory_tiering.Base.{
  ℕ, zero, suc, ◌+◌, Bool, true, false, Option, none, some, ◌==◌, if◌then◌else◌, leb, not, inc64,
  dec64,
}
use memory_tiering.Base.Run.{out_of_fuel, Cmd, pure, get_state, modify, assert, deref, ◌>>=◌, ◌>>◌}

abbrev pub Ptr : Type 0
Ptr = ℕ

abbrev pub nullptr : Ptr
nullptr = 0

pub record ClockRingNode : Type 0 where
  pub page_id : ℕ
  pub ref_bit : Bool
  pub prev : Ptr
  pub next : Ptr

abbrev pub Heap : Type 0
Heap = Ptr → Option ClockRingNode

-- The object, with the nodes that it owns and the next address that `new` returns.
pub record ClockRing : Type 0 where
  pub hand : Ptr
  pub size : ℕ
  pub capacity : ℕ
  pub heap : Heap
  pub fresh : Ptr

unfoldable pub write : Heap → Ptr → Option ClockRingNode → Heap
write h p c a = if a == p then c else h a

-- What `p` points to; there is nothing at `nullptr`.
unfoldable pub at : Heap → Ptr → Option ClockRingNode
at h p = if p == nullptr then none else h p

unfoldable pub load : Ptr → Cmd ClockRing ClockRingNode
load p r = deref (at r.heap p) r

unfoldable pub store : Ptr → Option ClockRingNode → Cmd ClockRing (Unit {0})
store p c = modify (λ r. record r { heap = write r.heap p c })

-- `delete` of a node; of one that is not there, as after another `delete`, it is a fault.
unfoldable pub delete_node : Ptr → Cmd ClockRing (Unit {0})
delete_node p = load p >> store p none

unfoldable pub set_next : Ptr → Ptr → Cmd ClockRing (Unit {0})
set_next p q = do n ← load p; store p (some (record n { next = q }))

unfoldable pub set_prev : Ptr → Ptr → Cmd ClockRing (Unit {0})
set_prev p q = do n ← load p; store p (some (record n { prev = q }))

unfoldable pub set_ref_bit : Ptr → Bool → Cmd ClockRing (Unit {0})
set_ref_bit p b = do n ← load p; store p (some (record n { ref_bit = b }))

unfoldable pub set_hand : Ptr → Cmd ClockRing (Unit {0})
set_hand p = modify (λ r. record r { hand = p })

-- The constructor. The heap is the process's, and starts with no node.
unfoldable pub create : ℕ → ClockRing
create capacity = record {
  hand = nullptr;
  size = 0;
  capacity = capacity;
  heap = λ _. none;
  fresh = 1;
}

-- `new ClockRingNode(page_id)`
unfoldable pub new_node : ℕ → Cmd ClockRing Ptr
new_node page_id = do
  r ← get_state
  store r.fresh
      (some (record { page_id = page_id; ref_bit = false; prev = nullptr; next = nullptr }))
  modify (λ r'. record r' { fresh = r.fresh + 1 })
  pure r.fresh

-- The links that `insert` sets round the new node.
unfoldable pub link : Ptr → Ptr → Cmd ClockRing (Unit {0})
link node hand =
    if hand == nullptr then (do set_prev node node; set_next node node; set_hand node) else (do
      h ← load hand
      let tail = h.prev
      set_next tail node
      set_prev node tail
      set_next node hand
      set_prev hand node)

-- `insert`: the result and `out_ptr`, which stays `nullptr` when the ring is full.
unfoldable pub insert : ℕ → Cmd ClockRing (Bool × Ptr)
insert page_id = do
  r ← get_state
  if leb r.capacity r.size then pure (false, nullptr) else (do
    node ← new_node page_id
    link node r.hand
    modify (λ r'. record r' { size = inc64 r'.size })
    pure (true, node))

-- The links that `remove` changes round the node.
unfoldable pub unlink : Ptr → Cmd ClockRing (Unit {0})
unlink node_ptr = do
  n ← load node_ptr
  if n.next == node_ptr then set_hand nullptr else (do
    set_next n.prev n.next
    n' ← load node_ptr
    set_prev n'.next n'.prev
    r ← get_state
    if r.hand == node_ptr then (do n'' ← load node_ptr; set_hand n''.next) else pure tt)

-- `remove`. The caller's pointer, set to `nullptr` at the end, is a local of the caller.
unfoldable pub remove : Ptr → Cmd ClockRing (Unit {0})
remove node_ptr = do
  assert (not (node_ptr == nullptr))
  unlink node_ptr
  delete_node node_ptr
  modify (λ r. record r { size = dec64 r.size })

unfoldable pub mark_accessed : Ptr → Cmd ClockRing (Unit {0})
mark_accessed node = if node == nullptr then pure tt else set_ref_bit node true

-- The loop of `findEvictionCandidate`, on fuel.
unfoldable pub sweep : ℕ → Cmd ClockRing ℕ
sweep zero = λ _. out_of_fuel
sweep (suc fuel) = do
  r ← get_state
  n ← load r.hand
  let rest : Cmd ClockRing ℕ = do
    set_ref_bit r.hand false
    n' ← load r.hand
    set_hand n'.next
    sweep fuel
  if n.ref_bit then rest else (do set_hand n.next; remove r.hand; pure n.page_id)

-- One round clears every bit, so one step more than a round is enough.
unfoldable pub find_eviction_candidate : Cmd ClockRing ℕ
find_eviction_candidate = do r ← get_state; assert (not (r.hand == nullptr)); sweep (r.size + 1)

unfoldable pub is_empty : ClockRing → Bool
is_empty r = r.size == 0

-- The loop of the destructor, which runs until `size_` is 0.
unfoldable pub destroy_nodes : ℕ → Cmd ClockRing (Unit {0})
destroy_nodes zero = pure tt
destroy_nodes (suc size) = do
  r ← get_state
  node ← load r.hand
  set_hand node.next
  delete_node r.hand
  modify λ r. record r { size = size }
  destroy_nodes size

unfoldable pub destroy : Cmd ClockRing (Unit {0})
destroy = do r ← get_state; destroy_nodes r.size; set_hand nullptr
