-- ===== src/PageTable/Init/Ringing.antt =====
-- `initPageTable` with the cache ring on: each local page gets its node.
use memory_tiering.Base.{
  ℕ, ◌+◌, ◌/◌, ◌≤◌, ◌<◌, ◌≡◌, ◌≢◌, refl, sym, ap, ◌∙◌, subst, true, false, ◌||◌, none, some, List,
  [], ◌∷◌, ◌++◌, if◌then◌else◌, length, length-append, arith, ◌==◌, Bool-cases, inl, inr, eq_of_==,
  ne_of_==,
}
use mathlib.Core.Option.{some-injective}
use memory_tiering.Base.Run.{ok, Returns, Returns-run, Returns-ok}
use memory_tiering.Common.{PageLayer, numa_local}
use memory_tiering.Machine.{Machine}
use memory_tiering.ClockRing
use memory_tiering.ClockRing.{ClockRing, Ptr, nullptr}
use memory_tiering.ClockRing.Cells.{Cell}
use memory_tiering.ClockRing.Ring.{IsRing}
use memory_tiering.ClockRing.Insert.{insert_lem, new_cell}
use memory_tiering.PageTable.{World, reading, update_entry, uses_ring}
use memory_tiering.PageTable.Entries.{
  PageTableEntry, Table, emplace, find, find-update_self, find-update_ne, same_layer,
}
use memory_tiering.PageTable.Init.{add_page, new_entry}
use memory_tiering.PageTable.Init.Filled.{find-emplace_ne, find-emplace_self}
use memory_tiering.PageTable.Coupled.{Coupled, Coupled-snoc}
use memory_tiering.PageTable.Moves.{layer_eq}
use memory_tiering.PageTable.RingFaults.{with_ring, on_ring-ok}
use memory_tiering.PageTable.Ringed.{Ringed, places}

places-append :
    (i : ℕ) (a : Ptr) (xs ys : List Cell) → places i a (xs ++ ys) ≡ (places i a xs || places i a ys)
unfolding places
places-append i a [] ys = refl
places-append i a (c ∷ xs) ys = ground (arith, places-append i a xs ys)

-- A new page appears in the table.
module _ (t t' : Table) (k : ℕ) (absent : find k t ≡ none)
    (others : (i : ℕ) → k ≢ i → find i t' ≡ find i t) where
  not_new : (i : ℕ) (x : PageTableEntry) → find i t ≡ some x → k ≢ i
  not_new i x at z =
      absurd (let both : find i t ≡ none = subst (λ j. find j t ≡ none) z absent in cc)

  Coupled-added : (xs : List Cell) → Coupled t xs → Coupled t' xs
  Coupled-added [] h = tt
  Coupled-added (c ∷ xs) (o, h) = (
    record {
      entry = o.entry;
      found = others c.page_id (not_new c.page_id o.entry o.found) ∙ o.found;
      local = o.local;
      node = o.node;
      not_null = o.not_null;
    },
    Coupled-added xs h,
  )

  every-added :
      (d : PageTableEntry) (xs ys : List Cell)
      → find k t' ≡ some d
      → (d.page_layer ≡ numa_local → places k d.ring_node_ptr ys ≡ true)
      → ((i : ℕ) (a : Ptr) → places i a xs ≡ true → places i a ys ≡ true)
      → ((i : ℕ) (x : PageTableEntry)
          → find i t ≡ some x
          → x.page_layer ≡ numa_local
          → places i x.ring_node_ptr xs ≡ true)
      → (i : ℕ) (x : PageTableEntry) → find i t' ≡ some x
      → x.page_layer ≡ numa_local
      → places i x.ring_node_ptr ys ≡ true
  every-added d xs ys new own more all i x at near = elim (Bool-cases (k == i)) [
    | inl q ↦
        let here = ap (λ j. find j t') (eq_of_== k i q) ∙ at in
        let same : d ≡ x = some-injective d x (sym new ∙ here) in
        ap (λ j. places j x.ring_node_ptr ys) (sym (eq_of_== k i q))
        ∙ ap (λ y. places k y.ring_node_ptr ys) (sym same)
        ∙ own (ap (λ y. y.page_layer) same ∙ near)
    | inr q ↦ more i x.ring_node_ptr (all i x (sym (others i (ne_of_== k i q)) ∙ at) near)
  ]

-- The state while the table is filled: the pages below `index` are there, and the ring holds `xs`.
pub record RingedAt (num_tiers capacity : ℕ) (xs : List Cell) (v : World) (index : ℕ) : Type 0 where
  pub ringed : Ringed v xs
  pub fresh : (j : ℕ) → index ≤ j → find j v.table ≡ none
  pub limit : ringed.ring.capacity ≡ capacity
  pub same_tiers : v.server_config.num_tiers ≡ num_tiers

-- How many nodes a page of the layer adds.
abbrev pub nodes : PageLayer → ℕ
nodes l = if same_layer l numa_local then 1 else 0

pub record Grown (num_tiers capacity n : ℕ) (v : World) (index : ℕ) : Type 0 where
  pub cells : List Cell
  pub at : RingedAt num_tiers capacity cells v index
  pub count : length cells ≡ n

module _ (machine : Machine) (uninitialised : ℕ → ℕ) (num_tiers capacity index addr : ℕ)
    (l : PageLayer) (v : World) (xs : List Cell) (is : RingedAt num_tiers capacity xs v index) where
  abbrev entry : PageTableEntry
  entry = record {
    page_address = addr;
    page_layer = l;
    last_access_time_ms = machine.steady_clock v.ticks / 1000;
    access_cnt = uninitialised v.ticks;
    ring_node_ptr = 0;
  }

  abbrev placed : World
  placed = record v { table = emplace index entry v.table; ticks = v.ticks + 1 }

  absent : find index v.table ≡ none
  absent = is.fresh index (omega arith)

  add_far : uses_ring v l ≡ false → add_page machine uninitialised index addr l v ≡ ok tt placed
  unfolding add_page new_entry reading
  add_far off = rw off refl

  far-Grown :
      same_layer l numa_local ≡ false
      → Returns
          (λ u v'. Grown num_tiers capacity (length xs + nodes l) v' (index + 1))
          (add_page machine uninitialised index addr l v)
  far-Grown far = Returns-ok tt placed (add_far (rw (is.ringed.on, far) refl)) (record {
    cells = xs;
    at = record {
      ringed = record {
        on = is.ringed.on;
        ring = is.ringed.ring;
        held = is.ringed.held;
        is = is.ringed.is;
        coupled =
            Coupled-added v.table placed.table index absent
              (λ i ne. find-emplace_ne index i entry v.table ne) xs is.ringed.coupled;
        every =
            every-added v.table placed.table index absent
              (λ i ne. find-emplace_ne index i entry v.table ne) entry xs xs
              (find-emplace_self index entry v.table absent)
              (λ z. absurd (let q : same_layer l numa_local ≡ true = rw z refl in cc)) (λ i a h. h)
              is.ringed.every;
      };
      fresh = λ j h.
          find-emplace_ne index j entry v.table (λ z. omega (arith, z, h))
          ∙ is.fresh j (omega (arith, h));
      limit = is.limit;
      same_tiers = is.same_tiers;
    };
    count = rw far (omega arith);
  })

  abbrev noded : Ptr → ClockRing → World
  noded a r = update_entry index (λ d. record d { ring_node_ptr = a }) (with_ring placed r)

  add_near :
      (a : Ptr) (r : ClockRing)
      → uses_ring v l ≡ true
      → ClockRing.insert index is.ringed.ring ≡ ok (true, a) r
      → add_page machine uninitialised index addr l v ≡ ok tt (noded a r)
  unfolding add_page new_entry reading
  add_near a r on run =
      rw
        (
          on,
          on_ring-ok (ClockRing.insert index) placed is.ringed.ring (true, a) r is.ringed.held run,
        )
        refl

  -- The last node is the new page's.
  placed_last : (a : Ptr) → places index a (xs ++ new_cell a index ∷ []) ≡ true
  unfolding places
  placed_last a = ground (arith, places-append index a xs (new_cell a index ∷ []))

  placed_before :
      (a : Ptr) (i : ℕ) (b : Ptr)
      → places i b xs ≡ true
      → places i b (xs ++ new_cell a index ∷ []) ≡ true
  placed_before a i b h = places-append i b xs (new_cell a index ∷ []) ∙ rw h refl

  near-RingedAt :
      (a : Ptr) (r : ClockRing)
      → l ≡ numa_local
      → a ≢ nullptr
      → IsRing r (xs ++ new_cell a index ∷ [])
      → r.capacity ≡ capacity
      → RingedAt num_tiers capacity (xs ++ new_cell a index ∷ []) (noded a r) (index + 1)
  unfolding update_entry
  near-RingedAt a r near ne ring limit =
      let new =
        find-update_self index (λ d. record d { ring_node_ptr = a }) placed.table entry
          (find-emplace_self index entry v.table absent) in
      record {
        ringed = record {
          on = is.ringed.on;
          ring = r;
          held = refl;
          is = ring;
          coupled =
              Coupled-snoc (noded a r).table xs (new_cell a index)
                (Coupled-added v.table (noded a r).table index absent others xs is.ringed.coupled)
                (record { entry = _; found = new; local = near; node = refl; not_null = ne });
          every =
              every-added v.table (noded a r).table index absent others
                (record entry { ring_node_ptr = a }) xs (xs ++ new_cell a index ∷ []) new
                (λ z. placed_last a) (placed_before a) is.ringed.every;
        };
        fresh = λ j h. others j (λ z. omega (arith, z, h)) ∙ is.fresh j (omega (arith, h));
        limit = limit;
        same_tiers = is.same_tiers;
      }
    where
      others : (i : ℕ) → index ≢ i → find i (noded a r).table ≡ find i v.table
      others i ne =
          find-update_ne index i _ placed.table ne ∙ find-emplace_ne index i entry v.table ne

  near-Grown :
      l ≡ numa_local
      → length xs < capacity
      → Returns
          (λ u v'. Grown num_tiers capacity (length xs + nodes l) v' (index + 1))
          (add_page machine uninitialised index addr l v)
  near-Grown near room =
      let (out, r, run, ins) = Returns-run (insert_lem is.ringed.ring index xs is.ringed.is) in
      let done : out.0 ≡ true = ins.done ∙ ground (arith, is.limit, room) in
      let run' = run ∙ ap (λ b. ok (b, out.1) r) done in
      let at : out.1 ≡ is.ringed.ring.fresh =
        ins.node ∙ ap (λ b. if b then is.ringed.ring.fresh else nullptr) done in
      let ring =
        subst (λ b. IsRing r (if b then xs ++ new_cell out.1 index ∷ [] else xs)) done ins.ring in
      Returns-ok tt (noded out.1 r) (add_near out.1 r (rw (is.ringed.on, near) refl) run') (record {
        cells = xs ++ new_cell out.1 index ∷ [];
        at =
            near-RingedAt out.1 r near (λ z. omega (arith, at, z, is.ringed.is.fresh)) ring
              (ins.capacity ∙ is.limit);
        count = length-append {0} xs (new_cell out.1 index ∷ []) ∙ rw near refl;
      })

  -- A page of any layer, if the ring has room for a local one.
  pub add_page-Grown :
      length xs + nodes l ≤ capacity
      → Returns
          (λ u v'. Grown num_tiers capacity (length xs + nodes l) v' (index + 1))
          (add_page machine uninitialised index addr l v)
  add_page-Grown room = elim (Bool-cases (same_layer l numa_local)) [
    | inl near ↦
        let one : nodes l ≡ 1 = rw near refl in
        near-Grown (layer_eq l numa_local near) (omega (arith, room, one))
    | inr far ↦ far-Grown far
  ]
