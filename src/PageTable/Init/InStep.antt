-- ===== src/PageTable/Init/InStep.antt =====
-- After `initPageTable` with the cache ring on, ring and table are in step.
use memory_tiering.Base.{
  ℕ, zero, suc, ◌+◌, ◌*◌, ◌^◌, ◌≤◌, ◌<◌, ◌≡◌, refl, sym, ap, ◌∙◌, subst, true, none, some, List, [],
  ◌∷◌, if◌then◌else◌, add64, length, arith, Bool-cases,
}
use mathlib.Core.Path.{subst₂}
use memory_tiering.Base.Run.{Returns, returns, Returns-bind, Returns-mono, Returns-run}
use memory_tiering.Common.{PageLayer, numa_local, numa_remote, pmem, ClientConfig}
use memory_tiering.Machine.{Machine}
use memory_tiering.Config.Limits.{AllSized, and_client, demand, three_of}
use memory_tiering.ClockRing.{ClockRing}
use memory_tiering.ClockRing.Cells.{Cell}
use memory_tiering.ClockRing.Ring.{IsRing}
use memory_tiering.PageTable.{World, set_count}
use memory_tiering.PageTable.Entries.{find, same_layer}
use memory_tiering.PageTable.Spec.{num_tiers-set}
use memory_tiering.PageTable.Init.{
  Filling, offset, advance, fill_pages, fill_layer, fill_client, fill_clients, fill_table,
}
use memory_tiering.PageTable.Init.Filled.{total, world-advance, index-advance}
use memory_tiering.PageTable.Init.Starts.{asked, demand-cons, start}
use memory_tiering.PageTable.Init.Ringing.{Grown, nodes, add_page-Grown}
use memory_tiering.PageTable.Ringed.{Ringed}

-- How many nodes so many pages of a layer add.
abbrev many : PageLayer → ℕ → ℕ
many l k = if same_layer l numa_local then k else 0

many-suc : (l : PageLayer) (k : ℕ) → many l (suc k) ≡ nodes l + many l k
many-suc l k = ground (arith, Bool-cases (same_layer l numa_local))

many-zero : (l : PageLayer) → many l 0 ≡ 0
many-zero l = ground (arith, Bool-cases (same_layer l numa_local))

module _ (machine : Machine) (uninitialised : ℕ → ℕ) (num_tiers capacity : ℕ)
    (bases : PageLayer → ℕ) where
  -- So many nodes and pages.
  record FillingWith (n pages : ℕ) (s : Filling) : Type 0 where
    grown : Grown num_tiers capacity n s.world s.current_index
    index : s.current_index ≡ pages

  abbrev To : ℕ → ℕ → Unit {0} → Filling → Type 0
  To n pages u s = FillingWith n pages s

  to_same :
      (n n' pages pages' : ℕ) (s : Filling)
      → n ≡ n'
      → pages ≡ pages'
      → FillingWith n pages s
      → FillingWith n' pages' s
  to_same n n' pages pages' s e e' f = record {
    grown = subst (λ k. Grown num_tiers capacity k s.world s.current_index) e f.grown;
    index = f.index ∙ e';
  }

  advanced :
      (l : PageLayer) (n pages : ℕ) (s : Filling)
      → Grown num_tiers capacity n s.world (pages + 1)
      → s.current_index ≡ pages
      → pages + 1 < 2 ^ 64
      → FillingWith n (pages + 1) (advance l s)
  advanced l n pages s g at small =
      let next : (advance l s).current_index ≡ pages + 1 =
        index-advance machine (λ x. x) l s ∙ omega (arith, at, small) in
      record {
        grown =
            subst₂ (Grown num_tiers capacity n) (sym (world-advance machine (λ x. x) l s))
              (sym next) g;
        index = next;
      }

  fill_pages-To :
      (l : PageLayer) (k n pages : ℕ) (s : Filling)
      → FillingWith n pages s
      → n + many l k ≤ capacity
      → pages + k < 2 ^ 64
      → Returns (To (n + many l k) (pages + k)) (fill_pages machine uninitialised bases l k s)
  unfolding fill_pages
  fill_pages-To l zero n pages s f room small =
      returns (to_same n _ pages _ s (omega (arith, many-zero l)) (omega arith) f)
  fill_pages-To l (suc k) n pages s f room small =
      let g = f.grown in
      let (u, v, run, g') = Returns-run (
        add_page-Grown machine uninitialised num_tiers capacity s.current_index
          (bases l + offset l s * 4096) l s.world g.cells g.at
          (omega (arith, room, many-suc l k, g.count))) in
      let s' = record s { world = v } in
      let h : Grown num_tiers capacity (n + nodes l) v (pages + 1) =
        subst₂ (λ m i. Grown num_tiers capacity m v i) (omega (arith, g.count))
          (omega (arith, f.index)) g' in
      rw run (
        Returns-mono
          (fill_pages-To l k (n + nodes l) (pages + 1) (advance l s')
            (advanced l (n + nodes l) pages s' h f.index (omega (arith, small)))
            (omega (arith, room, many-suc l k)) (omega (arith, small)))
          λ u' s''. to_same _ _ _ _ s'' (omega (arith, many-suc l k)) (omega arith))

  -- The count of a layer is set: ring and table stay.
  set_count-To :
      (l : PageLayer) (k n pages : ℕ) (u : Unit {0}) (s : Filling)
      → FillingWith n pages s
      → FillingWith n pages (record s { world = set_count l (λ count. add64 count k) s.world })
  unfolding set_count
  set_count-To l k n pages u s f =
      let g = f.grown in
      let v = g.at.ringed in
      record {
        grown = record {
          cells = g.cells;
          at = record {
            ringed = record {
              on = v.on;
              ring = v.ring;
              held = v.held;
              is = v.is;
              coupled = v.coupled;
              every = v.every;
            };
            fresh = g.at.fresh;
            limit = g.at.limit;
            same_tiers = num_tiers-set l _ s.world.server_config ∙ g.at.same_tiers;
          };
          count = g.count;
        };
        index = f.index;
      }

  fill_layer-To :
      (l : PageLayer) (k n pages : ℕ) (s : Filling)
      → FillingWith n pages s
      → n + many l k ≤ capacity
      → pages + k < 2 ^ 64
      → Returns
          (To (n + many l k) (pages + k))
          (fill_layer machine uninitialised bases l (some k) s)
  unfolding fill_layer
  fill_layer-To l k n pages s f room small =
      Returns-bind (fill_pages-To l k n pages s f room small)
        λ u s' g. returns (set_count-To l k _ _ u s' g)

  module _ {F : Type 0} where
    fill_three-To :
        (c : ClientConfig F) (a b d n pages : ℕ) (s : Filling)
        → c.tier_sizes ≡ a ∷ b ∷ d ∷ []
        → FillingWith n pages s
        → n + a ≤ capacity
        → pages + (a + b + d) < 2 ^ 64
        → Returns (To (n + a) (pages + (a + b + d))) (fill_client machine uninitialised bases 3 c s)
    unfolding fill_client
    fill_three-To c a b d n pages s e f room small = rw e (
        Returns-bind (fill_layer-To numa_local a n pages s f room (omega (arith, small))) λ u s1 f1.
          Returns-bind
            (fill_layer-To numa_remote b (n + a) (pages + a) s1 f1 (omega (arith, room))
              (omega (arith, small)))
            λ u' s2 f2.
              Returns-mono
                (fill_layer-To pmem d (n + a + 0) (pages + a + b) s2 f2 (omega (arith, room))
                  (omega (arith, small)))
                λ u'' s3. to_same _ _ _ _ s3 (omega arith) (omega arith))

    fill_clients-To :
        (clients : List (ClientConfig F)) (n pages : ℕ) (s : Filling)
        → AllSized 3 clients
        → FillingWith n pages s
        → n + demand 0 clients ≤ capacity
        → pages + total (asked clients) < 2 ^ 64
        → Returns
            (To (n + demand 0 clients) (pages + total (asked clients)))
            (fill_clients machine uninitialised bases 3 clients s)
    unfolding fill_clients demand
    fill_clients-To [] n pages s sized f room small =
        returns (to_same n _ pages _ s (omega arith) (omega arith) f)
    fill_clients-To (c ∷ clients) n pages s (and_client size sized) f room small =
        let (a, b, d, e) = three_of c.tier_sizes size in
        let (p, q, r) = demand-cons c clients a b d e in
        Returns-bind
          (fill_three-To c a b d n pages s e f (omega (arith, p, room))
            (omega (arith, p, q, r, small)))
          λ u s1 f1.
            Returns-mono
              (fill_clients-To clients (n + a) (pages + (a + b + d)) s1 sized f1
                (omega (arith, p, room)) (omega (arith, p, q, r, small)))
              λ u' s2. to_same _ _ _ _ s2 (omega (arith, p)) (omega (arith, p, q, r))

pub record InStep {F : Type 0} (capacity : ℕ) (clients : List (ClientConfig F)) (u : Unit {0})
    (w' : World) : Type 0 where
  pub cells : List Cell
  pub ringed : Ringed w' cells
  pub count : length cells ≡ demand 0 clients
  pub limit : ringed.ring.capacity ≡ capacity

-- With three tiers, an empty table and the ring on, new and with room for all local pages of the
-- clients, which have three sizes each (and whose pages number below 2^64), the filling
-- returns, with ring and table in step: the ring has one node for each local page asked for.
pub fill_table-InStep :
    {F : Type 0} (machine : Machine) (uninitialised : ℕ → ℕ) (capacity : ℕ) (bases : PageLayer → ℕ)
    (clients : List (ClientConfig F)) (w : World) (ring : ClockRing)
    → w.server_config.num_tiers ≡ 3
    → w.table ≡ []
    → w.enable_cache_ring ≡ true
    → w.local_cache_ring ≡ some ring
    → IsRing ring []
    → ring.capacity ≡ capacity
    → AllSized 3 clients
    → demand 0 clients ≤ capacity
    → total (asked clients) < 2 ^ 64
    → Returns (InStep capacity clients) (fill_table machine uninitialised bases clients w)
unfolding fill_table find
fill_table-InStep machine uninitialised capacity bases clients w ring three empty on held is limit
      sized room few =
    let first : Ringed w [] = record {
      on = on;
      ring = ring;
      held = held;
      is = is;
      coupled = tt;
      every = λ i e at. absurd (let none_there : find i w.table ≡ none = ap (find i) empty in cc);
    } in
    let (u, s, run, f) = Returns-run (
      fill_clients-To machine uninitialised 3 capacity bases clients 0 0 (start w) sized
        (record {
          grown = record {
            cells = [];
            at = record {
              ringed = first;
              fresh = λ j h. ap (find j) empty;
              limit = limit;
              same_tiers = three;
            };
            count = refl;
          };
          index = refl;
        })
        (omega (arith, room)) (omega (arith, few))) in
    let run' = ap (λ k. fill_clients machine uninitialised bases k clients (start w)) three ∙ run in
    rw (run', fill_table)
      (returns (record {
        cells = f.grown.cells;
        ringed = f.grown.at.ringed;
        count = f.grown.count ∙ omega arith;
        limit = f.grown.at.limit;
      }))
