-- ===== src/PageTable/Init/Starts.antt =====
-- The filling of the table sets up a table and counts that agree.
use memory_tiering.Base.{
  ℕ, ◌+◌, ◌^◌, ◌≤◌, ◌<◌, ◌≡◌, refl, sym, ap, ◌∙◌, false, some, List, [], ◌∷◌, length, arith,
}
use memory_tiering.Base.Run.{
  ok, Returns, returns, Returns-bind, Returns-mono, Returns-run, Returns-ok,
}
use memory_tiering.Common.{PageLayer, numa_local, numa_remote, pmem, ClientConfig}
use memory_tiering.Machine.{Machine}
use memory_tiering.Config.Limits.{AllSized, and_client, demand, three_of}
use memory_tiering.PageTable.{World, layer_info}
use memory_tiering.PageTable.Entries.{PageTableEntry, find, pages_on}
use memory_tiering.PageTable.Consistent.{IsConsistent}
use memory_tiering.PageTable.Init.{Filling, fill_clients, fill_table}
use memory_tiering.PageTable.Init.Filled.{
  Tally, total, Filled, FilledBy, Filled-same, plus_three, fill_three,
}

abbrev pub start : World → Filling
start w = record {
  world = w;
  current_index = 0;
  local_offset_pages = 0;
  remote_offset_pages = 0;
  pmem_offset_pages = 0;
}

module _ {F : Type 0} where
  -- What the clients ask for on each of three layers.
  abbrev pub asked : List (ClientConfig F) → Tally
  asked clients numa_local = demand 0 clients
  asked clients numa_remote = demand 1 clients
  asked clients pmem = demand 2 clients

  abbrev both : Tally → List (ClientConfig F) → Tally
  both n clients l = n l + asked clients l

  pub demand-cons :
      (c : ClientConfig F) (clients : List (ClientConfig F)) (a b d : ℕ)
      → c.tier_sizes ≡ a ∷ b ∷ d ∷ []
      → (demand 0 (c ∷ clients) ≡ a + demand 0 clients)
        × (demand 1 (c ∷ clients) ≡ b + demand 1 clients)
        × (demand 2 (c ∷ clients) ≡ d + demand 2 clients)
  unfolding demand
  demand-cons c clients a b d e = rw e (refl, refl, refl)

  -- What the start leaves: counts that are those of the pages and within the capacities, all pages
  -- that the clients ask for, and the rest as it was.
  pub record Started (w : World) (clients : List (ClientConfig F)) (u : Unit {0}) (w' : World)
      : Type 0 where
    pub consistent : IsConsistent w'
    pub placed : (l : PageLayer) → pages_on l w'.table ≡ asked clients l
    pub size : length w'.table ≡ total (asked clients)
    pub present :
        (j : ℕ) → j < total (asked clients) → (e : PageTableEntry) × (find j w'.table ≡ some e)
    pub off : w'.enable_cache_ring ≡ false
    pub same_tiers : w'.server_config.num_tiers ≡ w.server_config.num_tiers
    pub same_scan_index : w'.scan_index ≡ w.scan_index
    pub same_metrics : w'.metrics ≡ w.metrics

  module _ (machine : Machine) (uninitialised : ℕ → ℕ) (bases : PageLayer → ℕ) (w : World) where
    fill_clients-Filled :
        (clients : List (ClientConfig F)) (n : Tally) (s : Filling)
        → AllSized 3 clients
        → Filled w n n s.world s.current_index
        → total n + total (asked clients) < 2 ^ 64
        → Returns
            (FilledBy w (both n clients) (both n clients))
            (fill_clients machine uninitialised bases 3 clients s)
    unfolding fill_clients demand
    fill_clients-Filled [] n s sized f small =
        returns (Filled-same w n _ n _ s.world s.current_index none_more none_more f)
      where
        none_more : (l : PageLayer) → n l ≡ both n [] l
        none_more numa_local = omega arith
        none_more numa_remote = omega arith
        none_more pmem = omega arith
    fill_clients-Filled (c ∷ clients) n s (and_client size sized) f small =
        let (a, b, d, e) = three_of c.tier_sizes size in
        let (p, q, r) = demand-cons c clients a b d e in
        Returns-bind
          (fill_three machine uninitialised bases w c a b d n s e f (omega (arith, p, q, r, small)))
          λ u s1 f1.
            Returns-mono
              (fill_clients-Filled clients (plus_three machine uninitialised bases w a b d n) s1
                sized f1 (omega (arith, p, q, r, small)))
              λ u' s2.
                let same = same_tally a b d p q r in
                Filled-same w _ _ _ _ s2.world s2.current_index same same
      where
        same_tally :
            (a b d : ℕ)
            → demand 0 (c ∷ clients) ≡ a + demand 0 clients
            → demand 1 (c ∷ clients) ≡ b + demand 1 clients
            → demand 2 (c ∷ clients) ≡ d + demand 2 clients
            → (l : PageLayer)
            → both (plus_three machine uninitialised bases w a b d n) clients l
              ≡ both n (c ∷ clients) l
        same_tally a b d p q r numa_local = omega (arith, p)
        same_tally a b d p q r numa_remote = omega (arith, q)
        same_tally a b d p q r pmem = omega (arith, r)

    started :
        (clients : List (ClientConfig F)) (s : Filling)
        → ((l : PageLayer) → asked clients l ≤ (layer_info l w).capacity)
        → ((l : PageLayer) → (layer_info l w).capacity < 2 ^ 64)
        → Filled w (both (λ l. 0) clients) (both (λ l. 0) clients) s.world s.current_index
        → Started w clients tt s.world
    started clients s fits small f = record {
      consistent = record {
        counted = λ l. f.counts l ∙ sym (f.pages l);
        within = λ l. omega (arith, f.counts l, f.capacities l, fits l);
        small = λ l. omega (arith, f.capacities l, small l);
      };
      placed = λ l. omega (arith, f.pages l);
      size = omega (arith, f.size);
      present = λ j h. f.present j (omega (arith, f.size, h));
      off = f.off;
      same_tiers = f.same_tiers;
      same_scan_index = f.same_scan_index;
      same_metrics = f.same_metrics;
    }

    fill_table-ok :
        (clients : List (ClientConfig F)) (u : Unit {0}) (s : Filling)
        → w.server_config.num_tiers ≡ 3
        → fill_clients machine uninitialised bases 3 clients (start w) ≡ ok u s
        → fill_table machine uninitialised bases clients w ≡ ok tt s.world
    unfolding fill_table
    fill_table-ok clients u s three run =
        let run' =
          ap (λ k. fill_clients machine uninitialised bases k clients (start w)) three ∙ run in
        rw (run', fill_table) refl

    -- With three tiers, no cache ring, an empty table and counts of zero, and clients with three sizes
    -- each whose pages fit into the layers (and into 2^64), the filling of the table returns, and leaves as
    -- many pages on each layer as the clients ask for, counted and within the capacities, under the
    -- page ids from 0 on.
    pub fill_table-Started :
        (clients : List (ClientConfig F))
        → w.server_config.num_tiers ≡ 3
        → w.table ≡ []
        → w.enable_cache_ring ≡ false
        → ((l : PageLayer) → (layer_info l w).count ≡ 0)
        → AllSized 3 clients
        → total (asked clients) < 2 ^ 64
        → ((l : PageLayer) → asked clients l ≤ (layer_info l w).capacity)
        → ((l : PageLayer) → (layer_info l w).capacity < 2 ^ 64)
        → Returns (Started w clients) (fill_table machine uninitialised bases clients w)
    unfolding find pages_on
    fill_table-Started clients three empty off zero_counts sized few fits small =
        let first : Filled w (λ l. 0) (λ l. 0) w 0 = record {
          off = off;
          at_end = sym (ap (length {0}) empty);
          size = ap (length {0}) empty;
          fresh = λ j h. ap (find j) empty;
          present = λ j h. absurd (omega (arith, h, ap (length {0}) empty));
          pages = λ l. ap (pages_on l) empty;
          counts = zero_counts;
          capacities = λ l. refl;
          same_tiers = refl;
          same_scan_index = refl;
          same_metrics = refl;
        } in
        let (u, s, run, f) =
          Returns-run
            (fill_clients-Filled clients (λ l. 0) (start w) sized first (omega (arith, few))) in
        Returns-ok tt s.world (fill_table-ok clients u s three run) (started clients s fits small f)
