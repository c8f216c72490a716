-- ===== src/Startup/Runs.antt =====
-- The run of the whole program with three tiers, from what main.cpp sets up on.
use memory_tiering.Base.{
  ℕ, zero, suc, ◌+◌, ◌%◌, ◌^◌, ◌<◌, ◌≤◌, ◌≡◌, sym, ap, ◌∙◌, subst, false, true, none, some, List,
  [], ◌∷◌, ◌++◌, arith, length, get_elem?, get_elem?-lt,
}
use mathlib.Core.Option.{some-injective}
use memory_tiering.Base.Run.{ok, Returns-Whenever, Whenever-run}
use memory_tiering.Common.{ClientConfig, ClientMessage, PolicyConfig, PageLayer}
use memory_tiering.Machine.{Machine}
use memory_tiering.Config.Limits.{AllSized}
use memory_tiering.PageTable.{World, layer_info}
use memory_tiering.PageTable.Spec.{MovesPages}
use memory_tiering.PageTable.Tally.{total_accesses}
use memory_tiering.PageTable.Init.{fill_table}
use memory_tiering.PageTable.Init.Filled.{total}
use memory_tiering.PageTable.Init.Starts.{asked, Started, fill_table-Started}
use memory_tiering.Metrics.{Counters}
use memory_tiering.Metrics.Periodic.{DoubleArith, total_access}
use memory_tiering.Metrics.Print.{
  Statistics, said, three_tier_counts, latency_lines, three_tier_migrations, throughput_lines,
  print_metrics_three_tiers,
}
use memory_tiering.RingBuffer.{CircularBuffer}
use memory_tiering.Generator.{Random, RandomLaws}
use memory_tiering.Generator.InRange.{IsReady}
use memory_tiering.Client.{Client, Thread, timing}
use memory_tiering.Scanner.{DoubleOps}
use memory_tiering.Scanner.Policy.{IsTyped}
use memory_tiering.Scanner.Tallies.{Counted}
use memory_tiering.Server.{create_base_page_id}
use memory_tiering.Delivery.{System, start, Reach}
use memory_tiering.Delivery.Drained.{shutdown-drained}
use memory_tiering.Delivery.Within.{accesses}
use memory_tiering.Delivery.Counted.{Covers, handled_counted}
use memory_tiering.Delivery.Finish.{IsOver, end_in_reach}
use memory_tiering.Startup.Ending.{print_totals}
use memory_tiering.Startup.{client_page_size, create_clients}
use memory_tiering.Startup.Found.{ids_within}
use memory_tiering.Startup.Launched.{
  AllPaged, no_more, and_paged, IsMade, create_clients-MadeFrom, length-base_page_ids,
}

module _ {F Engine : Type 0} (random : Random F Engine) (laws : RandomLaws random)
    (machine : Machine) (uninitialised : ℕ → ℕ) (bases : PageLayer → ℕ) (w : World)
    (configs : List (ClientConfig F)) where
  -- The pages of the i-th client.
  abbrev size_of : ℕ → ℕ
  size_of i = elim (get_elem? configs i) [ none ↦ 0 | some c ↦ client_page_size c.tier_sizes ]

  abbrev pages : ℕ
  pages = total (asked configs)

  Started-Counted :
      (w' : World)
      → Started w configs tt w'
      → w.scan_index ≡ 0
      → w.metrics.access_latency ≡ []
      → total_accesses w.metrics.now ≡ 0
      → 0 < pages
      → pages < 2 ^ 64
      → Counted 3 pages 0 w'
  Started-Counted w' s index fresh none_counted pos few = record {
    inv = record {
      off = s.off;
      consistent = s.consistent;
      index = omega (arith, s.same_scan_index, index, s.size, pos);
      small = omega (arith, s.size, few);
      tiers = λ two. absurd (omega (arith, two));
    };
    present = s.present;
    tally = record {
      samples = ap (λ m. length {0} m.access_latency) s.same_metrics ∙ ap (length {0}) fresh;
      counters = ap (λ m. total_accesses m.now) s.same_metrics ∙ none_counted ∙ omega arith;
    };
  }

  ids-Covers :
      (ids : List ℕ)
      → AllSized 3 configs
      → pages < 2 ^ 64
      → create_base_page_id 3 configs ≡ some ids
      → Covers (length configs) pages size_of ids
  unfolding create_base_page_id
  ids-Covers ids sized few e = record {
    bases = length-base_page_ids 0 configs ids e;
    within = λ i base lt at.
        let (c, here) = get_elem?-lt configs i lt in
        let bound = ids_within 0 configs ids i base c sized (omega (arith, few)) e here at in
        rw (here, size_of) (omega (arith, bound));
    small = few;
  }

  paged_at :
      (cs : List (ClientConfig F)) (i : ℕ) (c : ClientConfig F)
      → AllPaged cs
      → get_elem? cs i ≡ some c
      → 0 < client_page_size c.tier_sizes
  paged_at [] i c no_more e = absurd (cc)
  paged_at (d ∷ cs) zero c (and_paged pos more) e =
      subst (λ x. 0 < client_page_size x.tier_sizes) (some-injective d c e) pos
  paged_at (d ∷ cs) (suc i) c (and_paged pos more) e = paged_at cs i c more e

  some_pages :
      (ids : List ℕ)
      → Covers (length configs) pages size_of ids
      → AllPaged configs
      → 0 < length configs
      → 0 < pages
  some_pages ids covers paged room =
      let (c, here) = get_elem?-lt configs 0 room in
      let (base, at) = get_elem?-lt ids 0 (omega (arith, covers.bases, room)) in
      let pos : 0 < size_of 0 = rw (here, size_of) (paged_at configs 0 c paged here) in
      omega (arith, covers.within 0 base room at, pos)

  total_access-total_accesses : (c : Counters) → total_access c ≡ total_accesses c
  unfolding total_access
  total_access-total_accesses c = omega arith

  -- What main.cpp sets up: the page table `w'`, the first page ids, and the clients.
  module _ (one : F) (seeds : ℕ → Engine) (running_time : ℕ) (rw_ratio : F)
      (lib : CircularBuffer ClientMessage) (ops : DoubleOps F) (policy : PolicyConfig F)
      (moves : MovesPages machine) (typed : IsTyped policy) (capacity : ℕ)
      (three : w.server_config.num_tiers ≡ 3) (empty : w.table ≡ [])
      (off : w.enable_cache_ring ≡ false) (index : w.scan_index ≡ 0)
      (fresh : w.metrics.access_latency ≡ []) (none_counted : total_accesses w.metrics.now ≡ 0)
      (zero_counts : (l : PageLayer) → (layer_info l w).count ≡ 0) (sized : AllSized 3 configs)
      (paged : AllPaged configs) (some_client : 0 < length configs) (few : pages < 2 ^ 64)
      (fits : (l : PageLayer) → asked configs l ≤ (layer_info l w).capacity)
      (small : (l : PageLayer) → (layer_info l w).capacity < 2 ^ 64) (w' : World)
      (filled : fill_table machine uninitialised bases configs w ≡ ok tt w') (ids : List ℕ)
      (numbered : create_base_page_id 3 configs ≡ some ids) (ts : List (Thread F Engine))
      (made : create_clients random one seeds running_time rw_ratio 0 configs ≡ some ts)
      (clients : ℕ → Client F Engine)
      (listed : (i : ℕ)
        → i < length configs
        → get_elem? ts i ≡ some (record { client = clients i; phase = timing }))
      {s : System F Engine lib.Buffer}
      (r : Reach machine random lib ops policy 3
        (length configs)
        (start lib (length configs) capacity clients ids w')
        s) where
    covers : Covers (length configs) pages size_of ids
    covers = ids-Covers ids sized few numbered

    counted : Counted 3 pages 0 w'
    counted =
        Started-Counted w'
          (Whenever-run (Started w configs) tt w'
            (Returns-Whenever _ (
              fill_table-Started machine uninitialised bases w configs three empty off zero_counts
                sized few fits small))
            filled)
          index fresh none_counted (some_pages ids covers paged some_client) few

    clients-IsMade :
        (i : ℕ)
        → i < length configs
        → ((clients i).client_id ≡ i) × IsReady (size_of i) (clients i).generator
    clients-IsMade i lt =
        let (c, here) = get_elem?-lt configs i lt in
        let (ts', made', all) =
          create_clients-MadeFrom random laws one seeds running_time rw_ratio 0 configs paged in
        let (t, at, m) = all i c here in
        let same : t ≡ record { client = clients i; phase = timing } = some-injective t _ (
          sym at
          ∙ ap (λ l. get_elem? l i) (some-injective ts' ts (sym made' ∙ made))
          ∙ listed i lt) in
        let m' = subst (λ x. IsMade (0 + i) c x) same m in
        (omega (arith, m'.named), rw (here, size_of) m'.ready)

    -- With three tiers, no cache ring, an empty page table, nothing counted, clients (one or more) with
    -- three sizes each and a page at least, fewer than 2^64 in all, that fit into the layers, a policy
    -- whose parameters are those of its name and a `move_pages` that succeeds: once the filling of the table by `initPageTable`,
    -- the loop over the first page ids and the loop that creates the clients have run, in every state
    -- that the threads then reach the latencies recorded are as many as the reads and writes handled,
    -- and the access counters add up to that modulo 2^64.
    pub launched_counts :
        (length s.server.world.metrics.access_latency ≡ accesses s.handled)
        × (total_accesses s.server.world.metrics.now ≡ accesses s.handled % 2 ^ 64)
    launched_counts =
        let (samples, counters) =
          handled_counted machine random lib ops policy 3 (length configs) pages size_of ids laws
            moves typed covers 0 capacity some_client clients w' (λ i lt. (clients-IsMade i lt).0)
            (λ i lt. (clients-IsMade i lt).1) counted r in
        (omega (arith, samples), omega (arith, counters))

    -- Under the same conditions, if the ring buffer has room for a message, the threads can go on from
    -- every state that they reach to one in which the manager and the scanner are told to stop, the
    -- ring buffer is empty, all that was sent was handled, and every client has finished.
    pub launched_ends :
        0 < capacity
        → (t : System F Engine lib.Buffer) × Reach machine random lib ops policy 3
            (length configs)
            s
            t
          × IsOver machine random lib ops policy 3 (length configs) t
    launched_ends pos =
        end_in_reach machine random lib ops policy 3 (length configs) moves typed capacity
          some_client clients ids w' (λ i lt. (clients-IsMade i lt).0) covers.bases counted.inv pos
          r

    -- Under the same conditions, once the manager is told to stop, the totals that main prints give the
    -- throughput of as many accesses (modulo 2^64) as the reads and writes that the clients have sent.
    pub launched_report :
        (double : DoubleArith F) (stats : Statistics F)
        → s.server.manager_shutdown_flag ≡ true
        → print_totals double stats 3 s.server.world.metrics
          ≡ three_tier_counts double stats s.server.world.metrics.now
            ++ (latency_lines double stats "  Max:  " s.server.world.metrics.access_latency
                ++ (three_tier_migrations double stats s.server.world.metrics.now
                    ++ (throughput_lines double stats
                          (accesses s.sent % 2 ^ 64)
                          s.server.world.metrics.now.total_latency
                        ++ (said "===================================" ∷ []))))
    unfolding print_totals print_metrics_three_tiers
    launched_report double stats down =
        let m = s.server.world.metrics in
        let (_, same, _) =
          shutdown-drained machine random lib ops policy 3 (length configs) capacity clients ids w'
            some_client (λ i lt. (clients-IsMade i lt).0) r down in
        let all : total_access m.now ≡ accesses s.sent % 2 ^ 64 =
          total_access-total_accesses m.now
          ∙ launched_counts.1
          ∙ ap (λ l. accesses l % 2 ^ 64) same in
        ap
          (λ k.
            three_tier_counts double stats m.now
            ++ (latency_lines double stats "  Max:  " m.access_latency
                ++ (three_tier_migrations double stats m.now
                    ++ (throughput_lines double stats k m.now.total_latency
                        ++ (said "===================================" ∷ [])))))
          all
