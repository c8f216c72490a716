-- ===== src/Delivery/Counted.antt =====
-- The metrics at the end of the run: every access that was handled is counted, and no other.
use memory_tiering.Base.{
  ℕ, ◌+◌, ◌%◌, ◌^◌, ◌<◌, ◌≤◌, ◌≡◌, refl, sym, ap, ◌∙◌, subst, Bool, true, some, List, [], ◌∷◌, ◌++◌,
  length, get_elem?, get_elem?-lt, add64, arith, ◌==◌, Bool-cases, inl, inr, eq_of_==,
}
use memory_tiering.Base.Run.{
  Run, Cmd, ok, Returns, returns, Returns-mono, Returns-Whenever, Whenever-run,
}
use memory_tiering.Common.{OperationType, read, write, end, ClientMessage, PolicyConfig}
use memory_tiering.Machine.{Machine}
use memory_tiering.Metrics.Periodic.{DoubleArith, periodical_metrics}
use memory_tiering.Scanner.Invariant.{Inv-metrics}
use memory_tiering.PageTable.{World}
use memory_tiering.PageTable.Spec.{MovesPages}
use memory_tiering.PageTable.Tally.{total_accesses}
use memory_tiering.RingBuffer.{CircularBuffer, pop}
use memory_tiering.RingBuffer.Fifo.{dequeue, pop_lem}
use memory_tiering.Generator.{Random, RandomLaws}
use memory_tiering.Generator.InRange.{IsReady}
use memory_tiering.Client.{Client, turn}
use memory_tiering.Scanner.{DoubleOps, scan_step}
use memory_tiering.Scanner.Policy.{IsTyped}
use memory_tiering.Scanner.Tallies.{Counted, access-Counted, scan_step-Counted}
use memory_tiering.Server
use memory_tiering.Server.{
  Server, on_world_of, on_world, handle_access, handle_end, handle_client_message, report_period,
}
use memory_tiering.Server.Shutdown
use memory_tiering.Server.Shutdown.{handle_end-Inv}
use memory_tiering.Delivery.{
  System, start, client_turn, Step, client_steps, manager_pops, manager_waits, scanner_steps,
  metrics_sleeps, metrics_reports, Reach, here, next,
}
use memory_tiering.Delivery.Messages.{is_end, AllKnown, AllKnown-rest}
use memory_tiering.Delivery.Within.{
  weight, accesses, accesses-snoc, IsWithin, AllWithin, AllWithin-append, AllWithin-rest, IsBound,
  turn_at-IsBound, pushed-AllWithin,
}
use memory_tiering.Delivery.Invariant.{Inv, Step-Inv, dequeue-some}
use memory_tiering.Delivery.Drained.{start-Inv, shutdown-done}

-- The pages of the clients lie among all pages, each client's from its first page id on.
pub record Covers (n pages : ℕ) (sizes : ℕ → ℕ) (ids : List ℕ) : Type 0 where
  pub bases : length ids ≡ n
  pub within : (i base : ℕ) → i < n → get_elem? ids i ≡ some base → base + sizes i ≤ pages
  pub small : pages < 2 ^ 64

-- The state of the server after so many accesses.
module _ (num_tiers n pages : ℕ) (sizes : ℕ → ℕ) (ids : List ℕ)
    (covers : Covers n pages sizes ids) where
  pub record Served (k : ℕ) (s : Server) : Type 0 where
    pub counted : Counted num_tiers pages k s.world
    pub same_bases : s.base_page_id ≡ ids

  -- A report changes the last period alone.
  report-Served :
      {F : Type 0} (k : ℕ) (double : DoubleArith F) (opens : Bool) (interval : ℕ) (s : Server)
      → Served k s
      → Served k (report_period double opens interval s).0
  unfolding report_period periodical_metrics
  report-Served k double opens interval s v = record {
    counted = record {
      inv = Inv-metrics num_tiers s.world _ v.counted.inv;
      present = v.counted.present;
      tally = record { samples = v.counted.tally.samples; counters = v.counted.tally.counters };
    };
    same_bases = v.same_bases;
  }

  on_world-Served :
      (k : ℕ) (s : Server) (r : Run World (Unit {0}))
      → s.base_page_id ≡ ids
      → Returns (λ u w. Counted num_tiers pages k w) r
      → Returns (λ u s'. Served k s') (on_world_of r s)
  on_world-Served k s r b (returns v) = returns (record { counted = v; same_bases = b })

  module _ (machine : Machine) (k : ℕ) (msg : ClientMessage) (s : Server) (v : Served k s) where
    handle_access-Served :
        msg.client_id < n
        → msg.pid < sizes msg.client_id
        → Returns (λ u s'. Served (k + 1) s') (handle_access machine msg s)
    unfolding handle_access on_world
    handle_access-Served known below =
        let (base, e) = get_elem?-lt ids msg.client_id (omega (arith, known, covers.bases)) in
        let at : get_elem? s.base_page_id msg.client_id ≡ some base =
          ap (λ l. get_elem? l msg.client_id) v.same_bases ∙ e in
        let fits = covers.within msg.client_id base known e in
        rw at (
          on_world-Served (k + 1) s _ v.same_bases (
            access-Counted num_tiers pages k (add64 base msg.pid) machine s.world
              (omega (arith, fits, below, covers.small)) v.counted))

    pub handle-Served :
        msg.client_id < n
        → msg.client_id < length s.client_done_flags
        → Shutdown.Inv s
        → IsWithin sizes msg
        → Returns (λ u s'. Served (k + weight msg.op_type) s') (handle_client_message machine msg s)
    unfolding handle_client_message
    handle-Served known flag shut within = by_type msg.op_type refl
      where
        by_type :
            (op : OperationType)
            → msg.op_type ≡ op
            → Returns
                (λ u s'. Served (k + weight op) s')
                (elim op as (λ x. Cmd Server (Unit {0})) [
                  | end ↦ handle_end msg.client_id
                  | _ ↦ handle_access machine msg
                ]
                  s)
        by_type read at = handle_access-Served known (within.below (ap is_end at))
        by_type write at = handle_access-Served known (within.below (ap is_end at))
        by_type end at =
            Returns-mono (handle_end-Inv s msg.client_id flag shut)
              λ u s' (inv, (flags, same_world, same_bases)). record {
                counted =
                    subst (Counted num_tiers pages (k + 0)) (sym same_world)
                      (subst (λ j. Counted num_tiers pages j s.world) (omega arith) v.counted);
                same_bases = same_bases ∙ v.same_bases;
              }

module _ {F Engine : Type 0} (machine : Machine) (random : Random F Engine)
    (lib : CircularBuffer ClientMessage) (ops : DoubleOps F) (policy : PolicyConfig F)
    (num_tiers n pages : ℕ) (sizes : ℕ → ℕ) (ids : List ℕ) where
  -- What holds of all threads, `start_count` being the accesses counted before they start.
  pub record Serving (covers : Covers n pages sizes ids) (start_count : ℕ)
      (s : System F Engine lib.Buffer) : Type 0 where
    pub delivery : Inv random lib n s
    pub bound : (i : ℕ) → i < n → IsBound sizes i (s.threads i)
    pub within : AllWithin sizes s.sent
    pub served :
        Served num_tiers n pages sizes ids covers (start_count + accesses s.handled) s.server

  module _ (laws : RandomLaws random) (moves : MovesPages machine) (typed : IsTyped policy)
      (covers : Covers n pages sizes ids) (k : ℕ) where
    abbrev ServingOf : System F Engine lib.Buffer → Type 0
    ServingOf = Serving covers k

    client-Serving :
        (i elapsed : ℕ) (s : System F Engine lib.Buffer)
        → i < n
        → ServingOf s
        → Inv random lib n (client_turn random lib i elapsed s)
        → ServingOf (client_turn random lib i elapsed s)
    unfolding client_turn turn
    client-Serving i elapsed s lt v inv = record {
      delivery = inv;
      bound = λ j h. elim (Bool-cases (i == j)) [
        | inl q ↦ rw q (
            subst (λ x. IsBound sizes x (turn random lib elapsed (s.threads i) s.buffer).0)
              (eq_of_== i j q)
              (turn_at-IsBound sizes random laws lib i elapsed (s.threads i).client
                (s.threads i).phase s.buffer (v.delivery.ids i lt) (v.bound i lt)))
        | inr q ↦ rw q (v.bound j h)
      ];
      within = AllWithin-append sizes s.sent _ v.within (
          pushed-AllWithin sizes random laws lib (s.threads i) (s.threads i).phase s.buffer
            (v.bound i lt).holds);
      served = v.served;
    }

    popped :
        (s : System F Engine lib.Buffer) (msg : ClientMessage)
        → ServingOf s
        → (pop lib s.buffer).0 ≡ some msg
        → (msg.client_id < n) × IsWithin sizes msg
    popped s msg v e =
        let (out, rest, _) = pop_lem lib s.buffer in
        let held = dequeue-some random lib (lib.contents s.buffer) msg (sym out ∙ e) in
        let all = v.delivery.order ∙ ap (λ l. s.handled ++ l) held in
        let tail = msg ∷ (dequeue (lib.contents s.buffer)).1 in
        (
          (AllKnown-rest n s.handled tail (subst (AllKnown n) all v.delivery.known)).0,
          (AllWithin-rest sizes s.handled tail (subst (AllWithin sizes) all v.within)).0,
        )

    pop-Served :
        (s : System F Engine lib.Buffer) (msg : ClientMessage) (server : Server)
        → ServingOf s
        → (pop lib s.buffer).0 ≡ some msg
        → handle_client_message machine msg s.server ≡ ok tt server
        → Served num_tiers n pages sizes ids covers (k + accesses (s.handled ++ (msg ∷ []))) server
    pop-Served s msg server v e run =
        let (known, within) = popped s msg v e in
        subst (λ j. Served num_tiers n pages sizes ids covers j server)
          (omega (arith, accesses-snoc s.handled msg))
          (Whenever-run
            (λ u s'.
              Served num_tiers n pages sizes ids covers
                ((k + accesses s.handled) + weight msg.op_type) s')
            tt server
            (Returns-Whenever _ (
              handle-Served num_tiers n pages sizes ids covers machine (k + accesses s.handled) msg
                s.server v.served known (omega (arith, known, v.delivery.size)) v.delivery.server
                within))
            run)

    scan-Served :
        (s : System F Engine lib.Buffer) (w : World)
        → ServingOf s
        → scan_step ops machine policy num_tiers s.server.world ≡ ok tt w
        → Served num_tiers n pages sizes ids covers
            (k + accesses s.handled)
            (record (s.server) { world = w })
    scan-Served s w v run = record {
      counted =
          Whenever-run (λ u w'. Counted num_tiers pages (k + accesses s.handled) w') tt w
            (Returns-Whenever _ (
              scan_step-Counted num_tiers pages (k + accesses s.handled) machine moves ops policy
                typed s.server.world v.served.counted))
            run;
      same_bases = v.served.same_bases;
    }

    Step-Serving :
        {s t : System F Engine lib.Buffer}
        → Step machine random lib ops policy num_tiers n s t
        → Inv random lib n t
        → ServingOf s
        → ServingOf t
    Step-Serving {s} (client_steps i elapsed lt) inv v = client-Serving i elapsed s lt v inv
    Step-Serving {s} (manager_pops msg {server} going e run) inv v = record {
      delivery = inv;
      bound = v.bound;
      within = v.within;
      served = pop-Served s msg server v e run;
    }
    Step-Serving {s} (manager_waits going nothing) inv v = record {
      delivery = inv;
      bound = v.bound;
      within = v.within;
      served = v.served;
    }
    Step-Serving {s} (scanner_steps {w} going run) inv v = record {
      delivery = inv;
      bound = v.bound;
      within = v.within;
      served = scan-Served s w v run;
    }
    Step-Serving {s} (metrics_sleeps awake going) inv v = record {
      delivery = inv;
      bound = v.bound;
      within = v.within;
      served = v.served;
    }
    Step-Serving {s} (metrics_reports double opens interval asleep) inv v = record {
      delivery = inv;
      bound = v.bound;
      within = v.within;
      served =
          report-Served num_tiers n pages sizes ids covers (k + accesses s.handled) double opens
            interval s.server v.served;
    }

    Reach-Serving :
        {s t : System F Engine lib.Buffer}
        → ServingOf s
        → Reach machine random lib ops policy num_tiers n s t
        → ServingOf t
    Reach-Serving v here = v
    Reach-Serving v (next r step) =
        let u = Reach-Serving v r in
        Step-Serving step (Step-Inv machine random lib ops policy num_tiers n step u.delivery) u

    module _ (capacity : ℕ) (room : 0 < n) (clients : ℕ → Client F Engine) (world : World)
        (named : (i : ℕ) → i < n → (clients i).client_id ≡ i)
        (ready : (i : ℕ) → i < n → IsReady (sizes i) (clients i).generator)
        (counted : Counted num_tiers pages k world) where
      start-Serving : ServingOf (start lib n capacity clients ids world)
      unfolding start Server.create accesses
      start-Serving = record {
        delivery =
            start-Inv machine random lib ops policy num_tiers n capacity clients ids world room
              named;
        bound = λ i h. record { ready = ready i h; holds = tt };
        within = tt;
        served = record {
          counted = subst (λ j. Counted num_tiers pages j world) (omega arith) counted;
          same_bases = refl;
        };
      }

      -- If the random numbers are in their ranges, `move_pages` succeeds, the policy holds the
      -- parameters of its type, each of the clients (one or more) has its place as its id, pages from
      -- its first page id on, all of them in the page table, and a generator for as many pages, and
      -- the page table is in order at the start (without a cache ring), with so many accesses counted,
      -- then in every state that the threads reach the latencies recorded are as many as these and the
      -- reads and writes handled since, and the three access counters add up to that modulo 2^64: the
      -- scanner, whatever it migrates meanwhile, loses none and adds none.
      pub handled_counted :
          {s : System F Engine lib.Buffer}
          → Reach machine random lib ops policy num_tiers n
              (start lib n capacity clients ids world)
              s
          → (length s.server.world.metrics.access_latency ≡ k + accesses s.handled)
            × (total_accesses s.server.world.metrics.now ≡ (k + accesses s.handled) % 2 ^ 64)
      handled_counted r =
          let v = Reach-Serving start-Serving r in
          (v.served.counted.tally.samples, v.served.counted.tally.counters)

      -- Under the same conditions, once the manager is told to stop, the latencies recorded are as many
      -- as were counted at the start and the reads and writes that all clients have sent.
      pub sent_counted :
          {s : System F Engine lib.Buffer}
          → Reach machine random lib ops policy num_tiers n
              (start lib n capacity clients ids world)
              s
          → s.server.manager_shutdown_flag ≡ true
          → length s.server.world.metrics.access_latency ≡ k + accesses s.sent
      sent_counted {s} r down =
          let v = Reach-Serving start-Serving r in
          let (_, same, _) =
            shutdown-done machine random lib ops policy num_tiers n s v.delivery down in
          v.served.counted.tally.samples ∙ ap (λ l. k + accesses l) same
