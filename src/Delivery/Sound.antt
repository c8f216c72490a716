-- ===== src/Delivery/Sound.antt =====
-- The page table under the steps of all threads: no access and no scan meets a failed assertion or
-- memory that is not there.
use memory_tiering.Base.{
  ℕ, ◌<◌, ◌≡◌, refl, sym, ap, ◌∙◌, subst, some, List, ◌∷◌, ◌++◌, length, arith,
}
use memory_tiering.Base.Run.{Returns, Returns-Whenever, Whenever-run}
use memory_tiering.Common.{ClientMessage, PolicyConfig}
use memory_tiering.Machine.{Machine}
use memory_tiering.PageTable.{World}
use memory_tiering.PageTable.Spec.{MovesPages}
use memory_tiering.RingBuffer
use memory_tiering.RingBuffer.{CircularBuffer, pop}
use memory_tiering.RingBuffer.Fifo.{dequeue, push_lem, pop_lem}
use memory_tiering.Generator.{Random}
use memory_tiering.Client.{
  Client, Thread, Phase, timing, sending, closing, finished, end_msg, turn_at, turn,
}
use memory_tiering.Scanner.{DoubleOps, scan_step}
use memory_tiering.Scanner.Policy.{IsTyped}
use memory_tiering.Scanner.Invariant.{Inv as ScanInv, scan_step-Inv}
use memory_tiering.Server
use memory_tiering.Server.{
  Server, on_world_of, on_world, handle_access, handle_end, handle_client_message,
}
use memory_tiering.Delivery.{
  System, start, client_turn, Step, client_steps, manager_pops, manager_waits, scanner_steps,
  metrics_sleeps, metrics_reports, Reach, here, next,
}
use memory_tiering.Delivery.InOrder.{InOrder, handle-InOrder, report-InOrder}
use memory_tiering.Delivery.Messages.{AllKnown, AllKnown-rest}
use memory_tiering.Delivery.Invariant.{Inv, Step-Inv, dequeue-some}
use memory_tiering.Delivery.Drained.{start-Inv}

-- No turn of a client changes how much the ring buffer holds.
module _ {F Engine : Type 0} (random : Random F Engine) (lib : CircularBuffer ClientMessage) where
  turn_at-capacity :
      (elapsed : ℕ) (c : Client F Engine) (p : Phase) (b : lib.Buffer)
      → lib.capacity (turn_at random lib elapsed c p b).1 ≡ lib.capacity b
  unfolding turn_at
  turn_at-capacity elapsed c timing b = refl
  turn_at-capacity elapsed c (sending msg) b = let (_, _, same) = push_lem lib msg b in same
  turn_at-capacity elapsed c closing b =
      let (_, _, same) = push_lem lib (end_msg c.client_id) b in same
  turn_at-capacity elapsed c finished b = refl

  turn-capacity :
      (elapsed : ℕ) (t : Thread F Engine) (b : lib.Buffer)
      → lib.capacity (turn random lib elapsed t b).1 ≡ lib.capacity b
  unfolding turn
  turn-capacity elapsed t b = turn_at-capacity elapsed t.client t.phase b

module _ {F Engine : Type 0} (machine : Machine) (random : Random F Engine)
    (lib : CircularBuffer ClientMessage) (ops : DoubleOps F) (policy : PolicyConfig F)
    (num_tiers : ℕ) where
  pub record Sound (n capacity : ℕ) (s : System F Engine lib.Buffer) : Type 0 where
    pub delivery : Inv random lib n s
    pub server : InOrder num_tiers n s.server
    pub limit : lib.capacity s.buffer ≡ capacity

  module _ (moves : MovesPages machine) (typed : IsTyped policy) (n capacity : ℕ) where
    popped-known :
        (s : System F Engine lib.Buffer) (msg : ClientMessage)
        → Inv random lib n s
        → (pop lib s.buffer).0 ≡ some msg
        → msg.client_id < n
    popped-known s msg v popped =
        let (out, rest, _) = pop_lem lib s.buffer in
        let held = dequeue-some random lib (lib.contents s.buffer) msg (sym out ∙ popped) in
        (AllKnown-rest n s.handled (msg ∷ (dequeue (lib.contents s.buffer)).1)
          (subst (AllKnown n) (v.order ∙ ap (λ l. s.handled ++ l) held) v.known)).0

    -- What the manager takes from the ring buffer is handled.
    pub Sound-handles :
        (s : System F Engine lib.Buffer) (msg : ClientMessage)
        → Sound n capacity s
        → (pop lib s.buffer).0 ≡ some msg
        → Returns (λ u s'. InOrder num_tiers n s') (handle_client_message machine msg s.server)
    Sound-handles s msg v popped =
        let known = popped-known s msg v.delivery popped in
        handle-InOrder num_tiers n machine msg s.server v.server known
          (omega (arith, known, v.delivery.size)) v.delivery.server

    -- A turn of the scanner returns.
    pub Sound-scans :
        (s : System F Engine lib.Buffer)
        → Sound n capacity s
        → Returns
            (λ u w. ScanInv num_tiers w)
            (scan_step ops machine policy num_tiers s.server.world)
    Sound-scans s v =
        scan_step-Inv num_tiers machine moves ops policy typed s.server.world v.server.world

    server_after :
        {s t : System F Engine lib.Buffer}
        → Step machine random lib ops policy num_tiers n s t
        → Sound n capacity s
        → InOrder num_tiers n t.server
    unfolding client_turn
    server_after (client_steps i elapsed lt) v = v.server
    server_after {s} (manager_pops msg {server} going popped run) v =
        Whenever-run (λ u s'. InOrder num_tiers n s') tt server
          (Returns-Whenever _ (Sound-handles s msg v popped)) run
    server_after (manager_waits going nothing) v = v.server
    server_after {s} (scanner_steps {w} going run) v = record {
      world =
          Whenever-run (λ u w'. ScanInv num_tiers w') tt w (Returns-Whenever _ (Sound-scans s v))
            run;
      bases = v.server.bases;
    }
    server_after (metrics_sleeps awake going) v = v.server
    server_after {s} (metrics_reports double opens interval asleep) v =
        report-InOrder num_tiers n double opens interval s.server v.server

    limit_after :
        {s t : System F Engine lib.Buffer}
        → Step machine random lib ops policy num_tiers n s t
        → lib.capacity t.buffer ≡ lib.capacity s.buffer
    unfolding client_turn
    limit_after {s} (client_steps i elapsed lt) =
        turn-capacity random lib elapsed (s.threads i) s.buffer
    limit_after {s} (manager_pops msg going popped run) =
        let (_, _, same) = pop_lem lib s.buffer in same
    limit_after {s} (manager_waits going nothing) = let (_, _, same) = pop_lem lib s.buffer in same
    limit_after (scanner_steps going run) = refl
    limit_after (metrics_sleeps awake going) = refl
    limit_after (metrics_reports double opens interval asleep) = refl

    pub Step-Sound :
        {s t : System F Engine lib.Buffer}
        → Step machine random lib ops policy num_tiers n s t
        → Sound n capacity s
        → Sound n capacity t
    Step-Sound step v = record {
      delivery = Step-Inv machine random lib ops policy num_tiers n step v.delivery;
      server = server_after step v;
      limit = limit_after step ∙ v.limit;
    }

    pub Reach-Sound :
        {s t : System F Engine lib.Buffer}
        → Sound n capacity s
        → Reach machine random lib ops policy num_tiers n s t
        → Sound n capacity t
    Reach-Sound v here = v
    Reach-Sound v (next r step) = Step-Sound step (Reach-Sound v r)

    module _ (room : 0 < n) (clients : ℕ → Client F Engine) (base_page_id : List ℕ) (world : World)
        (named : (i : ℕ) → i < n → (clients i).client_id ≡ i) (bases : length base_page_id ≡ n)
        (tidy : ScanInv num_tiers world) where
      pub start-Sound : Sound n capacity (start lib n capacity clients base_page_id world)
      unfolding start RingBuffer.create Server.create
      start-Sound = record {
        delivery =
            start-Inv machine random lib ops policy num_tiers n capacity clients base_page_id world
              room named;
        server = record { world = tidy; bases = bases };
        limit = lib.capacity_new capacity;
      }

      module _ {s : System F Engine lib.Buffer}
          (r : Reach machine random lib ops policy num_tiers n
            (start lib n capacity clients base_page_id world)
            s) where
        -- If `move_pages` succeeds, the policy holds the parameters of its type, each of the clients
        -- (one or more) has its place as its id and a first page id, and the page table is in order
        -- at the start (as `Scanner.Invariant.Inv` says, without a cache ring), then in every state
        -- that the threads reach the page table is in order, and a turn of the scanner returns and
        -- leaves it so.
        pub reached_scans :
            ScanInv num_tiers s.server.world
            × Returns
                (λ u w. ScanInv num_tiers w)
                (scan_step ops machine policy num_tiers s.server.world)
        reached_scans = let v = Reach-Sound start-Sound r in (v.server.world, Sound-scans s v)

        -- Under the same conditions, in every state that the threads reach, the manager handles the
        -- message that it takes from the ring buffer: `handleClientMessage` returns, and leaves the
        -- page table in order and a first page id for each client.
        pub reached_handles :
            (msg : ClientMessage)
            → (pop lib s.buffer).0 ≡ some msg
            → Returns (λ u s'. InOrder num_tiers n s') (handle_client_message machine msg s.server)
        reached_handles msg popped = Sound-handles s msg (Reach-Sound start-Sound r) popped
