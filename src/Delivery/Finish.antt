-- ===== src/Delivery/Finish.antt =====
-- The threads can always come to an end: from any state that they reach, some turns of the clients
-- and the manager lead to the shutdown.
use memory_tiering.Base.{
  ℕ, zero, suc, ◌+◌, ◌-◌, ◌≤◌, ◌<◌, ◌≡◌, ◌≢◌, refl, ap, ◌∙◌, subst, true, inl, inr, some, List, [],
  ◌∷◌, length, ◌==◌, ==-true, ==-false, eq_of_==, ne_of_==, Bool-cases, arith,
}
use memory_tiering.Base.Run.{Returns-run}
use memory_tiering.Common.{ClientMessage, PolicyConfig}
use memory_tiering.Machine.{Machine}
use memory_tiering.PageTable.{World}
use memory_tiering.PageTable.Spec.{MovesPages}
use memory_tiering.RingBuffer.{CircularBuffer, pop}
use memory_tiering.RingBuffer.Fifo.{dequeue, pop_lem}
use memory_tiering.Generator.{Random}
use memory_tiering.Client.{Client, turn}
use memory_tiering.Delivery.Turns.{turns_left, none_left-finished, turn_at-left}
use memory_tiering.Scanner.{DoubleOps}
use memory_tiering.Scanner.Policy.{IsTyped}
use memory_tiering.Scanner.Invariant.{Inv as ScanInv}
use memory_tiering.Delivery.{
  System, start, client_turn, client_steps, manager_pops, Reach, here, next,
}
use memory_tiering.Delivery.Effects.{is_finished}
use memory_tiering.Delivery.Drained.{shutdown-done, done-shutdown}
use memory_tiering.Delivery.Sound.{Sound, Sound-handles, Step-Sound, Reach-Sound, start-Sound}

module _ {F Engine : Type 0} (machine : Machine) (random : Random F Engine)
    (lib : CircularBuffer ClientMessage) (ops : DoubleOps F) (policy : PolicyConfig F)
    (num_tiers n : ℕ) where
  abbrev State : Type 0
  State = System F Engine lib.Buffer

  abbrev ReachOf : State → State → Type 0
  ReachOf = Reach machine random lib ops policy num_tiers n

  Reach-trans : {s t u : State} → ReachOf s t → ReachOf t u → ReachOf s u
  Reach-trans r here = r
  Reach-trans r (next q step) = next (Reach-trans r q) step

  -- All is said and done.
  abbrev pub IsOver : State → Type 0
  IsOver t =
      (t.server.manager_shutdown_flag ≡ true)
      × (t.server.scanner_shutdown_flag ≡ true)
      × (lib.contents t.buffer ≡ [])
      × (t.handled ≡ t.sent)
      × ((i : ℕ) → i < n → is_finished (t.threads i).phase ≡ true)

  module _ (moves : MovesPages machine) (typed : IsTyped policy) (capacity : ℕ) where
    abbrev SoundOf : State → Type 0
    SoundOf = Sound machine random lib ops policy num_tiers n capacity

    -- Some turns that leave the ring buffer empty.
    record Leads (s : State) (P : State → Type 0) : Type 0 where
      to : State
      reach : ReachOf s to
      sound : SoundOf to
      empty : lib.contents to.buffer ≡ []
      holds : P to

    abbrev SameThreads : State → State → Type 0
    SameThreads s t = t.threads ≡ s.threads

    then_more : (P : State → Type 0) {s t : State} → ReachOf s t → Leads t P → Leads s P
    then_more P r l = record {
      to = l.to;
      reach = Reach-trans r l.reach;
      sound = l.sound;
      empty = l.empty;
      holds = l.holds;
    }

    -- The manager pops and handles all there is. (If it has been told to stop, there is nothing.)
    drain :
        (q : List ClientMessage) (s : State)
        → lib.contents s.buffer ≡ q
        → SoundOf s
        → Leads s (SameThreads s)
    unfolding dequeue
    drain [] s e v = record { to = s; reach = here; sound = v; empty = e; holds = refl }
    drain (m ∷ q) s e v = elim (Bool-cases s.server.manager_shutdown_flag) [
      | inl down ↦
          let (gone, _, _) =
            shutdown-done machine random lib ops policy num_tiers n s v.delivery down in
          record { to = s; reach = here; sound = v; empty = gone; holds = refl }
      | inr going ↦
          let (out, rest, _) = pop_lem lib s.buffer in
          let popped : (pop lib s.buffer).0 ≡ some m = out ∙ ap (λ l. (dequeue l).0) e in
          let (u, server, run, _) = Returns-run (
            Sound-handles machine random lib ops policy num_tiers moves typed n capacity s m v
              popped) in
          let step = manager_pops m going popped run in
          then_more (SameThreads s) (next here step) (
            drain q _ (rest ∙ ap (λ l. (dequeue l).1) e)
              (Step-Sound machine random lib ops policy num_tiers moves typed n capacity step v))
    ]

    -- The other threads are as they were.
    abbrev OthersStay : ℕ → State → State → Type 0
    OthersStay i s t = (j : ℕ) → i ≢ j → t.threads j ≡ s.threads j

    abbrev Finishes : ℕ → State → State → Type 0
    Finishes i s t = (is_finished (t.threads i).phase ≡ true) × OthersStay i s t

    -- A turn of a client whose time is over, and what the manager does then.
    one_turn :
        (i : ℕ) (s : State)
        → i < n
        → 0 < capacity
        → lib.contents s.buffer ≡ []
        → SoundOf s
        → Leads s (λ t.
          (turns_left (t.threads i).phase ≡ turns_left (s.threads i).phase - 1) × OthersStay i s t)
    unfolding client_turn turn
    one_turn i s lt pos e v =
        let elapsed = (s.threads i).client.running_time in
        let step = client_steps i elapsed lt in
        let l =
          drain _ (client_turn random lib i elapsed s) refl
            (Step-Sound machine random lib ops policy num_tiers moves typed n capacity step v) in
        let room : length (lib.contents s.buffer) + 1 ≤ lib.capacity s.buffer =
          omega (arith, ap (length {0}) e, v.limit, pos) in
        record {
          to = l.to;
          reach = Reach-trans (next here step) l.reach;
          sound = l.sound;
          empty = l.empty;
          holds = (
            ap (λ f. turns_left (f i).phase) l.holds
                ∙ rw (==-true i i refl) (
                    turn_at-left random lib (s.threads i).client (s.threads i).phase s.buffer room),
            λ j ne. ap (λ f. f j) l.holds ∙ rw (==-false i j ne) refl,
          );
        }

    finish_client :
        (k i : ℕ) (s : State)
        → turns_left (s.threads i).phase ≤ k
        → i < n
        → 0 < capacity
        → lib.contents s.buffer ≡ []
        → SoundOf s
        → Leads s (Finishes i s)
    finish_client zero i s few lt pos e v = record {
      to = s;
      reach = here;
      sound = v;
      empty = e;
      holds = (none_left-finished (s.threads i).phase (omega (arith, few)), λ j ne. refl);
    }
    finish_client (suc k) i s few lt pos e v =
        let l = one_turn i s lt pos e v in
        let (fewer, same) = l.holds in
        let m = finish_client k i l.to (omega (arith, few, fewer)) lt pos l.empty l.sound in
        record {
          to = m.to;
          reach = Reach-trans l.reach m.reach;
          sound = m.sound;
          empty = m.empty;
          holds = (m.holds.0, λ j ne. m.holds.1 j ne ∙ same j ne);
        }

    -- One client after the other.
    finish_clients :
        (k : ℕ) (s : State)
        → k ≤ n
        → 0 < capacity
        → lib.contents s.buffer ≡ []
        → SoundOf s
        → Leads s (λ t. (i : ℕ) → i < k → is_finished (t.threads i).phase ≡ true)
    finish_clients zero s le pos e v = record {
      to = s;
      reach = here;
      sound = v;
      empty = e;
      holds = λ i h. absurd (omega (arith, h));
    }
    finish_clients (suc k) s le pos e v =
        let l = finish_clients k s (omega (arith, le)) pos e v in
        let m =
          finish_client (turns_left (l.to.threads k).phase) k l.to (omega arith) (omega (arith, le))
            pos l.empty l.sound in
        record {
          to = m.to;
          reach = Reach-trans l.reach m.reach;
          sound = m.sound;
          empty = m.empty;
          holds = λ i h. elim (Bool-cases (k == i)) [
            | inl q ↦
                subst (λ j. is_finished (m.to.threads j).phase ≡ true) (eq_of_== k i q) m.holds.0
            | inr q ↦
                let ne = ne_of_== k i q in
                ap (λ t. is_finished t.phase) (m.holds.1 i ne) ∙ l.holds i (omega (arith, h, ne))
          ];
        }

    -- From any state in order: drain the ring buffer, finish the clients, and the server is down.
    come_to_end : (s : State) → 0 < capacity → SoundOf s → (t : State) × ReachOf s t × IsOver t
    come_to_end s pos v =
        let l = drain _ s refl v in
        let m = finish_clients n l.to (omega arith) pos l.empty l.sound in
        let inv = m.sound.delivery in
        let down =
          done-shutdown machine random lib ops policy num_tiers n m.to inv m.empty m.holds in
        let (empty, same, over) =
          shutdown-done machine random lib ops policy num_tiers n m.to inv down in
        (m.to, Reach-trans l.reach m.reach, (down, inv.server.together ∙ down, empty, same, over))

    module _ (room : 0 < n) (clients : ℕ → Client F Engine) (base_page_id : List ℕ) (world : World)
        (named : (i : ℕ) → i < n → (clients i).client_id ≡ i) (bases : length base_page_id ≡ n)
        (tidy : ScanInv num_tiers world) where
      -- If `move_pages` succeeds, the policy holds the parameters of its type, the ring buffer has room
      -- for a message, each of the clients (one or more) has its place as its id and a first page id,
      -- and the page table is in order at the start (as `Scanner.Invariant.Inv` says, without a cache
      -- ring), then from every state that the threads reach they can go on to a state in which the
      -- manager and the scanner are told to stop, the ring buffer is empty, all that was sent was
      -- handled, and every client has finished: no order of their turns leads to a deadlock.
      pub end_in_reach :
          {s : State}
          → 0 < capacity
          → ReachOf (start lib n capacity clients base_page_id world) s
          → (t : State) × ReachOf s t × IsOver t
      end_in_reach {s} pos r = come_to_end s pos (
          Reach-Sound machine random lib ops policy num_tiers moves typed n capacity
            (start-Sound machine random lib ops policy num_tiers moves typed n capacity room clients
              base_page_id world named bases tidy)
            r)
