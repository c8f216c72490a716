-- ===== src/Delivery/Invariant.antt =====
-- What holds in every state that the threads reach.
use memory_tiering.Base.{
  ℕ, zero, suc, ◌<◌, ◌≡◌, ◌≢◌, refl, sym, ap, ◌∙◌, subst, Bool, true, false, ◌&&◌, ◌||◌, none, some,
  List, [], ◌∷◌, ◌++◌, append-nil, append_assoc, length, length-set, get_elem?, set, ◌==◌, ==-true,
  ==-false, eq_of_==, ne_of_==, if◌then◌else◌, arith, Bool-cases, inl, inr,
}
use mathlib.Core.Option.{some-injective}
use memory_tiering.Base.Run.{ok}
use memory_tiering.Common.{ClientMessage, PolicyConfig}
use memory_tiering.Machine.{Machine}
use memory_tiering.Metrics.Periodic.{DoubleArith}
use memory_tiering.PageTable.{World}
use memory_tiering.RingBuffer.{CircularBuffer, pop}
use memory_tiering.RingBuffer.Fifo.{dequeue, pop_lem}
use memory_tiering.Generator.{Random}
use memory_tiering.Client.{Thread, turn}
use memory_tiering.Scanner.{DoubleOps}
use memory_tiering.Server.{Server, handle_client_message, report_period}
use memory_tiering.Server.Shutdown
use memory_tiering.Delivery.{
  System, update_at, offer, pushed, client_turn, Step, client_steps, manager_pops, manager_waits,
  scanner_steps, metrics_sleeps, metrics_reports, line_of, Reach, here, next,
}
use memory_tiering.Delivery.Messages.{
  is_end, from, ended, Closed, AllKnown, ended-append, AllKnown-append, AllKnown-rest, Closed-snoc,
}
use memory_tiering.Delivery.Effects.{is_finished, IsOwn, Turned, turn_at-Turned, handle-Handled}

get-set :
    (xs : List Bool) (i j : ℕ) (v : Bool)
    → i < length xs
    → get_elem? (set xs i v) j ≡ (if i == j then some v else get_elem? xs j)
get-set [] i j v h = absurd (omega (arith, h))
get-set (x ∷ xs) zero zero v h = refl
get-set (x ∷ xs) zero (suc j) v h = ground arith
get-set (x ∷ xs) (suc i) zero v h = ground arith
get-set (x ∷ xs) (suc i) (suc j) v h = ground (arith, get-set xs i j v)

length-if_set :
    (b : Bool) (xs : List Bool) (i : ℕ) → length (if b then set xs i true else xs) ≡ length xs
length-if_set true xs i = length-set xs i true
length-if_set false xs i = refl

-- Setting a flag at `i` or not, as `j` sees it.
get-if_set :
    (b : Bool) (xs : List Bool) (i j : ℕ) (old : Bool)
    → i < length xs
    → get_elem? xs j ≡ some old
    → get_elem? (if b then set xs i true else xs) j ≡ some (old || (b && (i == j)))
get-if_set false xs i j old h e = e ∙ (ground arith)
get-if_set true xs i j old h e = elim (Bool-cases (i == j)) [
  | inl same ↦ get-set xs i j true h ∙ rw same (ground arith)
  | inr other ↦ get-set xs i j true h ∙ rw other (e ∙ (ground arith))
]

module _ {F Engine : Type 0} (random : Random F Engine) (lib : CircularBuffer ClientMessage) where
  -- What is sent is what was handled and what waits, in this order; a client has finished exactly if
  -- its END was sent, nothing of it follows that, and the server's flags are of the ENDs handled.
  pub record Inv (n : ℕ) (s : System F Engine lib.Buffer) : Type 0 where
    pub order : s.sent ≡ s.handled ++ lib.contents s.buffer
    pub ids : (i : ℕ) → i < n → (s.threads i).client.client_id ≡ i
    pub own : (i : ℕ) → i < n → IsOwn i (s.threads i).phase
    pub known : AllKnown n s.sent
    pub closed : Closed s.sent
    pub done : (i : ℕ) → i < n → is_finished (s.threads i).phase ≡ ended i s.sent
    pub size : length s.server.client_done_flags ≡ n
    pub flags : (i : ℕ) → i < n → get_elem? s.server.client_done_flags i ≡ some (ended i s.handled)
    pub server : Shutdown.Inv s.server

  ended-one : (i : ℕ) (m : ClientMessage) → ended i (m ∷ []) ≡ (is_end m.op_type && from i m)
  unfolding ended
  ended-one i m = ground arith

  -- The two ways in which a turn ends.
  module _ (n i elapsed : ℕ) (s : System F Engine lib.Buffer) (lt : i < n) (v : Inv n s) where
    abbrev thread : Thread F Engine
    thread = s.threads i

    abbrev out : List ClientMessage
    out = pushed lib (offer thread thread.phase) s.buffer

    turned :
        Turned i thread.phase
          (lib.contents s.buffer)
          out
          (turn random lib elapsed thread s.buffer).0
          (lib.contents (turn random lib elapsed thread s.buffer).1)
    unfolding turn
    turned =
        subst
          (λ k.
            Turned k thread.phase (lib.contents s.buffer) out
              (turn random lib elapsed thread s.buffer).0
              (lib.contents (turn random lib elapsed thread s.buffer).1))
          (v.ids i lt)
          (turn_at-Turned random lib elapsed thread.client thread.phase s.buffer
            (subst (λ k. IsOwn k thread.phase) (sym (v.ids i lt)) (v.own i lt)))

    -- A fact of all threads: of the one that moved, and of the others.
    each :
        (P : ℕ → Thread F Engine → Type 0)
        → P i (turn random lib elapsed thread s.buffer).0
        → ((j : ℕ) → j < n → i ≢ j → P j (s.threads j))
        → (j : ℕ) → j < n
        → P j (update_at s.threads i (turn random lib elapsed thread s.buffer).0 j)
    each P moved others j h = elim (Bool-cases (i == j)) [
      | inl e ↦
          rw e (subst (λ k. P k (turn random lib elapsed thread s.buffer).0) (eq_of_== i j e) moved)
      | inr e ↦ rw e (others j h (ne_of_== i j e))
    ]

    -- What depends on the messages that the turn pushes.
    Fits : List ClientMessage → Type 0
    Fits out =
        AllKnown n (s.sent ++ out)
        × Closed (s.sent ++ out)
        × (is_finished (turn random lib elapsed thread s.buffer).0.phase ≡ ended i (s.sent ++ out))
        × ((j : ℕ) → j < n → i ≢ j → ended j (s.sent ++ out) ≡ ended j s.sent)

    Fits-none :
        is_finished (turn random lib elapsed thread s.buffer).0.phase ≡ is_finished thread.phase
        → Fits []
    unfolding Fits
    Fits-none same =
        subst
          (λ l.
            AllKnown n l
            × Closed l
            × (is_finished (turn random lib elapsed thread s.buffer).0.phase ≡ ended i l)
            × ((j : ℕ) → j < n → i ≢ j → ended j l ≡ ended j s.sent))
          (sym (append-nil s.sent)) (v.known, v.closed, same ∙ v.done i lt, λ j h ne. refl)

    Fits-one :
        (m : ClientMessage)
        → m.client_id ≡ i
        → is_finished thread.phase ≡ false
        → is_finished (turn random lib elapsed thread s.buffer).0.phase ≡ is_end m.op_type
        → Fits (m ∷ [])
    unfolding Fits
    Fits-one m mine still now =
        let not_ended : ended i s.sent ≡ false = sym (v.done i lt) ∙ still in
        let said : from i m ≡ true = ==-true m.client_id i mine in
        (
          AllKnown-append n s.sent (m ∷ []) v.known (omega (arith, mine, lt), tt),
          Closed-snoc s.sent m v.closed (subst (λ k. ended k s.sent ≡ false) (sym mine) not_ended),
          ground (arith, now, ended-append i s.sent (m ∷ []), ended-one i m),
          λ j h ne.
              let other : from j m ≡ false = ==-false m.client_id j (λ z. ne (sym mine ∙ z)) in
              ground (arith, ended-append j s.sent (m ∷ []), ended-one j m),
        )

    fits : Fits out
    fits = elim turned.outcome [
      | inl (none_out, same) ↦ subst Fits (sym none_out) (Fits-none same)
      | inr (m, one_out, mine, still, now) ↦ subst Fits (sym one_out) (Fits-one m mine still now)
    ]

    pub turn-Inv : Inv n (client_turn random lib i elapsed s)
    unfolding client_turn Fits
    turn-Inv =
        let (known, closed, mine, others) = fits in
        record {
          order =
              ap (λ l. l ++ out) v.order
              ∙ append_assoc s.handled (lib.contents s.buffer) out
              ∙ ap (λ l. s.handled ++ l) (sym turned.added);
          ids = each (λ j t. t.client.client_id ≡ j) turned.same_id (λ j h ne. v.ids j h);
          own = each (λ j t. IsOwn j t.phase) turned.own (λ j h ne. v.own j h);
          known = known;
          closed = closed;
          done =
              each (λ j t. is_finished t.phase ≡ ended j (s.sent ++ out)) mine
                (λ j h ne. v.done j h ∙ sym (others j h ne));
          size = v.size;
          flags = v.flags;
          server = v.server;
        }

  pub dequeue-some :
      (q : List ClientMessage) (m : ClientMessage) → (dequeue q).0 ≡ some m → q ≡ m ∷ (dequeue q).1
  unfolding dequeue
  dequeue-some [] m h = absurd (cc)
  dequeue-some (x ∷ q) m h = ap (λ y. y ∷ q) (some-injective x m h)

  dequeue-none : (q : List ClientMessage) → (dequeue q).0 ≡ none → (dequeue q).1 ≡ q
  unfolding dequeue
  dequeue-none [] h = refl
  dequeue-none (x ∷ q) h = absurd (cc)

  -- The manager takes the oldest message and handles it.
  pop-Inv :
      (machine : Machine) (n : ℕ) (s : System F Engine lib.Buffer) (msg : ClientMessage)
      (server : Server)
      → Inv n s
      → (pop lib s.buffer).0 ≡ some msg
      → handle_client_message machine msg s.server ≡ ok tt server
      → Inv n (record s {
        buffer = (pop lib s.buffer).1;
        server = server;
        handled = s.handled ++ (msg ∷ []);
      })
  pop-Inv machine n s msg server v popped run =
      let (out, rest, _) = pop_lem lib s.buffer in
      let held = dequeue-some (lib.contents s.buffer) msg (sym out ∙ popped) in
      let all : s.sent ≡ s.handled ++ (msg ∷ (dequeue (lib.contents s.buffer)).1) =
        v.order ∙ ap (λ l. s.handled ++ l) held in
      let known =
        (AllKnown-rest n s.handled (msg ∷ (dequeue (lib.contents s.buffer)).1)
          (subst (AllKnown n) all v.known)).0 in
      let done =
        handle-Handled machine msg s.server server (omega (arith, known, v.size)) v.server run in
      let sized : length server.client_done_flags ≡ n =
        ap length done.flags
        ∙ length-if_set (is_end msg.op_type) s.server.client_done_flags msg.client_id
        ∙ v.size in
      record {
        order =
            all
            ∙ sym (append_assoc s.handled (msg ∷ []) (dequeue (lib.contents s.buffer)).1)
            ∙ ap (λ l. (s.handled ++ (msg ∷ [])) ++ l) (sym rest);
        ids = v.ids;
        own = v.own;
        known = v.known;
        closed = v.closed;
        done = v.done;
        size = sized;
        flags = λ i h.
            ap (λ l. get_elem? l i) done.flags
            ∙ get-if_set (is_end msg.op_type) s.server.client_done_flags msg.client_id i
                (ended i s.handled) (omega (arith, known, v.size)) (v.flags i h)
            ∙ ap some (
                ap (λ b. ended i s.handled || b) (sym (ended-one i msg))
                ∙ sym (ended-append i s.handled (msg ∷ [])));
        server = done.inv;
      }

  wait-Inv :
      (n : ℕ) (s : System F Engine lib.Buffer)
      → Inv n s
      → (pop lib s.buffer).0 ≡ none
      → Inv n (record s { buffer = (pop lib s.buffer).1 })
  wait-Inv n s v nothing =
      let (out, rest, _) = pop_lem lib s.buffer in
      record {
        order =
            v.order
            ∙ ap (λ l. s.handled ++ l)
                (sym (rest ∙ dequeue-none (lib.contents s.buffer) (sym out ∙ nothing)));
        ids = v.ids;
        own = v.own;
        known = v.known;
        closed = v.closed;
        done = v.done;
        size = v.size;
        flags = v.flags;
        server = v.server;
      }

  scan-Inv :
      (n : ℕ) (s : System F Engine lib.Buffer) (w : World)
      → Inv n s
      → Inv n (record s { server = record (s.server) { world = w } })
  scan-Inv n s w v = record {
    order = v.order;
    ids = v.ids;
    own = v.own;
    known = v.known;
    closed = v.closed;
    done = v.done;
    size = v.size;
    flags = v.flags;
    server = record { together = v.server.together; exact = v.server.exact };
  }

  asleep-Inv :
      (n : ℕ) (s : System F Engine lib.Buffer)
      → Inv n s
      → Inv n (record s { metrics_asleep = true })
  asleep-Inv n s v = record {
    order = v.order;
    ids = v.ids;
    own = v.own;
    known = v.known;
    closed = v.closed;
    done = v.done;
    size = v.size;
    flags = v.flags;
    server = v.server;
  }

  report-Inv :
      (double : DoubleArith F) (opens : Bool) (interval n : ℕ) (s : System F Engine lib.Buffer)
      → Inv n s
      → Inv n (record s {
        server = (report_period double opens interval s.server).0;
        metrics_asleep = false;
        reports = s.reports ++ line_of (report_period double opens interval s.server).1;
      })
  unfolding report_period
  report-Inv double opens interval n s v = record {
    order = v.order;
    ids = v.ids;
    own = v.own;
    known = v.known;
    closed = v.closed;
    done = v.done;
    size = v.size;
    flags = v.flags;
    server = record { together = v.server.together; exact = v.server.exact };
  }

module _ {F Engine : Type 0} (machine : Machine) (random : Random F Engine)
    (lib : CircularBuffer ClientMessage) (ops : DoubleOps F) (policy : PolicyConfig F)
    (num_tiers : ℕ) where
  pub Step-Inv :
      (n : ℕ) {s t : System F Engine lib.Buffer}
      → Step machine random lib ops policy num_tiers n s t
      → Inv random lib n s
      → Inv random lib n t
  Step-Inv n {s} (client_steps i elapsed lt) v = turn-Inv random lib n i elapsed s lt v
  Step-Inv n {s} (manager_pops msg {server} going popped run) v =
      pop-Inv random lib machine n s msg server v popped run
  Step-Inv n {s} (manager_waits going nothing) v = wait-Inv random lib n s v nothing
  Step-Inv n {s} (scanner_steps {w} going run) v = scan-Inv random lib n s w v
  Step-Inv n {s} (metrics_sleeps awake going) v = asleep-Inv random lib n s v
  Step-Inv n {s} (metrics_reports double opens interval asleep) v =
      report-Inv random lib double opens interval n s v

  -- No step of any thread breaks the invariant.
  pub Reach-Inv :
      (n : ℕ) {s t : System F Engine lib.Buffer}
      → Inv random lib n s
      → Reach machine random lib ops policy num_tiers n s t
      → Inv random lib n t
  Reach-Inv n v here = v
  Reach-Inv n v (next r step) = Step-Inv n step (Reach-Inv n v r)
