-- ===== src/Delivery.antt =====
-- The threads of main.cpp at work: the clients push messages into the ring buffer, the server's
-- manager pops and handles them, the scanner goes round the page table, and a thread writes the
-- periodical metrics, in any order. A step is one turn of one thread; `sent` and `handled` record what
-- went into the ring buffer and what the manager has handled, for the statements only.
pub mod Messages
pub mod Effects
pub mod Invariant
pub mod Drained
pub mod InOrder
pub mod Sound
pub mod Turns
pub mod Finish
pub mod Within
pub mod Counted
use memory_tiering.Base.{
  ℕ, ◌<◌, ◌≡◌, Bool, true, false, Option, none, some, List, [], ◌∷◌, ◌++◌, ◌==◌, if◌then◌else◌,
}
use memory_tiering.Base.Run.{ok}
use memory_tiering.Common.{ClientMessage, PolicyConfig}
use memory_tiering.Machine.{Machine}
use memory_tiering.Metrics.Periodic.{DoubleArith, Report}
use memory_tiering.PageTable
use memory_tiering.RingBuffer
use memory_tiering.RingBuffer.{CircularBuffer, push, pop}
use memory_tiering.Generator.{Random}
use memory_tiering.Client.{Client, Thread, Phase, timing, sending, closing, finished, end_msg, turn}
use memory_tiering.Scanner.{DoubleOps, scan_step}
use memory_tiering.Server
use memory_tiering.Server.{Server, handle_client_message, report_period}

pub record System (F Engine Buffer : Type 0) : Type 0 where
  pub threads : ℕ → Thread F Engine
  pub buffer : Buffer
  pub server : Server
  pub sent : List ClientMessage
  pub handled : List ClientMessage
  -- The thread of the periodical metrics has seen no shutdown, and sleeps; the lines of its file.
  pub metrics_asleep : Bool
  pub reports : List (Report F)

abbrev pub update_at : {A : Type 0} → (ℕ → A) → ℕ → A → ℕ → A
update_at f i x j = if i == j then x else f j

-- What a thread tries to push in its next turn.
abbrev pub offer : {F Engine : Type 0} → Thread F Engine → Phase → Option ClientMessage
offer t timing = none
offer t (sending msg) = some msg
offer t closing = some (end_msg t.client.client_id)
offer t finished = none

-- The messages that go into the ring buffer by it: one, or none.
unfoldable pub pushed :
    (lib : CircularBuffer ClientMessage) → Option ClientMessage → lib.Buffer → List ClientMessage
pushed lib none b = []
pushed lib (some msg) b = if (push lib msg b).0 then msg ∷ [] else []

module _ {F Engine : Type 0} (random : Random F Engine) (lib : CircularBuffer ClientMessage) where
  -- A turn of the i-th client.
  unfoldable pub client_turn :
      (i elapsed : ℕ) → System F Engine lib.Buffer → System F Engine lib.Buffer
  client_turn i elapsed s =
      let t = s.threads i in
      let r = turn random lib elapsed t s.buffer in
      record s {
        threads = update_at s.threads i r.0;
        buffer = r.1;
        sent = s.sent ++ pushed lib (offer t t.phase) s.buffer;
      }

abbrev pub line_of : {A : Type 0} → Option A → List A
line_of none = []
line_of (some a) = a ∷ []

-- The state in which the threads start: the clients, an empty ring buffer and a new server.
unfoldable pub start :
    {F Engine : Type 0} (lib : CircularBuffer ClientMessage) (n capacity : ℕ)
    → (ℕ → Client F Engine)
    → List ℕ
    → PageTable.World
    → System F Engine lib.Buffer
start lib n capacity clients base_page_id world = record {
  threads = λ i. record { client = clients i; phase = timing };
  buffer = RingBuffer.create lib capacity;
  server = Server.create n base_page_id world;
  sent = [];
  handled = [];
  metrics_asleep = false;
  reports = [];
}

module _ {F Engine : Type 0} (machine : Machine) (random : Random F Engine)
    (lib : CircularBuffer ClientMessage) (ops : DoubleOps F) (policy : PolicyConfig F)
    (num_tiers : ℕ) where
  abbrev pub SystemOf : Type 0
  SystemOf = System F Engine lib.Buffer

  -- The steps of `n` clients, the manager, the scanner and the thread of the metrics. A pop and the
  -- handling of the message are one step. A run of the manager or of the scanner
  -- that does not return is no step.
  pub data Step (n : ℕ) (s : SystemOf) : SystemOf → Type 0 where
    client_steps : (i elapsed : ℕ) → i < n → Step n s (client_turn random lib i elapsed s)
    manager_pops :
        (msg : ClientMessage) {server : Server}
        → s.server.manager_shutdown_flag ≡ false
        → (pop lib s.buffer).0 ≡ some msg
        → handle_client_message machine msg s.server ≡ ok tt server
        → Step n s (record s {
          buffer = (pop lib s.buffer).1;
          server = server;
          handled = s.handled ++ (msg ∷ []);
        })
    manager_waits :
        s.server.manager_shutdown_flag ≡ false
        → (pop lib s.buffer).0 ≡ none
        → Step n s (record s { buffer = (pop lib s.buffer).1 })
    scanner_steps :
        {w : PageTable.World}
        → s.server.scanner_shutdown_flag ≡ false
        → scan_step ops machine policy num_tiers s.server.world ≡ ok tt w
        → Step n s (record s { server = record (s.server) { world = w } })
    metrics_sleeps :
        s.metrics_asleep ≡ false
        → s.server.manager_shutdown_flag ≡ false
        → Step n s (record s { metrics_asleep = true })
    metrics_reports :
        (double : DoubleArith F) (opens : Bool) (interval : ℕ)
        → s.metrics_asleep ≡ true
        → Step n s (record s {
          server = (report_period double opens interval s.server).0;
          metrics_asleep = false;
          reports = s.reports ++ line_of (report_period double opens interval s.server).1;
        })

  pub data Reach (n : ℕ) (s : SystemOf) : SystemOf → Type 0 where
    here : Reach n s s
    next : {t u : SystemOf} → Reach n s t → Step n t u → Reach n s u
