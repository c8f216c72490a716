-- ===== src/Client.antt =====
-- include/client/Client.hpp and src/client/Client.cpp: the thread of a client, cut into turns at the
-- calls that touch what it shares with other threads, the ring buffer. The debug messages and the
-- naps between two attempts to push are left out.
pub mod Stops
use memory_tiering.Base.{ℕ, Bool, true, false, Option, none, some, leb, if◌then◌else◌}
use memory_tiering.Common.{AccessPattern, OperationType, end, ClientMessage}
use memory_tiering.RingBuffer
use memory_tiering.RingBuffer.{CircularBuffer}
use memory_tiering.Generator
use memory_tiering.Generator.{Random, Generator, generate_pid, generate_type}

-- `Client`, without the reference to the ring buffer.
pub record Client (F Engine : Type 0) : Type 0 where
  pub client_id : ℕ
  pub running_time : ℕ
  pub generator : Generator F Engine
  pub rw_ratio : F

-- Where `run` is: at the reading of the clock, at the loop that pushes a message, at the loop that
-- pushes the last message, and at its end.
pub data Phase : Type 0 where
  timing : Phase
  sending : ClientMessage → Phase
  closing : Phase
  finished : Phase

pub record Thread (F Engine : Type 0) : Type 0 where
  pub client : Client F Engine
  pub phase : Phase

-- The message that tells the server that the client is done.
abbrev pub end_msg : ℕ → ClientMessage
end_msg client_id = record { client_id = client_id; pid = 0; p_offset = 0; op_type = end }

-- Where the thread goes on after an attempt to push.
unfoldable pub after_push : Bool → Phase → Phase → Phase
after_push done next again = if done then next else again

module _ {F Engine : Type 0} (random : Random F Engine) where
  -- The constructor; it passes no skew on to the generator, so that this has its default, 1.0.
  unfoldable pub create :
      F
      → (client_id running_time memory_space_size : ℕ) → AccessPattern
      → (rw_ratio : F) → Engine
      → Option (Thread F Engine)
  create one client_id running_time memory_space_size pattern rw_ratio g =
      elim (Generator.create random pattern memory_space_size one g) [
        | none ↦ none
        | some generator ↦ some (record {
          client = record {
            client_id = client_id;
            running_time = running_time;
            generator = generator;
            rw_ratio = rw_ratio;
          };
          phase = timing;
        })
      ]

  -- The next message: a page, then an operation.
  unfoldable pub next_message : Client F Engine → ClientMessage × Client F Engine
  next_message c =
      let (pid, g) = generate_pid random c.generator in
      let (op_type, g') = generate_type random c.rw_ratio g in
      (
        record { client_id = c.client_id; pid = pid; p_offset = 0; op_type = op_type },
        record c { generator = g' },
      )

  -- The reading of the clock, `elapsed` seconds after the start, with what follows up to a push.
  unfoldable pub read_clock : (elapsed : ℕ) → Client F Engine → Thread F Engine
  read_clock elapsed c =
      if leb c.running_time elapsed
      then record { client = c; phase = closing }
      else (let (msg, c') = next_message c in record { client = c'; phase = sending msg })

  module _ (lib : CircularBuffer ClientMessage) where
    -- A turn of the thread at a phase, with what the clock shows if it reads it.
    unfoldable pub turn_at :
        (elapsed : ℕ) → Client F Engine → Phase → lib.Buffer → Thread F Engine × lib.Buffer
    turn_at elapsed c timing b = (read_clock elapsed c, b)
    turn_at elapsed c (sending msg) b =
        let (done, b') = RingBuffer.push lib msg b in
        (record { client = c; phase = after_push done timing (sending msg) }, b')
    turn_at elapsed c closing b =
        let (done, b') = RingBuffer.push lib (end_msg c.client_id) b in
        (record { client = c; phase = after_push done finished closing }, b')
    turn_at elapsed c finished b = (record { client = c; phase = finished }, b)

    unfoldable pub turn :
        (elapsed : ℕ) → Thread F Engine → lib.Buffer → Thread F Engine × lib.Buffer
    turn elapsed t b = turn_at elapsed t.client t.phase b
