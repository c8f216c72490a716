-- ===== src/Examples/Threads.antt =====
-- A ring buffer that is a list, random numbers that are not random, and the theorems on the threads
-- applied to one client and the server.
use memory_tiering.Base.{
  ℕ, zero, suc, ◌+◌, ◌/◌, ◌<◌, ◌≤◌, ◌≡◌, refl, true, Option, none, some, List, [], ◌∷◌, ◌++◌,
  length, leb, ltb, get_elem?, arith,
}
use memory_tiering.Common.{ClientMessage, hot, read, uniform}
use memory_tiering.PageTable.{
  on_page, access_page_of, access_entry, access_page, get_time_ns, reading, update_entry,
  count_event, now_ms,
}
use memory_tiering.PageTable.Entries.{find}
use memory_tiering.RingBuffer
use memory_tiering.RingBuffer.{CircularBuffer, push, pop}
use memory_tiering.RingBuffer.Fifo.{
  Call, push_of, pop_of, traffic, enqueue, dequeue, on_contents, traffic-refines, traffic-fifo,
}
use memory_tiering.Generator
use memory_tiering.Generator.{Random, RandomLaws, Generator, generate_pid, generate_type, draw}
use memory_tiering.Generator.InRange.{generate_pids, generate_pids-lt}
use memory_tiering.Client.{
  Client, timing, finished, end_msg, turn, turn_at, read_clock, after_push, next_message,
}
use memory_tiering.Client.Stops.{turns, turns-finished}
use memory_tiering.Server
use memory_tiering.Server.{
  handle_client_message, handle_end, handle_access, mark_done, on_world, all_done, signal_shutdown,
  no_flags,
}
use memory_tiering.Delivery.{
  System, start, pushed, client_turn, client_steps, manager_pops, Reach, here, next,
}
use memory_tiering.Delivery.Effects.{is_finished}
use memory_tiering.Delivery.Drained.{handled_in_order, shutdown-drained}
use memory_tiering.Examples.Tables.{machine, no_ring, ops, policy}

abbrev first : {T : Type 0} → List T → Option T
first [] = none
first (x ∷ xs) = some x

abbrev rest : {T : Type 0} → List T → List T
rest [] = []
rest (x ∷ xs) = xs

-- A list and how long it may become.
pub record Bounded (T : Type 0) : Type 0 where
  elements : List T
  limit : ℕ

abbrev listed : (T : Type 0) → CircularBuffer T
listed T = record {
  Buffer = Bounded T;
  contents = λ b. b.elements;
  capacity = λ b. b.limit;
  with_capacity = λ n. record { elements = []; limit = n };
  full = λ b. leb b.limit (length b.elements);
  empty = λ b. leb (length b.elements) 0;
  push_back = λ x b. record b { elements = b.elements ++ (x ∷ []) };
  front = λ b. first b.elements;
  pop_front = λ b. record b { elements = rest b.elements };
  contents_new = λ n. refl;
  capacity_new = λ n. refl;
  full_lem = λ b. refl;
  empty_lem = λ b. refl;
  contents-push_back = λ x b h. refl;
  capacity-push_back = λ x b. refl;
  front_lem = λ x xs b h. rw h refl;
  contents-pop_front = λ x xs b h. rw h refl;
  capacity-pop_front = λ b. refl;
}

abbrev lib : CircularBuffer ℕ
lib = listed ℕ

abbrev pub messages : CircularBuffer ClientMessage
messages = listed ClientMessage

abbrev calls : List (Call ℕ)
calls = push_of 7 ∷ push_of 8 ∷ pop_of ∷ pop_of ∷ pop_of ∷ []

traffic-refines_example :
    on_contents lib (traffic (push lib) (pop lib) calls (record { elements = 5 ∷ []; limit = 2 }))
    ≡ traffic (enqueue 2) dequeue calls (5 ∷ [])
traffic-refines_example = traffic-refines lib 2 calls (record { elements = 5 ∷ []; limit = 2 }) refl

traffic-fifo_example : ◌≡◌ {A = List ℕ} (7 ∷ []) (7 ∷ []) × (0 ≤ 1)
unfolding traffic push pop RingBuffer.create
traffic-fifo_example = traffic-fifo lib 1 calls

-- The lowest number, page or weight there is.
abbrev pub random : Random ℕ ℕ
random = record {
  uniform_int = λ lo hi g. (lo, suc g);
  uniform_real = λ g. (g, suc g);
  discrete = λ weights g. (0, suc g);
  shuffle = λ xs g. (xs, suc g);
  less = ltb;
  inverse_power = λ i s. s / i;
  ceil_fifth = λ n. (n + 4) / 5;
}

pub random-laws : RandomLaws random
random-laws = record {
  uniform_int-in = λ lo hi g h. (omega arith, h);
  discrete-lt = λ weights g h. h;
  length-shuffle = λ xs g. refl;
  get-shuffle = λ xs g i a h. (i, h);
  ceil_fifth-le = λ n h. (omega (arith, h), omega (arith, h));
}

generate_pids-lt_example :
    (m : Generator ℕ ℕ) × (Generator.create random hot 11 1 0 ≡ some m)
    × ((k i pid : ℕ) → get_elem? (generate_pids random k m) i ≡ some pid → pid < 11)
generate_pids-lt_example =
    generate_pids-lt random random-laws hot 11 1 0 (omega arith) (omega arith)

-- A client of two pages that runs for a second.
abbrev pub client : ℕ → Client ℕ ℕ
client i = record {
  client_id = i;
  running_time = 1;
  generator = record {
    pattern = uniform;
    rng = 0;
    memory_space_size = 2;
    uniform_dist = (0, 1);
    hot_pages = [];
    hot_dist = (0, 0);
    zipf_prob = [];
  };
  rw_ratio = 5;
}

turns-finished_example :
    (turns random messages
      (1 ∷ 2 ∷ 3 ∷ [])
      (record { client = client 0; phase = timing })
      (record { elements = []; limit = 2 })).0.phase
    ≡ finished
turns-finished_example =
    turns-finished random messages [] 1 2 3 (record { client = client 0; phase = timing })
      (record { elements = []; limit = 2 }) (omega arith) (omega arith) (omega arith)

abbrev pub SystemOf : Type 0
SystemOf = System ℕ ℕ (Bounded ClientMessage)

abbrev pub first_state : SystemOf
first_state = start messages 1 2 client (0 ∷ []) no_ring

-- The client reads the clock, sends an access, sees that its time is over and says END.
abbrev pub said : SystemOf
said = client_turn random messages 0 2 (
    client_turn random messages 0 1
      (client_turn random messages 0 0 (client_turn random messages 0 0 first_state)))

abbrev pub read_first : ClientMessage
read_first = record { client_id = 0; pid = 0; p_offset = 0; op_type = read }

abbrev pub ReachOf : SystemOf → Type 0
ReachOf = Reach machine random messages ops policy 3 1 first_state

pub said_reached : ReachOf said
said_reached =
    next
      (next (next (next here (client_steps 0 0 (omega arith))) (client_steps 0 0 (omega arith)))
        (client_steps 0 1 (omega arith)))
      (client_steps 0 2 (omega arith))

-- A state that the threads reach, once the manager has handled both messages.
record Over : Type 0 where
  state : SystemOf
  reach : ReachOf state
  down : state.server.manager_shutdown_flag ≡ true
  drained : state.buffer.elements ≡ []
  over : is_finished (state.threads 0).phase ≡ true

over : Over
unfolding start client_turn turn turn_at read_clock after_push next_message generate_pid
    generate_type draw pushed push pop RingBuffer.create Server.create no_flags
    handle_client_message handle_end handle_access mark_done on_world all_done signal_shutdown
    access_page_of access_entry access_page get_time_ns now_ms reading update_entry count_event find
    on_page
over = record {
  state = _;
  reach =
      next (next said_reached (manager_pops read_first refl refl refl))
        (manager_pops (end_msg 0) refl refl refl);
  down = refl;
  drained = refl;
  over = refl;
}

pub only : (i : ℕ) → i < 1 → (client i).client_id ≡ i
only i h = refl

handled_in_order_example : over.state.sent ≡ over.state.handled ++ over.state.buffer.elements
handled_in_order_example =
    handled_in_order machine random messages ops policy 3 1 2 client (0 ∷ []) no_ring (omega arith)
      only over.reach

shutdown-drained_example :
    (over.state.buffer.elements ≡ [])
    × (over.state.handled ≡ over.state.sent)
    × ((i : ℕ) → i < 1 → is_finished (over.state.threads i).phase ≡ true)
shutdown-drained_example =
    shutdown-drained machine random messages ops policy 3 1 2 client (0 ∷ []) no_ring (omega arith)
      only over.reach over.down

over_all : (i : ℕ) → i < 1 → is_finished (over.state.threads i).phase ≡ true
over_all zero h = over.over
over_all (suc i) h = absurd (omega (arith, h))
