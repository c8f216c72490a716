-- ===== src/Server.antt =====
-- include/server/Server.hpp and src/server/Server.cpp: the page ids of each client, the handling of a
-- message, and the shutdown once every client has sent END.
pub mod Pages
pub mod Shutdown
use memory_tiering.Base.{
  ℕ, zero, suc, ◌+◌, Bool, true, false, Option, none, some, List, [], ◌∷◌, ◌&&◌, ◌||◌,
  if◌then◌else◌, add64, length, get_elem?, set, ◌==◌,
}
use memory_tiering.Base.Run.{
  Run, Cmd, ok, assert_failed, fault, exit_failure, uncaught, out_of_fuel, pure, get_state, modify,
  deref, ◌>>=◌, ◌>>◌,
}
use memory_tiering.Common.{OperationType, read, write, end, ClientConfig, ClientMessage}
use memory_tiering.Machine.{Machine}
use memory_tiering.Metrics.Periodic.{DoubleArith, Report, periodical_metrics}
use memory_tiering.PageTable.{World, access_page_of}

-- The server with its page table, and the flag of its scanner.
pub record Server : Type 0 where
  pub world : World
  pub client_done_flags : List Bool
  pub base_page_id : List ℕ
  pub manager_shutdown_flag : Bool
  pub scanner_shutdown_flag : Bool

-- The pages of a client on the tiers that the server has: `tier_sizes[0] + tier_sizes[1]`, and
-- `tier_sizes[2]` with three tiers. `none` is a read out of range.
unfoldable pub client_pages : {F : Type 0} → ℕ → ClientConfig F → Option ℕ
client_pages num_tiers c = elim (get_elem? c.tier_sizes 0) [
  | none ↦ none
  | some a ↦ elim (get_elem? c.tier_sizes 1) [
    | none ↦ none
    | some b ↦
        if num_tiers == 2
        then some (add64 a b)
        else elim (get_elem? c.tier_sizes 2) [ none ↦ none | some d ↦ some (add64 (add64 a b) d) ]
  ]
]

-- The loops of the constructor, from the pages counted so far.
unfoldable pub base_page_ids : {F : Type 0} → ℕ → ℕ → List (ClientConfig F) → Option (List ℕ)
base_page_ids num_tiers client_total_page [] = some []
base_page_ids num_tiers client_total_page (c ∷ clients) = elim (client_pages num_tiers c) [
  | none ↦ none
  | some n ↦ elim (base_page_ids num_tiers (add64 client_total_page n) clients) [
    | none ↦ none
    | some ids ↦ some (client_total_page ∷ ids)
  ]
]

-- `base_page_id_` as the constructor fills it: there is a loop for two and one for three tiers.
unfoldable pub create_base_page_id : {F : Type 0} → ℕ → List (ClientConfig F) → Option (List ℕ)
create_base_page_id num_tiers clients =
    if num_tiers == 2 || num_tiers == 3 then base_page_ids num_tiers 0 clients else some []

unfoldable pub all_done : List Bool → Bool
all_done [] = true
all_done (d ∷ ds) = d && all_done ds

-- `std::vector<bool>(n, false)`
unfoldable pub no_flags : ℕ → List Bool
no_flags zero = []
no_flags (suc n) = false ∷ no_flags n

-- The members of a server as the constructor leaves them, for so many clients.
unfoldable pub create : ℕ → List ℕ → World → Server
create n base_page_id world = record {
  world = world;
  client_done_flags = no_flags n;
  base_page_id = base_page_id;
  manager_shutdown_flag = false;
  scanner_shutdown_flag = false;
}

unfoldable pub signal_shutdown : Server → Server
signal_shutdown s = record s { scanner_shutdown_flag = true; manager_shutdown_flag = true }

-- `client_done_flags_[client_id] = true`, out of range undefined.
unfoldable pub mark_done : ℕ → Cmd Server (Unit {0})
mark_done client_id s = elim (get_elem? s.client_done_flags client_id) [
  | none ↦ fault
  | some _ ↦ ok tt (record s { client_done_flags = set s.client_done_flags client_id true })
]

-- The END branch of `handleClientMessage`.
unfoldable pub handle_end : ℕ → Cmd Server (Unit {0})
handle_end client_id = do
  mark_done client_id
  s ← get_state
  if all_done s.client_done_flags then modify signal_shutdown else pure tt

-- A method of the page table, called by the server.
abbrev pub on_world_of : {A : Type 0} → Run World A → Cmd Server A
on_world_of (ok a w) s = ok a (record s { world = w })
on_world_of assert_failed s = assert_failed
on_world_of fault s = fault
on_world_of exit_failure s = exit_failure
on_world_of uncaught s = uncaught
on_world_of out_of_fuel s = out_of_fuel

unfoldable pub on_world : {A : Type 0} → Cmd World A → Cmd Server A
on_world m s = on_world_of (m s.world) s

module _ (machine : Machine) where
  -- The other branch: a read or a write of the client's page.
  unfoldable pub handle_access : ClientMessage → Cmd Server (Unit {0})
  handle_access msg = do
    s ← get_state
    base ← deref (get_elem? s.base_page_id msg.client_id)
    on_world (access_page_of machine (add64 base msg.pid))

  unfoldable pub handle_client_message : ClientMessage → Cmd Server (Unit {0})
  handle_client_message msg = elim msg.op_type [
    | end ↦ handle_end msg.client_id
    | _ ↦ handle_access msg
  ]

  -- `_runManagerThread` on the messages that the ring buffer yields, `none` where it is empty; the
  -- list ends where the observation does.
  unfoldable pub run_manager_thread : List (Option ClientMessage) → Cmd Server (Unit {0})
  run_manager_thread [] = pure tt
  run_manager_thread (m ∷ ms) = do
    s ← get_state
    if s.manager_shutdown_flag then pure tt else (do
      elim m [ none ↦ pure tt | some msg ↦ handle_client_message msg ]
      run_manager_thread ms)

-- A round of `_runPeriodicalMetricsThread` after its sleep: the line that it writes, if the file opens.
unfoldable pub report_period :
    {F : Type 0}
    → DoubleArith F
    → (opens : Bool) → (interval : ℕ) → Server
    → Server × Option (Report F)
report_period double opens interval s =
    let (m, line) =
      periodical_metrics double opens s.world.server_config interval s.world.metrics in
    (record s { world = record (s.world) { metrics = m } }, line)
