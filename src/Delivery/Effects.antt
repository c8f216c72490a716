-- ===== src/Delivery/Effects.antt =====
-- What one turn of a client, and one message handled by the manager, do to what the threads share.
use memory_tiering.Base.{
  ℕ, ◌<◌, ◌≡◌, refl, sym, ap, ◌∙◌, subst, Bool, true, false, ◌⊎◌, some, List, [], ◌∷◌, ◌++◌,
  append-nil, length, get_elem?, set, if◌then◌else◌, leb, Bool-cases, Option-cases, inl, inr, add64,
}
use memory_tiering.Base.Run.{
  Run, Cmd, ok, assert_failed, fault, exit_failure, uncaught, out_of_fuel, Whenever, Whenever-run,
  Returns-Whenever,
}
use memory_tiering.Common.{OperationType, read, write, end, ClientMessage}
use memory_tiering.Machine.{Machine}
use memory_tiering.RingBuffer.{CircularBuffer, push}
use memory_tiering.Generator.{Random, generate_pid, generate_type}
use memory_tiering.Client.{
  Client, Thread, Phase, timing, sending, closing, finished, end_msg, next_message, read_clock,
  after_push, turn_at,
}
use memory_tiering.PageTable.{World, access_page_of}
use memory_tiering.Server.{
  Server, all_done, on_world_of, on_world, handle_end, handle_access, handle_client_message,
}
use memory_tiering.Server.Shutdown
use memory_tiering.Server.Shutdown.{EndSpec, handle_end-Inv}
use memory_tiering.Delivery.{offer, pushed}
use memory_tiering.Delivery.Messages.{is_end}

abbrev pub is_finished : Phase → Bool
is_finished timing = false
is_finished (sending msg) = false
is_finished closing = false
is_finished finished = true

-- A message that a thread is about to push is its client's, and no END.
abbrev pub IsOwn : ℕ → Phase → Type 0
IsOwn i timing = Unit {0}
IsOwn i (sending msg) = (msg.client_id ≡ i) × (is_end msg.op_type ≡ false)
IsOwn i closing = Unit {0}
IsOwn i finished = Unit {0}

-- A turn of the client `i` that pushes `out`.
pub record Turned (i : ℕ) (before : Phase) (held : List ClientMessage) (out : List ClientMessage)
    {F Engine : Type 0} (after : Thread F Engine) (held' : List ClientMessage) : Type 0 where
  pub same_id : after.client.client_id ≡ i
  pub added : held' ≡ held ++ out
  pub own : IsOwn i after.phase
  pub outcome :
      ((out ≡ []) × (is_finished after.phase ≡ is_finished before))
      ⊎ ((m : ClientMessage) × (out ≡ m ∷ [])
          × (m.client_id ≡ i)
          × (is_finished before ≡ false)
          × (is_finished after.phase ≡ is_end m.op_type))

module _ {F Engine : Type 0} (random : Random F Engine) (lib : CircularBuffer ClientMessage) where
  -- An attempt to push changes the contents by what it pushes.
  contents-push :
      (msg : ClientMessage) (b : lib.Buffer)
      → lib.contents (push lib msg b).1 ≡ lib.contents b ++ pushed lib (some msg) b
  unfolding push pushed
  contents-push msg b = elim (Bool-cases (lib.full b)) [
    | inl f ↦ rw f (sym (append-nil (lib.contents b)))
    | inr f ↦ rw f (lib.contents-push_back msg b f)
  ]

  pushed-cases :
      (msg : ClientMessage) (b : lib.Buffer)
      → (((push lib msg b).0 ≡ false) × (pushed lib (some msg) b ≡ []))
        ⊎ (((push lib msg b).0 ≡ true) × (pushed lib (some msg) b ≡ msg ∷ []))
  unfolding pushed
  pushed-cases msg b = elim (Bool-cases (push lib msg b).0) [
    | inl d ↦ inr (d, rw d refl)
    | inr d ↦ inl (d, rw d refl)
  ]

  read_clock-own :
      (elapsed : ℕ) (c : Client F Engine) (b : lib.Buffer)
      → Turned c.client_id timing (lib.contents b) [] (read_clock random elapsed c) (lib.contents b)
  unfolding read_clock next_message generate_type generate_pid
  read_clock-own elapsed c b = elim (Bool-cases (leb c.running_time elapsed)) [
    | inl late ↦ rw late (record {
      same_id = refl;
      added = sym (append-nil (lib.contents b));
      own = tt;
      outcome = inl (refl, refl);
    })
    | inr early ↦ rw early (record {
      same_id = refl;
      added = sym (append-nil (lib.contents b));
      own = (refl, either _);
      outcome = inl (refl, refl);
    })
  ]
    where
      either : (b : Bool) → is_end (if b then read else write) ≡ false
      either true = refl
      either false = refl

  -- What a turn at a phase does.
  pub turn_at-Turned :
      (elapsed : ℕ) (c : Client F Engine) (p : Phase) (b : lib.Buffer)
      → IsOwn c.client_id p
      → let r = turn_at random lib elapsed c p b in
        Turned c.client_id p
          (lib.contents b)
          (pushed lib (offer (record { client = c; phase = p }) p) b)
          r.0
          (lib.contents r.1)
  unfolding turn_at after_push pushed
  turn_at-Turned elapsed c timing b own = read_clock-own elapsed c b
  turn_at-Turned elapsed c (sending msg) b (mine, no_end) = elim (pushed-cases msg b) [
    | inl (d, out) ↦ record {
      same_id = refl;
      added = contents-push msg b;
      own =
          subst (λ x. IsOwn c.client_id (after_push x timing (sending msg))) (sym d) (mine, no_end);
      outcome = inl (out, ap (λ x. is_finished (after_push x timing (sending msg))) d);
    }
    | inr (d, out) ↦ record {
      same_id = refl;
      added = contents-push msg b;
      own = subst (λ x. IsOwn c.client_id (after_push x timing (sending msg))) (sym d) tt;
      outcome = inr (
        msg,
        out,
        mine,
        refl,
        ap (λ x. is_finished (after_push x timing (sending msg))) d ∙ sym no_end,
      );
    }
  ]
  turn_at-Turned elapsed c closing b own = elim (pushed-cases (end_msg c.client_id) b) [
    | inl (d, out) ↦ record {
      same_id = refl;
      added = contents-push (end_msg c.client_id) b;
      own = subst (λ x. IsOwn c.client_id (after_push x finished closing)) (sym d) tt;
      outcome = inl (out, ap (λ x. is_finished (after_push x finished closing)) d);
    }
    | inr (d, out) ↦ record {
      same_id = refl;
      added = contents-push (end_msg c.client_id) b;
      own = subst (λ x. IsOwn c.client_id (after_push x finished closing)) (sym d) tt;
      outcome = inr (
        end_msg c.client_id,
        out,
        refl,
        refl,
        ap (λ x. is_finished (after_push x finished closing)) d,
      );
    }
  ]
  turn_at-Turned elapsed c finished b own = record {
    same_id = refl;
    added = sym (append-nil (lib.contents b));
    own = tt;
    outcome = inl (refl, refl);
  }

-- Handling a message: the sender's flag is set if it is END, and no other; the shutdown flags stay in
-- order.
pub record Handled (s : Server) (msg : ClientMessage) (s' : Server) : Type 0 where
  pub flags : s'.client_done_flags ≡ (
      if is_end msg.op_type
      then set s.client_done_flags msg.client_id true
      else s.client_done_flags)
  pub inv : Shutdown.Inv s'

-- A method of the page table changes the world alone.
abbrev WorldOnly : {A : Type 0} → Server → A → Server → Type 0
WorldOnly s a s' = s' ≡ record s { world = s'.world }

on_world-WorldOnly :
    {A : Type 0} (s : Server) (r : Run World A) → Whenever (WorldOnly s) (on_world_of r s)
on_world-WorldOnly s (ok a w) = refl
on_world-WorldOnly s assert_failed = tt
on_world-WorldOnly s fault = tt
on_world-WorldOnly s exit_failure = tt
on_world-WorldOnly s uncaught = tt
on_world-WorldOnly s out_of_fuel = tt

module _ (machine : Machine) where
  handle_access-WorldOnly :
      (msg : ClientMessage) (s : Server) → Whenever (WorldOnly s) (handle_access machine msg s)
  unfolding handle_access on_world
  handle_access-WorldOnly msg s = elim (Option-cases (get_elem? s.base_page_id msg.client_id)) [
    | inl h ↦ rw h tt
    | inr (base, h) ↦
        rw h (on_world-WorldOnly s (access_page_of machine (add64 base msg.pid) s.world))
  ]

  access-Handled :
      (msg : ClientMessage) (s s' : Server)
      → is_end msg.op_type ≡ false
      → Shutdown.Inv s
      → handle_access machine msg s ≡ ok tt s'
      → Handled s msg s'
  access-Handled msg s s' no_end v e =
      let same = Whenever-run (WorldOnly s) tt s' (handle_access-WorldOnly msg s) e in
      record {
        flags = rw no_end (ap (λ x. x.client_done_flags) same);
        inv = record {
          together =
              ap (λ x. x.scanner_shutdown_flag) same
              ∙ v.together
              ∙ sym (ap (λ x. x.manager_shutdown_flag) same);
          exact =
              ap (λ x. x.manager_shutdown_flag) same
              ∙ v.exact
              ∙ sym (ap (λ x. all_done x.client_done_flags) same);
        };
      }

  pub handle-Handled :
      (msg : ClientMessage) (s s' : Server)
      → msg.client_id < length s.client_done_flags
      → Shutdown.Inv s
      → handle_client_message machine msg s ≡ ok tt s'
      → Handled s msg s'
  unfolding handle_client_message
  handle-Handled msg s s' known v e = by_type msg.op_type refl
    where
      run_of : OperationType → Run Server (Unit {0})
      run_of op =
          elim op as (λ x. Cmd Server (Unit {0})) [
            | end ↦ handle_end msg.client_id
            | _ ↦ handle_access machine msg
          ]
            s

      by_type : (op : OperationType) → msg.op_type ≡ op → Handled s msg s'
      by_type read at = access-Handled msg s s' (ap is_end at) v (sym (ap run_of at) ∙ e)
      by_type write at = access-Handled msg s s' (ap is_end at) v (sym (ap run_of at) ∙ e)
      by_type end at =
          let (inv, (flags, _, _)) =
            Whenever-run _ tt s' (Returns-Whenever _ (handle_end-Inv s msg.client_id known v))
              (sym (ap run_of at) ∙ e) in
          record { flags = rw (ap is_end at) flags; inv = inv }
