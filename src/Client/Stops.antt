-- ===== src/Client/Stops.antt =====
-- A client stops when its time is over.
use memory_tiering.Base.{
  ℕ, suc, ◌+◌, ◌≤◌, ◌≡◌, refl, ap, ◌∙◌, true, false, List, [], ◌∷◌, length, length-append, leb,
  arith,
}
use memory_tiering.Common.{ClientMessage}
use memory_tiering.RingBuffer.{CircularBuffer, push}
use memory_tiering.Generator.{Random}
use memory_tiering.Client.{
  Client, Thread, Phase, timing, sending, closing, finished, end_msg, read_clock, after_push,
  turn_at, turn,
}

module _ {T : Type 0} (lib : CircularBuffer T) (x : T) (b : lib.Buffer) where
  pub push_room :
      (k : ℕ) → length (lib.contents b) + suc k ≤ lib.capacity b → (push lib x b).0 ≡ true
  unfolding push
  push_room k room = let f : lib.full b ≡ false = lib.full_lem b ∙ ground arith in rw f refl

  room_left :
      (k : ℕ)
      → length (lib.contents b) + suc k ≤ lib.capacity b
      → length (lib.contents (push lib x b).1) + k ≤ lib.capacity (push lib x b).1
  unfolding push
  room_left k room =
      let f : lib.full b ≡ false = lib.full_lem b ∙ ground arith in
      rw (f, lib.contents-push_back x b f, lib.capacity-push_back x b)
        (omega (arith, length-append {0} (lib.contents b) (x ∷ []), room))

module _ {F Engine : Type 0} (random : Random F Engine) (lib : CircularBuffer ClientMessage) where
  -- Turns in a row, with what the clock shows at each.
  unfoldable pub turns : List ℕ → Thread F Engine → lib.Buffer → Thread F Engine × lib.Buffer
  turns [] t b = (t, b)
  turns (e ∷ es) t b = let (t', b') = turn random lib e t b in turns es t' b'

  -- A thread that has finished takes part no more.
  finished_stays :
      (es : List ℕ) (c : Client F Engine) (b : lib.Buffer)
      → turns es (record { client = c; phase = finished }) b
        ≡ (record { client = c; phase = finished }, b)
  unfolding turns turn turn_at
  finished_stays [] c b = refl
  finished_stays (e ∷ es) c b = finished_stays es c b

  from_closing :
      (es : List ℕ) (e : ℕ) (c : Client F Engine) (b : lib.Buffer)
      → length (lib.contents b) + 1 ≤ lib.capacity b
      → (turns (e ∷ es) (record { client = c; phase = closing }) b).0.phase ≡ finished
  unfolding turns turn turn_at after_push
  from_closing es e c b room =
      let b' = (push lib (end_msg c.client_id) b).1 in
      ap
        (λ done.
          (turns es (record { client = c; phase = after_push done finished closing }) b').0.phase)
        (push_room lib (end_msg c.client_id) b 0 room)
      ∙ ap (λ r. r.0.phase) (finished_stays es c b')

  pub over :
      (e : ℕ) (c : Client F Engine)
      → c.running_time ≤ e
      → read_clock random e c ≡ record { client = c; phase = closing }
  unfolding read_clock
  over e c h = let late : leb c.running_time e ≡ true = ground arith in rw late refl

  from_timing :
      (es : List ℕ) (e e' : ℕ) (c : Client F Engine) (b : lib.Buffer)
      → c.running_time ≤ e
      → length (lib.contents b) + 1 ≤ lib.capacity b
      → (turns (e ∷ e' ∷ es) (record { client = c; phase = timing }) b).0.phase ≡ finished
  unfolding turns turn turn_at
  from_timing es e e' c b late room =
      ap (λ t. (turns (e' ∷ es) t b).0.phase) (over e c late) ∙ from_closing es e' c b room

  from_sending :
      (es : List ℕ) (e e' e'' : ℕ) (c : Client F Engine) (msg : ClientMessage) (b : lib.Buffer)
      → c.running_time ≤ e'
      → length (lib.contents b) + 2 ≤ lib.capacity b
      → (turns (e ∷ e' ∷ e'' ∷ es) (record { client = c; phase = sending msg }) b).0.phase
        ≡ finished
  unfolding turns turn turn_at after_push
  from_sending es e e' e'' c msg b late room =
      let b' = (push lib msg b).1 in
      ap
        (λ done.
          (turns (e' ∷ e'' ∷ es)
            (record { client = c; phase = after_push done timing (sending msg) }) b').0.phase)
        (push_room lib msg b 1 room)
      ∙ from_timing es e' e'' c b' late (room_left lib msg b 1 room)

  -- Wherever a client's thread is, if the clock shows that its time is over and the ring buffer has
  -- room for two messages, then it has finished after three turns, and stays so.
  pub turns-finished :
      (es : List ℕ) (e e' e'' : ℕ) (t : Thread F Engine) (b : lib.Buffer)
      → t.client.running_time ≤ e
      → t.client.running_time ≤ e'
      → length (lib.contents b) + 2 ≤ lib.capacity b
      → (turns (e ∷ e' ∷ e'' ∷ es) t b).0.phase ≡ finished
  turns-finished es e e' e'' t b late late' room = by_phase t.phase refl
    where
      by_phase :
          (p : Phase)
          → t.phase ≡ p
          → (turns (e ∷ e' ∷ e'' ∷ es) (record { client = t.client; phase = p }) b).0.phase
            ≡ finished
      by_phase timing at = from_timing (e'' ∷ es) e e' t.client b late (omega (arith, room))
      by_phase (sending msg) at = from_sending es e e' e'' t.client msg b late' room
      by_phase closing at = from_closing (e' ∷ e'' ∷ es) e t.client b (omega (arith, room))
      by_phase finished at = ap (λ r. r.0.phase) (finished_stays (e ∷ e' ∷ e'' ∷ es) t.client b)
