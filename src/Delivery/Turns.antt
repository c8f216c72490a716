-- ===== src/Delivery/Turns.antt =====
-- How far a client's thread is from its end.
use memory_tiering.Base.{ℕ, ◌+◌, ◌-◌, ◌≤◌, ◌≡◌, refl, ap, true, length, arith}
use memory_tiering.Common.{ClientMessage}
use memory_tiering.RingBuffer.{CircularBuffer}
use memory_tiering.Generator.{Random}
use memory_tiering.Client.{
  Client, Phase, timing, sending, closing, finished, end_msg, turn_at, after_push,
}
use memory_tiering.Client.Stops.{push_room, over}
use memory_tiering.Delivery.Effects.{is_finished}

-- How many turns a thread needs yet, once its time is over and its messages are taken in.
unfoldable pub turns_left : Phase → ℕ
turns_left timing = 2
turns_left (sending msg) = 3
turns_left closing = 1
turns_left finished = 0

pub none_left-finished : (p : Phase) → turns_left p ≡ 0 → is_finished p ≡ true
unfolding turns_left
none_left-finished timing h = absurd (omega (arith, h))
none_left-finished (sending msg) h = absurd (omega (arith, h))
none_left-finished closing h = absurd (omega (arith, h))
none_left-finished finished h = refl

-- Each turn with room in the ring buffer brings it nearer.
module _ {F Engine : Type 0} (random : Random F Engine) (lib : CircularBuffer ClientMessage) where
  pub turn_at-left :
      (c : Client F Engine) (p : Phase) (b : lib.Buffer)
      → length (lib.contents b) + 1 ≤ lib.capacity b
      → turns_left (turn_at random lib c.running_time c p b).0.phase ≡ turns_left p - 1
  unfolding turn_at turns_left after_push
  turn_at-left c timing b room =
      ap (λ t. turns_left t.phase) (over random lib c.running_time c (omega arith))
  turn_at-left c (sending msg) b room =
      ap (λ done. turns_left (after_push done timing (sending msg))) (push_room lib msg b 0 room)
  turn_at-left c closing b room =
      ap (λ done. turns_left (after_push done finished closing))
        (push_room lib (end_msg c.client_id) b 0 room)
  turn_at-left c finished b room = refl
