-- ===== src/Examples/Ends.antt =====
-- The theorems on what the threads can always do, applied to one client and the server.
use memory_tiering.Base.{refl, ◌∷◌, [], arith}
use memory_tiering.Base.Run.{Returns}
use memory_tiering.Scanner.{scan_step}
use memory_tiering.Scanner.Invariant.{Inv as ScanInv}
use memory_tiering.Scanner.Policy.{IsTyped, lru_typed}
use memory_tiering.RingBuffer
use memory_tiering.RingBuffer.{push}
use memory_tiering.Server
use memory_tiering.Server.{handle_client_message}
use memory_tiering.PageTable.Spec.{MovesPages}
use memory_tiering.Client.{turn, turn_at, read_clock, after_push, next_message}
use memory_tiering.Generator.{generate_pid, generate_type, draw}
use memory_tiering.RingBuffer.{pop}
use memory_tiering.Delivery.{start, client_turn}
use memory_tiering.Delivery.InOrder.{InOrder}
use memory_tiering.Delivery.Sound.{reached_scans, reached_handles}
use memory_tiering.Examples.Tables.{machine, no_ring, no_ring-Inv, ops, policy, thresholds}
use memory_tiering.Examples.Threads.{random, messages, client, said, said_reached, read_first, only}

abbrev pub moves : MovesPages machine
moves n addr node = refl

abbrev pub typed : IsTyped policy
typed = lru_typed thresholds refl refl

reached_scans_example :
    ScanInv 3 said.server.world
    × Returns (λ u w. ScanInv 3 w) (scan_step ops machine policy 3 said.server.world)
reached_scans_example =
    reached_scans machine random messages ops policy 3 moves typed 1 2 (omega arith) client (0 ∷ [])
      no_ring only refl no_ring-Inv said_reached

reached_handles_example :
    Returns (λ u s'. InOrder 3 1 s') (handle_client_message machine read_first said.server)
unfolding start client_turn turn turn_at read_clock after_push next_message generate_pid
    generate_type draw push pop RingBuffer.create Server.create
reached_handles_example =
    reached_handles machine random messages ops policy 3 moves typed 1 2 (omega arith) client
      (0 ∷ []) no_ring only refl no_ring-Inv said_reached read_first refl
