-- ===== src/WebSocket/Tests.antt =====
-- Connections of src/api/websocket.cpp at work, and the theorems at them.
use brokit.Prelude.{
  ℕ, ◌+◌, ◌≤◌, ◌<◌, ◌⊎◌, ◌≡◌, refl, true, false, List, [], ◌∷◌, ◌++◌, none, some, codes, map, pos,
  arith,
}
use brokit.Prelude.Table.{lookup}
use brokit.WebSocket.{is_closed, closed, WsConnection, Ws, no_ws, new_connection}
use brokit.WebSocket.Frames.{take_close}
use brokit.WebSocket.Natives.{
  message, close, ws_connect, tick_messages, Sent, send_all, close_payload, high_byte, low_byte,
}
use brokit.WebSocket.Kept.{Sound}
use brokit.WebSocket.Reach.{Reach, start, step, connects, messages, Reach-Sound}
use brokit.WebSocket.Sending.{total, send_all-total}
use brokit.WebSocket.Events.{
  Sending, answers_of, messages_of, rounds, rounds-messages, recv_times, error_events,
  recv_times-closed,
}

abbrev begun : Ws
begun = (ws_connect (codes "ws://a") [] true 7 no_ws).0

-- Its upgrade fails.
abbrev failed_one : Ws
failed_one = tick_messages ((1, some (codes "refused")) ∷ []) begun

failed_one_Reach : Reach failed_one
failed_one_Reach =
    step begun failed_one (step no_ws begun start (connects (codes "ws://a") [] true 7 no_ws))
      (messages ((1, some (codes "refused")) ∷ []) begun)

Reach-Sound_example : Sound failed_one
Reach-Sound_example = Reach-Sound failed_one failed_one_Reach

abbrev fresh : WsConnection
fresh = new_connection (codes "ws://a") 7

abbrev two_messages : List Sending
two_messages =
    record { binary = false; pieces = codes "he" ∷ codes "ll" ∷ []; end_piece = codes "o" }
    ∷ record { binary = true; pieces = []; end_piece = codes "x" }
    ∷ []

rounds-messages_example :
    ((rounds 1 (answers_of two_messages) fresh).0.inbox ≡ [] ++ messages_of two_messages)
    × ((rounds 1 (answers_of two_messages) fresh).1 ≡ [])
rounds-messages_example =
    rounds-messages 1 two_messages fresh refl (unfold answers_of in (omega arith))

abbrev shut_one : WsConnection
shut_one = record fresh {
  state = closed;
  inbox = record { bytes = codes "hi"; binary = false } ∷ [];
  error_msg = codes "cut";
  close_code = pos 1006;
}

abbrev shut_table : Ws
shut_table = record no_ws { multi = true; conns = (1, shut_one) ∷ []; next_id = 2 }

recv_times-closed_example :
    recv_times 5 1 shut_table
    ≡ map message shut_one.inbox
      ++ (error_events shut_one ++ close shut_one.close_code shut_one.close_reason ∷ [])
recv_times-closed_example =
    recv_times-closed 1 5 shut_one.inbox shut_one shut_table (unfold lookup in refl) refl
      (unfold is_closed in refl) (omega arith)

-- A close frame with the code 1000.
close_1000 : (take_close (3 ∷ 232 ∷ []) fresh).close_code ≡ pos 1000
unfolding take_close
close_1000 = refl

close_bytes : close_payload (pos 1000) (codes "a") ≡ 3 ∷ 232 ∷ 97 ∷ []
unfolding close_payload high_byte low_byte
close_bytes = refl

-- Fifty parts that do not make up the payload, and yet success is reported.
cut_short :
    send_all 2 true 0 10
      (record { count = 1; failure = none } ∷ record { count = 1; failure = none } ∷ [])
    ≡ (true, 2)
unfolding send_all
cut_short = refl

-- Two calls that send a byte each of ten.
abbrev byte_by_byte : List Sent
byte_by_byte = record { count = 1; failure = none } ∷ record { count = 1; failure = none } ∷ []

send_all-total_example :
    ((k : ℕ) × (send_all 2 true 0 10 byte_by_byte ≡ (true, k)) × (10 ≤ k))
    ⊎ ((send_all 2 true 0 10 byte_by_byte ≡ (true, 0 + total byte_by_byte))
        × (0 + total byte_by_byte < 10))
send_all-total_example = send_all-total 2 0 10 byte_by_byte (refl, (refl, tt)) refl (omega arith)
