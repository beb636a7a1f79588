-- ===== src/WebSocket/Frames.antt =====
-- What src/api/websocket.cpp receives: frames in pieces, gathered into messages.
use brokit.Prelude.{
  ℕ, zero, suc, ◌+◌, ◌*◌, Bool, true, false, ◌||◌, List, [], ◌∷◌, ◌++◌, Option, none, some, Bytes,
  codes, is_empty, drop, get_or, length, ltb, if◌then◌else◌, ℤ, pos,
}
use brokit.WebSocket.{closed, is_closed, WsConnection}

-- The flags of a curl_ws_frame, with whether its bytesleft is 0.
pub record Meta : Type 0 where
  pub is_close : Bool
  pub is_ping : Bool
  pub is_text : Bool
  pub is_binary : Bool
  pub is_cont : Bool
  pub is_last : Bool

-- What curl_ws_recv answers: CURLE_AGAIN, another error, no frame, or a piece of one.
pub data Received : Type 0 where
  again : Received
  fails : (text : Bytes) → Received
  no_frame : Received
  piece : Meta → Bytes → Received

-- The bytes of a piece are gathered; the last piece makes a message of them.
unfoldable pub gather : (is_last binary : Bool) → Bytes → WsConnection → WsConnection
gather is_last binary buf c =
    let all = c.partial_data ++ buf in
    if is_last
    then record c {
      inbox = c.inbox ++ record { bytes = all; binary = binary } ∷ [];
      partial_data = [];
      partial_binary = binary;
    }
    else record c { partial_data = all; partial_binary = binary }

-- A close frame.
unfoldable pub take_close : Bytes → WsConnection → WsConnection
take_close buf c =
    if ltb (length buf) 2 then record c { close_code = pos 1005; state = closed } else record c {
      close_code = pos (get_or buf 0 0 * 256 + get_or buf 1 0);
      close_reason = if ltb 2 (length buf) then drop 2 buf else c.close_reason;
      state = closed;
    }

unfoldable pub is_zero : ℤ → Bool
is_zero (pos zero) = true
is_zero _ = false

-- An error of curl_ws_recv.
unfoldable pub take_error : Bytes → WsConnection → WsConnection
take_error text c = if is_closed c.state then c else record c {
  state = closed;
  close_code = if is_zero c.close_code then pos 1006 else c.close_code;
  error_msg = if is_empty c.error_msg then codes "curl_ws_recv: " ++ text else c.error_msg;
}

-- The connection then, whether the loop goes on, and the pong that is sent.
abbrev pub Round : Type 0
Round = WsConnection × Bool × Option Bytes

unfoldable pub take_piece : Meta → Bytes → WsConnection → Round
take_piece m buf c =
    if m.is_close
    then (take_close buf c, false, none)
    else if m.is_ping
    then (c, true, some buf)
    else if m.is_text || m.is_binary
    then (gather m.is_last m.is_binary buf c, true, none)
    else if m.is_cont
    then (gather m.is_last c.partial_binary buf c, true, none)
    else (c, true, none)

-- One round of the loop of js_ws_tick over curl_ws_recv.
unfoldable pub receive : Received → WsConnection → Round
receive again c = (c, false, none)
receive (fails text) c = (take_error text c, false, none)
receive no_frame c = (c, false, none)
receive (piece m buf) c = take_piece m buf c

unfoldable pub with_pong : Option Bytes → List Bytes → List Bytes
with_pong none ps = ps
with_pong (some p) ps = p ∷ ps

-- The loop of js_ws_tick: the connection then, the pongs that were sent, and the answers it did not come to. libcurl
-- answers CURLE_AGAIN when there are none left.
unfoldable pub poll_loop :
    (polls : ℕ) → List Received → WsConnection → WsConnection × List Bytes × List Received
poll_loop zero rs c = (c, [], rs)
poll_loop (suc polls) [] c = (c, [], [])
poll_loop (suc polls) (r ∷ rs) c =
    let (c', goes_on, pong) = receive r c in
    let (c'', pongs, left) = poll_loop polls rs c' in
    if goes_on then (c'', with_pong pong pongs, left) else (c', with_pong pong [], rs)
