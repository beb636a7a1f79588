-- ===== src/WebSocket/Natives.antt =====
-- The natives of src/api/websocket.cpp, and the parts of its tick.
use brokit.Prelude.{
  ℕ, zero, suc, ◌+◌, ◌-◌, ◌/◌, ◌%◌, Bool, true, false, not, ◌&&◌, ◌||◌, List, [], ◌∷◌, ◌++◌, Option,
  none, some, Bytes, codes, is_empty, map, leb, ltb, length, ◌==◌, if◌then◌else◌, ℤ, pos, negsuc,
}
use brokit.Prelude.Table.{lookup, put}
use brokit.WebSocket.{
  WsState, connecting, open_now, closing, closed, is_connecting, is_open, is_closed, WsMessage,
  WsConnection, WsEffect, resolves, rejects, sends, destroys, dangles, Ws, new_connection,
  erase_first, listed, write_back, delete_conn,
}
use brokit.WebSocket.Frames.{Received, poll_loop}

-- What ws_connect gives: a TypeError, the gate's refusal, an error, or the id and the promise.
pub data Connected : Type 0 where
  type_error denied error : Bytes → Connected
  id_and_promise : ℕ → Connected

-- js_ws_connect, with the refusal of the gate, whether libcurl makes a handle, and what the gate holds it under, 0
-- for nothing. An id is taken also where there is no handle.
unfoldable pub ws_connect :
    (url refusal : Bytes) (initialised : Bool) (held : ℕ) → Ws → Ws × Connected
ws_connect url refusal initialised held s =
    let id = s.next_id in
    if is_empty url
    then (s, type_error (codes "ws_connect: URL required"))
    else if not (is_empty refusal)
    then (s, denied refusal)
    else if not initialised
    then (
      record s { next_id = suc id; log = destroys id 0 ∷ s.log },
      error (codes "ws_connect: curl_easy_init failed"),
    )
    else (
      record s {
        multi = true;
        conns = put id (new_connection url held) s.conns;
        pending = s.pending ++ id ∷ [];
        next_id = suc id;
      },
      id_and_promise id,
    )

-- wsPrereqCallback on its connection, with the refusal of the gate; true is CURL_PREREQFUNC_OK.
unfoldable pub check_redirect :
    (same : Bool) (url refusal : Bytes) → WsConnection → WsConnection × Bool
check_redirect same url refusal c =
    if same
    then (c, true)
    else if not (is_empty refusal)
    then (record c { refusal = refusal }, false)
    else (record c { checked_url = url }, true)

-- A redirect while g_ws_multi is pumped.
unfoldable pub redirect : (id : ℕ) (same : Bool) (url refusal : Bytes) → Ws → Ws
redirect id same url refusal s = elim (lookup id s.conns) [
  | none ↦ s
  | some c ↦ write_back id (check_redirect same url refusal c).0 [] s
]

-- A connection whose upgrade is done, with the error of libcurl or none.
unfoldable pub done_conn : (id : ℕ) → Option Bytes → WsConnection → WsConnection × List WsEffect
done_conn id none c = (
  record c { state = open_now; connected = true; waits = false },
  if c.waits then resolves id ∷ [] else [],
)
done_conn id (some text) c =
    let refused = not (is_empty c.refusal) in
    let msg = if refused then c.refusal else text in
    (
      record c { state = closed; error_msg = msg; waits = false },
      if c.waits then rejects id msg refused ∷ [] else [],
    )

unfoldable pub done_listed : (id : ℕ) → Option Bytes → Option WsConnection → Ws → Ws
done_listed id result none s = record s { log = dangles id ∷ s.log }
done_listed id result (some c) s =
    let (c', es) = done_conn id result c in
    write_back id c' es (record s { pending = erase_first id s.pending })

-- One message of curl_multi_info_read.
unfoldable pub done_message : (id : ℕ) → Option Bytes → Ws → Ws
done_message id result s =
    if listed id s.pending == 0 then s else done_listed id result (lookup id s.conns) s

unfoldable pub revoked_conn :
    (id : ℕ) (refusal text name : Bytes) → WsConnection → WsConnection × List WsEffect
revoked_conn id refusal text name c =
    let cut = record c {
      easy = false;
      state = closed;
      close_code = pos 1008;
      close_reason = text;
    } in
    if c.waits
    then (record cut { waits = false }, rejects id refusal true ∷ [])
    else (record cut { error_msg = text; error_name = name }, [])

-- revokeConnection; `text` and `name` are what the engine makes of the refusal.
unfoldable pub revoke_connection : (id : ℕ) (refusal text name : Bytes) → Ws → Ws
revoke_connection id refusal text name s = elim (lookup id s.conns) [
  | none ↦ s
  | some c ↦
      let (c', es) = revoked_conn id refusal text name c in
      if is_closed c.state
      then s
      else write_back id c' es (record s { pending = erase_first id s.pending })
]

-- What curl_ws_send answers, with how many bytes it sent: none for CURLE_OK, else whether it is CURLE_AGAIN.
pub record Sent : Type 0 where
  pub count : ℕ
  pub failure : Option Bool

-- ws_send_all: whether it returns CURLE_OK, and how many bytes are sent. libcurl answers as in the list, then
-- CURLE_AGAIN.
unfoldable pub send_all : (retries : ℕ) (rc : Bool) (offset size : ℕ) → List Sent → Bool × ℕ
send_all zero rc offset size answers = (rc, offset)
send_all (suc retries) rc offset size [] = (false, offset)
send_all (suc retries) rc offset size (a ∷ answers) =
    let next = offset + a.count in
    let after_ok = send_all retries true next size answers in
    let after_again = send_all retries false next size answers in
    elim a.failure [
      | none ↦ if leb size next then (true, next) else after_ok
      | some is_again ↦ if is_again then after_again else (false, next)
    ]

-- js_ws_send of a payload.
unfoldable pub ws_send : (id : ℕ) (binary : Bool) (payload : Bytes) → List Sent → Ws → Ws × Bool
ws_send id binary payload answers s = elim (lookup id s.conns) [
  | none ↦ (s, false)
  | some c ↦ if not (is_open c.state) then (s, false) else (
    record s { log = sends id (if binary then codes "BINARY" else codes "TEXT") payload ∷ s.log },
    (send_all 50 true 0 (length payload) answers).0,
  )
]

-- (code >> 8) & 0xFF and code & 0xFF of an int.
unfoldable pub high_byte : ℤ → ℕ
high_byte (pos n) = n / 256 % 256
high_byte (negsuc n) = 255 - n / 256 % 256

unfoldable pub low_byte : ℤ → ℕ
low_byte (pos n) = n % 256
low_byte (negsuc n) = 255 - n % 256

-- The payload of a close frame.
unfoldable pub close_payload : ℤ → Bytes → Bytes
close_payload code reason = high_byte code ∷ low_byte code ∷ reason

unfoldable pub close_found :
    WsState → (id : ℕ) (code : ℤ) (reason : Bytes) → WsConnection → Ws → Ws × Bool
close_found connecting id code reason c s = (
  delete_conn id c
      (record s { pending = if c.easy && s.multi then erase_first id s.pending else s.pending }),
  true,
)
close_found open_now id code reason c s = (
  write_back id (record c { state = closing; close_code = code; close_reason = reason })
      (sends id (codes "CLOSE") (close_payload code reason) ∷ []) s,
  true,
)
close_found closing id code reason c s = (s, false)
close_found closed id code reason c s = (s, false)

-- js_ws_close
unfoldable pub ws_close : (id : ℕ) (code : ℤ) (reason : Bytes) → Ws → Ws × Bool
ws_close id code reason s = elim (lookup id s.conns) [
  | none ↦ (s, false)
  | some c ↦ close_found c.state id code reason c s
]

-- What ws_recv gives the script; null is none.
pub data WsEvent : Type 0 where
  message : WsMessage → WsEvent
  failure : (text name : Bytes) → WsEvent
  close : (code : ℤ) (reason : Bytes) → WsEvent

unfoldable pub recv_found : (id : ℕ) → List WsMessage → WsConnection → Ws → Ws × Option WsEvent
recv_found id (m ∷ inbox) c s = (write_back id (record c { inbox = inbox }) [] s, some (message m))
recv_found id [] c s =
    if not (is_empty c.error_msg)
    then (
      write_back id (record c { error_msg = []; error_name = [] }) [] s,
      some (failure c.error_msg c.error_name),
    )
    else if is_closed c.state
    then (delete_conn id c s, some (close c.close_code c.close_reason))
    else (s, none)

-- js_ws_recv
unfoldable pub ws_recv : (id : ℕ) → Ws → Ws × Option WsEvent
ws_recv id s = elim (lookup id s.conns) [ none ↦ (s, none) | some c ↦ recv_found id c.inbox c s ]

-- js_ws_state; none is -1.
unfoldable pub ws_state : (id : ℕ) → Ws → Option WsState
ws_state id s = elim (lookup id s.conns) [ none ↦ none | some c ↦ some c.state ]

unfoldable pub poll_found : (id : ℕ) → List Received → WsConnection → Ws → Ws
poll_found id rs c s =
    let (c', pongs, left) = poll_loop 10 rs c in
    if is_connecting c.state || is_closed c.state || not c.easy
    then s
    else write_back id c' (map (sends id (codes "PONG")) pongs) s

-- The loop of js_ws_tick over the connections, one of them: `rs` is what its curl_ws_recv answers.
unfoldable pub poll_one : (id : ℕ) → List Received → Ws → Ws
poll_one id rs s = elim (lookup id s.conns) [ none ↦ s | some c ↦ poll_found id rs c s ]

unfoldable pub reap_found : (id : ℕ) → WsConnection → Ws → Ws
reap_found id c s =
    let sweeps = suc c.closed_sweeps in
    if is_closed c.state && is_empty c.inbox
    then (if ltb 1 sweeps
        then delete_conn id c s
        else write_back id (record c { closed_sweeps = sweeps }) [] s)
    else s

-- The last loop of js_ws_tick, one connection.
unfoldable pub reap_one : (id : ℕ) → Ws → Ws
reap_one id s = elim (lookup id s.conns) [ none ↦ s | some c ↦ reap_found id c s ]

unfoldable pub keys : List (ℕ × WsConnection) → List ℕ
keys [] = []
keys ((id, c) ∷ conns) = id ∷ keys conns

unfoldable pub for_all : (ℕ → Ws → Ws) → List ℕ → Ws → Ws
for_all act [] s = s
for_all act (id ∷ ids) s = for_all act ids (act id s)

unfoldable pub done_all : List (ℕ × Option Bytes) → Ws → Ws
done_all [] s = s
done_all ((id, result) ∷ ms) s = done_all ms (done_message id result s)

-- The parts of js_ws_tick, between which it lets the script run (__brokit_ws_drain_all): the messages of libcurl, the
-- frames of every connection, and the reaping of those that nobody reads.
unfoldable pub tick_messages : List (ℕ × Option Bytes) → Ws → Ws
tick_messages ms s = if s.multi && not (is_empty s.pending) then done_all ms s else s

unfoldable pub tick_frames : (ℕ → List Received) → Ws → Ws
tick_frames answers s = for_all (λ id. poll_one id (answers id)) (keys s.conns) s

unfoldable pub tick_reap : Ws → Ws
tick_reap s = for_all reap_one (keys s.conns) s

unfoldable pub any_pending : List (ℕ × WsConnection) → Bool
any_pending [] = false
any_pending ((id, c) ∷ conns) =
    let rest = any_pending conns in
    elim c.state [
      | connecting ↦ if not (is_empty c.inbox) then true else rest
      | open_now ↦ true
      | closing ↦ true
      | closed ↦ true
    ]

-- js_ws_has_pending
unfoldable pub ws_has_pending : Ws → Bool
ws_has_pending s = if not (is_empty s.pending) then true else any_pending s.conns

unfoldable pub destroy_one : (id : ℕ) → Ws → Ws
destroy_one id s = elim (lookup id s.conns) [ none ↦ s | some c ↦ delete_conn id c s ]

-- uninstallWebSocket
unfoldable pub uninstall_ws : Ws → Ws
uninstall_ws s = record (for_all destroy_one (keys s.conns) s) {
  conns = [];
  pending = [];
  multi = false;
}
