-- ===== src/WebSocket/Events.antt =====
-- What the script gets of a connection of src/api/websocket.cpp: its messages, whole and in order, then its error, then its
-- close.
use brokit.Prelude.{
  ℕ, zero, suc, ◌+◌, ◌≤◌, ◌≡◌, refl, sym, ap, ◌∙◌, Bool, true, false, not, List, [], ◌∷◌, ◌++◌,
  Option, none, some, Bytes, All, map, is_empty, length, length-drop, take, drop, take-append-drop,
  All-append, ◌*◌, ==_refl, Bool-cases, inl, inr, if◌then◌else◌, append_assoc, append-nil, arith,
}
use brokit.Prelude.Table.{lookup, lookup-put, lookup-remove}
use brokit.WebSocket.{is_closed, WsMessage, WsConnection, Ws, write_back, delete_conn}
use brokit.WebSocket.Frames.{Received, piece, Meta, receive, take_piece, gather, poll_loop}
use brokit.WebSocket.Natives.{WsEvent, message, failure, close, recv_found, ws_recv}

-- A message as libcurl gives it: the pieces but the last, and the last.
pub record Sending : Type 0 where
  pub binary : Bool
  pub pieces : List Bytes
  pub end_piece : Bytes

abbrev pub joined : List Bytes → Bytes
joined [] = []
joined (s ∷ ss) = s ++ joined ss

abbrev pub data_meta : (binary is_last : Bool) → Meta
data_meta binary is_last = record {
  is_close = false;
  is_ping = false;
  is_text = not binary;
  is_binary = binary;
  is_cont = false;
  is_last = is_last;
}

unfoldable pub answers_of : List Sending → List Received
answers_of [] = []
answers_of (m ∷ ms) =
    map (piece (data_meta m.binary false)) m.pieces
    ++ (piece (data_meta m.binary true) m.end_piece ∷ answers_of ms)

unfoldable pub messages_of : List Sending → List WsMessage
messages_of [] = []
messages_of (m ∷ ms) =
    record { bytes = joined m.pieces ++ m.end_piece; binary = m.binary } ∷ messages_of ms

-- Rounds of the loop of js_ws_tick on one connection, each of ten polls at most.
unfoldable pub rounds : ℕ → List Received → WsConnection → WsConnection × List Received
rounds zero rs c = (c, rs)
rounds (suc n) rs c = let (c', pongs, left) = poll_loop 10 rs c in rounds n left c'

-- All the answers, one after the other, while the loop goes on.
unfoldable receive_all : List Received → WsConnection → WsConnection
receive_all [] c = c
receive_all (r ∷ rs) c = receive_all rs (receive r c).0

-- The loop goes on behind every one of the answers.
abbrev GoesOn : Received → Type 0
GoesOn r = (c : WsConnection) → (receive r c).1 ≡ true

goes_on : (b l : Bool) (buf : Bytes) → GoesOn (piece (data_meta b l) buf)
unfolding receive take_piece
goes_on true l buf c = refl
goes_on false l buf c = refl

gathered :
    (b l : Bool) (buf : Bytes) (c : WsConnection)
    → (receive (piece (data_meta b l) buf) c).0 ≡ gather l b buf c
unfolding receive take_piece
gathered true l buf c = refl
gathered false l buf c = refl

receive_all-append :
    (rs qs : List Received) (c : WsConnection)
    → receive_all (rs ++ qs) c ≡ receive_all qs (receive_all rs c)
unfolding receive_all
receive_all-append [] qs c = refl
receive_all-append (r ∷ rs) qs c = receive_all-append rs qs (receive r c).0

poll_loop_lem :
    (polls : ℕ) (rs : List Received) (c : WsConnection)
    → All GoesOn rs
    → ((poll_loop polls rs c).0 ≡ receive_all (take polls rs) c)
      × ((poll_loop polls rs c).2 ≡ drop polls rs)
unfolding poll_loop receive_all
poll_loop_lem zero rs c h = (refl, refl)
poll_loop_lem (suc polls) [] c h = (refl, refl)
poll_loop_lem (suc polls) (r ∷ rs) c (on, h) = rw (on c) (poll_loop_lem polls rs (receive r c).0 h)

All-drop : (n : ℕ) (rs : List Received) → All GoesOn rs → All GoesOn (drop n rs)
All-drop zero rs h = h
All-drop (suc n) [] h = tt
All-drop (suc n) (r ∷ rs) (_, h) = All-drop n rs h

-- Enough rounds take all the answers.
rounds_lem :
    (n : ℕ) (rs : List Received) (c : WsConnection)
    → All GoesOn rs
    → length rs ≤ 10 * n
    → rounds n rs c ≡ (receive_all rs c, [])
unfolding rounds
rounds_lem zero [] c h few = unfold receive_all in refl
rounds_lem zero (r ∷ rs) c h few = absurd (omega arith)
rounds_lem (suc n) rs c h few =
    let (all_of, left) = poll_loop_lem 10 rs c h in
    rw (all_of, left)
      (rounds_lem n (drop 10 rs) (receive_all (take 10 rs) c) (All-drop 10 rs h)
          (omega (arith, length-drop 10 rs))
        ∙ ap (λ x. (x, []))
            (sym (receive_all-append (take 10 rs) (drop 10 rs) c)
              ∙ ap (λ qs. receive_all qs c) (take-append-drop 10 rs)))

answers_go_on : (ms : List Sending) → All GoesOn (answers_of ms)
unfolding answers_of
answers_go_on [] = tt
answers_go_on (m ∷ ms) =
    All-append GoesOn (map (piece (data_meta m.binary false)) m.pieces)
      (piece (data_meta m.binary true) m.end_piece ∷ answers_of ms) (each m.pieces)
      (goes_on m.binary true m.end_piece, answers_go_on ms)
  where
    each : (ps : List Bytes) → All GoesOn (map (piece (data_meta m.binary false)) ps)
    each [] = tt
    each (p ∷ ps) = (goes_on m.binary false p, each ps)

-- The pieces but the last are gathered.
receive_all-pieces :
    (b : Bool) (ps : List Bytes) (c : WsConnection)
    → ((receive_all (map (piece (data_meta b false)) ps) c).partial_data
        ≡ c.partial_data ++ joined ps)
      × ((receive_all (map (piece (data_meta b false)) ps) c).inbox ≡ c.inbox)
unfolding receive_all gather
receive_all-pieces b [] c = (sym (append-nil c.partial_data), refl)
receive_all-pieces b (p ∷ ps) c =
    let (bytes, box) = receive_all-pieces b ps (gather false b p c) in
    let same : receive_all (map (piece (data_meta b false)) (p ∷ ps)) c
        ≡ receive_all (map (piece (data_meta b false)) ps) (gather false b p c) =
      ap (receive_all (map (piece (data_meta b false)) ps)) (gathered b false p c) in
    rw same (bytes ∙ append_assoc c.partial_data p (joined ps), box)

receive_all-answers :
    (ms : List Sending) (c : WsConnection)
    → c.partial_data ≡ []
    → (receive_all (answers_of ms) c).inbox ≡ c.inbox ++ messages_of ms
unfolding answers_of messages_of receive_all
receive_all-answers [] c nothing = sym (append-nil c.inbox)
receive_all-answers (m ∷ ms) c nothing =
    let before = map (piece (data_meta m.binary false)) m.pieces in
    let mid = receive_all before c in
    let (bytes, box) = receive_all-pieces m.binary m.pieces c in
    let whole : WsMessage = record { bytes = joined m.pieces ++ m.end_piece; binary = m.binary } in
    let all : mid.partial_data ≡ joined m.pieces = bytes ∙ ap (λ b. b ++ joined m.pieces) nothing in
    let last = gather true m.binary m.end_piece mid in
    let ended : last.inbox ≡ c.inbox ++ whole ∷ [] =
      unfold gather in
      (ap (λ b. mid.inbox ++ record { bytes = b ++ m.end_piece; binary = m.binary } ∷ []) all
        ∙ ap (λ i. i ++ whole ∷ []) box) in
    let empty : last.partial_data ≡ [] = unfold gather in refl in
    ap (λ (x : WsConnection). x.inbox)
      (receive_all-append before (piece (data_meta m.binary true) m.end_piece ∷ answers_of ms) c
        ∙ ap (receive_all (answers_of ms)) (gathered m.binary true m.end_piece mid))
    ∙ (receive_all-answers ms last empty
        ∙ (ap (λ i. i ++ messages_of ms) ended
            ∙ append_assoc c.inbox (whole ∷ []) (messages_of ms)))

-- When libcurl gives messages to a connection that has gathered nothing, each in pieces of a text or a binary frame,
-- enough rounds of the tick, of ten polls each, take them all: the inbox has them behind what it had, whole and in
-- order, with their kinds, however they were cut.
pub rounds-messages :
    (n : ℕ) (ms : List Sending) (c : WsConnection)
    → c.partial_data ≡ []
    → length (answers_of ms) ≤ 10 * n
    → ((rounds n (answers_of ms) c).0.inbox ≡ c.inbox ++ messages_of ms)
      × ((rounds n (answers_of ms) c).1 ≡ [])
rounds-messages n ms c nothing few =
    let all = rounds_lem n (answers_of ms) c (answers_go_on ms) few in
    (
      ap (λ (r : WsConnection × List Received). r.0.inbox) all ∙ receive_all-answers ms c nothing,
      ap (λ (r : WsConnection × List Received). r.1) all,
    )

unfoldable pub with_event : Option WsEvent → List WsEvent → List WsEvent
with_event none rest = rest
with_event (some event) rest = event ∷ rest

-- What the script gets by calls of ws_recv.
unfoldable pub recv_times : ℕ → (id : ℕ) → Ws → List WsEvent
recv_times zero id s = []
recv_times (suc n) id s = with_event (ws_recv id s).1 (recv_times n id (ws_recv id s).0)

abbrev pub error_events : WsConnection → List WsEvent
error_events c = if is_empty c.error_msg then [] else failure c.error_msg c.error_name ∷ []

found_recv :
    (id : ℕ) (c : WsConnection) (s : Ws)
    → lookup id s.conns ≡ some c
    → ws_recv id s ≡ recv_found id c.inbox c s
unfolding ws_recv
found_recv id c s found =
    ap
      (λ (o : Option WsConnection). elim o as (λ _. Ws × Option WsEvent) [
        | none ↦ (s, none)
        | some c ↦ recv_found id c.inbox c s
      ])
      found

gone_recv : (n : ℕ) (id : ℕ) (s : Ws) → lookup id s.conns ≡ none → recv_times n id s ≡ []
unfolding recv_times with_event
gone_recv zero id s gone = refl
gone_recv (suc n) id s gone =
    let nothing : ws_recv id s ≡ (s, none) =
      unfold ws_recv in
      (ap
        (λ (o : Option WsConnection). elim o as (λ _. Ws × Option WsEvent) [
          | none ↦ (s, none)
          | some c ↦ recv_found id c.inbox c s
        ])
        gone) in
    rw nothing (gone_recv n id s gone)

-- A call that gives an event, and the calls behind it.
event_recv :
    (n id : ℕ) (s s' : Ws) (event : WsEvent)
    → ws_recv id s ≡ (s', some event)
    → recv_times (suc n) id s ≡ event ∷ recv_times n id s'
unfolding recv_times with_event
event_recv n id s s' event e = rw e refl

lookup-write_back :
    (id : ℕ) (c : WsConnection) (s : Ws) → lookup id (write_back id c [] s).conns ≡ some c
unfolding write_back
lookup-write_back id c s =
    lookup-put id id c s.conns ∙ ap (λ b. if b then some c else lookup id s.conns) (==_refl id)

lookup-delete_conn :
    (id : ℕ) (c : WsConnection) (s : Ws) → lookup id (delete_conn id c s).conns ≡ none
unfolding delete_conn
lookup-delete_conn id c s =
    lookup-remove id id s.conns ∙ ap (λ b. if b then none else lookup id s.conns) (==_refl id)

module _ (id : ℕ) where
  recv_close :
      (n : ℕ) (c : WsConnection) (s : Ws)
      → lookup id s.conns ≡ some c
      → is_closed c.state ≡ true
      → c.inbox ≡ []
      → is_empty c.error_msg ≡ true
      → recv_times (suc n) id s ≡ close c.close_code c.close_reason ∷ []
  recv_close n c s found shut no_messages no_error =
      let call : ws_recv id s ≡ (delete_conn id c s, some (close c.close_code c.close_reason)) =
        found_recv id c s found
        ∙ (ap (λ (box : List WsMessage). recv_found id box c s) no_messages
            ∙ unfold recv_found in (rw (no_error, shut) refl)) in
      event_recv n id s (delete_conn id c s) (close c.close_code c.close_reason) call
      ∙ ap (λ es. close c.close_code c.close_reason ∷ es)
          (gone_recv n id (delete_conn id c s) (lookup-delete_conn id c s))

  recv_end :
      (n : ℕ) (c : WsConnection) (s : Ws)
      → lookup id s.conns ≡ some c
      → is_closed c.state ≡ true
      → c.inbox ≡ []
      → recv_times (suc (suc n)) id s ≡ error_events c ++ close c.close_code c.close_reason ∷ []
  recv_end n c s found shut no_messages = elim (Bool-cases (is_empty c.error_msg)) [
    | inl no_error ↦ rw no_error (recv_close (suc n) c s found shut no_messages no_error)
    | inr failed ↦
        let c' = record c { error_msg = []; error_name = [] } in
        let s' = write_back id c' [] s in
        let call : ws_recv id s ≡ (s', some (failure c.error_msg c.error_name)) =
          found_recv id c s found
          ∙ (ap (λ (box : List WsMessage). recv_found id box c s) no_messages
              ∙ unfold recv_found in (rw failed refl)) in
        rw failed (
          event_recv (suc n) id s s' (failure c.error_msg c.error_name) call
          ∙ ap (λ es. failure c.error_msg c.error_name ∷ es)
              (recv_close n c' s' (lookup-write_back id c' s) shut no_messages refl))
  ]

  -- By enough calls of ws_recv the script gets of a closed connection: its messages, in order; then its error, if it
  -- has one; then one close event with its code and its reason; and then nothing more.
  pub recv_times-closed :
      (n : ℕ) (box : List WsMessage) (c : WsConnection) (s : Ws)
      → lookup id s.conns ≡ some c
      → c.inbox ≡ box
      → is_closed c.state ≡ true
      → length box + 2 ≤ n
      → recv_times n id s
        ≡ map message box ++ (error_events c ++ close c.close_code c.close_reason ∷ [])
  recv_times-closed zero box c s found same shut enough = absurd (omega arith)
  recv_times-closed (suc zero) box c s found same shut enough = absurd (omega arith)
  recv_times-closed (suc (suc n)) [] c s found same shut enough = recv_end n c s found shut same
  recv_times-closed (suc (suc n)) (m ∷ box) c s found same shut enough =
      let c' = record c { inbox = box } in
      let s' = write_back id c' [] s in
      let call : ws_recv id s ≡ (s', some (message m)) =
        found_recv id c s found
        ∙ (ap (λ (b : List WsMessage). recv_found id b c s) same ∙ unfold recv_found in refl) in
      event_recv (suc n) id s s' (message m) call
      ∙ ap (λ es. message m ∷ es)
          (recv_times-closed (suc n) box c' s' (lookup-write_back id c' s) refl shut (omega arith))
