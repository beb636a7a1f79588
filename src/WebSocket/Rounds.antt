-- ===== src/WebSocket/Rounds.antt =====
-- Closing, receiving and the rounds of src/api/websocket.cpp keep what holds of the connections.
use brokit.Prelude.{
  ℕ, zero, suc, ◌≡◌, refl, sym, ap, ◌∙◌, Bool, true, false, not, ◌&&◌, ◌||◌, List, [], ◌∷◌, Option,
  some, Bytes, map, is_empty, length, ltb, if_elim, option_elim, arith, ℤ, codes,
}
use brokit.Prelude.Table.{lookup}
use brokit.WebSocket.{
  WsState, connecting, open_now, closing, closed, is_connecting, is_closed, WsMessage, WsConnection,
  sends, Ws, erase_first, listed, delete_conn,
}
use brokit.WebSocket.Frames.{
  Received, again, fails, no_frame, piece, Round, receive, take_piece, take_error, take_close,
  gather, poll_loop,
}
use brokit.WebSocket.Natives.{
  close_found, close_payload, ws_close, WsEvent, recv_found, ws_recv, poll_found, poll_one,
  reap_found, reap_one,
}
use brokit.WebSocket.Kept.{
  tally, is_dangle, one, Sound, listed-erase_first, SameElse-erase_first, Sound-delete_conn,
}
use brokit.WebSocket.Sound.{
  known, Sound-quiet, no_effects, no_dangles, one_send, pongs_sent, pongs_no_dangle,
}

-- An id is handed out: the others are as they were.

Sound-close_found :
    (st : WsState) (id : ℕ) (code : ℤ) (reason : Bytes) (c : WsConnection) (s : Ws)
    → c.state ≡ st
    → lookup id s.conns ≡ some c
    → Sound s
    → Sound (close_found st id code reason c s).0
unfolding close_found is_connecting is_closed
Sound-close_found connecting id code reason c s e found h =
    let (count, promise, easy, there, gone, was, once) = known id c s found h in
    let handle : c.easy ≡ true = easy (ap is_closed e) in
    let left = listed-erase_first id id s.pending in
    let busy = ap is_connecting e in
    let off : listed id (erase_first id s.pending) ≡ 0 = ground (arith, left, count, ap one busy) in
    let both : (c.easy && s.multi) ≡ true = ground arith in
    if_elim (λ js. Sound (delete_conn id c (record s { pending = js }))) (c.easy && s.multi) _ _
      (λ _.
        Sound-delete_conn id c (erase_first id s.pending) s found
          (SameElse-erase_first id s.pending) off h)
      (λ no_handle. absurd (let clash : true ≡ false = sym both ∙ no_handle in cc))
Sound-close_found open_now id code reason c s e found h =
    let idle : is_connecting c.state ≡ false = ap is_connecting e in
    let (count, promise, easy, there, gone, was, once) = known id c s found h in
    let handle : c.easy ≡ true = easy (ap is_closed e) in
    Sound-quiet id c s found h
      (record c { state = closing; close_code = code; close_reason = reason })
      (sends id (codes "CLOSE") (close_payload code reason) ∷ []) refl (sym idle) (λ _. handle)
      (one_send id (codes "CLOSE") (close_payload code reason)) (unfold tally is_dangle in refl)
Sound-close_found closing id code reason c s e found h = h
Sound-close_found closed id code reason c s e found h = h

pub Sound-ws_close :
    (id : ℕ) (code : ℤ) (reason : Bytes) (s : Ws) → Sound s → Sound (ws_close id code reason s).0
unfolding ws_close
Sound-ws_close id code reason s h =
    option_elim (λ (r : Ws × Bool). Sound r.0) (lookup id s.conns) _ _ h
      λ c found. Sound-close_found c.state id code reason c s refl found h

-- A closed connection may be deleted.
Sound-gone :
    (id : ℕ) (c : WsConnection) (s : Ws)
    → lookup id s.conns ≡ some c
    → is_closed c.state ≡ true
    → Sound s
    → Sound (delete_conn id c s)
Sound-gone id c s found shut h =
    let (count, _, _, _, _, _, _) = known id c s found h in
    let idle : is_connecting c.state ≡ false = not_connecting c.state shut in
    Sound-delete_conn id c s.pending s found (λ i _. refl) (count ∙ ap one idle) h
  where
    not_connecting : (st : WsState) → is_closed st ≡ true → is_connecting st ≡ false
    not_connecting connecting e = absurd (let no_way : false ≡ true = unfold is_closed in e in cc)
    not_connecting open_now e = unfold is_connecting in refl
    not_connecting closing e = unfold is_connecting in refl
    not_connecting closed e = unfold is_connecting in refl

Sound-recv_found :
    (id : ℕ) (inbox : List WsMessage) (c : WsConnection) (s : Ws)
    → lookup id s.conns ≡ some c
    → Sound s
    → Sound (recv_found id inbox c s).0
unfolding recv_found
Sound-recv_found id (m ∷ inbox) c s found h =
    let (_, _, easy, _, _, _, _) = known id c s found h in
    Sound-quiet id c s found h (record c { inbox = inbox }) [] refl refl easy no_effects no_dangles
Sound-recv_found id [] c s found h =
    let (_, _, easy, _, _, _, _) = known id c s found h in
    let Kept : Ws × Option WsEvent → Type 0 = λ r. Sound r.0 in
    if_elim Kept (not (is_empty c.error_msg)) _ _
      (λ _.
        Sound-quiet id c s found h (record c { error_msg = []; error_name = [] }) [] refl refl easy
          no_effects no_dangles)
      (λ _. if_elim Kept (is_closed c.state) _ _ (λ shut. Sound-gone id c s found shut h) (λ _. h))

pub Sound-ws_recv : (id : ℕ) (s : Ws) → Sound s → Sound (ws_recv id s).0
unfolding ws_recv
Sound-ws_recv id s h =
    option_elim (λ (r : Ws × Option WsEvent). Sound r.0) (lookup id s.conns) _ _ h
      λ c found. Sound-recv_found id c.inbox c s found h

-- What an answer of libcurl does not change.
abbrev Same : WsConnection → WsConnection → Type 0
Same c c' = (c'.waits ≡ c.waits) × (c'.easy ≡ c.easy) × (is_connecting c'.state ≡ false)

Same-take_close :
    (buf : Bytes) (c : WsConnection) → is_connecting c.state ≡ false → Same c (take_close buf c)
unfolding take_close is_connecting
Same-take_close buf c idle =
    if_elim (Same c) (ltb (length buf) 2) _ _ (λ _. (refl, refl, refl)) (λ _. (refl, refl, refl))

Same-gather :
    (l b : Bool) (buf : Bytes) (c : WsConnection)
    → is_connecting c.state ≡ false
    → Same c (gather l b buf c)
unfolding gather
Same-gather l b buf c idle =
    if_elim (Same c) l _ _ (λ _. (refl, refl, idle)) (λ _. (refl, refl, idle))

Same-receive :
    (r : Received) (c : WsConnection) → is_connecting c.state ≡ false → Same c (receive r c).0
unfolding receive take_piece
Same-receive again c idle = (refl, refl, idle)
Same-receive (fails text) c idle =
    unfold take_error is_connecting in
    (if_elim (Same c) (is_closed c.state) _ _ (λ _. (refl, refl, idle)) (λ _. (refl, refl, refl)))
Same-receive no_frame c idle = (refl, refl, idle)
Same-receive (piece m buf) c idle =
    let Kept : Round → Type 0 = λ r. Same c r.0 in
    if_elim Kept m.is_close _ _ (λ _. Same-take_close buf c idle)
      (λ _.
        if_elim Kept m.is_ping _ _ (λ _. (refl, refl, idle))
          (λ _.
            if_elim Kept (m.is_text || m.is_binary) _ _
              (λ _. Same-gather m.is_last m.is_binary buf c idle)
              (λ _.
                if_elim Kept m.is_cont _ _ (λ _. Same-gather m.is_last c.partial_binary buf c idle)
                  (λ _. (refl, refl, idle)))))

Same-poll_loop :
    (polls : ℕ) (rs : List Received) (c : WsConnection)
    → is_connecting c.state ≡ false
    → Same c (poll_loop polls rs c).0
unfolding poll_loop
Same-poll_loop zero rs c idle = (refl, refl, idle)
Same-poll_loop (suc polls) [] c idle = (refl, refl, idle)
Same-poll_loop (suc polls) (r ∷ rs) c idle =
    let (w, e, still) = Same-receive r c idle in
    let (w', e', still') = Same-poll_loop polls rs (receive r c).0 still in
    if_elim (λ (x : WsConnection × List Bytes × List Received). Same c x.0) (receive r c).1 _ _
      (λ _. (w' ∙ w, e' ∙ e, still')) (λ _. (w, e, still))

or_false : (a b : Bool) → (a || b) ≡ false → (a ≡ false) × (b ≡ false)
or_false a b h = (ground arith, ground arith)

pub Sound-poll_one : (id : ℕ) (rs : List Received) (s : Ws) → Sound s → Sound (poll_one id rs s)
unfolding poll_one poll_found
Sound-poll_one id rs s h = option_elim Sound (lookup id s.conns) _ _ h λ c found.
    if_elim Sound (is_connecting c.state || is_closed c.state || not c.easy) _ _ (λ _. h)
      (λ busy.
        let (quiet, off) =
          or_false (is_connecting c.state || is_closed c.state) (not c.easy) busy in
        let (idle, shut) = or_false (is_connecting c.state) (is_closed c.state) quiet in
        let (_, _, easy, _, _, _, _) = known id c s found h in
        let (w, e, still) = Same-poll_loop 10 rs c idle in
        let pongs = (poll_loop 10 rs c).1 in
        Sound-quiet id c s found h (poll_loop 10 rs c).0 (map (sends id (codes "PONG")) pongs) w
          (still ∙ sym idle) (λ _. e ∙ easy shut) (pongs_sent id (codes "PONG") pongs)
          (pongs_no_dangle id (codes "PONG") pongs))

pub Sound-reap_one : (id : ℕ) (s : Ws) → Sound s → Sound (reap_one id s)
unfolding reap_one reap_found
Sound-reap_one id s h = option_elim Sound (lookup id s.conns) _ _ h λ c found.
    let (_, _, easy, _, _, _, _) = known id c s found h in
    if_elim Sound (is_closed c.state && is_empty c.inbox) _ _
      (λ both.
        if_elim Sound (ltb 1 (suc c.closed_sweeps)) _ _
          (λ _. Sound-gone id c s found (and_true (is_closed c.state) (is_empty c.inbox) both) h)
          (λ _.
            Sound-quiet id c s found h (record c { closed_sweeps = suc c.closed_sweeps }) [] refl
              refl easy no_effects no_dangles))
      (λ _. h)
  where
    and_true : (a b : Bool) → (a && b) ≡ true → a ≡ true
    and_true a b e = ground arith
