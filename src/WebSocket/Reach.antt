-- ===== src/WebSocket/Reach.antt =====
-- Histories of src/api/websocket.cpp.
use brokit.Prelude.{
  ℕ, suc, ◌≡◌, refl, Bool, true, false, not, List, [], ◌∷◌, Option, none, some, Bytes, ℤ, is_empty,
  ==_refl, if◌then◌else◌, if_elim, arith,
}
use brokit.Prelude.Table.{lookup}
use brokit.WebSocket.{
  WsState, connecting, open_now, closing, closed, is_connecting, WsConnection, Ws, no_ws, listed,
}
use brokit.WebSocket.Frames.{Received}
use brokit.WebSocket.Natives.{
  ws_connect, redirect, done_message, done_all, revoke_connection, Sent, ws_send, ws_close, ws_recv,
  poll_one, reap_one, keys, for_all, tick_messages, tick_frames, tick_reap, any_pending,
  ws_has_pending, uninstall_ws,
}
use brokit.WebSocket.Kept.{tally, destroys_of, settles_of, one, Good, Sound}
use brokit.WebSocket.Sound.{Sound-redirect, Sound-done_message}
use brokit.WebSocket.Steps.{Sound-ws_connect, Sound-revoke_connection, Sound-ws_send}
use brokit.WebSocket.Rounds.{Sound-ws_close, Sound-ws_recv, Sound-poll_one, Sound-reap_one}
use brokit.WebSocket.Teardown.{Sound-uninstall_ws}

-- A call of a native, a redirect, a grant that is taken back, a part of a tick (the script may run between them), the
-- teardown.
pub data Step : Ws → Ws → Type 0 where
  connects :
      (url refusal : Bytes) (initialised : Bool) (held : ℕ) (s : Ws)
      → Step s (ws_connect url refusal initialised held s).0
  redirects :
      (id : ℕ) (same : Bool) (url refusal : Bytes) (s : Ws)
      → Step s (redirect id same url refusal s)
  revokes :
      (id : ℕ) (refusal text name : Bytes) (s : Ws)
      → Step s (revoke_connection id refusal text name s)
  sends_data :
      (id : ℕ) (binary : Bool) (payload : Bytes) (answers : List Sent) (s : Ws)
      → Step s (ws_send id binary payload answers s).0
  closes : (id : ℕ) (code : ℤ) (reason : Bytes) (s : Ws) → Step s (ws_close id code reason s).0
  receives : (id : ℕ) (s : Ws) → Step s (ws_recv id s).0
  messages : (ms : List (ℕ × Option Bytes)) (s : Ws) → Step s (tick_messages ms s)
  frames : (answers : ℕ → List Received) (s : Ws) → Step s (tick_frames answers s)
  reaps : (s : Ws) → Step s (tick_reap s)
  uninstalls : (s : Ws) → Step s (uninstall_ws s)

pub data Reach : Ws → Type 0 where
  start : Reach no_ws
  step : (s s' : Ws) → Reach s → Step s s' → Reach s'

Sound-for_all :
    (act : ℕ → Ws → Ws) (ids : List ℕ) (s : Ws)
    → ((id : ℕ) (u : Ws) → Sound u → Sound (act id u))
    → Sound s
    → Sound (for_all act ids s)
unfolding for_all
Sound-for_all act [] s keep h = h
Sound-for_all act (id ∷ ids) s keep h = Sound-for_all act ids (act id s) keep (keep id s h)

Sound-done_all : (ms : List (ℕ × Option Bytes)) (s : Ws) → Sound s → Sound (done_all ms s)
unfolding done_all
Sound-done_all [] s h = h
Sound-done_all ((id, result) ∷ ms) s h =
    Sound-done_all ms (done_message id result s) (Sound-done_message id result s h)

Sound-Step : (s s' : Ws) → Step s s' → Sound s → Sound s'
unfolding tick_messages tick_frames tick_reap
Sound-Step _ _ (connects url refusal initialised held s) =
    Sound-ws_connect url refusal initialised held s
Sound-Step _ _ (redirects id same url refusal s) = Sound-redirect id same url refusal s
Sound-Step _ _ (revokes id refusal text name s) = Sound-revoke_connection id refusal text name s
Sound-Step _ _ (sends_data id binary payload answers s) = Sound-ws_send id binary payload answers s
Sound-Step _ _ (closes id code reason s) = Sound-ws_close id code reason s
Sound-Step _ _ (receives id s) = Sound-ws_recv id s
Sound-Step _ _ (messages ms s) =
    λ h. if_elim Sound _ (done_all ms s) s (λ _. Sound-done_all ms s h) (λ _. h)
Sound-Step _ _ (frames answers s) =
    Sound-for_all (λ id. poll_one id (answers id)) (keys s.conns) s
      (λ id. Sound-poll_one id (answers id))
Sound-Step _ _ (reaps s) = Sound-for_all reap_one (keys s.conns) s Sound-reap_one
Sound-Step _ _ (uninstalls s) = Sound-uninstall_ws s

-- Through every history of calls, redirects, revocations, ticks and teardowns: no pointer to a destroyed connection is
-- followed; g_ws_connecting has exactly the connections in the table that connect, each once; one waits for
-- its promise exactly while it connects, and has its handle of libcurl until it is closed; no promise is settled
-- twice; and an id that was handed out is of a connection in the table or of one that was destroyed, once.
pub Reach-Sound : (s : Ws) → Reach s → Sound s
unfolding tally lookup listed
Reach-Sound _ start = (omega arith, refl, λ i. (refl, ground arith, omega arith))
Reach-Sound _ (step s s' before last) = Sound-Step s s' last (Reach-Sound s before)

-- What the table and the ids that connect have to do with one another.
abbrev Fits : List (ℕ × WsConnection) → List ℕ → Type 0
Fits conns js =
    (i : ℕ)
    → listed i js ≡ (elim (lookup i conns) [ none ↦ 0 | some c ↦ one (is_connecting c.state) ])

Fits-Sound : (s : Ws) → Sound s → Fits s.conns s.pending
Fits-Sound s (_, _, all) i = by_entry (lookup i s.conns) (all i)
  where
    by_entry :
        (o : Option WsConnection)
        → Good i s.next_id s.multi
            (listed i s.pending)
            (tally (destroys_of i) s.log)
            (tally (settles_of i) s.log)
            o
        → listed i s.pending ≡ (elim o [ none ↦ 0 | some c ↦ one (is_connecting c.state) ])
    by_entry none (count, _, _) = count
    by_entry (some c) (count, _, _, _, _, _, _) = count

nothing_connects :
    (id : ℕ) (c : WsConnection) (conns : List (ℕ × WsConnection))
    → Fits ((id, c) ∷ conns) []
    → is_connecting c.state ≡ false
unfolding lookup listed
nothing_connects id c conns fits =
    let here : 0 ≡ one (is_connecting c.state) = rw (==_refl id) at (fits id) in
    ground (arith, here)

pending_there :
    (conns : List (ℕ × WsConnection)) (js : List ℕ)
    → Fits conns js
    → (if not (is_empty js) then true else any_pending conns) ≡ not (is_empty conns)
unfolding any_pending
pending_there [] [] fits = refl
pending_there [] (j ∷ js) fits =
    let one_there : listed j (j ∷ js) ≡ suc (listed j js) =
      unfold listed in (rw (==_refl j) refl) in
    let none_there : listed j (j ∷ js) ≡ 0 = unfold lookup in (fits j) in
    absurd (omega (arith, one_there, none_there))
pending_there ((id, c) ∷ conns) (j ∷ js) fits = refl
pending_there ((id, c) ∷ conns) [] fits = by_state c.state (nothing_connects id c conns fits)
  where
    by_state :
        (st : WsState)
        → is_connecting st ≡ false
        → (elim st [
          | connecting ↦ if not (is_empty c.inbox) then true else any_pending conns
          | open_now ↦ true
          | closing ↦ true
          | closed ↦ true
        ])
          ≡ true
    by_state connecting e = absurd (let clash : true ≡ false = unfold is_connecting in e in cc)
    by_state open_now e = refl
    by_state closing e = refl
    by_state closed e = refl

-- In every state that is reached, js_ws_has_pending answers true exactly if there is a connection in the table.
pub ws_has_pending-Reach : (s : Ws) → Reach s → ws_has_pending s ≡ not (is_empty s.conns)
unfolding ws_has_pending
ws_has_pending-Reach s reach = pending_there s.conns s.pending (Fits-Sound s (Reach-Sound s reach))
