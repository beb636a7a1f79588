-- ===== src/Net/Turns.antt =====
-- The turns of js_net_tick (src/api/net.cpp), and the natives that open and bind sockets, keep
-- every socket sound.
use brokit.Prelude.{
  ℕ, zero, suc, ◌≡◌, refl, ◌∙◌, true, false, not, ◌&&◌, List, [], ◌∷◌, none, some, Bytes, All,
  arith, if_elim, ◌==◌,
}
use brokit.Net.{
  Os, accepted, connected, received, ended, message, Kind, tcp_listener, tcp_conn, udp, NetHandle,
  Effect, new_handle, push, hold_net, err_would_block, err_in_progress,
}
use brokit.Net.Open.{
  Endpoint, cache_local, cache_remote, Answers, after_connect, hold_open, bind_handle,
}
use brokit.Net.Tick.{
  TurnIo, Turn, Accepted, accepted_handle, accept_loop, got, eof, recv_failed, Recv, read_loop,
  connecting_turn, conn_turn, Datagram, datagram, recvfrom_failed, udp_loop, turn_by_kind,
}
use brokit.Net.Sound.{
  IsSound, Kept, new_handle-IsSound, push-IsSound, fail_handle-IsSound, flush_out_buf-IsSound,
  close_if_done-IsSound, cache_local-IsSound, cache_remote-IsSound, hold_net-IsSound,
}

closed-cache_local : (e : Endpoint) (h : NetHandle) → (cache_local e h).closed ≡ h.closed
unfolding cache_local
closed-cache_local none h = refl
closed-cache_local (some (address, port)) h = refl

closed-cache_remote : (e : Endpoint) (h : NetHandle) → (cache_remote e h).closed ≡ h.closed
unfolding cache_remote
closed-cache_remote none h = refl
closed-cache_remote (some (address, port)) h = refl

-- A fresh handle with its endpoints is open and sound.
endpoints_cached :
    (first second : Endpoint) (h : NetHandle)
    → h.closed ≡ false
    → IsSound h
    → ((cache_remote second (cache_local first h)).closed ≡ false)
      × IsSound (cache_remote second (cache_local first h))
endpoints_cached first second h opened v = (
  closed-cache_remote second (cache_local first h) ∙ closed-cache_local first h ∙ opened,
  cache_remote-IsSound second _ (cache_local-IsSound first h v),
)

pub listener-IsSound :
    (e : Endpoint) (id fd : ℕ) (url : Bytes) (ledger_id : ℕ)
    → Kept (hold_net (cache_local e (new_handle tcp_listener id fd)) url ledger_id)
listener-IsSound e id fd url ledger_id =
    hold_net-IsSound _ url ledger_id (closed-cache_local e (new_handle tcp_listener id fd))
      (cache_local-IsSound e _ (new_handle-IsSound tcp_listener id fd))

pub hold_open-IsSound :
    (url : Bytes) (ledger_id : ℕ) (r : NetHandle × List Effect)
    → Kept r
    → Kept (hold_open url ledger_id r)
unfolding hold_open
hold_open-IsSound url ledger_id (h, out) v =
    if_elim Kept h.closed _ _ (λ _. v) (λ opened. hold_net-IsSound h url ledger_id opened v)

module _ (os : Os) where
  pub after_connect-IsSound :
      (a : Answers) (h : NetHandle) → h.closed ≡ false → IsSound h → Kept (after_connect os a h)
  unfolding after_connect
  after_connect-IsSound a h opened v =
      let (still, ok) = endpoints_cached a.local a.remote h opened v in
      if_elim Kept a.connected_now _ _ (λ _. push-IsSound _ connected still refl ok)
        λ _.
          if_elim Kept (err_in_progress os a.errno) _ _ (λ _. ground arith)
            (λ _. fail_handle-IsSound h _ v)

  pub bind_handle-IsSound :
      (host : Bytes) (port : ℕ) (a : Answers) (h : NetHandle)
      → h.closed ≡ false
      → IsSound h
      → Kept (bind_handle os host port a h)
  unfolding bind_handle
  bind_handle-IsSound host port a h opened v =
      let bound = cache_local a.local h in
      let ok : IsSound bound = cache_local-IsSound a.local h v in
      let still : bound.closed ≡ false = closed-cache_local a.local h ∙ opened in
      hold_net-IsSound (record bound { held = 0 }) _ a.ledger_id still (ground arith)

  pub read_loop-IsSound :
      (k : ℕ) (rs : List Recv) (h : NetHandle)
      → h.closed ≡ false
      → IsSound h
      → Kept (read_loop os k rs h)
  unfolding read_loop
  read_loop-IsSound zero rs h opened v = v
  read_loop-IsSound (suc k) [] h opened v = v
  read_loop-IsSound (suc k) (got bytes ∷ rs) h opened v =
      read_loop-IsSound k rs (push h (received bytes)) opened (push-IsSound h _ opened refl v)
  read_loop-IsSound (suc k) (eof ∷ rs) h opened v =
      let half : IsSound (record h { peer_eof = true; end_requested = true }) = ground arith in
      if_elim Kept h.peer_eof _ _ (λ _. v) (λ _. push-IsSound _ ended opened refl half)
  read_loop-IsSound (suc k) (recv_failed e ∷ rs) h opened v =
      if_elim Kept (err_would_block os e) _ _ (λ _. v)
        λ _.
          if_elim Kept (e == os.econnreset) _ _ (λ _. fail_handle-IsSound h _ v)
            (λ _. fail_handle-IsSound h _ v)

  pub connecting_turn-IsSound :
      (io : TurnIo) (h : NetHandle) → h.closed ≡ false → IsSound h → Kept (connecting_turn os io h)
  unfolding connecting_turn
  connecting_turn-IsSound io h opened v =
      let up : IsSound (record h { connecting = false }) = ground arith in
      let (still, ok) =
        endpoints_cached io.local io.remote (record h { connecting = false }) opened up in
      if_elim Kept (not io.selected) _ _ (λ _. v)
        λ _.
          if_elim Kept (io.so_error == 0 && not io.excepted) _ _
            (λ _. flush_out_buf-IsSound os io.sends _ (push-IsSound _ connected still refl ok))
            (λ _. fail_handle-IsSound h _ v)

  pub conn_turn-IsSound :
      (io : TurnIo) (h : NetHandle) → h.closed ≡ false → IsSound h → Kept (conn_turn os io h)
  unfolding conn_turn
  conn_turn-IsSound io h opened v =
      let read = read_loop os 8 io.recvs h in
      let ok = read_loop-IsSound 8 io.recvs h opened v in
      if_elim Kept h.connecting _ _ (λ _. connecting_turn-IsSound io h opened v)
        λ _.
          if_elim Kept read.0.closed _ _ (λ _. ok)
            (λ _. close_if_done-IsSound _ (flush_out_buf-IsSound os io.sends read.0 ok))

  pub udp_loop-IsSound :
      (k : ℕ) (ds : List Datagram) (h : NetHandle)
      → h.closed ≡ false
      → IsSound h
      → Kept (udp_loop os k ds h)
  unfolding udp_loop
  udp_loop-IsSound zero ds h opened v = v
  udp_loop-IsSound (suc k) [] h opened v = v
  udp_loop-IsSound (suc k) (datagram payload address port family ∷ ds) h opened v =
      udp_loop-IsSound k ds (push h (message payload address port family)) opened
        (push-IsSound h _ opened refl v)
  udp_loop-IsSound (suc k) (recvfrom_failed e ∷ ds) h opened v =
      if_elim Kept (err_would_block os e) _ _ (λ _. v) (λ _. fail_handle-IsSound h _ v)

-- The connections of a turn are open and sound too.
abbrev pub TurnOk : Turn → Type 0
TurnOk t = IsSound t.handle × All IsSound t.fresh

accepted_handle-IsSound :
    (listener : NetHandle) (id : ℕ) (a : Accepted) → Kept (accepted_handle listener id a)
unfolding accepted_handle
accepted_handle-IsSound listener id a =
    let c = cache_remote a.remote (new_handle tcp_conn id a.fd) in
    let ok =
      cache_local-IsSound a.local c
        (cache_remote-IsSound a.remote _ (new_handle-IsSound tcp_conn id a.fd)) in
    if_elim Kept (listener.held == 0) _ _ (λ _. ok)
      (λ _.
        hold_net-IsSound _ _ a.ledger_id
          (closed-cache_local a.local c ∙ closed-cache_remote a.remote _) ok)

pub accept_loop-TurnOk :
    (k : ℕ) (more : List Accepted) (id : ℕ) (h : NetHandle)
    → h.closed ≡ false
    → IsSound h
    → TurnOk (accept_loop k more id h)
unfolding accept_loop
accept_loop-TurnOk zero more id h opened v = (v, tt)
accept_loop-TurnOk (suc k) [] id h opened v = (v, tt)
accept_loop-TurnOk (suc k) (a ∷ more) id h opened v =
    let c = (accepted_handle h id a).0 in
    let e = accepted id c.remote_address c.remote_port in
    let rest =
      accept_loop-TurnOk k more (suc id) (push h e) opened (push-IsSound h e opened refl v) in
    (rest.0, (accepted_handle-IsSound h id a, rest.1))

pub turn_by_kind-TurnOk :
    (os : Os) (kind : Kind) (io : TurnIo) (next : ℕ) (h : NetHandle)
    → h.closed ≡ false
    → IsSound h
    → TurnOk (turn_by_kind os kind io next h)
unfolding turn_by_kind
turn_by_kind-TurnOk os tcp_listener io next h opened v =
    accept_loop-TurnOk 16 io.accepts next h opened v
turn_by_kind-TurnOk os tcp_conn io next h opened v = (conn_turn-IsSound os io h opened v, tt)
turn_by_kind-TurnOk os udp io next h opened v = (udp_loop-IsSound os 16 io.datagrams h opened v, tt)
