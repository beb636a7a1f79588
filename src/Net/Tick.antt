-- ===== src/Net/Tick.antt =====
-- js_net_tick of src/api/net.cpp: one turn for each socket, the script's drain hook, and the sweep
-- that reaps closed sockets whose Close nobody polled.
use brokit.Prelude.{
  ℕ, zero, suc, ◌+◌, Bool, true, false, not, ◌&&◌, List, [], ◌∷◌, ◌++◌, Bytes, codes, length, ◌==◌,
  if◌then◌else◌,
}
use brokit.Net.{
  Os, accepted, connected, received, ended, message, Kind, tcp_listener, tcp_conn, udp, NetHandle,
  new_handle, push, Effect, fail_handle, hold_net, err_would_block, SendResult, flush_out_buf,
  Table, store, Net,
}
use brokit.Net.Calls.{close_if_done}
use brokit.Net.Open.{Endpoint, cache_local, cache_remote}

-- A connection that ::accept hands out.
pub record Accepted : Type 0 where
  pub fd : ℕ
  pub local : Endpoint
  pub remote : Endpoint
  pub ledger_id : ℕ

-- ::recv on a connection.
pub data Recv : Type 0 where
  got : Bytes → Recv
  eof : Recv
  recv_failed : ℕ → Recv

-- ::recvfrom on a UDP socket.
pub data Datagram : Type 0 where
  datagram : (payload address : Bytes) (port : ℕ) (family : Bytes) → Datagram
  recvfrom_failed : ℕ → Datagram

-- What the system answers in one socket's turn. Past the end of a list it would block.
pub record TurnIo : Type 0 where
  pub accepts : List Accepted
  -- ::select reports the connecting socket, SO_ERROR, and its place in the except set
  pub selected : Bool
  pub so_error : ℕ
  pub excepted : Bool
  pub local : Endpoint
  pub remote : Endpoint
  pub recvs : List Recv
  pub sends : List SendResult
  pub datagrams : List Datagram

-- The table's change in a turn: the socket's new state, the connections accepted in it.
pub record Turn : Type 0 where
  pub handle : NetHandle
  pub fresh : Table
  pub effects : List Effect

-- The handle made for an accepted connection, held under the listener's grant.
unfoldable pub accepted_handle : NetHandle → ℕ → Accepted → NetHandle × List Effect
accepted_handle listener id a =
    let c = cache_local a.local (cache_remote a.remote (new_handle tcp_conn id a.fd)) in
    if listener.held == 0 then (c, []) else hold_net c listener.access_subject a.ledger_id

-- The loop over ::accept, at most `rounds` times.
unfoldable pub accept_loop : (rounds : ℕ) → List Accepted → ℕ → NetHandle → Turn
accept_loop zero more id h = record { handle = h; fresh = []; effects = [] }
accept_loop (suc k) [] id h = record { handle = h; fresh = []; effects = [] }
accept_loop (suc k) (a ∷ more) id h =
    let (c, out) = accepted_handle h id a in
    let rest = accept_loop k more (suc id) (push h (accepted id c.remote_address c.remote_port)) in
    record { handle = rest.handle; fresh = c ∷ rest.fresh; effects = out ++ rest.effects }

module _ (os : Os) where
  open os use {econnreset, econnrefused, strerror}

  -- The loop over ::recv, at most `rounds` times.
  unfoldable pub read_loop : (rounds : ℕ) → List Recv → NetHandle → NetHandle × List Effect
  read_loop zero rs h = (h, [])
  read_loop (suc k) [] h = (h, [])
  read_loop (suc k) (got bytes ∷ rs) h = read_loop k rs (push h (received bytes))
  read_loop (suc k) (eof ∷ rs) h =
      if h.peer_eof
      then (h, [])
      else (push (record h { peer_eof = true; end_requested = true }) ended, [])
  read_loop (suc k) (recv_failed e ∷ rs) h =
      if err_would_block os e
      then (h, [])
      else if e == econnreset
      then fail_handle h (codes "connection reset by peer")
      else fail_handle h (codes "recv failed: " ++ strerror e)

  -- A connection whose ::connect is in flight.
  unfoldable pub connecting_turn : TurnIo → NetHandle → NetHandle × List Effect
  connecting_turn io h =
      if not io.selected
      then (h, [])
      else if io.so_error == 0 && not io.excepted
      then flush_out_buf os io.sends (
          push (cache_remote io.remote (cache_local io.local (record h { connecting = false })))
            connected)
      else fail_handle h (
          codes "connect failed: "
          ++ strerror (if io.so_error == 0 then econnrefused else io.so_error))

  unfoldable pub conn_turn : TurnIo → NetHandle → NetHandle × List Effect
  conn_turn io h =
      if h.connecting
      then connecting_turn io h
      else (let (h1, o1) = read_loop 8 io.recvs h in
          if h1.closed
          then (h1, o1)
          else (let (h2, o2) = close_if_done (flush_out_buf os io.sends h1) in (h2, o1 ++ o2)))

  -- The loop over ::recvfrom.
  unfoldable pub udp_loop : (rounds : ℕ) → List Datagram → NetHandle → NetHandle × List Effect
  udp_loop zero ds h = (h, [])
  udp_loop (suc k) [] h = (h, [])
  udp_loop (suc k) (datagram payload address port family ∷ ds) h =
      udp_loop k ds (push h (message payload address port family))
  udp_loop (suc k) (recvfrom_failed e ∷ ds) h =
      if err_would_block os e
      then (h, [])
      else fail_handle h (codes "recvfrom failed: " ++ strerror e)

  abbrev alone : NetHandle × List Effect → Turn
  alone (h, out) = record { handle = h; fresh = []; effects = out }

  unfoldable pub turn_by_kind : Kind → TurnIo → ℕ → NetHandle → Turn
  turn_by_kind tcp_listener io next h = accept_loop 16 io.accepts next h
  turn_by_kind tcp_conn io next h = alone (conn_turn io h)
  turn_by_kind udp io next h = alone (udp_loop 16 io.datagrams h)

-- A turn's new connections stand behind the table, and have taken their ids.
unfoldable pub apply_turn : Net → Turn → Net
apply_turn n t = record {
  handles = store t.handle n.handles ++ t.fresh;
  next_id = n.next_id + length t.fresh;
}
