-- ===== src/Net/Calls.antt =====
-- The natives of src/api/net.cpp that the script calls on one socket: write, end, close, poll,
-- info, and those of UDP. A record of what the system and the gate answer goes with each.
use brokit.Prelude.{
  ℕ, Bool, true, false, not, ◌&&◌, ◌||◌, List, [], ◌∷◌, ◌++◌, Option, none, some, Bytes, codes,
  if◌then◌else◌,
}
use brokit.Net.{
  Os, NetEvent, close_event, Kind, tcp_listener, tcp_conn, udp, NetHandle, Effect, close_with,
  revoke, SendResult, flush_out_buf, find_handle, store, erase, Net,
}

pub data Reply : Type 0 where
  boolean : Bool → Reply
  number : ℕ → Reply
  null undefined_value : Reply
  event : NetEvent → Reply
  info : (local_address : Bytes) (local_port : ℕ) (remote_address : Bytes) (remote_port : ℕ) → Reply
  type_error error access_error : Bytes → Reply

-- The state after a call, what it asked of the system, and what the script gets.
pub record Outcome : Type 0 where
  pub net : Net
  pub effects : List Effect
  pub reply : Reply

-- A call that changes nothing.
abbrev pub unchanged : Net → Reply → Outcome
unchanged n r = record { net = n; effects = []; reply = r }

-- A call that leaves `h` in the place of the handle with its id.
abbrev pub stored : Net → NetHandle × List Effect → Reply → Outcome
stored n (h, out) r = record {
  net = record n { handles = store h n.handles };
  effects = out;
  reply = r;
}

abbrev pub is_conn : Kind → Bool
is_conn tcp_conn = true
is_conn tcp_listener = false
is_conn udp = false

abbrev pub is_udp : Kind → Bool
is_udp udp = true
is_udp tcp_conn = false
is_udp tcp_listener = false

-- findHandle, then the call's test on the handle; `false` is what the script gets otherwise.
unfoldable pub with_handle : Net → ℕ → (NetHandle → Bool) → (NetHandle → Outcome) → Outcome
with_handle n id refuses call = elim (find_handle id n.handles) [
  | none ↦ unchanged n (boolean false)
  | some h ↦ if refuses h then unchanged n (boolean false) else call h
]

-- The test of js_net_write on the handle.
abbrev pub refuses_write : NetHandle → Bool
refuses_write h = not (is_conn h.kind) || h.closed || h.end_requested || h.wrote_shutdown

module _ (os : Os) where
  -- What js_net_write does to the handle.
  unfoldable pub write_bytes : Bytes → List SendResult → NetHandle → NetHandle × List Effect
  write_bytes bytes rs h =
      let h' : NetHandle = record h { out_buf = h.out_buf ++ bytes } in
      if h.connecting then (h', []) else flush_out_buf os rs h'

  -- js_net_write; a value that is neither text nor bytes comes as `none`.
  unfoldable pub write : ℕ → Option Bytes → List SendResult → Net → Outcome
  write id payload rs n = with_handle n id refuses_write (λ h. elim payload [
    | none ↦
        unchanged n (type_error (codes "write: data must be a string, ArrayBuffer or TypedArray"))
    | some bytes ↦ stored n (write_bytes bytes rs h) (boolean true)
  ])

-- The end of js_net_end and of a tick: both directions are done.
unfoldable pub close_if_done : NetHandle × List Effect → NetHandle × List Effect
close_if_done (h, out) =
    if h.peer_eof && h.wrote_shutdown && not h.closed
    then (let (c, more) = close_with h false in (c, out ++ more))
    else (h, out)

module _ (os : Os) where
  unfoldable pub end_handle : List SendResult → NetHandle → NetHandle × List Effect
  end_handle rs h =
      let h' : NetHandle = record h { end_requested = true } in
      if h.connecting then (h', []) else close_if_done (flush_out_buf os rs h')

  -- js_net_end
  unfoldable pub end_call : ℕ → List SendResult → Net → Outcome
  end_call id rs n =
      with_handle n id (λ h. not (is_conn h.kind) || h.closed)
        (λ h. stored n (end_handle rs h) (boolean true))

-- js_net_close
unfoldable pub close_call : ℕ → Net → Outcome
close_call id n =
    with_handle n id (λ h. h.closed) (λ h. stored n (close_with h false) (boolean true))

-- revokeHandle: the host takes the grant back.
unfoldable pub revoke_handle : ℕ → (text name : Bytes) → Net → Net × List Effect
revoke_handle id text name n = elim (find_handle id n.handles) [
  | none ↦ (n, [])
  | some h ↦ let (h', out) = revoke h text name in (record n { handles = store h' n.handles }, out)
]

abbrev pub is_close : NetEvent → Bool
is_close (close_event had_error) = true
is_close _ = false

unfoldable pub poll_handle : Net → ℕ → NetHandle → List NetEvent → Outcome
poll_handle n id h [] = unchanged n null
poll_handle n id h (e ∷ es) = record {
  net = record n {
    handles = if is_close e then erase id n.handles else store (record h { events = es }) n.handles;
  };
  effects = [];
  reply = event e;
}

-- js_net_poll: the oldest event; the handle goes with its Close.
unfoldable pub poll : ℕ → Net → Outcome
poll id n = elim (find_handle id n.handles) [
  | none ↦ unchanged n null
  | some h ↦ poll_handle n id h h.events
]
