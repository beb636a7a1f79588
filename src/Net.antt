-- ===== src/Net.antt =====
-- src/api/net_internal.h and the handle operations of src/api/net.cpp: nonblocking sockets with
-- an event queue each. What the operating system answers enters as arguments; what the code asks of
-- it and of the access gate is the list of `Effect`s that an operation returns.
pub mod Calls
pub mod Open
pub mod Tick
pub mod Loop
pub mod Sound
pub mod Turns
pub mod Invariant
pub mod Opening
pub mod Reach
pub mod Stream
mod Tests
use brokit.Prelude.{
  ℕ, zero, suc, ◌+◌, ◌<◌, ◌≡◌, Bool, true, false, not, ◌&&◌, ◌||◌, List, [], ◌∷◌, ◌++◌, Option,
  none, some, Bytes, codes, is_empty, take, drop, ltb, ◌==◌, if◌then◌else◌,
}

-- errno values and messages of the platform (Linux and macOS branches).
pub record Os : Type 0 where
  pub ewouldblock : ℕ
  pub eagain : ℕ
  pub einprogress : ℕ
  pub econnreset : ℕ
  pub econnrefused : ℕ
  pub strerror : ℕ → Bytes
  -- std::to_string of a port
  pub to_string : ℕ → Bytes

pub data NetEvent : Type 0 where
  accepted : (conn_id : ℕ) (address : Bytes) (port : ℕ) → NetEvent
  connected : NetEvent
  received : Bytes → NetEvent
  ended : NetEvent
  message : (payload address : Bytes) (port : ℕ) (family : Bytes) → NetEvent
  close_event : (had_error : Bool) → NetEvent
  error_event : (text name code : Bytes) → NetEvent

pub data Kind : Type 0 where
  tcp_listener tcp_conn udp : Kind

pub record NetHandle : Type 0 where
  pub kind : Kind
  pub id : ℕ
  -- `none` is BROKIT_INVALID_SOCKET
  pub fd : Option ℕ
  pub connecting : Bool
  pub peer_eof : Bool
  pub end_requested : Bool
  pub wrote_shutdown : Bool
  pub closed : Bool
  pub errored : Bool
  pub out_buf : Bytes
  pub events : List NetEvent
  pub local_address : Bytes
  pub local_port : ℕ
  pub remote_address : Bytes
  pub remote_port : ℕ
  pub ipv6 : Bool
  pub closed_sweeps : ℕ
  pub access_subject : Bytes
  -- 0 is nothing held
  pub held : ℕ

pub data Effect : Type 0 where
  closes_fd : ℕ → Effect
  sends : Option ℕ → Bytes → Effect
  shuts_down : Option ℕ → Effect
  sets_broadcast : Option ℕ → Bool → Effect
  sends_to : Option ℕ → (payload host : Bytes) (port : ℕ) → Effect
  releases : ℕ → Effect
  holds : (ledger_id : ℕ) (subject : Bytes) (handle_id : ℕ) → Effect

-- A new NetHandle, as its member initializers make it.
abbrev pub new_handle : Kind → ℕ → ℕ → NetHandle
new_handle kind id fd = record {
  kind = kind;
  id = id;
  fd = some fd;
  connecting = false;
  peer_eof = false;
  end_requested = false;
  wrote_shutdown = false;
  closed = false;
  errored = false;
  out_buf = [];
  events = [];
  local_address = [];
  local_port = 0;
  remote_address = [];
  remote_port = 0;
  ipv6 = false;
  closed_sweeps = 0;
  access_subject = [];
  held = 0;
}

abbrev pub push : NetHandle → NetEvent → NetHandle
push h e = record h { events = h.events ++ e ∷ [] }

-- releaseHeldAccess of access_policy.cpp: nothing for 0, else the ledger's release.
unfoldable pub release_held : ℕ → List Effect
release_held held = if held == 0 then [] else releases held ∷ []

unfoldable pub close_socket : Option ℕ → List Effect
close_socket none = []
close_socket (some fd) = closes_fd fd ∷ []

-- hardClose
unfoldable pub hard_close : NetHandle → NetHandle × List Effect
unfolding release_held close_socket
hard_close h =
    (record h { fd = none; closed = true; held = 0 }, close_socket h.fd ++ release_held h.held)

-- queueClose
unfoldable pub queue_close : NetHandle → Bool → NetHandle
queue_close h had_error = push h (close_event had_error)

-- hardClose, then queueClose
unfoldable pub close_with : NetHandle → Bool → NetHandle × List Effect
unfolding hard_close queue_close
close_with h had_error = let (c, out) = hard_close h in (queue_close c had_error, out)

-- failHandle
unfoldable pub fail_handle : NetHandle → Bytes → NetHandle × List Effect
unfolding close_with
fail_handle h text =
    if h.closed
    then (h, [])
    else close_with (push (record h { errored = true }) (error_event text [] [])) true

-- What revokeHandle does to the handle that it finds; the texts are
-- refusalText and refusalName of the refusal.
unfoldable pub revoke : NetHandle → (text name : Bytes) → NetHandle × List Effect
unfolding close_with
revoke h text name =
    if h.closed
    then (h, [])
    else close_with
        (push (record h { errored = true }) (error_event text name (codes "ERR_ACCESS_DENIED")))
        true

-- holdNet: `ledger_id` is what holdGatedAccess gives, 0 without a gate.
unfoldable pub hold_net : NetHandle → Bytes → ℕ → NetHandle × List Effect
hold_net h subject ledger_id = (
  record h { access_subject = subject; held = ledger_id },
  if ledger_id == 0 then [] else holds ledger_id subject h.id ∷ [],
)

-- One ::send: the count, where 0 stands for any count that is not positive, and the errno behind it.
pub record SendResult : Type 0 where
  pub count : ℕ
  pub errno : ℕ

module _ (os : Os) where
  open os use {ewouldblock, eagain, einprogress, strerror}

  unfoldable pub err_would_block : ℕ → Bool
  err_would_block e = e == ewouldblock || e == eagain

  unfoldable pub err_in_progress : ℕ → Bool
  err_in_progress e = e == einprogress

  -- The end of flushOutBuf: the FIN once the buffer is empty.
  unfoldable pub finish_flush : NetHandle → NetHandle × List Effect
  finish_flush h =
      if h.end_requested && not h.wrote_shutdown && is_empty h.out_buf
      then (record h { wrote_shutdown = true }, shuts_down h.fd ∷ [])
      else (h, [])

  -- flushOutBuf. Each result answers one ::send; past the last one the socket would block.
  unfoldable pub flush_out_buf : List SendResult → NetHandle → NetHandle × List Effect
  flush_out_buf [] h = if is_empty h.out_buf then finish_flush h else (h, [])
  flush_out_buf (r ∷ rs) h =
      let rest = flush_out_buf rs (record h { out_buf = drop r.count h.out_buf }) in
      if is_empty h.out_buf
      then finish_flush h
      else if ltb 0 r.count
      then (rest.0, sends h.fd (take r.count h.out_buf) ∷ rest.1)
      else if err_would_block r.errno
      then (h, [])
      else fail_handle h (codes "send failed: " ++ strerror r.errno)

-- The socket table; its order stands for the order of iteration over the map.
abbrev pub Table : Type 0
Table = List NetHandle

-- findHandle
unfoldable pub find_handle : ℕ → Table → Option NetHandle
find_handle id [] = none
find_handle id (h ∷ hs) = if h.id == id then some h else find_handle id hs

-- What is done to `*h` for the handle `h` in the table.
unfoldable pub store : NetHandle → Table → Table
store h [] = []
store h (g ∷ gs) = if g.id == h.id then h ∷ gs else g ∷ store h gs

unfoldable pub erase : ℕ → Table → Table
erase id [] = []
erase id (h ∷ hs) = if h.id == id then hs else h ∷ erase id hs

-- The globals of net.cpp: g_handles and g_nextId.
pub record Net : Type 0 where
  pub handles : Table
  pub next_id : ℕ
