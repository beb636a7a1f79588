-- ===== src/WebSocket.antt =====
-- src/api/websocket.cpp: the client's WebSocket connections. libcurl is a library: what it answers is an
-- argument of each operation, and the engine's promises and the gate's grants are written down in a log.
pub mod Frames
pub mod Natives
pub mod Kept
pub mod Sound
pub mod Steps
pub mod Rounds
pub mod Teardown
pub mod Reach
pub mod Events
pub mod Sending
mod Tests
use brokit.Prelude.{
  ℕ, zero, suc, ◌+◌, ◌-◌, ◌*◌, ◌/◌, ◌%◌, Bool, true, false, not, ◌&&◌, ◌||◌, List, [], ◌∷◌, ◌++◌,
  Option, none, some, Bytes, codes, is_empty, ltb, ◌==◌, if◌then◌else◌, ℤ, pos, negsuc,
}
use brokit.Prelude.Table.{lookup, remove, put}

-- The numbers 0 to 3 of `state`.
pub data WsState : Type 0 where
  connecting open_now closing closed : WsState

unfoldable pub is_connecting : WsState → Bool
is_connecting connecting = true
is_connecting _ = false

unfoldable pub is_open : WsState → Bool
is_open open_now = true
is_open _ = false

unfoldable pub is_closed : WsState → Bool
is_closed closed = true
is_closed _ = false

-- Message
pub record WsMessage : Type 0 where
  pub bytes : Bytes
  pub binary : Bool

-- WSConnection: `easy` is whether its handle of libcurl is there, `waits` whether its promise is.
pub record WsConnection : Type 0 where
  pub easy : Bool
  pub state : WsState
  pub waits : Bool
  pub inbox : List WsMessage
  pub partial_data : Bytes
  pub partial_binary : Bool
  pub close_code : ℤ
  pub close_reason : Bytes
  pub connected : Bool
  pub error_msg : Bytes
  pub closed_sweeps : ℕ
  pub checked_url : Bytes
  pub refusal : Bytes
  pub held : ℕ
  pub error_name : Bytes

-- What happens outside: a promise is settled; a frame is sent; a connection is destroyed, which gives back
-- what it held; a pointer to one that was destroyed is followed.
pub data WsEffect : Type 0 where
  resolves : (id : ℕ) → WsEffect
  rejects : (id : ℕ) (text : Bytes) (denied : Bool) → WsEffect
  sends : (id : ℕ) (flags payload : Bytes) → WsEffect
  destroys : (id : ℕ) (held : ℕ) → WsEffect
  dangles : (id : ℕ) → WsEffect

-- The globals: whether g_ws_multi is there, g_ws_conns, g_ws_connecting by the ids of its connections, and
-- g_ws_nextId; with what happened so far, the last first.
pub record Ws : Type 0 where
  pub multi : Bool
  pub conns : List (ℕ × WsConnection)
  pub pending : List ℕ
  pub next_id : ℕ
  pub log : List WsEffect

abbrev pub no_ws : Ws
no_ws = record { multi = false; conns = []; pending = []; next_id = 1; log = [] }

-- A new connection, for a URL.
abbrev pub new_connection : (url : Bytes) (held : ℕ) → WsConnection
new_connection url held = record {
  easy = true;
  state = connecting;
  waits = true;
  inbox = [];
  partial_data = [];
  partial_binary = false;
  close_code = pos 0;
  close_reason = [];
  connected = false;
  error_msg = [];
  closed_sweeps = 0;
  checked_url = url;
  refusal = [];
  held = held;
  error_name = [];
}

-- The erasing of the first entry that is found in g_ws_connecting.
unfoldable pub erase_first : ℕ → List ℕ → List ℕ
erase_first id [] = []
erase_first id (j ∷ js) = let rest = erase_first id js in if j == id then js else j ∷ rest

unfoldable pub listed : ℕ → List ℕ → ℕ
listed id [] = 0
listed id (j ∷ js) = let rest = listed id js in if j == id then suc rest else rest

-- A connection is written back, and what happened on the way is logged.
unfoldable pub write_back : (id : ℕ) → WsConnection → List WsEffect → Ws → Ws
write_back id c es s = record s { conns = put id c s.conns; log = es ++ s.log }

-- `delete conn` and the erasing of its entry.
unfoldable pub delete_conn : (id : ℕ) → WsConnection → Ws → Ws
delete_conn id c s = record s { conns = remove id s.conns; log = destroys id c.held ∷ s.log }
