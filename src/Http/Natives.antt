-- ===== src/Http/Natives.antt =====
-- The natives of src/api/http.cpp over the table of parser handles, and the objects that the script
-- gets for the events.
use brokit.Prelude.{
  ℕ, ◌+◌, Bool, false, List, [], ◌∷◌, ◌++◌, map, Option, none, some, Bytes, codes, is_empty, drop,
  ltb, if◌then◌else◌,
}
use brokit.Prelude.Table.{lookup, put, remove}
use brokit.Http.{
  HttpEvent, headers, body, complete, upgraded, failed, ParserHandle, Callback, run_all,
}

-- A value of an event object: a number, a string, a Boolean, bytes, an array of strings.
pub data JsValue : Type 0 where
  number : ℕ → JsValue
  text : Bytes → JsValue
  flag : Bool → JsValue
  bytes : Bytes → JsValue
  texts : List Bytes → JsValue

abbrev pub JsObject : Type 0
JsObject = List (Bytes × JsValue)

-- A member that is set unless it is empty.
unfoldable pub unless_empty : Bytes → Bytes → JsObject
unless_empty name s = if is_empty s then [] else (name, text s) ∷ []

unfoldable pub to_object : HttpEvent → JsObject
to_object
      (headers method url status_code status_message major minor upgrade keep_alive raw_headers) =
    (codes "type", text (codes "headers"))
    ∷ (unless_empty (codes "method") method
        ++ (unless_empty (codes "url") url
            ++ ((if ltb 0 status_code then (codes "statusCode", number status_code) ∷ [] else [])
                ++ (unless_empty (codes "statusMessage") status_message
                    ++ (codes "versionMajor", number major)
                      ∷ (codes "versionMinor", number minor)
                      ∷ (codes "upgrade", flag upgrade)
                      ∷ (codes "shouldKeepAlive", flag keep_alive)
                      ∷ (codes "rawHeaders", texts raw_headers)
                      ∷ []))))
to_object (body data_bytes) =
    (codes "type", text (codes "body")) ∷ (codes "data", bytes data_bytes) ∷ []
to_object (complete upgrade keep_alive) =
    (codes "type", text (codes "complete"))
    ∷ (codes "upgrade", flag upgrade)
    ∷ (codes "shouldKeepAlive", flag keep_alive)
    ∷ []
to_object (upgraded head) = (codes "type", text (codes "upgrade")) ∷ (codes "head", bytes head) ∷ []
to_object (failed code reason) =
    (codes "type", text (codes "error"))
    ∷ (codes "code", text code)
    ∷ (codes "reason", text reason)
    ∷ []

-- What llhttp_execute and llhttp_finish answer. A position is none where it is null or before the
-- data; a name or a reason is none where it is null.
pub data Errno : Type 0 where
  ok : Errno
  paused_upgrade : (pos : Option ℕ) → Errno
  error : (name reason : Option Bytes) → Errno

-- One call of llhttp: what it calls back, in order, and what it answers.
pub record Execution : Type 0 where
  pub callbacks : List Callback
  pub errno : Errno

abbrev pub or_else : Option Bytes → Bytes → Bytes
or_else none d = d
or_else (some s) d = s

-- The Error event of a failed call.
unfoldable pub error_event : (fallback : Bytes) → (name reason : Option Bytes) → HttpEvent
error_event fallback name reason =
    let code = or_else name fallback in
    let told = or_else reason [] in failed code (if is_empty told then code else told)

-- The part of the data behind what the parser consumed.
unfoldable pub upgrade_head : Option ℕ → Bytes → Bytes
upgrade_head none data_bytes = []
upgrade_head (some pos) data_bytes = drop pos data_bytes

-- The events that js_http_parser_execute adds behind those of the callbacks.
unfoldable pub execute_ends : Errno → Bytes → List HttpEvent
execute_ends ok data_bytes = []
execute_ends (paused_upgrade pos) data_bytes = upgraded (upgrade_head pos data_bytes) ∷ []
execute_ends (error name reason) data_bytes = error_event (codes "HPE_INVALID") name reason ∷ []

-- Those of js_http_parser_finish.
unfoldable pub finish_ends : Errno → List HttpEvent
finish_ends ok = []
finish_ends (paused_upgrade pos) = []
finish_ends (error name reason) = error_event (codes "HPE_INVALID_EOF_STATE") name reason ∷ []

-- The callbacks, the events behind them, and serializeEvents, which leaves none.
unfoldable pub deliver :
    List Callback → List HttpEvent → ParserHandle → ParserHandle × List HttpEvent
deliver cs ends h = let g = run_all cs h in (record g { events = [] }, g.events ++ ends)

-- g_parsers and g_nextParserId.
pub record HttpState : Type 0 where
  pub parsers : List (ℕ × ParserHandle)
  pub next_parser_id : ℕ

-- initParserHandle
unfoldable pub init_parser_handle : (is_response : Bool) → ParserHandle → ParserHandle
init_parser_handle is_response h = record h { is_response = is_response }

abbrev pub new_parser : (skip_body : Bool) → ParserHandle
new_parser skip_body = record {
  is_response = false;
  skip_body = skip_body;
  url_buf = [];
  status_buf = [];
  cur_field = [];
  cur_value = [];
  last_was_value = false;
  raw_headers = [];
  events = [];
}

-- js_http_parser_create
unfoldable pub parser_create : (is_response skip_body : Bool) → HttpState → HttpState × ℕ
parser_create is_response skip_body s = (
  record {
    parsers =
        put s.next_parser_id (init_parser_handle is_response (new_parser skip_body)) s.parsers;
    next_parser_id = s.next_parser_id + 1;
  },
  s.next_parser_id,
)

-- js_http_parser_execute; the data is none where it is neither bytes nor a string.
unfoldable pub parser_execute : ℕ → Option Bytes → Execution → HttpState → HttpState × List JsObject
parser_execute id none x s = (s, [])
parser_execute id (some data_bytes) x s = elim (lookup id s.parsers) [
  | none ↦ (s, [])
  | some h ↦
      if is_empty data_bytes
      then (s, [])
      else (let (g, es) = deliver x.callbacks (execute_ends x.errno data_bytes) h in
          (record s { parsers = put id g s.parsers }, map to_object es))
]

-- js_http_parser_finish
unfoldable pub parser_finish : ℕ → Execution → HttpState → HttpState × List JsObject
parser_finish id x s = elim (lookup id s.parsers) [
  | none ↦ (s, [])
  | some h ↦
      let (g, es) = deliver x.callbacks (finish_ends x.errno) h in
      (record s { parsers = put id g s.parsers }, map to_object es)
]

-- js_http_parser_reset
unfoldable pub parser_reset : ℕ → HttpState → HttpState
parser_reset id s = elim (lookup id s.parsers) [
  | none ↦ s
  | some h ↦
      let g = init_parser_handle h.is_response h in
      record s { parsers = put id (record g { events = [] }) s.parsers }
]

-- js_http_parser_destroy
unfoldable pub parser_destroy : ℕ → HttpState → HttpState
parser_destroy id s = record s { parsers = remove id s.parsers }

-- js_http_status_text; `name` is what llhttp_status_name gives, none if it is null.
unfoldable pub status_text : (name : Option Bytes) → Bytes
status_text none = codes "OK"
status_text (some name) = name
