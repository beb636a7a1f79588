-- ===== src/Http.antt =====
-- src/api/http.cpp: the parser handles of the http module. llhttp is a library: what it calls back
-- and what it answers in one llhttp_execute is an argument, an `Execution`.
pub mod Natives
pub mod Message
pub mod Delivery
mod Tests
use brokit.Prelude.{
  ℕ, ◌+◌, Bool, true, false, List, [], ◌∷◌, ◌++◌, Option, none, some, Bytes, codes, is_empty,
  if◌then◌else◌,
}

-- HttpEvent, each with the members that are set for it.
pub data HttpEvent : Type 0 where
  headers :
      (method url : Bytes) (status_code : ℕ) (status_message : Bytes) (major minor : ℕ)
      (upgrade keep_alive : Bool) (raw_headers : List Bytes)
      → HttpEvent
  body : Bytes → HttpEvent
  complete : (upgrade keep_alive : Bool) → HttpEvent
  upgraded : (head : Bytes) → HttpEvent
  failed : (code reason : Bytes) → HttpEvent

-- ParserHandle, without what belongs to llhttp.
pub record ParserHandle : Type 0 where
  pub is_response : Bool
  pub skip_body : Bool
  pub url_buf : Bytes
  pub status_buf : Bytes
  pub cur_field : Bytes
  pub cur_value : Bytes
  pub last_was_value : Bool
  pub raw_headers : List Bytes
  pub events : List HttpEvent

-- What llhttp_get_method and the like answer in a callback; `method` is none for a null name.
pub record Info : Type 0 where
  pub method : Option Bytes
  pub status_code : ℕ
  pub major : ℕ
  pub minor : ℕ
  pub upgrade : Bool
  pub keep_alive : Bool

pub data Callback : Type 0 where
  message_begin : Callback
  url status header_field header_value on_body : Bytes → Callback
  headers_complete message_complete : Info → Callback

-- flushHeaderPair
unfoldable pub flush_header_pair : ParserHandle → ParserHandle
flush_header_pair h =
    if is_empty h.cur_field then record h { last_was_value = false } else record h {
      raw_headers = h.raw_headers ++ h.cur_field ∷ h.cur_value ∷ [];
      cur_field = [];
      cur_value = [];
      last_was_value = false;
    }

-- onMessageBegin
unfoldable pub on_message_begin : ParserHandle → ParserHandle
on_message_begin h = record h {
  url_buf = [];
  status_buf = [];
  cur_field = [];
  cur_value = [];
  last_was_value = false;
  raw_headers = [];
}

unfoldable pub append_field : Bytes → ParserHandle → ParserHandle
append_field at h = record h { cur_field = h.cur_field ++ at }

-- onHeaderField
unfoldable pub on_header_field : Bytes → ParserHandle → ParserHandle
on_header_field at h = append_field at (if h.last_was_value then flush_header_pair h else h)

-- onHeaderValue
unfoldable pub on_header_value : Bytes → ParserHandle → ParserHandle
on_header_value at h = record h { last_was_value = true; cur_value = h.cur_value ++ at }

abbrev pub or_get : Option Bytes → Bytes
or_get none = codes "GET"
or_get (some name) = name

-- onHeadersComplete, with what it returns: true stands for 1, by which llhttp skips the body. The
-- strings that are moved out leave nothing behind.
unfoldable pub on_headers_complete : Info → ParserHandle → ParserHandle × Bool
on_headers_complete i h =
    let g = flush_header_pair h in
    if g.is_response
    then (
      record g {
        status_buf = [];
        raw_headers = [];
        events =
            g.events
            ++ headers [] [] i.status_code g.status_buf i.major i.minor i.upgrade i.keep_alive
                g.raw_headers
              ∷ [];
      },
      g.skip_body,
    )
    else (
      record g {
        url_buf = [];
        raw_headers = [];
        events =
            g.events
            ++ headers (or_get i.method) g.url_buf 0 [] i.major i.minor i.upgrade i.keep_alive
                g.raw_headers
              ∷ [];
      },
      g.skip_body,
    )

-- The bytes of onBody behind the last event: a Body takes them, else they become one.
unfoldable pub add_body : Bytes → List HttpEvent → List HttpEvent
add_body at [] = body at ∷ []
add_body at (body bytes ∷ []) = body (bytes ++ at) ∷ []
add_body at (e ∷ []) = e ∷ body at ∷ []
add_body at (e ∷ f ∷ es) = e ∷ add_body at (f ∷ es)

-- onBody
unfoldable pub on_body_bytes : Bytes → ParserHandle → ParserHandle
on_body_bytes at h = if is_empty at then h else record h { events = add_body at h.events }

-- onMessageComplete
unfoldable pub on_message_complete : Info → ParserHandle → ParserHandle
on_message_complete i h = record h { events = h.events ++ complete i.upgrade i.keep_alive ∷ [] }

-- The callback that initParserHandle registers for each kind.
unfoldable pub run_callback : Callback → ParserHandle → ParserHandle
run_callback message_begin h = on_message_begin h
run_callback (url at) h = record h { url_buf = h.url_buf ++ at }
run_callback (status at) h = record h { status_buf = h.status_buf ++ at }
run_callback (header_field at) h = on_header_field at h
run_callback (header_value at) h = on_header_value at h
run_callback (headers_complete i) h = (on_headers_complete i h).0
run_callback (on_body at) h = on_body_bytes at h
run_callback (message_complete i) h = on_message_complete i h

unfoldable pub run_all : List Callback → ParserHandle → ParserHandle
run_all [] h = h
run_all (c ∷ cs) h = run_all cs (run_callback c h)
