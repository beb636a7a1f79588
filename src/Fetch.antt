-- ===== src/Fetch.antt =====
-- src/api/fetch.cpp: requests and their streams. libcurl is a library: what it answers is an argument, and what is
-- asked of it, of the promises and of the gate is in a log.
pub mod Options
pub mod Natives
pub mod Tick
pub mod Cases
pub mod Kept
pub mod Sound
pub mod Rounds
pub mod Adding
pub mod Steps
pub mod Whole
pub mod Idle
pub mod Reach
pub mod Body
pub mod Stream
pub mod Given
pub mod Ends
pub mod Loop
pub mod Served
mod Tests
use brokit.Prelude.{
  ℕ, zero, suc, ◌+◌, Bool, true, false, not, ◌&&◌, ◌||◌, List, [], ◌∷◌, ◌++◌, Option, none, some,
  Bytes, codes, is_empty, drop, leb, ltb, ◌==◌, if◌then◌else◌,
}
use brokit.Prelude.Table.{lookup, put, remove}

-- FetchRequest: `easy`, `promise`, `wait_callback` and `local_response` are whether they are there.
pub record FetchRequest : Type 0 where
  pub easy : Bool
  pub promise : Bool
  pub body : Bytes
  pub headers : List Bytes
  pub status_code : ℕ
  pub status_text : Bytes
  pub url : Bytes
  pub headers_resolved : Bool
  pub body_complete : Bool
  pub has_received_data : Bool
  pub chunks : List Bytes
  pub wait_callback : Bool
  pub local_response : Bool
  pub checked_url : Bytes
  pub refusal : Bytes
  pub held : ℕ
  pub revoked_by : Bytes

-- Why a promise is rejected: by its signal, by the gate, or by a network error.
pub data FetchError : Type 0 where
  aborted : FetchError
  refused network : Bytes → FetchError

-- What happens outside, of a request: its handle of libcurl is made or cleaned up, its promise is settled, a
-- waiting reader is called, it gives a chunk to the script, it is aborted, a grant is released; a pointer to one
-- that is gone is followed.
pub data FetchEffect : Type 0 where
  inits cleans resolves : (id : ℕ) → FetchEffect
  rejects : (id : ℕ) → FetchError → FetchEffect
  calls aborts dangles : (id : ℕ) → FetchEffect
  gives : (id : ℕ) (chunk : Bytes) → FetchEffect
  releases : (id held : ℕ) → FetchEffect

-- FetchState, with its requests by their ids; the request that the last loop of js_fetch_tick has taken up, with its
-- wasStreaming, if it is in that loop's body; and what happened so far, the last first.
pub record FetchState : Type 0 where
  pub multi : Bool
  pub streams : List (ℕ × FetchRequest)
  pub pending : List ℕ
  pub local_pending : List ℕ
  pub next_stream_id : ℕ
  pub current : Option (ℕ × Bool)
  pub log : List FetchEffect

abbrev pub no_fetches : FetchState
no_fetches = record {
  multi = false;
  streams = [];
  pending = [];
  local_pending = [];
  next_stream_id = 1;
  current = none;
  log = [];
}

abbrev pub new_request : (url : Bytes) → FetchRequest
new_request url = record {
  easy = false;
  promise = true;
  body = [];
  headers = [];
  status_code = 0;
  status_text = [];
  url = url;
  headers_resolved = false;
  body_complete = false;
  has_received_data = false;
  chunks = [];
  wait_callback = false;
  local_response = false;
  checked_url = [];
  refusal = [];
  held = 0;
  revoked_by = [];
}

-- removePending and removeLocalPending.
unfoldable pub without_first : ℕ → List ℕ → List ℕ
without_first id [] = []
without_first id (j ∷ js) = let rest = without_first id js in if j == id then js else j ∷ rest

-- releaseHeldAccess
unfoldable pub released : (id held : ℕ) → List FetchEffect
released id held = if held == 0 then [] else releases id held ∷ []

-- A request is written back, and what happened on the way is logged.
unfoldable pub keep : (id : ℕ) → FetchRequest → List FetchEffect → FetchState → FetchState
keep id r es s = record s { streams = put id r s.streams; log = es ++ s.log }

-- A request is erased from the table.
unfoldable pub drop_request : (id : ℕ) → List FetchEffect → FetchState → FetchState
drop_request id es s = record s { streams = remove id s.streams; log = es ++ s.log }

-- writeCallback
unfoldable pub write_callback : Bytes → FetchRequest → FetchRequest
write_callback bytes r = record r {
  body = r.body ++ bytes;
  chunks = r.chunks ++ bytes ∷ [];
  has_received_data = true;
}

-- The loop that takes CR and LF off the end of a line.
unfoldable pub chomp : Bytes → Bytes
chomp [] = []
chomp (c ∷ line) =
    let rest = chomp line in if is_empty rest && (c == 13 || c == 10) then [] else c ∷ rest

unfoldable pub starts_with : (prefix text : Bytes) → Bool
starts_with [] text = true
starts_with (p ∷ prefix) [] = false
starts_with (p ∷ prefix) (c ∷ text) = p == c && starts_with prefix text

-- What is behind the first space.
unfoldable pub behind_space : Bytes → Option Bytes
behind_space [] = none
behind_space (c ∷ text) = let rest = behind_space text in if c == 32 then some text else rest

unfoldable pub behind_two : Option Bytes → Option Bytes
behind_two none = none
behind_two (some text) = behind_space text

unfoldable pub or_kept : Option Bytes → Bytes → Bytes
or_kept none kept = kept
or_kept (some text) kept = text

-- headerCallback
unfoldable pub header_callback : Bytes → FetchRequest → FetchRequest
header_callback buffer r =
    let line = chomp buffer in
    let text = behind_two (behind_space line) in
    if is_empty line
    then r
    else if starts_with (codes "HTTP/") line
    then record r { status_text = or_kept text r.status_text }
    else record r { headers = r.headers ++ line ∷ [] }

-- prereqCallback: whether the URL is the one that was checked last, the URL, and what the gate says of it; true is
-- CURL_PREREQFUNC_OK.
unfoldable pub prereq_callback :
    (same : Bool) (url refusal : Bytes) → FetchRequest → FetchRequest × Bool
prereq_callback same url refusal r =
    if same
    then (r, true)
    else if not (is_empty refusal)
    then (record r { refusal = refusal }, false)
    else (record r { checked_url = url }, true)

-- isHttpUrl, isDataUrl, isBlobUrl and isFileUrl of fetch_response.cpp.
pub data Scheme : Type 0 where
  http data_url blob_url file_url path : Scheme

unfoldable pub is_http_url : Bytes → Bool
is_http_url url =
    not (is_empty (drop 7 url))
    && (starts_with (codes "http://") url || starts_with (codes "https://") url)

unfoldable pub scheme_of : Bytes → Scheme
scheme_of url =
    if is_http_url url
    then http
    else if starts_with (codes "data:") url
    then data_url
    else if starts_with (codes "blob:") url
    then blob_url
    else if starts_with (codes "file:") url
    then file_url
    else path
