-- ===== src/Fetch/Natives.antt =====
-- The natives of src/api/fetch.cpp but for its tick.
use brokit.Prelude.{
  ℕ, suc, Bool, true, false, not, ◌&&◌, List, [], ◌∷◌, ◌++◌, Option, none, some, Bytes, codes,
  is_empty, if◌then◌else◌,
}
use brokit.Prelude.Table.{lookup, put}
use brokit.Fetch.{
  FetchRequest, FetchError, aborted, refused, network, FetchEffect, inits, cleans, rejects, calls,
  aborts, gives, dangles, FetchState, new_request, without_first, released, keep, drop_request,
  Scheme, http, data_url, blob_url, file_url, path, scheme_of,
}
use brokit.Fetch.Options.{Options, Setting, first_wrong, settings}

-- What fetch gives: a throw, a promise that is rejected at once, or the promise of a request.
pub data Fetched : Type 0 where
  type_error error : Bytes → Fetched
  rejected : FetchError → Fetched
  promise_of : (id : ℕ) → List Setting → Fetched

-- queueLocalResponse
unfoldable pub fetch_local : (url : Bytes) → FetchState → FetchState × Fetched
fetch_local url s =
    let id = s.next_stream_id in
    let r = record (new_request url) { body_complete = true; local_response = true } in
    (
      record s {
        next_stream_id = suc id;
        streams = put id r s.streams;
        local_pending = s.local_pending ++ id ∷ [];
      },
      promise_of id [],
    )

-- The part of js_fetch for http and https, with the refusal of the gate, whether libcurl makes a handle, the options,
-- and what the gate holds the transfer under, 0 for nothing.
unfoldable pub start_transfer :
    (url : Bytes) → Options → (held : ℕ) → FetchState → FetchState × Fetched
start_transfer url o held s =
    let id = s.next_stream_id in
    let r = record (new_request url) { easy = true; checked_url = url; held = held } in
    (
      record s {
        multi = true;
        next_stream_id = suc id;
        streams = put id r s.streams;
        pending = s.pending ++ id ∷ [];
        log = inits id ∷ s.log;
      },
      promise_of id (settings o),
    )

unfoldable pub fetch_checked :
    (url : Bytes) → Options → (held : ℕ) → Option Bytes → FetchState → FetchState × Fetched
fetch_checked url o held none s = start_transfer url o held s
fetch_checked url o held (some text) s =
    let id = s.next_stream_id in
    (record s { next_stream_id = suc id; log = inits id ∷ s.log }, type_error text)

unfoldable pub fetch_http :
    (url refusal : Bytes) (initialised : Bool)
    → Options
    → (held : ℕ) → FetchState
    → FetchState × Fetched
fetch_http url refusal initialised o held s =
    if not (is_empty refusal)
    then (s, rejected (refused refusal))
    else if not initialised
    then (
      record s { next_stream_id = suc s.next_stream_id },
      error (codes "fetch: curl_easy_init failed"),
    )
    else fetch_checked url o held (first_wrong o) s

-- What fetch is told of a URL that is not of http: whether the object URL lives, and the gate's refusal of a file.
unfoldable pub fetch_scheme :
    Scheme
    → (url : Bytes) (live : Bool) (fs_refusal refusal : Bytes) (initialised : Bool) → Options
    → (held : ℕ) → FetchState
    → FetchState × Fetched
fetch_scheme http url live fs_refusal refusal initialised o held s =
    fetch_http url refusal initialised o held s
fetch_scheme data_url url live fs_refusal refusal initialised o held s = fetch_local url s
fetch_scheme blob_url url live fs_refusal refusal initialised o held s =
    if live then fetch_local url s else (
      s,
      rejected (
          network (
            codes "fetch: "
            ++ (url ++ codes " is not a live object URL (revoked, or never created)"))),
    )
fetch_scheme file_url url live fs_refusal refusal initialised o held s =
    if is_empty fs_refusal then fetch_local url s else (s, rejected (refused fs_refusal))
fetch_scheme path url live fs_refusal refusal initialised o held s =
    if is_empty fs_refusal then fetch_local url s else (s, rejected (refused fs_refusal))

-- js_fetch; `aborted_now` is whether its signal is aborted already.
unfoldable pub fetch :
    (aborted_now : Bool) (url : Bytes) (live : Bool) (fs_refusal refusal : Bytes)
    (initialised : Bool)
    → Options
    → (held : ℕ) → FetchState
    → FetchState × Fetched
fetch aborted_now url live fs_refusal refusal initialised o held s =
    if aborted_now
    then (s, rejected aborted)
    else fetch_scheme (scheme_of url) url live fs_refusal refusal initialised o held s

-- What js_fetch_stream_read gives.
pub data StreamRead : Type 0 where
  null : StreamRead
  value : Bytes → StreamRead
  done : (error : Bytes) → StreamRead

unfoldable pub read_chunk :
    (id : ℕ) → List Bytes → FetchRequest → FetchState → FetchState × StreamRead
read_chunk id (c ∷ chunks) r s =
    (keep id (record r { chunks = chunks }) (gives id c ∷ []) s, value c)
read_chunk id [] r s =
    if not r.body_complete
    then (s, null)
    else if r.headers_resolved && not r.easy
    then (drop_request id (released id r.held) s, done r.revoked_by)
    else (s, done r.revoked_by)

-- js_fetch_stream_read
unfoldable pub stream_read : (id : ℕ) → FetchState → FetchState × StreamRead
stream_read id s = elim (lookup id s.streams) [
  | none ↦ (s, done [])
  | some r ↦ read_chunk id r.chunks r s
]

-- js_fetch_stream_wait
unfoldable pub stream_wait : (id : ℕ) → FetchState → FetchState
stream_wait id s = elim (lookup id s.streams) [
  | none ↦ s
  | some r ↦ keep id (record r { wait_callback = true }) [] s
]

-- tryRead of fetch_helpers.js, the callback that waits: it reads, and waits again if there is nothing to read yet.
unfoldable pub waits_on : (id : ℕ) → StreamRead → FetchState → FetchState
waits_on id null s = stream_wait id s
waits_on id (value c) s = s
waits_on id (done text) s = s

unfoldable pub try_read : (id : ℕ) → FetchState → FetchState
try_read id s = let (s', r) = stream_read id s in waits_on id r s'

-- The call of the reader that waits, if there is one.
unfoldable pub call_reader : (waits : Bool) (id : ℕ) → FetchState → FetchState
call_reader waits id s = if waits then try_read id s else s

-- The error of a request that is aborted: by its signal, or with the refusal of the gate.
unfoldable pub error_of : Bytes → FetchError
error_of refusal = if is_empty refusal then aborted else refused refusal

unfoldable pub abort_effects :
    (id : ℕ) (refusal : Bytes) (held : ℕ) → FetchRequest → List FetchEffect
abort_effects id refusal held r =
    (if r.wait_callback then calls id ∷ [] else [])
    ++ ((if r.promise && not r.headers_resolved then rejects id (error_of refusal) ∷ [] else [])
        ++ ((if r.easy then cleans id ∷ [] else []) ++ (released id held ++ aborts id ∷ [])))

-- abortRequest of a request, behind its first lines and up to the reader: `held` is what is to be released, and
-- `revoked` what its reader then errors with.
unfoldable pub abort_kept :
    (id : ℕ) (refusal : Bytes) (held : ℕ) (revoked : Bytes) → FetchRequest → FetchState → FetchState
abort_kept id refusal held revoked r s =
    let s' = record s {
      pending = if r.easy then without_first id s.pending else s.pending;
      local_pending = without_first id s.local_pending;
    } in
    let r' = record r {
      easy = false;
      held = 0;
      revoked_by = revoked;
      local_response = false;
      body_complete = true;
      chunks = [];
      promise = if r.headers_resolved then r.promise else false;
      headers_resolved = true;
      wait_callback = false;
    } in
    keep id r' (abort_effects id refusal held r) s'

-- streams.erase by an iterator that was found before: it must still be there.
unfoldable pub erase_found : (id : ℕ) → FetchState → FetchState
erase_found id s = elim (lookup id s.streams) [
  | none ↦ record s { log = dangles id ∷ s.log }
  | some r ↦ drop_request id (released id r.held) s
]

-- The reader that waits is called, and then the request erased, if its promise was not settled before.
unfoldable pub abort_found :
    (id : ℕ) (refusal : Bytes) (held : ℕ) (revoked : Bytes) → FetchRequest → FetchState → FetchState
abort_found id refusal held revoked r s =
    let s' = call_reader r.wait_callback id (abort_kept id refusal held revoked r s) in
    if r.headers_resolved then s' else erase_found id s'

-- abortRequest: by its signal, without a refusal, or by the gate.
unfoldable pub abort_request : (id : ℕ) (refusal : Bytes) → FetchState → FetchState
abort_request id refusal s = elim (lookup id s.streams) [
  | none ↦ s
  | some r ↦
      if is_empty refusal
      then abort_found id refusal r.held r.revoked_by r s
      else if r.easy
      then abort_found id refusal 0 refusal r s
      else s
]
