-- ===== src/Fetch/Tick.antt =====
-- The parts of js_fetch_tick of src/api/fetch.cpp, its pending test and its teardown.
use brokit.Prelude.{
  ℕ, suc, ◌+◌, Bool, true, false, not, ◌&&◌, ◌||◌, List, [], ◌∷◌, ◌++◌, Option, none, some, Bytes,
  is_empty, ◌==◌, if◌then◌else◌,
}
use brokit.Prelude.Table.{lookup}
use brokit.Fetch.Natives.{try_read, call_reader}
use brokit.Fetch.{
  FetchRequest, refused, network, FetchEffect, cleans, resolves, rejects, calls, dangles,
  FetchState, without_first, released, keep, drop_request, write_callback, header_callback,
  prereq_callback,
}

-- The loop of settleLocalResponses.
unfoldable pub settle_found : (id : ℕ) → FetchRequest → FetchState → FetchState
settle_found id r s =
    drop_request id (released id r.held ++ (if r.promise then resolves id ∷ [] else [])) s

unfoldable pub settle_ids : List ℕ → FetchState → FetchState × ℕ
settle_ids [] s = (s, 0)
settle_ids (id ∷ ids) s =
    let gone = settle_ids ids s in
    elim (lookup id s.streams) [
      | none ↦ gone
      | some r ↦ let (s', n) = settle_ids ids (settle_found id r s) in (s', suc n)
    ]

-- settleLocalResponses
unfoldable pub settle_local : FetchState → FetchState × ℕ
settle_local s = settle_ids s.local_pending (record s { local_pending = [] })

-- A callback of libcurl for a request, while curl_multi_perform runs.
pub data Callback : Type 0 where
  writes heads : Bytes → Callback
  redirects : (same : Bool) (url refusal : Bytes) → Callback

unfoldable pub called_back : Callback → FetchRequest → FetchRequest
called_back (writes bytes) r = write_callback bytes r
called_back (heads line) r = header_callback line r
called_back (redirects same url refusal) r = (prereq_callback same url refusal r).0

unfoldable pub call_back : (id : ℕ) → Callback → FetchState → FetchState
call_back id c s = elim (lookup id s.streams) [
  | none ↦ record s { log = dangles id ∷ s.log }
  | some r ↦ keep id (called_back c r) [] s
]

-- What libcurl knows of a transfer: its status, and its URL if it has one.
pub record Info : Type 0 where
  pub status : ℕ
  pub effective_url : Option Bytes

unfoldable pub with_info : Info → FetchRequest → FetchRequest
with_info i r = record r {
  status_code = i.status;
  url = elim i.effective_url [ none ↦ r.url | some u ↦ u ];
}

-- The promise is resolved with a response.
unfoldable pub resolve_found : (id : ℕ) → Info → FetchRequest → FetchState → FetchState
resolve_found id i r s =
    keep id (record (with_info i r) { promise = false; headers_resolved = true })
      (if r.promise then resolves id ∷ [] else []) s

-- Phase 1 of js_fetch_tick, one request.
unfoldable pub resolve_one : (id : ℕ) → Info → FetchState → FetchState
resolve_one id i s = elim (lookup id s.streams) [
  | none ↦ record s { log = dangles id ∷ s.log }
  | some r ↦ if not r.headers_resolved && r.has_received_data then resolve_found id i r s else s
]

unfoldable pub resolve_all : (infos : ℕ → Info) → List ℕ → FetchState → FetchState
resolve_all infos [] s = s
resolve_all infos (id ∷ ids) s = resolve_all infos ids (resolve_one id (infos id) s)

-- Phase 1 of js_fetch_tick.
unfoldable pub resolve_streaming : (infos : ℕ → Info) → FetchState → FetchState
resolve_streaming infos s = resolve_all infos s.pending s

-- The loop over the requests goes on from one that must still be there.
unfoldable pub goes_on_from : (id : ℕ) → FetchState → FetchState
goes_on_from id s = elim (lookup id s.streams) [
  | none ↦ record s { log = dangles id ∷ s.log }
  | some r ↦ s
]

unfoldable pub notify_found : (id : ℕ) → FetchRequest → FetchState → FetchState
notify_found id r s =
    if (not (is_empty r.chunks) || r.body_complete) && r.wait_callback
    then goes_on_from id
        (try_read id (keep id (record r { wait_callback = false }) (calls id ∷ []) s))
    else s

-- Phase 2 of js_fetch_tick, one request.
unfoldable pub notify_one : (id : ℕ) → FetchState → FetchState
notify_one id s = elim (lookup id s.streams) [ none ↦ s | some r ↦ notify_found id r s ]

-- How a transfer ended: CURLE_OK, or libcurl's text.
unfoldable pub settle_effects : (id : ℕ) → Option Bytes → FetchRequest → List FetchEffect
settle_effects id none r = resolves id ∷ []
settle_effects id (some text) r =
    rejects id (if is_empty r.refusal then network text else refused r.refusal) ∷ []

-- Phase 3 of js_fetch_tick up to the call of the reader that waits.
unfoldable pub complete_found :
    (id : ℕ) → Option Bytes → Info → FetchRequest → FetchState → FetchState
complete_found id result i r s =
    let known : FetchRequest = elim result [ none ↦ with_info i r | some text ↦ r ] in
    let r' = record (if r.headers_resolved then r else known) {
      body_complete = true;
      promise = if r.headers_resolved then r.promise else false;
      headers_resolved = true;
      wait_callback = false;
    } in
    let settled = if not r.headers_resolved && r.promise then settle_effects id result r else [] in
    record (keep id r' ((if r.wait_callback then calls id ∷ [] else []) ++ settled) s) {
      pending = without_first id s.pending;
      current = some (id, r.headers_resolved);
    }

unfoldable pub listed : ℕ → List ℕ → ℕ
listed id [] = 0
listed id (j ∷ js) = let rest = listed id js in if j == id then suc rest else rest

-- A message of curl_multi_info_read: the request that is pending with its handle is completed, and its reader called.
unfoldable pub complete : (id : ℕ) → Option Bytes → Info → FetchState → FetchState
complete id result i s = elim (lookup id s.streams) [
  | none ↦ if listed id s.pending == 0 then s else record s { log = dangles id ∷ s.log }
  | some r ↦
      if listed id s.pending == 0
      then s
      else call_reader r.wait_callback id (complete_found id result i r s)
]

unfoldable pub close_found :
    (id : ℕ) (was_streaming : Bool) → FetchRequest → FetchState → FetchState
close_found id was_streaming r s =
    let es = released id r.held ++ cleans id ∷ [] in
    let s' = record s { current = none } in
    if was_streaming
    then keep id (record r { easy = false; held = 0 }) es s'
    else drop_request id es s'

-- The end of phase 3, behind the reader that was called.
unfoldable pub close_current : Option (ℕ × Bool) → FetchState → FetchState
close_current none s = s
close_current (some (id, was_streaming)) s = elim (lookup id s.streams) [
  | none ↦ record s { current = none; log = dangles id ∷ s.log }
  | some r ↦ close_found id was_streaming r s
]

unfoldable pub close : FetchState → FetchState
close s = close_current s.current s

-- Phase 3 of js_fetch_tick, one message.
unfoldable pub finish : (id : ℕ) → Option Bytes → Info → FetchState → FetchState
finish id result i s = close (complete id result i s)

-- The callbacks of libcurl in curl_multi_perform, each for a request.
unfoldable pub performed : List (ℕ × Callback) → FetchState → FetchState
performed [] s = s
performed ((id, c) ∷ cs) s = performed cs (call_back id c s)

unfoldable pub keys : List (ℕ × FetchRequest) → List ℕ
keys [] = []
keys ((id, r) ∷ m) = id ∷ keys m

-- Phase 2 of js_fetch_tick.
unfoldable pub notify_all : List ℕ → FetchState → FetchState
notify_all [] s = s
notify_all (id ∷ ids) s = notify_all ids (notify_one id s)

-- A message of curl_multi_info_read that is CURLMSG_DONE.
pub record Message : Type 0 where
  pub id : ℕ
  pub result : Option Bytes
  pub info : Info

-- Phase 3 of js_fetch_tick, and how many it completed.
unfoldable pub complete_all : List Message → FetchState → FetchState × ℕ
complete_all [] s = (s, 0)
complete_all (m ∷ ms) s =
    let (skipped, k) = complete_all ms s in
    let (s', n) = complete_all ms (finish m.id m.result m.info s) in
    if listed m.id s.pending == 0 then (skipped, k) else (s', suc n)

-- js_fetch_tick, with the callbacks of curl_multi_perform, what libcurl knows of the transfers, and its messages.
unfoldable pub fetch_tick :
    List (ℕ × Callback) → (infos : ℕ → Info) → List Message → FetchState → FetchState × ℕ
fetch_tick transfers infos messages s =
    let (s1, n) = settle_local s in
    let s2 = resolve_streaming infos (performed transfers s1) in
    let (s3, k) = complete_all messages (notify_all (keys s2.streams) s2) in
    if not s1.multi || is_empty s1.pending then (s1, n) else (s3, n + k)

unfoldable pub any_waits : List (ℕ × FetchRequest) → Bool
any_waits [] = false
any_waits ((id, r) ∷ m) = r.wait_callback || any_waits m

-- js_fetch_has_pending
unfoldable pub fetch_has_pending : FetchState → Bool
fetch_has_pending s =
    not (is_empty s.pending) || not (is_empty s.local_pending) || any_waits s.streams

-- The loop of uninstallFetch.
unfoldable pub torn_down : List (ℕ × FetchRequest) → List FetchEffect
torn_down [] = []
torn_down ((id, r) ∷ m) = (if r.easy then cleans id ∷ [] else []) ++ torn_down m

-- The requests are destroyed: ~FetchRequest.
unfoldable pub destroyed : List (ℕ × FetchRequest) → List FetchEffect
destroyed [] = []
destroyed ((id, r) ∷ m) = released id r.held ++ destroyed m

-- uninstallFetch
unfoldable pub uninstall_fetch : FetchState → FetchState
uninstall_fetch s = record s {
  multi = false;
  streams = [];
  pending = [];
  local_pending = [];
  log = destroyed s.streams ++ (torn_down s.streams ++ s.log);
}
