-- ===== src/Fetch/Reach.antt =====
-- Histories of src/api/fetch.cpp.
use brokit.Prelude.{ℕ, ◌≤◌, refl, ◌∙◌, [], Bool, Option, Bytes, arith}
use brokit.Prelude.Table.{lookup}
use brokit.Prelude.Tally.{tally}
use brokit.Fetch.{FetchState, no_fetches}
use brokit.Fetch.Options.{Options}
use brokit.Fetch.Natives.{fetch, stream_read, try_read, abort_request}
use brokit.Fetch.Tick.{
  Callback, call_back, Info, resolve_streaming, settle_local, notify_one, complete, listed, finish,
  uninstall_fetch,
}
use brokit.Fetch.Kept.{is_current, counts, keyed, Sound}
use brokit.Fetch.Steps.{fetch-Sound, stream_read-Sound, abort_request-Sound, notify_one-Sound}
use brokit.Fetch.Sound.{Given, try_read-Sound}
use brokit.Fetch.Idle.{
  Idle, fetch-Idle, stream_read-current, try_read-current, abort_request-current,
  settle_ids-current, call_back-current, resolve_all-current, notify_one-current, finish-Idle,
}
use brokit.Fetch.Whole.{
  call_back-Sound, complete-Sound, close-Sound, resolve_all-Sound, settle_local-Sound,
  uninstall_fetch-Sound,
}

-- A call of a native, a reader of fetch_helpers.js that reads a request whose head it was given, a signal or a grant that
-- is taken back, a callback of libcurl for a transfer that it has, a part of js_fetch_tick, the teardown. The readers
-- that wait are called in the midst of an abort and of a part of the tick.
pub data Step : FetchState → FetchState → Type 0 where
  fetches :
      (aborted_now : Bool) (url : Bytes) (live : Bool) (fs_refusal refusal : Bytes)
      (initialised : Bool) (o : Options) (held : ℕ) (s : FetchState)
      → Step s (fetch aborted_now url live fs_refusal refusal initialised o held s).0
  reads : (id : ℕ) (s : FetchState) → Step s (stream_read id s).0
  pulls : (id : ℕ) (s : FetchState) → Given id s → Step s (try_read id s)
  aborts_it : (id : ℕ) (refusal : Bytes) (s : FetchState) → Step s (abort_request id refusal s)
  settles : (s : FetchState) → Step s (settle_local s).0
  calls_back :
      (id : ℕ) (c : Callback) (s : FetchState) → 1 ≤ listed id s.pending → Step s (call_back id c s)
  streams_on : (infos : ℕ → Info) (s : FetchState) → Step s (resolve_streaming infos s)
  notifies : (id : ℕ) (s : FetchState) → Step s (notify_one id s)
  finishes :
      (id : ℕ) (result : Option Bytes) (i : Info) (s : FetchState) → Step s (finish id result i s)
  uninstalls : (s : FetchState) → Step s (uninstall_fetch s)

pub data Reach : FetchState → Type 0 where
  start : Reach no_fetches
  step : (s s' : FetchState) → Reach s → Step s s' → Reach s'

Idle-Step : (s s' : FetchState) → Step s s' → Idle s → Idle s'
unfolding resolve_streaming settle_local uninstall_fetch
Idle-Step _ _ (fetches a url live fs_refusal refusal b o held s) h =
    fetch-Idle a url live fs_refusal refusal b o held s h
Idle-Step _ _ (reads id s) h = stream_read-current id s ∙ h
Idle-Step _ _ (pulls id s given) h = try_read-current id s ∙ h
Idle-Step _ _ (aborts_it id refusal s) h = abort_request-current id refusal s ∙ h
Idle-Step _ _ (settles s) h =
    settle_ids-current s.local_pending (record s { local_pending = [] }) ∙ h
Idle-Step _ _ (calls_back id c s listed_once) h = call_back-current id s c ∙ h
Idle-Step _ _ (streams_on infos s) h = resolve_all-current infos s.pending s ∙ h
Idle-Step _ _ (notifies id s) h = notify_one-current id s ∙ h
Idle-Step _ _ (finishes id result i s) h = finish-Idle id result i s
Idle-Step _ _ (uninstalls s) h = h

pub Idle-Reach : (s : FetchState) → Reach s → Idle s
Idle-Reach _ start = refl
Idle-Reach _ (step s s' before last) = Idle-Step s s' last (Idle-Reach s before)

Sound-Step : (s s' : FetchState) → Step s s' → Idle s → Sound s → Sound s'
unfolding resolve_streaming finish
Sound-Step _ _ (fetches a url live fs_refusal refusal b o held s) idle h =
    fetch-Sound s h a url live fs_refusal refusal b o held
Sound-Step _ _ (reads id s) idle h = stream_read-Sound s h id
Sound-Step _ _ (pulls id s given) idle h = try_read-Sound id s given h
Sound-Step _ _ (aborts_it id refusal s) idle h = abort_request-Sound s h id refusal idle
Sound-Step _ _ (settles s) idle h = settle_local-Sound s h
Sound-Step _ _ (calls_back id c s listed_once) idle h = call_back-Sound s h id c listed_once
Sound-Step _ _ (streams_on infos s) idle h =
    resolve_all-Sound infos s.pending s (λ i. omega arith) h
Sound-Step _ _ (notifies id s) idle h = notify_one-Sound s h id
Sound-Step _ _ (finishes id result i s) idle h =
    close-Sound (complete id result i s) (complete-Sound s h id result i idle)
Sound-Step _ _ (uninstalls s) idle h = uninstall_fetch-Sound s idle h

-- Through every history of calls of the natives, readers, signals, revocations, callbacks of libcurl for
-- transfers that it has, parts of the tick and teardowns, where a request is read by the readers of
-- fetch_helpers.js, which wait for it only once they were given its head: no pointer or iterator to a request
-- that is gone is followed, though the readers that wait are called in the midst of an abort and of the tick,
-- and may erase requests there. An id with no request is in no list. A request that is in the table is there
-- once, under an id that was handed out: it is pending exactly if it has its handle of libcurl, and parked
-- exactly if its response is local, not both; its promise is settled once or still kept, and is kept exactly
-- until the head of its response is; while it is kept, the request transfers or is parked; a reader waits for it
-- only if its head was given and its body is not complete; and without a handle it holds no grant. Of every id,
-- at most one promise is settled and at most one handle cleaned up.
pub Sound-Reach : (s : FetchState) → Reach s → Sound s
unfolding counts listed is_current keyed tally lookup
Sound-Reach _ start = (omega arith, refl, λ i. (refl, refl, refl, refl, ground arith, ground arith))
Sound-Reach _ (step s s' before last) =
    Sound-Step s s' last (Idle-Reach s before) (Sound-Reach s before)
