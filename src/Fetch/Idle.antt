-- ===== src/Fetch/Idle.antt =====
-- Behind every native of src/api/fetch.cpp and every part of its tick, no request is being completed.
use brokit.Prelude.{
  ℕ, ◌≡◌, refl, ◌∙◌, Bool, false, not, ◌&&◌, ◌||◌, List, [], ◌∷◌, Option, none, some, Bytes,
  is_empty, if_elim, option_elim,
}
use brokit.Prelude.Table.{lookup}
use brokit.Fetch.{FetchRequest, FetchState, keep, drop_request, calls}
use brokit.Fetch.Options.{Options}
use brokit.Fetch.Natives.{
  fetch_local, start_transfer, fetch, StreamRead, null, value, done, read_chunk, stream_read,
  stream_wait, waits_on, try_read, call_reader, abort_kept, erase_found, abort_found, abort_request,
}
use brokit.Fetch.Cases.{fetch_cases}
use brokit.Fetch.Tick.{
  Callback, call_back, Info, resolve_found, resolve_one, resolve_all, settle_found, settle_ids,
  goes_on_from, notify_found, notify_one, complete, close_found, close_current, close, finish,
}

abbrev pub Idle : FetchState → Type 0
Idle s = s.current ≡ none

pub fetch-Idle :
    (a : Bool) (url : Bytes) (live : Bool) (fs_refusal refusal : Bytes) (b : Bool) (o : Options)
    (held : ℕ) (s : FetchState)
    → Idle s
    → Idle (fetch a url live fs_refusal refusal b o held s).0
unfolding fetch_local start_transfer
fetch-Idle a url live fs_refusal refusal b o held s h =
    fetch_cases Idle s url o held h h h h h a live fs_refusal refusal b

-- A request is read, waited for or called back, and the same request is being completed.
module _ (id : ℕ) (s : FetchState) where
  read_chunk-current :
      (cs : List Bytes) (r : FetchRequest) → (read_chunk id cs r s).0.current ≡ s.current
  unfolding read_chunk keep drop_request
  read_chunk-current (c ∷ cs) r = refl
  read_chunk-current [] r =
      if_elim (λ (x : FetchState × StreamRead). x.0.current ≡ s.current) (not r.body_complete) _ _
        (λ _. refl)
        (λ _.
          if_elim (λ (x : FetchState × StreamRead). x.0.current ≡ s.current)
            (r.headers_resolved && not r.easy) _ _ (λ _. refl) (λ _. refl))

  pub stream_read-current : (stream_read id s).0.current ≡ s.current
  unfolding stream_read
  stream_read-current =
      option_elim (λ (x : FetchState × StreamRead). x.0.current ≡ s.current) (lookup id s.streams) _
        _ refl (λ r found. read_chunk-current r.chunks r)

  waits_on-current : (x : StreamRead) → (waits_on id x s).current ≡ s.current
  unfolding waits_on stream_wait keep
  waits_on-current null =
      option_elim (λ (u : FetchState). u.current ≡ s.current) (lookup id s.streams) _ _ refl
        (λ r found. refl)
  waits_on-current (value c) = refl
  waits_on-current (done text) = refl

  erase_found-current : (erase_found id s).current ≡ s.current
  unfolding erase_found drop_request
  erase_found-current =
      option_elim (λ (u : FetchState). u.current ≡ s.current) (lookup id s.streams) _ _ refl
        (λ r found. refl)

  goes_on_from-current : (goes_on_from id s).current ≡ s.current
  unfolding goes_on_from
  goes_on_from-current =
      option_elim (λ (u : FetchState). u.current ≡ s.current) (lookup id s.streams) _ _ refl
        (λ r found. refl)

  pub call_back-current : (c : Callback) → (call_back id c s).current ≡ s.current
  unfolding call_back keep
  call_back-current c =
      option_elim (λ (u : FetchState). u.current ≡ s.current) (lookup id s.streams) _ _ refl
        (λ r found. refl)

  pub resolve_one-current : (i : Info) → (resolve_one id i s).current ≡ s.current
  unfolding resolve_one resolve_found keep
  resolve_one-current i =
      option_elim (λ (u : FetchState). u.current ≡ s.current) (lookup id s.streams) _ _ refl
        (λ r found.
          if_elim (λ (u : FetchState). u.current ≡ s.current)
            (not r.headers_resolved && r.has_received_data) _ _ (λ _. refl) (λ _. refl))

pub try_read-current : (id : ℕ) (s : FetchState) → (try_read id s).current ≡ s.current
unfolding try_read
try_read-current id s =
    waits_on-current id (stream_read id s).0 (stream_read id s).1 ∙ stream_read-current id s

pub call_reader-current :
    (b : Bool) (id : ℕ) (s : FetchState) → (call_reader b id s).current ≡ s.current
unfolding call_reader
call_reader-current b id s =
    if_elim (λ (u : FetchState). u.current ≡ s.current) b _ _ (λ _. try_read-current id s)
      (λ _. refl)

abort_found-current :
    (id : ℕ) (refusal : Bytes) (held : ℕ) (revoked : Bytes) (r : FetchRequest) (s : FetchState)
    → (abort_found id refusal held revoked r s).current ≡ s.current
unfolding abort_found abort_kept keep
abort_found-current id refusal held revoked r s =
    let u = abort_kept id refusal held revoked r s in
    let called = call_reader-current r.wait_callback id u in
    if_elim (λ (u : FetchState). u.current ≡ s.current) r.headers_resolved _ _ (λ _. called)
      (λ _. erase_found-current id (call_reader r.wait_callback id u) ∙ called)

pub abort_request-current :
    (id : ℕ) (refusal : Bytes) (s : FetchState) → (abort_request id refusal s).current ≡ s.current
unfolding abort_request
abort_request-current id refusal s =
    option_elim (λ (u : FetchState). u.current ≡ s.current) (lookup id s.streams) _ _ refl
      (λ r found.
        if_elim (λ (u : FetchState). u.current ≡ s.current) (is_empty refusal) _ _
          (λ _. abort_found-current id refusal r.held r.revoked_by r s)
          (λ _.
            if_elim (λ (u : FetchState). u.current ≡ s.current) r.easy _ _
              (λ _. abort_found-current id refusal 0 refusal r s) (λ _. refl)))

pub notify_one-current : (id : ℕ) (s : FetchState) → (notify_one id s).current ≡ s.current
unfolding notify_one notify_found keep
notify_one-current id s =
    option_elim (λ (u : FetchState). u.current ≡ s.current) (lookup id s.streams) _ _ refl
      (λ r found.
        let u = keep id (record r { wait_callback = false }) (calls id ∷ []) s in
        if_elim (λ (u : FetchState). u.current ≡ s.current)
          ((not (is_empty r.chunks) || r.body_complete) && r.wait_callback) _ _
          (λ _. goes_on_from-current id (try_read id u) ∙ try_read-current id u) (λ _. refl))

pub resolve_all-current :
    (infos : ℕ → Info) (ids : List ℕ) (s : FetchState)
    → (resolve_all infos ids s).current ≡ s.current
unfolding resolve_all
resolve_all-current infos [] s = refl
resolve_all-current infos (id ∷ ids) s =
    let u = resolve_one id (infos id) s in
    resolve_all-current infos ids u ∙ resolve_one-current id s (infos id)

pub settle_ids-current : (ids : List ℕ) (s : FetchState) → (settle_ids ids s).0.current ≡ s.current
unfolding settle_ids settle_found drop_request
settle_ids-current [] s = refl
settle_ids-current (id ∷ ids) s =
    option_elim (λ (x : FetchState × ℕ). x.0.current ≡ s.current) (lookup id s.streams) _ _
      (settle_ids-current ids s) (λ r found. settle_ids-current ids (settle_found id r s))

close_current-Idle :
    (o : Option (ℕ × Bool)) (s : FetchState) → s.current ≡ o → Idle (close_current o s)
unfolding close_current close_found keep drop_request
close_current-Idle none s e = e
close_current-Idle (some (id, b)) s e =
    option_elim Idle (lookup id s.streams) _ _ refl
      (λ r found. if_elim Idle b _ _ (λ _. refl) (λ _. refl))

pub finish-Idle :
    (id : ℕ) (result : Option Bytes) (i : Info) (s : FetchState) → Idle (finish id result i s)
unfolding finish close
finish-Idle id result i s = let u = complete id result i s in close_current-Idle u.current u refl
