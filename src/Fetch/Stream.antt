-- ===== src/Fetch/Stream.antt =====
-- The natives of src/api/fetch.cpp and the parts of its tick keep what a reader was given of a body.
use brokit.Prelude.{
  ℕ, ◌≡◌, refl, sym, ap, ◌∙◌, Bool, true, false, not, ◌&&◌, ◌||◌, List, [], ◌∷◌, ◌++◌, Option, none,
  some, Bytes, is_empty, ◌==◌, ==_refl, if◌then◌else◌, if_elim, option_elim, Bool-cases, inl, inr,
  arith,
}
use brokit.Prelude.Table.{lookup, remove, lookup-remove}
use brokit.Prelude.Tally.{tally}
use brokit.Fetch.{
  FetchRequest, FetchEffect, inits, cleans, calls, dangles, released, FetchState, keep,
  drop_request, write_callback, header_callback, prereq_callback,
}
use brokit.Fetch.Options.{Options}
use brokit.Fetch.Natives.{
  null, value, done, stream_read, stream_wait, waits_on, try_read, call_reader, erase_found,
  abort_kept, fetch_local, start_transfer, fetch, StreamRead, abort_effects, read_chunk,
  abort_found,
}
use brokit.Fetch.Cases.{fetch_cases}
use brokit.Fetch.Tick.{
  Callback, writes, heads, redirects, called_back, call_back, Info, with_info, resolve_found,
  resolve_one, notify_found, notify_one, settle_effects, complete_found, complete, listed,
  close_found, close_current, goes_on_from,
}
use brokit.Fetch.Body.{
  given, aborts_of, is_gift, Flows, Flows-quiet, Flows-put, Flows-skip, Flows-new, Flows-give,
  flat-written,
}

abbrev pub Streams : FetchState → Type 0
Streams s = Flows s.next_stream_id s.streams s.log

-- What is there behind remove was there before.
was_there :
    (id i : ℕ) (r : FetchRequest) (m : List (ℕ × FetchRequest))
    → lookup i (remove id m) ≡ some r
    → lookup i m ≡ some r
was_there id i r m h = elim (Bool-cases (id == i)) [
  | inl e ↦
      let gone : ◌≡◌ {A = Option FetchRequest} none (some r) =
        sym (lookup-remove id i m ∙ ap (λ b. if b then none else lookup i m) e) ∙ h in
      absurd (cc)
  | inr e ↦ sym (lookup-remove id i m ∙ ap (λ b. if b then none else lookup i m) e) ∙ h
]

module _ (s : FetchState) (flows : Streams s) where
  pub fetch_new :
      (a : Bool) (url : Bytes) (live : Bool) (fs_refusal refusal : Bytes) (b : Bool) (o : Options)
      (held : ℕ)
      → Streams (fetch a url live fs_refusal refusal b o held s).0
  unfolding fetch_local start_transfer tally is_gift
  fetch_new a url live fs_refusal refusal b o held =
      let begun = inits s.next_stream_id ∷ [] in
      fetch_cases Streams s url o held flows
        (Flows-new s.next_stream_id s.streams s.log flows [] refl _ refl refl)
        (Flows-new s.next_stream_id s.streams s.log flows begun refl _ refl refl)
        (Flows-skip s.next_stream_id s.streams s.log flows [] refl)
        (Flows-skip s.next_stream_id s.streams s.log flows begun refl) a live fs_refusal refusal b

  -- A request is written back with the body and the chunks that it had, or erased.
  pub kept :
      (id : ℕ) (r r' : FetchRequest) (es : List FetchEffect)
      → tally is_gift es ≡ 0
      → lookup id s.streams ≡ some r
      → (r'.chunks ≡ r.chunks) × (r'.body ≡ r.body)
      → Streams (keep id r' es s)
  unfolding keep
  kept id r r' es quiet found (chunks, body) =
      Flows-put s.next_stream_id s.streams s.log flows es quiet id r r' found
        (λ _ h. rw (chunks, body) h)

  pub dropped :
      (id : ℕ) (es : List FetchEffect) → tally is_gift es ≡ 0 → Streams (drop_request id es s)
  unfolding drop_request
  dropped id es quiet =
      Flows-quiet s.next_stream_id s.streams s.log flows es quiet (remove id s.streams)
        (λ i r. was_there id i r s.streams)

  dangled : (id : ℕ) → Streams (record s { log = dangles id ∷ s.log })
  unfolding tally is_gift
  dangled id =
      Flows-quiet s.next_stream_id s.streams s.log flows (dangles id ∷ []) refl s.streams
        (λ i r h. h)

  pub read_found :
      (id : ℕ) (cs : List Bytes) (r : FetchRequest)
      → r.chunks ≡ cs
      → lookup id s.streams ≡ some r
      → Streams (read_chunk id cs r s).0
  unfolding read_chunk keep tally is_gift released
  read_found id (c ∷ cs) r e found =
      Flows-give s.next_stream_id s.streams s.log flows id r c cs found e
  read_found id [] r e found =
      if_elim (λ (x : FetchState × StreamRead). Streams x.0) (not r.body_complete) _ _ (λ _. flows)
        (λ _.
          if_elim (λ (x : FetchState × StreamRead). Streams x.0) (r.headers_resolved && not r.easy)
            _ _ (λ _. dropped id (released id r.held) (ground arith)) (λ _. flows))

-- A reader is called, and the request that an iterator is at is erased or gone on from.
waited : (id : ℕ) (x : StreamRead) (s : FetchState) → Streams s → Streams (waits_on id x s)
unfolding waits_on stream_wait tally
waited id null s flows =
    option_elim Streams (lookup id s.streams) _ _ flows
      (λ r found. kept s flows id r (record r { wait_callback = true }) [] refl found (refl, refl))
waited id (value c) s flows = flows
waited id (done text) s flows = flows

pub stream_read-Streams : (id : ℕ) (s : FetchState) → Streams s → Streams (stream_read id s).0
unfolding stream_read
stream_read-Streams id s flows =
    option_elim (λ (x : FetchState × StreamRead). Streams x.0) (lookup id s.streams) _ _ flows
      (λ r found. read_found s flows id r.chunks r refl found)

pub try_read-Streams : (id : ℕ) (s : FetchState) → Streams s → Streams (try_read id s)
unfolding try_read
try_read-Streams id s flows =
    waited id (stream_read id s).1 (stream_read id s).0 (stream_read-Streams id s flows)

call_reader-Streams :
    (b : Bool) (id : ℕ) (s : FetchState) → Streams s → Streams (call_reader b id s)
unfolding call_reader
call_reader-Streams b id s flows =
    if_elim Streams b _ _ (λ _. try_read-Streams id s flows) (λ _. flows)

erase_found-Streams : (id : ℕ) (s : FetchState) → Streams s → Streams (erase_found id s)
unfolding erase_found released tally is_gift
erase_found-Streams id s flows =
    option_elim Streams (lookup id s.streams) _ _ (dangled s flows id)
      (λ r found. dropped s flows id (released id r.held) (ground arith))

goes_on_from-Streams : (id : ℕ) (s : FetchState) → Streams s → Streams (goes_on_from id s)
unfolding goes_on_from
goes_on_from-Streams id s flows =
    option_elim Streams (lookup id s.streams) _ _ (dangled s flows id) (λ r found. flows)

module _ (s : FetchState) (flows : Streams s) where
  abort_kept-Streams :
      (id : ℕ) (refusal : Bytes) (held : ℕ) (revoked : Bytes) (r : FetchRequest)
      → lookup id s.streams ≡ some r
      → Streams (abort_kept id refusal held revoked r s)
  unfolding abort_kept abort_effects released tally is_gift keep aborts_of
  abort_kept-Streams id refusal held revoked r found =
      Flows-put s.next_stream_id s.streams s.log flows (abort_effects id refusal held r)
        (ground arith) id r _ found (λ h. absurd (ground (arith, h, ==_refl id)))

  pub abort_one :
      (id : ℕ) (refusal : Bytes) (held : ℕ) (revoked : Bytes) (r : FetchRequest)
      → lookup id s.streams ≡ some r
      → Streams (abort_found id refusal held revoked r s)
  unfolding abort_found
  abort_one id refusal held revoked r found =
      let called =
        call_reader-Streams r.wait_callback id (abort_kept id refusal held revoked r s)
          (abort_kept-Streams id refusal held revoked r found) in
      if_elim Streams r.headers_resolved _ _ (λ _. called) (λ _. erase_found-Streams id _ called)

  called :
      (id : ℕ) (c : Callback) (r : FetchRequest)
      → lookup id s.streams ≡ some r
      → Streams (keep id (called_back c r) [] s)
  unfolding called_back write_callback header_callback prereq_callback keep tally
  called id (writes bytes) r found =
      Flows-put s.next_stream_id s.streams s.log flows [] refl id r (write_callback bytes r) found
        (λ _. flat-written (given id s.log) r.chunks r.body bytes)
  called id (heads line) r found =
      kept s flows id r (header_callback line r) [] refl found (ground arith, ground arith)
  called id (redirects same url refusal) r found =
      kept s flows id r (prereq_callback same url refusal r).0 [] refl found
        (ground arith, ground arith)

  pub called_one : (id : ℕ) (c : Callback) → Streams (call_back id c s)
  unfolding call_back
  called_one id c =
      option_elim Streams (lookup id s.streams) _ _ (dangled s flows id)
        (λ r found. called id c r found)

  pub resolved_one : (id : ℕ) (i : Info) → Streams (resolve_one id i s)
  unfolding resolve_one resolve_found with_info tally is_gift
  resolved_one id i = option_elim Streams (lookup id s.streams) _ _ (dangled s flows id) (λ r found.
      if_elim Streams (not r.headers_resolved && r.has_received_data) _ _
        (λ _. kept s flows id r _ _ (ground arith) found (refl, refl)) (λ _. flows))

  pub notified_one : (id : ℕ) → Streams (notify_one id s)
  unfolding notify_one notify_found tally is_gift
  notified_one id = option_elim Streams (lookup id s.streams) _ _ flows (λ r found.
      let u = keep id (record r { wait_callback = false }) (calls id ∷ []) s in
      let called =
        kept s flows id r (record r { wait_callback = false }) (calls id ∷ []) refl found
          (refl, refl) in
      if_elim Streams ((not (is_empty r.chunks) || r.body_complete) && r.wait_callback) _ _
        (λ _. goes_on_from-Streams id (try_read id u) (try_read-Streams id u called)) (λ _. flows))

  -- What is written back of a request that is completed, whatever is known of it.
  completed_as :
      (id : ℕ) (result : Option Bytes) (r known : FetchRequest)
      → lookup id s.streams ≡ some r
      → (known.chunks ≡ r.chunks) × (known.body ≡ r.body)
      → let r' = record (if r.headers_resolved then r else known) {
        body_complete = true;
        promise = if r.headers_resolved then r.promise else false;
        headers_resolved = true;
        wait_callback = false;
      } in
        Streams (
          keep id r'
            ((if r.wait_callback then calls id ∷ [] else [])
              ++ (if not r.headers_resolved && r.promise then settle_effects id result r else []))
            s)
  unfolding settle_effects tally is_gift
  completed_as id none r known found (chunks, body) =
      kept s flows id r _ _ (ground arith) found (ground (arith, chunks), ground (arith, body))
  completed_as id (some text) r known found (chunks, body) =
      kept s flows id r _ _ (ground arith) found (ground (arith, chunks), ground (arith, body))

  completed_found :
      (id : ℕ) (result : Option Bytes) (i : Info) (r : FetchRequest)
      → lookup id s.streams ≡ some r
      → Streams (complete_found id result i r s)
  unfolding complete_found with_info keep
  completed_found id none i r found = completed_as id none r (with_info i r) found (refl, refl)
  completed_found id (some text) i r found = completed_as id (some text) r r found (refl, refl)

  pub completed : (id : ℕ) (result : Option Bytes) (i : Info) → Streams (complete id result i s)
  unfolding complete
  completed id result i =
      option_elim Streams (lookup id s.streams) _ _
        (if_elim Streams (listed id s.pending == 0) _ _ (λ _. flows) (λ _. dangled s flows id))
        (λ r found.
          if_elim Streams (listed id s.pending == 0) _ _ (λ _. flows)
            (λ _. call_reader-Streams r.wait_callback id _ (completed_found id result i r found)))

  pub closed_now : (o : Option (ℕ × Bool)) → Streams (close_current o s)
  unfolding close_current close_found released tally is_gift keep drop_request
  closed_now none = flows
  closed_now (some (id, b)) =
      option_elim Streams (lookup id s.streams) _ _ (dangled s flows id) (λ r found.
        if_elim Streams b _ _
          (λ _.
            kept s flows id r (record r { easy = false; held = 0 })
              (released id r.held ++ cleans id ∷ []) (ground arith) found (refl, refl))
          (λ _. dropped s flows id (released id r.held ++ cleans id ∷ []) (ground arith)))
