-- ===== src/Fetch/Rounds.antt =====
-- The parts of js_fetch_tick of src/api/fetch.cpp keep what holds of the request that they are at.
use brokit.Prelude.{
  ℕ, ◌≤◌, ◌≡◌, refl, sym, ap, ◌∙◌, Bool, false, not, ◌&&◌, ◌||◌, [], ◌∷◌, ◌++◌, Option, none, some,
  Bytes, is_empty, ◌==◌, ==_refl, if◌then◌else◌, if_elim, option_split, ◌≢◌, true, List, arith,
}
use brokit.Prelude.Table.{lookup}
use brokit.Prelude.Tally.{tally}
use brokit.Fetch.{
  FetchRequest, cleans, resolves, calls, gives, FetchState, released, without_first, keep,
  write_callback, header_callback, prereq_callback,
}
use brokit.Fetch.Tick.{
  Callback, writes, heads, redirects, called_back, Info, with_info, resolve_found, notify_found,
  settle_effects, complete_found, listed, close_found, goes_on_from,
}
use brokit.Fetch.Kept.{
  settles_of, cleans_of, is_dangle, one, is_current, counts, Sound, OneId, listed-without_first,
  Sound-keep, Sound-drop,
}
use brokit.Fetch.Sound.{known, Sound-quiet, put_there, put-IsGiven, try_read-Sound, Given}
use brokit.Fetch.Natives.{StreamRead, done, try_read, stream_read, waits_on, read_chunk}

-- A promise is resolved, or a reader called, or nothing.
pub resolve_effects : (id : ℕ) (b : Bool) → OneId id (if b then resolves id ∷ [] else []) (one b) 0
unfolding tally settles_of cleans_of is_dangle
resolve_effects id b = (λ i. ground arith, ground arith)

pub settle_found-OneId :
    (id held : ℕ) (b : Bool)
    → OneId id (released id held ++ (if b then resolves id ∷ [] else [])) (one b) 0
unfolding tally settles_of cleans_of is_dangle released
settle_found-OneId id held b = (λ i. ground arith, ground arith)

one_call : (id : ℕ) → OneId id (calls id ∷ []) 0 0
unfolding tally settles_of cleans_of is_dangle
one_call id = (λ i. ground arith, refl)

settle_effects-OneId :
    (id : ℕ) (result : Option Bytes) (r : FetchRequest) (b d : Bool)
    → OneId id
        ((if b then calls id ∷ [] else []) ++ (if d then settle_effects id result r else []))
        (one d)
        0
unfolding tally settles_of cleans_of is_dangle settle_effects
settle_effects-OneId id none r b d = (λ i. ground arith, ground arith)
settle_effects-OneId id (some text) r b d = (λ i. ground arith, ground arith)

pub close_effects : (id held : ℕ) → OneId id (released id held ++ cleans id ∷ []) 0 1
unfolding tally settles_of cleans_of is_dangle released
close_effects id held = (λ i. ground arith, ground arith)

pub called_back-same :
    (c : Callback) (r : FetchRequest)
    → let r' = called_back c r in
      (r'.easy ≡ r.easy)
      × (r'.promise ≡ r.promise)
      × (r'.headers_resolved ≡ r.headers_resolved)
      × (r'.body_complete ≡ r.body_complete)
      × (r'.local_response ≡ r.local_response)
      × (r'.held ≡ r.held)
unfolding called_back write_callback header_callback prereq_callback
called_back-same (writes bytes) r = (refl, refl, refl, refl, refl, refl)
called_back-same (heads line) r = ground arith
called_back-same (redirects b url refusal) r = ground arith

pub called_back-waits :
    (c : Callback) (r : FetchRequest) → one (called_back c r).wait_callback ≤ one r.wait_callback
unfolding called_back write_callback header_callback prereq_callback
called_back-waits (writes bytes) r = omega arith
called_back-waits (heads line) r = ground arith
called_back-waits (redirects b url refusal) r = ground arith

-- A request that is being completed is there, and its head is given.
pub complete_found-Given :
    (id : ℕ) (r : FetchRequest) (s : FetchState) (result : Option Bytes) (i : Info)
    → Given id (complete_found id result i r s)
unfolding complete_found keep
complete_found-Given id r s result i = put-IsGiven id _ s.streams refl

-- A reader that finds a chunk leaves the request in the table, without it.
pub read_leaves :
    (id : ℕ) (r : FetchRequest) (c : Bytes) (cs : List Bytes) (s : FetchState)
    → lookup id s.streams ≡ some r
    → r.chunks ≡ c ∷ cs
    → try_read id s ≡ keep id (record r { chunks = cs }) (gives id c ∷ []) s
unfolding try_read stream_read waits_on read_chunk
read_leaves id r c cs s found chunks =
    let read = λ (o : Option FetchRequest). elim o as (λ _. FetchState × StreamRead) [
      | none ↦ (s, done [])
      | some r ↦ read_chunk id r.chunks r s
    ] in
    let act = λ (x : FetchState × StreamRead). waits_on id x.1 x.0 in
    ap (λ o. act (read o)) found ∙ ap (λ cs. act (read_chunk id cs r s)) chunks

try_read-there :
    (id : ℕ) (cs : List Bytes) (r : FetchRequest) (s : FetchState)
    → lookup id s.streams ≡ some r
    → r.chunks ≡ cs
    → is_empty cs ≡ false
    → lookup id (try_read id s).streams ≢ none
unfolding keep
try_read-there id [] r s found chunks more gone = absurd (cc)
try_read-there id (c ∷ cs) r s found chunks more gone =
    let r' : FetchRequest = record r { chunks = cs } in
    let still : some r' ≡ lookup id (try_read id s).streams = sym (
      ap (λ (u : FetchState). lookup id u.streams) (read_leaves id r c cs s found chunks)
      ∙ put_there id r' s.streams) in
    let both : ◌≡◌ {A = Option FetchRequest} (some r') none = still ∙ gone in absurd (cc)

-- The loop goes on from a request that is still there.
goes_on_from-Sound :
    (id : ℕ) (s : FetchState) → lookup id s.streams ≢ none → Sound s → Sound (goes_on_from id s)
unfolding goes_on_from
goes_on_from-Sound id s still sound =
    option_split Sound (lookup id s.streams) _ _ (λ gone. absurd (still gone)) (λ r found. sound)

module _ (id : ℕ) (r : FetchRequest) (s : FetchState) (found : lookup id s.streams ≡ some r)
    (sound : Sound s) where
  pub resolve_found-Sound :
      (i : Info)
      → 1 ≤ listed id s.pending
      → r.headers_resolved ≡ false
      → Sound (resolve_found id i r s)
  unfolding resolve_found with_info counts
  resolve_found-Sound i waits fresh =
      Sound-keep id (one r.promise) 0 (if r.promise then resolves id ∷ [] else []) s.pending
        s.local_pending s.current s (resolve_effects id r.promise) (λ i _. (refl, refl, refl)) sound
        _ (ground (arith, known id r s found sound))

  pub notify_found-Sound : Sound (notify_found id r s)
  unfolding notify_found keep
  notify_found-Sound =
      let r' : FetchRequest = record r { wait_callback = false } in
      let u = keep id r' (calls id ∷ []) s in
      if_elim Sound ((not (is_empty r.chunks) || r.body_complete) && r.wait_callback) _ s
        (λ here.
          let good = known id r s found sound in
          let given : r'.headers_resolved ≡ true = ground (arith, good, here) in
          let more : is_empty r'.chunks ≡ false = ground (arith, good, here) in
          let kept =
            Sound-quiet id r s found sound r' (calls id ∷ []) (refl, refl, refl, refl, refl, refl)
              (omega arith) (one_call id) in
          goes_on_from-Sound id (try_read id u)
            (try_read-there id r'.chunks r' u (put_there id r' s.streams) refl more)
            (try_read-Sound id u (put-IsGiven id r' s.streams given) kept))
        (λ _. sound)

  pub complete_found-Sound :
      (result : Option Bytes) (i : Info)
      → s.current ≡ none
      → 1 ≤ listed id s.pending
      → Sound (complete_found id result i r s)
  unfolding complete_found with_info counts is_current keep
  complete_found-Sound none i idle waits =
      let off : is_current id s.current ≡ 0 = ap (is_current id) idle in
      Sound-keep id (one (not r.headers_resolved && r.promise)) 0 _ (without_first id s.pending)
        s.local_pending (some (id, r.headers_resolved)) s
        (settle_effects-OneId id none r r.wait_callback (not r.headers_resolved && r.promise))
        (λ j e. (
          ground (arith, listed-without_first j id s.pending),
          refl,
          ap one e ∙ sym (ap (is_current j) idle),
        ))
        sound _
        (ground (arith, known id r s found sound, listed-without_first id id s.pending, ==_refl id))
  complete_found-Sound (some text) i idle waits =
      let off : is_current id s.current ≡ 0 = ap (is_current id) idle in
      Sound-keep id (one (not r.headers_resolved && r.promise)) 0 _ (without_first id s.pending)
        s.local_pending (some (id, r.headers_resolved)) s
        (settle_effects-OneId id (some text) r r.wait_callback
          (not r.headers_resolved && r.promise))
        (λ j e. (
          ground (arith, listed-without_first j id s.pending),
          refl,
          ap one e ∙ sym (ap (is_current j) idle),
        ))
        sound _
        (ground (arith, known id r s found sound, listed-without_first id id s.pending, ==_refl id))

  pub close_found-Sound : (b : Bool) → s.current ≡ some (id, b) → Sound (close_found id b r s)
  unfolding close_found counts is_current
  close_found-Sound b is_it =
      let es = close_effects id r.held in
      let now : is_current id s.current ≡ one (id == id) = ap (is_current id) is_it in
      if_elim Sound b _ _
        (λ streamed.
          Sound-keep id 0 1 _ s.pending s.local_pending none s es
            (λ j e. (refl, refl, sym (ap (is_current j) is_it ∙ ap one e))) sound _
            (ground (arith, known id r s found sound, ==_refl id)))
        (λ whole.
          Sound-drop id 0 1 _ s.pending s.local_pending none s es
            (λ j e. (refl, refl, sym (ap (is_current j) is_it ∙ ap one e))) sound
            (ground (arith, known id r s found sound, ==_refl id)))
