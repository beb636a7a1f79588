-- ===== src/Fetch/Sound.antt =====
-- The natives of src/api/fetch.cpp keep what holds of the requests.
use brokit.Prelude.{
  ℕ, ◌-◌, ◌≡◌, refl, ap, ◌∙◌, Bool, true, false, not, ◌&&◌, List, [], ◌∷◌, Option, none, some,
  Bytes, ◌==◌, ==_refl, if◌then◌else◌, if_elim, option_split, sym, ◌≤◌, arith,
}
use brokit.Prelude.Table.{lookup, put, lookup-put}
use brokit.Prelude.Tally.{tally}
use brokit.Fetch.{FetchRequest, FetchEffect, gives, FetchState, released, without_first, keep}
use mathlib.Core.Path.{subst}
use brokit.Fetch.Natives.{
  StreamRead, read_chunk, stream_wait, waits_on, stream_read, try_read, call_reader, abort_effects,
  abort_kept, erase_found, abort_found,
}
use brokit.Fetch.Tick.{listed}
use brokit.Fetch.Kept.{
  settles_of, cleans_of, is_dangle, one, issued, is_current, counts, Good, Sound, OneId,
  listed-without_first, Sound-keep, Sound-drop,
}

-- What a request that is there is known by.
module _ (id : ℕ) (r : FetchRequest) (s : FetchState) (found : lookup id s.streams ≡ some r)
    (sound : Sound s) where
  pub known : Good (issued id s.next_stream_id) (counts id s) (some r)
  known = let (_, _, all) = sound in rw found at (all id)

  -- A request is written back that waits, transfers and ends as it did.
  pub Sound-quiet :
      (r' : FetchRequest) (es : List FetchEffect)
      → (r'.easy ≡ r.easy)
        × (r'.promise ≡ r.promise)
        × (r'.headers_resolved ≡ r.headers_resolved)
        × (r'.body_complete ≡ r.body_complete)
        × (r'.local_response ≡ r.local_response)
        × (r'.held ≡ r.held)
      → one r'.wait_callback ≤ one r.wait_callback
      → OneId id es 0 0
      → Sound (keep id r' es s)
  unfolding counts
  Sound-quiet r' es (easy, promise, resolved, complete, parked, held) waits effects =
      Sound-keep id 0 0 es s.pending s.local_pending s.current s effects (λ i _. (refl, refl, refl))
        sound r'
        (rw (easy, promise, resolved, complete, parked, held) (ground (arith, known, waits)))

pub no_effects : (id : ℕ) → OneId id [] 0 0
unfolding tally
no_effects id = (λ i. ground arith, refl)

one_gift : (id : ℕ) (c : Bytes) → OneId id (gives id c ∷ []) 0 0
unfolding tally settles_of cleans_of is_dangle
one_gift id c = (λ i. ground arith, refl)

pub release_effects : (id held : ℕ) → OneId id (released id held) 0 0
unfolding tally settles_of cleans_of is_dangle released
release_effects id held = (λ i. ground arith, ground arith)

pub read_chunk-Sound :
    (id : ℕ) (cs : List Bytes) (r : FetchRequest) (s : FetchState)
    → lookup id s.streams ≡ some r
    → Sound s
    → Sound (read_chunk id cs r s).0
unfolding read_chunk counts
read_chunk-Sound id (c ∷ cs) r s found sound =
    Sound-quiet id r s found sound (record r { chunks = cs }) (gives id c ∷ [])
      (refl, refl, refl, refl, refl, refl) (omega arith) (one_gift id c)
read_chunk-Sound id [] r s found sound =
    if_elim (λ (x : FetchState × StreamRead). Sound x.0) (not r.body_complete) _ _ (λ _. sound)
      (λ complete.
        if_elim (λ (x : FetchState × StreamRead). Sound x.0) (r.headers_resolved && not r.easy) _ _
          (λ over.
            Sound-drop id 0 0 (released id r.held) s.pending s.local_pending s.current s
              (release_effects id r.held) (λ i _. (refl, refl, refl)) sound
              (ground (arith, known id r s found sound)))
          (λ _. sound))

-- The reader is called of a request whose head was given to the script.
try_chunk-Sound :
    (id : ℕ) (cs : List Bytes) (r : FetchRequest) (s : FetchState)
    → lookup id s.streams ≡ some r
    → r.headers_resolved ≡ true
    → Sound s
    → let (s', x) = read_chunk id cs r s in Sound (waits_on id x s')
unfolding read_chunk waits_on stream_wait counts
try_chunk-Sound id (c ∷ cs) r s found given sound = read_chunk-Sound id (c ∷ cs) r s found sound
try_chunk-Sound id [] r s found given sound =
    let P : FetchState × StreamRead → Type 0 = λ x. Sound (waits_on id x.1 x.0) in
    if_elim P (not r.body_complete) _ _
      (λ open_yet.
        option_split Sound (lookup id s.streams) _ _ (λ _. sound)
          (λ x is_x.
            let both : some r ≡ some x = sym found ∙ is_x in
            let same : r ≡ x = cc in
            subst (λ x. Sound (keep id (record x { wait_callback = true }) [] s)) same
              (Sound-keep id 0 0 [] s.pending s.local_pending s.current s (no_effects id)
                (λ i _. (refl, refl, refl)) sound _ (ground (arith, known id r s found sound)))))
      (λ complete.
        if_elim P (r.headers_resolved && not r.easy) _ _
          (λ over.
            Sound-drop id 0 0 (released id r.held) s.pending s.local_pending s.current s
              (release_effects id r.held) (λ i _. (refl, refl, refl)) sound
              (ground (arith, known id r s found sound)))
          (λ _. sound))

-- What the script may read: a request whose head it was given, or one that is gone.
abbrev pub IsGiven : Option FetchRequest → Type 0
IsGiven none = 0 ≤ 0
IsGiven (some r) = r.headers_resolved ≡ true

abbrev pub Given : ℕ → FetchState → Type 0
Given id s = IsGiven (lookup id s.streams)

pub try_read-Sound : (id : ℕ) (s : FetchState) → Given id s → Sound s → Sound (try_read id s)
unfolding try_read stream_read waits_on
try_read-Sound id s given sound =
    option_split (λ (x : FetchState × StreamRead). Sound (waits_on id x.1 x.0))
      (lookup id s.streams) _ _ (λ _. sound)
      (λ r found. try_chunk-Sound id r.chunks r s found (subst IsGiven found given) sound)

abort_effects-OneId :
    (id : ℕ) (refusal : Bytes) (held : ℕ) (r : FetchRequest)
    → OneId id
        (abort_effects id refusal held r)
        (one (r.promise && not r.headers_resolved))
        (one r.easy)
unfolding abort_effects tally settles_of cleans_of is_dangle released
abort_effects-OneId id refusal held r = (λ i. ground arith, ground arith)

listed-if :
    (b : Bool) (i id : ℕ) (js : List ℕ)
    → listed i (if b then without_first id js else js)
      ≡ (if b && id == i then listed i js - 1 else listed i js)
listed-if true i id js = listed-without_first i id js
listed-if false i id js = refl

abort_kept-Sound :
    (id : ℕ) (refusal : Bytes) (held : ℕ) (revoked : Bytes) (r : FetchRequest) (s : FetchState)
    → s.current ≡ none
    → lookup id s.streams ≡ some r
    → Sound s
    → Sound (abort_kept id refusal held revoked r s)
unfolding abort_kept counts is_current
abort_kept-Sound id refusal held revoked r s idle found sound =
    let es = abort_effects id refusal held r in
    let ps = if r.easy then without_first id s.pending else s.pending in
    let ls = without_first id s.local_pending in
    let settles = one (r.promise && not r.headers_resolved) in
    let effects = abort_effects-OneId id refusal held r in
    let was = known id r s found sound in
    let off : is_current id s.current ≡ 0 = ap (is_current id) idle in
    let l1 : listed id ls ≡ listed id s.local_pending - 1 =
      listed-without_first id id s.local_pending
      ∙ ap (λ b. if b then listed id s.local_pending - 1 else listed id s.local_pending)
          (==_refl id) in
    let p1 : listed id ps ≡ 0 = ground (arith, was, listed-if r.easy id id s.pending, ==_refl id) in
    let same : (i : ℕ)
        → (id == i) ≡ false
        → (listed i ps ≡ listed i s.pending)
          × (listed i ls ≡ listed i s.local_pending)
          × (is_current i s.current ≡ is_current i s.current) =
      λ i e. (
        ground (arith, listed-if r.easy i id s.pending),
        listed-without_first i id s.local_pending
            ∙ ap (λ b. if b then listed i s.local_pending - 1 else listed i s.local_pending) e,
        refl,
      ) in
    Sound-keep id settles (one r.easy) es ps ls s.current s effects same sound _
      (ground (arith, was, l1, p1))

-- Behind put the request is there.
pub put_there :
    (id : ℕ) (r : FetchRequest) (m : List (ℕ × FetchRequest)) → lookup id (put id r m) ≡ some r
put_there id r m = rw (lookup-put id id r m, ==_refl id) refl

pub put-IsGiven :
    (id : ℕ) (r : FetchRequest) (m : List (ℕ × FetchRequest))
    → r.headers_resolved ≡ true
    → IsGiven (lookup id (put id r m))
put-IsGiven id r m h = subst IsGiven (sym (put_there id r m)) h

-- What was found before is erased, if it is still there, transfers nothing and is not parked.
erase_found-Sound :
    (id : ℕ) (x : FetchRequest) (u : FetchState)
    → lookup id u.streams ≡ some x
    → (x.easy ≡ false) × (x.local_response ≡ false)
    → Sound u
    → Sound (erase_found id u)
unfolding erase_found counts
erase_found-Sound id x u found (easy, parked) sound =
    option_split Sound (lookup id u.streams) _ _
      (λ gone.
        let no_way : ◌≡◌ {A = Option FetchRequest} none (some x) = sym gone ∙ found in absurd (cc))
      (λ y is_y.
        let both : some x ≡ some y = sym found ∙ is_y in
        let same : x ≡ y = cc in
        Sound-drop id 0 0 (released id y.held) u.pending u.local_pending u.current u
          (release_effects id y.held) (λ i _. (refl, refl, refl)) sound
          (ground (arith, known id x u found sound, easy, parked)))

-- A reader that is called, of a request that was written back.
pub call_reader-Sound :
    (waits : Bool) (id : ℕ) (s : FetchState) → Given id s → Sound s → Sound (call_reader waits id s)
unfolding call_reader
call_reader-Sound true id s given sound = try_read-Sound id s given sound
call_reader-Sound false id s given sound = sound

pub abort_found-Sound :
    (id : ℕ) (refusal : Bytes) (held : ℕ) (revoked : Bytes) (r : FetchRequest) (s : FetchState)
    → s.current ≡ none
    → lookup id s.streams ≡ some r
    → Sound s
    → Sound (abort_found id refusal held revoked r s)
unfolding abort_found call_reader abort_kept keep counts
abort_found-Sound id refusal held revoked r s idle found sound =
    let u = abort_kept id refusal held revoked r s in
    let kept = abort_kept-Sound id refusal held revoked r s idle found sound in
    let r' : FetchRequest = record r {
      easy = false;
      held = 0;
      revoked_by = revoked;
      local_response = false;
      body_complete = true;
      chunks = [];
      promise = if r.headers_resolved then r.promise else false;
      headers_resolved = true;
      wait_callback = false;
    } in
    if_elim Sound r.headers_resolved _ _
      (λ resolved. call_reader-Sound r.wait_callback id u (put-IsGiven id r' s.streams refl) kept)
      (λ fresh.
        let quiet : r.wait_callback ≡ false = ground (arith, known id r s found sound, fresh) in
        subst (λ b. Sound (erase_found id (call_reader b id u))) (sym quiet)
          (erase_found-Sound id r' u (put_there id r' s.streams) (refl, refl) kept))
