-- ===== src/Fetch/Ends.antt =====
-- A transfer of src/api/fetch.cpp that libcurl is done with ends.
use mathlib.Core.Path.{subst}
use brokit.Prelude.{
  ℕ, ◌≤◌, ◌≡◌, refl, sym, ap, ◌∙◌, Bool, true, false, [], ◌∷◌, ◌++◌, Option, none, some, Bytes,
  ◌==◌, ==_refl, if◌then◌else◌, if_elim, List, arith,
}
use brokit.Prelude.Table.{lookup, lookup-put, lookup-remove}
use brokit.Prelude.Tally.{tally, tally-append}
use brokit.Fetch.{FetchRequest, cleans, dangles, FetchState, released, keep, drop_request}
use brokit.Fetch.Tick.{Info, complete_found, complete, listed, close_found, close_current, close}
use brokit.Fetch.Kept.{settles_of, cleans_of, counts, Sound, listed-without_first}
use brokit.Fetch.Sound.{known}
use brokit.Fetch.Rounds.{close_effects}
use brokit.Fetch.Tick.{with_info, settle_effects}
use brokit.Fetch.Reach.{Reach, Idle-Reach, Sound-Reach}
use brokit.Fetch.Idle.{call_reader-current}
use brokit.Fetch.Natives.{
  StreamRead, done, read_chunk, stream_read, waits_on, try_read, call_reader,
}
use brokit.Fetch.Rounds.{read_leaves}
use brokit.Fetch.Sound.{put_there}
use brokit.Fetch.Tick.{finish}

abbrev pub but_first : List Bytes → List Bytes
but_first [] = []
but_first (c ∷ cs) = cs

-- What is left of a request that ended: nothing, or, when its head was given to the script, the chunks that are not read
-- yet, but for the first one if a reader waited, without a handle and a grant.
abbrev pub Left : FetchRequest → Option FetchRequest → Type 0
Left r none = r.headers_resolved ≡ false
Left r (some r') =
    (r.headers_resolved ≡ true)
    × (r'.chunks ≡ (if r.wait_callback then but_first r.chunks else r.chunks))
    × (r'.body_complete ≡ true)
    × (r'.easy ≡ false)
    × (r'.held ≡ 0)

abbrev pub Ended : (id : ℕ) → FetchRequest → FetchState → Type 0
Ended id r s =
    (tally (settles_of id) s.log ≡ 1)
    × (tally (cleans_of id) s.log ≡ 1)
    × (listed id s.pending ≡ 0)
    × (s.current ≡ none)
    × Left r (lookup id s.streams)

-- What is written back of a request that libcurl is done with.
abbrev after : Option Bytes → Info → FetchRequest → FetchRequest
after result i r =
    let known : FetchRequest = elim result [ none ↦ with_info i r | some text ↦ r ] in
    record (if r.headers_resolved then r else known) {
      body_complete = true;
      promise = if r.headers_resolved then r.promise else false;
      headers_resolved = true;
      wait_callback = false;
    }

after_keeps :
    (result : Option Bytes) (i : Info) (r : FetchRequest)
    → ((after result i r).chunks ≡ r.chunks) × ((after result i r).easy ≡ r.easy)
unfolding with_info
after_keeps none i r = (ground arith, ground arith)
after_keeps (some text) i r = (ground arith, ground arith)

-- The end of phase 3, for a request whose promise is settled.
close_found-Ended :
    (id : ℕ) (b : Bool) (r r' : FetchRequest) (u : FetchState)
    → (tally (settles_of id) u.log ≡ 1)
      × (tally (cleans_of id) u.log ≡ 0)
      × (listed id u.pending ≡ 0)
    → (r.headers_resolved ≡ b)
      × (r'.chunks ≡ (if r.wait_callback then but_first r.chunks else r.chunks))
      × (r'.body_complete ≡ true)
    → Ended id r (close_found id b r' u)
unfolding close_found keep drop_request
close_found-Ended id b r r' u (settled, cleaned, off) (streamed, chunks, complete) =
    let es = released id r'.held ++ cleans id ∷ [] in
    let (effects, _) = close_effects id r'.held in
    let cleans_now : tally (cleans_of id) (es ++ u.log) ≡ 1 =
      ground (arith, tally-append (cleans_of id) es u.log, effects id, cleaned, ==_refl id) in
    let settled_still : tally (settles_of id) (es ++ u.log) ≡ 1 =
      ground (arith, tally-append (settles_of id) es u.log, effects id, settled, ==_refl id) in
    let r'' : FetchRequest = record r' { easy = false; held = 0 } in
    if_elim (λ v. r.headers_resolved ≡ b → Ended id r v) b _ _
      (λ yes e. (
        settled_still,
        cleans_now,
        off,
        refl,
        rw (lookup-put id id r'' u.streams, ==_refl id) (e ∙ yes, chunks, complete, refl, refl),
      ))
      (λ none_yet e. (
        settled_still,
        cleans_now,
        off,
        refl,
        rw (lookup-remove id id u.streams, ==_refl id) (e ∙ none_yet),
      ))
      streamed

-- What the reader leaves that phase 3 calls: the request, with its body complete, without the chunk that was read.
abbrev Reads : (waits : Bool) (id : ℕ) → FetchRequest → (u v : FetchState) → Type 0
Reads waits id x u v =
    (x' : FetchRequest) × (lookup id v.streams ≡ some x')
    × (x'.chunks ≡ (if waits then but_first x.chunks else x.chunks))
    × (x'.body_complete ≡ true)
    × (tally (settles_of id) v.log ≡ tally (settles_of id) u.log)
    × (tally (cleans_of id) v.log ≡ tally (cleans_of id) u.log)
    × (v.pending ≡ u.pending)

read_none :
    (id : ℕ) (x : FetchRequest) (u : FetchState)
    → lookup id u.streams ≡ some x
    → x.chunks ≡ []
    → (x.body_complete ≡ true) × (x.easy ≡ true) × (x.headers_resolved ≡ true)
    → try_read id u ≡ u
unfolding try_read stream_read waits_on read_chunk
read_none id x u found chunks (complete, easy, given) =
    let read = λ (o : Option FetchRequest). elim o as (λ _. FetchState × StreamRead) [
      | none ↦ (u, done [])
      | some r ↦ read_chunk id r.chunks r u
    ] in
    let act = λ (x : FetchState × StreamRead). waits_on id x.1 x.0 in
    ap (λ o. act (read o)) found
    ∙ ap (λ cs. act (read_chunk id cs x u)) chunks
    ∙ rw (complete, easy, given) refl

try_read-Reads :
    (id : ℕ) (cs : List Bytes) (x : FetchRequest) (u : FetchState)
    → lookup id u.streams ≡ some x
    → x.chunks ≡ cs
    → (x.body_complete ≡ true) × (x.easy ≡ true) × (x.headers_resolved ≡ true)
    → Reads true id x u (try_read id u)
unfolding keep tally settles_of cleans_of
try_read-Reads id [] x u found chunks all =
    subst (Reads true id x u) (sym (read_none id x u found chunks all))
      (x, found, rw chunks refl, all.0, refl, refl, refl)
try_read-Reads id (c ∷ cs) x u found chunks all =
    let x' : FetchRequest = record x { chunks = cs } in
    subst (Reads true id x u) (sym (read_leaves id x c cs u found chunks))
      (x', put_there id x' u.streams, ap (but_first) (sym chunks), all.0, refl, refl, refl)

call_reader-Reads :
    (waits : Bool) (id : ℕ) (x : FetchRequest) (u : FetchState)
    → lookup id u.streams ≡ some x
    → (x.body_complete ≡ true) × (x.easy ≡ true) × (x.headers_resolved ≡ true)
    → Reads waits id x u (call_reader waits id u)
unfolding call_reader
call_reader-Reads true id x u found all = try_read-Reads id x.chunks x u found refl all
call_reader-Reads false id x u found all = (x, found, refl, all.0, refl, refl, refl)

module _ (s : FetchState) (id : ℕ) (r : FetchRequest) (sound : Sound s) (idle : s.current ≡ none)
    (found : lookup id s.streams ≡ some r) (waits : 1 ≤ listed id s.pending) where
  completes_it :
      (result : Option Bytes) (i : Info)
      → complete id result i s ≡ call_reader r.wait_callback id (complete_found id result i r s)
  unfolding complete
  completes_it result i =
      let pick = λ (o : Option FetchRequest). elim o as (λ _. FetchState) [
        | none ↦ if listed id s.pending == 0 then s else record s { log = dangles id ∷ s.log }
        | some r ↦
            if listed id s.pending == 0
            then s
            else call_reader r.wait_callback id (complete_found id result i r s)
      ] in
      let some_waits : (listed id s.pending == 0) ≡ false = ground arith in
      ap pick found
      ∙ ap (λ b. if b then s else call_reader r.wait_callback id (complete_found id result i r s))
          some_waits

  has_easy : r.easy ≡ true
  unfolding counts
  has_easy = ground (arith, known id r s found sound)

  log_settles :
      (result : Option Bytes) (i : Info)
      → let u = complete_found id result i r s in
        (tally (settles_of id) u.log ≡ 1) × (tally (cleans_of id) u.log ≡ 0)
  unfolding complete_found keep settle_effects tally settles_of cleans_of counts
  log_settles none i = (
    ground (arith, known id r s found sound, ==_refl id),
    ground (arith, known id r s found sound, ==_refl id),
  )
  log_settles (some text) i = (
    ground (arith, known id r s found sound, ==_refl id),
    ground (arith, known id r s found sound, ==_refl id),
  )

  not_listed :
      (result : Option Bytes) (i : Info) → listed id (complete_found id result i r s).pending ≡ 0
  unfolding complete_found counts
  not_listed result i =
      ground (arith, known id r s found sound, listed-without_first id id s.pending, ==_refl id)

close_current-found :
    (id : ℕ) (b : Bool) (x : FetchRequest) (v : FetchState)
    → v.current ≡ some (id, b)
    → lookup id v.streams ≡ some x
    → close v ≡ close_found id b x v
unfolding close close_current
close_current-found id b x v now found =
    let pick = λ (o : Option FetchRequest). elim o as (λ _. FetchState) [
      | none ↦ record v { current = none; log = dangles id ∷ v.log }
      | some x ↦ close_found id b x v
    ] in
    ap (λ o. close_current o v) now ∙ ap pick found

-- Through every history, when libcurl reports that a transfer that is pending is over, with a response or with an error,
-- then behind phase 3 of the tick, in which the reader that waits is called, the promise of fetch is settled, once, its
-- handle is cleaned up, once, the request is not pending, and it is erased, or, if its head was given to the script already,
-- kept without a handle and a grant, with its body marked complete and the chunks that it had, but for the first of them if a
-- reader waited.
pub finish-Ended :
    (s : FetchState) (id : ℕ) (r : FetchRequest) (result : Option Bytes) (i : Info)
    → Reach s
    → lookup id s.streams ≡ some r
    → 1 ≤ listed id s.pending
    → Ended id r (finish id result i s)
unfolding finish complete_found keep
finish-Ended s id r result i reach found waits =
    let sound = Sound-Reach s reach in
    let idle = Idle-Reach s reach in
    let (settled, cleaned) = log_settles s id r sound idle found waits result i in
    let off = not_listed s id r sound idle found waits result i in
    let u = complete_found id result i r s in
    let v = call_reader r.wait_callback id u in
    let (same_chunks, easy) = after_keeps result i r in
    let (x, there, chunks, complete, same_settles, same_cleans, pending) =
      call_reader-Reads r.wait_callback id (after result i r) u
        (put_there id (after result i r) s.streams)
        (refl, easy ∙ has_easy s id r sound idle found waits, refl) in
    let now : v.current ≡ some (id, r.headers_resolved) =
      call_reader-current r.wait_callback id u in
    let way : finish id result i s ≡ close_found id r.headers_resolved x v =
      ap close (completes_it s id r sound idle found waits result i)
      ∙ close_current-found id r.headers_resolved x v now there in
    subst (Ended id r) (sym way) (
      close_found-Ended id r.headers_resolved r x v
        (same_settles ∙ settled, same_cleans ∙ cleaned, ap (listed id) pending ∙ off)
        (
          refl,
          chunks ∙ ap (λ cs. if r.wait_callback then but_first cs else cs) same_chunks,
          complete,
        ))
