-- ===== src/Fetch/Adding.antt =====
-- A new request of src/api/fetch.cpp keeps what holds of the others.
use brokit.Prelude.{
  ℕ, suc, ◌+◌, ◌≤◌, ◌≡◌, refl, ◌∙◌, Bool, true, false, inl, inr, List, ◌++◌, Option, none, some,
  ◌==◌, ==_refl, if◌then◌else◌, Option-cases, arith,
}
use brokit.Prelude.Table.{lookup, put, lookup-put}
use brokit.Prelude.Tally.{tally-none}
use brokit.Fetch.{FetchRequest, FetchEffect, FetchState}
use brokit.Fetch.Tick.{listed}
use brokit.Fetch.Kept.{
  settles_of, cleans_of, is_dangle, one, issued, Counts, counts, Good, GoodAt, Sound, OneId,
  split_at, keyed-put,
}

if_same : (b : Bool) → ◌≡◌ {A = ℕ} (if b then 0 else 0) 0
if_same true = refl
if_same false = refl

-- An id that was not handed out is of no request.
unissued : (n : Counts) (o : Option FetchRequest) → Good 0 n o → Good 0 n none
unissued n none h = h
unissued n (some r) h = let no : ◌≡◌ {A = ℕ} 0 1 = h.0 in absurd (omega arith)

module _ (s : FetchState) (sound : Sound s) where
  next_free : Good (issued s.next_stream_id s.next_stream_id) (counts s.next_stream_id s) none
  next_free =
      let (_, _, all) = sound in
      let nothing : issued s.next_stream_id s.next_stream_id ≡ 0 = ground arith in
      rw nothing (
        unissued (counts s.next_stream_id s) (lookup s.next_stream_id s.streams)
          (rw nothing at (all s.next_stream_id)))

  -- A request is added under the next id.
  pub add-Sound :
      (multi : Bool) (r : FetchRequest) (ps ls : List ℕ) (es : List FetchEffect)
      → OneId s.next_stream_id es 0 0
      → ((i : ℕ)
          → listed i ps ≡ (if s.next_stream_id == i then one r.easy else 0) + listed i s.pending)
      → ((i : ℕ)
          → listed i ls
            ≡ (if s.next_stream_id == i then one r.local_response else 0)
              + listed i s.local_pending)
      → (one r.easy + one r.local_response ≡ 1)
        × (r.promise ≡ true)
        × (r.headers_resolved ≡ false)
        × (1 ≤ one r.body_complete + one r.easy)
        × ((if r.easy then 0 else r.held) ≡ 0)
        × (r.wait_callback ≡ false)
      → Sound (record s {
        multi = multi;
        next_stream_id = suc s.next_stream_id;
        streams = put s.next_stream_id r s.streams;
        pending = ps;
        local_pending = ls;
        log = es ++ s.log;
      })
  unfolding counts
  add-Sound multi r ps ls es effects pending parked new =
      let (first, no_dangle, all) = sound in
      let (of_id, none_dangle) = effects in
      let id = s.next_stream_id in
      let free = next_free in
      (
        omega arith,
        tally-none is_dangle es s.log none_dangle ∙ no_dangle,
        λ i.
            split_at
              (GoodAt (record s {
                multi = multi;
                next_stream_id = suc id;
                streams = put id r s.streams;
                pending = ps;
                local_pending = ls;
                log = es ++ s.log;
              }))
              id i
              (let now : issued id (suc id) ≡ 1 = ground arith in
                rw
                  (
                    lookup-put id id r s.streams,
                    keyed-put id id r s.streams,
                    ==_refl id,
                    now,
                    tally-none (settles_of id) es s.log ((of_id id).0 ∙ if_same (id == id)),
                    tally-none (cleans_of id) es s.log ((of_id id).1 ∙ if_same (id == id)),
                  )
                  (ground (arith, free, new, pending id, parked id, ==_refl id)))
              (λ e.
                let older : issued i (suc id) ≡ issued i id = ground arith in
                let waiting : listed i ps ≡ listed i s.pending = ground (arith, pending i) in
                let local : listed i ls ≡ listed i s.local_pending = ground (arith, parked i) in
                rw
                  (
                    lookup-put id i r s.streams,
                    keyed-put i id r s.streams,
                    e,
                    older,
                    tally-none (settles_of i) es s.log ((of_id i).0 ∙ if_same (id == i)),
                    tally-none (cleans_of i) es s.log ((of_id i).1 ∙ if_same (id == i)),
                    waiting,
                    local,
                  )
                  (all i)),
      )

  -- An id is handed out, and there is no request.
  pub skip-Sound :
      (es : List FetchEffect)
      → OneId s.next_stream_id es 0 0
      → Sound (record s { next_stream_id = suc s.next_stream_id; log = es ++ s.log })
  unfolding counts
  skip-Sound es effects =
      let (first, no_dangle, all) = sound in
      let (of_id, none_dangle) = effects in
      let id = s.next_stream_id in
      (
        omega arith,
        tally-none is_dangle es s.log none_dangle ∙ no_dangle,
        λ i.
            let settled = tally-none (settles_of i) es s.log ((of_id i).0 ∙ if_same (id == i)) in
            let cleaned = tally-none (cleans_of i) es s.log ((of_id i).1 ∙ if_same (id == i)) in
            rw (settled, cleaned)
              (elim (Option-cases (lookup i s.streams)) [
                | inl gone ↦
                    let g : Good (issued i id) (counts i s) none = rw gone at (all i) in
                    rw gone (ground (arith, g))
                | inr (r, is_it) ↦
                    let g : Good (issued i id) (counts i s) (some r) = rw is_it at (all i) in
                    rw is_it (ground (arith, g))
              ]),
      )
