-- ===== src/Fetch/Kept.antt =====
-- What holds of each request of src/api/fetch.cpp, and a change of one of them.
use mathlib.Core.Path.{subst}
use brokit.Prelude.{
  ℕ, suc, ◌+◌, ◌-◌, ◌≤◌, ◌<◌, ◌≡◌, refl, ap, ◌∙◌, Bool, true, false, ◌&&◌, inl, inr, List, [], ◌∷◌,
  ◌++◌, Option, none, some, ltb, ◌==◌, ==_refl, if◌then◌else◌, Bool-cases, arith,
}
use brokit.Prelude.Table.{lookup, put, remove, lookup-put, lookup-remove}
use brokit.Fetch.{
  FetchRequest, FetchEffect, cleans, resolves, rejects, dangles, FetchState, without_first, keep,
  drop_request,
}
use brokit.Prelude.Tally.{tally, tally-append, tally-none}
use brokit.Fetch.Tick.{listed}

abbrev pub one : Bool → ℕ
one true = 1
one false = 0

unfoldable pub settles_of : ℕ → FetchEffect → Bool
settles_of i (resolves id) = id == i
settles_of i (rejects id e) = id == i
settles_of i _ = false

unfoldable pub cleans_of : ℕ → FetchEffect → Bool
cleans_of i (cleans id) = id == i
cleans_of i _ = false

unfoldable pub is_dangle : FetchEffect → Bool
is_dangle (dangles id) = true
is_dangle _ = false

-- An id that was handed out.
abbrev pub issued : (i next : ℕ) → ℕ
issued i next = one (ltb 0 i && ltb i next)

unfoldable pub is_current : ℕ → Option (ℕ × Bool) → ℕ
is_current i none = 0
is_current i (some (id, b)) = one (id == i)

-- How often an id is a key of the table.
unfoldable pub keyed : ℕ → List (ℕ × FetchRequest) → ℕ
keyed i [] = 0
keyed i ((id, r) ∷ m) = let rest = keyed i m in if id == i then suc rest else rest

-- How often an id is among those that are pending, those that wait for the next tick, and the keys; whether it is
-- the one that is being completed; how often its promise was settled and its handle cleaned up.
pub record Counts : Type 0 where
  pub pending : ℕ
  pub parked : ℕ
  pub keys : ℕ
  pub current : ℕ
  pub settled : ℕ
  pub cleaned : ℕ

unfoldable pub counts : ℕ → FetchState → Counts
counts i s = record {
  pending = listed i s.pending;
  parked = listed i s.local_pending;
  keys = keyed i s.streams;
  current = is_current i s.current;
  settled = tally (settles_of i) s.log;
  cleaned = tally (cleans_of i) s.log;
}

-- What holds of an id.
abbrev pub Good : (issued : ℕ) → Counts → Option FetchRequest → Type 0
Good issued n none =
    (n.pending ≡ 0)
    × (n.parked ≡ 0)
    × (n.current ≡ 0)
    × (n.keys ≡ 0)
    × (n.settled ≤ issued)
    × (n.cleaned ≤ issued)
Good issued n (some r) =
    (issued ≡ 1)
    × (n.pending + n.current ≡ one r.easy)
    × (n.parked ≡ one r.local_response)
    × (n.keys ≡ 1)
    × (n.settled + one r.promise ≡ 1)
    × (n.cleaned + one r.easy ≤ 1)
    × (one r.promise + one r.headers_resolved ≡ 1)
    × (one r.promise + n.current ≤ one r.easy + one r.local_response)
    × (one r.easy + one r.local_response ≤ 1)
    × (one r.local_response ≤ one r.promise)
    × (one r.promise + n.current ≤ 1)
    × (1 ≤ one r.body_complete + n.pending)
    × ((if r.easy then 0 else r.held) ≡ 0)
    × (one r.wait_callback ≤ one r.headers_resolved)
    × (one r.wait_callback + one r.body_complete ≤ 1)

abbrev pub GoodAt : FetchState → ℕ → Type 0
GoodAt s i = Good (issued i s.next_stream_id) (counts i s) (lookup i s.streams)

-- In every state: no pointer to a request that is gone was followed, and every id is as it should be.
abbrev pub Sound : FetchState → Type 0
Sound s = (0 < s.next_stream_id) × (tally is_dangle s.log ≡ 0) × ((i : ℕ) → GoodAt s i)

pub listed-without_first :
    (i id : ℕ) (js : List ℕ)
    → listed i (without_first id js) ≡ (if id == i then listed i js - 1 else listed i js)
unfolding listed without_first
listed-without_first i id [] = ground arith
listed-without_first i id (j ∷ js) = ground (arith, listed-without_first i id js)

pub listed-append : (i : ℕ) (js ks : List ℕ) → listed i (js ++ ks) ≡ listed i js + listed i ks
unfolding listed
listed-append i [] ks = omega arith
listed-append i (j ∷ js) ks = ground (arith, listed-append i js ks)

pub keyed-remove :
    (i id : ℕ) (m : List (ℕ × FetchRequest))
    → keyed i (remove id m) ≡ (if id == i then 0 else keyed i m)
unfolding keyed remove
keyed-remove i id [] = ground arith
keyed-remove i id ((j, r) ∷ m) = ground (arith, keyed-remove i id m)

pub keyed-put :
    (i id : ℕ) (r : FetchRequest) (m : List (ℕ × FetchRequest))
    → keyed i (put id r m) ≡ (if id == i then 1 else keyed i m)
unfolding keyed put
keyed-put i id r m = ground (arith, keyed-remove i id m)

-- A statement about every number, by the one that is meant and the others.
pub split_at {ℓ} : (P : ℕ → Type ℓ) (id i : ℕ) → P id → ((id == i) ≡ false → P i) → P i
split_at P id i here else_where = elim (Bool-cases (id == i)) [
  | inl e ↦ let same : id ≡ i = ground arith in subst P same here
  | inr e ↦ else_where e
]

-- The effects are of one request: how often they settle and clean it up.
abbrev pub OneId : (id : ℕ) → List FetchEffect → (a c : ℕ) → Type 0
OneId id es a c =
    ((i : ℕ)
      → (tally (settles_of i) es ≡ (if id == i then a else 0))
        × (tally (cleans_of i) es ≡ (if id == i then c else 0)))
    × (tally is_dangle es ≡ 0)

-- The counts of an id behind a change.
abbrev pub changed :
    (id a c : ℕ) (ps ls : List ℕ) (cur : Option (ℕ × Bool)) (keys : ℕ) → FetchState → Counts
changed id a c ps ls cur keys s = record {
  pending = listed id ps;
  parked = listed id ls;
  keys = keys;
  current = is_current id cur;
  settled = a + tally (settles_of id) s.log;
  cleaned = c + tally (cleans_of id) s.log;
}

-- A change of one request, of the lists at its id, and of what is current.
module _ (id a c : ℕ) (es : List FetchEffect) (ps ls : List ℕ) (cur : Option (ℕ × Bool))
    (s : FetchState) (effects : OneId id es a c)
    (same : (i : ℕ)
      → (id == i) ≡ false
      → (listed i ps ≡ listed i s.pending)
        × (listed i ls ≡ listed i s.local_pending)
        × (is_current i cur ≡ is_current i s.current))
    (sound : Sound s) where
  -- The table is another, the same but at the id.
  Sound-change :
      (m : List (ℕ × FetchRequest)) (o : Option FetchRequest) (keys : ℕ)
      → (lookup id m ≡ o) × (keyed id m ≡ keys)
      → ((i : ℕ)
          → (id == i) ≡ false
          → (lookup i m ≡ lookup i s.streams) × (keyed i m ≡ keyed i s.streams))
      → Good (issued id s.next_stream_id) (changed id a c ps ls cur keys s) o
      → Sound (record s {
        streams = m;
        pending = ps;
        local_pending = ls;
        current = cur;
        log = es ++ s.log;
      })
  unfolding counts
  Sound-change m o keys (here, once) others good =
      let (first, no_dangle, all) = sound in
      let (of_id, none_dangle) = effects in
      (
        first,
        tally-none is_dangle es s.log none_dangle ∙ no_dangle,
        λ i.
            split_at
              (GoodAt (record s {
                streams = m;
                pending = ps;
                local_pending = ls;
                current = cur;
                log = es ++ s.log;
              }))
              id i
              (rw
                (
                  here,
                  once,
                  tally-append (settles_of id) es s.log,
                  tally-append (cleans_of id) es s.log,
                  (of_id id).0 ∙ ap (λ b. if b then a else 0) (==_refl id),
                  (of_id id).1 ∙ ap (λ b. if b then c else 0) (==_refl id),
                )
                good)
              (λ e.
                let w = (of_id i).0 ∙ ap (λ b. if b then a else 0) e in
                let d = (of_id i).1 ∙ ap (λ b. if b then c else 0) e in
                let (p, l, k) = same i e in
                let (there, count) = others i e in
                rw
                  (
                    there,
                    count,
                    tally-none (settles_of i) es s.log w,
                    tally-none (cleans_of i) es s.log d,
                    p,
                    l,
                    k,
                  )
                  (all i)),
      )

  pub Sound-keep :
      (r : FetchRequest)
      → Good (issued id s.next_stream_id) (changed id a c ps ls cur 1 s) (some r)
      → Sound (keep id r es (record s { pending = ps; local_pending = ls; current = cur }))
  unfolding keep
  Sound-keep r =
      Sound-change (put id r s.streams) (some r) 1
        (rw (lookup-put id id r s.streams, keyed-put id id r s.streams, ==_refl id) (refl, refl))
        (λ i e. rw (lookup-put id i r s.streams, keyed-put i id r s.streams, e) (refl, refl))

  pub Sound-drop :
      Good (issued id s.next_stream_id) (changed id a c ps ls cur 0 s) none
      → Sound (drop_request id es (record s { pending = ps; local_pending = ls; current = cur }))
  unfolding drop_request
  Sound-drop =
      Sound-change (remove id s.streams) none 0
        (rw (lookup-remove id id s.streams, keyed-remove id id s.streams, ==_refl id) (refl, refl))
        (λ i e. rw (lookup-remove id i s.streams, keyed-remove i id s.streams, e) (refl, refl))
