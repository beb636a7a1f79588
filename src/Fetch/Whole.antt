-- ===== src/Fetch/Whole.antt =====
-- The parts of js_fetch_tick and the teardown of src/api/fetch.cpp keep what holds of the requests.
use mathlib.Core.Path.{subst}
use brokit.Prelude.{
  ℕ, ◌+◌, ◌≤◌, ◌≡◌, refl, sym, ap, ◌∙◌, Bool, true, false, not, ◌&&◌, inl, inr, List, [], ◌∷◌, ◌++◌,
  Option, none, some, Bytes, ◌==◌, ==_refl, if_elim, option_split, Option-cases, arith,
}
use brokit.Prelude.Table.{lookup}
use brokit.Prelude.Tally.{tally, tally-append, tally-none}
use brokit.Fetch.{FetchRequest, FetchState, released, keep, drop_request}
use brokit.Fetch.Tick.{
  complete_found, Callback, called_back, call_back, Info, resolve_found, resolve_one, resolve_all,
  settle_found, settle_ids, settle_local, complete, listed, close_current, close, torn_down,
  destroyed, uninstall_fetch,
}
use brokit.Fetch.Kept.{
  settles_of, cleans_of, is_dangle, one, issued, is_current, counts, keyed, Good, Sound, Sound-drop,
}
use brokit.Fetch.Sound.{call_reader-Sound, known, Sound-quiet, no_effects}
use brokit.Fetch.Rounds.{
  called_back-same, called_back-waits, complete_found-Given, settle_found-OneId,
  resolve_found-Sound, complete_found-Sound, close_found-Sound,
}

module _ (s : FetchState) (sound : Sound s) where
  -- An id that is pending, parked or current is of a request.
  there :
      {A : Type 0} (id : ℕ)
      → lookup id s.streams ≡ none
      → 1 ≤ listed id s.pending + listed id s.local_pending + is_current id s.current
      → A
  unfolding counts
  there id gone h =
      let (_, _, all) = sound in
      let g : Good (issued id s.next_stream_id) (counts id s) none = rw gone at (all id) in
      absurd (omega (arith, g, h))

  pub call_back-Sound : (id : ℕ) (c : Callback) → 1 ≤ listed id s.pending → Sound (call_back id c s)
  unfolding call_back
  call_back-Sound id c waits =
      option_split Sound (lookup id s.streams) _ _ (λ gone. there id gone (omega arith))
        (λ r found.
          Sound-quiet id r s found sound (called_back c r) [] (called_back-same c r)
            (called_back-waits c r) (no_effects id))

  resolve_one-Sound : (id : ℕ) (i : Info) → 1 ≤ listed id s.pending → Sound (resolve_one id i s)
  unfolding resolve_one
  resolve_one-Sound id i waits =
      option_split Sound (lookup id s.streams) _ _ (λ gone. there id gone (omega arith))
        (λ r found.
          if_elim Sound (not r.headers_resolved && r.has_received_data) _ _
            (λ h. resolve_found-Sound id r s found sound i waits (ground arith)) (λ _. sound))

  pub complete-Sound :
      (id : ℕ) (result : Option Bytes) (i : Info)
      → s.current ≡ none
      → Sound (complete id result i s)
  unfolding complete
  complete-Sound id result i idle =
      option_split Sound (lookup id s.streams) _ _
        (λ gone.
          if_elim Sound (listed id s.pending == 0) _ _ (λ _. sound)
            (λ h. there id gone (ground arith)))
        (λ r found.
          if_elim Sound (listed id s.pending == 0) _ _ (λ _. sound)
            (λ h.
              call_reader-Sound r.wait_callback id (complete_found id result i r s)
                (complete_found-Given id r s result i)
                (complete_found-Sound id r s found sound result i idle (ground arith))))

  close_current-Sound : (o : Option (ℕ × Bool)) → s.current ≡ o → Sound (close_current o s)
  unfolding close_current is_current
  close_current-Sound none e = sound
  close_current-Sound (some (id, b)) e =
      let it : is_current id s.current ≡ one (id == id) = ap (is_current id) e in
      option_split Sound (lookup id s.streams) _ _
        (λ gone. there id gone (ground (arith, it, ==_refl id)))
        (λ r found. close_found-Sound id r s found sound b e)

  pub close-Sound : Sound (close s)
  unfolding close
  close-Sound = close_current-Sound s.current refl

-- The ids that resolve_one leaves pending.
resolve_one-pending :
    (id : ℕ) (i : Info) (s : FetchState) → (resolve_one id i s).pending ≡ s.pending
unfolding resolve_one resolve_found keep
resolve_one-pending id i s =
    option_split (λ (u : FetchState). u.pending ≡ s.pending) (lookup id s.streams) _ _ (λ _. refl)
      (λ r found.
        if_elim (λ (u : FetchState). u.pending ≡ s.pending)
          (not r.headers_resolved && r.has_received_data) _ _ (λ _. refl) (λ _. refl))

pub resolve_all-Sound :
    (infos : ℕ → Info) (ids : List ℕ) (s : FetchState)
    → ((i : ℕ) → listed i ids ≤ listed i s.pending)
    → Sound s
    → Sound (resolve_all infos ids s)
unfolding resolve_all listed
resolve_all-Sound infos [] s within sound = sound
resolve_all-Sound infos (id ∷ ids) s within sound =
    let same = resolve_one-pending id (infos id) s in
    resolve_all-Sound infos ids (resolve_one id (infos id) s)
      (λ i. rw same (ground (arith, within i)))
      (resolve_one-Sound s sound id (infos id) (ground (arith, within id, ==_refl id)))

-- The ids of settle_ids are the ones that are parked.
settle_ids-Sound :
    (ids : List ℕ) (s : FetchState)
    → s.local_pending ≡ []
    → Sound (record s { local_pending = ids })
    → Sound (settle_ids ids s).0
unfolding settle_ids settle_found drop_request listed counts
settle_ids-Sound [] s e sound = subst (λ ls. Sound (record s { local_pending = ls })) (sym e) sound
settle_ids-Sound (id ∷ ids) s e sound =
    option_split (λ (x : FetchState × ℕ). Sound x.0) (lookup id s.streams) _ _
      (λ gone.
        there (record s { local_pending = id ∷ ids }) sound id gone (ground (arith, ==_refl id)))
      (λ r found. settle_ids-Sound ids (settle_found id r s) e (
        Sound-drop id (one r.promise) 0 _ s.pending ids s.current
          (record s { local_pending = id ∷ ids }) (settle_found-OneId id r.held r.promise)
          (λ i other. (refl, ground (arith, other), refl)) sound
          (ground
            (arith, known id r (record s { local_pending = id ∷ ids }) found sound, ==_refl id))))

pub settle_local-Sound : (s : FetchState) → Sound s → Sound (settle_local s).0
unfolding settle_local
settle_local-Sound s sound =
    settle_ids-Sound s.local_pending (record s { local_pending = [] }) refl sound

-- What the teardown cleans up, of one id.
torn_down-none :
    (i : ℕ) (m : List (ℕ × FetchRequest))
    → (tally (settles_of i) (torn_down m) ≡ 0) × (tally is_dangle (torn_down m) ≡ 0)
unfolding torn_down tally settles_of is_dangle
torn_down-none i [] = (refl, refl)
torn_down-none i ((id, r) ∷ m) =
    let (a, b) = torn_down-none i m in (ground (arith, a), ground (arith, b))

destroyed-none :
    (i : ℕ) (m : List (ℕ × FetchRequest))
    → (tally (settles_of i) (destroyed m) ≡ 0)
      × (tally (cleans_of i) (destroyed m) ≡ 0)
      × (tally is_dangle (destroyed m) ≡ 0)
unfolding destroyed tally settles_of cleans_of is_dangle released
destroyed-none i [] = (refl, refl, refl)
destroyed-none i ((id, r) ∷ m) =
    let (a, b, c) = destroyed-none i m in (ground (arith, a), ground (arith, b), ground (arith, c))

torn_down-keyed :
    (i : ℕ) (m : List (ℕ × FetchRequest)) → keyed i m ≡ 0 → tally (cleans_of i) (torn_down m) ≡ 0
unfolding torn_down tally cleans_of keyed
torn_down-keyed i [] h = refl
torn_down-keyed i ((id, r) ∷ m) h = ground (arith, torn_down-keyed i m (ground (arith, h)), h)

abbrev easy_of : Option FetchRequest → ℕ
easy_of none = 0
easy_of (some r) = one r.easy

torn_down-lookup :
    (i : ℕ) (m : List (ℕ × FetchRequest))
    → keyed i m ≤ 1
    → tally (cleans_of i) (torn_down m) ≤ easy_of (lookup i m)
unfolding torn_down tally cleans_of keyed lookup
torn_down-lookup i [] h = omega arith
torn_down-lookup i ((id, r) ∷ m) h =
    let alone : (id == i) ≡ true → tally (cleans_of i) (torn_down m) ≡ 0 =
      λ e. torn_down-keyed i m (ground (arith, h, e)) in
    let others : (id == i) ≡ false → tally (cleans_of i) (torn_down m) ≤ easy_of (lookup i m) =
      λ e. torn_down-lookup i m (ground (arith, h, e)) in
    ground (arith, alone, others)

pub uninstall_fetch-Sound :
    (s : FetchState) → s.current ≡ none → Sound s → Sound (uninstall_fetch s)
unfolding uninstall_fetch counts keyed listed lookup is_current
uninstall_fetch-Sound s idle sound =
    let (first, no_dangle, all) = sound in
    (
      first,
      tally-none is_dangle (destroyed s.streams) (torn_down s.streams ++ s.log)
            (destroyed-none 0 s.streams).2
          ∙ tally-none is_dangle (torn_down s.streams) s.log (torn_down-none 0 s.streams).1
          ∙ no_dangle,
      λ i.
          rw
            (
              tally-none (settles_of i) (destroyed s.streams) (torn_down s.streams ++ s.log)
                  (destroyed-none i s.streams).0,
              tally-none (cleans_of i) (destroyed s.streams) (torn_down s.streams ++ s.log)
                  (destroyed-none i s.streams).1,
              tally-none (settles_of i) (torn_down s.streams) s.log (torn_down-none i s.streams).0,
              tally-append (cleans_of i) (torn_down s.streams) s.log,
              ap (is_current i) idle,
            )
            (elim (Option-cases (lookup i s.streams)) [
              | inl gone ↦
                  let g : Good (issued i s.next_stream_id) (counts i s) none = rw gone at (all i) in
                  let least = torn_down-keyed i s.streams (ground (arith, g)) in
                  ground (arith, g, least)
              | inr (r, found) ↦
                  let g : Good (issued i s.next_stream_id) (counts i s) (some r) =
                    rw found at (all i) in
                  let most : tally (cleans_of i) (torn_down s.streams) ≤ one r.easy =
                    rw found at (torn_down-lookup i s.streams (ground (arith, g))) in
                  ground (arith, g, most)
            ]),
    )
