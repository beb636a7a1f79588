-- ===== src/Fetch/Steps.antt =====
-- Every native of src/api/fetch.cpp and every part of its tick keeps what holds of the requests.
use brokit.Prelude.{
  ℕ, ◌≡◌, refl, Bool, true, [], ◌∷◌, ◌++◌, none, Bytes, is_empty, if_elim, option_elim, arith,
}
use brokit.Prelude.Table.{lookup}
use brokit.Prelude.Tally.{tally}
use brokit.Fetch.{inits, FetchState, new_request}
use brokit.Fetch.Options.{Options}
use brokit.Fetch.Natives.{
  fetch_local, start_transfer, fetch, StreamRead, stream_read, abort_request,
}
use brokit.Fetch.Cases.{fetch_cases}
use brokit.Fetch.Tick.{notify_one, listed}
use brokit.Fetch.Kept.{settles_of, cleans_of, is_dangle, Sound, OneId, listed-append}
use brokit.Fetch.Sound.{no_effects, read_chunk-Sound, abort_found-Sound}
use brokit.Fetch.Rounds.{notify_found-Sound}
use brokit.Fetch.Adding.{add-Sound, skip-Sound}

one_init : (id : ℕ) → OneId id (inits id ∷ []) 0 0
unfolding tally settles_of cleans_of is_dangle
one_init id = (λ i. ground arith, refl)

module _ (s : FetchState) (sound : Sound s) where
  fetch_local-Sound : (url : Bytes) → Sound (fetch_local url s).0
  unfolding fetch_local listed
  fetch_local-Sound url =
      let id = s.next_stream_id in
      let r = record (new_request url) { body_complete = true; local_response = true } in
      add-Sound s sound s.multi r s.pending (s.local_pending ++ id ∷ []) [] (no_effects id)
        (λ i. ground arith) (λ i. ground (arith, listed-append i s.local_pending (id ∷ [])))
        (ground arith)

  start_transfer-Sound :
      (url : Bytes) (o : Options) (held : ℕ) → Sound (start_transfer url o held s).0
  unfolding start_transfer listed
  start_transfer-Sound url o held =
      let id = s.next_stream_id in
      let r = record (new_request url) { easy = true; checked_url = url; held = held } in
      add-Sound s sound true r (s.pending ++ id ∷ []) s.local_pending (inits id ∷ []) (one_init id)
        (λ i. ground (arith, listed-append i s.pending (id ∷ []))) (λ i. ground arith)
        (ground arith)

  pub fetch-Sound :
      (a : Bool) (url : Bytes) (live : Bool) (fs_refusal refusal : Bytes) (b : Bool) (o : Options)
      (held : ℕ)
      → Sound (fetch a url live fs_refusal refusal b o held s).0
  fetch-Sound a url live fs_refusal refusal b o held =
      fetch_cases Sound s url o held sound (fetch_local-Sound url) (start_transfer-Sound url o held)
        (skip-Sound s sound [] (no_effects s.next_stream_id))
        (skip-Sound s sound (inits s.next_stream_id ∷ []) (one_init s.next_stream_id)) a live
        fs_refusal refusal b

  pub stream_read-Sound : (id : ℕ) → Sound (stream_read id s).0
  unfolding stream_read
  stream_read-Sound id =
      option_elim (λ (x : FetchState × StreamRead). Sound x.0) (lookup id s.streams) _ _ sound
        (λ r found. read_chunk-Sound id r.chunks r s found sound)

  pub abort_request-Sound :
      (id : ℕ) (refusal : Bytes) → s.current ≡ none → Sound (abort_request id refusal s)
  unfolding abort_request
  abort_request-Sound id refusal idle =
      option_elim Sound (lookup id s.streams) _ _ sound (λ r found.
        if_elim Sound (is_empty refusal) _ _
          (λ _. abort_found-Sound id refusal r.held r.revoked_by r s idle found sound)
          (λ _.
            if_elim Sound r.easy _ _
              (λ _. abort_found-Sound id refusal 0 refusal r s idle found sound) (λ _. sound)))

  pub notify_one-Sound : (id : ℕ) → Sound (notify_one id s)
  unfolding notify_one
  notify_one-Sound id =
      option_elim Sound (lookup id s.streams) _ _ sound
        (λ r found. notify_found-Sound id r s found sound)
