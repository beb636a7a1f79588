-- ===== src/Fetch/Given.antt =====
-- The body that the reader of a request of src/api/fetch.cpp is given, through every history.
use brokit.Prelude.{
  ℕ, ◌≡◌, refl, List, [], ◌∷◌, ◌++◌, Option, none, some, is_empty, if◌then◌else◌, if_elim,
  option_elim, arith,
}
use brokit.Prelude.Table.{lookup}
use brokit.Prelude.Tally.{tally}
use brokit.Fetch.{FetchRequest, resolves, released, FetchState}
use brokit.Fetch.Natives.{abort_request}
use brokit.Fetch.Tick.{
  Info, resolve_one, resolve_all, resolve_streaming, settle_found, settle_ids, settle_local,
  complete, finish, close, torn_down, destroyed, uninstall_fetch,
}
use brokit.Fetch.Reach.{
  Step, fetches, reads, pulls, aborts_it, settles, calls_back, streams_on, notifies, finishes,
  uninstalls, Reach, start, step,
}
use brokit.Fetch.Body.{given, flat, aborts_of, is_gift, Flows-quiet}
use brokit.Fetch.Stream.{
  Streams, fetch_new, stream_read-Streams, try_read-Streams, dropped, abort_one, called_one,
  resolved_one, notified_one, completed, closed_now,
}

resolved_all :
    (infos : ℕ → Info) (ids : List ℕ) (s : FetchState)
    → Streams s
    → Streams (resolve_all infos ids s)
unfolding resolve_all
resolved_all infos [] s flows = flows
resolved_all infos (id ∷ ids) s flows =
    resolved_all infos ids (resolve_one id (infos id) s) (resolved_one s flows id (infos id))

settled_all : (ids : List ℕ) (s : FetchState) → Streams s → Streams (settle_ids ids s).0
unfolding settle_ids settle_found tally is_gift released
settled_all [] s flows = flows
settled_all (id ∷ ids) s flows =
    option_elim (λ (x : FetchState × ℕ). Streams x.0) (lookup id s.streams) _ _
      (settled_all ids s flows)
      (λ r found. settled_all ids (settle_found id r s) (
        dropped s flows id (released id r.held ++ (if r.promise then resolves id ∷ [] else []))
          (ground arith)))

torn_down-quiet : (m : List (ℕ × FetchRequest)) → tally is_gift (torn_down m) ≡ 0
unfolding torn_down tally is_gift
torn_down-quiet [] = refl
torn_down-quiet ((id, r) ∷ m) = ground (arith, torn_down-quiet m)

destroyed-quiet : (m : List (ℕ × FetchRequest)) → tally is_gift (destroyed m) ≡ 0
unfolding destroyed tally is_gift released
destroyed-quiet [] = refl
destroyed-quiet ((id, r) ∷ m) = ground (arith, destroyed-quiet m)

Streams-Step : (s s' : FetchState) → Step s s' → Streams s → Streams s'
unfolding resolve_streaming abort_request settle_local finish close uninstall_fetch tally lookup
Streams-Step _ _ (fetches a url live fs_refusal refusal b o held s) h =
    fetch_new s h a url live fs_refusal refusal b o held
Streams-Step _ _ (reads id s) h = stream_read-Streams id s h
Streams-Step _ _ (pulls id s given) h = try_read-Streams id s h
Streams-Step _ _ (aborts_it id refusal s) h =
    option_elim Streams (lookup id s.streams) _ _ h (λ r found.
      if_elim Streams (is_empty refusal) _ _
        (λ _. abort_one s h id refusal r.held r.revoked_by r found)
        (λ _.
          if_elim Streams r.easy _ _ (λ _. abort_one s h id refusal 0 refusal r found) (λ _. h)))
Streams-Step _ _ (settles s) h = settled_all s.local_pending (record s { local_pending = [] }) h
Streams-Step _ _ (calls_back id c s listed_once) h = called_one s h id c
Streams-Step _ _ (streams_on infos s) h = resolved_all infos s.pending s h
Streams-Step _ _ (notifies id s) h = notified_one s h id
Streams-Step _ _ (finishes id result i s) h =
    let u = complete id result i s in closed_now u (completed s h id result i) u.current
Streams-Step _ _ (uninstalls s) h =
    Flows-quiet s.next_stream_id [] (torn_down s.streams ++ s.log)
      (Flows-quiet s.next_stream_id s.streams s.log h (torn_down s.streams)
        (torn_down-quiet s.streams) []
        (λ i r found.
          let gone : ◌≡◌ {A = Option FetchRequest} none (some r) = found in absurd (cc)))
      (destroyed s.streams) (destroyed-quiet s.streams) []
      (λ i r found. let gone : ◌≡◌ {A = Option FetchRequest} none (some r) = found in absurd (cc))

Streams-Reach : (s : FetchState) → Reach s → Streams s
unfolding given lookup
Streams-Reach _ start = (
  λ i h. refl,
  λ i r found. let gone : ◌≡◌ {A = Option FetchRequest} none (some r) = found in absurd (cc),
)
Streams-Reach _ (step s s' before last) = Streams-Step s s' last (Streams-Reach s before)

-- Through every history, of a request that is in the table and that was not aborted, the chunks that the script was given and
-- the chunks that are kept for it are, in order and together, the bytes that libcurl wrote: nothing is lost,
-- repeated or swapped, whatever comes between the chunks.
pub given-body :
    (s : FetchState) (id : ℕ) (r : FetchRequest)
    → Reach s
    → lookup id s.streams ≡ some r
    → tally (aborts_of id) s.log ≡ 0
    → given id s.log ++ flat r.chunks ≡ r.body
given-body s id r reach found whole =
    let (_, alive) = Streams-Reach s reach in (alive id r found).1 whole
