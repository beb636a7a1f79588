-- ===== src/Watching/Tests.antt =====
-- Runs of the table of src/api/fs_watch.cpp.
use brokit.Prelude.Tally.{tally}
use brokit.Prelude.{ℕ, ◌+◌, List, ◌∷◌, ◌≡◌, refl, true, [], none, codes}
use brokit.Watching.{
  CtxState, CreateAnswers, watch_create, watch_close, watch_has_pending, revoke_watcher,
  no_watchers, held_for, GateEvent, gives, releases, given_for, releases_all, member, without,
  release_key, Reach, start, then_step, creates, closes,
}
use brokit.Watching.Grants.{AllWatched, held_under, ends_it, gives_it, Reach-AllWatched}

abbrev allowed : CreateAnswers
allowed = record { refusal = []; exists_there = true; start_error = none; ledger_id = 7 }

-- Two watchers, of which the first one is closed and the second one's grant is taken back.
abbrev two_watchers : CtxState
two_watchers =
    (watch_create (codes "/b") allowed (watch_create (codes "/a") allowed no_watchers).0).0

abbrev one_watcher : CtxState
one_watcher = (watch_close 1 two_watchers).0

revoked_runs : watch_has_pending (revoke_watcher 2 (codes "no") one_watcher) ≡ true
unfolding watch_has_pending revoke_watcher watch_close watch_create member without release_key
revoked_runs = refl

abbrev gate_log : List GateEvent
gate_log = releases 7 ∷ gives 7 ∷ gives 7 ∷ []

two_watchers_logged : releases_all (watch_close 1 two_watchers).1 ≡ releases 7 ∷ []
unfolding releases_all watch_close watch_create without release_key held_for
two_watchers_logged = refl

one_watcher_reached : Reach one_watcher gate_log
unfolding given_for watch_create releases_all watch_close without release_key held_for
one_watcher_reached =
    let first = (watch_create (codes "/a") allowed no_watchers).0 in
    then_step two_watchers one_watcher (gives 7 ∷ gives 7 ∷ []) gate_log
      (then_step first two_watchers (gives 7 ∷ []) (gives 7 ∷ gives 7 ∷ [])
        (then_step no_watchers first [] (gives 7 ∷ []) start
          (creates (codes "/a") allowed no_watchers []))
        (creates (codes "/b") allowed first (gives 7 ∷ [])))
      (closes 1 two_watchers (gives 7 ∷ gives 7 ∷ []))

Reach-AllWatched_example :
    AllWatched one_watcher.watchers one_watcher.held
    × ((g : ℕ)
        → held_under g one_watcher.held + tally (ends_it g) gate_log ≡ tally (gives_it g) gate_log)
Reach-AllWatched_example = Reach-AllWatched one_watcher gate_log one_watcher_reached
