-- ===== src/Async/Settling.antt =====
-- Each promise of src/api/fs_async.cpp is settled once: the jobs in the pool and the unsettled
-- promises are the same ones.
use brokit.Prelude.{
  ℕ, ◌+◌, ◌<◌, ◌≡◌, ◌⊎◌, refl, ap, ◌∙◌, false, ◌&&◌, List, [], ◌∷◌, some, inl, inr, ltb, ◌==◌,
  ==_refl, Bytes, if◌then◌else◌, Bool-cases, if_elim, Option-cases, is_empty, arith,
}
use brokit.Async.File.{FileResult}
use brokit.Async.Pool.{
  hand_over, pick_from, Job, Pool, new_pool, count, submit, pick, take_at, finish_job, caught,
  async_tick, Step, submits, picks, finishes, ticks, Reach, start, step,
}
use brokit.Async.Tally.{
  jobs, done_with, settlements, in_flight, jobs-append, done_with-append, jobs-take_at,
  count-settle_all, settled_once, settled_else,
}

-- An id that was handed out on a thread.
abbrev pub issued : (i next : ℕ) → ℕ
issued i next = if ltb 0 i && ltb i next then 1 else 0

-- The jobs in the pool are the unsettled promises, one for one; an id that was handed out is one of
-- a promise that waits or of one that was settled, once.
abbrev pub Matched : (t i : ℕ) → Pool → Type 0
Matched t i s =
    (in_flight t i s ≡ count i (s.pending t).promises)
    × (count i (s.pending t).promises + settlements t i s.settled ≡ issued i (s.pending t).next)
    × (0 < (s.pending t).next)

Matched-new : (t i : ℕ) → Matched t i new_pool
unfolding in_flight jobs done_with count settlements
Matched-new t i = (refl, ground arith, omega arith)

Matched-submit_self : (t i : ℕ) (s : Pool) → Matched t i s → Matched t i (submit t s)
unfolding in_flight submit count jobs
Matched-submit_self t i s (same, once, some_next) =
    let more = jobs-append t i s.queue (record { owner = t; id = (s.pending t).next } ∷ []) in
    rw (==_refl t, more) (ground (arith, same), ground (arith, once, some_next), omega arith)

Matched-submit-other :
    (u t i : ℕ) (s : Pool) → (t == u) ≡ false → Matched t i s → Matched t i (submit u s)
unfolding in_flight submit jobs
Matched-submit-other u t i s other (same, once, some_next) =
    let flipped : (u == t) ≡ false = ground (arith, other) in
    let more = jobs-append t i s.queue (record { owner = u; id = (s.pending u).next } ∷ []) in
    rw (other, more, flipped) (omega (arith, same), once, some_next)

Matched-pick_from :
    (t i : ℕ) (s s' : Pool) (queue : List Job)
    → s.queue ≡ queue
    → pick_from queue s ≡ some s'
    → Matched t i s
    → Matched t i s'
unfolding in_flight pick_from
Matched-pick_from t i s s' [] q e h = absurd (cc)
Matched-pick_from t i s s' (job ∷ queue) q e (same, once, some_next) =
    let next : record s { queue = queue; running = job ∷ s.running } ≡ s' = cc in
    let moved = jobs-append t i (job ∷ []) queue in
    let run = jobs-append t i (job ∷ []) s.running in
    let all : jobs t i s.queue ≡ jobs t i (job ∷ queue) = ap (jobs t i) q in
    rw⁻¹ next (omega (arith, same, moved, run, all), once, some_next)

Matched-hand_over :
    (t i k : ℕ) (outcome : FileResult ⊎ Bytes) (s : Pool) (job : Job) (rest : List Job)
    → take_at k s.running ≡ some (job, rest)
    → Matched t i s
    → Matched t i (hand_over outcome s (job, rest))
unfolding in_flight hand_over done_with jobs
Matched-hand_over t i k outcome s job rest e (same, once, some_next) =
    let left = jobs-take_at t i k s.running job rest e in
    elim (Bool-cases (t == job.owner)) [
      | inl mine ↦
          let owner : job.owner ≡ t = ground arith in
          let all =
            done_with-append i (s.done job.owner)
              (record { id = job.id; result = caught outcome } ∷ []) in
          let there : done_with i (s.done job.owner) ≡ done_with i (s.done t) =
            ap (λ u. done_with i (s.done u)) owner in
          rw (mine, all) (ground (arith, same, left, there), once, some_next)
      | inr other ↦ rw other (ground (arith, same, left), once, some_next)
    ]

Matched-async_tick_self : (t i : ℕ) (s : Pool) → Matched t i s → Matched t i (async_tick t s).0
unfolding in_flight async_tick done_with
Matched-async_tick_self t i s (same, once, some_next) =
    let left = count-settle_all t i (s.done t) (s.pending t).promises s.settled in
    let both =
      settled_once t i (s.done t) (s.pending t).promises s.settled (ground (arith, once)) in
    if_elim (λ (r : Pool × ℕ). Matched t i r.0) (is_empty (s.pending t).promises) _ _
      (λ _. (same, once, some_next))
      (λ _. rw (==_refl t) (ground (arith, same, left, once), both ∙ once, some_next))

Matched-async_tick-other :
    (u t i : ℕ) (s : Pool) → (t == u) ≡ false → Matched t i s → Matched t i (async_tick u s).0
unfolding in_flight async_tick
Matched-async_tick-other u t i s other (same, once, some_next) =
    let flipped : (u == t) ≡ false = ground (arith, other) in
    let log = settled_else u t i (s.done u) (s.pending u).promises s.settled flipped in
    if_elim (λ (r : Pool × ℕ). Matched t i r.0) (is_empty (s.pending u).promises) _ _
      (λ _. (same, once, some_next)) (λ _. rw (other, log) (same, once, some_next))

Matched-submit : (u t i : ℕ) (s : Pool) → Matched t i s → Matched t i (submit u s)
Matched-submit u t i s h = elim (Bool-cases (t == u)) [
  | inl e ↦ let mine : t ≡ u = ground arith in rw⁻¹ mine (Matched-submit_self t i s h)
  | inr e ↦ Matched-submit-other u t i s e h
]

Matched-async_tick : (u t i : ℕ) (s : Pool) → Matched t i s → Matched t i (async_tick u s).0
Matched-async_tick u t i s h = elim (Bool-cases (t == u)) [
  | inl e ↦ let mine : t ≡ u = ground arith in rw⁻¹ mine (Matched-async_tick_self t i s h)
  | inr e ↦ Matched-async_tick-other u t i s e h
]

Matched-finish_job :
    (t i k : ℕ) (outcome : FileResult ⊎ Bytes) (s s' : Pool)
    → finish_job k outcome s ≡ some s'
    → Matched t i s
    → Matched t i s'
unfolding finish_job
Matched-finish_job t i k outcome s s' e h = elim (Option-cases (take_at k s.running)) [
  | inl gone ↦ absurd (cc)
  | inr ((job, rest), found) ↦
      let next : hand_over outcome s (job, rest) ≡ s' = cc in
      rw⁻¹ next (Matched-hand_over t i k outcome s job rest found h)
]

Matched-Step : (t i : ℕ) (s s' : Pool) → Step s s' → Matched t i s → Matched t i s'
unfolding pick
Matched-Step t i _ _ (submits u s) h = Matched-submit u t i s h
Matched-Step t i s s' (picks _ _ e) h = Matched-pick_from t i s s' s.queue refl e h
Matched-Step t i s s' (finishes k outcome _ _ e) h = Matched-finish_job t i k outcome s s' e h
Matched-Step t i _ _ (ticks u s) h = Matched-async_tick u t i s h

-- However calls, the pool's threads and ticks interleave, for each thread and id: the jobs with it in the pool
-- (queued, running, or done and not taken) are as many as its unsettled promises; it is of one promise,
-- unsettled or settled once, if that thread handed it out, and of none if not; and ids stay positive.
pub Reach-Matched : (s : Pool) → Reach s → (t i : ℕ) → Matched t i s
Reach-Matched _ start t i = Matched-new t i
Reach-Matched _ (step s s' before last) t i =
    Matched-Step t i s s' last (Reach-Matched s before t i)
