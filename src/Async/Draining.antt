-- ===== src/Async/Draining.antt =====
-- Ticks of src/api/fs_async.cpp: what they count, and that the pool's work ends every wait.
use brokit.Prelude.{
  ℕ, zero, suc, ◌+◌, ◌*◌, ◌≤◌, ◌≡◌, ◌⊎◌, inl, inr, refl, sym, ap, ◌∙◌, Option, none, some,
  Option-cases, true, false, not, Bytes, List, [], ◌∷◌, length, ◌==◌, if_elim, is_empty, ==_refl,
  arith,
}
use mathlib.Core.Option
use mathlib.Core.Path.{subst}
use brokit.Async.File.{FileResult}
use brokit.Async.Pool.{
  Job, Done, Settled, Pool, count, erase_promise, take_at, hand_over, behind, finish_job, pick,
  pick_from, settle_all, async_tick, async_has_pending, picks, finishes, Reach, step,
}
use brokit.Async.Tally.{jobs, done_with, in_flight, count-erase_promise, count-settle_all}
use brokit.Async.Settling.{Reach-Matched}

-- The loop settles every entry, if each is of its own promise.
settles_each :
    (t : ℕ) (ds : List Done) (promises : List ℕ) (log : List Settled)
    → ((i : ℕ) → (done_with i ds ≤ count i promises) × (count i promises ≤ 1))
    → length (settle_all t ds (promises, log)).1 ≡ length ds + length log
unfolding settle_all done_with
settles_each t [] promises log h = omega arith
settles_each t (d ∷ ds) promises log h =
    let entry : Settled = record { owner = t; id = d.id; result = d.result } in
    let (here, _) = h d.id in
    let found : not (count d.id promises == 0) ≡ true = ground (arith, here) in
    let left : (i : ℕ)
        → (done_with i ds ≤ count i (erase_promise d.id promises))
          × (count i (erase_promise d.id promises) ≤ 1) =
      λ i.
        let (fewer, once) = h i in
        let gone = count-erase_promise i d.id promises in
        (ground (arith, fewer, once, gone), ground (arith, once, gone)) in
    rw found (settles_each t ds (erase_promise d.id promises) (entry ∷ log) left ∙ omega arith)

-- In every state that is reached, js_fs_async_tick returns the number of promises it settles.
pub async_tick-settled :
    (t : ℕ) (s : Pool)
    → Reach s
    → length (async_tick t s).0.settled ≡ (async_tick t s).1 + length s.settled
unfolding async_tick in_flight
async_tick-settled t s reach =
    let each : (i : ℕ)
        → (done_with i (s.done t) ≤ count i (s.pending t).promises)
          × (count i (s.pending t).promises ≤ 1) =
      λ i.
        let (same, once, _) = Reach-Matched s reach t i in
        (omega (arith, same), ground (arith, once)) in
    if_elim (λ (r : Pool × ℕ). length r.0.settled ≡ r.1 + length s.settled)
      (is_empty (s.pending t).promises) _ _ (λ _. omega arith)
      (λ _. settles_each t (s.done t) (s.pending t).promises s.settled each)

none_left : (js : List ℕ) → ((i : ℕ) → count i js ≡ 0) → js ≡ []
unfolding count
none_left [] h = refl
none_left (j ∷ js) h = absurd (ground (arith, h j))

-- When no job of a thread is queued or running, its next async_tick leaves it nothing to wait for.
pub async_tick-async_has_pending :
    (t : ℕ) (s : Pool)
    → Reach s
    → ((i : ℕ) → jobs t i s.queue + jobs t i s.running ≡ 0)
    → async_has_pending t (async_tick t s).0 ≡ false
unfolding async_has_pending async_tick in_flight
async_tick-async_has_pending t s reach idle =
    let gone = none_left (settle_all t (s.done t) ((s.pending t).promises, s.settled)).0 (λ i.
      let (same, once, _) = Reach-Matched s reach t i in
      let left = count-settle_all t i (s.done t) (s.pending t).promises s.settled in
      ground (arith, same, left, idle i)) in
    if_elim (λ (r : Pool × ℕ). async_has_pending t r.0 ≡ false) (is_empty (s.pending t).promises) _
      _ (λ e. rw e refl) (λ _. rw (==_refl t, gone) refl)

-- A step of a thread of the pool, whatever the work of the job that it has done comes to.
pub data PoolStep : Pool → Pool → Type 0 where
  picks_up : (s s' : Pool) → pick s ≡ some s' → PoolStep s s'
  hands_over :
      (k : ℕ) (outcome : FileResult ⊎ Bytes) (s s' : Pool)
      → finish_job k outcome s ≡ some s'
      → PoolStep s s'

-- Some number of them, one after the other.
pub data Work : ℕ → Pool → Pool → Type 0 where
  stay : (s : Pool) → Work 0 s s
  onward : (n : ℕ) (s s' s'' : Pool) → PoolStep s s' → Work n s' s'' → Work (suc n) s s''

-- How many steps the pool has still to take: two for a job that is queued, one for a job that runs.
unfoldable pub left_over : Pool → ℕ
left_over s = 2 * length s.queue + length s.running

pick_from-left_over :
    (queue : List Job) (s s' : Pool)
    → s.queue ≡ queue
    → pick_from queue s ≡ some s'
    → suc (left_over s') ≡ left_over s
unfolding pick_from left_over
pick_from-left_over [] s s' q e = absurd (cc)
pick_from-left_over (job ∷ queue) s s' q e =
    let next : Pool = record s { queue = queue; running = job ∷ s.running } in
    let same : next ≡ s' = cc in
    let long : length s.queue ≡ suc (length queue) = ap length q in
    subst (λ u. suc (left_over u) ≡ left_over s) same (unfold left_over in (omega (arith, long)))

length-take_at :
    (k : ℕ) (running rest : List Job) (job : Job)
    → take_at k running ≡ some (job, rest)
    → suc (length rest) ≡ length running
unfolding take_at behind
length-take_at k [] rest job e = absurd (cc)
length-take_at zero (j ∷ running) rest job e =
    let same : running ≡ rest = cc in ap (λ js. suc (length js)) (sym same)
length-take_at (suc k) (j ∷ running) rest job e = elim (Option-cases (take_at k running)) [
  | inl gone ↦
      let nothing : ◌≡◌ {A = Option (Job × List Job)} none (some (job, rest)) =
        sym (ap (behind j) gone) ∙ e in
      absurd (cc)
  | inr ((job', rest'), there) ↦
      let both : some (job', j ∷ rest') ≡ some (job, rest) = sym (ap (behind j) there) ∙ e in
      let same : j ∷ rest' ≡ rest = cc in
      ap (λ js. suc (length js)) (sym same) ∙ ap suc (length-take_at k running rest' job' there)
]

finish_job-left_over :
    (k : ℕ) (outcome : FileResult ⊎ Bytes) (s s' : Pool)
    → finish_job k outcome s ≡ some s'
    → suc (left_over s') ≡ left_over s
unfolding finish_job left_over hand_over
finish_job-left_over k outcome s s' e = elim (Option-cases (take_at k s.running)) [
  | inl gone ↦
      let nothing : ◌≡◌ {A = Option Pool} none (some s') =
        sym (ap (Option.map (hand_over outcome s)) gone) ∙ e in
      absurd (cc)
  | inr ((job, rest), there) ↦
      let both : some (hand_over outcome s (job, rest)) ≡ some s' =
        sym (ap (Option.map (hand_over outcome s)) there) ∙ e in
      let same : hand_over outcome s (job, rest) ≡ s' = cc in
      let one_less = length-take_at k s.running rest job there in
      subst (λ u. suc (left_over u) ≡ left_over s) same
        (unfold left_over in (omega (arith, one_less)))
]

PoolStep-left_over : (s s' : Pool) → PoolStep s s' → suc (left_over s') ≡ left_over s
unfolding pick
PoolStep-left_over s s' (picks_up _ _ e) = pick_from-left_over s.queue s s' refl e
PoolStep-left_over s s' (hands_over k outcome _ _ e) = finish_job-left_over k outcome s s' e

Work-left_over : (n : ℕ) (s s' : Pool) → Work n s s' → n + left_over s' ≡ left_over s
Work-left_over _ _ _ (stay s) = omega arith
Work-left_over _ _ _ (onward n s s' s'' first rest) =
    omega (arith, PoolStep-left_over s s' first, Work-left_over n s' s'' rest)

Reach-PoolStep : (s s' : Pool) → PoolStep s s' → Reach s → Reach s'
Reach-PoolStep s s' (picks_up _ _ e) reach = step s s' reach (picks s s' e)
Reach-PoolStep s s' (hands_over k outcome _ _ e) reach = step s s' reach (finishes k outcome s s' e)

Reach-Work : (n : ℕ) (s s' : Pool) → Work n s s' → Reach s → Reach s'
Reach-Work _ _ _ (stay s) reach = reach
Reach-Work _ _ _ (onward n s s' s'' first rest) reach =
    Reach-Work n s' s'' rest (Reach-PoolStep s s' first reach)

-- The pool can take another step, or nothing is queued and nothing runs.
can_go_on :
    (s : Pool) (queue running : List Job)
    → s.queue ≡ queue
    → s.running ≡ running
    → ((s' : Pool) × PoolStep s s') ⊎ ((s.queue ≡ []) × (s.running ≡ []))
unfolding pick finish_job take_at pick_from hand_over
can_go_on s [] [] q r = inr (q, r)
can_go_on s (job ∷ queue) running q r =
    let s' : Pool = record s { queue = queue; running = job ∷ s.running } in
    inl (s', picks_up s s' (ap (λ js. pick_from js s) q))
can_go_on s [] (job ∷ running) q r =
    let outcome : FileResult ⊎ Bytes = inr [] in
    let s' = hand_over outcome s (job, running) in
    inl
      (s', hands_over 0 outcome s s' (ap (λ js. Option.map (hand_over outcome s) (take_at 0 js)) r))

-- However the threads of the pool work on from a state that is reached, and whatever each job comes to, every step brings
-- them one nearer to the end of what was queued and running: two steps for a job that was queued, one for a job that ran. When
-- they can take no further step, the next js_fs_async_tick of a thread leaves it with nothing to wait for.
pub pending_ends :
    (t n : ℕ) (s s' : Pool)
    → Reach s
    → Work n s s'
    → (n + left_over s' ≡ left_over s)
      × (((s'' : Pool) × PoolStep s' s'') ⊎ (async_has_pending t (async_tick t s').0 ≡ false))
unfolding jobs
pending_ends t n s s' reach work = (
  Work-left_over n s s' work,
  elim (can_go_on s' s'.queue s'.running refl refl) [
    | inl more ↦ inl more
    | inr (no_queue, no_running) ↦
        let idle : (i : ℕ) → jobs t i s'.queue + jobs t i s'.running ≡ 0 =
          λ i. rw (no_queue, no_running) refl in
        inr (async_tick-async_has_pending t s' (Reach-Work n s s' work reach) idle)
  ],
)
