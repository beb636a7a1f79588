-- ===== src/Async/Tally.antt =====
-- How many jobs, done_with and settled promises of src/api/fs_async.cpp are of one thread and one id.
use brokit.Prelude.{
  ℕ, zero, suc, ◌+◌, ◌≤◌, ◌≡◌, refl, ap, sym, ◌∙◌, false, ◌&&◌, List, [], ◌∷◌, ◌++◌, none, some,
  inl, inr, ◌==◌, if◌then◌else◌, not, if_elim, Option-cases, arith,
}
use brokit.Async.Pool.{Job, Done, Settled, Pool, count, erase_promise, take_at, behind, settle_all}

-- How many of the jobs, of what is done for one thread, and of what was settled, are of id `i`.
unfoldable pub jobs : (t i : ℕ) → List Job → ℕ
jobs t i [] = 0
jobs t i (job ∷ more) =
    let rest = jobs t i more in if (job.owner == t) && (job.id == i) then suc rest else rest

unfoldable pub done_with : (i : ℕ) → List Done → ℕ
done_with i [] = 0
done_with i (d ∷ ds) = let rest = done_with i ds in if d.id == i then suc rest else rest

unfoldable pub settlements : (t i : ℕ) → List Settled → ℕ
settlements t i [] = 0
settlements t i (d ∷ ds) =
    let rest = settlements t i ds in if (d.owner == t) && (d.id == i) then suc rest else rest

-- The jobs in the pool of a thread's id: in the queue, running, or done and not taken.
unfoldable pub in_flight : (t i : ℕ) → Pool → ℕ
in_flight t i s = jobs t i s.queue + jobs t i s.running + done_with i (s.done t)

pub jobs-append : (t i : ℕ) (xs ys : List Job) → jobs t i (xs ++ ys) ≡ jobs t i xs + jobs t i ys
unfolding jobs
jobs-append t i [] ys = omega arith
jobs-append t i (x ∷ xs) ys = ground (arith, jobs-append t i xs ys)

pub done_with-append :
    (i : ℕ) (xs ys : List Done) → done_with i (xs ++ ys) ≡ done_with i xs + done_with i ys
unfolding done_with
done_with-append i [] ys = omega arith
done_with-append i (x ∷ xs) ys = ground (arith, done_with-append i xs ys)

pub jobs-take_at :
    (t i k : ℕ) (js : List Job) (j : Job) (rest : List Job)
    → take_at k js ≡ some (j, rest)
    → jobs t i js ≡ jobs t i (j ∷ []) + jobs t i rest
unfolding take_at behind
jobs-take_at t i k [] j rest e = absurd (cc)
jobs-take_at t i zero (job ∷ js) j rest e =
    let first : job ≡ j = cc in
    let others : js ≡ rest = cc in rw (first, others) (jobs-append t i (j ∷ []) rest)
jobs-take_at t i (suc k) (job ∷ js) j rest e = elim (Option-cases (take_at k js)) [
  | inl gone ↦
      let clash : behind job none ≡ some (j, rest) = sym (ap (behind job) gone) ∙ e in absurd (cc)
  | inr ((got, left), found) ↦
      let both : some (got, job ∷ left) ≡ some (j, rest) = sym (ap (behind job) found) ∙ e in
      let first : got ≡ j = cc in
      let others : job ∷ left ≡ rest = cc in
      let ih = jobs-take_at t i k js got left found in
      let here = jobs-append t i (job ∷ []) js in
      let there = jobs-append t i (job ∷ []) left in
      rw⁻¹ (first, others) (omega (arith, ih, here, there))
]

pub count-erase_promise :
    (i j : ℕ) (js : List ℕ) → count i (erase_promise j js) ≡ (if j == i then 0 else count i js)
unfolding count erase_promise
count-erase_promise i j [] = ground arith
count-erase_promise i j (k ∷ js) = ground (arith, count-erase_promise i j js)

-- What the loop leaves of a promise: nothing, if its entry is there.
pub count-settle_all :
    (t i : ℕ) (ds : List Done) (promises : List ℕ) (log : List Settled)
    → count i (settle_all t ds (promises, log)).0
      ≡ (if done_with i ds == 0 then count i promises else 0)
unfolding settle_all done_with
count-settle_all t i [] promises log = refl
count-settle_all t i (d ∷ ds) promises log =
    let entry : Settled = record { owner = t; id = d.id; result = d.result } in
    let gone = count-erase_promise i d.id promises in
    let kept = count-settle_all t i ds promises log in
    let erased = count-settle_all t i ds (erase_promise d.id promises) (entry ∷ log) in
    let same : d.id ≡ i → count d.id promises ≡ count i promises =
      λ e. ap (λ j. count j promises) e in
    if_elim
      (λ (r : List ℕ × List Settled).
        count i r.0 ≡ (if done_with i (d ∷ ds) == 0 then count i promises else 0))
      (not (count d.id promises == 0)) _ _ (λ e. ground (arith, gone, kept, erased))
      (λ e. ground (arith, kept, same))

-- A promise is there or settled, after the loop as before.
pub settled_once :
    (t i : ℕ) (ds : List Done) (promises : List ℕ) (log : List Settled)
    → count i promises ≤ 1
    → count i (settle_all t ds (promises, log)).0
        + settlements t i (settle_all t ds (promises, log)).1
      ≡ count i promises + settlements t i log
unfolding settle_all settlements
settled_once t i [] promises log h = refl
settled_once t i (d ∷ ds) promises log h =
    let entry : Settled = record { owner = t; id = d.id; result = d.result } in
    let gone = count-erase_promise i d.id promises in
    let kept = settled_once t i ds promises log h in
    let erased =
      settled_once t i ds (erase_promise d.id promises) (entry ∷ log) (ground (arith, gone)) in
    let same : d.id ≡ i → count d.id promises ≡ count i promises =
      λ e. ap (λ j. count j promises) e in
    if_elim
      (λ (r : List ℕ × List Settled).
        count i r.0 + settlements t i r.1 ≡ count i promises + settlements t i log)
      (not (count d.id promises == 0)) _ _ (λ e. ground (arith, gone, erased, same)) (λ e. kept)

-- Those of another thread are not touched.
pub settled_else :
    (t u i : ℕ) (ds : List Done) (promises : List ℕ) (log : List Settled)
    → (t == u) ≡ false
    → settlements u i (settle_all t ds (promises, log)).1 ≡ settlements u i log
unfolding settle_all settlements
settled_else t u i [] promises log h = refl
settled_else t u i (d ∷ ds) promises log h =
    let entry : Settled = record { owner = t; id = d.id; result = d.result } in
    let kept = settled_else t u i ds promises log h in
    let erased = settled_else t u i ds (erase_promise d.id promises) (entry ∷ log) h in
    if_elim (λ (r : List ℕ × List Settled). settlements u i r.1 ≡ settlements u i log)
      (not (count d.id promises == 0)) _ _ (λ e. ground (arith, erased)) (λ e. kept)
