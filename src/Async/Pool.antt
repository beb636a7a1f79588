-- ===== src/Async/Pool.antt =====
-- The pool of src/api/fs_async.cpp, the promises each thread waits for, and js_fs_async_tick.
use brokit.Prelude.{
  ℕ, zero, suc, Bool, not, List, [], ◌∷◌, ◌++◌, Option, none, some, ◌⊎◌, inl, inr, Bytes, codes,
  ◌==◌, if◌then◌else◌, is_empty, ◌≡◌, length,
}
use mathlib.Core.Option
use brokit.Async.File.{FileResult, failed}

-- Job, without its work: what that returns or throws comes with the step that runs it.
pub record Job : Type 0 where
  pub owner : ℕ
  pub id : ℕ

-- Done
pub record Done : Type 0 where
  pub id : ℕ
  pub result : FileResult

-- Pending, a thread's; one that was not made yet is the new one.
pub record Pending : Type 0 where
  pub next : ℕ
  pub promises : List ℕ

-- A settled promise: whose it was, its id, and what it was rejected or resolved with.
pub record Settled : Type 0 where
  pub owner : ℕ
  pub id : ℕ
  pub result : FileResult

-- The pool's queue_, the jobs its threads run, done_, every thread's t_pending, and the promises that
-- were settled so far, the last one first.
pub record Pool : Type 0 where
  pub queue : List Job
  pub running : List Job
  pub done : ℕ → List Done
  pub pending : ℕ → Pending
  pub settled : List Settled

abbrev pub new_pending : Pending
new_pending = record { next = 1; promises = [] }

abbrev pub new_pool : Pool
new_pool = record {
  queue = [];
  running = [];
  done = λ _. [];
  pending = λ _. new_pending;
  settled = [];
}

abbrev pub set_at {ℓ} : {A : Type ℓ} → ℕ → A → (ℕ → A) → ℕ → A
set_at t a f u = if u == t then a else f u

unfoldable pub count : ℕ → List ℕ → ℕ
count i [] = 0
count i (j ∷ js) = let rest = count i js in if j == i then suc rest else rest

unfoldable pub erase_promise : ℕ → List ℕ → List ℕ
erase_promise i [] = []
erase_promise i (j ∷ js) = let rest = erase_promise i js in if j == i then rest else j ∷ rest

-- js_fs_async from the id on: the promise is kept, and submit queues the job.
unfoldable pub submit : (t : ℕ) → Pool → Pool
submit t s =
    let pend = s.pending t in
    let job : Job = record { owner = t; id = pend.next } in
    record s {
      pending =
          set_at t (record { next = suc pend.next; promises = pend.next ∷ pend.promises })
            s.pending;
      queue = s.queue ++ (job ∷ []);
    }

unfoldable pub pick_from : List Job → Pool → Option Pool
pick_from [] s = none
pick_from (job ∷ queue) s = some (record s { queue = queue; running = job ∷ s.running })

-- A pool thread takes the front of the queue; it waits while that is empty.
unfoldable pub pick : Pool → Option Pool
pick s = pick_from s.queue s

-- What a job comes to: what its work returned, or what it threw.
unfoldable pub caught : FileResult ⊎ Bytes → FileResult
caught (inl r) = r
caught (inr what) =
    failed (record { code = codes "EIO"; syscall = []; path = []; message = codes "EIO: " ++ what })

unfoldable pub behind : Job → Option (Job × List Job) → Option (Job × List Job)
behind job none = none
behind job (some (j, rest)) = some (j, job ∷ rest)

unfoldable pub take_at : ℕ → List Job → Option (Job × List Job)
take_at k [] = none
take_at zero (job ∷ jobs) = some (job, jobs)
take_at (suc k) (job ∷ jobs) = behind job (take_at k jobs)

-- What a pool thread does with a job it has done.
unfoldable pub hand_over : (outcome : FileResult ⊎ Bytes) (s : Pool) → Job × List Job → Pool
hand_over outcome s (job, running) =
    let entry : Done = record { id = job.id; result = caught outcome } in
    record s {
      running = running;
      done = set_at job.owner (s.done job.owner ++ (entry ∷ [])) s.done;
    }

-- The thread that runs the k-th of the running jobs has done it.
unfoldable pub finish_job : (k : ℕ) (outcome : FileResult ⊎ Bytes) → Pool → Option Pool
finish_job k outcome s = Option.map (hand_over outcome s) (take_at k s.running)

-- The loop of js_fs_async_tick, on the promises and what was settled.
unfoldable pub settle_all : (t : ℕ) → List Done → List ℕ × List Settled → List ℕ × List Settled
settle_all t [] s = s
settle_all t (d ∷ ds) (promises, settled) =
    let found = not (count d.id promises == 0) in
    let skipped = settle_all t ds (promises, settled) in
    let entry : Settled = record { owner = t; id = d.id; result = d.result } in
    let next = settle_all t ds (erase_promise d.id promises, entry ∷ settled) in
    if found then next else skipped

-- js_fs_async_tick, with the number it returns.
unfoldable pub async_tick : (t : ℕ) → Pool → Pool × ℕ
async_tick t s =
    let pend = s.pending t in
    let ds = s.done t in
    let after = settle_all t ds (pend.promises, s.settled) in
    if is_empty pend.promises then (s, 0) else (
      record s {
        done = set_at t [] s.done;
        pending = set_at t (record pend { promises = after.0 }) s.pending;
        settled = after.1;
      },
      length ds,
    )

-- js_fs_async_has_pending
unfoldable pub async_has_pending : (t : ℕ) → Pool → Bool
async_has_pending t s = not (is_empty (s.pending t).promises)

-- What happens: a call on a thread, a step of a pool thread, a async_tick of a thread.
pub data Step : Pool → Pool → Type 0 where
  submits : (t : ℕ) (s : Pool) → Step s (submit t s)
  picks : (s s' : Pool) → pick s ≡ some s' → Step s s'
  finishes :
      (k : ℕ) (outcome : FileResult ⊎ Bytes) (s s' : Pool)
      → finish_job k outcome s ≡ some s'
      → Step s s'
  ticks : (t : ℕ) (s : Pool) → Step s (async_tick t s).0

pub data Reach : Pool → Type 0 where
  start : Reach new_pool
  step : (s s' : Pool) → Reach s → Step s s' → Reach s'
