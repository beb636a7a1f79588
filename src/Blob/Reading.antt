-- ===== src/Blob/Reading.antt =====
-- The reads of a FileReader of src/api/blob.cpp: only the last one counts.
use brokit.Prelude.{
  ℕ, suc, ◌+◌, ◌≤◌, ◌≡◌, refl, List, [], ◌∷◌, ◌++◌, Option, Bytes, All, All-append, ◌==◌,
  if◌then◌else◌, if_elim, option_elim, arith,
}
use brokit.Blob.{
  ReadyState, empty, loading, done, Task, Reader, start_read, finish, run_task, abort, Step, reads,
  aborts, runs, fires, Reach, start, then_step,
}

-- The number of tasks of a generation.
abbrev pub of_generation : ℕ → List Task → ℕ
of_generation g [] = 0
of_generation g (t ∷ ts) = let n = of_generation g ts in if t.generation == g then suc n else n

-- A reader that is loading waits for one task.
abbrev pub awaited : ReadyState → ℕ
awaited empty = 0
awaited loading = 1
awaited done = 0

of_generation-append :
    (g : ℕ) (ts us : List Task)
    → of_generation g (ts ++ us) ≡ of_generation g ts + of_generation g us
of_generation-append g [] us = omega arith
of_generation-append g (t ∷ ts) us = ground (arith, of_generation-append g ts us)

abbrev AllOld : ℕ → List Task → Type 0
AllOld g = All (λ (t : Task). t.generation ≤ g)

of_generation_fresh : (g : ℕ) (ts : List Task) → AllOld g ts → of_generation (g + 1) ts ≡ 0
of_generation_fresh g [] h = refl
of_generation_fresh g (t ∷ ts) (h, hs) = ground (arith, of_generation_fresh g ts hs)

AllOld-suc : (g : ℕ) (ts : List Task) → AllOld g ts → AllOld (g + 1) ts
AllOld-suc g [] h = tt
AllOld-suc g (t ∷ ts) (h, hs) = (omega arith, AllOld-suc g ts hs)

record IsReading (r : Reader) : Type 0 where
  old : AllOld r.data_of.generation r.posted
  counted : of_generation r.data_of.generation r.posted ≡ awaited r.data_of.ready_state

start_read-IsReading :
    (bytes : Option Bytes) (r : Reader) → IsReading r → IsReading (start_read bytes r)
unfolding start_read
start_read-IsReading bytes r h =
    let g = r.data_of.generation in
    let t : Task = record { generation = g + 1; bytes = bytes } in
    record {
      old = All-append _ r.posted (t ∷ []) (AllOld-suc g r.posted h.old) (omega arith, tt);
      counted = ground (
        arith,
        of_generation-append (g + 1) r.posted (t ∷ []),
        of_generation_fresh g r.posted h.old,
      );
    }

abort-IsReading : (r : Reader) → IsReading r → IsReading (abort r)
unfolding abort
abort-IsReading r h = record {
  old = AllOld-suc r.data_of.generation r.posted h.old;
  counted = of_generation_fresh r.data_of.generation r.posted h.old;
}

one_counted : (n : ℕ) (s : ReadyState) → suc n ≡ awaited s → n ≡ 0
one_counted n empty h = absurd (omega arith)
one_counted n loading h = omega arith
one_counted n done h = absurd (omega arith)

finish-IsReading :
    (produce : Bytes → Bytes) (t : Task) (r : Reader)
    → AllOld r.data_of.generation r.posted
    → of_generation r.data_of.generation r.posted ≡ 0
    → IsReading (finish produce t r)
unfolding finish
finish-IsReading produce t r old none_left =
    option_elim IsReading t.bytes _ _ (record { old = old; counted = none_left })
      (λ bytes _. record { old = old; counted = none_left })

run_task-IsReading :
    (produce : Bytes → Bytes) (t : Task) (ts : List Task) (r : Reader)
    → r.posted ≡ t ∷ ts
    → IsReading r
    → IsReading (run_task produce t (record r { posted = ts }))
unfolding run_task
run_task-IsReading produce t ts r first h =
    let (_, old) = rw first at h.old in
    let counted = rw first at h.counted in
    if_elim IsReading (t.generation == r.data_of.generation) _ _
      (λ current.
        finish-IsReading produce t (record r { posted = ts }) old
          (one_counted _ r.data_of.ready_state (rw current at counted)))
      (λ stale. record { old = old; counted = rw stale at counted })

Step-IsReading :
    {produce : Bytes → Bytes} {r s : Reader} → Step produce r s → IsReading r → IsReading s
Step-IsReading (reads bytes) h = start_read-IsReading bytes _ h
Step-IsReading aborts h = abort-IsReading _ h
Step-IsReading {produce} (runs t ts first idle) h = run_task-IsReading produce t ts _ first h
Step-IsReading (fires e es first) h = record { old = h.old; counted = h.counted }

Reach-IsReading : {produce : Bytes → Bytes} {r : Reader} → Reach produce r → IsReading r
Reach-IsReading start = record { old = tt; counted = refl }
Reach-IsReading (then_step before s) = Step-IsReading s (Reach-IsReading before)

-- Through every history of reads, aborts, tasks and dispatched events, exactly one posted task is of
-- the reader's generation while the reader is loading, and none is where it is not.
pub of_generation-Reach :
    {produce : Bytes → Bytes} {r : Reader}
    → Reach produce r
    → of_generation r.data_of.generation r.posted ≡ awaited r.data_of.ready_state
of_generation-Reach before = (Reach-IsReading before).counted
