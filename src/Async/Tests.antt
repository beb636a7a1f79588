-- ===== src/Async/Tests.antt =====
-- Runs of the asynchronous file operations of src/api/fs_async.cpp, and the theorems at them.
use brokit.Prelude.{
  ℕ, ◌≡◌, ◌⊎◌, ◌+◌, refl, true, false, [], ◌∷◌, some, inl, inr, Bytes, codes, if◌then◌else◌, arith,
}
use brokit.Async.{FsAccess, same_text, first_refusal, asks, named}
use brokit.Async.File.{File, text, nothing, answer, read_file_at}
use brokit.Async.Reading.{slice_of, read_file_at-slice}
use brokit.Async.Pool.{
  Pool, new_pool, submit, pick, finish_job, pick_from, take_at, hand_over, set_at, async_tick,
  async_has_pending, submits, picks, finishes, Reach, start, step,
}
use brokit.Async.Tally.{jobs}
use brokit.Async.Settling.{Matched, Reach-Matched}
use brokit.Async.Draining.{
  Work, stay, onward, PoolStep, picks_up, left_over, async_tick-async_has_pending, pending_ends,
}
use brokit.Async.Asking.{
  Args, not_given, rejects, call, dispatch, in_range, range_error, flush_before, decide,
}
use brokit.FsFd.{no_fds}

abbrev hello : File
hello = record { is_directory = false; opens = true; end_pos = 5; contents = codes "hello" }

hello_read : read_file_at true (codes "h") (some 1) (some 3) hello ≡ text (codes "ell")
unfolding read_file_at answer
hello_read =
    read_file_at-slice true (codes "h") hello (some 1) (some 3) refl refl (inr (refl, omega arith))

-- Two calls on the first thread, one on the second; one job of the first is done.
abbrev queued : Pool
queued = submit 0 (submit 1 (submit 0 new_pool))

queued_Reach : Reach queued
queued_Reach =
    let one = submit 0 new_pool in
    let two = submit 1 one in
    step two queued (step one two (step new_pool one start (submits 0 new_pool)) (submits 1 one))
      (submits 0 two)

read_file_at-slice_example :
    read_file_at true (codes "h") (some 1) (some 3) hello
    ≡ answer true (slice_of (some 1) (some 3) (codes "hello"))
read_file_at-slice_example =
    read_file_at-slice true (codes "h") hello (some 1) (some 3) refl refl (inr (refl, omega arith))

Reach-Matched_example : Matched 0 2 queued
Reach-Matched_example = Reach-Matched queued queued_Reach 0 2

abbrev taken_up : Pool
taken_up = record queued {
  queue = record { owner = 1; id = 1 } ∷ record { owner = 0; id = 2 } ∷ [];
  running = record { owner = 0; id = 1 } ∷ [];
}

queued_works : Work 1 queued taken_up
unfolding pick pick_from submit
queued_works = onward 0 queued taken_up taken_up (picks_up queued taken_up refl) (stay taken_up)

pending_ends_example :
    (1 + left_over taken_up ≡ left_over queued)
    × (((s'' : Pool) × PoolStep taken_up s'')
        ⊎ (async_has_pending 0 (async_tick 0 taken_up).0 ≡ false))
pending_ends_example = pending_ends 0 1 queued taken_up queued_Reach queued_works

abbrev one_running : Pool
one_running = record new_pool {
  running = record { owner = 0; id = 1 } ∷ [];
  pending = set_at 0 (record { next = 2; promises = 1 ∷ [] }) new_pool.pending;
}

-- One call, whose job is done and not taken.
abbrev one_done : Pool
one_done = hand_over (inl nothing) one_running (record { owner = 0; id = 1 }, [])

one_done_Reach : Reach one_done
unfolding pick pick_from finish_job take_at submit hand_over
one_done_Reach =
    let one = submit 0 new_pool in
    step one_running one_done
      (step one one_running (step new_pool one start (submits 0 new_pool))
        (picks one one_running refl))
      (finishes 0 (inl nothing) one_running one_done refl)

one_done_idle : (i : ℕ) → jobs 0 i one_done.queue + jobs 0 i one_done.running ≡ 0
unfolding hand_over jobs
one_done_idle i = omega arith

tick-has_pending_example : async_has_pending 0 (async_tick 0 one_done).0 ≡ false
tick-has_pending_example = async_tick-async_has_pending 0 one_done one_done_Reach one_done_idle

-- Moving a file asks for both of its paths; the second one is refused.
abbrev no_writes_to_b : Bytes → FsAccess → Bytes
no_writes_to_b path how = if same_text path (codes "b") then codes "denied" else []

abbrev rename_args : Args
rename_args = record {
  first = codes "a";
  second = codes "b";
  fd = 0;
  offset = not_given;
  length = not_given;
}

renamed :
    call no_writes_to_b (λ p. p) 0 (codes "rename") rename_args (new_pool, no_fds)
    ≡ ((new_pool, no_fds), rejects (codes "denied") (codes "b"))
unfolding call dispatch in_range range_error decide flush_before named asks first_refusal same_text
renamed = refl
