-- ===== src/Child/Tests.antt =====
-- Children of src/api/child_process_spawn.cpp at work, and the theorems at them.
use brokit.Prelude.{
  ◌≡◌, refl, ◌+◌, ◌≤◌, true, false, [], ◌∷◌, ◌++◌, none, some, codes, length, pos, negsuc,
  if◌then◌else◌,
}
use brokit.Prelude.Table.{lookup, put, remove}
use brokit.Child.{
  ChildHandle, Children, exit_info, grants, releases, add_child, child_poll, poll_found, poll_ended,
  release_held, exit_of, has_ended, code_of, signal_of, signaled, write_loop,
}
use brokit.Child.Pipe.{
  PipeBuf, new_pipe, has_room, has_read, find_room, read_with, reader_step, take_all, pending,
  arrived, or_nothing, Run, start, reads, Run-given, Run-bound,
}
use brokit.Child.Kept.{no_children, granted, settled, holding, lingering, spawns, Reach}
use brokit.Child.Grants.{Reach-settled}
use brokit.Child.Kept as Kept

-- A pipe of four bytes at most, as its reader goes through its loop.
abbrev roomy : PipeBuf
roomy = record (new_pipe 4) { reader = has_room 4 }

abbrev full : PipeBuf
full = record (new_pipe 4) { reader = has_read (codes "abc") }

abbrev added : PipeBuf
added = record (new_pipe 4) { data_bytes = codes "abc" }

abbrev read_more : PipeBuf
read_more = record added { reader = has_room 1 }

added-Run : Run added (codes "abc") []
unfolding reader_step find_room read_with arrived
added-Run =
    reads false none full added (codes "abc") []
      (reads false (some (codes "abc")) roomy full [] []
        (reads false none (new_pipe 4) roomy [] [] (start 4) refl) refl)
      refl

read_more-Run : Run read_more (codes "abc") []
unfolding reader_step find_room arrived
read_more-Run = reads false none added read_more (codes "abc") [] added-Run refl

Run-given_example :
    ([] ++ (or_nothing (take_all read_more).1 ++ pending read_more.reader) ≡ codes "abc")
    × ((if (take_all read_more).2 then pending read_more.reader else []) ≡ [])
Run-given_example = Run-given read_more (codes "abc") [] read_more-Run

Run-bound_example : length read_more.data_bytes ≤ read_more.high_water
Run-bound_example = Run-bound read_more (codes "abc") [] read_more-Run

abbrev sleeper : ChildHandle
sleeper = record {
  pid = 70;
  exit_code = negsuc 0;
  signal = [];
  piped = true;
  out = new_pipe 4;
  err = new_pipe 4;
  in_write = true;
  exit_reported = false;
  held = 0;
  revoked_by = [];
}

abbrev one_child : Children
one_child = (add_child sleeper 9 no_children).0

abbrev one_killed : Children
one_killed = (child_poll 1 (signaled 9 (codes "SIGKILL")) one_child).0

one_killed_reach : Reach one_killed
one_killed_reach =
    Kept.step one_child one_killed
      (Kept.step no_children one_child Kept.start (spawns sleeper 9 no_children refl))
      (Kept.polls 1 (signaled 9 (codes "SIGKILL")) one_child)

Reach-settled_example :
    (settled 1 one_killed.log + holding (lookup 1 one_killed.children) ≡ granted 1 one_killed.log)
    × (granted 1 one_killed.log ≤ 1)
    × (lingering (lookup 1 one_killed.children) ≡ 0)
Reach-settled_example = Reach-settled one_killed one_killed_reach 1

one_killed_log : one_killed.log ≡ releases 1 9 ∷ grants 1 9 ∷ []
unfolding child_poll poll_found poll_ended release_held has_ended add_child lookup put remove
one_killed_log = refl

one_killed_info :
    (child_poll 1 (signaled 9 (codes "SIGKILL")) one_child).1
    ≡ exit_info (pos 137) (codes "SIGKILL") []
unfolding child_poll poll_found poll_ended exit_of code_of signal_of has_ended add_child lookup put
    remove
one_killed_info = refl

interrupted_write : write_loop (some 2 ∷ none ∷ some 3 ∷ some 9 ∷ []) 0 5 ≡ 5
unfolding write_loop
interrupted_write = refl
