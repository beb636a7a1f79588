-- ===== src/FsFd/Tests.antt =====
-- Descriptors of src/api/fs_fd.cpp at work, and the theorems at them.
use brokit.Prelude.{
  ℕ, ◌+◌, ◌≤◌, ◌≡◌, ◌↔◌, refl, true, false, [], none, some, Bytes, codes, pos, inr, if◌then◌else◌,
}
use brokit.Async.{FsAccess, same_text}
use brokit.FsFd.{OpenFile, Fds, no_fds, window_fits, open_sync, no_op}
use brokit.FsFd.Calls.{checked, window, to_nat, read_from, write_to}
use brokit.FsFd.Window.{window_fits_lem, checked-window}
use brokit.FsFd.Rights.{AllGranted}
use brokit.FsFd.Granted.{Reach, opened, start, step, Reach-AllGranted}
use brokit.FsFd.Order.{Ordered, Used, read, written, Used-Ordered}

window_fits_lem_example :
    (window_fits (pos 2) (pos 3) 5 ≡ true)
    ↔ ((o : ℕ) × (l : ℕ) × (pos 2 ≡ pos o) × (pos 3 ≡ pos l) × (o + l ≤ 5))
window_fits_lem_example = window_fits_lem (pos 2) (pos 3) 5

window_read :
    checked (codes "readSync") (some 8) (some 6) (some (pos 2)) (some (pos 3)) ≡ inr (2, 3)
unfolding checked window window_fits to_nat
window_read = refl

checked-window_example : (n : ℕ) × (some 6 ≡ some n) × (2 + 3 ≤ n)
checked-window_example =
    checked-window (codes "readSync") (some 8) (some 6) (some (pos 2)) (some (pos 3)) 2 3
      window_read

-- The gate refuses "secret"; "a" is opened for writing and reading.
abbrev no_secrets : Bytes → FsAccess → Bytes
no_secrets path how = if same_text path (codes "secret") then codes "denied" else []

abbrev one_open : Fds
one_open =
    (open_sync (λ p _. p) no_secrets (λ p. p) (λ _. true) (λ _. true) (some (codes "a"))
      (some (codes "w+")) no_fds).0

one_open_Reach : Reach (λ p _. p) no_secrets (λ p. p) (λ _. true) (λ _. true) one_open
one_open_Reach = step no_fds one_open start (opened (some (codes "a")) (some (codes "w+")) no_fds)

Reach-AllGranted_example : AllGranted no_secrets one_open
Reach-AllGranted_example =
    Reach-AllGranted (λ p _. p) no_secrets (λ p. p) (λ _. true) (λ _. true) one_open one_open_Reach

-- A write, and a read that goes on behind it.
abbrev fresh : OpenFile
fresh = record {
  ops = [];
  path = codes "a";
  readable = true;
  writable = true;
  append = false;
  last_op = no_op;
}

abbrev write_read : OpenFile
write_read = (read_from none 0 4 true 4 (write_to none 0 4 true fresh).0).0

Used-Ordered_example : Ordered write_read.ops
Used-Ordered_example = Used-Ordered write_read (
    read none 0 4 true 4 (write_to none 0 4 true fresh).0
      (written none 0 4 fresh (Used.opened (codes "a") true true)))
