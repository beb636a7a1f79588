-- ===== src/Child.antt =====
-- The children of src/api/child_process_spawn.cpp and src/api/child_process_internal.h, for Linux and macOS. What the
-- system answers is an argument; what is asked of it and of the gate is in a log.
pub mod Pipe
pub mod Kept
pub mod Grants
mod Tests
use brokit.Prelude.{
  ℕ, zero, suc, ◌+◌, ◌-◌, Bool, true, false, not, List, [], ◌∷◌, ◌++◌, Option, none, some, Bytes,
  codes, is_empty, length, ltb, ◌==◌, if◌then◌else◌, ℤ, pos, negsuc,
}
use brokit.Prelude.Table.{lookup, remove, put}
use brokit.Child.Pipe.{PipeBuf, take_all}

-- ChildHandle. inWrite is whether it is open; a stopped reader is in its PipeBuf.
pub record ChildHandle : Type 0 where
  pub pid : ℕ
  pub exit_code : ℤ
  pub signal : Bytes
  pub piped : Bool
  pub out : PipeBuf
  pub err : PipeBuf
  pub in_write : Bool
  pub exit_reported : Bool
  pub held : ℕ
  pub revoked_by : Bytes

-- What is asked of the gate and of the system: a grant taken for a child, one released, one that the gate took
-- back, a signal.
pub data ChildEffect : Type 0 where
  grants releases taken_back : (id held : ℕ) → ChildEffect
  kills : (pid signal : ℕ) → ChildEffect

-- g_children and g_nextChildId, with the log.
pub record Children : Type 0 where
  pub children : List (ℕ × ChildHandle)
  pub next_child_id : ℕ
  pub log : List ChildEffect

-- What a native gives; the texts leave the id of the child out.
pub data ChildResult : Type 0 where
  type_error range_error : Bytes → ChildResult
  null : ChildResult
  flag : Bool → ChildResult
  number : ℤ → ChildResult
  exit_info : (code : ℤ) (signal revoked : Bytes) → ChildResult
  chunks : (stdout stderr : Option Bytes) (stdout_eof stderr_eof : Bool) → ChildResult

-- releaseHeldAccess
unfoldable pub release_held : (id held : ℕ) → List ChildEffect → List ChildEffect
release_held id held log = if held == 0 then log else releases id held ∷ log

-- The end of js_spawnAsync: the child is held under the gate, 0 for nothing, and put into the table.
unfoldable pub add_child : (h : ChildHandle) (held : ℕ) → Children → Children × ℕ
add_child h held s =
    let id = s.next_child_id in
    (
      record {
        children = put id (record h { held = held }) s.children;
        next_child_id = suc id;
        log = if held == 0 then s.log else grants id held ∷ s.log;
      },
      id,
    )

unfoldable pub revoke_found : (id : ℕ) (refusal : Bytes) → ChildHandle → Children → Children
revoke_found id refusal h s =
    let log = taken_back id h.held ∷ s.log in
    let h' = record h { held = 0 } in
    if h.exit_reported then record s { children = put id h' s.children; log = log } else record s {
      children = put id (record h' { revoked_by = refusal }) s.children;
      log = if ltb 0 h.pid then kills h.pid 9 ∷ log else log;
    }

-- revokeChild
unfoldable pub revoke_child : (id : ℕ) (refusal : Bytes) → Children → Children
revoke_child id refusal s = elim (lookup id s.children) [
  | none ↦ s
  | some h ↦ revoke_found id refusal h s
]

-- What waitpid answers: that the child runs, how it ended, or an error. A signal's name is none where it has none.
pub data Waited : Type 0 where
  runs fails : Waited
  exited : (status : ℕ) → Waited
  signaled : (signal : ℕ) (name : Bytes) → Waited

unfoldable pub code_of : Waited → ℤ
code_of runs = negsuc 0
code_of fails = negsuc 0
code_of (exited status) = pos status
code_of (signaled signal name) = pos (128 + signal)

-- The signal's name, or SIG and its number, which the caller writes.
unfoldable pub signal_of : Waited → Bytes
signal_of runs = []
signal_of fails = []
signal_of (exited status) = []
signal_of (signaled signal name) = name

-- exitInfo
unfoldable pub exit_of : ChildHandle → ChildResult
exit_of h = exit_info h.exit_code h.signal h.revoked_by

unfoldable pub has_ended : Waited → Bool
has_ended runs = false
has_ended fails = true
has_ended (exited status) = true
has_ended (signaled signal name) = true

unfoldable pub poll_ended : (id : ℕ) → Waited → ChildHandle → Children → Children × ChildResult
poll_ended id w h s =
    let h' = record h {
      exit_code = code_of w;
      signal = signal_of w;
      exit_reported = true;
      held = 0;
    } in
    (
      record s {
        children = if h.piped then put id h' s.children else remove id s.children;
        log = release_held id h.held s.log;
      },
      exit_of h',
    )

unfoldable pub poll_found : (id : ℕ) → Waited → ChildHandle → Children → Children × ChildResult
poll_found id w h s =
    if h.exit_reported
    then (s, exit_of h)
    else if has_ended w
    then poll_ended id w h s
    else (s, null)

-- js_childPoll; what waitpid answers if it is asked.
unfoldable pub child_poll : (id : ℕ) → Waited → Children → Children × ChildResult
child_poll id w s = elim (lookup id s.children) [
  | none ↦ (s, range_error (codes "childPoll: unknown child id"))
  | some h ↦ poll_found id w h s
]

unfoldable pub read_found : (id : ℕ) → ChildHandle → Children → Children × ChildResult
read_found id h s =
    let (out, stdout, stdout_eof) = take_all h.out in
    let (err, stderr, stderr_eof) = take_all h.err in
    if not h.piped
    then (s, type_error (codes "childRead: child was not spawned with stdio:'pipe'"))
    else (
      record s { children = put id (record h { out = out; err = err }) s.children },
      chunks stdout stderr stdout_eof stderr_eof,
    )

-- js_childRead
unfoldable pub child_read : (id : ℕ) → Children → Children × ChildResult
child_read id s = elim (lookup id s.children) [
  | none ↦ (s, range_error (codes "childRead: unknown child id"))
  | some h ↦ read_found id h s
]

-- The loop over ::write: what each call answers, none where errno is EINTR, 0 where it fails or writes nothing, as
-- behind the last.
unfoldable pub write_loop : List (Option ℕ) → (written size : ℕ) → ℕ
write_loop [] written size = written
write_loop (none ∷ answers) written size = write_loop answers written size
write_loop (some n ∷ answers) written size =
    let rest = write_loop answers (written + n) size in
    if not (ltb written size) then written else if n == 0 then written else rest

-- js_childWrite of `size` bytes.
unfoldable pub child_write : (id size : ℕ) → List (Option ℕ) → Children → ChildResult
child_write id size answers s = elim (lookup id s.children) [
  | none ↦ range_error (codes "childWrite: unknown child id")
  | some h ↦
      if not h.piped
      then type_error (codes "childWrite: child was not spawned with stdio:'pipe'")
      else if not h.in_write
      then number (negsuc 0)
      else number (pos (write_loop answers 0 size))
]

-- js_childCloseStdin
unfoldable pub close_stdin : (id : ℕ) → Children → Children × ChildResult
close_stdin id s = elim (lookup id s.children) [
  | none ↦ (s, flag false)
  | some h ↦ (record s { children = put id (record h { in_write = false }) s.children }, flag true)
]

-- js_childRelease, with the destructor of the child.
unfoldable pub child_release : (id : ℕ) → Children → Children × ChildResult
child_release id s = elim (lookup id s.children) [
  | none ↦ (s, flag false)
  | some h ↦
      (record s { children = remove id s.children; log = release_held id h.held s.log }, flag true)
]

-- js_childKill, with the signal that was asked for, none if it was given none or an unknown one.
unfoldable pub child_kill : (id : ℕ) (signal : Option ℕ) → Children → Children × ChildResult
child_kill id signal s = elim (lookup id s.children) [
  | none ↦ (s, flag false)
  | some h ↦
      (record s { log = kills h.pid (elim signal [ none ↦ 15 | some n ↦ n ]) ∷ s.log }, flag true)
]
