-- ===== src/Watching.antt =====
-- The table of watchers of src/api/fs_watch.cpp, and the access grants that they are held under.
-- A map is an association list, the newest entry first; a watcher is its id.
mod Tests
pub mod Grants
use brokit.Prelude.{
  ℕ, ◌+◌, ◌≡◌, Bool, true, false, not, ◌||◌, List, [], ◌∷◌, ◌++◌, Option, none, some, Bytes,
  is_empty, codes, ◌==◌, if◌then◌else◌,
}

-- CtxState, with s_nextId_.
pub record CtxState : Type 0 where
  pub watchers : List ℕ
  pub held : List (ℕ × ℕ)
  pub revoked : List (ℕ × Bytes)
  pub next_id : ℕ

unfoldable pub member : ℕ → List ℕ → Bool
member id [] = false
member id (w ∷ ws) = w == id || member id ws

-- watchers.erase
unfoldable pub without : ℕ → List ℕ → List ℕ
without id [] = []
without id (w ∷ ws) = let rest = without id ws in if w == id then rest else w ∷ rest

-- held.erase
unfoldable pub release_key : ℕ → List (ℕ × ℕ) → List (ℕ × ℕ)
release_key id [] = []
release_key id ((j, ledger_id) ∷ held) =
    let rest = release_key id held in if j == id then rest else (j, ledger_id) ∷ rest

-- held.find
unfoldable pub held_for : ℕ → List (ℕ × ℕ) → Option ℕ
held_for id [] = none
held_for id ((j, ledger_id) ∷ held) = if j == id then some ledger_id else held_for id held

pub data CreateReply : Type 0 where
  number : ℕ → CreateReply
  undefined_value : CreateReply
  type_error denied : Bytes → CreateReply

-- What js_fs_watch_create is told: the refusal, empty where the gate allows; whether the path
-- exists; the error of a watcher that does not start; what the gate holds it under, 0 for nothing.
pub record CreateAnswers : Type 0 where
  pub refusal : Bytes
  pub exists_there : Bool
  pub start_error : Option Bytes
  pub ledger_id : ℕ

-- js_fs_watch_create for a path that is given as `abs_path`. An id is taken also where the watcher
-- does not start.
unfoldable pub watch_create : (abs_path : Bytes) → CreateAnswers → CtxState → CtxState × CreateReply
watch_create abs_path a s =
    let id = s.next_id in
    let taken : CtxState = record s { next_id = id + 1 } in
    let reason = codes "failed to start watcher" in
    if not (is_empty a.refusal)
    then (s, denied a.refusal)
    else if not a.exists_there
    then (s, type_error (codes "fs.watch: path does not exist: " ++ abs_path))
    else elim a.start_error [
      | some text ↦
          (taken, type_error (codes "fs.watch: " ++ (if is_empty text then reason else text)))
      | none ↦ (
        record taken {
          watchers = id ∷ without id s.watchers;
          held = if a.ledger_id == 0 then s.held else (id, a.ledger_id) ∷ release_key id s.held;
        },
        number id,
      )
    ]

-- js_fs_watch_close, with the grants that it releases.
unfoldable pub watch_close : ℕ → CtxState → CtxState × List ℕ
watch_close id s = (
  record s { watchers = without id s.watchers; held = release_key id s.held },
  elim (held_for id s.held) [ none ↦ [] | some ledger_id ↦ ledger_id ∷ [] ],
)

-- The callback by which the gate takes a grant back.
unfoldable pub revoke_watcher : ℕ → Bytes → CtxState → CtxState
revoke_watcher id refusal s = record s {
  watchers = without id s.watchers;
  held = release_key id s.held;
  revoked = if member id s.watchers then s.revoked ++ (id, refusal) ∷ [] else s.revoked;
}

-- The first part of js_fs_watch_tick: what is reported as revoked.
unfoldable pub take_revoked : CtxState → CtxState × List (ℕ × Bytes)
take_revoked s = (record s { revoked = [] }, s.revoked)

-- js_fs_watch_has_pending
unfoldable pub watch_has_pending : CtxState → Bool
watch_has_pending s = not (is_empty s.watchers) || not (is_empty s.revoked)

unfoldable pub grants : List (ℕ × ℕ) → List ℕ
grants [] = []
grants ((j, ledger_id) ∷ held) = ledger_id ∷ grants held

-- uninstallFSWatch, with the grants that it releases.
unfoldable pub uninstall_watch : CtxState → CtxState × List ℕ
uninstall_watch s = (record s { watchers = []; held = []; revoked = [] }, grants s.held)

abbrev pub no_watchers : CtxState
no_watchers = record { watchers = []; held = []; revoked = []; next_id = 1 }

-- What happens to a grant at the gate: it is given, released by the watchers, or taken back.
pub data GateEvent : Type 0 where
  gives releases takes_back : (ledger_id : ℕ) → GateEvent

-- The grant of a watcher that was made; 0 is none.
unfoldable pub given_for : CreateReply → (ledger_id : ℕ) → List GateEvent
given_for (number id) ledger_id = if ledger_id == 0 then [] else gives ledger_id ∷ []
given_for undefined_value ledger_id = []
given_for (type_error text) ledger_id = []
given_for (denied refusal) ledger_id = []

unfoldable pub releases_all : List ℕ → List GateEvent
releases_all [] = []
releases_all (ledger_id ∷ ids) = releases ledger_id ∷ releases_all ids

-- A call of a native, a grant that the gate takes back from the watcher that is held under it, the teardown, with what
-- happened at the gate so far, the last first.
pub data Step : CtxState → List GateEvent → CtxState → List GateEvent → Type 0 where
  creates :
      (abs_path : Bytes) (a : CreateAnswers) (s : CtxState) (log : List GateEvent)
      → Step s log
          (watch_create abs_path a s).0
          (given_for (watch_create abs_path a s).1 a.ledger_id ++ log)
  closes :
      (id : ℕ) (s : CtxState) (log : List GateEvent)
      → Step s log (watch_close id s).0 (releases_all (watch_close id s).1 ++ log)
  revokes :
      (id ledger_id : ℕ) (refusal : Bytes) (s : CtxState) (log : List GateEvent)
      → held_for id s.held ≡ some ledger_id
      → Step s log (revoke_watcher id refusal s) (takes_back ledger_id ∷ log)
  reports : (s : CtxState) (log : List GateEvent) → Step s log (take_revoked s).0 log
  uninstalls :
      (s : CtxState) (log : List GateEvent)
      → Step s log (uninstall_watch s).0 (releases_all (uninstall_watch s).1 ++ log)

pub data Reach : CtxState → List GateEvent → Type 0 where
  start : Reach no_watchers []
  then_step :
      (s t : CtxState) (log log' : List GateEvent) → Reach s log → Step s log t log' → Reach t log'
