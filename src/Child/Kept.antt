-- ===== src/Child/Kept.antt =====
-- The grants of the children of src/api/child_process_spawn.cpp, and a change of one child.
use brokit.Prelude.{
  ℕ, suc, ◌≡◌, refl, sym, ap, ◌∙◌, ◌+◌, ◌≤◌, false, List, [], ◌∷◌, Option, none, some, Bytes, ◌==◌,
  if◌then◌else◌, arith, ==_iff, inl, inr, Bool-cases,
}
use brokit.Prelude.Table.{lookup, remove, put, lookup-put, lookup-remove}
use brokit.Child.{
  ChildHandle, ChildEffect, grants, releases, taken_back, kills, Children, release_held, add_child,
  revoke_child, Waited, child_poll, child_read, close_stdin, child_release, child_kill,
}

abbrev pub no_children : Children
no_children = record { children = []; next_child_id = 1; log = [] }

-- How many grants were taken for a child, and how many of its grants were released or taken back.
unfoldable pub granted : (id : ℕ) → List ChildEffect → ℕ
granted id [] = 0
granted id (grants j held ∷ log) = let rest = granted id log in if j == id then suc rest else rest
granted id (releases j held ∷ log) = granted id log
granted id (taken_back j held ∷ log) = granted id log
granted id (kills pid signal ∷ log) = granted id log

unfoldable pub settled : (id : ℕ) → List ChildEffect → ℕ
settled id [] = 0
settled id (grants j held ∷ log) = settled id log
settled id (releases j held ∷ log) = let rest = settled id log in if j == id then suc rest else rest
settled id (taken_back j held ∷ log) =
    let rest = settled id log in if j == id then suc rest else rest
settled id (kills pid signal ∷ log) = settled id log

-- 1 if the child is in the table and holds a grant.
unfoldable pub holding : Option ChildHandle → ℕ
holding none = 0
holding (some h) = if h.held == 0 then 0 else 1

-- 1 if the child is in the table, its exit was reported, and it holds a grant.
unfoldable pub lingering : Option ChildHandle → ℕ
lingering none = 0
lingering (some h) = if h.exit_reported then (if h.held == 0 then 0 else 1) else 0

-- What happens: js_spawnAsync, at its end; the natives; a grant that the gate takes back, one that is held.
pub data Step : Children → Children → Type 0 where
  spawns :
      (h : ChildHandle) (held : ℕ) (s : Children)
      → h.exit_reported ≡ false
      → Step s (add_child h held s).0
  polls : (id : ℕ) (w : Waited) (s : Children) → Step s (child_poll id w s).0
  reads : (id : ℕ) (s : Children) → Step s (child_read id s).0
  closes : (id : ℕ) (s : Children) → Step s (close_stdin id s).0
  frees : (id : ℕ) (s : Children) → Step s (child_release id s).0
  signals : (id : ℕ) (signal : Option ℕ) (s : Children) → Step s (child_kill id signal s).0
  revokes :
      (id : ℕ) (refusal : Bytes) (s : Children)
      → holding (lookup id s.children) ≡ 1
      → Step s (revoke_child id refusal s)

pub data Reach : Children → Type 0 where
  start : Reach no_children
  step : (s s' : Children) → Reach s → Step s s' → Reach s'

-- What holds of one id.
unfoldable pub Fine : (id : ℕ) → Children → Type 0
Fine id s =
    (settled id s.log + holding (lookup id s.children) ≡ granted id s.log)
    × (lingering (lookup id s.children) ≡ 0)
    × (s.next_child_id ≤ id → (holding (lookup id s.children) ≡ 0) × (granted id s.log ≡ 0))
    × (granted id s.log ≤ 1)

-- A release of the child `j` is seen at `j` only.
settled-release_held :
    (id j held : ℕ) (log : List ChildEffect)
    → settled id (release_held j held log)
      ≡ (if j == id then (if held == 0 then 0 else 1) else 0) + settled id log
unfolding release_held settled
settled-release_held id j held log = ground arith

granted-release_held :
    (id j held : ℕ) (log : List ChildEffect) → granted id (release_held j held log) ≡ granted id log
unfolding release_held granted
granted-release_held id j held log = ground arith

-- A change of the child `j` alone, by which `d` of its grants are settled.
pub edit-Fine :
    (s s' : Children) (j d : ℕ) (o : Option ChildHandle)
    → s'.next_child_id ≡ s.next_child_id
    → ((id : ℕ) → lookup id s'.children ≡ (if j == id then o else lookup id s.children))
    → ((id : ℕ) → settled id s'.log ≡ (if j == id then d else 0) + settled id s.log)
    → ((id : ℕ) → granted id s'.log ≡ granted id s.log)
    → d + holding o ≡ holding (lookup j s.children)
    → lingering o ≡ 0
    → ((id : ℕ) → Fine id s)
    → (id : ℕ) → Fine id s'
unfolding Fine
edit-Fine s s' j d o next found told same moved none_lingers fine id =
    let (all, none_left, fresh, once) = fine id in
    let same_log = same id in
    elim (Bool-cases (j == id)) [
      | inl here ↦
          let at : j ≡ id = (==_iff j id).0 here in
          let there : lookup id s'.children ≡ o =
            found id ∙ ap (λ b. if b then o else lookup id s.children) here in
          let more : settled id s'.log ≡ d + settled id s.log =
            told id ∙ ap (λ b. (if b then d else 0) + settled id s.log) here in
          let held' : holding (lookup id s'.children) ≡ holding o = ap holding there in
          let lingers' : lingering (lookup id s'.children) ≡ lingering o = ap lingering there in
          let held : holding (lookup j s.children) ≡ holding (lookup id s.children) =
            ap (λ k. holding (lookup k s.children)) at in
          (
            omega arith,
            omega arith,
            λ behind. let (a, b) = fresh (omega arith) in (omega arith, omega arith),
            omega arith,
          )
      | inr elsewhere ↦
          let there : lookup id s'.children ≡ lookup id s.children =
            found id ∙ ap (λ b. if b then o else lookup id s.children) elsewhere in
          let more : settled id s'.log ≡ 0 + settled id s.log =
            told id ∙ ap (λ b. (if b then d else 0) + settled id s.log) elsewhere in
          let held' : holding (lookup id s'.children) ≡ holding (lookup id s.children) =
            ap holding there in
          let lingers' : lingering (lookup id s'.children) ≡ lingering (lookup id s.children) =
            ap lingering there in
          (
            omega arith,
            omega arith,
            λ behind. let (a, b) = fresh (omega arith) in (omega arith, omega arith),
            omega arith,
          )
    ]

-- Nothing is settled where the log stays.
unsettled :
    (id j : ℕ) (log : List ChildEffect)
    → settled id log ≡ (if j == id then 0 else 0) + settled id log
unsettled id j log = ground arith

-- A child is written back with the grant and the report that it had.
pub rewrite-Fine :
    (s : Children) (j : ℕ) (h h' : ChildHandle)
    → lookup j s.children ≡ some h
    → h'.held ≡ h.held
    → h'.exit_reported ≡ h.exit_reported
    → ((id : ℕ) → Fine id s)
    → (id : ℕ) → Fine id (record s { children = put j h' s.children })
unfolding Fine holding lingering
rewrite-Fine s j h h' found held reported fine =
    let was : holding (lookup j s.children) ≡ holding (some h) = ap holding found in
    let lingered : lingering (lookup j s.children) ≡ lingering (some h) = ap lingering found in
    let none_left = (fine j).1 in
    let none_lingers : lingering (some h') ≡ 0 = ground arith in
    edit-Fine s (record s { children = put j h' s.children }) j 0 (some h') refl
      (λ id. lookup-put j id h' s.children) (λ id. unsettled id j s.log) (λ id. refl) (ground arith)
      none_lingers fine

pub release-Fine :
    (s : Children) (j : ℕ) (h : ChildHandle)
    → lookup j s.children ≡ some h
    → ((id : ℕ) → Fine id s)
    → (id : ℕ)
    → Fine id (record s { children = remove j s.children; log = release_held j h.held s.log })
unfolding holding lingering
release-Fine s j h found fine =
    edit-Fine s (record s { children = remove j s.children; log = release_held j h.held s.log }) j
      (holding (some h)) none refl (λ id. lookup-remove j id s.children)
      (λ id. settled-release_held id j h.held s.log) (λ id. granted-release_held id j h.held s.log)
      (ground arith ∙ sym (ap holding found)) refl fine

-- A child is written back with its exit reported, and its grant released.
pub report-Fine :
    (s : Children) (j : ℕ) (h h' : ChildHandle)
    → lookup j s.children ≡ some h
    → h'.held ≡ 0
    → ((id : ℕ) → Fine id s)
    → (id : ℕ)
    → Fine id (record s { children = put j h' s.children; log = release_held j h.held s.log })
unfolding holding lingering
report-Fine s j h h' found none_held fine =
    let was : holding (lookup j s.children) ≡ holding (some h) = ap holding found in
    edit-Fine s (record s { children = put j h' s.children; log = release_held j h.held s.log }) j
      (holding (some h)) (some h') refl (λ id. lookup-put j id h' s.children)
      (λ id. settled-release_held id j h.held s.log) (λ id. granted-release_held id j h.held s.log)
      (ground arith) (ground arith) fine

pub add-Fine :
    (h : ChildHandle) (held : ℕ) (s : Children)
    → h.exit_reported ≡ false
    → ((j : ℕ) → Fine j s)
    → (id : ℕ) → Fine id (add_child h held s).0
unfolding Fine add_child holding lingering settled granted
add-Fine h held s unreported fine id =
    let j = s.next_child_id in
    let (all, none_left, fresh, once) = fine id in
    let new : ChildHandle = record h { held = held } in
    elim (Bool-cases (j == id)) [
      | inl here ↦
          let at : j ≡ id = (==_iff j id).0 here in
          let there : lookup id (put j new s.children) ≡ some new =
            lookup-put j id new s.children
            ∙ ap (λ b. if b then some new else lookup id s.children) here in
          let held' : holding (lookup id (put j new s.children)) ≡ holding (some new) =
            ap holding there in
          let lingers' : lingering (lookup id (put j new s.children)) ≡ lingering (some new) =
            ap lingering there in
          let (none_held, none_granted) = fresh (omega arith) in
          (ground arith, ground arith, λ behind. absurd (omega arith), ground arith)
      | inr elsewhere ↦
          let there : lookup id (put j new s.children) ≡ lookup id s.children =
            lookup-put j id new s.children
            ∙ ap (λ b. if b then some new else lookup id s.children) elsewhere in
          let held' : holding (lookup id (put j new s.children)) ≡ holding (lookup id s.children) =
            ap holding there in
          let lingers' : lingering (lookup id (put j new s.children))
              ≡ lingering (lookup id s.children) =
            ap lingering there in
          (
            ground arith,
            omega arith,
            λ behind. let (a, b) = fresh (omega arith) in (omega arith, ground arith),
            ground arith,
          )
    ]
