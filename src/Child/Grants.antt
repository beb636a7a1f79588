-- ===== src/Child/Grants.antt =====
-- The grants of the children of src/api/child_process_spawn.cpp, through every history.
use brokit.Prelude.{
  ℕ, ◌≡◌, refl, ◌+◌, ◌≤◌, true, false, not, ◌∷◌, some, Bytes, ltb, arith, if_elim, option_elim,
}
use brokit.Prelude.Table.{lookup, remove, put, lookup-put}
use brokit.Child.{
  ChildHandle, taken_back, kills, Children, ChildResult, release_held, revoke_child, revoke_found,
  Waited, poll_ended, poll_found, child_poll, child_read, read_found, close_stdin, child_release,
  child_kill, has_ended, code_of, signal_of,
}
use brokit.Child.Kept.{
  granted, settled, holding, lingering, Step, spawns, polls, reads, closes, frees, signals, revokes,
  Reach, start, step, Fine, edit-Fine, rewrite-Fine, release-Fine, report-Fine, add-Fine,
}

-- A signal alone changes no grant.
kill-Fine :
    (s : Children) (pid signal id : ℕ)
    → Fine id s
    → Fine id (record s { log = kills pid signal ∷ s.log })
unfolding Fine settled granted
kill-Fine s pid signal id h = h

poll_ended-Fine :
    (s : Children) (j : ℕ) (w : Waited) (h : ChildHandle)
    → lookup j s.children ≡ some h
    → ((id : ℕ) → Fine id s)
    → (id : ℕ) → Fine id (poll_ended j w h s).0
unfolding poll_ended
poll_ended-Fine s j w h found fine id =
    let h' : ChildHandle = record h {
      exit_code = code_of w;
      signal = signal_of w;
      exit_reported = true;
      held = 0;
    } in
    if_elim (λ m. Fine id (record s { children = m; log = release_held j h.held s.log })) h.piped
      (put j h' s.children) (remove j s.children) (λ _. report-Fine s j h h' found refl fine id)
      (λ _. release-Fine s j h found fine id)

-- The gate takes back the grant of a child that holds it.
taken-Fine :
    (s : Children) (j : ℕ) (h h' : ChildHandle)
    → lookup j s.children ≡ some h
    → h'.held ≡ 0
    → holding (lookup j s.children) ≡ 1
    → ((id : ℕ) → Fine id s)
    → (id : ℕ)
    → Fine id (record s { children = put j h' s.children; log = taken_back j h.held ∷ s.log })
unfolding holding lingering settled granted
taken-Fine s j h h' found none_held holds fine =
    edit-Fine s (record s { children = put j h' s.children; log = taken_back j h.held ∷ s.log }) j 1
      (some h') refl (λ id. lookup-put j id h' s.children) (λ id. ground arith) (λ id. refl)
      (ground arith) (ground arith) fine

revoke_found-Fine :
    (s : Children) (j : ℕ) (refusal : Bytes) (h : ChildHandle)
    → lookup j s.children ≡ some h
    → holding (lookup j s.children) ≡ 1
    → ((id : ℕ) → Fine id s)
    → (id : ℕ) → Fine id (revoke_found j refusal h s)
unfolding revoke_found
revoke_found-Fine s j refusal h found holds fine id =
    let h0 : ChildHandle = record h { held = 0 } in
    let h1 : ChildHandle = record h0 { revoked_by = refusal } in
    let log = taken_back j h.held ∷ s.log in
    let killed = taken-Fine s j h h1 found refl holds fine id in
    if_elim (Fine id) h.exit_reported _ _ (λ _. taken-Fine s j h h0 found refl holds fine id)
      (λ _.
        if_elim (λ l. Fine id (record s { children = put j h1 s.children; log = l })) (ltb 0 h.pid)
          (kills h.pid 9 ∷ log) log
          (λ _.
            kill-Fine (record s { children = put j h1 s.children; log = log }) h.pid 9 id killed)
          (λ _. killed))

step-Fine : (s s' : Children) → Step s s' → ((id : ℕ) → Fine id s) → (id : ℕ) → Fine id s'
unfolding child_poll poll_found child_read read_found close_stdin child_release child_kill
    revoke_child
step-Fine s _ (spawns h held _ fresh) fine id = add-Fine h held s fresh fine id
step-Fine s _ (polls j w _) fine id =
    option_elim (λ (r : Children × ChildResult). Fine id r.0) (lookup j s.children) _ _ (fine id)
      (λ h found.
        if_elim (λ (r : Children × ChildResult). Fine id r.0) h.exit_reported _ _ (λ _. fine id)
          (λ _.
            if_elim (λ (r : Children × ChildResult). Fine id r.0) (has_ended w) _ _
              (λ _. poll_ended-Fine s j w h found fine id) (λ _. fine id)))
step-Fine s _ (reads j _) fine id =
    option_elim (λ (r : Children × ChildResult). Fine id r.0) (lookup j s.children) _ _ (fine id)
      (λ h found.
        if_elim (λ (r : Children × ChildResult). Fine id r.0) (not h.piped) _ _ (λ _. fine id)
          (λ _. rewrite-Fine s j h _ found refl refl fine id))
step-Fine s _ (closes j _) fine id =
    option_elim (λ (r : Children × ChildResult). Fine id r.0) (lookup j s.children) _ _ (fine id)
      (λ h found. rewrite-Fine s j h (record h { in_write = false }) found refl refl fine id)
step-Fine s _ (frees j _) fine id =
    option_elim (λ (r : Children × ChildResult). Fine id r.0) (lookup j s.children) _ _ (fine id)
      (λ h found. release-Fine s j h found fine id)
step-Fine s _ (signals j signal _) fine id =
    option_elim (λ (r : Children × ChildResult). Fine id r.0) (lookup j s.children) _ _ (fine id)
      (λ h found. kill-Fine s h.pid _ id (fine id))
step-Fine s _ (revokes j refusal _ holds) fine id =
    option_elim (Fine id) (lookup j s.children) _ _ (fine id)
      (λ h found. revoke_found-Fine s j refusal h found holds fine id)

reach-Fine : (s : Children) → Reach s → (id : ℕ) → Fine id s
unfolding Fine settled granted holding lingering lookup
reach-Fine _ start id = (refl, refl, λ _. (refl, refl), omega arith)
reach-Fine _ (step s s' r st) id = step-Fine s s' st (reach-Fine s r) id

-- However the natives are called and the gate takes grants back: of each child at most one grant was taken, and it is
-- held by the child in the table, or it was released, or it was taken back, only one of these and once; and a child
-- whose exit was reported holds none.
pub Reach-settled :
    (s : Children)
    → Reach s
    → (id : ℕ)
    → (settled id s.log + holding (lookup id s.children) ≡ granted id s.log)
      × (granted id s.log ≤ 1)
      × (lingering (lookup id s.children) ≡ 0)
unfolding Fine
Reach-settled s r id =
    let (all, none_left, fresh, once) = reach-Fine s r id in (all, once, none_left)
