-- ===== src/Watching/Grants.antt =====
-- No grant of src/api/fs_watch.cpp outlives its watcher.
use brokit.Prelude.{
  ℕ, suc, ◌+◌, ◌≤◌, refl, ap, Bool, Bool-cases, inl, inr, Option, none, some, ◌++◌, if◌then◌else◌,
  ◌≡◌, true, false, not, List, [], ◌∷◌, Bytes, All, arith, is_empty, ◌==◌, if_elim, option_elim,
}
use brokit.Prelude.Tally.{tally}
use brokit.Watching.{
  CtxState, member, without, release_key, CreateAnswers, CreateReply, watch_create, watch_close,
  revoke_watcher, take_revoked, uninstall_watch, held_for, grants, GateEvent, gives, releases,
  takes_back, given_for, releases_all, Step, creates, closes, revokes, reports, uninstalls, Reach,
  start, then_step,
}

-- Every grant is held for a watcher of the table.
abbrev pub AllWatched : List ℕ → List (ℕ × ℕ) → Type 0
AllWatched watchers = All (λ (h : ℕ × ℕ). member h.0 watchers ≡ true)

member-without :
    (id j : ℕ) (ws : List ℕ)
    → (j == id) ≡ false
    → member j ws ≡ true
    → member j (without id ws) ≡ true
unfolding member without
member-without id j [] other h = h
member-without id j (w ∷ ws) other h = ground (arith, member-without id j ws)

-- What goes with its watcher leaves the others watched.
AllWatched-without :
    (id : ℕ) (ws : List ℕ) (held : List (ℕ × ℕ))
    → AllWatched ws held
    → AllWatched (without id ws) (release_key id held)
unfolding release_key
AllWatched-without id ws [] hs = tt
AllWatched-without id ws ((j, ledger_id) ∷ held) (h, hs) =
    if_elim (AllWatched (without id ws)) (j == id) _ _ (λ _. AllWatched-without id ws held hs)
      (λ other. (member-without id j ws other h, AllWatched-without id ws held hs))

-- A grant that is kept stays watched when a watcher is added.
AllWatched-cons :
    (id : ℕ) (ws : List ℕ) (held : List (ℕ × ℕ))
    → AllWatched ws held
    → AllWatched (id ∷ without id ws) held
unfolding member
AllWatched-cons id ws [] hs = tt
AllWatched-cons id ws ((j, ledger_id) ∷ held) (h, hs) =
    (ground (arith, member-without id j ws), AllWatched-cons id ws held hs)

AllWatched-release_key :
    (id : ℕ) (ws : List ℕ) (held : List (ℕ × ℕ))
    → AllWatched ws held
    → AllWatched ws (release_key id held)
unfolding release_key
AllWatched-release_key id ws [] hs = tt
AllWatched-release_key id ws ((j, ledger_id) ∷ held) (h, hs) =
    if_elim (AllWatched ws) (j == id) _ _ (λ _. AllWatched-release_key id ws held hs)
      (λ _. (h, AllWatched-release_key id ws held hs))

abbrev Watched : CtxState → Type 0
Watched s = AllWatched s.watchers s.held

abbrev Left : CtxState × CreateReply → Type 0
Left r = Watched r.0

head-member : (id : ℕ) (ws : List ℕ) → member id (id ∷ ws) ≡ true
unfolding member
head-member id ws = ground arith

watch_create-Watched :
    (path : Bytes) (a : CreateAnswers) (s : CtxState)
    → Watched s
    → Watched (watch_create path a s).0
unfolding watch_create
watch_create-Watched path a s h =
    let id = s.next_id in
    let ws = id ∷ without id s.watchers in
    if_elim Left (not (is_empty a.refusal)) _ _ (λ _. h)
      λ _.
        if_elim Left (not a.exists_there) _ _ (λ _. h)
          λ _.
            option_elim Left a.start_error _ _
              (if_elim (AllWatched ws) (a.ledger_id == 0) _ _
                (λ _. AllWatched-cons id s.watchers s.held h)
                (λ _. (
                  head-member id (without id s.watchers),
                  AllWatched-release_key id ws s.held (AllWatched-cons id s.watchers s.held h),
                )))
              (λ text _. h)

unfoldable pub gives_it : ℕ → GateEvent → Bool
gives_it g (gives ledger_id) = ledger_id == g
gives_it g (releases ledger_id) = false
gives_it g (takes_back ledger_id) = false

unfoldable pub ends_it : ℕ → GateEvent → Bool
ends_it g (gives ledger_id) = false
ends_it g (releases ledger_id) = ledger_id == g
ends_it g (takes_back ledger_id) = ledger_id == g

-- How many watchers are held under a grant, and how often a watcher is a key.
unfoldable pub held_under : ℕ → List (ℕ × ℕ) → ℕ
held_under g [] = 0
held_under g ((j, ledger_id) ∷ held) =
    let rest = held_under g held in if ledger_id == g then suc rest else rest

unfoldable keyed : ℕ → List (ℕ × ℕ) → ℕ
keyed id [] = 0
keyed id ((j, ledger_id) ∷ held) = let rest = keyed id held in if j == id then suc rest else rest

keyed-release_key :
    (i id : ℕ) (held : List (ℕ × ℕ))
    → keyed i (release_key id held) ≡ (if id == i then 0 else keyed i held)
unfolding keyed release_key
keyed-release_key i id [] = ground arith
keyed-release_key i id ((j, ledger_id) ∷ held) = ground (arith, keyed-release_key i id held)

-- What goes with its watcher is what is held for it.
abbrev here : ℕ → Option ℕ → ℕ
here g none = 0
here g (some ledger_id) = if ledger_id == g then 1 else 0

held_under-none :
    (g id : ℕ) (held : List (ℕ × ℕ))
    → keyed id held ≡ 0
    → held_under g (release_key id held) ≡ held_under g held
unfolding held_under release_key keyed
held_under-none g id [] h = refl
held_under-none g id ((j, ledger_id) ∷ held) h =
    ground (arith, h, held_under-none g id held (ground (arith, h)))

held_under-release_key :
    (g id : ℕ) (held : List (ℕ × ℕ))
    → keyed id held ≤ 1
    → held_under g (release_key id held) + here g (held_for id held) ≡ held_under g held
unfolding held_under release_key keyed held_for
held_under-release_key g id [] h = omega arith
held_under-release_key g id ((j, ledger_id) ∷ held) h =
    let alone : (j == id) ≡ true → held_under g (release_key id held) ≡ held_under g held =
      λ e. held_under-none g id held (ground (arith, h, e)) in
    let others : (j == id) ≡ false
        → held_under g (release_key id held) + here g (held_for id held) ≡ held_under g held =
      λ e. held_under-release_key g id held (ground (arith, h, e)) in
    elim (Bool-cases (j == id)) [
      | inl e ↦ rw e (ground (arith, alone e))
      | inr e ↦ rw e (ground (arith, others e))
    ]

-- What holds of the table and of a grant: each watcher has one grant at most, ids that were not handed out none, and
-- what was given is held, released or taken back.
abbrev Balanced : CtxState → List GateEvent → Type 0
Balanced s log =
    ((i : ℕ) → (keyed i s.held ≤ 1) × (s.next_id ≤ i → keyed i s.held ≡ 0))
    × ((g : ℕ) → held_under g s.held + tally (ends_it g) log ≡ tally (gives_it g) log)

released_ends :
    (g : ℕ) (held : List (ℕ × ℕ)) (log : List GateEvent)
    → (tally (ends_it g) (releases_all (grants held) ++ log)
        ≡ held_under g held + tally (ends_it g) log)
      × (tally (gives_it g) (releases_all (grants held) ++ log) ≡ tally (gives_it g) log)
unfolding releases_all grants held_under tally ends_it gives_it
released_ends g [] log = (omega arith, refl)
released_ends g ((j, ledger_id) ∷ held) log =
    let (a, b) = released_ends g held log in (ground (arith, a), ground (arith, b))

freed_ends :
    (g : ℕ) (o : Option ℕ) (log : List GateEvent)
    → let es = releases_all (elim o [ none ↦ [] | some ledger_id ↦ ledger_id ∷ [] ]) ++ log in
      (tally (ends_it g) es ≡ here g o + tally (ends_it g) log)
      × (tally (gives_it g) es ≡ tally (gives_it g) log)
unfolding releases_all tally ends_it gives_it
freed_ends g none log = (omega arith, refl)
freed_ends g (some ledger_id) log = (ground arith, refl)

module _ (id : ℕ) (s : CtxState) (log : List GateEvent) (h : Balanced s log) where
  freed-keyed :
      (i : ℕ)
      → (keyed i (release_key id s.held) ≤ 1)
        × (s.next_id ≤ i → keyed i (release_key id s.held) ≡ 0)
  freed-keyed i =
      let (once, unborn) = h.0 i in
      let gone = keyed-release_key i id s.held in
      (ground (arith, once, gone), λ new. ground (arith, unborn new, gone))

  watch_close-Balanced : Balanced (watch_close id s).0 (releases_all (watch_close id s).1 ++ log)
  unfolding watch_close
  watch_close-Balanced = (
    freed-keyed,
    λ g.
        let (ends, given) = freed_ends g (held_for id s.held) log in
        omega (arith, h.1 g, ends, given, held_under-release_key g id s.held (h.0 id).0),
  )

  revoke_watcher-Balanced :
      (ledger_id : ℕ) (refusal : Bytes)
      → held_for id s.held ≡ some ledger_id
      → Balanced (revoke_watcher id refusal s) (takes_back ledger_id ∷ log)
  unfolding revoke_watcher tally ends_it gives_it
  revoke_watcher-Balanced ledger_id refusal found = (
    freed-keyed,
    λ g.
        let it : here g (held_for id s.held) ≡ here g (some ledger_id) = ap (here g) found in
        ground (arith, h.1 g, it, held_under-release_key g id s.held (h.0 id).0),
  )

watch_create-Balanced :
    (path : Bytes) (a : CreateAnswers) (s : CtxState) (log : List GateEvent)
    → Balanced s log
    → Balanced (watch_create path a s).0 (given_for (watch_create path a s).1 a.ledger_id ++ log)
unfolding watch_create given_for tally ends_it gives_it keyed held_under
watch_create-Balanced path a s log h =
    let P : CtxState × CreateReply → Type 0 =
      λ x. Balanced x.0 (given_for x.1 a.ledger_id ++ log) in
    let taken : (i : ℕ) → (keyed i s.held ≤ 1) × (s.next_id + 1 ≤ i → keyed i s.held ≡ 0) =
      λ i. let (once, unborn) = h.0 i in (once, λ new. unborn (omega (arith, new))) in
    if_elim P (not (is_empty a.refusal)) _ _ (λ _. h)
      λ _.
        if_elim P (not a.exists_there) _ _ (λ _. h)
          λ _.
            option_elim P a.start_error _ _
              (elim (Bool-cases (a.ledger_id == 0)) [
                | inl e ↦ rw e (taken, h.1)
                | inr e ↦ rw e (
                  (λ i.
                      let (once, unborn) = taken i in
                      let gone = keyed-release_key i s.next_id s.held in
                      let fresh = (h.0 s.next_id).1 (omega arith) in
                      (
                        ground (arith, once, gone, fresh),
                        λ new. ground (arith, unborn new, gone, new),
                      )),
                  (λ g.
                      let same =
                        held_under-none g s.next_id s.held ((h.0 s.next_id).1 (omega arith)) in
                      ground (arith, same, h.1 g)),
                )
              ])
              (λ text _. (taken, h.1))

uninstall_watch-Balanced :
    (s : CtxState) (log : List GateEvent)
    → Balanced s log
    → Balanced (uninstall_watch s).0 (releases_all (uninstall_watch s).1 ++ log)
unfolding uninstall_watch held_under keyed
uninstall_watch-Balanced s log h = (
  λ i. (omega arith, λ new. refl),
  λ g. let (ends, given) = released_ends g s.held log in omega (arith, h.1 g, ends, given),
)

Step-Watched :
    (s t : CtxState) (log log' : List GateEvent) → Step s log t log' → Watched s → Watched t
unfolding watch_close revoke_watcher take_revoked uninstall_watch
Step-Watched _ _ _ _ (creates path a s log) h = watch_create-Watched path a s h
Step-Watched _ _ _ _ (closes id s log) h = AllWatched-without id s.watchers s.held h
Step-Watched _ _ _ _ (revokes id ledger_id refusal s log found) h =
    AllWatched-without id s.watchers s.held h
Step-Watched _ _ _ _ (reports s log) h = h
Step-Watched _ _ _ _ (uninstalls s log) h = tt

Step-Balanced :
    (s t : CtxState) (log log' : List GateEvent)
    → Step s log t log'
    → Balanced s log
    → Balanced t log'
unfolding take_revoked
Step-Balanced _ _ _ _ (creates path a s log) h = watch_create-Balanced path a s log h
Step-Balanced _ _ _ _ (closes id s log) h = watch_close-Balanced id s log h
Step-Balanced _ _ _ _ (revokes id ledger_id refusal s log found) h =
    revoke_watcher-Balanced id s log h ledger_id refusal found
Step-Balanced _ _ _ _ (reports s log) h = h
Step-Balanced _ _ _ _ (uninstalls s log) h = uninstall_watch-Balanced s log h

Reach-Balanced : (s : CtxState) (log : List GateEvent) → Reach s log → Balanced s log
unfolding keyed held_under tally
Reach-Balanced _ _ start = (λ i. (omega arith, λ new. refl), λ g. refl)
Reach-Balanced _ _ (then_step s t log log' before st) =
    Step-Balanced s t log log' st (Reach-Balanced s log before)

Reach-Watched : (s : CtxState) (log : List GateEvent) → Reach s log → Watched s
Reach-Watched _ _ start = tt
Reach-Watched _ _ (then_step s t log log' before st) =
    Step-Watched s t log log' st (Reach-Watched s log before)

-- Through every history of the natives and of grants taken back: every grant that is held is held for a watcher that is still
-- in the table; and each grant was given as often as it is held, was released and was taken back together, so that none stays
-- at the gate without its watcher, and none is released twice.
pub Reach-AllWatched :
    (s : CtxState) (log : List GateEvent)
    → Reach s log
    → AllWatched s.watchers s.held
      × ((g : ℕ) → held_under g s.held + tally (ends_it g) log ≡ tally (gives_it g) log)
Reach-AllWatched s log reach = (Reach-Watched s log reach, (Reach-Balanced s log reach).1)
