-- ===== src/Net/Invariant.antt =====
-- Every socket of the table of src/api/net.cpp is sound after any history of calls, revocations
-- and ticks.
use brokit.Prelude.{
  ℕ, ◌+◌, ◌≡◌, refl, Bool, true, false, ◌||◌, List, [], ◌∷◌, Option, none, some, Bytes, All,
  All-append, arith, if_elim, Option-cases, inl, inr, ◌==◌, ltb,
}
use mathlib.Core.Path.{subst}
use brokit.Net.{Os, NetEvent, NetHandle, Effect, SendResult, Table, find_handle, store, erase, Net}
use brokit.Net.Calls.{
  Outcome, with_handle, write, end_call, close_call, revoke_handle, poll, poll_handle, is_close,
}
use brokit.Net.Open.{insert_new}
use brokit.Net.Loop.{reap}
use brokit.Net.Sound
use brokit.Net.Sound.{IsSound, Kept, queue_ok}

abbrev pub AllSound : Table → Type 0
AllSound = All IsSound

pub find_handle-IsSound :
    (id : ℕ) (hs : Table) (h : NetHandle) → AllSound hs → find_handle id hs ≡ some h → IsSound h
unfolding find_handle
find_handle-IsSound id [] h v e = absurd (cc)
find_handle-IsSound id (x ∷ hs) h (v, vs) e =
    if_elim (λ o. o ≡ some h → IsSound h) (x.id == id) (some x) (find_handle id hs)
      (λ _ found. let same : x ≡ h = cc in subst IsSound same v)
      (λ _ found. find_handle-IsSound id hs h vs found) e

pub store-AllSound : (h : NetHandle) (hs : Table) → IsSound h → AllSound hs → AllSound (store h hs)
unfolding store
store-AllSound h [] v vs = tt
store-AllSound h (g ∷ hs) v (w, ws) =
    if_elim AllSound (g.id == h.id) _ _ (λ _. (v, ws)) (λ _. (w, store-AllSound h hs v ws))

pub erase-AllSound : (id : ℕ) (hs : Table) → AllSound hs → AllSound (erase id hs)
unfolding erase
erase-AllSound id [] vs = tt
erase-AllSound id (h ∷ hs) (v, vs) =
    if_elim AllSound (h.id == id) _ _ (λ _. vs) (λ _. (v, erase-AllSound id hs vs))

pub reap-AllSound : (hs : Table) → AllSound hs → AllSound (reap hs)
unfolding reap
reap-AllSound [] vs = tt
reap-AllSound (h ∷ hs) (v, vs) =
    let rest = reap-AllSound hs vs in
    if_elim AllSound h.closed _ _
      (λ _.
        if_elim AllSound (ltb 1 (h.closed_sweeps + 1)) _ _ (λ _. rest) (λ _. (ground arith, rest)))
      (λ _. (v, rest))

-- The table of the state that a call leaves.
abbrev pub Leaves : Outcome → Type 0
Leaves o = AllSound o.net.handles

-- A call on one handle keeps the table, if it keeps the handle that passed its test.
pub with_handle-Leaves :
    (n : Net) (id : ℕ) (refuses : NetHandle → Bool) (call : NetHandle → Outcome)
    → AllSound n.handles
    → ((h : NetHandle) → refuses h ≡ false → IsSound h → Leaves (call h))
    → Leaves (with_handle n id refuses call)
unfolding with_handle
with_handle-Leaves n id refuses call vs keeps = elim (Option-cases (find_handle id n.handles)) [
  | inl missing ↦ rw (missing, with_handle) vs
  | inr (h, found) ↦
      rw (found, with_handle)
        (if_elim Leaves (refuses h) _ _ (λ _. vs)
          (λ passed. keeps h passed (find_handle-IsSound id n.handles h vs found)))
]

pub insert_new-Leaves :
    (n : Net) (r : NetHandle × List Effect) → AllSound n.handles → Kept r → Leaves (insert_new n r)
unfolding insert_new
insert_new-Leaves n (h, out) vs v = All-append IsSound n.handles (h ∷ []) vs (v, tt)

pub or_true : (a b : Bool) → (a || b) ≡ false → (a ≡ false) × (b ≡ false)
or_true a b h = ground arith

module _ (os : Os) where
  pub write-Leaves :
      (id : ℕ) (payload : Option Bytes) (rs : List SendResult) (n : Net)
      → AllSound n.handles
      → Leaves (write os id payload rs n)
  unfolding write
  write-Leaves id none rs n vs = with_handle-Leaves n id _ _ vs (λ h _ v. vs)
  write-Leaves id (some bytes) rs n vs = with_handle-Leaves n id _ _ vs λ h passed v.
      store-AllSound _ n.handles (Sound.write_bytes-IsSound os bytes rs h (or_true _ _ passed).1 v)
        vs

  pub end_call-Leaves :
      (id : ℕ) (rs : List SendResult) (n : Net) → AllSound n.handles → Leaves (end_call os id rs n)
  unfolding end_call
  end_call-Leaves id rs n vs =
      with_handle-Leaves n id _ _ vs
        λ h _ v. store-AllSound _ n.handles (Sound.end_handle-IsSound os rs h v) vs

pub close_call-Leaves : (id : ℕ) (n : Net) → AllSound n.handles → Leaves (close_call id n)
unfolding close_call
close_call-Leaves id n vs =
    with_handle-Leaves n id _ _ vs
      λ h opened v. store-AllSound _ n.handles (Sound.close_with-IsSound h false opened v) vs

pub revoke_handle-AllSound :
    (id : ℕ) (text name : Bytes) (n : Net)
    → AllSound n.handles
    → AllSound (revoke_handle id text name n).0.handles
unfolding revoke_handle
revoke_handle-AllSound id text name n vs = elim (Option-cases (find_handle id n.handles)) [
  | inl missing ↦ rw (missing, revoke_handle) vs
  | inr (h, found) ↦
      rw (found, revoke_handle)
        (store-AllSound _ n.handles
          (Sound.revoke-IsSound h text name (find_handle-IsSound id n.handles h vs found)) vs)
]

-- The rest of a queue, behind an event that is no Close.
popped-IsSound :
    (h : NetHandle) (e : NetEvent) (es : List NetEvent)
    → h.events ≡ e ∷ es
    → is_close e ≡ false
    → IsSound h
    → IsSound (record h { events = es })
unfolding queue_ok
popped-IsSound h e es eq plain v =
    let front : queue_ok h.closed (e ∷ es) ≡ true = rw eq at v.queue in
    record {
      descriptor = v.descriptor;
      ledger = v.ledger;
      queue = ground (arith, front);
      failure = v.failure;
      fin = v.fin;
      half_close = v.half_close;
    }

poll_handle-Leaves :
    (n : Net) (id : ℕ) (h : NetHandle) (es : List NetEvent)
    → AllSound n.handles
    → h.events ≡ es
    → IsSound h
    → Leaves (poll_handle n id h es)
unfolding poll_handle
poll_handle-Leaves n id h [] vs eq v = vs
poll_handle-Leaves n id h (e ∷ es) vs eq v =
    if_elim AllSound (is_close e) _ _ (λ _. erase-AllSound id n.handles vs)
      λ plain.
        store-AllSound (record h { events = es }) n.handles (popped-IsSound h e es eq plain v) vs

pub poll-Leaves : (id : ℕ) (n : Net) → AllSound n.handles → Leaves (poll id n)
unfolding poll
poll-Leaves id n vs = elim (Option-cases (find_handle id n.handles)) [
  | inl missing ↦ rw (missing, poll) vs
  | inr (h, found) ↦
      rw (found, poll)
        (poll_handle-Leaves n id h h.events vs refl (find_handle-IsSound id n.handles h vs found))
]
