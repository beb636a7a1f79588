-- ===== src/Net/Reach.antt =====
-- The histories of src/api/net.cpp: calls of the script, ticks of the host, grants taken back.
-- Every socket stays sound through all of them.
use brokit.Prelude.{
  ℕ, ◌≡◌, refl, Bool, true, not, ◌||◌, List, [], ◌∷◌, Bytes, All-append, arith, is_empty, if_elim,
  option_elim,
}
use brokit.Net.{Os, NetEvent, NetHandle, Effect, Table, find_handle, store, Net}
use brokit.Net.Calls.{revoke_handle}
use brokit.Net.Tick.{TurnIo, apply_turn}
use brokit.Net.Loop.{
  Call, listens, connects, writes, ends, closes, polls, opens_udp, binds_udp, sends_udp,
  sets_broadcast, reads_info, perform, perform_all, ids, has_pending, serve, pump, tick,
}
use brokit.Net.Sound.{IsSound, queue_ok}
use brokit.Net.Turns
use brokit.Net.Invariant
use brokit.Net.Invariant.{AllSound, Leaves}
use brokit.Net.Opening

abbrev pub no_handles : Net
no_handles = record { handles = []; next_id = 1 }

module _ (os : Os) where
  perform-Leaves : (c : Call) (n : Net) → AllSound n.handles → Leaves (perform os c n)
  unfolding perform
  perform-Leaves (listens host port a) n = Opening.tcp_listen-Leaves os host port a n
  perform-Leaves (connects host port a) n = Opening.tcp_connect-Leaves os host port a n
  perform-Leaves (writes id payload rs) n = Invariant.write-Leaves os id payload rs n
  perform-Leaves (ends id rs) n = Invariant.end_call-Leaves os id rs n
  perform-Leaves (closes id) n = Invariant.close_call-Leaves id n
  perform-Leaves (polls id) n = Invariant.poll-Leaves id n
  perform-Leaves (opens_udp ipv6 a) n = Opening.udp_open-Leaves os ipv6 a n
  perform-Leaves (binds_udp id host port a) n = Opening.udp_bind-Leaves os id host port a n
  perform-Leaves (sends_udp id payload host port a) n =
      Opening.udp_send-Leaves os id payload host port a n
  perform-Leaves (sets_broadcast id on a) n = Opening.set_broadcast-Leaves id on a n
  perform-Leaves (reads_info id a) n = Opening.info_call-Leaves id a n

  -- The net that a round leaves, beside what it accepted.
  abbrev Served : Net × Table × List Effect → Type 0
  Served r = AllSound r.0.handles

  serve-Served :
      (io : ℕ → TurnIo) (id : ℕ) (n : Net) → AllSound n.handles → Served (serve os io id n)
  unfolding serve apply_turn
  serve-Served io id n vs = option_elim Served (find_handle id n.handles) _ _ vs λ h found.
      if_elim Served h.closed _ _ (λ _. vs)
        λ opened.
          let ok =
            Turns.turn_by_kind-TurnOk os h.kind (io id) n.next_id h opened
              (Invariant.find_handle-IsSound id n.handles h vs found) in
          All-append IsSound (store _ n.handles) _ (Invariant.store-AllSound _ n.handles ok.0 vs)
            ok.1

  pump-Served :
      (io : ℕ → TurnIo) (todo : List ℕ) (n : Net) → AllSound n.handles → Served (pump os io todo n)
  unfolding pump
  pump-Served io [] n vs = vs
  pump-Served io (id ∷ rest) n vs = pump-Served io rest _ (serve-Served io id n vs)

  perform_all-AllSound :
      (cs : List Call) (n : Net) → AllSound n.handles → AllSound (perform_all os cs n).0.handles
  unfolding perform_all
  perform_all-AllSound [] n vs = vs
  perform_all-AllSound (c ∷ cs) n vs = perform_all-AllSound cs _ (perform-Leaves c n vs)

  tick-AllSound :
      (io : ℕ → TurnIo) (drain : List Call) (n : Net)
      → AllSound n.handles
      → AllSound (tick os io drain n).0.handles
  unfolding tick
  tick-AllSound io drain n vs =
      if_elim (λ (r : Net × List Effect). AllSound r.0.handles) (is_empty n.handles) _ _ (λ _. vs)
        λ _.
          Invariant.reap-AllSound _ (
            perform_all-AllSound drain _ (pump-Served io _ _ (pump-Served io (ids n.handles) n vs)))

  -- What may happen to the table.
  pub data Step (n : Net) : Net → Type 0 where
    calls : (c : Call) → Step n (perform os c n).net
    ticks : (io : ℕ → TurnIo) (drain : List Call) → Step n (tick os io drain n).0
    revokes : (id : ℕ) (text name : Bytes) → Step n (revoke_handle id text name n).0

  -- What the natives can lead to, from the thread's start.
  pub data Reach : Net → Type 0 where
    start : Reach no_handles
    then_step : {n m : Net} → Reach n → Step n m → Reach m

  Step-AllSound : {n m : Net} → Step n m → AllSound n.handles → AllSound m.handles
  Step-AllSound {n} (calls c) vs = perform-Leaves c n vs
  Step-AllSound {n} (ticks io drain) vs = tick-AllSound io drain n vs
  Step-AllSound {n} (revokes id text name) vs = Invariant.revoke_handle-AllSound id text name n vs

  -- Every history of calls, ticks and revocations leaves every socket of the table sound: it is
  -- closed exactly if its descriptor is gone, then it holds no grant and its queue ends in its one
  -- Close event, and its FIN was sent only behind everything that was written.
  pub Reach-AllSound : {n : Net} → Reach n → AllSound n.handles
  Reach-AllSound start = tt
  Reach-AllSound (then_step r st) = Step-AllSound st (Reach-AllSound r)

closed_has_events : (h : NetHandle) → IsSound h → (not h.closed || not (is_empty h.events)) ≡ true
closed_has_events h v = waits h.closed h.events v.queue
  where
    waits :
        (closed : Bool) (es : List NetEvent)
        → queue_ok closed es ≡ true
        → (not closed || not (is_empty es)) ≡ true
    waits closed [] ok = unfold queue_ok in ground arith
    waits closed (e ∷ es) ok = ground arith

has_pending-AllSound : (hs : Table) → AllSound hs → has_pending hs ≡ not (is_empty hs)
unfolding has_pending
has_pending-AllSound [] vs = refl
has_pending-AllSound (h ∷ hs) (v, vs) = ground (arith, closed_has_events h v)

-- The host has work to do exactly while the table has a socket: a closed one waits for its Close to
-- be polled or for the sweep.
pub has_pending-Reach :
    (os : Os) {n : Net} → Reach os n → has_pending n.handles ≡ not (is_empty n.handles)
has_pending-Reach os r = has_pending-AllSound _ (Reach-AllSound os r)
