-- ===== src/Net/Loop.antt =====
-- The rounds of src/api/net.cpp over the whole table: js_net_tick, js_net_has_pending,
-- uninstallNet, and the calls that the script makes between them.
use brokit.Prelude.{
  ℕ, ◌+◌, Bool, false, not, ◌||◌, List, [], ◌∷◌, ◌++◌, Option, none, some, Bytes, is_empty, ltb,
  if◌then◌else◌,
}
use brokit.Net.{Os, NetHandle, Effect, hard_close, SendResult, Table, find_handle, Net}
use brokit.Net.Calls.{Outcome, write, end_call, close_call, poll}
use brokit.Net.Open.{
  Answers, tcp_listen, tcp_connect, udp_open, udp_bind, udp_send, set_broadcast, info_call,
}
use brokit.Net.Tick.{TurnIo, turn_by_kind, apply_turn}

-- A call of a native by the script, with what the system answers.
pub data Call : Type 0 where
  listens connects : (host : Bytes) (port : ℕ) → Answers → Call
  writes : (id : ℕ) → Option Bytes → List SendResult → Call
  ends : (id : ℕ) → List SendResult → Call
  closes polls : (id : ℕ) → Call
  opens_udp : (ipv6 : Bool) → Answers → Call
  binds_udp : (id : ℕ) (host : Bytes) (port : ℕ) → Answers → Call
  sends_udp : (id : ℕ) → Option Bytes → (host : Bytes) (port : ℕ) → Answers → Call
  sets_broadcast : (id : ℕ) (on : Bool) → Answers → Call
  reads_info : (id : ℕ) → Answers → Call

-- The ids of the table, as the tick takes them down before it starts.
unfoldable pub ids : Table → List ℕ
ids [] = []
ids (h ∷ hs) = h.id ∷ ids hs

-- The sweep: a closed socket goes at its second one.
unfoldable pub reap : Table → Table
reap [] = []
reap (h ∷ hs) =
    let rest = reap hs in
    let swept : NetHandle = record h { closed_sweeps = h.closed_sweeps + 1 } in
    if h.closed then (if ltb 1 swept.closed_sweeps then rest else swept ∷ rest) else h ∷ rest

-- js_net_has_pending
unfoldable pub has_pending : Table → Bool
has_pending [] = false
has_pending (h ∷ hs) = not h.closed || not (is_empty h.events) || has_pending hs

unfoldable pub close_all : Table → List Effect
close_all [] = []
close_all (h ∷ hs) = (hard_close h).1 ++ close_all hs

-- uninstallNet
unfoldable pub uninstall : Net → Net × List Effect
uninstall n = (record n { handles = [] }, close_all n.handles)

module _ (os : Os) where
  unfoldable pub perform : Call → Net → Outcome
  perform (listens host port a) n = tcp_listen os host port a n
  perform (connects host port a) n = tcp_connect os host port a n
  perform (writes id payload rs) n = write os id payload rs n
  perform (ends id rs) n = end_call os id rs n
  perform (closes id) n = close_call id n
  perform (polls id) n = poll id n
  perform (opens_udp ipv6 a) n = udp_open os ipv6 a n
  perform (binds_udp id host port a) n = udp_bind os id host port a n
  perform (sends_udp id payload host port a) n = udp_send os id payload host port a n
  perform (sets_broadcast id on a) n = set_broadcast id on a n
  perform (reads_info id a) n = info_call id a n

  -- The body of the tick's loop for one id: nothing for a socket that is gone or closed.
  unfoldable pub serve : (ℕ → TurnIo) → ℕ → Net → Net × Table × List Effect
  serve io id n = elim (find_handle id n.handles) [
    | none ↦ (n, [], [])
    | some h ↦
        if h.closed
        then (n, [], [])
        else (let t = turn_by_kind os h.kind (io id) n.next_id h in
            (apply_turn n t, t.fresh, t.effects))
  ]

  -- One pass over ids: the net, and the connections that were accepted in it.
  unfoldable pub pump : (ℕ → TurnIo) → List ℕ → Net → Net × Table × List Effect
  pump io [] n = (n, [], [])
  pump io (id ∷ rest) n =
      let (n1, fresh1, out1) = serve io id n in
      let (n2, fresh2, out2) = pump io rest n1 in (n2, fresh1 ++ fresh2, out1 ++ out2)

  -- The calls of the drain hook.
  unfoldable pub perform_all : List Call → Net → Net × List Effect
  perform_all [] n = (n, [])
  perform_all (c ∷ cs) n =
      let first = perform c n in
      let (n', out) = perform_all cs first.net in (n', first.effects ++ out)

  -- js_net_tick. The ids of accepted connections are appended to the list that the loop walks, so
  -- they are served after the snapshot; connections accept nothing, so that is all.
  unfoldable pub tick : (ℕ → TurnIo) → List Call → Net → Net × List Effect
  tick io drain n =
      if is_empty n.handles
      then (n, [])
      else (let (n1, fresh, out1) = pump io (ids n.handles) n in
          let (n2, none_left, out2) = pump io (ids fresh) n1 in
          let (n3, out3) = perform_all drain n2 in
          (record n3 { handles = reap n3.handles }, out1 ++ (out2 ++ out3)))
