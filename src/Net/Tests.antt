-- ===== src/Net/Tests.antt =====
-- Runs of src/api/net.cpp: a connection that is opened, written to, flushed and closed.
use brokit.Prelude.{◌≡◌, true, false, List, [], ◌∷◌, ◌++◌, none, some, codes}
use brokit.Net.{Os, tcp_conn, NetHandle, new_handle, Net}
use brokit.Net.Open.{Answers}
use brokit.Net.Tick.{TurnIo, got, eof}
use brokit.Net.Loop.{connects, writes, perform, tick}
use brokit.Net.Invariant.{AllSound}
use brokit.Net.Reach.{Reach, start, then_step, calls, ticks, Reach-AllSound}
use brokit.Net.Stream.{
  ConnOp, writing, ending, turning, run_ops, all_accepted, sent_bytes, sent_bytes-run_ops,
}

abbrev linux : Os
linux = record {
  ewouldblock = 11;
  eagain = 11;
  einprogress = 115;
  econnreset = 104;
  econnrefused = 111;
  strerror = λ e. codes "failed";
  to_string = λ p. codes "80";
}

abbrev in_progress : Answers
in_progress = record {
  refusal = [];
  resolve_error = none;
  socket = some 5;
  accepted = true;
  connected_now = false;
  errno = 115;
  local = none;
  remote = none;
  ledger_id = 9;
}

abbrev connects_now : TurnIo
connects_now = record {
  accepts = [];
  selected = true;
  so_error = 0;
  excepted = false;
  local = some (codes "10.0.0.2", 40000);
  remote = some (codes "10.0.0.1", 80);
  recvs = [];
  sends = record { count = 3; errno = 0 } ∷ [];
  datagrams = [];
}

abbrev reads_eof : TurnIo
reads_eof = record connects_now {
  recvs = got (codes "ok") ∷ eof ∷ [];
  sends = record { count = 2; errno = 0 } ∷ [];
}

-- A connection is opened and written to while it connects; two ticks connect it, and send what was
-- written; then its grant is taken back.
abbrev opened : Net
opened =
    (perform linux (connects (codes "host") 80 in_progress)
      (record { handles = []; next_id = 1 })).net

abbrev written : Net
written = (perform linux (writes 1 (some (codes "hello")) []) opened).net

abbrev ticked : Net
ticked = (tick linux (λ id. connects_now) [] written).0

abbrev history : Reach linux ticked
history =
    then_step
      (then_step (then_step start (calls (connects (codes "host") 80 in_progress)))
        (calls (writes 1 (some (codes "hello")) [])))
      (ticks (λ id. connects_now) [])

Reach-AllSound_example : AllSound ticked.handles
Reach-AllSound_example = Reach-AllSound linux history

abbrev conversation : List ConnOp
conversation =
    writing (codes "hello") (record { count = 2; errno = 0 } ∷ [])
    ∷ turning reads_eof
    ∷ ending (record { count = 1; errno = 0 } ∷ [])
    ∷ []

abbrev fresh_conn : NetHandle
fresh_conn = new_handle tcp_conn 1 5

sent_bytes-run_ops_example :
    sent_bytes (run_ops linux conversation fresh_conn).1
      ++ (run_ops linux conversation fresh_conn).0.out_buf
    ≡ fresh_conn.out_buf ++ all_accepted linux conversation fresh_conn
sent_bytes-run_ops_example = sent_bytes-run_ops linux conversation fresh_conn
