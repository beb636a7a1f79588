-- ===== src/Net/Stream.antt =====
-- A TCP connection of src/api/net.cpp as a byte stream: what is put on the wire, followed by what
-- waits in the buffer, is what was written, in order; nothing follows the FIN.
use brokit.Prelude.{
  ℕ, suc, ◌≡◌, refl, ◌∙◌, Bool, true, false, not, ◌&&◌, List, [], ◌∷◌, ◌++◌, append_assoc,
  append-nil, none, some, Bytes, arith, is_empty, drop, take-append-drop, ltb, if_elim, Bool-cases,
  inl, inr, ◌==◌, zero, if◌then◌else◌,
}
use brokit.Net.{
  Os, received, connected, error_event, NetHandle, Effect, closes_fd, sends, shuts_down,
  sets_broadcast, sends_to, releases, holds, push, close_socket, release_held, hard_close,
  queue_close, close_with, fail_handle, SendResult, err_would_block, finish_flush, flush_out_buf,
}
use brokit.Net.Calls.{refuses_write, write_bytes, close_if_done, end_handle}
use brokit.Net.Open.{Endpoint, cache_local, cache_remote}
use brokit.Net.Tick.{TurnIo, Recv, got, eof, recv_failed, read_loop, connecting_turn, conn_turn}

-- The bytes that an effect puts on the wire of a connection.
abbrev pub wire : Effect → Bytes
wire (sends fd bytes) = bytes
wire (closes_fd fd) = []
wire (shuts_down fd) = []
wire (sets_broadcast fd on) = []
wire (sends_to fd payload host port) = []
wire (releases ledger_id) = []
wire (holds ledger_id subject handle_id) = []

abbrev pub sent_bytes : List Effect → Bytes
sent_bytes [] = []
sent_bytes (e ∷ es) = wire e ++ sent_bytes es

sent_bytes-append : (es fs : List Effect) → sent_bytes (es ++ fs) ≡ sent_bytes es ++ sent_bytes fs
sent_bytes-append [] fs = refl
sent_bytes-append (e ∷ es) fs = simp (sent_bytes-append es fs, append_assoc)

-- Nothing is lost, added or reordered between the wire and the buffer.
abbrev pub Carries : Bytes → NetHandle × List Effect → Type 0
Carries bytes r = sent_bytes r.1 ++ r.0.out_buf ≡ bytes

-- A part that carries on from where another part stopped.
Carries-append :
    (bytes : Bytes) (out : List Effect) (mid : Bytes) (h : NetHandle) (more : List Effect)
    → sent_bytes out ++ mid ≡ bytes
    → Carries mid (h, more)
    → Carries bytes (h, out ++ more)
Carries-append bytes out mid h more e c = rw (sent_bytes-append, append_assoc, c) e

close_with-Carries : (h : NetHandle) (b : Bool) → Carries h.out_buf (close_with h b)
unfolding close_with hard_close queue_close close_socket release_held
close_with-Carries h b = ground arith

fail_handle-Carries : (h : NetHandle) (text : Bytes) → Carries h.out_buf (fail_handle h text)
unfolding fail_handle
fail_handle-Carries h text =
    if_elim (Carries h.out_buf) h.closed _ _ (λ _. refl)
      (λ _. close_with-Carries (push (record h { errored = true }) (error_event text [] [])) true)

module _ (os : Os) where
  finish_flush-Carries : (h : NetHandle) → Carries h.out_buf (finish_flush os h)
  unfolding finish_flush
  finish_flush-Carries h = ground arith

  flush_out_buf-Carries :
      (rs : List SendResult) (h : NetHandle) → Carries h.out_buf (flush_out_buf os rs h)
  unfolding flush_out_buf
  flush_out_buf-Carries [] h =
      if_elim (Carries h.out_buf) (is_empty h.out_buf) _ _ (λ _. finish_flush-Carries h) (λ _. refl)
  flush_out_buf-Carries (r ∷ rs) h =
      if_elim (Carries h.out_buf) (is_empty h.out_buf) _ _ (λ _. finish_flush-Carries h)
        λ _.
          if_elim (Carries h.out_buf) (ltb 0 r.count) _ _
            (λ _.
              rw
                (
                  append_assoc,
                  flush_out_buf-Carries rs (record h { out_buf = drop r.count h.out_buf }),
                )
                (take-append-drop r.count h.out_buf))
            λ _.
              if_elim (Carries h.out_buf) (err_would_block os r.errno) _ _ (λ _. refl)
                (λ _. fail_handle-Carries h _)

  write_bytes-Carries :
      (bytes : Bytes) (rs : List SendResult) (h : NetHandle)
      → Carries (h.out_buf ++ bytes) (write_bytes os bytes rs h)
  unfolding write_bytes
  write_bytes-Carries bytes rs h =
      if_elim (Carries (h.out_buf ++ bytes)) h.connecting _ _ (λ _. refl)
        (λ _. flush_out_buf-Carries rs (record h { out_buf = h.out_buf ++ bytes }))

close_if_done-Carries :
    (bytes : Bytes) (r : NetHandle × List Effect)
    → Carries bytes r
    → Carries bytes (close_if_done r)
unfolding close_if_done
close_if_done-Carries bytes (h, out) c =
    if_elim (Carries bytes) (h.peer_eof && h.wrote_shutdown && not h.closed) _ _
      (λ _.
        Carries-append bytes out h.out_buf (close_with h false).0 (close_with h false).1 c
          (close_with-Carries h false))
      (λ _. c)

buffer-cached :
    (a b : Endpoint) (h : NetHandle) → (cache_remote b (cache_local a h)).out_buf ≡ h.out_buf
unfolding cache_local cache_remote
buffer-cached none none h = refl
buffer-cached none (some (x, p)) h = refl
buffer-cached (some (x, p)) none h = refl
buffer-cached (some (x, p)) (some (y, q)) h = refl

module _ (os : Os) where
  end_handle-Carries :
      (rs : List SendResult) (h : NetHandle) → Carries h.out_buf (end_handle os rs h)
  unfolding end_handle
  end_handle-Carries rs h =
      if_elim (Carries h.out_buf) h.connecting _ _ (λ _. refl)
        (λ _.
          close_if_done-Carries h.out_buf _
            (flush_out_buf-Carries os rs (record h { end_requested = true })))

  read_loop-Carries :
      (k : ℕ) (rs : List Recv) (h : NetHandle) → Carries h.out_buf (read_loop os k rs h)
  unfolding read_loop
  read_loop-Carries zero rs h = refl
  read_loop-Carries (suc k) [] h = refl
  read_loop-Carries (suc k) (got bytes ∷ rs) h = read_loop-Carries k rs (push h (received bytes))
  read_loop-Carries (suc k) (eof ∷ rs) h =
      if_elim (Carries h.out_buf) h.peer_eof _ _ (λ _. refl) (λ _. refl)
  read_loop-Carries (suc k) (recv_failed e ∷ rs) h =
      if_elim (Carries h.out_buf) (err_would_block os e) _ _ (λ _. refl)
        λ _.
          if_elim (Carries h.out_buf) (e == os.econnreset) _ _ (λ _. fail_handle-Carries h _)
            (λ _. fail_handle-Carries h _)

  connecting_turn-Carries :
      (io : TurnIo) (h : NetHandle) → Carries h.out_buf (connecting_turn os io h)
  unfolding connecting_turn
  connecting_turn-Carries io h =
      if_elim (Carries h.out_buf) (not io.selected) _ _ (λ _. refl)
        λ _.
          if_elim (Carries h.out_buf) (io.so_error == 0 && not io.excepted) _ _
            (λ _.
              flush_out_buf-Carries os io.sends (
                push
                  (cache_remote io.remote (cache_local io.local (record h { connecting = false })))
                  connected)
              ∙ buffer-cached io.local io.remote (record h { connecting = false }))
            (λ _. fail_handle-Carries h _)

  conn_turn-Carries : (io : TurnIo) (h : NetHandle) → Carries h.out_buf (conn_turn os io h)
  unfolding conn_turn
  conn_turn-Carries io h =
      let read = read_loop os 8 io.recvs h in
      let c = read_loop-Carries 8 io.recvs h in
      let flushed = flush_out_buf os io.sends read.0 in
      let rest =
        close_if_done-Carries read.0.out_buf flushed (flush_out_buf-Carries os io.sends read.0) in
      if_elim (Carries h.out_buf) h.connecting _ _ (λ _. connecting_turn-Carries io h)
        λ _.
          if_elim (Carries h.out_buf) read.0.closed _ _ (λ _. c)
            (λ _.
              Carries-append h.out_buf read.1 read.0.out_buf (close_if_done flushed).0
                (close_if_done flushed).1 c rest)

-- What happens to one connection: the script's writes and ends, and its turns in the ticks.
pub data ConnOp : Type 0 where
  writing : Bytes → List SendResult → ConnOp
  ending : List SendResult → ConnOp
  turning : TurnIo → ConnOp

module _ (os : Os) where
  -- One operation, with the tests that the natives make; the bytes that a write accepts.
  pub run_op : ConnOp → NetHandle → NetHandle × List Effect
  run_op (writing bytes rs) h = if refuses_write h then (h, []) else write_bytes os bytes rs h
  run_op (ending rs) h = if h.closed then (h, []) else end_handle os rs h
  run_op (turning io) h = if h.closed then (h, []) else conn_turn os io h

  pub accepted_bytes : ConnOp → NetHandle → Bytes
  accepted_bytes (writing bytes rs) h = if refuses_write h then [] else bytes
  accepted_bytes (ending rs) h = []
  accepted_bytes (turning io) h = []

  pub run_ops : List ConnOp → NetHandle → NetHandle × List Effect
  run_ops [] h = (h, [])
  run_ops (op ∷ ops) h =
      let (h1, o1) = run_op op h in let (h2, o2) = run_ops ops h1 in (h2, o1 ++ o2)

  pub all_accepted : List ConnOp → NetHandle → Bytes
  all_accepted [] h = []
  all_accepted (op ∷ ops) h = accepted_bytes op h ++ all_accepted ops (run_op op h).0

  run_op-Carries :
      (op : ConnOp) (h : NetHandle) → Carries (h.out_buf ++ accepted_bytes op h) (run_op op h)
  unfolding run_op accepted_bytes
  run_op-Carries (writing bytes rs) h = elim (Bool-cases (refuses_write h)) [
    | inl refused ↦ rw refused (simp append-nil)
    | inr ok ↦ rw ok (write_bytes-Carries os bytes rs h)
  ]
  run_op-Carries (ending rs) h =
      rw append-nil
        (if_elim (Carries h.out_buf) h.closed _ _ (λ _. refl) (λ _. end_handle-Carries os rs h))
  run_op-Carries (turning io) h =
      rw append-nil
        (if_elim (Carries h.out_buf) h.closed _ _ (λ _. refl) (λ _. conn_turn-Carries os io h))

  -- Over any history of a connection: what has been put on the wire, followed by what is still
  -- buffered, is what was buffered at first followed by the bytes that the writes accepted.
  pub sent_bytes-run_ops :
      (ops : List ConnOp) (h : NetHandle)
      → sent_bytes (run_ops ops h).1 ++ (run_ops ops h).0.out_buf ≡ h.out_buf ++ all_accepted ops h
  unfolding run_ops all_accepted
  sent_bytes-run_ops [] h = rw append-nil
  sent_bytes-run_ops (op ∷ ops) h =
      let first = run_op-Carries op h in
      let rest = sent_bytes-run_ops ops (run_op op h).0 in
      rw (sent_bytes-append, append_assoc, rest, ← append_assoc, first, append_assoc)
