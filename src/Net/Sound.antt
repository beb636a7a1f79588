-- ===== src/Net/Sound.antt =====
-- What holds of every socket of src/api/net.cpp between two operations, and that the operations on
-- one handle keep it.
use brokit.Prelude.{
  ℕ, ◌≡◌, refl, Bool, true, false, not, ◌&&◌, List, [], ◌∷◌, ◌++◌, Option, none, some, Bytes, arith,
  is_empty, drop, ltb, if_elim, if◌then◌else◌,
}
use brokit.Net.{
  Os, NetEvent, close_event, error_event, Kind, NetHandle, Effect, new_handle, push, hard_close,
  queue_close, close_with, fail_handle, revoke, hold_net, SendResult, finish_flush, flush_out_buf,
  err_would_block,
}
use brokit.Net.Calls.{is_close, write_bytes, close_if_done, end_handle}
use brokit.Net.Open.{cache_local, cache_remote, Endpoint}

abbrev pub has_fd : Option ℕ → Bool
has_fd none = false
has_fd (some fd) = true

-- The Close event of a closed socket is the last of its queue; an open one has none.
unfoldable pub queue_ok : Bool → List NetEvent → Bool
queue_ok closed [] = not closed
queue_ok closed (e ∷ es) = if is_close e then closed && is_empty es else queue_ok closed es

pub record IsSound (h : NetHandle) : Type 0 where
  -- closed exactly if the descriptor is gone
  pub descriptor : h.closed ≡ not (has_fd h.fd)
  -- a closed socket holds nothing under the gate
  pub ledger : h.closed ≡ true → h.held ≡ 0
  pub queue : queue_ok h.closed h.events ≡ true
  pub failure : h.errored ≡ true → h.closed ≡ true
  -- the FIN was asked for, and everything written went out before it
  pub fin : h.wrote_shutdown ≡ true → (h.end_requested ≡ true) × (is_empty h.out_buf ≡ true)
  pub half_close : h.peer_eof ≡ true → h.end_requested ≡ true

-- The handle that an operation leaves, beside its effects.
abbrev pub Kept : NetHandle × List Effect → Type 0
Kept r = IsSound r.0

pub new_handle-IsSound : (kind : Kind) (id fd : ℕ) → IsSound (new_handle kind id fd)
unfolding queue_ok
new_handle-IsSound kind id fd = ground arith

queue_ok-push :
    (es : List NetEvent) (e : NetEvent)
    → is_close e ≡ false
    → queue_ok false es ≡ true
    → queue_ok false (es ++ e ∷ []) ≡ true
unfolding queue_ok
queue_ok-push [] e open_event ok = ground arith
queue_ok-push (x ∷ es) e open_event ok = ground (arith, queue_ok-push es e open_event)

queue_ok-close :
    (es : List NetEvent) (b : Bool)
    → queue_ok false es ≡ true
    → queue_ok true (es ++ close_event b ∷ []) ≡ true
unfolding queue_ok
queue_ok-close [] b ok = refl
queue_ok-close (x ∷ es) b ok = ground (arith, queue_ok-close es b)

-- An event that is no Close may be queued on an open socket.
pub push-IsSound :
    (h : NetHandle) (e : NetEvent)
    → h.closed ≡ false
    → is_close e ≡ false
    → IsSound h
    → IsSound (push h e)
push-IsSound h e opened plain v = ground (arith, queue_ok-push h.events e plain)

pub close_with-IsSound :
    (h : NetHandle) (b : Bool) → h.closed ≡ false → IsSound h → IsSound (close_with h b).0
unfolding close_with hard_close queue_close
close_with-IsSound h b opened v = ground (arith, queue_ok-close h.events b)

close_marked-IsSound :
    (h : NetHandle) (e : NetEvent) (b : Bool)
    → h.closed ≡ false
    → is_close e ≡ false
    → IsSound h
    → IsSound (close_with (push (record h { errored = true }) e) b).0
unfolding close_with hard_close queue_close
close_marked-IsSound h e b opened plain v =
    ground (arith, queue_ok-push h.events e plain, queue_ok-close (h.events ++ e ∷ []) b)

pub fail_handle-IsSound : (h : NetHandle) (text : Bytes) → IsSound h → Kept (fail_handle h text)
unfolding fail_handle
fail_handle-IsSound h text v =
    if_elim Kept h.closed _ _ (λ _. v)
      (λ opened. close_marked-IsSound h (error_event text [] []) true opened refl v)

pub revoke-IsSound : (h : NetHandle) (text name : Bytes) → IsSound h → Kept (revoke h text name)
unfolding revoke
revoke-IsSound h text name v =
    if_elim Kept h.closed _ _ (λ _. v)
      (λ opened. close_marked-IsSound h (error_event text name _) true opened refl v)

module _ (os : Os) where
  pub finish_flush-IsSound : (h : NetHandle) → IsSound h → IsSound (finish_flush os h).0
  unfolding finish_flush
  finish_flush-IsSound h v = ground arith

  -- Sending off a part of the buffer.
  shrink-IsSound :
      (h : NetHandle) (rest : Bytes)
      → is_empty h.out_buf ≡ false
      → IsSound h
      → IsSound (record h { out_buf = rest })
  shrink-IsSound h rest full v = ground arith

  pub flush_out_buf-IsSound :
      (rs : List SendResult) (h : NetHandle) → IsSound h → IsSound (flush_out_buf os rs h).0
  unfolding flush_out_buf
  flush_out_buf-IsSound [] h v = ground (arith, finish_flush-IsSound h v)
  flush_out_buf-IsSound (r ∷ rs) h v =
      if_elim Kept (is_empty h.out_buf) _ _ (λ _. finish_flush-IsSound h v)
        λ full.
          if_elim Kept (ltb 0 r.count) _ _
            (λ _. flush_out_buf-IsSound rs _ (shrink-IsSound h (drop r.count h.out_buf) full v))
            λ _.
              if_elim Kept (err_would_block os r.errno) _ _ (λ _. v)
                (λ _. fail_handle-IsSound h _ v)

  pub write_bytes-IsSound :
      (bytes : Bytes) (rs : List SendResult) (h : NetHandle)
      → h.wrote_shutdown ≡ false
      → IsSound h
      → Kept (write_bytes os bytes rs h)
  unfolding write_bytes
  write_bytes-IsSound bytes rs h no_fin v =
      let grown : IsSound (record h { out_buf = h.out_buf ++ bytes }) = ground arith in
      if_elim Kept h.connecting _ _ (λ _. grown) (λ _. flush_out_buf-IsSound rs _ grown)

pub close_if_done-IsSound : (r : NetHandle × List Effect) → Kept r → Kept (close_if_done r)
unfolding close_if_done
close_if_done-IsSound (h, out) v =
    if_elim Kept (h.peer_eof && h.wrote_shutdown && not h.closed) _ _
      (λ done. close_with-IsSound h false (ground arith) v) (λ _. v)

module _ (os : Os) where
  pub end_handle-IsSound :
      (rs : List SendResult) (h : NetHandle) → IsSound h → Kept (end_handle os rs h)
  unfolding end_handle
  end_handle-IsSound rs h v =
      let asked : IsSound (record h { end_requested = true }) = ground arith in
      if_elim Kept h.connecting _ _ (λ _. asked)
        (λ _. close_if_done-IsSound _ (flush_out_buf-IsSound os rs _ asked))

-- A property that reads neither the addresses nor the grant.
pub cache_local-IsSound : (e : Endpoint) (h : NetHandle) → IsSound h → IsSound (cache_local e h)
unfolding cache_local
cache_local-IsSound none h v = v
cache_local-IsSound (some (address, port)) h v = ground arith

pub cache_remote-IsSound : (e : Endpoint) (h : NetHandle) → IsSound h → IsSound (cache_remote e h)
unfolding cache_remote
cache_remote-IsSound none h v = v
cache_remote-IsSound (some (address, port)) h v = ground arith

pub hold_net-IsSound :
    (h : NetHandle) (subject : Bytes) (ledger_id : ℕ)
    → h.closed ≡ false
    → IsSound h
    → Kept (hold_net h subject ledger_id)
unfolding hold_net
hold_net-IsSound h subject ledger_id opened v = ground arith
