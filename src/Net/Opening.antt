-- ===== src/Net/Opening.antt =====
-- The natives of src/api/net.cpp that open sockets or ask the gate keep every socket sound.
use brokit.Prelude.{ℕ, refl, Bool, not, ◌&&◌, Option, Bytes, arith, is_empty, if_elim, option_elim}
use brokit.Net.{Os, tcp_conn, udp, fail_handle, err_would_block, find_handle, store, Net}
use brokit.Net.Open.{
  Answers, tcp_listen, tcp_connect, udp_open, udp_bind, udp_send, set_broadcast, info_call,
}
use brokit.Net.Sound
use brokit.Net.Sound.{IsSound, Kept, queue_ok}
use brokit.Net.Turns
use brokit.Net.Invariant
use brokit.Net.Invariant.{AllSound, Leaves}

module _ (os : Os) where
  pub tcp_listen-Leaves :
      (host : Bytes) (port : ℕ) (a : Answers) (n : Net)
      → AllSound n.handles
      → Leaves (tcp_listen os host port a n)
  unfolding tcp_listen
  tcp_listen-Leaves host port a n vs =
      if_elim Leaves (not (is_empty a.refusal)) _ _ (λ _. vs)
        λ _.
          option_elim Leaves a.resolve_error _ _
            (option_elim Leaves a.socket _ _ vs λ fd _.
              if_elim Leaves (not a.accepted) _ _ (λ _. vs)
                λ _.
                  Invariant.insert_new-Leaves n _ vs
                    (Turns.listener-IsSound a.local n.next_id fd _ a.ledger_id))
            (λ _ _. vs)

  pub tcp_connect-Leaves :
      (host : Bytes) (port : ℕ) (a : Answers) (n : Net)
      → AllSound n.handles
      → Leaves (tcp_connect os host port a n)
  unfolding tcp_connect
  tcp_connect-Leaves host port a n vs =
      if_elim Leaves (not (is_empty a.refusal)) _ _ (λ _. vs)
        λ _.
          option_elim Leaves a.resolve_error _ _
            (option_elim Leaves a.socket _ _ vs λ fd _. Invariant.insert_new-Leaves n _ vs (
              Turns.hold_open-IsSound _ a.ledger_id _ (
                Turns.after_connect-IsSound os a _ refl
                  (Sound.new_handle-IsSound tcp_conn n.next_id fd))))
            (λ _ _. vs)

  pub udp_open-Leaves :
      (ipv6 : Bool) (a : Answers) (n : Net) → AllSound n.handles → Leaves (udp_open os ipv6 a n)
  unfolding udp_open
  udp_open-Leaves ipv6 a n vs = option_elim Leaves a.socket _ _ vs λ fd _.
      let made = Sound.new_handle-IsSound udp n.next_id fd in
      Invariant.insert_new-Leaves n _ vs (ground arith)

  pub udp_bind-Leaves :
      (id : ℕ) (host : Bytes) (port : ℕ) (a : Answers) (n : Net)
      → AllSound n.handles
      → Leaves (udp_bind os id host port a n)
  unfolding udp_bind
  udp_bind-Leaves id host port a n vs = Invariant.with_handle-Leaves n id _ _ vs λ h passed v.
      if_elim Leaves (not (is_empty a.refusal)) _ _ (λ _. vs)
        λ _.
          option_elim Leaves a.resolve_error _ _
            (if_elim Leaves (not a.accepted) _ _ (λ _. vs)
              λ _.
                Invariant.store-AllSound _ n.handles
                  (Turns.bind_handle-IsSound os host port a h (Invariant.or_true _ _ passed).1 v)
                  vs)
            (λ _ _. vs)

  pub udp_send-Leaves :
      (id : ℕ) (payload : Option Bytes) (host : Bytes) (port : ℕ) (a : Answers) (n : Net)
      → AllSound n.handles
      → Leaves (udp_send os id payload host port a n)
  unfolding udp_send
  udp_send-Leaves id payload host port a n vs = Invariant.with_handle-Leaves n id _ _ vs λ h _ v.
      let failed : (text : Bytes) → AllSound (store (fail_handle h text).0 n.handles) =
        λ text. Invariant.store-AllSound _ n.handles (Sound.fail_handle-IsSound h text v) vs in
      option_elim Leaves payload _ _ vs λ bytes _.
        if_elim Leaves (not (is_empty a.refusal)) _ _ (λ _. vs)
          λ _.
            option_elim Leaves a.resolve_error _ _
              (if_elim Leaves a.accepted _ _ (λ _. Invariant.store-AllSound h n.handles v vs)
                λ _. if_elim Leaves (err_would_block os a.errno) _ _ (λ _. vs) (λ _. failed _))
              (λ text _. failed _)

pub set_broadcast-Leaves :
    (id : ℕ) (on : Bool) (a : Answers) (n : Net)
    → AllSound n.handles
    → Leaves (set_broadcast id on a n)
unfolding set_broadcast
set_broadcast-Leaves id on a n vs =
    Invariant.with_handle-Leaves n id _ _ vs λ h _ v. Invariant.store-AllSound h n.handles v vs

pub info_call-Leaves :
    (id : ℕ) (a : Answers) (n : Net) → AllSound n.handles → Leaves (info_call id a n)
unfolding info_call
info_call-Leaves id a n vs = option_elim Leaves (find_handle id n.handles) _ _ vs λ h found.
    let v = Invariant.find_handle-IsSound id n.handles h vs found in
    Invariant.store-AllSound _ n.handles
      (if_elim IsSound (not h.closed && is_empty h.local_address) _ _
        (λ _. Sound.cache_local-IsSound a.local h v) (λ _. v))
      vs
