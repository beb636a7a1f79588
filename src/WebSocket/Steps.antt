-- ===== src/WebSocket/Steps.antt =====
-- The natives of src/api/websocket.cpp keep what holds of the connections.
use brokit.Prelude.{
  ℕ, suc, ◌+◌, ◌≡◌, refl, sym, ap, ◌∙◌, Bool, true, false, not, inl, inr, List, [], ◌∷◌, ◌++◌,
  Option, none, some, Bytes, is_empty, ◌==◌, ==_refl, if_elim, option_elim, Option-cases, arith, ℤ,
}
use brokit.Prelude.Table.{lookup, put, lookup-put}
use brokit.WebSocket.{
  closed, is_connecting, is_open, is_closed, WsConnection, WsEffect, rejects, destroys, Ws,
  new_connection, erase_first, listed, write_back,
}
use brokit.WebSocket.Natives.{Connected, ws_connect, revoked_conn, revoke_connection, Sent, ws_send}
use brokit.WebSocket.Kept.{
  tally, destroys_of, settles_of, is_dangle, one, issued, Good, GoodAt, Sound, listed-erase_first,
  listed-append, split_at, SameElse-erase_first, Sound-write_back,
}
use brokit.WebSocket.Sound.{known, no_effects, no_dangles, Sound-settled}

-- An id is handed out: the others are as they were.
Good-next :
    (i next : ℕ) (multi multi' : Bool) (count gone settled : ℕ) (o : Option WsConnection)
    → (next == i) ≡ false
    → (multi ≡ true → multi' ≡ true)
    → Good i next multi count gone settled o
    → Good i (suc next) multi' count gone settled o
Good-next i next multi multi' count gone settled none other m (a, b, c) =
    let same : issued i (suc next) ≡ issued i next = ground (arith, other) in
    (a, b ∙ sym same, omega (arith, c, same))
Good-next i next multi multi' count gone settled (some x) other m (a, b, c, d, e, f, g) =
    let same : issued i (suc next) ≡ issued i next = ground (arith, other) in
    (a, b, c, m d, e, same ∙ f, g)

-- The next id is of no connection.
fresh :
    (s : Ws)
    → Sound s
    → (lookup s.next_id s.conns ≡ none)
      × (listed s.next_id s.pending ≡ 0)
      × (tally (destroys_of s.next_id) s.log ≡ 0)
      × (tally (settles_of s.next_id) s.log ≡ 0)
fresh s (first, _, all) =
    let unused : issued s.next_id s.next_id ≡ 0 = ground arith in
    elim (Option-cases (lookup s.next_id s.conns)) [
      | inl gone ↦
          let (count, d, w) = rw gone at (all s.next_id) in
          (gone, count, d ∙ unused, omega (arith, w, unused))
      | inr (c, found) ↦
          let (_, _, _, _, _, was, _) = rw found at (all s.next_id) in
          absurd (omega (arith, was, unused))
    ]

Sound-failed :
    (s : Ws)
    → Sound s
    → Sound (record s { next_id = suc s.next_id; log = destroys s.next_id 0 ∷ s.log })
unfolding tally destroys_of settles_of is_dangle
Sound-failed s (first, dangled, all) =
    let (none_there, count, d, w) = fresh s (first, dangled, all) in
    let id = s.next_id in
    let s' : Ws = record s { next_id = suc id; log = destroys id 0 ∷ s.log } in
    let here : GoodAt s' id =
      rw (none_there, ==_refl id) (count, ground (arith, d, first), omega (arith, w)) in
    (
      omega arith,
      dangled,
      λ i. split_at (GoodAt s') id i here (λ e. rw e (
          Good-next i id s.multi s.multi (listed i s.pending) (tally (destroys_of i) s.log)
            (tally (settles_of i) s.log) (lookup i s.conns) e (λ m. m) (all i))),
    )

Sound-added :
    (url : Bytes) (held : ℕ) (s : Ws)
    → Sound s
    → Sound (record s {
      multi = true;
      conns = put s.next_id (new_connection url held) s.conns;
      pending = s.pending ++ s.next_id ∷ [];
      next_id = suc s.next_id;
    })
unfolding listed is_connecting is_closed
Sound-added url held s (first, dangled, all) =
    let (none_there, count, d, w) = fresh s (first, dangled, all) in
    let id = s.next_id in
    let c = new_connection url held in
    let s' : Ws = record s {
      multi = true;
      conns = put id c s.conns;
      pending = s.pending ++ id ∷ [];
      next_id = suc id;
    } in
    let here : GoodAt s' id =
      rw (lookup-put id id c s.conns, listed-append id s.pending (id ∷ []), ==_refl id)
        (omega (arith, count), refl, λ _. refl, refl, d, ground (arith, first), omega (arith, w)) in
    (
      omega arith,
      dangled,
      λ i. split_at (GoodAt s') id i here (λ e.
          rw (lookup-put id i c s.conns, listed-append i s.pending (id ∷ []), e)
            (let same : listed i s.pending + 0 ≡ listed i s.pending = omega arith in
              rw same (
                Good-next i id s.multi true (listed i s.pending) (tally (destroys_of i) s.log)
                  (tally (settles_of i) s.log) (lookup i s.conns) e (λ _. refl) (all i)))),
    )

pub Sound-ws_connect :
    (url refusal : Bytes) (initialised : Bool) (held : ℕ) (s : Ws)
    → Sound s
    → Sound (ws_connect url refusal initialised held s).0
unfolding ws_connect
Sound-ws_connect url refusal initialised held s h =
    let Kept : Ws × Connected → Type 0 = λ r. Sound r.0 in
    if_elim Kept (is_empty url) _ _ (λ _. h)
      (λ _.
        if_elim Kept (not (is_empty refusal)) _ _ (λ _. h)
          (λ _.
            if_elim Kept (not initialised) _ _ (λ _. Sound-failed s h)
              (λ _. Sound-added url held s h)))

pub Sound-revoke_connection :
    (id : ℕ) (refusal text name : Bytes) (s : Ws)
    → Sound s
    → Sound (revoke_connection id refusal text name s)
unfolding revoke_connection revoked_conn
Sound-revoke_connection id refusal text name s h =
    option_elim Sound (lookup id s.conns) _ _ h λ c found.
      let (count, promise, easy, there, gone, was, once) = known id c s found h in
      let cut = record c {
        easy = false;
        state = closed;
        close_code = ℤ.pos 1008;
        close_reason = text;
      } in
      if_elim Sound (is_closed c.state) _ _ (λ _. h)
        (λ still.
          if_elim
            (λ (r : WsConnection × List WsEffect).
              Sound (write_back id r.0 r.1 (record s { pending = erase_first id s.pending })))
            c.waits _ _
            (λ w.
              Sound-settled id c (record cut { waits = false }) (rejects id refusal true) s found
                (sym promise ∙ w) refl (unfold is_connecting in refl)
                (λ e. unfold is_closed in (cc)) (λ i. unfold destroys_of settles_of in (refl, refl))
                (unfold is_dangle in refl) h)
            (λ w.
              let idle : is_connecting c.state ≡ false = sym promise ∙ w in
              let left = listed-erase_first id id s.pending in
              Sound-write_back id (record cut { error_msg = text; error_name = name }) []
                (erase_first id s.pending) s (λ i _. no_effects i, no_dangles)
                (SameElse-erase_first id s.pending)
                (unfold is_connecting is_closed tally in
                  (
                    ground (arith, left, count, ap one idle),
                    w,
                    λ e. cc,
                    there,
                    omega (arith, gone),
                    was,
                    omega (arith, once),
                  ))
                h))

pub Sound-ws_send :
    (id : ℕ) (binary : Bool) (payload : Bytes) (answers : List Sent) (s : Ws)
    → Sound s
    → Sound (ws_send id binary payload answers s).0
unfolding ws_send tally destroys_of settles_of is_dangle
Sound-ws_send id binary payload answers s h =
    option_elim (λ (r : Ws × Bool). Sound r.0) (lookup id s.conns) _ _ h
      λ c found.
        if_elim (λ (r : Ws × Bool). Sound r.0) (not (is_open c.state)) _ _ (λ _. h) (λ _. h)
