-- ===== src/WebSocket/Sound.antt =====
-- Every operation of src/api/websocket.cpp keeps what holds of the connections.
use brokit.Prelude.{
  ℕ, ◌-◌, ◌≡◌, refl, sym, ap, ◌∙◌, Bool, true, false, not, inl, inr, List, [], ◌∷◌, Option, none,
  some, Bytes, map, is_empty, ◌==◌, ==_refl, if◌then◌else◌, if_elim, option_elim, Option-cases,
  arith,
}
use brokit.Prelude.Table.{lookup}
use brokit.WebSocket.{
  WsState, connecting, open_now, closing, closed, is_connecting, is_closed, WsConnection, WsEffect,
  resolves, rejects, sends, Ws, erase_first, listed, write_back,
}
use brokit.WebSocket.Natives.{check_redirect, redirect, done_conn, done_listed, done_message}
use brokit.WebSocket.Kept.{
  tally, destroys_of, settles_of, is_dangle, one, Good, Sound, Local, listed-erase_first,
  SameElse-erase_first, Sound-write_back,
}

-- What a connection that is there is known by.
module _ (id : ℕ) (c : WsConnection) (s : Ws) (found : lookup id s.conns ≡ some c)
    (sound : Sound s) where
  pub known :
      Good id s.next_id s.multi
        (listed id s.pending)
        (tally (destroys_of id) s.log)
        (tally (settles_of id) s.log)
        (some c)
  known = let (_, _, all) = sound in rw found at (all id)

  -- A connection is written back that neither begins nor ends to connect.
  pub Sound-quiet :
      (c' : WsConnection) (es : List WsEffect)
      → c'.waits ≡ c.waits
      → is_connecting c'.state ≡ is_connecting c.state
      → (is_closed c'.state ≡ false → c'.easy ≡ true)
      → ((i : ℕ) → (tally (destroys_of i) es ≡ 0) × (tally (settles_of i) es ≡ 0))
      → tally is_dangle es ≡ 0
      → Sound (write_back id c' es s)
  Sound-quiet c' es waits same easy none_of no_dangle =
      let (count, promise, _, there, gone, was, once) = known in
      let (d, w) = none_of id in
      Sound-write_back id c' es s.pending s (λ i _. none_of i, no_dangle) (λ i _. refl)
        (
          count ∙ ap one (sym same),
          waits ∙ (promise ∙ sym same),
          easy,
          there,
          omega (arith, d, gone),
          was,
          omega (arith, w, once, ap one waits),
        )
        sound

pub no_effects : (i : ℕ) → (tally (destroys_of i) [] ≡ 0) × (tally (settles_of i) [] ≡ 0)
unfolding tally
no_effects i = (refl, refl)

pub no_dangles : tally is_dangle [] ≡ 0
unfolding tally
no_dangles = refl

pub one_send :
    (id : ℕ) (f p : Bytes) (i : ℕ)
    → (tally (destroys_of i) (sends id f p ∷ []) ≡ 0)
      × (tally (settles_of i) (sends id f p ∷ []) ≡ 0)
unfolding tally destroys_of settles_of
one_send id f p i = (refl, refl)

pub pongs_sent :
    (id : ℕ) (f : Bytes) (ps : List Bytes) (i : ℕ)
    → (tally (destroys_of i) (map (sends id f) ps) ≡ 0)
      × (tally (settles_of i) (map (sends id f) ps) ≡ 0)
unfolding tally destroys_of settles_of
pongs_sent id f [] i = (refl, refl)
pongs_sent id f (p ∷ ps) i = pongs_sent id f ps i

pub pongs_no_dangle :
    (id : ℕ) (f : Bytes) (ps : List Bytes) → tally is_dangle (map (sends id f) ps) ≡ 0
unfolding tally is_dangle
pongs_no_dangle id f [] = refl
pongs_no_dangle id f (p ∷ ps) = pongs_no_dangle id f ps

pub Sound-redirect :
    (id : ℕ) (same : Bool) (url refusal : Bytes) (s : Ws)
    → Sound s
    → Sound (redirect id same url refusal s)
unfolding redirect check_redirect
Sound-redirect id same url refusal s h = option_elim Sound (lookup id s.conns) _ _ h λ c found.
    let (_, _, easy, _, _, _, _) = known id c s found h in
    let quiet =
      λ (c' : WsConnection) (w : c'.waits ≡ c.waits) (st : c'.state ≡ c.state)
          (ea : c'.easy ≡ c.easy).
        Sound-quiet id c s found h c' [] w (ap is_connecting st)
          (λ e. ea ∙ easy (ap is_closed (sym st) ∙ e)) no_effects no_dangles in
    if_elim (λ (r : WsConnection × Bool). Sound (write_back id r.0 [] s)) same _ _
      (λ _. quiet c refl refl refl)
      (λ _.
        if_elim (λ (r : WsConnection × Bool). Sound (write_back id r.0 [] s))
          (not (is_empty refusal)) _ _ (λ _. quiet (record c { refusal = refusal }) refl refl refl)
          (λ _. quiet (record c { checked_url = url }) refl refl refl))

one_settles :
    (id : ℕ) (e : WsEffect)
    → ((i : ℕ) → (destroys_of i e ≡ false) × (settles_of i e ≡ (id == i)))
    → is_dangle e ≡ false
    → Local id (e ∷ [])
unfolding tally
one_settles id e of_it plain =
    (λ i other. let (d, w) = of_it i in (rw d refl, rw (w, other) refl), rw plain refl)

-- A connection that connected, settles its promise and goes on as another one.
pub Sound-settled :
    (id : ℕ) (c c' : WsConnection) (e : WsEffect) (s : Ws)
    → lookup id s.conns ≡ some c
    → is_connecting c.state ≡ true
    → c'.waits ≡ false
    → is_connecting c'.state ≡ false
    → (is_closed c'.state ≡ false → c'.easy ≡ true)
    → ((i : ℕ) → (destroys_of i e ≡ false) × (settles_of i e ≡ (id == i)))
    → is_dangle e ≡ false
    → Sound s
    → Sound (write_back id c' (e ∷ []) (record s { pending = erase_first id s.pending }))
unfolding tally
Sound-settled id c c' e s found busy no_wait on easy of_it plain h =
    let (count, promise, _, there, gone, was, once) = known id c s found h in
    let (d, w) = of_it id in
    let left = listed-erase_first id id s.pending in
    let less : listed id (erase_first id s.pending) ≡ listed id s.pending - 1 =
      left ∙ ap (λ b. if b then listed id s.pending - 1 else listed id s.pending) (==_refl id) in
    Sound-write_back id c' (e ∷ []) (erase_first id s.pending) s (one_settles id e of_it plain)
      (SameElse-erase_first id s.pending)
      (
        omega (arith, less, count, ap one busy, ap one on),
        no_wait ∙ sym on,
        easy,
        there,
        rw d (omega (arith, gone)),
        was,
        rw (w, ==_refl id, no_wait) (omega (arith, once, ap one (promise ∙ busy))),
      )
      h

pub connecting_open : (st : WsState) → is_connecting st ≡ true → is_closed st ≡ false
unfolding is_connecting is_closed
connecting_open connecting h = refl
connecting_open open_now h = refl
connecting_open closing h = refl
connecting_open closed h = sym h

true_of_count : (b : Bool) → (one b == 0) ≡ false → b ≡ true
true_of_count true h = refl
true_of_count false h = sym h

pub Sound-done_message :
    (id : ℕ) (result : Option Bytes) (s : Ws) → Sound s → Sound (done_message id result s)
unfolding done_message done_listed done_conn
Sound-done_message id result s h =
    if_elim Sound (listed id s.pending == 0) _ _ (λ _. h)
      (λ there. elim (Option-cases (lookup id s.conns)) [
        | inl gone ↦
            let (_, _, all) = h in
            let (count, _, _) = rw gone at (all id) in absurd (ground (arith, count))
        | inr (c, found) ↦
            let (count, promise, easy, _, _, _, _) = known id c s found h in
            let busy : is_connecting c.state ≡ true =
              true_of_count (is_connecting c.state) (ap (λ n. n == 0) (sym count) ∙ there) in
            rw found
              (settle c busy (promise ∙ busy) (easy (connecting_open c.state busy)) found result)
      ])
  where
    settle :
        (c : WsConnection)
        → is_connecting c.state ≡ true
        → c.waits ≡ true
        → c.easy ≡ true
        → lookup id s.conns ≡ some c
        → (result : Option Bytes) → Sound (done_listed id result (some c) s)
    settle c busy waits easy found none = rw waits (
        Sound-settled id c (record c { state = open_now; connected = true; waits = false })
          (resolves id) s found busy refl (unfold is_connecting in refl) (λ _. easy)
          (λ i. unfold destroys_of settles_of in (refl, refl)) (unfold is_dangle in refl) h)
    settle c busy waits easy found (some text) = rw waits (
        let refused = not (is_empty c.refusal) in
        let msg = if refused then c.refusal else text in
        Sound-settled id c (record c { state = closed; error_msg = msg; waits = false })
          (rejects id msg refused) s found busy refl (unfold is_connecting in refl) (λ _. easy)
          (λ i. unfold destroys_of settles_of in (refl, refl)) (unfold is_dangle in refl) h)
