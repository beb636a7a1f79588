-- ===== src/WebSocket/Kept.antt =====
-- What holds of each id of src/api/websocket.cpp, and how writing back and deleting one connection keep it.
use mathlib.Core.Path.{subst}
use brokit.Prelude.{
  ℕ, ◌+◌, ◌-◌, ◌≤◌, ◌<◌, ◌≡◌, ap, ◌∙◌, Bool, true, false, ◌&&◌, inl, inr, List, [], ◌∷◌, ◌++◌,
  Option, none, some, ltb, ◌==◌, ==_refl, if◌then◌else◌, Bool-cases, arith,
}
use brokit.Prelude.Table.{lookup, lookup-put, lookup-remove}
unfoldable pub use brokit.Prelude.Tally.{tally}
pub use brokit.Prelude.Tally.{tally-append, tally-none}
use brokit.WebSocket.{
  is_connecting, is_closed, WsConnection, WsEffect, resolves, rejects, destroys, dangles, Ws,
  erase_first, listed, write_back, delete_conn,
}

unfoldable pub destroys_of : ℕ → WsEffect → Bool
destroys_of i (destroys id held) = id == i
destroys_of i _ = false

unfoldable pub settles_of : ℕ → WsEffect → Bool
settles_of i (resolves id) = id == i
settles_of i (rejects id text denied) = id == i
settles_of i _ = false

unfoldable pub is_dangle : WsEffect → Bool
is_dangle (dangles id) = true
is_dangle _ = false

abbrev pub one : Bool → ℕ
one true = 1
one false = 0

-- An id that was handed out.
abbrev pub issued : (i next : ℕ) → ℕ
issued i next = one (ltb 0 i && ltb i next)

-- What holds of an id, by how often it is among those that connect, was destroyed and settled.
abbrev pub Good :
    (i next : ℕ) (multi : Bool) (count gone settled : ℕ) → Option WsConnection → Type 0
Good i next multi count gone settled none =
    (count ≡ 0) × (gone ≡ issued i next) × (settled ≤ issued i next)
Good i next multi count gone settled (some c) =
    (count ≡ one (is_connecting c.state))
    × (c.waits ≡ is_connecting c.state)
    × (is_closed c.state ≡ false → c.easy ≡ true)
    × (multi ≡ true)
    × (gone ≡ 0)
    × (issued i next ≡ 1)
    × (settled + one c.waits ≤ 1)

abbrev pub GoodAt : Ws → ℕ → Type 0
GoodAt s i =
    Good i s.next_id s.multi (listed i s.pending) (tally (destroys_of i) s.log)
      (tally (settles_of i) s.log) (lookup i s.conns)

-- In every state: no pointer to a destroyed connection was followed, and every id is as it should be.
abbrev pub Sound : Ws → Type 0
Sound s = (0 < s.next_id) × (tally is_dangle s.log ≡ 0) × ((i : ℕ) → GoodAt s i)

pub listed-erase_first :
    (i id : ℕ) (js : List ℕ)
    → listed i (erase_first id js) ≡ (if id == i then listed i js - 1 else listed i js)
unfolding listed erase_first
listed-erase_first i id [] = ground arith
listed-erase_first i id (j ∷ js) = ground (arith, listed-erase_first i id js)

pub listed-append : (i : ℕ) (js ks : List ℕ) → listed i (js ++ ks) ≡ listed i js + listed i ks
unfolding listed
listed-append i [] ks = omega arith
listed-append i (j ∷ js) ks = ground (arith, listed-append i js ks)

-- A statement about every number, by the one that is meant and the others.
pub split_at {ℓ} : (P : ℕ → Type ℓ) (id i : ℕ) → P id → ((id == i) ≡ false → P i) → P i
split_at P id i here else_where = elim (Bool-cases (id == i)) [
  | inl e ↦ let same : id ≡ i = ground arith in subst P same here
  | inr e ↦ else_where e
]

-- The effects are of one connection.
abbrev pub Local : (id : ℕ) → List WsEffect → Type 0
Local id es =
    ((i : ℕ) → (id == i) ≡ false → (tally (destroys_of i) es ≡ 0) × (tally (settles_of i) es ≡ 0))
    × (tally is_dangle es ≡ 0)

-- The ids that connect are changed at one id.
abbrev pub SameElse : (id : ℕ) (js ks : List ℕ) → Type 0
SameElse id js ks = (i : ℕ) → (id == i) ≡ false → listed i js ≡ listed i ks

pub SameElse-erase_first : (id : ℕ) (js : List ℕ) → SameElse id (erase_first id js) js
SameElse-erase_first id js i e =
    listed-erase_first i id js ∙ ap (λ b. if b then listed i js - 1 else listed i js) e

pub Sound-write_back :
    (id : ℕ) (c : WsConnection) (es : List WsEffect) (js : List ℕ) (s : Ws)
    → Local id es
    → SameElse id js s.pending
    → Good id s.next_id s.multi
        (listed id js)
        (tally (destroys_of id) es + tally (destroys_of id) s.log)
        (tally (settles_of id) es + tally (settles_of id) s.log)
        (some c)
    → Sound s
    → Sound (write_back id c es (record s { pending = js }))
unfolding write_back
Sound-write_back id c es js s (others, no_dangle) same good (first, dangled, all) = (
  first,
  tally-none is_dangle es s.log no_dangle ∙ dangled,
  λ i.
      split_at (GoodAt (write_back id c es (record s { pending = js }))) id i
        (rw
          (
            lookup-put id id c s.conns,
            ==_refl id,
            tally-append (destroys_of id) es s.log,
            tally-append (settles_of id) es s.log,
          )
          good)
        (λ e.
          let (d, w) = others i e in
          rw
            (
              lookup-put id i c s.conns,
              e,
              tally-none (destroys_of i) es s.log d,
              tally-none (settles_of i) es s.log w,
              same i e,
            )
            (all i)),
)

pub Sound-delete_conn :
    (id : ℕ) (c : WsConnection) (js : List ℕ) (s : Ws)
    → lookup id s.conns ≡ some c
    → SameElse id js s.pending
    → listed id js ≡ 0
    → Sound s
    → Sound (delete_conn id c (record s { pending = js }))
unfolding delete_conn tally destroys_of settles_of is_dangle
Sound-delete_conn id c js s found same off (first, dangled, all) =
    let before : Good id s.next_id s.multi (listed id s.pending) (tally (destroys_of id) s.log)
        (tally (settles_of id) s.log) (some c) =
      rw found at (all id) in
    let (_, _, _, _, gone, was, once) = before in
    (
      first,
      dangled,
      λ i.
          split_at (GoodAt (delete_conn id c (record s { pending = js }))) id i
            (rw (lookup-remove id id s.conns, ==_refl id)
              (off, omega (arith, gone, was), omega (arith, once, was)))
            (λ e. rw (lookup-remove id i s.conns, e, same i e) (all i)),
    )
