-- ===== src/WebSocket/Teardown.antt =====
-- uninstallWebSocket of src/api/websocket.cpp: every connection is destroyed, once.
use brokit.Prelude.{
  ℕ, ◌+◌, ◌≤◌, ◌<◌, ◌≡◌, refl, sym, ap, ◌∙◌, Bool, true, false, List, [], ◌∷◌, Option, none, some,
  ◌⊎◌, inl, inr, ◌==◌, ==_refl, if◌then◌else◌, Bool-cases, arith,
}
use brokit.Prelude.Table.{lookup, remove, lookup-remove}
use brokit.WebSocket.{WsConnection, destroys, Ws, listed, delete_conn}
use brokit.WebSocket.Natives.{keys, for_all, destroy_one, uninstall_ws}
use brokit.WebSocket.Kept.{
  tally, destroys_of, settles_of, is_dangle, one, issued, Good, Sound, split_at,
}

-- What holds of an id while connections are destroyed.
abbrev Half : (i next gone settled : ℕ) → Option WsConnection → Type 0
Half i next gone settled none = (gone ≡ issued i next) × (settled ≤ issued i next)
Half i next gone settled (some c) = (gone ≡ 0) × (issued i next ≡ 1) × (settled + one c.waits ≤ 1)

abbrev HalfAt : Ws → ℕ → Type 0
HalfAt s i =
    Half i s.next_id (tally (destroys_of i) s.log) (tally (settles_of i) s.log) (lookup i s.conns)

abbrev HalfSound : Ws → Type 0
HalfSound s = (0 < s.next_id) × (tally is_dangle s.log ≡ 0) × ((i : ℕ) → HalfAt s i)

Good-Half :
    (i next : ℕ) (multi : Bool) (count gone settled : ℕ) (o : Option WsConnection)
    → Good i next multi count gone settled o
    → Half i next gone settled o
Good-Half i next multi count gone settled none (_, d, w) = (d, w)
Good-Half i next multi count gone settled (some c) (_, _, _, _, d, u, w) = (d, u, w)

HalfSound-destroy_one : (id : ℕ) (s : Ws) → HalfSound s → HalfSound (destroy_one id s)
unfolding destroy_one delete_conn tally destroys_of settles_of is_dangle
HalfSound-destroy_one id s (first, dangled, all) = by_entry (lookup id s.conns) refl
  where
    s' : WsConnection → Ws
    s' c = record s { conns = remove id s.conns; log = destroys id c.held ∷ s.log }

    by_entry :
        (o : Option WsConnection)
        → lookup id s.conns ≡ o
        → HalfSound (elim o [ none ↦ s | some c ↦ delete_conn id c s ])
    by_entry none e = (first, dangled, all)
    by_entry (some c) e =
        let (d, was, once) = rw e at (all id) in
        (
          first,
          dangled,
          λ i.
              split_at (HalfAt (s' c)) id i
                (rw (lookup-remove id id s.conns, ==_refl id)
                  (omega (arith, d, was), omega (arith, once, was)))
                (λ other. rw (lookup-remove id i s.conns, other) (all i)),
        )

HalfSound-for_all : (ids : List ℕ) (s : Ws) → HalfSound s → HalfSound (for_all destroy_one ids s)
unfolding for_all
HalfSound-for_all [] s h = h
HalfSound-for_all (id ∷ ids) s h =
    HalfSound-for_all ids (destroy_one id s) (HalfSound-destroy_one id s h)

lookup-destroy_one :
    (id i : ℕ) (s : Ws)
    → lookup i (destroy_one id s).conns ≡ (if id == i then none else lookup i s.conns)
unfolding destroy_one delete_conn
lookup-destroy_one id i s = by_entry (lookup id s.conns) refl
  where
    by_entry :
        (o : Option WsConnection)
        → lookup id s.conns ≡ o
        → lookup i (elim o as (λ _. Ws) [ none ↦ s | some c ↦ delete_conn id c s ]).conns
          ≡ (if id == i then none else lookup i s.conns)
    by_entry none e = elim (Bool-cases (id == i)) [
      | inl same ↦
          let at : id ≡ i = ground arith in rw same (ap (λ j. lookup j s.conns) (sym at) ∙ e)
      | inr other ↦ rw other refl
    ]
    by_entry (some c) e = lookup-remove id i s.conns

lookup-for_all :
    (ids : List ℕ) (i : ℕ) (s : Ws)
    → lookup i (for_all destroy_one ids s).conns
      ≡ (if listed i ids == 0 then lookup i s.conns else none)
unfolding for_all listed
lookup-for_all [] i s = refl
lookup-for_all (id ∷ ids) i s =
    ground (arith, lookup-for_all ids i (destroy_one id s), lookup-destroy_one id i s)

lookup-keys :
    (i : ℕ) (conns : List (ℕ × WsConnection)) → listed i (keys conns) ≡ 0 → lookup i conns ≡ none
unfolding keys listed lookup
lookup-keys i [] h = refl
lookup-keys i ((id, c) ∷ conns) h = ground (arith, lookup-keys i conns)

all_gone : (i : ℕ) (s : Ws) → lookup i (for_all destroy_one (keys s.conns) s).conns ≡ none
all_gone i s =
    lookup-for_all (keys s.conns) i s ∙ cleared (Bool-cases (listed i (keys s.conns) == 0))
  where
    cleared :
        ((listed i (keys s.conns) == 0) ≡ true) ⊎ ((listed i (keys s.conns) == 0) ≡ false)
        → (if listed i (keys s.conns) == 0 then lookup i s.conns else none) ≡ none
    cleared (inl e) = rw e (lookup-keys i s.conns (ground arith))
    cleared (inr e) = rw e refl

pub Sound-uninstall_ws : (s : Ws) → Sound s → Sound (uninstall_ws s)
unfolding uninstall_ws lookup listed
Sound-uninstall_ws s (first, dangled, all) =
    let done = for_all destroy_one (keys s.conns) s in
    let (first', dangled', half) = HalfSound-for_all (keys s.conns) s (
      first,
      dangled,
      λ i.
          Good-Half i s.next_id s.multi (listed i s.pending) (tally (destroys_of i) s.log)
            (tally (settles_of i) s.log) (lookup i s.conns) (all i),
    ) in
    (first', dangled', λ i. let (d, w) = rw (all_gone i s) at (half i) in (refl, d, w))
