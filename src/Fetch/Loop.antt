-- ===== src/Fetch/Loop.antt =====
-- Whether src/api/fetch.cpp has something for the loop to do.
use brokit.Prelude.{
  ℕ, ◌+◌, ◌≤◌, ◌≡◌, ◌⊎◌, inl, inr, refl, sym, ap, ◌∙◌, Bool-cases, true, false, List, [], ◌∷◌, some,
  is_empty, ◌==◌, if◌then◌else◌, arith,
}
use brokit.Prelude.Table.{lookup}
use brokit.Fetch.{FetchRequest, FetchState}
use brokit.Fetch.Tick.{listed, any_waits, fetch_has_pending}
use brokit.Fetch.Kept.{is_current, counts}
use brokit.Fetch.Sound.{known}
use brokit.Fetch.Reach.{Reach, Idle-Reach, Sound-Reach}

some_listed : (i : ℕ) (js : List ℕ) → 1 ≤ listed i js → is_empty js ≡ false
unfolding listed
some_listed i [] h = absurd (omega (arith, h))
some_listed i (j ∷ js) h = refl

one_waits :
    (id : ℕ) (r : FetchRequest) (m : List (ℕ × FetchRequest))
    → lookup id m ≡ some r
    → r.wait_callback ≡ true
    → any_waits m ≡ true
unfolding lookup any_waits
one_waits id r [] found h = absurd (cc)
one_waits id r ((j, x) ∷ m) found h = elim (Bool-cases (j == id)) [
  | inl e ↦
      let both : some x ≡ some r = sym (ap (λ b. if b then some x else lookup id m) e) ∙ found in
      let same : x ≡ r = cc in
      let here : x.wait_callback ≡ true = ap (λ (y : FetchRequest). y.wait_callback) same ∙ h in
      ground (arith, here)
  | inr e ↦
      let rest = one_waits id r m (sym (ap (λ b. if b then some x else lookup id m) e) ∙ found) h in
      ground (arith, rest)
]

-- Through every history, a request whose promise is not settled, or whose reader waits, keeps the loop going:
-- js_fetch_has_pending gives true.
pub fetch_has_pending-Reach :
    (s : FetchState) (id : ℕ) (r : FetchRequest)
    → Reach s
    → lookup id s.streams ≡ some r
    → (r.promise ≡ true) ⊎ (r.wait_callback ≡ true)
    → fetch_has_pending s ≡ true
unfolding fetch_has_pending counts is_current
fetch_has_pending-Reach s id r reach found h =
    let k = known id r s found (Sound-Reach s reach) in
    let off : is_current id s.current ≡ 0 = ap (is_current id) (Idle-Reach s reach) in
    elim h [
      | inl kept ↦
          let in_one : 1 ≤ listed id s.pending + listed id s.local_pending =
            ground (arith, k, kept, off) in
          ground (arith, in_one, some_listed id s.pending, some_listed id s.local_pending)
      | inr waits ↦ ground (arith, one_waits id r s.streams found waits)
    ]
