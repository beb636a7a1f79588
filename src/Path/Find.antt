-- ===== src/Path/Find.antt =====
-- The search from the end (std::find_last_of) of src/api/path.cpp.
use brokit.Prelude.{
  ℕ, ◌+◌, ◌<◌, ◌≡◌, refl, ap, Bool, false, [], ◌∷◌, ◌++◌, arith, none, some, Bytes, length, take,
  Option-cases, All, inl, inr,
}
use brokit.Path.{find_last}

pub find_last-append :
    (test : ℕ → Bool) (s t : Bytes)
    → find_last test (s ++ t)
      ≡ elim (find_last test t) [ some i ↦ some (length s + i) | none ↦ find_last test s ]
unfolding find_last
find_last-append test [] t = elim (Option-cases (find_last test t)) [
  | inl e ↦ rw e refl
  | inr (i, e) ↦ rw e (ap some (omega arith))
]
find_last-append test (c ∷ s) t = ground (arith, find_last-append test s t)

-- No character passes the test.
abbrev pub Lacks : (ℕ → Bool) → Bytes → Type 0
Lacks test = All (λ c. test c ≡ false)

pub find_last-Lacks : (test : ℕ → Bool) (s : Bytes) → Lacks test s → find_last test s ≡ none
unfolding find_last
find_last-Lacks test [] h = refl
find_last-Lacks test (c ∷ s) (h, hs) = rw (find_last-Lacks test s hs, h)

pub take-length-append : (s t : Bytes) → take (length s) (s ++ t) ≡ s
take-length-append [] t = refl
take-length-append (c ∷ s) t = ap (◌∷◌ c) (take-length-append s t)

pub find_last_bound :
    (test : ℕ → Bool) (s : Bytes) (i : ℕ) → find_last test s ≡ some i → i < length s
unfolding find_last
find_last_bound test [] i e = absurd (cc)
find_last_bound test (c ∷ s) i e = elim (Option-cases (find_last test s)) [
  | inl gone ↦ ground arith
  | inr (j, found) ↦ ground (arith, find_last_bound test s j found)
]
