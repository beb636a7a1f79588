-- ===== src/Blob/Slices.antt =====
-- The slices of src/api/blob.cpp by the parts of a blob.
use brokit.Prelude.{
  suc, ◌+◌, ◌-◌, ◌≤◌, ◌≡◌, ◌⊎◌, inl, inr, refl, sym, ap, ◌∙◌, false, [], ◌∷◌, ◌++◌, Option, none,
  some, Bytes, length, take, drop, length-append, append_assoc, append-nil, ltb, ℤ, pos, negsuc,
  arith,
}
use brokit.Blob.{clamped, slice}

-- A number stands for the place between two parts of a blob: it is the length of the first one, or minus the length of
-- the second one; or it is behind the end and the second one is empty, or before the start and the first one is.
abbrev pub IsPlace : (before after : Bytes) → ℤ → Type 0
IsPlace before after (pos i) = (i ≡ length before) ⊎ ((length before ≤ i) × (after ≡ []))
IsPlace before after (negsuc k) = (suc k ≡ length after) ⊎ ((length after ≤ suc k) × (before ≡ []))

-- A start that is not given is the start of the blob, and an end that is not given its end.
abbrev pub IsStart : (before after : Bytes) → Option ℤ → Type 0
IsStart before after none = before ≡ []
IsStart before after (some z) = IsPlace before after z

abbrev pub IsEnd : (before after : Bytes) → Option ℤ → Type 0
IsEnd before after none = after ≡ []
IsEnd before after (some z) = IsPlace before after z

clamped-IsPlace :
    (before after : Bytes) (z : ℤ)
    → IsPlace before after z
    → clamped (length (before ++ after)) z ≡ length before
unfolding clamped
clamped-IsPlace before after (pos i) (inl e) = ground (arith, e, length-append before after)
clamped-IsPlace before after (pos i) (inr (beyond, none_left)) =
    let nothing : length after ≡ 0 = ap length none_left in
    ground (arith, beyond, nothing, length-append before after)
clamped-IsPlace before after (negsuc k) (inl e) = ground (arith, e, length-append before after)
clamped-IsPlace before after (negsuc k) (inr (beyond, none_left)) =
    let nothing : length before ≡ 0 = ap length none_left in
    ground (arith, beyond, nothing, length-append before after)

drop_front : (xs ys : Bytes) → drop (length xs) (xs ++ ys) ≡ ys
drop_front [] ys = refl
drop_front (x ∷ xs) ys = drop_front xs ys

take_front : (xs ys : Bytes) → take (length xs) (xs ++ ys) ≡ xs
take_front [] ys = refl
take_front (x ∷ xs) ys = ap (◌∷◌ x) (take_front xs ys)

start_at :
    (before after : Bytes) (z : Option ℤ)
    → IsStart before after z
    → (elim z [ none ↦ 0 | some z ↦ clamped (length (before ++ after)) z ]) ≡ length before
start_at before after none e = sym (ap length e)
start_at before after (some z) e = clamped-IsPlace before after z e

end_at :
    (before after whole : Bytes) (z : Option ℤ)
    → before ++ after ≡ whole
    → IsEnd before after z
    → (elim z [ none ↦ length whole | some z ↦ clamped (length whole) z ]) ≡ length before
end_at before after whole none parts e =
    ap length (sym parts) ∙ ap (λ cs. length (before ++ cs)) e ∙ ap length (append-nil before)
end_at before after whole (some z) parts e =
    ap (λ cs. clamped (length cs) z) (sym parts) ∙ clamped-IsPlace before after z e

-- In a blob of three parts, the slice from the place before the second part to the place behind it is the second part,
-- whether the places are counted from the start or from the end, lie outside of the blob, or are not given.
pub slice-between :
    (before middle after : Bytes) (first last : Option ℤ)
    → IsStart before (middle ++ after) first
    → IsEnd (before ++ middle) after last
    → slice first last (before ++ (middle ++ after)) ≡ middle
unfolding slice
slice-between before middle after first last starts ends =
    let from = start_at before (middle ++ after) first starts in
    let stop =
      end_at (before ++ middle) after (before ++ (middle ++ after)) last
        (append_assoc before middle after) ends in
    let long : length before + length middle ≡ length (before ++ middle) =
      omega (arith, length-append before middle) in
    let ahead : ltb (length before + length middle) (length before) ≡ false = ground arith in
    let rest : length before + length middle - length before ≡ length middle = omega arith in
    rw (from, stop, sym long, ahead, rest, drop_front before (middle ++ after))
      (take_front middle after)
