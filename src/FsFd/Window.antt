-- ===== src/FsFd/Window.antt =====
-- windowFits of src/api/fs_fd.cpp, and the window in the buffer that a read or a write goes to.
use brokit.Prelude.{
  ℕ, ◌+◌, ◌≤◌, ◌≡◌, ◌↔◌, refl, ap, sym, ◌∙◌, inl, inr, true, Option, none, some, Bytes, ℤ, pos,
  negsuc, Bool-cases, arith,
}
use brokit.FsFd.{window_fits}
use brokit.FsFd.Calls.{checked, window, to_nat, or_pos}

-- windowFits holds exactly if neither number is negative and the end of the window, in exact numbers, is at most
-- the size of the buffer.
pub window_fits_lem :
    (offset length : ℤ) (size : ℕ)
    → (window_fits offset length size ≡ true)
      ↔ ((o : ℕ) × (l : ℕ) × (offset ≡ pos o) × (length ≡ pos l) × (o + l ≤ size))
unfolding window_fits
window_fits_lem (pos o) (pos l) size = (
  λ h. (o, l, refl, refl, ground arith),
  λ (o', l', eo, el, h). let o_eq : o ≡ o' = cc in let l_eq : l ≡ l' = cc in ground arith,
)
window_fits_lem (pos o) (negsuc l) size = (λ h. absurd (cc), λ (o', l', eo, el, h). absurd (cc))
window_fits_lem (negsuc o) length size = (λ h. absurd (cc), λ (o', l', eo, el, h). absurd (cc))

-- A readSync or writeSync that passes its checks uses a window that lies in the buffer as it is when the bytes are
-- moved, though script may have changed it while the arguments were read.
pub checked-window :
    (name : Bytes) (size size_then : Option ℕ) (offset length : Option ℤ) (o l : ℕ)
    → checked name size size_then offset length ≡ inr (o, l)
    → (n : ℕ) × (size_then ≡ some n) × (o + l ≤ n)
unfolding checked window to_nat
checked-window name none size_then offset length o l e = absurd (cc)
checked-window name (some size) none offset length o l e = absurd (cc)
checked-window name (some size) (some n) offset length o l e =
    let at = or_pos offset 0 in
    let count = or_pos length size in
    elim (Bool-cases (window_fits at count size)) [
      | inr none_fits ↦ let clash = simp none_fits at e in absurd (cc)
      | inl first ↦ elim (Bool-cases (window_fits at count n)) [
        | inr none_fits ↦ let clash = simp (first, none_fits) at e in absurd (cc)
        | inl fits ↦
            let (o', l', at_eq, count_eq, h) = (window_fits_lem at count n).0 fits in
            let got : inr (to_nat at, to_nat count) ≡ inr (o, l) = simp (first, fits) at e in
            let both : (to_nat at, to_nat count) ≡ (o, l) = cc in
            let o_eq : o' ≡ o = sym (ap to_nat at_eq) ∙ ap (λ (x : ℕ × ℕ). x.0) both in
            let l_eq : l' ≡ l = sym (ap to_nat count_eq) ∙ ap (λ (x : ℕ × ℕ). x.1) both in
            (n, refl, omega (arith, h, o_eq, l_eq))
      ]
    ]
