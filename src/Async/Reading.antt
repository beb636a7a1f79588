-- ===== src/Async/Reading.antt =====
-- What readFile of src/api/fs_async.cpp answers, whichever of its loops it takes.
use brokit.Prelude.{
  ℕ, zero, suc, ◌+◌, ◌-◌, ◌≤◌, ◌<◌, ◌≡◌, refl, ap, sym, ◌∙◌, Bool, true, false, ◌⊎◌, inl, inr, [],
  ◌∷◌, ◌++◌, Option, none, some, Bytes, length, length-take, length-drop, take, drop, leb, ltb,
  ◌==◌, not, Bool-cases, if_elim, arith, append-nil,
}
use brokit.Prelude.Slices.{
  take-length, drop-length, take-append-take, drop-drop, take-nil, drop-nil,
}
use brokit.Async.File.{
  FileResult, File, block, skip_loop, fill_loop, answer, or_all, u32_max, u64_max, chunk,
  read_known, read_stream, read_file_at,
}
use Prim.Native.Nat.{min}

-- What is left after a step of at most what there is.
drop-step :
    (k step : ℕ) (s : Bytes) → step ≤ k → drop (k - length (take step s)) (drop step s) ≡ drop k s
drop-step k step s h = elim (Bool-cases (leb step (length s))) [
  | inl e ↦
      let le : step ≤ length s = ground arith in
      let all : length (take step s) ≡ step = omega (arith, length-take step s) in
      let sum : step + (k - step) ≡ k = omega arith in
      rw all (drop-drop step (k - step) s ∙ ap (λ n. drop n s) sum)
  | inr e ↦
      let lt : length s < step = ground arith in
      rw
        (
          drop-length step s (omega arith),
          drop-length k s (omega arith),
          drop-nil (k - length (take step s)),
        )
        refl
]

take-step :
    (k step : ℕ) (s : Bytes)
    → step ≤ k
    → take step s ++ take (k - length (take step s)) (drop step s) ≡ take k s
take-step k step s h = elim (Bool-cases (leb step (length s))) [
  | inl e ↦
      let le : step ≤ length s = ground arith in
      let all : length (take step s) ≡ step = omega (arith, length-take step s) in
      let sum : step + (k - step) ≡ k = omega arith in
      rw all (take-append-take step (k - step) s ∙ ap (λ n. take n s) sum)
  | inr e ↦
      let lt : length s < step = ground arith in
      rw
        (
          take-length step s (omega arith),
          take-length k s (omega arith),
          drop-length step s (omega arith),
          take-nil (k - length s),
        )
        (append-nil s)
]

pub skip_loop_lem :
    (fuel k : ℕ) (s : Bytes) → k ≤ fuel → skip_loop fuel k s ≡ (k - length s, drop k s)
unfolding skip_loop
skip_loop_lem zero zero s h = ap (λ n. (n, s)) (omega arith)
skip_loop_lem zero (suc k) s h = absurd (omega arith)
skip_loop_lem (suc fuel) zero s h = ap (λ n. (n, s)) (omega arith)
skip_loop_lem (suc fuel) (suc k) [] h =
    let first : (suc k == 0) ≡ false = ground arith in
    let kept : suc k ≡ suc k - 0 = omega arith in
    rw (first, take-nil {A = ℕ} (min (suc k) block), drop-nil {A = ℕ} (min (suc k) block))
      (ap (λ n. (n, [])) kept)
skip_loop_lem (suc fuel) (suc k) (c ∷ s) h =
    let step = min (suc k) block in
    let got : length (take step (c ∷ s)) ≡ min step (suc (length s)) = length-take step (c ∷ s) in
    let more : suc k - length (take step (c ∷ s)) ≤ fuel = omega arith in
    let ih = skip_loop_lem fuel (suc k - length (take step (c ∷ s))) (drop step (c ∷ s)) more in
    let first : (suc k == 0) ≡ false = ground arith in
    let busy : (length (take step (c ∷ s)) == 0) ≡ false = ground (arith, got) in
    let left : length (drop step (c ∷ s)) ≡ suc (length s) - step = length-drop step (c ∷ s) in
    let num : suc k - length (take step (c ∷ s)) - length (drop step (c ∷ s))
        ≡ suc k - suc (length s) =
      omega (arith, got, left) in
    rw (first, busy, ih, num, drop-step (suc k) step (c ∷ s) (omega arith)) refl

pub fill_loop_lem :
    (most fuel k : ℕ) (s : Bytes) → 0 < most → length s < fuel → fill_loop most fuel k s ≡ take k s
unfolding fill_loop
fill_loop_lem most zero k s pos h = absurd (omega arith)
fill_loop_lem most (suc fuel) zero s pos h = refl
fill_loop_lem most (suc fuel) (suc k) [] pos h =
    let first : (suc k == 0) ≡ false = ground arith in
    rw (first, take-nil {A = ℕ} (min (suc k) most)) refl
fill_loop_lem most (suc fuel) (suc k) (c ∷ s) pos h =
    let step = min (suc k) most in
    let got : length (take step (c ∷ s)) ≡ min step (suc (length s)) = length-take step (c ∷ s) in
    let left : length (drop step (c ∷ s)) ≡ suc (length s) - step = length-drop step (c ∷ s) in
    let ih =
      fill_loop_lem most fuel (suc k - length (take step (c ∷ s))) (drop step (c ∷ s)) pos
        (omega arith) in
    let first : (suc k == 0) ≡ false = ground arith in
    let busy : (length (take step (c ∷ s)) == 0) ≡ false = ground (arith, got) in
    rw (first, busy, ih) (take-step (suc k) step (c ∷ s) (omega arith))

-- The part of a list that is asked for, when it lies after its end or holds nothing.
take-drop-none : (n k : ℕ) (s : Bytes) → n ≡ 0 ⊎ (length s ≤ k) → take n (drop k s) ≡ []
take-drop-none n k s (inl e) = rw e refl
take-drop-none n k s (inr h) = rw (drop-length k s h) (take-nil n)

-- What a call asks for, of the bytes there are.
abbrev pub slice_of : (offset wanted : Option ℕ) → Bytes → Bytes
slice_of offset wanted s = take (or_all wanted (length s)) (drop (or_all offset 0) s)

take-min : (k : ℕ) (s : Bytes) → take (min (length s) k) s ≡ take k s
take-min k s = elim (Bool-cases (leb (length s) k)) [
  | inl e ↦
      let le : length s ≤ k = ground arith in
      let all : min (length s) k ≡ length s = omega arith in
      rw (all, take-length (length s) s (omega arith), take-length k s le) refl
  | inr e ↦
      let le : k ≤ length s = ground arith in
      let some_of : min (length s) k ≡ k = omega arith in rw some_of refl
]

counted :
    (avail n : ℕ) (wanted : Option ℕ)
    → avail ≤ n
    → min avail (or_all wanted avail) ≡ min avail (or_all wanted n)
counted avail n none h = omega arith
counted avail n (some k) h = refl

no_part : (wanted : Option ℕ) (n : ℕ) → (or_all wanted 1 == 0) ≡ true → or_all wanted n ≡ 0
no_part none n h = absurd (cc)
no_part (some k) n h = ground arith

module _ (as_text : Bool) (path : Bytes) (f : File) where
  known :
      (offset : ℕ) (wanted : Option ℕ)
      → f.end_pos ≡ length f.contents
      → length (take (or_all wanted (length f.contents)) (drop offset f.contents)) ≤ u32_max
      → read_known as_text path offset wanted f
        ≡ answer as_text (take (or_all wanted (length f.contents)) (drop offset f.contents))
  unfolding read_known
  known offset wanted e h =
      let s = drop offset f.contents in
      let n = or_all wanted (length f.contents) in
      let avail : f.end_pos - offset ≡ length s = omega (arith, length-drop offset f.contents) in
      let same : min (f.end_pos - offset) (or_all wanted (f.end_pos - offset))
          ≡ min (f.end_pos - offset) n =
        counted (f.end_pos - offset) (length f.contents) wanted (omega arith) in
      rw (same, avail)
        (if_elim (λ (r : FileResult). r ≡ answer as_text (take n s)) (leb f.end_pos offset) _ _
          (λ past.
            ap (answer as_text) (sym (take-drop-none n offset f.contents (inr (ground arith)))))
          (λ _.
            if_elim (λ (r : FileResult). r ≡ answer as_text (take n s)) (min (length s) n == 0) _ _
              (λ nothing_left.
                let gone : min (length s) n ≡ 0 = ground arith in
                ap (answer as_text) (sym (sym (take-min n s) ∙ ap (λ m. take m s) gone)))
              (λ _.
                if_elim (λ (r : FileResult). r ≡ answer as_text (take n s))
                  (ltb u32_max (min (length s) n)) _ _
                  (λ too_large. absurd (ground (arith, length-take n s)))
                  (λ _. ap (answer as_text) (
                    fill_loop_lem chunk (suc (length f.contents)) (min (length s) n) s (omega arith)
                      (omega arith)
                    ∙ take-min n s)))))

  whole :
      (offset : ℕ) (wanted : Option ℕ)
      → length f.contents ≤ u64_max
      → take (or_all wanted u64_max) (drop offset f.contents)
        ≡ take (or_all wanted (length f.contents)) (drop offset f.contents)
  whole offset none h =
      let left = length-drop offset f.contents in
      take-length u64_max (drop offset f.contents) (omega arith)
      ∙ sym (take-length (length f.contents) (drop offset f.contents) (omega arith))
  whole offset (some k) h = refl

  streamed :
      (offset : ℕ) (wanted : Option ℕ)
      → length f.contents ≤ u64_max
      → read_stream as_text offset wanted f
        ≡ answer as_text (take (or_all wanted (length f.contents)) (drop offset f.contents))
  unfolding read_stream
  streamed offset wanted h =
      let n = or_all wanted (length f.contents) in
      let skipped : skip_loop offset offset f.contents
          ≡ (offset - length f.contents, drop offset f.contents) =
        skip_loop_lem offset offset f.contents (omega arith) in
      rw skipped (
        if_elim (λ (r : FileResult). r ≡ answer as_text (take n (drop offset f.contents)))
          (ltb 0 (offset - length f.contents)) _ _
          (λ past.
            ap (answer as_text) (sym (take-drop-none n offset f.contents (inr (ground arith)))))
          (λ _. ap (answer as_text) (
            fill_loop_lem block (suc (length (drop offset f.contents))) (or_all wanted u64_max)
              (drop offset f.contents) (omega arith) (omega arith)
            ∙ whole offset wanted h)))

  -- Either part answers with what was asked for, if the part that is taken does.
  chosen :
      (offset wanted : Option ℕ)
      → f.is_directory ≡ false
      → f.opens ≡ true
      → (ltb 0 f.end_pos ≡ true
          → read_known as_text path (or_all offset 0) wanted f
            ≡ answer as_text (slice_of offset wanted f.contents))
      → (ltb 0 f.end_pos ≡ false → length f.contents ≤ u64_max)
      → read_file_at as_text path offset wanted f
        ≡ answer as_text (slice_of offset wanted f.contents)
  unfolding read_file_at
  chosen offset wanted not_dir opens by_end by_stream =
      let from = or_all offset 0 in
      let s = f.contents in
      let IsRight : FileResult → Type 0 = λ r. r ≡ answer as_text (slice_of offset wanted s) in
      if_elim IsRight f.is_directory _ _ (λ e. absurd (cc))
        (λ _.
          if_elim IsRight (not f.opens) _ _ (λ e. absurd (ground arith))
            (λ _. if_elim IsRight (ltb 0 f.end_pos) _ _ by_end (λ no_end.
              if_elim IsRight (or_all wanted 1 == 0) _ _
                (λ none_wanted.
                  let part = no_part wanted (length s) none_wanted in
                  ap (answer as_text)
                    (sym (take-drop-none (or_all wanted (length s)) from s (inl part))))
                (λ _. streamed from wanted (by_stream no_end)))))

  -- readFile of a file that is no directory and opens answers with exactly the bytes asked for: from the offset,
  -- as many as wanted or as there are, if the place of its end was found and they are at most 2^32 - 1, or
  -- if no end was found (the file seems empty) and there are at most 2^64 - 1 bytes in all.
  pub read_file_at-slice :
      (offset wanted : Option ℕ)
      → f.is_directory ≡ false
      → f.opens ≡ true
      → ((f.end_pos ≡ 0) × (length f.contents ≤ u64_max))
        ⊎ ((f.end_pos ≡ length f.contents) × (length (slice_of offset wanted f.contents) ≤ u32_max))
      → read_file_at as_text path offset wanted f
        ≡ answer as_text (slice_of offset wanted f.contents)
  read_file_at-slice offset wanted not_dir opens (inl (zero_end, bound)) =
      chosen offset wanted not_dir opens (λ e. absurd (ground arith)) (λ _. bound)
  read_file_at-slice offset wanted not_dir opens (inr (true_end, bound)) =
      chosen offset wanted not_dir opens (λ _. known (or_all offset 0) wanted true_end bound)
        (λ e. ground arith)
