-- ===== src/Path/Names.antt =====
-- dirname, basename and extname of src/api/path.cpp take a path apart into what it is made of.
use brokit.Prelude.{
  ℕ, zero, suc, ◌+◌, ◌-◌, ◌<◌, ◌≡◌, refl, ap, Bool, true, false, ◌&&◌, [], ◌∷◌, ◌++◌, append_assoc,
  append-nil, arith, none, some, Bytes, length, length-append, is_empty, take, drop,
  take-append-drop, length-drop, ltb, leb, ◌==◌, if◌then◌else◌, if_elim, ==_refl, Bool-cases,
  Option-cases, inl, inr,
}
use brokit.Path.{
  is_sep, find_last, stripped, is_drive, after_sep, base_of, same_text, basename, extname,
  drive_len, last_sep, dirname,
}
use brokit.Path.Find.{Lacks, find_last-append, find_last-Lacks, find_last_bound, take-length-append}

stripped_name : (s : Bytes) → Lacks is_sep s → stripped s ≡ s
unfolding stripped
stripped_name [] h = refl
stripped_name (c ∷ s) (h, hs) = rw (h, stripped_name s hs) refl

-- Nothing is stripped of a path that ends in a name.
stripped-append :
    (p name : Bytes) → Lacks is_sep name → is_empty name ≡ false → stripped (p ++ name) ≡ p ++ name
unfolding stripped
stripped-append [] name h some_name = stripped_name name h
stripped-append (c ∷ p) name h some_name = rw (stripped-append p name h some_name) (
    if_elim (λ q. q ≡ c ∷ (p ++ name)) (is_sep c && is_empty (p ++ name)) _ _
      (λ gone. absurd (ground (arith, inside p name some_name))) (λ _. refl))
  where
    inside : (p name : Bytes) → is_empty name ≡ false → is_empty (p ++ name) ≡ false
    inside [] name h = h
    inside (c ∷ p) name h = refl

find_last_sep :
    (c : ℕ) (p name : Bytes)
    → is_sep c ≡ true
    → Lacks is_sep name
    → find_last is_sep (p ++ c ∷ name) ≡ some (length p)
unfolding find_last
find_last_sep c p name sep h =
    let first : find_last is_sep (c ∷ name) ≡ some 0 =
      rw (find_last, find_last-Lacks is_sep name h, sep) refl in
    rw (find_last-append is_sep p (c ∷ name), first) (ap some (omega arith))

drop-length-append : (s t : Bytes) → drop (length s) (s ++ t) ≡ t
drop-length-append [] t = refl
drop-length-append (c ∷ s) t = drop-length-append s t

drop_more : (p : Bytes) (c : ℕ) (name : Bytes) → drop (length p + 1) (p ++ c ∷ name) ≡ name
drop_more [] c name = refl
drop_more (x ∷ p) c name =
    let e : suc (length p) + 1 ≡ suc (length p + 1) = omega arith in rw e (drop_more p c name)

-- basename of a path that ends in a separator and a name is the name.
after_sep-append :
    (c : ℕ) (p name : Bytes)
    → is_sep c ≡ true
    → Lacks is_sep name
    → after_sep (p ++ c ∷ name) ≡ name
unfolding after_sep
after_sep-append c p name sep h = rw (after_sep, find_last_sep c p name sep h) (drop_more p c name)

same_text_refl : (s : Bytes) → same_text s s ≡ true
unfolding same_text
same_text_refl [] = refl
same_text_refl (c ∷ s) = rw (==_refl c) (same_text_refl s)

-- The last character of a path aside.
init-append :
    (p : Bytes) (c : ℕ) (name : Bytes)
    → is_empty name ≡ false
    → take (length (p ++ c ∷ name) - 1) (p ++ c ∷ name) ≡ p ++ c ∷ take (length name - 1) name
init-append [] c [] h = absurd (cc)
init-append [] c (x ∷ name) h =
    let e : suc (suc (length name)) - 1 ≡ suc (suc (length name) - 1) = omega arith in rw e refl
init-append (y ∷ p) c name h =
    let e : suc (length (p ++ c ∷ name)) - 1 ≡ suc (length (p ++ c ∷ name) - 1) =
      omega (arith, length-append p (c ∷ name)) in
    rw e (ap (◌∷◌ y) (init-append p c name h))

take-Lacks : (n : ℕ) (s : Bytes) → Lacks is_sep s → Lacks is_sep (take n s)
take-Lacks zero s h = tt
take-Lacks (suc n) [] h = tt
take-Lacks (suc n) (c ∷ s) (h, hs) = (h, take-Lacks n s hs)

module _ (windows : Bool) where
  is_drive-append :
      (c : ℕ) (p name : Bytes)
      → is_sep c ≡ true
      → is_empty name ≡ false
      → is_drive windows (p ++ c ∷ name) ≡ false
  unfolding is_drive is_sep
  is_drive-append c p [] sep some_name = absurd (cc)
  is_drive-append c [] (n ∷ name) sep some_name = ground arith
  is_drive-append c (x ∷ p) (n ∷ name) sep some_name =
      ground (arith, length-append p (c ∷ n ∷ name))

  base_of-append :
      (c : ℕ) (p name : Bytes)
      → is_sep c ≡ true
      → Lacks is_sep name
      → is_empty name ≡ false
      → base_of windows (p ++ c ∷ name) ≡ name
  unfolding base_of
  base_of-append c p name sep h some_name =
      let whole : stripped (p ++ c ∷ name) ≡ p ++ c ∷ name =
        rw (← append_assoc p (c ∷ []) name) (stripped-append (p ++ c ∷ []) name h some_name) in
      rw (whole, is_drive-append c p name sep some_name) (after_sep-append c p name sep h)

  dirname-append :
      (c : ℕ) (p name : Bytes)
      → is_sep c ≡ true
      → Lacks is_sep name
      → is_empty name ≡ false
      → drive_len windows (p ++ c ∷ name) < length p
      → dirname windows (p ++ c ∷ name) ≡ p
  unfolding dirname last_sep
  dirname-append c p name sep h some_name long =
      let found =
        find_last_sep c p (take (length name - 1) name) sep (take-Lacks (length name - 1) name h) in
      let behind : ltb (length p) (drive_len windows (p ++ c ∷ name)) ≡ false = ground arith in
      let beyond : (length p == drive_len windows (p ++ c ∷ name)) ≡ false = ground arith in
      let full : is_empty (p ++ c ∷ name) ≡ false = ground (arith, inside p c name) in
      rw (full, init-append p c name some_name, found, behind, beyond)
        (take-length-append p (c ∷ name))
    where
      inside : (p : Bytes) (c : ℕ) (name : Bytes) → is_empty (p ++ c ∷ name) ≡ false
      inside [] c name = refl
      inside (x ∷ p) c name = refl

  -- A path that is put together of a directory, a separator and a name, one that is not empty and has
  -- no separator, is taken apart into the two, if the directory is longer than the drive.
  pub dirname-basename :
      (c : ℕ) (p name : Bytes)
      → is_sep c ≡ true
      → Lacks is_sep name
      → is_empty name ≡ false
      → drive_len windows (p ++ c ∷ name) < length p
      → (dirname windows (p ++ c ∷ name) ≡ p) × (basename windows (p ++ c ∷ name) [] ≡ name)
  unfolding basename
  dirname-basename c p name sep h some_name long =
      (dirname-append c p name sep h some_name long, base_of-append c p name sep h some_name)

  basename-drop :
      (p : Bytes) (i : ℕ)
      → i < length (base_of windows p)
      → basename windows p (drop i (base_of windows p)) ++ drop i (base_of windows p)
        ≡ base_of windows p
  unfolding basename
  basename-drop p i inside =
      let base = base_of windows p in
      let rest : length (drop i base) ≡ length base - i = length-drop i base in
      let stem : length base - length (drop i base) ≡ i = omega arith in
      let fits : leb (length (drop i base)) (length base) ≡ true = ground arith in
      let some_ext : is_empty (drop i base) ≡ false = not_empty (drop i base) (omega arith) in
      rw (some_ext, fits, stem, same_text_refl (drop i base)) (take-append-drop i base)
    where
      not_empty : (s : Bytes) → 0 < length s → is_empty s ≡ false
      not_empty [] h = absurd (omega arith)
      not_empty (c ∷ s) h = refl

  extname-none :
      (p : Bytes) → find_last (λ c. c == b'.') (base_of windows p) ≡ none → extname windows p ≡ []
  unfolding extname
  extname-none p gone = rw (extname, gone) refl

  extname-some :
      (p : Bytes) (i : ℕ)
      → find_last (λ c. c == b'.') (base_of windows p) ≡ some i
      → extname windows p ≡ (if i == 0 then [] else drop i (base_of windows p))
  unfolding extname
  extname-some p i found = rw (extname, found) refl

  -- The name of a path is its name without the extension, followed by the extension.
  pub basename-extname :
      (p : Bytes)
      → basename windows p (extname windows p) ++ extname windows p ≡ basename windows p []
  unfolding basename
  basename-extname p = elim (Option-cases (find_last (λ c. c == b'.') (base_of windows p))) [
    | inl gone ↦ rw (extname-none p gone) (append-nil (base_of windows p))
    | inr (i, found) ↦ elim (Bool-cases (i == 0)) [
      | inl hidden ↦ rw (extname-some p i found, hidden) (append-nil (base_of windows p))
      | inr later ↦
          rw (extname-some p i found, later)
            (basename-drop p i (find_last_bound (λ c. c == b'.') (base_of windows p) i found))
    ]
  ]
