-- ===== src/Path/Normal.antt =====
-- normalizeInto of src/api/path.cpp writes the text of a stack of segments.
use brokit.Prelude.{
  ℕ, ◌+◌, ◌-◌, ◌≡◌, refl, sym, ap, ◌∙◌, Bool, true, false, not, ◌||◌, List, [], ◌∷◌, ◌++◌,
  append_assoc, append-nil, arith, some, Bytes, codes, length, length-append, is_empty, take, ltb,
  ◌==◌, if◌then◌else◌, ==_refl, Bool-cases, Option-cases, All, inl, inr,
}
use brokit.Path.{
  is_sep, is_dot, is_dotdot, find_last, segments, Written, sep, cut_at, appended, place, place_all,
  root, is_absolute, below_root, drive_len, has_drive, or_dot, normalize,
}
use brokit.Path.Find.{Lacks, find_last-append, find_last-Lacks, find_last_bound, take-length-append}
use brokit.Path.Segments.{
  ups, IsStack, no_name, below, push_segment, push_all, ups-no_name, push_segment-IsStack,
  segments-Lacks,
}

module _ (windows : Bool) where
  -- The segments of a stack, the top last, with separators between them.
  unfoldable pub spelled : List Bytes → Bytes
  spelled [] = []
  spelled (s ∷ []) = s
  spelled (s ∷ t ∷ stack) = spelled (t ∷ stack) ++ sep windows ∷ s

  -- kSep is a separator.
  sep-is_sep : (c : ℕ) → is_sep c ≡ false → (c == sep windows) ≡ false
  unfolding is_sep sep
  sep-is_sep c h = ground arith

  Lacks-sep : (s : Bytes) → Lacks is_sep s → Lacks (λ c. c == sep windows) s
  Lacks-sep [] h = tt
  Lacks-sep (c ∷ s) (h, hs) = (sep-is_sep c h, Lacks-sep s hs)

  -- The variables of the loop are those of a stack behind the root.
  abbrev Spells : Bytes → List Bytes → Written → Type 0
  Spells r stack w =
      (w.out ≡ r ++ spelled stack) × (w.kept ≡ length stack) × (w.dotdots ≡ ups stack)

  appended-spelled :
      (r seg : Bytes) (stack : List Bytes) (w : Written)
      → Spells r stack w
      → appended windows seg w ≡ r ++ spelled (seg ∷ stack)
  unfolding appended spelled
  appended-spelled r seg [] w (out, kept, dots) = ground (arith, append-nil r)
  appended-spelled r seg (t ∷ stack) w (out, kept, dots) =
      ground (arith, append_assoc r (spelled (t ∷ stack)) (sep windows ∷ seg))

  -- A `..` takes the last segment and the separator before it; the first one leaves the root.
  cut_at-root : (r s : Bytes) → Lacks is_sep s → cut_at windows (length r) (r ++ s) ≡ length r
  unfolding cut_at
  cut_at-root r s h =
      let behind = find_last-append (λ c. c == sep windows) r s in
      let none_here = find_last-Lacks (λ c. c == sep windows) s (Lacks-sep s h) in
      elim (Option-cases (find_last (λ c. c == sep windows) r)) [
        | inl gone ↦ rw (cut_at, behind, none_here, gone) refl
        | inr (i, found) ↦
            let inside = find_last_bound (λ c. c == sep windows) r i found in
            rw (cut_at, behind, none_here, found) (ground arith)
      ]

  find_last-sep :
      (s : Bytes) → Lacks is_sep s → find_last (λ c. c == sep windows) (sep windows ∷ s) ≡ some 0
  unfolding find_last
  find_last-sep s h =
      rw (find_last-Lacks (λ c. c == sep windows) s (Lacks-sep s h), ==_refl (sep windows)) refl

  cut_at-sep :
      (r x s : Bytes)
      → Lacks is_sep s
      → cut_at windows (length r) ((r ++ x) ++ sep windows ∷ s) ≡ length (r ++ x)
  unfolding cut_at
  cut_at-sep r x s h =
      rw
        (
          cut_at,
          find_last-append (λ c. c == sep windows) (r ++ x) (sep windows ∷ s),
          find_last-sep s h,
        )
        (ground (arith, length-append r x))

  take-cut_at :
      (r s : Bytes) (stack : List Bytes)
      → Lacks is_sep s
      → let out = r ++ spelled (s ∷ stack) in
        take (cut_at windows (length r) out) out ≡ r ++ spelled stack
  unfolding spelled
  take-cut_at r s [] h = rw (cut_at-root r s h, take-length-append r s) (sym (append-nil r))
  take-cut_at r s (t ∷ stack) h =
      rw
        (
          ← append_assoc r (spelled (t ∷ stack)) (sep windows ∷ s),
          cut_at-sep r (spelled (t ∷ stack)) s h,
        )
        (take-length-append (r ++ spelled (t ∷ stack)) (sep windows ∷ s))

  -- The cut on the variables of the loop.
  below-Spells :
      (r : Bytes) (stack : List Bytes) (w : Written)
      → IsStack stack
      → no_name stack ≡ false
      → Spells r stack w
      → Spells r
          (below stack)
          (record w { out = take (cut_at windows (length r) w.out) w.out; kept = w.kept - 1 })
  unfolding ups
  below-Spells r [] w h top sp = absurd (cc)
  below-Spells r (s ∷ stack) w (h, only, hs) top (out, kept, dots) =
      (rw out (take-cut_at r s stack h), omega arith, ground arith)

  ups-named :
      (seg : Bytes) (stack : List Bytes) → is_dotdot seg ≡ false → ups (seg ∷ stack) ≡ ups stack
  unfolding ups
  ups-named seg stack named = rw named refl

  ups-up :
      (seg : Bytes) (stack : List Bytes) → is_dotdot seg ≡ true → ups (seg ∷ stack) ≡ ups stack + 1
  unfolding ups
  ups-up seg stack up = rw up (omega arith)

  place-Spells :
      (r seg : Bytes) (absolute : Bool) (stack : List Bytes) (w : Written)
      → IsStack stack
      → Spells r stack w
      → Spells r (push_segment absolute seg stack) (place windows (length r) absolute seg w)
  unfolding place push_segment
  place-Spells r seg absolute stack w hs (out, kept, dots) =
      let sp : Spells r stack w = (out, kept, dots) in
      let counted : ltb w.dotdots w.kept ≡ not (no_name stack) =
        rw (kept, dots) (ups-no_name stack hs) in
      let spelled = appended-spelled r seg stack w sp in
      elim (Bool-cases (is_empty seg || is_dot seg)) [
        | inl skip ↦ rw skip sp
        | inr seen ↦ elim (Bool-cases (is_dotdot seg)) [
          | inr named ↦ rw (seen, named) (spelled, omega arith, rw (ups-named seg stack named) dots)
          | inl up ↦ elim (Bool-cases (no_name stack)) [
            | inr name ↦ rw (seen, up, counted, name) (below-Spells r stack w hs name sp)
            | inl alone ↦ elim (Bool-cases absolute) [
              | inl rooted ↦ rw (seen, up, counted, alone, rooted) sp
              | inr loose ↦
                  rw (seen, up, counted, alone, loose)
                    (spelled, omega arith, rw (ups-up seg stack up, dots) refl)
            ]
          ]
        ]
      ]

  place_all-Spells :
      (r : Bytes) (absolute : Bool) (segs stack : List Bytes) (w : Written)
      → All (Lacks is_sep) segs
      → IsStack stack
      → Spells r stack w
      → Spells r (push_all absolute segs stack) (place_all windows (length r) absolute segs w)
  unfolding place_all push_all
  place_all-Spells r absolute [] stack w ls hs sp = sp
  place_all-Spells r absolute (seg ∷ segs) stack w (l, ls) hs sp =
      place_all-Spells r absolute segs (push_segment absolute seg stack) _ ls
        (push_segment-IsStack absolute seg stack l hs) (place-Spells r seg absolute stack w hs sp)

  nothing-Spells : (r : Bytes) → Spells r [] (record { out = r; kept = 0; dotdots = 0 })
  unfolding spelled ups
  nothing-Spells r = (sym (append-nil r), refl, refl)

  -- The segments that are left of a path.
  abbrev pub left_of : Bytes → List Bytes
  left_of p = push_all (is_absolute windows p) (segments (below_root windows p)) []

  no_path : root windows [] ++ spelled (left_of []) ≡ []
  unfolding root is_absolute below_root drive_len has_drive spelled push_all segments
  no_path = elim (Bool-cases windows) [ inl on ↦ rw on refl | inr off ↦ rw off refl ]

  inner_not_empty : (a b : Bytes) (c : ℕ) → is_empty ((a ++ c ∷ []) ++ b) ≡ false
  inner_not_empty [] b c = refl
  inner_not_empty (x ∷ a) b c = refl

  root_not_empty :
      (p b : Bytes) → is_absolute windows p ≡ true → is_empty (root windows p ++ b) ≡ false
  unfolding root
  root_not_empty p b rooted =
      rw rooted (inner_not_empty (take (drive_len windows p) p) b (sep windows))

  or_dot-text :
      (p b : Bytes)
      → let text = root windows p ++ b in
        or_dot windows (is_absolute windows p) text ≡ (if is_empty text then codes "." else text)
  unfolding or_dot
  or_dot-text p b = elim (Bool-cases (is_absolute windows p)) [
    | inl rooted ↦ rw (root_not_empty p b rooted) refl
    | inr loose ↦ rw loose refl
  ]

  -- The text that normalizeInto writes is the root, and the segments that are left on the stack when
  -- those of the path have been put on it one after the other; where that is empty, a `.`.
  pub normalize-push_all :
      (p : Bytes)
      → let text = root windows p ++ spelled (left_of p) in
        normalize windows p ≡ (if is_empty text then codes "." else text)
  unfolding normalize
  normalize-push_all [] = rw no_path refl
  normalize-push_all (c ∷ s) =
      let p : Bytes = c ∷ s in
      let w : Written = record { out = root windows p; kept = 0; dotdots = 0 } in
      let written =
        place_all-Spells (root windows p) (is_absolute windows p) (segments (below_root windows p))
          [] w (segments-Lacks (below_root windows p)) tt (nothing-Spells (root windows p)) in
      ap (or_dot windows (is_absolute windows p)) written.0 ∙ or_dot-text p (spelled (left_of p))
