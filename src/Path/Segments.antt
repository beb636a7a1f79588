-- ===== src/Path/Segments.antt =====
-- The segments of a path of src/api/path.cpp as a stack, on which `..` takes the top.
use brokit.Prelude.{
  ℕ, suc, ◌≤◌, ◌≡◌, refl, Bool, true, false, not, ◌&&◌, ◌||◌, List, [], ◌∷◌, arith, Bytes, length,
  is_empty, ltb, if◌then◌else◌, if_elim, All,
}
use brokit.Path.{is_sep, is_dot, is_dotdot, in_front, segments}
use brokit.Path.Find.{Lacks}

-- The number of `..` among the segments.
unfoldable pub ups : List Bytes → ℕ
ups [] = 0
ups (s ∷ stack) = let n = ups stack in if is_dotdot s then suc n else n

-- Segments as splitting gives them, where nothing but `..` stands under a `..`.
abbrev pub IsStack : List Bytes → Type 0
IsStack [] = Unit
IsStack (s ∷ stack) =
    Lacks is_sep s × (is_dotdot s ≡ true → ups stack ≡ length stack) × IsStack stack

-- No name is on top for a `..` to take.
abbrev pub no_name : List Bytes → Bool
no_name [] = true
no_name (s ∷ stack) = is_dotdot s

abbrev pub below : List Bytes → List Bytes
below [] = []
below (s ∷ stack) = stack

-- A segment put on the stack: `.` is nothing, and `..` takes the name on top, or stands for itself
-- where there is none, but for the root of the file system.
unfoldable pub push_segment : (absolute : Bool) → Bytes → List Bytes → List Bytes
push_segment absolute seg stack =
    if is_empty seg || is_dot seg
    then stack
    else if is_dotdot seg && not (no_name stack)
    then below stack
    else if is_dotdot seg && absolute
    then stack
    else seg ∷ stack

unfoldable pub push_all : (absolute : Bool) → List Bytes → List Bytes → List Bytes
push_all absolute [] stack = stack
push_all absolute (seg ∷ segs) stack = push_all absolute segs (push_segment absolute seg stack)

pub ups_bound : (stack : List Bytes) → ups stack ≤ length stack
unfolding ups
ups_bound [] = omega arith
ups_bound (s ∷ stack) = ground (arith, ups_bound stack)

-- The counters tell whether there is a name on top.
pub ups-no_name :
    (stack : List Bytes) → IsStack stack → ltb (ups stack) (length stack) ≡ not (no_name stack)
unfolding ups
ups-no_name [] h = refl
ups-no_name (s ∷ stack) (h, flat, hs) = ground (arith, ups_bound stack)

below-IsStack : (stack : List Bytes) → IsStack stack → IsStack (below stack)
below-IsStack [] h = tt
below-IsStack (s ∷ stack) (h, only, hs) = hs

-- Under a `..` there are only more of them.
flat : (stack : List Bytes) → IsStack stack → no_name stack ≡ true → ups stack ≡ length stack
unfolding ups
flat [] h top = refl
flat (s ∷ stack) (h, only, hs) top = ground (arith, only top)

pub push_segment-IsStack :
    (absolute : Bool) (seg : Bytes) (stack : List Bytes)
    → Lacks is_sep seg
    → IsStack stack
    → IsStack (push_segment absolute seg stack)
unfolding push_segment
push_segment-IsStack absolute seg stack h hs =
    if_elim IsStack (is_empty seg || is_dot seg) _ _ (λ _. hs)
      λ _.
        if_elim IsStack (is_dotdot seg && not (no_name stack)) _ _ (λ _. below-IsStack stack hs)
          λ kept.
            if_elim IsStack (is_dotdot seg && absolute) _ _ (λ _. hs)
              λ _. (h, (λ up. flat stack hs (ground arith)), hs)

in_front-Lacks :
    (c : ℕ) (segs : List Bytes)
    → is_sep c ≡ false
    → All (Lacks is_sep) segs
    → All (Lacks is_sep) (in_front c segs)
unfolding in_front
in_front-Lacks c [] h hs = ((h, tt), tt)
in_front-Lacks c (s ∷ segs) h (g, hs) = ((h, g), hs)

pub segments-Lacks : (s : Bytes) → All (Lacks is_sep) (segments s)
unfolding segments
segments-Lacks [] = tt
segments-Lacks (c ∷ s) =
    if_elim (All (Lacks is_sep)) (is_sep c) _ _ (λ _. (tt, segments-Lacks s))
      (λ h. in_front-Lacks c (segments s) h (segments-Lacks s))
