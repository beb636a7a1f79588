-- ===== src/Path.antt =====
-- src/api/path.cpp: the native functions on paths. `windows` is kWindows. A path is its UTF-8 bytes;
-- both separators are read on every platform.
pub mod Find
pub mod Segments
pub mod Normal
pub mod Names
mod Tests
use brokit.Prelude.{
  ℕ, zero, suc, ◌+◌, ◌-◌, Bool, true, false, not, ◌&&◌, ◌||◌, List, [], ◌∷◌, ◌++◌, Option, none,
  some, Bytes, codes, length, is_empty, take, drop, get_elem?, ltb, leb, ◌==◌, if◌then◌else◌,
}

unfoldable pub is_sep : ℕ → Bool
is_sep c = c == b'/' || c == b'\\'

abbrev pub is_dot : Bytes → Bool
is_dot (c ∷ []) = c == b'.'
is_dot _ = false

abbrev pub is_dotdot : Bytes → Bool
is_dotdot (c ∷ d ∷ []) = c == b'.' && d == b'.'
is_dotdot _ = false

-- p[i] where it is read: nothing past the end.
abbrev pub char_is : (ℕ → Bool) → Bytes → ℕ → Bool
char_is test s i = elim (get_elem? s i) [ none ↦ false | some c ↦ test c ]

-- std::find_last_of, for the characters that pass the test.
unfoldable pub find_last : (ℕ → Bool) → Bytes → Option ℕ
find_last test [] = none
find_last test (c ∷ s) = elim (find_last test s) [
  | some i ↦ some (suc i)
  | none ↦ if test c then some 0 else none
]

-- A character in front of the first segment.
unfoldable pub in_front : ℕ → List Bytes → List Bytes
in_front c [] = (c ∷ []) ∷ []
in_front c (s ∷ ss) = (c ∷ s) ∷ ss

-- The segments that the loop of normalizeInto meets; none behind a separator at the end.
unfoldable pub segments : Bytes → List Bytes
segments [] = []
segments (c ∷ s) = let rest = segments s in if is_sep c then [] ∷ rest else in_front c rest

-- The variables of normalizeInto's loop.
pub record Written : Type 0 where
  pub out : Bytes
  pub kept : ℕ
  pub dotdots : ℕ

-- The last separator from `idx` on, a trailing one aside.
unfoldable pub last_sep : (idx : ℕ) → Bytes → Option ℕ
last_sep idx p = elim (find_last is_sep (take (length p - 1) p)) [
  | none ↦ none
  | some i ↦ if ltb i idx then none else some i
]

abbrev pub is_letter : ℕ → Bool
is_letter c = (leb b'A' c && leb c b'Z') || (leb b'a' c && leb c b'z')

-- The loop of baseOf: the separators at the end go.
unfoldable pub stripped : Bytes → Bytes
stripped [] = []
stripped (c ∷ s) = let rest = stripped s in if is_sep c && is_empty rest then [] else c ∷ rest

-- What stands behind the last separator.
unfoldable pub after_sep : Bytes → Bytes
after_sep p = elim (find_last is_sep p) [ none ↦ p | some i ↦ drop (i + 1) p ]

unfoldable pub same_text : Bytes → Bytes → Bool
same_text [] [] = true
same_text (a ∷ s) (b ∷ t) = a == b && same_text s t
same_text _ _ = false

module _ (windows : Bool) where
  -- kSep
  unfoldable pub sep : ℕ
  sep = if windows then b'\\' else b'/'

  unfoldable pub has_drive : Bytes → Bool
  has_drive p = windows && leb 2 (length p) && char_is (λ c. c == b':') p 1

  -- The length to which a `..` cuts the text.
  unfoldable pub cut_at : (root_len : ℕ) → Bytes → ℕ
  cut_at root_len out = elim (find_last (λ c. c == sep) out) [
    | none ↦ root_len
    | some i ↦ if ltb i root_len then root_len else i
  ]

  -- A segment behind the ones that are kept.
  unfoldable pub appended : Bytes → Written → Bytes
  appended seg w = if ltb 0 w.kept then w.out ++ sep ∷ seg else w.out ++ seg

  -- The body of normalizeInto's loop.
  unfoldable pub place : (root_len : ℕ) (absolute : Bool) → Bytes → Written → Written
  place root_len absolute seg w =
      if is_empty seg || is_dot seg
      then w
      else if is_dotdot seg
      then if ltb w.dotdots w.kept
        then record w { out = take (cut_at root_len w.out) w.out; kept = w.kept - 1 }
        else if not absolute
        then record { out = appended seg w; kept = w.kept + 1; dotdots = w.dotdots + 1 }
        else w
      else record w { out = appended seg w; kept = w.kept + 1 }

  unfoldable pub place_all : (root_len : ℕ) (absolute : Bool) → List Bytes → Written → Written
  place_all root_len absolute [] w = w
  place_all root_len absolute (seg ∷ segs) w =
      place_all root_len absolute segs (place root_len absolute seg w)

  -- What stands before the segments: the drive, then the root's separator.
  unfoldable pub drive_len : Bytes → ℕ
  drive_len p = if has_drive p then 2 else 0

  unfoldable pub is_absolute : Bytes → Bool
  is_absolute p = char_is is_sep p (drive_len p)

  unfoldable pub root : Bytes → Bytes
  root p = take (drive_len p) p ++ (if is_absolute p then sep ∷ [] else [])

  -- The path behind its root.
  unfoldable pub below_root : Bytes → Bytes
  below_root p = drop (drive_len p + (if is_absolute p then 1 else 0)) p

  -- The last line of normalizeInto.
  unfoldable pub or_dot : (absolute : Bool) → Bytes → Bytes
  or_dot absolute out = if is_empty out then (if absolute then sep ∷ [] else codes ".") else out

  -- normalizeInto
  unfoldable pub normalize : Bytes → Bytes
  normalize p =
      if is_empty p
      then codes "."
      else or_dot (is_absolute p)
          (place_all (length (root p)) (is_absolute p) (segments (below_root p))
            (record { out = root p; kept = 0; dotdots = 0 })).out

  -- js_join's loop; an argument that is no string is `none`.
  unfoldable pub joined_onto : Bytes → List (Option Bytes) → Bytes
  joined_onto joined [] = joined
  joined_onto joined (none ∷ parts) = joined_onto joined parts
  joined_onto joined (some s ∷ parts) =
      let next = if is_empty joined then s else joined ++ sep ∷ s in
      joined_onto (if is_empty s then joined else next) parts

  -- js_join
  unfoldable pub join : List (Option Bytes) → Bytes
  join parts =
      let joined = joined_onto [] parts in if is_empty joined then codes "." else normalize joined

  -- resolvesAbsolute
  unfoldable pub resolves_absolute : Bytes → Bool
  resolves_absolute p =
      if windows
      then leb 3 (length p) && char_is (λ c. c == b':') p 1 && char_is is_sep p 2
      else char_is (λ c. c == b'/') p 0

  -- js_resolve's loop over the arguments, the last one first: the text, and whether it is absolute.
  unfoldable pub resolved_from : Bytes → List (Option Bytes) → Bytes × Bool
  resolved_from resolved [] = (resolved, false)
  resolved_from resolved (none ∷ parts) = resolved_from resolved parts
  resolved_from resolved (some p ∷ parts) =
      let next = p ++ sep ∷ resolved in
      let skipped = resolved_from resolved parts in
      let more = resolved_from next parts in
      if is_empty p then skipped else if resolves_absolute p then (next, true) else more

  -- js_resolve; `reversed` holds the arguments from the last one on, `directory` is what
  -- currentDirectory gives.
  unfoldable pub resolve : (directory : Bytes) (reversed : List (Option Bytes)) → Bytes
  resolve directory reversed =
      let (resolved, absolute) = resolved_from [] reversed in
      normalize (if absolute then resolved else directory ++ sep ∷ resolved)

  -- js_dirname of a string
  unfoldable pub dirname : Bytes → Bytes
  dirname p =
      let idx = drive_len p in
      let bare =
        if char_is is_sep p idx
        then take (idx + 1) p
        else if idx == 0
        then codes "."
        else take 2 p in
      if is_empty p then codes "." else elim (last_sep idx p) [
        | none ↦ bare
        | some i ↦ if i == idx then take (idx + 1) p else take i p
      ]

  -- A drive root has no name.
  unfoldable pub is_drive : Bytes → Bool
  is_drive p = windows && length p == 2 && char_is (λ c. c == b':') p 1 && char_is is_letter p 0

  -- baseOf
  unfoldable pub base_of : Bytes → Bytes
  base_of p = let q = stripped p in if is_drive q then [] else after_sep q

  -- js_basename of a string; `ext` is empty where the second argument is no string.
  unfoldable pub basename : (p ext : Bytes) → Bytes
  basename p ext =
      let base = base_of p in
      let stem = length base - length ext in
      if not (is_empty ext) && leb (length ext) (length base) && same_text (drop stem base) ext
      then take stem base
      else base

  -- js_extname of a string
  unfoldable pub extname : Bytes → Bytes
  extname p =
      let base = base_of p in
      elim (find_last (λ c. c == b'.') base) [
        | none ↦ []
        | some i ↦ if i == 0 then [] else drop i base
      ]
