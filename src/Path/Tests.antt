-- ===== src/Path/Tests.antt =====
-- Runs of src/api/path.cpp on the platforms with `/`.
use brokit.Prelude.{
  ◌≡◌, ◌<◌, refl, true, false, [], ◌∷◌, ◌++◌, some, none, Bytes, codes, is_empty, arith,
  if◌then◌else◌,
}
use brokit.Path.{
  is_sep, sep, find_last, in_front, segments, has_drive, cut_at, appended, place, place_all,
  drive_len, is_absolute, root, or_dot, below_root, normalize, joined_onto, join, basename, dirname,
}
use brokit.Path.Find.{Lacks}
use brokit.Path.Normal.{spelled, left_of, normalize-push_all}
use brokit.Path.Names.{dirname-basename}

join_runs : join false (some (codes "a") ∷ none ∷ some (codes "../../b/") ∷ []) ≡ codes "../b"
unfolding join joined_onto normalize or_dot place_all place appended cut_at find_last segments
    in_front is_sep sep root below_root is_absolute drive_len has_drive
join_runs = refl

abbrev dotted : Bytes
dotted = codes "/a//b/./../c"

normalize-push_all_example :
    let text = root false dotted ++ spelled false (left_of false dotted) in
    normalize false dotted ≡ (if is_empty text then codes "." else text)
normalize-push_all_example = normalize-push_all false dotted

name-Lacks : Lacks is_sep (codes "c")
unfolding is_sep
name-Lacks = (refl, tt)

slash-is_sep : is_sep b'/' ≡ true
unfolding is_sep
slash-is_sep = refl

no_drive : drive_len false (codes "a/b" ++ b'/' ∷ codes "c") < 3
unfolding drive_len has_drive
no_drive = omega arith

dirname-basename_example :
    (dirname false (codes "a/b" ++ b'/' ∷ codes "c") ≡ codes "a/b")
    × (basename false (codes "a/b" ++ b'/' ∷ codes "c") [] ≡ codes "c")
dirname-basename_example =
    dirname-basename false b'/' (codes "a/b") (codes "c") slash-is_sep name-Lacks refl no_drive
