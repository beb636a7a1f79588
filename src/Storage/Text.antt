-- ===== src/Storage/Text.antt =====
-- The file of src/api/storage.cpp: what saveStorage writes is what loadStorage reads, and
-- loadStorage ends on every text.
use brokit.Prelude.{
  ℕ, zero, suc, ◌≤◌, ◌<◌, ◌≡◌, refl, Bool, true, false, [], ◌∷◌, ◌++◌, append_assoc, some, arith,
  Bytes, codes, length, length-append, ◌==◌, Bool-cases, inl, inr, Option-cases, ◌-◌,
}
use brokit.Storage.{
  Items, escape_char, escape_json, quoted, entry, entries, save_text, unescape, string_body,
  parse_string, is_separator, skip_separators, after_colon, skip_blanks, keep, at_end, load_round,
  load_loop, after_brace, load_text,
}

string_body_plain :
    (c : ℕ) (s : Bytes)
    → (c == b'"') ≡ false
    → (c == b'\\') ≡ false
    → string_body (c ∷ s) ≡ (c ∷ (string_body s).0, (string_body s).1)
unfolding string_body
string_body_plain c [] p q = ground arith
string_body_plain c (d ∷ s) p q = ground arith

string_body_escaped :
    (d : ℕ) (s : Bytes)
    → string_body (b'\\' ∷ d ∷ s) ≡ (unescape d ∷ (string_body s).0, (string_body s).1)
unfolding string_body
string_body_escaped d s = refl

-- A character that was written is read.
string_body_char :
    (c : ℕ) (s : Bytes)
    → string_body (escape_char c ++ s) ≡ (c ∷ (string_body s).0, (string_body s).1)
unfolding escape_char unescape
string_body_char c s = ground (
  arith,
  string_body_plain c s,
  string_body_escaped b'"' s,
  string_body_escaped b'\\' s,
  string_body_escaped b'n' s,
  string_body_escaped b't' s,
)

string_body_quote : (s : Bytes) → string_body (b'"' ∷ s) ≡ ([], s)
unfolding string_body
string_body_quote [] = refl
string_body_quote (d ∷ s) = refl

string_body-escape_json : (s rest : Bytes) → string_body (escape_json s ++ b'"' ∷ rest) ≡ (s, rest)
unfolding escape_json
string_body-escape_json [] rest = string_body_quote rest
string_body-escape_json (c ∷ s) rest = rw (
  append_assoc,
  string_body_char c (escape_json s ++ b'"' ∷ rest),
  string_body-escape_json s rest,
)

-- parseString reads back what escapeJson wrote between quotes, and stops behind it.
pub parse_string-quoted : (s rest : Bytes) → parse_string (quoted s ++ rest) ≡ (s, rest)
unfolding parse_string quoted
parse_string-quoted s rest = rw append_assoc (string_body-escape_json s rest)

blank-quoted : (v rest : Bytes) → skip_blanks (b' ' ∷ (quoted v ++ rest)) ≡ quoted v ++ rest
unfolding skip_blanks quoted
blank-quoted v rest = refl

separators-quoted : (k s : Bytes) → skip_separators (quoted k ++ s) ≡ quoted k ++ s
unfolding skip_separators quoted
separators-quoted k s = refl

not_at_end : (k s : Bytes) → at_end (quoted k ++ s) ≡ false
unfolding quoted
not_at_end k s = refl

-- A round reads one entry.
round_entry :
    (k v rest : Bytes) (m : Items)
    → load_round (quoted k ++ (codes ": " ++ (quoted v ++ rest))) m ≡ (rest, keep k v m)
unfolding load_round after_colon
round_entry k v rest m = rw (
  parse_string-quoted k (codes ": " ++ (quoted v ++ rest)),
  blank-quoted v rest,
  parse_string-quoted v rest,
)

-- The entries of a file, put into the items one after another.
unfoldable pub put_all : Items → Items → Items
put_all [] acc = acc
put_all ((k, v) ∷ m) acc = put_all m (keep k v acc)

abbrev tail : Bytes
tail = codes "\n}\n"

loop_step :
    (f : ℕ) (k v s : Bytes) (acc : Items)
    → load_loop (suc f) (entry (k, v) ++ s) acc ≡ load_loop f s (keep k v acc)
unfolding load_loop entry skip_separators
loop_step f k v s acc =
    rw (append_assoc, append_assoc, separators-quoted k, not_at_end k, round_entry k v s acc)

loop_separators :
    (f c : ℕ) (s : Bytes) (acc : Items)
    → is_separator c ≡ true
    → load_loop f (c ∷ s) acc ≡ load_loop f s acc
unfolding load_loop skip_separators
loop_separators zero c s acc h = refl
loop_separators (suc f) c s acc h = rw h

loop-entries :
    (m : Items) (first : Bool) (f : ℕ) (acc : Items)
    → length m < f
    → load_loop f (entries first m ++ tail) acc ≡ some (put_all m acc)
unfolding entries put_all
loop-entries [] first zero acc h = absurd (omega arith)
loop-entries [] first (suc f) acc h = unfold load_loop skip_separators in refl
loop-entries (e ∷ m) first zero acc h = absurd (omega arith)
loop-entries ((k, v) ∷ m) true (suc f) acc h =
    rw (append_assoc, append_assoc, loop_step f k v)
      (loop-entries m false f (keep k v acc) (omega arith))
loop-entries ((k, v) ∷ m) false (suc f) acc h =
    rw
      (
        loop_separators (suc f) b',' _ acc refl,
        loop_separators (suc f) b'\n' _ acc refl,
        append_assoc,
        loop_step f k v,
      )
      (loop-entries m false f (keep k v acc) (omega arith))

le-length-entries : (m : Items) (first : Bool) → length m ≤ length (entries first m)
unfolding entries entry
le-length-entries [] first = omega arith
le-length-entries ((k, v) ∷ m) true =
    omega (arith, le-length-entries m false, length-append (entry (k, v)) (entries false m))
le-length-entries ((k, v) ∷ m) false =
    omega (arith, le-length-entries m false, length-append (entry (k, v)) (entries false m))

pub load_text-save_text : (m : Items) → load_text (save_text m) ≡ some (put_all m [])
unfolding load_text save_text after_brace
load_text-save_text m =
    let room = length-append (entries true m) tail in
    rw (loop_separators _ b'\n' _ [] refl)
      (loop-entries m true _ [] (omega (arith, room, le-length-entries m true)))

-- No loop of the reader goes back, and a round goes on.
length-string_body : (s : Bytes) → length (string_body s).1 ≤ length s
unfolding string_body
length-string_body [] = omega arith
length-string_body (c ∷ []) = ground arith
length-string_body (c ∷ d ∷ s) = ground (arith, length-string_body (d ∷ s), length-string_body s)

length-parse_string : (s : Bytes) → length (parse_string s).1 ≤ length s
unfolding parse_string
length-parse_string [] = omega arith
length-parse_string (c ∷ s) = ground (arith, length-string_body s)

length-skip_blanks : (s : Bytes) → length (skip_blanks s) ≤ length s
unfolding skip_blanks
length-skip_blanks [] = omega arith
length-skip_blanks (c ∷ s) = ground (arith, length-skip_blanks s)

length-skip_separators : (s : Bytes) → length (skip_separators s) ≤ length s
unfolding skip_separators
length-skip_separators [] = omega arith
length-skip_separators (c ∷ s) = ground (arith, length-skip_separators s)

length-after_colon : (s : Bytes) → length (after_colon s) ≤ length s - 1
unfolding after_colon
length-after_colon [] = omega arith
length-after_colon (c ∷ []) = ground arith
length-after_colon (c ∷ d ∷ s) = ground (arith, length-after_colon (d ∷ s))

load_round_shorter :
    (s : Bytes) (m : Items) → at_end s ≡ false → length (load_round s m).0 < length s
unfolding load_round
load_round_shorter [] m h = absurd (cc)
load_round_shorter (c ∷ s) m h =
    let first = (parse_string (c ∷ s)).1 in
    omega (
      arith,
      length-parse_string (c ∷ s),
      length-after_colon first,
      length-skip_blanks (after_colon first),
      length-parse_string (skip_blanks (after_colon first)),
    )

load_loop_total :
    (f : ℕ) (s : Bytes) (acc : Items) → length s < f → (m : Items) × (load_loop f s acc ≡ some m)
unfolding load_loop
load_loop_total zero s acc h = absurd (omega arith)
load_loop_total (suc f) s acc h =
    let rest = skip_separators s in
    elim (Bool-cases (at_end rest)) [
      | inl done ↦ (acc, rw done)
      | inr more ↦
          let (m, e) =
            load_loop_total f (load_round rest acc).0 (load_round rest acc).1
              (omega (arith, length-skip_separators s, load_round_shorter rest acc more)) in
          (m, rw more e)
    ]

-- loadStorage ends on every text, whatever it holds.
pub load_text_total : (s : Bytes) → (m : Items) × (load_text s ≡ some m)
unfolding load_text
load_text_total s = elim (Option-cases (after_brace s)) [
  | inl missing ↦ ([], rw (missing, load_text))
  | inr (t, found) ↦
      let (m, e) = load_loop_total (suc (length t)) t [] (omega arith) in
      (m, rw (found, load_text) e)
]
