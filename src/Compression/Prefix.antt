-- ===== src/Compression/Prefix.antt =====
-- parseGzipHeader of src/api/compression.cpp on the parts of a header: it waits for all of it.
use brokit.Prelude.{
  ℕ, zero, suc, ◌≡◌, ◌≢◌, refl, ◌+◌, ◌*◌, ◌<◌, ◌≤◌, Bool, true, false, [], ◌∷◌, ◌++◌, Option, none,
  some, Bytes, length, Option-cases, inl, inr, if_elim, leb→le, length-append, get_or, drop, ltb,
  leb, ◌==◌, if◌then◌else◌, arith, append_assoc,
}
use brokit.Compression.{
  has_flag, has_magic, behind_parts, behind_extra, behind_text, behind_crc, behind_part,
  behind_header,
}
use brokit.Compression.Header.{
  GzipHeader, IsText, header_then, extra_part, text_part, crc_part, behind_header-header_then,
}

-- A part that is found is found where more bytes follow.
abbrev Stable : (Bytes → Option Bytes) → Type 0
Stable behind = (q b r : Bytes) → behind q ≡ some r → behind (q ++ b) ≡ some (r ++ b)

drop-append_le : (n : ℕ) (p b : Bytes) → n ≤ length p → drop n (p ++ b) ≡ drop n p ++ b
drop-append_le zero p b h = refl
drop-append_le (suc n) [] b h = absurd (omega arith)
drop-append_le (suc n) (c ∷ p) b h = drop-append_le n p b (omega arith)

get_or-append_lt : (p b : Bytes) (i : ℕ) → i < length p → get_or (p ++ b) i 0 ≡ get_or p i 0
get_or-append_lt [] b i h = absurd (omega arith)
get_or-append_lt (c ∷ p) b zero h = refl
get_or-append_lt (c ∷ p) b (suc i) h = get_or-append_lt p b i (omega arith)

extra_fits :
    (n : ℕ) (q b r : Bytes)
    → n ≤ length q
    → some (drop n q) ≡ some r
    → (if leb n (length (q ++ b)) then some (drop n (q ++ b)) else none) ≡ some (r ++ b)
extra_fits n q b r h e =
    let fits : leb n (length (q ++ b)) ≡ true = ground (arith, length-append q b) in
    let same : drop n q ≡ r = cc in rw (fits, drop-append_le n q b h, same) refl

extra-Stable : Stable behind_extra
unfolding behind_extra
extra-Stable [] b r h = cc
extra-Stable (lo ∷ []) b r h = cc
extra-Stable (lo ∷ hi ∷ q) b r h =
    let xlen = lo + hi * 256 in
    if_elim
      (λ o.
        o ≡ some r
        → (if leb xlen (length (q ++ b)) then some (drop xlen (q ++ b)) else none) ≡ some (r ++ b))
      (leb xlen (length q)) (some (drop xlen q)) none
      (λ e k. extra_fits xlen q b r (leb→le xlen (length q) e) k) (λ e k. cc) h

text-Stable : Stable behind_text
unfolding behind_text
text-Stable [] b r h = cc
text-Stable (c ∷ q) b r h =
    if_elim
      (λ o. o ≡ some r → (if c == 0 then some (q ++ b) else behind_text (q ++ b)) ≡ some (r ++ b))
      (c == 0) (some q) (behind_text q) (λ e k. rw e (cc)) (λ e k. rw e (text-Stable q b r k)) h

crc-Stable : Stable behind_crc
unfolding behind_crc
crc-Stable [] b r h = cc
crc-Stable (x ∷ []) b r h = cc
crc-Stable (x ∷ y ∷ q) b r h = cc

module _ (flag : Bool) (behind : Bytes → Option Bytes) (stable : Stable behind) (b : Bytes) where
  part_append :
      (o o' : Option Bytes)
      → ((r : Bytes) → o ≡ some r → o' ≡ some (r ++ b))
      → (r : Bytes) → behind_part flag behind o ≡ some r
      → behind_part flag behind o' ≡ some (r ++ b)
  unfolding behind_part
  part_append none o' k r e = cc
  part_append (some q) o' k r e = rw (k q refl) (
      if_elim (λ o. o ≡ some r → (if flag then behind (q ++ b) else some (q ++ b)) ≡ some (r ++ b))
        flag (behind q) (some q) (λ t e. rw t (stable q b r e)) (λ t e. rw t cc) e)

parts_append :
    (flg : ℕ)
    → (q b r : Bytes) → behind_parts flg q ≡ some r
    → behind_parts flg (q ++ b) ≡ some (r ++ b)
unfolding behind_parts
parts_append flg q b = part_append (has_flag flg 2) behind_crc crc-Stable b _ _ (
    part_append (has_flag flg 16) behind_text text-Stable b _ _ (
      part_append (has_flag flg 8) behind_text text-Stable b _ _
        (part_append (has_flag flg 4) behind_extra extra-Stable b _ _ (λ r e. cc))))

append_found :
    (p b r : Bytes)
    → ltb (length p) 10 ≡ false
    → has_magic p ≡ true
    → behind_parts (get_or p 3 0) (drop 10 p) ≡ some r
    → behind_header (p ++ b) ≡ some (r ++ b)
unfolding behind_header has_magic
append_found p b r long magic e =
    let ten : 10 ≤ length p = ground arith in
    let still : ltb (length (p ++ b)) 10 ≡ false = ground (arith, length-append p b) in
    let at : (i : ℕ) → i < 10 → get_or (p ++ b) i 0 ≡ get_or p i 0 =
      λ i h. get_or-append_lt p b i (omega arith) in
    rw
      (
        still,
        at 0 (omega arith),
        at 1 (omega arith),
        at 2 (omega arith),
        at 3 (omega arith),
        magic,
        drop-append_le 10 p b ten,
      )
      (parts_append (get_or p 3 0) (drop 10 p) b r e)

-- A header that is found is found where more bytes follow.
pub behind_header-append :
    (p b r : Bytes) → behind_header p ≡ some r → behind_header (p ++ b) ≡ some (r ++ b)
unfolding behind_header
behind_header-append p b r =
    if_elim (λ o. o ≡ some r → behind_header (p ++ b) ≡ some (r ++ b)) (ltb (length p) 10) none _
      (λ short e. cc)
      (λ long.
        if_elim (λ o. o ≡ some r → behind_header (p ++ b) ≡ some (r ++ b)) (has_magic p) _ none
          (λ magic e. append_found p b r long magic e) (λ other e. cc))

extra_part-append : (o : Option Bytes) (x q : Bytes) → extra_part o x ++ q ≡ extra_part o (x ++ q)
unfolding extra_part
extra_part-append none x q = refl
extra_part-append (some y) x q = rw (append_assoc y x q) refl

text_part-append : (o : Option Bytes) (x q : Bytes) → text_part o x ++ q ≡ text_part o (x ++ q)
unfolding text_part
text_part-append none x q = refl
text_part-append (some y) x q = append_assoc y (0 ∷ x) q

crc_part-append : (o : Option (ℕ × ℕ)) (x q : Bytes) → crc_part o x ++ q ≡ crc_part o (x ++ q)
unfolding crc_part
crc_part-append none x q = refl
crc_part-append (some y) x q = refl

pub header_then-append : (h : GzipHeader) (q : Bytes) → header_then h [] ++ q ≡ header_then h q
unfolding header_then
header_then-append h q =
    rw
      (
        extra_part-append h.extra (text_part h.name (text_part h.comment (crc_part h.crc []))) q,
        text_part-append h.name (text_part h.comment (crc_part h.crc [])) q,
        text_part-append h.comment (crc_part h.crc []) q,
        crc_part-append h.crc [] q,
      )
      refl

pub nil_behind : (r b : Bytes) → r ++ b ≡ [] → b ≡ []
nil_behind [] b e = e
nil_behind (c ∷ r) b e = cc

-- Of a header, no part that lacks bytes is taken for one.
pub behind_header-prefix :
    (h : GzipHeader) (a b : Bytes)
    → IsText h.name
    → IsText h.comment
    → a ++ b ≡ header_then h []
    → b ≢ []
    → behind_header a ≡ none
behind_header-prefix h a b hn hc e some_left = elim (Option-cases (behind_header a)) [
  | inl none_found ↦ none_found
  | inr (r, found) ↦
      let more : behind_header (a ++ b) ≡ some (r ++ b) = behind_header-append a b r found in
      let whole : behind_header (header_then h []) ≡ some [] =
        behind_header-header_then h [] hn hc in
      let nothing_left : r ++ b ≡ [] = cc in absurd (some_left (nil_behind r b nothing_left))
]
