-- ===== src/Compression/Header.antt =====
-- parseGzipHeader of src/api/compression.cpp: where a header ends, and that it is waited for.
use brokit.Prelude.{
  ℕ, ◌≡◌, refl, ap, ◌+◌, ◌*◌, ◌/◌, ◌%◌, ◌<◌, Bool, true, false, [], ◌∷◌, ◌++◌, Option, none, some,
  Bytes, length, length-append, drop, ltb, leb, ◌==◌, if◌then◌else◌, arith, All,
}
use brokit.Compression.{
  has_flag, has_magic, behind_parts, behind_extra, behind_text, behind_crc, behind_part,
  behind_header,
}

-- A header as RFC 1952 has it: FTEXT and the reserved bits, MTIME, XFL and OS, then the parts that may be there.
pub record GzipHeader : Type 0 where
  pub text : Bool
  pub reserved : ℕ
  pub mtime0 : ℕ
  pub mtime1 : ℕ
  pub mtime2 : ℕ
  pub mtime3 : ℕ
  pub xfl : ℕ
  pub os : ℕ
  pub extra : Option Bytes
  pub name : Option Bytes
  pub comment : Option Bytes
  pub crc : Option (ℕ × ℕ)

unfoldable pub bit_of : {A : Type 0} → Option A → ℕ
bit_of none = 0
bit_of (some a) = 1

unfoldable pub flags_of : GzipHeader → ℕ
flags_of h =
    (if h.text then 1 else 0)
    + 2 * bit_of h.crc
    + 4 * bit_of h.extra
    + 8 * bit_of h.name
    + 16 * bit_of h.comment
    + 32 * h.reserved

unfoldable pub extra_part : Option Bytes → Bytes → Bytes
extra_part none q = q
extra_part (some x) q = length x % 256 ∷ length x / 256 ∷ (x ++ q)

unfoldable pub text_part : Option Bytes → Bytes → Bytes
text_part none q = q
text_part (some x) q = x ++ 0 ∷ q

unfoldable pub crc_part : Option (ℕ × ℕ) → Bytes → Bytes
crc_part none q = q
crc_part (some (a, b)) q = a ∷ b ∷ q

-- A header and what comes behind it.
unfoldable pub header_then : GzipHeader → Bytes → Bytes
header_then h q =
    31
    ∷ 139
    ∷ 8
    ∷ flags_of h
    ∷ h.mtime0
    ∷ h.mtime1
    ∷ h.mtime2
    ∷ h.mtime3
    ∷ h.xfl
    ∷ h.os
    ∷ extra_part h.extra (text_part h.name (text_part h.comment (crc_part h.crc q)))

-- Its texts have no zero.
unfoldable pub IsText : Option Bytes → Type 0
IsText none = Unit
IsText (some x) = All (λ c. 0 < c) x

bit_of_bound : {A : Type 0} (o : Option A) → bit_of o < 2
unfolding bit_of
bit_of_bound none = omega arith
bit_of_bound (some a) = omega arith

-- Each flag is that of its part.
flags_of-flags :
    (h : GzipHeader)
    → (has_flag (flags_of h) 4 ≡ (bit_of h.extra == 1))
      × (has_flag (flags_of h) 8 ≡ (bit_of h.name == 1))
      × (has_flag (flags_of h) 16 ≡ (bit_of h.comment == 1))
      × (has_flag (flags_of h) 2 ≡ (bit_of h.crc == 1))
unfolding has_flag flags_of
flags_of-flags h =
    let t : ℕ = if h.text then 1 else 0 in
    let t_bound : t < 2 = ground arith in
    let c = bit_of_bound h.crc in
    let e = bit_of_bound h.extra in
    let n = bit_of_bound h.name in
    let m = bit_of_bound h.comment in
    (
      ap (λ b. b == 1) (omega arith),
      ap (λ b. b == 1) (omega arith),
      ap (λ b. b == 1) (omega arith),
      ap (λ b. b == 1) (omega arith),
    )

pub drop-append : (x q : Bytes) → drop (length x) (x ++ q) ≡ q
drop-append [] q = refl
drop-append (c ∷ x) q = drop-append x q

extra_found :
    (o : Option Bytes) (q : Bytes)
    → behind_part (bit_of o == 1) behind_extra (some (extra_part o q)) ≡ some q
unfolding behind_part bit_of extra_part behind_extra
extra_found none q = refl
extra_found (some x) q =
    let e : length x % 256 + length x / 256 * 256 ≡ length x = omega arith in
    let fits : leb (length x) (length (x ++ q)) ≡ true = ground (arith, length-append x q) in
    rw (e, fits, drop-append x q) refl

text_behind : (x q : Bytes) → All (λ c. 0 < c) x → behind_text (x ++ 0 ∷ q) ≡ some q
unfolding behind_text
text_behind [] q h = refl
text_behind (c ∷ x) q (p, h) = ground (arith, text_behind x q h)

text_found :
    (o : Option Bytes) (q : Bytes)
    → IsText o
    → behind_part (bit_of o == 1) behind_text (some (text_part o q)) ≡ some q
unfolding behind_part bit_of text_part IsText
text_found none q h = refl
text_found (some x) q h = text_behind x q h

crc_found :
    (o : Option (ℕ × ℕ)) (q : Bytes)
    → behind_part (bit_of o == 1) behind_crc (some (crc_part o q)) ≡ some q
unfolding behind_part bit_of crc_part behind_crc
crc_found none q = refl
crc_found (some (a, b)) q = refl

pub behind_header-header_then :
    (h : GzipHeader) (q : Bytes)
    → IsText h.name
    → IsText h.comment
    → behind_header (header_then h q) ≡ some q
unfolding behind_header header_then has_magic behind_parts
behind_header-header_then h q hn hc =
    let comment = text_part h.comment (crc_part h.crc q) in
    let (f4, f8, f16, f2) = flags_of-flags h in
    let long : ltb (length (header_then h q)) 10 ≡ false = ground arith in
    rw
      (
        f4,
        f8,
        f16,
        f2,
        extra_found h.extra (text_part h.name comment),
        text_found h.name comment hn,
        text_found h.comment (crc_part h.crc q) hc,
        crc_found h.crc q,
        long,
      )
      refl
