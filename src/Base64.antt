-- ===== src/Base64.antt =====
-- src/api/base64.cpp (btoa, atob) and the encoder of src/api/blob.cpp (base64Encode).
-- A script string enters as its UTF-8 bytes (`ev::toUtf8`) and leaves as UTF-8 bytes
-- (`ev::fromUtf8`); the two conversions are the engine's and are not modelled.
pub mod Codec
pub mod Utf8
pub mod RoundTrip
pub mod Reject
mod Tests
use Prim.Native.Nat.{bit_and, bit_or}
use brokit.Prelude.{
  ℕ, zero, suc, ◌+◌, ◌-◌, ◌*◌, ◌/◌, ◌%◌, ◌^◌, Bool, true, false, not, ◌&&◌, ◌||◌, List, [], ◌∷◌,
  ◌++◌, Option, none, some, Bytes, codes, length, get_or, leb, ltb, ◌==◌, if◌then◌else◌,
}
use brokit.Prelude.Outcome.{Outcome, returns, throws, ◌>>=◌}

-- The two messages of the InvalidCharacterError that the natives throw.
pub data DomError : Type 0 where
  outside_latin1 not_correctly_encoded : DomError

-- (uint8_t)cp, with cp = ((b0 & 0x1F) << 6) | (b1 & 0x3F).
pub code_point : ℕ → ℕ → ℕ
code_point b0 b1 = bit_or (bit_and b0 0x1F * 2 ^ 6) (bit_and b1 0x3F) % 256

abbrev pub is_lead : ℕ → Bool
is_lead b0 = b0 == 0xC2 || b0 == 0xC3

-- The first loop of nativeBtoa: UTF-8 to one byte a character.
pub to_latin1 : Bytes → Outcome DomError Bytes
to_latin1 [] = returns []
to_latin1 (b0 ∷ []) = if ltb b0 0x80 then returns (b0 ∷ []) else throws outside_latin1
to_latin1 (b0 ∷ b1 ∷ rest) = elim (ltb b0 0x80) [
  | true ↦ to_latin1 (b1 ∷ rest) >>= λ more. returns (b0 ∷ more)
  | false ↦ elim (is_lead b0) [
    | false ↦ throws outside_latin1
    | true ↦ elim (bit_and b1 0xC0 == 0x80) [
      | false ↦ throws outside_latin1
      | true ↦ to_latin1 rest >>= λ more. returns (code_point b0 b1 ∷ more)
    ]
  ]
]

-- kBase64Chars, and kAlphabet of blob.cpp.
abbrev pub alphabet : Bytes
alphabet = codes "ABCDEFGHIJKLMNOPQRSTUVWXYZabcdefghijklmnopqrstuvwxyz0123456789+/"

pub char_of : ℕ → ℕ
char_of i = get_or alphabet i 0

abbrev pub padding : ℕ
padding = b'='

-- (b1 << 16) | (b2 << 8) | b3
pub triple : ℕ → ℕ → ℕ → ℕ
triple b1 b2 b3 = bit_or (bit_or (b1 * 2 ^ 16) (b2 * 2 ^ 8)) b3

-- kBase64Chars[(t >> k) & 63]
pub sextet : ℕ → ℕ → ℕ
sextet t k = char_of (bit_and (t / 2 ^ k) 63)

-- The second loop of nativeBtoa, three bytes a round; a missing byte reads as 0.
pub encode : Bytes → Bytes
encode [] = []
encode (b1 ∷ []) = let t = triple b1 0 0 in sextet t 18 ∷ sextet t 12 ∷ padding ∷ padding ∷ []
encode (b1 ∷ b2 ∷ []) =
    let t = triple b1 b2 0 in sextet t 18 ∷ sextet t 12 ∷ sextet t 6 ∷ padding ∷ []
encode (b1 ∷ b2 ∷ b3 ∷ rest) =
    let t = triple b1 b2 b3 in sextet t 18 ∷ sextet t 12 ∷ sextet t 6 ∷ sextet t 0 ∷ encode rest

pub btoa : Bytes → Outcome DomError Bytes
btoa s = to_latin1 s >>= λ latin1. returns (encode latin1)

-- base64Encode of blob.cpp: the tail is a case of its own after the loop over whole triples.
pub blob_encode : Bytes → Bytes
blob_encode [] = []
blob_encode (a ∷ []) = let n = a * 2 ^ 16 in sextet n 18 ∷ sextet n 12 ∷ padding ∷ padding ∷ []
blob_encode (a ∷ b ∷ []) =
    let n = bit_or (a * 2 ^ 16) (b * 2 ^ 8) in sextet n 18 ∷ sextet n 12 ∷ sextet n 6 ∷ padding ∷ []
blob_encode (a ∷ b ∷ c ∷ rest) =
    let n = triple a b c in sextet n 18 ∷ sextet n 12 ∷ sextet n 6 ∷ sextet n 0 ∷ blob_encode rest

abbrev within : ℕ → ℕ → ℕ → Bool
within lo c hi = leb lo c && leb c hi

-- decodeChar; `none` stands for -1.
pub decode_char : ℕ → Option ℕ
decode_char c =
    if within b'A' c b'Z'
    then some (c - b'A')
    else if within b'a' c b'z'
    then some (c - b'a' + 26)
    else if within b'0' c b'9'
    then some (c - b'0' + 52)
    else if c == b'+'
    then some 62
    else if c == b'/'
    then some 63
    else none

abbrev pub is_none : Option ℕ → Bool
is_none none = true
is_none (some d) = false

abbrev pub digit : Option ℕ → ℕ
digit none = 0
digit (some d) = d

-- c2 and c3 may be the padding, which counts as 0.
pub decode_padded : ℕ → Option ℕ
decode_padded c = if c == padding then some 0 else decode_char c

-- (d0 << 18) | (d1 << 12) | (d2 << 6) | d3
pub quad : ℕ → ℕ → ℕ → ℕ → ℕ
quad d0 d1 d2 d3 = bit_or (bit_or (bit_or (d0 * 2 ^ 18) (d1 * 2 ^ 12)) (d2 * 2 ^ 6)) d3

-- The test under which a group of four is refused.
pub bad_group : ℕ → ℕ → ℕ → ℕ → Bool
bad_group c0 c1 c2 c3 =
    is_none (decode_char c0)
    || is_none (decode_char c1)
    || (not (c2 == padding) && is_none (decode_padded c2))
    || (not (c3 == padding) && is_none (decode_padded c3))
    || (c2 == padding && not (c3 == padding))

-- What a group pushes: `(t >> 16) & 255`, and the next two bytes where no padding stands.
pub group_bytes : ℕ → ℕ → ℕ → Bytes
group_bytes t c2 c3 =
    (t / 2 ^ 16 % 256)
    ∷ ((if c2 == padding then [] else (t / 2 ^ 8 % 256) ∷ [])
        ++ (if c3 == padding then [] else (t % 256) ∷ []))

-- One round of the loop of nativeAtob.
pub decode_group : ℕ → ℕ → ℕ → ℕ → Outcome DomError Bytes
decode_group c0 c1 c2 c3 =
    if bad_group c0 c1 c2 c3
    then throws not_correctly_encoded
    else returns (
        group_bytes
          (quad (digit (decode_char c0)) (digit (decode_char c1)) (digit (decode_padded c2))
            (digit (decode_padded c3)))
          c2 c3)

-- The loop of nativeAtob; a character past the end reads as the padding.
pub decode : Bytes → Outcome DomError Bytes
decode [] = returns []
decode (c0 ∷ []) = decode_group c0 padding padding padding
decode (c0 ∷ c1 ∷ []) = decode_group c0 c1 padding padding
decode (c0 ∷ c1 ∷ c2 ∷ []) = decode_group c0 c1 c2 padding
decode (c0 ∷ c1 ∷ c2 ∷ c3 ∷ rest) = do
  bytes ← decode_group c0 c1 c2 c3
  more ← decode rest
  returns (bytes ++ more)

abbrev pub is_space : ℕ → Bool
is_space c = c == b' ' || c == b'\t' || c == b'\n' || c == b'\r' || c == 12

-- The copy without whitespace.
pub clean : Bytes → Bytes
clean [] = []
clean (c ∷ s) = if is_space c then clean s else c ∷ clean s

-- 0xC0 | (byte >> 6), 0x80 | (byte & 0x3F)
pub utf8_char : ℕ → Bytes
utf8_char b =
    if ltb b 0x80 then b ∷ [] else bit_or 0xC0 (b / 2 ^ 6) ∷ bit_or 0x80 (bit_and b 0x3F) ∷ []

-- The last loop of nativeAtob: one byte a character to UTF-8.
pub to_utf8 : Bytes → Bytes
to_utf8 [] = []
to_utf8 (b ∷ bs) = utf8_char b ++ to_utf8 bs

pub atob : Bytes → Outcome DomError Bytes
atob s =
    let c = clean s in
    if length c % 4 == 1
    then throws not_correctly_encoded
    else (decode c >>= λ decoded. returns (to_utf8 decoded))
