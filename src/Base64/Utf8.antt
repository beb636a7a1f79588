-- ===== src/Base64/Utf8.antt =====
-- The UTF-8 readers and writers of src/api/base64.cpp undo each other.
use Prim.Native.Nat.{bit_and, bit_or}
use brokit.Prelude.{
  ℕ, ◌/◌, ◌^◌, ◌<◌, ◌≡◌, refl, Bool, true, false, not, ◌&&◌, ◌||◌, inl, inr, [], ◌∷◌, arith, Bytes,
  AreBytes, ltb, ◌==◌, Bool-cases,
}
use brokit.Prelude.Bits.{passes_below, passes_below_sound}
use brokit.Prelude.Outcome.{returns, ◌>>=◌, >>=-eq-returns}
use brokit.Base64.{code_point, is_lead, to_latin1, utf8_char, to_utf8}

abbrev spells : ℕ → ℕ → Bytes → Bool
spells b0 b1 [] = false
spells b0 b1 (c ∷ []) = false
spells b0 b1 (c ∷ d ∷ []) = (c == b0) && (d == b1)
spells b0 b1 (c ∷ d ∷ e ∷ s) = false

-- A continuation byte behind the lead byte `b0` is written back by the two bytes it was read from.
pair_ok : ℕ → ℕ → Bool
unfolding code_point utf8_char
pair_ok b0 b1 =
    not (bit_and b1 0xC0 == 0x80)
    || (ltb (code_point b0 b1) 256 && spells b0 b1 (utf8_char (code_point b0 b1)))

c2_table : passes_below (pair_ok 0xC2) 256 ≡ true
unfolding passes_below pair_ok
c2_table = refl

c3_table : passes_below (pair_ok 0xC3) 256 ≡ true
unfolding passes_below pair_ok
c3_table = refl

spells_eq : (b0 b1 : ℕ) (s : Bytes) → spells b0 b1 s ≡ true → s ≡ b0 ∷ b1 ∷ []
spells_eq b0 b1 [] h = cc
spells_eq b0 b1 (c ∷ []) h = cc
spells_eq b0 b1 (c ∷ d ∷ []) h = ground arith
spells_eq b0 b1 (c ∷ d ∷ e ∷ s) h = cc

pub utf8_pair :
    (b0 b1 : ℕ)
    → b1 < 256
    → is_lead b0 ≡ true
    → (bit_and b1 0xC0 == 0x80) ≡ true
    → (utf8_char (code_point b0 b1) ≡ b0 ∷ b1 ∷ []) × (code_point b0 b1 < 256)
unfolding pair_ok
utf8_pair b0 b1 h lead continues =
    let row2 = passes_below_sound (pair_ok 0xC2) 256 c2_table b1 h in
    let row3 = passes_below_sound (pair_ok 0xC3) 256 c3_table b1 h in
    ground (arith, row2, row3, spells_eq b0 b1 (utf8_char (code_point b0 b1)))

abbrev lead_byte : ℕ → ℕ
lead_byte b = bit_or 0xC0 (b / 2 ^ 6)

abbrev next_byte : ℕ → ℕ
next_byte b = bit_or 0x80 (bit_and b 0x3F)

latin1_ok : ℕ → Bool
unfolding code_point
latin1_ok b =
    ltb b 0x80
    || (not (ltb (lead_byte b) 0x80)
        && is_lead (lead_byte b)
        && (bit_and (next_byte b) 0xC0 == 0x80)
        && (code_point (lead_byte b) (next_byte b) == b))

latin1_table : passes_below latin1_ok 256 ≡ true
unfolding passes_below latin1_ok
latin1_table = refl

to_latin1_ascii :
    (b : ℕ) (s : Bytes)
    → ltb b 0x80 ≡ true
    → to_latin1 (b ∷ s) ≡ (to_latin1 s >>= λ more. returns (b ∷ more))
unfolding to_latin1
to_latin1_ascii b [] h = ground arith
to_latin1_ascii b (c ∷ s) h = ground arith

to_latin1_pair :
    (b0 b1 : ℕ) (s : Bytes)
    → ltb b0 0x80 ≡ false
    → is_lead b0 ≡ true
    → (bit_and b1 0xC0 == 0x80) ≡ true
    → to_latin1 (b0 ∷ b1 ∷ s) ≡ (to_latin1 s >>= λ more. returns (code_point b0 b1 ∷ more))
unfolding to_latin1
to_latin1_pair b0 b1 s high lead continues = ground arith

utf8_char_ascii : (b : ℕ) → ltb b 0x80 ≡ true → utf8_char b ≡ b ∷ []
unfolding utf8_char
utf8_char_ascii b h = rw h

-- What the reader accepts is the writing of what it returns.
pub to_utf8-to_latin1 :
    (s bs : Bytes) → AreBytes s → to_latin1 s ≡ returns bs → (to_utf8 bs ≡ s) × AreBytes bs
unfolding to_utf8
to_utf8-to_latin1 [] bs ok h = unfold to_latin1 in ground arith
to_utf8-to_latin1 (b0 ∷ []) bs ok h = unfold to_latin1 in ground (arith, utf8_char_ascii b0)
to_utf8-to_latin1 (b0 ∷ b1 ∷ rest) bs ok h = elim (Bool-cases (ltb b0 0x80)) [
  | inl ascii ↦
      let (more, e, e') =
        >>=-eq-returns (to_latin1 (b1 ∷ rest)) _ (rw (to_latin1_ascii b0 (b1 ∷ rest) ascii) at h) in
      let ih = to_utf8-to_latin1 (b1 ∷ rest) more ok.1 e in
      ground (arith, ih, e', ok.0, utf8_char_ascii b0 ascii)
  | inr high ↦ elim (Bool-cases (is_lead b0 && (bit_and b1 0xC0 == 0x80))) [
    | inl good ↦
        let lead : is_lead b0 ≡ true = ground arith in
        let continues : (bit_and b1 0xC0 == 0x80) ≡ true = ground arith in
        let (more, e, e') =
          >>=-eq-returns (to_latin1 rest) _
            (rw (to_latin1_pair b0 b1 rest high lead continues) at h) in
        let ih = to_utf8-to_latin1 rest more ok.1.1 e in
        ground (arith, ih, e', utf8_pair b0 b1 ok.1.0 lead continues)
    | inr bad ↦ unfold to_latin1 in ground arith
  ]
]

utf8_char_wide : (b : ℕ) → ltb b 0x80 ≡ false → utf8_char b ≡ lead_byte b ∷ next_byte b ∷ []
unfolding utf8_char
utf8_char_wide b h = rw h

-- The writing of one-byte characters is read back.
pub to_latin1-to_utf8 : (bs : Bytes) → AreBytes bs → to_latin1 (to_utf8 bs) ≡ returns bs
unfolding to_utf8 latin1_ok
to_latin1-to_utf8 [] _ = unfold to_latin1 in refl
to_latin1-to_utf8 (b ∷ bs) (h, hs) = elim (Bool-cases (ltb b 0x80)) [
  | inl ascii ↦
      rw (utf8_char_ascii b ascii, to_latin1_ascii b (to_utf8 bs) ascii, to_latin1-to_utf8 bs hs)
  | inr high ↦
      let row = passes_below_sound latin1_ok 256 latin1_table b h in
      ground (
        arith,
        row,
        utf8_char_wide b high,
        to_latin1_pair (lead_byte b) (next_byte b) (to_utf8 bs),
        to_latin1-to_utf8 bs hs,
      )
]
