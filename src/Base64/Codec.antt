-- ===== src/Base64/Codec.antt =====
-- The two loops of src/api/base64.cpp as arithmetic: an encoded group decodes to its bytes.
use Prim.Native.Nat.{bit_or}
use brokit.Prelude.{
  ℕ, ◌+◌, ◌*◌, ◌/◌, ◌%◌, ◌^◌, ◌<◌, ◌≡◌, refl, ap, ◌∙◌, Bool, true, false, not, ◌&&◌, [], ◌∷◌, ◌++◌,
  append-nil, Option, none, some, arith, Bytes, AreBytes, length, ◌==◌,
}
use brokit.Prelude.Bits.{bit_and_63, bit_or_shifted, bit_or-zero, passes_below, passes_below_sound}
use brokit.Prelude.Outcome.{returns}
use brokit.Base64.{
  char_of, padding, triple, sextet, encode, blob_encode, decode_char, decode_padded, quad,
  bad_group, group_bytes, decode_group, decode, is_space, clean,
}

abbrev decodes_to : Option ℕ → ℕ → Bool
decodes_to none i = false
decodes_to (some d) i = d == i

char_ok : ℕ → Bool
unfolding char_of decode_char
char_ok i =
    decodes_to (decode_char (char_of i)) i
    && not (char_of i == padding)
    && not (is_space (char_of i))

char_table : passes_below char_ok 64 ≡ true
unfolding passes_below char_ok
char_table = refl

decodes_to_eq : (o : Option ℕ) (i : ℕ) → decodes_to o i ≡ true → o ≡ some i
decodes_to_eq none i h = cc
decodes_to_eq (some d) i h = ground arith

-- The alphabet is read back, and holds neither the padding nor a space.
pub char_of_facts :
    (i : ℕ)
    → i < 64
    → (decode_char (char_of i) ≡ some i)
      × ((char_of i == padding) ≡ false)
      × (is_space (char_of i) ≡ false)
unfolding char_ok
char_of_facts i h =
    let row = passes_below_sound char_ok 64 char_table i h in
    ground (arith, row, decodes_to_eq (decode_char (char_of i)) i)

pub triple_sum :
    (b1 b2 b3 : ℕ) → b2 < 256 → b3 < 256 → triple b1 b2 b3 ≡ b1 * 2 ^ 16 + b2 * 2 ^ 8 + b3
unfolding triple
triple_sum b1 b2 b3 h2 h3 =
    let high : bit_or (b1 * 2 ^ 16) (b2 * 2 ^ 8) ≡ b1 * 2 ^ 16 + b2 * 2 ^ 8 =
      bit_or_shifted 16 b1 (b2 * 2 ^ 8) (omega arith) in
    let regroup : b1 * 2 ^ 16 + b2 * 2 ^ 8 ≡ (b1 * 2 ^ 8 + b2) * 2 ^ 8 = omega arith in
    rw (high, regroup) (bit_or_shifted 8 (b1 * 2 ^ 8 + b2) b3 (omega arith))

pub sextet_char : (t k : ℕ) → sextet t k ≡ char_of (t / 2 ^ k % 64)
unfolding sextet
sextet_char t k = ap char_of (bit_and_63 (t / 2 ^ k))

pub quad_sum :
    (d0 d1 d2 d3 : ℕ)
    → d1 < 64
    → d2 < 64
    → d3 < 64
    → quad d0 d1 d2 d3 ≡ d0 * 2 ^ 18 + d1 * 2 ^ 12 + d2 * 2 ^ 6 + d3
unfolding quad
quad_sum d0 d1 d2 d3 h1 h2 h3 =
    let high : bit_or (d0 * 2 ^ 18) (d1 * 2 ^ 12) ≡ d0 * 2 ^ 18 + d1 * 2 ^ 12 =
      bit_or_shifted 18 d0 (d1 * 2 ^ 12) (omega arith) in
    let shift : d0 * 2 ^ 18 + d1 * 2 ^ 12 ≡ (d0 * 2 ^ 6 + d1) * 2 ^ 12 = omega arith in
    let middle = bit_or_shifted 12 (d0 * 2 ^ 6 + d1) (d2 * 2 ^ 6) (omega arith) in
    let shift' : (d0 * 2 ^ 6 + d1) * 2 ^ 12 + d2 * 2 ^ 6 ≡ (d0 * 2 ^ 12 + d1 * 2 ^ 6 + d2) * 2 ^ 6 =
      omega arith in
    rw (high, shift, middle, shift')
      (bit_or_shifted 6 (d0 * 2 ^ 12 + d1 * 2 ^ 6 + d2) d3 (omega arith) ∙ omega arith)

-- A full group of alphabet characters gives the three bytes of its 24 bits.
decode_full :
    (d0 d1 d2 d3 b1 b2 b3 : ℕ)
    → d0 < 64
    → d1 < 64
    → d2 < 64
    → d3 < 64
    → b1 < 256
    → b2 < 256
    → b3 < 256
    → d0 * 2 ^ 18 + d1 * 2 ^ 12 + d2 * 2 ^ 6 + d3 ≡ b1 * 2 ^ 16 + b2 * 2 ^ 8 + b3
    → decode_group (char_of d0) (char_of d1) (char_of d2) (char_of d3) ≡ returns (b1 ∷ b2 ∷ b3 ∷ [])
unfolding decode_group bad_group group_bytes decode_padded
decode_full d0 d1 d2 d3 b1 b2 b3 h0 h1 h2 h3 hb1 hb2 hb3 e =
    let f0 = char_of_facts d0 h0 in
    let f1 = char_of_facts d1 h1 in
    let f2 = char_of_facts d2 h2 in
    let f3 = char_of_facts d3 h3 in
    rw (f0.0, f1.0, f2.1, f2.0, f3.1, f3.0, quad_sum d0 d1 d2 d3 h1 h2 h3, e) (ground arith)

-- A group whose last character is the padding gives two bytes.
decode_two :
    (d0 d1 d2 b1 b2 : ℕ)
    → d0 < 64
    → d1 < 64
    → d2 < 64
    → b1 < 256
    → b2 < 256
    → d0 * 2 ^ 18 + d1 * 2 ^ 12 + d2 * 2 ^ 6 ≡ b1 * 2 ^ 16 + b2 * 2 ^ 8
    → decode_group (char_of d0) (char_of d1) (char_of d2) padding ≡ returns (b1 ∷ b2 ∷ [])
unfolding decode_group bad_group group_bytes decode_padded
decode_two d0 d1 d2 b1 b2 h0 h1 h2 hb1 hb2 e =
    let f0 = char_of_facts d0 h0 in
    let f1 = char_of_facts d1 h1 in
    let f2 = char_of_facts d2 h2 in
    rw (f0.0, f1.0, f2.1, f2.0, quad_sum d0 d1 d2 0 h1 h2 (omega arith)) (ground arith)

-- A group that ends in two paddings gives one.
decode_one :
    (d0 d1 b1 : ℕ)
    → d0 < 64
    → d1 < 64
    → b1 < 256
    → d0 * 2 ^ 18 + d1 * 2 ^ 12 ≡ b1 * 2 ^ 16
    → decode_group (char_of d0) (char_of d1) padding padding ≡ returns (b1 ∷ [])
unfolding decode_group bad_group group_bytes decode_padded
decode_one d0 d1 b1 h0 h1 hb1 e =
    let f0 = char_of_facts d0 h0 in
    let f1 = char_of_facts d1 h1 in
    rw (f0.0, f1.0, quad_sum d0 d1 0 0 h1 (omega arith) (omega arith)) (ground arith)

decode-cons :
    (c0 c1 c2 c3 : ℕ) (rest bytes more : Bytes)
    → decode_group c0 c1 c2 c3 ≡ returns bytes
    → decode rest ≡ returns more
    → decode (c0 ∷ c1 ∷ c2 ∷ c3 ∷ rest) ≡ returns (bytes ++ more)
unfolding decode
decode-cons c0 c1 c2 c3 rest bytes more e e' = rw (e, e')

full_group :
    (b1 b2 b3 : ℕ)
    → b1 < 256
    → b2 < 256
    → b3 < 256
    → let t = triple b1 b2 b3 in
      decode_group (sextet t 18) (sextet t 12) (sextet t 6) (sextet t 0)
      ≡ returns (b1 ∷ b2 ∷ b3 ∷ [])
full_group b1 b2 b3 h1 h2 h3 =
    let t = triple b1 b2 b3 in
    let e = triple_sum b1 b2 b3 h2 h3 in
    simp sextet_char (
      decode_full (t / 2 ^ 18 % 64) (t / 2 ^ 12 % 64) (t / 2 ^ 6 % 64) (t / 2 ^ 0 % 64) b1 b2 b3
        (omega arith) (omega arith) (omega arith) (omega arith) h1 h2 h3 (omega (arith, e)))

-- Encoded groups decode to their bytes, whatever follows them.
pub decode-encode-append :
    (bs t more : Bytes)
    → AreBytes bs
    → decode t ≡ returns more
    → decode (encode bs ++ t) ≡ returns (bs ++ more)
unfolding encode
decode-encode-append [] t more _ e = e
decode-encode-append (b1 ∷ []) s more (h1, _) rest =
    let t = triple b1 0 0 in
    let e = triple_sum b1 0 0 (omega arith) (omega arith) in
    decode-cons _ _ _ _ s (b1 ∷ []) more
      (simp sextet_char (
        decode_one (t / 2 ^ 18 % 64) (t / 2 ^ 12 % 64) b1 (omega arith) (omega arith) h1
          (omega (arith, e))))
      rest
decode-encode-append (b1 ∷ b2 ∷ []) s more (h1, (h2, _)) rest =
    let t = triple b1 b2 0 in
    let e = triple_sum b1 b2 0 h2 (omega arith) in
    decode-cons _ _ _ _ s (b1 ∷ b2 ∷ []) more
      (simp sextet_char (
        decode_two (t / 2 ^ 18 % 64) (t / 2 ^ 12 % 64) (t / 2 ^ 6 % 64) b1 b2 (omega arith)
          (omega arith) (omega arith) h1 h2 (omega (arith, e))))
      rest
decode-encode-append (b1 ∷ b2 ∷ b3 ∷ bs) s more (h1, (h2, (h3, hs))) rest =
    decode-cons _ _ _ _ (encode bs ++ s) (b1 ∷ b2 ∷ b3 ∷ []) (bs ++ more)
      (full_group b1 b2 b3 h1 h2 h3) (decode-encode-append bs s more hs rest)

pub decode-encode : (bs : Bytes) → AreBytes bs → decode (encode bs) ≡ returns bs
decode-encode bs h =
    let whole = decode-encode-append bs [] [] h (unfold decode in refl) in
    rw (append-nil, append-nil) at whole

-- The encoder of blob.cpp writes the same text as that of btoa.
pub blob_encode-encode : (bs : Bytes) → blob_encode bs ≡ encode bs
unfolding blob_encode encode triple
blob_encode-encode [] = refl
blob_encode-encode (a ∷ []) = simp bit_or-zero
blob_encode-encode (a ∷ b ∷ []) = simp bit_or-zero
blob_encode-encode (a ∷ b ∷ c ∷ rest) = rw (blob_encode-encode rest)

clean_char : (i : ℕ) (s : Bytes) → i < 64 → clean (char_of i ∷ s) ≡ char_of i ∷ clean s
unfolding clean
clean_char i s h = rw ((char_of_facts i h).2)

clean-sextet : (t k : ℕ) (s : Bytes) → clean (sextet t k ∷ s) ≡ sextet t k ∷ clean s
clean-sextet t k s = rw (sextet_char t k) (clean_char (t / 2 ^ k % 64) s (omega arith))

clean_pad : (s : Bytes) → clean (padding ∷ s) ≡ padding ∷ clean s
unfolding clean
clean_pad s = refl

pub clean-encode-append : (bs t : Bytes) → clean (encode bs ++ t) ≡ encode bs ++ clean t
unfolding encode
clean-encode-append [] t = refl
clean-encode-append (b1 ∷ []) t = simp (clean-sextet, clean_pad)
clean-encode-append (b1 ∷ b2 ∷ []) t = simp (clean-sextet, clean_pad)
clean-encode-append (b1 ∷ b2 ∷ b3 ∷ rest) t = simp (clean-sextet, clean-encode-append rest t)

clean-nil : clean [] ≡ []
unfolding clean
clean-nil = refl

pub clean-encode : (bs : Bytes) → clean (encode bs) ≡ encode bs
clean-encode bs =
    let whole = clean-encode-append bs [] in rw (append-nil, clean-nil, append-nil) at whole

pub length-encode : (bs : Bytes) → length (encode bs) ≡ 4 * ((length bs + 2) / 3)
unfolding encode
length-encode [] = refl
length-encode (b1 ∷ []) = refl
length-encode (b1 ∷ b2 ∷ []) = refl
length-encode (b1 ∷ b2 ∷ b3 ∷ rest) = omega (arith, length-encode rest)
