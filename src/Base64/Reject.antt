-- ===== src/Base64/Reject.antt =====
-- What atob of src/api/base64.cpp accepts, and what it throws on.
use brokit.Prelude.{
  ℕ, ◌%◌, ◌≡◌, ◌≤◌, ◌⊎◌, false, ◌++◌, arith, Bytes, AreBytes, length, length-append, ◌==◌,
}
use brokit.Prelude.Outcome.{returns}
use brokit.Base64.{encode, to_utf8, atob}
use brokit.Base64.Codec.{
  decode-encode, decode-encode-append, clean-encode, clean-encode-append, length-encode,
}

-- A character of the alphabet of base64 (A to Z, a to z, 0 to 9, + and /), or the padding (=).
abbrev pub IsSymbol : ℕ → Type 0
IsSymbol c =
    ((65 ≤ c) × (c ≤ 90))
    ⊎ ((97 ≤ c) × (c ≤ 122))
    ⊎ ((48 ≤ c) × (c ≤ 57))
    ⊎ (c ≡ 43)
    ⊎ (c ≡ 47)
    ⊎ (c ≡ 61)

-- The text of one string of bytes behind that of another is decoded to the two together, also where
-- the first one ends in paddings: paddings in the middle are no error.
pub atob-encode-append :
    (bs cs : Bytes)
    → AreBytes bs
    → AreBytes cs
    → atob (encode bs ++ encode cs) ≡ returns (to_utf8 (bs ++ cs))
unfolding atob
atob-encode-append bs cs hb hc =
    let whole : (length (encode bs ++ encode cs) % 4 == 1) ≡ false =
      ground (arith, length-append (encode bs) (encode cs), length-encode bs, length-encode cs) in
    rw (
      clean-encode-append bs (encode cs),
      clean-encode cs,
      whole,
      decode-encode-append bs (encode cs) cs hb (decode-encode cs hc),
    )
