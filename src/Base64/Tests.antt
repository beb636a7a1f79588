-- ===== src/Base64/Tests.antt =====
-- Runs of src/api/base64.cpp.
use brokit.Prelude.{◌+◌, ◌*◌, ◌/◌, ◌≡◌, refl, [], ◌∷◌, ◌++◌, Bytes, AreBytes, codes, length, arith}
use brokit.Prelude.Outcome.{returns}
use brokit.Base64.{
  btoa, atob, encode, blob_encode, to_utf8, to_latin1, code_point, triple, sextet, char_of,
}
use brokit.Base64.RoundTrip.{atob-btoa, btoa-to_utf8}
use brokit.Base64.Reject.{atob-encode-append}

-- "é!" as UTF-8
abbrev accented : Bytes
accented = 195 ∷ 169 ∷ 33 ∷ []

accented-AreBytes : AreBytes accented
accented-AreBytes = (omega arith, (omega arith, (omega arith, tt)))

abbrev latin1 : Bytes
latin1 = 233 ∷ 33 ∷ []

latin1-AreBytes : AreBytes latin1
latin1-AreBytes = (omega arith, (omega arith, tt))

btoa_runs : btoa accented ≡ returns (codes "6SE=")
unfolding btoa to_latin1 code_point encode triple sextet char_of
btoa_runs = refl

atob-btoa_example : atob (codes "6SE=") ≡ returns accented
atob-btoa_example = atob-btoa accented (codes "6SE=") accented-AreBytes btoa_runs

btoa-to_utf8_example :
    (btoa (to_utf8 latin1) ≡ returns (blob_encode latin1))
    × (length (blob_encode latin1) ≡ 4 * ((length latin1 + 2) / 3))
btoa-to_utf8_example = btoa-to_utf8 latin1 latin1-AreBytes

atob-encode-append_example :
    atob (encode latin1 ++ encode accented) ≡ returns (to_utf8 (latin1 ++ accented))
atob-encode-append_example = atob-encode-append latin1 accented latin1-AreBytes accented-AreBytes
