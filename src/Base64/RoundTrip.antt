-- ===== src/Base64/RoundTrip.antt =====
-- btoa and atob of src/api/base64.cpp undo each other on the strings that btoa accepts.
use brokit.Prelude.{◌+◌, ◌*◌, ◌/◌, ◌%◌, ◌≡◌, false, arith, Bytes, AreBytes, length, ◌==◌}
use brokit.Prelude.Outcome.{returns, >>=-eq-returns}
use brokit.Base64.{btoa, atob, encode, blob_encode, to_utf8}
use brokit.Base64.Codec.{decode-encode, clean-encode, length-encode, blob_encode-encode}
use brokit.Base64.Utf8.{to_utf8-to_latin1, to_latin1-to_utf8}

atob-encode : (bs : Bytes) → AreBytes bs → atob (encode bs) ≡ returns (to_utf8 bs)
unfolding atob
atob-encode bs h =
    let whole : (length (encode bs) % 4 == 1) ≡ false = ground (arith, length-encode bs) in
    rw (clean-encode bs, whole, decode-encode bs h)

-- Whenever btoa encodes a string of bytes, atob gives that string back.
pub atob-btoa : (s e : Bytes) → AreBytes s → btoa s ≡ returns e → atob e ≡ returns s
unfolding btoa
atob-btoa s e h eq =
    let (bs, read, written) = >>=-eq-returns _ _ eq in
    let (spelled, bytes) = to_utf8-to_latin1 s bs h read in
    ground (arith, written, spelled, atob-encode bs bytes)

-- Every string of one-byte characters is encoded, by the text that base64Encode of blob.cpp writes
-- for those bytes: four characters for each three bytes begun.
pub btoa-to_utf8 :
    (bs : Bytes)
    → AreBytes bs
    → (btoa (to_utf8 bs) ≡ returns (blob_encode bs))
      × (length (blob_encode bs) ≡ 4 * ((length bs + 2) / 3))
unfolding btoa
btoa-to_utf8 bs h = (
  rw (to_latin1-to_utf8 bs h, blob_encode-encode bs),
  rw (blob_encode-encode bs) (length-encode bs),
)
