-- ===== src/Compression/Integrity.antt =====
-- What a decompressor of src/api/compression.cpp checks: the trailer of gzip is about the bytes that the script got.
use brokit.Prelude.{
  ℕ, ◌≡◌, refl, sym, ap, ◌∙◌, ◌+◌, ◌*◌, ◌/◌, ◌%◌, ◌^◌, ◌<◌, Bool, false, not, List, [], ◌∷◌, ◌++◌,
  Option, none, some, Bytes, AreBytes, length, ltb, ◌==◌, arith, append_assoc, append-nil, if_elim,
}
use mathlib.Core.Path.{subst}
use brokit.Compression.{
  gzip, CodecState, new_codec, MinizCall, Chunked, type_error, bytes, trailer_of, little_endian,
  word_at,
}
use brokit.Compression.Natives.{codec_push, chunk, codec_finish, finish_coded, check_trailer}
use brokit.Compression.Waiting.{waiting, inflating, push_all, joined}
use brokit.Compression.Framing.{GoesOn, all_bytes, one_more, session}
use brokit.Compression.Phases.{EndsIn, counted, Phase, waits, inflates, over, Good, push-Good}

word_bytes :
    (a b c d n : ℕ)
    → a < 256
    → b < 256
    → c < 256
    → d < 256
    → a + b * 256 + c * 65536 + d * 16777216 ≡ n
    → little_endian n ≡ a ∷ b ∷ c ∷ d ∷ []
unfolding little_endian
word_bytes a b c d n ha hb hc hd e =
    let e0 : n % 256 ≡ a = omega arith in
    let e1 : n / 256 % 256 ≡ b = omega arith in
    let e2 : n / 65536 % 256 ≡ c = omega arith in
    let e3 : n / 16777216 % 256 ≡ d = omega arith in rw (e0, e1, e2, e3) refl

-- A trailer that passes.
PassesAs : (crc total : ℕ) → Bytes → Type 0
PassesAs crc total t =
    (length t ≡ 8) × (word_at t 0 ≡ crc % 2 ^ 32) × (word_at t 4 ≡ total % 2 ^ 32)

passes-trailer_of :
    (crc total : ℕ) (t : Bytes) → AreBytes t → PassesAs crc total t → t ≡ trailer_of crc total
unfolding PassesAs word_at trailer_of
passes-trailer_of crc total (a ∷ b ∷ c ∷ d ∷ e ∷ f ∷ g ∷ h ∷ []) bytes_of (n, low, high) =
    let (ha, (hb, (hc, (hd, (he, (hf, (hg, (hh, _)))))))) = bytes_of in
    rw
      (
        word_bytes a b c d (crc % 2 ^ 32) ha hb hc hd low,
        word_bytes e f g h (total % 2 ^ 32) he hf hg hh high,
      )
      refl
passes-trailer_of crc total t _ (n, _, _) = absurd (omega arith)

check_trailer-passes :
    (st : CodecState) (o : Bytes)
    → check_trailer st ≡ bytes o
    → (o ≡ []) × PassesAs st.crc_out st.total_out st.trailer
unfolding check_trailer PassesAs
check_trailer-passes st o =
    let passes = (o ≡ []) × PassesAs st.crc_out st.total_out st.trailer in
    let low = word_at st.trailer 0 == st.crc_out % 2 ^ 32 in
    let high = word_at st.trailer 4 == st.total_out % 2 ^ 32 in
    if_elim (λ r. r ≡ bytes o → passes) (ltb (length st.trailer) 8) _ _ (λ _ e. cc)
      (λ long.
        if_elim (λ r. r ≡ bytes o → passes) (ltb 8 (length st.trailer)) _ _ (λ _ e. cc)
          (λ short.
            if_elim (λ r. r ≡ bytes o → passes) (not low) _ _ (λ _ e. cc)
              (λ crc_same.
                if_elim (λ r. r ≡ bytes o → passes) (not high) _ _ (λ _ e. cc)
                  (λ size_same e. (cc, (ground arith, ground arith, ground arith))))))

bytes_behind : (a t : Bytes) → AreBytes (a ++ t) → AreBytes t
bytes_behind [] t h = h
bytes_behind (c ∷ a) t h = bytes_behind a t h.1

one_more-some :
    (r : Chunked) (m : Option Bytes) (out : Bytes)
    → one_more r m ≡ some out
    → (o : Bytes) × (bs : Bytes) × (r ≡ bytes o) × (m ≡ some bs) × (o ++ bs ≡ out)
unfolding one_more
one_more-some (type_error text) m out e = cc
one_more-some (bytes o) none out e = cc
one_more-some (bytes o) (some bs) out e = (o, bs, refl, refl, cc)

ends-AreBytes : (s t : Bytes) → EndsIn s t → AreBytes s → AreBytes t
unfolding EndsIn
ends-AreBytes s t (front, e) b = bytes_behind front t (subst AreBytes (sym e) b)

module _ (crc32 : ℕ → Bytes → ℕ) (goes_on : GoesOn crc32) where
  finish-Phase :
      (init : Bool) (last : List MinizCall) (st : CodecState) (given out o : Bytes)
      → AreBytes given
      → Phase crc32 st given out
      → (codec_finish init last st).1 ≡ bytes o
      → (o ≡ []) × EndsIn given (trailer_of (crc32 0 out) (length out))
  unfolding codec_finish finish_coded waiting counted inflating
  finish-Phase init last _ _ _ o h (waits a) e = cc
  finish-Phase init last _ _ _ o h (inflates hdr given out) e = cc
  finish-Phase init last _ _ _ o h (over hdr given out t ends) e =
      let (nothing, passes) = check_trailer-passes _ o e in
      let is_trailer =
        passes-trailer_of (crc32 0 out) (length out) t (ends-AreBytes given t ends h) passes in
      (nothing, subst (EndsIn given) is_trailer ends)

  session-Phase :
      (init : Bool) (ps : List (Bytes × List MinizCall)) (last : List MinizCall) (st : CodecState)
      (given before out : Bytes)
      → AreBytes (given ++ joined ps)
      → Phase crc32 st given before
      → session crc32 init ps last st ≡ some out
      → EndsIn (given ++ joined ps) (trailer_of (crc32 0 (before ++ out)) (length (before ++ out)))
  unfolding session push_all all_bytes joined Good
  session-Phase init [] last st given before out h p e =
      let (o, bs, finished, none_more, whole) =
        one_more-some (codec_finish init last st).1 (some []) out e in
      let all_of : given ++ [] ≡ given = append-nil given in
      let (nothing, ends) =
        finish-Phase init last st given before o (subst AreBytes all_of h) p finished in
      let none_left : bs ≡ [] = cc in
      let nothing_new : before ++ out ≡ before =
        ap (λ x. before ++ x) (sym whole ∙ ap (λ x. x ++ bs) nothing)
        ∙ ap (λ x. before ++ x) none_left
        ∙ append-nil before in
      rw (all_of, nothing_new) ends
  session-Phase init ((c, calls) ∷ ps) last st given before out h p e =
      let next = codec_push crc32 init calls (chunk c) st in
      let (o, bs, pushed, later, whole) =
        one_more-some next.1 (session crc32 init ps last next.0) out e in
      let next_phase = push-Good crc32 goes_on init calls c st given before p o pushed in
      let all_of = append_assoc given c (joined ps) in
      let all_out : before ++ out ≡ (before ++ o) ++ bs =
        ap (λ x. before ++ x) (sym whole) ∙ sym (append_assoc before o bs) in
      rw (sym all_of, all_out)
        (session-Phase init ps last next.0 (given ++ c) (before ++ o) bs
          (subst AreBytes (sym all_of) h) next_phase later)

  -- If a decompressor of gzip throws nothing, in pushes and finish, whatever miniz answers: its input ends in the
  -- crc32 and the length of exactly the bytes that the script got.
  pub session-trailer :
      (init : Bool) (ps : List (Bytes × List MinizCall)) (last : List MinizCall) (out : Bytes)
      → AreBytes (joined ps)
      → session crc32 init ps last (new_codec false gzip) ≡ some out
      → EndsIn (joined ps) (trailer_of (crc32 0 out) (length out))
  unfolding waiting
  session-trailer init ps last out h e =
      session-Phase init ps last (waiting []) [] [] out h (waits []) e
