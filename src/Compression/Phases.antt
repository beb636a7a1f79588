-- ===== src/Compression/Phases.antt =====
-- Where a decompressor of src/api/compression.cpp is, and what it has counted, as chunks are pushed.
use brokit.Prelude.{
  ℕ, zero, suc, ◌≡◌, refl, sym, ap, ◌∙◌, Bool, true, false, not, ◌&&◌, ◌||◌, List, [], ◌∷◌, ◌++◌,
  Bytes, codes, length, length-append, is_empty, drop, get_or, leb, ◌==◌, append_assoc, append-nil,
  if_elim,
}
use mathlib.Core.Path.{subst}
use brokit.Compression.{
  CodecState, Rc, ok, stream_end, buf_error, failed, MinizCall, has_room, count_out, Pumped,
  after_inflate, pump_inflate, Chunked, type_error, bytes, parse_gzip_header,
}
use brokit.Compression.Natives.{
  codec_push, push_chunk, push_coded, push_finished, push_header, inflate_some, ended, start_stream,
  cannot_start, chunk,
}
use brokit.Compression.Waiting.{waiting, inflating}
use brokit.Compression.Framing.{GoesOn}

-- One list is the end of another.
unfoldable pub EndsIn : (s t : Bytes) → Type 0
EndsIn s t = (front : Bytes) × (front ++ t ≡ s)

ends_refl : (s : Bytes) → EndsIn s s
unfolding EndsIn
ends_refl s = ([], refl)

ends_trans : (r s t : Bytes) → EndsIn r s → EndsIn s t → EndsIn r t
unfolding EndsIn
ends_trans r s t (a, e) (b, f) = (a ++ b, append_assoc a b t ∙ ap (λ x. a ++ x) f ∙ e)

ends-drop : (n : ℕ) (s : Bytes) → EndsIn s (drop n s)
unfolding EndsIn
ends-drop zero s = ([], refl)
ends-drop (suc n) [] = ([], refl)
ends-drop (suc n) (c ∷ s) = let (a, e) = ends-drop n s in (c ∷ a, ap (◌∷◌ c) e)

ends-append : (s t c : Bytes) → EndsIn s t → EndsIn (s ++ c) (t ++ c)
unfolding EndsIn
ends-append s t c (a, e) = (a, sym (append_assoc a t c) ∙ ap (λ x. x ++ c) e)

-- A decompressor of gzip behind its header, that has given `out`.
unfoldable pub counted : (crc32 : ℕ → Bytes → ℕ) (hdr out : Bytes) → CodecState
counted crc32 hdr out = record (inflating hdr) { crc_out = crc32 0 out; total_out = length out }

module _ (crc32 : ℕ → Bytes → ℕ) (goes_on : GoesOn crc32) (hdr : Bytes) where
  count_out-counted :
      (out w : Bytes) → count_out crc32 w (counted crc32 hdr out) ≡ counted crc32 hdr (out ++ w)
  unfolding count_out counted inflating
  count_out-counted out [] = rw (append-nil out) refl
  count_out-counted out (c ∷ w) = rw (goes_on.1 0 out (c ∷ w), length-append out (c ∷ w)) refl

  -- What a pump leaves of `input`, where `before` was given already.
  Kept : (before input : Bytes) → Pumped → Type 0
  Kept before input p = (p.codec ≡ counted crc32 hdr (before ++ p.out)) × EndsIn input p.avail_in

  after_inflate-Kept :
      (before input : Bytes) (rc : Rc) (room idle done : Bool) (now rest : Pumped)
      → Kept before input now
      → Kept before input rest
      → Kept before input (after_inflate rc room idle done now rest)
  unfolding after_inflate Kept
  after_inflate-Kept before input ok room idle done now rest h k =
      if_elim (Kept before input) (room && done) now rest (λ _. h) (λ _. k)
  after_inflate-Kept before input stream_end room idle done now rest h k = h
  after_inflate-Kept before input buf_error room idle done now rest h k =
      if_elim (Kept before input) (room && (done || idle)) now rest (λ _. h) (λ _. k)
  after_inflate-Kept before input failed room idle done now rest h k = h

  pump_inflate-Kept :
      (calls : List MinizCall) (before input rest out : Bytes)
      → EndsIn input rest
      → Kept before input (pump_inflate crc32 calls rest out (counted crc32 hdr (before ++ out)))
  unfolding pump_inflate Kept
  pump_inflate-Kept [] before input rest out h = (refl, h)
  pump_inflate-Kept (c ∷ cs) before input rest out h =
      let left = drop c.used rest in
      let some_left = ends_trans input rest left h (ends-drop c.used rest) in
      let step : count_out crc32 c.written (counted crc32 hdr (before ++ out))
          ≡ counted crc32 hdr (before ++ (out ++ c.written)) =
        count_out-counted (before ++ out) c.written
        ∙ ap (counted crc32 hdr) (append_assoc before out c.written) in
      rw step (
        after_inflate-Kept before input c.rc (has_room c.written) (is_empty c.written)
          (is_empty left)
          (record {
            fine = true;
            stream_end = false;
            avail_in = left;
            out = out ++ c.written;
            codec = counted crc32 hdr (before ++ (out ++ c.written));
          })
          (pump_inflate crc32 cs left (out ++ c.written)
            (counted crc32 hdr (before ++ (out ++ c.written))))
          (refl, some_left) (pump_inflate-Kept cs before input left (out ++ c.written) some_left))

-- Where a decompressor of gzip is, that was given `given` and gave `out`.
pub data Phase (crc32 : ℕ → Bytes → ℕ) : CodecState → (given out : Bytes) → Type 0 where
  waits : (a : Bytes) → Phase crc32 (waiting a) a []
  inflates : (hdr given out : Bytes) → Phase crc32 (counted crc32 hdr out) given out
  over :
      (hdr given out t : Bytes)
      → EndsIn given t
      → Phase crc32 (record (counted crc32 hdr out) { finished = true; trailer = t }) given out

module _ (crc32 : ℕ → Bytes → ℕ) (goes_on : GoesOn crc32) where
  -- If nothing is thrown, the codec is in its phase.
  unfoldable pub Good : (given before : Bytes) → CodecState × Chunked → Type 0
  Good given before r = (o : Bytes) → r.1 ≡ bytes o → Phase crc32 r.0 given (before ++ o)

  Good-bytes :
      (given before o : Bytes) (st : CodecState)
      → Phase crc32 st given (before ++ o)
      → Good given before (st, bytes o)
  unfolding Good
  Good-bytes given before o st h o' e = let same : o ≡ o' = cc in rw (sym same) h

  Good-error :
      (given before text : Bytes) (st : CodecState) → Good given before (st, type_error text)
  unfolding Good
  Good-error given before text st o e = cc

  ended-Good :
      (hdr given before : Bytes) (p : Pumped)
      → p.codec ≡ counted crc32 hdr (before ++ p.out)
      → EndsIn given p.avail_in
      → Good given before (ended p)
  unfolding ended counted inflating
  ended-Good hdr given before p e h =
      let st = counted crc32 hdr (before ++ p.out) in
      rw e (
        if_elim (Good given before) (not p.fine) _ _ (λ _. Good-error given before _ st)
          (λ _.
            if_elim (Good given before) (not p.stream_end) _ _
              (λ _. Good-bytes given before p.out st (inflates hdr given (before ++ p.out)))
              (λ _.
                Good-bytes given before p.out _ (over hdr given (before ++ p.out) p.avail_in h))))

  inflate_some-Good :
      (hdr given before input : Bytes) (calls : List MinizCall)
      → EndsIn given input
      → Good given before (inflate_some crc32 calls input (counted crc32 hdr before))
  unfolding inflate_some Kept
  inflate_some-Good hdr given before [] calls h =
      let nothing_new : before ≡ before ++ [] = sym (append-nil before) in
      Good-bytes given before [] _ (
        subst (λ x. Phase crc32 (counted crc32 hdr before) given x) nothing_new
          (inflates hdr given before))
  inflate_some-Good hdr given before (c ∷ input) calls h =
      let st = counted crc32 hdr before in
      let start : counted crc32 hdr (before ++ []) ≡ st =
        ap (counted crc32 hdr) (append-nil before) in
      let (same, some_left) =
        subst
          (λ st.
            Kept crc32 goes_on hdr before (c ∷ input) (pump_inflate crc32 calls (c ∷ input) [] st))
          start
          (pump_inflate-Kept crc32 goes_on hdr calls before (c ∷ input) (c ∷ input) []
            (ends_refl (c ∷ input))) in
      ended-Good hdr given before (pump_inflate crc32 calls (c ∷ input) [] st) same
        (ends_trans given (c ∷ input) _ h some_left)

  push_header-Good :
      (init : Bool) (calls : List MinizCall) (a : Bytes)
      → Good a [] (push_header crc32 init calls (waiting a))
  unfolding push_header waiting start_stream inflating counted
  push_header-Good init calls a =
      if_elim (Good a []) (parse_gzip_header a == 0) _ _
        (λ _.
          if_elim (λ r. Good a [] (waiting a, r))
            (leb 2 (length a) && not (get_or a 0 0 == 31 && get_or a 1 0 == 139))
            (type_error (codes "not a gzip stream (bad magic)")) (bytes [])
            (λ _. Good-error a [] _ (waiting a)) (λ _. Good-bytes a [] [] (waiting a) (waits a)))
        (λ _.
          if_elim (Good a []) (cannot_start init _) _ _ (λ _. Good-error a [] _ _)
            (λ _.
              subst
                (λ n. Good a [] (
                  inflate_some crc32 calls (drop (parse_gzip_header a) a)
                    (record (inflating a) { crc_out = n })))
                (goes_on.0 0)
                (inflate_some-Good a a [] (drop (parse_gzip_header a) a) calls
                  (ends-drop (parse_gzip_header a) a))))

  pub push-Good :
      (init : Bool) (calls : List MinizCall) (c : Bytes) (st : CodecState) (given out : Bytes)
      → Phase crc32 st given out
      → Good (given ++ c) out (codec_push crc32 init calls (chunk c) st)
  unfolding codec_push push_chunk push_coded waiting counted inflating push_finished EndsIn
      cannot_start start_stream
  push-Good init calls c _ _ _ (waits a) = push_header-Good init calls (a ++ c)
  push-Good init calls c _ _ _ (inflates hdr given out) =
      inflate_some-Good hdr (given ++ c) out c calls (given, refl)
  push-Good init calls c _ _ _ (over hdr given out t h) =
      let nothing_new : out ≡ out ++ [] = sym (append-nil out) in
      let st : CodecState = record (counted crc32 hdr out) { finished = true; trailer = t ++ c } in
      Good-bytes (given ++ c) out [] st (
        subst (λ x. Phase crc32 st (given ++ c) x) nothing_new
          (over hdr (given ++ c) out (t ++ c) (ends-append given t c h)))
