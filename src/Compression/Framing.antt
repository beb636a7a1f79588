-- ===== src/Compression/Framing.antt =====
-- What a compressor of src/api/compression.cpp puts around the bytes of miniz.
use brokit.Prelude.{
  ℕ, ◌≤◌, ◌≢◌, ◌⊎◌, inl, inr, ◌≡◌, refl, sym, ap, ◌∙◌, ◌+◌, Bool, true, false, List, [], ◌∷◌, ◌++◌,
  Option, none, some, Bytes, length, length-append, if◌then◌else◌, arith, append_assoc, append-nil,
  All,
}
use brokit.Compression.{
  gzip, CodecState, new_codec, Rc, ok, stream_end, buf_error, failed, MinizCall, has_room,
  after_deflate, pump_deflate, Chunked, type_error, bytes, gzip_header, trailer_of,
}
use brokit.Compression.Natives.{
  codec_push, push_chunk, push_plain, header_once, start_stream, cannot_start, chunk, codec_finish,
  finish_plain,
}
use brokit.Compression.Waiting.{push_all, joined}

unfoldable pub one_more : Chunked → Option Bytes → Option Bytes
one_more (type_error text) bs = none
one_more (bytes b) none = none
one_more (bytes b) (some bs) = some (b ++ bs)

-- What the script gets in all, if nothing throws.
unfoldable pub all_bytes : List Chunked → Option Bytes
all_bytes [] = some []
all_bytes (r ∷ rs) = one_more r (all_bytes rs)

-- A stream: pushes, then finish, each with what miniz answers.
unfoldable pub session :
    (crc32 : ℕ → Bytes → ℕ) (init : Bool)
    → List (Bytes × List MinizCall)
    → (last : List MinizCall) → CodecState
    → Option Bytes
session crc32 init ps last st =
    let (st', rs) = push_all crc32 init ps st in
    all_bytes (rs ++ (codec_finish init last st').1 ∷ [])

-- What all of some calls of miniz wrote, one behind the other.
unfoldable pub written_by : List MinizCall → Bytes
written_by [] = []
written_by (c ∷ cs) = c.written ++ written_by cs

-- What miniz wrote for a chunk; it is not called for an empty one.
unfoldable pub deflated : Bytes × List MinizCall → Bytes
deflated ([], calls) = []
deflated (c ∷ cs, calls) = written_by calls

-- Each call of a run fails not, and another call follows only one that did not end the stream and filled the whole of
-- its 16384 bytes.
abbrev pub IsRun : List MinizCall → Type 0
IsRun [] = 0 ≤ 0
IsRun (c ∷ []) = c.rc ≢ failed
IsRun (c ∷ d ∷ cs) =
    ((c.rc ≡ ok) ⊎ (c.rc ≡ buf_error)) × (16384 ≤ length c.written) × IsRun (d ∷ cs)

unfoldable pub all_deflated : List (Bytes × List MinizCall) → Bytes
all_deflated [] = []
all_deflated (p ∷ ps) = deflated p ++ all_deflated ps

-- A compressor at work.
compressing : (live wrote : Bool) (crc total : ℕ) → CodecState
compressing live wrote crc total = record (new_codec true gzip) {
  strm_live = live;
  wrote_gzip_header = wrote;
  crc_in = crc;
  total_in = total;
}

head_of : (wrote : Bool) → Bytes
head_of wrote = if wrote then [] else gzip_header

after_last :
    (rc : Rc) (room : Bool) (out : Bytes)
    → rc ≢ failed
    → after_deflate rc room out (true, out) ≡ (true, out)
unfolding after_deflate
after_last ok true out fine = refl
after_last ok false out fine = refl
after_last stream_end room out fine = refl
after_last buf_error true out fine = refl
after_last buf_error false out fine = refl
after_last failed room out fine = absurd (fine refl)

after_full :
    (rc : Rc) (out : Bytes) (rest : Bool × Bytes)
    → (rc ≡ ok) ⊎ (rc ≡ buf_error)
    → after_deflate rc false out rest ≡ rest
unfolding after_deflate
after_full ok out rest on = refl
after_full stream_end out rest (inl e) = absurd (cc)
after_full stream_end out rest (inr e) = absurd (cc)
after_full buf_error out rest on = refl
after_full failed out rest (inl e) = absurd (cc)
after_full failed out rest (inr e) = absurd (cc)

-- A run of pumpDeflate appends what every call of it wrote.
pump_run :
    (cs : List MinizCall) (out : Bytes)
    → IsRun cs
    → pump_deflate cs out ≡ (true, out ++ written_by cs)
unfolding pump_deflate written_by has_room
pump_run [] out run = ap (λ b. (true, b)) (sym (append-nil out))
pump_run (c ∷ []) out run =
    after_last c.rc (has_room c.written) (out ++ c.written) run
    ∙ ap (λ b. (true, out ++ b)) (sym (append-nil c.written))
pump_run (c ∷ d ∷ cs) out (on, full, run) =
    let whole : has_room c.written ≡ false = ground (arith, full) in
    let later = pump_run (d ∷ cs) (out ++ c.written) run in
    ap (λ b. after_deflate c.rc b (out ++ c.written) (pump_deflate (d ∷ cs) (out ++ c.written)))
      whole
    ∙ after_full c.rc (out ++ c.written) (pump_deflate (d ∷ cs) (out ++ c.written)) on
    ∙ later
    ∙ ap (λ b. (true, b)) (append_assoc out c.written (written_by (d ∷ cs)))

-- What miniz answers to a push is a run.
abbrev pub IsFine : Bytes × List MinizCall → Type 0
IsFine p = IsRun p.1

-- What is documented of crc32: it goes on from the value that it gave.
abbrev pub GoesOn : (ℕ → Bytes → ℕ) → Type 0
GoesOn crc32 =
    ((c : ℕ) → crc32 c [] ≡ c) × ((c : ℕ) (a b : Bytes) → crc32 (crc32 c a) b ≡ crc32 c (a ++ b))

started :
    (live wrote : Bool) (crc total : ℕ)
    → header_once (start_stream (compressing live wrote crc total))
      ≡ (compressing true true crc total, head_of wrote)
unfolding header_once start_stream compressing head_of
started live true crc total = refl
started live false crc total = refl

module _ (crc32 : ℕ → Bytes → ℕ) where
  pub session-push :
      (init : Bool) (p : Bytes × List MinizCall) (ps : List (Bytes × List MinizCall))
      (last : List MinizCall) (st : CodecState)
      → session crc32 init (p ∷ ps) last st
        ≡ one_more
            (codec_push crc32 init p.1 (chunk p.0) st).1
            (session crc32 init ps last (codec_push crc32 init p.1 (chunk p.0) st).0)
  unfolding session push_all all_bytes
  session-push init p ps last st = refl

module _ (crc32 : ℕ → Bytes → ℕ) (goes_on : GoesOn crc32) where
  push_plain-compressing :
      (live wrote : Bool) (crc total : ℕ) (c : Bytes) (calls : List MinizCall)
      → IsFine (c, calls)
      → push_plain crc32 calls c (compressing live wrote crc total) ≡ (
        compressing true true (crc32 crc c) (total + length c),
        bytes (head_of wrote ++ deflated (c, calls)),
      )
  unfolding push_plain deflated compressing
  push_plain-compressing live wrote crc total [] calls fine =
      let same : total + 0 ≡ total = omega arith in
      rw (started live wrote crc total, goes_on.0 crc, same, append-nil (head_of wrote)) refl
  push_plain-compressing live wrote crc total (x ∷ c) calls fine =
      rw (started live wrote crc total, pump_run calls (head_of wrote) fine) refl

  push-compressing :
      (live wrote : Bool) (crc total : ℕ) (c : Bytes) (calls : List MinizCall)
      → IsFine (c, calls)
      → codec_push crc32 true calls (chunk c) (compressing live wrote crc total) ≡ (
        compressing true true (crc32 crc c) (total + length c),
        bytes (head_of wrote ++ deflated (c, calls)),
      )
  unfolding codec_push push_chunk cannot_start compressing
  push-compressing true wrote crc total c calls fine =
      push_plain-compressing true wrote crc total c calls fine
  push-compressing false wrote crc total c calls fine =
      push_plain-compressing false wrote crc total c calls fine

  finish-compressing :
      (live wrote : Bool) (crc total : ℕ) (calls : List MinizCall)
      → IsRun calls
      → (codec_finish true calls (compressing live wrote crc total)).1
        ≡ bytes ((head_of wrote ++ written_by calls) ++ trailer_of crc total)
  unfolding codec_finish finish_plain cannot_start header_once start_stream compressing head_of
  finish-compressing true true crc total calls fine = rw (pump_run calls [] fine) refl
  finish-compressing true false crc total calls fine = rw (pump_run calls gzip_header fine) refl
  finish-compressing false true crc total calls fine = rw (pump_run calls [] fine) refl
  finish-compressing false false crc total calls fine = rw (pump_run calls gzip_header fine) refl

  session-compressing :
      (live wrote : Bool) (crc total : ℕ) (ps : List (Bytes × List MinizCall))
      (last : List MinizCall)
      → All IsFine ps
      → IsRun last
      → session crc32 true ps last (compressing live wrote crc total)
        ≡ some (
            head_of wrote
            ++ (all_deflated ps
                ++ (written_by last
                    ++ trailer_of (crc32 crc (joined ps)) (total + length (joined ps)))))
  unfolding session push_all all_bytes one_more all_deflated joined head_of
  session-compressing live wrote crc total [] last fine ends =
      let out = head_of wrote ++ written_by last in
      let same : total + 0 ≡ total = omega arith in
      rw
        (
          finish-compressing live wrote crc total last ends,
          goes_on.0 crc,
          same,
          append-nil (out ++ trailer_of crc total),
          append_assoc (head_of wrote) (written_by last) (trailer_of crc total),
        )
        refl
  session-compressing live wrote crc total ((c, calls) ∷ ps) last (f, fine) ends =
      let first = deflated (c, calls) in
      let foot = trailer_of (crc32 crc (c ++ joined ps)) (total + length (c ++ joined ps)) in
      let later =
        session-compressing true true (crc32 crc c) (total + length c) ps last fine ends in
      let counted : total + length c + length (joined ps) ≡ total + length (c ++ joined ps) =
        omega (arith, length-append c (joined ps)) in
      session-push crc32 true (c, calls) ps last (compressing live wrote crc total)
      ∙ ap (λ x. one_more x.1 (session crc32 true ps last x.0))
          (push-compressing live wrote crc total c calls f)
      ∙ ap (one_more (bytes (head_of wrote ++ first))) later
      ∙ rw
          (
            goes_on.1 crc c (joined ps),
            counted,
            append_assoc (head_of wrote) first (all_deflated ps ++ (written_by last ++ foot)),
            append_assoc first (all_deflated ps) (written_by last ++ foot),
          )
          refl

  -- If miniz fails at no call, and is called again only behind a call that filled the buffer and did not end the stream, a
  -- compressor of gzip gives, however its input is cut into chunks: the header, once; what all the calls wrote, in their
  -- order; and the crc32 and the length of all the input.
  pub session-gzip :
      (ps : List (Bytes × List MinizCall)) (last : List MinizCall)
      → All IsFine ps
      → IsRun last
      → session crc32 true ps last (new_codec true gzip)
        ≡ some (
            gzip_header
            ++ (all_deflated ps
                ++ (written_by last ++ trailer_of (crc32 0 (joined ps)) (length (joined ps)))))
  unfolding compressing head_of
  session-gzip ps last fine ends =
      let counted : 0 + length (joined ps) ≡ length (joined ps) = omega arith in
      session-compressing false false 0 0 ps last fine ends
      ∙ ap
          (λ n. some (
            gzip_header
            ++ (all_deflated ps ++ (written_by last ++ trailer_of (crc32 0 (joined ps)) n))))
          counted
