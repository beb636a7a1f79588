-- ===== src/Compression/Waiting.antt =====
-- A decompressor of src/api/compression.cpp waits for the whole header of gzip.
use brokit.Prelude.{
  ℕ, ◌≡◌, ◌≢◌, refl, sym, ap, ◌∙◌, Bool, true, false, not, ◌&&◌, List, [], ◌∷◌, ◌++◌, map, Option,
  none, some, Bytes, length, length-append, get_or, leb, ◌==◌, arith, append_assoc, append-nil,
}
use brokit.Compression.{
  gzip, CodecState, new_codec, MinizCall, Chunked, bytes, behind_header, size_before,
  parse_gzip_header,
}
use brokit.Compression.Natives.{
  codec_push, push_chunk, push_coded, push_header, inflate_some, cannot_start, start_stream, chunk,
}
use brokit.Compression.Header.{
  GzipHeader, IsText, header_then, drop-append, behind_header-header_then,
}
use brokit.Compression.Prefix.{header_then-append, behind_header-prefix, nil_behind}

-- A new decompressor with the bytes it was given so far.
unfoldable pub waiting : Bytes → CodecState
waiting a = record (new_codec false gzip) { hdr = a }

-- One that has its header.
unfoldable pub inflating : Bytes → CodecState
inflating a = record (new_codec false gzip) { hdr = a; header_done = true; strm_live = true }

-- Several pushes, each with what miniz would answer.
unfoldable pub push_all :
    (crc32 : ℕ → Bytes → ℕ) (init : Bool)
    → List (Bytes × List MinizCall)
    → CodecState
    → CodecState × List Chunked
push_all crc32 init [] st = (st, [])
push_all crc32 init ((c, calls) ∷ ps) st =
    let (st', r) = codec_push crc32 init calls (chunk c) st in
    let (st'', rs) = push_all crc32 init ps st' in (st'', r ∷ rs)

unfoldable pub joined : List (Bytes × List MinizCall) → Bytes
joined [] = []
joined ((c, calls) ∷ ps) = c ++ joined ps

-- No part of a header looks like another format.
magic_part :
    (h : GzipHeader) (a b : Bytes)
    → a ++ b ≡ header_then h []
    → (leb 2 (length a) && not (get_or a 0 0 == 31 && get_or a 1 0 == 139)) ≡ false
unfolding header_then
magic_part h [] b e = refl
magic_part h (x ∷ []) b e = refl
magic_part h (x ∷ y ∷ a) b e = let first : x ≡ 31 = cc in let second : y ≡ 139 = cc in ground arith

size_found :
    (a : Bytes) (o : Option Bytes) → behind_header a ≡ o → parse_gzip_header a ≡ size_before a o
unfolding parse_gzip_header
size_found a o e = ap (size_before a) e

long_header : (h : GzipHeader) → (length (header_then h []) == 0) ≡ false
unfolding header_then
long_header h = ground arith

module _ (crc32 : ℕ → Bytes → ℕ) (h : GzipHeader) (hn : IsText h.name) (hc : IsText h.comment) where
  push-waiting :
      (init : Bool) (calls : List MinizCall) (a c b : Bytes)
      → (a ++ c) ++ b ≡ header_then h []
      → b ≢ []
      → codec_push crc32 init calls (chunk c) (waiting a) ≡ (waiting (a ++ c), bytes [])
  unfolding codec_push push_chunk push_coded push_header waiting size_before
  push-waiting init calls a c b e some_left =
      let zero_size : parse_gzip_header (a ++ c) ≡ 0 =
        size_found (a ++ c) none (behind_header-prefix h (a ++ c) b hn hc e some_left) in
      rw (zero_size, magic_part h (a ++ c) b e) refl

  push_all-waiting :
      (init : Bool) (ps : List (Bytes × List MinizCall)) (a b : Bytes)
      → a ++ (joined ps ++ b) ≡ header_then h []
      → b ≢ []
      → push_all crc32 init ps (waiting a) ≡ (waiting (a ++ joined ps), map (λ _. bytes []) ps)
  unfolding push_all joined
  push_all-waiting init [] a b e some_left = rw (append-nil a) refl
  push_all-waiting init ((c, calls) ∷ ps) a b e some_left =
      let still : joined ps ++ b ≢ [] =
        λ none_left. some_left (nil_behind (joined ps) b none_left) in
      let regrouped : (a ++ c) ++ (joined ps ++ b) ≡ header_then h [] =
        append_assoc a c (joined ps ++ b)
        ∙ ap (λ x. a ++ x) (sym (append_assoc c (joined ps) b))
        ∙ e in
      rw
        (
          push-waiting init calls a c (joined ps ++ b) regrouped still,
          push_all-waiting init ps (a ++ c) b regrouped some_left,
          append_assoc a c (joined ps),
        )
        refl

  push-whole :
      (calls : List MinizCall) (a b q : Bytes)
      → a ++ b ≡ header_then h []
      → codec_push crc32 true calls (chunk (b ++ q)) (waiting a)
        ≡ inflate_some crc32 calls q (inflating (header_then h q))
  unfolding codec_push push_chunk push_coded push_header waiting inflating start_stream cannot_start
      size_before
  push-whole calls a b q e =
      let w = header_then h [] in
      let all_of : a ++ (b ++ q) ≡ w ++ q = sym (append_assoc a b q) ∙ ap (λ x. x ++ q) e in
      let found : behind_header (w ++ q) ≡ some q =
        ap behind_header (header_then-append h q) ∙ behind_header-header_then h q hn hc in
      let size : parse_gzip_header (w ++ q) ≡ length w =
        size_found (w ++ q) (some q) found ∙ omega (arith, length-append w q) in
      let some_size : (length w == 0) ≡ false = long_header h in
      rw (all_of, size, some_size, drop-append w q, sym (header_then-append h q)) refl

  -- However a header of gzip is cut into chunks, a new decompressor gives nothing to miniz, and nothing to the
  -- script, until it is whole; then miniz gets exactly the bytes behind it.
  pub push_all-header :
      (init : Bool) (ps : List (Bytes × List MinizCall)) (calls : List MinizCall) (b q : Bytes)
      → joined ps ++ b ≡ header_then h []
      → b ≢ []
      → (push_all crc32 init ps (new_codec false gzip)
          ≡ (waiting (joined ps), map (λ _. bytes []) ps))
        × (codec_push crc32 true calls (chunk (b ++ q)) (waiting (joined ps))
            ≡ inflate_some crc32 calls q (inflating (header_then h q)))
  unfolding waiting
  push_all-header init ps calls b q e some_left =
      (push_all-waiting init ps [] b e some_left, push-whole calls (joined ps) b q e)
