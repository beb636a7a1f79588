-- ===== src/Compression/Natives.antt =====
-- The natives of src/api/compression.cpp on a codec.
use brokit.Prelude.{
  ℕ, ◌+◌, ◌%◌, ◌^◌, Bool, true, false, not, ◌&&◌, List, [], ◌++◌, Option, none, some, Bytes, codes,
  is_empty, length, get_or, drop, ltb, leb, ◌==◌, if◌then◌else◌, ◌⊎◌, inl, inr,
}
use brokit.Async.{same_text}
use brokit.Compression.{
  gzip, zlib, raw, CodecState, new_codec, is_gzip, MinizCall, pump_deflate, Pumped, pump_inflate,
  parse_gzip_header, Chunked, type_error, bytes, gzip_header, trailer_of, word_at,
}

-- The start of codecPush and codecFinish on a compressor: the header of gzip, once.
unfoldable pub header_once : CodecState → CodecState × Bytes
header_once st =
    if is_gzip st.format && not st.wrote_gzip_header
    then (record st { wrote_gzip_header = true }, gzip_header)
    else (st, [])

unfoldable pub start_stream : CodecState → CodecState
start_stream st = record st { strm_live = true }

unfoldable pub push_plain :
    (crc32 : ℕ → Bytes → ℕ) → List MinizCall → Bytes → CodecState → CodecState × Chunked
push_plain crc32 calls chunk st =
    let (st', out) = header_once (start_stream st) in
    let (fine, out') = pump_deflate calls out in
    let counted = record st' {
      crc_in = crc32 st'.crc_in chunk;
      total_in = st'.total_in + length chunk;
    } in
    if is_empty chunk
    then (st', bytes out)
    else (counted, if fine then bytes out' else type_error (codes "deflate failed"))

-- Behind pumpInflate: what is left of the input is the trailer of gzip.
unfoldable pub ended : Pumped → CodecState × Chunked
ended p =
    let st = p.codec in
    let over = record st { finished = true } in
    if not p.fine
    then (st, type_error (codes "inflate failed"))
    else if not p.stream_end
    then (st, bytes p.out)
    else if is_gzip st.format
    then (record over { trailer = st.trailer ++ p.avail_in }, bytes p.out)
    else if is_empty p.avail_in
    then (over, bytes p.out)
    else (over, type_error (codes "unexpected trailing bytes after stream"))

unfoldable pub inflate_some :
    (crc32 : ℕ → Bytes → ℕ) → List MinizCall → Bytes → CodecState → CodecState × Chunked
inflate_some crc32 calls input st =
    if is_empty input then (st, bytes []) else ended (pump_inflate crc32 calls input [] st)

unfoldable pub push_finished : Bytes → CodecState → CodecState × Chunked
push_finished chunk st =
    if is_gzip st.format
    then (record st { trailer = st.trailer ++ chunk }, bytes [])
    else if is_empty chunk
    then (st, bytes [])
    else (st, type_error (codes "unexpected data after end of stream"))

-- The initialisation of the stream, unless it was done; false is what initDeflate or initInflate answers.
unfoldable pub cannot_start : (init : Bool) → CodecState → Bool
cannot_start init st = not st.strm_live && not init

unfoldable pub push_header :
    (crc32 : ℕ → Bytes → ℕ) (init : Bool) → List MinizCall → CodecState → CodecState × Chunked
push_header crc32 init calls st =
    let size = parse_gzip_header st.hdr in
    let done = record st { header_done = true } in
    if size == 0
    then (
      st,
      if leb 2 (length st.hdr) && not (get_or st.hdr 0 0 == 31 && get_or st.hdr 1 0 == 139)
          then type_error (codes "not a gzip stream (bad magic)")
          else bytes [],
    )
    else if cannot_start init st
    then (done, type_error (codes "failed to initialize decompressor"))
    else inflate_some crc32 calls (drop size st.hdr) (start_stream done)

unfoldable pub push_coded :
    (crc32 : ℕ → Bytes → ℕ) (init : Bool)
    → List MinizCall
    → Bytes
    → CodecState
    → CodecState × Chunked
push_coded crc32 init calls chunk st =
    if st.finished
    then push_finished chunk st
    else if is_gzip st.format && not st.header_done
    then push_header crc32 init calls (record st { hdr = st.hdr ++ chunk })
    else if cannot_start init st
    then (st, type_error (codes "failed to initialize decompressor"))
    else inflate_some crc32 calls chunk (start_stream st)

-- What push is given: nothing, a value without bytes, or the bytes of a typed array.
pub data Chunk : Type 0 where
  missing no_bytes : Chunk
  chunk : Bytes → Chunk

unfoldable pub push_chunk :
    (crc32 : ℕ → Bytes → ℕ) (init : Bool)
    → List MinizCall
    → Chunk
    → CodecState
    → CodecState × Chunked
push_chunk crc32 init calls missing st = (st, type_error (codes "push() expects a chunk"))
push_chunk crc32 init calls no_bytes st = (st, type_error (codes "push() expects a TypedArray"))
push_chunk crc32 init calls (chunk input) st =
    if not st.compress
    then push_coded crc32 init calls input st
    else if cannot_start init st
    then (st, type_error (codes "failed to initialize compressor"))
    else push_plain crc32 calls input st

-- codecPush: `init` is whether miniz initialises its stream, `calls` what it answers.
unfoldable pub codec_push :
    (crc32 : ℕ → Bytes → ℕ) (init : Bool)
    → List MinizCall
    → Chunk
    → CodecState
    → CodecState × Chunked
codec_push crc32 init calls given st =
    if st.closed
    then (st, type_error (codes "codec is closed"))
    else push_chunk crc32 init calls given st

unfoldable pub finish_plain : List MinizCall → CodecState → CodecState × Chunked
finish_plain calls st =
    let (st', out) = header_once (start_stream st) in
    let (fine, out') = pump_deflate calls out in
    let foot = if is_gzip st'.format then trailer_of st'.crc_in st'.total_in else [] in
    (st', if fine then bytes (out' ++ foot) else type_error (codes "deflate finish failed"))

-- The checks of a decompressor's end.
unfoldable pub check_trailer : CodecState → Chunked
check_trailer st =
    if ltb (length st.trailer) 8
    then type_error (codes "gzip trailer was truncated")
    else if ltb 8 (length st.trailer)
    then type_error (codes "unexpected trailing bytes after gzip stream")
    else if not (word_at st.trailer 0 == st.crc_out % 2 ^ 32)
    then type_error (codes "gzip crc32 check failed")
    else if not (word_at st.trailer 4 == st.total_out % 2 ^ 32)
    then type_error (codes "gzip size check failed")
    else bytes []

unfoldable pub finish_coded : CodecState → Chunked
finish_coded st =
    if not st.finished
    then type_error (codes "compressed data was truncated")
    else if is_gzip st.format
    then check_trailer st
    else bytes []

-- codecFinish
unfoldable pub codec_finish : (init : Bool) → List MinizCall → CodecState → CodecState × Chunked
codec_finish init calls st =
    let st' = record st { closed = true } in
    if st.closed
    then (st, type_error (codes "codec is already closed"))
    else if not st.compress
    then (st', finish_coded st')
    else if cannot_start init st
    then (st', type_error (codes "failed to initialize compressor"))
    else finish_plain calls st'

unfoldable pub create_as : (compress : Bool) → (fmt : Bytes) → CodecState ⊎ Bytes
create_as compress fmt =
    if same_text fmt (codes "gzip")
    then inl (new_codec compress gzip)
    else if same_text fmt (codes "deflate")
    then inl (new_codec compress zlib)
    else if same_text fmt (codes "deflate-raw")
    then inl (new_codec compress raw)
    else inr (codes "Unsupported compression format: '" ++ (fmt ++ codes "'"))

-- codecCreate: the codec, or the text of the TypeError.
unfoldable pub codec_create : Option (Bytes × Bytes) → CodecState ⊎ Bytes
codec_create none = inr (codes "create(mode, format) expects 2 arguments")
codec_create (some (mode, fmt)) =
    if same_text mode (codes "compress")
    then create_as true fmt
    else if same_text mode (codes "decompress")
    then create_as false fmt
    else inr (codes "unknown codec mode '" ++ (mode ++ codes "'"))
