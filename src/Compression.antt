-- ===== src/Compression.antt =====
-- src/api/compression.cpp: the codecs of CompressionStream and DecompressionStream. miniz is a library: what its
-- calls answer is an argument, and so is its crc32.
pub mod Natives
pub mod Header
pub mod Prefix
pub mod Waiting
pub mod Framing
pub mod Phases
pub mod Integrity
mod Tests
use brokit.Prelude.{
  ℕ, ◌+◌, ◌-◌, ◌*◌, ◌/◌, ◌%◌, ◌^◌, Bool, true, false, ◌||◌, ◌&&◌, List, [], ◌∷◌, ◌++◌, Option, none,
  some, Bytes, codes, is_empty, length, get_or, drop, ltb, leb, not, ◌==◌, if◌then◌else◌,
}
use brokit.Async.{same_text}

pub data Format : Type 0 where
  gzip zlib raw : Format

-- CodecState, but for the mz_stream: strm_live says whether it is initialised.
pub record CodecState : Type 0 where
  pub compress : Bool
  pub format : Format
  pub strm_live : Bool
  pub finished : Bool
  pub closed : Bool
  pub crc_in : ℕ
  pub total_in : ℕ
  pub wrote_gzip_header : Bool
  pub hdr : Bytes
  pub header_done : Bool
  pub crc_out : ℕ
  pub total_out : ℕ
  pub trailer : Bytes

abbrev pub new_codec : (compress : Bool) → Format → CodecState
new_codec compress format = record {
  compress = compress;
  format = format;
  strm_live = false;
  finished = false;
  closed = false;
  crc_in = 0;
  total_in = 0;
  wrote_gzip_header = false;
  hdr = [];
  header_done = false;
  crc_out = 0;
  total_out = 0;
  trailer = [];
}

abbrev pub is_gzip : Format → Bool
is_gzip gzip = true
is_gzip zlib = false
is_gzip raw = false

-- What mz_deflate and mz_inflate return: MZ_OK, MZ_STREAM_END, MZ_BUF_ERROR, or another code.
pub data Rc : Type 0 where
  ok stream_end buf_error failed : Rc

-- One call: what it returns, how many bytes of the input it used, and what it wrote.
pub record MinizCall : Type 0 where
  pub rc : Rc
  pub used : ℕ
  pub written : Bytes

-- avail_out > 0 behind a call.
unfoldable pub has_room : Bytes → Bool
has_room written = ltb (length written) 16384

unfoldable pub after_deflate : Rc → (room : Bool) → Bytes → Bool × Bytes → Bool × Bytes
after_deflate ok room out rest = if room then (true, out) else rest
after_deflate stream_end room out rest = (true, out)
after_deflate buf_error room out rest = if room then (true, out) else rest
after_deflate failed room out rest = (false, out)

-- pumpDeflate: whether it succeeds, and `out` behind it. miniz makes no more progress when the calls are used up.
unfoldable pub pump_deflate : List MinizCall → (out : Bytes) → Bool × Bytes
pump_deflate [] out = (true, out)
pump_deflate (c ∷ cs) out =
    after_deflate c.rc (has_room c.written) (out ++ c.written) (pump_deflate cs (out ++ c.written))

-- What pumpInflate leaves: what it returns, streamEnd, the input it did not use, `out` and the codec.
pub record Pumped : Type 0 where
  pub fine : Bool
  pub stream_end : Bool
  pub avail_in : Bytes
  pub out : Bytes
  pub codec : CodecState

-- The update of crcOut and totalOut.
unfoldable pub count_out : (crc32 : ℕ → Bytes → ℕ) → Bytes → CodecState → CodecState
count_out crc32 written st = if is_empty written then st else record st {
  crc_out = if is_gzip st.format then crc32 st.crc_out written else st.crc_out;
  total_out = st.total_out + length written;
}

-- Behind a call: `idle` if it wrote nothing, `done` if it had room and the input is used up.
unfoldable pub after_inflate : Rc → (room idle done : Bool) → (now rest : Pumped) → Pumped
after_inflate ok room idle done now rest = if room && done then now else rest
after_inflate stream_end room idle done now rest = record now { stream_end = true }
after_inflate buf_error room idle done now rest = if room && (done || idle) then now else rest
after_inflate failed room idle done now rest = record now { fine = false }

-- pumpInflate
unfoldable pub pump_inflate :
    (crc32 : ℕ → Bytes → ℕ) → List MinizCall → (avail_in out : Bytes) → CodecState → Pumped
pump_inflate crc32 [] avail_in out st = record {
  fine = true;
  stream_end = false;
  avail_in = avail_in;
  out = out;
  codec = st;
}
pump_inflate crc32 (c ∷ cs) avail_in out st =
    let left = drop c.used avail_in in
    let st' = count_out crc32 c.written st in
    let now : Pumped = record {
      fine = true;
      stream_end = false;
      avail_in = left;
      out = out ++ c.written;
      codec = st';
    } in
    after_inflate c.rc (has_room c.written) (is_empty c.written) (is_empty left) now
      (pump_inflate crc32 cs left (out ++ c.written) st')

-- The flag of a bit of FLG.
unfoldable pub has_flag : (flg mask : ℕ) → Bool
has_flag flg mask = flg / mask % 2 == 1

-- What is behind FEXTRA: a size, as the `|` of two bytes, and as many bytes.
unfoldable pub behind_extra : Bytes → Option Bytes
behind_extra [] = none
behind_extra (lo ∷ []) = none
behind_extra (lo ∷ hi ∷ q) =
    let xlen = lo + hi * 256 in if leb xlen (length q) then some (drop xlen q) else none

-- What is behind FNAME or FCOMMENT: it ends in a zero.
unfoldable pub behind_text : Bytes → Option Bytes
behind_text [] = none
behind_text (c ∷ q) = let rest = behind_text q in if c == 0 then some q else rest

-- What is behind FHCRC.
unfoldable pub behind_crc : Bytes → Option Bytes
behind_crc [] = none
behind_crc (a ∷ []) = none
behind_crc (a ∷ b ∷ q) = some q

-- A part that is there if its flag is set.
unfoldable pub behind_part : Bool → (Bytes → Option Bytes) → Option Bytes → Option Bytes
behind_part flag behind none = none
behind_part flag behind (some q) = if flag then behind q else some q

-- The first three bytes of a header.
unfoldable pub has_magic : Bytes → Bool
has_magic p = get_or p 0 0 == 31 && get_or p 1 0 == 139 && get_or p 2 0 == 8

unfoldable pub behind_parts : (flg : ℕ) → Bytes → Option Bytes
behind_parts flg q =
    let extra = behind_part (has_flag flg 4) behind_extra (some q) in
    let name = behind_part (has_flag flg 8) behind_text extra in
    let comment = behind_part (has_flag flg 16) behind_text name in
    behind_part (has_flag flg 2) behind_crc comment

-- What is behind the header; none where it is not complete or not one.
unfoldable pub behind_header : Bytes → Option Bytes
behind_header p =
    if ltb (length p) 10
    then none
    else if has_magic p
    then behind_parts (get_or p 3 0) (drop 10 p)
    else none

unfoldable pub size_before : Bytes → Option Bytes → ℕ
size_before p none = 0
size_before p (some q) = length p - length q

-- parseGzipHeader: the size of the header, 0 if it is not complete or not one.
unfoldable pub parse_gzip_header : Bytes → ℕ
parse_gzip_header p = size_before p (behind_header p)

-- What a native gives: a TypeError, or a Uint8Array.
pub data Chunked : Type 0 where
  type_error : Bytes → Chunked
  bytes : Bytes → Chunked

-- kGzHdr
abbrev pub gzip_header : Bytes
gzip_header = 31 ∷ 139 ∷ 8 ∷ 0 ∷ 0 ∷ 0 ∷ 0 ∷ 0 ∷ 0 ∷ 3 ∷ []

-- A uint32_t, its low byte first.
unfoldable pub little_endian : ℕ → Bytes
little_endian n = n % 256 ∷ n / 256 % 256 ∷ n / 65536 % 256 ∷ n / 16777216 % 256 ∷ []

-- The trailer that codecFinish writes.
unfoldable pub trailer_of : (crc total : ℕ) → Bytes
trailer_of crc total = little_endian (crc % 2 ^ 32) ++ little_endian (total % 2 ^ 32)

-- Four bytes of the trailer that codecFinish reads; the `|` of bytes in their places is a sum.
unfoldable pub word_at : Bytes → (at : ℕ) → ℕ
word_at t at =
    get_or t at 0
    + get_or t (at + 1) 0 * 256
    + get_or t (at + 2) 0 * 65536
    + get_or t (at + 3) 0 * 16777216
