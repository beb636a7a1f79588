-- ===== src/Compression/Tests.antt =====
-- Streams through the codecs of src/api/compression.cpp, and the theorems at them.
use brokit.Prelude.{
  ℕ, ◌≡◌, refl, ◌+◌, true, false, List, [], ◌∷◌, ◌++◌, none, some, Bytes, codes, map, length, arith,
  inl,
}
use brokit.Async.{same_text}
use brokit.Compression.{
  gzip, zlib, new_codec, ok, stream_end, MinizCall, type_error, bytes, gzip_header, trailer_of,
}
use brokit.Compression.Natives.{
  codec_push, push_chunk, inflate_some, push_coded, push_header, push_finished, cannot_start,
  start_stream, ended, finish_coded, check_trailer, create_as, chunk, codec_finish, codec_create,
}
use brokit.Compression.Header.{
  GzipHeader, IsText, header_then, flags_of, bit_of, extra_part, text_part, crc_part,
}
use brokit.Compression.Waiting.{waiting, inflating, push_all, joined, push_all-header}
use brokit.Compression.Framing.{
  GoesOn, session, all_bytes, one_more, all_deflated, written_by, session-gzip,
}
use brokit.Compression.Phases.{EndsIn}
use brokit.Compression.Integrity.{session-trailer}
use brokit.Compression.{
  pump_inflate, has_room, size_before, parse_gzip_header, behind_header, has_magic, behind_parts,
  behind_part, has_flag, count_out, after_inflate, word_at,
}

-- A checksum that goes on: the sum.
unfoldable sum_from : ℕ → Bytes → ℕ
sum_from c [] = c
sum_from c (x ∷ xs) = sum_from (c + x) xs

sum_from-append : (c : ℕ) (a b : Bytes) → sum_from (sum_from c a) b ≡ sum_from c (a ++ b)
unfolding sum_from
sum_from-append c [] b = refl
sum_from-append c (x ∷ a) b = sum_from-append (c + x) a b

sum_from-GoesOn : GoesOn sum_from
unfolding sum_from
sum_from-GoesOn = ((λ c. refl), sum_from-append)

abbrev named : GzipHeader
named = record {
  text = false;
  reserved = 0;
  mtime0 = 1;
  mtime1 = 2;
  mtime2 = 3;
  mtime3 = 4;
  xfl = 0;
  os = 3;
  extra = none;
  name = some (7 ∷ []);
  comment = none;
  crc = none;
}

-- The first eleven of the twelve bytes of `named`, in two chunks.
abbrev cut : List (Bytes × List MinizCall)
cut = (31 ∷ [], []) ∷ (139 ∷ 8 ∷ 8 ∷ 1 ∷ 2 ∷ 3 ∷ 4 ∷ 0 ∷ 3 ∷ 7 ∷ [], []) ∷ []

abbrev one_call : MinizCall
one_call = record { rc = stream_end; used = 1; written = codes "hi" }

push_all-header_example :
    (push_all sum_from true cut (new_codec false gzip)
      ≡ (waiting (joined cut), map (λ _. bytes []) cut))
    × (codec_push sum_from true
          (one_call ∷ [])
          (chunk ((0 ∷ []) ++ (9 ∷ [])))
          (waiting (joined cut))
        ≡ inflate_some sum_from (one_call ∷ []) (9 ∷ []) (inflating (header_then named (9 ∷ []))))
unfolding joined header_then flags_of bit_of extra_part text_part crc_part IsText
push_all-header_example =
    push_all-header sum_from named (omega arith, tt) tt true cut (one_call ∷ []) (0 ∷ []) (9 ∷ [])
      refl (λ e. cc)

-- Two chunks of a text, and what miniz answers.
abbrev texts : List (Bytes × List MinizCall)
texts =
    (codes "hi", record { rc = ok; used = 2; written = [] } ∷ [])
    ∷ (codes "!", record { rc = ok; used = 1; written = 5 ∷ [] } ∷ [])
    ∷ []

abbrev last_calls : List MinizCall
last_calls = record { rc = stream_end; used = 0; written = 6 ∷ [] } ∷ []

session-gzip_example :
    session sum_from true texts last_calls (new_codec true gzip)
    ≡ some (
        gzip_header
        ++ (all_deflated texts
            ++ (written_by last_calls
                ++ trailer_of (sum_from 0 (joined texts)) (length (joined texts)))))
session-gzip_example =
    session-gzip sum_from sum_from-GoesOn texts last_calls ((λ e. cc), ((λ e. cc), tt)) (λ e. cc)

-- A stream in two chunks, the second of them the trailer: 209 is the sum of the text.
abbrev stream : List (Bytes × List MinizCall)
stream = (gzip_header ++ 9 ∷ [], one_call ∷ []) ∷ (209 ∷ 0 ∷ 0 ∷ 0 ∷ 2 ∷ 0 ∷ 0 ∷ 0 ∷ [], []) ∷ []

stream_run : session sum_from true stream [] (new_codec false gzip) ≡ some (codes "hi")
unfolding session all_bytes push_all one_more codec_push push_chunk push_coded push_header
    parse_gzip_header size_before behind_header has_magic behind_parts behind_part has_flag
    cannot_start start_stream inflate_some pump_inflate after_inflate count_out has_room ended
    push_finished codec_finish finish_coded check_trailer word_at sum_from
stream_run = refl

session-trailer_example :
    EndsIn (joined stream) (trailer_of (sum_from 0 (codes "hi")) (length (codes "hi")))
unfolding joined
session-trailer_example =
    session-trailer sum_from sum_from-GoesOn true stream [] (codes "hi") (ground arith) stream_run

-- A trailer that lacks a byte.
abbrev short : List (Bytes × List MinizCall)
short = (gzip_header ++ 9 ∷ [], one_call ∷ []) ∷ (209 ∷ 0 ∷ 0 ∷ 0 ∷ 2 ∷ 0 ∷ 0 ∷ [], []) ∷ []

short_run :
    (codec_finish true [] (push_all sum_from true short (new_codec false gzip)).0).1
    ≡ type_error (codes "gzip trailer was truncated")
unfolding push_all codec_push push_chunk push_coded push_header parse_gzip_header size_before
    behind_header has_magic behind_parts behind_part has_flag cannot_start start_stream inflate_some
    pump_inflate after_inflate count_out has_room ended push_finished codec_finish finish_coded
    check_trailer word_at sum_from
short_run = refl

closed_codec :
    codec_push sum_from true [] (chunk []) (record (new_codec true zlib) { closed = true })
    ≡ (record (new_codec true zlib) { closed = true }, type_error (codes "codec is closed"))
unfolding codec_push
closed_codec = refl

created : codec_create (some (codes "decompress", codes "deflate")) ≡ inl (new_codec false zlib)
unfolding codec_create create_as same_text
created = refl
