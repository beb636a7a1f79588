-- ===== src/Async/File.antt =====
-- readFile and writeFile of src/api/fs_async.cpp, on a pool thread.
use brokit.Prelude.{
  ℕ, zero, suc, ◌-◌, ◌^◌, Bool, not, [], ◌++◌, Option, none, some, Bytes, codes, length, take, drop,
  is_empty, leb, ltb, ◌==◌, if◌then◌else◌,
}
use Prim.Native.Nat.{min}

-- FsError
pub record FsError : Type 0 where
  pub code : Bytes
  pub syscall : Bytes
  pub path : Bytes
  pub message : Bytes

-- Result, of the operations on a file's bytes: std::monostate, an error, Bytes, Text.
pub data FileResult : Type 0 where
  nothing : FileResult
  failed : FsError → FileResult
  bytes text : Bytes → FileResult

-- errorOf
unfoldable pub error_of : (code syscall path what : Bytes) → FsError
error_of code syscall path what =
    let msg = code ++ (codes ": " ++ (what ++ (codes ", " ++ syscall))) in
    record {
      code = code;
      syscall = syscall;
      path = path;
      message = if is_empty path then msg else msg ++ (codes " '" ++ (path ++ codes "'"));
    }

-- What the system knows of a file: whether it is a directory, whether it can be opened, the place of
-- its end where seeking finds one, else 0, and what can be read.
pub record File : Type 0 where
  pub is_directory : Bool
  pub opens : Bool
  pub end_pos : ℕ
  pub contents : Bytes

abbrev pub block : ℕ
block = 16384

-- The loop that skips by reading: what is left to skip, and what is left of the stream. Each read
-- gives what it is asked for, or what there is.
unfoldable pub skip_loop : (fuel : ℕ) (rem_skip : ℕ) → Bytes → ℕ × Bytes
skip_loop zero rem_skip stream = (rem_skip, stream)
skip_loop (suc fuel) rem_skip stream =
    let step = min rem_skip block in
    let got = length (take step stream) in
    let rest = skip_loop fuel (rem_skip - got) (drop step stream) in
    if rem_skip == 0
    then (rem_skip, stream)
    else if got == 0
    then (rem_skip, drop step stream)
    else rest

-- The loops that read to the end, or to the length that was asked for, `most` at once.
unfoldable pub fill_loop : (most fuel : ℕ) (rem_read : ℕ) → Bytes → Bytes
fill_loop most zero rem_read stream = []
fill_loop most (suc fuel) rem_read stream =
    let step = min rem_read most in
    let got = take step stream in
    let rest = fill_loop most fuel (rem_read - length got) (drop step stream) in
    if rem_read == 0 then [] else if length got == 0 then [] else got ++ rest

-- Bytes or Text, as asked.
unfoldable pub answer : (as_text : Bool) → Bytes → FileResult
answer as_text out = if as_text then text out else bytes out

abbrev pub chunk : ℕ
chunk = 2 ^ 30

abbrev pub or_all : Option ℕ → ℕ → ℕ
or_all none n = n
or_all (some k) n = k

abbrev pub u32_max : ℕ
u32_max = 2 ^ 32 - 1

abbrev pub u64_max : ℕ
u64_max = 2 ^ 64 - 1

-- The part of readFile for a file whose end is known.
unfoldable pub read_known : (as_text : Bool) → Bytes → (offset : ℕ) → Option ℕ → File → FileResult
read_known as_text path offset wanted f =
    let avail = f.end_pos - offset in
    let to_read = or_all wanted avail in
    let count = min avail to_read in
    if leb f.end_pos offset
    then answer as_text []
    else if count == 0
    then answer as_text []
    else if ltb u32_max count
    then failed (
        error_of (codes "ERR_FS_FILE_TOO_LARGE") (codes "read") path
          (codes "file slice exceeds maximum size"))
    else answer as_text (fill_loop chunk (suc (length f.contents)) count (drop offset f.contents))

-- The part for a file whose end is not known.
unfoldable pub read_stream : (as_text : Bool) (offset : ℕ) → Option ℕ → File → FileResult
read_stream as_text offset wanted f =
    let (rem_skip, stream) = skip_loop offset offset f.contents in
    if ltb 0 rem_skip
    then answer as_text []
    else answer as_text (fill_loop block (suc (length stream)) (or_all wanted u64_max) stream)

-- readFile
unfoldable pub read_file_at :
    (as_text : Bool) → Bytes → (offset wanted : Option ℕ) → File → FileResult
read_file_at as_text path offset wanted f =
    let from = or_all offset 0 in
    if f.is_directory
    then failed
        (error_of (codes "EISDIR") (codes "read") path (codes "illegal operation on a directory"))
    else if not f.opens
    then failed (error_of (codes "ENOENT") (codes "open") path (codes "no such file or directory"))
    else if ltb 0 f.end_pos
    then read_known as_text path from wanted f
    else if or_all wanted 1 == 0
    then answer as_text []
    else read_stream as_text from wanted f

-- writeFile: what the file holds then, with the result. A write that fails has put `count` bytes.
unfoldable pub write_file_at :
    (path out : Bytes) (append opens : Bool) (fails_after : Option ℕ)
    → Option Bytes
    → Option Bytes × FileResult
write_file_at path out append opens fails_after held =
    let kept : Bytes = if append then elim held [ none ↦ [] | some s ↦ s ] else [] in
    if not opens
    then (
      held,
      failed (error_of (codes "ENOENT") (codes "open") path (codes "no such file or directory")),
    )
    else elim fails_after [
      | some count ↦ (
        some (kept ++ take count out),
        failed (error_of (codes "EIO") (codes "write") path (codes "write failed")),
      )
      | none ↦ (some (kept ++ out), nothing)
    ]
