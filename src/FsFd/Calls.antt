-- ===== src/FsFd/Calls.antt =====
-- The natives of src/api/fs_fd.cpp that go through a descriptor.
use brokit.Prelude.{
  ℕ, Bool, true, false, not, List, [], ◌∷◌, ◌++◌, Option, none, some, Bytes, codes, if◌then◌else◌,
  ℤ, pos, negsuc, ◌⊎◌, inl, inr,
}
use brokit.Prelude.Table.{lookup, remove, put}
use brokit.FsFd.{
  LastOp, no_op, read_op, write_op, StreamOp, clears, flushes, seeks_get, seeks_put,
  seeks_get_to_put, seeks_put_to_get, reads, writes, OpenFile, Fds, FdResult, type_error,
  range_error, errno, fs_error, number, undefined, window_fits,
}

abbrev pub or_pos : Option ℤ → ℕ → ℤ
or_pos none n = pos n
or_pos (some z) n = z

unfoldable pub at_least_zero : Option ℤ → Option ℕ
at_least_zero none = none
at_least_zero (some (pos n)) = some n
at_least_zero (some (negsuc n)) = none

-- The window in the buffer that a call asks for; `size` is the buffer's, none if it is no typed array.
unfoldable pub window : (size : ℕ) (offset length : Option ℤ) → ℤ × ℤ
window size offset length = (or_pos offset 0, or_pos length size)

unfoldable pub to_nat : ℤ → ℕ
to_nat (pos n) = n
to_nat (negsuc n) = 0

unfoldable pub seek_to_read : Option ℕ → LastOp → List StreamOp
seek_to_read (some position) last = seeks_get position ∷ []
seek_to_read none write_op = seeks_get_to_put ∷ []
seek_to_read none no_op = []
seek_to_read none read_op = []

-- readSync on its file: the file then, and the number of bytes or none if no stream is there to read
-- from. `positioned` and `got` are what the stream answers.
unfoldable pub read_from :
    (position : Option ℕ) (offset length : ℕ) (positioned : Bool) (got : ℕ)
    → OpenFile
    → OpenFile × Option ℕ
read_from position offset length positioned got file =
    let ready = seek_to_read position file.last_op ++ (clears ∷ file.ops) in
    if not positioned
    then (record file { ops = ready }, none)
    else (record file { ops = clears ∷ (reads offset length ∷ ready); last_op = read_op }, some got)

unfoldable pub seek_to_write : (append : Bool) → Option ℕ → LastOp → List StreamOp
seek_to_write true position last = []
seek_to_write false (some position) last = seeks_put position ∷ []
seek_to_write false none read_op = seeks_put_to_get ∷ []
seek_to_write false none no_op = []
seek_to_write false none write_op = []

-- writeSync on its file.
unfoldable pub write_to :
    (position : Option ℕ) (offset length : ℕ) (good : Bool) → OpenFile → OpenFile × Option ℕ
write_to position offset length good file =
    let written =
      writes offset length
      ∷ (seek_to_write file.append position file.last_op ++ (clears ∷ file.ops)) in
    if not good
    then (record file { ops = written }, none)
    else (record file { ops = written; last_op = write_op }, some length)

-- What the file of a descriptor becomes, and what is answered.
unfoldable pub answered :
    (fd : ℕ) (syscall code : Bytes) → OpenFile × Option ℕ → Fds → Fds × FdResult
answered fd syscall code (file, none) s =
    (record s { fds = put fd file s.fds }, errno syscall (some file.path) code)
answered fd syscall code (file, some n) s = (record s { fds = put fd file s.fds }, number n)

unfoldable pub read_open :
    (fd : ℕ) (position : Option ℕ) (offset length : ℕ) (positioned : Bool) (got : ℕ)
    → Option OpenFile
    → Fds
    → Fds × FdResult
read_open fd position offset length positioned got none s =
    (s, errno (codes "read") none (codes "EBADF"))
read_open fd position offset length positioned got (some file) s =
    if not file.readable
    then (s, errno (codes "read") (some file.path) (codes "EBADF"))
    else answered fd (codes "read") (codes "EINVAL")
        (read_from position offset length positioned got file) s

unfoldable pub write_open :
    (fd : ℕ) (position : Option ℕ) (offset length : ℕ) (good : Bool)
    → Option OpenFile
    → Fds
    → Fds × FdResult
write_open fd position offset length good none s = (s, errno (codes "write") none (codes "EBADF"))
write_open fd position offset length good (some file) s =
    if not file.writable
    then (s, errno (codes "write") (some file.path) (codes "EBADF"))
    else answered fd (codes "write") (codes "EIO") (write_to position offset length good file) s

-- Both checks of the buffer, before and after the other arguments are read: script may have changed it.
unfoldable pub checked :
    (name : Bytes) (size size_then : Option ℕ) (offset length : Option ℤ) → FdResult ⊎ (ℕ × ℕ)
checked name none size_then offset length =
    inl (type_error (name ++ codes ": buffer must be a typed array"))
checked name (some size) none offset length =
    let (o, l) = window size offset length in
    inl (
      range_error (
        name
        ++ (if window_fits o l size
            then codes ": buffer changed size during the call"
            else codes ": offset/length out of buffer bounds")))
checked name (some size) (some size_then) offset length =
    let (o, l) = window size offset length in
    if not (window_fits o l size)
    then inl (range_error (name ++ codes ": offset/length out of buffer bounds"))
    else if not (window_fits o l size_then)
    then inl (range_error (name ++ codes ": buffer changed size during the call"))
    else inr (to_nat o, to_nat l)

unfoldable pub read_checked :
    (fd : ℕ) (position : Option ℤ) (positioned : Bool) (got : ℕ)
    → FdResult ⊎ (ℕ × ℕ)
    → Fds
    → Fds × FdResult
read_checked fd position positioned got (inl error) s = (s, error)
read_checked fd position positioned got (inr (o, l)) s =
    read_open fd (at_least_zero position) o l positioned got (lookup fd s.fds) s

-- js_readSync
unfoldable pub read_sync :
    (fd : ℕ) (size size_then : Option ℕ) (offset length position : Option ℤ) (positioned : Bool)
    (got : ℕ)
    → Fds
    → Fds × FdResult
read_sync fd size size_then offset length position positioned got s =
    read_checked fd position positioned got
      (checked (codes "readSync") size size_then offset length) s

unfoldable pub write_checked :
    (fd : ℕ) (position : Option ℤ) (good : Bool) → FdResult ⊎ (ℕ × ℕ) → Fds → Fds × FdResult
write_checked fd position good (inl error) s = (s, error)
write_checked fd position good (inr (o, l)) s =
    write_open fd (at_least_zero position) o l good (lookup fd s.fds) s

-- js_writeSync
unfoldable pub write_sync :
    (fd : ℕ) (size size_then : Option ℕ) (offset length position : Option ℤ) (good : Bool)
    → Fds
    → Fds × FdResult
write_sync fd size size_then offset length position good s =
    write_checked fd position good (checked (codes "writeSync") size size_then offset length) s

unfoldable pub close_found : (fd : ℕ) → Option OpenFile → Fds → Fds × FdResult
close_found fd none s = (s, errno (codes "close") none (codes "EBADF"))
close_found fd (some file) s = (record s { fds = remove fd s.fds }, undefined)

-- js_closeSync; closing the stream is the last that happens to it.
unfoldable pub close_sync : (fd : Option ℕ) → Fds → Fds × FdResult
close_sync none s = (s, undefined)
close_sync (some fd) s = close_found fd (lookup fd s.fds) s

-- flushFdForSync
unfoldable pub flush_fd : OpenFile → OpenFile
flush_fd file =
    let cleared = clears ∷ file.ops in
    record file { ops = clears ∷ (if file.writable then flushes ∷ cleared else cleared) }

-- truncateFd, once the descriptor is found and open for writing; `resized` is what resizing the file says, none
-- for success.
unfoldable pub truncate_fd :
    (len : ℤ) (invalid : ℕ) (resized : Option ℕ) → OpenFile → OpenFile × Option ℕ
truncate_fd (negsuc n) invalid resized file = (file, some invalid)
truncate_fd (pos len) invalid (some code) file =
    (record file { ops = clears ∷ (flushes ∷ (clears ∷ file.ops)) }, some code)
truncate_fd (pos len) invalid none file =
    let flushed = clears ∷ (flushes ∷ (clears ∷ file.ops)) in
    (
      record file {
        ops = clears ∷ (seeks_put 0 ∷ (seeks_get 0 ∷ (clears ∷ flushed)));
        last_op = no_op;
      },
      none,
    )

-- What an error code comes to: none is success.
unfoldable pub unless_failed :
    (syscall : Bytes) (path : Option Bytes) (ok : FdResult) → Option ℕ → FdResult
unless_failed syscall path ok none = ok
unless_failed syscall path ok (some code) = fs_error syscall path code

unfoldable pub flush_found :
    (fd : ℕ) (syscall : Bytes) (with_path : Bool) (ok : FdResult) (code : Option ℕ)
    → Option OpenFile
    → Fds
    → Fds × FdResult
flush_found fd syscall with_path ok code none s = (s, errno syscall none (codes "EBADF"))
flush_found fd syscall with_path ok code (some file) s = (
  record s { fds = put fd (flush_fd file) s.fds },
  unless_failed syscall (if with_path then some file.path else none) ok code,
)

-- The natives that flush and then go by the path: js_fsyncSync, js_futimesSync, and js_fstatSync, whose
-- error has the path. `code` is what the system call on the path says, none for success, and `ok` what is
-- answered then: the fields that fstat found, else undefined.
unfoldable pub flush_then :
    (fd : ℕ) (syscall : Bytes) (with_path : Bool) (ok : FdResult) (code : Option ℕ)
    → Fds
    → Fds × FdResult
flush_then fd syscall with_path ok code s =
    flush_found fd syscall with_path ok code (lookup fd s.fds) s

unfoldable pub ftruncate_found :
    (fd : ℕ) (len : Option ℤ) (invalid : ℕ) (resized : Option ℕ)
    → Option OpenFile
    → Fds
    → Fds × FdResult
ftruncate_found fd len invalid resized none s = (s, errno (codes "ftruncate") none (codes "EBADF"))
ftruncate_found fd len invalid resized (some file) s =
    let (file_then, code) = truncate_fd (or_pos len 0) invalid resized file in
    if not file.writable then (s, errno (codes "ftruncate") none (codes "EBADF")) else (
      record s { fds = put fd file_then s.fds },
      unless_failed (codes "ftruncate") (some file.path) undefined code,
    )

-- js_ftruncateSync
unfoldable pub ftruncate_sync :
    (fd : ℕ) (len : Option ℤ) (invalid : ℕ) (resized : Option ℕ) → Fds → Fds × FdResult
ftruncate_sync fd len invalid resized s = ftruncate_found fd len invalid resized (lookup fd s.fds) s
