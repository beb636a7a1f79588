-- ===== src/FsFd.antt =====
-- src/api/fs_fd.cpp: file descriptors. Each is a std::fstream with what it was opened for; the streams
-- are known by the operations that are called on them.
pub mod Calls
pub mod Window
pub mod Rights
pub mod Granted
pub mod Order
mod Tests
use brokit.Prelude.{
  ℕ, suc, ◌-◌, Bool, true, false, not, ◌&&◌, List, [], ◌∷◌, ◌++◌, Option, none, some, Bytes, codes,
  is_empty, leb, ◌==◌, if◌then◌else◌, ℤ, pos, negsuc,
}
use brokit.Prelude.Table.{lookup, remove, put}
use brokit.Async.{FsAccess, read_access, write_access, same_text}

-- OpenFile::Op
pub data LastOp : Type 0 where
  no_op read_op write_op : LastOp

-- What is called on a stream; reads and writes are from an offset in the buffer, of a length.
pub data StreamOp : Type 0 where
  clears flushes closes : StreamOp
  seeks_get seeks_put : ℕ → StreamOp
  seeks_get_to_put seeks_put_to_get : StreamOp
  reads writes : (offset length : ℕ) → StreamOp

-- OpenFile; `ops` are the stream's, the last one first.
pub record OpenFile : Type 0 where
  pub ops : List StreamOp
  pub path : Bytes
  pub readable : Bool
  pub writable : Bool
  pub append : Bool
  pub last_op : LastOp

-- g_fds and g_nextFd
pub record Fds : Type 0 where
  pub fds : List (ℕ × OpenFile)
  pub next_fd : ℕ

abbrev pub no_fds : Fds
no_fds = record { fds = []; next_fd = 3 }

-- What a native gives: an error that it throws, a number, or undefined.
pub data FdResult : Type 0 where
  type_error range_error : Bytes → FdResult
  errno : (syscall : Bytes) (path : Option Bytes) (code : Bytes) → FdResult
  fs_error : (syscall : Bytes) (path : Option Bytes) (code : ℕ) → FdResult
  denied : (refusal path : Bytes) → FdResult
  number : ℕ → FdResult
  undefined : FdResult

-- windowFits
unfoldable pub window_fits : (offset length : ℤ) (byte_length : ℕ) → Bool
window_fits (pos offset) (pos length) cap = leb offset cap && leb length (cap - offset)
window_fits (pos offset) (negsuc l) cap = false
window_fits (negsuc o) length cap = false

-- What the flags of openSync say.
pub record OpenFlags : Type 0 where
  pub readable : Bool
  pub writable : Bool
  pub append : Bool
  pub truncates : Bool
  pub for_create : Bool
  pub excl : Bool
  pub must_exist : Bool

abbrev pub reading : OpenFlags
reading = record {
  readable = true;
  writable = false;
  append = false;
  truncates = false;
  for_create = false;
  excl = false;
  must_exist = false;
}

abbrev pub updating : OpenFlags
updating = record reading { writable = true; must_exist = true }

abbrev pub writing : (readable excl : Bool) → OpenFlags
writing readable excl = record {
  readable = readable;
  writable = true;
  append = false;
  truncates = true;
  for_create = true;
  excl = excl;
  must_exist = false;
}

abbrev pub appending : (readable excl : Bool) → OpenFlags
appending readable excl = record (writing readable excl) { append = true; truncates = false }

abbrev pub flag_names : List (Bytes × OpenFlags)
flag_names =
    (codes "r", reading)
    ∷ (codes "rs", reading)
    ∷ (codes "r+", updating)
    ∷ (codes "rs+", updating)
    ∷ (codes "w", writing false false)
    ∷ (codes "wx", writing false true)
    ∷ (codes "w+", writing true false)
    ∷ (codes "wx+", writing true true)
    ∷ (codes "a", appending false false)
    ∷ (codes "ax", appending false true)
    ∷ (codes "a+", appending true false)
    ∷ (codes "ax+", appending true true)
    ∷ []

unfoldable pub find_flags : Bytes → List (Bytes × OpenFlags) → Option OpenFlags
find_flags flags [] = none
find_flags flags ((name, found) ∷ more) =
    let rest = find_flags flags more in if same_text flags name then some found else rest

-- What the gate says of opening a file: the first refusal, to read and then to write it.
unfoldable pub refusal_of : (gate : Bytes → FsAccess → Bytes) → Bytes → OpenFlags → Bytes
refusal_of gate resolved f =
    let no_read = if f.readable then gate resolved read_access else [] in
    let no_write = if f.writable then gate resolved write_access else [] in
    if not (is_empty no_read) then no_read else no_write

-- The end of openSync: the descriptor is added.
unfoldable pub add_fd : Bytes → OpenFlags → Fds → Fds × FdResult
add_fd resolved f s =
    let file : OpenFile = record {
      ops = [];
      path = resolved;
      readable = f.readable;
      writable = f.writable;
      append = f.append;
      last_op = no_op;
    } in
    (record { fds = put s.next_fd file s.fds; next_fd = suc s.next_fd }, number s.next_fd)

-- What openSync relies on: resolveFsPathOnThread, the gate, absoluteFsPath, and what the file system says of a
-- path, that it exists and that a stream opens it.
module _ (resolve : Bytes → Bool → Bytes) (gate : Bytes → FsAccess → Bytes)
    (absolute : Bytes → Bytes) (exists opens : Bytes → Bool) where
  unfoldable pub open_with : (raw : Bytes) → OpenFlags → Fds → Fds × FdResult
  open_with raw f s =
      let resolved = resolve raw f.for_create in
      let refusal = refusal_of gate resolved f in
      let enoent = errno (codes "open") (some resolved) (codes "ENOENT") in
      if not (is_empty refusal)
      then (s, denied refusal (absolute resolved))
      else if f.excl && exists resolved
      then (s, errno (codes "open") (some resolved) (codes "EEXIST"))
      else if f.must_exist && not (exists resolved)
      then (s, enoent)
      else if not (opens resolved)
      then (s, enoent)
      else add_fd resolved f s

  unfoldable pub open_found : (raw flags : Bytes) → Option OpenFlags → Fds → Fds × FdResult
  open_found raw flags none s =
      (s, type_error (codes "openSync: unsupported flags '" ++ (flags ++ codes "'")))
  open_found raw flags (some f) s = open_with raw f s

  unfoldable pub open_as : (raw flags : Bytes) → Fds → Fds × FdResult
  open_as raw flags s = open_found raw flags (find_flags flags flag_names) s

  -- js_openSync: the path and the flags, as far as they were given.
  unfoldable pub open_sync : (raw flags : Option Bytes) → Fds → Fds × FdResult
  open_sync none flags s = (s, type_error (codes "openSync: path required"))
  open_sync (some raw) none s = open_as raw (codes "r") s
  open_sync (some raw) (some flags) s = open_as raw flags s
