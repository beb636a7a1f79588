-- ===== src/Async.antt =====
-- src/api/fs_async.cpp: the asynchronous file operations. A call asks the access gate on the JS
-- thread, queues a job for the pool, and its promise is settled by a later tick of its thread.
pub mod File
pub mod Reading
pub mod Pool
pub mod Tally
pub mod Settling
pub mod Draining
pub mod Asking
mod Tests
use brokit.Prelude.{
  ℕ, Bool, true, false, ◌&&◌, ◌||◌, List, [], ◌∷◌, ◌++◌, Option, none, some, Bytes, codes, is_empty,
  ◌==◌, if◌then◌else◌,
}

pub data FsAccess : Type 0 where
  read_access write_access : FsAccess

pub data FsOp : Type 0 where
  read_file write_file append_file stat lstat fstat readdir mkdir rm rmdir unlink : FsOp
  rename copy_file realpath access fsync fdatasync utimes lutimes futimes : FsOp
  truncate ftruncate symlink mkdtemp : FsOp

unfoldable pub same_text : Bytes → Bytes → Bool
same_text [] [] = true
same_text (a ∷ s) (b ∷ t) = a == b && same_text s t
same_text _ _ = false

-- The names by which js_fs_async tells the operations apart, in its order.
abbrev pub op_names : List (Bytes × FsOp)
op_names =
    (codes "readFile", read_file)
    ∷ (codes "writeFile", write_file)
    ∷ (codes "appendFile", append_file)
    ∷ (codes "stat", stat)
    ∷ (codes "lstat", lstat)
    ∷ (codes "fstat", fstat)
    ∷ (codes "readdir", readdir)
    ∷ (codes "mkdir", mkdir)
    ∷ (codes "rm", rm)
    ∷ (codes "rmdir", rmdir)
    ∷ (codes "unlink", unlink)
    ∷ (codes "rename", rename)
    ∷ (codes "copyFile", copy_file)
    ∷ (codes "realpath", realpath)
    ∷ (codes "access", access)
    ∷ (codes "fsync", fsync)
    ∷ (codes "fdatasync", fdatasync)
    ∷ (codes "utimes", utimes)
    ∷ (codes "lutimes", lutimes)
    ∷ (codes "futimes", futimes)
    ∷ (codes "truncate", truncate)
    ∷ (codes "ftruncate", ftruncate)
    ∷ (codes "symlink", symlink)
    ∷ (codes "mkdtemp", mkdtemp)
    ∷ []

unfoldable pub named : Bytes → List (Bytes × FsOp) → Option FsOp
named name [] = none
named name ((n, op) ∷ ops) = if same_text name n then some op else named name ops

-- What js_fs_async asks the gate for, in its order: `p` and `q` are its first and second path, as
-- resolveFsPathOnThread resolves them. What goes through a descriptor was asked for by openSync.
unfoldable pub asks : FsOp → (p q : Bytes) → List (Bytes × FsAccess)
asks read_file p q = (p, read_access) ∷ []
asks write_file p q = (p, write_access) ∷ []
asks append_file p q = (p, write_access) ∷ []
asks stat p q = (p, read_access) ∷ []
asks lstat p q = (p, read_access) ∷ []
asks fstat p q = []
asks readdir p q = (p, read_access) ∷ []
asks mkdir p q = (p, write_access) ∷ []
asks rm p q = (p, write_access) ∷ []
asks rmdir p q = (p, write_access) ∷ []
asks unlink p q = (p, write_access) ∷ []
asks rename p q = (p, write_access) ∷ (q, write_access) ∷ []
asks copy_file p q = (p, read_access) ∷ (q, write_access) ∷ []
asks realpath p q = (p, read_access) ∷ []
asks access p q = (p, read_access) ∷ []
asks fsync p q = []
asks fdatasync p q = []
asks utimes p q = (p, write_access) ∷ []
asks lutimes p q = (p, write_access) ∷ []
asks futimes p q = []
asks truncate p q = (p, write_access) ∷ []
asks ftruncate p q = []
asks symlink p q = (q, write_access) ∷ []
asks mkdtemp p q = (p ++ codes "XXXXXX", write_access) ∷ []

-- `ask` for each in turn: the first refusal wins, with its path.
unfoldable pub first_refusal :
    (gate : Bytes → FsAccess → Bytes) → List (Bytes × FsAccess) → Option (Bytes × Bytes)
first_refusal gate [] = none
first_refusal gate ((path, how) ∷ more) =
    let rest = first_refusal gate more in
    let refusal = gate path how in if is_empty refusal then rest else some (refusal, path)
