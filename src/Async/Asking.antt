-- ===== src/Async/Asking.antt =====
-- js_fs_async of src/api/fs_async.cpp: the gate is asked for every path before the pool sees the call.
use brokit.Prelude.{
  ℕ, ◌≡◌, ◌⊎◌, true, false, List, ◌∷◌, ◌++◌, Option, none, some, Bytes, codes, is_empty, All,
}
use brokit.Prelude.Table.{lookup, put}
use brokit.Async.{
  FsAccess, FsOp, read_file, fstat, fsync, fdatasync, futimes, op_names, named, asks, first_refusal,
}
use brokit.Async.Pool.{Pool, submit}
use brokit.FsFd.{OpenFile, Fds}
use brokit.FsFd.Calls.{flush_fd}

-- What a call comes to: a TypeError or a RangeError, a rejected promise with the refusal and its absolute
-- path, or a promise that waits, by its id.
pub data Called : Type 0 where
  throws range_throws : Bytes → Called
  rejects : (refusal path : Bytes) → Called
  promises : (id : ℕ) → Called

-- A member of the options of readFile: undefined or null; NaN, below zero or an object; else its number,
-- saturated.
pub data Amount : Type 0 where
  not_given not_valid : Amount
  amount : ℕ → Amount

-- What js_fs_async reads of its arguments: the two paths as resolveFsPathOnThread resolves them, the
-- descriptor, and the options of readFile.
pub record Args : Type 0 where
  pub first : Bytes
  pub second : Bytes
  pub fd : ℕ
  pub offset : Amount
  pub length : Amount

unfoldable pub range_error : FsOp → Args → Option Bytes
range_error read_file a = elim a.offset [
  | not_valid ↦ some (codes "readFile: offset must be >= 0")
  | _ ↦ elim a.length [ not_valid ↦ some (codes "readFile: length must be >= 0") | _ ↦ none ]
]
range_error _ a = none

-- flushFdForSync
unfoldable pub flush_for_sync : (fd : ℕ) → Option OpenFile → Fds → Fds
flush_for_sync fd none f = f
flush_for_sync fd (some file) f = record f { fds = put fd (flush_fd file) f.fds }

-- What the call itself does to the descriptors: an operation that goes by the path of one flushes it first.
unfoldable pub flush_before : FsOp → (fd : ℕ) → Fds → Fds
flush_before fstat fd f = flush_for_sync fd (lookup fd f.fds) f
flush_before fsync fd f = flush_for_sync fd (lookup fd f.fds) f
flush_before fdatasync fd f = flush_for_sync fd (lookup fd f.fds) f
flush_before futimes fd f = flush_for_sync fd (lookup fd f.fds) f
flush_before _ fd f = f

-- The pool and the descriptors.
abbrev pub FsState : Type 0
FsState = Pool × Fds

-- What the gate says of a path; nothing, if it grants the access.
module _ (gate : Bytes → FsAccess → Bytes) (absolute : Bytes → Bytes) where
  unfoldable pub decide : (t : ℕ) → Fds → FsState → Option (Bytes × Bytes) → FsState × Called
  decide t flushed (s, f) none = ((submit t s, flushed), promises (s.pending t).next)
  decide t flushed (s, f) (some (refusal, path)) = ((s, flushed), rejects refusal (absolute path))

  unfoldable pub in_range : (t : ℕ) → FsOp → Args → FsState → Option Bytes → FsState × Called
  in_range t how a s (some text) = (s, range_throws text)
  in_range t how a s none =
      decide t (flush_before how a.fd s.1) s (first_refusal gate (asks how a.first a.second))

  unfoldable pub dispatch : (t : ℕ) (op : Bytes) → Args → FsState → Option FsOp → FsState × Called
  dispatch t op a s none = (s, throws (codes "fs: no asynchronous '" ++ (op ++ codes "'")))
  dispatch t op a s (some how) = in_range t how a s (range_error how a)

  -- js_fs_async
  unfoldable pub call : (t : ℕ) (op : Bytes) → Args → FsState → FsState × Called
  call t op a s = dispatch t op a s (named op op_names)

  abbrev pub IsGranted : Bytes × FsAccess → Type 0
  IsGranted (path, how) = is_empty (gate path how) ≡ true

  -- The first of the questions that the gate refuses, with its answer and its path.
  abbrev pub IsFirst : List (Bytes × FsAccess) → Bytes × Bytes → Type 0
  IsFirst questions (refusal, path) =
      (before : List (Bytes × FsAccess)) × (how : FsAccess) × (after : List (Bytes × FsAccess))
      × (questions ≡ before ++ ((path, how) ∷ after))
      × All IsGranted before
      × (gate path how ≡ refusal)
      × (is_empty refusal ≡ false)

  -- The ways a known operation with good options goes on.
  abbrev pub Decided : (t : ℕ) → FsOp → Args → FsState → FsState × Called → Type 0
  Decided t how a (s, f) r =
      (All IsGranted (asks how a.first a.second)
        × (r ≡ ((submit t s, flush_before how a.fd f), promises (s.pending t).next)))
      ⊎ ((x : Bytes × Bytes) × IsFirst (asks how a.first a.second) x
          × (r ≡ ((s, f), rejects x.0 (absolute x.1))))

  abbrev pub Outcome : (t : ℕ) (op : Bytes) → Args → FsState → FsState × Called → Type 0
  Outcome t op a s r =
      ((named op op_names ≡ none)
        × (r ≡ (s, throws (codes "fs: no asynchronous '" ++ (op ++ codes "'")))))
      ⊎ ((how : FsOp) × (named op op_names ≡ some how)
          × (((text : Bytes) × (range_error how a ≡ some text) × (r ≡ (s, range_throws text)))
              ⊎ ((range_error how a ≡ none) × Decided t how a s r)))
