-- ===== src/FsFd/Order.antt =====
-- The order of what src/api/fs_fd.cpp calls on a stream: a std::fstream must be positioned between a
-- write and a read, and between a read and a write.
use brokit.Prelude.{
  ℕ, ◌≡◌, ◌⊎◌, refl, inl, inr, Bool, true, false, not, List, [], ◌∷◌, ◌++◌, Option, none, some, ℤ,
  pos, negsuc, Bytes, if_elim,
}
use brokit.FsFd.{
  LastOp, no_op, read_op, write_op, StreamOp, clears, flushes, closes, seeks_get, seeks_put,
  seeks_get_to_put, seeks_put_to_get, reads, writes, OpenFile,
}
use brokit.FsFd.Calls.{read_from, seek_to_read, write_to, seek_to_write, flush_fd, truncate_fd}

-- Whether a read or a write is the last that moved the place in the stream.
unfoldable pub mode : List StreamOp → LastOp
mode [] = no_op
mode (clears ∷ ops) = mode ops
mode (flushes ∷ ops) = mode ops
mode (closes ∷ ops) = mode ops
mode (seeks_get n ∷ ops) = no_op
mode (seeks_put n ∷ ops) = no_op
mode (seeks_get_to_put ∷ ops) = no_op
mode (seeks_put_to_get ∷ ops) = no_op
mode (reads o l ∷ ops) = read_op
mode (writes o l ∷ ops) = write_op

-- No read comes right after a write, and no write right after a read.
unfoldable pub Ordered : List StreamOp → Type 0
Ordered [] = Unit
Ordered (clears ∷ ops) = Ordered ops
Ordered (flushes ∷ ops) = Ordered ops
Ordered (closes ∷ ops) = Ordered ops
Ordered (seeks_get n ∷ ops) = Ordered ops
Ordered (seeks_put n ∷ ops) = Ordered ops
Ordered (seeks_get_to_put ∷ ops) = Ordered ops
Ordered (seeks_put_to_get ∷ ops) = Ordered ops
Ordered (reads o l ∷ ops) = (¬ (mode ops ≡ write_op)) × Ordered ops
Ordered (writes o l ∷ ops) = (¬ (mode ops ≡ read_op)) × Ordered ops

-- What happens to a file that was not opened to append, while its writes succeed.
pub data Used : OpenFile → Type 0 where
  opened :
      (path : Bytes) (readable writable : Bool)
      → Used (record {
        ops = [];
        path = path;
        readable = readable;
        writable = writable;
        append = false;
        last_op = no_op;
      })
  read :
      (position : Option ℕ) (offset length : ℕ) (positioned : Bool) (got : ℕ) (file : OpenFile)
      → Used file
      → Used (read_from position offset length positioned got file).0
  written :
      (position : Option ℕ) (offset length : ℕ) (file : OpenFile)
      → Used file
      → Used (write_to position offset length true file).0
  flushed : (file : OpenFile) → Used file → Used (flush_fd file)
  truncated :
      (len : ℤ) (invalid : ℕ) (resized : Option ℕ) (file : OpenFile)
      → Used file
      → Used (truncate_fd len invalid resized file).0

-- lastOp is what the stream was used for last, unless the stream was positioned since.
abbrev Kept : OpenFile → Type 0
Kept file =
    Ordered file.ops
    × (file.append ≡ false)
    × ((mode file.ops ≡ no_op) ⊎ (mode file.ops ≡ file.last_op))

-- A stream that is made ready for a read is not left by a write.
ready_to_read :
    (position : Option ℕ) (last : LastOp) (ops : List StreamOp)
    → Ordered ops
    → (mode ops ≡ no_op) ⊎ (mode ops ≡ last)
    → Ordered (seek_to_read position last ++ (clears ∷ ops))
      × (¬ (mode (seek_to_read position last ++ (clears ∷ ops)) ≡ write_op))
      × ((mode (seek_to_read position last ++ (clears ∷ ops)) ≡ no_op)
          ⊎ (mode (seek_to_read position last ++ (clears ∷ ops)) ≡ last))
unfolding seek_to_read mode Ordered
ready_to_read (some n) last ops h m = (h, λ e. absurd (cc), inl refl)
ready_to_read none no_op ops h m = (h, λ e. elim m [ inl a ↦ absurd (cc) | inr b ↦ absurd (cc) ], m)
ready_to_read none read_op ops h m =
    (h, λ e. elim m [ inl a ↦ absurd (cc) | inr b ↦ absurd (cc) ], m)
ready_to_read none write_op ops h m = (h, λ e. absurd (cc), inl refl)

-- One that is made ready for a write is not left by a read.
ready_to_write :
    (position : Option ℕ) (last : LastOp) (ops : List StreamOp)
    → Ordered ops
    → (mode ops ≡ no_op) ⊎ (mode ops ≡ last)
    → Ordered (seek_to_write false position last ++ (clears ∷ ops))
      × (¬ (mode (seek_to_write false position last ++ (clears ∷ ops)) ≡ read_op))
unfolding seek_to_write mode Ordered
ready_to_write (some n) last ops h m = (h, λ e. absurd (cc))
ready_to_write none no_op ops h m = (h, λ e. elim m [ inl a ↦ absurd (cc) | inr b ↦ absurd (cc) ])
ready_to_write none read_op ops h m = (h, λ e. absurd (cc))
ready_to_write none write_op ops h m =
    (h, λ e. elim m [ inl a ↦ absurd (cc) | inr b ↦ absurd (cc) ])

Kept-read :
    (position : Option ℕ) (offset length : ℕ) (positioned : Bool) (got : ℕ) (file : OpenFile)
    → Kept file
    → Kept (read_from position offset length positioned got file).0
unfolding read_from mode Ordered
Kept-read position offset length positioned got file (ordered, plain, last) =
    let (ready, no_write, still) = ready_to_read position file.last_op file.ops ordered last in
    if_elim (λ (r : OpenFile × Option ℕ). Kept r.0) (not positioned) _ _
      (λ _. (ready, plain, still)) (λ _. ((no_write, ready), plain, inr refl))

Kept-write :
    (position : Option ℕ) (offset length : ℕ) (file : OpenFile)
    → Kept file
    → Kept (write_to position offset length true file).0
unfolding write_to mode Ordered
Kept-write position offset length file (ordered, plain, last) =
    let (ready, no_read) = ready_to_write position file.last_op file.ops ordered last in
    rw plain ((no_read, ready), refl, inr refl)

Kept-flush : (file : OpenFile) → Kept file → Kept (flush_fd file)
unfolding flush_fd mode Ordered
Kept-flush file (ordered, plain, last) =
    let cleared = clears ∷ file.ops in
    if_elim
      (λ (ops : List StreamOp).
        Ordered ops × (file.append ≡ false) × ((mode ops ≡ no_op) ⊎ (mode ops ≡ file.last_op)))
      file.writable (flushes ∷ cleared) cleared (λ _. (ordered, plain, last))
      (λ _. (ordered, plain, last))

Kept-truncate :
    (len : ℤ) (invalid : ℕ) (resized : Option ℕ) (file : OpenFile)
    → Kept file
    → Kept (truncate_fd len invalid resized file).0
unfolding truncate_fd mode Ordered
Kept-truncate (negsuc n) invalid resized file h = h
Kept-truncate (pos n) invalid none file (ordered, plain, last) = (ordered, plain, inl refl)
Kept-truncate (pos n) invalid (some code) file h = h

Used-Kept : (file : OpenFile) → Used file → Kept file
unfolding mode Ordered
Used-Kept _ (opened path readable writable) = (tt, refl, inl refl)
Used-Kept _ (read position offset length positioned got file used) =
    Kept-read position offset length positioned got file (Used-Kept file used)
Used-Kept _ (written position offset length file used) =
    Kept-write position offset length file (Used-Kept file used)
Used-Kept _ (flushed file used) = Kept-flush file (Used-Kept file used)
Used-Kept _ (truncated len invalid resized file used) =
    Kept-truncate len invalid resized file (Used-Kept file used)

-- On a descriptor that was not opened to append and whose writes succeed, whatever readSync, writeSync, ftruncateSync,
-- fsyncSync, futimesSync and fstatSync do: no read of the stream comes right after a write, and no write right
-- after a read, without the stream being positioned in between.
pub Used-Ordered : (file : OpenFile) → Used file → Ordered file.ops
Used-Ordered file used = let (ordered, _, _) = Used-Kept file used in ordered
