-- ===== src/FsFd/Granted.antt =====
-- What the descriptors of src/api/fs_fd.cpp may do was granted when they were opened.
use brokit.Prelude.{
  ℕ, inl, inr, Bool, not, ◌&&◌, Option, none, some, ℤ, Bytes, codes, is_empty, if_elim,
  Option-cases, arith,
}
use brokit.Prelude.Table.{lookup}
use brokit.Async.{FsAccess}
use brokit.FsFd.{
  OpenFlags, Fds, FdResult, no_fds, refusal_of, find_flags, flag_names, open_with, open_found,
  open_as, open_sync,
}
use brokit.FsFd.Calls.{checked, read_sync, write_sync, close_sync, flush_then, ftruncate_sync}
use brokit.FsFd.Rights.{
  AllGranted, AllGranted-add, AllGranted-read_checked, AllGranted-write_checked,
  AllGranted-close_sync, AllGranted-flush_then, AllGranted-ftruncate_sync,
}

module _ (resolve : Bytes → Bool → Bytes) (gate : Bytes → FsAccess → Bytes)
    (absolute : Bytes → Bytes) (exists opens : Bytes → Bool) where
  -- A call of one of the natives.
  pub data Step : Fds → Fds → Type 0 where
    opened :
        (raw flags : Option Bytes) (s : Fds)
        → Step s (open_sync resolve gate absolute exists opens raw flags s).0
    read :
        (fd : ℕ) (size size_then : Option ℕ) (offset length position : Option ℤ) (positioned : Bool)
        (got : ℕ) (s : Fds)
        → Step s (read_sync fd size size_then offset length position positioned got s).0
    written :
        (fd : ℕ) (size size_then : Option ℕ) (offset length position : Option ℤ) (good : Bool)
        (s : Fds)
        → Step s (write_sync fd size size_then offset length position good s).0
    closed : (fd : Option ℕ) (s : Fds) → Step s (close_sync fd s).0
    flushed :
        (fd : ℕ) (syscall : Bytes) (with_path : Bool) (ok : FdResult) (code : Option ℕ) (s : Fds)
        → Step s (flush_then fd syscall with_path ok code s).0
    truncated :
        (fd : ℕ) (len : Option ℤ) (invalid : ℕ) (resized : Option ℕ) (s : Fds)
        → Step s (ftruncate_sync fd len invalid resized s).0

  pub data Reach : Fds → Type 0 where
    start : Reach no_fds
    step : (s s' : Fds) → Reach s → Step s s' → Reach s'

  AllGranted-open_with :
      (raw : Bytes) (f : OpenFlags) (s : Fds)
      → AllGranted gate s
      → AllGranted gate (open_with resolve gate absolute exists opens raw f s).0
  unfolding open_with
  AllGranted-open_with raw f s h =
      let Kept : Fds × FdResult → Type 0 = λ r. AllGranted gate r.0 in
      let resolved = resolve raw f.for_create in
      if_elim Kept (not (is_empty (refusal_of gate resolved f))) _ _ (λ _. h)
        (λ granted.
          if_elim Kept (f.excl && exists resolved) _ _ (λ _. h)
            (λ _.
              if_elim Kept (f.must_exist && not (exists resolved)) _ _ (λ _. h)
                (λ _.
                  if_elim Kept (not (opens resolved)) _ _ (λ _. h)
                    (λ _. AllGranted-add gate resolved f s (ground (arith, granted)) h))))

  AllGranted-open_as :
      (raw flags : Bytes) (s : Fds)
      → AllGranted gate s
      → AllGranted gate (open_as resolve gate absolute exists opens raw flags s).0
  unfolding open_as open_found
  AllGranted-open_as raw flags s h = elim (Option-cases (find_flags flags flag_names)) [
    | inl unknown ↦ rw unknown h
    | inr (f, found) ↦ rw found (AllGranted-open_with raw f s h)
  ]

  AllGranted-open_sync :
      (raw flags : Option Bytes) (s : Fds)
      → AllGranted gate s
      → AllGranted gate (open_sync resolve gate absolute exists opens raw flags s).0
  unfolding open_sync
  AllGranted-open_sync none flags s h = h
  AllGranted-open_sync (some raw) none s h = AllGranted-open_as raw (codes "r") s h
  AllGranted-open_sync (some raw) (some flags) s h = AllGranted-open_as raw flags s h

  AllGranted-Step : (s s' : Fds) → Step s s' → AllGranted gate s → AllGranted gate s'
  unfolding read_sync write_sync
  AllGranted-Step _ _ (opened raw flags s) = AllGranted-open_sync raw flags s
  AllGranted-Step _ _ (read fd size size_then offset length position positioned got s) =
      AllGranted-read_checked gate fd position positioned got
        (checked (codes "readSync") size size_then offset length) s
  AllGranted-Step _ _ (written fd size size_then offset length position good s) =
      AllGranted-write_checked gate fd position good
        (checked (codes "writeSync") size size_then offset length) s
  AllGranted-Step _ _ (closed fd s) = AllGranted-close_sync gate fd s
  AllGranted-Step _ _ (flushed fd syscall with_path ok code s) =
      AllGranted-flush_then gate fd syscall with_path ok code s
  AllGranted-Step _ _ (truncated fd len invalid resized s) =
      AllGranted-ftruncate_sync gate fd len invalid resized s

  -- However the natives are called, from the start on: a descriptor that is open for reading was granted to be
  -- read under its path, one that is open for writing was granted to be written, and its number is below
  -- the next one, which so is never one that is in use.
  pub Reach-AllGranted : (s : Fds) → Reach s → AllGranted gate s
  unfolding lookup
  Reach-AllGranted _ start fd file found = absurd (cc)
  Reach-AllGranted _ (step s s' before last) fd file found =
      AllGranted-Step s s' last (Reach-AllGranted s before) fd file found
