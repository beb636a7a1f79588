-- ===== src/FsFd/Rights.antt =====
-- The operations on the descriptors of src/api/fs_fd.cpp keep what was granted for them.
use brokit.Prelude.{
  ℕ, ◌<◌, ◌≡◌, ◌⊎◌, refl, sym, ◌∙◌, ap, inl, inr, Bool, true, false, not, [], Option, none, some, ℤ,
  pos, negsuc, Bytes, codes, ◌==◌, is_empty, if◌then◌else◌, if_elim, Bool-cases, Option-cases,
  arith,
}
use brokit.Prelude.Table.{lookup, remove, put, lookup-put, lookup-remove}
use brokit.Async.{FsAccess, read_access, write_access}
use brokit.FsFd.{no_op, OpenFile, OpenFlags, Fds, FdResult, refusal_of, add_fd}
use brokit.FsFd.Calls.{
  read_from, write_to, answered, read_open, write_open, read_checked, write_checked, close_found,
  flush_found, ftruncate_found, close_sync, flush_fd, truncate_fd, flush_then, ftruncate_sync,
  at_least_zero, or_pos,
}

-- The same path, opened for the same.
abbrev SameFile : OpenFile → OpenFile → Type 0
SameFile a b = (a.path ≡ b.path) × (a.readable ≡ b.readable) × (a.writable ≡ b.writable)

module _ (gate : Bytes → FsAccess → Bytes) where
  -- What a file is open for was granted, for its path.
  abbrev pub IsGranted : OpenFile → Type 0
  IsGranted file =
      (file.readable ≡ true → is_empty (gate file.path read_access) ≡ true)
      × (file.writable ≡ true → is_empty (gate file.path write_access) ≡ true)

  -- Every descriptor is granted, and its number is one that was handed out.
  abbrev pub AllGranted : Fds → Type 0
  AllGranted s =
      (fd : ℕ) (file : OpenFile) → lookup fd s.fds ≡ some file → IsGranted file × (fd < s.next_fd)

  IsGranted-SameFile : (a b : OpenFile) → SameFile a b → IsGranted a → IsGranted b
  IsGranted-SameFile a b (p, r, w) (can_read, can_write) = (
    λ h. ap (λ path. is_empty (gate path read_access)) (sym p) ∙ can_read (r ∙ h),
    λ h. ap (λ path. is_empty (gate path write_access)) (sym p) ∙ can_write (w ∙ h),
  )

  AllGranted-put :
      (s : Fds) (fd : ℕ) (file next : OpenFile)
      → lookup fd s.fds ≡ some file
      → SameFile file next
      → AllGranted s
      → AllGranted (record s { fds = put fd next s.fds })
  AllGranted-put s fd file next found same h other file' found' =
      let at_other : (if fd == other then some next else lookup other s.fds) ≡ some file' =
        sym (lookup-put fd other next s.fds) ∙ found' in
      elim (Bool-cases (fd == other)) [
        | inl e ↦
            let mine : some next ≡ some file' = simp e at at_other in
            let next_eq : next ≡ file' = cc in
            let (granted, bound) = h fd file found in
            (rw⁻¹ next_eq (IsGranted-SameFile file next same granted), ground (arith, bound))
        | inr e ↦ h other file' (simp e at at_other)
      ]

  AllGranted-remove :
      (s : Fds) (fd : ℕ) → AllGranted s → AllGranted (record s { fds = remove fd s.fds })
  AllGranted-remove s fd h other file' found' =
      let at_other : (if fd == other then none else lookup other s.fds) ≡ some file' =
        sym (lookup-remove fd other s.fds) ∙ found' in
      elim (Bool-cases (fd == other)) [
        | inl e ↦ let gone : none ≡ some file' = simp e at at_other in absurd (cc)
        | inr e ↦ h other file' (simp e at at_other)
      ]

  granted_by :
      (resolved : Bytes) (f : OpenFlags)
      → is_empty (refusal_of gate resolved f) ≡ true
      → (f.readable ≡ true → is_empty (gate resolved read_access) ≡ true)
        × (f.writable ≡ true → is_empty (gate resolved write_access) ≡ true)
  unfolding refusal_of
  granted_by resolved f granted =
      let no_read = if f.readable then gate resolved read_access else [] in
      (
        λ h. elim (Bool-cases (is_empty (gate resolved read_access))) [
          | inl e ↦ e
          | inr e ↦ let clash : false ≡ true = simp (h, e) at granted in absurd (cc)
        ],
        λ h. elim (Bool-cases (is_empty no_read)) [
          | inl e ↦ simp (e, h) at granted
          | inr e ↦ let clash : false ≡ true = simp e at granted in absurd (cc)
        ],
      )

  pub AllGranted-add :
      (resolved : Bytes) (f : OpenFlags) (s : Fds)
      → is_empty (refusal_of gate resolved f) ≡ true
      → AllGranted s
      → AllGranted (add_fd resolved f s).0
  unfolding add_fd refusal_of
  AllGranted-add resolved f s granted h other file' found' =
      let file : OpenFile = record {
        ops = [];
        path = resolved;
        readable = f.readable;
        writable = f.writable;
        append = f.append;
        last_op = no_op;
      } in
      let at_other : (if s.next_fd == other then some file else lookup other s.fds) ≡ some file' =
        sym (lookup-put s.next_fd other file s.fds) ∙ found' in
      elim (Bool-cases (s.next_fd == other)) [
        | inl e ↦
            let mine : some file ≡ some file' = simp e at at_other in
            let file_eq : file ≡ file' = cc in
            (rw⁻¹ file_eq (granted_by resolved f granted), ground arith)
        | inr e ↦
            let (kept, bound) = h other file' (simp e at at_other) in (kept, omega (arith, bound))
      ]

  SameFile-read_from :
      (position : Option ℕ) (offset length : ℕ) (positioned : Bool) (got : ℕ) (file : OpenFile)
      → SameFile file (read_from position offset length positioned got file).0
  unfolding read_from
  SameFile-read_from position offset length positioned got file =
      if_elim (λ (r : OpenFile × Option ℕ). SameFile file r.0) (not positioned) _ _
        (λ _. (refl, refl, refl)) (λ _. (refl, refl, refl))

  SameFile-write_to :
      (position : Option ℕ) (offset length : ℕ) (good : Bool) (file : OpenFile)
      → SameFile file (write_to position offset length good file).0
  unfolding write_to
  SameFile-write_to position offset length good file =
      if_elim (λ (r : OpenFile × Option ℕ). SameFile file r.0) (not good) _ _
        (λ _. (refl, refl, refl)) (λ _. (refl, refl, refl))

  SameFile-truncate_fd :
      (len : ℤ) (invalid : ℕ) (resized : Option ℕ) (file : OpenFile)
      → SameFile file (truncate_fd len invalid resized file).0
  unfolding truncate_fd
  SameFile-truncate_fd (negsuc n) invalid resized file = (refl, refl, refl)
  SameFile-truncate_fd (pos n) invalid none file = (refl, refl, refl)
  SameFile-truncate_fd (pos n) invalid (some code) file = (refl, refl, refl)

  AllGranted-answered :
      (fd : ℕ) (syscall code : Bytes) (file : OpenFile) (r : OpenFile × Option ℕ) (s : Fds)
      → lookup fd s.fds ≡ some file
      → SameFile file r.0
      → AllGranted s
      → AllGranted (answered fd syscall code r s).0
  unfolding answered
  AllGranted-answered fd syscall code file (next, none) s = AllGranted-put s fd file next
  AllGranted-answered fd syscall code file (next, some n) s = AllGranted-put s fd file next

  pub AllGranted-read_checked :
      (fd : ℕ) (position : Option ℤ) (positioned : Bool) (got : ℕ) (c : FdResult ⊎ (ℕ × ℕ))
      (s : Fds)
      → AllGranted s
      → AllGranted (read_checked fd position positioned got c s).0
  unfolding read_checked read_open
  AllGranted-read_checked fd position positioned got (inl error) s h = h
  AllGranted-read_checked fd position positioned got (inr (o, l)) s h =
      elim (Option-cases (lookup fd s.fds)) [
        | inl gone ↦ rw gone h
        | inr (file, found) ↦
            let at = at_least_zero position in
            let same = SameFile-read_from at o l positioned got file in
            rw found (
              if_elim (λ (r : Fds × FdResult). AllGranted r.0) (not file.readable) _ _ (λ _. h)
                (λ _.
                  AllGranted-answered fd (codes "read") (codes "EINVAL") file
                    (read_from at o l positioned got file) s found same h))
      ]

  pub AllGranted-write_checked :
      (fd : ℕ) (position : Option ℤ) (good : Bool) (c : FdResult ⊎ (ℕ × ℕ)) (s : Fds)
      → AllGranted s
      → AllGranted (write_checked fd position good c s).0
  unfolding write_checked write_open
  AllGranted-write_checked fd position good (inl error) s h = h
  AllGranted-write_checked fd position good (inr (o, l)) s h =
      elim (Option-cases (lookup fd s.fds)) [
        | inl gone ↦ rw gone h
        | inr (file, found) ↦
            let at = at_least_zero position in
            let same = SameFile-write_to at o l good file in
            rw found (
              if_elim (λ (r : Fds × FdResult). AllGranted r.0) (not file.writable) _ _ (λ _. h)
                (λ _.
                  AllGranted-answered fd (codes "write") (codes "EIO") file
                    (write_to at o l good file) s found same h))
      ]

  pub AllGranted-close_sync :
      (fd : Option ℕ) (s : Fds) → AllGranted s → AllGranted (close_sync fd s).0
  unfolding close_sync close_found
  AllGranted-close_sync none s h = h
  AllGranted-close_sync (some fd) s h = elim (Option-cases (lookup fd s.fds)) [
    | inl gone ↦ rw gone h
    | inr (file, found) ↦ rw found (AllGranted-remove s fd h)
  ]

  pub AllGranted-flush_then :
      (fd : ℕ) (syscall : Bytes) (with_path : Bool) (ok : FdResult) (code : Option ℕ) (s : Fds)
      → AllGranted s
      → AllGranted (flush_then fd syscall with_path ok code s).0
  unfolding flush_then flush_found flush_fd
  AllGranted-flush_then fd syscall with_path ok code s h = elim (Option-cases (lookup fd s.fds)) [
    | inl gone ↦ rw gone h
    | inr (file, found) ↦
        rw found (AllGranted-put s fd file (flush_fd file) found (refl, refl, refl) h)
  ]

  pub AllGranted-ftruncate_sync :
      (fd : ℕ) (len : Option ℤ) (invalid : ℕ) (resized : Option ℕ) (s : Fds)
      → AllGranted s
      → AllGranted (ftruncate_sync fd len invalid resized s).0
  unfolding ftruncate_sync ftruncate_found
  AllGranted-ftruncate_sync fd len invalid resized s h = elim (Option-cases (lookup fd s.fds)) [
    | inl gone ↦ rw gone h
    | inr (file, found) ↦
        let same = SameFile-truncate_fd (or_pos len 0) invalid resized file in
        rw found (
          if_elim (λ (r : Fds × FdResult). AllGranted r.0) (not file.writable) _ _ (λ _. h)
            (λ _.
              AllGranted-put s fd file (truncate_fd (or_pos len 0) invalid resized file).0 found
                same h))
  ]
