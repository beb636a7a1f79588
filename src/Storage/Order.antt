-- ===== src/Storage/Order.antt =====
-- The map of src/api/storage.cpp: its keys rise along the list, and the file gives it back.
use brokit.Prelude.{
  ◌≡◌, ◌↔◌, refl, sym, ◌∙◌, true, false, [], ◌∷◌, ◌++◌, append_assoc, append-nil, some, arith,
  Bytes, All, All-append, is_empty, if◌then◌else◌, if_elim, Bool-cases, inl, inr, ap,
}
use brokit.Storage.{bytes_lt, bytes_eq, Items, find, insert, erase, keep, save_text, load_text}
use brokit.Storage.Text.{put_all, load_text-save_text}

bytes_eq_sound : (a b : Bytes) → bytes_eq a b ≡ true → a ≡ b
unfolding bytes_eq
bytes_eq_sound [] [] h = refl
bytes_eq_sound [] (y ∷ ys) h = cc
bytes_eq_sound (x ∷ xs) [] h = cc
bytes_eq_sound (x ∷ xs) (y ∷ ys) h = ground (arith, bytes_eq_sound xs ys)

bytes_eq_refl : (a : Bytes) → bytes_eq a a ≡ true
unfolding bytes_eq
bytes_eq_refl [] = refl
bytes_eq_refl (x ∷ xs) = ground (arith, bytes_eq_refl xs)

pub bytes_eq_iff : (a b : Bytes) → (bytes_eq a b ≡ true) ↔ (a ≡ b)
bytes_eq_iff a b = (bytes_eq_sound a b, λ e. rw e (bytes_eq_refl b))

bytes_lt_ne : (a b : Bytes) → bytes_lt a b ≡ true → bytes_eq a b ≡ false
unfolding bytes_lt bytes_eq
bytes_lt_ne [] [] h = cc
bytes_lt_ne (x ∷ xs) [] h = cc
bytes_lt_ne [] (y ∷ ys) h = refl
bytes_lt_ne (x ∷ xs) (y ∷ ys) h = ground (arith, bytes_lt_ne xs ys)

pub bytes_lt_trans :
    (a b c : Bytes) → bytes_lt a b ≡ true → bytes_lt b c ≡ true → bytes_lt a c ≡ true
unfolding bytes_lt
bytes_lt_trans a b [] h k = k
bytes_lt_trans [] [] (z ∷ zs) h k = cc
bytes_lt_trans (x ∷ xs) [] (z ∷ zs) h k = cc
bytes_lt_trans [] (y ∷ ys) (z ∷ zs) h k = refl
bytes_lt_trans (x ∷ xs) (y ∷ ys) (z ∷ zs) h k = ground (arith, bytes_lt_trans xs ys zs)

pub bytes_lt_total :
    (a b : Bytes) → bytes_eq a b ≡ false → bytes_lt a b ≡ false → bytes_lt b a ≡ true
unfolding bytes_lt bytes_eq
bytes_lt_total [] [] h k = cc
bytes_lt_total [] (y ∷ ys) h k = cc
bytes_lt_total (x ∷ xs) [] h k = refl
bytes_lt_total (x ∷ xs) (y ∷ ys) h k = ground (arith, bytes_lt_total xs ys)

-- Every key of `m` is smaller than `k`.
abbrev pub AllBelow : Bytes → Items → Type 0
AllBelow k = All (λ e. bytes_lt e.0 k ≡ true)

-- Every key of `m` is greater than `k`.
abbrev pub AllAbove : Bytes → Items → Type 0
AllAbove k = All (λ e. bytes_lt k e.0 ≡ true)

-- The keys rise, so that no two are equal.
abbrev pub IsSorted : Items → Type 0
IsSorted [] = Unit
IsSorted ((k, v) ∷ m) = AllAbove k m × IsSorted m

insert_last : (k v : Bytes) (acc : Items) → AllBelow k acc → insert k v acc ≡ acc ++ (k, v) ∷ []
unfolding insert
insert_last k v [] h = refl
insert_last k v ((j, w) ∷ acc) (h, hs) = rw (bytes_lt_ne j k h, h, insert_last k v acc hs)

-- The items without those under an empty key.
unfoldable pub without_empty : Items → Items
without_empty [] = []
without_empty ((k, v) ∷ m) =
    let rest = without_empty m in if is_empty k then rest else (k, v) ∷ rest

-- Every key of `acc` is smaller than every key of `m`.
abbrev Separated : Items → Items → Type 0
Separated acc = All (λ e. AllBelow e.0 acc)

Separated-append :
    (acc m : Items) (k v : Bytes)
    → AllAbove k m
    → Separated acc m
    → Separated (acc ++ (k, v) ∷ []) m
Separated-append acc [] k v above sep = tt
Separated-append acc (e ∷ m) k v (a, above) (s, sep) =
    (All-append _ acc ((k, v) ∷ []) s (a, tt), Separated-append acc m k v above sep)

put_all-append :
    (m acc : Items) → IsSorted m → Separated acc m → put_all m acc ≡ acc ++ without_empty m
unfolding without_empty put_all keep
put_all-append [] acc sorted sep = sym (append-nil acc)
put_all-append ((k, v) ∷ m) acc (above, sorted) (s, sep) = elim (Bool-cases (is_empty k)) [
  | inl blank ↦ rw blank (put_all-append m acc sorted sep)
  | inr named ↦
      rw (named, insert_last k v acc s)
        (put_all-append m (acc ++ (k, v) ∷ []) sorted (Separated-append acc m k v above sep)
          ∙ append_assoc acc ((k, v) ∷ []) (without_empty m))
]

insert-AllAbove :
    (j k v : Bytes) (m : Items) → bytes_lt j k ≡ true → AllAbove j m → AllAbove j (insert k v m)
unfolding insert
insert-AllAbove j k v [] h above = (h, tt)
insert-AllAbove j k v ((i, w) ∷ m) h (a, above) = ground (arith, insert-AllAbove j k v m h above)

AllAbove-trans : (j k : Bytes) (m : Items) → bytes_lt j k ≡ true → AllAbove k m → AllAbove j m
AllAbove-trans j k [] h above = tt
AllAbove-trans j k ((i, w) ∷ m) h (a, above) =
    (bytes_lt_trans j k i h a, AllAbove-trans j k m h above)

pub insert-IsSorted : (k v : Bytes) (m : Items) → IsSorted m → IsSorted (insert k v m)
unfolding insert
insert-IsSorted k v [] sorted = (tt, tt)
insert-IsSorted k v ((j, w) ∷ m) (above, sorted) =
    if_elim IsSorted (bytes_eq j k) _ _ (λ _. (above, sorted))
      λ other.
        if_elim IsSorted (bytes_lt j k) _ _
          (λ below. (insert-AllAbove j k v m below above, insert-IsSorted k v m sorted))
          λ not_below.
            let first = bytes_lt_total j k other not_below in
            ((first, AllAbove-trans k j m first above), (above, sorted))

erase-AllAbove : (j k : Bytes) (m : Items) → AllAbove j m → AllAbove j (erase k m)
unfolding erase
erase-AllAbove j k [] above = tt
erase-AllAbove j k ((i, w) ∷ m) (a, above) = ground (arith, erase-AllAbove j k m above)

pub erase-IsSorted : (k : Bytes) (m : Items) → IsSorted m → IsSorted (erase k m)
unfolding erase
erase-IsSorted k [] sorted = tt
erase-IsSorted k ((j, w) ∷ m) (above, sorted) =
    if_elim IsSorted (bytes_eq j k) _ _ (λ _. sorted)
      (λ _. (erase-AllAbove j k m above, erase-IsSorted k m sorted))

-- A key reads what was last put under it, and no other key is touched.
pub find-insert :
    (k j v : Bytes) (m : Items)
    → find j (insert k v m) ≡ (if bytes_eq k j then some v else find j m)
unfolding find insert
find-insert k j v [] = refl
find-insert k j v ((i, w) ∷ m) =
    ground (arith, bytes_eq_iff i k, bytes_eq_iff i j, bytes_eq_iff k j, find-insert k j v m)

-- For items whose keys rise, what saveStorage writes is read back: the same items, but for those
-- under an empty key, which loadStorage drops.
pub load_text-saved : (m : Items) → IsSorted m → load_text (save_text m) ≡ some (without_empty m)
load_text-saved m sorted =
    rw (load_text-save_text m) (ap some (put_all-append m [] sorted (none_before m)))
  where
    none_before : (m : Items) → Separated [] m
    none_before [] = tt
    none_before (e ∷ m) = (tt, none_before m)
