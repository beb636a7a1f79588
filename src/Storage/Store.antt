-- ===== src/Storage/Store.antt =====
-- The Storage object of src/api/storage.cpp: its methods, the file behind localStorage, and what a
-- later session sees.
use brokit.Prelude.{
  ◌≡◌, Bool, true, false, not, ◌||◌, List, [], ◌∷◌, map, Option, none, some, arith, Bytes,
  get_elem?, is_empty, if◌then◌else◌, if_elim, option_elim, sym, ℤ, pos, negsuc,
}
use brokit.Storage.{Items, find, insert, erase, save_text, load_text}
use brokit.Storage.Order.{IsSorted, insert-IsSorted, erase-IsSorted, without_empty, load_text-saved}
use brokit.Storage.Readable.{IsReadable, load_text-IsReadable, full_of}

-- StorageState, with the file at its path: the text that it holds, and whether it can be written.
pub record StorageState : Type 0 where
  pub items : Items
  pub storage_path : Bytes
  pub file : Option Bytes
  pub writable : Bool

-- loadStorage; a file that cannot be opened leaves no items.
unfoldable pub loaded : Option Bytes → Items
loaded none = []
loaded (some text) = elim (load_text text) [ none ↦ [] | some m ↦ m ]

unfoldable pub load_storage : StorageState → StorageState
load_storage s =
    if is_empty s.storage_path then record s { items = [] } else record s { items = loaded s.file }

-- saveStorage
unfoldable pub save_storage : StorageState → StorageState
save_storage s =
    if is_empty s.storage_path || not s.writable
    then s
    else record s { file = some (save_text s.items) }

unfoldable pub get_item : Bytes → StorageState → Option Bytes
get_item k s = find k s.items

-- setItem, and the set trap
unfoldable pub set_item : Bytes → Bytes → StorageState → StorageState
set_item k v s = save_storage (record s { items = insert k v s.items })

unfoldable pub remove_item : Bytes → StorageState → StorageState
remove_item k s = save_storage (record s { items = erase k s.items })

unfoldable pub clear : StorageState → StorageState
clear s = save_storage (record s { items = [] })

-- key: the name at an index in the order of the map.
unfoldable pub key : ℤ → StorageState → Option Bytes
key (negsuc n) s = none
key (pos i) s = get_elem? (map (λ e. e.0) s.items) i

unfoldable pub has : Bytes → StorageState → Bool
has k s = elim (find k s.items) [ none ↦ false | some v ↦ true ]

unfoldable pub own_keys : StorageState → List Bytes
own_keys s = map (λ e. e.0) s.items

-- The deleteProperty trap saves only if there was such an item.
unfoldable pub remove : Bytes → StorageState → StorageState
remove k s = if has k s then save_storage (record s { items = erase k s.items }) else s

-- setStoragePath
unfoldable pub set_storage_path : Bytes → StorageState → StorageState
set_storage_path path s = load_storage (record s { storage_path = path })

-- What a script does to the storage.
pub data Change : Type 0 where
  sets : (key value : Bytes) → Change
  removes deletes : (key : Bytes) → Change
  clears : Change

unfoldable pub apply : Change → StorageState → StorageState
apply (sets k v) s = set_item k v s
apply (removes k) s = remove_item k s
apply (deletes k) s = remove k s
apply clears s = clear s

unfoldable pub apply_all : List Change → StorageState → StorageState
apply_all [] s = s
apply_all (c ∷ cs) s = apply_all cs (apply c s)

-- The file holds the items, the ones under an empty key aside, and can be written.
record IsKept (s : StorageState) : Type 0 where
  named : is_empty s.storage_path ≡ false
  writes : s.writable ≡ true
  sorted : IsSorted s.items
  kept : loaded s.file ≡ without_empty s.items

save_storage-IsKept :
    (s : StorageState)
    → is_empty s.storage_path ≡ false
    → s.writable ≡ true
    → IsSorted s.items
    → IsKept (save_storage s)
unfolding save_storage loaded
save_storage-IsKept s n w sorted = ground (arith, load_text-saved s.items sorted)

apply-IsKept : (c : Change) (s : StorageState) → IsKept s → IsKept (apply c s)
unfolding apply set_item remove_item remove clear
apply-IsKept (sets k v) s h =
    save_storage-IsKept (record s { items = insert k v s.items }) h.named h.writes
      (insert-IsSorted k v s.items h.sorted)
apply-IsKept (removes k) s h =
    save_storage-IsKept (record s { items = erase k s.items }) h.named h.writes
      (erase-IsSorted k s.items h.sorted)
apply-IsKept (deletes k) s h =
    if_elim IsKept (has k s) _ _
      (λ _.
        save_storage-IsKept (record s { items = erase k s.items }) h.named h.writes
          (erase-IsSorted k s.items h.sorted))
      (λ _. h)
apply-IsKept clears s h = save_storage-IsKept (record s { items = [] }) h.named h.writes tt

apply_all-IsKept : (cs : List Change) (s : StorageState) → IsKept s → IsKept (apply_all cs s)
unfolding apply_all
apply_all-IsKept [] s h = h
apply_all-IsKept (c ∷ cs) s h = apply_all-IsKept cs (apply c s) (apply-IsKept c s h)

loaded-IsReadable : (file : Option Bytes) → IsReadable (loaded file)
unfolding loaded
loaded-IsReadable none = (tt, tt)
loaded-IsReadable (some text) =
    option_elim IsReadable (load_text text) [] (λ m. m) (tt, tt)
      (λ m e. load_text-IsReadable text m e)

set_storage_path-IsKept :
    (path : Bytes) (s : StorageState)
    → is_empty path ≡ false
    → s.writable ≡ true
    → IsKept (set_storage_path path s)
unfolding set_storage_path load_storage
set_storage_path-IsKept path s named writes =
    let (sorted, full) = loaded-IsReadable s.file in
    rw named
      (record { named = named; writes = writes; sorted = sorted; kept = sym (full_of _ full) })

-- A session on a file that can be written, under a path that is not empty, whatever the file held at
-- first: after any changes, the next session on the file sees the same items, but for those under an
-- empty key.
pub next_session :
    (path : Bytes) (s : StorageState) (cs : List Change)
    → is_empty path ≡ false
    → s.writable ≡ true
    → let t = apply_all cs (set_storage_path path s) in
      (load_storage t).items ≡ without_empty t.items
next_session path s cs named writes =
    let h = apply_all-IsKept cs _ (set_storage_path-IsKept path s named writes) in
    reopen (apply_all cs (set_storage_path path s)) h
  where
    reopen : (t : StorageState) → IsKept t → (load_storage t).items ≡ without_empty t.items
    reopen t h = unfold load_storage in (rw (h.named) h.kept)
