-- ===== src/Storage/Readable.antt =====
-- What loadStorage of src/api/storage.cpp makes of any text: a map, with no empty key.
use brokit.Prelude.{
  ℕ, zero, suc, ◌≡◌, refl, false, [], ◌∷◌, Option, some, Bytes, All, is_empty, length, if_elim,
  option_elim,
}
use mathlib.Core.Path.{subst}
use brokit.Storage.{
  Items, insert, bytes_eq, bytes_lt, keep, skip_separators, at_end, load_round, load_loop,
  after_brace, load_text,
}
use brokit.Storage.Order.{IsSorted, insert-IsSorted, without_empty}

abbrev pub AllNamed : Items → Type 0
AllNamed = All (λ e. is_empty e.0 ≡ false)

abbrev pub IsReadable : Items → Type 0
IsReadable m = IsSorted m × AllNamed m

pub full_of : (m : Items) → AllNamed m → without_empty m ≡ m
unfolding without_empty
full_of [] h = refl
full_of ((k, v) ∷ m) (h, hs) = rw (h, full_of m hs)

insert-AllNamed :
    (k v : Bytes) (m : Items) → is_empty k ≡ false → AllNamed m → AllNamed (insert k v m)
unfolding insert
insert-AllNamed k v [] named h = (named, tt)
insert-AllNamed k v ((j, w) ∷ m) named (h, hs) =
    if_elim AllNamed (bytes_eq j k) _ _ (λ _. (h, hs))
      λ _.
        if_elim AllNamed (bytes_lt j k) _ _ (λ _. (h, insert-AllNamed k v m named hs))
          (λ _. (named, (h, hs)))

keep-IsReadable : (k v : Bytes) (m : Items) → IsReadable m → IsReadable (keep k v m)
unfolding keep
keep-IsReadable k v m (sorted, full) =
    if_elim IsReadable (is_empty k) _ _ (λ _. (sorted, full))
      (λ named. (insert-IsSorted k v m sorted, insert-AllNamed k v m named full))

load_round-IsReadable : (s : Bytes) (m : Items) → IsReadable m → IsReadable (load_round s m).1
unfolding load_round
load_round-IsReadable s m h = keep-IsReadable _ _ m h

-- What a loop that ends gives.
abbrev Gives : Option Items → Type 0
Gives o = (m : Items) → o ≡ some m → IsReadable m

load_loop-IsReadable :
    (f : ℕ) (s : Bytes) (acc : Items) → IsReadable acc → Gives (load_loop f s acc)
unfolding load_loop
load_loop-IsReadable zero s acc h = λ m e. absurd (cc)
load_loop-IsReadable (suc f) s acc h =
    let rest = skip_separators s in
    if_elim Gives (at_end rest) _ _ (λ _ m e. let same : acc ≡ m = cc in subst IsReadable same h)
      (λ _.
        load_loop-IsReadable f (load_round rest acc).0 (load_round rest acc).1
          (load_round-IsReadable rest acc h))

pub load_text-IsReadable : (s : Bytes) (m : Items) → load_text s ≡ some m → IsReadable m
unfolding load_text
load_text-IsReadable s =
    option_elim Gives (after_brace s) _ _
      (λ m e. let same : [] ≡ m = cc in subst IsReadable same (tt, tt))
      (λ t _. load_loop-IsReadable (suc (length t)) t [] (tt, tt))
