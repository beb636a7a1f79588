-- ===== src/Storage/Tests.antt =====
-- Runs of src/api/storage.cpp.
use brokit.Prelude.{◌≡◌, refl, true, List, [], ◌∷◌, some, codes}
use brokit.Storage.{Items, bytes_lt, save_text, load_text}
use brokit.Storage.Text.{load_text_total}
use brokit.Storage.Order.{IsSorted, without_empty, load_text-saved}
use brokit.Storage.Store.{
  StorageState, Change, sets, removes, apply_all, set_storage_path, load_storage, next_session,
}

abbrev two_items : Items
two_items = (codes "a", codes "x\"y") ∷ (codes "b", []) ∷ []

two_items-IsSorted : IsSorted two_items
unfolding bytes_lt
two_items-IsSorted = ((refl, tt), (tt, tt))

load_text-saved_example : load_text (save_text two_items) ≡ some (without_empty two_items)
load_text-saved_example = load_text-saved two_items two_items-IsSorted

load_text_total_example : (m : Items) × (load_text (codes "{\"a\":") ≡ some m)
load_text_total_example = load_text_total (codes "{\"a\":")

abbrev at_start : StorageState
at_start = record { items = []; storage_path = []; file = some (codes "{}"); writable = true }

abbrev changes : List Change
changes = sets (codes "k") (codes "v") ∷ sets [] (codes "lost") ∷ removes (codes "z") ∷ []

next_session_example :
    let t = apply_all changes (set_storage_path (codes "s.json") at_start) in
    (load_storage t).items ≡ without_empty t.items
next_session_example = next_session (codes "s.json") at_start changes refl refl
