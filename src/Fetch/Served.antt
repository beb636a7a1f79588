-- ===== src/Fetch/Served.antt =====
-- js_fetch_tick of src/api/fetch.cpp leaves no reader waiting that it could have called.
use brokit.Prelude.{ℕ, ◌≤◌, false, not, ◌&&◌, ◌||◌, [], ◌∷◌, Option, none, some, is_empty}
use brokit.Prelude.Table.{lookup}
use brokit.Fetch.{FetchRequest, calls, FetchState, keep}
use brokit.Fetch.Kept.{one}

-- Whether a reader waits though it could be told something.
abbrev unserved : FetchRequest → ℕ
unserved r = one ((not (is_empty r.chunks) || r.body_complete) && r.wait_callback)

unfoldable unserved_at : Option FetchRequest → ℕ
unserved_at none = 0
unserved_at (some r) = unserved r

abbrev left : ℕ → FetchState → ℕ
left id s = unserved_at (lookup id s.streams)

-- No reader is left waiting that was not before.
abbrev Less : (s u : FetchState) → Type 0
Less s u = (j : ℕ) → left j u ≤ left j s

module _ (id : ℕ) (r : FetchRequest) (s : FetchState) where
  abbrev called : FetchState
  called = keep id (record r { wait_callback = false }) (calls id ∷ []) s
