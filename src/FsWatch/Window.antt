-- ===== src/FsWatch/Window.antt =====
-- The events that wait in the ring of src/api/fs_watch.cpp, as a list.
use brokit.Prelude.{
  ℕ, zero, suc, ◌+◌, ◌%◌, ◌≤◌, ◌<◌, ◌≡◌, refl, ap, List, [], ◌∷◌, ◌++◌, arith, length,
}
use brokit.FsWatch.{FsEvent, cap, Item, event, overflowed, update}

-- The `n` events from the place `from` on, counted without wrapping.
unfoldable pub window : (ℕ → FsEvent) → (from n : ℕ) → List FsEvent
window ring from zero = []
window ring from (suc n) = ring (from % cap) ∷ window ring (from + 1) n

-- A write outside the window does not show in it.
window-update :
    (ring : ℕ → FsEvent) (from n place : ℕ) (e : FsEvent)
    → place < from + cap
    → from + n ≤ place
    → window (update ring (place % cap) e) from n ≡ window ring from n
unfolding window
window-update ring from zero place e near far = refl
window-update ring from (suc n) place e near far =
    ground (arith, window-update ring (from + 1) n place e)

pub length-window : (ring : ℕ → FsEvent) (from n : ℕ) → length (window ring from n) ≡ n
unfolding window
length-window ring from zero = refl
length-window ring from (suc n) = ap suc (length-window ring (from + 1) n)

pub window_last :
    (ring : ℕ → FsEvent) (from n : ℕ)
    → window ring from (suc n) ≡ window ring from n ++ ring ((from + n) % cap) ∷ []
unfolding window
window_last ring from zero = ground arith
window_last ring from (suc n) = ground (arith, window_last ring (from + 1) n)

-- The events among what the drains appended.
unfoldable pub events_of : List Item → List FsEvent
events_of [] = []
events_of (event e ∷ items) = e ∷ events_of items
events_of (overflowed ∷ items) = events_of items

pub events_of-append : (xs ys : List Item) → events_of (xs ++ ys) ≡ events_of xs ++ events_of ys
unfolding events_of
events_of-append [] ys = refl
events_of-append (event e ∷ xs) ys = ap (◌∷◌ e) (events_of-append xs ys)
events_of-append (overflowed ∷ xs) ys = events_of-append xs ys

-- A write behind the window does not show in it.
pub window-write :
    (ring : ℕ → FsEvent) (from n slot : ℕ) (e : FsEvent)
    → n < cap
    → slot ≡ (from + n) % cap
    → window (update ring slot e) from n ≡ window ring from n
window-write ring from n slot e few at =
    rw at (window-update ring from n (from + n) e (omega arith) (omega arith))

-- A write just before the window does not show in it.
pub window-clear :
    (ring : ℕ → FsEvent) (from n slot : ℕ) (e : FsEvent)
    → suc n < cap
    → slot ≡ from % cap
    → window (update ring slot e) (from + 1) n ≡ window ring (from + 1) n
window-clear ring from n slot e few at =
    let around : slot ≡ (from + cap) % cap = omega arith in
    rw around (window-update ring (from + 1) n (from + cap) e (omega arith) (omega arith))
