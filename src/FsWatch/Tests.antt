-- ===== src/FsWatch/Tests.antt =====
-- A run of the ring of src/api/fs_watch.cpp: one event is published and drained.
use brokit.Prelude.{ℕ, ◌≡◌, ◌<◌, refl, List, [], ◌∷◌, ◌++◌, codes, length}
use brokit.FsWatch.{
  change, FsEvent, Consumer, cap, FsWatcher, push_check, push_write, push_publish, drain_check,
  drain_take, drain_advance, checks, writes, publishes, looks, takes, advances, new_watcher, Reach,
  start, then_step,
}
use brokit.FsWatch.Window.{events_of}
use brokit.FsWatch.Fifo.{events_of-Reach}

abbrev saved : FsEvent
saved = record { type = change; filename = codes "a.txt" }

abbrev blank : ℕ → FsEvent
blank i = record { type = change; filename = [] }

abbrev at_publish : FsWatcher
at_publish = push_publish (push_write saved (push_check saved (new_watcher blank)))

abbrev at_end : FsWatcher
at_end = drain_advance (drain_take (drain_check at_publish))

published : Reach blank at_publish (saved ∷ [])
unfolding push_publish push_write push_check new_watcher
published =
    then_step (then_step (then_step start (checks saved refl)) (writes saved refl))
      (publishes saved refl)

drained : Reach blank at_end (saved ∷ [])
unfolding push_publish push_write push_check new_watcher drain_advance drain_take drain_check
drained = then_step (then_step (then_step published (looks refl)) (takes refl)) (advances refl)

events_of-Reach_example :
    (waiting : List FsEvent) × ((saved ∷ []) ≡ events_of at_publish.out ++ waiting)
    × (length waiting < cap)
events_of-Reach_example = events_of-Reach published

at_end_top : at_end.consumer ≡ Consumer.at_top
unfolding push_publish push_write push_check new_watcher drain_advance drain_take drain_check
at_end_top = refl

at_end_empty : at_end.head ≡ at_end.tail
unfolding push_publish push_write push_check new_watcher drain_advance drain_take drain_check
at_end_empty = refl
