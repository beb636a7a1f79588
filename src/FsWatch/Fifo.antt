-- ===== src/FsWatch/Fifo.antt =====
-- The ring of src/api/fs_watch.cpp loses, repeats and reorders nothing that was published.
use brokit.Prelude.{ℕ, ◌+◌, ◌<◌, ◌≡◌, sym, ◌∙◌, List, ◌++◌, append-nil, arith, length}
use brokit.FsWatch.{
  FsEvent, cap, at_top, FsWatcher, Step, checks, drops, writes, publishes, looks, finishes, takes,
  advances, Reach, start, then_step,
}
use brokit.FsWatch.Window.{window, length-window, events_of}
use brokit.FsWatch.Queue.{
  IsQueue, taken, new_watcher-IsQueue, push_check-IsQueue, push_drop-IsQueue, push_write-IsQueue,
  push_publish-IsQueue, drain_check-IsQueue, drain_finish-IsQueue, drain_take-IsQueue,
  drain_advance-IsQueue,
}

Step-IsQueue :
    {w v : FsWatcher} {published later : List FsEvent}
    → Step w published v later
    → IsQueue w published
    → IsQueue v later
Step-IsQueue (checks e h) q = push_check-IsQueue e _ _ h q
Step-IsQueue (drops h) q = push_drop-IsQueue _ _ h q
Step-IsQueue (writes e h) q = push_write-IsQueue e _ _ h q
Step-IsQueue (publishes e h) q = push_publish-IsQueue e _ _ h q
Step-IsQueue (looks h) q = drain_check-IsQueue _ _ h q
Step-IsQueue (finishes h) q = drain_finish-IsQueue _ _ h q
Step-IsQueue (takes h) q = drain_take-IsQueue _ _ h q
Step-IsQueue (advances h) q = drain_advance-IsQueue _ _ h q

Reach-IsQueue :
    {ring : ℕ → FsEvent} {w : FsWatcher} {published : List FsEvent}
    → Reach ring w published
    → IsQueue w published
Reach-IsQueue {ring} start = new_watcher-IsQueue ring
Reach-IsQueue (then_step r s) = Step-IsQueue s (Reach-IsQueue r)

-- Under every interleaving of the two threads, what the drains have given of the ring is, in order,
-- the first of the events that were published, each once; the others wait, fewer than the ring has
-- slots.
pub events_of-Reach :
    {ring : ℕ → FsEvent} {w : FsWatcher} {published : List FsEvent}
    → Reach ring w published
    → (waiting : List FsEvent) × (published ≡ events_of w.out ++ waiting) × (length waiting < cap)
events_of-Reach {w} r =
    let q = Reach-IsQueue r in
    (
      window w.ring (q.from + taken w.consumer) q.left,
      q.queued,
      rw (length-window w.ring (q.from + taken w.consumer) q.left) (omega (arith, q.room)),
    )

-- A drain that finds the ring empty has given every event that was published.
pub events_of-drained :
    {ring : ℕ → FsEvent} {w : FsWatcher} {published : List FsEvent}
    → Reach ring w published
    → w.consumer ≡ at_top
    → w.head ≡ w.tail
    → events_of w.out ≡ published
unfolding window
events_of-drained {w} r top empty =
    let q = Reach-IsQueue r in
    let tail_at = rw top at q.tail_at in
    let room = rw top at q.room in
    let none_left : q.left ≡ 0 = omega (arith, q.head_at) in
    let all = rw none_left at q.queued in sym (all ∙ append-nil _)
