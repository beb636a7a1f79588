-- ===== src/FsWatch.antt =====
-- src/api/fs_watch.h and src/api/fs_watch.cpp: the ring by which a watcher thread hands events to
-- the JS thread. Every atomic access, and every access to a slot, is a step of its own, so that the
-- two threads interleave between them; the orders acquire and release make each such step see what
-- stands before it.
pub mod Window
pub mod Queue
pub mod Fifo
mod Tests
use brokit.Prelude.{
  ℕ, zero, suc, ◌+◌, ◌-◌, ◌*◌, ◌%◌, ◌≡◌, ◌≢◌, Bool, true, false, not, List, [], ◌∷◌, ◌++◌, Option,
  none, some, Bytes, codes, ◌==◌, if◌then◌else◌,
}

pub data EventType : Type 0 where
  change rename error : EventType

pub record FsEvent : Type 0 where
  pub type : EventType
  pub filename : Bytes

-- kCap
abbrev pub cap : ℕ
cap = 1024

-- The watcher thread in pushEvent: outside; with room seen for an event; with the slot written;
-- with the ring seen full.
pub data Producer : Type 0 where
  outside full_seen : Producer
  room_seen slot_written : FsEvent → Producer

-- The JS thread in drain: at the top of the loop; with an event seen; with the event moved out;
-- with the ring seen empty, behind the loop.
pub data Consumer : Type 0 where
  at_top event_seen event_taken ring_empty : Consumer

-- What a drain appends to its vector: an event of the ring, or the synthetic overflow error.
pub data Item : Type 0 where
  event : FsEvent → Item
  overflowed : Item

pub record FsWatcher : Type 0 where
  pub ring : ℕ → FsEvent
  pub head : ℕ
  pub tail : ℕ
  pub overflow : Bool
  pub producer : Producer
  pub consumer : Consumer
  -- all that drains have appended
  pub out : List Item

abbrev pub update : (ℕ → FsEvent) → ℕ → FsEvent → ℕ → FsEvent
update ring i e j = if i == j then e else ring j

-- pushEvent up to its test: the loads of tail_ and head_.
unfoldable pub push_check : FsEvent → FsWatcher → FsWatcher
push_check e w =
    if (w.tail + 1) % cap == w.head
    then record w { producer = full_seen }
    else record w { producer = room_seen e }

-- The drop of an event: overflow_.store(true).
unfoldable pub push_drop : FsWatcher → FsWatcher
push_drop w = record w { overflow = true; producer = outside }

-- The write of the slot.
unfoldable pub push_write : FsEvent → FsWatcher → FsWatcher
push_write e w = record w { ring = update w.ring w.tail e; producer = slot_written e }

-- tail_.store
unfoldable pub push_publish : FsWatcher → FsWatcher
push_publish w = record w { tail = (w.tail + 1) % cap; producer = outside }

-- The loop test of drain.
unfoldable pub drain_check : FsWatcher → FsWatcher
drain_check w =
    if w.head == w.tail
    then record w { consumer = ring_empty }
    else record w { consumer = event_seen }

-- The end of drain: overflow_.exchange(false).
unfoldable pub drain_finish : FsWatcher → FsWatcher
drain_finish w =
    if w.overflow
    then record w { overflow = false; out = w.out ++ overflowed ∷ []; consumer = at_top }
    else record w { consumer = at_top }

-- The event is moved out, and the slot's name cleared.
unfoldable pub drain_take : FsWatcher → FsWatcher
drain_take w =
    let e = w.ring w.head in
    record w {
      ring = update w.ring w.head (record e { filename = [] });
      out = w.out ++ event e ∷ [];
      consumer = event_taken;
    }

-- head_.store
unfoldable pub drain_advance : FsWatcher → FsWatcher
drain_advance w = record w { head = (w.head + 1) % cap; consumer = at_top }

-- One step of either thread. The list holds the events published so far, oldest first.
pub data Step (w : FsWatcher) (published : List FsEvent) : FsWatcher → List FsEvent → Type 0 where
  checks : (e : FsEvent) → w.producer ≡ outside → Step w published (push_check e w) published
  drops : w.producer ≡ full_seen → Step w published (push_drop w) published
  writes : (e : FsEvent) → w.producer ≡ room_seen e → Step w published (push_write e w) published
  publishes :
      (e : FsEvent)
      → w.producer ≡ slot_written e
      → Step w published (push_publish w) (published ++ e ∷ [])
  looks : w.consumer ≡ at_top → Step w published (drain_check w) published
  finishes : w.consumer ≡ ring_empty → Step w published (drain_finish w) published
  takes : w.consumer ≡ event_seen → Step w published (drain_take w) published
  advances : w.consumer ≡ event_taken → Step w published (drain_advance w) published

-- A new watcher: FsWatcher::FsWatcher.
unfoldable pub new_watcher : (ℕ → FsEvent) → FsWatcher
new_watcher ring = record {
  ring = ring;
  head = 0;
  tail = 0;
  overflow = false;
  producer = outside;
  consumer = at_top;
  out = [];
}

pub data Reach (ring : ℕ → FsEvent) : FsWatcher → List FsEvent → Type 0 where
  start : Reach ring (new_watcher ring) []
  then_step :
      {w v : FsWatcher} {published later : List FsEvent}
      → Reach ring w published
      → Step w published v later
      → Reach ring v later
