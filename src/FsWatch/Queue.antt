-- ===== src/FsWatch/Queue.antt =====
-- The ring of src/api/fs_watch.cpp stays a queue at every step of its two threads.
use brokit.Prelude.{
  ℕ, zero, suc, ◌+◌, ◌%◌, ◌≤◌, ◌<◌, ◌≡◌, refl, sym, ap, ◌∙◌, false, List, [], ◌∷◌, ◌++◌,
  append_assoc, append-nil, arith, ◌==◌, if_elim, ==_refl,
}
use brokit.FsWatch.{
  FsEvent, cap, Producer, outside, full_seen, room_seen, slot_written, Consumer, at_top, event_seen,
  event_taken, ring_empty, FsWatcher, push_check, push_drop, push_write, push_publish, drain_check,
  drain_finish, drain_take, drain_advance, new_watcher,
}
use brokit.FsWatch.Window.{
  window, window_last, window-write, window-clear, events_of, events_of-append,
}

-- Events that the consumer has moved out without having moved the head.
abbrev pub taken : Consumer → ℕ
taken at_top = 0
taken event_seen = 0
taken event_taken = 1
taken ring_empty = 0

-- Events that the consumer counts on.
abbrev pub needed : Consumer → ℕ
needed at_top = 0
needed event_seen = 1
needed event_taken = 0
needed ring_empty = 0

-- Places that the producer counts on.
abbrev pub claimed : Producer → ℕ
claimed outside = 0
claimed full_seen = 0
claimed (room_seen e) = 1
claimed (slot_written e) = 1

-- A slot that was written holds its event.
abbrev pub IsWritten : Producer → FsEvent → Type 0
IsWritten outside x = Unit
IsWritten full_seen x = Unit
IsWritten (room_seen e) x = Unit
IsWritten (slot_written e) x = x ≡ e

-- The ring as a queue: `from` counts the head's moves, and `left` events wait.
pub record IsQueue (w : FsWatcher) (published : List FsEvent) : Type 0 where
  pub from : ℕ
  pub left : ℕ
  pub head_at : w.head ≡ from % cap
  pub tail_at : w.tail ≡ (from + taken w.consumer + left) % cap
  pub room : claimed w.producer + taken w.consumer + left < cap
  pub wanted : needed w.consumer ≤ left
  pub written : IsWritten w.producer (w.ring w.tail)
  pub queued : published ≡ events_of w.out ++ window w.ring (from + taken w.consumer) left

pub new_watcher-IsQueue : (ring : ℕ → FsEvent) → IsQueue (new_watcher ring) []
unfolding new_watcher events_of window
new_watcher-IsQueue ring = record {
  from = 0;
  left = 0;
  head_at = refl;
  tail_at = refl;
  room = omega arith;
  wanted = omega arith;
  written = tt;
  queued = refl;
}

pub push_check-IsQueue :
    (e : FsEvent) (w : FsWatcher) (published : List FsEvent)
    → w.producer ≡ outside
    → IsQueue w published
    → IsQueue (push_check e w) published
unfolding push_check
push_check-IsQueue e w published idle q =
    if_elim (λ v. IsQueue v published) ((w.tail + 1) % cap == w.head) _ _
      (λ full. record {
        from = q.from;
        left = q.left;
        head_at = q.head_at;
        tail_at = q.tail_at;
        room = ground (arith, q.room);
        wanted = q.wanted;
        written = tt;
        queued = q.queued;
      })
      (λ free. record {
        from = q.from;
        left = q.left;
        head_at = q.head_at;
        tail_at = q.tail_at;
        room = ground (arith, q.room, q.head_at, q.tail_at);
        wanted = q.wanted;
        written = tt;
        queued = q.queued;
      })

pub push_drop-IsQueue :
    (w : FsWatcher) (published : List FsEvent)
    → w.producer ≡ full_seen
    → IsQueue w published
    → IsQueue (push_drop w) published
unfolding push_drop
push_drop-IsQueue w published full q = record {
  from = q.from;
  left = q.left;
  head_at = q.head_at;
  tail_at = q.tail_at;
  room = ground (arith, q.room);
  wanted = q.wanted;
  written = tt;
  queued = q.queued;
}

pub push_write-IsQueue :
    (e : FsEvent) (w : FsWatcher) (published : List FsEvent)
    → w.producer ≡ room_seen e
    → IsQueue w published
    → IsQueue (push_write e w) published
unfolding push_write
push_write-IsQueue e w published ready q = record {
  from = q.from;
  left = q.left;
  head_at = q.head_at;
  tail_at = q.tail_at;
  room = rw ready at q.room;
  wanted = q.wanted;
  written = rw (==_refl w.tail);
  queued =
      q.queued
      ∙ ap (events_of w.out ++◌) (
          sym (
            window-write w.ring (q.from + taken w.consumer) q.left w.tail e (omega (arith, q.room))
              q.tail_at));
}

pub push_publish-IsQueue :
    (e : FsEvent) (w : FsWatcher) (published : List FsEvent)
    → w.producer ≡ slot_written e
    → IsQueue w published
    → IsQueue (push_publish w) (published ++ e ∷ [])
unfolding push_publish
push_publish-IsQueue e w published ready q =
    let holds : w.ring ((q.from + taken w.consumer + q.left) % cap) ≡ e =
      rw q.tail_at at (rw ready at q.written) in
    record {
      from = q.from;
      left = suc q.left;
      head_at = q.head_at;
      tail_at = omega (arith, q.tail_at);
      room = ground (arith, q.room);
      wanted = omega (arith, q.wanted);
      written = tt;
      queued = rw (
        window_last w.ring (q.from + taken w.consumer) q.left,
        holds,
        ← append_assoc,
        ← q.queued,
      );
    }

pub drain_check-IsQueue :
    (w : FsWatcher) (published : List FsEvent)
    → w.consumer ≡ at_top
    → IsQueue w published
    → IsQueue (drain_check w) published
unfolding drain_check
drain_check-IsQueue w published top q =
    if_elim (λ v. IsQueue v published) (w.head == w.tail) _ _
      (λ _. record {
        from = q.from;
        left = q.left;
        head_at = q.head_at;
        tail_at = rw top at q.tail_at;
        room = rw top at q.room;
        wanted = omega arith;
        written = q.written;
        queued = rw top at q.queued;
      })
      λ busy. record {
        from = q.from;
        left = q.left;
        head_at = q.head_at;
        tail_at = rw top at q.tail_at;
        room = rw top at q.room;
        wanted = ground (arith, q.head_at, q.tail_at, q.room);
        written = q.written;
        queued = rw top at q.queued;
      }

pub drain_finish-IsQueue :
    (w : FsWatcher) (published : List FsEvent)
    → w.consumer ≡ ring_empty
    → IsQueue w published
    → IsQueue (drain_finish w) published
unfolding drain_finish events_of
drain_finish-IsQueue w published empty q =
    if_elim (λ v. IsQueue v published) w.overflow _ _
      (λ _. record {
        from = q.from;
        left = q.left;
        head_at = q.head_at;
        tail_at = rw empty at q.tail_at;
        room = rw empty at q.room;
        wanted = omega arith;
        written = q.written;
        queued = rw (events_of-append, append-nil) (rw empty at q.queued);
      })
      (λ _. record {
        from = q.from;
        left = q.left;
        head_at = q.head_at;
        tail_at = rw empty at q.tail_at;
        room = rw empty at q.room;
        wanted = omega arith;
        written = q.written;
        queued = rw empty at q.queued;
      })

one_waits : (n : ℕ) → 1 ≤ n → (k : ℕ) × (n ≡ suc k)
one_waits zero h = absurd (omega arith)
one_waits (suc k) h = (k, refl)

-- The step that moves the oldest event out, with `k` more behind it.
take_first :
    (w : FsWatcher) (published : List FsEvent) (from k : ℕ)
    → w.head ≡ from % cap
    → w.tail ≡ (from + suc k) % cap
    → claimed w.producer + suc k < cap
    → IsWritten w.producer (w.ring w.tail)
    → published ≡ events_of w.out ++ window w.ring from (suc k)
    → IsQueue (drain_take w) published
unfolding drain_take window events_of
take_first w published from k head_at tail_at room written queued =
    let apart : (w.head == w.tail) ≡ false = ground arith in
    record {
      from = from;
      left = k;
      head_at = head_at;
      tail_at = omega arith;
      room = omega arith;
      wanted = omega arith;
      written = rw apart written;
      queued =
          rw
            (
              events_of-append,
              append_assoc,
              window-clear w.ring from k w.head (record (w.ring w.head) { filename = [] })
                  (omega arith) head_at,
              head_at,
            )
            queued;
    }

pub drain_take-IsQueue :
    (w : FsWatcher) (published : List FsEvent)
    → w.consumer ≡ event_seen
    → IsQueue w published
    → IsQueue (drain_take w) published
drain_take-IsQueue w published seen q =
    let wanted = rw seen at q.wanted in
    let (k, more) = one_waits q.left wanted in
    let start : q.from + taken w.consumer ≡ q.from = rw seen (omega arith) in
    take_first w published q.from k q.head_at (rw (start, more) at q.tail_at)
      (let room = rw (seen, more) at q.room in omega arith) q.written (rw (start, more) at q.queued)

pub drain_advance-IsQueue :
    (w : FsWatcher) (published : List FsEvent)
    → w.consumer ≡ event_taken
    → IsQueue w published
    → IsQueue (drain_advance w) published
unfolding drain_advance
drain_advance-IsQueue w published moved q =
    let next : q.from + 1 + 0 ≡ q.from + taken w.consumer = rw moved (omega arith) in
    record {
      from = q.from + 1;
      left = q.left;
      head_at = omega (arith, q.head_at);
      tail_at = rw next q.tail_at;
      room = ground (arith, q.room);
      wanted = omega arith;
      written = q.written;
      queued = rw next q.queued;
    }
