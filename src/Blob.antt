-- ===== src/Blob.antt =====
-- src/api/blob.cpp: the slices of a Blob, and the reads of a FileReader. The encoder of that file
-- stands in Base64.antt.
mod Tests
pub mod Slices
pub mod Reading
use brokit.Prelude.{
  ℕ, zero, suc, ◌+◌, ◌-◌, ◌≡◌, Bool, true, false, List, [], ◌∷◌, ◌++◌, Option, none, some, Bytes,
  length, take, drop, ltb, ◌==◌, if◌then◌else◌, ℤ, pos, negsuc,
}

-- The place that a bound of blobSlice means: from the end where it is negative, and inside the blob.
unfoldable pub clamped : (size : ℕ) → ℤ → ℕ
clamped size (pos i) = if ltb size i then size else i
clamped size (negsuc k) = size - suc k

-- blobSlice on the bytes. A start that is not given is 0, an end that is not given or is undefined is
-- the size.
unfoldable pub slice : (start end : Option ℤ) → Bytes → Bytes
slice start end bytes =
    let size = length bytes in
    let from : ℕ = elim start [ none ↦ 0 | some z ↦ clamped size z ] in
    let stop : ℕ = elim end [ none ↦ size | some z ↦ clamped size z ] in
    let to = if ltb stop from then from else stop in take (to - from) (drop from bytes)

-- readyState
pub data ReadyState : Type 0 where
  empty loading done : ReadyState

-- The result and error members: null, what a read produced, or the NotFoundError.
pub data Slot : Type 0 where
  null not_found : Slot
  produced : Bytes → Slot

pub data ReaderEvent : Type 0 where
  loadstart progress load loadend error_event abort_event : ReaderEvent

-- ReaderData
pub record ReaderData : Type 0 where
  pub ready_state : ReadyState
  pub generation : ℕ
  pub result : Slot
  pub error : Slot

-- A task that startRead posts: its generation, and the bytes unless the argument was no Blob.
pub record Task : Type 0 where
  pub generation : ℕ
  pub bytes : Option Bytes

-- A reader with the tasks that the host has not run, the oldest first, and the events that are left
-- to dispatch. What a handler calls in between comes in front of the rest.
pub record Reader : Type 0 where
  pub data_of : ReaderData
  pub posted : List Task
  pub to_fire : List ReaderEvent

abbrev pub new_reader : Reader
new_reader = record {
  data_of = record { ready_state = empty; generation = 0; result = null; error = null };
  posted = [];
  to_fire = [];
}

-- startRead, where the host has a task poster.
unfoldable pub start_read : Option Bytes → Reader → Reader
start_read bytes r =
    let generation = r.data_of.generation + 1 in
    record r {
      data_of = record {
        ready_state = loading;
        generation = generation;
        result = null;
        error = null;
      };
      posted = r.posted ++ record { generation = generation; bytes = bytes } ∷ [];
    }

-- The task's work; `produce` makes the result of the bytes.
unfoldable pub finish : (produce : Bytes → Bytes) → Task → Reader → Reader
finish produce t r =
    let d = r.data_of in
    elim t.bytes [
      | none ↦ record r {
        data_of = record d { ready_state = done; error = not_found };
        to_fire = loadstart ∷ error_event ∷ loadend ∷ r.to_fire;
      }
      | some bytes ↦ record r {
        data_of = record d { ready_state = done; result = produced (produce bytes) };
        to_fire = loadstart ∷ progress ∷ load ∷ loadend ∷ r.to_fire;
      }
    ]

-- A posted task: nothing where the reader has moved on.
unfoldable pub run_task : (produce : Bytes → Bytes) → Task → Reader → Reader
run_task produce t r = if t.generation == r.data_of.generation then finish produce t r else r

-- abort
unfoldable pub abort : Reader → Reader
abort r =
    let d = r.data_of in
    record r {
      data_of = record d { ready_state = done; generation = d.generation + 1; result = null };
      to_fire = abort_event ∷ loadend ∷ r.to_fire;
    }

-- What may happen: a call of the script, the host's next task when no event is left, an event that is
-- dispatched.
pub data Step (produce : Bytes → Bytes) (r : Reader) : Reader → Type 0 where
  reads : (bytes : Option Bytes) → Step produce r (start_read bytes r)
  aborts : Step produce r (abort r)
  runs :
      (t : Task) (ts : List Task)
      → r.posted ≡ t ∷ ts
      → r.to_fire ≡ []
      → Step produce r (run_task produce t (record r { posted = ts }))
  fires :
      (e : ReaderEvent) (es : List ReaderEvent)
      → r.to_fire ≡ e ∷ es
      → Step produce r (record r { to_fire = es })

pub data Reach (produce : Bytes → Bytes) : Reader → Type 0 where
  start : Reach produce new_reader
  then_step : {r s : Reader} → Reach produce r → Step produce r s → Reach produce s
