-- ===== src/Child/Pipe.antt =====
-- One pipe of a child: PipeBuf of src/api/child_process_internal.h, pipeReader of src/api/child_process_spawn.cpp in the
-- steps of its thread, and what js_childRead takes. A step that holds the lock is one step.
use brokit.Prelude.{
  ℕ, ◌≡◌, refl, sym, ap, ◌∙◌, ◌+◌, ◌-◌, ◌≤◌, Bool, true, false, [], ◌∷◌, ◌++◌, Option, none, some,
  Bytes, is_empty, length, length-append, ltb, leb, if◌then◌else◌, arith, append_assoc, append-nil,
  if_elim,
}
use Prim.Native.Nat.{min}

-- Where the reader's loop is: before its poll, behind it with some room, or with what it read and has not added.
pub data Reader : Type 0 where
  polls stopped : Reader
  has_room : ℕ → Reader
  has_read : Bytes → Reader

pub record PipeBuf : Type 0 where
  pub data_bytes : Bytes
  pub eof : Bool
  pub high_water : ℕ
  pub reader : Reader

abbrev pub new_pipe : (high_water : ℕ) → PipeBuf
new_pipe high_water = record {
  data_bytes = [];
  eof = false;
  high_water = high_water;
  reader = polls;
}

-- chunkSize
abbrev pub chunk_size : ℕ
chunk_size = 262144

-- The wait ends, since there is room.
unfoldable pub find_room : PipeBuf → Option PipeBuf
find_room p =
    if ltb (length p.data_bytes) p.high_water
    then some (record p { reader = has_room (p.high_water - length p.data_bytes) })
    else none

-- ::read with `room`: none where it is to be tried again, no bytes at the end or where it fails. It gives no more
-- than it was asked for.
unfoldable pub read_with : (room : ℕ) → Option Bytes → PipeBuf → Option PipeBuf
read_with room none p = some (record p { reader = polls })
read_with room (some got) p =
    if is_empty got
    then some (record p { reader = stopped; eof = true })
    else if leb (length got) (min chunk_size room)
    then some (record p { reader = has_read got })
    else none

-- One step of the reader's thread; `closes` where it sees `closing` or poll fails, `answer` what ::read gives.
unfoldable pub reader_step : (closes : Bool) (answer : Option Bytes) → PipeBuf → Option PipeBuf
reader_step closes answer p = elim p.reader [
  | polls ↦ if closes then some (record p { reader = stopped; eof = true }) else find_room p
  | stopped ↦ none
  | has_room room ↦ read_with room answer p
  | has_read got ↦ some (record p { reader = polls; data_bytes = p.data_bytes ++ got })
]

-- The `take` of js_childRead: the bytes, none for null, and whether the end was seen.
unfoldable pub take_all : PipeBuf → PipeBuf × Option Bytes × Bool
take_all p =
    (record p { data_bytes = [] }, if is_empty p.data_bytes then none else some p.data_bytes, p.eof)

-- What the reader has read and not added.
unfoldable pub pending : Reader → Bytes
pending polls = []
pending stopped = []
pending (has_room room) = []
pending (has_read got) = got

-- How much it may yet add.
unfoldable pub claimed : Reader → ℕ
claimed polls = 0
claimed stopped = 0
claimed (has_room room) = room
claimed (has_read got) = length got

-- The bytes that ::read gives in a step.
unfoldable pub arrived : Reader → Option Bytes → Bytes
arrived (has_room room) (some got) = got
arrived (has_room room) none = []
arrived polls answer = []
arrived stopped answer = []
arrived (has_read got) answer = []

unfoldable pub or_nothing : Option Bytes → Bytes
or_nothing none = []
or_nothing (some b) = b

-- A history of a pipe: what ::read gave in all, and what js_childRead gave.
pub data Run : PipeBuf → (came given : Bytes) → Type 0 where
  start : (high_water : ℕ) → Run (new_pipe high_water) [] []
  reads :
      (closes : Bool) (answer : Option Bytes) (p p' : PipeBuf) (came given : Bytes)
      → Run p came given
      → reader_step closes answer p ≡ some p'
      → Run p' (came ++ arrived p.reader answer) given
  takes :
      (p : PipeBuf) (came given : Bytes)
      → Run p came given
      → Run (take_all p).0 came (given ++ or_nothing (take_all p).1)

-- Nothing is lost, the buffer keeps its bound, and behind the end there is nothing to come.
Inv : PipeBuf → (came given : Bytes) → Type 0
Inv p came given =
    (given ++ (p.data_bytes ++ pending p.reader) ≡ came)
    × (length p.data_bytes + claimed p.reader ≤ p.high_water)
    × (p.eof ≡ true → p.reader ≡ stopped)

empty_nil : (d : Bytes) → is_empty d ≡ true → d ≡ []
empty_nil [] e = refl
empty_nil (c ∷ d) e = cc

taken :
    (p : PipeBuf) (came given : Bytes)
    → given ++ (p.data_bytes ++ pending p.reader) ≡ came
    → given ++ (or_nothing (take_all p).1 ++ pending p.reader) ≡ came
unfolding take_all or_nothing
taken p came given same =
    if_elim (λ o. given ++ (or_nothing o ++ pending p.reader) ≡ came) (is_empty p.data_bytes) none
      (some p.data_bytes)
      (λ e. ap (λ x. given ++ (x ++ pending p.reader)) (sym (empty_nil p.data_bytes e)) ∙ same)
      (λ _. same)

take-Inv :
    (p : PipeBuf) (came given : Bytes)
    → Inv p came given
    → Inv (take_all p).0 came (given ++ or_nothing (take_all p).1)
unfolding Inv take_all or_nothing
take-Inv p came given (same, fits, ends) =
    let bound : 0 + claimed p.reader ≤ p.high_water = omega arith in
    (
      append_assoc given (or_nothing (take_all p).1) (pending p.reader) ∙ taken p came given same,
      bound,
      ends,
    )

-- What a step leads to, if it can be made.
Kept : Option PipeBuf → (came given : Bytes) → Type 0
Kept o came given = (p : PipeBuf) → o ≡ some p → Inv p came given

some-Kept : (p : PipeBuf) (came given : Bytes) → Inv p came given → Kept (some p) came given
unfolding Kept
some-Kept p came given h q e = let same : p ≡ q = cc in rw (sym same) h

made :
    (o : Option PipeBuf) (came given : Bytes)
    → Kept o came given
    → (p : PipeBuf) → o ≡ some p
    → Inv p came given
unfolding Kept
made o came given h = h

none-Kept : (came given : Bytes) → Kept none came given
unfolding Kept
none-Kept came given q e = cc

step-Inv :
    (closes : Bool) (answer : Option Bytes) (r : Reader) (d : Bytes) (e : Bool) (hw : ℕ)
    (came given : Bytes)
    → Inv (record { data_bytes = d; eof = e; high_water = hw; reader = r }) came given
    → Kept
        (reader_step closes answer
          (record { data_bytes = d; eof = e; high_water = hw; reader = r }))
        (came ++ arrived r answer)
        given
unfolding Inv reader_step find_room read_with arrived pending claimed
step-Inv true answer polls d e hw came given (same, fits, ends) =
    some-Kept _ (came ++ []) given (same ∙ sym (append-nil came), fits, λ _. refl)
step-Inv false answer polls d e hw came given (same, fits, ends) =
    if_elim (λ o. Kept o (came ++ []) given) (ltb (length d) hw) _ none
      (λ less.
        some-Kept _ (came ++ []) given
          (same ∙ sym (append-nil came), ground arith, λ t. let bad = ends t in cc))
      (λ _. none-Kept (came ++ []) given)
step-Inv closes answer stopped d e hw came given h = none-Kept (came ++ []) given
step-Inv closes none (has_room room) d e hw came given (same, fits, ends) =
    some-Kept _ (came ++ []) given
      (same ∙ sym (append-nil came), omega arith, λ t. let bad = ends t in cc)
step-Inv closes (some []) (has_room room) d e hw came given (same, fits, ends) =
    some-Kept _ (came ++ []) given (same ∙ sym (append-nil came), omega arith, λ _. refl)
step-Inv closes (some (c ∷ got)) (has_room room) d e hw came given (same, fits, ends) =
    if_elim (λ o. Kept o (came ++ (c ∷ got)) given) (leb (length (c ∷ got)) (min chunk_size room)) _
      none
      (λ less. some-Kept _ (came ++ (c ∷ got)) given (
        sym (append_assoc given d (c ∷ got))
            ∙ ap (λ x. x ++ (c ∷ got)) (ap (λ x. given ++ x) (sym (append-nil d)) ∙ same),
        ground arith,
        λ t. let bad = ends t in cc,
      ))
      (λ _. none-Kept (came ++ (c ∷ got)) given)
step-Inv closes answer (has_read got) d e hw came given (same, fits, ends) =
    some-Kept _ (came ++ []) given (
      ap (λ x. given ++ x) (append-nil (d ++ got)) ∙ same ∙ sym (append-nil came),
      omega (arith, length-append d got),
      λ t. let bad = ends t in cc,
    )

Run-Inv : (p : PipeBuf) (came given : Bytes) → Run p came given → Inv p came given
unfolding Inv pending claimed
Run-Inv _ _ _ (start hw) = (refl, omega arith, λ t. cc)
Run-Inv _ _ _ (reads closes answer p p' came given h step) =
    let kept =
      step-Inv closes answer p.reader p.data_bytes p.eof p.high_water came given
        (Run-Inv p came given h) in
    made _ _ _ kept p' step
Run-Inv _ _ _ (takes p came given h) = take-Inv p came given (Run-Inv p came given h)

ended_pending :
    (p : PipeBuf)
    → (p.eof ≡ true → p.reader ≡ stopped)
    → (if p.eof then pending p.reader else []) ≡ []
unfolding pending
ended_pending p h =
    if_elim (λ x. x ≡ []) p.eof (pending p.reader) [] (λ e. ap pending (h e)) (λ _. refl)

-- However the reader and childRead interleave: what childRead has given, what it would give now, and what the
-- reader has read and not added are all that ::read gave, in order; and where childRead would tell the end, there
-- is nothing of the last.
pub Run-given :
    (p : PipeBuf) (came given : Bytes)
    → Run p came given
    → (given ++ (or_nothing (take_all p).1 ++ pending p.reader) ≡ came)
      × ((if (take_all p).2 then pending p.reader else []) ≡ [])
unfolding Inv take_all
Run-given p came given h =
    let (same, fits, ends) = Run-Inv p came given h in
    (taken p came given same, ended_pending p ends)

-- However the reader and childRead interleave, a pipe never buffers more than its highWaterMark.
pub Run-bound :
    (p : PipeBuf) (came given : Bytes) → Run p came given → length p.data_bytes ≤ p.high_water
unfolding Inv
Run-bound p came given h = let (same, fits, ends) = Run-Inv p came given h in omega arith
