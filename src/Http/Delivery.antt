-- ===== src/Http/Delivery.antt =====
-- What src/api/http.cpp delivers over several calls of execute: how the input is cut between the
-- calls shows in nothing but the cuts between Body events.
use brokit.Prelude.{
  ◌≡◌, refl, sym, ap, ◌∙◌, List, [], ◌∷◌, ◌++◌, append_assoc, append-nil, Bytes, Bool-cases, inl,
  inr, is_empty, if_elim,
}
use brokit.Http.{
  HttpEvent, headers, body, complete, upgraded, failed, ParserHandle, Info, Callback, message_begin,
  url, status, header_field, header_value, on_body, headers_complete, message_complete,
  flush_header_pair, on_message_begin, on_header_field, on_header_value, on_headers_complete,
  append_field, add_body, on_body_bytes, on_message_complete, run_callback, run_all,
}
use brokit.Http.Natives.{deliver}
use brokit.Http.Message.{run_all-append}

-- An event in front: a Body takes in the Body behind it.
abbrev pub absorb : HttpEvent → List HttpEvent → List HttpEvent
absorb (body a) (body b ∷ es) = body (a ++ b) ∷ es
absorb e es = e ∷ es

-- Neighbouring Body events made one.
unfoldable pub merged : List HttpEvent → List HttpEvent
merged [] = []
merged (e ∷ es) = absorb e (merged es)

merged-add_body :
    (at : Bytes) (es : List HttpEvent) → merged (add_body at es) ≡ merged (es ++ body at ∷ [])
unfolding merged add_body
merged-add_body at [] = refl
merged-add_body at (body bytes ∷ []) = refl
merged-add_body at (headers a b c d e f g h i ∷ []) = refl
merged-add_body at (complete a b ∷ []) = refl
merged-add_body at (upgraded a ∷ []) = refl
merged-add_body at (failed a b ∷ []) = refl
merged-add_body at (body bytes ∷ f ∷ es) = ap (absorb (body bytes)) (merged-add_body at (f ∷ es))
merged-add_body at (headers a b c d e g h i j ∷ f ∷ es) =
    ap (absorb (headers a b c d e g h i j)) (merged-add_body at (f ∷ es))
merged-add_body at (complete a b ∷ f ∷ es) =
    ap (absorb (complete a b)) (merged-add_body at (f ∷ es))
merged-add_body at (upgraded a ∷ f ∷ es) = ap (absorb (upgraded a)) (merged-add_body at (f ∷ es))
merged-add_body at (failed a b ∷ f ∷ es) = ap (absorb (failed a b)) (merged-add_body at (f ∷ es))

absorb-absorb :
    (a b : Bytes) (es : List HttpEvent)
    → absorb (body a) (absorb (body b) es) ≡ absorb (body (a ++ b)) es
absorb-absorb a b [] = refl
absorb-absorb a b (body c ∷ es) = ap (λ (x : Bytes). body x ∷ es) (sym (append_assoc a b c))
absorb-absorb a b (headers c d e f g h i j k ∷ es) = refl
absorb-absorb a b (complete c d ∷ es) = refl
absorb-absorb a b (upgraded c ∷ es) = refl
absorb-absorb a b (failed c d ∷ es) = refl

merged-absorb :
    (e : HttpEvent) (es fs : List HttpEvent)
    → merged (absorb e es ++ fs) ≡ absorb e (merged (es ++ fs))
unfolding merged
merged-absorb (body a) [] fs = refl
merged-absorb (body a) (body b ∷ es) fs = sym (absorb-absorb a b (merged (es ++ fs)))
merged-absorb (body a) (headers c d e f g h i j k ∷ es) fs = refl
merged-absorb (body a) (complete c d ∷ es) fs = refl
merged-absorb (body a) (upgraded c ∷ es) fs = refl
merged-absorb (body a) (failed c d ∷ es) fs = refl
merged-absorb (headers c d e f g h i j k) es fs = refl
merged-absorb (complete c d) es fs = refl
merged-absorb (upgraded c) es fs = refl
merged-absorb (failed c d) es fs = refl

-- What is merged already may be merged again.
merged-merged : (es fs : List HttpEvent) → merged (merged es ++ fs) ≡ merged (es ++ fs)
unfolding merged
merged-merged [] fs = refl
merged-merged (e ∷ es) fs = merged-absorb e (merged es) fs ∙ ap (absorb e) (merged-merged es fs)

-- Lists that are the same when merged are the same in front of any events.
merged-append :
    (es ds fs : List HttpEvent) → merged es ≡ merged ds → merged (es ++ fs) ≡ merged (ds ++ fs)
merged-append es ds fs same =
    sym (merged-merged es fs)
    ∙ (ap (λ (m : List HttpEvent). merged (m ++ fs)) same ∙ merged-merged ds fs)

merged-prepend :
    (es ds fs : List HttpEvent) → merged ds ≡ merged fs → merged (es ++ ds) ≡ merged (es ++ fs)
unfolding merged
merged-prepend [] ds fs same = same
merged-prepend (e ∷ es) ds fs same = ap (absorb e) (merged-prepend es ds fs same)

abbrev pub cleared : ParserHandle → ParserHandle
cleared h = record h { events = [] }

-- The gathered strings do not depend on the events, and do not change them.
cleared-flush_header_pair :
    (h : ParserHandle) → flush_header_pair (cleared h) ≡ cleared (flush_header_pair h)
unfolding flush_header_pair
cleared-flush_header_pair h = elim (Bool-cases (is_empty h.cur_field)) [
  | inl e ↦ rw e refl
  | inr e ↦ rw e refl
]

events-flush_header_pair : (h : ParserHandle) → (flush_header_pair h).events ≡ h.events
unfolding flush_header_pair
events-flush_header_pair h = elim (Bool-cases (is_empty h.cur_field)) [
  | inl e ↦ rw e refl
  | inr e ↦ rw e refl
]

cleared-on_header_field :
    (at : Bytes) (h : ParserHandle)
    → on_header_field at (cleared h) ≡ cleared (on_header_field at h)
unfolding on_header_field append_field flush_header_pair
cleared-on_header_field at h = elim (Bool-cases h.last_was_value) [
  | inl e ↦ rw e (ap (append_field at) (cleared-flush_header_pair h))
  | inr e ↦ rw e refl
]

events-on_header_field : (at : Bytes) (h : ParserHandle) → (on_header_field at h).events ≡ h.events
unfolding on_header_field append_field
events-on_header_field at h =
    if_elim (λ (g : ParserHandle). g.events ≡ h.events) h.last_was_value _ _
      (λ _. events-flush_header_pair h) (λ _. refl)

cleared-on_headers_complete :
    (i : Info) (h : ParserHandle)
    → cleared (on_headers_complete i h).0 ≡ cleared (on_headers_complete i (cleared h)).0
unfolding on_headers_complete flush_header_pair
cleared-on_headers_complete i h = elim (Bool-cases (is_empty h.cur_field)) [
  | inl e ↦ rw e (elim (Bool-cases h.is_response) [ inl r ↦ rw r refl | inr r ↦ rw r refl ])
  | inr e ↦ rw e (elim (Bool-cases h.is_response) [ inl r ↦ rw r refl | inr r ↦ rw r refl ])
]

cleared-run_callback :
    (c : Callback) (h : ParserHandle)
    → cleared (run_callback c h) ≡ cleared (run_callback c (cleared h))
unfolding run_callback
cleared-run_callback message_begin h = unfold on_message_begin in refl
cleared-run_callback (url at) h = refl
cleared-run_callback (status at) h = refl
cleared-run_callback (header_field at) h = ap cleared (sym (cleared-on_header_field at h))
cleared-run_callback (header_value at) h = unfold on_header_value in refl
cleared-run_callback (on_body at) h =
    unfold on_body_bytes in
    (elim (Bool-cases (is_empty at)) [ inl e ↦ rw e refl | inr e ↦ rw e refl ])
cleared-run_callback (headers_complete i) h = cleared-on_headers_complete i h
cleared-run_callback (message_complete i) h = unfold on_message_complete in refl

events-on_headers_complete :
    (i : Info) (h : ParserHandle)
    → (on_headers_complete i h).0.events ≡ h.events ++ (on_headers_complete i (cleared h)).0.events
unfolding on_headers_complete flush_header_pair
events-on_headers_complete i h = elim (Bool-cases (is_empty h.cur_field)) [
  | inl e ↦ rw e (elim (Bool-cases h.is_response) [ inl r ↦ rw r refl | inr r ↦ rw r refl ])
  | inr e ↦ rw e (elim (Bool-cases h.is_response) [ inl r ↦ rw r refl | inr r ↦ rw r refl ])
]

-- A callback adds its event behind those that wait.
merged-run_callback :
    (c : Callback) (h : ParserHandle)
    → merged (run_callback c h).events ≡ merged (h.events ++ (run_callback c (cleared h)).events)
unfolding run_callback
merged-run_callback message_begin h =
    unfold on_message_begin in (ap merged (sym (append-nil h.events)))
merged-run_callback (url at) h = ap merged (sym (append-nil h.events))
merged-run_callback (status at) h = ap merged (sym (append-nil h.events))
merged-run_callback (header_field at) h = ap merged (
    events-on_header_field at h
    ∙ (sym (append-nil h.events)
        ∙ ap (λ (es : List HttpEvent). h.events ++ es)
            (sym (events-on_header_field at (cleared h)))))
merged-run_callback (header_value at) h =
    unfold on_header_value in (ap merged (sym (append-nil h.events)))
merged-run_callback (on_body at) h =
    unfold on_body_bytes in
    (elim (Bool-cases (is_empty at)) [
      | inl e ↦ rw e (ap merged (sym (append-nil h.events)))
      | inr e ↦ rw e (unfold add_body in (merged-add_body at h.events))
    ])
merged-run_callback (headers_complete i) h = ap merged (events-on_headers_complete i h)
merged-run_callback (message_complete i) h = unfold on_message_complete in refl

cleared-run_all :
    (cs : List Callback) (h : ParserHandle)
    → cleared (run_all cs h) ≡ cleared (run_all cs (cleared h))
unfolding run_all
cleared-run_all [] h = refl
cleared-run_all (c ∷ cs) h =
    cleared-run_all cs (run_callback c h)
    ∙ (ap (λ (g : ParserHandle). cleared (run_all cs g)) (cleared-run_callback c h)
        ∙ sym (cleared-run_all cs (run_callback c (cleared h))))

-- Callbacks add their events behind those that wait.
merged-run_all :
    (cs : List Callback) (h : ParserHandle)
    → merged (run_all cs h).events ≡ merged (h.events ++ (run_all cs (cleared h)).events)
unfolding run_all
merged-run_all [] h = ap merged (sym (append-nil h.events))
merged-run_all (c ∷ cs) h =
    let g = run_callback c h in
    let k = run_callback c (cleared h) in
    let later = (run_all cs (cleared g)).events in
    let agree : (run_all cs (cleared k)).events ≡ later =
      ap (λ (x : ParserHandle). (run_all cs x).events) (sym (cleared-run_callback c h)) in
    merged-run_all cs g
    ∙ (merged-append g.events (h.events ++ k.events) later (merged-run_callback c h)
        ∙ (ap merged (append_assoc h.events k.events later)
            ∙ merged-prepend h.events (k.events ++ later) (run_all cs k).events (
                ap (λ (es : List HttpEvent). merged (k.events ++ es)) (sym agree)
                ∙ sym (merged-run_all cs k))))

-- What calls of execute deliver one after the other.
unfoldable pub deliver_all : List (List Callback) → ParserHandle → List HttpEvent
deliver_all [] h = []
deliver_all (cs ∷ css) h = let (g, es) = deliver cs [] h in es ++ deliver_all css g

unfoldable pub in_one : List (List Callback) → List Callback
in_one [] = []
in_one (cs ∷ css) = cs ++ in_one css

-- However the callbacks of llhttp are spread over calls of execute, the script gets the same events,
-- but for Body events that a single call makes one; a handle keeps no event between the calls.
pub merged-deliver_all :
    (css : List (List Callback)) (h : ParserHandle)
    → merged (deliver_all css (cleared h)) ≡ merged (deliver (in_one css) [] (cleared h)).1
unfolding deliver_all in_one deliver run_all
merged-deliver_all [] h = refl
merged-deliver_all (cs ∷ css) h =
    let r = run_all cs (cleared h) in
    let rest = (run_all (in_one css) (cleared r)).events in
    merged-prepend (r.events ++ []) (deliver_all css (cleared r)) (rest ++ [])
      (merged-deliver_all css r)
    ∙ rw
        (
          append-nil r.events,
          append-nil rest,
          run_all-append cs (in_one css) (cleared h),
          append-nil (run_all (in_one css) r).events,
        )
        (sym (merged-run_all (in_one css) r))
