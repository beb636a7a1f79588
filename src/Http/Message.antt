-- ===== src/Http/Message.antt =====
-- The header of a message in src/api/http.cpp, however llhttp cuts it into pieces.
use brokit.Prelude.{
  ◌≡◌, refl, sym, ap, ◌∙◌, Bool, true, false, List, [], ◌∷◌, ◌++◌, append_assoc, append-nil, map,
  Bytes, All, arith, is_empty, if◌then◌else◌,
}
use brokit.Http.{
  HttpEvent, headers, ParserHandle, Info, or_get, Callback, message_begin, url, status,
  header_field, header_value, headers_complete, flush_header_pair, append_field, on_message_begin,
  on_header_field, on_header_value, on_headers_complete, run_callback, run_all,
}

-- The pieces put together.
abbrev pub joined : List Bytes → Bytes
joined [] = []
joined (s ∷ ss) = s ++ joined ss

-- A header as llhttp calls it back: its name and its value in pieces. There is a callback for the
-- value, also where it is empty.
pub record Header : Type 0 where
  pub name : List Bytes
  pub value_first : Bytes
  pub value_rest : List Bytes

unfoldable pub header_callbacks : List Header → List Callback
header_callbacks [] = []
header_callbacks (x ∷ xs) =
    map header_field x.name
    ++ (header_value x.value_first ∷ (map header_value x.value_rest ++ header_callbacks xs))

-- The names and values in turn, as Node's rawHeaders has them.
unfoldable pub raw : List Header → List Bytes
raw [] = []
raw (x ∷ xs) = joined x.name ∷ (x.value_first ++ joined x.value_rest) ∷ raw xs

pub run_all-append :
    (cs ds : List Callback) (h : ParserHandle) → run_all (cs ++ ds) h ≡ run_all ds (run_all cs h)
unfolding run_all
run_all-append [] ds h = refl
run_all-append (c ∷ cs) ds h = run_all-append cs ds (run_callback c h)

-- Pieces that a callback gathers in one buffer.
run_pieces :
    (k : Bytes → Callback) (gathered : Bytes → ParserHandle) (b : Bytes) (ss : List Bytes)
    → ((b at : Bytes) → run_callback (k at) (gathered b) ≡ gathered (b ++ at))
    → run_all (map k ss) (gathered b) ≡ gathered (b ++ joined ss)
unfolding run_all
run_pieces k gathered b [] step = ap gathered (sym (append-nil b))
run_pieces k gathered b (s ∷ ss) step =
    ap (run_all (map k ss)) (step b s)
    ∙ (run_pieces k gathered (b ++ s) ss step ∙ ap gathered (append_assoc b s (joined ss)))

-- The event of a complete header.
abbrev pub header_event :
    (is_response : Bool) → Info → (url status : Bytes) → List Bytes → HttpEvent
header_event is_response i u s hs =
    if is_response
    then headers [] [] i.status_code s i.major i.minor i.upgrade i.keep_alive hs
    else headers (or_get i.method) u 0 [] i.major i.minor i.upgrade i.keep_alive hs

module _ (h : ParserHandle) where
  -- Within a name, behind the given headers.
  abbrev in_name : List Bytes → Bytes → ParserHandle
  in_name hs n = record h {
    raw_headers = hs;
    cur_field = n;
    cur_value = [];
    last_was_value = false;
  }

  -- Within the value of a name.
  abbrev in_value : List Bytes → Bytes → Bytes → ParserHandle
  in_value hs n v = record h {
    raw_headers = hs;
    cur_field = n;
    cur_value = v;
    last_was_value = true;
  }

  run_name :
      (hs ns : List Bytes) → run_all (map header_field ns) (in_name hs []) ≡ in_name hs (joined ns)
  run_name hs ns = run_pieces header_field (in_name hs) [] ns step
    where
      step : (b at : Bytes) → run_callback (header_field at) (in_name hs b) ≡ in_name hs (b ++ at)
      step b at = unfold run_callback in (unfold on_header_field in (unfold append_field in refl))

  run_value :
      (hs : List Bytes) (n v : Bytes) (vs : List Bytes)
      → run_all (header_value v ∷ map header_value vs) (in_name hs n)
        ≡ in_value hs n (v ++ joined vs)
  unfolding run_all run_callback on_header_value
  run_value hs n v vs = run_pieces header_value (in_value hs n) v vs (λ b at. refl)

  -- What comes behind a header finds it flushed: another header, or the end of the headers.
  flushed :
      (hs : List Bytes) (n v at : Bytes)
      → is_empty n ≡ false
      → on_header_field at (in_value hs n v) ≡ on_header_field at (in_name (hs ++ n ∷ v ∷ []) [])
  unfolding on_header_field append_field flush_header_pair
  flushed hs n v at named = rw named refl

  settled_name :
      (hs : List Bytes) (n v : Bytes) (ns : List Bytes) (rest : List Callback)
      → is_empty n ≡ false
      → is_empty (joined ns) ≡ false
      → run_all (map header_field ns ++ rest) (in_value hs n v)
        ≡ run_all (map header_field ns ++ rest) (in_name (hs ++ n ∷ v ∷ []) [])
  unfolding run_all run_callback
  settled_name hs n v [] rest named other = cc
  settled_name hs n v (p ∷ ps) rest named other =
      ap (run_all (map header_field ps ++ rest)) (flushed hs n v p named)

  settled :
      (hs : List Bytes) (n v : Bytes) (xs : List Header) (i : Info)
      → is_empty n ≡ false
      → All (λ (x : Header). is_empty (joined x.name) ≡ false) xs
      → run_all (header_callbacks xs ++ headers_complete i ∷ []) (in_value hs n v)
        ≡ run_all (header_callbacks xs ++ headers_complete i ∷ []) (in_name (hs ++ n ∷ v ∷ []) [])
  unfolding header_callbacks run_all run_callback on_headers_complete flush_header_pair
  settled hs n v [] i named ok = rw named refl
  settled hs n v (x ∷ xs) i named (other, ok) =
      let rest =
        header_value x.value_first ∷ (map header_value x.value_rest ++ header_callbacks xs) in
      rw (append_assoc (map header_field x.name) rest (headers_complete i ∷ []))
        (settled_name hs n v x.name (rest ++ headers_complete i ∷ []) named other)

  one_header :
      (hs : List Bytes) (x : Header) (rest : List Callback)
      → run_all
          (map header_field x.name
            ++ ((header_value x.value_first ∷ map header_value x.value_rest) ++ rest))
          (in_name hs [])
        ≡ run_all rest (in_value hs (joined x.name) (x.value_first ++ joined x.value_rest))
  one_header hs x rest =
      let values = header_value x.value_first ∷ map header_value x.value_rest in
      run_all-append (map header_field x.name) (values ++ rest) (in_name hs [])
      ∙ (ap (run_all (values ++ rest)) (run_name hs x.name)
          ∙ (run_all-append values rest (in_name hs (joined x.name))
              ∙ ap (run_all rest) (run_value hs (joined x.name) x.value_first x.value_rest)))

  complete_headers :
      (hs : List Bytes) (xs : List Header) (i : Info)
      → All (λ (x : Header). is_empty (joined x.name) ≡ false) xs
      → (run_all (header_callbacks xs ++ headers_complete i ∷ []) (in_name hs [])).events
        ≡ h.events ++ header_event h.is_response i h.url_buf h.status_buf (hs ++ raw xs) ∷ []
  unfolding header_callbacks raw
  complete_headers hs [] i ok =
      unfold run_all in
      (unfold run_callback in
        (unfold on_headers_complete in
          (unfold flush_header_pair in (rw (append-nil hs) (ground arith)))))
  complete_headers hs (x ∷ xs) i (named, ok) =
      let n = joined x.name in
      let v = x.value_first ++ joined x.value_rest in
      let values = header_value x.value_first ∷ map header_value x.value_rest in
      let behind = headers_complete i ∷ [] in
      rw
        (
          append_assoc (map header_field x.name) (values ++ header_callbacks xs) behind,
          append_assoc values (header_callbacks xs) behind,
          one_header hs x (header_callbacks xs ++ behind),
          settled hs n v xs i named ok,
          ← append_assoc hs (n ∷ v ∷ []) (raw xs),
        )
        (complete_headers (hs ++ n ∷ v ∷ []) xs i ok)

-- The header of a message becomes one event, however llhttp cuts its line and its headers into
-- pieces: the URL of a request or the status of a response, and each header's name, one that is not
-- empty, followed by its value. What the handle had gathered before does not show in it.
pub events-header :
    (us ss : List Bytes) (xs : List Header) (i : Info) (h : ParserHandle)
    → All (λ (x : Header). is_empty (joined x.name) ≡ false) xs
    → (run_all
        (message_begin
          ∷ (map url us ++ (map status ss ++ (header_callbacks xs ++ headers_complete i ∷ []))))
        h).events
      ≡ h.events ++ header_event h.is_response i (joined us) (joined ss) (raw xs) ∷ []
unfolding run_all run_callback on_message_begin
events-header us ss xs i h ok =
    let lined : Bytes → Bytes → ParserHandle =
      λ u s. in_name (record h { url_buf = u; status_buf = s }) [] [] in
    let behind = header_callbacks xs ++ headers_complete i ∷ [] in
    let at_headers : run_all (map url us ++ (map status ss ++ behind)) (lined [] [])
        ≡ run_all behind (lined (joined us) (joined ss)) =
      run_all-append (map url us) (map status ss ++ behind) (lined [] [])
      ∙ (ap (run_all (map status ss ++ behind))
            (run_pieces url (λ u. lined u []) [] us (λ b at. refl))
          ∙ (run_all-append (map status ss) behind (lined (joined us) [])
              ∙ ap (run_all behind)
                  (run_pieces status (λ s. lined (joined us) s) [] ss (λ b at. refl)))) in
    ap (λ (g : ParserHandle). g.events) at_headers
    ∙ complete_headers (record h { url_buf = joined us; status_buf = joined ss }) [] xs i ok
