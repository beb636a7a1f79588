-- ===== src/Http/Tests.antt =====
-- Runs of src/api/http.cpp.
use brokit.Prelude.{◌≡◌, refl, false, true, List, [], ◌∷◌, ◌++◌, map, some, codes}
use brokit.Http.{
  headers, body, complete, Info, Callback, message_begin, url, status, header_field, header_value,
  on_body, headers_complete, message_complete, run_all, run_callback, on_message_begin,
  on_header_field, append_field, on_header_value, on_headers_complete, flush_header_pair,
  on_body_bytes, add_body, on_message_complete,
}
use brokit.Http.Natives.{new_parser, deliver}
use brokit.Http.Message.{Header, header_callbacks, header_event, joined, raw, events-header}
use brokit.Http.Delivery.{merged, deliver_all, in_one, cleared, merged-deliver_all}

abbrev get_info : Info
get_info = record {
  method = some (codes "GET");
  status_code = 0;
  major = 1;
  minor = 1;
  upgrade = false;
  keep_alive = true;
}

-- A request that is cut inside its URL and inside a header's name.
abbrev host : Header
host = record { name = codes "Ho" ∷ codes "st" ∷ []; value_first = codes "a"; value_rest = [] }

abbrev first_half : List Callback
first_half = message_begin ∷ url (codes "/in") ∷ url (codes "dex") ∷ header_field (codes "Ho") ∷ []

abbrev second_half : List Callback
second_half =
    header_field (codes "st")
    ∷ header_value (codes "a")
    ∷ headers_complete get_info
    ∷ on_body (codes "x")
    ∷ on_body (codes "y")
    ∷ message_complete get_info
    ∷ []

request_runs :
    deliver_all (first_half ∷ second_half ∷ []) (new_parser false)
    ≡ headers (codes "GET") (codes "/index") 0 [] 1 1 false true (codes "Host" ∷ codes "a" ∷ [])
      ∷ body (codes "xy")
      ∷ complete false true
      ∷ []
unfolding deliver_all deliver run_all run_callback on_message_begin on_header_field append_field
    on_header_value on_headers_complete flush_header_pair on_body_bytes add_body on_message_complete
request_runs = refl

merged-deliver_all_example :
    merged (deliver_all (first_half ∷ second_half ∷ []) (cleared (new_parser false)))
    ≡ merged (deliver (in_one (first_half ∷ second_half ∷ [])) [] (cleared (new_parser false))).1
merged-deliver_all_example = merged-deliver_all (first_half ∷ second_half ∷ []) (new_parser false)

events-header_example :
    (run_all
      (message_begin
        ∷ (map url (codes "/in" ∷ codes "dex" ∷ [])
            ++ (map status [] ++ (header_callbacks (host ∷ []) ++ headers_complete get_info ∷ []))))
      (new_parser false)).events
    ≡ []
      ++ header_event false get_info
          (joined (codes "/in" ∷ codes "dex" ∷ []))
          (joined [])
          (raw (host ∷ []))
        ∷ []
events-header_example =
    events-header (codes "/in" ∷ codes "dex" ∷ []) [] (host ∷ []) get_info (new_parser false)
      (refl, tt)
