-- ===== src/Fetch/Tests.antt =====
-- Requests of src/api/fetch.cpp at work, and the theorems at them.
use brokit.Prelude.{ℕ, ◌≡◌, refl, true, false, inl, [], ◌∷◌, ◌++◌, none, some, codes, arith}
use brokit.Prelude.Table.{lookup, put, remove}
use brokit.Prelude.Tally.{tally}
use brokit.Fetch.{
  FetchRequest, FetchState, no_fetches, new_request, released, without_first, keep, drop_request,
  write_callback, scheme_of, is_http_url, starts_with,
}
use brokit.Fetch.Options.{Options, first_wrong, wrong, or_next}
use brokit.Fetch.Natives.{
  fetch, fetch_scheme, fetch_http, fetch_checked, start_transfer, stream_read, read_chunk, try_read,
  waits_on, stream_wait, call_reader,
}
use brokit.Fetch.Tick.{
  writes, called_back, call_back, Info, resolve_found, resolve_one, resolve_all, resolve_streaming,
  settle_effects, complete_found, complete, listed, close_found, close_current, close, with_info,
  finish, Message, performed, keys, notify_one, notify_all, notify_found, complete_all,
  settle_local, settle_ids, fetch_tick, fetch_has_pending,
}
use brokit.Fetch.Kept.{Sound}
use brokit.Fetch.Reach.{
  Reach, start, step, fetches, reads, calls_back, streams_on, finishes, Sound-Reach,
}
use brokit.Fetch.Body.{gift, given, flat, aborts_of}
use brokit.Fetch.Given.{given-body}
use brokit.Fetch.Ends.{Ended, finish-Ended}
use brokit.Fetch.Loop.{fetch_has_pending-Reach}

abbrev no_options : Options
no_options = record {
  mode = none;
  credentials = none;
  cache = none;
  redirect = none;
  referrer = none;
  method = none;
  header_lines = [];
  body = [];
}

abbrev fine : Info
fine = record { status = 200; effective_url = none }

-- A request is made, two bytes of its body come, its promise is resolved, the bytes are read; then the transfer is over.
abbrev begun : FetchState
begun = (fetch false (codes "http://a") true [] [] true no_options 7 no_fetches).0

abbrev heard : FetchState
heard = call_back 1 (writes (codes "hi")) begun

abbrev streaming : FetchState
streaming = resolve_streaming (λ _. fine) heard

abbrev read_once : FetchState
read_once = (stream_read 1 streaming).0

abbrev over : FetchState
over = finish 1 none fine read_once

abbrev request_of : FetchState → FetchRequest
request_of s = elim (lookup 1 s.streams) [ none ↦ new_request [] | some r ↦ r ]

begun_runs :
    (listed 1 begun.pending ≡ 1)
    × (begun.current ≡ none)
    × (lookup 1 begun.streams ≡ some (request_of begun))
unfolding fetch fetch_scheme scheme_of is_http_url starts_with fetch_http fetch_checked first_wrong
    wrong or_next start_transfer listed lookup put remove
begun_runs = (refl, refl, refl)

request_of-begun : (request_of begun).promise ≡ true
unfolding fetch fetch_scheme scheme_of is_http_url starts_with fetch_http fetch_checked first_wrong
    wrong or_next start_transfer lookup put remove
request_of-begun = refl

-- The request is pending, it is there, no reader gave up, and the bytes were read.
read_once_runs :
    (read_once.current ≡ none)
    × (listed 1 read_once.pending ≡ 1)
    × (lookup 1 read_once.streams ≡ some (request_of read_once))
    × (tally (aborts_of 1) read_once.log ≡ 0)
    × (given 1 read_once.log ≡ codes "hi")
unfolding fetch fetch_scheme scheme_of is_http_url starts_with fetch_http fetch_checked first_wrong
    wrong or_next start_transfer listed call_back called_back write_callback keep resolve_streaming
    resolve_all resolve_one resolve_found with_info stream_read read_chunk lookup put remove tally
    aborts_of given gift
read_once_runs = (refl, refl, refl, refl, refl)

begun_Reach : Reach begun
begun_Reach =
    step no_fetches begun start
      (fetches false (codes "http://a") true [] [] true no_options 7 no_fetches)

read_once_Reach : Reach read_once
read_once_Reach =
    step streaming read_once
      (step heard streaming
        (step begun heard begun_Reach
          (calls_back 1 (writes (codes "hi")) begun (omega (arith, begun_runs.0))))
        (streams_on (λ _. fine) heard))
      (reads 1 streaming)

over_Reach : Reach over
over_Reach = step read_once over read_once_Reach (finishes 1 none fine read_once)

Sound-Reach_example : Sound over
Sound-Reach_example = Sound-Reach over over_Reach

given-body_example :
    given 1 read_once.log ++ flat (request_of read_once).chunks ≡ (request_of read_once).body
given-body_example =
    given-body read_once 1 (request_of read_once) read_once_Reach read_once_runs.2 read_once_runs.3

finish-Ended_example : Ended 1 (request_of read_once) (finish 1 none fine read_once)
finish-Ended_example =
    finish-Ended read_once 1 (request_of read_once) none fine read_once_Reach read_once_runs.2
      (omega (arith, read_once_runs.1))

fetch_has_pending-Reach_example : fetch_has_pending begun ≡ true
fetch_has_pending-Reach_example =
    fetch_has_pending-Reach begun 1 (request_of begun) begun_Reach begun_runs.2
      (inl request_of-begun)

-- A reader that waits when the transfer is over reads in the midst of phase 3, and its request stays in the table.
abbrev waiting_over : FetchState
waiting_over = finish 1 none fine (try_read 1 read_once)

waiting_over_stays : lookup 1 waiting_over.streams ≡ some (request_of waiting_over)
unfolding fetch fetch_scheme scheme_of is_http_url starts_with fetch_http fetch_checked first_wrong
    wrong or_next start_transfer listed call_back called_back write_callback keep resolve_streaming
    resolve_all resolve_one resolve_found with_info stream_read read_chunk lookup put remove
    try_read waits_on stream_wait call_reader finish complete complete_found settle_effects close
    close_current close_found released without_first drop_request
waiting_over_stays = refl

-- A tick in which libcurl says that the transfer is over completes one request; one behind it returns early.
abbrev done_message : Message
done_message = record { id = 1; result = none; info = fine }

abbrev ticked : FetchState × ℕ
ticked = fetch_tick [] (λ _. fine) (done_message ∷ []) read_once

ticked_once : (ticked.0 ≡ over) × (ticked.1 ≡ 1) × ((fetch_tick [] (λ _. fine) [] over).1 ≡ 0)
unfolding fetch fetch_scheme scheme_of is_http_url starts_with fetch_http fetch_checked first_wrong
    wrong or_next start_transfer listed call_back called_back write_callback keep resolve_streaming
    resolve_all resolve_one resolve_found with_info stream_read read_chunk lookup put remove
    try_read waits_on stream_wait call_reader finish complete complete_found settle_effects close
    close_current close_found released without_first drop_request performed keys notify_one
    notify_all notify_found complete_all settle_local settle_ids fetch_tick
ticked_once = (refl, refl, refl)

-- A reader waits for more; a tick brings it, and the reader is called.
abbrev waiting : FetchState
waiting = try_read 1 read_once

abbrev brought : FetchState
brought = (fetch_tick ((1, writes (codes "yo")) ∷ []) (λ _. fine) [] waiting).0
