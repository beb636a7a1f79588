-- ===== src/Fetch/Cases.antt =====
-- What fetch of src/api/fetch.cpp leaves behind, by cases.
use brokit.Prelude.{suc, ◌∷◌, Option, none, some, Bytes, ℕ, Bool, not, is_empty, if_elim}
use brokit.Fetch.{inits, FetchState, http, data_url, blob_url, file_url, path, scheme_of, Scheme}
use brokit.Fetch.Options.{Options, first_wrong}
use brokit.Fetch.Natives.{
  Fetched, fetch_local, start_transfer, fetch_checked, fetch_http, fetch_scheme, fetch,
}

-- A property of the state, if it holds of each state that fetch may leave behind: the one that was, a local response, a
-- transfer, and an id that was handed out, without a handle or with one.
module _ (P : FetchState → Type 0) (s : FetchState) (url : Bytes) (o : Options) (held : ℕ)
    (as_it_was : P s) (local : P (fetch_local url s).0)
    (transfer : P (start_transfer url o held s).0)
    (no_handle : P (record s { next_stream_id = suc s.next_stream_id }))
    (wrong_option : P (record s {
      next_stream_id = suc s.next_stream_id;
      log = inits s.next_stream_id ∷ s.log;
    })) where
  abbrev Holds : FetchState × Fetched → Type 0
  Holds x = P x.0

  checked_cases : (w : Option Bytes) → P (fetch_checked url o held w s).0
  unfolding fetch_checked
  checked_cases none = transfer
  checked_cases (some text) = wrong_option

  http_cases : (refusal : Bytes) (b : Bool) → P (fetch_http url refusal b o held s).0
  unfolding fetch_http
  http_cases refusal b =
      if_elim Holds (not (is_empty refusal)) _ _ (λ _. as_it_was)
        (λ _. if_elim Holds (not b) _ _ (λ _. no_handle) (λ _. checked_cases (first_wrong o)))

  scheme_cases :
      (c : Scheme) (live : Bool) (fs_refusal refusal : Bytes) (b : Bool)
      → P (fetch_scheme c url live fs_refusal refusal b o held s).0
  unfolding fetch_scheme
  scheme_cases http live fs_refusal refusal b = http_cases refusal b
  scheme_cases data_url live fs_refusal refusal b = local
  scheme_cases blob_url live fs_refusal refusal b =
      if_elim Holds live _ _ (λ _. local) (λ _. as_it_was)
  scheme_cases file_url live fs_refusal refusal b =
      if_elim Holds (is_empty fs_refusal) _ _ (λ _. local) (λ _. as_it_was)
  scheme_cases path live fs_refusal refusal b =
      if_elim Holds (is_empty fs_refusal) _ _ (λ _. local) (λ _. as_it_was)

  pub fetch_cases :
      (a : Bool) (live : Bool) (fs_refusal refusal : Bytes) (b : Bool)
      → P (fetch a url live fs_refusal refusal b o held s).0
  unfolding fetch
  fetch_cases a live fs_refusal refusal b =
      if_elim Holds a _ _ (λ _. as_it_was)
        (λ _. scheme_cases (scheme_of url) live fs_refusal refusal b)
