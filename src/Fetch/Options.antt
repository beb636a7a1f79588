-- ===== src/Fetch/Options.antt =====
-- The options of fetch in src/api/fetch.cpp.
use brokit.Prelude.{
  Bool, false, ◌||◌, List, [], ◌∷◌, ◌++◌, Option, none, some, Bytes, codes, is_empty, if◌then◌else◌,
}
use brokit.Async.{same_text}

-- The options of fetch that are strings, and what it reads of the headers and the body.
pub record Options : Type 0 where
  pub mode : Option Bytes
  pub credentials : Option Bytes
  pub cache : Option Bytes
  pub redirect : Option Bytes
  pub referrer : Option Bytes
  pub method : Option Bytes
  pub header_lines : List Bytes
  pub body : Bytes

-- What curl_easy_setopt is told because of the options.
pub data Setting : Type 0 where
  no_cookie fresh_connect no_follow no_referer post : Setting
  referer custom_request : Bytes → Setting
  http_header : List Bytes → Setting
  post_fields : Bytes → Setting

unfoldable pub is_one_of : Bytes → List Bytes → Bool
is_one_of text [] = false
is_one_of text (t ∷ ts) = same_text text t || is_one_of text ts

-- An option with the values that it may have: the text of the TypeError, or none.
unfoldable pub wrong : (name : Bytes) (allowed : List Bytes) → Option Bytes → Option Bytes
wrong name allowed none = none
wrong name allowed (some v) =
    if is_one_of v allowed
    then none
    else some (codes "fetch: invalid " ++ (name ++ (codes " '" ++ (v ++ codes "'"))))

unfoldable pub or_next : Option Bytes → Option Bytes → Option Bytes
or_next none e = e
or_next (some t) e = some t

abbrev pub modes : List Bytes
modes = codes "cors" ∷ codes "no-cors" ∷ codes "same-origin" ∷ codes "navigate" ∷ []

abbrev pub credentials_modes : List Bytes
credentials_modes = codes "omit" ∷ codes "same-origin" ∷ codes "include" ∷ []

abbrev pub cache_modes : List Bytes
cache_modes =
    codes "default"
    ∷ codes "no-store"
    ∷ codes "reload"
    ∷ codes "no-cache"
    ∷ codes "force-cache"
    ∷ codes "only-if-cached"
    ∷ []

abbrev pub redirect_modes : List Bytes
redirect_modes = codes "follow" ∷ codes "error" ∷ codes "manual" ∷ []

-- The first option that is wrong, in the order in which they are read.
unfoldable pub first_wrong : Options → Option Bytes
first_wrong o = or_next (wrong (codes "mode") modes o.mode) (
    or_next (wrong (codes "credentials") credentials_modes o.credentials) (
      or_next (wrong (codes "cache") cache_modes o.cache)
        (wrong (codes "redirect") redirect_modes o.redirect)))

unfoldable pub is_text : Option Bytes → List Bytes → Bool
is_text none ts = false
is_text (some v) ts = is_one_of v ts

abbrev pub only : Bool → Setting → List Setting
only b t = if b then t ∷ [] else []

unfoldable pub referrer_setting : Option Bytes → List Setting
referrer_setting none = []
referrer_setting (some v) =
    if same_text v (codes "no-referrer")
    then no_referer ∷ []
    else if is_empty v
    then []
    else referer v ∷ []

unfoldable pub method_setting : Option Bytes → List Setting
method_setting none = []
method_setting (some m) =
    custom_request m ∷ only (is_one_of m (codes "POST" ∷ codes "PUT" ∷ codes "PATCH" ∷ [])) post

-- The settings, in the order in which they are made.
unfoldable pub settings : Options → List Setting
settings o =
    only (is_text o.credentials (codes "omit" ∷ [])) no_cookie
    ++ (only (is_text o.cache (codes "no-store" ∷ codes "reload" ∷ [])) fresh_connect
        ++ (only (is_text o.redirect (codes "error" ∷ codes "manual" ∷ [])) no_follow
            ++ (referrer_setting o.referrer
                ++ (method_setting o.method
                    ++ ((if is_empty o.header_lines then [] else http_header o.header_lines ∷ [])
                        ++ (if is_empty o.body then [] else post_fields o.body ∷ []))))))
