-- ===== src/Storage.antt =====
-- src/api/storage.cpp: localStorage and sessionStorage over a std::map, and the file that keeps
-- localStorage. A string is its UTF-8 bytes.
pub mod Text
pub mod Order
pub mod Readable
pub mod Store
mod Tests
use brokit.Prelude.{
  ℕ, zero, suc, ◌+◌, ◌≡◌, Bool, true, false, not, ◌&&◌, ◌||◌, List, [], ◌∷◌, ◌++◌, map, Option,
  none, some, Bytes, codes, length, get_elem?, is_empty, ltb, ◌==◌, if◌then◌else◌,
}

-- The order and the equality of std::string: byte by byte, unsigned.
unfoldable pub bytes_lt : Bytes → Bytes → Bool
bytes_lt xs [] = false
bytes_lt [] (y ∷ ys) = true
bytes_lt (x ∷ xs) (y ∷ ys) = let rest = bytes_lt xs ys in if x == y then rest else ltb x y

unfoldable pub bytes_eq : Bytes → Bytes → Bool
bytes_eq [] [] = true
bytes_eq [] (y ∷ ys) = false
bytes_eq (x ∷ xs) [] = false
bytes_eq (x ∷ xs) (y ∷ ys) = x == y && bytes_eq xs ys

-- std::map<std::string, std::string>, in the order of its keys.
abbrev pub Items : Type 0
Items = List (Bytes × Bytes)

-- items.find
unfoldable pub find : Bytes → Items → Option Bytes
find k [] = none
find k ((j, w) ∷ m) = if bytes_eq j k then some w else find k m

-- items[k] = v
unfoldable pub insert : Bytes → Bytes → Items → Items
insert k v [] = (k, v) ∷ []
insert k v ((j, w) ∷ m) =
    let rest = insert k v m in
    if bytes_eq j k then (j, v) ∷ m else if bytes_lt j k then (j, w) ∷ rest else (k, v) ∷ (j, w) ∷ m

-- items.erase
unfoldable pub erase : Bytes → Items → Items
erase k [] = []
erase k ((j, w) ∷ m) = if bytes_eq j k then m else (j, w) ∷ erase k m

-- One character of escapeJson.
unfoldable pub escape_char : ℕ → Bytes
escape_char c =
    if c == b'"'
    then b'\\' ∷ b'"' ∷ []
    else if c == b'\\'
    then b'\\' ∷ b'\\' ∷ []
    else if c == b'\n'
    then b'\\' ∷ b'n' ∷ []
    else if c == b'\t'
    then b'\\' ∷ b't' ∷ []
    else c ∷ []

unfoldable pub escape_json : Bytes → Bytes
escape_json [] = []
escape_json (c ∷ s) = escape_char c ++ escape_json s

unfoldable pub quoted : Bytes → Bytes
quoted s = b'"' ∷ (escape_json s ++ b'"' ∷ [])

unfoldable pub entry : Bytes × Bytes → Bytes
entry (k, v) = codes "  " ++ (quoted k ++ (codes ": " ++ quoted v))

-- The loop of saveStorage; `first` is its variable.
unfoldable pub entries : Bool → Items → Bytes
entries first [] = []
entries first (e ∷ m) = (if first then [] else codes ",\n") ++ (entry e ++ entries false m)

-- What saveStorage writes.
unfoldable pub save_text : Items → Bytes
save_text m = codes "{\n" ++ (entries true m ++ codes "\n}\n")

-- The switch in parseString.
unfoldable pub unescape : ℕ → ℕ
unescape c =
    if c == b'"'
    then b'"'
    else if c == b'\\'
    then b'\\'
    else if c == b'n'
    then b'\n'
    else if c == b't'
    then b'\t'
    else c

-- The loop of parseString: the text up to the closing quote, and what follows it. A backslash
-- that ends the input stands for itself.
unfoldable pub string_body : Bytes → Bytes × Bytes
string_body [] = ([], [])
string_body (c ∷ []) = if c == b'"' then ([], []) else (c ∷ [], [])
string_body (c ∷ d ∷ rest) =
    let plain = string_body (d ∷ rest) in
    let escaped = string_body rest in
    if c == b'"'
    then ([], d ∷ rest)
    else if c == b'\\'
    then (unescape d ∷ escaped.0, escaped.1)
    else (c ∷ plain.0, plain.1)

-- parseString: nothing where no quote stands.
unfoldable pub parse_string : Bytes → Bytes × Bytes
parse_string [] = ([], [])
parse_string (c ∷ s) = if c == b'"' then string_body s else ([], c ∷ s)

abbrev pub is_separator : ℕ → Bool
is_separator c = c == b' ' || c == b'\n' || c == b'\r' || c == b'\t' || c == b','

-- The inner loops of loadStorage that move `pos`.
unfoldable pub skip_separators : Bytes → Bytes
skip_separators [] = []
skip_separators (c ∷ s) = if is_separator c then skip_separators s else c ∷ s

unfoldable pub after_colon : Bytes → Bytes
after_colon [] = []
after_colon (c ∷ s) = if c == b':' then s else after_colon s

unfoldable pub skip_blanks : Bytes → Bytes
skip_blanks [] = []
skip_blanks (c ∷ s) = if c == b' ' || c == b'\t' then skip_blanks s else c ∷ s

-- `if (!key.empty()) state->items[key] = value`
unfoldable pub keep : Bytes → Bytes → Items → Items
keep k v m = if is_empty k then m else insert k v m

abbrev pub at_end : Bytes → Bool
at_end [] = true
at_end (c ∷ s) = c == b'}'

-- One round of the loop of loadStorage, behind its test: the input left, and the items.
unfoldable pub load_round : Bytes → Items → Bytes × Items
load_round s m =
    let (key, s1) = parse_string s in
    let (value, s2) = parse_string (skip_blanks (after_colon s1)) in (s2, keep key value m)

-- The loop, on fuel; `none` is fuel that ran out.
unfoldable pub load_loop : (fuel : ℕ) → Bytes → Items → Option Items
load_loop zero s m = none
load_loop (suc f) s m =
    let rest = skip_separators s in
    let next = load_loop f (load_round rest m).0 (load_round rest m).1 in
    if at_end rest then some m else next

-- content.find('{'), then the loop behind it.
unfoldable pub after_brace : Bytes → Option Bytes
after_brace [] = none
after_brace (c ∷ s) = if c == b'{' then some s else after_brace s

-- What loadStorage reads from a text. Each round takes at least one byte, so the fuel suffices.
unfoldable pub load_text : Bytes → Option Items
load_text s = elim (after_brace s) [ none ↦ some [] | some t ↦ load_loop (suc (length t)) t [] ]
