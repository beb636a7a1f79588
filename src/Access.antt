-- ===== src/Access.antt =====
-- src/api/access_policy.cpp: the texts by which the access gate is asked, and what is held under it.
-- The gate itself is the engine's (`ev::`), and enters as arguments.
use brokit.Prelude.{
  ℕ, Bool, false, not, ◌&&◌, ◌||◌, [], ◌∷◌, ◌++◌, Bytes, codes, is_empty, ◌==◌, if◌then◌else◌,
}

pub contains : ℕ → Bytes → Bool
contains c [] = false
contains c (x ∷ xs) = x == c || contains c xs

abbrev pub head_is : ℕ → Bytes → Bool
head_is c [] = false
head_is c (x ∷ xs) = x == c

-- socketUrl; `port` is the decimal text of the port (std::to_string).
pub socket_url : (scheme host port : Bytes) → Bytes
socket_url scheme host port =
    let v6 = contains b':' host && (is_empty host || not (head_is b'[' host)) in
    scheme ++ codes "://" ++ ((if v6 then b'[' ∷ (host ++ b']' ∷ []) else host) ++ b':' ∷ port)
