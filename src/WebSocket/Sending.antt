-- ===== src/WebSocket/Sending.antt =====
-- ws_send_all of src/api/websocket.cpp: fifty calls of curl_ws_send at most.
use brokit.Prelude.{
  ℕ, zero, suc, ◌+◌, ◌≤◌, ◌<◌, ◌≡◌, refl, ap, true, ◌⊎◌, inl, inr, List, [], ◌∷◌, none, All, length,
  leb, Bool-cases, arith,
}
use brokit.WebSocket.Natives.{Sent, send_all}

-- The bytes that the answers say were sent.
abbrev pub total : List Sent → ℕ
total [] = 0
total (a ∷ answers) = a.count + total answers

-- If each of the calls answers CURLE_OK, ws_send_all reports success: with everything sent, or after its last
-- retry with what the calls sent, less than everything.
pub send_all-total :
    (retries offset size : ℕ) (answers : List Sent)
    → All (λ (a : Sent). a.failure ≡ none) answers
    → length answers ≡ retries
    → offset < size
    → ((k : ℕ) × (send_all retries true offset size answers ≡ (true, k)) × (size ≤ k))
      ⊎ ((send_all retries true offset size answers ≡ (true, offset + total answers))
          × (offset + total answers < size))
unfolding send_all
send_all-total zero offset size [] h e few =
    let same : offset ≡ offset + 0 = omega arith in
    inr (ap (λ (n : ℕ). (true, n)) same, omega arith)
send_all-total zero offset size (a ∷ answers) h e few = absurd (omega arith)
send_all-total (suc retries) offset size [] h e few = absurd (omega arith)
send_all-total (suc retries) offset size (a ∷ answers) (fine, h) e few =
    let next = offset + a.count in
    let same : next + total answers ≡ offset + (a.count + total answers) = omega arith in
    elim (Bool-cases (leb size next)) [
      | inl all ↦ inl (next, rw (fine, all) refl, ground arith)
      | inr some_left ↦
          rw (fine, some_left, ← same)
            (send_all-total retries next size answers h (omega arith) (ground arith))
    ]
