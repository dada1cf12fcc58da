-- ===== src/Socket/Send.antt =====
-- `Socket::send` and `Socket::send_all`: what reaches the system.
use simple_rfcomm.Prelude.{
  ℕ, zero, suc, ◌+◌, ◌≤◌, ◌≡◌, refl, ◌⊎◌, inl, inr, Bool, false, List, [], ◌∷◌, length, take,
  append-nil, if◌then◌else◌, not, ◌||◌, drop, ltb, ◌==◌, Bool-cases, arith, length-drop, take-join,
  drop-drop,
}
use simple_rfcomm.Prelude.Int.{ℤ, pos, negsuc, minus_one, is_positive, is_negative}
use simple_rfcomm.Os.{Os, Run, Outcome, returns, sent}
use simple_rfcomm.Os.Traffic.{sent_bytes, sent_bytes-append, SendsWithin}
use simple_rfcomm.Socket.{Socket, is_open, handle_of, is_empty, send, send_rounds, send_all}

-- One call of `send` reports an error or nothing, or the bytes that the system took.
abbrev pub SendResult : List ℕ → ℤ → List ℕ → Type 0
SendResult bytes value taken =
    ((is_positive value ≡ false) × (taken ≡ []))
    ⊎ ((k : ℕ) × (value ≡ pos (suc k)) × (suc k ≤ length bytes) × (taken ≡ take (suc k) bytes))

answer-SendResult :
    (fd z : ℤ) (bytes : List ℕ)
    → ((n : ℕ) → z ≡ pos n → n ≤ length bytes)
    → SendResult bytes (if is_negative z then minus_one else z) (sent_bytes (sent fd bytes z ∷ []))
answer-SendResult fd (pos zero) bytes h = inl (refl, refl)
answer-SendResult fd (pos (suc k)) bytes h = inr (k, refl, h (suc k) refl, append-nil _)
answer-SendResult fd (negsuc n) bytes h = inl (refl, refl)

module _ (os : Os) where
  pub send-SendResult :
      (sock : Socket) (bytes : List ℕ) (w : os.World)
      → SendsWithin os
      → let r = send os sock bytes w in SendResult bytes r.value (sent_bytes r.calls)
  unfolding send
  send-SendResult sock bytes w within = elim (Bool-cases (not (is_open sock) || is_empty bytes)) [
    | inl idle ↦ rw idle (inl (refl, refl))
    | inr busy ↦ rw busy (
        answer-SendResult (handle_of sock) (os.do_send (handle_of sock) bytes w).0 bytes
          (λ n e. within (handle_of sock) bytes w n e))
  ]

  -- The loop from `total` on: it sends what comes next, and answers whether all was sent.
  abbrev SendsFrom : List ℕ → ℕ → Run os.World (Outcome Bool) → Type 0
  SendsFrom bytes total r =
      let out = sent_bytes r.calls in
      (out ≡ take (length out) (drop total bytes))
      × (r.value ≡ returns (total + length out == length bytes))

  send_rounds-SendsFrom :
      (rounds : ℕ) (sock : Socket) (bytes : List ℕ) (total : ℕ) (w : os.World)
      → SendsWithin os
      → length bytes ≤ total + rounds
      → total ≤ length bytes
      → SendsFrom bytes total (send_rounds os rounds sock bytes total w)
  unfolding send_rounds
  send_rounds-SendsFrom zero sock bytes total w within enough inside = ground arith
  send_rounds-SendsFrom (suc rounds) sock bytes total w within enough inside =
      elim (Bool-cases (ltb total (length bytes))) [
        | inr done ↦ rw done (ground arith)
        | inl more ↦ elim (send-SendResult sock (drop total bytes) w within) [
          | inl (failed, nothing) ↦ rw (more, failed, append-nil) (rw nothing (refl, ground arith))
          | inr (k, value, fits, taken) ↦
              let r = send os sock (drop total bytes) w in
              let room = length-drop total bytes in
              let (next, answer) =
                send_rounds-SendsFrom rounds sock bytes (total + suc k) r.world within (omega arith)
                  (omega arith) in
              let r' = send_rounds os rounds sock bytes (total + suc k) r.world in
              let (count, joined) =
                take-join (suc k) (drop total bytes) (sent_bytes r'.calls) fits
                  (rw (drop-drop total (suc k) bytes) next) in
              rw (more, value, sent_bytes-append r.calls r'.calls, taken)
                (joined, ground (arith, answer, count))
        ]
      ]

  -- If the system never takes more bytes than it is offered, `send_all` ends, what it hands over is
  -- a prefix of its data, and it answers true exactly when that prefix is the whole.
  pub send_all_lem :
      (sock : Socket) (bytes : List ℕ) (w : os.World)
      → SendsWithin os
      → let r = send_all os sock bytes w in
        let out = sent_bytes r.calls in
        (out ≡ take (length out) bytes) × (r.value ≡ returns (length out == length bytes))
  unfolding send_all
  send_all_lem sock bytes w within = ground (
    arith,
    send_rounds-SendsFrom (length bytes) sock bytes 0 w within (omega arith) (omega arith),
  )
