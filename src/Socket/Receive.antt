-- ===== src/Socket/Receive.antt =====
-- `Socket::recv`, `Socket::recv_all` and `Socket::recv_some`: what the buffer holds afterwards.
use simple_rfcomm.Prelude.{
  ℕ, zero, suc, ◌+◌, ◌≤◌, ◌≡◌, refl, ap, ◌⊎◌, inl, inr, Option, none, some, Bool, false, List, [],
  ◌∷◌, ◌++◌, length, drop, replicate, overwrite, ltb, ◌==◌, not, ◌||◌, Bool-cases, arith,
  length-drop, length-append, take-append, drop-append, overwrite_lem, append-nil, append_assoc,
  length-replicate, drop-drop,
}
use simple_rfcomm.Prelude.Int.{ℤ, pos, minus_one, is_positive}
use simple_rfcomm.Os.{Os, Run, Outcome, returns, received}
use simple_rfcomm.Os.Traffic.{received_bytes, received_bytes-append, ReceivesWithin}
use simple_rfcomm.Socket.{
  Socket, is_open, handle_of, is_empty, recv, recv_rounds, recv_all, recv_some,
}

-- One call of `recv` reports an error, the end of the stream or nothing to do, and then leaves the
-- buffer alone; or it has put the bytes received at the buffer's front.
abbrev pub RecvResult : List ℕ → ℤ × List ℕ → List ℕ → Type 0
RecvResult buffer (value, buffer') got =
    ((is_positive value ≡ false) × (got ≡ []) × (buffer' ≡ buffer))
    ⊎ ((k : ℕ) × (value ≡ pos (suc k))
        × (length got ≡ suc k)
        × (suc k ≤ length buffer)
        × (buffer' ≡ got ++ drop (suc k) buffer))

abbrev answered : List ℕ → Option (List ℕ) → ℤ × List ℕ
answered buffer none = (minus_one, buffer)
answered buffer (some bytes) = (pos (length bytes), overwrite bytes buffer)

answer-RecvResult :
    (fd : ℤ) (o : Option (List ℕ)) (buffer : List ℕ)
    → ((bytes : List ℕ) → o ≡ some bytes → length bytes ≤ length buffer)
    → RecvResult buffer (answered buffer o) (received_bytes (received fd (length buffer) o ∷ []))
answer-RecvResult fd none buffer h = inl (refl, refl, refl)
answer-RecvResult fd (some []) buffer h = inl (refl, refl, refl)
answer-RecvResult fd (some (b ∷ bytes)) buffer h =
    let fits = h (b ∷ bytes) refl in
    inr (
      length bytes,
      refl,
      ap (λ (t : List ℕ). suc (length t)) (append-nil bytes),
      fits,
      rw (append-nil bytes) (overwrite_lem (b ∷ bytes) buffer fits),
    )

regroup :
    (front got got' rest : List ℕ) (k : ℕ)
    → (front ++ got) ++ (got' ++ drop (length got') (drop k rest))
      ≡ front ++ ((got ++ got') ++ drop (k + length got') rest)
regroup front got got' rest k = rw (drop-drop k (length got') rest) (simp append_assoc)

module _ (os : Os) where
  pub recv-RecvResult :
      (sock : Socket) (buffer : List ℕ) (w : os.World)
      → ReceivesWithin os
      → let r = recv os sock buffer w in RecvResult buffer r.value (received_bytes r.calls)
  unfolding recv
  recv-RecvResult sock buffer w within = elim (Bool-cases (not (is_open sock) || is_empty buffer)) [
    | inl idle ↦ rw idle (inl (refl, refl, refl))
    | inr busy ↦ rw busy (
        answer-RecvResult (handle_of sock) (os.do_recv (handle_of sock) (length buffer) w).0 buffer
          (λ bytes e. within (handle_of sock) (length buffer) w bytes e))
  ]

  -- The loop on a buffer whose front has been filled: it fills what comes next, and answers whether
  -- the end was reached.
  abbrev FillsFrom : List ℕ → List ℕ → Run os.World (Outcome Bool × List ℕ) → Type 0
  FillsFrom front rest r =
      let got = received_bytes r.calls in
      (r.value.0 ≡ returns (length got == length rest))
      × (r.value.1 ≡ front ++ (got ++ drop (length got) rest))

  recv_rounds-FillsFrom :
      (rounds : ℕ) (sock : Socket) (front rest : List ℕ) (w : os.World)
      → ReceivesWithin os
      → length rest ≤ rounds
      → FillsFrom front rest (recv_rounds os rounds sock (front ++ rest) (length front) w)
  unfolding recv_rounds
  recv_rounds-FillsFrom zero sock front rest w within enough =
      ground (arith, length-append front rest)
  recv_rounds-FillsFrom (suc rounds) sock front rest w within enough =
      elim (Bool-cases (ltb (length front) (length (front ++ rest)))) [
        | inr full ↦ rw full (ground (arith, length-append front rest))
        | inl more ↦ elim (recv-RecvResult sock rest w within) [
          | inl (failed, nothing, same) ↦
              rw (more, drop-append front rest, take-append front rest, failed, append-nil)
                (rw (nothing, same) (ground (arith, length-append front rest), refl))
          | inr (k, value, count, fits, filled) ↦
              let r = recv os sock rest w in
              let got = received_bytes r.calls in
              let rest' = drop (suc k) rest in
              let place : length front + suc k ≡ length (front ++ got) =
                omega (arith, length-append front got, count) in
              let (answer, buffer) =
                recv_rounds-FillsFrom rounds sock (front ++ got) rest' r.world within
                  (omega (arith, length-drop (suc k) rest)) in
              let r' =
                recv_rounds os rounds sock ((front ++ got) ++ rest') (length (front ++ got))
                  r.world in
              let got' = received_bytes r'.calls in
              let whole : length (got ++ got') ≡ suc k + length got' =
                omega (arith, length-append got got', count) in
              rw
                (
                  more,
                  drop-append front rest,
                  take-append front rest,
                  value,
                  filled,
                  ← append_assoc front got rest',
                  place,
                  received_bytes-append r.calls r'.calls,
                  answer,
                  buffer,
                  whole,
                )
                (ground (arith, length-drop (suc k) rest), regroup front got got' rest (suc k))
        ]
      ]

  -- If the system never writes past the buffer, `recv_all` ends, the buffer holds the bytes received
  -- in their order and then its old contents, and the answer is true exactly when it was filled.
  pub recv_all_lem :
      (sock : Socket) (buffer : List ℕ) (w : os.World)
      → ReceivesWithin os
      → let r = recv_all os sock buffer w in
        let got = received_bytes r.calls in
        (r.value.0 ≡ returns (length got == length buffer))
        × (r.value.1 ≡ got ++ drop (length got) buffer)
  unfolding recv_all
  recv_all_lem sock buffer w within =
      recv_rounds-FillsFrom (length buffer) sock [] buffer w within (omega arith)

  -- If the system never writes past the buffer, `recv_some` returns exactly the bytes received,
  -- `max_bytes` at most.
  pub recv_some_lem :
      (sock : Socket) (max_bytes : ℕ) (w : os.World)
      → ReceivesWithin os
      → let r = recv_some os sock max_bytes w in
        (r.value ≡ received_bytes r.calls) × (length r.value ≤ max_bytes)
  unfolding recv_some
  recv_some_lem sock max_bytes w within =
      elim (recv-RecvResult sock (replicate max_bytes 0) w within) [
        | inl (failed, nothing, same) ↦ rw (failed, append-nil, nothing) (refl, omega arith)
        | inr (k, value, count, fits, filled) ↦
            let got = received_bytes (recv os sock (replicate max_bytes 0) w).calls in
            rw
              (
                value,
                append-nil,
                filled,
                ← count,
                take-append got (drop (length got) (replicate max_bytes 0)),
              )
              (refl, omega (arith, length-replicate {A = ℕ} max_bytes 0))
      ]
