-- ===== src/ServerBench/Session.antt =====
-- A client's session: what it echoes and counts, and the rounds that it needs.
use simple_rfcomm.Prelude.{
  ℕ, zero, suc, ◌+◌, ◌%◌, ◌≤◌, ◌<◌, ◌≡◌, refl, ◌⊎◌, inl, inr, ◌∙◌, Bool, true, false, not, ◌||◌,
  List, [], ◌++◌, length, take, drop, replicate, ltb, ◌==◌, if◌then◌else◌, Bool-cases, arith,
  append-nil, append_assoc, take-append, whole_front,
}
use simple_rfcomm.Prelude.Int.{ℤ, is_positive, to_size}
use simple_rfcomm.Os.{Os, returns}
use simple_rfcomm.Os.Traffic.{
  received_bytes, received_bytes-append, sent_bytes, sent_bytes-append, SendsWithin, ReceivesWithin,
}
use simple_rfcomm.Socket.{Socket, is_open, is_empty, handle_of, send, send_rounds, send_all, recv}
use simple_rfcomm.Socket.Send.{send_all_lem}
use simple_rfcomm.Socket.Receive.{recv-RecvResult}
use simple_rfcomm.Socket.OneWay.{send_all-HearsNothing, recv-SaysNothing}
use simple_rfcomm.Serial.{size_mod}
use simple_rfcomm.Serial.Line.{FinitePeer, recv-left}
use simple_rfcomm.ServerBench.{echo_back, receive_loop, session, bench_buffer_size}
use simple_rfcomm.ServerBench.Ends.{IsSession, chunk-IsSession, ended-IsSession, broken-IsSession}

-- A send does not raise the bound on the bytes that the peer has left to send.
abbrev pub SendsKeep : (os : Os) → FinitePeer os → Type 0
SendsKeep os peer =
    (fd : ℤ) (bytes : List ℕ) (w : os.World) → peer.left (os.do_send fd bytes w).1 ≤ peer.left w

module _ (os : Os) (peer : FinitePeer os) (keeps : SendsKeep os peer) where
  send-left :
      (sock : Socket) (bytes : List ℕ) (w : os.World)
      → peer.left (send os sock bytes w).world ≤ peer.left w
  unfolding send
  send-left sock bytes w = elim (Bool-cases (not (is_open sock) || is_empty bytes)) [
    | inl idle ↦ rw idle (omega arith)
    | inr busy ↦ rw busy (keeps (handle_of sock) bytes w)
  ]

  send_rounds-left :
      (rounds : ℕ) (sock : Socket) (bytes : List ℕ) (total : ℕ) (w : os.World)
      → peer.left (send_rounds os rounds sock bytes total w).world ≤ peer.left w
  unfolding send_rounds
  send_rounds-left zero sock bytes total w = omega arith
  send_rounds-left (suc rounds) sock bytes total w = elim (Bool-cases (ltb total (length bytes))) [
    | inr done ↦ rw done (omega arith)
    | inl more ↦
        let s = send os sock (drop total bytes) w in
        let first = send-left sock (drop total bytes) w in
        elim (Bool-cases (is_positive s.value)) [
          | inr failed ↦ rw (more, failed) first
          | inl took ↦
              let next = send_rounds-left rounds sock bytes (total + to_size s.value) s.world in
              rw (more, took) (omega (arith, first, next))
        ]
  ]

  pub send_all-left :
      (sock : Socket) (bytes : List ℕ) (w : os.World)
      → peer.left (send_all os sock bytes w).world ≤ peer.left w
  unfolding send_all
  send_all-left sock bytes w = send_rounds-left (length bytes) sock bytes 0 w

  -- The echo of a chunk: it goes on exactly where all of it was sent, or nothing was to be sent.
  echo_back_lem :
      (echo_mode : Bool) (sock : Socket) (bytes : List ℕ) (w : os.World)
      → SendsWithin os
      → let r = echo_back os echo_mode sock bytes w in
        (received_bytes r.calls ≡ [])
        × (peer.left r.world ≤ peer.left w)
        × (((r.value ≡ returns true) × (sent_bytes r.calls ≡ (if echo_mode then bytes else [])))
            ⊎ ((r.value ≡ returns false)
                × (echo_mode ≡ true)
                × (sent_bytes r.calls ≡ take (length (sent_bytes r.calls)) bytes)
                × ((length (sent_bytes r.calls) == length bytes) ≡ false)))
  unfolding echo_back
  echo_back_lem false sock bytes w sends = (refl, omega arith, inl (refl, refl))
  echo_back_lem true sock bytes w sends =
      let r = send_all os sock bytes w in
      let (front, answer) = send_all_lem os sock bytes w sends in
      let heard = (send_all-HearsNothing os sock bytes).heard w in
      let fewer = send_all-left sock bytes w in
      elim (Bool-cases (length (sent_bytes r.calls) == length bytes)) [
        | inl whole ↦ (heard, fewer, inl (rw whole at answer, whole_front _ _ front whole))
        | inr short ↦ (heard, fewer, inr (rw short at answer, refl, front, short))
      ]

  module _ (within : ReceivesWithin os) (sends : SendsWithin os) where
    receive_loop-IsSession :
        (rounds : ℕ) (echo_mode : Bool) (sock : Socket) (buffer : List ℕ) (total : ℕ) (w : os.World)
        → total < size_mod
        → peer.left w < rounds
        → IsSession echo_mode total (receive_loop os rounds echo_mode sock buffer total w)
    unfolding receive_loop
    receive_loop-IsSession zero echo_mode sock buffer total w small h = absurd (omega (arith, h))
    receive_loop-IsSession (suc rounds) echo_mode sock buffer total w small h =
        let r = recv os sock buffer w in
        let got = received_bytes r.calls in
        let silent = (recv-SaysNothing os sock buffer).said w in
        let fewer = recv-left os peer sock buffer w in
        elim (recv-RecvResult os sock buffer w within) [
          | inl (failed, nothing, same) ↦
              rw (failed, append-nil r.calls)
                (ended-IsSession echo_mode total r.calls r.world small nothing silent)
          | inr (k, value, count, fits, filled) ↦
              let front : take (suc k) r.value.1 ≡ got = rw (filled, ← count) (take-append got _) in
              let e = echo_back os echo_mode sock got r.world in
              let (deaf, kept, outcome) = echo_back_lem echo_mode sock got r.world sends in
              let heard : received_bytes (r.calls ++ e.calls) ≡ got =
                rw (received_bytes-append r.calls e.calls, deaf, append-nil got) refl in
              let said_all : sent_bytes (r.calls ++ e.calls) ≡ sent_bytes e.calls =
                rw (sent_bytes-append r.calls e.calls, silent) refl in
              elim outcome [
                | inl (went_on, said) ↦
                    let total' = (total + suc k) % size_mod in
                    let rest = receive_loop os rounds echo_mode sock r.value.1 total' e.world in
                    rw (value, front, went_on, ← append_assoc r.calls e.calls rest.calls)
                      (chunk-IsSession echo_mode total (suc k) got (r.calls ++ e.calls) rest count
                        heard (said_all ∙ said)
                        (receive_loop-IsSession rounds echo_mode sock r.value.1 total' e.world
                          (omega arith) (omega (arith, h, fewer, kept, count))))
                | inr (stopped, echoing, said, short) ↦
                    rw (value, front, stopped, append-nil e.calls)
                      (broken-IsSession echo_mode total (suc k) got (r.calls ++ e.calls) e.world
                        echoing count heard (rw said_all said) (rw said_all short))
              ]
        ]

    -- Where send(2) and recv(2) keep to their buffers, and the peer sends finitely many bytes, of
    -- which a send raises no bound, a session returns once it is given more rounds than the peer
    -- has bytes left. It has counted the bytes that it received, modulo 2^64. Outside echo mode it
    -- sends nothing; in echo mode what it sends is the front of what it received, and it reports a
    -- failed echo exactly where that front is not the whole.
    pub session_lem :
        (rounds : ℕ) (echo_mode : Bool) (sock : Socket) (w : os.World)
        → peer.left w < rounds
        → IsSession echo_mode 0 (session os rounds echo_mode sock w)
    unfolding session
    session_lem rounds echo_mode sock w h =
        receive_loop-IsSession rounds echo_mode sock (replicate bench_buffer_size 0) 0 w
          (omega arith) h
