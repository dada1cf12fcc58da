-- ===== src/ClientBench/Transfer.antt =====
-- The transfer: what it sends, in which pieces it counts, the rounds that it needs, and the chunk
-- of no bytes.
use simple_rfcomm.Prelude.{
  ℕ, zero, suc, ◌+◌, ◌-◌, ◌*◌, ◌%◌, ◌≤◌, ◌<◌, ◌≡◌, refl, ap, ◌⊎◌, inl, inr, Bool, true, false, List,
  [], ◌++◌, length, take, whole_front, drop, replicate, min, ltb, ◌==◌, if◌then◌else◌, Bool-cases,
  lt→ltb, arith, append-nil, append_assoc, length-append, length-take, length-drop,
  length-replicate,
}
use simple_rfcomm.Os.{Os, returns, out_of_rounds}
use simple_rfcomm.Os.Traffic.{
  received_bytes, received_bytes-append, sent_bytes, sent_bytes-append, SendsWithin, ReceivesWithin,
}
use simple_rfcomm.Socket.{Socket, send_all, send_rounds, recv_all, recv_rounds}
use simple_rfcomm.Socket.Send.{send_all_lem}
use simple_rfcomm.Socket.Receive.{recv_all_lem}
use simple_rfcomm.Socket.OneWay.{send_all-HearsNothing, recv_all-SaysNothing}
use simple_rfcomm.Serial.{size_mod}
use simple_rfcomm.ClientBench.{fill_pattern, await_echo, chunk_loop, transfer}
use simple_rfcomm.ClientBench.Ends.{
  copies, IsTransfer, chunk-IsTransfer, unsent-IsTransfer, unanswered-IsTransfer, done-IsTransfer,
  copies_split,
}

module _ (os : Os) where
  -- What a chunk in echo mode, or without it, hears behind what was sent.
  await_echo_lem :
      (echo_mode : Bool) (sock : Socket) (rx_buffer : List ℕ) (current : ℕ) (w : os.World)
      → ReceivesWithin os
      → (if echo_mode then current else 0) ≤ length rx_buffer
      → let r = await_echo os echo_mode sock rx_buffer current w in
        let got = received_bytes r.calls in
        (sent_bytes r.calls ≡ [])
        × (((r.value.0 ≡ returns true)
              × (length got ≡ (if echo_mode then current else 0))
              × (length r.value.1 ≡ length rx_buffer))
            ⊎ ((r.value.0 ≡ returns false)
                × (echo_mode ≡ true)
                × ((length got == current) ≡ false)))
  unfolding await_echo
  await_echo_lem false sock rx_buffer current w within room = (refl, inl (refl, refl, refl))
  await_echo_lem true sock rx_buffer current w within room =
      let span = take current rx_buffer in
      let r = recv_all os sock span w in
      let got = received_bytes r.calls in
      let size = length-take current rx_buffer in
      let (answer, filled) = recv_all_lem os sock span w within in
      let said = (recv_all-SaysNothing os sock span).said w in
      elim (Bool-cases (length got == length span)) [
        | inl whole ↦
            let same : length got ≡ length span = ground (arith, whole) in
            let front : length r.value.1 ≡ length got = omega (
              arith,
              ap length filled,
              length-append got (drop (length got) span),
              length-drop (length got) span,
              same,
            ) in
            rw append-nil (
              said,
              inl (
                rw whole at answer,
                omega (arith, same, size),
                omega (
                  arith,
                  front,
                  same,
                  size,
                  room,
                  length-append r.value.1 (drop current rx_buffer),
                  length-drop current rx_buffer,
                ),
              ),
            )
        | inr short ↦
            rw append-nil (said, inr (rw short at answer, refl, ground (arith, short, size, room)))
      ]

  module _ (within : ReceivesWithin os) (sends : SendsWithin os) where
    chunk_loop-IsTransfer :
        (rounds : ℕ) (echo_mode : Bool) (sock : Socket) (tx_buffer rx_buffer : List ℕ)
        (total_bytes total_sent n : ℕ) (w : os.World)
        → 0 < length tx_buffer
        → (if echo_mode then length tx_buffer else 0) ≤ length rx_buffer
        → total_sent ≤ total_bytes
        → total_bytes - total_sent < rounds
        → total_bytes - total_sent ≤ n
        → IsTransfer echo_mode total_sent
            (take (total_bytes - total_sent) (copies n tx_buffer))
            (chunk_loop os rounds echo_mode sock tx_buffer rx_buffer total_bytes total_sent w)
    unfolding chunk_loop
    chunk_loop-IsTransfer zero echo_mode sock tx rx total before n w some_bytes room small h h' =
        absurd (omega (arith, h))
    chunk_loop-IsTransfer (suc rounds) echo_mode sock tx rx total before n w some_bytes room small h
          h' =
        elim (Bool-cases (ltb before total)) [
          | inr done ↦
              let nothing_left : total - before ≡ 0 = ground (arith, done, small) in
              rw (done, nothing_left) (done-IsTransfer echo_mode before w)
          | inl more ↦
              let m = total - before in
              let current = min (length tx) m in
              let piece = take current tx in
              let goal = take (m - current) (copies (n - 1) tx) in
              let rest_left : total - (before + current) ≡ m - current = omega arith in
              let ahead : 0 < m = ground (arith, more) in
              let size : length piece ≡ current = omega (arith, length-take current tx) in
              let s = send_all os sock piece w in
              let (front, answer) = send_all_lem os sock piece w sends in
              let deaf = (send_all-HearsNothing os sock piece).heard w in
              elim (Bool-cases (length (sent_bytes s.calls) == length piece)) [
                | inr short ↦
                    rw (more, copies_split n m tx ahead h', rw short at answer, append-nil s.calls)
                      (unsent-IsTransfer echo_mode before piece goal s.calls s.world front short)
                | inl whole ↦
                    let a = await_echo os echo_mode sock rx current s.world in
                    let room' : (if echo_mode then current else 0) ≤ length rx =
                      ground (arith, room) in
                    let said = whole_front _ _ front whole in
                    let (mute, outcome) =
                      await_echo_lem echo_mode sock rx current s.world within room' in
                    let sent_piece : sent_bytes (s.calls ++ a.calls) ≡ piece =
                      rw (sent_bytes-append s.calls a.calls, mute, append-nil) said in
                    let heard : received_bytes (s.calls ++ a.calls) ≡ received_bytes a.calls =
                      rw (received_bytes-append s.calls a.calls, deaf) refl in
                    elim outcome [
                      | inl (answered, count, same) ↦
                          let rest =
                            chunk_loop os rounds echo_mode sock tx a.value.1 total
                              (before + current) a.world in
                          rw
                            (
                              more,
                              copies_split n m tx ahead h',
                              rw whole at answer,
                              answered,
                              ← append_assoc s.calls a.calls rest.calls,
                            )
                            (chunk-IsTransfer echo_mode before current piece goal
                              (s.calls ++ a.calls) rest size sent_piece (rw heard count)
                              (rw (← rest_left) (
                                chunk_loop-IsTransfer rounds echo_mode sock tx a.value.1 total
                                  (before + current) (n - 1) a.world some_bytes (rw same room)
                                  (omega arith) (omega (arith, h, some_bytes))
                                  (omega (arith, h', some_bytes)))))
                      | inr (missing, echoing, other) ↦
                          rw
                            (
                              more,
                              copies_split n m tx ahead h',
                              rw whole at answer,
                              missing,
                              append-nil a.calls,
                            )
                            (unanswered-IsTransfer echo_mode before current piece goal
                              (s.calls ++ a.calls) a.world size echoing sent_piece (rw heard other))
                    ]
              ]
        ]

length-fill_pattern : (n i : ℕ) → length (fill_pattern n i) ≡ n
unfolding fill_pattern
length-fill_pattern zero i = refl
length-fill_pattern (suc n) i = ap suc (length-fill_pattern n (i + 1))

-- The bytes that a transfer of `total_bytes` is to send: the pattern of a chunk again and again.
abbrev pub goal_of : ℕ → ℕ → List ℕ
goal_of chunk_kb total_bytes =
    take total_bytes (copies total_bytes (fill_pattern (chunk_kb * 1024 % size_mod) 0))

-- Where send(2) and recv(2) keep to their buffers and a chunk is not empty, the transfer returns
-- once it is given more rounds than it has bytes to send. What it sends is the front of the
-- pattern, again and again, up to the size of the transfer. Where it ends as complete, that is all
-- of it, the count is the size of the transfer and, in echo mode, as many bytes came back. Where a
-- send failed, a part was not sent and the count is not more than what was; where an answer failed,
-- the mode is echo, the count is what was sent and another number of bytes came back.
pub transfer_lem :
    (os : Os) (rounds : ℕ) (echo_mode : Bool) (sock : Socket) (chunk_kb total_bytes : ℕ)
    (w : os.World)
    → ReceivesWithin os
    → SendsWithin os
    → 0 < chunk_kb * 1024 % size_mod
    → total_bytes < rounds
    → IsTransfer echo_mode 0
        (goal_of chunk_kb total_bytes)
        (transfer os rounds echo_mode sock chunk_kb total_bytes w)
unfolding transfer
transfer_lem os rounds echo_mode sock chunk_kb total_bytes w within sends some_bytes h =
    let chunk = chunk_kb * 1024 % size_mod in
    let tx = fill_pattern chunk 0 in
    let rx : List ℕ = if echo_mode then replicate chunk 0 else [] in
    let size = length-fill_pattern chunk 0 in
    let all_left : total_bytes - 0 ≡ total_bytes = omega arith in
    let room : (if echo_mode then length tx else 0) ≤ length rx =
      ground (arith, size, length-replicate {A = ℕ} chunk 0) in
    rw all_left at (
      chunk_loop-IsTransfer os within sends rounds echo_mode sock tx rx total_bytes 0 total_bytes w
        (rw size some_bytes) room (omega arith) (omega (arith, h)) (omega arith))

module _ (os : Os) where
  -- A round with an empty chunk.
  chunk_loop-stuck :
      (rounds : ℕ) (echo_mode : Bool) (sock : Socket) (rx_buffer : List ℕ)
      (total_bytes total_sent : ℕ) (w : os.World)
      → total_sent < total_bytes
      → let r = chunk_loop os rounds echo_mode sock [] rx_buffer total_bytes total_sent w in
        (r.value ≡ out_of_rounds) × (sent_bytes r.calls ≡ [])
  unfolding chunk_loop await_echo send_all send_rounds recv_all recv_rounds
  chunk_loop-stuck zero echo_mode sock rx total before w h = (refl, refl)
  chunk_loop-stuck (suc rounds) false sock rx total before w h =
      let nothing : min 0 (total - before) ≡ 0 = omega arith in
      let same : before + 0 ≡ before = omega arith in
      rw (lt→ltb before total h, nothing, same)
        (chunk_loop-stuck rounds false sock rx total before w h)
  chunk_loop-stuck (suc rounds) true sock rx total before w h =
      let nothing : min 0 (total - before) ≡ 0 = omega arith in
      let same : before + 0 ≡ before = omega arith in
      rw (lt→ltb before total h, nothing, same)
        (chunk_loop-stuck rounds true sock rx total before w h)

-- With `--chunk 0` and bytes to send, the transfer never returns, in either mode and however many
-- rounds it makes, and it sends nothing.
pub transfer_stuck :
    (os : Os) (rounds : ℕ) (echo_mode : Bool) (sock : Socket) (total_bytes : ℕ) (w : os.World)
    → 0 < total_bytes
    → let r = transfer os rounds echo_mode sock 0 total_bytes w in
      (r.value ≡ out_of_rounds) × (sent_bytes r.calls ≡ [])
unfolding transfer fill_pattern
transfer_stuck os rounds echo_mode sock total_bytes w h =
    chunk_loop-stuck os rounds echo_mode sock (if echo_mode then [] else []) total_bytes 0 w h
