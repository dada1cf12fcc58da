-- ===== src/Demo/Dialogue.antt =====
-- The client's dialogue with the device: the rounds that it needs.
use simple_rfcomm.Prelude.{
  ℕ, zero, suc, ◌+◌, ◌≤◌, ◌<◌, ◌≡◌, refl, sym, ap, ◌∙◌, inl, inr, none, some, Bool, true, false,
  List, [], ◌∷◌, ◌++◌, length, length-append, arith, Bool-cases,
}
use simple_rfcomm.Prelude.Int.{ℤ, pos}
use simple_rfcomm.Os.{Os, Run, Outcome, returns}
use simple_rfcomm.Os.Traffic.{received_bytes, SendsWithin, ReceivesWithin}
use simple_rfcomm.Socket.{is_empty, native_handle}
use simple_rfcomm.Socket.Send.{send_all_lem}
use simple_rfcomm.Serial.{SerialPort, socket_of, port_is_open, read_line}
use simple_rfcomm.Serial.Port.{write_line, get_rx_queue_status, socket_in}
use simple_rfcomm.Serial.Stream.{port_pending, PortIsCache}
use simple_rfcomm.Serial.Line.{FinitePeer}
use simple_rfcomm.Serial.ReadLine.{read_line_lem}
use simple_rfcomm.Serial.Draws.{read_line-Draws, line_shortens, line_keeps}
use simple_rfcomm.Serial.SameSocket.{port_sock, sock-read_line}
use simple_rfcomm.ServerBench.Session.{SendsKeep, send_all-left}
use simple_rfcomm.Device.{end_of_line, line_feed}
use simple_rfcomm.Device.Spin.{port_is_open-port_sock, sock_is_open}
use simple_rfcomm.Demo.{is_final, read_replies, hear_reply, dialogue}

-- A look at the queue does not raise the bound on the bytes that the peer has left to send.
abbrev pub PendingKeeps : (os : Os) → FinitePeer os → Type 0
PendingKeeps os peer = (fd : ℤ) (w : os.World) → peer.left (os.do_pending fd w).1 ≤ peer.left w

port_is_open-same :
    (port q : SerialPort)
    → port_sock q ≡ port_sock port
    → port_is_open port ≡ true
    → port_is_open q ≡ true
port_is_open-same port q same opened =
    port_is_open-port_sock q ∙ ap sock_is_open same ∙ sym (port_is_open-port_sock port) ∙ opened

module _ (os : Os) (peer : FinitePeer os) (within : ReceivesWithin os) (sends : SendsWithin os)
    (keeps : SendsKeep os peer) (pending_keeps : PendingKeeps os peer) where
  -- What is still to come for a port.
  abbrev stream_left : SerialPort → os.World → ℕ
  stream_left port w = length (port_pending port) + peer.left w

  -- A port that an operation has left open and in order, with no more to come than before.
  abbrev pub IsReady : SerialPort → Type 0
  IsReady port = PortIsCache port × (port_is_open port ≡ true)

  -- An action has returned a port that is ready, with no more to come than before.
  abbrev pub Readies : SerialPort → os.World → Run os.World (Outcome SerialPort) → Type 0
  Readies port w r =
      (q : SerialPort) × (r.value ≡ returns q)
      × IsReady q
      × (stream_left q r.world ≤ stream_left port w)
      × (peer.left r.world ≤ peer.left w)

  Readies-behind :
      (port q : SerialPort) (w w' : os.World) (r : Run os.World (Outcome SerialPort))
      → stream_left q w' ≤ stream_left port w
      → peer.left w' ≤ peer.left w
      → Readies q w' r
      → Readies port w r
  Readies-behind port q w w' r fewer less (q', value, ready, few, few') =
      (q', value, ready, omega (arith, few, fewer), omega (arith, few', less))

  read_replies-Readies :
      (lines rounds : ℕ) (port : SerialPort) (w : os.World)
      → IsReady port
      → peer.left w < rounds
      → stream_left port w < lines
      → Readies port w (read_replies os lines rounds port w)
  unfolding read_replies
  read_replies-Readies zero rounds port w ready h h' = absurd (omega (arith, h'))
  read_replies-Readies (suc lines) rounds port w (c, opened) h h' =
      let r = read_line os rounds port line_feed (pos 2000) w in
      let q = r.value.1 in
      let stream = port_pending port ++ received_bytes r.calls in
      let ((line, ended, result), c') =
        read_line_lem os peer rounds port line_feed (pos 2000) w within c opened h in
      let drawn = (read_line-Draws os peer rounds port line_feed (pos 2000)).drawn w in
      let opened' =
        port_is_open-same port q (sock-read_line os rounds port line_feed (pos 2000) w) opened in
      let whole = length-append (port_pending port) (received_bytes r.calls) in
      let kept = line_keeps line_feed stream line (port_pending q) result in
      elim (Bool-cases (is_empty line)) [
        | inl over ↦
            rw (ended, over)
              (q, refl, (c', opened'), omega (arith, drawn, whole, kept), omega (arith, drawn))
        | inr some_bytes ↦ elim (Bool-cases (is_final line)) [
          | inl last ↦
              rw (ended, some_bytes, last)
                (q, refl, (c', opened'), omega (arith, drawn, whole, kept), omega (arith, drawn))
          | inr more ↦
              let shorter =
                line_shortens line_feed stream line (port_pending q) result some_bytes in
              rw (ended, some_bytes, more)
                (Readies-behind port q w r.world (read_replies os lines rounds q r.world)
                  (omega (arith, drawn, whole, kept)) (omega (arith, drawn))
                  (read_replies-Readies lines rounds q r.world (c', opened')
                    (omega (arith, h, drawn)) (omega (arith, h', drawn, whole, shorter))))
        ]
      ]

  -- Sending a line returns, and raises no bound.
  write_line_returns :
      (port : SerialPort) (line : List ℕ) (w : os.World)
      → let r = write_line os port line end_of_line w in
        ((ok : Bool) × (r.value ≡ returns ok)) × (peer.left r.world ≤ peer.left w)
  unfolding write_line
  write_line_returns port line w = elim (Bool-cases (port_is_open port)) [
    | inr closed ↦ rw closed ((false, refl), omega arith)
    | inl opened ↦
        let bytes = line ++ end_of_line in
        let (_, answer) = send_all_lem os (socket_in os port) bytes w sends in
        rw opened ((_, answer), send_all-left os peer keeps (socket_in os port) bytes w)
  ]

  queue-left :
      (port : SerialPort) (w : os.World)
      → peer.left (get_rx_queue_status os port w).world ≤ peer.left w
  unfolding get_rx_queue_status
  queue-left none w = omega arith
  queue-left (some p) w = elim (Bool-cases (port_is_open (some p))) [
    | inr closed ↦ rw closed (omega arith)
    | inl opened ↦ rw opened (pending_keeps (native_handle (socket_of p)) w)
  ]

  -- On an open port whose cache is in order, where send(2) and recv(2) keep to their buffers, the
  -- peer sends finitely many bytes, and neither a send nor a look at the queue raises the bound on
  -- them: the dialogue returns once each loop is given more rounds than bytes are cached or to
  -- come, whatever the commands are, whatever the device answers and whether the sends succeed or
  -- fail. The port is open and in order afterwards.
  pub dialogue_returns :
      (lines rounds : ℕ) (cmds : List (List ℕ)) (port : SerialPort) (w : os.World)
      → PortIsCache port
      → port_is_open port ≡ true
      → peer.left w < rounds
      → length (port_pending port) + peer.left w < lines
      → let r = dialogue os lines rounds cmds port w in
        (q : SerialPort) × (r.value ≡ returns q) × PortIsCache q × (port_is_open q ≡ true)
  unfolding dialogue hear_reply
  dialogue_returns lines rounds [] port w c opened h h' = (port, refl, c, opened)
  dialogue_returns lines rounds (cmd ∷ cmds) port w c opened h h' =
      let s = write_line os port cmd end_of_line w in
      let ((ok, sent), less) = write_line_returns port cmd w in
      let n = get_rx_queue_status os port s.world in
      let less' = queue-left port s.world in
      let r = read_replies os lines rounds port n.world in
      let (q, value, (c', opened'), fewer, fewer') =
        read_replies-Readies lines rounds port n.world (c, opened) (omega (arith, h, less, less'))
          (omega (arith, h', less, less')) in
      rw (sent, value)
        (dialogue_returns lines rounds cmds q r.world c' opened'
          (omega (arith, h, less, less', fewer')) (omega (arith, h', less, less', fewer)))
