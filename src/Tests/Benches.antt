-- ===== src/Tests/Benches.antt =====
-- The example programs over the small system of the tests.
use simple_rfcomm.Prelude.{ℕ, some, none, refl, not, ◌≡◌, true, List, [], ◌∷◌, length, arith}
use simple_rfcomm.Prelude.Int.{pos}
use simple_rfcomm.Os.{Os, returns, out_of_rounds}
use simple_rfcomm.Os.Traffic.{sent_bytes}
use simple_rfcomm.Server.{Server}
use simple_rfcomm.ServerBench.{session}
use simple_rfcomm.ServerBench.Ends.{IsSession}
use simple_rfcomm.ServerBench.Session.{SendsKeep, session_lem}
use simple_rfcomm.ClientBench.{transfer}
use simple_rfcomm.ClientBench.Ends.{IsTransfer}
use simple_rfcomm.ClientBench.Transfer.{goal_of, transfer_lem, transfer_stuck}
use simple_rfcomm.Device.{device_loop, answer, purge_text, quit_text}
use simple_rfcomm.Command.{same_text}
use simple_rfcomm.Device.Replies.{TakesAll, port_behind, on_wire, look_up, table, answer_lem}
use simple_rfcomm.Device.Spin.{Disconnected, device_spins}
use simple_rfcomm.Demo.{commands, dialogue}
use simple_rfcomm.Demo.Dialogue.{PendingKeeps, dialogue_returns}
use simple_rfcomm.Socket.{is_open}
use simple_rfcomm.Serial.{SerialImpl, SerialPort, new_impl, port_is_open, chunk_size}
use simple_rfcomm.Serial.Line.{FinitePeer}
use simple_rfcomm.Serial.Stream.{PortIsCache, port_pending}
use simple_rfcomm.Tests.System.{
  toy_os, toy_peer, toy_socket, toy_os-SendsWithin, toy_os-ReceivesWithin,
}

toy_os-SendsKeep : SendsKeep toy_os toy_peer
toy_os-SendsKeep fd bytes w = omega arith

abbrev five_bytes : List ℕ
five_bytes = 1 ∷ 2 ∷ 3 ∷ 4 ∷ 5 ∷ []

session_lem_example : IsSession true 0 (session toy_os 6 true toy_socket five_bytes)
session_lem_example =
    session_lem toy_os toy_peer toy_os-SendsKeep toy_os-ReceivesWithin toy_os-SendsWithin 6 true
      toy_socket five_bytes (omega arith)

abbrev listening : Server
listening = some (record { listen_fd = pos 4; channel = 3; sdp_reg = none })

transfer_lem_example :
    IsTransfer true 0 (goal_of 1 3) (transfer toy_os 4 true toy_socket 1 3 five_bytes)
transfer_lem_example =
    transfer_lem toy_os 4 true toy_socket 1 3 five_bytes toy_os-ReceivesWithin toy_os-SendsWithin
      (omega arith) (omega arith)

transfer_stuck_example :
    let r = transfer toy_os 100 true toy_socket 0 3 five_bytes in
    (r.value ≡ out_of_rounds) × (sent_bytes r.calls ≡ [])
transfer_stuck_example = transfer_stuck toy_os 100 true toy_socket 3 five_bytes (omega arith)

-- The system of the tests with a peer that has closed the connection.
abbrev left_os : Os
left_os = record toy_os { do_recv = λ fd size w. (some [], w) }

left_os-Disconnected : Disconnected left_os
left_os-Disconnected fd size w = refl

abbrev quiet_port : SerialPort
unfolding new_impl
quiet_port = some (record new_impl { sock = some toy_socket })

quiet_port-open : port_is_open quiet_port ≡ true
unfolding port_is_open is_open new_impl
quiet_port-open = refl

quiet_port-IsCache : PortIsCache quiet_port
unfolding chunk_size new_impl
quiet_port-IsCache = record { in_buffer = omega arith; one_chunk = omega arith }

quiet_port-empty : port_pending quiet_port ≡ []
unfolding new_impl
quiet_port-empty = refl

device_spins_example : (device_loop left_os 1000 4 quiet_port []).value ≡ out_of_rounds
device_spins_example =
    device_spins left_os left_os-Disconnected 1000 4 quiet_port [] (omega arith) quiet_port-open
      quiet_port-IsCache quiet_port-empty

-- The system of the tests, but a send takes all of its bytes.
abbrev taking_os : Os
taking_os = record toy_os { do_send = λ fd bytes w. (pos (length bytes), w) }

taking_os-TakesAll : TakesAll taking_os
taking_os-TakesAll fd bytes w = refl

abbrev taking_peer : FinitePeer taking_os
taking_peer = record {
  left = toy_peer.left;
  recv_left = toy_peer.recv_left;
  now_left = toy_peer.now_left;
  getfl_left = toy_peer.getfl_left;
  setfl_left = toy_peer.setfl_left;
}

abbrev quiet_impl : SerialImpl
unfolding new_impl
quiet_impl = record new_impl { sock = some toy_socket }

quiet_impl-open : port_is_open (some quiet_impl) ≡ true
unfolding port_is_open is_open new_impl
quiet_impl-open = refl

answer_lem_example :
    let r = answer taking_os 6 (some quiet_impl) purge_text five_bytes in
    (r.value
      ≡ returns (not (same_text purge_text quit_text), some (port_behind purge_text quiet_impl)))
    × (sent_bytes r.calls ≡ on_wire (look_up purge_text table))
answer_lem_example =
    answer_lem taking_os taking_os-TakesAll taking_peer toy_os-ReceivesWithin 6 quiet_impl
      purge_text five_bytes quiet_impl-open (omega arith)

toy_os-PendingKeeps : PendingKeeps toy_os toy_peer
toy_os-PendingKeeps fd w = omega arith

dialogue_returns_example :
    let r = dialogue toy_os 6 6 commands quiet_port five_bytes in
    (q : SerialPort) × (r.value ≡ returns q) × PortIsCache q × (port_is_open q ≡ true)
dialogue_returns_example =
    dialogue_returns toy_os toy_peer toy_os-ReceivesWithin toy_os-SendsWithin toy_os-SendsKeep
      toy_os-PendingKeeps 6 6 commands quiet_port five_bytes quiet_port-IsCache quiet_port-open
      (omega arith) (rw quiet_port-empty (omega arith))
