-- ===== src/Demo.antt =====
-- `main` of examples/serial_port_demo.cpp: the device's service and the client's dialogue, without the
-- console output and the pause between the commands. The device's loop is in Device.antt.
pub mod Quiet
pub mod SameSocket
pub mod Ledger
pub mod Closes
pub mod Dialogue
use simple_rfcomm.Prelude.{
  ℕ, zero, suc, Option, none, some, Bool, true, false, ◌&&◌, ◌||◌, List, [], ◌∷◌, ◌==◌,
  if◌then◌else◌,
}
use simple_rfcomm.Prelude.Int.{ℤ, pos}
use simple_rfcomm.Command.{codes, same_text, Exit, exits, uncaught}
use simple_rfcomm.Address.{Parsed, parsed_as, invalid_argument}
use simple_rfcomm.Uuid.{Uuid}
use simple_rfcomm.Uuid as Uuids
use simple_rfcomm.Os.{Os, Action, Outcome, returns, undefined, out_of_rounds, pure, ◌>>=◌, ◌>>◌}
use simple_rfcomm.Socket.{Socket, is_empty, destroy}
use simple_rfcomm.Serial.{
  SerialPort, new_impl, baud115200, bits8, one_bit, no_parity, set_baud_rate,
  set_data_characteristics, read_line,
}
use simple_rfcomm.Serial.Port.{
  open_text_by_uuid, attach, close_port, set_port_timeouts, write_line, get_rx_queue_status,
}
use simple_rfcomm.Server.{Server, new_server, listen_with_sdp, accept, close_server}
use simple_rfcomm.ServerBench.Main.{default_provider, default_backlog}
use simple_rfcomm.Device.{
  ok_text, bye_text, at_text, info_text, purge_text, quit_text, line_feed, end_of_line, once_said,
  device_loop,
}

abbrev pub demo_uuid : List ℕ
demo_uuid = codes "e3b0c442-98fc-1c14-9afe-4c9c2e0b5f14"

abbrev pub service_name : List ℕ
service_name = codes "FTDI Serial Service"

abbrev pub commands : List (List ℕ)
commands = at_text ∷ info_text ∷ purge_text ∷ quit_text ∷ []

abbrev pub starts_with : List ℕ → List ℕ → Bool
starts_with text [] = true
starts_with [] (_ ∷ _) = false
starts_with (a ∷ text) (b ∷ start) = let rest = starts_with text start in (a == b) && rest

-- The answers behind which the client stops reading.
unfoldable pub is_final : List ℕ → Bool
is_final resp =
    same_text resp ok_text || same_text resp bye_text || starts_with resp (codes "ERROR")

-- `SerialPort serial;`
unfoldable pub new_port : SerialPort
new_port = some new_impl

module _ (os : Os) where
  abbrev pub destroy_held : Option Socket → Action os.World (Unit {0})
  destroy_held none = pure tt
  destroy_held (some sock) = destroy os sock

  -- The destructor of a port, which destroys its socket.
  unfoldable pub destroy_port : SerialPort → Action os.World (Unit {0})
  destroy_port none = pure tt
  destroy_port (some p) = destroy_held p.sock

  -- if (resp.empty()) break; … if (resp == "OK" || …) break;
  abbrev pub after_reply :
      Outcome (List ℕ)
      → SerialPort
      → Action os.World (Outcome SerialPort)
      → Action os.World (Outcome SerialPort)
  after_reply (returns resp) port rest =
      if is_empty resp || is_final resp then pure (returns port) else rest
  after_reply undefined port rest = pure undefined
  after_reply out_of_rounds port rest = pure out_of_rounds

  -- The loop over the lines of an answer, with the lines that it may still read.
  unfoldable pub read_replies : ℕ → ℕ → SerialPort → Action os.World (Outcome SerialPort)
  read_replies zero rounds port = pure out_of_rounds
  read_replies (suc lines) rounds port = do
    (resp, port') ← read_line os rounds port line_feed (pos 2000)
    after_reply resp port' (read_replies lines rounds port')

  abbrev pub next_command :
      Outcome SerialPort
      → (SerialPort → Action os.World (Outcome SerialPort))
      → Action os.World (Outcome SerialPort)
  next_command (returns port) rest = rest port
  next_command undefined rest = pure undefined
  next_command out_of_rounds rest = pure out_of_rounds

  -- The queue status, which is only printed, and the answer.
  unfoldable pub hear_reply : ℕ → ℕ → SerialPort → Action os.World (Outcome SerialPort)
  hear_reply lines rounds port = do get_rx_queue_status os port; read_replies lines rounds port

  -- The loop over the commands; whether a command was sent is ignored.
  unfoldable pub dialogue :
      ℕ → ℕ → List (List ℕ) → SerialPort → Action os.World (Outcome SerialPort)
  dialogue lines rounds [] port = pure (returns port)
  dialogue lines rounds (cmd ∷ cmds) port = do
    said ← write_line os port cmd end_of_line
    heard ← once_said os said (hear_reply lines rounds port)
    next_command heard (dialogue lines rounds cmds)

  -- The end of the client: serial.close(), and the destructor.
  abbrev pub hang_up : Outcome SerialPort → Action os.World (Outcome Exit)
  hang_up (returns port) = do
    port' ← close_port os port
    destroy_port port'
    pure (returns (exits 0))
  hang_up undefined = pure undefined
  hang_up out_of_rounds = pure out_of_rounds

  -- The code behind `open_by_uuid`.
  abbrev pub talk : ℕ → ℕ → Outcome (Bool × SerialPort) → Action os.World (Outcome Exit)
  talk lines rounds (returns (true, port)) = do
    let set_up = set_data_characteristics (set_baud_rate port baud115200) bits8 one_bit no_parity
    port' ← set_port_timeouts os set_up (pos 3000) (pos 3000)
    ended ← dialogue lines rounds commands port'
    hang_up ended
  talk lines rounds (returns (false, port)) = do destroy_port port; pure (returns (exits 1))
  talk lines rounds undefined = pure undefined
  talk lines rounds out_of_rounds = pure out_of_rounds

  unfoldable pub client_mode : ℕ → ℕ → List ℕ → Action os.World (Outcome Exit)
  client_mode lines rounds target_mac = do
    opened ← open_text_by_uuid os new_port target_mac demo_uuid (pos 10000)
    talk lines rounds opened

  -- The destructors of the server and of the port, in this order, and the status.
  abbrev pub shut_down : Server → SerialPort → ℕ → Action os.World (Outcome Exit)
  shut_down server port status = do
    close_server os server
    destroy_port port
    pure (returns (exits status))

  abbrev pub behind_device : Server → Outcome SerialPort → Action os.World (Outcome Exit)
  behind_device server (returns port) = shut_down server port 0
  behind_device server undefined = pure undefined
  behind_device server out_of_rounds = pure out_of_rounds

  -- The code behind `attach`.
  abbrev pub emulate : ℕ → ℕ → Server → Outcome (Bool × SerialPort) → Action os.World (Outcome Exit)
  emulate lines rounds server (returns (true, port)) = do
    port' ← set_port_timeouts os port (pos 5000) (pos 5000)
    ended ← device_loop os lines rounds port'
    behind_device server ended
  emulate lines rounds server (returns (false, port)) = shut_down server port 1
  emulate lines rounds server undefined = pure undefined
  emulate lines rounds server out_of_rounds = pure out_of_rounds

  -- The code behind `accept`.
  abbrev pub attach_client : ℕ → ℕ → Server → Option Socket → Action os.World (Outcome Exit)
  attach_client lines rounds server none = shut_down server new_port 1
  attach_client lines rounds server (some raw_sock) = do
    attached ← attach os new_port (some raw_sock)
    emulate lines rounds server attached

  -- The code behind `listen_with_sdp`.
  abbrev pub await_client : ℕ → ℕ → Outcome (Bool × Server) → Action os.World (Outcome Exit)
  await_client lines rounds (returns (true, server)) = do
    raw_sock ← accept os server
    attach_client lines rounds server raw_sock
  await_client lines rounds (returns (false, server)) = shut_down server new_port 1
  await_client lines rounds undefined = pure undefined
  await_client lines rounds out_of_rounds = pure out_of_rounds

  unfoldable pub server_mode : ℕ → ℕ → Uuid → Action os.World (Outcome Exit)
  server_mode lines rounds uuid = do
    listening ← listen_with_sdp os default_provider new_server uuid service_name 0 default_backlog
    await_client lines rounds listening

  -- The modes; any other text ends the program with the status 0.
  unfoldable pub run_mode : ℕ → ℕ → Uuid → List ℕ → List (List ℕ) → Action os.World (Outcome Exit)
  unfolding server_mode client_mode
  run_mode lines rounds uuid mode [] =
      if same_text mode (codes "server")
      then server_mode lines rounds uuid
      else pure (returns (exits (if same_text mode (codes "client") then 1 else 0)))
  run_mode lines rounds uuid mode (target_mac ∷ _) =
      if same_text mode (codes "server")
      then server_mode lines rounds uuid
      else (if same_text mode (codes "client")
          then client_mode lines rounds target_mac
          else pure (returns (exits 0)))

  unfoldable pub with_uuid :
      ℕ → ℕ → Parsed Uuid → List ℕ → List (List ℕ) → Action os.World (Outcome Exit)
  unfolding run_mode
  with_uuid lines rounds (parsed_as uuid) mode args = run_mode lines rounds uuid mode args
  with_uuid lines rounds (invalid_argument _) mode args = pure (returns uncaught)

  -- A loop over lines may make `lines` rounds, and a read of a line, or a purge, `rounds`; the
  -- arguments are those behind the program's name.
  unfoldable pub main : ℕ → ℕ → List (List ℕ) → Action os.World (Outcome Exit)
  unfolding with_uuid
  main lines rounds [] = pure (returns (exits 1))
  main lines rounds (mode ∷ args) = with_uuid lines rounds (Uuids.parse demo_uuid) mode args
