-- ===== src/Tests/Sequences.antt =====
-- A port that gets a new socket and is closed then, over the small system of the tests.
use simple_rfcomm.Prelude.{◌≡◌, refl, some, List, [], ◌∷◌, ◌++◌, ℕ, arith}
use simple_rfcomm.Prelude.Int.{ℤ, pos}
use simple_rfcomm.Os.{Run, Outcome, returns}
use simple_rfcomm.Os.Traffic.{opened_handles, closed_handles}
use simple_rfcomm.Socket.{
  Socket, is_open, close, destroy, close_socket_handle, set_timeouts, timeval, handle_of,
}
use simple_rfcomm.Socket as Sockets
use simple_rfcomm.Serial.{SerialPort, ReadResult, read, new_impl, clear_rx_cache, chunk_size}
use simple_rfcomm.Serial.Port.{attach, adopt, close_port, close_port_impl}
use simple_rfcomm.Serial.Stream.{PortIsCache, port_pending}
use simple_rfcomm.Serial.Life.{port_handles}
use simple_rfcomm.Serial.Operations.{attach_op, close_op, run_op}
use simple_rfcomm.Serial.OpLedger.{handed_over}
use simple_rfcomm.Serial.Refines.{
  cleared, Fifo, read_events, port_stop, port_read, port_close, PortRun-Fifo,
}
use simple_rfcomm.Serial.Runs.{Runs, stop, more, Runs-ledger, Runs-cache}
use simple_rfcomm.Tests.System.{toy_os, toy_os-ReceivesWithin, toy_port_impl, toy_impl}

abbrev busy_port : SerialPort
unfolding new_impl
busy_port = some toy_port_impl

busy_port-IsCache : PortIsCache busy_port
unfolding chunk_size new_impl
busy_port-IsCache = record { in_buffer = omega arith; one_chunk = omega arith }

abbrev other_socket : Socket
other_socket = some (record toy_impl { handle = pos 8 })

abbrev attached : Run (List ℕ) (Outcome SerialPort)
attached = run_op toy_os (attach_op (some other_socket)) busy_port []

-- The port behind a call that has returned.
abbrev port_in : Outcome SerialPort → SerialPort
port_in (returns port) = port
port_in _ = busy_port

attached_returns : attached.value ≡ returns (port_in attached.value)
unfolding run_op attach adopt close_port_impl Sockets.close destroy close_socket_handle is_open
    set_timeouts timeval clear_rx_cache new_impl
attached_returns = refl

abbrev closed_port : Run (List ℕ) (Outcome SerialPort)
closed_port = run_op toy_os close_op (port_in attached.value) attached.world

closed_returns : closed_port.value ≡ returns (port_in closed_port.value)
unfolding run_op attach adopt close_port close_port_impl Sockets.close destroy close_socket_handle
    is_open set_timeouts timeval clear_rx_cache new_impl
closed_returns = refl

abbrev entered_handles : List ℤ
entered_handles =
    (handed_over (attach_op (some other_socket)) ++ opened_handles attached.calls)
    ++ ((handed_over close_op ++ opened_handles closed_port.calls) ++ [])

abbrev left_handles : List ℤ
left_handles = closed_handles attached.calls ++ (closed_handles closed_port.calls ++ [])

two_steps :
    Runs toy_os busy_port []
      (port_in closed_port.value)
      closed_port.world
      entered_handles
      left_handles
two_steps =
    more (attach_op (some other_socket)) busy_port [] (port_in attached.value)
      (port_in closed_port.value) closed_port.world _ _ attached_returns
      (more close_op (port_in attached.value) attached.world (port_in closed_port.value)
        (port_in closed_port.value) closed_port.world [] [] closed_returns
        (stop (port_in closed_port.value) closed_port.world))

Runs-ledger_example :
    port_handles busy_port ++ entered_handles
    ≡ left_handles ++ port_handles (port_in closed_port.value)
Runs-ledger_example =
    Runs-ledger toy_os busy_port (port_in closed_port.value) [] closed_port.world entered_handles
      left_handles two_steps

Runs-cache_example : PortIsCache (port_in closed_port.value)
Runs-cache_example =
    Runs-cache toy_os busy_port (port_in closed_port.value) [] closed_port.world entered_handles
      left_handles toy_os-ReceivesWithin busy_port-IsCache two_steps

-- Both sockets are closed, the old one first.
left_run : left_handles ≡ pos 3 ∷ pos 8 ∷ []
unfolding run_op attach adopt close_port close_port_impl Sockets.close destroy close_socket_handle
    is_open set_timeouts timeval clear_rx_cache new_impl
left_run = refl

-- A block of two bytes, which was cached, and the close of the port.
abbrev taken : Run (List ℕ) ReadResult
taken = read toy_os busy_port (0 ∷ 0 ∷ []) []

abbrev shut : Run (List ℕ) SerialPort
shut = close_port toy_os taken.value.port taken.world

PortRun-Fifo_example :
    Fifo
      (port_pending busy_port)
      (read_events toy_os busy_port (0 ∷ 0 ∷ []) [] ++ (cleared ∷ []))
      (port_pending shut.value)
PortRun-Fifo_example =
    PortRun-Fifo toy_os busy_port shut.value [] shut.world
      (read_events toy_os busy_port (0 ∷ 0 ∷ []) [] ++ (cleared ∷ [])) toy_os-ReceivesWithin
      busy_port-IsCache
      (port_read busy_port [] (0 ∷ 0 ∷ []) (cleared ∷ []) shut.value shut.world (
        port_close taken.value.port taken.world [] shut.value shut.world
          (port_stop shut.value shut.world)))
