-- ===== src/Tests/Ports.antt =====
-- Runs of a serial port on the small system, and the theorems there.
use simple_rfcomm.Prelude.{Option, ℕ, ◌≡◌, refl, some, true, List, [], ◌∷◌, arith}
use simple_rfcomm.Prelude.Int.{pos}
use simple_rfcomm.Socket.{is_open, recv}
use simple_rfcomm.Os.{Run, returns}
use simple_rfcomm.Serial.{
  SerialPort, ReadResult, new_impl, read, read_exact, read_byte, read_line, line_rounds, drain_line,
  cached_bytes_available, refill_rx_cache, reset_if_exhausted, clear_rx_cache, append_chunk,
  strip_cr, port_is_open, impl_is_open, chunk_size,
}
use simple_rfcomm.Serial.Stream.{PortIsCache, port_pending}
use simple_rfcomm.Serial.Read.{Served, read_in_order}
use simple_rfcomm.Serial.Exact.{Fills, read_exact_lem}
use simple_rfcomm.Serial.ReadLine.{LineRead, read_line_lem}
use simple_rfcomm.Tests.System.{toy_os, toy_peer, toy_os-ReceivesWithin, toy_port_impl}

abbrev toy_port : SerialPort
unfolding new_impl
toy_port = some toy_port_impl

toy_port-IsCache : PortIsCache toy_port
unfolding chunk_size new_impl
toy_port-IsCache = record { in_buffer = omega arith; one_chunk = omega arith }

-- `c`, a line feed and `d`.
abbrev incoming : List ℕ
incoming = 99 ∷ 10 ∷ 100 ∷ []

abbrev three : List ℕ
three = 0 ∷ 0 ∷ 0 ∷ []

read_in_order_example :
    Served toy_os (port_pending toy_port) three (read toy_os toy_port three incoming)
read_in_order_example =
    read_in_order toy_os toy_port three incoming toy_os-ReceivesWithin toy_port-IsCache

read_exact_lem_example : Fills toy_os toy_port [] three (read_exact toy_os toy_port three incoming)
read_exact_lem_example =
    read_exact_lem toy_os toy_port three incoming toy_os-ReceivesWithin toy_port-IsCache

toy_port-open : port_is_open toy_port ≡ true
unfolding port_is_open new_impl is_open
toy_port-open = refl

read_line_lem_example :
    LineRead toy_os 10 (port_pending toy_port) (read_line toy_os 4 toy_port 10 (pos 0) incoming)
read_line_lem_example =
    read_line_lem toy_os toy_peer 4 toy_port 10 (pos 0) incoming toy_os-ReceivesWithin
      toy_port-IsCache toy_port-open (omega arith)

-- A block of three bytes and a byte behind it.
abbrev block : Run (List ℕ) ReadResult
block = read toy_os toy_port three incoming

abbrev next_byte : Run (List ℕ) (Option ℕ × SerialPort)
next_byte = read_byte toy_os block.value.port block.world

-- The line `abc`, of which `ab` was cached; what stands behind the line feed is left.
read_line_run :
    (read_line toy_os 4 toy_port 10 (pos 0) incoming).value.0 ≡ returns (97 ∷ 98 ∷ 99 ∷ [])
unfolding read_line line_rounds drain_line cached_bytes_available refill_rx_cache reset_if_exhausted
    clear_rx_cache append_chunk strip_cr port_is_open impl_is_open is_open recv chunk_size new_impl
read_line_run = refl
