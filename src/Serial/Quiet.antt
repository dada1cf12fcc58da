-- ===== src/Serial/Quiet.antt =====
-- The operations of a port that open and close no descriptor.
use simple_rfcomm.Prelude.{ℕ, zero, suc, List, length, Option, none, some, refl}
use simple_rfcomm.Prelude.Int.{ℤ}
use simple_rfcomm.Os.{Os, sys_now, sys_pending}
use simple_rfcomm.Os.Ledger.{IsQuiet, quiet_rules}
use simple_rfcomm.Socket.{Socket}
use simple_rfcomm.Socket.Quiet.{
  send-IsQuiet, send_all-IsQuiet, recv-IsQuiet, set_timeouts-IsQuiet, set_blocking-IsQuiet,
}
use simple_rfcomm.Serial.Types.{SerialImpl, SerialPort}
use simple_rfcomm.Serial.Cache.{
  refill_rx_cache, read_rest, read_impl, read, read_exact_rounds, read_exact, read_byte,
  line_rounds, read_line,
}
use simple_rfcomm.Serial.Port.{
  apply_timeouts, set_port_timeouts, write, write_byte, write_line, get_rx_queue_status,
  drain_rounds, drain_socket, purge,
}

module _ (os : Os) where
  now-call : IsQuiet (sys_now os)
  now-call = record { none_opened = λ w. refl; none_closed = λ w. refl }

  pending-call : (fd : ℤ) → IsQuiet (sys_pending os fd)
  pending-call fd = record { none_opened = λ w. refl; none_closed = λ w. refl }

  refill-IsQuiet : (p : SerialImpl) → IsQuiet (refill_rx_cache os p)
  unfolding refill_rx_cache
  refill-IsQuiet p = search (quiet_rules, recv-IsQuiet os)

  read_rest-IsQuiet :
      (p : SerialImpl) (buffer : List ℕ) (copied : ℕ) → IsQuiet (read_rest os p buffer copied)
  unfolding read_rest
  read_rest-IsQuiet p buffer copied = search (quiet_rules, recv-IsQuiet os)

  pub read-IsQuiet : (port : SerialPort) (buffer : List ℕ) → IsQuiet (read os port buffer)
  unfolding read read_impl
  read-IsQuiet none buffer = search quiet_rules
  read-IsQuiet (some p) buffer = search (quiet_rules, read_rest-IsQuiet)

  read_exact_rounds-IsQuiet :
      (rounds : ℕ) (port : SerialPort) (buffer : List ℕ) (total : ℕ)
      → IsQuiet (read_exact_rounds os rounds port buffer total)
  unfolding read_exact_rounds
  read_exact_rounds-IsQuiet zero port buffer total = search quiet_rules
  read_exact_rounds-IsQuiet (suc rounds) port buffer total =
      search (quiet_rules, read-IsQuiet, read_exact_rounds-IsQuiet rounds)

  pub read_exact-IsQuiet :
      (port : SerialPort) (buffer : List ℕ) → IsQuiet (read_exact os port buffer)
  unfolding read_exact
  read_exact-IsQuiet port buffer = read_exact_rounds-IsQuiet (length buffer) port buffer 0

  pub read_byte-IsQuiet : (port : SerialPort) → IsQuiet (read_byte os port)
  unfolding read_byte
  read_byte-IsQuiet none = search quiet_rules
  read_byte-IsQuiet (some p) = search (quiet_rules, refill-IsQuiet)

  line_rounds-IsQuiet :
      (rounds d : ℕ) (timeout : ℤ) (start : ℕ) (p : SerialImpl) (line : List ℕ)
      → IsQuiet (line_rounds os rounds d timeout start p line)
  unfolding line_rounds
  line_rounds-IsQuiet zero d timeout start p line = search quiet_rules
  line_rounds-IsQuiet (suc rounds) d timeout start p line =
      search (quiet_rules, now-call, refill-IsQuiet, line_rounds-IsQuiet rounds d timeout start)
        depth 9

  pub read_line-IsQuiet :
      (rounds : ℕ) (port : SerialPort) (d : ℕ) (timeout : ℤ)
      → IsQuiet (read_line os rounds port d timeout)
  unfolding read_line
  read_line-IsQuiet rounds none d timeout = search quiet_rules
  read_line-IsQuiet rounds (some p) d timeout =
      search (quiet_rules, now-call, line_rounds-IsQuiet rounds d timeout)

  pub write-IsQuiet : (port : SerialPort) (bytes : List ℕ) → IsQuiet (write os port bytes)
  unfolding write
  write-IsQuiet port bytes = search (quiet_rules, send-IsQuiet os)

  pub write_byte-IsQuiet : (port : SerialPort) (byte : ℕ) → IsQuiet (write_byte os port byte)
  unfolding write_byte
  write_byte-IsQuiet port byte = search (quiet_rules, write-IsQuiet)

  pub write_line-IsQuiet :
      (port : SerialPort) (line eol : List ℕ) → IsQuiet (write_line os port line eol)
  unfolding write_line
  write_line-IsQuiet port line eol = search (quiet_rules, send_all-IsQuiet os)

  pub queue-IsQuiet : (port : SerialPort) → IsQuiet (get_rx_queue_status os port)
  unfolding get_rx_queue_status
  queue-IsQuiet none = search quiet_rules
  queue-IsQuiet (some p) = search (quiet_rules, pending-call)

  drain_rounds-IsQuiet :
      (rounds : ℕ) (sock : Socket) (buffer : List ℕ) → IsQuiet (drain_rounds os rounds sock buffer)
  unfolding drain_rounds
  drain_rounds-IsQuiet zero sock buffer = search quiet_rules
  drain_rounds-IsQuiet (suc rounds) sock buffer =
      search (quiet_rules, recv-IsQuiet os, drain_rounds-IsQuiet rounds)

  drain_socket-IsQuiet : (rounds : ℕ) (o : Option Socket) → IsQuiet (drain_socket os rounds o)
  unfolding drain_socket
  drain_socket-IsQuiet rounds none = search quiet_rules
  drain_socket-IsQuiet rounds (some sock) =
      search (quiet_rules, set_blocking-IsQuiet os, drain_rounds-IsQuiet rounds)

  pub purge-IsQuiet :
      (rounds : ℕ) (port : SerialPort) (flags : ℕ) → IsQuiet (purge os rounds port flags)
  unfolding purge
  purge-IsQuiet rounds none flags = search quiet_rules
  purge-IsQuiet rounds (some p) flags = search (quiet_rules, drain_socket-IsQuiet rounds)

  timeouts-IsQuiet : (o : Option Socket) (a b : ℤ) → IsQuiet (apply_timeouts os o a b)
  unfolding apply_timeouts
  timeouts-IsQuiet none a b = search quiet_rules
  timeouts-IsQuiet (some sock) a b = search (quiet_rules, set_timeouts-IsQuiet os)

  pub set_port_timeouts-IsQuiet :
      (port : SerialPort) (a b : ℤ) → IsQuiet (set_port_timeouts os port a b)
  unfolding set_port_timeouts
  set_port_timeouts-IsQuiet none a b = search quiet_rules
  set_port_timeouts-IsQuiet (some p) a b = search (quiet_rules, timeouts-IsQuiet)
