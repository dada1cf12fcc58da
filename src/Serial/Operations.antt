-- ===== src/Serial/Operations.antt =====
-- The operations of a port as data: every method that changes the object or calls the system.
use simple_rfcomm.Prelude.{ℕ, Option, Bool, List}
use simple_rfcomm.Prelude.Int.{ℤ}
use simple_rfcomm.Address.{Address}
use simple_rfcomm.Uuid.{Uuid}
use simple_rfcomm.Os.{Os, Action, Outcome, returns, undefined, out_of_rounds, pure, ◌>>=◌, ◌>>◌}
use simple_rfcomm.Socket.{Socket}
use simple_rfcomm.Serial.Types.{
  SerialPort, BaudRate, DataBits, StopBits, Parity, FlowControl, set_baud_rate,
  set_data_characteristics, set_flow_control, set_dtr, set_rts,
}
use simple_rfcomm.Serial.Cache.{read, read_exact, read_byte, read_line}
use simple_rfcomm.Serial.Port.{
  open_port, open_text, open_by_uuid, open_text_by_uuid, attach, close_port, set_port_timeouts,
  write, write_byte, write_line, flush, get_rx_queue_status, purge,
}

-- The two loops that depend on the peer carry their rounds; a text argument is its bytes.
pub data PortOp : Type 0 where
  open_op : Address → ℕ → ℤ → PortOp
  open_text_op : List ℕ → ℕ → ℤ → PortOp
  open_by_uuid_op : Address → Uuid → ℤ → PortOp
  open_text_by_uuid_op : List ℕ → List ℕ → ℤ → PortOp
  attach_op : Option Socket → PortOp
  close_op : PortOp
  baud_op : BaudRate → PortOp
  characteristics_op : DataBits → StopBits → Parity → PortOp
  flow_op : FlowControl → PortOp
  timeouts_op : ℤ → ℤ → PortOp
  read_op : List ℕ → PortOp
  read_exact_op : List ℕ → PortOp
  read_byte_op : PortOp
  read_line_op : ℕ → ℕ → ℤ → PortOp
  write_op : List ℕ → PortOp
  write_byte_op : ℕ → PortOp
  write_line_op : List ℕ → List ℕ → PortOp
  flush_op : PortOp
  queue_op : PortOp
  purge_op : ℕ → ℕ → PortOp
  dtr_op : Bool → PortOp
  rts_op : Bool → PortOp

-- The port that a successful or a failed call has left.
abbrev pub port_of : Outcome (Bool × SerialPort) → Outcome SerialPort
port_of (returns (ok, port)) = returns port
port_of undefined = undefined
port_of out_of_rounds = out_of_rounds

abbrev pub after : {A : Type 0} → Outcome A → SerialPort → Outcome SerialPort
after (returns a) port = returns port
after undefined port = undefined
after out_of_rounds port = out_of_rounds

module _ (os : Os) where
  unfoldable pub run_op : PortOp → SerialPort → Action os.World (Outcome SerialPort)
  run_op (open_op addr channel timeout) port = do
    r ← open_port os port addr channel timeout
    pure (port_of r)
  run_op (open_text_op text channel timeout) port = do
    r ← open_text os port text channel timeout
    pure (port_of r)
  run_op (open_by_uuid_op addr uuid timeout) port = do
    r ← open_by_uuid os port addr uuid timeout
    pure (port_of r)
  run_op (open_text_by_uuid_op text uuid_text timeout) port = do
    r ← open_text_by_uuid os port text uuid_text timeout
    pure (port_of r)
  run_op (attach_op sock) port = do r ← attach os port sock; pure (port_of r)
  run_op close_op port = do port' ← close_port os port; pure (returns port')
  run_op (baud_op baud) port = pure (returns (set_baud_rate port baud))
  run_op (characteristics_op d s q) port = pure (returns (set_data_characteristics port d s q))
  run_op (flow_op f) port = pure (returns (set_flow_control port f))
  run_op (timeouts_op a b) port = do port' ← set_port_timeouts os port a b; pure (returns port')
  run_op (read_op buffer) port = do r ← read os port buffer; pure (returns r.port)
  run_op (read_exact_op buffer) port = do r ← read_exact os port buffer; pure (after r.0 r.2)
  run_op read_byte_op port = do r ← read_byte os port; pure (returns r.1)
  run_op (read_line_op rounds d timeout) port = do
    r ← read_line os rounds port d timeout
    pure (after r.0 r.1)
  run_op (write_op bytes) port = do n ← write os port bytes; pure (returns port)
  run_op (write_byte_op byte) port = do n ← write_byte os port byte; pure (returns port)
  run_op (write_line_op line eol) port = do ok ← write_line os port line eol; pure (returns port)
  run_op flush_op port = do flush os port; pure (returns port)
  run_op queue_op port = do n ← get_rx_queue_status os port; pure (returns port)
  run_op (purge_op rounds flags) port = purge os rounds port flags
  run_op (dtr_op state) port = pure (returns (set_dtr port state))
  run_op (rts_op state) port = pure (returns (set_rts port state))
