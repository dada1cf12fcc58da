-- ===== src/Serial/OpCache.antt =====
-- The cache of a port over each of its operations.
use simple_rfcomm.Prelude.{◌≡◌, ap, subst, none, some, Bool, true}
use simple_rfcomm.Address as Addresses
use simple_rfcomm.Address.{Address}
use simple_rfcomm.Uuid as Uuids
use simple_rfcomm.Uuid.{Uuid}
use simple_rfcomm.Os.{Os, Outcome, returns, undefined, out_of_rounds}
use simple_rfcomm.Os.Traffic.{ReceivesWithin}
use simple_rfcomm.Serial.Types.{
  SerialPort, BaudRate, maximum, DataBits, bits8, StopBits, one_bit, Parity, no_parity, FlowControl,
  no_control, set_baud_rate, set_data_characteristics, set_flow_control, set_dtr, set_rts,
}
use simple_rfcomm.Serial.Port.{open_text, open_text_by_uuid}
use simple_rfcomm.Serial.Stream.{PortIsCache}
use simple_rfcomm.Serial.Read.{read_in_order}
use simple_rfcomm.Serial.Exact.{read_exact_lem}
use simple_rfcomm.Serial.Byte.{read_byte_lem}
use simple_rfcomm.Serial.Ledger.{returned}
use simple_rfcomm.Serial.Operations.{
  PortOp, open_op, open_text_op, open_by_uuid_op, open_text_by_uuid_op, attach_op, close_op,
  baud_op, characteristics_op, flow_op, timeouts_op, read_op, read_exact_op, read_byte_op,
  read_line_op, write_op, write_byte_op, write_line_op, flush_op, queue_op, purge_op, dtr_op,
  rts_op, port_of, after, run_op,
}
use simple_rfcomm.Serial.OpLedger.{port_after, returned-port_of}
use simple_rfcomm.Serial.Kept.{
  open-IsCache, open_by_uuid-IsCache, open_parsed-IsCache, open_by_parsed-IsCache, close-IsCache,
  attach-IsCache, read_line-IsCache, set_timeouts-IsCache, purge-IsCache,
}

-- A call that returns, or not, with a port in order.
after-IsCache :
    {A : Type 0} (port q : SerialPort) (o : Outcome A)
    → PortIsCache port
    → after o port ≡ returns q
    → PortIsCache q
after-IsCache port q (returns a) c h = subst PortIsCache (ap port_after h) c
after-IsCache port q undefined c h = absurd (cc h)
after-IsCache port q out_of_rounds c h = absurd (cc h)

same-IsCache : (port q : SerialPort) → PortIsCache port → returns port ≡ returns q → PortIsCache q
same-IsCache port q c h = subst PortIsCache (ap port_after h) c

answer-IsCache :
    (o : Outcome (Bool × SerialPort)) (q : SerialPort)
    → PortIsCache (returned o)
    → port_of o ≡ returns q
    → PortIsCache q
answer-IsCache o q c h = subst PortIsCache (returned-port_of o q h) c

settings-IsCache :
    (port : SerialPort) (baud : BaudRate) (d : DataBits) (s : StopBits) (q : Parity)
    (f : FlowControl) (state : Bool)
    → PortIsCache port
    → PortIsCache (set_baud_rate port baud)
      × PortIsCache (set_data_characteristics port d s q)
      × PortIsCache (set_flow_control port f)
      × PortIsCache (set_dtr port state)
      × PortIsCache (set_rts port state)
unfolding set_baud_rate set_data_characteristics set_flow_control set_dtr set_rts
settings-IsCache none baud d s q f state c = (tt, tt, tt, tt, tt)
settings-IsCache (some p) baud d s q f state c = (
  record { in_buffer = c.in_buffer; one_chunk = c.one_chunk },
  record { in_buffer = c.in_buffer; one_chunk = c.one_chunk },
  record { in_buffer = c.in_buffer; one_chunk = c.one_chunk },
  record { in_buffer = c.in_buffer; one_chunk = c.one_chunk },
  record { in_buffer = c.in_buffer; one_chunk = c.one_chunk },
)

pub op-IsCache :
    (os : Os) (op : PortOp) (port q : SerialPort) (w : os.World)
    → ReceivesWithin os
    → PortIsCache port
    → (run_op os op port w).value ≡ returns q
    → PortIsCache q
unfolding run_op open_text open_text_by_uuid
op-IsCache os (open_op addr channel timeout) port q w within c h =
    answer-IsCache _ q (open-IsCache os port addr channel timeout w) h
op-IsCache os (open_text_op text channel timeout) port q w within c h =
    answer-IsCache _ q (open_parsed-IsCache os port (Addresses.try_parse text) channel timeout w c)
      h
op-IsCache os (open_by_uuid_op addr uuid timeout) port q w within c h =
    answer-IsCache _ q (open_by_uuid-IsCache os port addr uuid timeout w) h
op-IsCache os (open_text_by_uuid_op text uuid_text timeout) port q w within c h =
    answer-IsCache _ q
      (open_by_parsed-IsCache os port (Addresses.try_parse text) (Uuids.try_parse uuid_text) timeout
        w c)
      h
op-IsCache os (attach_op o) port q w within c h = answer-IsCache _ q (attach-IsCache os port o w) h
op-IsCache os close_op port q w within c h = same-IsCache _ q (close-IsCache os port w) h
op-IsCache os (baud_op baud) port q w within c h =
    same-IsCache _ q (settings-IsCache port baud bits8 one_bit no_parity no_control true c).0 h
op-IsCache os (characteristics_op d s p) port q w within c h =
    same-IsCache _ q (settings-IsCache port maximum d s p no_control true c).1 h
op-IsCache os (flow_op f) port q w within c h =
    same-IsCache _ q (settings-IsCache port maximum bits8 one_bit no_parity f true c).2 h
op-IsCache os (timeouts_op a b) port q w within c h =
    same-IsCache _ q (set_timeouts-IsCache os port a b w c) h
op-IsCache os (read_op buffer) port q w within c h =
    same-IsCache _ q (read_in_order os port buffer w within c).1 h
op-IsCache os (read_exact_op buffer) port q w within c h =
    after-IsCache _ q _ (read_exact_lem os port buffer w within c).1 h
op-IsCache os read_byte_op port q w within c h =
    same-IsCache _ q (read_byte_lem os port w within c).2 h
op-IsCache os (read_line_op rounds d timeout) port q w within c h =
    after-IsCache _ q _ (read_line-IsCache os rounds port d timeout w within c) h
op-IsCache os (write_op bytes) port q w within c h = same-IsCache port q c h
op-IsCache os (write_byte_op byte) port q w within c h = same-IsCache port q c h
op-IsCache os (write_line_op line eol) port q w within c h = same-IsCache port q c h
op-IsCache os flush_op port q w within c h = same-IsCache port q c h
op-IsCache os queue_op port q w within c h = same-IsCache port q c h
op-IsCache os (purge_op rounds flags) port q w within c h =
    purge-IsCache os rounds port q flags w c h
op-IsCache os (dtr_op state) port q w within c h =
    same-IsCache _ q (settings-IsCache port maximum bits8 one_bit no_parity no_control state c).3 h
op-IsCache os (rts_op state) port q w within c h =
    same-IsCache _ q (settings-IsCache port maximum bits8 one_bit no_parity no_control state c).4 h
