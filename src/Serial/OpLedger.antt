-- ===== src/Serial/OpLedger.antt =====
-- The ledger of descriptors over each operation of a port.
use simple_rfcomm.Prelude.{
  ℕ, ◌≡◌, refl, sym, ap, subst, ◌∙◌, append-nil, Option, none, some, Bool, true, List, [], ◌++◌,
}
use simple_rfcomm.Prelude.Int.{ℤ}
use simple_rfcomm.Address as Addresses
use simple_rfcomm.Address.{Address}
use simple_rfcomm.Uuid.{Uuid}
use simple_rfcomm.Socket.{Socket}
use simple_rfcomm.Uuid as Uuids
use simple_rfcomm.Os.{Os, Action, Run, pure, Outcome, returns, undefined, out_of_rounds}
use simple_rfcomm.Os.Traffic.{opened_handles, closed_handles}
use simple_rfcomm.Os.Ledger.{Balanced, IsQuiet, pure-IsQuiet}
use simple_rfcomm.Serial.Types.{
  SerialPort, BaudRate, maximum, DataBits, bits8, StopBits, one_bit, Parity, no_parity, FlowControl,
  no_control, set_baud_rate, set_data_characteristics, set_flow_control, set_dtr, set_rts,
}
use simple_rfcomm.Serial.Cache.{read, read_exact, read_byte, read_line}
use simple_rfcomm.Serial.Port.{
  open_port, open_parsed, open_text, open_by_parsed, open_by_uuid, open_text_by_uuid, attach,
  close_port, set_port_timeouts, write, write_byte, write_line, flush, get_rx_queue_status, purge,
}
use simple_rfcomm.Serial.Life.{socket_handles, port_handles}
use simple_rfcomm.Serial.Quiet.{
  read-IsQuiet, read_exact-IsQuiet, read_byte-IsQuiet, read_line-IsQuiet, write-IsQuiet,
  write_byte-IsQuiet, write_line-IsQuiet, queue-IsQuiet, purge-IsQuiet, set_port_timeouts-IsQuiet,
}
use simple_rfcomm.Serial.SameSocket.{
  port_sock, sock-read, sock-read_exact, sock-read_byte, sock-read_line, sock-purge,
}
use simple_rfcomm.Serial.Ledger.{
  quiet-Balanced, returned, close-Balanced, open-Balanced, open_by_uuid-Balanced, attach-Balanced,
}
use simple_rfcomm.Serial.Operations.{
  PortOp, open_op, open_text_op, open_by_uuid_op, open_text_by_uuid_op, attach_op, close_op,
  baud_op, characteristics_op, flow_op, timeouts_op, read_op, read_exact_op, read_byte_op,
  read_line_op, write_op, write_byte_op, write_line_op, flush_op, queue_op, purge_op, dtr_op,
  rts_op, port_of, after, run_op,
}

-- What the caller hands over with an operation.
abbrev pub handed_over : PortOp → List ℤ
handed_over (attach_op o) = socket_handles o
handed_over _ = []

-- The port of an outcome; a call that has not returned leaves none.
abbrev pub port_after : Outcome SerialPort → SerialPort
port_after (returns port) = port
port_after undefined = none
port_after out_of_rounds = none

-- An operation whose result is a port, as one that opens nothing and keeps the socket.
quiet_op-Balanced :
    {W A : Type 0} (m : Action W A) (w : W) (port q : SerialPort)
    → IsQuiet m
    → port_sock q ≡ port_sock port
    → Balanced (port_handles port) ((m w).calls ++ []) (port_handles q)
quiet_op-Balanced m w port q quiet same =
    rw (append-nil (m w).calls) (quiet-Balanced m w port q quiet same)

pub returned-port_of :
    (o : Outcome (Bool × SerialPort)) (p : SerialPort) → port_of o ≡ returns p → returned o ≡ p
returned-port_of (returns (ok, port)) p h = ap port_after h
returned-port_of undefined p h = absurd (cc h)
returned-port_of out_of_rounds p h = absurd (cc h)

-- The same for an operation that answers with the port, as `open` does.
answer_op-Balanced :
    {W : Type 0} (r : Run W (Outcome (Bool × SerialPort))) (held : List ℤ) (q : SerialPort)
    → Balanced held r.calls (port_handles (returned r.value))
    → port_of r.value ≡ returns q
    → Balanced held (r.calls ++ []) (port_handles q)
answer_op-Balanced r held q h e =
    rw (append-nil r.calls)
      (subst (λ p. Balanced held r.calls (port_handles p)) (returned-port_of r.value q e) h)

pub same_sock :
    (port port' q : SerialPort)
    → port_sock port' ≡ port_sock port
    → returns port' ≡ returns q
    → port_sock q ≡ port_sock port
same_sock port port' q same h = ap (λ o. port_sock (port_after o)) (sym h) ∙ same

after_sock :
    {A : Type 0} (port port' q : SerialPort) (o : Outcome A)
    → port_sock port' ≡ port_sock port
    → after o port' ≡ returns q
    → port_sock q ≡ port_sock port
after_sock port port' q (returns a) same h = same_sock port port' q same h
after_sock port port' q undefined same h = absurd (cc h)
after_sock port port' q out_of_rounds same h = absurd (cc h)

-- The settings leave the socket.
sock-settings :
    (port : SerialPort) (baud : BaudRate) (d : DataBits) (s : StopBits) (q : Parity)
    (f : FlowControl) (state : Bool)
    → (port_sock (set_baud_rate port baud) ≡ port_sock port)
      × (port_sock (set_data_characteristics port d s q) ≡ port_sock port)
      × (port_sock (set_flow_control port f) ≡ port_sock port)
      × (port_sock (set_dtr port state) ≡ port_sock port)
      × (port_sock (set_rts port state) ≡ port_sock port)
unfolding set_baud_rate set_data_characteristics set_flow_control set_dtr set_rts
sock-settings none baud d s q f state = (refl, refl, refl, refl, refl)
sock-settings (some p) baud d s q f state = (refl, refl, refl, refl, refl)

-- A setting, which makes no call.
setting-Balanced :
    (port port' q : SerialPort)
    → port_sock port' ≡ port_sock port
    → returns port' ≡ returns q
    → Balanced (port_handles port) [] (port_handles q)
setting-Balanced port port' q same h =
    quiet-Balanced (pure tt) tt port q (pure-IsQuiet tt) (same_sock port port' q same h)

module _ (os : Os) where
  open_parsed-Balanced :
      (port : SerialPort) (o : Option Address) (channel : ℕ) (timeout : ℤ) (w : os.World)
      → let r = open_parsed os port o channel timeout w in
        Balanced (port_handles port) r.calls (port_handles (returned r.value))
  unfolding open_parsed
  open_parsed-Balanced port none channel timeout w = append-nil (port_handles port)
  open_parsed-Balanced port (some addr) channel timeout w =
      open-Balanced os port addr channel timeout w

  pub open_by_parsed-Balanced :
      (port : SerialPort) (o : Option Address) (o' : Option Uuid) (timeout : ℤ) (w : os.World)
      → let r = open_by_parsed os port o o' timeout w in
        Balanced (port_handles port) r.calls (port_handles (returned r.value))
  unfolding open_by_parsed
  open_by_parsed-Balanced port none o' timeout w = append-nil (port_handles port)
  open_by_parsed-Balanced port (some addr) none timeout w = append-nil (port_handles port)
  open_by_parsed-Balanced port (some addr) (some uuid) timeout w =
      open_by_uuid-Balanced os port addr uuid timeout w

  pub sock-set_timeouts :
      (port : SerialPort) (a b : ℤ) (w : os.World)
      → port_sock (set_port_timeouts os port a b w).value ≡ port_sock port
  unfolding set_port_timeouts
  sock-set_timeouts none a b w = refl
  sock-set_timeouts (some p) a b w = refl

  handed_over-Balanced :
      (o : Option Socket) (port q : SerialPort) (w : os.World)
      → let r = attach os port o w in
        port_of r.value ≡ returns q
        → port_handles port ++ (socket_handles o ++ opened_handles (r.calls ++ []))
          ≡ closed_handles (r.calls ++ []) ++ port_handles q
  handed_over-Balanced o port q w h =
      let r = attach os port o w in
      rw (append-nil r.calls) (
        subst
          (λ p.
            port_handles port ++ (socket_handles o ++ opened_handles r.calls)
            ≡ closed_handles r.calls ++ port_handles p)
          (returned-port_of r.value q h) (attach-Balanced os port o w (λ e. cc (rw e at h))))

  pub op-Balanced :
      (op : PortOp) (port q : SerialPort) (w : os.World)
      → let r = run_op os op port w in
        r.value ≡ returns q
        → port_handles port ++ (handed_over op ++ opened_handles r.calls)
          ≡ closed_handles r.calls ++ port_handles q
  unfolding run_op open_text open_text_by_uuid flush
  op-Balanced (open_op addr channel timeout) port q w h =
      answer_op-Balanced (open_port os port addr channel timeout w) _ q
        (open-Balanced os port addr channel timeout w) h
  op-Balanced (open_text_op text channel timeout) port q w h =
      answer_op-Balanced (open_text os port text channel timeout w) _ q
        (open_parsed-Balanced port (Addresses.try_parse text) channel timeout w) h
  op-Balanced (open_by_uuid_op addr uuid timeout) port q w h =
      answer_op-Balanced (open_by_uuid os port addr uuid timeout w) _ q
        (open_by_uuid-Balanced os port addr uuid timeout w) h
  op-Balanced (open_text_by_uuid_op text uuid_text timeout) port q w h =
      answer_op-Balanced (open_text_by_uuid os port text uuid_text timeout w) _ q
        (open_by_parsed-Balanced port (Addresses.try_parse text) (Uuids.try_parse uuid_text) timeout
          w)
        h
  op-Balanced (attach_op o) port q w h = handed_over-Balanced o port q w h
  op-Balanced close_op port q w h = rw (append-nil (close_port os port w).calls) (
      subst (λ p. Balanced (port_handles port) (close_port os port w).calls (port_handles p))
        (ap port_after h) (close-Balanced os port w))
  op-Balanced (baud_op baud) port q w h =
      let (same, _, _, _, _) = sock-settings port baud bits8 one_bit no_parity no_control true in
      setting-Balanced port _ q same h
  op-Balanced (characteristics_op d s p) port q w h =
      let (_, same, _, _, _) = sock-settings port maximum d s p no_control true in
      setting-Balanced port _ q same h
  op-Balanced (flow_op f) port q w h =
      let (_, _, same, _, _) = sock-settings port maximum bits8 one_bit no_parity f true in
      setting-Balanced port _ q same h
  op-Balanced (dtr_op state) port q w h =
      let (_, _, _, same, _) =
        sock-settings port maximum bits8 one_bit no_parity no_control state in
      setting-Balanced port _ q same h
  op-Balanced (rts_op state) port q w h =
      let (_, _, _, _, same) =
        sock-settings port maximum bits8 one_bit no_parity no_control state in
      setting-Balanced port _ q same h
  op-Balanced (timeouts_op a b) port q w h =
      quiet_op-Balanced (set_port_timeouts os port a b) w port q
        (set_port_timeouts-IsQuiet os port a b)
        (same_sock port _ q (sock-set_timeouts port a b w) h)
  op-Balanced (read_op buffer) port q w h =
      quiet_op-Balanced (read os port buffer) w port q (read-IsQuiet os port buffer)
        (same_sock port _ q (sock-read os port buffer w) h)
  op-Balanced (read_exact_op buffer) port q w h =
      quiet_op-Balanced (read_exact os port buffer) w port q (read_exact-IsQuiet os port buffer)
        (after_sock port _ q _ (sock-read_exact os port buffer w) h)
  op-Balanced read_byte_op port q w h =
      quiet_op-Balanced (read_byte os port) w port q (read_byte-IsQuiet os port)
        (same_sock port _ q (sock-read_byte os port w) h)
  op-Balanced (read_line_op rounds d timeout) port q w h =
      quiet_op-Balanced (read_line os rounds port d timeout) w port q
        (read_line-IsQuiet os rounds port d timeout)
        (after_sock port _ q _ (sock-read_line os rounds port d timeout w) h)
  op-Balanced (write_op bytes) port q w h =
      quiet_op-Balanced (write os port bytes) w port q (write-IsQuiet os port bytes)
        (same_sock port port q refl h)
  op-Balanced (write_byte_op byte) port q w h =
      quiet_op-Balanced (write_byte os port byte) w port q (write_byte-IsQuiet os port byte)
        (same_sock port port q refl h)
  op-Balanced (write_line_op line eol) port q w h =
      quiet_op-Balanced (write_line os port line eol) w port q (write_line-IsQuiet os port line eol)
        (same_sock port port q refl h)
  op-Balanced flush_op port q w h = setting-Balanced port port q refl h
  op-Balanced queue_op port q w h =
      quiet_op-Balanced (get_rx_queue_status os port) w port q (queue-IsQuiet os port)
        (same_sock port port q refl h)
  op-Balanced (purge_op rounds flags) port q w h =
      quiet-Balanced (purge os rounds port flags) w port q (purge-IsQuiet os rounds port flags)
        (sock-purge os rounds port q flags w h)
