-- ===== src/Serial/Port.antt =====
-- The operations of src/serial_port.cpp that open, close, set up and write.
use simple_rfcomm.Prelude.{
  ℕ, zero, suc, ◌+◌, ◌%◌, Option, none, some, Bool, true, false, not, ◌||◌, List, [], ◌∷◌, ◌++◌,
  ◌==◌, if◌then◌else◌, replicate,
}
use simple_rfcomm.Prelude.Int.{ℤ, is_positive, to_size}
use simple_rfcomm.Address.{Address}
use simple_rfcomm.Address as Addresses
use simple_rfcomm.Uuid.{Uuid}
use simple_rfcomm.Os.{
  Os, Action, Outcome, returns, undefined, out_of_rounds, pure, ◌>>=◌, ◌>>◌, sys_pending,
}
use simple_rfcomm.Socket.{
  Socket, is_empty, is_open, send, send_all, recv, set_blocking, native_handle, destroy,
}
use simple_rfcomm.Socket as Sockets
use simple_rfcomm.Uuid as Uuids
use simple_rfcomm.Client.{connect, connect_by_sdp}
use simple_rfcomm.Serial.Types.{SerialImpl, SerialPort, socket_of, port_is_open, has_flag, purge_rx}
use simple_rfcomm.Serial.Cache.{clear_rx_cache, cached_bytes_available, chunk_size, size_mod}

module _ (os : Os) where
  -- `close`, the destructor of the socket included.
  unfoldable pub close_port_impl : SerialImpl → Action os.World SerialImpl
  close_port_impl p = do
    elim p.sock [ none ↦ pure tt | some s ↦ do s' ← Sockets.close os s; destroy os s' ]
    pure (record (clear_rx_cache p) { sock = none })

  unfoldable pub close_port : SerialPort → Action os.World SerialPort
  close_port none = pure none
  close_port (some p) = do p' ← close_port_impl p; pure (some p')

  -- The new socket is kept and gets the port's timeouts, whose result the code ignores.
  unfoldable pub adopt : SerialImpl → Socket → Action os.World (Bool × SerialPort)
  adopt p sock = do
    Sockets.set_timeouts os sock p.write_timeout p.read_timeout
    pure (true, some (record p { sock = some sock }))

  unfoldable pub adopt_result :
      SerialImpl → Option Socket → Action os.World (Outcome (Bool × SerialPort))
  adopt_result p none = pure (returns (false, some (record p { sock = none })))
  adopt_result p (some sock) = do r ← adopt p sock; pure (returns r)

  unfoldable pub open_port :
      SerialPort → Address → ℕ → ℤ → Action os.World (Outcome (Bool × SerialPort))
  open_port none addr channel timeout = pure undefined
  open_port (some p) addr channel timeout = do
    p' ← close_port_impl p
    sock ← connect os addr channel timeout
    adopt_result p' sock

  unfoldable pub open_parsed :
      SerialPort → Option Address → ℕ → ℤ → Action os.World (Outcome (Bool × SerialPort))
  open_parsed port none channel timeout = pure (returns (false, port))
  open_parsed port (some addr) channel timeout = open_port port addr channel timeout

  unfoldable pub open_text :
      SerialPort → List ℕ → ℕ → ℤ → Action os.World (Outcome (Bool × SerialPort))
  open_text port mac_address channel timeout =
      open_parsed port (Addresses.try_parse mac_address) channel timeout

  unfoldable pub adopt_outcome :
      SerialImpl → Outcome (Option Socket) → Action os.World (Outcome (Bool × SerialPort))
  adopt_outcome p (returns sock) = adopt_result p sock
  adopt_outcome p undefined = pure undefined
  adopt_outcome p out_of_rounds = pure out_of_rounds

  unfoldable pub open_by_uuid :
      SerialPort → Address → Uuid → ℤ → Action os.World (Outcome (Bool × SerialPort))
  open_by_uuid none addr uuid timeout = pure undefined
  open_by_uuid (some p) addr uuid timeout = do
    p' ← close_port_impl p
    sock ← connect_by_sdp os addr uuid timeout
    adopt_outcome p' sock

  unfoldable pub open_by_parsed :
      SerialPort → Option Address → Option Uuid → ℤ → Action os.World (Outcome (Bool × SerialPort))
  open_by_parsed port none uuid timeout = pure (returns (false, port))
  open_by_parsed port (some addr) none timeout = pure (returns (false, port))
  open_by_parsed port (some addr) (some uuid) timeout = open_by_uuid port addr uuid timeout

  unfoldable pub open_text_by_uuid :
      SerialPort → List ℕ → List ℕ → ℤ → Action os.World (Outcome (Bool × SerialPort))
  open_text_by_uuid port mac_address uuid_str timeout =
      open_by_parsed port (Addresses.try_parse mac_address) (Uuids.try_parse uuid_str) timeout

  -- A socket that is refused is destroyed with the argument.
  unfoldable pub attach : SerialPort → Option Socket → Action os.World (Outcome (Bool × SerialPort))
  attach port none = do port' ← close_port port; pure (returns (false, port'))
  attach none (some sock) =
      if is_open sock then pure undefined else do destroy os sock; pure (returns (false, none))
  attach (some p) (some sock) = do
    p' ← close_port_impl p
    if is_open sock
        then (do r ← adopt p' sock; pure (returns r))
        else do destroy os sock; pure (returns (false, some p'))

  -- if (sock) sock->set_timeouts(…), whose result the code ignores.
  unfoldable pub apply_timeouts : Option Socket → ℤ → ℤ → Action os.World (Unit {0})
  apply_timeouts none read_timeout write_timeout = pure tt
  apply_timeouts (some sock) read_timeout write_timeout =
      Sockets.set_timeouts os sock write_timeout read_timeout >> pure tt

  unfoldable pub set_port_timeouts : SerialPort → ℤ → ℤ → Action os.World SerialPort
  set_port_timeouts none read_timeout write_timeout = pure none
  set_port_timeouts (some p) read_timeout write_timeout = do
    apply_timeouts p.sock read_timeout write_timeout
    pure (some (record p { read_timeout = read_timeout; write_timeout = write_timeout }))

  -- The socket of a port, for the operations that have tested that it is open.
  abbrev pub socket_in : SerialPort → Socket
  socket_in none = none
  socket_in (some p) = socket_of p

  unfoldable pub write : SerialPort → List ℕ → Action os.World ℕ
  write port bytes = if not (port_is_open port) || is_empty bytes then pure 0 else do
    sent ← send os (socket_in port) bytes
    pure (if is_positive sent then to_size sent else 0)

  unfoldable pub write_byte : SerialPort → ℕ → Action os.World Bool
  write_byte port byte = do n ← write port (byte ∷ []); pure (n == 1)

  unfoldable pub write_line : SerialPort → List ℕ → List ℕ → Action os.World (Outcome Bool)
  write_line port line eol =
      if not (port_is_open port)
      then pure (returns false)
      else send_all os (socket_in port) (line ++ eol)

  unfoldable pub flush : SerialPort → Action os.World (Unit {0})
  flush port = pure tt

  -- What is cached and what the system reports as pending.
  unfoldable pub get_rx_queue_status : SerialPort → Action os.World ℕ
  get_rx_queue_status none = pure 0
  get_rx_queue_status (some p) = if not (port_is_open (some p)) then pure 0 else do
    pending ← sys_pending os (native_handle (socket_of p))
    pure ((cached_bytes_available p + elim pending [ none ↦ 0 | some n ↦ n ]) % size_mod)

  -- while (sock->recv(drain_buf) > 0) {}, with the rounds that it may still make.
  unfoldable pub drain_rounds : ℕ → Socket → List ℕ → Action os.World (Outcome (Unit {0}))
  drain_rounds zero sock drain_buf = pure out_of_rounds
  drain_rounds (suc rounds) sock drain_buf = do
    (r, drain_buf') ← recv os sock drain_buf
    if is_positive r then drain_rounds rounds sock drain_buf' else pure (returns tt)

  unfoldable pub drain_socket : ℕ → Option Socket → Action os.World (Outcome (Unit {0}))
  drain_socket rounds none = pure (returns tt)
  drain_socket rounds (some sock) = do
    set_blocking os sock false
    r ← drain_rounds rounds sock (replicate chunk_size 0)
    set_blocking os sock true
    pure r

  unfoldable pub purge : ℕ → SerialPort → ℕ → Action os.World (Outcome SerialPort)
  purge rounds none flags = pure (returns none)
  purge rounds (some p) flags =
      if has_flag flags purge_rx
      then (do
        r ← drain_socket rounds p.sock
        pure (elim r [
          | returns _ ↦ returns (some (clear_rx_cache p))
          | undefined ↦ undefined
          | out_of_rounds ↦ out_of_rounds
        ]))
      else pure (returns (some p))
