-- ===== src/Serial/Types.antt =====
-- The settings and the state of a port: src/serial_port.cpp's `Impl` and the enumerations of
-- include/simple_rfcomm/serial_port.hpp.
use simple_rfcomm.Prelude.{
  ℕ, Option, none, some, Bool, true, false, List, [], bit_or, bit_and, ◌==◌, not,
}
use simple_rfcomm.Prelude.Int.{ℤ, pos}
use simple_rfcomm.Address.{Address, any}
use simple_rfcomm.Socket.{Socket, peer_address, peer_channel, is_open}

-- `PurgeFlags` is a bit set: Rx is bit 0 and Tx is bit 1.
abbrev pub purge_rx : ℕ
purge_rx = 1

abbrev pub purge_tx : ℕ
purge_tx = 2

abbrev pub purge_all : ℕ
purge_all = bit_or purge_rx purge_tx

abbrev pub has_flag : ℕ → ℕ → Bool
has_flag flags flag = not (bit_and flags flag == 0)

pub data BaudRate : Type 0 where
  baud9600 baud19200 baud38400 baud57600 baud115200 baud230400 baud460800 baud921600 : BaudRate
  maximum : BaudRate

pub data DataBits : Type 0 where
  bits7 bits8 : DataBits

pub data StopBits : Type 0 where
  one_bit two_bits : StopBits

pub data Parity : Type 0 where
  no_parity odd even mark space : Parity

pub data FlowControl : Type 0 where
  no_control rts_cts dtr_dsr xon_xoff : FlowControl

pub record SerialImpl : Type 0 where
  pub sock : Option Socket
  pub baud : BaudRate
  pub data_bits : DataBits
  pub stop_bits : StopBits
  pub parity : Parity
  pub flow_control : FlowControl
  pub read_timeout : ℤ
  pub write_timeout : ℤ
  pub dtr : Bool
  pub rts : Bool
  pub cts : Bool
  pub dsr : Bool
  pub rx_buf : List ℕ
  pub rx_head : ℕ

abbrev pub SerialPort : Type 0
SerialPort = Option SerialImpl

-- The default member initialisers.
unfoldable pub new_impl : SerialImpl
new_impl = record {
  sock = none;
  baud = baud115200;
  data_bits = bits8;
  stop_bits = one_bit;
  parity = no_parity;
  flow_control = no_control;
  read_timeout = pos 5000;
  write_timeout = pos 5000;
  dtr = true;
  rts = true;
  cts = true;
  dsr = true;
  rx_buf = [];
  rx_head = 0;
}

-- `*pimpl_->sock`; the methods use it only where `sock` is not null.
abbrev pub socket_of : SerialImpl → Socket
socket_of p = elim p.sock [ none ↦ none | some s ↦ s ]

-- pimpl_->sock && pimpl_->sock->is_open()
unfoldable pub impl_is_open : SerialImpl → Bool
unfolding is_open
impl_is_open p = elim p.sock [ none ↦ false | some s ↦ is_open s ]

unfoldable pub port_is_open : SerialPort → Bool
unfolding impl_is_open
port_is_open none = false
port_is_open (some p) = impl_is_open p

unfoldable pub set_baud_rate : SerialPort → BaudRate → SerialPort
set_baud_rate none baud = none
set_baud_rate (some p) baud = some (record p { baud = baud })

unfoldable pub baud_rate : SerialPort → BaudRate
baud_rate none = baud115200
baud_rate (some p) = p.baud

unfoldable pub set_data_characteristics : SerialPort → DataBits → StopBits → Parity → SerialPort
set_data_characteristics none d s q = none
set_data_characteristics (some p) d s q =
    some (record p { data_bits = d; stop_bits = s; parity = q })

unfoldable pub set_flow_control : SerialPort → FlowControl → SerialPort
set_flow_control none f = none
set_flow_control (some p) f = some (record p { flow_control = f })

unfoldable pub set_dtr : SerialPort → Bool → SerialPort
set_dtr none state = none
set_dtr (some p) state = some (record p { dtr = state })

unfoldable pub set_rts : SerialPort → Bool → SerialPort
set_rts none state = none
set_rts (some p) state = some (record p { rts = state })

unfoldable pub get_cts : SerialPort → Bool
get_cts none = true
get_cts (some p) = p.cts

unfoldable pub get_dsr : SerialPort → Bool
get_dsr none = true
get_dsr (some p) = p.dsr

unfoldable pub port_peer_address : SerialPort → Address
unfolding any peer_address
port_peer_address none = any
port_peer_address (some p) = elim p.sock [ none ↦ any | some s ↦ peer_address s ]

unfoldable pub port_peer_channel : SerialPort → ℕ
unfolding peer_channel
port_peer_channel none = 0
port_peer_channel (some p) = elim p.sock [ none ↦ 0 | some s ↦ peer_channel s ]

-- `none` for the null pointer.
unfoldable pub underlying_socket : SerialPort → Option Socket
underlying_socket none = none
underlying_socket (some p) = p.sock
