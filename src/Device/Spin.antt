-- ===== src/Device/Spin.antt =====
-- The loop of the device once its peer has disconnected.
use simple_rfcomm.Prelude.{
  ℕ, zero, suc, ◌≡◌, ◌<◌, refl, sym, ap, ◌∙◌, inl, inr, Option, none, some, Bool, true, false, List,
  [], length, arith, Option-cases,
}
use simple_rfcomm.Prelude.Int.{ℤ, pos}
use simple_rfcomm.Os.{Os, returns, out_of_rounds, sys_recv, sys_now}
use simple_rfcomm.Os.Traffic.{ReceivesWithin}
use simple_rfcomm.Os.OneWay.{HearsNothing, one_way_rules}
use simple_rfcomm.Socket.{Socket, recv, is_open}
use simple_rfcomm.Serial.{
  SerialImpl, SerialPort, port_is_open, impl_is_open, refill_rx_cache, line_rounds, read_line,
}
use simple_rfcomm.Serial.Stream.{port_pending, PortIsCache}
use simple_rfcomm.Serial.Line.{FinitePeer, LineOf}
use simple_rfcomm.Serial.ReadLine.{read_line_lem}
use simple_rfcomm.Serial.SameSocket.{port_sock, sock-read_line}
use simple_rfcomm.Device.{device_loop, step, line_feed}

-- A peer that has closed the connection, and a descriptor that stays readable: recv(2) answers 0.
abbrev pub Disconnected : Os → Type 0
Disconnected os = (fd : ℤ) (size : ℕ) (w : os.World) → (os.do_recv fd size w).0 ≡ some []

count : Option (List ℕ) → ℕ
count none = 0
count (some bytes) = length bytes

abbrev pub sock_is_open : Option Socket → Bool
sock_is_open none = false
sock_is_open (some sock) = is_open sock

pub port_is_open-port_sock : (port : SerialPort) → port_is_open port ≡ sock_is_open (port_sock port)
unfolding port_is_open impl_is_open
port_is_open-port_sock none = refl
port_is_open-port_sock (some p) = elim (Option-cases p.sock) [
  | inl no_socket ↦ rw no_socket refl
  | inr (sock, e) ↦ rw e refl
]

nothing_read : (line left : List ℕ) → LineOf line_feed [] line left → (line ≡ []) × (left ≡ [])
nothing_read line left (inl (body, split, _)) = absurd (cc split)
nothing_read line left (inr (_, empty, left_empty)) = (empty, left_empty)

module _ (os : Os) (gone : Disconnected os) where
  within : ReceivesWithin os
  unfolding count
  within fd size w bytes h = omega (arith, ap count (sym (gone fd size w) ∙ h))

  abbrev no_peer : FinitePeer os
  no_peer = record {
    left = λ w. 0;
    recv_left = λ fd size w. rw (gone fd size w) (omega arith);
    now_left = λ w. omega arith;
    getfl_left = λ fd w. omega arith;
    setfl_left = λ fd flags w. omega arith;
  }

  recv-call : (fd : ℤ) (size : ℕ) → HearsNothing (sys_recv os fd size)
  recv-call fd size = record { heard = λ w. rw (gone fd size w) refl }

  now-call : HearsNothing (sys_now os)
  now-call = record { heard = λ w. refl }

  recv-silent : (sock : Socket) (buffer : List ℕ) → HearsNothing (recv os sock buffer)
  unfolding recv
  recv-silent sock buffer = search (one_way_rules, recv-call)

  refill-silent : (p : SerialImpl) → HearsNothing (refill_rx_cache os p)
  unfolding refill_rx_cache
  refill-silent p = search (one_way_rules, recv-silent)

  line_rounds-silent :
      (rounds d : ℕ) (timeout : ℤ) (start : ℕ) (p : SerialImpl) (line : List ℕ)
      → HearsNothing (line_rounds os rounds d timeout start p line)
  unfolding line_rounds
  line_rounds-silent zero d timeout start p line = search one_way_rules
  line_rounds-silent (suc rounds) d timeout start p line =
      search (one_way_rules, now-call, refill-silent, line_rounds-silent rounds d timeout start)
        depth 9

  read_line-silent :
      (rounds : ℕ) (port : SerialPort) (d : ℕ) (timeout : ℤ)
      → HearsNothing (read_line os rounds port d timeout)
  unfolding read_line
  read_line-silent rounds none d timeout = search one_way_rules
  read_line-silent rounds (some p) d timeout =
      search (one_way_rules, now-call, line_rounds-silent rounds d timeout)

  -- `read_line` on an open port with nothing cached: an empty line, at once, and the port as open and
  -- as empty as before.
  read_line_gone :
      (rounds : ℕ) (port : SerialPort) (w : os.World)
      → 0 < rounds
      → port_is_open port ≡ true
      → PortIsCache port
      → port_pending port ≡ []
      → let r = read_line os rounds port line_feed (pos 5000) w in
        (r.value.0 ≡ returns [])
        × (port_is_open r.value.1 ≡ true)
        × PortIsCache r.value.1
        × (port_pending r.value.1 ≡ [])
  read_line_gone rounds port w h opened c bare =
      let r = read_line os rounds port line_feed (pos 5000) w in
      let ((line, ended, result), c') =
        read_line_lem os no_peer rounds port line_feed (pos 5000) w within c opened h in
      let silent = (read_line-silent rounds port line_feed (pos 5000)).heard w in
      let (line_empty, left_empty) =
        nothing_read line (port_pending r.value.1) (rw (bare, silent) at result) in
      (
        ended ∙ ap returns line_empty,
        port_is_open-port_sock r.value.1
            ∙ ap sock_is_open (sock-read_line os rounds port line_feed (pos 5000) w)
            ∙ sym (port_is_open-port_sock port)
            ∙ opened,
        c',
        left_empty,
      )

  -- Once the peer has closed the connection and the descriptor stays readable (recv(2) answers 0),
  -- the loop of the device on an open port with nothing cached never ends, however many rounds it
  -- makes.
  pub device_spins :
      (commands rounds : ℕ) (port : SerialPort) (w : os.World)
      → 0 < rounds
      → port_is_open port ≡ true
      → PortIsCache port
      → port_pending port ≡ []
      → (device_loop os commands rounds port w).value ≡ out_of_rounds
  unfolding device_loop step
  device_spins zero rounds port w h opened c bare = refl
  device_spins (suc commands) rounds port w h opened c bare =
      let r = read_line os rounds port line_feed (pos 5000) w in
      let (empty_line, opened', c', bare') = read_line_gone rounds port w h opened c bare in
      rw (opened, empty_line, opened')
        (device_spins commands rounds r.value.1 r.world h opened' c' bare')
