-- ===== src/Demo/Closes.antt =====
-- The serial port demo from its start to its end: the server's descriptors, and those of both modes.
use simple_rfcomm.Prelude.{
  ℕ, ◌≤◌, ◌≡◌, refl, sym, ap, inl, inr, append-nil, append_assoc, Option, none, some, Bool, true,
  false, List, [], ◌∷◌, ◌++◌, length, arith, Bool-cases,
}
use simple_rfcomm.Prelude.Int.{ℤ, pos, is_negative}
use simple_rfcomm.Command.{codes, same_text, Exit, exits, uncaught}
use simple_rfcomm.Command.Ends.{Leaves, Balanced-ends, closes_front, opens_behind, keeps_all}
use simple_rfcomm.Address.{Parsed, parsed_as, invalid_argument}
use simple_rfcomm.Uuid.{Uuid}
use simple_rfcomm.Uuid as Uuids
use simple_rfcomm.Os.{Os, Call, Outcome, returns, undefined, out_of_rounds}
use simple_rfcomm.Os.Traffic.{opened_handles, closed_handles, if_valid}
use simple_rfcomm.Os.Ledger.{Balanced, Balanced-append}
use simple_rfcomm.Socket.{Socket, is_open, destroy, set_timeouts}
use simple_rfcomm.Socket.Quiet.{set_timeouts-IsQuiet}
use simple_rfcomm.Serial.{SerialPort, new_impl, clear_rx_cache}
use simple_rfcomm.Serial.Quiet.{set_port_timeouts-IsQuiet}
use simple_rfcomm.Serial.Port.{set_port_timeouts, attach, close_port_impl, adopt}
use simple_rfcomm.Serial.Ledger.{returned, destroy-handles, socket_handles-closed}
use simple_rfcomm.Serial.Life.{socket_handles, port_handles}
use simple_rfcomm.Server.{ServerImpl, new_server, listen_with_sdp, accept, close_server}
use simple_rfcomm.Server.Accept.{accept-handles}
use simple_rfcomm.Server.Publish.{listen_with_sdp_lem, close_server-handles}
use simple_rfcomm.ServerBench.Main.{default_provider, default_backlog}
use simple_rfcomm.Device.{device_loop}
use simple_rfcomm.Demo.{
  new_port, destroy_port, shut_down, behind_device, emulate, attach_client, server_mode,
  client_mode, run_mode, with_uuid, main, service_name, demo_uuid,
}
use simple_rfcomm.Demo.Quiet.{device_loop-IsQuiet}
use simple_rfcomm.Demo.SameSocket.{SameSock, device_loop-SameSock}
use simple_rfcomm.Demo.Ledger.{
  port_at_most_one, port_handles-same, destroy_port-Balanced, timeouts-Balanced, client_mode-Leaves,
}

-- What a listening server and a port hold together.
abbrev held_by : ServerImpl → SerialPort → List ℤ
held_by s port = if_valid s.listen_fd ++ port_handles port

held_at_most_two : (s : ServerImpl) (port : SerialPort) → length (held_by s port) ≤ 2
held_at_most_two s port = elim (Bool-cases (is_negative s.listen_fd)) [
  | inl no_server ↦ rw no_server (omega (arith, port_at_most_one port))
  | inr server ↦ rw server (omega (arith, port_at_most_one port))
]

module _ (os : Os) where
  shut_down-Leaves :
      (s : ServerImpl) (port : SerialPort) (status : ℕ) (cs : List Call) (w : os.World)
      → Balanced [] cs (held_by s port)
      → let r = shut_down os (some s) port status w in Leaves 2 r.value (cs ++ r.calls)
  shut_down-Leaves s port status cs w owned =
      let c = close_server os (some s) w in
      let d = destroy_port os port c.world in
      let (opened_none, shut) = close_server-handles os s w in
      rw (append-nil d.calls) (
        Balanced-ends (cs ++ (c.calls ++ d.calls)) (
          Balanced-append [] _ [] cs (c.calls ++ d.calls) owned (
            Balanced-append _ (port_handles port) [] c.calls d.calls
              (closes_front (if_valid s.listen_fd) (port_handles port) c.calls opened_none shut)
              (destroy_port-Balanced os port c.world))))

  behind_device-Leaves :
      (o : Outcome SerialPort) (s : ServerImpl) (port : SerialPort) (cs : List Call) (w : os.World)
      → Balanced [] cs (held_by s port)
      → SameSock port o
      → let r = behind_device os (some s) o w in Leaves 2 r.value (cs ++ r.calls)
  behind_device-Leaves (returns q) s port cs w owned same =
      shut_down-Leaves s q 0 cs w (rw (port_handles-same q port same) owned)
  behind_device-Leaves undefined s port cs w owned same =
      (held_by s port, rw (append-nil cs) owned, held_at_most_two s port)
  behind_device-Leaves out_of_rounds s port cs w owned same =
      (held_by s port, rw (append-nil cs) owned, held_at_most_two s port)

  -- Calls that keep what is held in front of them.
  quiet_behind :
      (front held held' : List ℤ) (cs : List Call)
      → closed_handles cs ≡ []
      → Balanced held cs held'
      → Balanced (front ++ held) cs (front ++ held')
  quiet_behind front held held' cs none_closed h =
      rw (none_closed, append_assoc front held (opened_handles cs))
        (ap (◌++◌ front) (rw none_closed at h))

  emulate-Leaves :
      (lines rounds : ℕ) (s : ServerImpl) (o : Outcome (Bool × SerialPort)) (cs : List Call)
      (w : os.World)
      → Balanced [] cs (held_by s (returned o))
      → let r = emulate os lines rounds (some s) o w in Leaves 2 r.value (cs ++ r.calls)
  emulate-Leaves lines rounds s (returns (true, port)) cs w owned =
      let front = if_valid s.listen_fd in
      let t = set_port_timeouts os port (pos 5000) (pos 5000) w in
      let e = device_loop os lines rounds t.value t.world in
      let b = behind_device os (some s) e.value e.world in
      let quiet_t = set_port_timeouts-IsQuiet os port (pos 5000) (pos 5000) in
      let quiet_e = device_loop-IsQuiet os lines rounds t.value in
      let ready : Balanced [] (cs ++ t.calls) (held_by s t.value) =
        Balanced-append [] _ _ cs t.calls owned (
          quiet_behind front _ _ t.calls (quiet_t.none_closed w)
            (timeouts-Balanced os port (pos 5000) (pos 5000) w)) in
      let served : Balanced [] ((cs ++ t.calls) ++ e.calls) (held_by s t.value) =
        Balanced-append [] _ _ (cs ++ t.calls) e.calls ready (
          keeps_all (held_by s t.value) e.calls (quiet_e.none_opened t.world)
            (quiet_e.none_closed t.world)) in
      rw
        (
          ← append_assoc cs t.calls (e.calls ++ b.calls),
          ← append_assoc (cs ++ t.calls) e.calls b.calls,
        )
        (behind_device-Leaves e.value s t.value ((cs ++ t.calls) ++ e.calls) e.world served
          (device_loop-SameSock os lines rounds t.value t.world))
  emulate-Leaves lines rounds s (returns (false, port)) cs w owned =
      shut_down-Leaves s port 1 cs w owned
  emulate-Leaves lines rounds s undefined cs w owned =
      (held_by s none, rw (append-nil cs) owned, held_at_most_two s none)
  emulate-Leaves lines rounds s out_of_rounds cs w owned =
      (held_by s none, rw (append-nil cs) owned, held_at_most_two s none)

  -- A socket that is handed to a new port is the port's, or has no descriptor.
  attach_new :
      (sock : Socket) (w : os.World)
      → let r = attach os new_port (some sock) w in
        (opened_handles r.calls ≡ [])
        × (closed_handles r.calls ≡ [])
        × (port_handles (returned r.value) ≡ socket_handles (some sock))
  unfolding attach new_port new_impl close_port_impl adopt clear_rx_cache
  attach_new sock w = elim (Bool-cases (is_open sock)) [
    | inl opened ↦
        let quiet = set_timeouts-IsQuiet os sock (pos 5000) (pos 5000) in
        let t = set_timeouts os sock (pos 5000) (pos 5000) w in
        rw (opened, append-nil t.calls, append-nil t.calls)
          (quiet.none_opened w, quiet.none_closed w, refl)
    | inr closed ↦
        let d = destroy os sock w in
        let (o, c) = destroy-handles os sock w closed in
        rw (closed, append-nil d.calls) (o, c, sym (socket_handles-closed sock closed))
  ]

  attach_client-Leaves :
      (lines rounds : ℕ) (s : ServerImpl) (o : Option Socket) (cs : List Call) (w : os.World)
      → Balanced [] cs (if_valid s.listen_fd ++ socket_handles o)
      → let r = attach_client os lines rounds (some s) o w in Leaves 2 r.value (cs ++ r.calls)
  unfolding new_port new_impl
  attach_client-Leaves lines rounds s none cs w owned = shut_down-Leaves s new_port 1 cs w owned
  attach_client-Leaves lines rounds s (some sock) cs w owned =
      let a = attach os new_port (some sock) w in
      let e = emulate os lines rounds (some s) a.value a.world in
      let (none_opened, none_closed, mine) = attach_new sock w in
      let taken : Balanced [] (cs ++ a.calls) (held_by s (returned a.value)) =
        Balanced-append [] _ _ cs a.calls owned (
          rw mine (
            keeps_all (if_valid s.listen_fd ++ socket_handles (some sock)) a.calls none_opened
              none_closed)) in
      rw (← append_assoc cs a.calls e.calls)
        (emulate-Leaves lines rounds s a.value (cs ++ a.calls) a.world taken)

  server_mode-Leaves :
      (lines rounds : ℕ) (uuid : Uuid) (w : os.World)
      → let r = server_mode os lines rounds uuid w in Leaves 2 r.value r.calls
  unfolding server_mode new_port new_impl
  server_mode-Leaves lines rounds uuid w =
      let l =
        listen_with_sdp os default_provider new_server uuid service_name 0 default_backlog w in
      let (s, result) =
        listen_with_sdp_lem os default_provider uuid service_name 0 default_backlog w in
      elim result [
        | inl (failed, idle, shut) ↦ rw failed (
            shut_down-Leaves s new_port 1 l.calls l.world
              (rw (idle, shut) (sym (append-nil (opened_handles l.calls)))))
        | inr (listening, one, valid, none_yet, _) ↦
            let a = accept os (some s) l.world in
            let c = attach_client os lines rounds (some s) a.value a.world in
            let (came, kept) = accept-handles os (some s) l.world in
            let ready : Balanced [] l.calls (if_valid s.listen_fd) =
              rw (valid, none_yet, one) refl in
            rw (listening, ← append_assoc l.calls a.calls c.calls)
              (attach_client-Leaves lines rounds s a.value (l.calls ++ a.calls) a.world (
                Balanced-append [] _ _ l.calls a.calls ready
                  (opens_behind (if_valid s.listen_fd) (socket_handles a.value) a.calls came kept)))
      ]

  more_room : (o : Outcome Exit) (cs : List Call) → Leaves 1 o cs → Leaves 2 o cs
  more_room (returns (exits status)) cs h = h
  more_room (returns uncaught) cs h = h
  more_room undefined cs (held, balanced, few) = (held, balanced, omega (arith, few))
  more_room out_of_rounds cs (held, balanced, few) = (held, balanced, omega (arith, few))

  client_mode-Leaves_two :
      (lines rounds : ℕ) (target_mac : List ℕ) (w : os.World)
      → let r = client_mode os lines rounds target_mac w in Leaves 2 r.value r.calls
  client_mode-Leaves_two lines rounds target_mac w =
      more_room _ _ (client_mode-Leaves os lines rounds target_mac w)

  run_mode-Leaves :
      (lines rounds : ℕ) (uuid : Uuid) (mode : List ℕ) (args : List (List ℕ)) (w : os.World)
      → let r = run_mode os lines rounds uuid mode args w in Leaves 2 r.value r.calls
  unfolding run_mode
  run_mode-Leaves lines rounds uuid mode [] w =
      elim (Bool-cases (same_text mode (codes "server"))) [
        | inl server ↦ rw server (server_mode-Leaves lines rounds uuid w)
        | inr other ↦ rw other refl
      ]
  run_mode-Leaves lines rounds uuid mode (target_mac ∷ _) w =
      elim (Bool-cases (same_text mode (codes "server"))) [
        | inl server ↦ rw server (server_mode-Leaves lines rounds uuid w)
        | inr other ↦ elim (Bool-cases (same_text mode (codes "client"))) [
          | inl client ↦ rw (other, client) (client_mode-Leaves_two lines rounds target_mac w)
          | inr neither ↦ rw (other, neither) refl
        ]
      ]

  with_uuid-Leaves :
      (lines rounds : ℕ) (uuid : Parsed Uuid) (mode : List ℕ) (args : List (List ℕ)) (w : os.World)
      → let r = with_uuid os lines rounds uuid mode args w in Leaves 2 r.value r.calls
  unfolding with_uuid
  with_uuid-Leaves lines rounds (parsed_as uuid) mode args w =
      run_mode-Leaves lines rounds uuid mode args w
  with_uuid-Leaves lines rounds (invalid_argument _) mode args w = refl

  -- Whatever the arguments, the system, the SDP server and the peer do, and however many rounds the
  -- loops are given: where the serial port demo returns a status, in the mode of the server, of the
  -- client or neither, what it has opened has been closed, each descriptor once and in its order,
  -- the server's before that of the client it serves. Where it is cut off or its behaviour is
  -- undefined, two descriptors at most are open.
  pub demo_closes :
      (lines rounds : ℕ) (args : List (List ℕ)) (w : os.World)
      → let r = main os lines rounds args w in Leaves 2 r.value r.calls
  unfolding main
  demo_closes lines rounds [] w = refl
  demo_closes lines rounds (mode ∷ args) w =
      with_uuid-Leaves lines rounds (Uuids.parse demo_uuid) mode args w
