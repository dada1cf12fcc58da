-- ===== src/Serial/Life.antt =====
-- How a port takes a connection and lets it go: `open` and `close`.
use simple_rfcomm.Prelude.{
  ℕ, ◌≡◌, ◌⊎◌, inl, inr, refl, sym, append-nil, Option, none, some, Bool, true, false, List, [],
  ◌∷◌, ◌++◌, arith, Bool-cases, Option-cases, length, ◌≤◌,
}
use simple_rfcomm.Prelude.Int.{ℤ, is_negative}
use simple_rfcomm.Address.{Address}
use simple_rfcomm.Os.{Os, Run, Outcome, returns}
use simple_rfcomm.Os.Traffic.{
  opened_handles, closed_handles, opened_handles-append, closed_handles-append, if_valid,
}
use simple_rfcomm.Os.Ledger.{Balanced}
use simple_rfcomm.Socket.{
  Socket, is_open, close, destroy, close_socket_handle, set_timeouts, native_handle,
}
use simple_rfcomm.Client.{connect}
use simple_rfcomm.Client.Connect.{connect-Owns}
use simple_rfcomm.Serial.Types.{
  SerialImpl, SerialPort, port_is_open, port_peer_address, port_peer_channel,
}
use simple_rfcomm.Serial.Cache.{clear_rx_cache}
use simple_rfcomm.Serial.Stream.{port_pending}
use simple_rfcomm.Serial.Port.{close_port_impl, close_port, adopt, adopt_result, open_port}

-- The descriptors that a port owns.
abbrev pub socket_handles : Option Socket → List ℤ
socket_handles none = []
socket_handles (some none) = []
socket_handles (some (some s)) = if_valid s.handle

abbrev pub port_handles : SerialPort → List ℤ
port_handles none = []
port_handles (some p) = socket_handles p.sock

-- A socket owns one descriptor at most.
pub at_most_one : (sock : Socket) → length (socket_handles (some sock)) ≤ 1
at_most_one none = omega arith
at_most_one (some s) = ground arith

pub socket_handles_lem :
    (sock : Socket)
    → is_open sock ≡ true
    → is_negative (native_handle sock) ≡ false
    → socket_handles (some sock) ≡ native_handle sock ∷ []
unfolding is_open native_handle
socket_handles_lem none h valid = absurd (ground (arith, h))
socket_handles_lem (some s) h valid = rw valid refl

module _ (os : Os) where
  pub destroy-Balanced :
      (sock : Socket) (w : os.World)
      → Balanced (socket_handles (some sock)) (destroy os sock w).calls []
  unfolding destroy close_socket_handle
  destroy-Balanced none w = refl
  destroy-Balanced (some s) w = ground arith

  pub release-handles :
      (sock : Socket) (w : os.World)
      → let c = close os sock w in
        let d = destroy os c.value c.world in
        (opened_handles (c.calls ++ d.calls) ≡ [])
        × (closed_handles (c.calls ++ d.calls) ≡ socket_handles (some sock))
  unfolding close destroy close_socket_handle
  release-handles none w = (refl, refl)
  release-handles (some s) w = ground arith

  pub close_port_impl-handles :
      (p : SerialImpl) (w : os.World)
      → let r = close_port_impl os p w in
        (r.value ≡ record p { sock = none; rx_buf = []; rx_head = 0 })
        × (opened_handles r.calls ≡ [])
        × (closed_handles r.calls ≡ socket_handles p.sock)
  unfolding close_port_impl clear_rx_cache
  close_port_impl-handles p w = elim (Option-cases p.sock) [
    | inl no_socket ↦ rw no_socket (refl, refl, refl)
    | inr (sock, e) ↦
        let c = close os sock w in
        let (o, shut) = release-handles sock w in
        rw (e, append-nil (c.calls ++ (destroy os c.value c.world).calls)) (refl, o, shut)
  ]

  set_timeouts-handles :
      (sock : Socket) (a b : ℤ) (w : os.World)
      → let r = set_timeouts os sock a b w in
        (opened_handles r.calls ≡ []) × (closed_handles r.calls ≡ [])
  unfolding set_timeouts
  set_timeouts-handles sock a b w = elim (Bool-cases (is_open sock)) [
    | inl opened ↦ rw opened (refl, refl)
    | inr closed ↦ rw closed (refl, refl)
  ]

  -- `close` closes the descriptor that the port owns, and no other; afterwards the port is not open
  -- and has nothing cached.
  pub close_port_lem :
      (port : SerialPort) (w : os.World)
      → let r = close_port os port w in
        (port_is_open r.value ≡ false)
        × (port_pending r.value ≡ [])
        × (port_handles r.value ≡ [])
        × (closed_handles r.calls ≡ port_handles port)
  unfolding close_port port_is_open
  close_port_lem none w = (refl, refl, refl, refl)
  close_port_lem (some p) w =
      let (value, _, shut) = close_port_impl-handles p w in
      rw (value, append-nil (close_port_impl os p w).calls) (refl, refl, refl, shut)

  -- What `open` leaves of a port that owned `held`.
  abbrev pub Opens : List ℤ → Address → ℕ → Run os.World (Outcome (Bool × SerialPort)) → Type 0
  Opens held addr channel r =
      (port : SerialPort) × (port_pending port ≡ [])
      × (((r.value ≡ returns (false, port))
            × (port_is_open port ≡ false)
            × (closed_handles r.calls ≡ held ++ opened_handles r.calls))
          ⊎ ((r.value ≡ returns (true, port))
              × (port_is_open port ≡ true)
              × (opened_handles r.calls ≡ port_handles port)
              × (closed_handles r.calls ≡ held)
              × (port_peer_address port ≡ addr)
              × (port_peer_channel port ≡ channel)))

  -- Whatever the system answers, `open` first closes the descriptor that the port owned, and the cache
  -- is empty afterwards. If it succeeds, the port is open, owns the one descriptor that was opened,
  -- which stays open, and reports the address and the channel. If it fails, the port is not open and
  -- what was opened has been closed.
  pub open_port_lem :
      (p : SerialImpl) (addr : Address) (channel : ℕ) (timeout : ℤ) (w : os.World)
      → Opens (socket_handles p.sock) addr channel (open_port os (some p) addr channel timeout w)
  unfolding open_port adopt adopt_result port_is_open port_peer_address port_peer_channel
  open_port_lem p addr channel timeout w =
      let c = close_port_impl os p w in
      let (value, c_opened, c_closed) = close_port_impl-handles p w in
      let n = connect os addr channel timeout c.world in
      elim (connect-Owns os addr channel timeout c.world) [
        | inl (failed, balanced) ↦
            rw
              (
                failed,
                value,
                opened_handles-append,
                closed_handles-append,
                append-nil n.calls,
                c_opened,
                c_closed,
                balanced,
              )
              (_, refl, inl (refl, refl, refl))
        | inr (sock, made, one, valid, kept, open_now, peer, peer_ch) ↦
            let (t_opened, t_closed) =
              set_timeouts-handles sock p.write_timeout p.read_timeout n.world in
            let t = set_timeouts os sock p.write_timeout p.read_timeout n.world in
            let owned = socket_handles_lem sock open_now valid in
            rw
              (
                made,
                value,
                append-nil t.calls,
                append-nil t.calls,
                opened_handles-append c.calls,
                closed_handles-append c.calls,
                opened_handles-append n.calls,
                closed_handles-append n.calls,
                c_opened,
                c_closed,
                one,
                kept,
                t_opened,
                t_closed,
                append-nil (socket_handles p.sock),
              )
              (_, refl, inr (refl, open_now, sym owned, refl, peer, peer_ch))
      ]
