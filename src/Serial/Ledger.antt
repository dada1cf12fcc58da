-- ===== src/Serial/Ledger.antt =====
-- A port over any sequence of its operations: which descriptors it holds.
use simple_rfcomm.Prelude.{
  ℕ, ◌≡◌, ◌≢◌, refl, sym, ap, ◌∙◌, inl, inr, append-nil, append_assoc, Option, none, some, Bool,
  false, List, [], ◌++◌, arith, Bool-cases,
}
use simple_rfcomm.Prelude.Int.{ℤ}
use simple_rfcomm.Address.{Address}
use simple_rfcomm.Uuid.{Uuid}
use simple_rfcomm.Os.{Os, Run, Outcome, returns, undefined, out_of_rounds}
use simple_rfcomm.Os.Traffic.{
  opened_handles, closed_handles, opened_handles-append, closed_handles-append,
}
use simple_rfcomm.Os.Ledger.{Balanced, Balanced-append, IsQuiet}
use simple_rfcomm.Socket.{Socket, is_open, destroy, set_timeouts}
use simple_rfcomm.Serial.Types.{SerialImpl, SerialPort}
use simple_rfcomm.Serial.Port.{
  close_port_impl, close_port, adopt, adopt_result, adopt_outcome, open_port, open_by_uuid, attach,
}
use simple_rfcomm.Client.{connect, connect_resolved, connect_by_sdp}
use simple_rfcomm.Client.Connect.{connect-Owns}
use simple_rfcomm.Sdp.{resolve_channel}
use simple_rfcomm.Sdp.Sessions.{resolve_channel-IsQuiet}
use simple_rfcomm.Socket.Quiet.{set_timeouts-IsQuiet}
use simple_rfcomm.Serial.Life.{
  socket_handles, port_handles, socket_handles_lem, close_port_impl-handles,
}
use simple_rfcomm.Serial.SameSocket.{port_sock}

pub port_handles-port_sock : (p : SerialPort) → port_handles p ≡ socket_handles (port_sock p)
port_handles-port_sock none = refl
port_handles-port_sock (some p) = refl

-- An operation that opens and closes nothing and leaves the port its socket.
pub quiet-Balanced :
    {W A : Type 0} (m : W → Run W A) (w : W) (port port' : SerialPort)
    → IsQuiet m
    → port_sock port' ≡ port_sock port
    → Balanced (port_handles port) (m w).calls (port_handles port')
quiet-Balanced m w port port' quiet same =
    rw (quiet.none_opened w, quiet.none_closed w, append-nil (port_handles port))
      (port_handles-port_sock port
        ∙ ap socket_handles (sym same)
        ∙ sym (port_handles-port_sock port'))

-- A socket that is not open has no descriptor.
pub socket_handles-closed : (sock : Socket) → is_open sock ≡ false → socket_handles (some sock) ≡ []
unfolding is_open
socket_handles-closed none h = refl
socket_handles-closed (some s) h = ground (arith, h)

abbrev pub outcome_handles : Outcome (Option Socket) → List ℤ
outcome_handles (returns o) = socket_handles o
outcome_handles undefined = []
outcome_handles out_of_rounds = []

-- The port that an operation has returned.
abbrev pub returned : Outcome (Bool × SerialPort) → SerialPort
returned (returns (ok, port)) = port
returned undefined = none
returned out_of_rounds = none

module _ (os : Os) where
  pub connect-Balanced :
      (addr : Address) (channel : ℕ) (timeout : ℤ) (w : os.World)
      → let r = connect os addr channel timeout w in Balanced [] r.calls (socket_handles r.value)
  connect-Balanced addr channel timeout w =
      let r = connect os addr channel timeout w in
      elim (connect-Owns os addr channel timeout w) [
        | inl (failed, balanced) ↦ rw (failed, balanced, append-nil (opened_handles r.calls)) refl
        | inr (sock, made, one, valid, kept, open_now, _, _) ↦
            rw (made, one, kept, socket_handles_lem sock open_now valid) refl
      ]

  connect_resolved-Balanced :
      (addr : Address) (timeout : ℤ) (o : Outcome (Option ℕ)) (w : os.World)
      → let r = connect_resolved os addr timeout o w in
        Balanced [] r.calls (outcome_handles r.value)
  unfolding connect_resolved
  connect_resolved-Balanced addr timeout (returns none) w = refl
  connect_resolved-Balanced addr timeout undefined w = refl
  connect_resolved-Balanced addr timeout out_of_rounds w = refl
  connect_resolved-Balanced addr timeout (returns (some channel)) w =
      let r = connect os addr channel timeout w in
      rw (append-nil r.calls) (connect-Balanced addr channel timeout w)

  -- Whatever the search and the system answer, a connection by service owns the one descriptor that it
  -- has left open.
  pub connect_by_sdp-Balanced :
      (addr : Address) (uuid : Uuid) (timeout : ℤ) (w : os.World)
      → let r = connect_by_sdp os addr uuid timeout w in
        Balanced [] r.calls (outcome_handles r.value)
  unfolding connect_by_sdp
  connect_by_sdp-Balanced addr uuid timeout w =
      let s = resolve_channel os addr uuid w in
      let r = connect_resolved os addr timeout s.value s.world in
      let quiet = resolve_channel-IsQuiet os addr uuid in
      Balanced-append [] [] _ s.calls r.calls (rw (quiet.none_opened w, quiet.none_closed w) refl)
        (connect_resolved-Balanced addr timeout s.value s.world)

  adopt-Balanced :
      (p : SerialImpl) (sock : Socket) (w : os.World)
      → let r = adopt os p sock w in
        Balanced (socket_handles (some sock)) r.calls (port_handles r.value.1)
  unfolding adopt
  adopt-Balanced p sock w =
      let quiet = set_timeouts-IsQuiet os sock p.write_timeout p.read_timeout in
      let t = set_timeouts os sock p.write_timeout p.read_timeout w in
      rw
        (
          append-nil t.calls,
          quiet.none_opened w,
          quiet.none_closed w,
          append-nil (socket_handles (some sock)),
        )
        refl

  adopt_result-Balanced :
      (p : SerialImpl) (o : Option Socket) (w : os.World)
      → let r = adopt_result os p o w in
        Balanced (socket_handles o) r.calls (port_handles (returned r.value))
  unfolding adopt_result
  adopt_result-Balanced p none w = refl
  adopt_result-Balanced p (some sock) w =
      rw (append-nil (adopt os p sock w).calls) (adopt-Balanced p sock w)

  close_impl-Balanced :
      (p : SerialImpl) (w : os.World)
      → Balanced (socket_handles p.sock) (close_port_impl os p w).calls []
  close_impl-Balanced p w = let (_, o, c) = close_port_impl-handles os p w in rw (o, c) refl

  pub close-Balanced :
      (port : SerialPort) (w : os.World)
      → let r = close_port os port w in Balanced (port_handles port) r.calls (port_handles r.value)
  unfolding close_port
  close-Balanced none w = refl
  close-Balanced (some p) w =
      let c = close_port_impl os p w in
      let (value, _, _) = close_port_impl-handles os p w in
      rw (append-nil c.calls, value) (close_impl-Balanced p w)

  pub open-Balanced :
      (port : SerialPort) (addr : Address) (channel : ℕ) (timeout : ℤ) (w : os.World)
      → let r = open_port os port addr channel timeout w in
        Balanced (port_handles port) r.calls (port_handles (returned r.value))
  unfolding open_port
  open-Balanced none addr channel timeout w = refl
  open-Balanced (some p) addr channel timeout w =
      let c = close_port_impl os p w in
      let n = connect os addr channel timeout c.world in
      Balanced-append _ [] _ c.calls _ (close_impl-Balanced p w) (
        Balanced-append [] _ _ n.calls _ (connect-Balanced addr channel timeout c.world)
          (adopt_result-Balanced c.value n.value n.world))

  adopt_outcome-Balanced :
      (p : SerialImpl) (o : Outcome (Option Socket)) (w : os.World)
      → let r = adopt_outcome os p o w in
        Balanced (outcome_handles o) r.calls (port_handles (returned r.value))
  unfolding adopt_outcome
  adopt_outcome-Balanced p (returns o) w = adopt_result-Balanced p o w
  adopt_outcome-Balanced p undefined w = refl
  adopt_outcome-Balanced p out_of_rounds w = refl

  pub open_by_uuid-Balanced :
      (port : SerialPort) (addr : Address) (uuid : Uuid) (timeout : ℤ) (w : os.World)
      → let r = open_by_uuid os port addr uuid timeout w in
        Balanced (port_handles port) r.calls (port_handles (returned r.value))
  unfolding open_by_uuid
  open_by_uuid-Balanced none addr uuid timeout w = refl
  open_by_uuid-Balanced (some p) addr uuid timeout w =
      let c = close_port_impl os p w in
      let n = connect_by_sdp os addr uuid timeout c.world in
      Balanced-append _ [] _ c.calls _ (close_impl-Balanced p w) (
        Balanced-append [] _ _ n.calls _ (connect_by_sdp-Balanced addr uuid timeout c.world)
          (adopt_outcome-Balanced c.value n.value n.world))

  pub destroy-handles :
      (sock : Socket) (w : os.World)
      → let r = destroy os sock w in
        is_open sock ≡ false → (opened_handles r.calls ≡ []) × (closed_handles r.calls ≡ [])
  unfolding destroy is_open
  destroy-handles none w h = (refl, refl)
  destroy-handles (some s) w h = ground (arith, h)

  -- The descriptor of the socket that is handed over comes to the port or is closed with it.
  pub attach-Balanced :
      (port : SerialPort) (o : Option Socket) (w : os.World)
      → let r = attach os port o w in
        r.value ≢ undefined
        → port_handles port ++ (socket_handles o ++ opened_handles r.calls)
          ≡ closed_handles r.calls ++ port_handles (returned r.value)
  unfolding attach
  attach-Balanced port none w h =
      rw (append-nil (close_port os port w).calls) (close-Balanced port w)
  attach-Balanced none (some sock) w h = elim (Bool-cases (is_open sock)) [
    | inl opened ↦ absurd (h (rw opened refl))
    | inr closed ↦
        let (o, c) = destroy-handles sock w closed in
        rw (closed, append-nil (destroy os sock w).calls, o, c, socket_handles-closed sock closed)
          refl
  ]
  attach-Balanced (some p) (some sock) w h =
      let c = close_port_impl os p w in
      let (value, c_opened, c_closed) = close_port_impl-handles os p w in
      elim (Bool-cases (is_open sock)) [
        | inl opened ↦
            let a = adopt os c.value sock c.world in
            rw
              (
                opened,
                append-nil a.calls,
                opened_handles-append c.calls,
                closed_handles-append c.calls,
                c_opened,
                c_closed,
              )
              (ap (◌++◌ (socket_handles p.sock)) (adopt-Balanced c.value sock c.world)
                ∙ sym (
                    append_assoc (socket_handles p.sock) (closed_handles a.calls)
                      (port_handles a.value.1)))
        | inr closed ↦
            let d = destroy os sock c.world in
            let (o, c') = destroy-handles sock c.world closed in
            rw
              (
                closed,
                append-nil d.calls,
                opened_handles-append c.calls,
                closed_handles-append c.calls,
                c_opened,
                c_closed,
                o,
                c',
                socket_handles-closed sock closed,
              )
              (rw (append-nil (socket_handles p.sock), value, append-nil (socket_handles p.sock))
                refl)
      ]
