-- ===== src/Serial/Kept.antt =====
-- The cache of a port over the methods that open, close, set up, read a line and purge.
use simple_rfcomm.Prelude.{
  ℕ, zero, suc, ◌≡◌, ap, subst, inl, inr, Option, none, some, List, [], arith, Bool-cases,
}
use simple_rfcomm.Prelude.Int.{ℤ}
use simple_rfcomm.Address.{Address}
use simple_rfcomm.Uuid.{Uuid}
use simple_rfcomm.Os.{Os, Outcome, returns, undefined, out_of_rounds}
use simple_rfcomm.Os.Traffic.{ReceivesWithin}
use simple_rfcomm.Socket.{Socket, is_open}
use simple_rfcomm.Client.{connect, connect_by_sdp}
use simple_rfcomm.Serial.Types.{SerialImpl, SerialPort, port_is_open, has_flag, purge_rx}
use simple_rfcomm.Serial.Cache.{
  clear_rx_cache, cached_bytes_available, late, drain_line, refill_rx_cache, line_rounds, read_line,
}
use simple_rfcomm.Serial.Port.{
  close_port_impl, close_port, adopt, adopt_result, adopt_outcome, open_port, open_parsed,
  open_by_uuid, open_by_parsed, attach, set_port_timeouts, purge, drain_socket,
}
use simple_rfcomm.Serial.Stream.{IsCache, PortIsCache, cached-length-pending, refill-RefillResult}
use simple_rfcomm.Serial.Line.{drain_line-IsCache}
use simple_rfcomm.Serial.Life.{close_port_impl-handles}
use simple_rfcomm.Serial.Ledger.{returned}
use simple_rfcomm.Serial.OpLedger.{port_after}

cleared-IsCache : (p : SerialImpl) → IsCache (clear_rx_cache p)
unfolding clear_rx_cache
cleared-IsCache p = record { in_buffer = omega arith; one_chunk = omega arith }

purged :
    (p : SerialImpl) (q : SerialPort) (o : Outcome (Unit {0}))
    → elim o [
      | returns _ ↦ returns (some (clear_rx_cache p))
      | undefined ↦ undefined
      | out_of_rounds ↦ out_of_rounds
    ]
      ≡ returns q
    → PortIsCache q
purged p q (returns _) h = subst PortIsCache (ap port_after h) (cleared-IsCache p)
purged p q undefined h = absurd (cc h)
purged p q out_of_rounds h = absurd (cc h)

module _ (os : Os) where
  closed-IsCache : (p : SerialImpl) (w : os.World) → IsCache (close_port_impl os p w).value
  closed-IsCache p w =
      let (value, _, _) = close_port_impl-handles os p w in
      rw value (record { in_buffer = omega arith; one_chunk = omega arith })

  adopt_result-IsCache :
      (p : SerialImpl) (o : Option Socket) (w : os.World)
      → IsCache p
      → PortIsCache (returned (adopt_result os p o w).value)
  unfolding adopt_result adopt
  adopt_result-IsCache p none w c = record { in_buffer = c.in_buffer; one_chunk = c.one_chunk }
  adopt_result-IsCache p (some sock) w c = record {
    in_buffer = c.in_buffer;
    one_chunk = c.one_chunk;
  }

  adopt_outcome-IsCache :
      (p : SerialImpl) (o : Outcome (Option Socket)) (w : os.World)
      → IsCache p
      → PortIsCache (returned (adopt_outcome os p o w).value)
  unfolding adopt_outcome
  adopt_outcome-IsCache p (returns o) w c = adopt_result-IsCache p o w c
  adopt_outcome-IsCache p undefined w c = tt
  adopt_outcome-IsCache p out_of_rounds w c = tt

  pub open-IsCache :
      (port : SerialPort) (addr : Address) (channel : ℕ) (timeout : ℤ) (w : os.World)
      → PortIsCache (returned (open_port os port addr channel timeout w).value)
  unfolding open_port
  open-IsCache none addr channel timeout w = tt
  open-IsCache (some p) addr channel timeout w =
      let c = close_port_impl os p w in
      let n = connect os addr channel timeout c.world in
      adopt_result-IsCache c.value n.value n.world (closed-IsCache p w)

  pub open_by_uuid-IsCache :
      (port : SerialPort) (addr : Address) (uuid : Uuid) (timeout : ℤ) (w : os.World)
      → PortIsCache (returned (open_by_uuid os port addr uuid timeout w).value)
  unfolding open_by_uuid
  open_by_uuid-IsCache none addr uuid timeout w = tt
  open_by_uuid-IsCache (some p) addr uuid timeout w =
      let c = close_port_impl os p w in
      let n = connect_by_sdp os addr uuid timeout c.world in
      adopt_outcome-IsCache c.value n.value n.world (closed-IsCache p w)

  pub open_parsed-IsCache :
      (port : SerialPort) (o : Option Address) (channel : ℕ) (timeout : ℤ) (w : os.World)
      → PortIsCache port
      → PortIsCache (returned (open_parsed os port o channel timeout w).value)
  unfolding open_parsed
  open_parsed-IsCache port none channel timeout w c = c
  open_parsed-IsCache port (some addr) channel timeout w c =
      open-IsCache port addr channel timeout w

  pub open_by_parsed-IsCache :
      (port : SerialPort) (o : Option Address) (o' : Option Uuid) (timeout : ℤ) (w : os.World)
      → PortIsCache port
      → PortIsCache (returned (open_by_parsed os port o o' timeout w).value)
  unfolding open_by_parsed
  open_by_parsed-IsCache port none o' timeout w c = c
  open_by_parsed-IsCache port (some addr) none timeout w c = c
  open_by_parsed-IsCache port (some addr) (some uuid) timeout w c =
      open_by_uuid-IsCache port addr uuid timeout w

  pub close-IsCache : (port : SerialPort) (w : os.World) → PortIsCache (close_port os port w).value
  unfolding close_port
  close-IsCache none w = tt
  close-IsCache (some p) w = closed-IsCache p w

  pub attach-IsCache :
      (port : SerialPort) (o : Option Socket) (w : os.World)
      → PortIsCache (returned (attach os port o w).value)
  unfolding attach adopt
  attach-IsCache port none w = close-IsCache port w
  attach-IsCache none (some sock) w = elim (Bool-cases (is_open sock)) [
    | inl opened ↦ rw opened tt
    | inr closed ↦ rw closed tt
  ]
  attach-IsCache (some p) (some sock) w =
      let c = closed-IsCache p w in
      elim (Bool-cases (is_open sock)) [
        | inl opened ↦ rw opened (record { in_buffer = c.in_buffer; one_chunk = c.one_chunk })
        | inr closed ↦ rw closed c
      ]

  line_rounds-IsCache :
      (rounds d : ℕ) (timeout : ℤ) (start : ℕ) (p : SerialImpl) (line : List ℕ) (w : os.World)
      → ReceivesWithin os
      → IsCache p
      → PortIsCache (line_rounds os rounds d timeout start p line w).value.1
  unfolding line_rounds
  line_rounds-IsCache zero d timeout start p line w within c = c
  line_rounds-IsCache (suc rounds) d timeout start p line w within c =
      let drained = drain_line (cached_bytes_available p) d p line in
      let (c', bare) =
        drain_line-IsCache (cached_bytes_available p) d p line c
          (omega (arith, cached-length-pending p c)) in
      elim (Bool-cases drained.found) [
        | inl found ↦ rw found c'
        | inr missing ↦
            let l = late os timeout start w in
            elim (Bool-cases l.value) [
              | inl passed ↦ rw (missing, passed) c'
              | inr waiting ↦
                  let r = refill_rx_cache os drained.impl l.world in
                  let (_, keeps, _) = refill-RefillResult os drained.impl l.world within in
                  let c'' = keeps c' (bare missing) in
                  elim (Bool-cases r.value.0) [
                    | inr failed ↦ rw (missing, waiting, failed) c''
                    | inl refilled ↦
                        rw (missing, waiting, refilled)
                          (line_rounds-IsCache rounds d timeout start r.value.1 drained.line r.world
                            within c'')
                  ]
            ]
      ]

  pub read_line-IsCache :
      (rounds : ℕ) (port : SerialPort) (d : ℕ) (timeout : ℤ) (w : os.World)
      → ReceivesWithin os
      → PortIsCache port
      → PortIsCache (read_line os rounds port d timeout w).value.1
  unfolding read_line
  read_line-IsCache rounds none d timeout w within c = tt
  read_line-IsCache rounds (some p) d timeout w within c =
      elim (Bool-cases (port_is_open (some p))) [
        | inl opened ↦
            rw opened
              (line_rounds-IsCache rounds d timeout (os.do_now w).0 p [] (os.do_now w).1 within c)
        | inr closed ↦ rw closed c
      ]

  pub set_timeouts-IsCache :
      (port : SerialPort) (a b : ℤ) (w : os.World)
      → PortIsCache port
      → PortIsCache (set_port_timeouts os port a b w).value
  unfolding set_port_timeouts
  set_timeouts-IsCache none a b w c = tt
  set_timeouts-IsCache (some p) a b w c = record {
    in_buffer = c.in_buffer;
    one_chunk = c.one_chunk;
  }

  pub purge-IsCache :
      (rounds : ℕ) (port q : SerialPort) (flags : ℕ) (w : os.World)
      → PortIsCache port
      → (purge os rounds port flags w).value ≡ returns q
      → PortIsCache q
  unfolding purge
  purge-IsCache rounds none q flags w c h = subst PortIsCache (ap port_after h) tt
  purge-IsCache rounds (some p) q flags w c h = elim (Bool-cases (has_flag flags purge_rx)) [
    | inr kept ↦ subst PortIsCache (ap port_after (rw kept at h)) c
    | inl receive ↦ purged p q (drain_socket os rounds p.sock w).value (rw receive at h)
  ]
