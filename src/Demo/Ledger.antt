-- ===== src/Demo/Ledger.antt =====
-- The client of the serial port demo: which descriptors it opens and closes.
use simple_rfcomm.Prelude.{
  ℕ, ◌≤◌, ◌≡◌, refl, sym, ap, ◌∙◌, append-nil, append_assoc, Option, none, some, Bool, true, false,
  List, [], ◌++◌, length, arith,
}
use simple_rfcomm.Prelude.Int.{ℤ, pos}
use simple_rfcomm.Command.Ends.{Leaves, Balanced-ends}
use simple_rfcomm.Address as Addresses
use simple_rfcomm.Address.{Parsed, parsed_as, invalid_argument}
use simple_rfcomm.Uuid.{Uuid}
use simple_rfcomm.Uuid as Uuids
use simple_rfcomm.Os.{Os, Call, Outcome, returns, undefined, out_of_rounds}
use simple_rfcomm.Os.Ledger.{Balanced, Balanced-append}
use simple_rfcomm.Socket.{Socket}
use simple_rfcomm.Serial.{
  SerialPort, new_impl, baud115200, bits8, one_bit, no_parity, set_baud_rate,
  set_data_characteristics,
}
use simple_rfcomm.Serial.Port.{set_port_timeouts, close_port, open_text_by_uuid}
use simple_rfcomm.Serial.Quiet.{set_port_timeouts-IsQuiet}
use simple_rfcomm.Serial.SameSocket.{port_sock}
use simple_rfcomm.Serial.Ledger.{returned, quiet-Balanced, close-Balanced, port_handles-port_sock}
use simple_rfcomm.Serial.OpLedger.{open_by_parsed-Balanced, sock-set_timeouts}
use simple_rfcomm.Serial.Life.{socket_handles, port_handles, destroy-Balanced, at_most_one}
use simple_rfcomm.Demo.{
  destroy_held, destroy_port, hang_up, talk, dialogue, commands, client_mode, new_port, demo_uuid,
}
use simple_rfcomm.Demo.Quiet.{dialogue-IsQuiet}
use simple_rfcomm.Demo.SameSocket.{SameSock, dialogue-SameSock}

pub port_at_most_one : (port : SerialPort) → length (port_handles port) ≤ 1
port_at_most_one port = rw (port_handles-port_sock port) (held_at_most_one (port_sock port))
  where
    held_at_most_one : (o : Option Socket) → length (socket_handles o) ≤ 1
    held_at_most_one none = omega arith
    held_at_most_one (some sock) = at_most_one sock

pub port_handles-same :
    (q port : SerialPort) → port_sock q ≡ port_sock port → port_handles q ≡ port_handles port
port_handles-same q port same =
    port_handles-port_sock q ∙ ap socket_handles same ∙ sym (port_handles-port_sock port)

-- The settings that the client makes.
set_up-sock :
    (port : SerialPort)
    → port_sock (set_data_characteristics (set_baud_rate port baud115200) bits8 one_bit no_parity)
      ≡ port_sock port
unfolding set_data_characteristics set_baud_rate
set_up-sock none = refl
set_up-sock (some p) = refl

module _ (os : Os) where
  pub destroy_port-Balanced :
      (port : SerialPort) (w : os.World)
      → Balanced (port_handles port) (destroy_port os port w).calls []
  unfolding destroy_port
  destroy_port-Balanced none w = refl
  destroy_port-Balanced (some p) w = held_Balanced p.sock
    where
      held_Balanced :
          (o : Option Socket) → Balanced (socket_handles o) (destroy_held os o w).calls []
      held_Balanced none = refl
      held_Balanced (some sock) = destroy-Balanced os sock w

  hang_up-Leaves :
      (o : Outcome SerialPort) (port : SerialPort) (cs : List Call) (w : os.World)
      → Balanced [] cs (port_handles port)
      → SameSock port o
      → let r = hang_up os o w in Leaves 1 r.value (cs ++ r.calls)
  hang_up-Leaves (returns q) port cs w owned same =
      let c = close_port os q w in
      let d = destroy_port os c.value c.world in
      let owns : Balanced [] cs (port_handles q) = rw (port_handles-same q port same) owned in
      rw (append-nil d.calls) (
        Balanced-ends (cs ++ (c.calls ++ d.calls)) (
          Balanced-append [] _ [] cs (c.calls ++ d.calls) owns (
            Balanced-append _ _ [] c.calls d.calls (close-Balanced os q w)
              (destroy_port-Balanced c.value c.world))))
  hang_up-Leaves undefined port cs w owned same =
      (port_handles port, rw (append-nil cs) owned, port_at_most_one port)
  hang_up-Leaves out_of_rounds port cs w owned same =
      (port_handles port, rw (append-nil cs) owned, port_at_most_one port)

  -- The timeouts of a port, which keeps its socket.
  pub timeouts-Balanced :
      (port : SerialPort) (a b : ℤ) (w : os.World)
      → let r = set_port_timeouts os port a b w in
        Balanced (port_handles port) r.calls (port_handles r.value)
  timeouts-Balanced port a b w =
      quiet-Balanced (set_port_timeouts os port a b) w port _
        (set_port_timeouts-IsQuiet os port a b) (sock-set_timeouts os port a b w)

  talk-Leaves :
      (lines rounds : ℕ) (o : Outcome (Bool × SerialPort)) (cs : List Call) (w : os.World)
      → Balanced [] cs (port_handles (returned o))
      → let r = talk os lines rounds o w in Leaves 1 r.value (cs ++ r.calls)
  talk-Leaves lines rounds (returns (true, port)) cs w owned =
      let set_up =
        set_data_characteristics (set_baud_rate port baud115200) bits8 one_bit no_parity in
      let t = set_port_timeouts os set_up (pos 3000) (pos 3000) w in
      let e = dialogue os lines rounds commands t.value t.world in
      let h = hang_up os e.value e.world in
      let ready : Balanced [] (cs ++ t.calls) (port_handles t.value) =
        Balanced-append [] _ _ cs t.calls
          (rw (port_handles-same set_up port (set_up-sock port)) owned)
          (timeouts-Balanced set_up (pos 3000) (pos 3000) w) in
      let said : Balanced [] ((cs ++ t.calls) ++ e.calls) (port_handles t.value) =
        Balanced-append [] _ _ (cs ++ t.calls) e.calls ready (
          quiet-Balanced (dialogue os lines rounds commands t.value) t.world t.value t.value
            (dialogue-IsQuiet os lines rounds commands t.value) refl) in
      rw
        (
          ← append_assoc cs t.calls (e.calls ++ h.calls),
          ← append_assoc (cs ++ t.calls) e.calls h.calls,
        )
        (hang_up-Leaves e.value t.value ((cs ++ t.calls) ++ e.calls) e.world said
          (dialogue-SameSock os lines rounds commands t.value t.world))
  talk-Leaves lines rounds (returns (false, port)) cs w owned =
      let d = destroy_port os port w in
      rw (append-nil d.calls) (
        Balanced-ends (cs ++ d.calls)
          (Balanced-append [] _ [] cs d.calls owned (destroy_port-Balanced port w)))
  talk-Leaves lines rounds undefined cs w owned = ([], rw (append-nil cs) owned, omega arith)
  talk-Leaves lines rounds out_of_rounds cs w owned = ([], rw (append-nil cs) owned, omega arith)

  pub client_mode-Leaves :
      (lines rounds : ℕ) (target_mac : List ℕ) (w : os.World)
      → let r = client_mode os lines rounds target_mac w in Leaves 1 r.value r.calls
  unfolding client_mode open_text_by_uuid new_port new_impl
  client_mode-Leaves lines rounds target_mac w =
      let o = open_text_by_uuid os new_port target_mac demo_uuid (pos 10000) w in
      talk-Leaves lines rounds o.value o.calls o.world (
        open_by_parsed-Balanced os new_port (Addresses.try_parse target_mac)
          (Uuids.try_parse demo_uuid) (pos 10000) w)
