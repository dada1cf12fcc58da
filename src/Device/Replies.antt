-- ===== src/Device/Replies.antt =====
-- What the device answers to a command.
use simple_rfcomm.Prelude.{
  ℕ, zero, suc, ◌+◌, ◌≡◌, ◌<◌, refl, ap, ◌∙◌, Option, none, some, Bool, true, false, not, List, [],
  ◌∷◌, ◌++◌, length, ltb, arith, append-nil, Bool-cases, if◌then◌else◌, inl, inr, take_all, lt→ltb,
  Option-cases,
}
use simple_rfcomm.Prelude.Int.{ℤ, pos}
use simple_rfcomm.Os.{Os, Action, Outcome, returns, pure, sys_getfl, sys_setfl}
use simple_rfcomm.Os.Traffic.{sent_bytes, sent_bytes-append, ReceivesWithin}
use simple_rfcomm.Os.OneWay.{SaysNothing, one_way_rules}
use simple_rfcomm.Socket.{Socket, is_open, handle_of, send, send_rounds, send_all, set_blocking}
use simple_rfcomm.Socket.OneWay.{recv-SaysNothing}
use simple_rfcomm.Serial.{
  SerialImpl, SerialPort, port_is_open, impl_is_open, purge_all, clear_rx_cache,
}
use simple_rfcomm.Serial.Port.{write_line, purge, drain_rounds, drain_socket, socket_in}
use simple_rfcomm.Serial.Line.{FinitePeer}
use simple_rfcomm.Serial.Purge.{purge_returns}
use simple_rfcomm.Command.{same_text, same_text→eq}
use simple_rfcomm.Device.{
  at_text, info_text, purge_text, quit_text, ok_text, bye_text, device_text, error_text,
  end_of_line, say, purge_and_say, answer,
}

-- The commands with their answers.
abbrev pub table : List (List ℕ × List (List ℕ))
table =
    (at_text, ok_text ∷ [])
    ∷ (info_text, device_text ∷ ok_text ∷ [])
    ∷ (purge_text, ok_text ∷ [])
    ∷ (quit_text, bye_text ∷ [])
    ∷ []

abbrev pub look_up : List ℕ → List (List ℕ × List (List ℕ)) → List (List ℕ)
look_up cmd [] = error_text ∷ []
look_up cmd ((known, lines) ∷ rest) =
    let later = look_up cmd rest in if same_text cmd known then lines else later

-- The bytes of lines that are sent.
abbrev pub on_wire : List (List ℕ) → List ℕ
on_wire [] = []
on_wire (line ∷ lines) = (line ++ end_of_line) ++ on_wire lines

-- A system that takes all bytes of a send at once.
abbrev pub TakesAll : Os → Type 0
TakesAll os =
    (fd : ℤ) (bytes : List ℕ) (w : os.World) → (os.do_send fd bytes w).0 ≡ pos (length bytes)

-- The port behind a command.
abbrev pub port_behind : List ℕ → SerialImpl → SerialImpl
port_behind cmd p = if same_text cmd purge_text then clear_rx_cache p else p

module _ (os : Os) (takes : TakesAll os) where
  send_rounds_done :
      (rounds : ℕ) (sock : Socket) (bytes : List ℕ) (total : ℕ) (w : os.World)
      → total ≡ length bytes
      → let r = send_rounds os rounds sock bytes total w in
        (r.value ≡ returns true) × (sent_bytes r.calls ≡ [])
  unfolding send_rounds
  send_rounds_done zero sock bytes total w h =
      let at_end : ltb total (length bytes) ≡ false = ground (arith, h) in rw at_end (refl, refl)
  send_rounds_done (suc rounds) sock bytes total w h =
      let at_end : ltb total (length bytes) ≡ false = ground (arith, h) in rw at_end (refl, refl)

  send_all_takes :
      (sock : Socket) (b : ℕ) (bytes : List ℕ) (w : os.World)
      → is_open sock ≡ true
      → let r = send_all os sock (b ∷ bytes) w in
        (r.value ≡ returns true) × (sent_bytes r.calls ≡ b ∷ bytes)
  unfolding send_all send_rounds send
  send_all_takes sock b bytes w opened =
      let all = b ∷ bytes in
      let w' = (os.do_send (handle_of sock) all w).1 in
      let (ok, silent) =
        send_rounds_done (length bytes) sock all (0 + suc (length bytes)) w' (omega arith) in
      rw (lt→ltb 0 (suc (length bytes)) (omega arith), opened, takes (handle_of sock) all w)
        (rw (silent, take_all bytes, append-nil bytes) (ok, refl))

  socket_open : (port : SerialPort) → port_is_open port ≡ true → is_open (socket_in os port) ≡ true
  unfolding port_is_open impl_is_open
  socket_open none h = absurd (ground (arith, h))
  socket_open (some p) h = elim (Option-cases p.sock) [
    | inl no_socket ↦ absurd (ground (arith, rw no_socket at h))
    | inr (sock, e) ↦ rw e (rw e at h)
  ]

  write_line_takes :
      (port : SerialPort) (line : List ℕ) (w : os.World)
      → port_is_open port ≡ true
      → let r = write_line os port line end_of_line w in
        (r.value ≡ returns true) × (sent_bytes r.calls ≡ line ++ end_of_line)
  unfolding write_line
  write_line_takes port [] w h =
      rw h (send_all_takes (socket_in os port) 13 (10 ∷ []) w (socket_open port h))
  write_line_takes port (x ∷ line) w h =
      rw h (send_all_takes (socket_in os port) x (line ++ end_of_line) w (socket_open port h))

  say_lem :
      {A : Type 0} (port : SerialPort) (line : List ℕ) (rest : Action os.World (Outcome A))
      (w : os.World)
      → port_is_open port ≡ true
      → let r = say os port line rest w in
        let later = rest (write_line os port line end_of_line w).world in
        (r.value ≡ later.value)
        × (sent_bytes r.calls ≡ (line ++ end_of_line) ++ sent_bytes later.calls)
  unfolding say
  say_lem port line rest w h =
      let l = write_line os port line end_of_line w in
      let (ok, taken) = write_line_takes port line w h in
      rw (ok, sent_bytes-append l.calls (rest l.world).calls, taken) (refl, refl)

  getfl-call : (fd : ℤ) → SaysNothing (sys_getfl os fd)
  getfl-call fd = record { said = λ w. refl }

  setfl-call : (fd : ℤ) (flags : ℕ) → SaysNothing (sys_setfl os fd flags)
  setfl-call fd flags = record { said = λ w. refl }

  set_blocking-SaysNothing : (sock : Socket) (b : Bool) → SaysNothing (set_blocking os sock b)
  unfolding set_blocking
  set_blocking-SaysNothing sock b = search (one_way_rules, getfl-call, setfl-call)

  drain_rounds-SaysNothing :
      (rounds : ℕ) (sock : Socket) (buffer : List ℕ)
      → SaysNothing (drain_rounds os rounds sock buffer)
  unfolding drain_rounds
  drain_rounds-SaysNothing zero sock buffer = search one_way_rules
  drain_rounds-SaysNothing (suc rounds) sock buffer =
      search (one_way_rules, recv-SaysNothing os, drain_rounds-SaysNothing rounds sock)

  drain_socket-SaysNothing :
      (rounds : ℕ) (o : Option Socket) → SaysNothing (drain_socket os rounds o)
  unfolding drain_socket
  drain_socket-SaysNothing rounds none = search one_way_rules
  drain_socket-SaysNothing rounds (some sock) =
      search (one_way_rules, set_blocking-SaysNothing, drain_rounds-SaysNothing rounds sock)

  purge-SaysNothing :
      (rounds : ℕ) (port : SerialPort) (flags : ℕ) → SaysNothing (purge os rounds port flags)
  unfolding purge
  purge-SaysNothing rounds none flags = search one_way_rules
  purge-SaysNothing rounds (some p) flags = search (one_way_rules, drain_socket-SaysNothing rounds)

  said_twice :
      {A : Type 0} {v v' v'' : Outcome A} {out out' back : List ℕ} (front : List ℕ)
      → (v ≡ v') × (out ≡ front ++ out')
      → (v' ≡ v'') × (out' ≡ back)
      → (v ≡ v'') × (out ≡ front ++ back)
  said_twice front (a, b) (c, d) = (a ∙ c, b ∙ ap (◌++◌ front) d)

  cleared_open :
      (p : SerialImpl)
      → port_is_open (some p) ≡ true
      → port_is_open (some (clear_rx_cache p)) ≡ true
  unfolding port_is_open impl_is_open clear_rx_cache
  cleared_open p h = h

  module _ (peer : FinitePeer os) (within : ReceivesWithin os) where
    purge_and_say_lem :
        (rounds : ℕ) (p : SerialImpl) (w : os.World)
        → port_is_open (some p) ≡ true
        → peer.left w < rounds
        → let r = purge_and_say os rounds (some p) w in
          (r.value ≡ returns (true, some (clear_rx_cache p)))
          × (sent_bytes r.calls ≡ on_wire (ok_text ∷ []))
    unfolding purge_and_say
    purge_and_say_lem rounds p w h enough =
        let u = purge os rounds (some p) purge_all w in
        let purged = purge_returns os peer within rounds p purge_all w enough in
        let silent = (purge-SaysNothing rounds (some p) purge_all).said w in
        let q : SerialPort = some (clear_rx_cache p) in
        let rest : Action os.World (Outcome (Bool × SerialPort)) = pure (returns (true, q)) in
        let s = say os q ok_text rest u.world in
        let (value, sent) = say_lem q ok_text rest u.world (cleared_open p h) in
        rw (sent_bytes-append, silent, purged) (value, sent)

    -- Where a send takes all of its bytes, recv(2) keeps to the buffer and the rounds are more than
    -- the bytes that the peer has left: the device with an open port answers a command with the
    -- lines that the table has for it, or with an error where it has none, and with nothing else.
    -- It goes on unless the command is AT+QUIT, with an empty cache behind AT+PURGE and the port as
    -- it was otherwise.
    pub answer_lem :
        (rounds : ℕ) (p : SerialImpl) (cmd : List ℕ) (w : os.World)
        → port_is_open (some p) ≡ true
        → peer.left w < rounds
        → let r = answer os rounds (some p) cmd w in
          (r.value ≡ returns (not (same_text cmd quit_text), some (port_behind cmd p)))
          × (sent_bytes r.calls ≡ on_wire (look_up cmd table))
    unfolding answer
    answer_lem rounds p cmd w h enough = elim (Bool-cases (same_text cmd at_text)) [
      | inl at ↦
          rw (same_text→eq cmd at_text at)
            (say_lem (some p) ok_text (pure (returns (true, some p))) w h)
      | inr no_at ↦ elim (Bool-cases (same_text cmd info_text)) [
        | inl info ↦ rw (same_text→eq cmd info_text info) (
            said_twice (device_text ++ end_of_line)
              (say_lem (some p) device_text
                (say os (some p) ok_text (pure (returns (true, some p)))) w h)
              (say_lem (some p) ok_text (pure (returns (true, some p)))
                (write_line os (some p) device_text end_of_line w).world h))
        | inr no_info ↦ elim (Bool-cases (same_text cmd purge_text)) [
          | inl purging ↦
              rw (same_text→eq cmd purge_text purging) (purge_and_say_lem rounds p w h enough)
          | inr no_purge ↦ elim (Bool-cases (same_text cmd quit_text)) [
            | inl quit ↦
                rw (same_text→eq cmd quit_text quit)
                  (say_lem (some p) bye_text (pure (returns (false, some p))) w h)
            | inr unknown ↦
                rw (no_at, no_info, no_purge, unknown)
                  (say_lem (some p) error_text (pure (returns (true, some p))) w h)
          ]
        ]
      ]
    ]
