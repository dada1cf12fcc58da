-- ===== src/Demo/SameSocket.antt =====
-- The loops of the serial port demo and the socket of the port.
use simple_rfcomm.Prelude.{
  ℕ, zero, suc, ◌≡◌, refl, ◌∙◌, inl, inr, Bool, true, false, ◌||◌, List, [], ◌∷◌, Bool-cases,
  if◌then◌else◌,
}
use simple_rfcomm.Prelude.Int.{pos}
use simple_rfcomm.Os.{Os, Action, Outcome, returns, undefined, out_of_rounds}
use simple_rfcomm.Socket.{is_empty}
use simple_rfcomm.Serial.{SerialPort, port_is_open, read_line, purge_all}
use simple_rfcomm.Serial.Port.{write_line, purge, get_rx_queue_status}
use simple_rfcomm.Serial.SameSocket.{port_sock, sock-read_line, sock-purge}
use simple_rfcomm.Command.{same_text}
use simple_rfcomm.Device.{
  at_text, info_text, purge_text, quit_text, ok_text, device_text, bye_text, error_text, say,
  once_said, once_purged, purge_and_say, answer, step, go_on, with_line, device_loop, end_of_line,
  line_feed,
}
use simple_rfcomm.Demo.{is_final, after_reply, read_replies, next_command, hear_reply, dialogue}

-- A result that has left the port its socket.
abbrev pub SameSock : SerialPort → Outcome SerialPort → Type 0
SameSock port (returns port') = port_sock port' ≡ port_sock port
SameSock port undefined = Unit
SameSock port out_of_rounds = Unit

pub SameSock-trans :
    (port port' : SerialPort) (o : Outcome SerialPort)
    → port_sock port' ≡ port_sock port
    → SameSock port' o
    → SameSock port o
SameSock-trans port port' (returns q) same later = later ∙ same
SameSock-trans port port' undefined same later = tt
SameSock-trans port port' out_of_rounds same later = tt

-- A result of the device's step that has left the port its socket.
abbrev StepSock : SerialPort → Outcome (Bool × SerialPort) → Type 0
StepSock port (returns (more, port')) = port_sock port' ≡ port_sock port
StepSock port undefined = Unit
StepSock port out_of_rounds = Unit

StepSock-same :
    (q port : SerialPort) (o : Outcome (Bool × SerialPort))
    → port_sock q ≡ port_sock port
    → StepSock q o
    → StepSock port o
StepSock-same q port (returns (more, port')) same h = h ∙ same
StepSock-same q port undefined same h = tt
StepSock-same q port out_of_rounds same h = tt

if_holds :
    {W A : Type 0} (P : A → Type 0) (b : Bool) (m n : Action W A) (w : W)
    → P (m w).value
    → P (n w).value
    → P ((if b then m else n) w).value
if_holds P true m n w h k = h
if_holds P false m n w h k = k

module _ (os : Os) where
  after_reply-SameSock :
      (o : Outcome (List ℕ)) (port q : SerialPort) (rest : Action os.World (Outcome SerialPort))
      (w : os.World)
      → port_sock q ≡ port_sock port
      → SameSock port (rest w).value
      → SameSock port (after_reply os o q rest w).value
  after_reply-SameSock (returns resp) port q rest w same later =
      elim (Bool-cases (is_empty resp || is_final resp)) [
        | inl last ↦ rw last same
        | inr more ↦ rw more later
      ]
  after_reply-SameSock undefined port q rest w same later = tt
  after_reply-SameSock out_of_rounds port q rest w same later = tt

  read_replies-SameSock :
      (lines rounds : ℕ) (port : SerialPort) (w : os.World)
      → SameSock port (read_replies os lines rounds port w).value
  unfolding read_replies
  read_replies-SameSock zero rounds port w = tt
  read_replies-SameSock (suc lines) rounds port w =
      let r = read_line os rounds port line_feed (pos 2000) w in
      let same = sock-read_line os rounds port line_feed (pos 2000) w in
      after_reply-SameSock r.value.0 port r.value.1 _ r.world same (
        SameSock-trans port r.value.1 _ same (read_replies-SameSock lines rounds r.value.1 r.world))

  module _ {A : Type 0} where
    once_said-keeps :
        (P : Outcome A → Type 0) (o : Outcome Bool) (rest : Action os.World (Outcome A))
        (w : os.World)
        → P undefined
        → P out_of_rounds
        → P (rest w).value
        → P (once_said os o rest w).value
    once_said-keeps P (returns _) rest w u r h = h
    once_said-keeps P undefined rest w u r h = u
    once_said-keeps P out_of_rounds rest w u r h = r

  next_command-SameSock :
      (o : Outcome SerialPort) (port : SerialPort)
      (rest : SerialPort → Action os.World (Outcome SerialPort)) (w : os.World)
      → SameSock port o
      → ((q : SerialPort) → SameSock q (rest q w).value)
      → SameSock port (next_command os o rest w).value
  next_command-SameSock (returns q) port rest w same later =
      SameSock-trans port q (rest q w).value same (later q)
  next_command-SameSock undefined port rest w same later = tt
  next_command-SameSock out_of_rounds port rest w same later = tt

  pub dialogue-SameSock :
      (lines rounds : ℕ) (cmds : List (List ℕ)) (port : SerialPort) (w : os.World)
      → SameSock port (dialogue os lines rounds cmds port w).value
  unfolding dialogue hear_reply
  dialogue-SameSock lines rounds [] port w = refl
  dialogue-SameSock lines rounds (cmd ∷ cmds) port w =
      let s = write_line os port cmd end_of_line w in
      let heard = once_said os s.value (hear_reply os lines rounds port) s.world in
      next_command-SameSock heard.value port (dialogue os lines rounds cmds) heard.world
        (once_said-keeps (SameSock port) s.value (hear_reply os lines rounds port) s.world tt tt
          (read_replies-SameSock lines rounds port (get_rx_queue_status os port s.world).world))
        (λ q. dialogue-SameSock lines rounds cmds q heard.world)

  say-StepSock :
      (port : SerialPort) (line : List ℕ) (rest : Action os.World (Outcome (Bool × SerialPort)))
      (w : os.World)
      → ((w' : os.World) → StepSock port (rest w').value)
      → StepSock port (say os port line rest w).value
  unfolding say
  say-StepSock port line rest w later =
      let s = write_line os port line end_of_line w in
      once_said-keeps (StepSock port) s.value rest s.world tt tt (later s.world)

  once_purged-StepSock :
      (o : Outcome SerialPort) (port : SerialPort) (w : os.World)
      → ((q : SerialPort) → o ≡ returns q → port_sock q ≡ port_sock port)
      → StepSock port (once_purged os o w).value
  once_purged-StepSock (returns q) port w same =
      StepSock-same q port _ (same q refl) (say-StepSock q ok_text _ w (λ w'. refl))
  once_purged-StepSock undefined port w same = tt
  once_purged-StepSock out_of_rounds port w same = tt

  answer-StepSock :
      (rounds : ℕ) (port : SerialPort) (cmd : List ℕ) (w : os.World)
      → StepSock port (answer os rounds port cmd w).value
  unfolding answer purge_and_say
  answer-StepSock rounds port cmd w =
      let p = purge os rounds port purge_all w in
      if_holds (StepSock port) (same_text cmd at_text) _ _ w
        (say-StepSock port ok_text _ w (λ w'. refl))
        (if_holds (StepSock port) (same_text cmd info_text) _ _ w
          (say-StepSock port device_text _ w (λ w'. say-StepSock port ok_text _ w' (λ w''. refl)))
          (if_holds (StepSock port) (same_text cmd purge_text) _ _ w
            (once_purged-StepSock p.value port p.world
              (λ q e. sock-purge os rounds port q purge_all w e))
            (if_holds (StepSock port) (same_text cmd quit_text) _ _ w
              (say-StepSock port bye_text _ w (λ w'. refl))
              (say-StepSock port error_text _ w (λ w'. refl)))))

  go_on-SameSock :
      (o : Outcome (Bool × SerialPort)) (port : SerialPort)
      (rest : SerialPort → Action os.World (Outcome SerialPort)) (w : os.World)
      → StepSock port o
      → ((q : SerialPort) → SameSock q (rest q w).value)
      → SameSock port (go_on os o rest w).value
  go_on-SameSock (returns (true, q)) port rest w same later =
      SameSock-trans port q (rest q w).value same (later q)
  go_on-SameSock (returns (false, q)) port rest w same later = same
  go_on-SameSock undefined port rest w same later = tt
  go_on-SameSock out_of_rounds port rest w same later = tt

  with_line-SameSock :
      (o : Outcome (List ℕ)) (port : SerialPort)
      (rest : List ℕ → Action os.World (Outcome SerialPort)) (w : os.World)
      → ((line : List ℕ) → SameSock port (rest line w).value)
      → SameSock port (with_line os o rest w).value
  with_line-SameSock (returns line) port rest w later = later line
  with_line-SameSock undefined port rest w later = tt
  with_line-SameSock out_of_rounds port rest w later = tt

  step-StepSock :
      (rounds : ℕ) (port : SerialPort) (cmd : List ℕ) (w : os.World)
      → StepSock port (step os rounds port cmd w).value
  unfolding step
  step-StepSock rounds port cmd w =
      if_holds (StepSock port) (is_empty cmd) _ _ w refl (answer-StepSock rounds port cmd w)

  pub device_loop-SameSock :
      (lines rounds : ℕ) (port : SerialPort) (w : os.World)
      → SameSock port (device_loop os lines rounds port w).value
  unfolding device_loop
  device_loop-SameSock zero rounds port w = tt
  device_loop-SameSock (suc lines) rounds port w =
      let r = read_line os rounds port line_feed (pos 5000) w in
      if_holds (SameSock port) (port_is_open port) _ _ w
        (with_line-SameSock r.value.0 port _ r.world (λ cmd.
          let s = step os rounds r.value.1 cmd r.world in
          SameSock-trans port r.value.1 _ (sock-read_line os rounds port line_feed (pos 5000) w) (
            go_on-SameSock s.value r.value.1 (device_loop os lines rounds) s.world
              (step-StepSock rounds r.value.1 cmd r.world)
              (λ q. device_loop-SameSock lines rounds q s.world))))
        refl
