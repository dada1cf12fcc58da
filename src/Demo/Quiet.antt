-- ===== src/Demo/Quiet.antt =====
-- The loops of the serial port demo and the calls that open and close a descriptor.
use simple_rfcomm.Prelude.{ℕ, zero, suc, Bool, true, false, List, [], ◌∷◌}
use simple_rfcomm.Os.{Os, Action, Outcome, returns, undefined, out_of_rounds}
use simple_rfcomm.Os.Ledger.{IsQuiet, quiet_rules}
use simple_rfcomm.Serial.{SerialPort}
use simple_rfcomm.Serial.Quiet.{read_line-IsQuiet, write_line-IsQuiet, queue-IsQuiet, purge-IsQuiet}
use simple_rfcomm.Device.{
  say, once_said, once_purged, purge_and_say, answer, step, go_on, with_line, device_loop,
}
use simple_rfcomm.Demo.{after_reply, read_replies, next_command, hear_reply, dialogue}

module _ (os : Os) where
  module _ {A : Type 0} where
    once_said-IsQuiet :
        (o : Outcome Bool) (rest : Action os.World (Outcome A))
        → IsQuiet rest
        → IsQuiet (once_said os o rest)
    once_said-IsQuiet (returns _) rest h = h
    once_said-IsQuiet undefined rest h = search quiet_rules
    once_said-IsQuiet out_of_rounds rest h = search quiet_rules

    say-IsQuiet :
        (port : SerialPort) (line : List ℕ) (rest : Action os.World (Outcome A))
        → IsQuiet rest
        → IsQuiet (say os port line rest)
    unfolding say
    say-IsQuiet port line rest h = search (quiet_rules, write_line-IsQuiet os, once_said-IsQuiet)

  after_reply-IsQuiet :
      (o : Outcome (List ℕ)) (port : SerialPort) (rest : Action os.World (Outcome SerialPort))
      → IsQuiet rest
      → IsQuiet (after_reply os o port rest)
  after_reply-IsQuiet (returns resp) port rest h = search quiet_rules
  after_reply-IsQuiet undefined port rest h = search quiet_rules
  after_reply-IsQuiet out_of_rounds port rest h = search quiet_rules

  read_replies-IsQuiet :
      (lines rounds : ℕ) (port : SerialPort) → IsQuiet (read_replies os lines rounds port)
  unfolding read_replies
  read_replies-IsQuiet zero rounds port = search quiet_rules
  read_replies-IsQuiet (suc lines) rounds port =
      search
        (quiet_rules, read_line-IsQuiet os, after_reply-IsQuiet, read_replies-IsQuiet lines rounds)

  next_command-IsQuiet :
      (o : Outcome SerialPort) (rest : SerialPort → Action os.World (Outcome SerialPort))
      → ((port : SerialPort) → IsQuiet (rest port))
      → IsQuiet (next_command os o rest)
  next_command-IsQuiet (returns port) rest h = h port
  next_command-IsQuiet undefined rest h = search quiet_rules
  next_command-IsQuiet out_of_rounds rest h = search quiet_rules

  hear_reply-IsQuiet :
      (lines rounds : ℕ) (port : SerialPort) → IsQuiet (hear_reply os lines rounds port)
  unfolding hear_reply
  hear_reply-IsQuiet lines rounds port =
      search (quiet_rules, queue-IsQuiet os, read_replies-IsQuiet)

  pub dialogue-IsQuiet :
      (lines rounds : ℕ) (cmds : List (List ℕ)) (port : SerialPort)
      → IsQuiet (dialogue os lines rounds cmds port)
  unfolding dialogue
  dialogue-IsQuiet lines rounds [] port = search quiet_rules
  dialogue-IsQuiet lines rounds (cmd ∷ cmds) port = search (
    quiet_rules,
    write_line-IsQuiet os,
    once_said-IsQuiet,
    hear_reply-IsQuiet,
    next_command-IsQuiet,
    dialogue-IsQuiet lines rounds cmds,
  )

  once_purged-IsQuiet : (o : Outcome SerialPort) → IsQuiet (once_purged os o)
  once_purged-IsQuiet (returns port) = search (quiet_rules, say-IsQuiet)
  once_purged-IsQuiet undefined = search quiet_rules
  once_purged-IsQuiet out_of_rounds = search quiet_rules

  answer-IsQuiet :
      (rounds : ℕ) (port : SerialPort) (cmd : List ℕ) → IsQuiet (answer os rounds port cmd)
  unfolding answer purge_and_say
  answer-IsQuiet rounds port cmd =
      search (quiet_rules, say-IsQuiet, purge-IsQuiet os, once_purged-IsQuiet) depth 12

  step-IsQuiet : (rounds : ℕ) (port : SerialPort) (cmd : List ℕ) → IsQuiet (step os rounds port cmd)
  unfolding step
  step-IsQuiet rounds port cmd = search (quiet_rules, answer-IsQuiet)

  go_on-IsQuiet :
      (o : Outcome (Bool × SerialPort)) (rest : SerialPort → Action os.World (Outcome SerialPort))
      → ((port : SerialPort) → IsQuiet (rest port))
      → IsQuiet (go_on os o rest)
  go_on-IsQuiet (returns (true, port)) rest h = h port
  go_on-IsQuiet (returns (false, port)) rest h = search quiet_rules
  go_on-IsQuiet undefined rest h = search quiet_rules
  go_on-IsQuiet out_of_rounds rest h = search quiet_rules

  with_line-IsQuiet :
      (o : Outcome (List ℕ)) (rest : List ℕ → Action os.World (Outcome SerialPort))
      → ((line : List ℕ) → IsQuiet (rest line))
      → IsQuiet (with_line os o rest)
  with_line-IsQuiet (returns line) rest h = h line
  with_line-IsQuiet undefined rest h = search quiet_rules
  with_line-IsQuiet out_of_rounds rest h = search quiet_rules

  pub device_loop-IsQuiet :
      (lines rounds : ℕ) (port : SerialPort) → IsQuiet (device_loop os lines rounds port)
  unfolding device_loop
  device_loop-IsQuiet zero rounds port = search quiet_rules
  device_loop-IsQuiet (suc lines) rounds port =
      search
        (
          quiet_rules,
          read_line-IsQuiet os,
          with_line-IsQuiet,
          step-IsQuiet,
          go_on-IsQuiet,
          device_loop-IsQuiet lines rounds,
        )
        depth 9
