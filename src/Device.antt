-- ===== src/Device.antt =====
-- The device that the server mode of examples/serial_port_demo.cpp emulates: the loop that reads a
-- command by lines and answers it, without the console output. A text is the list of its codes.
pub mod Replies
pub mod Spin
use simple_rfcomm.Prelude.{
  ℕ, zero, suc, Bool, true, false, ◌&&◌, List, [], ◌∷◌, ◌==◌, if◌then◌else◌,
}
use simple_rfcomm.Prelude.Int.{pos}
use simple_rfcomm.Os.{Os, Action, Outcome, returns, undefined, out_of_rounds, pure, ◌>>=◌}
use simple_rfcomm.Command.{same_text}
use simple_rfcomm.Socket.{is_empty}
use simple_rfcomm.Serial.{SerialPort, port_is_open, read_line, purge_all}
use simple_rfcomm.Serial.Port.{write_line, purge}

-- The commands "AT", "AT+INFO", "AT+PURGE" and "AT+QUIT".
abbrev pub at_text : List ℕ
at_text = 65 ∷ 84 ∷ []

abbrev pub info_text : List ℕ
info_text = 65 ∷ 84 ∷ 43 ∷ 73 ∷ 78 ∷ 70 ∷ 79 ∷ []

abbrev pub purge_text : List ℕ
purge_text = 65 ∷ 84 ∷ 43 ∷ 80 ∷ 85 ∷ 82 ∷ 71 ∷ 69 ∷ []

abbrev pub quit_text : List ℕ
quit_text = 65 ∷ 84 ∷ 43 ∷ 81 ∷ 85 ∷ 73 ∷ 84 ∷ []

-- The answers "OK", "BYE", "+INFO: SimpleRFCOMM FTDI Virtual Device v1.0" and "ERROR: UNKNOWN
-- COMMAND".
abbrev pub ok_text : List ℕ
ok_text = 79 ∷ 75 ∷ []

abbrev pub bye_text : List ℕ
bye_text = 66 ∷ 89 ∷ 69 ∷ []

abbrev pub device_text : List ℕ
device_text =
    43 ∷ 73 ∷ 78 ∷ 70 ∷ 79 ∷ 58 ∷ 32 ∷ 83 ∷ 105 ∷ 109 ∷ 112 ∷ 108 ∷ 101 ∷ 82 ∷ 70 ∷ 67 ∷ 79 ∷ 77
    ∷ 77 ∷ 32 ∷ 70 ∷ 84 ∷ 68 ∷ 73 ∷ 32 ∷ 86 ∷ 105 ∷ 114 ∷ 116 ∷ 117 ∷ 97 ∷ 108 ∷ 32 ∷ 68 ∷ 101 ∷ 118
    ∷ 105 ∷ 99 ∷ 101 ∷ 32 ∷ 118 ∷ 49 ∷ 46 ∷ 48 ∷ []

abbrev pub error_text : List ℕ
error_text =
    69 ∷ 82 ∷ 82 ∷ 79 ∷ 82 ∷ 58 ∷ 32 ∷ 85 ∷ 78 ∷ 75 ∷ 78 ∷ 79 ∷ 87 ∷ 78 ∷ 32 ∷ 67 ∷ 79 ∷ 77 ∷ 77
    ∷ 65 ∷ 78 ∷ 68 ∷ []

-- The default arguments of `read_line` and `write_line`: a line feed, and "\r\n".
abbrev pub line_feed : ℕ
line_feed = 10

abbrev pub end_of_line : List ℕ
end_of_line = 13 ∷ 10 ∷ []

module _ (os : Os) where
  abbrev pub once_said :
      {A : Type 0} → Outcome Bool → Action os.World (Outcome A) → Action os.World (Outcome A)
  once_said (returns _) rest = rest
  once_said undefined rest = pure undefined
  once_said out_of_rounds rest = pure out_of_rounds

  -- serial.write_line(line), whose result the code ignores.
  unfoldable pub say :
      {A : Type 0} → SerialPort → List ℕ → Action os.World (Outcome A) → Action os.World (Outcome A)
  say port line rest = do done ← write_line os port line end_of_line; once_said done rest

  abbrev pub once_purged : Outcome SerialPort → Action os.World (Outcome (Bool × SerialPort))
  once_purged (returns port) = say port ok_text (pure (returns (true, port)))
  once_purged undefined = pure undefined
  once_purged out_of_rounds = pure out_of_rounds

  -- The code behind `AT+PURGE`.
  unfoldable pub purge_and_say : ℕ → SerialPort → Action os.World (Outcome (Bool × SerialPort))
  purge_and_say rounds port = do purged ← purge os rounds port purge_all; once_purged purged

  -- The answer to a command, and whether the loop goes on.
  unfoldable pub answer : ℕ → SerialPort → List ℕ → Action os.World (Outcome (Bool × SerialPort))
  answer rounds port cmd =
      if same_text cmd at_text
      then say port ok_text (pure (returns (true, port)))
      else (if same_text cmd info_text
          then say port device_text (say port ok_text (pure (returns (true, port))))
          else (if same_text cmd purge_text
              then purge_and_say rounds port
              else (if same_text cmd quit_text
                  then say port bye_text (pure (returns (false, port)))
                  else say port error_text (pure (returns (true, port))))))

  -- if (cmd.empty()) { if (!serial.is_open()) break; continue; }
  unfoldable pub step : ℕ → SerialPort → List ℕ → Action os.World (Outcome (Bool × SerialPort))
  step rounds port cmd =
      if is_empty cmd then pure (returns (port_is_open port, port)) else answer rounds port cmd

  -- Behind `break`, or in the next round.
  abbrev pub go_on :
      Outcome (Bool × SerialPort)
      → (SerialPort → Action os.World (Outcome SerialPort))
      → Action os.World (Outcome SerialPort)
  go_on (returns (true, port)) rest = rest port
  go_on (returns (false, port)) rest = pure (returns port)
  go_on undefined rest = pure undefined
  go_on out_of_rounds rest = pure out_of_rounds

  abbrev pub with_line :
      Outcome (List ℕ)
      → (List ℕ → Action os.World (Outcome SerialPort))
      → Action os.World (Outcome SerialPort)
  with_line (returns line) rest = rest line
  with_line undefined rest = pure undefined
  with_line out_of_rounds rest = pure out_of_rounds

  -- The loop, with the rounds that it may still make and those of each read and each purge.
  unfoldable pub device_loop : ℕ → ℕ → SerialPort → Action os.World (Outcome SerialPort)
  device_loop zero rounds port = pure out_of_rounds
  device_loop (suc commands) rounds port =
      if port_is_open port
      then (do
        (line, port') ← read_line os rounds port line_feed (pos 5000)
        with_line line
            (λ cmd. step rounds port' cmd >>= λ went. go_on went (device_loop commands rounds)))
      else pure (returns port)
