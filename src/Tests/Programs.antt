-- ===== src/Tests/Programs.antt =====
-- The command lines and the programs of examples/ over the small system of the tests.
use simple_rfcomm.Prelude.{
  ℕ, ◌+◌, ◌-◌, ◌*◌, ◌≡◌, refl, ap, Option, none, some, true, List, [], ◌∷◌, arith,
}
use simple_rfcomm.Prelude.Int.{ℤ, pos}
use simple_rfcomm.Command.{codes, ReadsDecimal}
use simple_rfcomm.Command.Ends.{Leaves}
use simple_rfcomm.ServerBench.Args.{
  Options, default_options, parse_args, runs, kind, last_arg, throws,
}
use simple_rfcomm.ServerBench.Args.Laws.{command_line, parse_args-command_line}
use simple_rfcomm.ServerBench.Main as ServerMain
use simple_rfcomm.ServerBench.Main.Ledger.{Serves, server_main_closes}
use simple_rfcomm.ClientBench.Args as ClientArgs
use simple_rfcomm.ClientBench.Args.{Numerals}
use simple_rfcomm.ClientBench.Main as ClientMain
use simple_rfcomm.ClientBench.Main.Ledger.{ClientLeaves, client_main_closes}
use simple_rfcomm.ClientBench.Main.Returns.{Stops, client_main_returns}
use simple_rfcomm.Demo
use simple_rfcomm.Demo.Closes.{demo_closes}
use simple_rfcomm.Chat.SetUp.{set_up}
use simple_rfcomm.Chat.SetUp.Owns.{Owned, chat_set_up}
use simple_rfcomm.Tests.System.{toy_os, toy_os-SendsWithin, toy_os-ReceivesWithin}

-- Numbers of three digits.
abbrev toy_stoi : List ℕ → Option ℤ
toy_stoi (a ∷ b ∷ c ∷ []) = some (pos ((a - 48) * 100 + (b - 48) * 10 + (c - 48)))
toy_stoi _ = none

toy_stoi-ReadsDecimal : ReadsDecimal toy_stoi
toy_stoi-ReadsDecimal n h = ap (λ (m : ℕ). some (pos m)) (omega (arith, h))

abbrev some_options : Options
some_options = record {
  uuid_str = codes "--echo";
  service_name = codes "bench";
  channel = 17;
  echo_mode = true;
}

parse_args-command_line_example :
    parse_args toy_stoi default_options (command_line some_options) ≡ runs some_options
parse_args-command_line_example =
    parse_args-command_line toy_stoi default_options some_options toy_stoi-ReadsDecimal
      (omega arith) refl

-- `--channel` wants a number, and at the end of the line it is ignored.
channel_unread : parse_args toy_stoi default_options (codes "--channel" ∷ codes "x" ∷ []) ≡ throws
unfolding parse_args kind
channel_unread = refl

channel_at_end : parse_args toy_stoi default_options (codes "--channel" ∷ []) ≡ runs default_options
unfolding parse_args kind last_arg
channel_at_end = refl

abbrev echo_args : List (List ℕ)
echo_args = codes "--channel" ∷ codes "003" ∷ codes "--echo" ∷ []

abbrev five_bytes : List ℕ
five_bytes = 1 ∷ 2 ∷ 3 ∷ 4 ∷ 5 ∷ []

server_main_closes_example :
    let r = ServerMain.main toy_os toy_stoi 2 9 echo_args five_bytes in Serves r.value r.calls
server_main_closes_example = server_main_closes toy_os toy_stoi 2 9 echo_args five_bytes

-- A `double` is a whole number here.
abbrev toy_numerals : Numerals
toy_numerals = record {
  Double = ℕ;
  stoi = toy_stoi;
  stod = λ text. some 1;
  stoul = λ text. some 1;
  two = 2;
  bytes_of = λ d. some (d * 1048576);
}

abbrev target : List ℕ
target = codes "9C:C7:D3:F6:E6:A8"

client_main_closes_example :
    let r = ClientMain.main toy_os toy_numerals 3000000 (target ∷ echo_args) five_bytes in
    ClientLeaves r.value r.calls
client_main_closes_example =
    client_main_closes toy_os toy_numerals 3000000 (target ∷ echo_args) five_bytes

abbrev echo_options : ClientArgs.Options ℕ
echo_options = record {
  uuid_str = codes "e3b0c442-98fc-1c14-9afe-4c9c2e0b5f12";
  direct_channel = pos 3;
  size_mb = 2;
  chunk_kb = 16;
  echo_mode = true;
}

echo_args_read :
    ClientArgs.parse_args toy_numerals (ClientArgs.default_options toy_numerals) echo_args
    ≡ some echo_options
unfolding ClientArgs.parse_args ClientArgs.kind ClientArgs.last_arg
echo_args_read = refl

client_main_returns_example :
    Stops
      (pos 3)
      (ClientMain.main toy_os toy_numerals 3000000 (target ∷ echo_args) five_bytes).value
client_main_returns_example =
    client_main_returns toy_os toy_numerals toy_os-ReceivesWithin toy_os-SendsWithin 3000000
      echo_options 2097152 refl (omega arith) (omega arith) target echo_args five_bytes
      echo_args_read

demo_closes_example :
    let r = Demo.main toy_os 3 9 (codes "client" ∷ target ∷ []) five_bytes in
    Leaves 2 r.value r.calls
demo_closes_example = demo_closes toy_os 3 9 (codes "client" ∷ target ∷ []) five_bytes

chat_set_up_example :
    let r = set_up toy_os (codes "server" ∷ []) five_bytes in Owned r.value r.calls
chat_set_up_example = chat_set_up toy_os (codes "server" ∷ []) five_bytes
