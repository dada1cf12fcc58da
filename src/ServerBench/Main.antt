-- ===== src/ServerBench/Main.antt =====
-- `main` of examples/server_bench.cpp: the options, the service, the loop over the clients, and the
-- server's destructor, without the console output.
pub mod Ledger
use simple_rfcomm.Prelude.{ℕ, Option, none, some, Bool, true, false, List, []}
use simple_rfcomm.Prelude.Int.{ℤ, pos}
use simple_rfcomm.Command.{codes, Exit, exits, uncaught}
use simple_rfcomm.Address.{Parsed, parsed_as, invalid_argument}
use simple_rfcomm.Uuid.{Uuid}
use simple_rfcomm.Uuid as Uuids
use simple_rfcomm.Os.{Os, Action, Outcome, returns, undefined, out_of_rounds, pure, ◌>>=◌, ◌>>◌}
use simple_rfcomm.Server.{Server, new_server, listen_with_sdp, close_server}
use simple_rfcomm.ServerBench.{accept_loop}
use simple_rfcomm.ServerBench.Args.{
  Options, default_options, runs, prints_usage, throws, parse_args,
}
use simple_rfcomm.ServerBench.Args as Args

-- The default arguments of `listen_with_sdp`.
abbrev pub default_provider : List ℕ
default_provider = codes "SimpleRFCOMM"

abbrev pub default_backlog : ℤ
default_backlog = pos 4

module _ (os : Os) where
  -- The destructor of the server, and the status that `main` returns.
  abbrev pub leave : Server → ℕ → Action os.World (Outcome Exit)
  leave server status = do close_server os server; pure (returns (exits status))

  abbrev pub behind_loop : Outcome (Unit {0}) → Server → Action os.World (Outcome Exit)
  behind_loop (returns _) server = leave server 0
  behind_loop undefined server = pure undefined
  behind_loop out_of_rounds server = pure out_of_rounds

  -- The code behind `listen_with_sdp`.
  abbrev pub serve : ℕ → ℕ → Bool → Outcome (Bool × Server) → Action os.World (Outcome Exit)
  serve clients rounds echo_mode (returns (true, server)) = do
    ended ← accept_loop os clients rounds echo_mode server
    behind_loop ended server
  serve clients rounds echo_mode (returns (false, server)) = leave server 1
  serve clients rounds echo_mode undefined = pure undefined
  serve clients rounds echo_mode out_of_rounds = pure out_of_rounds

  unfoldable pub run_service : ℕ → ℕ → Options → Uuid → Action os.World (Outcome Exit)
  run_service clients rounds o uuid = do
    listening ←
        listen_with_sdp os default_provider new_server uuid o.service_name o.channel default_backlog
    serve clients rounds o.echo_mode listening

  unfoldable pub with_uuid : ℕ → ℕ → Options → Parsed Uuid → Action os.World (Outcome Exit)
  unfolding run_service
  with_uuid clients rounds o (invalid_argument _) = pure (returns uncaught)
  with_uuid clients rounds o (parsed_as uuid) = run_service clients rounds o uuid

  unfoldable pub with_options : ℕ → ℕ → Args.Parsed → Action os.World (Outcome Exit)
  unfolding with_uuid
  with_options clients rounds prints_usage = pure (returns (exits 0))
  with_options clients rounds throws = pure (returns uncaught)
  with_options clients rounds (runs o) = with_uuid clients rounds o (Uuids.parse o.uuid_str)

  -- The loops may make `clients` and `rounds` rounds; `args` are the arguments behind the program's
  -- name.
  unfoldable pub main : (List ℕ → Option ℤ) → ℕ → ℕ → List (List ℕ) → Action os.World (Outcome Exit)
  unfolding with_options
  main stoi clients rounds args = with_options clients rounds (parse_args stoi default_options args)
