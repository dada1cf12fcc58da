-- ===== src/ClientBench/Main.antt =====
-- `main` of examples/client_bench.cpp: the arguments, the connection, the buffers, the transfer and the
-- socket's end, without the console output and the clock.
pub mod Ledger
pub mod Returns
use simple_rfcomm.Prelude.{ℕ, Option, none, some, Bool, List, [], ◌∷◌, if◌then◌else◌}
use simple_rfcomm.Prelude.Int.{ℤ, pos, is_positive}
use simple_rfcomm.Command.{Exit, exits, uncaught, to_uint8}
use simple_rfcomm.Address.{Address, Parsed, parsed_as, invalid_argument}
use simple_rfcomm.Address as Addresses
use simple_rfcomm.Uuid.{Uuid}
use simple_rfcomm.Uuid as Uuids
use simple_rfcomm.Os.{Os, Action, Outcome, returns, undefined, out_of_rounds, pure, ◌>>=◌, ◌>>◌}
use simple_rfcomm.Socket.{Socket, close, destroy}
use simple_rfcomm.Client.{connect, connect_by_sdp}
use simple_rfcomm.ClientBench.{Transferred, chunk_size, make_buffers, transfer}
use simple_rfcomm.ClientBench.Args.{Numerals, Options, default_options, parse_args}

-- The default timeout of `connect` and `connect_by_sdp`, in milliseconds.
abbrev pub default_timeout : ℤ
default_timeout = pos 10000

module _ (os : Os) (n : Numerals) where
  -- sock->close(), the destructor, and the status.
  abbrev pub behind_transfer : Outcome Transferred → Socket → Action os.World (Outcome Exit)
  behind_transfer (returns _) sock = do
    sock' ← close os sock
    destroy os sock'
    pure (returns (exits 0))
  behind_transfer undefined sock = pure undefined
  behind_transfer out_of_rounds sock = pure out_of_rounds

  -- The transfer of `size_mb`, whose bytes may be no `size_t`. An exception of the vectors ends the
  -- program with the socket open: nothing catches it, and no destructor runs.
  abbrev pub run_transfer :
      ℕ → Options n.Double → Option ℕ → Socket → Action os.World (Outcome Exit)
  run_transfer rounds o none sock = pure undefined
  run_transfer rounds o (some total_bytes) sock = do
    made ← make_buffers os o.echo_mode (chunk_size o.chunk_kb)
    if made
        then (do
          done ← transfer os rounds o.echo_mode sock o.chunk_kb total_bytes
          behind_transfer done sock)
        else pure (returns uncaught)

  abbrev pub with_socket :
      ℕ → Options n.Double → Outcome (Option Socket) → Action os.World (Outcome Exit)
  with_socket rounds o (returns (some sock)) = run_transfer rounds o (n.bytes_of o.size_mb) sock
  with_socket rounds o (returns none) = pure (returns (exits 1))
  with_socket rounds o undefined = pure undefined
  with_socket rounds o out_of_rounds = pure out_of_rounds

  -- A positive channel is connected to directly, as a byte; otherwise the service is searched for.
  unfoldable pub connect_target : ℤ → Address → Uuid → Action os.World (Outcome (Option Socket))
  connect_target direct_channel target uuid =
      if is_positive direct_channel
      then (do
        sock ← connect os target (to_uint8 direct_channel) default_timeout
        pure (returns sock))
      else connect_by_sdp os target uuid default_timeout

  unfoldable pub with_target :
      ℕ → Options n.Double → Parsed Address → Parsed Uuid → Action os.World (Outcome Exit)
  with_target rounds o (parsed_as target) (parsed_as uuid) = do
    sock ← connect_target o.direct_channel target uuid
    with_socket rounds o sock
  with_target rounds o (parsed_as target) (invalid_argument _) = pure (returns uncaught)
  with_target rounds o (invalid_argument _) uuid = pure (returns uncaught)

  unfoldable pub with_options :
      ℕ → List ℕ → Option (Options n.Double) → Action os.World (Outcome Exit)
  unfolding with_target
  with_options rounds target_str none = pure (returns uncaught)
  with_options rounds target_str (some o) =
      with_target rounds o (Addresses.parse target_str) (Uuids.parse o.uuid_str)

  -- The loop may make `rounds` rounds; the arguments are those behind the program's name.
  unfoldable pub main : ℕ → List (List ℕ) → Action os.World (Outcome Exit)
  unfolding with_options
  main rounds [] = pure (returns (exits 1))
  main rounds (target_str ∷ args) =
      with_options rounds target_str (parse_args n (default_options n) args)
