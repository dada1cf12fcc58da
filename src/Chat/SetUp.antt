-- ===== src/Chat/SetUp.antt =====
-- `main` of examples/chat_echo.cpp up to the threads: the modes and the connection, without the
-- console output.
pub mod Connected
pub mod Owns
use simple_rfcomm.Prelude.{ℕ, Option, none, some, Bool, true, false, List, [], ◌∷◌, if◌then◌else◌}
use simple_rfcomm.Command.{codes, same_text, Exit, exits, uncaught}
use simple_rfcomm.Address.{Address, Parsed, parsed_as, invalid_argument}
use simple_rfcomm.Address as Addresses
use simple_rfcomm.Uuid.{Uuid}
use simple_rfcomm.Uuid as Uuids
use simple_rfcomm.Os.{Os, Action, Outcome, returns, undefined, out_of_rounds, pure, ◌>>=◌, ◌>>◌}
use simple_rfcomm.Socket.{Socket}
use simple_rfcomm.Client.{connect_by_sdp}
use simple_rfcomm.Server.{Server, new_server, listen_with_sdp, accept, close_server}
use simple_rfcomm.ServerBench.Main.{default_provider, default_backlog}
use simple_rfcomm.ClientBench.Main.{default_timeout}

abbrev pub chat_uuid : List ℕ
chat_uuid = codes "e3b0c442-98fc-1c14-9afe-4c9c2e0b5f13"

-- The program ends before the threads start, or they share the socket.
pub data SetUp : Type 0 where
  leaves : Exit → SetUp
  chats : Socket → SetUp

abbrev pub or_leave : Option Socket → SetUp
or_leave none = leaves (exits 1)
or_leave (some sock) = chats sock

-- (argc > 2) ? argv[2] : "SimpleRFCOMM Chat"
abbrev pub name_among : List (List ℕ) → List ℕ
name_among [] = codes "SimpleRFCOMM Chat"
name_among (sname ∷ _) = sname

module _ (os : Os) where
  -- The code behind `listen_with_sdp`; the server's life ends with its mode's block, or with `return`.
  abbrev pub accept_peer : Outcome (Bool × Server) → Action os.World (Outcome SetUp)
  accept_peer (returns (true, server)) = do
    sock ← accept os server
    close_server os server
    pure (returns (or_leave sock))
  accept_peer (returns (false, server)) = do
    close_server os server
    pure (returns (leaves (exits 1)))
  accept_peer undefined = pure undefined
  accept_peer out_of_rounds = pure out_of_rounds

  unfoldable pub server_mode : Uuid → List ℕ → Action os.World (Outcome SetUp)
  server_mode uuid sname = do
    listening ← listen_with_sdp os default_provider new_server uuid sname 0 default_backlog
    accept_peer listening

  abbrev pub or_fail : Outcome (Option Socket) → Action os.World (Outcome SetUp)
  or_fail (returns sock) = pure (returns (or_leave sock))
  or_fail undefined = pure undefined
  or_fail out_of_rounds = pure out_of_rounds

  unfoldable pub client_mode : Uuid → Parsed Address → Action os.World (Outcome SetUp)
  client_mode uuid (invalid_argument _) = pure (returns (leaves uncaught))
  client_mode uuid (parsed_as target) = do
    sock ← connect_by_sdp os target uuid default_timeout
    or_fail sock

  -- The client without an address, or another mode, is an error.
  abbrev pub client_args : Uuid → List (List ℕ) → Action os.World (Outcome SetUp)
  client_args uuid [] = pure (returns (leaves (exits 1)))
  client_args uuid (target ∷ _) = client_mode uuid (Addresses.parse target)

  unfoldable pub run_mode : Uuid → List ℕ → List (List ℕ) → Action os.World (Outcome SetUp)
  unfolding server_mode client_mode
  run_mode uuid mode args =
      if same_text mode (codes "server")
      then server_mode uuid (name_among args)
      else (if same_text mode (codes "client")
          then client_args uuid args
          else pure (returns (leaves (exits 1))))

  unfoldable pub with_uuid : Parsed Uuid → List ℕ → List (List ℕ) → Action os.World (Outcome SetUp)
  unfolding run_mode
  with_uuid (parsed_as uuid) mode args = run_mode uuid mode args
  with_uuid (invalid_argument _) mode args = pure (returns (leaves uncaught))

  -- The arguments are those behind the program's name.
  unfoldable pub set_up : List (List ℕ) → Action os.World (Outcome SetUp)
  unfolding with_uuid
  set_up [] = pure (returns (leaves (exits 1)))
  set_up (mode ∷ args) = with_uuid (Uuids.parse chat_uuid) mode args
