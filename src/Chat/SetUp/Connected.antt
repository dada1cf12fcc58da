-- ===== src/Chat/SetUp/Connected.antt =====
-- The socket that the chat's set-up hands to the threads, and the descriptors from the program's start
-- to the end of the threads.
use simple_rfcomm.Prelude.{
  ℕ, ◌≡◌, refl, ap, ◌∙◌, inl, inr, Option, none, some, true, false, List, [], ◌∷◌, ◌++◌, Bool-cases,
}
use simple_rfcomm.Prelude.Int.{ℤ, pos, negsuc, minus_one, is_negative, is_minus_one}
use simple_rfcomm.Command.{codes, same_text}
use simple_rfcomm.Address.{Address, Parsed, parsed_as, invalid_argument}
use simple_rfcomm.Address as Addresses
use simple_rfcomm.Uuid.{Uuid}
use simple_rfcomm.Uuid as Uuids
use simple_rfcomm.Platform.{bdaddr_to_address}
use simple_rfcomm.Os.{Os, Outcome, returns, undefined, out_of_rounds}
use simple_rfcomm.Os.Traffic.{opened_handles, closed_handles}
use simple_rfcomm.Os.Ledger.{Balanced}
use simple_rfcomm.Socket.{Socket, is_open, native_handle}
use simple_rfcomm.Socket.Options.{from_native_lem}
use simple_rfcomm.Sdp.{resolve_channel}
use simple_rfcomm.Client.{connect, connect_resolved, connect_by_sdp}
use simple_rfcomm.Client.Connect.{connect-Owns}
use simple_rfcomm.Serial.Life.{socket_handles, socket_handles_lem}
use simple_rfcomm.Server.{Server, new_server, listen_with_sdp, accept}
use simple_rfcomm.Server.Publish.{listen_with_sdp_lem}
use simple_rfcomm.ServerBench.Main.{default_provider, default_backlog}
use simple_rfcomm.ClientBench.Main.{default_timeout}
use simple_rfcomm.Chat.{Chat, reader_end, sender_end}
use simple_rfcomm.Chat.Ends.{Reachable, closes, HoldsAt, chat_holds}
use simple_rfcomm.Chat.SetUp.{
  SetUp, chats, or_leave, name_among, server_mode, or_fail, client_mode, client_args, run_mode,
  with_uuid, set_up, chat_uuid,
}
use simple_rfcomm.Chat.SetUp.Owns.{chat_set_up}

-- A socket that is open on a valid descriptor, if any.
abbrev IsConnected : Option Socket → Type 0
IsConnected none = Unit
IsConnected (some sock) = (is_open sock ≡ true) × (is_negative (native_handle sock) ≡ false)

abbrev IsConnectedIn : Outcome (Option Socket) → Type 0
IsConnectedIn (returns sock) = IsConnected sock
IsConnectedIn _ = Unit

-- The socket that the threads share, if they start.
abbrev ChatsConnected : Outcome SetUp → Type 0
ChatsConnected (returns (chats sock)) = IsConnected (some sock)
ChatsConnected _ = Unit

or_leave-ChatsConnected :
    (o : Option Socket) → IsConnected o → ChatsConnected (returns (or_leave o))
or_leave-ChatsConnected none h = tt
or_leave-ChatsConnected (some sock) h = h

valid→not_minus_one : (z : ℤ) → is_negative z ≡ false → is_minus_one z ≡ false
valid→not_minus_one (pos n) h = refl
valid→not_minus_one (negsuc n) h = absurd (cc h)

module _ (os : Os) where
  accept-IsConnected : (server : Server) (w : os.World) → IsConnected (accept os server w).value
  unfolding accept
  accept-IsConnected none w = tt
  accept-IsConnected (some s) w = elim (Bool-cases (is_minus_one s.listen_fd)) [
    | inl idle ↦ rw idle tt
    | inr listening ↦
        let a = (os.do_accept s.listen_fd w).0 in
        let w' = (os.do_accept s.listen_fd w).1 in
        elim (Bool-cases (is_negative a.0)) [
          | inl failed ↦ rw (listening, failed) tt
          | inr valid ↦
              let (open_now, handle, _, _, _) =
                from_native_lem os a.0 (bdaddr_to_address a.1) a.2 w' valid in
              rw (listening, valid) (open_now, ap is_negative handle ∙ valid)
        ]
  ]

  connect-IsConnected :
      (addr : Address) (channel : ℕ) (timeout : ℤ) (w : os.World)
      → IsConnected (connect os addr channel timeout w).value
  connect-IsConnected addr channel timeout w = elim (connect-Owns os addr channel timeout w) [
    | inl (failed, _) ↦ rw failed tt
    | inr (sock, made, _, valid, _, open_now, _, _) ↦ rw made (open_now, valid)
  ]

  connect_resolved-IsConnectedIn :
      (addr : Address) (timeout : ℤ) (o : Outcome (Option ℕ)) (w : os.World)
      → IsConnectedIn (connect_resolved os addr timeout o w).value
  unfolding connect_resolved
  connect_resolved-IsConnectedIn addr timeout (returns none) w = tt
  connect_resolved-IsConnectedIn addr timeout undefined w = tt
  connect_resolved-IsConnectedIn addr timeout out_of_rounds w = tt
  connect_resolved-IsConnectedIn addr timeout (returns (some channel)) w =
      connect-IsConnected addr channel timeout w

  server_mode-ChatsConnected :
      (uuid : Uuid) (sname : List ℕ) (w : os.World)
      → ChatsConnected (server_mode os uuid sname w).value
  unfolding server_mode
  server_mode-ChatsConnected uuid sname w =
      let l = listen_with_sdp os default_provider new_server uuid sname 0 default_backlog w in
      let (s, result) = listen_with_sdp_lem os default_provider uuid sname 0 default_backlog w in
      elim result [
        | inl (failed, _, _) ↦ rw failed tt
        | inr (listening, _, _, _, _) ↦ rw listening (
            or_leave-ChatsConnected (accept os (some s) l.world).value
              (accept-IsConnected (some s) l.world))
      ]

  or_fail-ChatsConnected :
      (o : Outcome (Option Socket)) (w : os.World)
      → IsConnectedIn o
      → ChatsConnected (or_fail os o w).value
  or_fail-ChatsConnected (returns sock) w h = or_leave-ChatsConnected sock h
  or_fail-ChatsConnected undefined w h = tt
  or_fail-ChatsConnected out_of_rounds w h = tt

  client_mode-ChatsConnected :
      (uuid : Uuid) (target : Parsed Address) (w : os.World)
      → ChatsConnected (client_mode os uuid target w).value
  unfolding client_mode connect_by_sdp
  client_mode-ChatsConnected uuid (invalid_argument _) w = tt
  client_mode-ChatsConnected uuid (parsed_as target) w =
      let c = resolve_channel os target uuid w in
      let r = connect_resolved os target default_timeout c.value c.world in
      or_fail-ChatsConnected r.value r.world
        (connect_resolved-IsConnectedIn target default_timeout c.value c.world)

  client_args-ChatsConnected :
      (uuid : Uuid) (args : List (List ℕ)) (w : os.World)
      → ChatsConnected (client_args os uuid args w).value
  client_args-ChatsConnected uuid [] w = tt
  client_args-ChatsConnected uuid (target ∷ _) w =
      client_mode-ChatsConnected uuid (Addresses.parse target) w

  run_mode-ChatsConnected :
      (uuid : Uuid) (mode : List ℕ) (args : List (List ℕ)) (w : os.World)
      → ChatsConnected (run_mode os uuid mode args w).value
  unfolding run_mode
  run_mode-ChatsConnected uuid mode args w = elim (Bool-cases (same_text mode (codes "server"))) [
    | inl server ↦ rw server (server_mode-ChatsConnected uuid (name_among args) w)
    | inr other ↦ elim (Bool-cases (same_text mode (codes "client"))) [
      | inl client ↦ rw (other, client) (client_args-ChatsConnected uuid args w)
      | inr neither ↦ rw (other, neither) tt
    ]
  ]

  with_uuid-ChatsConnected :
      (uuid : Parsed Uuid) (mode : List ℕ) (args : List (List ℕ)) (w : os.World)
      → ChatsConnected (with_uuid os uuid mode args w).value
  unfolding with_uuid
  with_uuid-ChatsConnected (parsed_as uuid) mode args w = run_mode-ChatsConnected uuid mode args w
  with_uuid-ChatsConnected (invalid_argument _) mode args w = tt

  set_up-ChatsConnected :
      (args : List (List ℕ)) (w : os.World) → ChatsConnected (set_up os args w).value
  unfolding set_up
  set_up-ChatsConnected [] w = tt
  set_up-ChatsConnected (mode ∷ args) w =
      with_uuid-ChatsConnected (Uuids.parse chat_uuid) mode args w

  -- Whatever the arguments, the system and the SDP server do, and in every interleaving of the threads,
  -- whatever the console and the peer do: where the chat has started its threads on a socket and the
  -- main thread has joined the reader, every descriptor that the program has opened has been closed
  -- once, the one that the threads shared last; no thread goes on, and the handle is invalid.
  pub chat_closes :
      (args : List (List ℕ)) (w : os.World) (sock : Socket) (s : Chat)
      → (set_up os args w).value ≡ returns (chats sock)
      → Reachable (native_handle sock) s
      → s.sender ≡ sender_end
      → let r = set_up os args w in
        (opened_handles r.calls ≡ closed_handles r.calls ++ closes s.calls)
        × (s.reader ≡ reader_end)
        × (s.handle ≡ minus_one)
  chat_closes args w sock s started reached joined =
      let (open_now, valid) : IsConnected (some sock) =
        rw started at (set_up-ChatsConnected args w) in
      let balanced : Balanced [] (set_up os args w).calls (socket_handles (some sock)) =
        rw started at (chat_set_up os args w) in
      let (_, reset, shut, ended) : HoldsAt (native_handle sock) s sender_end =
        rw joined at (chat_holds (native_handle sock) s (valid→not_minus_one _ valid) reached) in
      (rw (shut, valid) (rw (socket_handles_lem sock open_now valid) at balanced), ended, reset)
