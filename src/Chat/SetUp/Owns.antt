-- ===== src/Chat/SetUp/Owns.antt =====
-- The set-up of the chat: which descriptors are open behind it.
use simple_rfcomm.Prelude.{
  ℕ, ◌≡◌, refl, sym, inl, inr, append-nil, Option, none, some, List, [], ◌∷◌, ◌++◌, Bool-cases,
}
use simple_rfcomm.Command.{codes, same_text, exits, uncaught}
use simple_rfcomm.Command.Ends.{Balanced-ends, opens_behind, closes_front}
use simple_rfcomm.Address.{Address, Parsed, parsed_as, invalid_argument}
use simple_rfcomm.Address as Addresses
use simple_rfcomm.Uuid.{Uuid}
use simple_rfcomm.Uuid as Uuids
use simple_rfcomm.Os.{Os, Call, Outcome, returns, undefined, out_of_rounds}
use simple_rfcomm.Os.Traffic.{opened_handles, closed_handles, if_valid}
use simple_rfcomm.Os.Ledger.{Balanced, Balanced-append}
use simple_rfcomm.Socket.{Socket}
use simple_rfcomm.Client.{connect_by_sdp}
use simple_rfcomm.Serial.Life.{socket_handles}
use simple_rfcomm.Serial.Ledger.{connect_by_sdp-Balanced, outcome_handles}
use simple_rfcomm.Server.{new_server, listen_with_sdp, accept, close_server}
use simple_rfcomm.Server.Accept.{accept-handles}
use simple_rfcomm.Server.Publish.{listen_with_sdp_lem, close_server-handles}
use simple_rfcomm.ServerBench.Main.{default_provider, default_backlog}
use simple_rfcomm.ClientBench.Main.{default_timeout}
use simple_rfcomm.Chat.SetUp.{
  SetUp, leaves, chats, or_leave, name_among, server_mode, or_fail, client_mode, client_args,
  run_mode, with_uuid, set_up, chat_uuid,
}

-- What is open behind the set-up, by how it has ended.
abbrev pub Owned : Outcome SetUp → List Call → Type 0
Owned (returns (leaves (exits status))) cs = closed_handles cs ≡ opened_handles cs
Owned (returns (leaves uncaught)) cs = cs ≡ []
Owned (returns (chats sock)) cs = Balanced [] cs (socket_handles (some sock))
Owned undefined cs = closed_handles cs ≡ opened_handles cs
Owned out_of_rounds cs = closed_handles cs ≡ opened_handles cs

or_leave-Owned :
    (o : Option Socket) (cs : List Call)
    → Balanced [] cs (socket_handles o)
    → Owned (returns (or_leave o)) cs
or_leave-Owned none cs h = Balanced-ends cs h
or_leave-Owned (some sock) cs h = h

module _ (os : Os) where
  server_mode-Owned :
      (uuid : Uuid) (sname : List ℕ) (w : os.World)
      → let r = server_mode os uuid sname w in Owned r.value r.calls
  unfolding server_mode
  server_mode-Owned uuid sname w =
      let l = listen_with_sdp os default_provider new_server uuid sname 0 default_backlog w in
      let (s, result) = listen_with_sdp_lem os default_provider uuid sname 0 default_backlog w in
      elim result [
        | inl (failed, idle, shut) ↦
            let c = close_server os (some s) l.world in
            let (none_opened, none_closed) = close_server-handles os s l.world in
            let balanced : Balanced [] l.calls [] = rw shut (sym (append-nil _)) in
            rw (failed, append-nil c.calls)
              (Balanced-ends (l.calls ++ c.calls) (
                Balanced-append [] [] [] l.calls c.calls balanced
                  (rw (none_opened, none_closed, idle) refl)))
        | inr (listening, one, valid, none_yet, _) ↦
            let a = accept os (some s) l.world in
            let c = close_server os (some s) a.world in
            let (came, kept) = accept-handles os (some s) l.world in
            let (none_opened, shut) = close_server-handles os s a.world in
            let ready : Balanced [] l.calls (if_valid s.listen_fd) =
              rw (valid, none_yet, one) refl in
            rw (listening, append-nil c.calls)
              (or_leave-Owned a.value (l.calls ++ (a.calls ++ c.calls)) (
                Balanced-append [] _ _ l.calls (a.calls ++ c.calls) ready (
                  Balanced-append _ (if_valid s.listen_fd ++ socket_handles a.value) _ a.calls
                    c.calls (opens_behind (if_valid s.listen_fd) _ a.calls came kept)
                    (closes_front (if_valid s.listen_fd) _ c.calls none_opened shut))))
      ]

  or_fail-Owned :
      (o : Outcome (Option Socket)) (cs : List Call) (w : os.World)
      → Balanced [] cs (outcome_handles o)
      → let r = or_fail os o w in Owned r.value (cs ++ r.calls)
  or_fail-Owned (returns sock) cs w h = rw (append-nil cs) (or_leave-Owned sock cs h)
  or_fail-Owned undefined cs w h = rw (append-nil cs) (Balanced-ends cs h)
  or_fail-Owned out_of_rounds cs w h = rw (append-nil cs) (Balanced-ends cs h)

  client_mode-Owned :
      (uuid : Uuid) (target : Parsed Address) (w : os.World)
      → let r = client_mode os uuid target w in Owned r.value r.calls
  unfolding client_mode
  client_mode-Owned uuid (invalid_argument _) w = refl
  client_mode-Owned uuid (parsed_as target) w =
      let c = connect_by_sdp os target uuid default_timeout w in
      or_fail-Owned c.value c.calls c.world
        (connect_by_sdp-Balanced os target uuid default_timeout w)

  client_args-Owned :
      (uuid : Uuid) (args : List (List ℕ)) (w : os.World)
      → let r = client_args os uuid args w in Owned r.value r.calls
  client_args-Owned uuid [] w = refl
  client_args-Owned uuid (target ∷ _) w = client_mode-Owned uuid (Addresses.parse target) w

  run_mode-Owned :
      (uuid : Uuid) (mode : List ℕ) (args : List (List ℕ)) (w : os.World)
      → let r = run_mode os uuid mode args w in Owned r.value r.calls
  unfolding run_mode
  run_mode-Owned uuid mode args w = elim (Bool-cases (same_text mode (codes "server"))) [
    | inl server ↦ rw server (server_mode-Owned uuid (name_among args) w)
    | inr other ↦ elim (Bool-cases (same_text mode (codes "client"))) [
      | inl client ↦ rw (other, client) (client_args-Owned uuid args w)
      | inr neither ↦ rw (other, neither) refl
    ]
  ]

  with_uuid-Owned :
      (uuid : Parsed Uuid) (mode : List ℕ) (args : List (List ℕ)) (w : os.World)
      → let r = with_uuid os uuid mode args w in Owned r.value r.calls
  unfolding with_uuid
  with_uuid-Owned (parsed_as uuid) mode args w = run_mode-Owned uuid mode args w
  with_uuid-Owned (invalid_argument _) mode args w = refl

  -- Whatever the arguments, the system and the SDP server do: where the chat starts its threads,
  -- the descriptor of the socket that they share is the only one that is open, in the mode of the
  -- server, whose listening descriptor has been closed, and of the client. Where the program ends
  -- before, what was opened has been closed, and an exception that nothing catches comes before the
  -- first system call.
  pub chat_set_up :
      (args : List (List ℕ)) (w : os.World) → let r = set_up os args w in Owned r.value r.calls
  unfolding set_up
  chat_set_up [] w = refl
  chat_set_up (mode ∷ args) w = with_uuid-Owned (Uuids.parse chat_uuid) mode args w
