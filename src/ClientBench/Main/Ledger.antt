-- ===== src/ClientBench/Main/Ledger.antt =====
-- The benchmark client from its start to its end: which descriptors it opens and closes.
use simple_rfcomm.Prelude.{
  ℕ, zero, suc, ◌≤◌, ◌≡◌, ◌⊎◌, ap, sym, ◌∙◌, length, refl, inl, inr, append-nil, append_assoc,
  Option, none, some, Bool, true, false, List, [], ◌∷◌, ◌++◌, arith, Bool-cases,
}
use simple_rfcomm.Prelude.Int.{ℤ, is_positive}
use simple_rfcomm.Command.{Exit, exits, uncaught, to_uint8}
use simple_rfcomm.Command.Ends.{Balanced-ends}
use simple_rfcomm.Address.{Address, Parsed, parsed_as, invalid_argument}
use simple_rfcomm.Address as Addresses
use simple_rfcomm.Uuid.{Uuid}
use simple_rfcomm.Uuid as Uuids
use simple_rfcomm.Os.{Os, Action, Call, allocated, Outcome, returns, undefined, out_of_rounds}
use simple_rfcomm.Os.Traffic.{opened_handles, closed_handles}
use simple_rfcomm.Os.Ledger.{Balanced, Balanced-append, IsQuiet, quiet_rules}
use simple_rfcomm.Socket.{Socket, close, destroy}
use simple_rfcomm.Socket.Quiet.{send_all-IsQuiet, recv_all-IsQuiet}
use simple_rfcomm.Client.{connect}
use simple_rfcomm.Serial.Life.{socket_handles, release-handles, at_most_one}
use simple_rfcomm.Serial.Ledger.{connect-Balanced, connect_by_sdp-Balanced, outcome_handles}
use simple_rfcomm.ClientBench.{
  Transferred, chunk_size, new_buffer, make_buffers, await_echo, or_end, chunk_loop, transfer,
}
use simple_rfcomm.ClientBench.Args.{Numerals, Options, default_options, parse_args}
use simple_rfcomm.ClientBench.Main.{
  default_timeout, behind_transfer, run_transfer, with_socket, connect_target, with_target,
  with_options, main,
}

-- One descriptor at most is open.
abbrev pub StillHolds : List Call → Type 0
StillHolds cs = (held : List ℤ) × Balanced [] cs held × (length held ≤ 1)

-- The last call asked for a vector, which was refused.
abbrev pub EndsRefused : List Call → Type 0
EndsRefused cs = (before : List Call) × (n : ℕ) × (cs ≡ before ++ allocated n false ∷ [])

-- What is open, by how the program has ended.
abbrev pub ClientLeaves : Outcome Exit → List Call → Type 0
ClientLeaves (returns (exits status)) cs = closed_handles cs ≡ opened_handles cs
ClientLeaves (returns uncaught) cs = (cs ≡ []) ⊎ (EndsRefused cs × StillHolds cs)
ClientLeaves undefined cs = StillHolds cs
ClientLeaves out_of_rounds cs = StillHolds cs

EndsRefused-append : (cs ds : List Call) → EndsRefused ds → EndsRefused (cs ++ ds)
EndsRefused-append cs ds (before, n, e) =
    (cs ++ before, n, ap (◌++◌ cs) e ∙ sym (append_assoc cs before (allocated n false ∷ [])))

module _ (os : Os) where
  new_buffer-IsQuiet : (n : ℕ) → IsQuiet (new_buffer os n)
  unfolding new_buffer
  new_buffer-IsQuiet zero = search quiet_rules
  new_buffer-IsQuiet (suc n) = record { none_opened = λ w. refl; none_closed = λ w. refl }

  make_buffers-IsQuiet :
      (echo_mode : Bool) (chunk_bytes : ℕ) → IsQuiet (make_buffers os echo_mode chunk_bytes)
  unfolding make_buffers
  make_buffers-IsQuiet echo_mode chunk_bytes = search (quiet_rules, new_buffer-IsQuiet)

  new_buffer-EndsRefused :
      (n : ℕ) (w : os.World)
      → (new_buffer os n w).value ≡ false
      → EndsRefused (new_buffer os n w).calls
  unfolding new_buffer
  new_buffer-EndsRefused zero w h = absurd (ground (arith, h))
  new_buffer-EndsRefused (suc n) w h = ([], suc n, rw h refl)

  make_buffers-EndsRefused :
      (echo_mode : Bool) (n : ℕ) (w : os.World)
      → (make_buffers os echo_mode n w).value ≡ false
      → EndsRefused (make_buffers os echo_mode n w).calls
  unfolding make_buffers
  make_buffers-EndsRefused echo_mode n w h = elim (Bool-cases (new_buffer os n w).value) [
    | inr refused ↦
        rw (refused, append-nil (new_buffer os n w).calls) (new_buffer-EndsRefused n w refused)
    | inl made ↦ elim (Bool-cases echo_mode) [
      | inr one_way ↦ absurd (ground (arith, h, made, one_way))
      | inl echoing ↦
          let b = new_buffer os n w in
          rw (made, echoing)
            (EndsRefused-append b.calls _
              (new_buffer-EndsRefused n b.world (rw (made, echoing) at h)))
    ]
  ]

  or_end-IsQuiet :
      (ok : Outcome Bool) (failed : Transferred) (rest : Action os.World (Outcome Transferred))
      → IsQuiet rest
      → IsQuiet (or_end os ok failed rest)
  or_end-IsQuiet (returns true) failed rest h = h
  or_end-IsQuiet (returns false) failed rest h = search quiet_rules
  or_end-IsQuiet undefined failed rest h = search quiet_rules
  or_end-IsQuiet out_of_rounds failed rest h = search quiet_rules

  await_echo-IsQuiet :
      (echo_mode : Bool) (sock : Socket) (rx_buffer : List ℕ) (current : ℕ)
      → IsQuiet (await_echo os echo_mode sock rx_buffer current)
  unfolding await_echo
  await_echo-IsQuiet true sock rx_buffer current = search (quiet_rules, recv_all-IsQuiet)
  await_echo-IsQuiet false sock rx_buffer current = search quiet_rules

  chunk_loop-IsQuiet :
      (rounds : ℕ) (echo_mode : Bool) (sock : Socket) (tx_buffer rx_buffer : List ℕ)
      (total_bytes total_sent : ℕ)
      → IsQuiet (chunk_loop os rounds echo_mode sock tx_buffer rx_buffer total_bytes total_sent)
  unfolding chunk_loop
  chunk_loop-IsQuiet zero echo_mode sock tx rx total before = search quiet_rules
  chunk_loop-IsQuiet (suc rounds) echo_mode sock tx rx total before =
      search
        (
          quiet_rules,
          send_all-IsQuiet,
          await_echo-IsQuiet,
          or_end-IsQuiet,
          chunk_loop-IsQuiet rounds,
        )
        depth 9

  transfer-IsQuiet :
      (rounds : ℕ) (echo_mode : Bool) (sock : Socket) (chunk_kb total_bytes : ℕ)
      → IsQuiet (transfer os rounds echo_mode sock chunk_kb total_bytes)
  unfolding transfer
  transfer-IsQuiet rounds echo_mode sock chunk_kb total_bytes =
      chunk_loop-IsQuiet rounds echo_mode sock _ _ total_bytes 0

module _ (os : Os) (n : Numerals) where
  behind_transfer-Leaves :
      (o : Outcome Transferred) (sock : Socket) (cs : List Call) (w : os.World)
      → Balanced [] cs (socket_handles (some sock))
      → let r = behind_transfer os n o sock w in ClientLeaves r.value (cs ++ r.calls)
  behind_transfer-Leaves (returns _) sock cs w owned =
      let c = close os sock w in
      let d = destroy os c.value c.world in
      let (o, shut) = release-handles os sock w in
      let ends : Balanced [] (cs ++ (c.calls ++ d.calls)) [] =
        Balanced-append [] _ [] cs _ owned (rw (o, shut) refl) in
      rw (append-nil d.calls) (Balanced-ends (cs ++ (c.calls ++ d.calls)) ends)
  behind_transfer-Leaves undefined sock cs w owned =
      (socket_handles (some sock), rw (append-nil cs) owned, at_most_one sock)
  behind_transfer-Leaves out_of_rounds sock cs w owned =
      (socket_handles (some sock), rw (append-nil cs) owned, at_most_one sock)

  run_transfer-Leaves :
      (rounds : ℕ) (o : Options n.Double) (size : Option ℕ) (sock : Socket) (cs : List Call)
      (w : os.World)
      → Balanced [] cs (socket_handles (some sock))
      → let r = run_transfer os n rounds o size sock w in ClientLeaves r.value (cs ++ r.calls)
  run_transfer-Leaves rounds o none sock cs w owned =
      (socket_handles (some sock), rw (append-nil cs) owned, at_most_one sock)
  run_transfer-Leaves rounds o (some total) sock cs w owned =
      let m = make_buffers os o.echo_mode (chunk_size o.chunk_kb) w in
      let room = make_buffers-IsQuiet os o.echo_mode (chunk_size o.chunk_kb) in
      let made : Balanced [] (cs ++ m.calls) (socket_handles (some sock)) =
        Balanced-append [] _ _ cs m.calls owned
          (rw (room.none_opened w, room.none_closed w) (append-nil _)) in
      elim (Bool-cases m.value) [
        | inr refused ↦
            rw (refused, append-nil m.calls)
              (inr (
                EndsRefused-append cs m.calls
                    (make_buffers-EndsRefused os o.echo_mode (chunk_size o.chunk_kb) w refused),
                (socket_handles (some sock), made, at_most_one sock),
              ))
        | inl granted ↦
            let t = transfer os rounds o.echo_mode sock o.chunk_kb total m.world in
            let b = behind_transfer os n t.value sock t.world in
            let quiet = transfer-IsQuiet os rounds o.echo_mode sock o.chunk_kb total in
            let still : Balanced [] ((cs ++ m.calls) ++ t.calls) (socket_handles (some sock)) =
              Balanced-append [] _ _ (cs ++ m.calls) t.calls made
                (rw (quiet.none_opened m.world, quiet.none_closed m.world) (append-nil _)) in
            rw
              (
                granted,
                ← append_assoc cs m.calls (t.calls ++ b.calls),
                ← append_assoc (cs ++ m.calls) t.calls b.calls,
              )
              (behind_transfer-Leaves t.value sock ((cs ++ m.calls) ++ t.calls) t.world still)
      ]

  with_socket-Leaves :
      (rounds : ℕ) (o : Options n.Double) (sock : Outcome (Option Socket)) (cs : List Call)
      (w : os.World)
      → Balanced [] cs (outcome_handles sock)
      → let r = with_socket os n rounds o sock w in ClientLeaves r.value (cs ++ r.calls)
  with_socket-Leaves rounds o (returns (some sock)) cs w owned =
      run_transfer-Leaves rounds o (n.bytes_of o.size_mb) sock cs w owned
  with_socket-Leaves rounds o (returns none) cs w owned =
      rw (append-nil cs) (Balanced-ends cs owned)
  with_socket-Leaves rounds o undefined cs w owned = ([], rw (append-nil cs) owned, omega arith)
  with_socket-Leaves rounds o out_of_rounds cs w owned = ([], rw (append-nil cs) owned, omega arith)

  connect_target-Balanced :
      (ch : ℤ) (target : Address) (uuid : Uuid) (w : os.World)
      → let r = connect_target os n ch target uuid w in
        Balanced [] r.calls (outcome_handles r.value)
  unfolding connect_target
  connect_target-Balanced ch target uuid w = elim (Bool-cases (is_positive ch)) [
    | inl direct ↦
        let r = connect os target (to_uint8 ch) default_timeout w in
        rw (direct, append-nil r.calls) (connect-Balanced os target (to_uint8 ch) default_timeout w)
    | inr searched ↦ rw searched (connect_by_sdp-Balanced os target uuid default_timeout w)
  ]

  with_target-Leaves :
      (rounds : ℕ) (o : Options n.Double) (target : Parsed Address) (uuid : Parsed Uuid)
      (w : os.World)
      → let r = with_target os n rounds o target uuid w in ClientLeaves r.value r.calls
  unfolding with_target
  with_target-Leaves rounds o (parsed_as target) (parsed_as uuid) w =
      let c = connect_target os n o.direct_channel target uuid w in
      with_socket-Leaves rounds o c.value c.calls c.world
        (connect_target-Balanced o.direct_channel target uuid w)
  with_target-Leaves rounds o (parsed_as target) (invalid_argument _) w = inl refl
  with_target-Leaves rounds o (invalid_argument _) uuid w = inl refl

  with_options-Leaves :
      (rounds : ℕ) (target_str : List ℕ) (o : Option (Options n.Double)) (w : os.World)
      → let r = with_options os n rounds target_str o w in ClientLeaves r.value r.calls
  unfolding with_options
  with_options-Leaves rounds target_str none w = inl refl
  with_options-Leaves rounds target_str (some o) w =
      with_target-Leaves rounds o (Addresses.parse target_str) (Uuids.parse o.uuid_str) w

  -- Whatever the arguments, the conversions, the system, the allocator and the peer do: where the
  -- benchmark client returns a status, what it has opened has been closed, each descriptor once and in
  -- its order. An exception that nothing catches comes before the first system call, or at once behind
  -- a buffer that was refused, with one descriptor open at most. Where its behaviour is undefined or
  -- the transfer is cut off, one descriptor at most is open.
  pub client_main_closes :
      (rounds : ℕ) (args : List (List ℕ)) (w : os.World)
      → let r = main os n rounds args w in ClientLeaves r.value r.calls
  unfolding main
  client_main_closes rounds [] w = refl
  client_main_closes rounds (target_str ∷ args) w =
      with_options-Leaves rounds target_str (parse_args n (default_options n) args) w
