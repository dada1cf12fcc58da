-- ===== src/ServerBench/Accepts.antt =====
-- The loop over the clients: which descriptors it opens and closes.
use simple_rfcomm.Prelude.{
  ℕ, zero, suc, refl, inl, inr, some, Bool, true, false, List, [], ◌++◌, append-nil, replicate,
  Option-cases, arith, length, ◌≤◌,
}
use simple_rfcomm.Prelude.Int.{ℤ}
use simple_rfcomm.Os.{Os, Action, Run, Outcome, returns, undefined, out_of_rounds}
use simple_rfcomm.Os.Ledger.{Balanced, Balanced-append, IsQuiet, quiet_rules}
use simple_rfcomm.Socket.{Socket, destroy}
use simple_rfcomm.Socket.Quiet.{send_all-IsQuiet, recv-IsQuiet}
use simple_rfcomm.Server.{Server, accept}
use simple_rfcomm.Serial.Life.{socket_handles, destroy-Balanced, at_most_one}
use simple_rfcomm.Server.Accept.{accept-handles}
use simple_rfcomm.ServerBench.{
  SessionResult, unless_failed, next_client, echo_back, receive_loop, session, accept_loop,
  bench_buffer_size,
}

-- How many descriptors a loop may still hold.
abbrev pub still_open : Outcome (Unit {0}) → ℕ
still_open (returns _) = 0
still_open undefined = 1
still_open out_of_rounds = 1

module _ (os : Os) where
  unless_failed-IsQuiet :
      (ok : Outcome Bool) (total : ℕ) (rest : Action os.World (Outcome SessionResult))
      → IsQuiet rest
      → IsQuiet (unless_failed os ok total rest)
  unless_failed-IsQuiet (returns true) total rest h = h
  unless_failed-IsQuiet (returns false) total rest h = search quiet_rules
  unless_failed-IsQuiet undefined total rest h = search quiet_rules
  unless_failed-IsQuiet out_of_rounds total rest h = search quiet_rules

  echo_back-IsQuiet :
      (echo_mode : Bool) (sock : Socket) (bytes : List ℕ)
      → IsQuiet (echo_back os echo_mode sock bytes)
  unfolding echo_back
  echo_back-IsQuiet echo_mode sock bytes = search (quiet_rules, send_all-IsQuiet)

  receive_loop-IsQuiet :
      (rounds : ℕ) (echo_mode : Bool) (sock : Socket) (buffer : List ℕ) (total : ℕ)
      → IsQuiet (receive_loop os rounds echo_mode sock buffer total)
  unfolding receive_loop
  receive_loop-IsQuiet zero echo_mode sock buffer total = search quiet_rules
  receive_loop-IsQuiet (suc rounds) echo_mode sock buffer total = search (
    quiet_rules,
    recv-IsQuiet,
    echo_back-IsQuiet,
    unless_failed-IsQuiet,
    receive_loop-IsQuiet rounds,
  )

  session-IsQuiet :
      (rounds : ℕ) (echo_mode : Bool) (sock : Socket) → IsQuiet (session os rounds echo_mode sock)
  unfolding session
  session-IsQuiet rounds echo_mode sock =
      receive_loop-IsQuiet rounds echo_mode sock (replicate bench_buffer_size 0) 0

  accept-Balanced :
      (server : Server) (w : os.World)
      → let r = accept os server w in Balanced [] r.calls (socket_handles r.value)
  accept-Balanced server w = let (o, c) = accept-handles os server w in rw (o, c) refl

  -- What a loop holds when it ends or is cut off.
  abbrev Holds : List ℤ → Run os.World (Outcome (Unit {0})) → Type 0
  Holds before r =
      (held : List ℤ) × Balanced before r.calls held × (length held ≤ still_open r.value)

  next_client-Holds :
      (o : Outcome SessionResult) (sock : Socket) (rest : Action os.World (Outcome (Unit {0})))
      (w : os.World)
      → ((w' : os.World) → Holds [] (rest w'))
      → Holds (socket_handles (some sock)) (next_client os o sock rest w)
  next_client-Holds (returns _) sock rest w later =
      let d = destroy os sock w in
      let (held, balanced, few) = later d.world in
      (
        held,
        Balanced-append (socket_handles (some sock)) [] held d.calls (rest d.world).calls
            (destroy-Balanced os sock w) balanced,
        few,
      )
  next_client-Holds undefined sock rest w later =
      (socket_handles (some sock), append-nil _, at_most_one sock)
  next_client-Holds out_of_rounds sock rest w later =
      (socket_handles (some sock), append-nil _, at_most_one sock)

  -- Whatever the system answers and however many rounds the loops are given: of the descriptors
  -- that the accept loop has accepted, in their order, all are closed, each once and in that order,
  -- but the last one at most, and that one too where the loop has ended.
  pub accepts_ledger :
      (clients rounds : ℕ) (echo_mode : Bool) (server : Server) (w : os.World)
      → let r = accept_loop os clients rounds echo_mode server w in
        (held : List ℤ) × Balanced [] r.calls held × (length held ≤ still_open r.value)
  unfolding accept_loop
  accepts_ledger zero rounds echo_mode server w = ([], refl, omega arith)
  accepts_ledger (suc clients) rounds echo_mode server w =
      let a = accept os server w in
      let opens = accept-Balanced server w in
      elim (Option-cases a.value) [
        | inl stopped ↦ rw (stopped, append-nil a.calls) ([], rw stopped at opens, omega arith)
        | inr (sock, came) ↦
            let s = session os rounds echo_mode sock a.world in
            let rest = accept_loop os clients rounds echo_mode server in
            let n = next_client os s.value sock rest s.world in
            let quiet = session-IsQuiet rounds echo_mode sock in
            let (held, balanced, few) =
              next_client-Holds s.value sock rest s.world
                (accepts_ledger clients rounds echo_mode server) in
            let served : Balanced (socket_handles (some sock)) s.calls
                (socket_handles (some sock)) =
              rw (quiet.none_opened a.world, quiet.none_closed a.world) (append-nil _) in
            rw came (
              held,
              Balanced-append [] (socket_handles (some sock)) held a.calls (s.calls ++ n.calls)
                  (rw came at opens)
                  (Balanced-append (socket_handles (some sock)) (socket_handles (some sock)) held
                    s.calls n.calls served balanced),
              rw (came, still_open) few,
            )
      ]
