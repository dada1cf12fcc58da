-- ===== src/ServerBench.antt =====
-- The benchmark server of examples/server_bench.cpp: the accept loop and a client's session, without
-- the console output and the clock that is only printed.
pub mod Args
pub mod Ends
pub mod Session
pub mod Accepts
pub mod Main
use simple_rfcomm.Prelude.{
  ℕ, zero, suc, ◌+◌, ◌*◌, ◌%◌, Option, none, some, Bool, true, false, List, replicate, take,
  if◌then◌else◌,
}
use simple_rfcomm.Prelude.Int.{is_positive, to_size}
use simple_rfcomm.Os.{Os, Action, Outcome, returns, undefined, out_of_rounds, pure, ◌>>=◌, ◌>>◌}
use simple_rfcomm.Socket.{Socket, send_all, recv, destroy}
use simple_rfcomm.Server.{Server, accept}
use simple_rfcomm.Serial.{size_mod}

-- What a session has counted, and whether it has reported that an echo failed.
pub record SessionResult : Type 0 where
  pub total_bytes : ℕ
  pub echo_failed : Bool

-- The buffer's size, kept shut so that no proof writes the buffer out.
unfoldable pub bench_buffer_size : ℕ
bench_buffer_size = 32 * 1024

module _ (os : Os) where
  -- Whether the loop goes on behind the echo, which is sent in echo mode only.
  unfoldable pub echo_back : Bool → Socket → List ℕ → Action os.World (Outcome Bool)
  echo_back echo_mode sock bytes = if echo_mode then send_all os sock bytes else pure (returns true)

  -- if (!sock->send_all(…)) break;
  abbrev pub unless_failed :
      Outcome Bool
      → ℕ
      → Action os.World (Outcome SessionResult)
      → Action os.World (Outcome SessionResult)
  unless_failed (returns true) total rest = rest
  unless_failed (returns false) total rest =
      pure (returns (record { total_bytes = total; echo_failed = true }))
  unless_failed undefined total rest = pure undefined
  unless_failed out_of_rounds total rest = pure out_of_rounds

  -- The inner loop; a session ends at the end of the stream, an error or a failed echo.
  unfoldable pub receive_loop :
      ℕ → Bool → Socket → List ℕ → ℕ → Action os.World (Outcome SessionResult)
  receive_loop zero echo_mode sock buffer total = pure out_of_rounds
  receive_loop (suc rounds) echo_mode sock buffer total = do
    (r, buffer') ← recv os sock buffer
    let total' = (total + to_size r) % size_mod
    if is_positive r
        then (do
          ok ← echo_back echo_mode sock (take (to_size r) buffer')
          unless_failed ok total' (receive_loop rounds echo_mode sock buffer' total'))
        else pure (returns (record { total_bytes = total; echo_failed = false }))

  unfoldable pub session : ℕ → Bool → Socket → Action os.World (Outcome SessionResult)
  session rounds echo_mode sock =
      receive_loop rounds echo_mode sock (replicate bench_buffer_size 0) 0

  -- A socket is destroyed where its session ends.
  abbrev pub next_client :
      Outcome SessionResult
      → Socket
      → Action os.World (Outcome (Unit {0}))
      → Action os.World (Outcome (Unit {0}))
  next_client (returns _) sock rest = destroy os sock >> rest
  next_client undefined sock rest = pure undefined
  next_client out_of_rounds sock rest = pure out_of_rounds

  -- The loop over the clients.
  unfoldable pub accept_loop : ℕ → ℕ → Bool → Server → Action os.World (Outcome (Unit {0}))
  accept_loop zero rounds echo_mode server = pure out_of_rounds
  accept_loop (suc clients) rounds echo_mode server = do
    accepted ← accept os server
    elim accepted [
      | none ↦ pure (returns tt)
      | some sock ↦ do
        result ← session rounds echo_mode sock
        next_client result sock (accept_loop clients rounds echo_mode server)
    ]
