-- ===== src/ClientBench.antt =====
-- The transfer of examples/client_bench.cpp: the pattern and the loop over the chunks, without the
-- console output, the clock and the statistics.
pub mod Args
pub mod Ends
pub mod Transfer
pub mod Main
use simple_rfcomm.Prelude.{
  ℕ, zero, suc, ◌+◌, ◌-◌, ◌*◌, ◌%◌, Bool, true, false, List, [], ◌∷◌, ◌++◌, take, drop, replicate,
  length, min, ltb, if◌then◌else◌,
}
use simple_rfcomm.Os.{
  Os, Action, Outcome, returns, undefined, out_of_rounds, pure, ◌>>=◌, sys_allocate,
}
use simple_rfcomm.Socket.{Socket, send_all, recv_all}
use simple_rfcomm.Serial.{size_mod}

-- How the loop ended, with its count.
pub data Ending : Type 0 where
  complete : Ending
  send_failed : Ending
  recv_failed : Ending

pub record Transferred : Type 0 where
  pub total_sent : ℕ
  pub ending : Ending

-- static_cast<uint8_t>((i * 73 + 19) & 0xFF)
abbrev pub pattern_byte : ℕ → ℕ
pattern_byte i = (i * 73 + 19) % size_mod % 256

-- `n` bytes of the pattern, from the index `i` on.
unfoldable pub fill_pattern : ℕ → ℕ → List ℕ
fill_pattern zero i = []
fill_pattern (suc n) i = pattern_byte i ∷ fill_pattern n (i + 1)

-- What a chunk in echo mode leaves: whether it was answered, and the receive buffer.
abbrev pub Answered : Type 0
Answered = Outcome Bool × List ℕ

-- chunk_kb * 1024
abbrev pub chunk_size : ℕ → ℕ
chunk_size chunk_kb = chunk_kb * 1024 % size_mod

module _ (os : Os) where
  -- A vector of `n` bytes, or false where it throws; one of no bytes allocates nothing.
  unfoldable pub new_buffer : ℕ → Action os.World Bool
  new_buffer zero = pure true
  new_buffer (suc n) = sys_allocate os (suc n)

  -- The vectors for both directions, the second one in echo mode only.
  unfoldable pub make_buffers : Bool → ℕ → Action os.World Bool
  make_buffers echo_mode chunk_bytes = do
    made ← new_buffer chunk_bytes
    if made then (if echo_mode then new_buffer chunk_bytes else pure true) else pure false

  -- The answer to a chunk, into the front of the receive buffer, in echo mode only.
  unfoldable pub await_echo : Bool → Socket → List ℕ → ℕ → Action os.World Answered
  await_echo false sock rx_buffer current = pure (returns true, rx_buffer)
  await_echo true sock rx_buffer current = do
    (ok, front) ← recv_all os sock (take current rx_buffer)
    pure (ok, front ++ drop current rx_buffer)

  -- A step that may fail, which ends the loop.
  abbrev pub or_end :
      Outcome Bool
      → Transferred
      → Action os.World (Outcome Transferred)
      → Action os.World (Outcome Transferred)
  or_end (returns true) failed rest = rest
  or_end (returns false) failed rest = pure (returns failed)
  or_end undefined failed rest = pure undefined
  or_end out_of_rounds failed rest = pure out_of_rounds

  -- The loop over the chunks, with the rounds that it may still make.
  unfoldable pub chunk_loop :
      ℕ → Bool → Socket → List ℕ → List ℕ → ℕ → ℕ → Action os.World (Outcome Transferred)
  chunk_loop zero echo_mode sock tx_buffer rx_buffer total_bytes total_sent = pure out_of_rounds
  chunk_loop (suc rounds) echo_mode sock tx_buffer rx_buffer total_bytes total_sent =
      let current = min (length tx_buffer) (total_bytes - total_sent) in
      let total' = total_sent + current in
      if ltb total_sent total_bytes
      then (do
        sent_all ← send_all os sock (take current tx_buffer)
        or_end sent_all (record { total_sent = total_sent; ending = send_failed })
            (do
              (ok, rx_buffer') ← await_echo echo_mode sock rx_buffer current
              or_end ok (record { total_sent = total'; ending = recv_failed })
                  (chunk_loop rounds echo_mode sock tx_buffer rx_buffer' total_bytes total')))
      else pure (returns (record { total_sent = total_sent; ending = complete }))

  -- What the buffers hold once `make_buffers` has made them, and the loop; `chunk_bytes` is the size of
  -- a chunk, and `total_bytes` the size of the transfer.
  unfoldable pub transfer : ℕ → Bool → Socket → ℕ → ℕ → Action os.World (Outcome Transferred)
  transfer rounds echo_mode sock chunk_kb total_bytes =
      let chunk_bytes = chunk_size chunk_kb in
      let rx_buffer = if echo_mode then replicate chunk_bytes 0 else [] in
      chunk_loop rounds echo_mode sock (fill_pattern chunk_bytes 0) rx_buffer total_bytes 0
