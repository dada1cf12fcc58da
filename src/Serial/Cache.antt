-- ===== src/Serial/Cache.antt =====
-- The receive cache of src/serial_port.cpp and the read operations over it.
use simple_rfcomm.Prelude.{
  ℕ, zero, suc, ◌+◌, ◌-◌, ◌*◌, ◌%◌, ◌^◌, Option, none, some, Bool, true, false, not, ◌||◌, List, [],
  ◌∷◌, ◌++◌, length, take, drop, get_or, replicate, overwrite, ltb, leb, ◌==◌, min, if◌then◌else◌,
}
use simple_rfcomm.Prelude.Int.{ℤ, is_positive, to_size}
use simple_rfcomm.Os.{Os, Action, Outcome, returns, out_of_rounds, pure, ◌>>=◌, sys_now}
use simple_rfcomm.Socket.{is_empty, recv}
use simple_rfcomm.Serial.Types.{SerialImpl, SerialPort, socket_of, impl_is_open, port_is_open}

abbrev pub size_mod : ℕ
size_mod = 2 ^ 64

-- The size of the temporary buffer, kept shut so that no proof writes the buffer out.
unfoldable pub chunk_size : ℕ
chunk_size = 4096

unfoldable pub clear_rx_cache : SerialImpl → SerialImpl
clear_rx_cache p = record p { rx_buf = []; rx_head = 0 }

-- A difference of two `size_t`.
unfoldable pub cached_bytes_available : SerialImpl → ℕ
cached_bytes_available p = (length p.rx_buf + size_mod - p.rx_head) % size_mod

-- The character at the head of the cache, which moves on.
abbrev pub next_cached : SerialImpl → ℕ × SerialImpl
next_cached p = (get_or p.rx_buf p.rx_head 0, record p { rx_head = p.rx_head + 1 })

-- The compaction and the insertion behind a successful receive of `r` bytes into `chunk`.
unfoldable pub append_chunk : SerialImpl → List ℕ → ℕ → SerialImpl
append_chunk p chunk r =
    let p' =
      if ltb 0 p.rx_head then record p { rx_buf = drop p.rx_head p.rx_buf; rx_head = 0 } else p in
    record p' { rx_buf = p'.rx_buf ++ take r chunk }

-- What one call of `read` leaves: the count, the buffer and the port.
pub record ReadResult : Type 0 where
  pub count : ℕ
  pub buffer : List ℕ
  pub port : SerialPort

-- The inner loop of `read_line`: whether the delimiter was found, the line and the port.
pub record Drained : Type 0 where
  pub found : Bool
  pub line : List ℕ
  pub impl : SerialImpl

-- A carriage return at the end is dropped.
unfoldable pub strip_cr : List ℕ → List ℕ
strip_cr [] = []
strip_cr (c ∷ []) = if c == 13 then [] else c ∷ []
strip_cr (c ∷ d ∷ cs) = c ∷ strip_cr (d ∷ cs)

-- Each round takes a cached byte, so as many rounds as bytes end the loop by its test.
unfoldable pub drain_line : ℕ → ℕ → SerialImpl → List ℕ → Drained
drain_line zero delimiter p line = record { found = false; line = line; impl = p }
drain_line (suc rounds) delimiter p line =
    if ltb 0 (cached_bytes_available p)
    then (let (c, p') = next_cached p in
        let rest = drain_line rounds delimiter p' (line ++ c ∷ []) in
        if c == delimiter then record { found = true; line = strip_cr line; impl = p' } else rest)
    else record { found = false; line = line; impl = p }

-- `now - start >= timeout`, in nanoseconds and milliseconds.
abbrev pub has_passed : ℕ → ℕ → ℤ → Bool
has_passed start now timeout = leb (start + to_size timeout * 1000000) now

-- Reset buffer if exhausted.
unfoldable pub reset_if_exhausted : SerialImpl → SerialImpl
reset_if_exhausted p = if leb (length p.rx_buf) p.rx_head then clear_rx_cache p else p

-- The code of `read_byte` behind the refill.
unfoldable pub take_byte : SerialImpl → Option ℕ × SerialPort
take_byte p =
    if ltb 0 (cached_bytes_available p)
    then (let (c, p') = next_cached p in (some c, some p'))
    else (none, some p)

module _ (os : Os) where
  unfoldable pub refill_rx_cache : SerialImpl → Action os.World (Bool × SerialImpl)
  refill_rx_cache p = if not (impl_is_open p) then pure (false, p) else do
    let p' = reset_if_exhausted p
    (r, chunk) ← recv os (socket_of p') (replicate chunk_size 0)
    pure (if is_positive r then (true, append_chunk p' chunk (to_size r)) else (false, p'))

  -- Step 2 of `read`: the rest comes from the socket, straight into the buffer.
  unfoldable pub read_rest : SerialImpl → List ℕ → ℕ → Action os.World ReadResult
  read_rest p buffer copied = do
    (r, remaining) ← recv os (socket_of p) (drop copied buffer)
    pure (record {
      count = if is_positive r then copied + to_size r else copied;
      buffer = take copied buffer ++ remaining;
      port = some p;
    })

  -- Step 1 of `read`: the cache is drained first.
  unfoldable pub read_impl : SerialImpl → List ℕ → Action os.World ReadResult
  read_impl p buffer =
      if ltb 0 (cached_bytes_available p)
      then (let to_copy = min (cached_bytes_available p) (length buffer) in
          let buffer' = overwrite (take to_copy (drop p.rx_head p.rx_buf)) buffer in
          let p' = record p { rx_head = p.rx_head + to_copy } in
          if to_copy == length buffer
          then pure (record { count = to_copy; buffer = buffer'; port = some p' })
          else read_rest p' buffer' to_copy)
      else read_rest p buffer 0

  unfoldable pub read : SerialPort → List ℕ → Action os.World ReadResult
  read none buffer = pure (record { count = 0; buffer = buffer; port = none })
  read (some p) buffer =
      if not (port_is_open (some p)) || is_empty buffer
      then pure (record { count = 0; buffer = buffer; port = some p })
      else read_impl p buffer

  unfoldable pub read_exact_rounds :
      ℕ → SerialPort → List ℕ → ℕ → Action os.World (Outcome Bool × List ℕ × SerialPort)
  read_exact_rounds zero port buffer total =
      pure (if ltb total (length buffer) then out_of_rounds else returns true, buffer, port)
  read_exact_rounds (suc rounds) port buffer total =
      if ltb total (length buffer)
      then (do
        r ← read port (drop total buffer)
        let buffer' = take total buffer ++ r.buffer
        if r.count == 0
            then pure (returns false, buffer', r.port)
            else read_exact_rounds rounds r.port buffer' (total + r.count))
      else pure (returns true, buffer, port)

  -- Every round reads a byte at least, so as many rounds as the buffer has bytes are enough.
  unfoldable pub read_exact :
      SerialPort → List ℕ → Action os.World (Outcome Bool × List ℕ × SerialPort)
  read_exact port buffer = read_exact_rounds (length buffer) port buffer 0

  unfoldable pub read_byte : SerialPort → Action os.World (Option ℕ × SerialPort)
  read_byte none = pure (none, none)
  read_byte (some p) =
      if not (port_is_open (some p))
      then pure (none, some p)
      else (if cached_bytes_available p == 0
          then (do
            (ok, p') ← refill_rx_cache p
            pure (if ok then take_byte p' else (none, some p')))
          else pure (take_byte p))

  -- Check timeout.
  abbrev pub late : ℤ → ℕ → Action os.World Bool
  late timeout start =
      if is_positive timeout
      then (sys_now os >>= λ now. pure (has_passed start now timeout))
      else pure false

  -- The outer loop of `read_line`, with the rounds that it may still make.
  unfoldable pub line_rounds :
      ℕ → ℕ → ℤ → ℕ → SerialImpl → List ℕ → Action os.World (Outcome (List ℕ) × SerialPort)
  line_rounds zero delimiter timeout start p line = pure (out_of_rounds, some p)
  line_rounds (suc rounds) delimiter timeout start p line =
      let d = drain_line (cached_bytes_available p) delimiter p line in
      if d.found then pure (returns d.line, some d.impl) else do
        passed ← late timeout start
        if passed then pure (returns d.line, some d.impl) else do
          (ok, p') ← refill_rx_cache d.impl
          if ok
              then line_rounds rounds delimiter timeout start p' d.line
              else pure (returns d.line, some p')

  unfoldable pub read_line :
      ℕ → SerialPort → ℕ → ℤ → Action os.World (Outcome (List ℕ) × SerialPort)
  read_line rounds none delimiter timeout = pure (returns [], none)
  read_line rounds (some p) delimiter timeout =
      if not (port_is_open (some p))
      then pure (returns [], some p)
      else do start ← sys_now os; line_rounds rounds delimiter timeout start p []
