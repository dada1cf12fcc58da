-- ===== src/Serial/SameSocket.antt =====
-- The reads and `purge`, and the socket of the port.
use simple_rfcomm.Prelude.{
  ℕ, zero, suc, ◌+◌, ◌≡◌, refl, inl, inr, ◌∙◌, List, [], ◌∷◌, ◌++◌, length, take, drop, Option,
  none, some, arith, Bool-cases,
}
use simple_rfcomm.Prelude.Int.{ℤ}
use simple_rfcomm.Os.{Os, returns}
use simple_rfcomm.Socket.{Socket}
use simple_rfcomm.Serial.Types.{SerialImpl, SerialPort}
use simple_rfcomm.Serial.Cache.{
  clear_rx_cache, reset_if_exhausted, append_chunk, refill_rx_cache, take_byte, read_rest,
  read_impl, read, read_exact_rounds, read_exact, read_byte, drain_line, line_rounds, late,
  read_line, cached_bytes_available, next_cached,
}
use simple_rfcomm.Serial.Port.{purge}

-- The socket that a port has.
abbrev pub port_sock : SerialPort → Option Socket
port_sock none = none
port_sock (some p) = p.sock

sock-drain_line :
    (rounds d : ℕ) (p : SerialImpl) (line : List ℕ)
    → (drain_line rounds d p line).impl.sock ≡ p.sock
unfolding drain_line
sock-drain_line zero d p line = refl
sock-drain_line (suc rounds) d p line =
    ground (arith, sock-drain_line rounds d (next_cached p).1 (line ++ (next_cached p).0 ∷ []))

sock-take_byte : (p : SerialImpl) → port_sock (take_byte p).1 ≡ p.sock
unfolding take_byte
sock-take_byte p = ground arith

module _ (os : Os) where
  sock-refill : (p : SerialImpl) (w : os.World) → (refill_rx_cache os p w).value.1.sock ≡ p.sock
  unfolding refill_rx_cache reset_if_exhausted clear_rx_cache append_chunk
  sock-refill p w = ground arith

  pub sock-read :
      (port : SerialPort) (buffer : List ℕ) (w : os.World)
      → port_sock (read os port buffer w).value.port ≡ port_sock port
  unfolding read read_impl read_rest
  sock-read none buffer w = refl
  sock-read (some p) buffer w = ground arith

  sock-read_exact_rounds :
      (rounds : ℕ) (port : SerialPort) (buffer : List ℕ) (total : ℕ) (w : os.World)
      → port_sock (read_exact_rounds os rounds port buffer total w).value.2 ≡ port_sock port
  unfolding read_exact_rounds
  sock-read_exact_rounds zero port buffer total w = refl
  sock-read_exact_rounds (suc rounds) port buffer total w =
      let r = read os port (drop total buffer) w in
      ground (
        arith,
        sock-read port (drop total buffer) w,
        sock-read_exact_rounds rounds r.value.port (take total buffer ++ r.value.buffer)
            (total + r.value.count) r.world,
      )

  pub sock-read_exact :
      (port : SerialPort) (buffer : List ℕ) (w : os.World)
      → port_sock (read_exact os port buffer w).value.2 ≡ port_sock port
  unfolding read_exact
  sock-read_exact port buffer w = sock-read_exact_rounds (length buffer) port buffer 0 w

  pub sock-read_byte :
      (port : SerialPort) (w : os.World) → port_sock (read_byte os port w).value.1 ≡ port_sock port
  unfolding read_byte
  sock-read_byte none w = refl
  sock-read_byte (some p) w =
      ground
        (arith, sock-refill p w, sock-take_byte p, sock-take_byte (refill_rx_cache os p w).value.1)

  sock-line_rounds :
      (rounds d : ℕ) (timeout : ℤ) (start : ℕ) (p : SerialImpl) (line : List ℕ) (w : os.World)
      → port_sock (line_rounds os rounds d timeout start p line w).value.1 ≡ p.sock
  unfolding line_rounds
  sock-line_rounds zero d timeout start p line w = refl
  sock-line_rounds (suc rounds) d timeout start p line w =
      let drained = drain_line (cached_bytes_available p) d p line in
      let same = sock-drain_line (cached_bytes_available p) d p line in
      elim (Bool-cases drained.found) [
        | inl found ↦ rw found same
        | inr missing ↦
            let l = late os timeout start w in
            elim (Bool-cases l.value) [
              | inl passed ↦ rw (missing, passed) same
              | inr waiting ↦
                  let r = refill_rx_cache os drained.impl l.world in
                  let same' = sock-refill drained.impl l.world ∙ same in
                  elim (Bool-cases r.value.0) [
                    | inr failed ↦ rw (missing, waiting, failed) same'
                    | inl refilled ↦
                        rw (missing, waiting, refilled)
                          (sock-line_rounds rounds d timeout start r.value.1 drained.line r.world
                            ∙ same')
                  ]
            ]
      ]

  pub sock-read_line :
      (rounds : ℕ) (port : SerialPort) (d : ℕ) (timeout : ℤ) (w : os.World)
      → port_sock (read_line os rounds port d timeout w).value.1 ≡ port_sock port
  unfolding read_line
  sock-read_line rounds none d timeout w = refl
  sock-read_line rounds (some p) d timeout w =
      ground (arith, sock-line_rounds rounds d timeout (os.do_now w).0 p [] (os.do_now w).1)

  pub sock-purge :
      (rounds : ℕ) (port port' : SerialPort) (flags : ℕ) (w : os.World)
      → (purge os rounds port flags w).value ≡ returns port'
      → port_sock port' ≡ port_sock port
  unfolding purge clear_rx_cache
  sock-purge rounds none port' flags w h = ground (arith, h)
  sock-purge rounds (some p) port' flags w h = ground (arith, h)
