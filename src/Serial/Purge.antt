-- ===== src/Serial/Purge.antt =====
-- `SerialPort::purge`: the rounds that the loop that drains the socket needs.
use simple_rfcomm.Prelude.{
  ℕ, zero, suc, ◌≤◌, ◌<◌, ◌≡◌, refl, inl, inr, Option, none, some, Bool, false, List, arith,
  Bool-cases, replicate, if◌then◌else◌,
}
use simple_rfcomm.Prelude.Int.{is_negative}
use simple_rfcomm.Os.{Os, returns}
use simple_rfcomm.Os.Traffic.{ReceivesWithin}
use simple_rfcomm.Socket.{Socket, recv, set_blocking, is_open, handle_of}
use simple_rfcomm.Socket.Receive.{recv-RecvResult}
use simple_rfcomm.Serial.Types.{SerialImpl, has_flag, purge_rx}
use simple_rfcomm.Serial.Cache.{clear_rx_cache, chunk_size}
use simple_rfcomm.Serial.Port.{drain_rounds, drain_socket, purge}
use simple_rfcomm.Serial.Line.{FinitePeer, recv-left}

le_trans : (a b c : ℕ) → a ≤ b → b ≤ c → a ≤ c
le_trans a b c h h' = omega (arith, h, h')

module _ (os : Os) (peer : FinitePeer os) (within : ReceivesWithin os) where
  drain_rounds-returns :
      (rounds : ℕ) (sock : Socket) (buffer : List ℕ) (w : os.World)
      → peer.left w < rounds
      → (drain_rounds os rounds sock buffer w).value ≡ returns tt
  unfolding drain_rounds
  drain_rounds-returns zero sock buffer w h = absurd (omega (arith, h))
  drain_rounds-returns (suc rounds) sock buffer w h =
      let r = recv os sock buffer w in
      elim (recv-RecvResult os sock buffer w within) [
        | inl (failed, _, _) ↦ rw failed refl
        | inr (k, value, count, fits, filled) ↦
            let less = recv-left os peer sock buffer w in
            rw value
              (drain_rounds-returns rounds sock r.value.1 r.world (omega (arith, h, less, count)))
      ]

  set_blocking-left :
      (sock : Socket) (blocking : Bool) (w : os.World)
      → peer.left (set_blocking os sock blocking w).world ≤ peer.left w
  unfolding set_blocking
  set_blocking-left sock blocking w = elim (Bool-cases (is_open sock)) [
    | inr closed ↦ rw closed (omega arith)
    | inl opened ↦
        let fd = handle_of sock in
        let read_flags = peer.getfl_left fd w in
        elim (Bool-cases (is_negative (os.do_getfl fd w).0)) [
          | inl failed ↦ rw (opened, failed) read_flags
          | inr flags ↦
              rw (opened, flags)
                (le_trans _ _ _ (peer.setfl_left fd _ (os.do_getfl fd w).1) read_flags)
        ]
  ]

  drain_socket-returns :
      (rounds : ℕ) (o : Option Socket) (w : os.World)
      → peer.left w < rounds
      → (drain_socket os rounds o w).value ≡ returns tt
  unfolding drain_socket
  drain_socket-returns rounds none w h = refl
  drain_socket-returns rounds (some sock) w h =
      let b = set_blocking os sock false w in
      let fewer = set_blocking-left sock false w in
      drain_rounds-returns rounds sock (replicate chunk_size 0) b.world (omega (arith, h, fewer))

  -- Where recv(2) keeps to the buffer and the peer sends finitely many bytes, `purge` ends once it is
  -- given more rounds than the peer has bytes left. With the flag for the receive buffer the cache is
  -- empty afterwards and the port otherwise as before; with any other flags it is as before.
  pub purge_returns :
      (rounds : ℕ) (p : SerialImpl) (flags : ℕ) (w : os.World)
      → peer.left w < rounds
      → (purge os rounds (some p) flags w).value
        ≡ returns (some (if has_flag flags purge_rx then clear_rx_cache p else p))
  unfolding purge
  purge_returns rounds p flags w h = elim (Bool-cases (has_flag flags purge_rx)) [
    | inr kept ↦ rw kept refl
    | inl receive ↦ rw (receive, drain_socket-returns rounds p.sock w h) refl
  ]
