-- ===== src/Socket/Windows/Same.antt =====
-- `send` and `recv` of the Windows build against those of the Linux build, over a system whose
-- sizes are cut to an `int`.
use simple_rfcomm.Prelude.{
  ℕ, suc, ◌%◌, ◌^◌, ◌≤◌, ◌<◌, ◌≡◌, refl, some, true, false, List, [], ◌∷◌, ◌++◌, length, take, drop,
  ◌==◌, arith, lt→ltb,
}
use simple_rfcomm.Prelude.Int.{ℤ, pos, to_size}
use simple_rfcomm.Os.{Os, returns}
use simple_rfcomm.Os.Traffic.{sent_bytes, received_bytes, SendsWithin, ReceivesWithin}
use simple_rfcomm.Socket.{Socket, is_open, handle_of, send, send_rounds, send_all, recv, recv_all}
use simple_rfcomm.Socket.Send.{send_all_lem}
use simple_rfcomm.Socket.Receive.{recv_all_lem}
use simple_rfcomm.Socket.Windows.{Win, int_mod, to_int, win_send, win_recv}

-- The system as `send` and `recv` of the Windows build see it.
abbrev pub adapt : Win → Os
adapt win = record win.os {
  do_send = λ fd bytes w. win.do_send_int fd bytes (to_int (length bytes)) w;
  do_recv = λ fd size w. win.do_recv_int fd (to_int size) w;
}

-- Winsock's send and recv never answer more than the size that they were given.
pub record WinWithin (win : Win) : Type 0 where
  pub sends :
      (fd : ℤ) (bytes : List ℕ) (len : ℤ) (w : win.os.World) (n : ℕ)
      → (win.do_send_int fd bytes len w).0 ≡ pos n
      → n ≤ to_size len
  pub receives :
      (fd len : ℤ) (w : win.os.World) (bytes : List ℕ)
      → (win.do_recv_int fd len w).0 ≡ some bytes
      → length bytes ≤ to_size len

to_size-to_int : (n : ℕ) → to_size (to_int n) ≤ n
unfolding to_int
to_size-to_int n = ground arith

-- A size below 2 GiB is not changed.
to_int-small : (n : ℕ) → n < 2 ^ 31 → to_int n ≡ pos n
unfolding to_int
to_int-small n h =
    let same : n % int_mod ≡ n = omega (arith, h) in rw (same, lt→ltb n (2 ^ 31) h) refl

to_int-multiple : (n : ℕ) → n % int_mod ≡ 0 → to_int n ≡ pos 0
unfolding to_int
to_int-multiple n h = rw h refl

module _ (win : Win) where
  adapt-SendsWithin : WinWithin win → SendsWithin (adapt win)
  adapt-SendsWithin within fd bytes w n h =
      omega
        (arith, within.sends fd bytes (to_int (length bytes)) w n h, to_size-to_int (length bytes))

  adapt-ReceivesWithin : WinWithin win → ReceivesWithin (adapt win)
  adapt-ReceivesWithin within fd size w bytes h =
      omega (arith, within.receives fd (to_int size) w bytes h, to_size-to_int size)

  -- `send` and `recv` of the Windows build, whose sizes are cut to an int, are those of the Linux
  -- build over the system that cuts the sizes; so where Winsock keeps to its sizes, `send_all` and
  -- `recv_all`, which the builds share, hold there what they hold on Linux, for a buffer of any
  -- size: what is sent is a prefix of the data, and what is received stands at the front of the
  -- buffer, and they answer true exactly when that is the whole.
  pub win_transfers :
      (sock : Socket) (bytes : List ℕ) (w : win.os.World)
      → WinWithin win
      → let os = adapt win in
        let s = send_all os sock bytes w in
        let r = recv_all os sock bytes w in
        let got = received_bytes r.calls in
        (win_send win sock bytes w ≡ send os sock bytes w)
        × (win_recv win sock bytes w ≡ recv os sock bytes w)
        × (sent_bytes s.calls ≡ take (length (sent_bytes s.calls)) bytes)
        × (s.value ≡ returns (length (sent_bytes s.calls) == length bytes))
        × (r.value.0 ≡ returns (length got == length bytes))
        × (r.value.1 ≡ got ++ drop (length got) bytes)
  unfolding win_send win_recv send recv
  win_transfers sock bytes w within =
      let (front, sent_all) = send_all_lem (adapt win) sock bytes w (adapt-SendsWithin within) in
      let (filled, buffer) = recv_all_lem (adapt win) sock bytes w (adapt-ReceivesWithin within) in
      (refl, refl, front, sent_all, filled, buffer)

-- Winsock's send of no bytes answers that it has sent none.
abbrev pub SendsNothing : Win → Type 0
SendsNothing win =
    (fd : ℤ) (bytes : List ℕ) (w : win.os.World) → (win.do_send_int fd bytes (pos 0) w).0 ≡ pos 0

-- In the Windows build, where Winsock sends nothing for a size of 0, `send_all` of a buffer whose
-- size is a multiple of 4 GiB, and not 0, sends nothing and answers false, though the socket is
-- open and no call has failed.
pub win_send_all_wraps :
    (win : Win) (sock : Socket) (bytes : List ℕ) (w : win.os.World)
    → SendsNothing win
    → is_open sock ≡ true
    → 0 < length bytes
    → length bytes % int_mod ≡ 0
    → let r = send_all (adapt win) sock bytes w in
      (r.value ≡ returns false) × (sent_bytes r.calls ≡ [])
unfolding send_all send_rounds send
win_send_all_wraps win sock [] w nothing opened some_bytes multiple =
    absurd (omega (arith, some_bytes))
win_send_all_wraps win sock (b ∷ bytes) w nothing opened some_bytes multiple =
    let cut = to_int-multiple (suc (length bytes)) multiple in
    rw
      (
        lt→ltb 0 (suc (length bytes)) some_bytes,
        opened,
        cut,
        nothing (handle_of sock) (b ∷ bytes) w,
      )
      (refl, refl)
