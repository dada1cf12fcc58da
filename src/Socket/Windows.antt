-- ===== src/Socket/Windows.antt =====
-- The Windows branches of src/socket.cpp: `send` and `recv` with an `int` for the size, the
-- timeouts as `DWORD`, the mode, and `from_native`. `Win` is what they call of Winsock.
pub mod Same
use simple_rfcomm.Prelude.{
  ℕ, ◌+◌, ◌-◌, ◌%◌, ◌^◌, ◌≤◌, ◌≡◌, Option, none, some, Bool, true, false, not, ◌||◌, List, [], ◌∷◌,
  length, take, overwrite, ltb, if◌then◌else◌,
}
use simple_rfcomm.Prelude.Int.{
  ℤ, pos, negsuc, minus_one, is_negative, is_zero, is_minus_one, to_size,
}
use simple_rfcomm.Address.{Address}
use simple_rfcomm.Os.{
  Os, Action, perform, pure, ◌>>=◌, ◌>>◌, sent, received, mode_set, connected_bth, accepted_bth,
  sndtimeo_ms, rcvtimeo_ms, sys_setsockopt, sys_getsockname,
}
use simple_rfcomm.Socket.{
  Socket, SocketImpl, is_open, is_empty, handle_of, default_buffer_size, set_buffer_sizes,
}

-- The calls that differ from `Os`: the sizes are integers, which may be negative;
-- ioctlsocket(FIONBIO) sets a mode; a Bluetooth address is a number. `os` has the calls that do not
-- differ.
pub record Win : Type 1 where
  pub os : Os
  pub do_send_int : ℤ → List ℕ → ℤ → os.World → ℤ × os.World
  pub do_recv_int : ℤ → ℤ → os.World → Option (List ℕ) × os.World
  pub do_ioctl_mode : ℤ → ℕ → os.World → ℤ × os.World
  pub do_connect_bth : ℤ → ℕ → ℕ → os.World → ℤ × os.World
  pub do_accept_bth : ℤ → os.World → (ℤ × ℕ × ℕ) × os.World

abbrev pub int_mod : ℕ
int_mod = 2 ^ 32

-- static_cast<int> of a size, in two's complement.
unfoldable pub to_int : ℕ → ℤ
to_int n =
    if ltb (n % int_mod) (2 ^ 31) then pos (n % int_mod) else negsuc (int_mod - 1 - n % int_mod)

-- static_cast<DWORD> of milliseconds.
unfoldable pub to_dword : ℤ → ℕ
to_dword (pos n) = n % int_mod
to_dword (negsuc n) = int_mod - 1 - n % int_mod

module _ (win : Win) where
  unfoldable pub win_send : Socket → List ℕ → Action win.os.World ℤ
  unfolding is_open
  win_send sock bytes = if not (is_open sock) || is_empty bytes then pure (pos 0) else do
    n ←
        perform (win.do_send_int (handle_of sock) bytes (to_int (length bytes)))
          (sent (handle_of sock) bytes)
    pure (if is_negative n then minus_one else n)

  unfoldable pub win_recv : Socket → List ℕ → Action win.os.World (ℤ × List ℕ)
  unfolding is_open
  win_recv sock buffer = if not (is_open sock) || is_empty buffer then pure (pos 0, buffer) else do
    r ←
        perform (win.do_recv_int (handle_of sock) (to_int (length buffer)))
          (received (handle_of sock) (length buffer))
    pure (elim r [
      | none ↦ (minus_one, buffer)
      | some bytes ↦ (pos (length bytes), overwrite bytes buffer)
    ])

  -- `if (setsockopt(…) != 0) ok = false;`, for both timeouts.
  unfoldable pub win_set_timeouts : Socket → ℤ → ℤ → Action win.os.World Bool
  unfolding is_open
  win_set_timeouts sock send_ms recv_ms = if not (is_open sock) then pure false else do
    st ← sys_setsockopt win.os (handle_of sock) (sndtimeo_ms (to_dword send_ms))
    rt ← sys_setsockopt win.os (handle_of sock) (rcvtimeo_ms (to_dword recv_ms))
    pure (if is_zero rt then is_zero st else false)

  unfoldable pub win_set_blocking : Socket → Bool → Action win.os.World Bool
  unfolding is_open
  win_set_blocking sock blocking = if not (is_open sock) then pure false else do
    let mode : ℕ = if blocking then 0 else 1
    status ← perform (win.do_ioctl_mode (handle_of sock) mode) (mode_set (handle_of sock) mode)
    pure (is_zero status)

  unfoldable pub win_from_native : ℤ → Address → ℕ → Action win.os.World Socket
  unfolding set_buffer_sizes
  win_from_native handle addr ch = do
    let s : SocketImpl = record { handle = handle; peer_addr = addr; peer_ch = ch; local_ch = 0 }
    set_buffer_sizes win.os (some s) default_buffer_size default_buffer_size
    (status, port) ← sys_getsockname win.os handle
    pure (some (if is_zero status then record s { local_ch = port % 256 } else s))
