-- ===== src/Client/Windows.antt =====
-- `Client::connect` of src/client.cpp and `Server::accept` of src/server.cpp in the Windows build.
pub mod Owns
use simple_rfcomm.Prelude.{
  ℕ, ◌%◌, ◌≡◌, ◌⊎◌, inl, inr, refl, sym, ap, ◌∙◌, append-nil, Option, none, some, Bool, true, false,
  List, [], ◌∷◌, Bool-cases, if◌then◌else◌, arith,
}
use simple_rfcomm.Prelude.Int.{ℤ, is_negative, is_minus_one, is_positive, is_zero}
use simple_rfcomm.Address.{Address}
use simple_rfcomm.Platform.{address_to_bth, bth_to_address}
use simple_rfcomm.Os.{
  Os, Action, perform, pure, ◌>>=◌, ◌>>◌, sndtimeo_ms, rcvtimeo_ms, connected_bth, accepted_bth,
  sys_socket, sys_setsockopt, sys_close,
}
use simple_rfcomm.Os.Traffic.{
  opened_handles, closed_handles, opened_handles-append, closed_handles-append,
}
use simple_rfcomm.Socket.{
  Socket, is_open, native_handle, peer_address, peer_channel, set_buffer_sizes,
}
use simple_rfcomm.Socket.Windows.{Win, to_dword, win_from_native}
use simple_rfcomm.Client.{set_default_buffers}
use simple_rfcomm.Server.{Server, ServerImpl, is_listening}
use simple_rfcomm.Server.Windows.{close_win_handle}

module _ (win : Win) where
  unfoldable pub win_connect_timeout : ℤ → ℤ → Action win.os.World (Unit {0})
  win_connect_timeout s timeout =
      if is_positive timeout
      then (do
        sys_setsockopt win.os s (sndtimeo_ms (to_dword timeout))
        sys_setsockopt win.os s (rcvtimeo_ms (to_dword timeout))
        pure tt)
      else pure tt

  -- `connect` behind the options; `none` for the null pointer.
  unfoldable pub win_finish_connect : ℤ → Address → ℕ → Action win.os.World (Option Socket)
  win_finish_connect s addr channel = do
    let bth = address_to_bth addr
    status ← perform (win.do_connect_bth s bth channel) (connected_bth s bth channel)
    if is_zero status
        then (do sock ← win_from_native win s addr channel; pure (some sock))
        else (close_win_handle win.os s >> pure none)

  unfoldable pub win_connect : Address → ℕ → ℤ → Action win.os.World (Option Socket)
  unfolding set_default_buffers win_connect_timeout win_finish_connect
  win_connect addr channel timeout = do
    s ← sys_socket win.os
    if is_minus_one s then pure none else do
      set_default_buffers win.os s
      win_connect_timeout s timeout
      win_finish_connect s addr channel

  -- `none` for the null pointer; the peer's port is cut to a byte.
  unfoldable pub win_accept : Server → Action win.os.World (Option Socket)
  win_accept none = pure none
  win_accept (some s) = if is_minus_one s.listen_fd then pure none else do
    (fd, bth, port) ← perform (win.do_accept_bth s.listen_fd) (accepted_bth s.listen_fd)
    if is_minus_one fd
        then pure none
        else do sock ← win_from_native win fd (bth_to_address bth) (port % 256); pure (some sock)

  -- A socket that is made from a SOCKET is open on it and knows its peer, and no descriptor is
  -- opened or closed.
  pub win_from_native_lem :
      (fd : ℤ) (addr : Address) (ch : ℕ) (w : win.os.World)
      → is_negative fd ≡ false
      → let r = win_from_native win fd addr ch w in
        (opened_handles r.calls ≡ [])
        × (closed_handles r.calls ≡ [])
        × (native_handle r.value ≡ fd)
        × (is_open r.value ≡ true)
        × (peer_address r.value ≡ addr)
        × (peer_channel r.value ≡ ch)
  unfolding win_from_native set_buffer_sizes is_open native_handle peer_address peer_channel
  win_from_native_lem fd addr ch w valid = ground arith

  pub win_connect_timeout-handles :
      (s timeout : ℤ) (w : win.os.World)
      → let r = win_connect_timeout s timeout w in
        (opened_handles r.calls ≡ []) × (closed_handles r.calls ≡ [])
  unfolding win_connect_timeout
  win_connect_timeout-handles s timeout w = elim (Bool-cases (is_positive timeout)) [
    | inl timed ↦ rw timed (refl, refl)
    | inr untimed ↦ rw untimed (refl, refl)
  ]
