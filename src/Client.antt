-- ===== src/Client.antt =====
-- `rfcomm::Client` of src/client.cpp, in the Linux build.
pub mod Connect
pub mod Windows
use simple_rfcomm.Prelude.{ℕ, Option, none, some, Bool, true, false, if◌then◌else◌}
use simple_rfcomm.Prelude.Int.{ℤ, is_negative, is_positive, is_zero}
use simple_rfcomm.Address.{Address}
use simple_rfcomm.Uuid.{Uuid}
use simple_rfcomm.Platform.{address_to_bdaddr}
use simple_rfcomm.Os.{
  Os, Action, Outcome, returns, undefined, sndbuf, rcvbuf, sndtimeo, rcvtimeo, pure, ◌>>=◌, ◌>>◌,
  sys_socket, sys_setsockopt, sys_connect,
}
use simple_rfcomm.Socket.{Socket, timeval, default_buffer_size, close_socket_handle, from_native}
use simple_rfcomm.Sdp.{resolve_channel}

module _ (os : Os) where
  -- Both buffer sizes, whose results the code ignores.
  unfoldable pub set_default_buffers : ℤ → Action os.World (Unit {0})
  set_default_buffers s = do
    sys_setsockopt os s (sndbuf default_buffer_size)
    sys_setsockopt os s (rcvbuf default_buffer_size)
    pure tt

  unfoldable pub set_connect_timeout : ℤ → ℤ → Action os.World (Unit {0})
  set_connect_timeout s timeout =
      let tv = timeval timeout in
      if is_positive timeout
      then (do
        sys_setsockopt os s (sndtimeo tv.0 tv.1)
        sys_setsockopt os s (rcvtimeo tv.0 tv.1)
        pure tt)
      else pure tt

  -- `connect` behind the options; `none` for the null pointer.
  unfoldable pub finish_connect : ℤ → Address → ℕ → Action os.World (Option Socket)
  finish_connect s addr channel = do
    status ← sys_connect os s (address_to_bdaddr addr) channel
    if is_zero status
        then (do sock ← from_native os s addr channel; pure (some sock))
        else (close_socket_handle os s >> pure none)

  unfoldable pub connect : Address → ℕ → ℤ → Action os.World (Option Socket)
  connect addr channel timeout = do
    s ← sys_socket os
    if is_negative s
        then pure none
        else do set_default_buffers s; set_connect_timeout s timeout; finish_connect s addr channel

  -- What the search left, connected to.
  unfoldable pub connect_resolved :
      Address → ℤ → Outcome (Option ℕ) → Action os.World (Outcome (Option Socket))
  connect_resolved addr timeout (returns (some channel)) = do
    sock ← connect addr channel timeout
    pure (returns sock)
  connect_resolved addr timeout (returns none) = pure (returns none)
  connect_resolved addr timeout undefined = pure undefined
  connect_resolved addr timeout Outcome.out_of_rounds = pure Outcome.out_of_rounds

  unfoldable pub connect_by_sdp : Address → Uuid → ℤ → Action os.World (Outcome (Option Socket))
  connect_by_sdp addr uuid timeout = do
    channel ← resolve_channel os addr uuid
    connect_resolved addr timeout channel
