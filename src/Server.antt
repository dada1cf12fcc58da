-- ===== src/Server.antt =====
-- `rfcomm::Server` of src/server.cpp, in the Linux build. A moved-from server, whose `pimpl_` is
-- null, is `none`; the methods that use it without a test are undefined there.
pub mod Bind
pub mod Windows
pub mod Listen
pub mod Accept
pub mod Publish
use simple_rfcomm.Prelude.{
  ℕ, zero, suc, ◌+◌, ◌-◌, Option, none, some, Bool, true, false, not, List, [], ◌==◌, if◌then◌else◌,
}
use simple_rfcomm.Prelude.Int.{ℤ, minus_one, is_negative, is_minus_one, is_zero}
use simple_rfcomm.Uuid.{Uuid}
use simple_rfcomm.Platform.{bdaddr_to_address}
use simple_rfcomm.Os.{
  Os, Action, Outcome, returns, undefined, pure, ◌>>=◌, ◌>>◌, sys_socket, sys_bind, sys_listen,
  sys_accept,
}
use simple_rfcomm.Socket.{Socket, close_socket_handle, from_native}
use simple_rfcomm.Sdp.{RegistrationImpl, unregister, create}
use simple_rfcomm.Client.{set_default_buffers}

pub record ServerImpl : Type 0 where
  pub listen_fd : ℤ
  pub channel : ℕ
  pub sdp_reg : Option RegistrationImpl

abbrev pub Server : Type 0
Server = Option ServerImpl

unfoldable pub new_server : Server
new_server = some (record { listen_fd = minus_one; channel = 0; sdp_reg = none })

unfoldable pub is_listening : Server → Bool
is_listening none = false
is_listening (some s) = not (is_minus_one s.listen_fd)

unfoldable pub channel_number : Server → ℕ
channel_number none = 0
channel_number (some s) = s.channel

module _ (os : Os) where
  unfoldable pub close_registration : Option RegistrationImpl → Action os.World (Unit {0})
  close_registration none = pure tt
  close_registration (some reg) = unregister os reg >> pure tt

  unfoldable pub close_descriptor : ℤ → Action os.World (Unit {0})
  close_descriptor fd = if is_minus_one fd then pure tt else close_socket_handle os fd

  -- `Server::Impl::close`; the registration's destructor finds nothing left to do.
  unfoldable pub close_impl : ServerImpl → Action os.World ServerImpl
  close_impl s = do
    close_registration s.sdp_reg
    close_descriptor s.listen_fd
    pure (record { listen_fd = minus_one; channel = 0; sdp_reg = none })

  unfoldable pub close_server : Server → Action os.World Server
  close_server none = pure none
  close_server (some s) = do s' ← close_impl s; pure (some s')

  -- The channels from `ch` on, `rounds` of them; 0 where none could be bound.
  unfoldable pub scan_channels : ℕ → ℕ → ℤ → Action os.World ℕ
  scan_channels zero ch fd = pure 0
  scan_channels (suc rounds) ch fd = do
    status ← sys_bind os fd ch
    if is_zero status then pure ch else scan_channels rounds (ch + 1) fd

  unfoldable pub bind_channel : ℕ → ℤ → Action os.World ℕ
  bind_channel zero fd = scan_channels 30 1 fd
  bind_channel (suc ch) fd = do
    status ← sys_bind os fd (suc ch)
    pure (if is_zero status then suc ch else 0)

  -- `listen` behind the descriptor's creation.
  unfoldable pub listen_on : ServerImpl → ℤ → ℕ → ℤ → Action os.World (Bool × ServerImpl)
  listen_on s fd channel backlog = do
    set_default_buffers os fd
    bound_channel ← bind_channel channel fd
    if bound_channel == 0 then (close_socket_handle os fd >> pure (false, s)) else do
      status ← sys_listen os fd backlog
      if is_zero status
          then pure (true, record s { listen_fd = fd; channel = bound_channel })
          else (close_socket_handle os fd >> pure (false, s))

  unfoldable pub listen_impl : ServerImpl → ℕ → ℤ → Action os.World (Bool × ServerImpl)
  listen_impl s channel backlog = do
    s' ← close_impl s
    fd ← sys_socket os
    if is_negative fd then pure (false, s') else listen_on s' fd channel backlog

  unfoldable pub listen : Server → ℕ → ℤ → Action os.World (Outcome (Bool × Server))
  listen none channel backlog = pure undefined
  listen (some s) channel backlog = do
    (ok, s') ← listen_impl s channel backlog
    pure (returns (ok, some s'))

  -- `if (!reg) { close(); return false; }`, and what is kept otherwise.
  unfoldable pub keep_registration :
      ServerImpl → Option RegistrationImpl → Action os.World (Bool × ServerImpl)
  keep_registration s none = do s' ← close_impl s; pure (false, s')
  keep_registration s (some reg) = pure (true, record s { sdp_reg = some reg })

  -- The registration behind a successful `listen`; the provider is the default argument.
  unfoldable pub add_registration :
      List ℕ → ServerImpl → Uuid → List ℕ → Action os.World (Bool × ServerImpl)
  unfolding keep_registration
  add_registration provider s uuid service_name = do
    reg ← create os s.channel uuid service_name provider
    keep_registration s reg

  unfoldable pub listen_with_sdp :
      List ℕ → Server → Uuid → List ℕ → ℕ → ℤ → Action os.World (Outcome (Bool × Server))
  listen_with_sdp provider none uuid service_name channel backlog = pure undefined
  listen_with_sdp provider (some s) uuid service_name channel backlog = do
    (ok, s') ← listen_impl s channel backlog
    (ok', s'') ← if ok then add_registration provider s' uuid service_name else pure (false, s')
    pure (returns (ok', some s''))

  -- `none` for the null pointer.
  unfoldable pub accept : Server → Action os.World (Option Socket)
  accept none = pure none
  accept (some s) = if is_minus_one s.listen_fd then pure none else do
    (fd, peer, ch) ← sys_accept os s.listen_fd
    if is_negative fd
        then pure none
        else do sock ← from_native os fd (bdaddr_to_address peer) ch; pure (some sock)
