-- ===== src/Socket.antt =====
-- `rfcomm::Socket` of src/socket.cpp and include/simple_rfcomm/socket.hpp, in the Linux build. A
-- moved-from socket, whose `pimpl_` is null, is `none`. A method that changes the object returns it.
pub mod Send
pub mod Options
pub mod Life
pub mod Receive
pub mod Quiet
pub mod OneWay
pub mod Windows
use simple_rfcomm.Prelude.{
  ℕ, zero, suc, ◌+◌, ◌-◌, ◌*◌, Option, none, some, Bool, true, false, not, ◌&&◌, ◌||◌, List, [],
  length, take, drop, replicate, overwrite, ◌++◌, ltb, if◌then◌else◌, bit_or,
}
use simple_rfcomm.Prelude.Int.{
  ℤ, pos, minus_one, is_negative, is_positive, is_zero, is_minus_one, to_size, div_trunc, rem_trunc,
  scale,
}
use simple_rfcomm.Address.{Address, any}
use simple_rfcomm.Os.{
  Os, Action, Outcome, returns, out_of_rounds, SockOpt, sndbuf, rcvbuf, sndtimeo, rcvtimeo, pure,
  ◌>>=◌, ◌>>◌, sys_send, sys_recv, sys_setsockopt, sys_getsockname, sys_getfl, sys_setfl, sys_close,
}

pub record SocketImpl : Type 0 where
  pub handle : ℤ
  pub peer_addr : Address
  pub peer_ch : ℕ
  pub local_ch : ℕ

abbrev pub Socket : Type 0
Socket = Option SocketImpl

abbrev pub default_buffer_size : ℤ
default_buffer_size = pos (512 * 1024)

-- `pimpl_->handle`; the methods read it only where `pimpl_` is not null.
abbrev pub handle_of : Socket → ℤ
handle_of none = minus_one
handle_of (some s) = s.handle

unfoldable pub is_open : Socket → Bool
is_open none = false
is_open (some s) = not (is_minus_one s.handle)

abbrev pub is_empty {ℓ} : {A : Type ℓ} → List A → Bool
is_empty [] = true
is_empty _ = false

unfoldable pub new_socket : Socket
unfolding any
new_socket = some (record { handle = minus_one; peer_addr = any; peer_ch = 0; local_ch = 0 })

unfoldable pub peer_address : Socket → Address
unfolding any
peer_address none = any
peer_address (some s) = s.peer_addr

unfoldable pub peer_channel : Socket → ℕ
peer_channel none = 0
peer_channel (some s) = s.peer_ch

unfoldable pub local_channel : Socket → ℕ
local_channel none = 0
local_channel (some s) = s.local_ch

unfoldable pub native_handle : Socket → ℤ
native_handle none = pos 0
native_handle (some s) = s.handle

-- std::chrono::milliseconds as a `timeval`.
unfoldable pub timeval : ℤ → ℤ × ℤ
timeval ms = (div_trunc ms 1000, scale (rem_trunc ms 1000) 1000)

module _ (os : Os) where
  -- `detail::close_socket_handle`
  unfoldable pub close_socket_handle : ℤ → Action os.World (Unit {0})
  close_socket_handle s = if is_negative s then pure tt else sys_close os s

  unfoldable pub send : Socket → List ℕ → Action os.World ℤ
  unfolding is_open
  send sock bytes = if not (is_open sock) || is_empty bytes then pure (pos 0) else do
    sent ← sys_send os (handle_of sock) bytes
    pure (if is_negative sent then minus_one else sent)

  -- The loop of `send_all`, with the rounds that it may still make.
  unfoldable pub send_rounds : ℕ → Socket → List ℕ → ℕ → Action os.World (Outcome Bool)
  send_rounds zero sock bytes total =
      pure (if ltb total (length bytes) then out_of_rounds else returns true)
  send_rounds (suc rounds) sock bytes total =
      if ltb total (length bytes)
      then (do
        sent ← send sock (drop total bytes)
        if is_positive sent
            then send_rounds rounds sock bytes (total + to_size sent)
            else pure (returns false))
      else pure (returns true)

  -- Every round sends a byte at least, so as many rounds as bytes are enough.
  unfoldable pub send_all : Socket → List ℕ → Action os.World (Outcome Bool)
  unfolding send_rounds
  send_all sock bytes = send_rounds (length bytes) sock bytes 0

  -- The count with the buffer as it is left.
  unfoldable pub recv : Socket → List ℕ → Action os.World (ℤ × List ℕ)
  unfolding is_open
  recv sock buffer = if not (is_open sock) || is_empty buffer then pure (pos 0, buffer) else do
    r ← sys_recv os (handle_of sock) (length buffer)
    pure (elim r [
      | none ↦ (minus_one, buffer)
      | some bytes ↦ (pos (length bytes), overwrite bytes buffer)
    ])

  unfoldable pub recv_rounds : ℕ → Socket → List ℕ → ℕ → Action os.World (Outcome Bool × List ℕ)
  recv_rounds zero sock buffer total =
      pure (if ltb total (length buffer) then out_of_rounds else returns true, buffer)
  recv_rounds (suc rounds) sock buffer total =
      if ltb total (length buffer)
      then (do
        (r, chunk) ← recv sock (drop total buffer)
        let buffer' = take total buffer ++ chunk
        if is_positive r
            then recv_rounds rounds sock buffer' (total + to_size r)
            else pure (returns false, buffer'))
      else pure (returns true, buffer)

  unfoldable pub recv_all : Socket → List ℕ → Action os.World (Outcome Bool × List ℕ)
  unfolding recv_rounds
  recv_all sock buffer = recv_rounds (length buffer) sock buffer 0

  unfoldable pub recv_some : Socket → ℕ → Action os.World (List ℕ)
  unfolding recv
  recv_some sock max_bytes = do
    (r, buf) ← recv sock (replicate max_bytes 0)
    pure (if is_positive r then take (to_size r) buf else [])

  -- `if (setsockopt(…) != 0) ok = false;`
  abbrev set_option : Socket → SockOpt → Bool → Action os.World Bool
  set_option sock opt ok = do
    status ← sys_setsockopt os (handle_of sock) opt
    pure (if is_zero status then ok else false)

  unfoldable pub set_buffer_sizes : Socket → ℤ → ℤ → Action os.World Bool
  unfolding is_open
  set_buffer_sizes sock snd rcv = if not (is_open sock) then pure false else do
    ok ← if is_positive snd then set_option sock (sndbuf snd) true else pure true
    if is_positive rcv then set_option sock (rcvbuf rcv) ok else pure ok

  unfoldable pub set_timeouts : Socket → ℤ → ℤ → Action os.World Bool
  unfolding is_open timeval
  set_timeouts sock send_ms recv_ms = if not (is_open sock) then pure false else do
    let st = timeval send_ms
    let rt = timeval recv_ms
    ok ← set_option sock (sndtimeo st.0 st.1) true
    set_option sock (rcvtimeo rt.0 rt.1) ok

  -- flags & ~mask, for flags that are not negative.
  abbrev without_bits : ℕ → ℕ → ℕ
  without_bits flags mask = bit_or flags mask - mask

  unfoldable pub set_blocking : Socket → Bool → Action os.World Bool
  unfolding is_open
  set_blocking sock blocking = if not (is_open sock) then pure false else do
    flags ← sys_getfl os (handle_of sock)
    let flags' =
        if blocking
        then without_bits (to_size flags) os.o_nonblock
        else bit_or (to_size flags) os.o_nonblock
    if is_negative flags
        then pure false
        else do status ← sys_setfl os (handle_of sock) flags'; pure (is_zero status)

  unfoldable pub close : Socket → Action os.World Socket
  unfolding close_socket_handle
  close none = pure none
  close (some s) =
      if is_minus_one s.handle
      then pure (some s)
      else do close_socket_handle s.handle; pure (some (record s { handle = minus_one }))

  -- `~Impl`, which runs where the object's life ends.
  unfoldable pub destroy : Socket → Action os.World (Unit {0})
  unfolding close_socket_handle
  destroy none = pure tt
  destroy (some s) = if is_minus_one s.handle then pure tt else close_socket_handle s.handle

  unfoldable pub from_native : ℤ → Address → ℕ → Action os.World Socket
  unfolding set_buffer_sizes
  from_native handle addr ch = do
    let s : SocketImpl = record { handle = handle; peer_addr = addr; peer_ch = ch; local_ch = 0 }
    set_buffer_sizes (some s) default_buffer_size default_buffer_size
    (status, local) ← sys_getsockname os handle
    pure (some (if is_zero status then record s { local_ch = local } else s))
