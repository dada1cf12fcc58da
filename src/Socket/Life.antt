-- ===== src/Socket/Life.antt =====
-- How a socket's descriptor is released, and what a socket that is not open does.
use simple_rfcomm.Prelude.{ℕ, ◌≡◌, refl, some, Bool, false, List, [], ◌∷◌, ◌++◌, arith}
use simple_rfcomm.Prelude.Int.{ℤ, pos, is_negative}
use simple_rfcomm.Os.{Os, Run, returns, pure}
use simple_rfcomm.Os.Traffic.{closed_handles}
use simple_rfcomm.Socket.{
  Socket, SocketImpl, is_open, is_empty, send, recv, send_all, recv_all, recv_some,
  set_buffer_sizes, set_timeouts, set_blocking, close, destroy,
}

module _ (os : Os) where
  -- Over `close`, a second `close` and the destructor, a socket's descriptor that is not negative is
  -- closed once, and after the first `close` the socket is not open.
  pub close_once :
      (s : SocketImpl) (w : os.World)
      → is_negative s.handle ≡ false
      → let r = close os (some s) w in
        let again = close os r.value r.world in
        let end = destroy os again.value again.world in
        (closed_handles (r.calls ++ (again.calls ++ end.calls)) ≡ s.handle ∷ [])
        × (is_open r.value ≡ false)
  unfolding close destroy is_open
  close_once s w h = ground arith

  -- No call is made and the system's state stays.
  abbrev Idle : {A : Type 0} → Run os.World A → os.World → A → Type 0
  Idle r w a = r ≡ pure a w

  -- A socket that is closed or moved from makes no system call: sends and receives report 0 bytes,
  -- the loops succeed on empty data only, a buffer is left alone and the settings report failure.
  pub closed_socket_silent :
      (sock : Socket) (bytes : List ℕ) (n : ℕ) (ms ms' : ℤ) (flag : Bool) (w : os.World)
      → is_open sock ≡ false
      → Idle (send os sock bytes w) w (pos 0)
        × Idle (recv os sock bytes w) w (pos 0, bytes)
        × Idle (send_all os sock bytes w) w (returns (is_empty bytes))
        × Idle (recv_all os sock bytes w) w (returns (is_empty bytes), bytes)
        × Idle (recv_some os sock n w) w []
        × Idle (set_buffer_sizes os sock ms ms' w) w false
        × Idle (set_timeouts os sock ms ms' w) w false
        × Idle (set_blocking os sock flag w) w false
  unfolding send recv send_all recv_all recv_some set_buffer_sizes set_timeouts set_blocking
  closed_socket_silent sock [] n ms ms' flag w h =
      rw h (refl, refl, refl, refl, refl, refl, refl, refl)
  closed_socket_silent sock (b ∷ bytes) n ms ms' flag w h =
      rw h (refl, refl, ground arith, ground arith, refl, refl, refl, refl)
