-- ===== src/Server/Windows.antt =====
-- `Server::listen` in the Windows build, behind the close of what the server held. The calls are
-- those of `Os`, with a port for a channel.
use simple_rfcomm.Prelude.{
  ℕ, ◌≡◌, ◌⊎◌, inl, inr, refl, ◌∙◌, ◌%◌, Option, none, some, false, [], ◌∷◌, ◌==◌, if◌then◌else◌,
  Bool-cases,
}
use simple_rfcomm.Prelude.Int.{ℤ, is_zero, is_minus_one, is_negative}
use simple_rfcomm.Os.{
  Os, Action, pure, ◌>>=◌, ◌>>◌, sys_socket, sys_bind, sys_getsockname, sys_listen, sys_close,
}
use simple_rfcomm.Os.Traffic.{opened_handles, closed_handles}
use simple_rfcomm.Client.{set_default_buffers}

-- BT_PORT_ANY of ws2bth.h, the largest ULONG.
abbrev pub bt_port_any : ℕ
bt_port_any = 4294967295

module _ (os : Os) where
  -- `detail::close_socket_handle` of the Windows build.
  unfoldable pub close_win_handle : ℤ → Action os.World (Unit {0})
  close_win_handle s = if is_minus_one s then pure tt else sys_close os s

  -- A step that failed closes the descriptor.
  abbrev pub unless_zero :
      ℤ → ℤ → Action os.World (Option (ℤ × ℕ)) → Action os.World (Option (ℤ × ℕ))
  unless_zero status s rest = if is_zero status then rest else (close_win_handle s >> pure none)

  -- The descriptor and the channel that the server keeps, or `none` where `listen` answers false.
  unfoldable pub listen_win : ℕ → ℤ → Action os.World (Option (ℤ × ℕ))
  listen_win channel backlog = do
    s ← sys_socket os
    if is_minus_one s then pure none else do
      set_default_buffers os s
      bound ← sys_bind os s (if channel == 0 then bt_port_any else channel)
      unless_zero bound s (do
        (named, port) ← sys_getsockname os s
        unless_zero named s (do
          listening ← sys_listen os s backlog
          unless_zero listening s (pure (some (s, port % 256)))))

  -- Where a descriptor that is not the invalid one is not negative, as a SOCKET is, and whatever
  -- Winsock answers otherwise: if `listen` of the Windows build succeeds, it keeps the one
  -- descriptor that was opened, which stays open; if it fails, what was opened has been closed.
  listen_win_handles :
      (channel : ℕ) (backlog : ℤ) (w : os.World)
      → is_negative (os.do_socket w).0 ≡ is_minus_one (os.do_socket w).0
      → let r = listen_win channel backlog w in
        ((r.value ≡ none) × (closed_handles r.calls ≡ opened_handles r.calls))
        ⊎ ((fd : ℤ) × (ch : ℕ) × (r.value ≡ some (fd, ch))
            × (opened_handles r.calls ≡ fd ∷ [])
            × (closed_handles r.calls ≡ []))
  unfolding listen_win close_win_handle set_default_buffers
  listen_win_handles channel backlog w h =
      let s = (os.do_socket w).0 in
      elim (Bool-cases (is_minus_one s)) [
        | inl failed ↦ rw (failed, h) (rw failed (inl (refl, refl)))
        | inr valid ↦
            let opened : is_negative s ≡ false = h ∙ valid in
            let w' = (set_default_buffers os s (os.do_socket w).1).world in
            let b = os.do_bind s (if channel == 0 then bt_port_any else channel) w' in
            let n = os.do_getsockname s b.1 in
            let l = os.do_listen s backlog n.1 in
            elim (Bool-cases (is_zero b.0)) [
              | inr unbound ↦ rw (valid, unbound, opened) (inl (refl, refl))
              | inl bound ↦ elim (Bool-cases (is_zero n.0.0)) [
                | inr unnamed ↦ rw (valid, bound, unnamed, opened) (inl (refl, refl))
                | inl named ↦ elim (Bool-cases (is_zero l.0)) [
                  | inr refused ↦ rw (valid, bound, named, refused, opened) (inl (refl, refl))
                  | inl listening ↦
                      rw (valid, bound, named, listening, opened)
                        (inr (s, n.0.1 % 256, refl, refl, refl))
                ]
              ]
            ]
      ]
