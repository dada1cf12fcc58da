-- ===== src/Client/Windows/Owns.antt =====
-- `Client::connect` and `Server::accept` of the Windows build: which descriptors they leave open.
use simple_rfcomm.Prelude.{
  ℕ, ◌%◌, ◌≡◌, ◌⊎◌, inl, inr, refl, sym, ap, ◌∙◌, append-nil, none, some, true, false, [], ◌∷◌,
  Bool-cases, arith,
}
use simple_rfcomm.Prelude.Int.{ℤ, is_negative, is_minus_one, is_zero}
use simple_rfcomm.Address.{Address}
use simple_rfcomm.Platform.{address_to_bth, bth_to_address}
use simple_rfcomm.Os.Traffic.{
  opened_handles, closed_handles, opened_handles-append, closed_handles-append,
}
use simple_rfcomm.Socket.{Socket, is_open, native_handle, peer_address, peer_channel}
use simple_rfcomm.Socket.Windows.{Win, win_from_native}
use simple_rfcomm.Client.{set_default_buffers}
use simple_rfcomm.Client.Connect.{Owns}
use simple_rfcomm.Client.Windows.{
  win_connect_timeout, win_finish_connect, win_connect, win_accept, win_from_native_lem,
  win_connect_timeout-handles,
}
use simple_rfcomm.Server.{ServerImpl, is_listening}
use simple_rfcomm.Server.Windows.{close_win_handle}

-- A SOCKET is a number that is not negative, or INVALID_SOCKET.
pub record IsSockets (win : Win) : Type 0 where
  pub made :
      (w : win.os.World) → is_negative (win.os.do_socket w).0 ≡ is_minus_one (win.os.do_socket w).0
  pub accepted :
      (fd : ℤ) (w : win.os.World)
      → is_negative (win.do_accept_bth fd w).0.0 ≡ is_minus_one (win.do_accept_bth fd w).0.0

module _ (win : Win) where
  win_finish_connect-handles :
      (fd : ℤ) (addr : Address) (channel : ℕ) (w : win.os.World)
      → is_negative fd ≡ false
      → is_minus_one fd ≡ false
      → let r = win_finish_connect win fd addr channel w in
        (opened_handles r.calls ≡ [])
        × (((r.value ≡ none) × (closed_handles r.calls ≡ fd ∷ []))
            ⊎ ((sock : Socket) × (r.value ≡ some sock)
                × (fd ≡ native_handle sock)
                × (closed_handles r.calls ≡ [])
                × (is_open sock ≡ true)
                × (peer_address sock ≡ addr)
                × (peer_channel sock ≡ channel)))
  unfolding win_finish_connect close_win_handle
  win_finish_connect-handles fd addr channel w valid not_invalid =
      let c = win.do_connect_bth fd (address_to_bth addr) channel w in
      elim (Bool-cases (is_zero c.0)) [
        | inr refused ↦ rw (refused, not_invalid) (refl, inl (refl, refl))
        | inl connected ↦
            let (none_opened, none_closed, handle, open_now, peer, peer_ch) =
              win_from_native_lem win fd addr channel c.1 valid in
            rw (connected, append-nil, none_opened, none_closed)
              (refl, inr (_, refl, sym handle, refl, open_now, peer, peer_ch))
      ]

  -- Where a SOCKET is not negative unless it is the invalid one, and whatever Winsock answers
  -- otherwise: if `connect` of the Windows build returns a socket, that is open, it holds the one
  -- descriptor that was opened, which has not been closed, and knows the address and the channel;
  -- if it returns none, what was opened has been closed.
  pub win_connect-Owns :
      (addr : Address) (channel : ℕ) (timeout : ℤ) (w : win.os.World)
      → IsSockets win
      → Owns win.os addr channel (win_connect win addr channel timeout w)
  unfolding win_connect set_default_buffers
  win_connect-Owns addr channel timeout w sockets =
      let fd = (win.os.do_socket w).0 in
      elim (Bool-cases (is_minus_one fd)) [
        | inl failed ↦ rw (failed, sockets.made w) (rw failed (inl (refl, refl)))
        | inr not_invalid ↦
            let valid : is_negative fd ≡ false = sockets.made w ∙ not_invalid in
            let w' = (set_default_buffers win.os fd (win.os.do_socket w).1).world in
            let t = win_connect_timeout win fd timeout w' in
            let f = win_finish_connect win fd addr channel t.world in
            let (t_opened, t_closed) = win_connect_timeout-handles win fd timeout w' in
            let (f_opened, result) =
              win_finish_connect-handles fd addr channel t.world valid not_invalid in
            rw
              (
                not_invalid,
                valid,
                opened_handles-append t.calls f.calls,
                closed_handles-append t.calls f.calls,
                t_opened,
                t_closed,
                f_opened,
              )
              (elim result [
                | inl (failed, shut) ↦ inl (failed, shut)
                | inr (sock, made, handle, kept, open_now, peer, peer_ch) ↦ inr (
                  sock,
                  made,
                  ap (λ h. h ∷ []) handle,
                  ap is_negative (sym handle) ∙ valid,
                  kept,
                  open_now,
                  peer,
                  peer_ch,
                )
              ])
      ]

  -- Where a SOCKET is not negative unless it is the invalid one: a listening server of the Windows
  -- build accepts nothing, with nothing opened or closed, or an open socket on the descriptor that
  -- Winsock answered with, which stays open, with the address of the peer's number and the peer's
  -- port cut to a byte.
  pub win_accept_owns :
      (s : ServerImpl) (w : win.os.World)
      → IsSockets win
      → is_listening (some s) ≡ true
      → let r = win_accept win (some s) w in
        let (fd, bth, port) = (win.do_accept_bth s.listen_fd w).0 in
        ((r.value ≡ none) × (opened_handles r.calls ≡ []) × (closed_handles r.calls ≡ []))
        ⊎ ((sock : Socket) × (r.value ≡ some sock)
            × (native_handle sock ≡ fd)
            × (opened_handles r.calls ≡ fd ∷ [])
            × (closed_handles r.calls ≡ [])
            × (is_open sock ≡ true)
            × (peer_address sock ≡ bth_to_address bth)
            × (peer_channel sock ≡ port % 256))
  unfolding win_accept is_listening
  win_accept_owns s w sockets h =
      let idle : is_minus_one s.listen_fd ≡ false = ground (arith, h) in
      let a = (win.do_accept_bth s.listen_fd w).0 in
      let w' = (win.do_accept_bth s.listen_fd w).1 in
      elim (Bool-cases (is_minus_one a.0)) [
        | inl failed ↦
            rw (idle, failed, sockets.accepted s.listen_fd w) (rw failed (inl (refl, refl, refl)))
        | inr not_invalid ↦
            let valid = sockets.accepted s.listen_fd w ∙ not_invalid in
            let addr = bth_to_address a.1 in
            let (o, c, handle, open_now, peer, peer_ch) =
              win_from_native_lem win a.0 addr (a.2 % 256) w' valid in
            let n = win_from_native win a.0 addr (a.2 % 256) w' in
            rw (idle, not_invalid, valid, append-nil n.calls)
              (inr (_, refl, handle, ap (◌∷◌ a.0) o, c, open_now, peer, peer_ch))
      ]
