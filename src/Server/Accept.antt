-- ===== src/Server/Accept.antt =====
-- `Server::accept`: which descriptors it opens and closes, and the socket that it returns.
use simple_rfcomm.Prelude.{
  ◌≡◌, inl, inr, refl, ap, append-nil, none, some, true, false, [], ◌∷◌, arith, Bool-cases, ◌⊎◌,
}
use simple_rfcomm.Prelude.Int.{is_negative, is_minus_one}
use simple_rfcomm.Os.{Os}
use simple_rfcomm.Os.Traffic.{opened_handles, closed_handles}
use simple_rfcomm.Serial.Life.{socket_handles, socket_handles_lem}
use simple_rfcomm.Socket.{Socket, is_open, native_handle, peer_address, peer_channel, from_native}
use simple_rfcomm.Socket.Options.{from_native_lem}
use simple_rfcomm.Platform.{bdaddr_to_address}
use simple_rfcomm.Client.Connect.{from_native-handles}
use simple_rfcomm.Server.{Server, ServerImpl, is_listening, accept}

module _ (os : Os) where
  -- What a listening server accepts: nothing, with nothing opened or closed, or an open socket on the
  -- descriptor that the system answered with, which stays open, with the peer's address and channel.
  pub accept_owns :
      (s : ServerImpl) (w : os.World)
      → is_listening (some s) ≡ true
      → let r = accept os (some s) w in
        let (fd, peer, ch) = (os.do_accept s.listen_fd w).0 in
        ((r.value ≡ none) × (opened_handles r.calls ≡ []) × (closed_handles r.calls ≡ []))
        ⊎ ((sock : Socket) × (r.value ≡ some sock)
            × (native_handle sock ≡ fd)
            × (opened_handles r.calls ≡ fd ∷ [])
            × (closed_handles r.calls ≡ [])
            × (is_open sock ≡ true)
            × (peer_address sock ≡ bdaddr_to_address peer)
            × (peer_channel sock ≡ ch))
  unfolding accept is_listening
  accept_owns s w h =
      let idle : is_minus_one s.listen_fd ≡ false = ground (arith, h) in
      let a = (os.do_accept s.listen_fd w).0 in
      let w' = (os.do_accept s.listen_fd w).1 in
      elim (Bool-cases (is_negative a.0)) [
        | inl failed ↦ rw (idle, failed) (inl (refl, refl, refl))
        | inr valid ↦
            let addr = bdaddr_to_address a.1 in
            let (o, c) = from_native-handles os a.0 addr a.2 w' in
            let (open_now, handle, peer, peer_ch, _) = from_native_lem os a.0 addr a.2 w' valid in
            rw (idle, valid, append-nil (from_native os a.0 addr a.2 w').calls)
              (inr (_, refl, handle, ap (◌∷◌ a.0) o, c, open_now, peer, peer_ch))
      ]

  -- Of any server: the descriptor that was opened is the socket's.
  pub accept-handles :
      (server : Server) (w : os.World)
      → let r = accept os server w in
        (opened_handles r.calls ≡ socket_handles r.value) × (closed_handles r.calls ≡ [])
  unfolding accept
  accept-handles none w = (refl, refl)
  accept-handles (some s) w = elim (Bool-cases (is_minus_one s.listen_fd)) [
    | inl idle ↦ rw idle (refl, refl)
    | inr listening ↦
        let a = (os.do_accept s.listen_fd w).0 in
        let w' = (os.do_accept s.listen_fd w).1 in
        elim (Bool-cases (is_negative a.0)) [
          | inl failed ↦ rw (listening, failed) (refl, refl)
          | inr valid ↦
              let addr = bdaddr_to_address a.1 in
              let n = from_native os a.0 addr a.2 w' in
              let (o, c) = from_native-handles os a.0 addr a.2 w' in
              let (open_now, handle, _, _, _) = from_native_lem os a.0 addr a.2 w' valid in
              rw
                (
                  listening,
                  valid,
                  append-nil n.calls,
                  o,
                  c,
                  socket_handles_lem n.value open_now (rw handle valid),
                  handle,
                )
                (refl, refl)
        ]
  ]
