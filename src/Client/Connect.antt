-- ===== src/Client/Connect.antt =====
-- `Client::connect`: which descriptors it opens and closes, and the socket that it returns.
use simple_rfcomm.Prelude.{
  ℕ, ◌≡◌, ◌⊎◌, inl, inr, refl, sym, ap, ◌∙◌, append-nil, Option, none, some, true, false, [], ◌∷◌,
  arith, Bool-cases,
}
use simple_rfcomm.Prelude.Int.{ℤ, is_negative, is_zero, is_positive}
use simple_rfcomm.Address.{Address}
use simple_rfcomm.Os.{Os, Run}
use simple_rfcomm.Os.Traffic.{
  opened_handles, closed_handles, opened_handles-append, closed_handles-append,
}
use simple_rfcomm.Socket.{
  Socket, is_open, native_handle, peer_address, peer_channel, close_socket_handle, from_native,
}
use simple_rfcomm.Socket.Options.{from_native_lem}
use simple_rfcomm.Platform.{address_to_bdaddr}
use simple_rfcomm.Client.{connect, finish_connect, set_default_buffers, set_connect_timeout}

-- The descriptors of a call that returns a socket or the null pointer.
abbrev pub Owns : (os : Os) → Address → ℕ → Run os.World (Option Socket) → Type 0
Owns os addr channel r =
    ((r.value ≡ none) × (closed_handles r.calls ≡ opened_handles r.calls))
    ⊎ ((sock : Socket) × (r.value ≡ some sock)
        × (opened_handles r.calls ≡ native_handle sock ∷ [])
        × (is_negative (native_handle sock) ≡ false)
        × (closed_handles r.calls ≡ [])
        × (is_open sock ≡ true)
        × (peer_address sock ≡ addr)
        × (peer_channel sock ≡ channel))

module _ (os : Os) where
  pub from_native-handles :
      (fd : ℤ) (addr : Address) (channel : ℕ) (w : os.World)
      → let r = from_native os fd addr channel w in
        (opened_handles r.calls ≡ []) × (closed_handles r.calls ≡ [])
  unfolding from_native is_open
  from_native-handles fd addr channel w = ground arith

  finish_connect-Owns :
      (fd : ℤ) (addr : Address) (channel : ℕ) (w : os.World)
      → is_negative fd ≡ false
      → let r = finish_connect os fd addr channel w in
        (opened_handles r.calls ≡ [])
        × (((r.value ≡ none) × (closed_handles r.calls ≡ fd ∷ []))
            ⊎ ((sock : Socket) × (r.value ≡ some sock)
                × (fd ≡ native_handle sock)
                × (closed_handles r.calls ≡ [])
                × (is_open sock ≡ true)
                × (peer_address sock ≡ addr)
                × (peer_channel sock ≡ channel)))
  unfolding finish_connect close_socket_handle
  finish_connect-Owns fd addr channel w valid =
      let w' = (os.do_connect fd (address_to_bdaddr addr) channel w).1 in
      elim (Bool-cases (is_zero (os.do_connect fd (address_to_bdaddr addr) channel w).0)) [
        | inr refused ↦ rw (refused, valid) (refl, inl (refl, refl))
        | inl connected ↦
            let (none_opened, none_closed) = from_native-handles fd addr channel w' in
            let (open_now, handle, peer, peer_ch, _) =
              from_native_lem os fd addr channel w' valid in
            rw (connected, append-nil, none_opened, none_closed)
              (refl, inr (_, refl, sym handle, refl, open_now, peer, peer_ch))
      ]

  set_connect_timeout-handles :
      (fd timeout : ℤ) (w : os.World)
      → let r = set_connect_timeout os fd timeout w in
        (opened_handles r.calls ≡ []) × (closed_handles r.calls ≡ [])
  unfolding set_connect_timeout
  set_connect_timeout-handles fd timeout w = elim (Bool-cases (is_positive timeout)) [
    | inl timed ↦ rw timed (refl, refl)
    | inr untimed ↦ rw untimed (refl, refl)
  ]

  -- Whatever the system answers: if `connect` returns a socket, that is open, it holds the one
  -- valid descriptor that was opened, which has not been closed, and knows the address and the
  -- channel; if it returns none, what was opened has been closed.
  pub connect-Owns :
      (addr : Address) (channel : ℕ) (timeout : ℤ) (w : os.World)
      → Owns os addr channel (connect os addr channel timeout w)
  unfolding connect set_default_buffers
  connect-Owns addr channel timeout w = elim (Bool-cases (is_negative (os.do_socket w).0)) [
    | inl failed ↦ rw failed (inl (refl, refl))
    | inr valid ↦
        let fd = (os.do_socket w).0 in
        let t =
          set_connect_timeout os fd timeout (set_default_buffers os fd (os.do_socket w).1).world in
        let f = finish_connect os fd addr channel t.world in
        let (t_opened, t_closed) =
          set_connect_timeout-handles fd timeout
            (set_default_buffers os fd (os.do_socket w).1).world in
        let (f_opened, result) = finish_connect-Owns fd addr channel t.world valid in
        rw
          (
            valid,
            opened_handles-append t.calls f.calls,
            closed_handles-append t.calls f.calls,
            t_opened,
            t_closed,
            f_opened,
          )
          (elim result [
            | inl (failed, shut) ↦ inl (failed, shut)
            | inr (sock, made, handle, kept, open_now, peer, peer_ch) ↦ inr (
              sock,
              made,
              ap (λ h. h ∷ []) handle,
              ap is_negative (sym handle) ∙ valid,
              kept,
              open_now,
              peer,
              peer_ch,
            )
          ])
  ]
