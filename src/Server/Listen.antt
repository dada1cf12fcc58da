-- ===== src/Server/Listen.antt =====
-- `Server::listen` and `Server::accept`: which channel is taken, and which descriptors stay open.
use simple_rfcomm.Prelude.{
  ℕ, zero, suc, ◌≡◌, ◌≤◌, length, ◌⊎◌, inl, inr, refl, append-nil, Option, none, some, Bool, true,
  false, not, List, [], ◌∷◌, ◌++◌, ◌==◌, arith, Bool-cases, Option-cases,
}
use simple_rfcomm.Prelude.Int.{ℤ, is_negative, is_zero, is_minus_one, minus_one, pos, negsuc}
use simple_rfcomm.Os.{Os, Run}
use simple_rfcomm.Os.Traffic.{
  opened_handles, closed_handles, opened_handles-append, closed_handles-append, if_valid,
}
use simple_rfcomm.Socket.{close_socket_handle}
use simple_rfcomm.Sdp.{RegistrationImpl, unregister}
use simple_rfcomm.Client.{set_default_buffers}
use simple_rfcomm.Server.Bind.{bind_channel-handles}
use simple_rfcomm.Server.{
  ServerImpl, is_listening, channel_number, close_impl, close_registration, close_descriptor,
  bind_channel, listen_on, listen_impl,
}

module _ (os : Os) where
  -- What a listen on `fd` leaves, from a server that holds no descriptor.
  listen_on-handles :
      (s : ServerImpl) (fd : ℤ) (ch : ℕ) (backlog : ℤ) (w : os.World)
      → is_negative fd ≡ false
      → let r = listen_on os s fd ch backlog w in
        (opened_handles r.calls ≡ [])
        × (((r.value ≡ (false, s)) × (closed_handles r.calls ≡ fd ∷ []))
            ⊎ ((taken : ℕ) × (r.value ≡ (true, record s { listen_fd = fd; channel = taken }))
                × (closed_handles r.calls ≡ [])
                × ((taken == 0) ≡ false)
                × ((ch ≡ 0) ⊎ (taken ≡ ch))))
  unfolding listen_on set_default_buffers close_socket_handle
  listen_on-handles s fd ch backlog w valid =
      let w' = (set_default_buffers os fd w).world in
      let b = bind_channel os ch fd w' in
      let (b_opened, b_closed, asked) = bind_channel-handles os ch fd w' in
      elim (Bool-cases (b.value == 0)) [
        | inl none_bound ↦
            rw (none_bound, valid, opened_handles-append, closed_handles-append, b_opened, b_closed)
              (refl, inl (refl, refl))
        | inr taken ↦ elim (Bool-cases (is_zero (os.do_listen fd backlog b.world).0)) [
          | inl listening ↦
              rw
                (taken, listening, opened_handles-append, closed_handles-append, b_opened, b_closed)
                (
                  refl,
                  inr (
                    b.value,
                    refl,
                    refl,
                    taken,
                    elim asked [
                      | inl any_channel ↦ inl any_channel
                      | inr (inl none_bound) ↦ absurd (ground (arith, none_bound, taken))
                      | inr (inr same) ↦ inr same
                    ],
                  ),
                )
          | inr refused ↦
              rw
                (
                  taken, refused, valid, opened_handles-append, closed_handles-append, b_opened,
                  b_closed,
                )
                (refl, inl (refl, refl))
        ]
      ]

  unregister-handles :
      (reg : RegistrationImpl) (w : os.World)
      → let r = unregister os reg w in (opened_handles r.calls ≡ []) × (closed_handles r.calls ≡ [])
  unfolding unregister
  unregister-handles reg w = elim (Option-cases reg.session) [
    | inl no_session ↦ rw no_session (refl, refl)
    | inr (session, e) ↦ elim (Option-cases reg.rec) [
      | inl no_record ↦ rw (e, no_record) (refl, refl)
      | inr (rec, e') ↦ elim (Bool-cases reg.registered) [
        | inl registered ↦ rw (e, e', registered) (refl, refl)
        | inr unregistered ↦ rw (e, e', unregistered) (refl, refl)
      ]
    ]
  ]

  abbrev pub closed_impl : ServerImpl
  closed_impl = record { listen_fd = minus_one; channel = 0; sdp_reg = none }

  close_descriptor-handles :
      (fd : ℤ) (w : os.World)
      → let r = close_descriptor os fd w in
        (opened_handles r.calls ≡ []) × (closed_handles r.calls ≡ if_valid fd)
  unfolding close_descriptor close_socket_handle
  close_descriptor-handles (pos n) w = (refl, refl)
  close_descriptor-handles (negsuc zero) w = (refl, refl)
  close_descriptor-handles (negsuc (suc n)) w = (refl, refl)

  close_registration-handles :
      (o : Option RegistrationImpl) (w : os.World)
      → let r = close_registration os o w in
        (opened_handles r.calls ≡ []) × (closed_handles r.calls ≡ [])
  unfolding close_registration
  close_registration-handles none w = (refl, refl)
  close_registration-handles (some reg) w =
      rw (append-nil (unregister os reg w).calls) (unregister-handles reg w)

  pub close_impl-handles :
      (s : ServerImpl) (w : os.World)
      → let r = close_impl os s w in
        (r.value ≡ closed_impl)
        × (opened_handles r.calls ≡ [])
        × (closed_handles r.calls ≡ if_valid s.listen_fd)
  unfolding close_impl
  close_impl-handles s w =
      let g = close_registration os s.sdp_reg w in
      let d = close_descriptor os s.listen_fd g.world in
      let (g_opened, g_closed) = close_registration-handles s.sdp_reg w in
      let (d_opened, d_closed) = close_descriptor-handles s.listen_fd g.world in
      rw
        (
          append-nil d.calls,
          opened_handles-append g.calls d.calls,
          closed_handles-append g.calls d.calls,
          g_opened,
          g_closed,
          d_opened,
          d_closed,
        )
        (refl, refl, refl)

  -- What a listen leaves open and closes, of a server that held `held`.
  abbrev pub Listens : List ℤ → ℕ → Run os.World (Bool × ServerImpl) → Type 0
  Listens held ch r =
      ((r.value.0 ≡ false)
        × (is_listening (some r.value.1) ≡ false)
        × (channel_number (some r.value.1) ≡ 0)
        × (closed_handles r.calls ≡ held ++ opened_handles r.calls))
      ⊎ ((fd : ℤ) × (r.value.0 ≡ true)
          × (r.value.1.listen_fd ≡ fd)
          × (is_negative fd ≡ false)
          × (is_listening (some r.value.1) ≡ true)
          × (opened_handles r.calls ≡ fd ∷ [])
          × (closed_handles r.calls ≡ held)
          × ((channel_number (some r.value.1) == 0) ≡ false)
          × ((ch ≡ 0) ⊎ (channel_number (some r.value.1) ≡ ch)))

  pub is_negative-is_listening : (fd : ℤ) → is_negative fd ≡ false → not (is_minus_one fd) ≡ true
  is_negative-is_listening (pos n) h = refl
  is_negative-is_listening (negsuc n) h = absurd (ground (arith, h))

  -- Whatever the system answers, `listen` first closes the descriptor that the server held. If it
  -- succeeds, the server listens on the one valid descriptor that was opened, which stays open, on
  -- a channel that is not 0 and is the requested one unless that is 0. If it fails, the server does
  -- not listen, its channel is 0, and what was opened has been closed.
  pub listen_handles :
      (s : ServerImpl) (ch : ℕ) (backlog : ℤ) (w : os.World)
      → Listens (if_valid s.listen_fd) ch (listen_impl os s ch backlog w)
  unfolding listen_impl is_listening channel_number
  listen_handles s ch backlog w =
      let c = close_impl os s w in
      let (fresh, c_opened, c_closed) = close_impl-handles s w in
      let fd = (os.do_socket c.world).0 in
      let w' = (os.do_socket c.world).1 in
      elim (Bool-cases (is_negative fd)) [
        | inl failed ↦
            rw (failed, opened_handles-append, closed_handles-append, c_opened, c_closed, fresh)
              (rw failed (inl (refl, refl, refl, refl)))
        | inr valid ↦
            let l = listen_on os closed_impl fd ch backlog w' in
            let (l_opened, result) = listen_on-handles closed_impl fd ch backlog w' valid in
            rw (valid, fresh, opened_handles-append, closed_handles-append, c_opened, c_closed)
              (rw (valid, l_opened)
                (elim result [
                  | inl (same, shut) ↦ rw (same, shut) (inl (refl, refl, refl, refl))
                  | inr (taken, same, kept, nonzero, asked) ↦
                      rw (same, kept, append-nil)
                        (inr (
                          fd,
                          refl,
                          refl,
                          valid,
                          is_negative-is_listening fd valid,
                          refl,
                          refl,
                          nonzero,
                          asked,
                        ))
                ]))
      ]

  -- A listen opens one descriptor at most.
  pub listen_impl-few :
      (s : ServerImpl) (ch : ℕ) (backlog : ℤ) (w : os.World)
      → length (opened_handles (listen_impl os s ch backlog w).calls) ≤ 1
  unfolding listen_impl
  listen_impl-few s ch backlog w =
      let c = close_impl os s w in
      let (fresh, c_opened, _) = close_impl-handles s w in
      let fd = (os.do_socket c.world).0 in
      elim (Bool-cases (is_negative fd)) [
        | inl failed ↦ rw (failed, opened_handles-append, c_opened) (rw failed (omega arith))
        | inr valid ↦
            let (l_opened, _) =
              listen_on-handles closed_impl fd ch backlog (os.do_socket c.world).1 valid in
            rw (valid, fresh, opened_handles-append, c_opened) (rw (valid, l_opened) (omega arith))
      ]
