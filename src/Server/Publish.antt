-- ===== src/Server/Publish.antt =====
-- `Server::listen_with_sdp` on a new server: which descriptors it leaves open.
use simple_rfcomm.Prelude.{
  ℕ, ◌≡◌, ◌≤◌, length, Bool-cases, ◌⊎◌, inl, inr, refl, append-nil, none, some, Bool, true, false,
  List, [], ◌∷◌, arith, Option-cases,
}
use simple_rfcomm.Prelude.Int.{ℤ, negsuc}
use simple_rfcomm.Uuid.{Uuid}
use simple_rfcomm.Os.{Os, Run, Outcome, returns}
use simple_rfcomm.Os.Traffic.{
  opened_handles, closed_handles, opened_handles-append, closed_handles-append, if_valid,
}
use simple_rfcomm.Sdp.{create, describe, register_record}
use simple_rfcomm.Server.{
  ServerImpl, Server, new_server, is_listening, channel_number, listen_impl, add_registration,
  listen_with_sdp, close_impl, close_server,
}
use simple_rfcomm.Server.Listen.{listen_handles, listen_impl-few, close_impl-handles}

module _ (os : Os) where
  -- The calls of the SDP library open and close no descriptor of the program.
  create-handles :
      (channel : ℕ) (uuid : Uuid) (service_name provider : List ℕ) (w : os.World)
      → let r = create os channel uuid service_name provider w in
        (opened_handles r.calls ≡ []) × (closed_handles r.calls ≡ [])
  unfolding create describe register_record
  create-handles channel uuid service_name provider w = ground arith

  -- What a listen with a service record leaves of a new server.
  abbrev pub Publishes : ℕ → Run os.World (Outcome (Bool × Server)) → Type 0
  Publishes ch r =
      (s : ServerImpl) × (((r.value ≡ returns (false, some s))
          × (if_valid s.listen_fd ≡ [])
          × (closed_handles r.calls ≡ opened_handles r.calls))
        ⊎ ((r.value ≡ returns (true, some s))
            × (opened_handles r.calls ≡ s.listen_fd ∷ [])
            × (if_valid s.listen_fd ≡ s.listen_fd ∷ [])
            × (closed_handles r.calls ≡ [])
            × ((ch ≡ 0) ⊎ (s.channel ≡ ch))))

  not_listening : (s : ServerImpl) → is_listening (some s) ≡ false → if_valid s.listen_fd ≡ []
  unfolding is_listening
  not_listening s h = ground (arith, h)

  -- The registration behind a listen that has opened `fd`.
  add_registration-handles :
      (provider : List ℕ) (s : ServerImpl) (uuid : Uuid) (service_name : List ℕ) (w : os.World)
      → let r = add_registration os provider s uuid service_name w in
        (opened_handles r.calls ≡ [])
        × (((r.value.0 ≡ false)
              × (if_valid r.value.1.listen_fd ≡ [])
              × (closed_handles r.calls ≡ if_valid s.listen_fd))
            ⊎ ((r.value.0 ≡ true)
                × (r.value.1.listen_fd ≡ s.listen_fd)
                × (r.value.1.channel ≡ s.channel)
                × (closed_handles r.calls ≡ [])))
  unfolding add_registration
  add_registration-handles provider s uuid service_name w =
      let c = create os s.channel uuid service_name provider w in
      let (c_opened, c_closed) = create-handles s.channel uuid service_name provider w in
      elim (Option-cases c.value) [
        | inr (reg, made) ↦
            rw (made, append-nil c.calls) (c_opened, inr (refl, refl, refl, c_closed))
        | inl failed ↦
            let e = close_impl os s c.world in
            let (fresh, e_opened, e_closed) = close_impl-handles os s c.world in
            rw
              (
                failed,
                append-nil e.calls,
                opened_handles-append c.calls e.calls,
                closed_handles-append c.calls e.calls,
                c_opened,
                c_closed,
                e_opened,
                e_closed,
                fresh,
              )
              (refl, inl (refl, refl, refl))
      ]

  -- Whatever the system and the SDP server answer, `listen_with_sdp` on a new server returns. If it
  -- succeeds, it leaves open the one valid descriptor that it has opened, which is the server's, on
  -- the requested channel unless that is 0. If it fails, at the socket, at a channel, at the listen
  -- or at the record, the server holds no descriptor and all that was opened has been closed.
  pub listen_with_sdp_lem :
      (provider : List ℕ) (uuid : Uuid) (service_name : List ℕ) (ch : ℕ) (backlog : ℤ)
      (w : os.World)
      → Publishes ch (listen_with_sdp os provider new_server uuid service_name ch backlog w)
  unfolding listen_with_sdp new_server channel_number
  listen_with_sdp_lem provider uuid service_name ch backlog w =
      let fresh : ServerImpl = record { listen_fd = negsuc 0; channel = 0; sdp_reg = none } in
      let l = listen_impl os fresh ch backlog w in
      elim (listen_handles os fresh ch backlog w) [
        | inl (failed, idle, _, shut) ↦
            rw (failed, append-nil l.calls)
              (l.value.1, inl (refl, not_listening l.value.1 idle, shut))
        | inr (fd, ok, held, valid, _, one, kept, _, asked) ↦
            let a = add_registration os provider l.value.1 uuid service_name l.world in
            let (a_opened, result) =
              add_registration-handles provider l.value.1 uuid service_name l.world in
            let whole : if_valid fd ≡ fd ∷ [] = rw valid refl in
            rw
              (
                ok,
                append-nil a.calls,
                opened_handles-append l.calls a.calls,
                closed_handles-append l.calls a.calls,
                one,
                kept,
                a_opened,
              )
              (
                a.value.1,
                elim result [
                  | inl (failed, idle, shut) ↦
                      inl (rw failed refl, idle, rw (shut, held, whole) refl)
                  | inr (done, same, same_ch, still) ↦ inr (
                    rw done refl,
                    rw (same, held) refl,
                    rw (same, held) whole,
                    still,
                    rw same_ch asked,
                  )
                ],
              )
      ]

  pub close_server-handles :
      (s : ServerImpl) (w : os.World)
      → let r = close_server os (some s) w in
        (opened_handles r.calls ≡ []) × (closed_handles r.calls ≡ if_valid s.listen_fd)
  unfolding close_server
  close_server-handles s w =
      let (_, o, c) = close_impl-handles os s w in rw (append-nil (close_impl os s w).calls) (o, c)

  -- It opens one descriptor at most.
  pub listen_with_sdp-few :
      (provider : List ℕ) (server : Server) (uuid : Uuid) (service_name : List ℕ) (ch : ℕ)
      (backlog : ℤ) (w : os.World)
      → let r = listen_with_sdp os provider server uuid service_name ch backlog w in
        length (opened_handles r.calls) ≤ 1
  unfolding listen_with_sdp
  listen_with_sdp-few provider none uuid service_name ch backlog w = omega arith
  listen_with_sdp-few provider (some s) uuid service_name ch backlog w =
      let l = listen_impl os s ch backlog w in
      let few = listen_impl-few os s ch backlog w in
      elim (Bool-cases l.value.0) [
        | inl ok ↦
            let a = add_registration os provider l.value.1 uuid service_name l.world in
            let (a_opened, _) =
              add_registration-handles provider l.value.1 uuid service_name l.world in
            rw
              (
                ok,
                append-nil a.calls,
                opened_handles-append l.calls a.calls,
                a_opened,
                append-nil (opened_handles l.calls),
              )
              few
        | inr failed ↦ rw (failed, append-nil l.calls) few
      ]
