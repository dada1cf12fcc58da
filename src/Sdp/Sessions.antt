-- ===== src/Sdp/Sessions.antt =====
-- The sessions with an SDP server that a registration and a search open and close.
use simple_rfcomm.Prelude.{
  ℕ, ◌≡◌, refl, inl, inr, none, some, true, false, List, [], ◌∷◌, Bool-cases, Option-cases, ◌⊎◌,
}
use simple_rfcomm.Prelude.Int.{is_negative}
use simple_rfcomm.Address.{Address}
use simple_rfcomm.Uuid.{Uuid}
use simple_rfcomm.Platform.{address_to_bdaddr, BdAddr}
use simple_rfcomm.Os.{Os}
use simple_rfcomm.Os.Ledger.{IsQuiet}
use simple_rfcomm.Os.Traffic.{opened_handles, closed_handles, opened_sessions, closed_sessions}
use simple_rfcomm.Sdp.{
  RegistrationImpl, is_registered, unregister, create, describe, register_record, resolve_channel,
}

module _ (os : Os) where
  -- A search for a channel closes the session that it opens, whatever the answer (one that
  -- overflows `proto` aside, where the code's behaviour is undefined).
  pub resolve_closes :
      (target : Address) (uuid : Uuid) (w : os.World)
      → let r = resolve_channel os target uuid w in
        closed_sessions r.calls ≡ opened_sessions r.calls
  unfolding resolve_channel
  resolve_closes target uuid w =
      elim (Option-cases (os.sdp_connect (address_to_bdaddr target) w).0) [
        | inl failed ↦ rw failed refl
        | inr (s, connected) ↦ rw connected refl
      ]

  abbrev local_server : BdAddr
  local_server = record { b = 0 ∷ 0 ∷ 0 ∷ 255 ∷ 255 ∷ 255 ∷ [] }

  abbrev registered_at : ℕ → ℕ → RegistrationImpl
  registered_at s rec = record { session = some s; rec = some rec; registered = true }

  register_record-sessions :
      (rec : ℕ) (w : os.World)
      → let r = register_record os rec w in
        ((r.value ≡ none) × (closed_sessions r.calls ≡ opened_sessions r.calls))
        ⊎ ((s : ℕ) × (r.value ≡ some (registered_at s rec))
            × (opened_sessions r.calls ≡ s ∷ [])
            × (closed_sessions r.calls ≡ []))
  unfolding register_record
  register_record-sessions rec w = elim (Option-cases (os.sdp_connect local_server w).0) [
    | inl failed ↦ rw failed (inl (refl, refl))
    | inr (s, connected) ↦
        let w' = (os.sdp_connect local_server w).1 in
        elim (Bool-cases (is_negative (os.sdp_record_register s rec w').0)) [
          | inl refused ↦ rw (connected, refused) (inl (refl, refl))
          | inr accepted ↦ rw (connected, accepted) (inr (s, refl, refl, refl))
        ]
  ]

  -- What `unregister` makes of a registration that is `registered_at` a session.
  abbrev pub Ends : RegistrationImpl → List ℕ → os.World → Type 0
  Ends reg sessions w =
      let u = unregister os reg w in
      (is_registered reg ≡ true)
      × (is_registered u.value ≡ false)
      × (closed_sessions u.calls ≡ sessions)
      × (opened_sessions u.calls ≡ [])

  -- A registration that fails leaves no session open. One that succeeds leaves its session open and
  -- is registered, until `unregister` closes that session and it is registered no more.
  pub registration_closes :
      (channel : ℕ) (uuid : Uuid) (service_name provider : List ℕ) (w : os.World)
      → let r = create os channel uuid service_name provider w in
        ((r.value ≡ none) × (closed_sessions r.calls ≡ opened_sessions r.calls))
        ⊎ ((reg : RegistrationImpl) × (r.value ≡ some reg)
            × (closed_sessions r.calls ≡ [])
            × Ends reg (opened_sessions r.calls) r.world)
  unfolding create describe unregister is_registered
  registration_closes channel uuid service_name provider w =
      elim (Option-cases (os.sdp_record_alloc w).0) [
        | inl failed ↦ rw failed (inl (refl, refl))
        | inr (rec, allocated) ↦
            let w' =
              (describe os rec channel uuid service_name provider
                (os.sdp_record_alloc w).1).world in
            rw allocated (elim (register_record-sessions rec w') [
              | inl (none_made, balanced) ↦ inl (none_made, balanced)
              | inr (s, made, one, shut) ↦
                  inr (registered_at s rec, made, shut, (refl, refl, rw one refl, refl))
            ])
      ]

  resolve_quiet :
      (target : Address) (uuid : Uuid) (w : os.World)
      → let r = resolve_channel os target uuid w in
        (opened_handles r.calls ≡ []) × (closed_handles r.calls ≡ [])
  unfolding resolve_channel
  resolve_quiet target uuid w =
      elim (Option-cases (os.sdp_connect (address_to_bdaddr target) w).0) [
        | inl failed ↦ rw failed (refl, refl)
        | inr (s, connected) ↦ rw connected (refl, refl)
      ]

  pub resolve_channel-IsQuiet :
      (target : Address) (uuid : Uuid) → IsQuiet (resolve_channel os target uuid)
  resolve_channel-IsQuiet target uuid = record {
    none_opened = λ w. (resolve_quiet target uuid w).0;
    none_closed = λ w. (resolve_quiet target uuid w).1;
  }
