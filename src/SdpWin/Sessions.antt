-- ===== src/SdpWin/Sessions.antt =====
-- The calls by which a registration is set and deleted, and by which a search begins and ends.
use simple_rfcomm.Prelude.{
  ℕ, ◌≡◌, ◌<◌, ◌≤◌, refl, inl, inr, ◌⊎◌, Option, none, some, true, false, List, [], ◌∷◌, ◌++◌, ltb,
  arith, Bool-cases, if◌then◌else◌,
}
use simple_rfcomm.Prelude.Int.{ℤ, is_zero}
use simple_rfcomm.Address.{Address}
use simple_rfcomm.Uuid.{Uuid}
use simple_rfcomm.Platform.{Guid, uuid_to_guid}
use simple_rfcomm.SdpWin.System.{
  Service, ServiceOp, rnrservice_register, rnrservice_delete, QueryResult, WinCall, Winsock,
  service_set, error_read, lookup_begun, lookup_stepped, lookup_ended,
}
use simple_rfcomm.SdpWin.{
  WinRegistration, is_registered, wide, context_of, channel_found, is_wsaefault, unregister, create,
  next_result, resolve_channel,
}

-- The registrations and deletions among the calls.
abbrev pub settings : List WinCall → List (ServiceOp × Service)
settings [] = []
settings (service_set service op status ∷ cs) = (op, service) ∷ settings cs
settings (_ ∷ cs) = settings cs

-- The lookups that were begun, and those that were ended.
abbrev pub begun : List WinCall → List ℕ
begun [] = []
begun (lookup_begun class_id context (status, lookup) ∷ cs) =
    if is_zero status then lookup ∷ begun cs else begun cs
begun (_ ∷ cs) = begun cs

abbrev pub ended : List WinCall → List ℕ
ended [] = []
ended (lookup_ended lookup ∷ cs) = lookup ∷ ended cs
ended (_ ∷ cs) = ended cs

-- The class and the context of every lookup that was tried.
abbrev pub tried : List WinCall → List (Guid × List ℕ)
tried [] = []
tried (lookup_begun class_id context answer ∷ cs) = (class_id, context) ∷ tried cs
tried (_ ∷ cs) = tried cs

-- A question to a lookup: its handle, the size of the buffer that it was given, and the answer, which
-- is the status, the size that it leaves and the buffer.
abbrev pub Step : Type 0
Step = ℕ × ℕ × ℤ × ℕ × QueryResult

abbrev pub steps : List WinCall → List Step
steps [] = []
steps (lookup_stepped lookup size (res, len, results) ∷ cs) =
    (lookup, size, res, len, results) ∷ steps cs
steps (_ ∷ cs) = steps cs

-- The error codes that were read.
abbrev pub errors : List WinCall → List ℤ
errors [] = []
errors (error_read e ∷ cs) = e ∷ errors cs
errors (_ ∷ cs) = errors cs

-- The channel in the last answer, if there was one.
abbrev pub last_channel : List Step → Option ℕ
last_channel [] = none
last_channel ((_, _, res, _, results) ∷ []) = channel_found res results
last_channel (_ ∷ a ∷ rest) = last_channel (a ∷ rest)

-- What is asked of the lookups that were begun, where the code has read `errs`: of none, nothing. Of
-- one, a first answer into 4096 bytes; and a second one, into as many bytes as the first asks for,
-- exactly where the first has failed, the one error that was read is WSAEFAULT, and these are more.
abbrev pub Asks : List ℕ → List ℤ → List Step → Type 0
Asks [] errs [] = errs ≡ []
Asks [] errs (_ ∷ _) = ⊥
Asks (_ ∷ _ ∷ _) errs as' = ⊥
Asks (lookup ∷ []) errs [] = ⊥
Asks (lookup ∷ []) errs ((of, size, res, len, _) ∷ []) =
    (of ≡ lookup)
    × (size ≡ 4096)
    × (((is_zero res ≡ true) × (errs ≡ []))
        ⊎ ((is_zero res ≡ false)
            × ((e : ℤ) × (errs ≡ e ∷ []) × ((is_wsaefault e ≡ false) ⊎ (len ≤ 4096)))))
Asks (lookup ∷ []) errs ((of, size, res, len, _) ∷ (of', size', _, _, _) ∷ []) =
    (of ≡ lookup)
    × (of' ≡ lookup)
    × (size ≡ 4096)
    × (size' ≡ len)
    × (4096 < len)
    × (is_zero res ≡ false)
    × ((e : ℤ) × (errs ≡ e ∷ []) × (is_wsaefault e ≡ true))
Asks (lookup ∷ []) errs (_ ∷ _ ∷ _ ∷ _) = ⊥

module _ (ws : Winsock) where
  -- Where the registration of a service succeeds, it is for the service's channel and class, and over
  -- `unregister` and the destructor it is deleted once, with the same query; where it fails, nothing
  -- is deleted and there is no registration.
  pub create_deletes :
      (channel : ℕ) (uuid : Uuid) (service_name : List ℕ) (w : ws.World)
      → let r = create ws channel uuid service_name w in
        let service : Service = record {
          instance_name = wide service_name;
          class_id = uuid_to_guid uuid;
          port = channel;
        } in
        ((r.value ≡ none) × (settings r.calls ≡ (rnrservice_register, service) ∷ []))
        ⊎ ((reg : WinRegistration) × (r.value ≡ some reg)
            × (is_registered reg ≡ true)
            × (let u = unregister ws reg r.world in
                let d = unregister ws u.value u.world in
                (is_registered u.value ≡ false)
                × (settings (r.calls ++ (u.calls ++ d.calls))
                    ≡ (rnrservice_register, service) ∷ (rnrservice_delete, service) ∷ [])))
  unfolding create unregister is_registered
  create_deletes channel uuid service_name w =
      elim (Bool-cases (
        is_zero
          (ws.do_set
            (record {
              instance_name = wide service_name;
              class_id = uuid_to_guid uuid;
              port = channel;
            })
            rnrservice_register w).0)) [
              | inl ok ↦ rw ok (inr (_, refl, refl, (refl, refl)))
              | inr failed ↦ rw failed (inl (refl, refl))
            ]

  -- A search tries to begin one lookup, of the service's class at the address in parentheses, and ends
  -- it if it has begun. Where it could not begin, it asks nothing and finds no channel. Otherwise it
  -- asks that lookup for an answer into 4096 bytes, and for a second one, into as many bytes as the
  -- first asks for, exactly where the first has failed, the error read then is WSAEFAULT and these are
  -- more than 4096. Its result is the channel in the last answer.
  pub resolve_channel_ends :
      (target : Address) (uuid : Uuid) (w : ws.World)
      → let r = resolve_channel ws target uuid w in
        (tried r.calls ≡ (uuid_to_guid uuid, context_of target) ∷ [])
        × (ended r.calls ≡ begun r.calls)
        × (begun r.calls ≡ (
            let b = (ws.do_begin (uuid_to_guid uuid) (context_of target) w).0 in
            if is_zero b.0 then b.1 ∷ [] else []))
        × (r.value ≡ last_channel (steps r.calls))
        × Asks (begun r.calls) (errors r.calls) (steps r.calls)
  unfolding resolve_channel next_result
  resolve_channel_ends target uuid w =
      let b = ws.do_begin (uuid_to_guid uuid) (context_of target) w in
      let n = ws.do_next b.0.1 4096 b.1 in
      let e = ws.do_last_error n.1 in
      elim (Bool-cases (is_zero b.0.0)) [
        | inr failed ↦ rw failed (refl, refl, refl, refl, refl)
        | inl opened ↦ elim (Bool-cases (is_zero n.0.0)) [
          | inl answered ↦
              rw (opened, answered) (refl, refl, refl, refl, (refl, refl, inl (answered, refl)))
          | inr refused ↦ elim (Bool-cases (is_wsaefault e.0)) [
            | inr other ↦
                rw (opened, refused, other)
                  (refl, refl, refl, refl, (refl, refl, inr (refused, (e.0, refl, inl other))))
            | inl too_small ↦ elim (Bool-cases (ltb 4096 n.0.1)) [
              | inr no_more ↦
                  rw (opened, refused, too_small, no_more)
                    (
                      refl,
                      refl,
                      refl,
                      refl,
                      (refl, refl, inr (refused, (e.0, refl, inr (ground (arith, no_more))))),
                    )
              | inl larger ↦
                  rw (opened, refused, too_small, larger)
                    (
                      refl,
                      refl,
                      refl,
                      refl,
                      (
                        refl,
                        refl,
                        refl,
                        refl,
                        ground (arith, larger),
                        refused,
                        (e.0, refl, too_small),
                      ),
                    )
            ]
          ]
        ]
      ]
