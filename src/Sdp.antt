-- ===== src/Sdp.antt =====
-- `rfcomm::sdp` of src/sdp_linux.cpp: the registration of a service and the search for the channel
-- of a remote service. BlueZ's SDP library is a part of the interface `Os`. A record, a session and
-- the lists that BlueZ keeps are handles or values, so the release of list cells is not modelled.
pub mod Search
pub mod Sessions
use simple_rfcomm.Prelude.{
  ℕ, zero, suc, ◌+◌, Option, none, some, Bool, true, false, not, ◌&&◌, ◌||◌, List, [], ◌∷◌, ◌++◌,
  length, get_or, ltb, leb, ◌==◌, if◌then◌else◌, replicate,
}
use simple_rfcomm.Prelude.Int.{ℤ, is_negative, is_zero}
use simple_rfcomm.Address.{Address}
use simple_rfcomm.Uuid.{Uuid}
use simple_rfcomm.Platform.{BdAddr, address_to_bdaddr}
use simple_rfcomm.Os.{
  Os, Action, Outcome, returns, undefined, SdpData, uuid_data, uint8_data, other_data, SdpRecord,
  SdpAttribute, service_id, service_classes, browse_groups, access_protocols, info, pure, ◌>>=◌,
  ◌>>◌, sys_record_alloc, sys_record_set, sys_sdp_connect, sys_record_register,
  sys_record_unregister, sys_sdp_close, sys_sdp_search,
}

pub record RegistrationImpl : Type 0 where
  pub session : Option ℕ
  pub rec : Option ℕ
  pub registered : Bool

-- The UUIDs of the protocols and of the public browse group.
abbrev pub rfcomm_uuid : ℕ
rfcomm_uuid = 3

abbrev pub l2cap_uuid : ℕ
l2cap_uuid = 256

abbrev pub public_browse_group : ℕ
public_browse_group = 4098

unfoldable pub new_registration : RegistrationImpl
new_registration = record { session = none; rec = none; registered = false }

unfoldable pub is_registered : RegistrationImpl → Bool
is_registered reg = reg.registered

-- The protocol descriptors of a service on `channel`: L2CAP, and RFCOMM with its channel.
unfoldable pub protocols : ℕ → List (List (List SdpData))
protocols channel =
    ((uuid_data l2cap_uuid ∷ []) ∷ (uuid_data rfcomm_uuid ∷ uint8_data channel ∷ []) ∷ []) ∷ []

-- What the loop over a chain of elements leaves: a value that it found, and whether it wrote behind
-- the end of `proto`, an array of ten numbers.
pub data Scanned : Type 0 where
  found : ℕ → Scanned
  missing : Scanned
  overflow : Scanned

-- The loop over the elements of one descriptor, with the UUIDs in `proto`, the last one first.
unfoldable pub scan_elements : List SdpData → List ℕ → Scanned
scan_elements [] proto = missing
scan_elements (uuid_data u ∷ ds) proto =
    let rest = scan_elements ds (u ∷ proto) in if leb 10 (length proto) then overflow else rest
scan_elements (uint8_data v ∷ ds) proto =
    let rest = scan_elements ds proto in
    if ltb 0 (length proto) && (get_or proto 0 0 == rfcomm_uuid) then found v else rest
scan_elements (other_data ∷ ds) proto = scan_elements ds proto

-- if (found_channel > 0) break;
unfoldable pub or_next : Scanned → Scanned → Scanned
or_next (found zero) next = next
or_next (found (suc v)) next = found (suc v)
or_next missing next = next
or_next overflow next = overflow

-- The elements of one protocol's list of chains.
unfoldable pub scan_descriptors : List (List SdpData) → Scanned
scan_descriptors [] = missing
scan_descriptors (d ∷ ds) = or_next (scan_elements d []) (scan_descriptors ds)

unfoldable pub scan_protocols : List (List (List SdpData)) → Scanned
scan_protocols [] = missing
scan_protocols (p ∷ ps) = or_next (scan_descriptors p) (scan_protocols ps)

unfoldable pub scan_records : List SdpRecord → Scanned
scan_records [] = missing
scan_records (r ∷ rs) =
    let rest = scan_records rs in
    elim r.access_protos [ none ↦ rest | some protos ↦ or_next (scan_protocols protos) rest ]

-- The result for the channel that the loops left; a channel of 0 is none.
unfoldable pub channel_of : Scanned → Outcome (Option ℕ)
channel_of (found v) = returns (if ltb 0 v then some v else none)
channel_of missing = returns none
channel_of overflow = undefined

module _ (os : Os) where
  -- `Registration::Impl::unregister`
  unfoldable pub unregister : RegistrationImpl → Action os.World RegistrationImpl
  unregister reg = do
    elim reg.session [
      | none ↦ pure tt
      | some session ↦ elim reg.rec [
        | none ↦ pure tt
        | some rec ↦ if reg.registered then sys_record_unregister os session rec else pure tt
      ]
    ]
    elim reg.session [ none ↦ pure tt | some session ↦ sys_sdp_close os session ]
    pure (record {
      session = none;
      rec = none;
      registered = elim reg.session [
        | none ↦ reg.registered
        | some _ ↦ elim reg.rec [ none ↦ reg.registered | some _ ↦ false ]
      ];
    })

  -- Connecting and registering, behind the description of the record.
  unfoldable pub register_record : ℕ → Action os.World (Option RegistrationImpl)
  register_record rec = do
    session ← sys_sdp_connect os (record { b = 0 ∷ 0 ∷ 0 ∷ 255 ∷ 255 ∷ 255 ∷ [] })
    elim session [
      | none ↦ pure none
      | some s ↦ do
        status ← sys_record_register os s rec
        if is_negative status
            then (sys_sdp_close os s >> pure none)
            else pure (some (record { session = some s; rec = some rec; registered = true }))
    ]

  -- The attributes of the service record.
  unfoldable pub describe : ℕ → ℕ → Uuid → List ℕ → List ℕ → Action os.World (Unit {0})
  describe rec channel uuid service_name provider = do
    sys_record_set os rec (service_id uuid.bytes)
    sys_record_set os rec (service_classes (uuid.bytes ∷ []))
    sys_record_set os rec (browse_groups (public_browse_group ∷ []))
    sys_record_set os rec (access_protocols (protocols channel))
    sys_record_set os rec (info service_name provider service_name)

  -- `Registration::create`; the destructor of a registration that failed has no session to close.
  unfoldable pub create : ℕ → Uuid → List ℕ → List ℕ → Action os.World (Option RegistrationImpl)
  create channel uuid service_name provider = do
    rec ← sys_record_alloc os
    elim rec [
      | none ↦ pure none
      | some r ↦ describe r channel uuid service_name provider >> register_record r
    ]

  unfoldable pub resolve_channel : Address → Uuid → Action os.World (Outcome (Option ℕ))
  unfolding address_to_bdaddr
  resolve_channel target uuid = do
    session ← sys_sdp_connect os (address_to_bdaddr target)
    elim session [
      | none ↦ pure (returns none)
      | some s ↦ do
        (status, answer) ← sys_sdp_search os s uuid.bytes
        let scanned =
            if is_zero status
            then elim answer [ none ↦ missing | some records ↦ scan_records records ]
            else missing
        sys_sdp_close os s
        pure (channel_of scanned)
    ]
