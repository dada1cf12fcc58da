-- ===== src/Sdp/Search.antt =====
-- What the loops of `resolve_channel` find in an answer.
use simple_rfcomm.Prelude.{
  ℕ, zero, suc, ◌+◌, ◌≤◌, ◌<◌, ◌≡◌, refl, inl, inr, some, Bool, true, false, ◌&&◌, List, [], ◌∷◌,
  length, map, get_or, ltb, leb, ◌==◌, if◌then◌else◌, arith, Bool-cases,
}
use simple_rfcomm.Os.{SdpData, uuid_data, uint8_data, other_data, SdpRecord, returns}
use simple_rfcomm.Sdp.{
  Scanned, found, missing, overflow, scan_elements, scan_descriptors, scan_protocols, scan_records,
  or_next, channel_of, protocols, rfcomm_uuid,
}

abbrev pub count_uuids : List SdpData → ℕ
count_uuids [] = 0
count_uuids (uuid_data u ∷ ds) = suc (count_uuids ds)
count_uuids (_ ∷ ds) = count_uuids ds

-- The first 8-bit number of which the last UUID before it is RFCOMM's; `after` tells whether the last
-- one so far is.
abbrev pub channel_after : Bool → List SdpData → Scanned
channel_after after [] = missing
channel_after after (uuid_data u ∷ ds) = channel_after (u == rfcomm_uuid) ds
channel_after after (uint8_data v ∷ ds) =
    let later = channel_after after ds in if after then found v else later
channel_after after (other_data ∷ ds) = channel_after after ds

scan_elements-from :
    (ds : List SdpData) (proto : List ℕ)
    → length proto + count_uuids ds ≤ 10
    → scan_elements ds proto
      ≡ channel_after (ltb 0 (length proto) && (get_or proto 0 0 == rfcomm_uuid)) ds
unfolding scan_elements
scan_elements-from [] proto h = refl
scan_elements-from (uuid_data u ∷ ds) proto h =
    let room : leb 10 (length proto) ≡ false = ground (arith, h) in
    let later = scan_elements-from ds (u ∷ proto) (omega (arith, h)) in
    let here : ltb 0 (suc (length proto)) ≡ true = ground arith in rw room (rw here at later)
scan_elements-from (uint8_data v ∷ ds) proto h = rw (scan_elements-from ds proto h) refl
scan_elements-from (other_data ∷ ds) proto h = scan_elements-from ds proto h

-- In a chain with ten UUIDs at most, the loop finds the first 8-bit number of which the last UUID
-- before it is RFCOMM's.
pub scan_elements-channel_after :
    (ds : List SdpData) → count_uuids ds ≤ 10 → scan_elements ds [] ≡ channel_after false ds
scan_elements-channel_after ds h = scan_elements-from ds [] (omega (arith, h))

overflow-from :
    (us proto : List ℕ)
    → length proto ≤ 10
    → scan_elements (map uuid_data us) proto
      ≡ (if ltb 10 (length proto + length us) then overflow else missing)
unfolding scan_elements
overflow-from [] proto h =
    let fits : ltb 10 (length proto + 0) ≡ false = ground (arith, h) in rw fits refl
overflow-from (u ∷ us) proto h = elim (Bool-cases (leb 10 (length proto))) [
  | inl full ↦
      let over : ltb 10 (length proto + suc (length us)) ≡ true = ground arith in
      rw (full, over) refl
  | inr room ↦
      let shift : suc (length proto) + length us ≡ length proto + suc (length us) = omega arith in
      rw (room, overflow-from us (u ∷ proto) (ground arith), shift) refl
]

-- A chain of UUIDs alone makes the loop write behind the end of `proto` exactly when it has more than
-- ten.
pub scan_elements-overflow :
    (us : List ℕ)
    → scan_elements (map uuid_data us) [] ≡ (if ltb 10 (length us) then overflow else missing)
scan_elements-overflow us =
    let same : 0 + length us ≡ length us = omega arith in
    rw (overflow-from us [] (omega arith), same) refl

-- The channel of a service that `create` has described, if it is not 0, is what the search finds in an
-- answer that begins with its record.
pub protocols_found :
    (channel : ℕ) (r : SdpRecord) (rs : List SdpRecord)
    → 0 < channel
    → r.access_protos ≡ some (protocols channel)
    → channel_of (scan_records (r ∷ rs)) ≡ returns (some channel)
unfolding channel_of scan_records scan_protocols scan_descriptors scan_elements or_next protocols
protocols_found zero r rs h e = absurd (omega arith)
protocols_found (suc channel) r rs h e = rw e (ground arith)
