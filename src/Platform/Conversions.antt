-- ===== src/Platform/Conversions.antt =====
-- What the conversions of src/platform.hpp keep.
use simple_rfcomm.Prelude.{
  ℕ, ◌+◌, ◌*◌, ◌%◌, ◌^◌, ◌<◌, ◌≡◌, refl, List, [], ◌∷◌, length, All, arith, bit_or,
}
use mathlib.Core.List.{reverse}
use simple_rfcomm.Prelude.Bits.{shl, shr, bit_or-shl, bit_and-byte}
use simple_rfcomm.Address.{Address, IsByte, IsAddress, zeros}
use simple_rfcomm.Uuid.{Uuid, IsUuid}
use simple_rfcomm.Platform.{
  BdAddr, IsBdAddr, fill_from_back, fill_to_back, address_to_bdaddr, bdaddr_to_address, Guid,
  IsGuid, uuid_to_guid, guid_to_uuid, byte_of,
}

bdaddr_bytes :
    (bs : List ℕ)
    → length bs ≡ 6
    → (fill_from_back 6 0 bs zeros ≡ reverse bs)
      × (fill_to_back 6 0 (fill_from_back 6 0 bs zeros) zeros ≡ bs)
      × (fill_from_back 6 0 (fill_to_back 6 0 bs zeros) zeros ≡ bs)
unfolding fill_from_back fill_to_back
bdaddr_bytes (a ∷ b ∷ c ∷ d ∷ e ∷ f ∷ []) six = (refl, refl, refl)
bdaddr_bytes _ six = absurd (omega arith)

-- BlueZ's address holds the six bytes in the opposite order, and converting it back gives the
-- address.
pub bdaddr_to_address-address_to_bdaddr :
    (a : Address)
    → IsAddress a
    → ((address_to_bdaddr a).b ≡ reverse a.bytes) × (bdaddr_to_address (address_to_bdaddr a) ≡ a)
unfolding address_to_bdaddr bdaddr_to_address
bdaddr_to_address-address_to_bdaddr a h =
    let (reversed, back, _) = bdaddr_bytes a.bytes h.six in
    (reversed, λ i. record { bytes = back i })

-- Every BlueZ address comes back from the library's address.
pub address_to_bdaddr-bdaddr_to_address :
    (x : BdAddr) → IsBdAddr x → address_to_bdaddr (bdaddr_to_address x) ≡ x
unfolding address_to_bdaddr bdaddr_to_address
address_to_bdaddr-bdaddr_to_address x h =
    let (_, _, back) = bdaddr_bytes x.b h.six in λ i. record { b = back i }

join_two : (a b : ℕ) → a < 256 → b < 256 → bit_or (shl a 8) b % 2 ^ 16 ≡ a * 256 + b
join_two a b ha hb = rw (bit_or-shl 8 a b (omega arith)) (omega arith)

join_four :
    (a b c d : ℕ)
    → a < 256
    → b < 256
    → c < 256
    → d < 256
    → bit_or (bit_or (bit_or (shl a 24 % 2 ^ 32) (shl b 16 % 2 ^ 32)) (shl c 8 % 2 ^ 32)) d
      ≡ ((a * 256 + b) * 256 + c) * 256 + d
join_four a b c d ha hb hc hd =
    let ea : shl a 24 % 2 ^ 32 ≡ shl a 24 = omega arith in
    let eb : shl b 16 % 2 ^ 32 ≡ shl b 16 = omega arith in
    let ec : shl c 8 % 2 ^ 32 ≡ shl c 8 = omega arith in
    let two : bit_or (shl a 24) (shl b 16) ≡ shl (a * 256 + b) 16 =
      rw (bit_or-shl 24 a (shl b 16) (omega arith)) (omega arith) in
    let three : bit_or (shl (a * 256 + b) 16) (shl c 8) ≡ shl ((a * 256 + b) * 256 + c) 8 =
      rw (bit_or-shl 16 (a * 256 + b) (shl c 8) (omega arith)) (omega arith) in
    rw (ea, eb, ec, two, three) (bit_or-shl 8 ((a * 256 + b) * 256 + c) d (omega arith))

-- A Uuid's words as numbers, each with its bytes read back.
byte_of_lem : (w k : ℕ) → byte_of w k ≡ shr w k % 256
byte_of_lem w k = omega (arith, bit_and-byte (shr w k))

abbrev word_of : ℕ → ℕ → ℕ → ℕ → ℕ
word_of a b c d = ((a * 256 + b) * 256 + c) * 256 + d

split_four :
    (a b c d : ℕ)
    → a < 256
    → b < 256
    → c < 256
    → d < 256
    → (byte_of (word_of a b c d) 24 ≡ a)
      × (byte_of (word_of a b c d) 16 ≡ b)
      × (byte_of (word_of a b c d) 8 ≡ c)
      × (byte_of (word_of a b c d) 0 ≡ d)
split_four a b c d ha hb hc hd = (
  rw (byte_of_lem (word_of a b c d) 24) (omega arith),
  rw (byte_of_lem (word_of a b c d) 16) (omega arith),
  rw (byte_of_lem (word_of a b c d) 8) (omega arith),
  rw (byte_of_lem (word_of a b c d) 0) (omega arith),
)

split_two :
    (a b : ℕ) → a < 256 → b < 256 → (byte_of (a * 256 + b) 8 ≡ a) × (byte_of (a * 256 + b) 0 ≡ b)
split_two a b ha hb =
    (rw (byte_of_lem (a * 256 + b) 8) (omega arith), rw (byte_of_lem (a * 256 + b) 0) (omega arith))

uuid_bytes :
    (bs : List ℕ)
    → length bs ≡ 16
    → All IsByte bs
    → IsGuid (uuid_to_guid (record { bytes = bs }))
      × ((guid_to_uuid (uuid_to_guid (record { bytes = bs }))).bytes ≡ bs)
unfolding uuid_to_guid guid_to_uuid
uuid_bytes (a ∷ b ∷ c ∷ d ∷ e ∷ f ∷ g ∷ h ∷ i ∷ j ∷ k ∷ l ∷ m ∷ n ∷ o ∷ p ∷ []) six r = ground (
  arith,
  join_four a b c d,
  join_two e f,
  join_two g h,
  split_four a b c d,
  split_two e f,
  split_two g h,
)
uuid_bytes _ six r = absurd (omega arith)

-- Every identifier becomes a GUID whose fields fit their widths, and comes back from it.
pub guid_to_uuid-uuid_to_guid :
    (u : Uuid) → IsUuid u → IsGuid (uuid_to_guid u) × (guid_to_uuid (uuid_to_guid u) ≡ u)
guid_to_uuid-uuid_to_guid u h =
    let (fits, same) = uuid_bytes u.bytes h.sixteen h.in_range in
    (fits, λ i. record { bytes = same i })

guid_words :
    (w1 w2 w3 : ℕ) (bs : List ℕ)
    → w1 < 2 ^ 32
    → w2 < 2 ^ 16
    → w3 < 2 ^ 16
    → length bs ≡ 8
    → uuid_to_guid (guid_to_uuid (record { data1 = w1; data2 = w2; data3 = w3; data4 = bs }))
      ≡ record { data1 = w1; data2 = w2; data3 = w3; data4 = bs }
unfolding uuid_to_guid guid_to_uuid
guid_words w1 w2 w3 (i ∷ j ∷ k ∷ l ∷ m ∷ n ∷ o ∷ p ∷ []) h1 h2 h3 eight = ground (
  arith,
  byte_of_lem w1 24,
  byte_of_lem w1 16,
  byte_of_lem w1 8,
  byte_of_lem w1 0,
  byte_of_lem w2 8,
  byte_of_lem w2 0,
  byte_of_lem w3 8,
  byte_of_lem w3 0,
  join_four (byte_of w1 24) (byte_of w1 16) (byte_of w1 8) (byte_of w1 0),
  join_two (byte_of w2 8) (byte_of w2 0),
  join_two (byte_of w3 8) (byte_of w3 0),
)
guid_words w1 w2 w3 _ h1 h2 h3 eight = absurd (omega arith)

-- Every GUID comes back from its identifier.
pub uuid_to_guid-guid_to_uuid : (g : Guid) → IsGuid g → uuid_to_guid (guid_to_uuid g) ≡ g
uuid_to_guid-guid_to_uuid g h =
    guid_words g.data1 g.data2 g.data3 g.data4 h.word1 h.word2 h.word3 h.eight
