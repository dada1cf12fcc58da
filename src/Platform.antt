-- ===== src/Platform.antt =====
-- The conversions of src/platform.hpp between the library's types and those of the operating
-- systems: BlueZ's `bdaddr_t`, Windows' `BTH_ADDR` and `GUID`. Arrays are lists.
pub mod Conversions
use simple_rfcomm.Prelude.{
  ℕ, zero, suc, ◌+◌, ◌-◌, ◌%◌, ◌^◌, ◌<◌, ◌≡◌, List, [], ◌∷◌, ◌++◌, length, set, get_or, take, All,
  replicate, bit_and, bit_or,
}
use simple_rfcomm.Prelude.Bits.{shl, shr}
use simple_rfcomm.Address.{Address, IsByte, zeros, to_uint64, from_uint64}
use simple_rfcomm.Uuid.{Uuid}

-- `bdaddr_t`, of which `b[0]` is the least significant byte.
pub record BdAddr : Type 0 where
  pub b : List ℕ

pub record IsBdAddr (x : BdAddr) : Type 0 where
  pub six : length x.b ≡ 6
  pub in_range : All IsByte x.b

-- for (i = 0; i < 6; ++i) dst[i] = src[5 - i], with `rounds` still to go.
unfoldable pub fill_from_back : ℕ → ℕ → List ℕ → List ℕ → List ℕ
fill_from_back zero i src dst = dst
fill_from_back (suc rounds) i src dst =
    fill_from_back rounds (i + 1) src (set dst i (get_or src (5 - i) 0))

-- for (i = 0; i < 6; ++i) dst[5 - i] = src[i].
unfoldable pub fill_to_back : ℕ → ℕ → List ℕ → List ℕ → List ℕ
fill_to_back zero i src dst = dst
fill_to_back (suc rounds) i src dst =
    fill_to_back rounds (i + 1) src (set dst (5 - i) (get_or src i 0))

-- The loop writes all six bytes of a local variable, whose first contents do not matter.
unfoldable pub address_to_bdaddr : Address → BdAddr
unfolding fill_from_back
address_to_bdaddr addr = record { b = fill_from_back 6 0 addr.bytes zeros }

unfoldable pub bdaddr_to_address : BdAddr → Address
unfolding fill_to_back
bdaddr_to_address x = record { bytes = fill_to_back 6 0 x.b zeros }

-- `BTH_ADDR` is a 64-bit number.
unfoldable pub address_to_bth : Address → ℕ
unfolding to_uint64
address_to_bth addr = to_uint64 addr

unfoldable pub bth_to_address : ℕ → Address
unfolding from_uint64
bth_to_address bth = from_uint64 bth

pub record Guid : Type 0 where
  pub data1 : ℕ
  pub data2 : ℕ
  pub data3 : ℕ
  pub data4 : List ℕ

-- A 32-bit field, two 16-bit fields and eight bytes.
pub record IsGuid (g : Guid) : Type 0 where
  pub word1 : g.data1 < 2 ^ 32
  pub word2 : g.data2 < 2 ^ 16
  pub word3 : g.data3 < 2 ^ 16
  pub eight : length g.data4 ≡ 8
  pub in_range : All IsByte g.data4

-- for (i = 0; i < 8; ++i) dst[to + i] = src[from + i].
unfoldable pub copy_eight : ℕ → ℕ → ℕ → List ℕ → List ℕ → List ℕ
copy_eight zero from to src dst = dst
copy_eight (suc rounds) from to src dst =
    copy_eight rounds (from + 1) (to + 1) src (set dst to (get_or src from 0))

unfoldable pub uuid_to_guid : Uuid → Guid
unfolding copy_eight
uuid_to_guid u = record {
  data1 =
      bit_or
        (bit_or (bit_or (shl (byte 0) 24 % 2 ^ 32) (shl (byte 1) 16 % 2 ^ 32))
          (shl (byte 2) 8 % 2 ^ 32))
        (byte 3);
  data2 = bit_or (shl (byte 4) 8) (byte 5) % 2 ^ 16;
  data3 = bit_or (shl (byte 6) 8) (byte 7) % 2 ^ 16;
  data4 = copy_eight 8 8 0 u.bytes (replicate 8 0);
}
  where
    byte : ℕ → ℕ
    byte i = get_or u.bytes i 0

-- static_cast<uint8_t>((word >> k) & 0xFF)
abbrev pub byte_of : ℕ → ℕ → ℕ
byte_of word k = bit_and (shr word k) 0xff % 256

unfoldable pub guid_to_uuid : Guid → Uuid
unfolding copy_eight
guid_to_uuid g = record { bytes = copy_eight 8 0 8 g.data4 (words ++ replicate 8 0) }
  where
    words : List ℕ
    words =
        byte_of g.data1 24
        ∷ byte_of g.data1 16
        ∷ byte_of g.data1 8
        ∷ byte_of g.data1 0
        ∷ byte_of g.data2 8
        ∷ byte_of g.data2 0
        ∷ byte_of g.data3 8
        ∷ byte_of g.data3 0
        ∷ []
