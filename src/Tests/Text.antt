-- ===== src/Tests/Text.antt =====
-- Addresses, identifiers and their conversions, on the values that README.md and API_GUIDE.md name.
use Prim.Native.Nat.{compare}
use simple_rfcomm.Prelude.{◌^◌, ◌<◌, ◌≡◌, refl, none, some, [], ◌∷◌, arith, ◌>>=◌}
use simple_rfcomm.Command.{codes}
use simple_rfcomm.Hex.{hex_val, push_digit, upper_digit, lower_digit}
use simple_rfcomm.Address.{
  Address, IsAddress, to_string, try_parse, to_uint64, from_uint64, compare_three_way, zeros,
}
use simple_rfcomm.Address
use simple_rfcomm.Address.Parse.{read_groups, documented, read_form}
use simple_rfcomm.Uuid.Normal.{try_parse-IsUuid}
use simple_rfcomm.Address.Text.{canonical}
use simple_rfcomm.Uuid
use simple_rfcomm.Uuid.{Uuid, IsUuid, from_16bit, base_tail}
use simple_rfcomm.Uuid.Parse.{strip, read_pairs}
use simple_rfcomm.Platform.{BdAddr, address_to_bdaddr, bdaddr_to_address, Guid, uuid_to_guid}
use simple_rfcomm.Platform.Conversions

abbrev jetson : Address
jetson = record { bytes = 0x9c ∷ 0xc7 ∷ 0xd3 ∷ 0xf6 ∷ 0xe6 ∷ 0xa8 ∷ [] }

jetson-IsAddress : IsAddress jetson
jetson-IsAddress = omega arith

parse_lower_dashes : try_parse (codes "9c-c7-d3-f6-e6-a8") ≡ some jetson
unfolding try_parse hex_val push_digit
parse_lower_dashes = refl

parse_short : try_parse (codes "9C:C7:D3:F6:E6") ≡ none
unfolding try_parse hex_val push_digit
parse_short = refl

print_jetson : to_string jetson ≡ codes "9C:C7:D3:F6:E6:A8"
unfolding to_string upper_digit
print_jetson = refl

abbrev bench : Uuid
bench = record {
  bytes =
      0xe3 ∷ 0xb0 ∷ 0xc4 ∷ 0x42 ∷ 0x98 ∷ 0xfc ∷ 0x1c ∷ 0x14 ∷ 0x9a ∷ 0xfe ∷ 0x4c ∷ 0x9c ∷ 0x2e
      ∷ 0x0b ∷ 0x5f ∷ 0x12 ∷ [];
}

bench-IsUuid : IsUuid bench
bench-IsUuid = omega arith

parse_bench : Uuid.try_parse (codes "e3b0c442-98fc-1c14-9afe-4c9c2e0b5f12") ≡ some bench
unfolding Uuid.try_parse hex_val push_digit
parse_bench = refl

-- Dashes in other places are accepted too.
parse_bench_odd_dashes : Uuid.try_parse (codes "e-3b0c44298fc1c149-afe4c9c2e0b5f12--") ≡ some bench
unfolding Uuid.try_parse hex_val push_digit
parse_bench_odd_dashes = refl

parse_spp : Uuid.try_parse (codes "1101") ≡ some Uuid.serial_port
unfolding Uuid.try_parse Uuid.serial_port hex_val push_digit
parse_spp = refl

print_bench : Uuid.to_string bench ≡ codes "e3b0c442-98fc-1c14-9afe-4c9c2e0b5f12"
unfolding Uuid.to_string lower_digit
print_bench = refl

try_parse-read_groups_example :
    let str = codes "9c-c7-d3-f6-e6-a8" in
    (try_parse str ≡ (read_groups 5 str >>= λ bs. some (record { bytes = bs })))
    × (documented str ≡ try_parse str)
try_parse-read_groups_example = Address.Parse.try_parse-read_groups (codes "9c-c7-d3-f6-e6-a8")

-- A text with separators of both kinds is accepted, though it is in neither form.
mixed_separators :
    (try_parse (codes "9C:C7-D3:F6-E6:A8") ≡ some jetson)
    × (documented (codes "9C:C7-D3:F6-E6:A8") ≡ none)
unfolding try_parse hex_val push_digit read_form
mixed_separators = (refl, refl)

try_parse-to_string_example : try_parse (to_string jetson) ≡ some jetson
try_parse-to_string_example = Address.Text.try_parse-to_string jetson jetson-IsAddress

from_uint64-to_uint64_example :
    (from_uint64 (to_uint64 jetson) ≡ jetson) × (to_uint64 jetson < 2 ^ 48)
from_uint64-to_uint64_example = Address.Word.from_uint64-to_uint64 jetson jetson-IsAddress

compare_three_way-to_uint64_example :
    compare_three_way jetson (from_uint64 7)
    ≡ compare (to_uint64 jetson) (to_uint64 (from_uint64 7))
compare_three_way-to_uint64_example =
    Address.Word.compare_three_way-to_uint64 jetson (from_uint64 7) jetson-IsAddress
      (Address.Word.from_uint64-IsAddress 7)

try_parse-read_pairs_example :
    Uuid.try_parse (codes "e-3b0")
    ≡ (read_pairs 16 (strip (codes "e-3b0")) >>= λ bs. some (record { bytes = bs }))
try_parse-read_pairs_example = Uuid.Parse.try_parse-read_pairs (codes "e-3b0") (omega arith)

abbrev reversed : BdAddr
reversed = record { b = 0xa8 ∷ 0xe6 ∷ 0xf6 ∷ 0xd3 ∷ 0xc7 ∷ 0x9c ∷ [] }

address_to_bdaddr-bdaddr_to_address_example :
    address_to_bdaddr (bdaddr_to_address reversed) ≡ reversed
address_to_bdaddr-bdaddr_to_address_example =
    Conversions.address_to_bdaddr-bdaddr_to_address reversed (omega arith)

abbrev bench_guid : Guid
bench_guid = record {
  data1 = 0xe3b0c442;
  data2 = 0x98fc;
  data3 = 0x1c14;
  data4 = 0x9a ∷ 0xfe ∷ 0x4c ∷ 0x9c ∷ 0x2e ∷ 0x0b ∷ 0x5f ∷ 0x12 ∷ [];
}

guid_bench : uuid_to_guid bench ≡ bench_guid
unfolding uuid_to_guid
guid_bench = refl

try_parse-IsUuid_example : IsUuid bench × (Uuid.try_parse (Uuid.to_string bench) ≡ some bench)
try_parse-IsUuid_example =
    try_parse-IsUuid (codes "e3b0c442-98fc-1c14-9afe-4c9c2e0b5f12") bench parse_bench
