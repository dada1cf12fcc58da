-- ===== src/Uuid/Text.antt =====
-- `Uuid::to_string` and `Uuid::from_16bit` against `Uuid::try_parse`.
use simple_rfcomm.Prelude.{
  ℕ, ◌+◌, ◌/◌, ◌%◌, ◌^◌, ◌≤◌, ◌<◌, ◌≡◌, ◌≢◌, refl, some, false, List, [], ◌∷◌, ◌++◌, length, arith,
  All, ◌==◌, ◌||◌, length-append, Bool-cases, inl, inr,
}
use simple_rfcomm.Prelude.Bits.{shr, bit_and-byte}
use simple_rfcomm.Hex.{
  lower_digit, lower_byte, upper_byte, read_hex_byte-lower_byte, read_hex_byte-upper_byte,
}
use simple_rfcomm.Address.{IsByte}
use simple_rfcomm.Uuid.{
  Uuid, IsUuid, try_parse, from_16bit, dash_before, print_from, to_string, base_tail,
}
use simple_rfcomm.Uuid.Parse.{
  strip, read_pairs, try_parse-read_pairs, read_four, try_parse-read_four,
}

lower_digit-ne_dash : (d : ℕ) → (lower_digit d == b'-') ≡ false
unfolding lower_digit
lower_digit-ne_dash d = ground arith

strip-dash_before : (i : ℕ) (cs : List ℕ) → strip (dash_before i ++ cs) ≡ strip cs
unfolding strip
strip-dash_before i cs = elim (Bool-cases (i == 4 || i == 6 || i == 8 || i == 10)) [
  | inl yes_dash ↦ rw yes_dash
  | inr no_dash ↦ rw no_dash
]

strip-lower_byte : (b : ℕ) (cs : List ℕ) → strip (lower_byte b ++ cs) ≡ lower_byte b ++ strip cs
unfolding strip
strip-lower_byte b cs = rw (lower_digit-ne_dash (b / 16), lower_digit-ne_dash (b % 16))

read_pairs-print_from :
    (bs : List ℕ) (i : ℕ)
    → All IsByte bs
    → read_pairs (length bs) (strip (print_from i bs)) ≡ some bs
unfolding print_from read_pairs
read_pairs-print_from [] i h = unfold strip in refl
read_pairs-print_from (b ∷ bs) i h = rw (
  strip-dash_before i (lower_byte b ++ print_from (i + 1) bs),
  strip-lower_byte b (print_from (i + 1) bs),
  read_hex_byte-lower_byte b h.0,
  read_pairs-print_from bs (i + 1) h.1,
)

length-print_from : (bs : List ℕ) (i : ℕ) → length bs + length bs ≤ length (print_from i bs)
unfolding print_from
length-print_from [] i = omega arith
length-print_from (b ∷ bs) i = omega (
  arith,
  length-append (dash_before i) (lower_byte b ++ print_from (i + 1) bs),
  length-print_from bs (i + 1),
)

-- The printed form of every identifier parses back to that identifier.
pub try_parse-to_string_uuid : (u : Uuid) → IsUuid u → try_parse (to_string u) ≡ some u
unfolding to_string
try_parse-to_string_uuid u h =
    let long : length (to_string u) ≢ 4 = omega (arith, length-print_from u.bytes 0, h.sixteen) in
    rw (try_parse-read_pairs (to_string u) long)
      (rw (← h.sixteen, read_pairs-print_from u.bytes 0 h.in_range))

from_16bit_bytes :
    (v : ℕ) → v < 2 ^ 16 → (from_16bit v).bytes ≡ 0 ∷ 0 ∷ v / 256 ∷ v % 256 ∷ base_tail
unfolding from_16bit
from_16bit_bytes v h = ground (arith, bit_and-byte v, bit_and-byte (shr v 8))

pub from_16bit-IsUuid : (v : ℕ) → v < 2 ^ 16 → IsUuid (from_16bit v)
from_16bit-IsUuid v h = rw (from_16bit_bytes v h) (omega arith)

-- The short text of a 16-bit identifier, in upper case.
unfoldable pub short_text : ℕ → List ℕ
short_text v = upper_byte (v / 256) ++ upper_byte (v % 256)

-- For every 16-bit number, its four-digit text and the printed 128-bit form of its identifier both
-- parse to that identifier.
pub short_and_long_forms :
    (v : ℕ)
    → v < 2 ^ 16
    → (try_parse (short_text v) ≡ some (from_16bit v))
      × (try_parse (to_string (from_16bit v)) ≡ some (from_16bit v))
unfolding short_text read_four
short_and_long_forms v h = (
  rw
      (
        try_parse-read_four,
        read_hex_byte-upper_byte (v / 256) (omega arith),
        read_hex_byte-upper_byte (v % 256) (omega arith),
      )
      (ground arith),
  try_parse-to_string_uuid (from_16bit v) (from_16bit-IsUuid v h),
)
