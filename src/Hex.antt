-- ===== src/Hex.antt =====
-- The hexadecimal digits that both parsers of include/simple_rfcomm/types.hpp read, and the two
-- digits that `std::hex` with `setw(2)` and `setfill('0')` writes for a byte. Text is a list of
-- character codes.
use simple_rfcomm.Prelude.{
  ℕ, ◌+◌, ◌-◌, ◌*◌, ◌/◌, ◌%◌, ◌<◌, ◌≡◌, Option, none, some, ◌&&◌, arith, ltb, leb, ◌>>=◌,
  Option-cases, inl, inr, List, [], ◌∷◌, if◌then◌else◌, bit_or,
}
use simple_rfcomm.Prelude.Bits.{shl, bit_or-shl}

-- The value of `c`; `none` is the source's -1.
unfoldable pub hex_val : ℕ → Option ℕ
hex_val c =
    if leb b'0' c && leb c b'9'
    then some (c - b'0')
    else (if leb b'a' c && leb c b'f'
        then some (c - b'a' + 10)
        else (if leb b'A' c && leb c b'F' then some (c - b'A' + 10) else none))

-- (value << 4) | digit
unfoldable pub push_digit : ℕ → ℕ → ℕ
push_digit value digit = bit_or (shl value 4) digit

-- Two digits as a byte.
unfoldable pub read_hex_byte : ℕ → ℕ → Option ℕ
read_hex_byte h l = do x ← hex_val h; y ← hex_val l; some (x * 16 + y)

-- `std::uppercase` and `std::nouppercase`.
unfoldable pub upper_digit : ℕ → ℕ
upper_digit d = if ltb d 10 then b'0' + d else b'A' + (d - 10)

unfoldable pub lower_digit : ℕ → ℕ
lower_digit d = if ltb d 10 then b'0' + d else b'a' + (d - 10)

abbrev pub upper_byte : ℕ → List ℕ
upper_byte b = upper_digit (b / 16) ∷ upper_digit (b % 16) ∷ []

abbrev pub lower_byte : ℕ → List ℕ
lower_byte b = lower_digit (b / 16) ∷ lower_digit (b % 16) ∷ []

pub hex_val-lt : (c d : ℕ) → hex_val c ≡ some d → d < 16
unfolding hex_val
hex_val-lt c d h = ground arith

pub push_digit_lem : (value digit : ℕ) → digit < 16 → push_digit value digit ≡ value * 16 + digit
unfolding push_digit
push_digit_lem value digit h = bit_or-shl 4 value digit (omega arith)

pub hex_val-upper_digit : (d : ℕ) → d < 16 → hex_val (upper_digit d) ≡ some d
unfolding hex_val upper_digit
hex_val-upper_digit d h = ground arith

pub hex_val-lower_digit : (d : ℕ) → d < 16 → hex_val (lower_digit d) ≡ some d
unfolding hex_val lower_digit
hex_val-lower_digit d h = ground arith

pub read_hex_byte-lt : (h l b : ℕ) → read_hex_byte h l ≡ some b → b < 256
unfolding read_hex_byte
read_hex_byte-lt h l b e = elim (Option-cases (hex_val h)) [
  | inl none_h ↦ ground arith
  | inr (x, eh) ↦ elim (Option-cases (hex_val l)) [
    | inl none_l ↦ ground arith
    | inr (y, el) ↦ ground (arith, hex_val-lt h x eh, hex_val-lt l y el)
  ]
]

pub read_hex_byte-upper_byte :
    (b : ℕ) → b < 256 → read_hex_byte (upper_digit (b / 16)) (upper_digit (b % 16)) ≡ some b
unfolding read_hex_byte
read_hex_byte-upper_byte b h =
    ground (arith, hex_val-upper_digit (b / 16), hex_val-upper_digit (b % 16))

pub read_hex_byte-lower_byte :
    (b : ℕ) → b < 256 → read_hex_byte (lower_digit (b / 16)) (lower_digit (b % 16)) ≡ some b
unfolding read_hex_byte
read_hex_byte-lower_byte b h =
    ground (arith, hex_val-lower_digit (b / 16), hex_val-lower_digit (b % 16))
