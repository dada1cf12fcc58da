-- ===== src/Address.antt =====
-- `rfcomm::Address` of include/simple_rfcomm/types.hpp: the 48-bit device address. `std::array` is
-- a list whose length and bytes `IsAddress` states; text is a list of character codes.
pub mod Parse
pub mod Text
pub mod Word
pub mod Normal
use simple_rfcomm.Prelude.{
  ℕ, zero, suc, ◌+◌, ◌*◌, ◌%◌, ◌^◌, ◌<◌, ◌≡◌, Option, none, some, Bool, true, false, not, ◌&&◌,
  ◌||◌, List, [], ◌∷◌, ◌++◌, length, set, get_or, All, ltb, leb, ◌==◌, if◌then◌else◌, ◌>>=◌,
  bit_and, bit_or,
}
use Prim.Native.Nat.{compare, Ordering}
use simple_rfcomm.Prelude.Bits.{shl, shr}
use simple_rfcomm.Hex.{hex_val, push_digit, upper_byte}

pub record Address : Type 0 where
  pub bytes : List ℕ

abbrev pub IsByte : ℕ → Type 0
IsByte b = b < 256

-- Six bytes.
pub record IsAddress (a : Address) : Type 0 where
  pub six : length a.bytes ≡ 6
  pub in_range : All IsByte a.bytes

-- The default member initialiser.
abbrev pub zeros : List ℕ
zeros = 0 ∷ 0 ∷ 0 ∷ 0 ∷ 0 ∷ 0 ∷ []

unfoldable pub any : Address
any = record { bytes = zeros }

-- The local variables of `try_parse`.
pub record Scan : Type 0 where
  pub parsed : List ℕ
  pub byte_idx : ℕ
  pub current_val : ℕ
  pub digits : ℕ

abbrev pub is_separator : ℕ → Bool
is_separator c = c == b':' || c == b'-'

-- The branch for a hexadecimal digit.
unfoldable pub take_digit : ℕ → Scan → Option Scan
take_digit h s =
    let digits' = s.digits + 1 in
    if ltb 2 digits'
    then none
    else some (record s { current_val = push_digit s.current_val h; digits = digits' })

-- The branches for a separator and for any other character.
unfoldable pub take_separator : ℕ → Scan → Option Scan
take_separator c s =
    if is_separator c
    then (if not (s.digits == 2) || leb 5 s.byte_idx
        then none
        else some (record {
          parsed = set s.parsed s.byte_idx (s.current_val % 256);
          byte_idx = s.byte_idx + 1;
          current_val = 0;
          digits = 0;
        }))
    else none

-- One round of the loop over the characters.
unfoldable pub take_char : ℕ → Scan → Option Scan
unfolding take_digit take_separator
take_char c s = elim (hex_val c) [ some h ↦ take_digit h s | none ↦ take_separator c s ]

-- The code behind the loop.
unfoldable pub finish : Scan → Option Address
finish s =
    if not (s.digits == 2) || not (s.byte_idx == 5)
    then none
    else some (record { bytes = set s.parsed s.byte_idx (s.current_val % 256) })

unfoldable pub scan : List ℕ → Scan → Option Address
unfolding finish take_char
scan [] s = finish s
scan (c ∷ cs) s = take_char c s >>= scan cs

abbrev pub start : Scan
start = record { parsed = zeros; byte_idx = 0; current_val = 0; digits = 0 }

unfoldable pub try_parse : List ℕ → Option Address
unfolding scan
try_parse str = scan str start

-- `std::invalid_argument`, with the text that it quotes.
pub data Parsed {ℓ} (A : Type ℓ) : Type ℓ where
  parsed_as : A → Parsed A
  invalid_argument : List ℕ → Parsed A

abbrev pub or_throw {ℓ} : {A : Type ℓ} → Option A → List ℕ → Parsed A
or_throw (some a) str = parsed_as a
or_throw none str = invalid_argument str

unfoldable pub parse : List ℕ → Parsed Address
unfolding try_parse
parse str = or_throw (try_parse str) str

-- A colon behind every byte but the last.
unfoldable pub join_upper : List ℕ → List ℕ
join_upper [] = []
join_upper (b ∷ []) = upper_byte b
join_upper (b ∷ c ∷ bs) = upper_byte b ++ b':' ∷ join_upper (c ∷ bs)

unfoldable pub to_string : Address → List ℕ
unfolding join_upper
to_string a = join_upper a.bytes

-- The defaulted `<=>`: the arrays compare from their first bytes on.
unfoldable pub compare_bytes : List ℕ → List ℕ → Ordering
compare_bytes [] [] = Ordering.eq
compare_bytes [] (y ∷ ys) = Ordering.lt
compare_bytes (x ∷ xs) [] = Ordering.gt
compare_bytes (x ∷ xs) (y ∷ ys) = elim (compare x y) [
  | Ordering.lt ↦ Ordering.lt
  | Ordering.eq ↦ compare_bytes xs ys
  | Ordering.gt ↦ Ordering.gt
]

unfoldable pub compare_three_way : Address → Address → Ordering
unfolding compare_bytes
compare_three_way a b = compare_bytes a.bytes b.bytes

-- val = (val << 8) | byte, on uint64_t.
abbrev pub u64_mod : ℕ
u64_mod = 2 ^ 64

unfoldable pub pack : List ℕ → ℕ → ℕ
pack [] val = val
pack (b ∷ bs) val = pack bs (bit_or (shl val 8 % u64_mod) b)

unfoldable pub to_uint64 : Address → ℕ
unfolding pack
to_uint64 a = pack a.bytes 0

-- The loop from index `count - 1` down to 0.
unfoldable pub unpack : ℕ → List ℕ → ℕ → List ℕ
unpack zero bytes val = bytes
unpack (suc i) bytes val = unpack i (set bytes i (bit_and val 0xff % 256)) (shr val 8)

unfoldable pub from_uint64 : ℕ → Address
unfolding unpack
from_uint64 val = record { bytes = unpack 6 zeros val }
