-- ===== src/Uuid.antt =====
-- `rfcomm::Uuid` of include/simple_rfcomm/types.hpp: the 128-bit service identifier, 16 bytes in
-- network order. Text is a list of character codes.
pub mod Parse
pub mod Text
pub mod Normal
use simple_rfcomm.Prelude.{
  ℕ, suc, ◌+◌, ◌%◌, ◌^◌, ◌<◌, ◌≡◌, Option, none, some, Bool, not, ◌||◌, List, [], ◌∷◌, ◌++◌, length,
  set, replicate, All, leb, ◌==◌, if◌then◌else◌, ◌>>=◌, bit_and,
}
use simple_rfcomm.Prelude.Bits.{shr}
use simple_rfcomm.Hex.{hex_val, push_digit, lower_byte}
use simple_rfcomm.Address.{IsByte, Parsed, or_throw}

pub record Uuid : Type 0 where
  pub bytes : List ℕ

-- Sixteen bytes.
pub record IsUuid (u : Uuid) : Type 0 where
  pub sixteen : length u.bytes ≡ 16
  pub in_range : All IsByte u.bytes

-- The bytes of the Bluetooth base behind the first four.
abbrev pub base_tail : List ℕ
base_tail = 0x00 ∷ 0x00 ∷ 0x10 ∷ 0x00 ∷ 0x80 ∷ 0x00 ∷ 0x00 ∷ 0x80 ∷ 0x5f ∷ 0x9b ∷ 0x34 ∷ 0xfb ∷ []

unfoldable pub from_16bit : ℕ → Uuid
from_16bit short_uuid = record {
  bytes =
      0x00
      ∷ 0x00
      ∷ bit_and (shr short_uuid 8) 0xff % 256
      ∷ bit_and short_uuid 0xff % 256
      ∷ base_tail;
}

unfoldable pub serial_port : Uuid
unfolding from_16bit
serial_port = from_16bit 0x1101

-- The loop of the four-character form.
unfoldable pub scan_short : List ℕ → ℕ → Option ℕ
scan_short [] val = some val
scan_short (c ∷ cs) val = do h ← hex_val c; scan_short cs (push_digit val h)

-- The local variables of the long form's loop.
pub record Scan : Type 0 where
  pub parsed : List ℕ
  pub byte_idx : ℕ
  pub current_val : ℕ
  pub digits : ℕ

-- The code behind `digits++`, at the new value and count.
unfoldable pub store_pair : ℕ → ℕ → Scan → Option Scan
store_pair value digits' s =
    if digits' == 2
    then (if leb 16 s.byte_idx
        then none
        else some (record {
          parsed = set s.parsed s.byte_idx (value % 256);
          byte_idx = s.byte_idx + 1;
          current_val = 0;
          digits = 0;
        }))
    else some (record s { current_val = value; digits = digits' })

-- A round on any character but a dash.
unfoldable pub take_hex : ℕ → Scan → Option Scan
unfolding store_pair
take_hex c s = do h ← hex_val c; store_pair (push_digit s.current_val h) (s.digits + 1) s

-- One round of the loop over the characters.
unfoldable pub take_char : ℕ → Scan → Option Scan
unfolding take_hex
take_char c s = if c == b'-' then some s else take_hex c s

unfoldable pub finish : Scan → Option Uuid
finish s =
    if not (s.digits == 0) || not (s.byte_idx == 16)
    then none
    else some (record { bytes = s.parsed })

unfoldable pub scan : List ℕ → Scan → Option Uuid
unfolding take_char finish
scan [] s = finish s
scan (c ∷ cs) s = take_char c s >>= scan cs

abbrev pub start : Scan
start = record { parsed = replicate 16 0; byte_idx = 0; current_val = 0; digits = 0 }

unfoldable pub try_parse : List ℕ → Option Uuid
unfolding scan scan_short from_16bit
try_parse str =
    if length str == 4
    then (scan_short str 0 >>= λ val. some (from_16bit (val % 2 ^ 16)))
    else scan str start

unfoldable pub parse : List ℕ → Parsed Uuid
unfolding try_parse
parse str = or_throw (try_parse str) str

-- A dash before the bytes 4, 6, 8 and 10.
abbrev pub dash_before : ℕ → List ℕ
dash_before i = if i == 4 || i == 6 || i == 8 || i == 10 then b'-' ∷ [] else []

unfoldable pub print_from : ℕ → List ℕ → List ℕ
print_from i [] = []
print_from i (b ∷ bs) = dash_before i ++ (lower_byte b ++ print_from (i + 1) bs)

unfoldable pub to_string : Uuid → List ℕ
unfolding print_from
to_string u = print_from 0 u.bytes
