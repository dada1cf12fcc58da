-- ===== src/Address/Text.antt =====
-- `Address::to_string` against `Address::try_parse`, in both directions.
use simple_rfcomm.Prelude.{
  ℕ, zero, suc, ◌+◌, ◌-◌, ◌*◌, ◌/◌, ◌%◌, ◌<◌, ◌≡◌, some, List, [], ◌∷◌, length, All, arith, map,
  if◌then◌else◌, ◌==◌, leb, ◌&&◌, Option-cases, Bool-cases, true, inl, inr,
}
use simple_rfcomm.Hex.{read_hex_byte, read_hex_byte-upper_byte, hex_val, hex_val-lt, upper_digit}
use simple_rfcomm.Address.{
  Address, IsByte, IsAddress, is_separator, try_parse, join_upper, to_string,
}
use simple_rfcomm.Address.Parse.{read_groups, try_parse-groups}

read_groups-join_upper :
    (n : ℕ) (bs : List ℕ)
    → length bs ≡ suc n
    → All IsByte bs
    → read_groups n (join_upper bs) ≡ some bs
unfolding read_groups join_upper
read_groups-join_upper n [] e h = absurd (omega arith)
read_groups-join_upper zero (b ∷ []) e h = rw (read_hex_byte-upper_byte b h.0)
read_groups-join_upper zero (b ∷ c ∷ bs) e h = absurd (omega arith)
read_groups-join_upper (suc n) (b ∷ []) e h = absurd (omega arith)
read_groups-join_upper (suc n) (b ∷ c ∷ bs) e h =
    rw (read_hex_byte-upper_byte b h.0, read_groups-join_upper n (c ∷ bs) (omega arith) h.1)

-- The printed form of every address parses back to that address.
pub try_parse-to_string : (a : Address) → IsAddress a → try_parse (to_string a) ≡ some a
unfolding to_string
try_parse-to_string a h = rw (try_parse-groups, read_groups-join_upper 5 a.bytes h.six h.in_range)

-- Upper-case digits and colons: what `to_string` writes for a character that was accepted.
unfoldable pub canonical : ℕ → ℕ
canonical c = if c == b'-' then b':' else (if leb b'a' c && leb c b'f' then c - 32 else c)

upper_digit-hex_val : (c d : ℕ) → hex_val c ≡ some d → upper_digit d ≡ canonical c
unfolding hex_val upper_digit canonical
upper_digit-hex_val c d h = ground arith

separator-canonical : (c : ℕ) → is_separator c ≡ true → canonical c ≡ b':'
unfolding canonical
separator-canonical c h = ground arith

-- What an accepted pair of digits says.
record Pair (h l b : ℕ) : Type 0 where
  byte : b < 256
  high : upper_digit (b / 16) ≡ canonical h
  low : upper_digit (b % 16) ≡ canonical l

read_hex_byte-Pair : (h l b : ℕ) → read_hex_byte h l ≡ some b → Pair h l b
unfolding read_hex_byte
read_hex_byte-Pair h l b e = elim (Option-cases (hex_val h)) [
  | inl none_h ↦ absurd (ground arith)
  | inr (x, eh) ↦ elim (Option-cases (hex_val l)) [
    | inl none_l ↦ absurd (ground arith)
    | inr (y, el) ↦ ground (
      arith,
      hex_val-lt h x eh,
      hex_val-lt l y el,
      upper_digit-hex_val h x eh,
      upper_digit-hex_val l y el,
    )
  ]
]

record Groups (n : ℕ) (str bs : List ℕ) : Type 0 where
  count : length bs ≡ suc n
  bytes : All IsByte bs
  printed : join_upper bs ≡ map canonical str
  chars : length str ≡ 3 * n + 2

-- One more group in front.
Groups-cons :
    (n h l c b : ℕ) (rest ds bs : List ℕ)
    → Pair h l b
    → is_separator c ≡ true
    → Groups n rest ds
    → bs ≡ b ∷ ds
    → Groups (suc n) (h ∷ l ∷ c ∷ rest) bs
unfolding join_upper
Groups-cons n h l c b rest [] bs p sep g e = absurd (omega (arith, g.count))
Groups-cons n h l c b rest (d ∷ ds) bs p sep g e =
    ground (arith, p.byte, p.high, p.low, separator-canonical c sep, g.count, g.printed, g.chars)

read_groups-Groups : (n : ℕ) (str bs : List ℕ) → read_groups n str ≡ some bs → Groups n str bs
unfolding read_groups join_upper
read_groups-Groups zero [] bs e = absurd (ground arith)
read_groups-Groups zero (h ∷ []) bs e = absurd (ground arith)
read_groups-Groups zero (h ∷ l ∷ c ∷ rest) bs e = absurd (ground arith)
read_groups-Groups (suc n) [] bs e = absurd (ground arith)
read_groups-Groups (suc n) (h ∷ []) bs e = absurd (ground arith)
read_groups-Groups (suc n) (h ∷ l ∷ []) bs e = absurd (ground arith)
read_groups-Groups zero (h ∷ l ∷ []) bs e = elim (Option-cases (read_hex_byte h l)) [
  | inl bad ↦ absurd (ground arith)
  | inr (b, good) ↦ let p = read_hex_byte-Pair h l b good in ground (arith, p.byte, p.high, p.low)
]
read_groups-Groups (suc n) (h ∷ l ∷ c ∷ rest) bs e = elim (Option-cases (read_hex_byte h l)) [
  | inl bad ↦ absurd (ground arith)
  | inr (b, good) ↦ elim (Option-cases (read_groups n rest)) [
    | inl bad ↦ absurd (ground arith)
    | inr (ds, more) ↦ elim (Bool-cases (is_separator c)) [
      | inr other ↦ absurd (ground arith)
      | inl sep ↦
          Groups-cons n h l c b rest ds bs (read_hex_byte-Pair h l b good) sep
            (read_groups-Groups n rest ds more) (ground arith)
    ]
  ]
]

-- A text that `try_parse` accepts has 17 characters and gives a well-formed address, which is
-- printed as the same text with upper-case digits and colons.
pub try_parse-canonical :
    (str : List ℕ) (a : Address)
    → try_parse str ≡ some a
    → IsAddress a × (to_string a ≡ map canonical str) × (length str ≡ 17)
unfolding to_string
try_parse-canonical str a e = elim (Option-cases (read_groups 5 str)) [
  | inl bad ↦ absurd (ground (arith, try_parse-groups str))
  | inr (bs, good) ↦
      let g = read_groups-Groups 5 str bs good in
      ground (arith, try_parse-groups str, g.count, g.bytes, g.printed, g.chars)
]
