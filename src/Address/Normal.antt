-- ===== src/Address/Normal.antt =====
-- The addresses that `Address::try_parse` returns, and their texts.
use simple_rfcomm.Prelude.{
  ℕ, zero, suc, ◌≡◌, refl, ap, sym, subst, ◌∙◌, inl, inr, Option, none, some, List, [], ◌∷◌, length,
  All, ◌>>=◌, Option-cases, Bool-cases, arith,
}
use simple_rfcomm.Hex.{read_hex_byte, read_hex_byte-lt}
use simple_rfcomm.Address.{Address, IsByte, IsAddress, is_separator, try_parse, to_string}
use simple_rfcomm.Address.Parse.{read_groups, try_parse-groups}
use simple_rfcomm.Address.Text.{try_parse-to_string}

-- `n` bytes.
abbrev pub IsBytes : ℕ → List ℕ → Type 0
IsBytes n bs = (length bs ≡ n) × All IsByte bs

-- The bytes of an option, if any.
abbrev pub AreBytes : ℕ → Option (List ℕ) → Type 0
AreBytes n none = Unit
AreBytes n (some bs) = IsBytes n bs

last_group-AreBytes : (h l : ℕ) → AreBytes 1 (read_hex_byte h l >>= λ b. some (b ∷ []))
last_group-AreBytes h l = elim (Option-cases (read_hex_byte h l)) [
  | inl bad ↦ rw bad tt
  | inr (b, good) ↦ rw good (refl, (read_hex_byte-lt h l b good, tt))
]

read_groups-AreBytes : (n : ℕ) (str : List ℕ) → AreBytes (suc n) (read_groups n str)
unfolding read_groups
read_groups-AreBytes zero [] = tt
read_groups-AreBytes zero (h ∷ []) = tt
read_groups-AreBytes zero (h ∷ l ∷ []) = last_group-AreBytes h l
read_groups-AreBytes zero (h ∷ l ∷ c ∷ rest) = tt
read_groups-AreBytes (suc n) [] = tt
read_groups-AreBytes (suc n) (h ∷ []) = tt
read_groups-AreBytes (suc n) (h ∷ l ∷ []) = tt
read_groups-AreBytes (suc n) (h ∷ l ∷ s ∷ rest) = elim (Option-cases (read_hex_byte h l)) [
  | inl bad ↦ rw bad tt
  | inr (b, good) ↦ elim (Option-cases (read_groups n rest)) [
    | inl bad' ↦ rw (good, bad') tt
    | inr (bs, good') ↦
        let (count, bytes) : IsBytes (suc n) bs = rw good' at (read_groups-AreBytes n rest) in
        elim (Bool-cases (is_separator s)) [
          | inl separator ↦
              rw (good, good', separator)
                (omega (arith, count), (read_hex_byte-lt h l b good, bytes))
          | inr other ↦ rw (good, good', other) tt
        ]
  ]
]

or_else : Address → Option Address → Address
or_else a none = a
or_else a (some b) = b

address_of :
    (o : Option (List ℕ)) (a : Address)
    → (o >>= λ bs. some (record { bytes = bs })) ≡ some a
    → AreBytes 6 o
    → IsAddress a
unfolding or_else
address_of none a h bytes = absurd (cc h)
address_of (some bs) a h (six, in_range) =
    subst IsAddress (ap (or_else (record { bytes = bs })) h)
      (record { six = six; in_range = in_range })

-- Every address that `try_parse` makes of a text has six bytes, each below 256; and the text that
-- `to_string` writes for it is read as the same address.
pub try_parse-IsAddress :
    (str : List ℕ) (a : Address)
    → try_parse str ≡ some a
    → IsAddress a × (try_parse (to_string a) ≡ some a)
try_parse-IsAddress str a h =
    let good =
      address_of (read_groups 5 str) a (sym (try_parse-groups str) ∙ h)
        (read_groups-AreBytes 5 str) in
    (good, try_parse-to_string a good)
