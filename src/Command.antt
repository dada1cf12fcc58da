-- ===== src/Command.antt =====
-- What the programs of examples/ share: a text, as an argument or a line, is the list of its codes;
-- two texts are compared; and a program ends with a status or by an exception that nothing catches.
pub mod Ends
use Prim.Native.Char.{code}
use Prim.Native.String.{String}
use simple_rfcomm.Prelude.{
  ℕ, ◌+◌, ◌/◌, ◌%◌, ◌-◌, ◌<◌, ◌≡◌, refl, ap₂, Option, some, Bool, true, false, ◌&&◌, List, [], ◌∷◌,
  ◌==◌, arith, inl, inr, Bool-cases,
}
use simple_rfcomm.Prelude.Int.{ℤ, pos, negsuc}

abbrev pub codes : String → List ℕ
codes String.[] = []
codes (String.◌∷◌ c s) = code c ∷ codes s

-- `==` of two strings.
abbrev pub same_text : List ℕ → List ℕ → Bool
same_text [] [] = true
same_text [] (_ ∷ _) = false
same_text (_ ∷ _) [] = false
same_text (a ∷ xs) (b ∷ ys) = let rest = same_text xs ys in (a == b) && rest

pub same_text→eq : (xs ys : List ℕ) → same_text xs ys ≡ true → xs ≡ ys
same_text→eq [] [] h = refl
same_text→eq [] (y ∷ ys) h = absurd (ground (arith, h))
same_text→eq (x ∷ xs) [] h = absurd (ground (arith, h))
same_text→eq (x ∷ xs) (y ∷ ys) h = elim (Bool-cases (x == y)) [
  | inl same ↦
      let first : x ≡ y = ground (arith, same) in
      ap₂ (λ (a : ℕ) (as' : List ℕ). a ∷ as') first (same_text→eq xs ys (rw same at h))
  | inr other ↦ absurd (ground (arith, rw other at h))
]

-- How `main` ends.
pub data Exit : Type 0 where
  exits : ℕ → Exit
  uncaught : Exit

-- static_cast<uint8_t> of an int.
abbrev pub to_uint8 : ℤ → ℕ
to_uint8 (pos n) = n % 256
to_uint8 (negsuc n) = 255 - n % 256

pub to_uint8-lt : (z : ℤ) → to_uint8 z < 256
to_uint8-lt (pos n) = omega arith
to_uint8-lt (negsuc n) = omega arith

-- A number below a thousand in three decimal digits.
abbrev pub three_digits : ℕ → List ℕ
three_digits n = (b'0' + n / 100) ∷ (b'0' + n / 10 % 10) ∷ (b'0' + n % 10) ∷ []

-- `std::stoi` reads decimal digits, leading zeros included.
abbrev pub ReadsDecimal : (List ℕ → Option ℤ) → Type 0
ReadsDecimal stoi = (n : ℕ) → n < 256 → stoi (three_digits n) ≡ some (pos n)
