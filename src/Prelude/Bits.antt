-- ===== src/Prelude/Bits.antt =====
-- Shifts and masks as arithmetic, for words of every width.
use Prim.Native.Nat.{
  ℕ, zero, suc, ◌+◌, ◌*◌, ◌/◌, ◌%◌, ◌^◌, ◌≤◌, ◌<◌, max, min, bit_and, bit_or, digits,
  bit_or-bitwise, bit_and-bitwise,
}
use mathlib.Core.Path.{◌≡◌, refl, sym, ap, ◌∙◌}
use native.Mathlib.Omega.{arith}
use native.Mathlib.Nat.{pow-suc}

-- x << k and x >> k, before any reduction to the word's width.
abbrev pub shl : ℕ → ℕ → ℕ
shl x k = x * 2 ^ k

abbrev pub shr : ℕ → ℕ → ℕ
shr x k = x / 2 ^ k

-- The native operations are recursions on binary digits; the count of rounds does not matter.
module _ (ended : ℕ → ℕ) (joined : ℕ → ℕ → ℕ) where
  digits-zero : (rounds y : ℕ) → digits ended joined rounds 0 y ≡ ended y
  digits-zero zero y = refl
  digits-zero (suc rounds) y = refl

  rounds_irrelevant :
      (x rounds others y : ℕ)
      → x ≤ rounds
      → x ≤ others
      → digits ended joined rounds x y ≡ digits ended joined others x y
  rounds_irrelevant zero rounds others y p q = digits-zero rounds y ∙ sym (digits-zero others y)
  rounds_irrelevant (suc x) zero others y p q = absurd (omega arith)
  rounds_irrelevant (suc x) (suc rounds) zero y p q = absurd (omega arith)
  rounds_irrelevant (suc x) (suc rounds) (suc others) y p q =
      ap (λ t. t * 2 + joined (suc x % 2) (y % 2))
        (rounds_irrelevant (suc x / 2) rounds others (y / 2) (omega arith) (omega arith))

  -- The law of the lowest digit.
  lowest_digit :
      (x y : ℕ)
      → digits ended joined (suc x) (suc x) y
        ≡ digits ended joined (suc x / 2) (suc x / 2) (y / 2) * 2 + joined (suc x % 2) (y % 2)
  lowest_digit x y =
      ap (λ t. t * 2 + joined (suc x % 2) (y % 2))
        (rounds_irrelevant (suc x / 2) x (suc x / 2) (y / 2) (omega arith) (omega arith))

or_halves : (x y : ℕ) → bit_or x y ≡ bit_or (x / 2) (y / 2) * 2 + max (x % 2) (y % 2)
or_halves zero y = omega (arith, bit_or-bitwise 0 y, bit_or-bitwise 0 (y / 2))
or_halves (suc x) y =
    rw (bit_or-bitwise (suc x) y, bit_or-bitwise (suc x / 2) (y / 2))
      (lowest_digit (λ b. b) max x y)

and_halves : (x y : ℕ) → bit_and x y ≡ bit_and (x / 2) (y / 2) * 2 + min (x % 2) (y % 2)
and_halves zero y = omega (arith, bit_and-bitwise 0 y, bit_and-bitwise 0 (y / 2))
and_halves (suc x) y =
    rw (bit_and-bitwise (suc x) y, bit_and-bitwise (suc x / 2) (y / 2))
      (lowest_digit (λ b. 0) min x y)

-- By strong induction, with a bound on `x`.
or_nothing : (bound x : ℕ) → x < bound → bit_or x 0 ≡ x
or_nothing zero x h = absurd (omega arith)
or_nothing (suc bound) zero h = refl
or_nothing (suc bound) (suc x) h =
    omega (arith, or_halves (suc x) 0, or_nothing bound (suc x / 2) (omega arith))

and_nothing : (bound x : ℕ) → x < bound → bit_and x 0 ≡ 0
and_nothing zero x h = absurd (omega arith)
and_nothing (suc bound) zero h = refl
and_nothing (suc bound) (suc x) h =
    omega (arith, and_halves (suc x) 0, and_nothing bound (suc x / 2) (omega arith))

shl-suc : (a k : ℕ) → shl a (suc k) ≡ shl a k * 2
shl-suc a k = omega (arith, ap (λ (t : ℕ). a * t) (pow-suc 2 k))

-- A field below the shift joins it as in a sum.
pub bit_or-shl : (k a b : ℕ) → b < 2 ^ k → bit_or (shl a k) b ≡ shl a k + b
bit_or-shl zero a b h =
    let e : b ≡ 0 = omega arith in
    rw (e, or_nothing (suc (a * 1)) (a * 1) (omega arith)) (omega arith)
bit_or-shl (suc k) a b h =
    let half : shl a (suc k) / 2 ≡ shl a k = omega (arith, shl-suc a k) in
    let rest : bit_or (shl a (suc k) / 2) (b / 2) ≡ shl a k + b / 2 =
      rw half (bit_or-shl k a (b / 2) (omega (arith, pow-suc 2 k))) in
    omega (arith, shl-suc a k, or_halves (shl a (suc k)) b, rest)

-- A mask of `k` ones.
abbrev ones : ℕ → ℕ
ones zero = 0
ones (suc k) = ones k * 2 + 1

-- A mask keeps the field below the shift.
bit_and-ones : (k a b : ℕ) → b < 2 ^ k → bit_and (shl a k + b) (ones k) ≡ b
bit_and-ones zero a b h = omega (arith, and_nothing (suc (shl a 0 + b)) (shl a 0 + b) (omega arith))
bit_and-ones (suc k) a b h =
    let half : (shl a (suc k) + b) / 2 ≡ shl a k + b / 2 = omega (arith, shl-suc a k) in
    let mask : (ones k * 2 + 1) / 2 ≡ ones k = omega arith in
    let rest : bit_and ((shl a (suc k) + b) / 2) ((ones k * 2 + 1) / 2) ≡ b / 2 =
      rw (half, mask) (bit_and-ones k a (b / 2) (omega (arith, pow-suc 2 k))) in
    omega (arith, shl-suc a k, and_halves (shl a (suc k) + b) (ones (suc k)), rest)

-- x & 0xFF.
pub bit_and-byte : (a : ℕ) → bit_and a 255 ≡ a % 256
bit_and-byte a =
    let parts : shl (a / 256) 8 + a % 256 ≡ a = omega arith in
    rw parts at (bit_and-ones 8 (a / 256) (a % 256) (omega arith))
