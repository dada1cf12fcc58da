-- ===== src/Address/Word.antt =====
-- `Address` as a 48-bit number: `to_uint64`, `from_uint64` and the order by `<=>`.
use simple_rfcomm.Prelude.{
  ℕ, zero, suc, ◌+◌, ◌*◌, ◌/◌, ◌%◌, ◌^◌, ◌≤◌, ◌<◌, ◌≡◌, refl, ap, List, [], ◌∷◌, length, All, arith,
  bit_or,
}
use Prim.Native.Nat.{compare, Ordering}
use native.Mathlib.Nat.{pow-suc}
use simple_rfcomm.Prelude.Bits.{shl, shr, bit_or-shl, bit_and-byte}
use simple_rfcomm.Address.{
  Address, IsByte, IsAddress, u64_mod, pack, to_uint64, from_uint64, compare_bytes,
  compare_three_way,
}

-- The bytes as the digits of a number in base 256, the first the highest.
unfoldable pub big_endian : List ℕ → ℕ → ℕ
big_endian [] v = v
big_endian (b ∷ bs) v = big_endian bs (v * 256 + b)

pack_step : (v b : ℕ) → v < 2 ^ 40 → b < 256 → bit_or (shl v 8 % u64_mod) b ≡ v * 256 + b
pack_step v b hv hb =
    let fits : shl v 8 % u64_mod ≡ shl v 8 = omega arith in rw fits (bit_or-shl 8 v b (omega arith))

power_pos : (n : ℕ) → 0 < 256 ^ n
power_pos zero = omega arith
power_pos (suc n) = omega (arith, pow-suc 256 n, power_pos n)

-- `n` bytes behind `v` stay within 48 bits.
abbrev Fits : ℕ → ℕ → Type 0
Fits v n = (v + 1) * 256 ^ n ≤ 2 ^ 48

scale : (x y p : ℕ) → x ≤ y → x * p ≤ y * p
scale x y p h = grind arith

Fits-head : (v n : ℕ) → Fits v (suc n) → v < 2 ^ 40
Fits-head v n h = ground (arith, pow-suc 256 n, power_pos n, scaled)
  where
    scaled : (v + 1) * 256 ≤ (v + 1) * 256 ^ suc n
    scaled = grind (arith, pow-suc 256 n, power_pos n)

Fits-next : (v b n : ℕ) → b < 256 → Fits v (suc n) → Fits (v * 256 + b) n
Fits-next v b n hb h = omega (
  arith,
  scale (v * 256 + b + 1) ((v + 1) * 256) (256 ^ n) (omega arith),
  ap (λ (t : ℕ). (v + 1) * t) (pow-suc 256 n),
)

pack-big_endian :
    (bs : List ℕ) (v : ℕ) → All IsByte bs → Fits v (length bs) → pack bs v ≡ big_endian bs v
unfolding pack big_endian
pack-big_endian [] v h f = refl
pack-big_endian (b ∷ bs) v h f =
    rw (pack_step v b (Fits-head v (length bs) f) h.0)
      (pack-big_endian bs (v * 256 + b) h.1 (Fits-next v b (length bs) h.0 f))

to_uint64-big_endian : (a : Address) → IsAddress a → to_uint64 a ≡ big_endian a.bytes 0
unfolding to_uint64
to_uint64-big_endian a h = pack-big_endian a.bytes 0 h.in_range (rw h.six (omega arith))

from_uint64_bytes :
    (v : ℕ)
    → (from_uint64 v).bytes
      ≡ v / 256 ^ 5 % 256
        ∷ v / 256 ^ 4 % 256
        ∷ v / 256 ^ 3 % 256
        ∷ v / 256 ^ 2 % 256
        ∷ v / 256 % 256
        ∷ v % 256
        ∷ []
unfolding from_uint64
from_uint64_bytes v = ground (
  arith,
  bit_and-byte v,
  bit_and-byte (shr v 8),
  bit_and-byte (shr (shr v 8) 8),
  bit_and-byte (shr (shr (shr v 8) 8) 8),
  bit_and-byte (shr (shr (shr (shr v 8) 8) 8) 8),
  bit_and-byte (shr (shr (shr (shr (shr v 8) 8) 8) 8) 8),
)

pub from_uint64-IsAddress : (v : ℕ) → IsAddress (from_uint64 v)
from_uint64-IsAddress v = record {
  six = rw from_uint64_bytes;
  in_range = rw from_uint64_bytes (omega arith);
}

-- Converting any 64-bit number to an address and back keeps its lower 48 bits and drops the others.
pub to_uint64-from_uint64 : (v : ℕ) → to_uint64 (from_uint64 v) ≡ v % 2 ^ 48
unfolding big_endian
to_uint64-from_uint64 v =
    rw (to_uint64-big_endian (from_uint64 v) (from_uint64-IsAddress v), from_uint64_bytes)
      (omega arith)

base_256 :
    (bs : List ℕ)
    → length bs ≡ 6
    → All IsByte bs
    → ((from_uint64 (big_endian bs 0)).bytes ≡ bs) × (big_endian bs 0 < 2 ^ 48)
unfolding big_endian
base_256 (a ∷ b ∷ c ∷ d ∷ e ∷ f ∷ []) six h = rw from_uint64_bytes (ground arith, omega arith)
base_256 _ six h = absurd (omega arith)

-- Every address comes back from its number, which is below 2 ^ 48.
pub from_uint64-to_uint64 :
    (a : Address) → IsAddress a → (from_uint64 (to_uint64 a) ≡ a) × (to_uint64 a < 2 ^ 48)
from_uint64-to_uint64 a h =
    let (same, bound) = base_256 a.bytes h.six h.in_range in
    rw (to_uint64-big_endian a h) (λ i. record { bytes = same i }, bound)

abbrev ordered : Ordering → Ordering → Ordering
ordered Ordering.lt rest = Ordering.lt
ordered Ordering.eq rest = rest
ordered Ordering.gt rest = Ordering.gt

compare-big_endian :
    (xs ys : List ℕ) (v w : ℕ)
    → length xs ≡ length ys
    → All IsByte xs
    → All IsByte ys
    → compare (big_endian xs v) (big_endian ys w) ≡ ordered (compare v w) (compare_bytes xs ys)
unfolding big_endian compare_bytes
compare-big_endian [] [] v w e hx hy = ground arith
compare-big_endian [] (y ∷ ys) v w e hx hy = absurd (omega arith)
compare-big_endian (x ∷ xs) [] v w e hx hy = absurd (omega arith)
compare-big_endian (x ∷ xs) (y ∷ ys) v w e hx hy =
    ground (arith, compare-big_endian xs ys (v * 256 + x) (w * 256 + y))

-- The defaulted `<=>` orders addresses as their 48-bit numbers are ordered.
pub compare_three_way-to_uint64 :
    (a b : Address)
    → IsAddress a
    → IsAddress b
    → compare_three_way a b ≡ compare (to_uint64 a) (to_uint64 b)
unfolding compare_three_way
compare_three_way-to_uint64 a b ha hb = rw (
  to_uint64-big_endian a ha,
  to_uint64-big_endian b hb,
  compare-big_endian a.bytes b.bytes 0 0 (omega (arith, ha.six, hb.six)) ha.in_range hb.in_range,
)
