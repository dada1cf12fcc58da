-- ===== src/Uuid/Parse.antt =====
-- `Uuid::try_parse` against readers of its two forms.
use simple_rfcomm.Prelude.{
  ℕ, zero, suc, ◌+◌, ◌*◌, ◌%◌, ◌^◌, ◌<◌, ◌≡◌, ◌≢◌, refl, ◌∙◌, Option, none, some, List, [], ◌∷◌,
  ◌++◌, length, arith, append_assoc, append-nil, replicate, if◌then◌else◌, ◌==◌, ◌>>=◌,
  Option-cases, Bool-cases, inl, inr, length-append, set-append,
}
use native.Mathlib.Nat.{mod-eq_of_lt}
use simple_rfcomm.Hex.{hex_val, hex_val-lt, push_digit_lem, read_hex_byte, read_hex_byte-lt}
use simple_rfcomm.Uuid.{
  Uuid, Scan, store_pair, take_hex, take_char, finish, scan, scan_short, try_parse, from_16bit,
}

-- The text without its dashes.
unfoldable pub strip : List ℕ → List ℕ
strip [] = []
strip (c ∷ cs) = if c == b'-' then strip cs else c ∷ strip cs

-- Exactly `n` pairs of hexadecimal digits.
unfoldable pub read_pairs : ℕ → List ℕ → Option (List ℕ)
read_pairs zero [] = some []
read_pairs zero (c ∷ cs) = none
read_pairs (suc n) (h ∷ l ∷ rest) = do b ← read_hex_byte h l; bs ← read_pairs n rest; some (b ∷ bs)
read_pairs (suc n) _ = none

-- The loop on a text with no dash.
scan_plain : List ℕ → Scan → Option Uuid
scan_plain [] s = finish s
scan_plain (c ∷ cs) s = take_hex c s >>= scan_plain cs

scan-strip : (str : List ℕ) (s : Scan) → scan str s ≡ scan_plain (strip str) s
unfolding scan scan_plain strip take_char
scan-strip [] s = refl
scan-strip (c ∷ cs) s = elim (Bool-cases (c == b'-')) [
  | inl dash ↦ rw dash (scan-strip cs s)
  | inr other ↦ rw other (step (λ s'. scan-strip cs s') (take_hex c s))
]
  where
    step :
        ((s' : Scan) → scan cs s' ≡ scan_plain (strip cs) s')
        → (o : Option Scan) → (o >>= scan cs) ≡ (o >>= scan_plain (strip cs))
    step same none = refl
    step same (some s') = same s'

-- The loop's variables when `done` has been read and `n` pairs wait.
abbrev at : List ℕ → ℕ → Scan
at done n = record {
  parsed = done ++ replicate n 0;
  byte_idx = length done;
  current_val = 0;
  digits = 0;
}

byte_mod : (x y : ℕ) → x < 16 → y < 16 → (x * 16 + y) % 256 ≡ x * 16 + y
byte_mod x y hx hy = omega arith

plain_pair :
    (h l : ℕ) (rest done : List ℕ) (n : ℕ)
    → length done + suc n ≡ 16
    → scan_plain (h ∷ l ∷ rest) (at done (suc n))
      ≡ (read_hex_byte h l >>= λ b. scan_plain rest (at (done ++ b ∷ []) n))
unfolding scan_plain take_hex store_pair read_hex_byte
plain_pair h l rest done n e = elim (Option-cases (hex_val h)) [
  | inl eh ↦ ground arith
  | inr (x, eh) ↦ elim (Option-cases (hex_val l)) [
    | inl el ↦ ground arith
    | inr (y, el) ↦ ground (
      arith,
      hex_val-lt h x eh,
      hex_val-lt l y el,
      push_digit_lem 0 x,
      push_digit_lem x y,
      byte_mod x y,
      set-append done (replicate n 0) 0 (x * 16 + y),
      length-append done ((x * 16 + y) ∷ []),
      append_assoc done ((x * 16 + y) ∷ []) (replicate n 0),
    )
  ]
]

abbrev with_front : List ℕ → Option (List ℕ) → Option Uuid
with_front done o = o >>= λ bs. some (record { bytes = done ++ bs })

past_end : (c : ℕ) (cs done : List ℕ) → length done ≡ 16 → scan_plain (c ∷ cs) (at done 0) ≡ none
unfolding scan_plain take_hex store_pair finish
past_end c [] done e = ground arith
past_end c (d ∷ cs) done e = ground arith

ends_early :
    (done : List ℕ) (n : ℕ) → length done + suc n ≡ 16 → scan_plain [] (at done (suc n)) ≡ none
unfolding scan_plain finish
ends_early done n e = ground arith

odd_digit : (c : ℕ) (done : List ℕ) (n : ℕ) → scan_plain (c ∷ []) (at done n) ≡ none
unfolding scan_plain take_hex store_pair finish
odd_digit c done n = ground arith

with_front-cons :
    (done : List ℕ) (b : ℕ) (o : Option (List ℕ))
    → with_front (done ++ b ∷ []) o ≡ with_front done (o >>= λ bs. some (b ∷ bs))
with_front-cons done b none = refl
with_front-cons done b (some bs) = rw append_assoc

scan_plain-read_pairs :
    (n : ℕ) (str done : List ℕ)
    → length done + n ≡ 16
    → scan_plain str (at done n) ≡ with_front done (read_pairs n str)
unfolding read_pairs
scan_plain-read_pairs zero [] done e = unfold scan_plain finish in ground (arith, append-nil done)
scan_plain-read_pairs zero (c ∷ cs) done e = past_end c cs done (omega arith)
scan_plain-read_pairs (suc n) [] done e = ends_early done n e
scan_plain-read_pairs (suc n) (h ∷ []) done e = odd_digit h done (suc n)
scan_plain-read_pairs (suc n) (h ∷ l ∷ rest) done e = elim (Option-cases (read_hex_byte h l)) [
  | inl bad ↦ rw (plain_pair h l rest done n e, bad)
  | inr (b, good) ↦
      rw (plain_pair h l rest done n e, good)
        (scan_plain-read_pairs n rest (done ++ b ∷ []) (omega (arith, length-append done (b ∷ [])))
          ∙ with_front-cons done b (read_pairs n rest))
]

-- Every text of another length than four is accepted exactly when its characters other than dashes
-- are sixteen pairs of hexadecimal digits, which give the bytes; where the dashes stand is not
-- looked at.
pub try_parse-read_pairs :
    (str : List ℕ)
    → length str ≢ 4
    → try_parse str ≡ (read_pairs 16 (strip str) >>= λ bs. some (record { bytes = bs }))
unfolding try_parse
try_parse-read_pairs str h =
    ground (arith, scan-strip str (at [] 16), scan_plain-read_pairs 16 (strip str) [])

-- The value of four hexadecimal digits.
unfoldable pub read_four : ℕ → ℕ → ℕ → ℕ → Option ℕ
read_four c d e f = do x ← read_hex_byte c d; y ← read_hex_byte e f; some (x * 256 + y)

scan_short-read_four : (c d e f : ℕ) → scan_short (c ∷ d ∷ e ∷ f ∷ []) 0 ≡ read_four c d e f
unfolding scan_short read_four read_hex_byte
scan_short-read_four c d e f = elim (Option-cases (hex_val c)) [
  | inl ec ↦ ground arith
  | inr (x, ec) ↦ elim (Option-cases (hex_val d)) [
    | inl ed ↦ ground arith
    | inr (y, ed) ↦ elim (Option-cases (hex_val e)) [
      | inl ee ↦ ground arith
      | inr (z, ee) ↦ elim (Option-cases (hex_val f)) [
        | inl ef ↦ ground arith
        | inr (w, ef) ↦ ground (
          arith,
          push_digit_lem 0 x (hex_val-lt c x ec),
          push_digit_lem x y (hex_val-lt d y ed),
          push_digit_lem (x * 16 + y) z (hex_val-lt e z ee),
          push_digit_lem ((x * 16 + y) * 16 + z) w (hex_val-lt f w ef),
        )
      ]
    ]
  ]
]

read_four-lt : (c d e f v : ℕ) → read_four c d e f ≡ some v → v < 2 ^ 16
unfolding read_four
read_four-lt c d e f v h = elim (Option-cases (read_hex_byte c d)) [
  | inl bad ↦ absurd (ground arith)
  | inr (x, ex) ↦ elim (Option-cases (read_hex_byte e f)) [
    | inl bad ↦ absurd (ground arith)
    | inr (y, ey) ↦ ground (arith, read_hex_byte-lt c d x ex, read_hex_byte-lt e f y ey)
  ]
]

-- A text of four characters is accepted exactly when all are hexadecimal digits, and stands for the
-- 16-bit number that they write, placed in the Bluetooth base.
pub try_parse-read_four :
    (c d e f : ℕ)
    → try_parse (c ∷ d ∷ e ∷ f ∷ []) ≡ (read_four c d e f >>= λ v. some (from_16bit v))
unfolding try_parse
try_parse-read_four c d e f = elim (Option-cases (read_four c d e f)) [
  | inl bad ↦ rw (scan_short-read_four c d e f, bad)
  | inr (v, good) ↦
      rw (scan_short-read_four c d e f, good) (rw (mod-eq_of_lt (read_four-lt c d e f v good)))
]
