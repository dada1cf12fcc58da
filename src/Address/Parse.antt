-- ===== src/Address/Parse.antt =====
-- `Address::try_parse` against a reader of six pairs of hexadecimal digits with a colon or a dash
-- between neighbours, and against readers of the two forms of the documentation.
use simple_rfcomm.Prelude.{
  ℕ, zero, suc, ◌+◌, ◌<◌, ◌≡◌, refl, Option, none, some, List, [], ◌∷◌, ◌++◌, length, arith, Bool,
  true, false, ◌==◌, ◌&&◌, ◌||◌, append_assoc, replicate, if◌then◌else◌, ◌>>=◌, Option-cases, inl,
  inr, length-append, set-append,
}
use native.Mathlib.Nat.{mod-eq_of_lt}
use simple_rfcomm.Hex.{read_hex_byte, read_hex_byte-lt, hex_val, hex_val-lt, push_digit_lem}
use simple_rfcomm.Address.{
  Address, Scan, is_separator, take_digit, take_separator, take_char, finish, scan, try_parse,
}

-- `n` groups that a separator follows, and a last one.
unfoldable pub read_groups : ℕ → List ℕ → Option (List ℕ)
unfolding read_hex_byte
read_groups zero (h ∷ l ∷ []) = do b ← read_hex_byte h l; some (b ∷ [])
read_groups zero _ = none
read_groups (suc n) (h ∷ l ∷ s ∷ rest) = do
  b ← read_hex_byte h l
  bs ← read_groups n rest
  if is_separator s then some (b ∷ bs) else none
read_groups (suc n) _ = none

-- The loop's variables when `done` has been read and `n` groups wait behind the next.
abbrev at : List ℕ → ℕ → Scan
at done n = record {
  parsed = done ++ replicate (suc n) 0;
  byte_idx = length done;
  current_val = 0;
  digits = 0;
}

-- A byte read, with its separator to come.
abbrev read_at : List ℕ → ℕ → ℕ → Scan
read_at done n b = record (at done n) { current_val = b; digits = 2 }

scan_two :
    (h l : ℕ) (rest done : List ℕ) (n : ℕ)
    → scan (h ∷ l ∷ rest) (at done n) ≡ (read_hex_byte h l >>= λ b. scan rest (read_at done n b))
unfolding scan take_char take_digit take_separator read_hex_byte
scan_two h l rest done n = elim (Option-cases (hex_val h)) [
  | inl e ↦ ground arith
  | inr (x, e) ↦ elim (Option-cases (hex_val l)) [
    | inl e' ↦ ground arith
    | inr (y, e') ↦
        ground (arith, hex_val-lt h x e, hex_val-lt l y e', push_digit_lem 0 x, push_digit_lem x y)
  ]
]

-- A third digit, or a character that is no separator, ends the loop; a separator ends the group.
scan_third :
    (c : ℕ) (rest done : List ℕ) (n b : ℕ)
    → b < 256
    → length done + suc n ≡ 5
    → scan (c ∷ rest) (read_at done (suc n) b)
      ≡ (if is_separator c then scan rest (at (done ++ b ∷ []) n) else none)
unfolding scan take_char take_digit take_separator hex_val
scan_third c rest done n b h e = ground (
  arith,
  set-append done (replicate (suc n) 0) 0 b,
  length-append done (b ∷ []),
  append_assoc done (b ∷ []) (replicate (suc n) 0),
  mod-eq_of_lt h,
)

-- The end of the text behind a byte, and a text that ends too early.
finish_last :
    (done : List ℕ) (b : ℕ)
    → b < 256
    → length done ≡ 5
    → scan [] (read_at done 0 b) ≡ some (record { bytes = done ++ b ∷ [] })
unfolding scan finish
finish_last done b h e = ground (arith, set-append done [] 0 b, mod-eq_of_lt h)

after_last :
    (c : ℕ) (rest done : List ℕ) (b : ℕ)
    → length done ≡ 5
    → scan (c ∷ rest) (read_at done 0 b) ≡ none
unfolding scan take_char take_digit take_separator
after_last c rest done b e = ground arith

too_short :
    (done : List ℕ) (n b : ℕ) → length done + suc n ≡ 5 → scan [] (read_at done (suc n) b) ≡ none
unfolding scan finish
too_short done n b e = ground arith

one_char : (c : ℕ) (done : List ℕ) (n : ℕ) → scan (c ∷ []) (at done n) ≡ none
unfolding scan finish take_char take_digit take_separator
one_char c done n = ground arith

no_char : (done : List ℕ) (n : ℕ) → scan [] (at done n) ≡ none
unfolding scan finish
no_char done n = ground arith

abbrev with_front : List ℕ → Option (List ℕ) → Option Address
with_front done o = o >>= λ bs. some (record { bytes = done ++ bs })

scan-groups :
    (n : ℕ) (str done : List ℕ)
    → length done + n ≡ 5
    → scan str (at done n) ≡ with_front done (read_groups n str)
unfolding read_groups
scan-groups zero [] done e = no_char done 0
scan-groups zero (h ∷ []) done e = one_char h done 0
scan-groups zero (h ∷ l ∷ []) done e = elim (Option-cases (read_hex_byte h l)) [
  | inl bad ↦ rw (scan_two, bad)
  | inr (b, good) ↦
      rw (scan_two, good) (finish_last done b (read_hex_byte-lt h l b good) (omega arith))
]
scan-groups zero (h ∷ l ∷ c ∷ rest) done e = elim (Option-cases (read_hex_byte h l)) [
  | inl bad ↦ rw (scan_two, bad)
  | inr (b, good) ↦ rw (scan_two, good) (after_last c rest done b (omega arith))
]
scan-groups (suc n) [] done e = no_char done (suc n)
scan-groups (suc n) (h ∷ []) done e = one_char h done (suc n)
scan-groups (suc n) (h ∷ l ∷ []) done e = elim (Option-cases (read_hex_byte h l)) [
  | inl bad ↦ rw (scan_two, bad)
  | inr (b, good) ↦ rw (scan_two, good) (too_short done n b e)
]
scan-groups (suc n) (h ∷ l ∷ c ∷ rest) done e = elim (Option-cases (read_hex_byte h l)) [
  | inl bad ↦ rw (scan_two, bad)
  | inr (b, good) ↦
      rw (scan_two, good)
        (ground (
          arith,
          scan_third c rest done n b (read_hex_byte-lt h l b good) e,
          scan-groups n rest (done ++ b ∷ []),
          length-append done (b ∷ []),
          front n rest b,
        ))
]
  where
    front :
        (n : ℕ) (rest : List ℕ) (b : ℕ)
        → with_front (done ++ b ∷ []) (read_groups n rest)
          ≡ (read_groups n rest >>= λ bs. some (record { bytes = done ++ b ∷ bs }))
    front n rest b = elim (Option-cases (read_groups n rest)) [
      | inl bad ↦ rw bad
      | inr (bs, good) ↦ rw (good, append_assoc)
    ]

pub try_parse-groups :
    (str : List ℕ) → try_parse str ≡ (read_groups 5 str >>= λ bs. some (record { bytes = bs }))
unfolding try_parse
try_parse-groups str = scan-groups 5 str [] refl

-- `n` groups with the separator `sep` behind them, and a last one.
unfoldable pub read_form : ℕ → ℕ → List ℕ → Option (List ℕ)
unfolding read_hex_byte
read_form sep zero (h ∷ l ∷ []) = do b ← read_hex_byte h l; some (b ∷ [])
read_form sep zero _ = none
read_form sep (suc n) (h ∷ l ∷ s ∷ rest) = do
  b ← read_hex_byte h l
  bs ← read_form sep n rest
  if s == sep then some (b ∷ bs) else none
read_form sep (suc n) _ = none

abbrev pub or_else : Option (List ℕ) → Option (List ℕ) → Option (List ℕ)
or_else none o = o
or_else (some bs) o = some bs

abbrev pub as_address : Option (List ℕ) → Option Address
as_address o = o >>= λ bs. some (record { bytes = bs })

-- The two forms of the documentation, "XX:XX:XX:XX:XX:XX" or "XX-XX-XX-XX-XX-XX".
abbrev pub documented : List ℕ → Option Address
documented str = as_address (or_else (read_form b':' 5 str) (read_form b'-' 5 str))

-- Whether every third character, up to the `n`-th one, is `sep`.
abbrev pub separated_by : ℕ → ℕ → List ℕ → Bool
separated_by sep zero str = true
separated_by sep (suc n) (_ ∷ _ ∷ s ∷ rest) =
    let more = separated_by sep n rest in (s == sep) && more
separated_by sep (suc n) _ = false

read_form-read_groups :
    (sep n : ℕ) (str : List ℕ)
    → is_separator sep ≡ true
    → read_form sep n str ≡ (if separated_by sep n str then read_groups n str else none)
unfolding read_form read_groups
read_form-read_groups sep zero [] h = refl
read_form-read_groups sep zero (a ∷ []) h = refl
read_form-read_groups sep zero (a ∷ b ∷ []) h = refl
read_form-read_groups sep zero (a ∷ b ∷ c ∷ rest) h = refl
read_form-read_groups sep (suc n) [] h = refl
read_form-read_groups sep (suc n) (a ∷ []) h = refl
read_form-read_groups sep (suc n) (a ∷ b ∷ []) h = refl
read_form-read_groups sep (suc n) (a ∷ b ∷ s ∷ rest) h =
    ground (arith, h, read_form-read_groups sep n rest h)

either_form :
    (colons dashes : Bool) (o : Option (List ℕ))
    → as_address (or_else (if colons then o else none) (if dashes then o else none))
      ≡ (if colons || dashes then as_address o else none)
either_form true true none = refl
either_form true true (some bs) = refl
either_form true false none = refl
either_form true false (some bs) = refl
either_form false true o = refl
either_form false false o = refl

-- For every text, `try_parse` accepts exactly what the reader of six groups accepts, with a colon or a
-- dash between neighbours, each of the five by itself, and returns the same six bytes. The texts in one
-- of the two forms of the documentation are exactly those that `try_parse` accepts and whose five
-- separators are colons alone or dashes alone, with the same address; what it accepts with both kinds
-- is in neither form.
pub try_parse-read_groups :
    (str : List ℕ)
    → (try_parse str ≡ (read_groups 5 str >>= λ bs. some (record { bytes = bs })))
      × (documented str
          ≡ (if separated_by b':' 5 str || separated_by b'-' 5 str then try_parse str else none))
try_parse-read_groups str = (
  try_parse-groups str,
  rw
      (
        try_parse-groups str,
        read_form-read_groups b':' 5 str refl,
        read_form-read_groups b'-' 5 str refl,
      )
      (either_form (separated_by b':' 5 str) (separated_by b'-' 5 str) (read_groups 5 str)),
)
