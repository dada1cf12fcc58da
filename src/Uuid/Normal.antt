-- ===== src/Uuid/Normal.antt =====
-- The identifiers that `Uuid::try_parse` returns, and their texts.
use simple_rfcomm.Prelude.{
  ℕ, zero, suc, ◌%◌, ◌^◌, ◌≡◌, refl, ap, sym, subst, ◌∙◌, inl, inr, Option, none, some, true, List,
  [], ◌∷◌, length, ◌==◌, ◌>>=◌, Option-cases, Bool-cases, arith,
}
use simple_rfcomm.Hex.{read_hex_byte, read_hex_byte-lt}
use simple_rfcomm.Address.Normal.{IsBytes, AreBytes}
use simple_rfcomm.Uuid.{Uuid, IsUuid, scan_short, try_parse, to_string, from_16bit}
use simple_rfcomm.Uuid.Parse.{strip, read_pairs, try_parse-read_pairs}
use simple_rfcomm.Uuid.Text.{try_parse-to_string_uuid, from_16bit-IsUuid}

read_pairs-AreBytes : (n : ℕ) (str : List ℕ) → AreBytes n (read_pairs n str)
unfolding read_pairs
read_pairs-AreBytes zero [] = (refl, tt)
read_pairs-AreBytes zero (c ∷ cs) = tt
read_pairs-AreBytes (suc n) [] = tt
read_pairs-AreBytes (suc n) (h ∷ []) = tt
read_pairs-AreBytes (suc n) (h ∷ l ∷ rest) = elim (Option-cases (read_hex_byte h l)) [
  | inl bad ↦ rw bad tt
  | inr (b, good) ↦ elim (Option-cases (read_pairs n rest)) [
    | inl bad' ↦ rw (good, bad') tt
    | inr (bs, good') ↦
        let (count, bytes) : IsBytes n bs = rw good' at (read_pairs-AreBytes n rest) in
        rw (good, good') (omega (arith, count), (read_hex_byte-lt h l b good, bytes))
  ]
]

or_else : Uuid → Option Uuid → Uuid
or_else u none = u
or_else u (some v) = v

-- What an option is, its value is.
some-IsUuid : (u v : Uuid) → some u ≡ some v → IsUuid u → IsUuid v
unfolding or_else
some-IsUuid u v h good = subst IsUuid (ap (or_else u) h) good

uuid_of :
    (o : Option (List ℕ)) (u : Uuid)
    → (o >>= λ bs. some (record { bytes = bs })) ≡ some u
    → AreBytes 16 o
    → IsUuid u
uuid_of none u h bytes = absurd (cc h)
uuid_of (some bs) u h (sixteen, in_range) =
    some-IsUuid (record { bytes = bs }) u h (record { sixteen = sixteen; in_range = in_range })

short_of :
    (o : Option ℕ) (u : Uuid) → (o >>= λ val. some (from_16bit (val % 2 ^ 16))) ≡ some u → IsUuid u
short_of none u h = absurd (cc h)
short_of (some val) u h =
    some-IsUuid (from_16bit (val % 2 ^ 16)) u h (from_16bit-IsUuid (val % 2 ^ 16) (omega arith))

short-IsUuid :
    (str : List ℕ) (u : Uuid) → (length str == 4) ≡ true → try_parse str ≡ some u → IsUuid u
unfolding try_parse
short-IsUuid str u short h = short_of (scan_short str 0) u (rw short at h)

-- Every identifier that `try_parse` makes of a text, of four characters or not, has sixteen bytes,
-- each below 256; and the text that `to_string` writes for it is read as the same identifier.
pub try_parse-IsUuid :
    (str : List ℕ) (u : Uuid)
    → try_parse str ≡ some u
    → IsUuid u × (try_parse (to_string u) ≡ some u)
try_parse-IsUuid str u h =
    let good : IsUuid u = elim (Bool-cases (length str == 4)) [
      | inl short ↦ short-IsUuid str u short h
      | inr long ↦
          uuid_of (read_pairs 16 (strip str)) u
            (sym (try_parse-read_pairs str (λ (e : length str ≡ 4). ground (arith, e, long))) ∙ h)
            (read_pairs-AreBytes 16 (strip str))
    ] in
    (good, try_parse-to_string_uuid u good)
