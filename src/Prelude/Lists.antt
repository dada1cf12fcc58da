-- ===== src/Prelude/Lists.antt =====
-- Lists measured and indexed by native numbers, under the library's names.
use Prim.Native.Nat.{ℕ, zero, suc, ◌+◌, ◌-◌, ◌≤◌, min}
use mathlib.Core.Path.{◌≡◌, refl, sym, ap, ◌∙◌}
use mathlib.Core.List.{List, [], ◌∷◌, ◌++◌}
use mathlib.Core.Bool.{true}
use simple_rfcomm.Prelude.Tests.{◌==◌}
use native.Mathlib.Nat.{zero-add, add-zero, suc-add}
use native.Mathlib.Omega.{arith}

module _ {ℓ} {A : Type ℓ} where
  abbrev pub length : List A → ℕ
  length [] = 0
  length (x ∷ xs) = suc (length xs)

  abbrev pub get_or : List A → ℕ → A → A
  get_or [] i d = d
  get_or (x ∷ xs) zero d = x
  get_or (x ∷ xs) (suc i) d = get_or xs i d

  -- A write out of bounds changes nothing.
  abbrev pub set : List A → ℕ → A → List A
  set [] i v = []
  set (x ∷ xs) zero v = v ∷ xs
  set (x ∷ xs) (suc i) v = x ∷ set xs i v

  abbrev pub take : ℕ → List A → List A
  take zero xs = []
  take (suc n) [] = []
  take (suc n) (x ∷ xs) = x ∷ take n xs

  abbrev pub drop : ℕ → List A → List A
  drop zero xs = xs
  drop (suc n) [] = []
  drop (suc n) (x ∷ xs) = drop n xs

  abbrev pub replicate : ℕ → A → List A
  replicate zero a = []
  replicate (suc n) a = a ∷ replicate n a

  -- The front of a buffer replaced by `xs`; what does not fit is not written.
  abbrev pub overwrite : List A → List A → List A
  overwrite [] buffer = buffer
  overwrite (x ∷ xs) [] = []
  overwrite (x ∷ xs) (b ∷ buffer) = x ∷ overwrite xs buffer

  abbrev pub All {κ} : (A → Type κ) → List A → Type κ
  All P [] = Unit {κ}
  All P (x ∷ xs) = P x × All P xs

  pub length-append : (xs ys : List A) → length (xs ++ ys) ≡ length xs + length ys
  length-append [] ys = omega arith
  length-append (x ∷ xs) ys = omega (arith, length-append xs ys)

  pub take-append-drop : (n : ℕ) (xs : List A) → take n xs ++ drop n xs ≡ xs
  take-append-drop zero xs = refl
  take-append-drop (suc n) [] = refl
  take-append-drop (suc n) (x ∷ xs) = rw (take-append-drop n xs)

  pub length-take : (n : ℕ) (xs : List A) → length (take n xs) ≡ min n (length xs)
  length-take zero xs = omega arith
  length-take (suc n) [] = omega arith
  length-take (suc n) (x ∷ xs) = omega (arith, length-take n xs)

  pub length-drop : (n : ℕ) (xs : List A) → length (drop n xs) ≡ length xs - n
  length-drop zero xs = omega arith
  length-drop (suc n) [] = omega arith
  length-drop (suc n) (x ∷ xs) = omega (arith, length-drop n xs)

  pub length-replicate : (n : ℕ) (a : A) → length (replicate n a) ≡ n
  length-replicate zero a = refl
  length-replicate (suc n) a = ap suc (length-replicate n a)

  pub set-append :
      (done rest : List A) (x v : A) → set (done ++ x ∷ rest) (length done) v ≡ done ++ v ∷ rest
  set-append [] rest x v = refl
  set-append (d ∷ done) rest x v = ap (◌∷◌ d) (set-append done rest x v)

  pub take-append-take-drop :
      (m n : ℕ) (xs : List A) → take m xs ++ take n (drop m xs) ≡ take (m + n) xs
  take-append-take-drop zero n xs = rw zero-add
  take-append-take-drop (suc m) zero [] = rw add-zero
  take-append-take-drop (suc m) (suc n) [] = rw suc-add
  take-append-take-drop (suc m) n (x ∷ xs) = rw (take-append-take-drop m n xs, suc-add)

  pub drop-drop : (m n : ℕ) (xs : List A) → drop n (drop m xs) ≡ drop (m + n) xs
  drop-drop zero n xs = rw zero-add
  drop-drop (suc m) zero [] = rw suc-add
  drop-drop (suc m) (suc n) [] = rw suc-add
  drop-drop (suc m) n (x ∷ xs) = rw (drop-drop m n xs, suc-add)

  -- A prefix of `k` elements and a prefix of what follows it.
  pub take-join :
      (k : ℕ) (xs ys : List A)
      → k ≤ length xs
      → ys ≡ take (length ys) (drop k xs)
      → (length (take k xs ++ ys) ≡ k + length ys)
        × (take k xs ++ ys ≡ take (length (take k xs ++ ys)) xs)
  take-join k xs ys h e =
      let count : length (take k xs ++ ys) ≡ k + length ys =
        omega (arith, length-append (take k xs) ys, length-take k xs) in
      (count, rw count (rw (← take-append-take-drop k (length ys) xs) (ap (◌++◌ (take k xs)) e)))

  pub take-append : (xs ys : List A) → take (length xs) (xs ++ ys) ≡ xs
  take-append [] ys = refl
  take-append (x ∷ xs) ys = ap (◌∷◌ x) (take-append xs ys)

  pub drop-append : (xs ys : List A) → drop (length xs) (xs ++ ys) ≡ ys
  drop-append [] ys = refl
  drop-append (x ∷ xs) ys = drop-append xs ys

  pub overwrite_lem :
      (xs buffer : List A)
      → length xs ≤ length buffer
      → overwrite xs buffer ≡ xs ++ drop (length xs) buffer
  overwrite_lem [] buffer h = refl
  overwrite_lem (x ∷ xs) [] h = absurd (omega arith)
  overwrite_lem (x ∷ xs) (b ∷ buffer) h = ap (◌∷◌ x) (overwrite_lem xs buffer (omega arith))

  pub take-past : (xs ys : List A) (n : ℕ) → take (length xs + n) (xs ++ ys) ≡ xs ++ take n ys
  take-past [] ys n = rw zero-add
  take-past (x ∷ xs) ys n = rw (suc-add, take-past xs ys n)

  pub take_all : (xs : List A) → take (length xs) xs ≡ xs
  take_all [] = refl
  take_all (x ∷ xs) = ap (◌∷◌ x) (take_all xs)

  -- A front that is as long as the whole.
  pub whole_front :
      (xs ys : List A) → xs ≡ take (length xs) ys → (length xs == length ys) ≡ true → xs ≡ ys
  whole_front xs ys front whole =
      let same : length xs ≡ length ys = ground (arith, whole) in
      front ∙ ap (λ n. take n ys) same ∙ take_all ys

  pub take-whole-append : (n : ℕ) (xs ys : List A) → n ≤ length xs → take n (xs ++ ys) ≡ take n xs
  take-whole-append zero xs ys h = refl
  take-whole-append (suc n) [] ys h = absurd (omega (arith, h))
  take-whole-append (suc n) (x ∷ xs) ys h =
      ap (◌∷◌ x) (take-whole-append n xs ys (omega (arith, h)))

  pub take-split :
      (n : ℕ) (xs ys : List A)
      → take n (xs ++ ys) ≡ take (min (length xs) n) xs ++ take (n - min (length xs) n) ys
  take-split n [] ys =
      let none_here : min 0 n ≡ 0 = omega arith in
      let all_left : n - 0 ≡ n = omega arith in rw (none_here, all_left) refl
  take-split zero (x ∷ xs) ys =
      let none_here : min (suc (length xs)) 0 ≡ 0 = omega arith in rw none_here refl
  take-split (suc n) (x ∷ xs) ys =
      let one_here : min (suc (length xs)) (suc n) ≡ suc (min (length xs) n) = omega arith in
      let same_left : suc n - suc (min (length xs) n) ≡ n - min (length xs) n = omega arith in
      rw (one_here, same_left) (ap (◌∷◌ x) (take-split n xs ys))

  pub front-append :
      (xs ys zs : List A) → xs ≡ take (length xs) ys → xs ≡ take (length xs) (ys ++ zs)
  front-append xs ys zs h =
      let short : length xs ≤ length ys = omega (arith, ap length h, length-take (length xs) ys) in
      h ∙ sym (take-whole-append (length xs) ys zs short)
