-- ===== src/Server/Bind.antt =====
-- `Server::listen`'s choice of a channel.
use simple_rfcomm.Prelude.{
  ℕ, zero, suc, ◌+◌, ◌<◌, ◌≡◌, ◌⊎◌, inl, inr, refl, ap, List, [], ◌∷◌, arith, Bool-cases,
  if◌then◌else◌,
}
use simple_rfcomm.Prelude.Int.{ℤ, is_zero}
use simple_rfcomm.Os.{Os, Call, bound}
use simple_rfcomm.Os.Traffic.{opened_handles, closed_handles}
use simple_rfcomm.Server.{scan_channels, bind_channel}

-- The channels that were tried, in order, up to the first that could be bound; 0 where none could.
abbrev pub first_bound : List Call → ℕ
first_bound [] = 0
first_bound (bound fd ch status ∷ cs) =
    let later = first_bound cs in if is_zero status then ch else later
first_bound (_ ∷ cs) = first_bound cs

abbrev pub tried : List Call → List ℕ
tried [] = []
tried (bound fd ch status ∷ cs) = ch ∷ tried cs
tried (_ ∷ cs) = tried cs

-- `n` channels from `ch` on.
abbrev pub channels_from : ℕ → ℕ → List ℕ
channels_from zero ch = []
channels_from (suc n) ch = ch ∷ channels_from n (ch + 1)

module _ (os : Os) where
  scan_channels_lem :
      (n ch : ℕ) (fd : ℤ) (w : os.World)
      → let r = scan_channels os n ch fd w in
        (((r.value ≡ 0) × (tried r.calls ≡ channels_from n ch))
          ⊎ ((k : ℕ) × (k < n) × (r.value ≡ ch + k) × (tried r.calls ≡ channels_from (suc k) ch)))
        × (r.value ≡ first_bound r.calls)
        × (opened_handles r.calls ≡ [])
        × (closed_handles r.calls ≡ [])
  unfolding scan_channels
  scan_channels_lem zero ch fd w = (inl (refl, refl), refl, refl, refl)
  scan_channels_lem (suc n) ch fd w =
      let status = (os.do_bind fd ch w).0 in
      let w' = (os.do_bind fd ch w).1 in
      elim (Bool-cases (is_zero status)) [
        | inl taken ↦ rw taken (inr (0, omega arith, omega arith, refl), refl, refl, refl)
        | inr refused ↦
            let (result, value, o, c) = scan_channels_lem n (ch + 1) fd w' in
            rw refused (
              elim result [
                | inl (none_bound, channels) ↦ inl (none_bound, ap (◌∷◌ ch) channels)
                | inr (k, fits, at, channels) ↦
                    inr (suc k, omega (arith, fits), omega (arith, at), ap (◌∷◌ ch) channels)
              ],
              value,
              o,
              c,
            )
      ]

  -- A listen that asks for any channel tries the channels from 1 on, 30 at most, takes the first that
  -- can be bound, and none after it; if none can be bound, the channel is 0.
  pub bind_any_channel :
      (fd : ℤ) (w : os.World)
      → let r = bind_channel os 0 fd w in
        (((r.value ≡ 0) × (tried r.calls ≡ channels_from 30 1))
          ⊎ ((k : ℕ) × (k < 30) × (r.value ≡ 1 + k) × (tried r.calls ≡ channels_from (suc k) 1)))
        × (r.value ≡ first_bound r.calls)
  unfolding bind_channel
  bind_any_channel fd w = let (result, value, _, _) = scan_channels_lem 30 1 fd w in (result, value)

  pub bind_channel-handles :
      (ch : ℕ) (fd : ℤ) (w : os.World)
      → let r = bind_channel os ch fd w in
        (opened_handles r.calls ≡ [])
        × (closed_handles r.calls ≡ [])
        × ((ch ≡ 0) ⊎ (r.value ≡ 0) ⊎ (r.value ≡ ch))
  unfolding bind_channel
  bind_channel-handles zero fd w =
      let (_, _, o, c) = scan_channels_lem 30 1 fd w in (o, c, inl refl)
  bind_channel-handles (suc ch) fd w = elim (Bool-cases (is_zero (os.do_bind fd (suc ch) w).0)) [
    | inl taken ↦ rw taken (refl, refl, inr (inr refl))
    | inr refused ↦ rw refused (refl, refl, inr (inl refl))
  ]
