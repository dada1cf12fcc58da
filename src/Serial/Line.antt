-- ===== src/Serial/Line.antt =====
-- The inner loop of `SerialPort::read_line`, and the rounds that its outer loop needs.
use simple_rfcomm.Prelude.{
  ℕ, zero, suc, ◌+◌, ◌≤◌, ◌≡◌, refl, ap, ◌⊎◌, inl, inr, Option, none, some, true, false, not, ◌||◌,
  List, [], ◌∷◌, ◌++◌, length, ltb, ◌==◌, if◌then◌else◌, arith, replicate, append-nil, append_assoc,
  Bool-cases,
}
use simple_rfcomm.Prelude.Int.{ℤ}
use simple_rfcomm.Os.{Os, received}
use simple_rfcomm.Os.Traffic.{received_by, received_bytes}
use simple_rfcomm.Socket.{Socket, recv, is_open, is_empty, handle_of}
use simple_rfcomm.Serial.Types.{SerialImpl, socket_of, impl_is_open}
use simple_rfcomm.Serial.Cache.{
  cached_bytes_available, refill_rx_cache, next_cached, Drained, drain_line, strip_cr, chunk_size,
  reset_if_exhausted,
}
use simple_rfcomm.Serial.Stream.{pending, IsCache, cached-length-pending}
use simple_rfcomm.Serial.Byte.{next_cached_lem}

-- `xs` in front of the first part.
abbrev pub behind : List ℕ → Option (List ℕ × List ℕ) → Option (List ℕ × List ℕ)
behind xs none = none
behind xs (some (body, rest)) = some (xs ++ body, rest)

-- The bytes before the first delimiter and those behind it.
abbrev pub split_line : ℕ → List ℕ → Option (List ℕ × List ℕ)
split_line d [] = none
split_line d (x ∷ xs) =
    let later = behind (x ∷ []) (split_line d xs) in if x == d then some ([], xs) else later

-- What a call makes of a stream: a line without its delimiter and what is left of the stream, or,
-- without a delimiter, all of it.
abbrev pub LineOf : ℕ → List ℕ → List ℕ → List ℕ → Type 0
LineOf d stream line left =
    ((body : List ℕ) × (split_line d stream ≡ some (body, left)) × (line ≡ strip_cr body))
    ⊎ ((split_line d stream ≡ none) × (line ≡ stream) × (left ≡ []))

behind-none : (xs : List ℕ) (o : Option (List ℕ × List ℕ)) → behind xs o ≡ none → o ≡ none
behind-none xs none h = refl
behind-none xs (some _) h = absurd (cc h)

behind-behind :
    (x : ℕ) (xs : List ℕ) (o : Option (List ℕ × List ℕ))
    → behind (x ∷ []) (behind xs o) ≡ behind (x ∷ xs) o
behind-behind x xs none = refl
behind-behind x xs (some _) = refl

behind-nil : (o : Option (List ℕ × List ℕ)) → o ≡ behind [] o
behind-nil none = refl
behind-nil (some _) = refl

-- Without a delimiter in its front, a stream is split behind the front.
split_line-append :
    (d : ℕ) (xs ys : List ℕ)
    → split_line d xs ≡ none
    → split_line d (xs ++ ys) ≡ behind xs (split_line d ys)
split_line-append d [] ys h = behind-nil (split_line d ys)
split_line-append d (x ∷ xs) ys h = elim (Bool-cases (x == d)) [
  | inl found ↦ absurd (ground (arith, rw found at h))
  | inr other ↦
      let clean = behind-none (x ∷ []) (split_line d xs) (rw other at h) in
      rw (other, split_line-append d xs ys clean) (behind-behind x xs (split_line d ys))
]

split_line-here :
    (d x : ℕ) (line rest : List ℕ)
    → split_line d line ≡ none
    → (x == d) ≡ true
    → split_line d (line ++ x ∷ rest) ≡ some (line, rest)
split_line-here d x line rest clean found =
    rw (split_line-append d line (x ∷ rest) clean, found, append-nil line) refl

split_line-past :
    (d x : ℕ) (line : List ℕ)
    → split_line d line ≡ none
    → (x == d) ≡ false
    → split_line d (line ++ x ∷ []) ≡ none
split_line-past d x line clean other = rw (split_line-append d line (x ∷ []) clean, other) refl

-- What the inner loop makes of the cache, behind the part of the line that it already had.
abbrev pub Drains : ℕ → List ℕ → Drained → Type 0
Drains d stream r =
    (((r.found ≡ true)
        × ((body : List ℕ) × (split_line d stream ≡ some (body, pending r.impl))
            × (r.line ≡ strip_cr body)))
      ⊎ ((r.found ≡ false)
          × (split_line d stream ≡ none)
          × (r.line ≡ stream)
          × (pending r.impl ≡ [])))
    × IsCache r.impl

none_left : (xs : List ℕ) → length xs ≡ 0 → xs ≡ []
none_left [] h = refl
none_left (x ∷ xs) h = absurd (omega arith)

pub drain_line-Drains :
    (rounds d : ℕ) (p : SerialImpl) (line : List ℕ)
    → IsCache p
    → split_line d line ≡ none
    → length (pending p) ≤ rounds
    → Drains d (line ++ pending p) (drain_line rounds d p line)
unfolding drain_line
drain_line-Drains zero d p line c clean h =
    let bare = none_left (pending p) (omega (arith, h)) in
    rw (bare, append-nil line) (inr (refl, clean, refl, refl), c)
drain_line-Drains (suc rounds) d p line c clean h =
    elim (Bool-cases (ltb 0 (cached_bytes_available p))) [
      | inr empty ↦
          let bare = none_left (pending p) (ground (arith, cached-length-pending p c)) in
          rw (empty, bare, append-nil line) (inr (refl, clean, refl, refl), c)
      | inl cached ↦
          let (order, c') = next_cached_lem p c (ground arith) in
          let x = (next_cached p).0 in
          let q = (next_cached p).1 in
          elim (Bool-cases (x == d)) [
            | inl found ↦
                rw (cached, found, ← order)
                  (inl (refl, (line, split_line-here d x line (pending q) clean found, refl)), c')
            | inr other ↦
                rw (cached, other, ← order, ← append_assoc line (x ∷ []) (pending q))
                  (drain_line-Drains rounds d q (line ++ x ∷ []) c'
                    (split_line-past d x line clean other) (omega (arith, h, ap length order)))
          ]
    ]

-- A peer that sends finitely many bytes: `left` bounds those still to come. A receive takes what it
-- delivers off the bound; the clock and the descriptor's flags do not raise it.
pub record FinitePeer (os : Os) : Type 0 where
  pub left : os.World → ℕ
  pub recv_left :
      (fd : ℤ) (size : ℕ) (w : os.World)
      → length (received_by (received fd size (os.do_recv fd size w).0))
          + left (os.do_recv fd size w).1
        ≤ left w
  pub now_left : (w : os.World) → left (os.do_now w).1 ≤ left w
  pub getfl_left : (fd : ℤ) (w : os.World) → left (os.do_getfl fd w).1 ≤ left w
  pub setfl_left : (fd : ℤ) (flags : ℕ) (w : os.World) → left (os.do_setfl fd flags w).1 ≤ left w

module _ (os : Os) (peer : FinitePeer os) where
  pub recv-left :
      (sock : Socket) (buffer : List ℕ) (w : os.World)
      → let r = recv os sock buffer w in
        length (received_bytes r.calls) + peer.left r.world ≤ peer.left w
  unfolding recv
  recv-left sock buffer w = elim (Bool-cases (not (is_open sock) || is_empty buffer)) [
    | inl idle ↦ rw idle (omega arith)
    | inr busy ↦ rw (busy, append-nil) (peer.recv_left (handle_of sock) (length buffer) w)
  ]

  pub refill-left :
      (p : SerialImpl) (w : os.World)
      → let r = refill_rx_cache os p w in
        length (received_bytes r.calls) + peer.left r.world ≤ peer.left w
  unfolding refill_rx_cache
  refill-left p w = elim (Bool-cases (impl_is_open p)) [
    | inr closed ↦ rw closed (omega arith)
    | inl opened ↦
        rw (opened, append-nil)
          (recv-left (socket_of (reset_if_exhausted p)) (replicate chunk_size 0) w)
  ]

-- The inner loop leaves the cache in order, and nothing cached unless it has found a line.
pub drain_line-IsCache :
    (rounds d : ℕ) (p : SerialImpl) (line : List ℕ)
    → IsCache p
    → length (pending p) ≤ rounds
    → let r = drain_line rounds d p line in IsCache r.impl × (r.found ≡ false → pending r.impl ≡ [])
unfolding drain_line
drain_line-IsCache zero d p line c h = (c, λ _. none_left (pending p) (omega (arith, h)))
drain_line-IsCache (suc rounds) d p line c h =
    elim (Bool-cases (ltb 0 (cached_bytes_available p))) [
      | inr empty ↦
          rw empty (c, λ _. none_left (pending p) (ground (arith, cached-length-pending p c)))
      | inl cached ↦
          let (order, c') = next_cached_lem p c (ground arith) in
          elim (Bool-cases ((next_cached p).0 == d)) [
            | inl found ↦ rw (cached, found) (c', λ e. absurd (ground (arith, e)))
            | inr other ↦
                rw (cached, other)
                  (drain_line-IsCache rounds d (next_cached p).1 (line ++ (next_cached p).0 ∷ []) c'
                    (omega (arith, h, ap length order)))
          ]
    ]
