-- ===== src/Serial/Stream.antt =====
-- The port as a stream: what the cache still holds, followed by what the socket delivers.
use simple_rfcomm.Prelude.{
  ℕ, zero, suc, ◌+◌, ◌≤◌, ◌<◌, ◌≡◌, refl, ap, ◌∙◌, inl, inr, none, some, Bool, List, [], ◌∷◌, ◌++◌,
  length, take, drop, replicate, ltb, leb, arith, length-drop, length-append, length-replicate,
  take-append, append-nil, Bool-cases,
}
use simple_rfcomm.Os.{Os}
use simple_rfcomm.Os.Traffic.{received_bytes, ReceivesWithin}
use simple_rfcomm.Socket.{recv}
use simple_rfcomm.Socket.Receive.{recv-RecvResult}
use simple_rfcomm.Serial.Types.{SerialImpl, SerialPort, socket_of, impl_is_open}
use simple_rfcomm.Serial.Cache.{
  chunk_size, size_mod, clear_rx_cache, cached_bytes_available, append_chunk, reset_if_exhausted,
  refill_rx_cache,
}

-- What has been received and not been read.
abbrev pub pending : SerialImpl → List ℕ
pending p = drop p.rx_head p.rx_buf

-- The head stays in the buffer, which holds one chunk at most.
pub record IsCache (p : SerialImpl) : Type 0 where
  pub in_buffer : p.rx_head ≤ length p.rx_buf
  pub one_chunk : length p.rx_buf ≤ chunk_size

abbrev pub port_pending : SerialPort → List ℕ
port_pending none = []
port_pending (some p) = pending p

abbrev pub PortIsCache : SerialPort → Type 0
PortIsCache none = Unit
PortIsCache (some p) = IsCache p

chunk_size-lt : chunk_size < size_mod
unfolding chunk_size
chunk_size-lt = omega arith

pub cached-length-pending :
    (p : SerialImpl) → IsCache p → cached_bytes_available p ≡ length (pending p)
unfolding cached_bytes_available
cached-length-pending p c =
    omega (arith, c.in_buffer, c.one_chunk, chunk_size-lt, length-drop p.rx_head p.rx_buf)

-- A refill fails with nothing received, or appends what was received.
abbrev pub RefillResult : SerialImpl → Bool × SerialImpl → List ℕ → Type 0
RefillResult p (ok, p') got =
    (pending p' ≡ pending p ++ got)
    × (IsCache p → pending p ≡ [] → IsCache p')
    × (ok ≡ ltb 0 (length got))

drop_all : (n : ℕ) (xs : List ℕ) → length xs ≤ n → drop n xs ≡ []
drop_all zero [] h = refl
drop_all (suc n) [] h = refl
drop_all zero (x ∷ xs) h = absurd (omega arith)
drop_all (suc n) (x ∷ xs) h = drop_all n xs (omega arith)

-- Clearing an exhausted buffer drops nothing, and afterwards an empty rest is an empty buffer.
reset_if_exhausted_lem :
    (p : SerialImpl)
    → (pending (reset_if_exhausted p) ≡ pending p)
      × ((reset_if_exhausted p).rx_head ≤ length (reset_if_exhausted p).rx_buf)
      × (pending p ≡ [] → (reset_if_exhausted p).rx_buf ≡ [])
      × (socket_of (reset_if_exhausted p) ≡ socket_of p)
unfolding reset_if_exhausted clear_rx_cache
reset_if_exhausted_lem p = elim (Bool-cases (leb (length p.rx_buf) p.rx_head)) [
  | inl exhausted ↦
      rw (exhausted, drop_all p.rx_head p.rx_buf (ground arith))
        (refl, omega arith, λ _. refl, refl)
  | inr more ↦ rw more (
    refl,
    ground arith,
    λ h. absurd (ground (arith, ap length h, length-drop p.rx_head p.rx_buf)),
    refl,
  )
]

append_chunk_lem :
    (p : SerialImpl) (chunk : List ℕ) (r : ℕ)
    → p.rx_head ≤ length p.rx_buf
    → (pending (append_chunk p chunk r) ≡ pending p ++ take r chunk)
      × ((append_chunk p chunk r).rx_head ≡ 0)
      × (length (append_chunk p chunk r).rx_buf ≡ length (pending p) + length (take r chunk))
unfolding append_chunk
append_chunk_lem p chunk r h = elim (Bool-cases (ltb 0 p.rx_head)) [
  | inl moved ↦ rw moved (refl, refl, length-append (drop p.rx_head p.rx_buf) (take r chunk))
  | inr front ↦
      let zero_head : p.rx_head ≡ 0 = ground arith in
      rw (front, zero_head) (refl, refl, length-append p.rx_buf (take r chunk))
]

pub refill-RefillResult :
    (os : Os) (p : SerialImpl) (w : os.World)
    → ReceivesWithin os
    → let r = refill_rx_cache os p w in RefillResult p r.value (received_bytes r.calls)
unfolding refill_rx_cache
refill-RefillResult os p w within = elim (Bool-cases (impl_is_open p)) [
  | inr closed ↦ rw (closed, append-nil (pending p)) (refl, λ c _. c, refl)
  | inl open_port ↦
      let (same, inside, emptied, _) = reset_if_exhausted_lem p in
      let q = reset_if_exhausted p in
      elim (recv-RecvResult os (socket_of q) (replicate chunk_size 0) w within) [
        | inl (failed, nothing, _) ↦
            rw (open_port, failed, append-nil, nothing)
              (
                rw (append-nil (pending p)) same,
                λ c e.
                    let bare = emptied e in
                    record { in_buffer = inside; one_chunk = rw bare (omega arith) },
                refl,
              )
        | inr (k, value, count, fits, filled) ↦
            let got = received_bytes (recv os (socket_of q) (replicate chunk_size 0) w).calls in
            let chunk = got ++ drop (suc k) (replicate chunk_size 0) in
            let front : take (suc k) chunk ≡ got = rw (← count, take-append) in
            let (whole, at_zero, size) = append_chunk_lem q chunk (suc k) inside in
            rw (open_port, value, append-nil, filled)
              (
                rw (front, same) at whole,
                λ c e. record {
                  in_buffer = omega (arith, at_zero);
                  one_chunk = omega (
                    arith,
                    size,
                    ap length (same ∙ e),
                    ap length front,
                    count,
                    fits,
                    length-replicate {A = ℕ} chunk_size 0,
                  );
                },
                ground (arith, count),
              )
      ]
]
