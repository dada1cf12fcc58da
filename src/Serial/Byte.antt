-- ===== src/Serial/Byte.antt =====
-- `SerialPort::read_byte`.
use simple_rfcomm.Prelude.{
  ℕ, zero, suc, ◌+◌, ◌<◌, ◌≡◌, refl, sym, ◌∙◌, inl, inr, Option, none, some, true, false, List, [],
  ◌∷◌, ◌++◌, length, take, drop, get_or, ltb, ◌==◌, if◌then◌else◌, arith, length-drop, append-nil,
  Bool-cases, Option-cases,
}
use native.Mathlib.Nat.{suc-add}
use simple_rfcomm.Os.{Os}
use simple_rfcomm.Os.Traffic.{received_bytes, ReceivesWithin}
use simple_rfcomm.Serial.Types.{SerialImpl, SerialPort, port_is_open}
use simple_rfcomm.Serial.Cache.{
  cached_bytes_available, read_byte, take_byte, refill_rx_cache, next_cached,
}
use simple_rfcomm.Serial.Stream.{
  pending, IsCache, port_pending, PortIsCache, cached-length-pending, refill-RefillResult,
}

pub get_or-drop :
    (n : ℕ) (xs : List ℕ) → n < length xs → get_or xs n 0 ∷ drop (n + 1) xs ≡ drop n xs
get_or-drop n [] h = absurd (omega arith)
get_or-drop zero (x ∷ xs) h = refl
get_or-drop (suc n) (x ∷ xs) h = rw suc-add (get_or-drop n xs (omega arith))

-- One byte off the cache.
pub next_cached_lem :
    (p : SerialImpl)
    → IsCache p
    → 0 < cached_bytes_available p
    → ((next_cached p).0 ∷ pending (next_cached p).1 ≡ pending p) × IsCache (next_cached p).1
next_cached_lem p c h =
    let inside : p.rx_head < length p.rx_buf =
      omega (arith, cached-length-pending p c, length-drop p.rx_head p.rx_buf) in
    (
      get_or-drop p.rx_head p.rx_buf inside,
      record { in_buffer = omega (arith, inside); one_chunk = c.one_chunk },
    )

abbrev pub bytes_of : Option ℕ → List ℕ
bytes_of none = []
bytes_of (some c) = c ∷ []

none_left : (xs : List ℕ) → length xs ≡ 0 → xs ≡ []
none_left [] h = refl
none_left (x ∷ xs) h = absurd (omega arith)

take_byte_lem :
    (p : SerialImpl)
    → IsCache p
    → (bytes_of (take_byte p).0 ++ port_pending (take_byte p).1 ≡ pending p)
      × ((take_byte p).0 ≡ none → pending p ≡ [])
      × PortIsCache (take_byte p).1
unfolding take_byte
take_byte_lem p c = elim (Bool-cases (ltb 0 (cached_bytes_available p))) [
  | inl cached ↦
      let (order, c') = next_cached_lem p c (ground arith) in
      rw cached (order, λ h. absurd (ground (arith, h)), c')
  | inr empty ↦
      rw empty (refl, λ _. none_left (pending p) (ground (arith, cached-length-pending p c)), c)
]

-- The bytes keep their order, and on an open port none comes out only if there is none.
pub read_byte_order :
    (os : Os) (port : SerialPort) (w : os.World)
    → ReceivesWithin os
    → PortIsCache port
    → let r = read_byte os port w in
      (bytes_of r.value.0 ++ port_pending r.value.1 ≡ port_pending port ++ received_bytes r.calls)
      × (port_is_open port ≡ true
          → r.value.0 ≡ none
          → port_pending port ++ received_bytes r.calls ≡ [])
      × PortIsCache r.value.1
unfolding read_byte
read_byte_order os none w within c = (refl, λ _ _. refl, tt)
read_byte_order os (some p) w within c = elim (Bool-cases (port_is_open (some p))) [
  | inr closed_port ↦
      rw (closed_port, append-nil (pending p)) (refl, λ h. absurd (ground (arith, h)), c)
  | inl opened_port ↦ elim (Bool-cases (cached_bytes_available p == 0)) [
    | inr cached ↦
        let (order, last, c') = take_byte_lem p c in
        rw (opened_port, cached, append-nil (pending p)) (order, λ _. last, c')
    | inl empty ↦
        let (order, keeps, answer) = refill-RefillResult os p w within in
        let r = refill_rx_cache os p w in
        let bare : pending p ≡ [] =
          none_left (pending p) (ground (arith, cached-length-pending p c)) in
        let c' = keeps c bare in
        elim (Bool-cases r.value.0) [
          | inr failed ↦
              let nothing : received_bytes r.calls ≡ [] = none_left _ (ground (arith, answer)) in
              rw (opened_port, empty, failed, append-nil r.calls)
                (order, λ _ _. rw (nothing, append-nil (pending p)) bare, c')
          | inl refilled ↦
              let (order', last, c'') = take_byte_lem r.value.1 c' in
              rw (opened_port, empty, refilled, append-nil r.calls)
                (order' ∙ order, λ _ h. sym order ∙ last h, c'')
        ]
  ]
]

read_byte_closed :
    (os : Os) (port : SerialPort) (w : os.World)
    → port_is_open port ≡ false
    → let r = read_byte os port w in (r.value ≡ (none, port)) × (received_bytes r.calls ≡ [])
unfolding read_byte
read_byte_closed os none w h = (refl, refl)
read_byte_closed os (some p) w h = rw h (refl, refl)

-- What an open port does; a port that is not open does nothing.
abbrev pub when_open : SerialPort → List ℕ → List ℕ → List ℕ
when_open port xs ys = if port_is_open port then xs else ys

-- With the cached bytes and the received ones as one stream, on a port whose cache is in order and
-- where recv(2) keeps to the buffer: `read_byte` on an open port hands out the first byte of the
-- stream, none only if the stream is empty, and leaves the rest; on a port that is not open it
-- hands out none and leaves the stream. The cache stays in order.
pub read_byte_lem :
    (os : Os) (port : SerialPort) (w : os.World)
    → ReceivesWithin os
    → PortIsCache port
    → let r = read_byte os port w in
      let stream = port_pending port ++ received_bytes r.calls in
      (bytes_of r.value.0 ≡ when_open port (take 1 stream) [])
      × (port_pending r.value.1 ≡ when_open port (drop 1 stream) stream)
      × PortIsCache r.value.1
read_byte_lem os port w within c =
    let r = read_byte os port w in
    let (order, last, c') = read_byte_order os port w within c in
    elim (Bool-cases (port_is_open port)) [
      | inr closed ↦
          let (same, silent) = read_byte_closed os port w closed in
          rw (closed, silent, same) (refl, sym (append-nil (port_pending port)), c)
      | inl opened ↦ elim (Option-cases r.value.0) [
        | inl nothing ↦
            let empty = last opened nothing in
            rw (opened, empty, nothing) (refl, rw nothing at order ∙ empty, c')
        | inr (b, handed) ↦ rw (opened, ← order, handed) (refl, refl, c')
      ]
    ]
