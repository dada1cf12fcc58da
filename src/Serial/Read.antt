-- ===== src/Serial/Read.antt =====
-- `SerialPort::read`: which bytes it hands out, and what is left in the cache.
use simple_rfcomm.Prelude.{
  ℕ, zero, suc, ◌+◌, ◌≤◌, ◌≡◌, refl, sym, ap, ap₂, subst, ◌∙◌, inl, inr, none, some, not, ◌||◌,
  List, [], ◌∷◌, ◌++◌, length, take, drop, overwrite, ltb, ◌==◌, min, arith, length-drop,
  length-append, length-take, take-append, drop-append, append-nil, append_assoc, Bool-cases,
  overwrite_lem, drop-drop, take-append-drop,
}
use simple_rfcomm.Os.{Os, Run}
use simple_rfcomm.Os.Traffic.{received_bytes, ReceivesWithin}
use simple_rfcomm.Socket.{recv, is_empty}
use simple_rfcomm.Socket.Receive.{recv-RecvResult}
use simple_rfcomm.Serial.Types.{SerialImpl, SerialPort, socket_of, port_is_open}
use simple_rfcomm.Serial.Cache.{ReadResult, read_rest, read_impl, read}
use simple_rfcomm.Serial.Stream.{pending, IsCache, port_pending, PortIsCache, cached-length-pending}

-- `out` has been put at the front of `buffer`; it came from the front of the stream, which is what
-- was pending and then what was received, and the rest of that is pending now.
pub record Reads (was got buffer : List ℕ) (out : List ℕ) (count : ℕ) (buffer' : List ℕ)
    (now : List ℕ) : Type 0 where
  pub counted : count ≡ length out
  pub fits : length out ≤ length buffer
  pub placed : buffer' ≡ out ++ drop (length out) buffer
  pub in_order : out ++ now ≡ was ++ got

abbrev pub ReadsInto : List ℕ → List ℕ → List ℕ → ReadResult → Type 0
ReadsInto was got buffer r =
    (out : List ℕ) × Reads was got buffer out r.count r.buffer (port_pending r.port)

-- The direct part of `read`, behind `front` bytes from an exhausted cache.
rest-ReadsInto :
    (os : Os) (p : SerialImpl) (front tail buffer : List ℕ) (w : os.World)
    → ReceivesWithin os
    → pending p ≡ []
    → tail ≡ drop (length front) buffer
    → length front ≤ length buffer
    → let r = read_rest os p (front ++ tail) (length front) w in
      ReadsInto front (received_bytes r.calls) buffer r.value × (r.value.port ≡ some p)
unfolding read_rest
rest-ReadsInto os p front tail buffer w within empty at_tail h =
    elim (recv-RecvResult os (socket_of p) tail w within) [
      | inl (failed, nothing, same) ↦
          rw (drop-append front tail, take-append front tail, failed, append-nil, nothing, same)
            (
              (
                front,
                record {
                  counted = refl;
                  fits = h;
                  placed = ap (◌++◌ front) at_tail;
                  in_order = ap (◌++◌ front) empty;
                },
              ),
              refl,
            )
      | inr (k, value, count, fits, filled) ↦
          let got = received_bytes (recv os (socket_of p) tail w).calls in
          let whole : length (front ++ got) ≡ length front + suc k =
            omega (arith, length-append front got, count) in
          rw (drop-append front tail, take-append front tail, value, append-nil, filled)
            (
              (
                front ++ got,
                record {
                  counted = sym whole;
                  fits =
                      omega
                        (arith, whole, fits, ap length at_tail, length-drop (length front) buffer);
                  placed =
                      rw (whole, at_tail, drop-drop (length front) (suc k) buffer, append_assoc);
                  in_order = rw (empty, append-nil);
                },
              ),
              refl,
            )
    ]

-- The cache with `n` more bytes read.
advanced : SerialImpl → ℕ → SerialImpl
advanced p n = record p { rx_head = p.rx_head + n }

advanced-IsCache :
    (p : SerialImpl) (n : ℕ)
    → IsCache p
    → n ≤ length (pending p)
    → IsCache (advanced p n) × (pending (advanced p n) ≡ drop n (pending p))
unfolding advanced
advanced-IsCache p n c h = (
  record {
    in_buffer = omega (arith, c.in_buffer, length-drop p.rx_head p.rx_buf);
    one_chunk = c.one_chunk;
  },
  sym (drop-drop p.rx_head n p.rx_buf),
)

take_all : (n : ℕ) (xs : List ℕ) → length xs ≤ n → (take n xs ≡ xs) × (drop n xs ≡ [])
take_all zero [] h = (refl, refl)
take_all (suc n) [] h = (refl, refl)
take_all zero (x ∷ xs) h = absurd (omega arith)
take_all (suc n) (x ∷ xs) h = let (t, d) = take_all n xs (omega arith) in (ap (◌∷◌ x) t, d)

-- What `read` promises of a port whose cache is in order.
abbrev pub Served : (os : Os) → List ℕ → List ℕ → Run os.World ReadResult → Type 0
Served os was buffer r =
    ReadsInto was (received_bytes r.calls) buffer r.value × PortIsCache r.value.port

rest-Served :
    (os : Os) (q : SerialImpl) (front buffer : List ℕ) (n : ℕ) (w : os.World)
    → ReceivesWithin os
    → IsCache q
    → pending q ≡ []
    → length front ≡ n
    → n ≤ length buffer
    → Served os front buffer (read_rest os q (front ++ drop n buffer) n w)
rest-Served os q front buffer n w within c empty count h =
    subst (λ m. Served os front buffer (read_rest os q (front ++ drop m buffer) m w)) count
      (let (result, port) =
          rest-ReadsInto os q front (drop (length front) buffer) buffer w within empty refl
            (omega (arith, count)) in
        (result, rw port c))

impl-Served :
    (os : Os) (p : SerialImpl) (buffer : List ℕ) (w : os.World)
    → ReceivesWithin os
    → IsCache p
    → Served os (pending p) buffer (read_impl os p buffer w)
unfolding read_impl advanced
impl-Served os p buffer w within c =
    let n = min (length (pending p)) (length buffer) in
    let avail = cached-length-pending p c in
    let (c', left) = advanced-IsCache p n c (omega arith) in
    let size : length (take n (pending p)) ≡ n = omega (arith, length-take n (pending p)) in
    let written = overwrite_lem (take n (pending p)) buffer (omega (arith, size)) in
    elim (Bool-cases (ltb 0 (length (pending p)))) [
      | inr none_cached ↦
          let empty : pending p ≡ [] = (take_all 0 (pending p) (ground arith)).1 in
          rw (avail, none_cached)
            (subst (λ was. Served os was buffer (read_rest os p buffer 0 w)) (sym empty)
              (rest-Served os p [] buffer 0 w within c empty refl (omega arith)))
      | inl cached ↦ elim (Bool-cases (n == length buffer)) [
        | inl full ↦
            rw (avail, cached, full)
              (
                (
                  take n (pending p),
                  record {
                    counted = sym size;
                    fits = omega (arith, size);
                    placed = written;
                    in_order =
                        ap (◌++◌ (take n (pending p))) left
                        ∙ take-append-drop n (pending p)
                        ∙ sym (append-nil (pending p));
                  },
                ),
                c',
              )
        | inr more ↦
            let all : length (pending p) ≤ n = ground arith in
            let (same, none_left) = take_all n (pending p) all in
            let into : overwrite (take n (pending p)) buffer ≡ pending p ++ drop n buffer =
              written ∙ ap₂ (λ (xs : List ℕ) (t : ℕ). xs ++ drop t buffer) same size in
            rw (avail, cached, more, into)
              (rest-Served os (advanced p n) (pending p) buffer n w within c' (left ∙ none_left)
                (omega (arith, all)) (omega arith))
      ]
    ]

-- On a port, open or not, whose cache is in order and where recv(2) keeps to the buffer, the bytes
-- that `read` puts into the buffer are the next ones of the stream, none is lost or repeated, the
-- rest of the buffer is left alone, and the cache stays in order.
pub read_in_order :
    (os : Os) (port : SerialPort) (buffer : List ℕ) (w : os.World)
    → ReceivesWithin os
    → PortIsCache port
    → Served os (port_pending port) buffer (read os port buffer w)
unfolding read
read_in_order os none buffer w within c =
    (([], record { counted = refl; fits = omega arith; placed = refl; in_order = refl }), tt)
read_in_order os (some p) buffer w within c =
    elim (Bool-cases (not (port_is_open (some p)) || is_empty buffer)) [
      | inl idle ↦ rw idle (
        (
          [],
          record {
            counted = refl;
            fits = omega arith;
            placed = refl;
            in_order = sym (append-nil (pending p));
          },
        ),
        c,
      )
      | inr busy ↦ rw busy (impl-Served os p buffer w within c)
    ]
