-- ===== src/Serial/Exact.antt =====
-- `SerialPort::read_exact`: which bytes it hands out, and what is left in the cache.
use simple_rfcomm.Prelude.{
  ℕ, zero, suc, ◌+◌, ◌≤◌, ◌≡◌, refl, sym, ap, ◌∙◌, inl, inr, Bool, false, List, [], ◌++◌, length,
  drop, ltb, ◌==◌, arith, length-drop, length-append, take-append, drop-append, append-nil,
  append_assoc, Bool-cases, drop-drop,
}
use simple_rfcomm.Os.{Os, Run, Outcome, returns}
use simple_rfcomm.Os.Traffic.{received_bytes, received_bytes-append, ReceivesWithin}
use simple_rfcomm.Serial.Types.{SerialPort}
use simple_rfcomm.Serial.Cache.{read, read_exact, read_exact_rounds}
use simple_rfcomm.Serial.Stream.{port_pending, PortIsCache}
use simple_rfcomm.Serial.Read.{read_in_order}

-- `out` came from the front of the stream and stands behind `front`; all of it was read exactly when
-- the answer is true.
pub record Filled (was got front rest out : List ℕ) (answer : Outcome Bool) (buffer now : List ℕ)
    : Type 0 where
  pub answered : answer ≡ returns (length out == length rest)
  pub placed : buffer ≡ front ++ (out ++ drop (length out) rest)
  pub in_order : out ++ now ≡ was ++ got

abbrev pub Fills :
    (os : Os)
    → SerialPort
    → List ℕ
    → List ℕ
    → Run os.World (Outcome Bool × List ℕ × SerialPort)
    → Type 0
Fills os port front rest r =
    ((out : List ℕ) × Filled (port_pending port) (received_bytes r.calls) front rest out r.value.0
        r.value.1 (port_pending r.value.2))
    × PortIsCache r.value.2

regroup :
    (front out out' rest : List ℕ)
    → (front ++ out) ++ (out' ++ drop (length out') (drop (length out) rest))
      ≡ front ++ ((out ++ out') ++ drop (length (out ++ out')) rest)
regroup front out out' rest =
    rw (drop-drop (length out) (length out') rest, length-append out out') (simp append_assoc)

-- One successful round in front of the others.
Filled-join :
    (front rest out out' was got got' now now' buffer : List ℕ) (answer : Outcome Bool)
    → length out ≤ length rest
    → out ++ now ≡ was ++ got
    → Filled now got' (front ++ out) (drop (length out) rest) out' answer buffer now'
    → Filled was (got ++ got') front rest (out ++ out') answer buffer now'
Filled-join front rest out out' was got got' now now' buffer answer h order f = record {
  answered =
      f.answered
      ∙ ap returns (ground (arith, length-append out out', length-drop (length out) rest));
  placed = f.placed ∙ regroup front out out' rest;
  in_order =
      append_assoc out out' now'
      ∙ ap (◌++◌ out) f.in_order
      ∙ sym (append_assoc out now got')
      ∙ ap (λ t. t ++ got') order
      ∙ append_assoc was got got';
}

rounds-Fills :
    (os : Os) (rounds : ℕ) (port : SerialPort) (front rest : List ℕ) (w : os.World)
    → ReceivesWithin os
    → PortIsCache port
    → length rest ≤ rounds
    → Fills os port front rest (read_exact_rounds os rounds port (front ++ rest) (length front) w)
unfolding read_exact_rounds
rounds-Fills os zero port front rest w within c enough =
    let size = length-append front rest in
    let done : ltb (length front) (length (front ++ rest)) ≡ false = ground arith in
    rw done (
      (
        [],
        record {
          answered = ap returns (ground arith);
          placed = refl;
          in_order = sym (append-nil (port_pending port));
        },
      ),
      c,
    )
rounds-Fills os (suc rounds) port front rest w within c enough =
    let size = length-append front rest in
    elim (Bool-cases (ltb (length front) (length (front ++ rest)))) [
      | inr done ↦ rw done (
        (
          [],
          record {
            answered = ap returns (ground (arith, size));
            placed = refl;
            in_order = sym (append-nil (port_pending port));
          },
        ),
        c,
      )
      | inl more ↦
          let ((out, reads), c') = read_in_order os port rest w within c in
          let r = read os port rest w in
          elim (Bool-cases (r.value.count == 0)) [
            | inl nothing ↦
                rw
                  (
                    more,
                    drop-append front rest,
                    take-append front rest,
                    nothing,
                    append-nil r.calls,
                  )
                  (
                    (
                      out,
                      record {
                        answered = ap returns (ground (arith, size, reads.counted));
                        placed = ap (◌++◌ front) reads.placed;
                        in_order = reads.in_order;
                      },
                    ),
                    c',
                  )
            | inr some_read ↦
                let buffer_at : front ++ r.value.buffer ≡ (front ++ out) ++ drop (length out) rest =
                  ap (◌++◌ front) reads.placed
                  ∙ sym (append_assoc front out (drop (length out) rest)) in
                let total_at : length front + r.value.count ≡ length (front ++ out) =
                  omega (arith, length-append front out, reads.counted) in
                let left : length (drop (length out) rest) ≤ rounds =
                  ground (arith, length-drop (length out) rest, enough, reads.counted) in
                let ((out', f), c'') =
                  rounds-Fills os rounds r.value.port (front ++ out) (drop (length out) rest)
                    r.world within c' left in
                rw
                  (
                    more,
                    drop-append front rest,
                    take-append front rest,
                    some_read,
                    buffer_at,
                    total_at,
                  )
                  (
                    (
                      out ++ out',
                      rw (received_bytes-append)
                          (Filled-join _ _ _ _ _ _ _ _ _ _ _ reads.fits reads.in_order f),
                    ),
                    c'',
                  )
          ]
    ]

-- On a port whose cache is in order and where recv(2) keeps to the buffer, `read_exact` ends within
-- its rounds. It answers true exactly when the whole buffer was filled; either way the bytes it has
-- put at the front of the buffer are the next ones of the stream, and none is lost or repeated.
pub read_exact_lem :
    (os : Os) (port : SerialPort) (buffer : List ℕ) (w : os.World)
    → ReceivesWithin os
    → PortIsCache port
    → Fills os port [] buffer (read_exact os port buffer w)
unfolding read_exact
read_exact_lem os port buffer w within c =
    rounds-Fills os (length buffer) port [] buffer w within c (omega arith)
