-- ===== src/Serial/ReadLine.antt =====
-- The outer loop of `SerialPort::read_line`, and the line that it returns.
use simple_rfcomm.Prelude.{
  ℕ, zero, suc, ◌≤◌, ◌<◌, ◌≡◌, refl, ap, ap₂, subst, ◌∙◌, inl, inr, none, some, true, false, List,
  [], ◌∷◌, ◌++◌, length, arith, append-nil, append_assoc, Bool-cases,
}
use simple_rfcomm.Prelude.Int.{ℤ, is_positive}
use simple_rfcomm.Os.{Os, Call, Run, Outcome, returns}
use simple_rfcomm.Os.Traffic.{received_bytes, received_bytes-append, ReceivesWithin}
use simple_rfcomm.Serial.Types.{SerialImpl, SerialPort, port_is_open}
use simple_rfcomm.Serial.Cache.{
  cached_bytes_available, refill_rx_cache, drain_line, line_rounds, late, read_line,
}
use simple_rfcomm.Serial.Stream.{
  pending, IsCache, port_pending, PortIsCache, cached-length-pending, refill-RefillResult,
}
use simple_rfcomm.Serial.Line.{split_line, LineOf, drain_line-Drains, FinitePeer, refill-left}

abbrev pub LineRead : (os : Os) → ℕ → List ℕ → Run os.World (Outcome (List ℕ) × SerialPort) → Type 0
LineRead os d before r =
    ((answer : List ℕ) × (r.value.0 ≡ returns answer)
      × LineOf d (before ++ received_bytes r.calls) answer (port_pending r.value.1))
    × PortIsCache r.value.1

none_left : (xs : List ℕ) → length xs ≡ 0 → xs ≡ []
none_left [] h = refl
none_left (x ∷ xs) h = absurd (omega arith)

heard :
    (cs ds es : List Call)
    → received_bytes cs ≡ []
    → received_bytes (cs ++ (ds ++ es)) ≡ received_bytes ds ++ received_bytes es
heard cs ds es h = rw (received_bytes-append cs (ds ++ es), received_bytes-append ds es, h) refl

module _ (os : Os) (peer : FinitePeer os) (within : ReceivesWithin os) where
  late_lem :
      (timeout : ℤ) (start : ℕ) (w : os.World)
      → (received_bytes (late os timeout start w).calls ≡ [])
        × (peer.left (late os timeout start w).world ≤ peer.left w)
  late_lem timeout start w = elim (Bool-cases (is_positive timeout)) [
    | inl timed ↦ rw timed (refl, peer.now_left w)
    | inr untimed ↦ rw untimed (refl, omega arith)
  ]

  rounds-LineRead :
      (rounds d : ℕ) (timeout : ℤ) (start : ℕ) (p : SerialImpl) (line : List ℕ) (w : os.World)
      → IsCache p
      → split_line d line ≡ none
      → peer.left w < rounds
      → LineRead os d (line ++ pending p) (line_rounds os rounds d timeout start p line w)
  unfolding line_rounds
  rounds-LineRead zero d timeout start p line w c clean h = absurd (omega (arith, h))
  rounds-LineRead (suc rounds) d timeout start p line w c clean h =
      let stream = line ++ pending p in
      let drained = drain_line (cached_bytes_available p) d p line in
      let (outcome, c') =
        drain_line-Drains (cached_bytes_available p) d p line c clean
          (omega (arith, cached-length-pending p c)) in
      elim outcome [
        | inl (found, (body, split, stripped)) ↦
            rw (found, append-nil stream) ((drained.line, refl, inl (body, split, stripped)), c')
        | inr (missing, none_split, whole, bare) ↦
            let (silent, later) = late_lem timeout start w in
            let l = late os timeout start w in
            elim (Bool-cases l.value) [
              | inl passed ↦
                  rw (missing, passed, append-nil l.calls, silent, append-nil stream)
                    ((drained.line, refl, inr (none_split, whole, bare)), c')
              | inr waiting ↦
                  let r = refill_rx_cache os drained.impl l.world in
                  let (order, keeps, answer) = refill-RefillResult os drained.impl l.world within in
                  let fewer = refill-left os peer drained.impl l.world in
                  let arrived : pending r.value.1 ≡ received_bytes r.calls =
                    order ∙ ap (λ t. t ++ received_bytes r.calls) bare in
                  elim (Bool-cases r.value.0) [
                    | inr failed ↦
                        let nothing : received_bytes r.calls ≡ [] =
                          none_left _ (ground (arith, answer)) in
                        rw
                          (
                            missing,
                            waiting,
                            failed,
                            append-nil r.calls,
                            received_bytes-append,
                            silent,
                            nothing,
                            append-nil stream,
                          )
                          (
                            (drained.line, refl, inr (none_split, whole, arrived ∙ nothing)),
                            keeps c' bare,
                          )
                    | inl refilled ↦
                        let rest =
                          line_rounds os rounds d timeout start r.value.1 drained.line r.world in
                        let ((line', ended, result), c'') =
                          rounds-LineRead rounds d timeout start r.value.1 drained.line r.world
                            (keeps c' bare) (ap (split_line d) whole ∙ none_split)
                            (ground (arith, answer, fewer, later, h)) in
                        rw (missing, waiting, refilled, heard l.calls r.calls rest.calls silent)
                          (
                            (
                              line',
                              ended,
                              subst (λ s. LineOf d s line' (port_pending rest.value.1))
                                  (ap (λ t. t ++ received_bytes rest.calls)
                                      (ap₂ (λ (a b : List ℕ). a ++ b) whole arrived)
                                    ∙ append_assoc stream (received_bytes r.calls)
                                        (received_bytes rest.calls))
                                  result,
                            ),
                            c'',
                          )
                  ]
            ]
      ]

none-port_is_open : port_is_open none ≡ false
unfolding port_is_open
none-port_is_open = refl

-- On an open port whose cache is in order, where recv(2) keeps to the buffer and the peer sends
-- finitely many bytes, `read_line` returns once it is given more rounds than the peer has bytes left.
-- With the cached bytes and the received ones as one stream, it returns what stands before the first
-- delimiter, less a carriage return at the end, and leaves what stands behind that delimiter; or,
-- where the stream has no delimiter, all of it.
pub read_line_lem :
    (os : Os) (peer : FinitePeer os) (rounds : ℕ) (port : SerialPort) (delimiter : ℕ) (timeout : ℤ)
    (w : os.World)
    → ReceivesWithin os
    → PortIsCache port
    → port_is_open port ≡ true
    → peer.left w < rounds
    → LineRead os delimiter (port_pending port) (read_line os rounds port delimiter timeout w)
unfolding read_line
read_line_lem os peer rounds none delimiter timeout w within c opened h =
    absurd (ground (arith, rw none-port_is_open at opened))
read_line_lem os peer rounds (some p) delimiter timeout w within c opened h =
    let not_more : peer.left (os.do_now w).1 ≤ peer.left w = peer.now_left w in
    let less : peer.left (os.do_now w).1 < rounds = omega (arith, h, not_more) in
    rw opened (
      rounds-LineRead os peer within rounds delimiter timeout (os.do_now w).0 p [] (os.do_now w).1 c
        refl less)
