-- ===== src/Serial/Refines.antt =====
-- A first-in first-out queue of bytes as the specification of a port, and the port's run as a run
-- of it.
use simple_rfcomm.Prelude.{
  ℕ, ◌≡◌, refl, sym, ap, subst, inl, inr, none, some, List, [], ◌∷◌, ◌++◌, take, take-append,
  if◌then◌else◌, Bool-cases,
}
use simple_rfcomm.Os.{Os, Outcome, returns, undefined, out_of_rounds}
use simple_rfcomm.Os.Traffic.{received_bytes, ReceivesWithin}
use simple_rfcomm.Serial.Types.{SerialImpl, SerialPort, has_flag, purge_rx}
use simple_rfcomm.Serial.Cache.{read, read_byte, clear_rx_cache}
use simple_rfcomm.Serial.Port.{write, purge, drain_socket, close_port}
use simple_rfcomm.Serial.Stream.{pending, port_pending, PortIsCache}
use simple_rfcomm.Serial.Read.{read_in_order}
use simple_rfcomm.Serial.Byte.{bytes_of, read_byte_order}
use simple_rfcomm.Serial.Life.{close_port_impl-handles}
use simple_rfcomm.Serial.OpLedger.{port_after}
use simple_rfcomm.Serial.Kept.{purge-IsCache, close-IsCache}

-- What a user of the queue can see: bytes come in at its end, bytes are handed out from its front, and
-- it is cleared.
pub data QueueEvent : Type 0 where
  arrived : List ℕ → QueueEvent
  handed_out : List ℕ → QueueEvent
  cleared : QueueEvent

-- The runs of the queue, with their events.
pub data Fifo : List ℕ → List QueueEvent → List ℕ → Type 0 where
  stop : (queue : List ℕ) → Fifo queue [] queue
  arrive :
      (queue bytes : List ℕ) (events : List QueueEvent) (queue' : List ℕ)
      → Fifo (queue ++ bytes) events queue'
      → Fifo queue (arrived bytes ∷ events) queue'
  hand_out :
      (front rest : List ℕ) (events : List QueueEvent) (queue' : List ℕ)
      → Fifo rest events queue'
      → Fifo (front ++ rest) (handed_out front ∷ events) queue'
  clear :
      (queue : List ℕ) (events : List QueueEvent) (queue' : List ℕ)
      → Fifo [] events queue'
      → Fifo queue (cleared ∷ events) queue'

-- The events of a read: what it received and what it handed out.
abbrev pub read_events : (os : Os) → SerialPort → List ℕ → os.World → List QueueEvent
read_events os port buffer w =
    let r = read os port buffer w in
    arrived (received_bytes r.calls) ∷ handed_out (take r.value.count r.value.buffer) ∷ []

abbrev pub byte_events : (os : Os) → SerialPort → os.World → List QueueEvent
byte_events os port w =
    let r = read_byte os port w in
    arrived (received_bytes r.calls) ∷ handed_out (bytes_of r.value.0) ∷ []

abbrev pub purge_events : ℕ → List QueueEvent
purge_events flags = if has_flag flags purge_rx then cleared ∷ [] else []

-- From one state of a port and the system reads, writes, purges that return and closes lead to
-- another, with their events.
pub data PortRun (os : Os)
    : SerialPort → os.World → List QueueEvent → SerialPort → os.World → Type 0 where
  port_stop : (port : SerialPort) (w : os.World) → PortRun os port w [] port w
  port_read :
      (port : SerialPort) (w : os.World) (buffer : List ℕ) (events : List QueueEvent)
      (port' : SerialPort) (w' : os.World)
      → PortRun os (read os port buffer w).value.port (read os port buffer w).world events port' w'
      → PortRun os port w (read_events os port buffer w ++ events) port' w'
  port_byte :
      (port : SerialPort) (w : os.World) (events : List QueueEvent) (port' : SerialPort)
      (w' : os.World)
      → PortRun os (read_byte os port w).value.1 (read_byte os port w).world events port' w'
      → PortRun os port w (byte_events os port w ++ events) port' w'
  port_write :
      (port : SerialPort) (w : os.World) (bytes : List ℕ) (events : List QueueEvent)
      (port' : SerialPort) (w' : os.World)
      → PortRun os port (write os port bytes w).world events port' w'
      → PortRun os port w events port' w'
  port_purge :
      (port : SerialPort) (w : os.World) (rounds flags : ℕ) (next : SerialPort)
      (events : List QueueEvent) (port' : SerialPort) (w' : os.World)
      → (purge os rounds port flags w).value ≡ returns next
      → PortRun os next (purge os rounds port flags w).world events port' w'
      → PortRun os port w (purge_events flags ++ events) port' w'
  port_close :
      (port : SerialPort) (w : os.World) (events : List QueueEvent) (port' : SerialPort)
      (w' : os.World)
      → PortRun os (close_port os port w).value (close_port os port w).world events port' w'
      → PortRun os port w (cleared ∷ events) port' w'

-- Bytes that came in and bytes that went out, in their order.
passed :
    (was out now got : List ℕ) (events : List QueueEvent) (queue' : List ℕ)
    → out ++ now ≡ was ++ got
    → Fifo now events queue'
    → Fifo was (arrived got ∷ handed_out out ∷ events) queue'
passed was out now got events queue' order rest = arrive was got (handed_out out ∷ events) queue' (
    subst (λ q. Fifo q (handed_out out ∷ events) queue') order
      (hand_out out now events queue' rest))

cleared-pending : (p : SerialImpl) → pending (clear_rx_cache p) ≡ []
unfolding clear_rx_cache
cleared-pending p = refl

purged_pending :
    (p : SerialImpl) (q : SerialPort) (o : Outcome (Unit {0}))
    → elim o [
      | returns _ ↦ returns (some (clear_rx_cache p))
      | undefined ↦ undefined
      | out_of_rounds ↦ out_of_rounds
    ]
      ≡ returns q
    → port_pending q ≡ []
purged_pending p q (returns _) h =
    subst (λ t. port_pending t ≡ []) (ap port_after h) (cleared-pending p)
purged_pending p q undefined h = absurd (cc h)
purged_pending p q out_of_rounds h = absurd (cc h)

module _ (os : Os) where
  close-pending :
      (port : SerialPort) (w : os.World) → port_pending (close_port os port w).value ≡ []
  unfolding close_port
  close-pending none w = refl
  close-pending (some p) w = let (value, _, _) = close_port_impl-handles os p w in rw value refl

  purge-Fifo :
      (rounds : ℕ) (port next : SerialPort) (flags : ℕ) (w : os.World) (events : List QueueEvent)
      (queue' : List ℕ)
      → (purge os rounds port flags w).value ≡ returns next
      → Fifo (port_pending next) events queue'
      → Fifo (port_pending port) (purge_events flags ++ events) queue'
  unfolding purge
  purge-Fifo rounds none next flags w events queue' h rest =
      let empty : Fifo [] events queue' =
        subst (λ q. Fifo (port_pending q) events queue') (sym (ap port_after h)) rest in
      elim (Bool-cases (has_flag flags purge_rx)) [
        | inr kept ↦ rw kept empty
        | inl receive ↦ rw receive (clear [] events queue' empty)
      ]
  purge-Fifo rounds (some p) next flags w events queue' h rest =
      elim (Bool-cases (has_flag flags purge_rx)) [
        | inr kept ↦ rw kept (
            subst (λ q. Fifo (port_pending q) events queue') (sym (ap port_after (rw kept at h)))
              rest)
        | inl receive ↦ rw receive (
            clear (pending p) events queue' (
              rw (purged_pending p next (drain_socket os rounds p.sock w).value (rw receive at h))
                at rest))
      ]

-- Where recv(2) keeps to the buffer and the cache is in order, any sequence of reads, single or in
-- blocks, writes, purges and closes of a port is a run of the queue: from what was cached to what is
-- cached, with the bytes that were received as those that came in, the bytes that were handed out as
-- those that went out, and each purge of the receive buffer and each close as one that clears it.
pub PortRun-Fifo :
    (os : Os) (port port' : SerialPort) (w w' : os.World) (events : List QueueEvent)
    → ReceivesWithin os
    → PortIsCache port
    → PortRun os port w events port' w'
    → Fifo (port_pending port) events (port_pending port')
PortRun-Fifo os port port' w w' events within c (port_stop _ _) = stop (port_pending port)
PortRun-Fifo os port port' w w' events within c (port_read _ _ buffer events' _ _ rest) =
    let r = read os port buffer w in
    let ((front, reads), c') = read_in_order os port buffer w within c in
    let handed : take r.value.count r.value.buffer ≡ front =
      rw (reads.placed, reads.counted) (take-append front _) in
    let later = PortRun-Fifo os r.value.port port' r.world w' events' within c' rest in
    rw handed (
      passed (port_pending port) front (port_pending r.value.port) (received_bytes r.calls) events'
        (port_pending port') reads.in_order later)
PortRun-Fifo os port port' w w' events within c (port_byte _ _ events' _ _ rest) =
    let r = read_byte os port w in
    let (order, _, c') = read_byte_order os port w within c in
    passed (port_pending port) (bytes_of r.value.0) (port_pending r.value.1)
      (received_bytes r.calls) events' (port_pending port') order
      (PortRun-Fifo os r.value.1 port' r.world w' events' within c' rest)
PortRun-Fifo os port port' w w' events within c (port_write _ _ bytes _ _ _ rest) =
    PortRun-Fifo os port port' (write os port bytes w).world w' events within c rest
PortRun-Fifo os port port' w w' events within c
      (port_purge _ _ rounds flags next events' _ _ h rest) =
    purge-Fifo os rounds port next flags w events' (port_pending port') h (
      PortRun-Fifo os next port' (purge os rounds port flags w).world w' events' within
        (purge-IsCache os rounds port next flags w c h) rest)
PortRun-Fifo os port port' w w' events within c (port_close _ _ events' _ _ rest) =
    let r = close_port os port w in
    let later =
      PortRun-Fifo os r.value port' r.world w' events' within (close-IsCache os port w) rest in
    clear (port_pending port) events' (port_pending port') (rw (close-pending os port w) at later)
