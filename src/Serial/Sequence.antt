-- ===== src/Serial/Sequence.antt =====
-- A port over any sequence of reads, of a block or of a byte, as a relation of its states.
use simple_rfcomm.Prelude.{
  ℕ, ◌≡◌, sym, ap, ◌∙◌, append-nil, append_assoc, take-append, List, [], ◌++◌, take,
}
use simple_rfcomm.Os.{Os}
use simple_rfcomm.Os.Traffic.{received_bytes, ReceivesWithin}
use simple_rfcomm.Serial.Types.{SerialPort}
use simple_rfcomm.Serial.Cache.{read, read_byte}
use simple_rfcomm.Serial.Stream.{port_pending, PortIsCache}
use simple_rfcomm.Serial.Read.{read_in_order}
use simple_rfcomm.Serial.Byte.{bytes_of, read_byte_order}

-- From one state of a port and the system reads lead to another; the bytes that they hand out, and
-- the bytes that they receive.
pub data ReadsTo (os : Os)
    : SerialPort → os.World → SerialPort → os.World → List ℕ → List ℕ → Type 0 where
  stop : (port : SerialPort) (w : os.World) → ReadsTo os port w port w [] []
  by_read :
      (port : SerialPort) (w : os.World) (buffer : List ℕ) (port' : SerialPort) (w' : os.World)
      (out got : List ℕ)
      → ReadsTo os (read os port buffer w).value.port (read os port buffer w).world port' w' out got
      → ReadsTo os port w port' w'
          (take (read os port buffer w).value.count (read os port buffer w).value.buffer ++ out)
          (received_bytes (read os port buffer w).calls ++ got)
  by_byte :
      (port : SerialPort) (w : os.World) (port' : SerialPort) (w' : os.World) (out got : List ℕ)
      → ReadsTo os (read_byte os port w).value.1 (read_byte os port w).world port' w' out got
      → ReadsTo os port w port' w'
          (bytes_of (read_byte os port w).value.0 ++ out)
          (received_bytes (read_byte os port w).calls ++ got)

in_order_join :
    (was now now' out out' got got' : List ℕ)
    → out ++ now ≡ was ++ got
    → out' ++ now' ≡ now ++ got'
    → (out ++ out') ++ now' ≡ was ++ (got ++ got')
in_order_join was now now' out out' got got' first later =
    append_assoc out out' now'
    ∙ ap (◌++◌ out) later
    ∙ sym (append_assoc out now got')
    ∙ ap (λ t. t ++ got') first
    ∙ append_assoc was got got'

-- Where recv(2) keeps to the buffer and the cache is in order, any sequence of reads hands out the
-- bytes of one stream in their order: what was cached, then what was received, less what is cached
-- in the end. No byte is lost or repeated between two reads, and the cache stays in order.
pub reads_keep_order :
    (os : Os) (port port' : SerialPort) (w w' : os.World) (out got : List ℕ)
    → ReceivesWithin os
    → PortIsCache port
    → ReadsTo os port w port' w' out got
    → (out ++ port_pending port' ≡ port_pending port ++ got) × PortIsCache port'
reads_keep_order os port port' w w' out got within c (stop _ _) =
    (sym (append-nil (port_pending port)), c)
reads_keep_order os port port' w w' out got within c (by_read _ _ buffer _ _ out' got' rest) =
    let ((front, reads), c') = read_in_order os port buffer w within c in
    let (order, c'') =
      reads_keep_order os (read os port buffer w).value.port port' (read os port buffer w).world w'
        out' got' within c' rest in
    let handed : take (read os port buffer w).value.count (read os port buffer w).value.buffer
        ≡ front =
      rw (reads.placed, reads.counted) (take-append front _) in
    (rw handed (in_order_join _ _ _ front out' _ got' reads.in_order order), c'')
reads_keep_order os port port' w w' out got within c (by_byte _ _ _ _ out' got' rest) =
    let r = read_byte os port w in
    let (order, _, c') = read_byte_order os port w within c in
    let (later, c'') = reads_keep_order os r.value.1 port' r.world w' out' got' within c' rest in
    (in_order_join _ _ _ (bytes_of r.value.0) out' _ got' order later, c'')
