-- ===== src/Serial/Write.antt =====
-- `SerialPort::write`: the bytes that reach the system.
use simple_rfcomm.Prelude.{
  ℕ, ◌≤◌, ◌≡◌, inl, inr, refl, append-nil, not, ◌||◌, List, length, take, arith, Bool-cases,
}
use simple_rfcomm.Os.{Os}
use simple_rfcomm.Os.Traffic.{sent_bytes, SendsWithin}
use simple_rfcomm.Socket.{is_empty}
use simple_rfcomm.Socket.Send.{send-SendResult}
use simple_rfcomm.Serial.Types.{SerialPort, port_is_open}
use simple_rfcomm.Serial.Port.{socket_in, write}

module _ (os : Os) where
  -- If send(2) never answers more than it was given, `write` reports exactly how many bytes the system
  -- took, and these are the first ones of the data.
  pub write_lem :
      (port : SerialPort) (bytes : List ℕ) (w : os.World)
      → SendsWithin os
      → let r = write os port bytes w in
        (sent_bytes r.calls ≡ take r.value bytes) × (r.value ≤ length bytes)
  unfolding write
  write_lem port bytes w within = elim (Bool-cases (not (port_is_open port) || is_empty bytes)) [
    | inl idle ↦ rw idle (refl, omega arith)
    | inr busy ↦ elim (send-SendResult os (socket_in os port) bytes w within) [
      | inl (failed, nothing) ↦ rw (busy, failed, append-nil, nothing) (refl, omega arith)
      | inr (k, value, fits, taken) ↦ rw (busy, value, append-nil, taken) (refl, fits)
    ]
  ]
