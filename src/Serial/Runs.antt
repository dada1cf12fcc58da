-- ===== src/Serial/Runs.antt =====
-- Any sequence of a port's operations: the descriptors that it opens and closes, and its cache.
use simple_rfcomm.Prelude.{◌≡◌, sym, ap, ◌∙◌, append-nil, append_assoc, List, [], ◌++◌}
use simple_rfcomm.Prelude.Int.{ℤ}
use simple_rfcomm.Os.{Os, returns}
use simple_rfcomm.Os.Traffic.{opened_handles, closed_handles}
use simple_rfcomm.Serial.Types.{SerialPort}
use simple_rfcomm.Serial.Life.{port_handles}
use simple_rfcomm.Serial.Operations.{PortOp, run_op}
use simple_rfcomm.Os.Traffic.{ReceivesWithin}
use simple_rfcomm.Serial.Stream.{PortIsCache}
use simple_rfcomm.Serial.OpCache.{op-IsCache}
use simple_rfcomm.Serial.OpLedger.{handed_over, op-Balanced}

-- From one state of a port and the system operations lead to another, each of which returns. The
-- descriptors that came in, handed over or opened, and those that were closed, in their order.
pub data Runs (os : Os)
    : SerialPort → os.World → SerialPort → os.World → List ℤ → List ℤ → Type 0 where
  stop : (port : SerialPort) (w : os.World) → Runs os port w port w [] []
  more :
      (op : PortOp) (port : SerialPort) (w : os.World) (next port' : SerialPort) (w' : os.World)
      (entered left : List ℤ)
      → (run_op os op port w).value ≡ returns next
      → Runs os next (run_op os op port w).world port' w' entered left
      → Runs os port w port' w'
          ((handed_over op ++ opened_handles (run_op os op port w).calls) ++ entered)
          (closed_handles (run_op os op port w).calls ++ left)

-- Over any sequence of operations of a port that return, whatever the system answers: the descriptors
-- that the port held at first and those that came in since, in their order, are those that were closed
-- and then those that the port holds. None is lost, none is closed twice, and none is closed that the
-- port did not own.
pub Runs-ledger :
    (os : Os) (port port' : SerialPort) (w w' : os.World) (entered left : List ℤ)
    → Runs os port w port' w' entered left
    → port_handles port ++ entered ≡ left ++ port_handles port'
Runs-ledger os port port' w w' entered left (stop _ _) = append-nil (port_handles port)
Runs-ledger os port port' w w' entered left (more op _ _ next _ _ entered' left' h rest) =
    let r = run_op os op port w in
    sym (append_assoc (port_handles port) (handed_over op ++ opened_handles r.calls) entered')
    ∙ ap (λ t. t ++ entered') (op-Balanced os op port next w h)
    ∙ append_assoc (closed_handles r.calls) (port_handles next) entered'
    ∙ ap (◌++◌ (closed_handles r.calls)) (Runs-ledger os next port' r.world w' entered' left' rest)
    ∙ sym (append_assoc (closed_handles r.calls) left' (port_handles port'))

-- Where recv(2) keeps to the buffer, over any sequence of operations of a port that return, the
-- head of the cache stays in its buffer and the buffer holds one chunk at most, if that was so at
-- first.
pub Runs-cache :
    (os : Os) (port port' : SerialPort) (w w' : os.World) (entered left : List ℤ)
    → ReceivesWithin os
    → PortIsCache port
    → Runs os port w port' w' entered left
    → PortIsCache port'
Runs-cache os port port' w w' entered left within c (stop _ _) = c
Runs-cache os port port' w w' entered left within c (more op _ _ next _ _ entered' left' h rest) =
    Runs-cache os next port' (run_op os op port w).world w' entered' left' within
      (op-IsCache os op port next w within c h) rest
