-- ===== src/ClientBench/Ends.antt =====
-- How a transfer may end, and what a round adds to what the rest of it does.
use simple_rfcomm.Prelude.{
  ℕ, zero, suc, ◌+◌, ◌-◌, ◌≤◌, ◌<◌, ◌≡◌, refl, ap, ◌∙◌, Bool, true, false, List, [], ◌++◌, length,
  take, take-append, take-past, take-split, front-append, min, ◌==◌, if◌then◌else◌, arith,
  length-append, length-take,
}
use simple_rfcomm.Os.{Call, Run, Outcome, returns}
use simple_rfcomm.Os.Traffic.{received_bytes, received_bytes-append, sent_bytes, sent_bytes-append}
use simple_rfcomm.ClientBench.{Ending, complete, send_failed, recv_failed, Transferred}

-- The pattern again and again.
abbrev pub copies : ℕ → List ℕ → List ℕ
copies zero xs = []
copies (suc n) xs = xs ++ copies n xs

-- How a transfer that has `left` bytes to send, the front of `stream`, may end behind `before` bytes.
abbrev pub EndsAs : Bool → ℕ → List ℕ → List ℕ → List ℕ → Transferred → Ending → Type 0
EndsAs echo_mode before goal out got t complete =
    (out ≡ goal)
    × (t.total_sent ≡ before + length goal)
    × (length got ≡ (if echo_mode then length goal else 0))
EndsAs echo_mode before goal out got t send_failed =
    (length out < length goal) × (t.total_sent ≤ before + length out)
EndsAs echo_mode before goal out got t recv_failed =
    (echo_mode ≡ true) × (t.total_sent ≡ before + length out) × ((length got == length out) ≡ false)

-- What a transfer has done: it returns, what it sent is the front of its goal, and it ended for one
-- of the reasons, with the count that goes with it.
pub record IsTransfer {W : Type 0} (echo_mode : Bool) (before : ℕ) (goal : List ℕ)
    (r : Run W (Outcome Transferred)) : Type 0 where
  pub result : Transferred
  pub returned : r.value ≡ returns result
  pub front : sent_bytes r.calls ≡ take (length (sent_bytes r.calls)) goal
  pub ended :
      EndsAs echo_mode before goal
        (sent_bytes r.calls)
        (received_bytes r.calls)
        result
        result.ending

EndsAs-behind :
    (e : Ending) (echo_mode : Bool) (before : ℕ) (piece goal out first got : List ℕ)
    (t : Transferred)
    → length first ≡ (if echo_mode then length piece else 0)
    → EndsAs echo_mode (before + length piece) goal out got t e
    → EndsAs echo_mode before (piece ++ goal) (piece ++ out) (first ++ got) t e
EndsAs-behind complete false before piece goal out first got t count (all, total, heard) = (
  ap (◌++◌ piece) all,
  omega (arith, total, length-append piece goal),
  omega (arith, length-append first got, heard, count),
)
EndsAs-behind complete true before piece goal out first got t count (all, total, heard) = (
  ap (◌++◌ piece) all,
  omega (arith, total, length-append piece goal),
  omega (arith, length-append first got, heard, count, length-append piece goal),
)
EndsAs-behind send_failed echo_mode before piece goal out first got t count (fewer, total) = (
  omega (arith, fewer, length-append piece goal, length-append piece out),
  omega (arith, total, length-append piece out),
)
EndsAs-behind recv_failed echo_mode before piece goal out first got t count
      (echoing, total, other) =
    let heard : length first ≡ length piece = count ∙ rw echoing refl in
    (
      echoing,
      omega (arith, total, length-append piece out),
      ground (arith, other, heard, length-append first got, length-append piece out),
    )

-- A chunk that was sent and, in echo mode, answered, in front of the rest of the transfer.
pub chunk-IsTransfer :
    {W : Type 0} (echo_mode : Bool) (before size : ℕ) (piece goal : List ℕ) (cs : List Call)
    (r : Run W (Outcome Transferred))
    → length piece ≡ size
    → sent_bytes cs ≡ piece
    → length (received_bytes cs) ≡ (if echo_mode then size else 0)
    → IsTransfer echo_mode (before + size) goal r
    → IsTransfer echo_mode before (piece ++ goal) (record r { calls = cs ++ r.calls })
chunk-IsTransfer echo_mode before size piece goal cs r count said heard rest = record {
  result = rest.result;
  returned = rest.returned;
  front =
      rw
        (
          sent_bytes-append cs r.calls,
          said,
          length-append piece (sent_bytes r.calls),
          take-past piece goal (length (sent_bytes r.calls)),
        )
        (ap (◌++◌ piece) rest.front);
  ended =
      rw (sent_bytes-append cs r.calls, received_bytes-append cs r.calls, said)
        (EndsAs-behind rest.result.ending echo_mode before piece goal (sent_bytes r.calls)
          (received_bytes cs) (received_bytes r.calls) rest.result (rw count heard)
          (rw count rest.ended));
}

-- A chunk that was not sent as a whole.
pub unsent-IsTransfer :
    {W : Type 0} (echo_mode : Bool) (before : ℕ) (piece goal : List ℕ) (cs : List Call) (w : W)
    → sent_bytes cs ≡ take (length (sent_bytes cs)) piece
    → (length (sent_bytes cs) == length piece) ≡ false
    → IsTransfer echo_mode before (piece ++ goal) (record {
      value = returns (record { total_sent = before; ending = send_failed });
      world = w;
      calls = cs;
    })
unsent-IsTransfer echo_mode before piece goal cs w said short =
    let out = sent_bytes cs in
    let within : length out ≤ length piece =
      omega (arith, ap length said, length-take (length out) piece) in
    record {
      result = record { total_sent = before; ending = send_failed };
      returned = refl;
      front = front-append out piece goal said;
      ended = (ground (arith, short, within, length-append piece goal), omega arith);
    }

-- A chunk whose echo did not come.
pub unanswered-IsTransfer :
    {W : Type 0} (echo_mode : Bool) (before size : ℕ) (piece goal : List ℕ) (cs : List Call) (w : W)
    → length piece ≡ size
    → echo_mode ≡ true
    → sent_bytes cs ≡ piece
    → (length (received_bytes cs) == size) ≡ false
    → IsTransfer echo_mode before (piece ++ goal) (record {
      value = returns (record { total_sent = before + size; ending = recv_failed });
      world = w;
      calls = cs;
    })
unanswered-IsTransfer echo_mode before size piece goal cs w count echoing said other = record {
  result = record { total_sent = before + size; ending = recv_failed };
  returned = refl;
  front = rw (said, take-append piece goal) refl;
  ended = (echoing, rw (said, count) refl, rw (said, count) other);
}

-- A transfer that had nothing left to send.
pub done-IsTransfer :
    {W : Type 0} (echo_mode : Bool) (before : ℕ) (w : W)
    → IsTransfer echo_mode before [] (record {
      value = returns (record { total_sent = before; ending = complete });
      world = w;
      calls = [];
    })
done-IsTransfer false before w = record {
  result = record { total_sent = before; ending = complete };
  returned = refl;
  front = refl;
  ended = (refl, omega arith, refl);
}
done-IsTransfer true before w = record {
  result = record { total_sent = before; ending = complete };
  returned = refl;
  front = refl;
  ended = (refl, omega arith, refl);
}

pub copies_split :
    (n m : ℕ) (xs : List ℕ)
    → 0 < m
    → m ≤ n
    → take m (copies n xs)
      ≡ take (min (length xs) m) xs ++ take (m - min (length xs) m) (copies (n - 1) xs)
copies_split zero m xs h h' = absurd (omega (arith, h, h'))
copies_split (suc n) m xs h h' =
    let one_less : suc n - 1 ≡ n = omega arith in rw one_less (take-split m xs (copies n xs))
