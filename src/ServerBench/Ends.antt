-- ===== src/ServerBench/Ends.antt =====
-- What a session of the benchmark server has done, and what a round adds to what the rest of it does.
use simple_rfcomm.Prelude.{
  ℕ, ◌+◌, ◌%◌, ◌<◌, ◌≡◌, refl, ap, Bool, true, false, not, ◌&&◌, List, [], ◌++◌, length, take, ◌==◌,
  if◌then◌else◌, arith, length-append, take-past,
}
use simple_rfcomm.Os.{Call, Run, Outcome, returns}
use simple_rfcomm.Os.Traffic.{received_bytes, received_bytes-append, sent_bytes, sent_bytes-append}
use simple_rfcomm.Serial.{size_mod}
use simple_rfcomm.ServerBench.{SessionResult}

-- What a session has done: it returns, it has counted what it received, modulo 2^64, and it has sent
-- nothing, or, in echo mode, the front of what it received. It reports a failed echo exactly where
-- that front is not the whole.
pub record IsSession {W : Type 0} (echo_mode : Bool) (total : ℕ) (r : Run W (Outcome SessionResult))
    : Type 0 where
  pub result : SessionResult
  pub returned : r.value ≡ returns result
  pub counted : result.total_bytes ≡ (total + length (received_bytes r.calls)) % size_mod
  pub echoed :
      sent_bytes r.calls
      ≡ (if echo_mode then take (length (sent_bytes r.calls)) (received_bytes r.calls) else [])
  pub reported :
      result.echo_failed
      ≡ (echo_mode && not (length (sent_bytes r.calls) == length (received_bytes r.calls)))

-- A chunk that was received and, in echo mode, echoed, in front of the rest of the session.
pub chunk-IsSession :
    {W : Type 0} (echo_mode : Bool) (total n : ℕ) (got : List ℕ) (cs : List Call)
    (r : Run W (Outcome SessionResult))
    → length got ≡ n
    → received_bytes cs ≡ got
    → sent_bytes cs ≡ (if echo_mode then got else [])
    → IsSession echo_mode ((total + n) % size_mod) r
    → IsSession echo_mode total (record r { calls = cs ++ r.calls })
chunk-IsSession false total n got cs r count heard said rest = record {
  result = rest.result;
  returned = rest.returned;
  counted =
      rw (received_bytes-append cs r.calls, heard)
        (omega (arith, length-append got (received_bytes r.calls), count, rest.counted));
  echoed = rw (sent_bytes-append cs r.calls, said) rest.echoed;
  reported = rest.reported;
}
chunk-IsSession true total n got cs r count heard said rest =
    let out = sent_bytes r.calls in
    let later = received_bytes r.calls in
    record {
      result = rest.result;
      returned = rest.returned;
      counted =
          rw (received_bytes-append cs r.calls, heard)
            (omega (arith, length-append got later, count, rest.counted));
      echoed =
          rw
            (
              sent_bytes-append cs r.calls,
              received_bytes-append cs r.calls,
              said,
              heard,
              length-append got out,
              take-past got later (length out),
            )
            (ap (◌++◌ got) rest.echoed);
      reported =
          rw
            (
              sent_bytes-append cs r.calls,
              received_bytes-append cs r.calls,
              said,
              heard,
              length-append got out,
              length-append got later,
            )
            (ground (arith, rest.reported));
    }

-- The end of the stream, or an error.
pub ended-IsSession :
    {W : Type 0} (echo_mode : Bool) (total : ℕ) (cs : List Call) (w : W)
    → total < size_mod
    → received_bytes cs ≡ []
    → sent_bytes cs ≡ []
    → IsSession echo_mode total (record {
      value = returns (record { total_bytes = total; echo_failed = false });
      world = w;
      calls = cs;
    })
ended-IsSession false total cs w small heard said = record {
  result = record { total_bytes = total; echo_failed = false };
  returned = refl;
  counted = rw heard (omega (arith, small));
  echoed = said;
  reported = refl;
}
ended-IsSession true total cs w small heard said = record {
  result = record { total_bytes = total; echo_failed = false };
  returned = refl;
  counted = rw heard (omega (arith, small));
  echoed = rw said refl;
  reported = rw (heard, said) refl;
}

-- A chunk whose echo failed.
pub broken-IsSession :
    {W : Type 0} (echo_mode : Bool) (total n : ℕ) (got : List ℕ) (cs : List Call) (w : W)
    → echo_mode ≡ true
    → length got ≡ n
    → received_bytes cs ≡ got
    → sent_bytes cs ≡ take (length (sent_bytes cs)) got
    → (length (sent_bytes cs) == length got) ≡ false
    → IsSession echo_mode total (record {
      value = returns (record { total_bytes = (total + n) % size_mod; echo_failed = true });
      world = w;
      calls = cs;
    })
broken-IsSession echo_mode total n got cs w echoing count heard said short = record {
  result = record { total_bytes = (total + n) % size_mod; echo_failed = true };
  returned = refl;
  counted = rw (heard, count) refl;
  echoed = rw (echoing, heard) said;
  reported = rw (echoing, heard, short) refl;
}
