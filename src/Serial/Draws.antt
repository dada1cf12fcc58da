-- ===== src/Serial/Draws.antt =====
-- What an action receives it takes off the bound on what the peer has left to send: rules, and
-- `read_line`.
use simple_rfcomm.Prelude.{
  ℕ, zero, suc, ◌+◌, ◌≤◌, ◌<◌, ◌≡◌, refl, ap, inl, inr, Option, none, some, Bool, true, false, List,
  [], ◌∷◌, length, length-append, ◌==◌, if◌then◌else◌, arith, Bool-cases,
}
use simple_rfcomm.Prelude.Int.{ℤ}
use simple_rfcomm.Os.{Os, Action, pure, ◌>>=◌, sys_now}
use simple_rfcomm.Os.Traffic.{received_bytes, received_bytes-append}
use simple_rfcomm.Socket.{is_empty}
use simple_rfcomm.Serial.Types.{SerialImpl, SerialPort}
use simple_rfcomm.Serial.Cache.{refill_rx_cache, line_rounds, read_line}
use simple_rfcomm.Serial.Line.{FinitePeer, refill-left, split_line, behind, LineOf}

pub record Draws {W A : Type 0} (left : W → ℕ) (m : Action W A) : Type 0 where
  pub drawn : (w : W) → length (received_bytes (m w).calls) + left (m w).world ≤ left w

module _ {W : Type 0} {left : W → ℕ} where
  pub pure-Draws : {A : Type 0} (a : A) → Draws left (pure a)
  pure-Draws a = record { drawn = λ w. omega arith }

  pub bind-Draws :
      {A B : Type 0} {m : Action W A} {f : A → Action W B}
      → Draws left m
      → ((a : A) → Draws left (f a))
      → Draws left (m >>= f)
  bind-Draws {m = m} {f = f} h k = record {
    drawn = λ w.
        let cs = (m w).calls in
        let ds = (f (m w).value (m w).world).calls in
        omega (
          arith,
          h.drawn w,
          (k (m w).value).drawn (m w).world,
          ap length (received_bytes-append cs ds),
          length-append (received_bytes cs) (received_bytes ds),
        );
  }

  pub if-Draws :
      {A : Type 0} (b : Bool) {m n : Action W A}
      → Draws left m
      → Draws left n
      → Draws left (if b then m else n)
  if-Draws true h k = h
  if-Draws false h k = k

pub ruleset draw_rules = (pure-Draws, bind-Draws, if-Draws)

module _ (os : Os) (peer : FinitePeer os) where
  now-call : Draws peer.left (sys_now os)
  now-call = record { drawn = λ w. omega (arith, peer.now_left w) }

  refill-Draws : (p : SerialImpl) → Draws peer.left (refill_rx_cache os p)
  refill-Draws p = record { drawn = λ w. refill-left os peer p w }

  line_rounds-Draws :
      (rounds d : ℕ) (timeout : ℤ) (start : ℕ) (p : SerialImpl) (line : List ℕ)
      → Draws peer.left (line_rounds os rounds d timeout start p line)
  unfolding line_rounds
  line_rounds-Draws zero d timeout start p line = search draw_rules
  line_rounds-Draws (suc rounds) d timeout start p line =
      search (draw_rules, now-call, refill-Draws, line_rounds-Draws rounds d timeout start) depth 9

  pub read_line-Draws :
      (rounds : ℕ) (port : SerialPort) (d : ℕ) (timeout : ℤ)
      → Draws peer.left (read_line os rounds port d timeout)
  unfolding read_line
  read_line-Draws rounds none d timeout = search draw_rules
  read_line-Draws rounds (some p) d timeout =
      search (draw_rules, now-call, line_rounds-Draws rounds d timeout)

-- What a line leaves of its stream is shorter, unless the line is empty.
split_line-length :
    (d : ℕ) (stream body left : List ℕ)
    → split_line d stream ≡ some (body, left)
    → length left < length stream
split_line-length d [] body left h = absurd (cc h)
split_line-length d (x ∷ xs) body left h = elim (Bool-cases (x == d)) [
  | inl found ↦ here (rw found at h)
  | inr other ↦ later (split_line d xs) (λ b l e. split_line-length d xs b l e) (rw other at h)
]
  where
    second : Option (List ℕ × List ℕ) → ℕ
    second none = 0
    second (some (b, l)) = length l

    here :
        ◌≡◌ {A = Option (List ℕ × List ℕ)} (some ([], xs)) (some (body, left))
        → length left < suc (length xs)
    here e = omega (arith, ap second e)

    later :
        (o : Option (List ℕ × List ℕ))
        → ((b l : List ℕ) → o ≡ some (b, l) → length l < length xs)
        → behind (x ∷ []) o ≡ some (body, left)
        → length left < suc (length xs)
    later none shorter e = absurd (cc e)
    later (some (b, l)) shorter e = omega (arith, shorter b l refl, ap second e)

pub line_shortens :
    (d : ℕ) (stream line left : List ℕ)
    → LineOf d stream line left
    → is_empty line ≡ false
    → length left < length stream
line_shortens d stream line left (inl (body, split, _)) some_bytes =
    split_line-length d stream body left split
line_shortens d stream [] left (inr (_, whole, bare)) some_bytes = absurd (cc some_bytes)
line_shortens d stream (x ∷ line) left (inr (_, whole, bare)) some_bytes =
    omega (arith, ap length whole, ap length bare)

pub line_keeps :
    (d : ℕ) (stream line left : List ℕ) → LineOf d stream line left → length left ≤ length stream
line_keeps d stream line left (inl (body, split, _)) =
    omega (arith, split_line-length d stream body left split)
line_keeps d stream line left (inr (_, whole, bare)) = omega (arith, ap length bare)
