-- ===== src/Os/OneWay.antt =====
-- Actions that receive nothing and actions that send nothing, with rules that show it.
use simple_rfcomm.Prelude.{◌≡◌, refl, Bool, true, false, [], if◌then◌else◌}
use simple_rfcomm.Os.{Action, pure, ◌>>=◌}
use simple_rfcomm.Os.Traffic.{received_bytes, received_bytes-append, sent_bytes, sent_bytes-append}

pub record HearsNothing {W A : Type 0} (m : Action W A) : Type 0 where
  pub heard : (w : W) → received_bytes (m w).calls ≡ []

pub record SaysNothing {W A : Type 0} (m : Action W A) : Type 0 where
  pub said : (w : W) → sent_bytes (m w).calls ≡ []

module _ {W : Type 0} where
  pub pure-HearsNothing : {A : Type 0} (a : A) → HearsNothing {W = W} (pure a)
  pure-HearsNothing a = record { heard = λ w. refl }

  pub bind-HearsNothing :
      {A B : Type 0} {m : Action W A} {f : A → Action W B}
      → HearsNothing m
      → ((a : A) → HearsNothing (f a))
      → HearsNothing (m >>= f)
  bind-HearsNothing {m = m} {f = f} h k = record {
    heard = λ w.
        rw (received_bytes-append (m w).calls (f (m w).value (m w).world).calls, h.heard w)
          ((k (m w).value).heard (m w).world);
  }

  pub if-HearsNothing :
      {A : Type 0} (b : Bool) {m n : Action W A}
      → HearsNothing m
      → HearsNothing n
      → HearsNothing (if b then m else n)
  if-HearsNothing true h k = h
  if-HearsNothing false h k = k

  pub pure-SaysNothing : {A : Type 0} (a : A) → SaysNothing {W = W} (pure a)
  pure-SaysNothing a = record { said = λ w. refl }

  pub bind-SaysNothing :
      {A B : Type 0} {m : Action W A} {f : A → Action W B}
      → SaysNothing m
      → ((a : A) → SaysNothing (f a))
      → SaysNothing (m >>= f)
  bind-SaysNothing {m = m} {f = f} h k = record {
    said = λ w.
        rw (sent_bytes-append (m w).calls (f (m w).value (m w).world).calls, h.said w)
          ((k (m w).value).said (m w).world);
  }

  pub if-SaysNothing :
      {A : Type 0} (b : Bool) {m n : Action W A}
      → SaysNothing m
      → SaysNothing n
      → SaysNothing (if b then m else n)
  if-SaysNothing true h k = h
  if-SaysNothing false h k = k

pub ruleset one_way_rules = (
  pure-HearsNothing, bind-HearsNothing, if-HearsNothing, pure-SaysNothing, bind-SaysNothing,
  if-SaysNothing,
)
