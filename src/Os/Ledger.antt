-- ===== src/Os/Ledger.antt =====
-- A ledger of descriptors: what an owner held and what was opened is what was closed and what the
-- owner holds afterwards; and rules that show an action to open and close nothing.
use simple_rfcomm.Prelude.{
  ◌≡◌, refl, sym, ap, ◌∙◌, Bool, true, false, List, [], ◌++◌, append_assoc, if◌then◌else◌,
}
use simple_rfcomm.Prelude.Int.{ℤ}
use simple_rfcomm.Os.{Call, Action, pure, ◌>>=◌}
use simple_rfcomm.Os.Traffic.{
  opened_handles, closed_handles, opened_handles-append, closed_handles-append,
}

abbrev pub Balanced : List ℤ → List Call → List ℤ → Type 0
Balanced held calls held' = held ++ opened_handles calls ≡ closed_handles calls ++ held'

pub Balanced-append :
    (held held' held'' : List ℤ) (cs ds : List Call)
    → Balanced held cs held'
    → Balanced held' ds held''
    → Balanced held (cs ++ ds) held''
Balanced-append held held' held'' cs ds first later =
    rw (opened_handles-append cs ds, closed_handles-append cs ds)
      (sym (append_assoc held (opened_handles cs) (opened_handles ds))
        ∙ ap (λ t. t ++ opened_handles ds) first
        ∙ append_assoc (closed_handles cs) held' (opened_handles ds)
        ∙ ap (◌++◌ (closed_handles cs)) later
        ∙ sym (append_assoc (closed_handles cs) (closed_handles ds) held''))

-- An action that opens and closes no descriptor.
pub record IsQuiet {W A : Type 0} (m : Action W A) : Type 0 where
  pub none_opened : (w : W) → opened_handles (m w).calls ≡ []
  pub none_closed : (w : W) → closed_handles (m w).calls ≡ []

module _ {W : Type 0} where
  pub pure-IsQuiet : {A : Type 0} (a : A) → IsQuiet {W = W} (pure a)
  pure-IsQuiet a = record { none_opened = λ w. refl; none_closed = λ w. refl }

  pub bind-IsQuiet :
      {A B : Type 0} {m : Action W A} {f : A → Action W B}
      → IsQuiet m
      → ((a : A) → IsQuiet (f a))
      → IsQuiet (m >>= f)
  bind-IsQuiet {m = m} {f = f} h k = record {
    none_opened = λ w.
        rw (opened_handles-append (m w).calls (f (m w).value (m w).world).calls, h.none_opened w)
          ((k (m w).value).none_opened (m w).world);
    none_closed = λ w.
        rw (closed_handles-append (m w).calls (f (m w).value (m w).world).calls, h.none_closed w)
          ((k (m w).value).none_closed (m w).world);
  }

  pub if-IsQuiet :
      {A : Type 0} (b : Bool) {m n : Action W A}
      → IsQuiet m
      → IsQuiet n
      → IsQuiet (if b then m else n)
  if-IsQuiet true h k = h
  if-IsQuiet false h k = k

pub ruleset quiet_rules = (pure-IsQuiet, bind-IsQuiet, if-IsQuiet)
