-- ===== src/Command/Ends.antt =====
-- What a program has closed, by how it has ended; and steps of the ledger of descriptors in front
-- of others.
use simple_rfcomm.Prelude.{ℕ, ◌≤◌, ◌≡◌, refl, sym, ◌∙◌, append-nil, List, [], ◌++◌, length}
use simple_rfcomm.Prelude.Int.{ℤ}
use simple_rfcomm.Os.{Call, Outcome, returns, undefined, out_of_rounds}
use simple_rfcomm.Os.Traffic.{opened_handles, closed_handles}
use simple_rfcomm.Os.Ledger.{Balanced}
use simple_rfcomm.Command.{Exit, exits, uncaught}

-- A program that was cut off, or whose behaviour is undefined, may still hold `most` descriptors.
abbrev pub Leaves : ℕ → Outcome Exit → List Call → Type 0
Leaves most (returns (exits status)) cs = closed_handles cs ≡ opened_handles cs
Leaves most (returns uncaught) cs = cs ≡ []
Leaves most undefined cs = (held : List ℤ) × Balanced [] cs held × (length held ≤ most)
Leaves most out_of_rounds cs = (held : List ℤ) × Balanced [] cs held × (length held ≤ most)

pub Balanced-ends : (cs : List Call) → Balanced [] cs [] → closed_handles cs ≡ opened_handles cs
Balanced-ends cs h = sym (h ∙ append-nil _)

-- Calls that close the first descriptors that are held, and those that open more behind them.
pub closes_front :
    (front rest : List ℤ) (cs : List Call)
    → opened_handles cs ≡ []
    → closed_handles cs ≡ front
    → Balanced (front ++ rest) cs rest
closes_front front rest cs o c = rw (o, c) (append-nil (front ++ rest))

pub opens_behind :
    (front more : List ℤ) (cs : List Call)
    → opened_handles cs ≡ more
    → closed_handles cs ≡ []
    → Balanced front cs (front ++ more)
opens_behind front more cs o c = rw (o, c) refl

pub keeps_all :
    (held : List ℤ) (cs : List Call)
    → opened_handles cs ≡ []
    → closed_handles cs ≡ []
    → Balanced held cs held
keeps_all held cs o c = rw (o, c) (append-nil held)
