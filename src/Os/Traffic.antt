-- ===== src/Os/Traffic.antt =====
-- The bytes that went over a connection, and the descriptors that were closed, read from the calls;
-- and what send(2) and recv(2) promise of their counts.
use simple_rfcomm.Prelude.{
  ℕ, ◌≤◌, ◌≡◌, refl, some, List, [], ◌∷◌, ◌++◌, length, take, append_assoc, if◌then◌else◌,
}
use simple_rfcomm.Prelude.Int.{ℤ, pos, is_negative}
use simple_rfcomm.Os.{
  Os, Call, sent, received, closed, opened, accepted, accepted_bth, session_opened, session_closed,
}

-- What one call handed over to the system: as many bytes as it answered.
abbrev pub sent_by : Call → List ℕ
sent_by (sent fd bytes (pos n)) = take n bytes
sent_by _ = []

abbrev pub received_by : Call → List ℕ
received_by (received fd size (some bytes)) = bytes
received_by _ = []

abbrev pub closed_by : Call → List ℤ
closed_by (closed fd) = fd ∷ []
closed_by _ = []

-- An answer below zero is a failure, which opens nothing.
abbrev pub if_valid : ℤ → List ℤ
if_valid fd = if is_negative fd then [] else fd ∷ []

abbrev pub opened_by : Call → List ℤ
opened_by (opened fd) = if_valid fd
opened_by (accepted fd answer) = if_valid answer.0
opened_by (accepted_bth fd answer) = if_valid answer.0
opened_by _ = []

abbrev pub opened_sessions_by : Call → List ℕ
opened_sessions_by (session_opened addr (some s)) = s ∷ []
opened_sessions_by _ = []

abbrev pub closed_sessions_by : Call → List ℕ
closed_sessions_by (session_closed s) = s ∷ []
closed_sessions_by _ = []

abbrev pub opened_handles : List Call → List ℤ
opened_handles [] = []
opened_handles (c ∷ cs) = opened_by c ++ opened_handles cs

abbrev pub opened_sessions : List Call → List ℕ
opened_sessions [] = []
opened_sessions (c ∷ cs) = opened_sessions_by c ++ opened_sessions cs

abbrev pub closed_sessions : List Call → List ℕ
closed_sessions [] = []
closed_sessions (c ∷ cs) = closed_sessions_by c ++ closed_sessions cs

abbrev pub sent_bytes : List Call → List ℕ
sent_bytes [] = []
sent_bytes (c ∷ cs) = sent_by c ++ sent_bytes cs

abbrev pub received_bytes : List Call → List ℕ
received_bytes [] = []
received_bytes (c ∷ cs) = received_by c ++ received_bytes cs

abbrev pub closed_handles : List Call → List ℤ
closed_handles [] = []
closed_handles (c ∷ cs) = closed_by c ++ closed_handles cs

pub sent_bytes-append : (cs ds : List Call) → sent_bytes (cs ++ ds) ≡ sent_bytes cs ++ sent_bytes ds
sent_bytes-append [] ds = refl
sent_bytes-append (c ∷ cs) ds = rw (sent_bytes-append cs ds, append_assoc)

pub received_bytes-append :
    (cs ds : List Call) → received_bytes (cs ++ ds) ≡ received_bytes cs ++ received_bytes ds
received_bytes-append [] ds = refl
received_bytes-append (c ∷ cs) ds = rw (received_bytes-append cs ds, append_assoc)

pub closed_handles-append :
    (cs ds : List Call) → closed_handles (cs ++ ds) ≡ closed_handles cs ++ closed_handles ds
closed_handles-append [] ds = refl
closed_handles-append (c ∷ cs) ds = rw (closed_handles-append cs ds, append_assoc)

pub opened_handles-append :
    (cs ds : List Call) → opened_handles (cs ++ ds) ≡ opened_handles cs ++ opened_handles ds
opened_handles-append [] ds = refl
opened_handles-append (c ∷ cs) ds = rw (opened_handles-append cs ds, append_assoc)

-- send(2) never answers more than it was given, and recv(2) never writes past the buffer.
abbrev pub SendsWithin : Os → Type 0
SendsWithin os =
    (fd : ℤ) (bytes : List ℕ) (w : os.World) (n : ℕ)
    → (os.do_send fd bytes w).0 ≡ pos n
    → n ≤ length bytes

abbrev pub ReceivesWithin : Os → Type 0
ReceivesWithin os =
    (fd : ℤ) (size : ℕ) (w : os.World) (bytes : List ℕ)
    → (os.do_recv fd size w).0 ≡ some bytes
    → length bytes ≤ size
