-- ===== src/Os.antt =====
-- The operating system as the library's Linux build calls it: an interface over an abstract state,
-- and the actions of the model, which return a value, the next state and the calls that were made.
-- Nothing here models the system; `Os` is a parameter of every definition that uses it.
pub mod Traffic
pub mod Ledger
pub mod OneWay
use simple_rfcomm.Prelude.{ℕ, Option, none, some, List, [], ◌∷◌, ◌++◌, Bool}
use simple_rfcomm.Prelude.Int.{ℤ}
use simple_rfcomm.Platform.{BdAddr}

-- The options that the library sets; a time is in seconds and microseconds, or, in the Windows
-- build, in milliseconds.
pub data SockOpt : Type 0 where
  sndbuf : ℤ → SockOpt
  rcvbuf : ℤ → SockOpt
  sndtimeo : ℤ → ℤ → SockOpt
  rcvtimeo : ℤ → ℤ → SockOpt
  sndtimeo_ms : ℕ → SockOpt
  rcvtimeo_ms : ℕ → SockOpt

-- `sdp_data_t`, which is a chain of elements: a UUID of 16, 32 or 128 bits, of which the library reads
-- the member `uuid16`, an 8-bit number, or an element of another type.
pub data SdpData : Type 0 where
  uuid_data : ℕ → SdpData
  uint8_data : ℕ → SdpData
  other_data : SdpData

-- A service record of an answer: what `sdp_get_access_protos` reads from it, `none` for an error. A
-- list of protocol descriptors has one list of chains for each.
pub record SdpRecord : Type 0 where
  pub access_protos : Option (List (List (List SdpData)))

-- An attribute that the library puts into a service record.
pub data SdpAttribute : Type 0 where
  service_id : List ℕ → SdpAttribute
  service_classes : List (List ℕ) → SdpAttribute
  browse_groups : List ℕ → SdpAttribute
  access_protocols : List (List (List SdpData)) → SdpAttribute
  info : List ℕ → List ℕ → List ℕ → SdpAttribute

-- A system call as it was made, the descriptor first and the answer last. Winsock's accept and connect
-- take an address as a number, and its ioctl sets a socket's mode.
pub data Call : Type 0 where
  opened : ℤ → Call
  option_set : ℤ → SockOpt → ℤ → Call
  bound : ℤ → ℕ → ℤ → Call
  listened : ℤ → ℤ → ℤ → Call
  accepted : ℤ → ℤ × BdAddr × ℕ → Call
  connected : ℤ → BdAddr → ℕ → ℤ → Call
  named : ℤ → ℤ × ℕ → Call
  sent : ℤ → List ℕ → ℤ → Call
  received : ℤ → ℕ → Option (List ℕ) → Call
  accepted_bth : ℤ → ℤ × ℕ × ℕ → Call
  connected_bth : ℤ → ℕ → ℕ → ℤ → Call
  mode_set : ℤ → ℕ → ℤ → Call
  flags_read : ℤ → ℤ → Call
  flags_set : ℤ → ℕ → ℤ → Call
  pending_read : ℤ → Option ℕ → Call
  closed : ℤ → Call
  clock_read : ℕ → Call
  allocated : ℕ → Bool → Call
  record_allocated : Option ℕ → Call
  record_set : ℕ → SdpAttribute → Call
  session_opened : BdAddr → Option ℕ → Call
  record_registered : ℕ → ℕ → ℤ → Call
  record_unregistered : ℕ → ℕ → Call
  session_closed : ℕ → Call
  services_searched : ℕ → List ℕ → ℤ × Option (List SdpRecord) → Call

-- Each operation takes the state and returns its answer with the next state. `do_recv` answers
-- `none` for an error, and otherwise the bytes that it has written to the front of the buffer, whose
-- number recv(2) returns. `do_pending` (FIONREAD) answers `none` where it leaves its variable alone.
-- `do_allocate` answers whether the C++ library makes a vector of so many bytes; where it does not, it
-- throws, for want of memory or because so many are more than a vector may have.
pub record Os : Type 1 where
  pub World : Type 0
  pub o_nonblock : ℕ
  pub do_socket : World → ℤ × World
  pub do_setsockopt : ℤ → SockOpt → World → ℤ × World
  pub do_bind : ℤ → ℕ → World → ℤ × World
  pub do_listen : ℤ → ℤ → World → ℤ × World
  pub do_accept : ℤ → World → (ℤ × BdAddr × ℕ) × World
  pub do_connect : ℤ → BdAddr → ℕ → World → ℤ × World
  pub do_getsockname : ℤ → World → (ℤ × ℕ) × World
  pub do_send : ℤ → List ℕ → World → ℤ × World
  pub do_recv : ℤ → ℕ → World → Option (List ℕ) × World
  pub do_getfl : ℤ → World → ℤ × World
  pub do_setfl : ℤ → ℕ → World → ℤ × World
  pub do_pending : ℤ → World → Option ℕ × World
  pub do_close : ℤ → World → World
  pub do_now : World → ℕ × World
  pub do_allocate : ℕ → World → Bool × World
  pub sdp_record_alloc : World → Option ℕ × World
  pub sdp_set : ℕ → SdpAttribute → World → World
  pub sdp_connect : BdAddr → World → Option ℕ × World
  pub sdp_record_register : ℕ → ℕ → World → ℤ × World
  pub sdp_record_unregister : ℕ → ℕ → World → World
  pub sdp_close : ℕ → World → World
  pub sdp_search : ℕ → List ℕ → World → (ℤ × Option (List SdpRecord)) × World

pub record Run (W A : Type 0) : Type 0 where
  pub value : A
  pub world : W
  pub calls : List Call

abbrev pub Action : Type 0 → Type 0 → Type 0
Action W A = W → Run W A

module _ {W A : Type 0} where
  abbrev pub pure : A → Action W A
  pure a w = record { value = a; world = w; calls = [] }

  abbrev pub perform : (W → A × W) → (A → Call) → Action W A
  perform f call w = let (a, w') = f w in record { value = a; world = w'; calls = call a ∷ [] }

infixl 5 ◌>>=◌ ◌>>◌
abbrev pub ◌>>=◌ : {W A B : Type 0} → Action W A → (A → Action W B) → Action W B
◌>>=◌ m f w =
    let r = m w in
    let r' = f r.value r.world in
    record { value = r'.value; world = r'.world; calls = r.calls ++ r'.calls }

abbrev pub ◌>>◌ : {W A B : Type 0} → Action W A → Action W B → Action W B
m >> k = m >>= λ _. k

-- How a call of the program ends: with a value, in behaviour that C++ leaves undefined, or not
-- within the rounds that the model was given.
pub data Outcome (A : Type 0) : Type 0 where
  returns : A → Outcome A
  undefined : Outcome A
  out_of_rounds : Outcome A

module _ (os : Os) where
  abbrev pub sys_socket : Action os.World ℤ
  sys_socket = perform os.do_socket opened

  abbrev pub sys_setsockopt : ℤ → SockOpt → Action os.World ℤ
  sys_setsockopt fd opt = perform (os.do_setsockopt fd opt) (option_set fd opt)

  abbrev pub sys_bind : ℤ → ℕ → Action os.World ℤ
  sys_bind fd ch = perform (os.do_bind fd ch) (bound fd ch)

  abbrev pub sys_listen : ℤ → ℤ → Action os.World ℤ
  sys_listen fd backlog = perform (os.do_listen fd backlog) (listened fd backlog)

  abbrev pub sys_accept : ℤ → Action os.World (ℤ × BdAddr × ℕ)
  sys_accept fd = perform (os.do_accept fd) (accepted fd)

  abbrev pub sys_connect : ℤ → BdAddr → ℕ → Action os.World ℤ
  sys_connect fd addr ch = perform (os.do_connect fd addr ch) (connected fd addr ch)

  abbrev pub sys_getsockname : ℤ → Action os.World (ℤ × ℕ)
  sys_getsockname fd = perform (os.do_getsockname fd) (named fd)

  abbrev pub sys_send : ℤ → List ℕ → Action os.World ℤ
  sys_send fd bytes = perform (os.do_send fd bytes) (sent fd bytes)

  abbrev pub sys_recv : ℤ → ℕ → Action os.World (Option (List ℕ))
  sys_recv fd size = perform (os.do_recv fd size) (received fd size)

  abbrev pub sys_getfl : ℤ → Action os.World ℤ
  sys_getfl fd = perform (os.do_getfl fd) (flags_read fd)

  abbrev pub sys_setfl : ℤ → ℕ → Action os.World ℤ
  sys_setfl fd flags = perform (os.do_setfl fd flags) (flags_set fd flags)

  abbrev pub sys_pending : ℤ → Action os.World (Option ℕ)
  sys_pending fd = perform (os.do_pending fd) (pending_read fd)

  abbrev pub sys_close : ℤ → Action os.World (Unit {0})
  sys_close fd = perform (λ w. (tt, os.do_close fd w)) (λ _. closed fd)

  abbrev pub sys_now : Action os.World ℕ
  sys_now = perform os.do_now clock_read

  abbrev pub sys_allocate : ℕ → Action os.World Bool
  sys_allocate n = perform (os.do_allocate n) (allocated n)

  abbrev pub sys_record_alloc : Action os.World (Option ℕ)
  sys_record_alloc = perform os.sdp_record_alloc record_allocated

  abbrev pub sys_record_set : ℕ → SdpAttribute → Action os.World (Unit {0})
  sys_record_set rec a = perform (λ w. (tt, os.sdp_set rec a w)) (λ _. record_set rec a)

  abbrev pub sys_sdp_connect : BdAddr → Action os.World (Option ℕ)
  sys_sdp_connect addr = perform (os.sdp_connect addr) (session_opened addr)

  abbrev pub sys_record_register : ℕ → ℕ → Action os.World ℤ
  sys_record_register session rec =
      perform (os.sdp_record_register session rec) (record_registered session rec)

  abbrev pub sys_record_unregister : ℕ → ℕ → Action os.World (Unit {0})
  sys_record_unregister session rec =
      perform (λ w. (tt, os.sdp_record_unregister session rec w))
        (λ _. record_unregistered session rec)

  abbrev pub sys_sdp_close : ℕ → Action os.World (Unit {0})
  sys_sdp_close session = perform (λ w. (tt, os.sdp_close session w)) (λ _. session_closed session)

  abbrev pub sys_sdp_search : ℕ → List ℕ → Action os.World (ℤ × Option (List SdpRecord))
  sys_sdp_search session uuid =
      perform (os.sdp_search session uuid) (services_searched session uuid)
