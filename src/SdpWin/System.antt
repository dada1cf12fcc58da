-- ===== src/SdpWin/System.antt =====
-- The service calls of Winsock, as src/sdp_win.cpp makes them: an interface over an abstract state,
-- and the actions over it with the calls that they made.
use simple_rfcomm.Prelude.{ℕ, Option, List, [], ◌∷◌, ◌++◌}
use simple_rfcomm.Prelude.Int.{ℤ}
use simple_rfcomm.Platform.{Guid}

-- What `WSAQUERYSETW` says of a service that is registered, less the sizes and the constants: its name
-- in wide characters, its class and the port of its one address.
pub record Service : Type 0 where
  pub instance_name : List ℕ
  pub class_id : Guid
  pub port : ℕ

pub data ServiceOp : Type 0 where
  rnrservice_register : ServiceOp
  rnrservice_delete : ServiceOp

-- What the code reads from the result buffer: `lpcsaBuffer`, null or with the remote address of its
-- first entry, null or with its port; and `dwNumberOfCsAddrs`.
pub record QueryResult : Type 0 where
  pub csa_buffer : Option (Option ℕ)
  pub number_of_addrs : ℕ

-- A call with its answer: the status, and what it has put into the variables that it was given.
pub data WinCall : Type 0 where
  service_set : Service → ServiceOp → ℤ → WinCall
  lookup_begun : Guid → List ℕ → ℤ × ℕ → WinCall
  lookup_stepped : ℕ → ℕ → ℤ × ℕ × QueryResult → WinCall
  error_read : ℤ → WinCall
  lookup_ended : ℕ → WinCall

-- `do_begin` answers with the handle, and `do_next`, which is given the size of the buffer, with the
-- size that it leaves and with the buffer.
pub record Winsock : Type 1 where
  pub World : Type 0
  pub do_set : Service → ServiceOp → World → ℤ × World
  pub do_begin : Guid → List ℕ → World → (ℤ × ℕ) × World
  pub do_next : ℕ → ℕ → World → (ℤ × ℕ × QueryResult) × World
  pub do_last_error : World → ℤ × World
  pub do_end : ℕ → World → World

pub record WinRun (W A : Type 0) : Type 0 where
  pub value : A
  pub world : W
  pub calls : List WinCall

abbrev pub WinAction : Type 0 → Type 0 → Type 0
WinAction W A = W → WinRun W A

module _ {W A : Type 0} where
  abbrev pub pure : A → WinAction W A
  pure a w = record { value = a; world = w; calls = [] }

  abbrev perform : (W → A × W) → (A → WinCall) → WinAction W A
  perform f call w = let (a, w') = f w in record { value = a; world = w'; calls = call a ∷ [] }

infixl 5 ◌>>=◌ ◌>>◌
abbrev pub ◌>>=◌ : {W A B : Type 0} → WinAction W A → (A → WinAction W B) → WinAction W B
◌>>=◌ m f w =
    let r = m w in
    let r' = f r.value r.world in
    record { value = r'.value; world = r'.world; calls = r.calls ++ r'.calls }

abbrev pub ◌>>◌ : {W A B : Type 0} → WinAction W A → WinAction W B → WinAction W B
m >> k = m >>= λ _. k

module _ (ws : Winsock) where
  abbrev pub sys_set_service : Service → ServiceOp → WinAction ws.World ℤ
  sys_set_service service op = perform (ws.do_set service op) (service_set service op)

  abbrev pub sys_lookup_begin : Guid → List ℕ → WinAction ws.World (ℤ × ℕ)
  sys_lookup_begin class_id context =
      perform (ws.do_begin class_id context) (lookup_begun class_id context)

  abbrev pub sys_lookup_next : ℕ → ℕ → WinAction ws.World (ℤ × ℕ × QueryResult)
  sys_lookup_next lookup size = perform (ws.do_next lookup size) (lookup_stepped lookup size)

  abbrev pub sys_last_error : WinAction ws.World ℤ
  sys_last_error = perform ws.do_last_error error_read

  abbrev pub sys_lookup_end : ℕ → WinAction ws.World (Unit {0})
  sys_lookup_end lookup = perform (λ w. (tt, ws.do_end lookup w)) (λ _. lookup_ended lookup)
