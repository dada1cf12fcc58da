-- ===== src/Socket/Quiet.antt =====
-- The operations of a socket that open and close no descriptor.
use simple_rfcomm.Prelude.{ℕ, zero, suc, List, length, Bool, refl}
use simple_rfcomm.Prelude.Int.{ℤ}
use simple_rfcomm.Address.{Address}
use simple_rfcomm.Os.{
  Os, SockOpt, sys_send, sys_recv, sys_setsockopt, sys_getsockname, sys_getfl, sys_setfl,
}
use simple_rfcomm.Os.Ledger.{IsQuiet, quiet_rules}
use simple_rfcomm.Socket.{
  Socket, send, send_rounds, send_all, recv, recv_rounds, recv_all, set_buffer_sizes, set_timeouts,
  set_blocking, from_native,
}

module _ (os : Os) where
  send-call : (fd : ℤ) (bytes : List ℕ) → IsQuiet (sys_send os fd bytes)
  send-call fd bytes = record { none_opened = λ w. refl; none_closed = λ w. refl }

  recv-call : (fd : ℤ) (size : ℕ) → IsQuiet (sys_recv os fd size)
  recv-call fd size = record { none_opened = λ w. refl; none_closed = λ w. refl }

  pub option-call : (fd : ℤ) (opt : SockOpt) → IsQuiet (sys_setsockopt os fd opt)
  option-call fd opt = record { none_opened = λ w. refl; none_closed = λ w. refl }

  name-call : (fd : ℤ) → IsQuiet (sys_getsockname os fd)
  name-call fd = record { none_opened = λ w. refl; none_closed = λ w. refl }

  getfl-call : (fd : ℤ) → IsQuiet (sys_getfl os fd)
  getfl-call fd = record { none_opened = λ w. refl; none_closed = λ w. refl }

  setfl-call : (fd : ℤ) (flags : ℕ) → IsQuiet (sys_setfl os fd flags)
  setfl-call fd flags = record { none_opened = λ w. refl; none_closed = λ w. refl }

  pub send-IsQuiet : (sock : Socket) (bytes : List ℕ) → IsQuiet (send os sock bytes)
  unfolding send
  send-IsQuiet sock bytes = search (quiet_rules, send-call)

  send_rounds-IsQuiet :
      (rounds : ℕ) (sock : Socket) (bytes : List ℕ) (total : ℕ)
      → IsQuiet (send_rounds os rounds sock bytes total)
  unfolding send_rounds
  send_rounds-IsQuiet zero sock bytes total = search quiet_rules
  send_rounds-IsQuiet (suc rounds) sock bytes total =
      search (quiet_rules, send-IsQuiet, send_rounds-IsQuiet rounds sock bytes)

  pub send_all-IsQuiet : (sock : Socket) (bytes : List ℕ) → IsQuiet (send_all os sock bytes)
  unfolding send_all
  send_all-IsQuiet sock bytes = send_rounds-IsQuiet (length bytes) sock bytes 0

  pub recv-IsQuiet : (sock : Socket) (buffer : List ℕ) → IsQuiet (recv os sock buffer)
  unfolding recv
  recv-IsQuiet sock buffer = search (quiet_rules, recv-call)

  recv_rounds-IsQuiet :
      (rounds : ℕ) (sock : Socket) (buffer : List ℕ) (total : ℕ)
      → IsQuiet (recv_rounds os rounds sock buffer total)
  unfolding recv_rounds
  recv_rounds-IsQuiet zero sock buffer total = search quiet_rules
  recv_rounds-IsQuiet (suc rounds) sock buffer total =
      search (quiet_rules, recv-IsQuiet, recv_rounds-IsQuiet rounds sock)

  pub recv_all-IsQuiet : (sock : Socket) (buffer : List ℕ) → IsQuiet (recv_all os sock buffer)
  unfolding recv_all
  recv_all-IsQuiet sock buffer = recv_rounds-IsQuiet (length buffer) sock buffer 0

  pub set_buffer_sizes-IsQuiet :
      (sock : Socket) (snd rcv : ℤ) → IsQuiet (set_buffer_sizes os sock snd rcv)
  unfolding set_buffer_sizes
  set_buffer_sizes-IsQuiet sock snd rcv = search (quiet_rules, option-call)

  pub set_timeouts-IsQuiet : (sock : Socket) (a b : ℤ) → IsQuiet (set_timeouts os sock a b)
  unfolding set_timeouts
  set_timeouts-IsQuiet sock a b = search (quiet_rules, option-call)

  pub set_blocking-IsQuiet : (sock : Socket) (b : Bool) → IsQuiet (set_blocking os sock b)
  unfolding set_blocking
  set_blocking-IsQuiet sock b = search (quiet_rules, getfl-call, setfl-call)

  pub from_native-IsQuiet : (fd : ℤ) (addr : Address) (ch : ℕ) → IsQuiet (from_native os fd addr ch)
  unfolding from_native
  from_native-IsQuiet fd addr ch = search (quiet_rules, set_buffer_sizes-IsQuiet, name-call)
