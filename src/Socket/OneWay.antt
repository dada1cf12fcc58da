-- ===== src/Socket/OneWay.antt =====
-- The sends of a socket and what is received, its receives and what is sent.
use simple_rfcomm.Prelude.{ℕ, zero, suc, refl, List, length}
use simple_rfcomm.Prelude.Int.{ℤ}
use simple_rfcomm.Os.{Os, sys_send, sys_recv}
use simple_rfcomm.Os.OneWay.{HearsNothing, SaysNothing, one_way_rules}
use simple_rfcomm.Socket.{Socket, send, send_rounds, send_all, recv, recv_rounds, recv_all}

module _ (os : Os) where
  send-call : (fd : ℤ) (bytes : List ℕ) → HearsNothing (sys_send os fd bytes)
  send-call fd bytes = record { heard = λ w. refl }

  recv-call : (fd : ℤ) (size : ℕ) → SaysNothing (sys_recv os fd size)
  recv-call fd size = record { said = λ w. refl }

  send-HearsNothing : (sock : Socket) (bytes : List ℕ) → HearsNothing (send os sock bytes)
  unfolding send
  send-HearsNothing sock bytes = search (one_way_rules, send-call)

  send_rounds-HearsNothing :
      (rounds : ℕ) (sock : Socket) (bytes : List ℕ) (total : ℕ)
      → HearsNothing (send_rounds os rounds sock bytes total)
  unfolding send_rounds
  send_rounds-HearsNothing zero sock bytes total = search one_way_rules
  send_rounds-HearsNothing (suc rounds) sock bytes total =
      search (one_way_rules, send-HearsNothing, send_rounds-HearsNothing rounds sock bytes)

  pub send_all-HearsNothing :
      (sock : Socket) (bytes : List ℕ) → HearsNothing (send_all os sock bytes)
  unfolding send_all
  send_all-HearsNothing sock bytes = send_rounds-HearsNothing (length bytes) sock bytes 0

  pub recv-SaysNothing : (sock : Socket) (buffer : List ℕ) → SaysNothing (recv os sock buffer)
  unfolding recv
  recv-SaysNothing sock buffer = search (one_way_rules, recv-call)

  recv_rounds-SaysNothing :
      (rounds : ℕ) (sock : Socket) (buffer : List ℕ) (total : ℕ)
      → SaysNothing (recv_rounds os rounds sock buffer total)
  unfolding recv_rounds
  recv_rounds-SaysNothing zero sock buffer total = search one_way_rules
  recv_rounds-SaysNothing (suc rounds) sock buffer total =
      search (one_way_rules, recv-SaysNothing, recv_rounds-SaysNothing rounds sock)

  pub recv_all-SaysNothing :
      (sock : Socket) (buffer : List ℕ) → SaysNothing (recv_all os sock buffer)
  unfolding recv_all
  recv_all-SaysNothing sock buffer = recv_rounds-SaysNothing (length buffer) sock buffer 0
