-- ===== src/Tests/Sockets.antt =====
-- Runs of sockets and ports on the small system, and the theorems there.
use simple_rfcomm.Prelude.{ℕ, ◌≡◌, refl, true, List, [], ◌∷◌, ◌++◌, length, take, drop, ◌==◌}
use simple_rfcomm.Os.{returns}
use simple_rfcomm.Os.Traffic.{sent_bytes, received_bytes}
use simple_rfcomm.Socket.{is_open, send, send_all, recv_all}
use simple_rfcomm.Socket.Send.{send_all_lem}
use simple_rfcomm.Socket.Receive.{recv_all_lem}
use simple_rfcomm.Tests.System.{toy_os, toy_os-SendsWithin, toy_os-ReceivesWithin, toy_socket}

abbrev five : List ℕ
five = 10 ∷ 11 ∷ 12 ∷ 13 ∷ 14 ∷ []

send_all_run : (send_all toy_os toy_socket five []).value ≡ returns true
unfolding send_all send is_open
send_all_run = refl

send_all_lem_example :
    let r = send_all toy_os toy_socket five [] in
    (sent_bytes r.calls ≡ take (length (sent_bytes r.calls)) five)
    × (r.value ≡ returns (length (sent_bytes r.calls) == length five))
send_all_lem_example = send_all_lem toy_os toy_socket five [] toy_os-SendsWithin

recv_all_lem_example :
    let r = recv_all toy_os toy_socket (0 ∷ 0 ∷ 0 ∷ []) five in
    let got = received_bytes r.calls in
    (r.value.0 ≡ returns (length got == 3))
    × (r.value.1 ≡ got ++ drop (length got) (0 ∷ 0 ∷ 0 ∷ []))
recv_all_lem_example = recv_all_lem toy_os toy_socket (0 ∷ 0 ∷ 0 ∷ []) five toy_os-ReceivesWithin
