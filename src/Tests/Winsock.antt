-- ===== src/Tests/Winsock.antt =====
-- The Windows branches of the sockets over a small Winsock.
use simple_rfcomm.Prelude.{
  ℕ, ◌%◌, ◌<◌, ◌≡◌, refl, ap, none, some, true, false, List, [], ◌∷◌, ◌++◌, length, take, drop,
  replicate, min, ◌==◌, arith, length-take, length-replicate, Option,
}
use simple_rfcomm.Prelude.Int.{pos, negsuc, to_size}
use simple_rfcomm.Address.{Address}
use simple_rfcomm.Os.{returns}
use simple_rfcomm.Os.Traffic.{sent_bytes, received_bytes}
use simple_rfcomm.Socket.{send, send_all, recv, recv_all, is_open}
use simple_rfcomm.Socket.Windows.{Win, int_mod, to_int, to_dword, win_send, win_recv}
use simple_rfcomm.Socket.Windows.Same.{
  adapt, WinWithin, win_transfers, SendsNothing, win_send_all_wraps,
}
use simple_rfcomm.Client.Connect.{Owns}
use simple_rfcomm.Client.Windows.{win_connect}
use simple_rfcomm.Client.Windows.Owns.{IsSockets, win_connect-Owns}
use simple_rfcomm.Tests.System.{toy_os, toy_socket}

abbrev toy_win : Win
toy_win = record {
  os = toy_os;
  do_send_int = λ fd bytes len w. (pos (min 3 (to_size len)), w);
  do_recv_int = λ fd len w. (some (take (min 2 (to_size len)) w), drop (min 2 (to_size len)) w);
  do_ioctl_mode = λ fd mode w. (pos 0, w);
  do_connect_bth = λ fd bth ch w. (pos 0, w);
  do_accept_bth = λ fd w. ((pos 5, 1108152157446, 7), w);
}

count : Option (List ℕ) → ℕ
count none = 0
count (some bytes) = length bytes

toy_win-WinWithin : WinWithin toy_win
unfolding count
toy_win-WinWithin = record {
  sends = λ fd bytes len w n h. omega (arith, ap to_size h);
  receives = λ fd len w bytes h.
      let same : length (take (min 2 (to_size len)) w) ≡ length bytes = ap count h in
      omega (arith, same, length-take (min 2 (to_size len)) w);
}

abbrev five_bytes : List ℕ
five_bytes = 1 ∷ 2 ∷ 3 ∷ 4 ∷ 5 ∷ []

win_transfers_example :
    let os = adapt toy_win in
    let s = send_all os toy_socket five_bytes five_bytes in
    let r = recv_all os toy_socket five_bytes five_bytes in
    let got = received_bytes r.calls in
    (win_send toy_win toy_socket five_bytes five_bytes ≡ send os toy_socket five_bytes five_bytes)
    × (win_recv toy_win toy_socket five_bytes five_bytes ≡ recv os toy_socket five_bytes five_bytes)
    × (sent_bytes s.calls ≡ take (length (sent_bytes s.calls)) five_bytes)
    × (s.value ≡ returns (length (sent_bytes s.calls) == length five_bytes))
    × (r.value.0 ≡ returns (length got == length five_bytes))
    × (r.value.1 ≡ got ++ drop (length got) five_bytes)
win_transfers_example = win_transfers toy_win toy_socket five_bytes five_bytes toy_win-WinWithin

-- 4 GiB, kept shut so that the buffer is not written out.
four_gib : ℕ
four_gib = 4294967296

four_gib_multiple : four_gib % int_mod ≡ 0
unfolding four_gib
four_gib_multiple = omega arith

four_gib_pos : 0 < four_gib
unfolding four_gib
four_gib_pos = omega arith

toy_win-SendsNothing : SendsNothing toy_win
toy_win-SendsNothing fd bytes w = refl

toy_socket-open : is_open toy_socket ≡ true
unfolding is_open
toy_socket-open = refl

big_size : length (replicate {A = ℕ} four_gib 0) ≡ four_gib
big_size = length-replicate {A = ℕ} four_gib 0

win_send_all_wraps_example :
    let r = send_all (adapt toy_win) toy_socket (replicate four_gib 0) five_bytes in
    (r.value ≡ returns false) × (sent_bytes r.calls ≡ [])
win_send_all_wraps_example =
    win_send_all_wraps toy_win toy_socket (replicate four_gib 0) five_bytes toy_win-SendsNothing
      toy_socket-open (rw big_size four_gib_pos) (rw big_size four_gib_multiple)

toy_win-IsSockets : IsSockets toy_win
toy_win-IsSockets = record { made = λ w. refl; accepted = λ fd w. refl }

abbrev here : Address
here = record { bytes = 1 ∷ 2 ∷ 3 ∷ 4 ∷ 5 ∷ 6 ∷ [] }

win_connect-Owns_example : Owns toy_os here 7 (win_connect toy_win here 7 (pos 10000) five_bytes)
win_connect-Owns_example = win_connect-Owns toy_win here 7 (pos 10000) five_bytes toy_win-IsSockets

-- The casts: 2 GiB is negative as an int, 4 GiB is nothing, and -1 ms is the largest DWORD.
two_gib_is_negative : to_int 2147483648 ≡ negsuc 2147483647
unfolding to_int
two_gib_is_negative = refl

all_is_nothing : to_int 4294967296 ≡ pos 0
unfolding to_int
all_is_nothing = refl

minus_one_is_forever : to_dword (negsuc 0) ≡ 4294967295
unfolding to_dword
minus_one_is_forever = refl
