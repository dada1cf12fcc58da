-- ===== src/Tests/System.antt =====
-- A small system for the tests: it accepts three bytes of a send at a time, delivers two bytes of what
-- is still to come, and lets a socket be bound to channel 3 only.
use simple_rfcomm.Prelude.{
  ℕ, ◌≡◌, ap, Option, none, some, List, [], ◌∷◌, length, take, drop, min, ltb, ◌==◌, if◌then◌else◌,
  arith, length-take, length-drop,
}
use simple_rfcomm.Prelude.Int.{pos, minus_one, to_size}
use simple_rfcomm.Os.{Os}
use simple_rfcomm.Os.Traffic.{SendsWithin, ReceivesWithin}
use simple_rfcomm.Sdp.{protocols}
use simple_rfcomm.Serial.{SerialImpl, new_impl}
use simple_rfcomm.Serial.Line.{FinitePeer}
use simple_rfcomm.Socket.{Socket, SocketImpl}

abbrev pub toy_os : Os
toy_os = record {
  World = List ℕ;
  o_nonblock = 2048;
  do_socket = λ w. (pos 3, w);
  do_setsockopt = λ fd opt w. (pos 0, w);
  do_bind = λ fd ch w. (if ch == 3 then pos 0 else minus_one, w);
  do_listen = λ fd backlog w. (pos 0, w);
  do_accept = λ fd w. ((pos 5, record { b = 1 ∷ 2 ∷ 3 ∷ 4 ∷ 5 ∷ 6 ∷ [] }, 7), w);
  do_connect = λ fd addr ch w. (pos 0, w);
  do_getsockname = λ fd w. ((pos 0, 1), w);
  do_send = λ fd bytes w. (pos (min 3 (length bytes)), w);
  do_recv = λ fd size w. (some (take (min 2 size) w), drop (min 2 size) w);
  do_getfl = λ fd w. (pos 2, w);
  do_setfl = λ fd flags w. (pos 0, w);
  do_pending = λ fd w. (some (length w), w);
  do_close = λ fd w. w;
  do_now = λ w. (1000, w);
  do_allocate = λ n w. (ltb n 1000000, w);
  sdp_record_alloc = λ w. (some 1, w);
  sdp_set = λ rec a w. w;
  sdp_connect = λ addr w. (some 9, w);
  sdp_record_register = λ session rec w. (pos 0, w);
  sdp_record_unregister = λ session rec w. w;
  sdp_close = λ session w. w;
  sdp_search =
      λ session uuid w. ((pos 0, some (record { access_protos = some (protocols 4) } ∷ [])), w);
}

pub toy_os-SendsWithin : SendsWithin toy_os
toy_os-SendsWithin fd bytes w n h = omega (arith, ap to_size h)

count : Option (List ℕ) → ℕ
count none = 0
count (some bytes) = length bytes

pub toy_os-ReceivesWithin : ReceivesWithin toy_os
unfolding count
toy_os-ReceivesWithin fd size w bytes h =
    let same : length (take (min 2 size) w) ≡ length bytes = ap count h in
    omega (arith, same, length-take (min 2 size) w)

abbrev pub toy_peer : FinitePeer toy_os
toy_peer = record {
  left = length;
  recv_left = λ fd size w. omega (arith, length-take (min 2 size) w, length-drop (min 2 size) w);
  now_left = λ w. omega arith;
  getfl_left = λ fd w. omega arith;
  setfl_left = λ fd flags w. omega arith;
}

-- A socket as `from_native` makes it.
abbrev pub toy_impl : SocketImpl
toy_impl = record { handle = pos 3; peer_addr = record { bytes = [] }; peer_ch = 7; local_ch = 1 }

abbrev pub toy_socket : Socket
toy_socket = some toy_impl

-- A port over it, with the bytes `ab` cached behind one that has been read.
abbrev pub toy_port_impl : SerialImpl
unfolding new_impl
toy_port_impl = record new_impl { sock = some toy_socket; rx_buf = 0 ∷ 97 ∷ 98 ∷ []; rx_head = 1 }
