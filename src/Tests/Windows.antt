-- ===== src/Tests/Windows.antt =====
-- The Windows build of the SDP functions, over a small system: its first answer does not fit into the
-- buffer, the second one has the port 263.
use simple_rfcomm.Prelude.{ℕ, ◌≡◌, refl, some, List, [], ◌∷◌, ◌==◌, if◌then◌else◌}
use simple_rfcomm.Prelude.Int.{pos, minus_one}
use simple_rfcomm.Address.{Address}
use simple_rfcomm.Uuid.{serial_port}
use simple_rfcomm.Platform.{uuid_to_guid}
use simple_rfcomm.SdpWin.System.{Winsock, Service}
use simple_rfcomm.SdpWin.{wide, context_of, resolve_channel, next_result, channel_found}
use simple_rfcomm.SdpWin.Sessions.{
  tried, begun, ended, steps, errors, last_channel, Asks, resolve_channel_ends,
}

abbrev toy_winsock : Winsock
toy_winsock = record {
  World = ℕ;
  do_set = λ service op w. (pos 0, w);
  do_begin = λ class_id context w. ((pos 0, 5), w);
  do_next = λ lookup size w. (
    (
      if size == 4096 then minus_one else pos 0,
      5000,
      record { csa_buffer = some (some 263); number_of_addrs = 1 },
    ),
    w,
  );
  do_last_error = λ w. (pos 10014, w);
  do_end = λ lookup w. w;
}

abbrev far_address : Address
far_address = record { bytes = 1 ∷ 2 ∷ 3 ∷ 4 ∷ 5 ∷ 6 ∷ [] }

abbrev bench : List ℕ
bench = 98 ∷ 101 ∷ []

abbrev bench_service : Service
bench_service = record { instance_name = wide bench; class_id = uuid_to_guid serial_port; port = 7 }

resolve_channel_ends_example :
    let r = resolve_channel toy_winsock far_address serial_port 0 in
    (tried r.calls ≡ (uuid_to_guid serial_port, context_of far_address) ∷ [])
    × (ended r.calls ≡ begun r.calls)
    × (begun r.calls ≡ 5 ∷ [])
    × (r.value ≡ last_channel (steps r.calls))
    × Asks (begun r.calls) (errors r.calls) (steps r.calls)
resolve_channel_ends_example = resolve_channel_ends toy_winsock far_address serial_port 0

resolve_run : (resolve_channel toy_winsock far_address serial_port 0).value ≡ some 7
unfolding resolve_channel next_result channel_found
resolve_run = refl
