-- ===== src/Tests/Connections.antt =====
-- Runs of the server, the client, the port's connection and the SDP calls on the small system.
use simple_rfcomm.Prelude.{suc, ℕ, ◌+◌, ◌<◌, ◌≡◌, ◌⊎◌, refl, none, some, List, [], ◌∷◌, map, arith}
use simple_rfcomm.Prelude.Int.{pos}
use simple_rfcomm.Address.{Address}
use simple_rfcomm.Uuid.{Uuid}
use simple_rfcomm.Os.{returns, SdpData, uuid_data, uint8_data, SdpRecord}
use simple_rfcomm.Os.Traffic.{opened_sessions, closed_sessions}
use simple_rfcomm.Sdp.{
  scan_elements, scan_records, protocols, channel_of, overflow, create, RegistrationImpl,
}
use simple_rfcomm.Sdp.Search.{scan_elements-overflow, protocols_found}
use simple_rfcomm.Sdp.Sessions.{registration_closes, Ends}
use simple_rfcomm.Server.{ServerImpl, new_server, listen_with_sdp, listen_impl, bind_channel}
use simple_rfcomm.Server.Bind.{bind_any_channel, tried, first_bound, channels_from}
use simple_rfcomm.Server.Listen.{Listens, listen_handles}
use simple_rfcomm.Server.Publish.{Publishes, listen_with_sdp_lem}
use simple_rfcomm.Command.{codes}
use simple_rfcomm.Serial.{new_impl}
use simple_rfcomm.Serial.Port.{open_port}
use simple_rfcomm.Serial.Life.{open_port_lem, Opens}
use simple_rfcomm.Tests.System.{toy_os, toy_port_impl}

abbrev addr : Address
addr = record { bytes = 1 ∷ 2 ∷ 3 ∷ 4 ∷ 5 ∷ 6 ∷ [] }

abbrev uuid : Uuid
uuid = record { bytes = 0 ∷ 0 ∷ 17 ∷ 1 ∷ [] }

-- Ten UUIDs fit, also with RFCOMM's last and a channel behind it; an eleventh does not.
abbrev rfcomm_chain : List SdpData
rfcomm_chain = uuid_data 256 ∷ uuid_data 3 ∷ uint8_data 9 ∷ []

abbrev eleven : List ℕ
eleven = 3 ∷ 3 ∷ 3 ∷ 3 ∷ 3 ∷ 3 ∷ 3 ∷ 3 ∷ 3 ∷ 3 ∷ 3 ∷ []

scan_elements-overflow_example : scan_elements (map uuid_data eleven) [] ≡ overflow
scan_elements-overflow_example = scan_elements-overflow eleven

abbrev announced : SdpRecord
announced = record { access_protos = some (protocols 4) }

protocols_found_example : channel_of (scan_records (announced ∷ [])) ≡ returns (some 4)
protocols_found_example = protocols_found 4 announced [] (omega arith) refl

registration_closes_example :
    let r = create toy_os 4 uuid [] [] [] in
    ((r.value ≡ none) × (closed_sessions r.calls ≡ opened_sessions r.calls))
    ⊎ ((reg : RegistrationImpl) × (r.value ≡ some reg)
        × (closed_sessions r.calls ≡ [])
        × Ends toy_os reg (opened_sessions r.calls) r.world)
registration_closes_example = registration_closes toy_os 4 uuid [] [] []

-- A server that listens already.
abbrev busy_server : ServerImpl
busy_server = record { listen_fd = pos 8; channel = 2; sdp_reg = none }

bind_any_channel_example :
    let r = bind_channel toy_os 0 (pos 3) [] in
    (((r.value ≡ 0) × (tried r.calls ≡ channels_from 30 1))
      ⊎ ((k : ℕ) × (k < 30) × (r.value ≡ 1 + k) × (tried r.calls ≡ channels_from (suc k) 1)))
    × (r.value ≡ first_bound r.calls)
bind_any_channel_example = bind_any_channel toy_os (pos 3) []

listen_handles_example : Listens toy_os (pos 8 ∷ []) 0 (listen_impl toy_os busy_server 0 (pos 1) [])
listen_handles_example = listen_handles toy_os busy_server 0 (pos 1) []

open_port_lem_example :
    Opens toy_os (pos 3 ∷ []) addr 4 (open_port toy_os (some toy_port_impl) addr 4 (pos 1500) [])
unfolding new_impl
open_port_lem_example = open_port_lem toy_os toy_port_impl addr 4 (pos 1500) []

abbrev data_bytes : List ℕ
data_bytes = 65 ∷ 66 ∷ 67 ∷ 68 ∷ []

listen_with_sdp_lem_example :
    Publishes toy_os 3
      (listen_with_sdp toy_os (codes "SimpleRFCOMM") new_server uuid (codes "bench") 3 (pos 4) [])
listen_with_sdp_lem_example =
    listen_with_sdp_lem toy_os (codes "SimpleRFCOMM") uuid (codes "bench") 3 (pos 4) []
