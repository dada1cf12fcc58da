-- ===== src/Tests/Chats.antt =====
-- A chat in the mode of the server on the small system of the tests, in which the reader passes the
-- test of the socket, and the main thread closes it then.
use simple_rfcomm.Prelude.{◌≡◌, ◌++◌, refl, some, none, true, [], ◌∷◌}
use simple_rfcomm.Prelude.Int.{pos, minus_one}
use simple_rfcomm.Command.{codes}
use simple_rfcomm.Os.{returns}
use simple_rfcomm.Chat.{
  Chat, SenderInput, recv_call, close_call, reader_end, start, reader_step, sender_step, take_line,
  join_step,
}
use simple_rfcomm.Chat.Ends.{Reachable, closes, at_start, by_reader, by_sender, HoldsAt, chat_holds}
use simple_rfcomm.Server.{
  new_server, close_impl, close_registration, close_descriptor, close_server, scan_channels,
  bind_channel, listen_on, listen_impl, keep_registration, add_registration, listen_with_sdp,
  accept,
}
use simple_rfcomm.Sdp.{register_record, describe, create, protocols, unregister}
use simple_rfcomm.Uuid.{parse, try_parse, scan, finish, take_char, take_hex, store_pair, scan_short}
use simple_rfcomm.Hex.{hex_val, push_digit}
use simple_rfcomm.Client.{set_default_buffers}
use simple_rfcomm.Platform.{bdaddr_to_address, fill_to_back}
use simple_rfcomm.Os.Traffic.{opened_handles, closed_handles}
use simple_rfcomm.Socket.{
  Socket, native_handle, is_open, close_socket_handle, set_buffer_sizes, from_native,
}
use simple_rfcomm.Chat.SetUp.{chats, set_up, with_uuid, run_mode, server_mode}
use simple_rfcomm.Chat.SetUp.Connected.{chat_closes}
use simple_rfcomm.Tests.System.{toy_os}

-- The end of the input.
abbrev no_more : SenderInput
no_more = record { line = none; sent = true }

abbrev reads : Chat → Chat
reads s = reader_step s.reader (pos 0) s

abbrev sends : Chat → Chat
sends s = sender_step s.sender no_more s

-- The reader stands before its recv(2).
abbrev about_to_read : Chat
about_to_read = reads (reads (start (pos 5)))

-- The main thread has closed the socket.
abbrev after_close : Chat
after_close = sends (sends (sends (sends (sends about_to_read))))

-- The reader calls recv(2) on the handle as it is then.
after_close_run : (reads after_close).calls ≡ recv_call minus_one ∷ close_call (pos 5) ∷ []
unfolding start reader_step sender_step take_line
after_close_run = refl

abbrev joined : Chat
joined = sends (reads (reads after_close))

joined-Reachable : Reachable (pos 5) joined
joined-Reachable = by_sender (reads (reads after_close)) no_more (
    by_reader (reads after_close) (pos 0) (
      by_reader after_close (pos 0) (
        by_sender (sends (sends (sends (sends about_to_read)))) no_more (
          by_sender (sends (sends (sends about_to_read))) no_more (
            by_sender (sends (sends about_to_read)) no_more (
              by_sender (sends about_to_read) no_more (
                by_sender about_to_read no_more (
                  by_reader (reads (start (pos 5))) (pos 0)
                    (by_reader (start (pos 5)) (pos 0) at_start)))))))))

chat_holds_example : HoldsAt (pos 5) joined joined.sender
chat_holds_example = chat_holds (pos 5) joined refl joined-Reachable

abbrev peer_socket : Socket
peer_socket = some (record {
  handle = pos 5;
  peer_addr = record { bytes = 6 ∷ 5 ∷ 4 ∷ 3 ∷ 2 ∷ 1 ∷ [] };
  peer_ch = 7;
  local_ch = 1;
})

-- The peer that the server of the small system accepts.
server_set_up :
    (set_up toy_os (codes "server" ∷ []) (1 ∷ 2 ∷ [])).value ≡ returns (chats peer_socket)
unfolding set_up with_uuid run_mode server_mode new_server close_impl close_registration
    close_descriptor close_server scan_channels bind_channel listen_on listen_impl keep_registration
    add_registration listen_with_sdp accept register_record describe create protocols unregister
    parse try_parse scan finish take_char take_hex store_pair scan_short hex_val push_digit is_open
    close_socket_handle set_buffer_sizes from_native set_default_buffers bdaddr_to_address
    fill_to_back
server_set_up = refl

chat_closes_example :
    let r = set_up toy_os (codes "server" ∷ []) (1 ∷ 2 ∷ []) in
    (opened_handles r.calls ≡ closed_handles r.calls ++ closes joined.calls)
    × (joined.reader ≡ reader_end)
    × (joined.handle ≡ minus_one)
unfolding native_handle sender_step reader_step start take_line join_step
chat_closes_example =
    chat_closes toy_os (codes "server" ∷ []) (1 ∷ 2 ∷ []) peer_socket joined server_set_up
      joined-Reachable refl
