-- ===== src/Chat.antt =====
-- The two threads of examples/chat_echo.cpp behind the connection: the reader, and the main thread
-- that sends lines and ends the chat. Each step is one access to what the threads share, the flag
-- `running` and the socket's handle, with the call behind it; the steps of the threads interleave
-- freely.
pub mod Ends
pub mod SetUp
use simple_rfcomm.Prelude.{ℕ, Option, none, some, Bool, true, false, List, [], ◌∷◌, if◌then◌else◌}
use simple_rfcomm.Prelude.Int.{ℤ, pos, minus_one, is_minus_one, is_negative, is_positive}
use simple_rfcomm.Command.{same_text}

-- Where the reader stands: at the test of `running`, at the test that the socket is open, at the
-- call of recv(2), behind a result, or at its end.
pub data ReaderPlace : Type 0 where
  reader_loop : ReaderPlace
  reader_test : ReaderPlace
  reader_recv : ReaderPlace
  reader_result : ℤ → ReaderPlace
  reader_end : ReaderPlace

-- Where the main thread stands: at the test of `running`, at the console, at `send_all`, behind the
-- loop, in `close` before and behind the system call, at `join`, or at its end.
pub data SenderPlace : Type 0 where
  sender_loop : SenderPlace
  sender_input : SenderPlace
  sender_send : List ℕ → SenderPlace
  sender_stop : SenderPlace
  sender_close : SenderPlace
  sender_reset : SenderPlace
  sender_join : SenderPlace
  sender_end : SenderPlace

-- The calls on the socket, the last one first; `send_all` is one call.
pub data ChatCall : Type 0 where
  recv_call : ℤ → ChatCall
  send_call : ℤ → List ℕ → ChatCall
  close_call : ℤ → ChatCall

pub record Chat : Type 0 where
  pub running : Bool
  pub handle : ℤ
  pub reader : ReaderPlace
  pub sender : SenderPlace
  pub calls : List ChatCall

-- "quit"
abbrev pub quit_line : List ℕ
quit_line = 113 ∷ 117 ∷ 105 ∷ 116 ∷ []

-- What the world answers to a step of the main thread: a line of the console, or its end; and the
-- result of `send_all`.
pub record SenderInput : Type 0 where
  pub line : Option (List ℕ)
  pub sent : Bool

unfoldable pub start : ℤ → Chat
start fd = record {
  running = true;
  handle = fd;
  reader = reader_loop;
  sender = sender_loop;
  calls = [];
}

-- A step of the reader, with what recv(2) answers.
unfoldable pub reader_step : ReaderPlace → ℤ → Chat → Chat
reader_step reader_loop answer s = record s {
  reader = if s.running then reader_test else reader_end;
}
reader_step reader_test answer s = record s {
  reader = if is_minus_one s.handle then reader_result (pos 0) else reader_recv;
}
reader_step reader_recv answer s = record s {
  reader = reader_result answer;
  calls = recv_call s.handle ∷ s.calls;
}
reader_step (reader_result r) answer s =
    if is_positive r
    then record s { reader = reader_loop }
    else record s { reader = reader_end; running = false }
reader_step reader_end answer s = s

-- A line is sent unless it is "quit", which ends the loop, as the end of the input does.
unfoldable pub take_line : Option (List ℕ) → Chat → Chat
take_line none s = record s { sender = sender_stop }
take_line (some line) s =
    if same_text line quit_line
    then record s { running = false; sender = sender_stop }
    else record s { sender = sender_send line }

-- `join` waits for the reader.
unfoldable pub join_step : ReaderPlace → Chat → Chat
join_step reader_end s = record s { sender = sender_end }
join_step _ s = s

-- `close_socket_handle`, which calls close(2) where the handle is not negative.
abbrev pub close_handle : ℤ → List ChatCall → List ChatCall
close_handle fd calls = if is_negative fd then calls else close_call fd ∷ calls

-- A step of the main thread.
unfoldable pub sender_step : SenderPlace → SenderInput → Chat → Chat
sender_step sender_loop input s = record s {
  sender = if s.running then sender_input else sender_stop;
}
sender_step sender_input input s = take_line input.line s
sender_step (sender_send line) input s = record s {
  sender = if input.sent then sender_loop else sender_stop;
  calls = send_call s.handle line ∷ s.calls;
}
sender_step sender_stop input s = record s { running = false; sender = sender_close }
sender_step sender_close input s =
    if is_minus_one s.handle
    then record s { sender = sender_join }
    else record s { sender = sender_reset; calls = close_handle s.handle s.calls }
sender_step sender_reset input s = record s { handle = minus_one; sender = sender_join }
sender_step sender_join input s = join_step s.reader s
sender_step sender_end input s = s
