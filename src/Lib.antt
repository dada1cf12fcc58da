-- ===== src/Lib.antt =====
-- Verification of SimpleRFCOMM, a C++ library for Bluetooth RFCOMM connections: a socket, a client, a
-- server with its SDP registration, and a serial port with a receive cache on top of a socket.
--
-- How the parts interact. A `Client` connects to an address and a channel and returns a `Socket`; it
-- asks SDP for the channel where only a service is known. A `Server` takes a channel, registers its
-- service with SDP and accepts sockets. A `SerialPort` owns a socket and hands out its bytes, singly,
-- in blocks or by lines, from a cache that it refills in chunks of 4096 bytes. The programs of
-- examples/ are clients of these: a benchmark's server and client, a chat, and a device that answers AT
-- commands with its client. All of them reach the system through its calls, which are not a part of the
-- program: the record `Os` (Os.antt) is a parameter with a state `World` and one operation for each
-- call, and no theorem knows more of it than its hypotheses say.
--
-- Which file models which part.
--   Address.antt      include/simple_rfcomm/types.hpp, `Address`: parsing, printing, order, 48-bit word
--   Uuid.antt         include/simple_rfcomm/types.hpp, `Uuid`: short and long form, printing
--   Hex.antt          the hexadecimal digits that both use
--   Platform.antt     src/platform.hpp: conversions to `bdaddr_t`, `BTH_ADDR` and `GUID`
--   Os.antt           the interface of the system calls and of BlueZ's SDP library, and the actions
--   Os/Traffic.antt   bytes, descriptors and sessions, read from the calls that were made
--   Os/Ledger.antt, Os/OneWay.antt
--                     ledgers of descriptors, actions that open, receive or send nothing, and the rules
--                     for search that show it
--   Socket.antt       src/socket.cpp; Socket/Windows.antt its Windows branches
--   Serial/Types.antt, Serial/Cache.antt, Serial/Port.antt
--                     src/serial_port.cpp and include/simple_rfcomm/serial_port.hpp: the settings, the
--                     receive cache with the reads, and the operations that open, close and write
--   Sdp.antt          src/sdp_linux.cpp
--   Client.antt       src/client.cpp; Client/Windows.antt the Windows branches of `connect` and of
--                     `Server::accept`
--   SdpWin.antt, SdpWin/System.antt
--                     src/sdp_win.cpp, with its interface of the Winsock service calls
--   Server.antt       src/server.cpp; Server/Windows.antt the Windows branch of `listen`
--   Command.antt      what the programs of examples/ share: texts, exits, and the cut to a byte
--   ServerBench.antt, ServerBench/Args.antt, ServerBench/Main.antt
--                     examples/server_bench.cpp: a client's session and the accept loop, the options, and
--                     `main`
--   ClientBench.antt, ClientBench/Args.antt, ClientBench/Main.antt
--                     examples/client_bench.cpp: the pattern and the loop over the chunks, the options, and
--                     `main`
--   Chat.antt, Chat/SetUp.antt
--                     examples/chat_echo.cpp: the reader and the main thread, as steps that interleave, and
--                     `main` up to the threads
--   Device.antt, Demo.antt
--                     examples/serial_port_demo.cpp: the loop of the emulated device, and `main` with the
--                     client's dialogue
-- Serial/Operations.antt lists the operations of a port as data, and Serial/Runs.antt the sequences of
-- them; Serial/Refines.antt has a queue of bytes as the specification of a port. The other files below
-- these hold the proofs and are named for what they are about. Tests.antt holds concrete runs, on a
-- small system in Tests/System.antt.
--
-- How state and operations correspond. A pure function of the source is a function by clauses. A method
-- that calls the system is an `Action`: from a state of the system to a value, the next state and the
-- list of calls with their answers. A `main` is an action from the arguments behind the program's name
-- to an `Exit`: the status that it returns, or an exception that nothing catches. A class with a
-- `pimpl_` is an `Option` of a record of its members, `none` for the state after a move; a method that
-- changes the object returns it. A buffer that a method fills is returned too. A null `unique_ptr` is
-- `none`. Bytes and characters are natural numbers, and a `size_t` or a shifted word keeps its
-- wrap-around written out. A result of C is an integer. `Outcome` tells a call that returns from one
-- that C++ leaves undefined (a null `pimpl_` that is used without a test, a write behind the end of an
-- array) and from one that needs more rounds than the model was given.
--
-- Loops and rounds. A loop over an array or a list is structural recursion. `send_all`, `recv_all` and
-- `read_exact` get as many rounds as the buffer has bytes: a round that moves no byte ends them, so the
-- rounds are enough, which their theorems state by having a result. The scan of the channels has 30
-- rounds, as in the source. The inner loop of `read_line` takes a cached byte in each round and gets as
-- many as are cached. The outer loop and the loop of `purge` depend on the peer and take their rounds
-- as an argument; more rounds than the peer has bytes left are enough for both, and for a session of
-- the benchmark server, where the peer sends finitely many (`FinitePeer`). The transfer of the
-- benchmark client needs more rounds than it has bytes to send. The client of the demo stops reading an
-- answer at an empty line, so that more rounds than the bytes that are cached or to come are enough for
-- its dialogue. The accept loop and the loop of the device have no bound of their own; what is said of
-- them holds for any number of rounds.
--
-- Hypotheses on the system. send(2) answers no more than it was given (`SendsWithin`) and recv(2)
-- writes no more than the buffer holds (`ReceivesWithin`). A send does not make the peer send more than
-- its bound (`SendsKeep`), and neither does a query of the bytes that wait (`PendingKeeps`).
-- `WinWithin` says the same sizes of Winsock, `SendsNothing` that its send of no bytes answers 0, and
-- `IsSockets` that a handle it makes is INVALID_SOCKET or not negative. The conversions of numerals
-- (std::stoi and the like) are parameters; `ReadsDecimal` says of std::stoi that it reads three decimal
-- digits as their number. The small systems of the tests have all of them. `Disconnected` is a system
-- whose peer has closed the connection, where recv(2) answers 0, and `TakesAll` one where a send takes
-- all of its bytes. The allocator is a part of `Os` too: `do_allocate` answers whether a vector of so
-- many bytes is made or throws, and nothing is assumed of it.
--
-- Not modelled: in the Windows build, the start of Winsock and the layout of its structures; the
-- release of list cells and records inside BlueZ; exceptions other than those of the two `parse`
-- functions, of the conversions of numerals and of the vectors of the benchmark client, which are the
-- one place where a command line sets the size of an allocation; a failure to allocate anything else,
-- such as the buffers of a fixed size; memory, moves and the destruction of objects, except where a
-- destructor closes a descriptor or deletes a registration; the wall clock, except as an answer of the
-- system; in examples/, the console's output, pauses, and the statistics in floating point. The headers
-- with declarations only and the build files have nothing to model.
pub mod Prelude
pub mod Hex
pub mod Address
pub mod Uuid
pub mod Platform
pub mod Os
pub mod Command
pub mod Socket
pub mod Serial
pub mod Sdp
pub mod SdpWin
pub mod Server
pub mod Client
pub mod ServerBench
pub mod ClientBench
pub mod Device
pub mod Demo
pub mod Chat
pub mod Tests
