-- ===== src/Tests.antt =====
-- Concrete runs, and the theorems at concrete inputs.
mod Text
mod System
mod Sockets
mod Ports
mod Connections
mod Sequences
mod Benches
mod Windows
mod Programs
mod Winsock
mod Chats
