-- ===== src/Serial.antt =====
-- `rfcomm::SerialPort` of src/serial_port.cpp and include/simple_rfcomm/serial_port.hpp, in the
-- Linux build: a socket behind a receive cache. A moved-from port, whose `pimpl_` is null, is
-- `none`; a method that changes the object returns it.
mod Types
mod Cache
pub mod Port
pub mod Stream
pub mod Read
pub mod Exact
pub mod Byte
pub mod Line
pub mod ReadLine
pub mod Life
pub mod Write
pub mod Sequence
pub mod Purge
pub mod Quiet
pub mod SameSocket
pub mod Ledger
pub mod Operations
pub mod OpLedger
pub mod Kept
pub mod OpCache
pub mod Runs
pub mod Refines
pub mod Draws
unfoldable pub use Types.*
unfoldable pub use Cache.*
