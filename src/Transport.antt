-- ===== src/Transport.antt =====
-- The relay client's connection, packages/runtime/src/websocket-transport.ts: its state, what it does
-- with the events of its socket and its timers, and the messages that it sends and gets.
pub mod State
pub mod Socket
pub mod Messages
pub mod Run
pub mod Invariant
pub mod Quiet
pub mod Lifecycle
pub mod Order
pub mod Promise
pub mod Silence
pub mod Refusals
mod Tests
