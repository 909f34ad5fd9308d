-- ===== src/Can.antt =====
-- The CAN bus nodes, crates/nodes-io/src/can: hexadecimal text, frames and filters, the ASCII
-- protocol SLCAN, what a backend hands on and what canWrite sends. Text is the list of its bytes.
pub mod Hex
pub mod Numerals
pub mod Frame
pub mod Slcan
pub mod Write
pub mod Bus
mod Tests
