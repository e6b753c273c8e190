-- ===== src/Hid.antt =====
-- src/ctap/hid: the CTAPHID transport over 64-byte packets.
mod Tests
pub mod Packet
pub mod Receive
pub mod Send
pub mod Assembler
pub mod Chunks
pub mod Protocol
pub mod Handler
pub mod Origin
pub mod Frame
pub mod Channels
pub mod Replies
pub mod Continuations
pub mod Reassembly
pub mod Echo
