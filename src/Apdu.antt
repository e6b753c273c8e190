-- ===== src/Apdu.antt =====
-- src/ctap/apdu.rs: the frames of CTAP1 commands.
mod Tests
pub mod Types
pub mod Parse
pub mod Total
pub mod Print
pub mod Extended
pub mod Complete
pub mod Checked
pub mod Accept
