-- ===== src/Pin.antt =====
-- src/ctap/pin_protocol_v1.rs, with the feature with_ctap2_1.
pub mod Blocks
pub mod Secrets
pub mod Verify
pub mod Token
pub mod Subcommands
pub mod Guessing
pub mod BruteForce
pub mod HmacSecret
pub mod RightPin
pub mod SetPin
mod Tests
