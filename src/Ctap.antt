-- ===== src/Ctap.antt =====
-- src/ctap: the state of the authenticator, its key handles and its CTAP1 commands.
mod Tests
pub mod Status
pub mod Primitives
pub mod State
pub mod KeyHandle
pub mod U2f
pub mod Ctap1
pub mod Messages
pub mod Requests
pub mod UserPresence
pub mod Sizes
pub mod Assertion
pub mod Registration
