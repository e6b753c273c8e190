-- ===== src/Ctap2.antt =====
-- The CTAP2 commands of src/ctap/mod.rs, over the storage, the PIN protocol and the data formats.
pub mod Text
pub mod Device
pub mod Authorize
pub mod Make
pub mod Credentials
pub mod Assertions
pub mod Manage
pub mod Commands
pub mod Firmware
pub mod NoPanic
pub mod Stateful
pub mod Resets
pub mod Verified
pub mod Wiped
pub mod Cropping
pub mod Remaining
mod Samples
mod Tests
mod VerifiedTests
mod NoPanicTests
