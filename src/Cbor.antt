-- ===== src/Cbor.antt =====
-- libraries/cbor.
pub mod Values
pub mod Utf8
pub mod Writer
pub mod Reader
pub mod Macros
pub mod Destructure
pub mod Order
pub mod Encoding
pub mod Written
pub mod Size
pub mod Insert
pub mod RoundTrip
pub mod Sound
pub mod Content
pub mod Loops
pub mod Canonical
pub mod KeyOrder
pub mod Wrap
mod Tests
