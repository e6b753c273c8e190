-- ===== src/Formats.antt =====
-- src/ctap/data_formats.rs, command.rs and response.rs: the CBOR forms of the CTAP2 messages.
pub mod Extract
pub mod Words
pub mod Entities
pub mod Options
pub mod Cose
pub mod Source
pub mod Commands
pub mod Responses
pub mod RoundTrip
mod Tests
