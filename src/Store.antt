-- ===== src/Store.antt =====
-- libraries/persistent_store: the bit fields of its words.
mod Tests
pub mod Digits
pub mod Bitfield
pub mod Interface
pub mod Contents
