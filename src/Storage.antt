-- ===== src/Storage.antt =====
-- `PersistentStore` of src/ctap/storage.rs, over the entries of the persistent store.
pub mod Key
pub mod Read
pub mod Write
pub mod Retries
pub mod Counter
pub mod Reset
pub mod Credentials
mod Slots
pub mod Accounts
mod Tests
