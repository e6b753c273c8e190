-- ===== src/Crypto.antt =====
-- libraries/crypto: CBC mode over a block cipher, and HMAC over a hash function.
mod Tests
pub mod Cbc
pub mod Hmac
