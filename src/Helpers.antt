-- ===== src/Helpers.antt =====
-- src/helpers: the hash functions, keys and session ids.
pub mod CmdMacros
pub mod Blake2b
pub mod Crypto
pub mod Session
pub mod InputFrame
