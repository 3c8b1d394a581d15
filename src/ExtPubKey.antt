-- ===== src/ExtPubKey.antt =====
-- src/commands/extpubkey: the extended public key of an account.
pub mod Context
pub mod Handler
