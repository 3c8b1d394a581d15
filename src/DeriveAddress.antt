-- ===== src/DeriveAddress.antt =====
-- src/commands/deriveaddress: the address of a key, sent or shown.
pub mod Context
pub mod Handler
