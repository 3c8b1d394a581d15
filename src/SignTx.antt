-- ===== src/SignTx.antt =====
-- src/commands/signtx: the command that signs a transaction.
pub mod Amounts
pub mod Output
pub mod Context
pub mod P2pk
pub mod Ui
pub mod Handler
