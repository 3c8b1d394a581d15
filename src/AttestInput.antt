-- ===== src/AttestInput.antt =====
-- src/commands/attestinput: the device attests the contents of a box that a transaction is to spend.
pub mod Context
pub mod Response
pub mod Handler
pub mod Messages
