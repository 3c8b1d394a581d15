-- ===== src/Examples.antt =====
-- Runs of the development at concrete inputs.
pub mod Device
mod Common
mod Ergo
mod SignTx
pub mod Signing
mod Commands
