-- ===== src/Common.antt =====
-- src/common: buffers, number formats and checked arithmetic.
pub mod SafeInt
pub mod Buffer
pub mod RwBuffer
pub mod Gve
pub mod Bip32
