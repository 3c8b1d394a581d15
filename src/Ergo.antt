-- ===== src/Ergo.antt =====
-- src/ergo: the serializer that feeds a transaction, piece by piece, to the hash that is signed.
pub mod TokenTable
pub mod ErgoTree
pub mod Memory
pub mod Table
pub mod Input
pub mod Box
pub mod Full
pub mod Schnorr
pub mod Address
