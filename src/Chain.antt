-- ===== src/Chain.antt =====
-- blockchain_cryptocurrency: blocks, the miner and the verification of blocks and chains.
pub mod Text
pub mod Digits
pub mod Block
pub mod Miner
pub mod Verify
pub mod Rows
pub mod Mine
pub mod Database
pub mod Coinbase
mod Witnesses
