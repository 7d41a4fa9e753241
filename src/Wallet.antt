-- ===== src/Wallet.antt =====
-- The keys and transactions of blockchain_cryptocurrency/: wallet.c, transactions.c, and the key tests
-- of verifications.c. liboqs, OpenSSL, libbase58 and SQLite are parameters.
pub mod Hex
pub mod Keys
pub mod Transaction
pub mod Menu
pub mod Table
mod Witnesses
