-- ===== src/Tx.antt =====
-- The transaction manager of projects/data/tx-manager.
pub mod Manager
mod Tests
pub mod Version
pub mod WriteSet
