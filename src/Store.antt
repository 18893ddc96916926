-- ===== src/Store.antt =====
-- The database as the economy's repositories see it, and the transactions that run over it:
-- internal/pkg/database/tx_manager.go and the tables of migrations/.
pub mod Tables
pub mod Tx
pub mod Update
pub mod Reads
