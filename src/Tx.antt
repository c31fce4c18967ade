-- ===== src/Tx.antt =====
-- src/tx.rs: the log records and the state of the transaction manager (Records, Manager).
pub mod Records
pub mod Manager
pub mod Log
pub mod Visibility
pub mod Steps
