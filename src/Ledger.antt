-- ===== src/Ledger.antt =====
-- daemon/ledger: the durable eUTXO ledger, its optimistic settlements and its transaction log.
pub mod Types
pub mod Monad
pub mod Utxos
pub mod Settlement
pub mod Live
pub mod Amounts
pub mod Sound
pub mod Payment
pub mod Escrow
pub mod Release
pub mod Claims
pub mod Finalize
pub mod Challenge
pub mod Bond
pub mod Opening
pub mod Refusals
pub mod Totals
pub mod TxLog
pub mod Faults
pub mod Restart
pub mod Height
pub mod Tests
