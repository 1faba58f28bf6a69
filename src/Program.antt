-- ===== src/Program.antt =====
-- The pool program, onchain/programs/pool/src.
pub mod Error
pub mod Field
pub mod Runtime
pub mod State
pub mod Verifier
pub mod Tree
pub mod Initialize
pub mod Shield
pub mod Transact
pub mod Steps
pub mod DoubleSpend
pub mod EventLog
pub mod Access
pub mod Vault
pub mod Abstract
