-- ===== src/Sdk.antt =====
-- The client library, crates/veil402-sdk/src.
pub mod Error
pub mod Field
pub mod Note
pub mod Transaction
pub mod Solana
pub mod Os
pub mod Proving
pub mod Client
pub mod Agreement
