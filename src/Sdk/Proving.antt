-- ===== src/Sdk/Proving.antt =====
-- crates/veil402-sdk/src/proving: artifacts, the witness, and the worker process.
pub mod Protocol
pub mod Process
pub mod Worker
pub mod Artifacts
pub mod Witness
