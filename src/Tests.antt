-- ===== src/Tests.antt =====
-- Concrete runs of the model, and the theorems at concrete inputs.
pub mod Runtime
pub mod Scenario
mod PoolWitnesses
pub mod Client
mod ClientWitnesses
pub mod Proving
mod ProvingWitnesses
mod CircuitWitnesses
mod Completion
pub mod Execution
mod Transfer
mod Session
mod Planning
mod HarnessWitnesses
mod Shielded
