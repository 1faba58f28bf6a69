-- ===== src/Sdk/Agreement.antt =====
-- What the client builds is what the program computes and accepts.
pub mod Witness
pub mod Binding
pub mod Scalars
pub mod Received
pub mod Instruction
pub mod Sent
pub mod Deployed
pub mod Executed
pub mod Typed
pub mod Shielded
