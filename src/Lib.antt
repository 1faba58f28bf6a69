-- ===== src/Lib.antt =====
-- A verification library for veil402, a shielded pool on Solana: deposits become hidden notes whose
-- commitments are leaves of a Merkle tree, and a note is spent by revealing its nullifier with a
-- zero-knowledge proof.
--
-- The program, onchain/programs/pool/src. Three instructions (init_pool, shield, transact) read and
-- write accounts; the program calls the SPL token program, a verifier program and Light Protocol's
-- concurrent Merkle tree library. A state is the record `Chain` of Program/State: the accounts by
-- address, and the events so far. An instruction is a function from a chain, the accounts it names
-- and its arguments to a `Result`; an error discards what was written before it, as the runtime does.
--   Program/Error       error.rs
--   Program/Field       utils.rs: poseidon, keccak_field, asset_id, public_amount_field, ...
--   Program/State       state.rs, events.rs, the constants of lib.rs, and the chain
--   Program/Verifier    verifier.rs: the public witness, written into its buffer as the code does
--   Program/Tree        tree.rs: initialize, append, insert, contains_root
--   Program/Initialize  instructions/initialize.rs: account constraints, then the handler
--   Program/Shield      instructions/shield.rs
--   Program/Transact    instructions/transact.rs, with ExtData::hash
--   Program/Steps       histories: instructions that succeed, and what other programs may do
--   Program/Abstract    an abstract ledger: commitments, spent records and the amount in the vault
-- The other modules under Program hold proofs and are named for what they prove.
--
-- The client library, crates/veil402-sdk/src. It plans a transaction from notes, computes the public
-- inputs and the witness of the proof, has a worker process prove it, and builds the instruction that
-- the program executes.
--   Sdk/Error           client/error.rs
--   Sdk/Field           protocol/encoding.rs and protocol/field.rs
--   Sdk/Note            protocol/note.rs
--   Sdk/Transaction     protocol/transaction.rs: Transaction::plan, Plan::values, PublicInputs
--   Sdk/Solana          solana/mod.rs and solana/binding.rs; Solana/Instruction: instruction.rs
--   Sdk/Client          client/mod.rs: Veil::open, prove, prepare, transfer, withdraw; its worker slot is
--                       passed from call to call
--   Sdk/Proving/Witness, Artifacts             proving/witness.rs, proving/artifacts.rs
--   Sdk/Proving/Worker, Process, Protocol      proving/worker/mod.rs, process.rs, protocol.rs, generated.rs
--   Sdk/Os              what these take from the operating system and tokio, and calls that keep the world
--   Sdk/Agreement       the client against the program; an instruction is received (`IsReceived`) if it calls
--                       the program, names its accounts by position, with their flags, and begins with the
--                       discriminator that Anchor gives to `transact` (`method_discriminator`)
-- The worker itself, prover/veil402-gnark/protocol.go: Prover has readMessage, writeMessage, prove and the
-- loop of serve, one request at a time; Prover/Framing, Prover/Answers and Prover/Session set them against
-- the client, the last with pipes between the two (`IsConnected`).
-- A random source is an argument, a state with `try_fill_bytes`; `IsRng` says that it fills its buffer.
-- The Borsh serialiser and SHA-256 are the argument `Codec`. The client's record `Platform` adds the
-- operating system (`Os`, whose `World` is everything outside the client and which also says whether a
-- deadline passes), prost (`Messages`), the file system and decoders of artifacts (`ArtifactLib`) and the
-- Noir crates (`Noir`). `IsLife` is what is said of a child process from its start until it is killed.
-- Tests/Proving instantiates them with a worker whose answers are given.
--
-- The circuit, circuits/transaction/src: Circuit has main and compute_root, a field element being a number
-- below the modulus and an assertion a test that fails with its message; Circuit/Encoding and
-- Circuit/Completeness set it against the client, Circuit/Assignment the map of inputs that witness.rs builds
-- against the parameters of main, Circuit/Arithmetic against integers.
--
-- The end-to-end tests, onchain/tests/e2e/src/scenario.rs and onchain/tests/mock-verifier: Harness has their
-- transaction instruction, with the accounts as the program declares them, the transactions of their
-- fixture and the mock verifier; Harness/Metas sets the instruction against the client's.
--
-- What is not in the repository is a parameter. `Crypto` has ark_bn254's scalar, Poseidon and Keccak,
-- and `Runtime` the derivation of addresses, the token program, the verifier call and the tree
-- library; `IsCrypto` and `IsRuntime` state the documented behaviour that some theorems use. Crypto/Toy
-- and Tests/Runtime instantiate both with functions that compute, so that Tests can run the program.
--
-- Numbers are natural numbers; an i64 is an integer of `Prelude.Int` within `IsI64`, encoded in two's
-- complement by `i64_bytes`. The i128 that public_amount_field takes holds every i64. The heights and
-- sizes of the tree are those of tree.rs, 20 levels and so 2^20 leaves. The program's definitions need
-- no fuel. The client's sampling loops (Field::random, dummy_spend) may draw for ever, so they run on
-- fuel; `random_iff` says for which fuel Field::random returns, and `plan_iff` for which fuel
-- Transaction::plan does, with a random source that brings usable values in time (`IsLively`).
--
-- Not modelled: rent and the payer's lamports, account sizes and the discriminators of accounts, what the runtime
-- makes of an account that is named twice, compute limits, zeroing
-- of memory, the mutex around the worker slot, the prover behind the Go worker, its goroutine that reads
-- ahead and the end of its process, and the local validator, the RPC client and the other two instructions
-- of the end-to-end tests.
pub mod Prelude
pub mod Bytes
pub mod Crypto
pub mod Program
pub mod Sdk
pub mod Prover
pub mod Circuit
pub mod Harness
mod Tests
