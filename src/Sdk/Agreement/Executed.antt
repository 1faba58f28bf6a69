-- ===== src/Sdk/Agreement/Executed.antt =====
-- Withdrawals and transfers of crates/veil402-sdk/src/client/mod.rs, executed by
-- onchain/programs/pool/src/instructions/transact.rs.
use veil.Prelude.{ℕ, zero, suc, ◌+◌, ◌≡◌, refl, sym, ◌∙◌, some, length, arith}
use veil.Prelude.Int.{ℤ, pos, negsuc}
use veil.Prelude.Res.{ok}
use veil.Bytes.{Bytes}
use veil.Program.Runtime.{Pubkey, TokenAccount}
use veil.Program.Runtime.Laws.{IsRuntime, balance}
use veil.Program.State.{Chain, program_id}
use veil.Program.Initialize.{pool_seeds}
use veil.Program.Vault.{transact_moves}
use veil.Program.Transact as Transact
use veil.Program.Transact.{Loaded, transact}
use veil.Program.Transact.Effects.{Payment, paid, unpaid}
use veil.Program.Transact.Accounts.{HasAccounts}
use veil.Program.Transact.Guards.{transact_guards_iff}
use veil.Program.Transact.Exactly.{IsProven, transact_iff}
use veil.Sdk.Field.Laws.{from_signed-eq}
use veil.Sdk.Transaction.{Transaction, fields}
use veil.Sdk.Solana.{Pool, Withdrawal, new_pool, new_withdrawal, public_amount}
use veil.Sdk.Solana.Instruction.{request, nullifier_record}
use veil.Sdk.Client.{Platform, Veil, Slot, Prepared, withdraw, transfer}
use veil.Sdk.Client.Proving.{IsReady}
use veil.Sdk.Agreement.Binding.{bind-eq-ext_data_hash}
use veil.Sdk.Agreement.Received.{accounts, arguments, IsReceived, encode_request-IsReceived}
use veil.Sdk.Agreement.Deployed.{
  IsDeployed, IsPayable, IsFresh, IsDerived, new_pool-IsDerived, scalars_have_size,
}
use veil.Sdk.Agreement.Sent.{IsSent, prepare-IsSent, withdraw-IsSent}
use veil.Sdk.Agreement.Witness.{witness_bytes-eq-encode}

new_withdrawal_inv :
    (recipient : Pubkey) (amount : ℕ) {wd : Withdrawal}
    → new_withdrawal recipient amount ≡ ok wd
    → (n : ℕ) × (amount ≡ suc n) × (wd.recipient ≡ recipient) × (public_amount wd ≡ negsuc n)
unfolding new_withdrawal
new_withdrawal_inv recipient zero e = absurd (cc)
new_withdrawal_inv recipient (suc n) {wd} e = (n, refl, ground arith, ground arith)

module _ (f : Platform) (R : IsRuntime f.runtime) where
  -- The program receives the instruction with accounts and arguments on which it succeeds, and the amount
  -- moves from the vault to the recipient's token account.
  abbrev pub Executed : Chain f.runtime → Pool → Pubkey → ℕ → Prepared → Type 0
  Executed s pool recipient amount x =
      (k : Transact.TransactAccounts) × (a : Transact.TransactArgs) × (u : Chain f.runtime)
      × IsReceived f.codec x.instruction k a
      × (transact f.runtime s k a ≡ ok u)
      × (balance u.tokens pool.vault + amount ≡ balance s.tokens pool.vault)
      × (balance u.tokens (f.runtime.get_associated_token_address recipient pool.mint)
          ≡ balance s.tokens (f.runtime.get_associated_token_address recipient pool.mint) + amount)

  -- The same for a transfer, which leaves the vault as it is.
  abbrev pub Transferred : Chain f.runtime → Pool → Prepared → Type 0
  Transferred s pool x =
      (k : Transact.TransactAccounts) × (a : Transact.TransactArgs) × (u : Chain f.runtime)
      × IsReceived f.codec x.instruction k a
      × (transact f.runtime s k a ≡ ok u)
      × (balance u.tokens pool.vault ≡ balance s.tokens pool.vault)

  module _ (s : Chain f.runtime) (pool : Pool) (recipient payer : Pubkey) (amount : ℤ)
      (x : Prepared) (derived : IsDerived f.runtime pool)
      (sent : IsSent f pool recipient amount payer x) (d : IsDeployed f.runtime s pool)
      (now : IsFresh f.runtime R s pool x.proof.bytes x.proof.public) (ata : TokenAccount) where
    abbrev the_accounts : Transact.TransactAccounts
    the_accounts = accounts (request f.runtime pool x.proof sent.external amount payer)

    abbrev the_arguments : Transact.TransactArgs
    the_arguments = arguments (request f.runtime pool x.proof sent.external amount payer)

    abbrev loaded : Loaded
    loaded = record { pool = d.state; vault = d.vault; mint = d.mint; recipient_ata = ata }

    sent-HasAccounts :
        s.tokens the_accounts.recipient_ata ≡ some ata
        → ata.mint ≡ pool.mint
        → HasAccounts f.runtime s the_accounts x.proof.public.nullifiers loaded
    unfolding nullifier_record
    sent-HasAccounts ata_found ata_mint = record {
      pool_found = d.pool_found;
      tree_found = rw now.room.found refl;
      vault_found = d.vault_found;
      mint_found = d.mint_found;
      ata_found = ata_found;
      signed = refl;
      token = refl;
      system = refl;
      writable = record {
        tree = refl;
        vault = refl;
        record_0 = refl;
        record_1 = refl;
        recipient_ata = refl;
        payer = refl;
      };
      derived = rw (d.bump, derived.address) (R.bump_recreates pool_seeds program_id);
      tree_address = derived.tree;
      vault_mint = d.vault_mint;
      vault_owner = d.vault_owner;
      vault_address = derived.vault;
      mint_address = sym d.same_mint;
      ata_mint = ata_mint;
      verifier = sym d.same_verifier;
      executable = d.executable;
      record_0 = rw derived.own refl;
      record_1 = rw derived.own refl;
      free_0 = rw derived.own now.free_0;
      free_1 = rw derived.own now.free_1;
      apart = rw derived.own now.apart;
    }

    sent-IsProven : IsProven f.runtime s the_accounts loaded the_arguments
    sent-IsProven = record {
      hash = x.proof.public.hash;
      known = now.known;
      hashed =
          rw (d.same_domain, d.same_mint, d.same_verifier)
            ((bind-eq-ext_data_hash f.runtime R.is_crypto pool sent.external amount derived.own).0
              sent.bound);
      verified =
          rw (← from_signed-eq f.runtime.crypto R.is_crypto amount, ← sent.same_amount)
            (rw
              (witness_bytes-eq-encode x.proof.public
                (scalars_have_size (fields x.proof.public) sent.typed))
              at now.verified);
    }

    -- It succeeds if the payment can be made to the token account that it names.
    sent-transact :
        (after : Chain f.runtime)
        → s.tokens the_accounts.recipient_ata ≡ some ata
        → ata.mint ≡ pool.mint
        → Payment f.runtime s the_accounts loaded sent.external.recipient after amount
        → (t : Chain f.runtime) × (transact f.runtime s the_accounts the_arguments ≡ ok t)
    sent-transact after ata_found ata_mint payment =
        (transact_iff f.runtime R s the_accounts the_arguments).1 (record {
          loaded = loaded;
          accounts = sent-HasAccounts ata_found ata_mint;
          admissible = (transact_guards_iff f.runtime the_accounts the_arguments).0 sent.guarded;
          proven = sent-IsProven;
          after = after;
          payment = payment;
          room = now.room;
        })

  sent-Executed :
      (s : Chain f.runtime) (pool : Pool) (recipient payer : Pubkey) (n : ℕ) (x : Prepared)
      → IsDerived f.runtime pool
      → IsSent f pool recipient (negsuc n) payer x
      → (d : IsDeployed f.runtime s pool) → IsPayable f.runtime s pool d recipient (suc n)
      → IsFresh f.runtime R s pool x.proof.bytes x.proof.public
      → Executed s pool recipient (suc n) x
  sent-Executed s pool recipient payer n x derived sent d to now =
      let asked = request f.runtime pool x.proof sent.external (negsuc n) payer in
      let (u, runs) =
        sent-transact s pool recipient payer (negsuc n) x derived sent d now to.ata
          (record s { tokens = to.after }) (rw sent.to_recipient to.ata_found) to.ata_mint
          (paid n to.after to.covered (to.ata_owner ∙ sym sent.to_recipient)
            (rw sent.to_recipient to.moved) refl) in
      let (_, out, in', _) = transact_moves f.runtime R s (accounts asked) (arguments asked) runs in
      (
        accounts asked,
        arguments asked,
        u,
        encode_request-IsReceived f.codec asked derived.own sent.encoded,
        runs,
        out,
        rw (← sent.to_recipient) in',
      )

  sent-Transferred :
      (s : Chain f.runtime) (pool : Pool) (recipient payer : Pubkey) (x : Prepared)
      → IsDerived f.runtime pool
      → IsSent f pool recipient (pos 0) payer x
      → IsDeployed f.runtime s pool
      → IsFresh f.runtime R s pool x.proof.bytes x.proof.public
      → Transferred s pool x
  sent-Transferred s pool recipient payer x derived sent d now =
      let asked = request f.runtime pool x.proof sent.external (pos 0) payer in
      let (u, runs) =
        sent-transact s pool recipient payer (pos 0) x derived sent d now d.vault s d.vault_found
          d.vault_mint (unpaid 0 refl) in
      let (_, out, _, _) = transact_moves f.runtime R s (accounts asked) (arguments asked) runs in
      (
        accounts asked,
        arguments asked,
        u,
        encode_request-IsReceived f.codec asked derived.own sent.encoded,
        runs,
        omega (arith, out),
      )

  -- A withdrawal that the client returns is carried out. Suppose the client's configuration is derived for
  -- this program and the amount is one that a withdrawal accepts, the worker that is kept is ready, no other
  -- owner shares the vault, and the proof has 388 bytes. On a chain where the pool is deployed as
  -- configured, the recipient can be paid, the tree has room for two leaves and knows the root, the records
  -- of the two nullifiers are free and apart, and the verifier accepts the proof with the client's
  -- public witness, the program receives the instruction with accounts and arguments on which it
  -- succeeds, and exactly the amount moves from the vault to the recipient's token account.
  pub withdraw-transact :
      (verifier mint : Pubkey) (domain : Bytes) (pool : Pool) (recipient : Pubkey) (amount : ℕ)
      (wd : Withdrawal) (fuel : ℕ) (v : Veil f) (slot : Slot f) (t : Transaction) (payer : Pubkey)
      (entropy : f.rng.State) (w : f.os.World) (x : Prepared) (s : Chain f.runtime)
      → new_pool f.runtime program_id verifier mint domain ≡ ok pool
      → new_withdrawal recipient amount ≡ ok wd
      → IsReady f slot
      → ((owner : Pubkey)
          → f.runtime.get_associated_token_address owner pool.mint ≡ pool.vault
          → owner ≡ pool.address)
      → (withdraw f fuel v slot pool t wd payer entropy w).0.1 ≡ ok x
      → length x.proof.bytes ≡ 388
      → (d : IsDeployed f.runtime s pool) → IsPayable f.runtime s pool d recipient amount
      → IsFresh f.runtime R s pool x.proof.bytes x.proof.public
      → Executed s pool recipient amount x
  withdraw-transact verifier mint domain pool recipient amount wd fuel v slot t payer entropy w x s
        built accepted ready own e size d to now =
      let (n, positive, same, negative) = new_withdrawal_inv recipient amount accepted in
      let sent : IsSent f pool recipient (negsuc n) payer x =
        rw (same, negative) at
          (withdraw-IsSent f R.is_crypto fuel v slot pool t wd payer entropy w ready own e size) in
      let derived = new_pool-IsDerived f.runtime verifier mint domain built in
      let to' : IsPayable f.runtime s pool d recipient (suc n) = rw positive at to in
      rw positive (sent-Executed s pool recipient payer n x derived sent d to' now)

  -- A transfer that the client returns is carried out, without a payment. Suppose the client's configuration
  -- is derived for this program, the worker that is kept is ready and the proof has 388 bytes. On a chain
  -- where the pool is deployed as configured, the tree has room for two leaves and knows the root, the
  -- records of the two nullifiers are free and apart, and the verifier accepts the proof with the client's
  -- public witness, the program receives the instruction with accounts and arguments on which it
  -- succeeds, and the vault keeps its balance.
  pub transfer-transact :
      (verifier mint : Pubkey) (domain : Bytes) (pool : Pool) (fuel : ℕ) (v : Veil f)
      (slot : Slot f) (t : Transaction) (payer : Pubkey) (entropy : f.rng.State) (w : f.os.World)
      (x : Prepared) (s : Chain f.runtime)
      → new_pool f.runtime program_id verifier mint domain ≡ ok pool
      → IsReady f slot
      → (transfer f fuel v slot pool t payer entropy w).0.1 ≡ ok x
      → length x.proof.bytes ≡ 388
      → IsDeployed f.runtime s pool
      → IsFresh f.runtime R s pool x.proof.bytes x.proof.public
      → Transferred s pool x
  unfolding transfer
  transfer-transact verifier mint domain pool fuel v slot t payer entropy w x s built ready e size d
        now =
      sent-Transferred s pool pool.address payer x
        (new_pool-IsDerived f.runtime verifier mint domain built)
        (prepare-IsSent f R.is_crypto fuel v slot pool t pool.address (pos 0) payer entropy w ready
          refl (λ neg. absurd (cc)) e size)
        d now
