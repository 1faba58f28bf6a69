-- ===== src/Tests/PoolWitnesses.antt =====
-- The theorems on the pool program at concrete inputs.
use veil.Prelude.{
  ℕ, ◌+◌, ◌%◌, ◌<◌, ◌≤◌, ◌≡◌, ◌≢◌, ◌↔◌, ◌⊎◌, refl, inl, some, none, true, [], ◌++◌, Bool, replicate,
  All, arith, ap, length,
}
use veil.Prelude.Int.{pos, negsuc, ◌+ℤ◌}
use veil.Prelude.Res.{ok}
use mathlib.Core.List.{flatten}
use veil.Bytes.{Bytes, IsArray, be_bytes, be_value}
use veil.Bytes.Laws.{be_bytes-IsArray}
use veil.Crypto.{modulus}
use veil.Crypto.Toy.{toy, toy-IsCrypto}
use veil.Program.Field.{asset_id, public_amount_field}
use veil.Program.Field.Amount.{public_amount_conserves}
use veil.Program.Runtime.{TokenAccount}
use veil.Program.Runtime.Laws.{balance}
use veil.Program.Verifier.{PublicInputs, encode}
use veil.Program.Verifier.Encoding.{gnark_header, verifier_order, encode-layout}
use veil.Program.Transact.{transact, transact_guards, ext_data_hash}
use veil.Program.Transact.Guards.{IsAdmissible, transact_guards_iff}
use veil.Program.Transact.Binding.{
  Public, IsPublic, hash_of, preimage, Collides, ext_data_hash_binds,
}
use veil.Program.Steps.{Reach, here, next, initializes, shields, transacts}
use veil.Program.DoubleSpend.{no_double_spend, transact_records}
use veil.Program.EventLog.{Agrees, committed}
use veil.Program.EventLog.Synced.{log_matches_tree, tree_address}
use veil.Program.Vault.{shield_moves, transact_moves}
use veil.Program.Vault.Custody.{HasVault, init-HasVault}
use veil.Program.Vault.Solvency.{solvency}
use veil.Program.Abstract.{Moves, view}
use veil.Program.Abstract.Refinement.{Reach-Moves}
use veil.Tests.Runtime.{toy_runtime, toy_runtime-IsRuntime}
use veil.Tests.Scenario.{
  start, initialized, shielded, withdrawn, init_keys, shield_keys, withdraw_keys, withdraw_args,
  npk, note, domain, mint_key, nullifier_0, nullifier_1, pool_key, vault_key, recipient_ata,
  depositor_ata, recipient_key, verifier_key, init_runs, shield_runs, transact_runs,
}

not_the_pool : shield_keys.depositor ≢ pool_key
unfolding be_bytes
not_the_pool e = absurd (omega (arith, ap length e))

history : Reach toy_runtime start withdrawn
history =
    next
      (next (next here (initializes init_keys domain init_runs))
        (shields shield_keys npk 40 note not_the_pool shield_runs))
      (transacts withdraw_keys withdraw_args transact_runs)

no_double_spend_example : transact toy_runtime withdrawn withdraw_keys withdraw_args ≢ ok withdrawn
no_double_spend_example =
    no_double_spend toy_runtime shielded withdraw_keys withdraw_args nullifier_0 withdraw_keys
      withdraw_args transact_runs here refl (inl refl) (inl refl)

transact_records_example : shielded.nullifiers withdraw_keys.nullifier_0_record ≡ none
transact_records_example =
    (transact_records toy_runtime shielded withdraw_keys withdraw_args transact_runs).2

initialized-HasVault : HasVault toy_runtime initialized mint_key
initialized-HasVault = (init-HasVault toy_runtime start init_keys domain init_runs (λ key. refl)).0

later : Reach toy_runtime initialized withdrawn
later =
    next (next here (shields shield_keys npk 40 note not_the_pool shield_runs))
      (transacts withdraw_keys withdraw_args transact_runs)

solvency_example :
    HasVault toy_runtime withdrawn mint_key
    × (balance initialized.tokens vault_key + 40 ≤ balance withdrawn.tokens vault_key + 10)
unfolding later
solvency_example = solvency toy_runtime toy_runtime-IsRuntime mint_key initialized-HasVault later

Reach-Moves_example :
    HasVault toy_runtime withdrawn mint_key
    × Moves (view vault_key initialized) (view vault_key withdrawn)
Reach-Moves_example =
    Reach-Moves toy_runtime toy_runtime-IsRuntime mint_key initialized-HasVault later

init-HasVault_example :
    (h : HasVault toy_runtime initialized mint_key) × (h.pool.verifier ≡ verifier_key)
    × (h.pool.domain ≡ domain)
    × (asset_id toy mint_key ≡ ok h.pool.asset.id)
    × (h.account.amount ≡ 0)
init-HasVault_example = init-HasVault toy_runtime start init_keys domain init_runs (λ key. refl)

log_matches_tree_example :
    Agrees toy_runtime toy_runtime-IsRuntime
      (withdrawn.trees (tree_address toy_runtime))
      (committed withdrawn.events)
log_matches_tree_example =
    log_matches_tree toy_runtime toy_runtime-IsRuntime start withdrawn
      (record { no_pools = λ key. refl; no_trees = λ key. refl; no_events = refl }) history

shield_moves_example :
    (0 < 40)
    × (balance shielded.tokens vault_key ≡ balance initialized.tokens vault_key + 40)
    × (balance shielded.tokens depositor_ata + 40 ≡ balance initialized.tokens depositor_ata)
shield_moves_example =
    shield_moves toy_runtime toy_runtime-IsRuntime initialized shield_keys npk 40 note shield_runs
      not_the_pool

transact_moves_example :
    (◌≡◌ {A = ℕ} 0 0)
    × (balance withdrawn.tokens vault_key + 10 ≡ balance shielded.tokens vault_key)
    × (balance withdrawn.tokens recipient_ata ≡ balance shielded.tokens recipient_ata + 10)
    × (◌≡◌ {A = Bool} true true
        → (a : TokenAccount) × (shielded.tokens recipient_ata ≡ some a) × (a.owner ≡ recipient_key))
transact_moves_example =
    transact_moves toy_runtime toy_runtime-IsRuntime shielded withdraw_keys withdraw_args
      transact_runs

transact_guards_iff_example :
    (transact_guards toy_runtime withdraw_keys withdraw_args ≡ ok tt)
    ↔ IsAdmissible toy_runtime withdraw_keys withdraw_args
transact_guards_iff_example = transact_guards_iff toy_runtime withdraw_keys withdraw_args

public_amount_conserves_example :
    ((40 + be_value (public_amount_field toy (negsuc 9))) % modulus ≡ 30 % modulus)
    ↔ (pos 40 +ℤ negsuc 9 ≡ pos 30)
public_amount_conserves_example =
    public_amount_conserves toy toy-IsCrypto (negsuc 9) 40 30 (omega arith) (omega arith)
      (omega arith)

tied : Public
tied = record {
  ext = withdraw_args.ext_data;
  domain = domain;
  pool = replicate 32 1;
  mint = replicate 32 2;
  verifier = replicate 32 3;
  amount = negsuc 9;
}

long : Public
unfolding tied
long = record tied { ext = record { recipient = replicate 32 4; encrypted_notes = (note, []) } }

long-IsPublic : IsPublic long
unfolding long
long-IsPublic = record {
  recipient = refl;
  domain = refl;
  pool = refl;
  mint = refl;
  verifier = refl;
  amount = (omega arith, omega arith);
}

long_hash : (h : Bytes) × (hash_of toy_runtime long ≡ ok h)
unfolding long ext_data_hash
long_hash = (_, refl)

ext_data_hash_binds_example : (long ≡ long) ⊎ Collides toy (preimage long) (preimage long)
ext_data_hash_binds_example =
    ext_data_hash_binds toy_runtime toy-IsCrypto long long long-IsPublic long-IsPublic long_hash.1
      long_hash.1

inputs : PublicInputs
inputs = record {
  root = be_bytes 32 2;
  nullifiers = (nullifier_0, nullifier_1);
  commitments = (be_bytes 32 21, be_bytes 32 22);
  amount = be_bytes 32 0;
  external_data_hash = be_bytes 32 5;
}

inputs-IsArray : All (IsArray 32) (verifier_order inputs)
unfolding verifier_order inputs
inputs-IsArray = (
  be_bytes-IsArray 32 2,
  (
    be_bytes-IsArray 32 11,
    (
      be_bytes-IsArray 32 12,
      (
        be_bytes-IsArray 32 21,
        (be_bytes-IsArray 32 22, (be_bytes-IsArray 32 0, (be_bytes-IsArray 32 5, tt))),
      ),
    ),
  ),
)

encode-layout_example : encode inputs ≡ gnark_header ++ flatten (verifier_order inputs)
encode-layout_example = encode-layout inputs inputs-IsArray
