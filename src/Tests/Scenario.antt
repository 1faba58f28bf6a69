-- ===== src/Tests/Scenario.antt =====
-- A pool that is initialised, a deposit of 40, and a withdrawal of 10 from it.
use mathlib.Core.Option
use veil.Prelude.{◌≡◌, refl, true, false, Option, some, none, [], ◌∷◌, replicate, if◌then◌else◌}
use veil.Prelude.Int.{negsuc}
use veil.Prelude.Res.{ok, err}
use veil.Bytes.{Bytes, be_bytes, bytes_eq, Bytes_discrete}
use veil.Crypto.Toy.{toy_sum}
use veil.Program.Error.{Res}
use veil.Program.Field.{asset_id, poseidon, u64_be32, is_canonical_field, public_amount_field}
use veil.Program.Runtime.{Pubkey, TokenAccount}
use veil.Program.State.{Chain, program_id}
use veil.Program.Initialize as Init
use veil.Program.Initialize.{InitPoolAccounts, init_pool, pool_seeds, tree_seeds}
use veil.Program.Shield as Sh
use veil.Program.Shield.{ShieldAccounts, shield}
use veil.Program.Tree as Tree
use veil.Program.Verifier.{verify}
use veil.Program.Transact as Tx
use veil.Program.Transact.{TransactAccounts, TransactArgs, ExtData, transact}
use veil.Program.Steps.{pool_address}
use veil.Program.EventLog.Synced.{tree_address}
use veil.Program.Vault.Custody.{vault_address}
use veil.Tests.Runtime.{toy_runtime}

abbrev pub mint_key : Pubkey
mint_key = 1 ∷ []

abbrev pub verifier_key : Pubkey
verifier_key = 2 ∷ []

abbrev authority_key : Pubkey
authority_key = 3 ∷ []

abbrev depositor_key : Pubkey
depositor_key = 4 ∷ []

abbrev pub depositor_ata : Pubkey
depositor_ata = 5 ∷ []

abbrev pub recipient_key : Pubkey
recipient_key = 7 ∷ []

abbrev pub recipient_ata : Pubkey
recipient_ata = 8 ∷ []

abbrev program_data_key : Pubkey
program_data_key = 9 ∷ []

abbrev pub pool_key : Pubkey
pool_key = pool_address toy_runtime

abbrev tree_key : Pubkey
tree_key = tree_address toy_runtime

abbrev pub vault_key : Pubkey
vault_key = vault_address toy_runtime mint_key

abbrev pub domain : Bytes
domain = replicate 32 7

abbrev first_tokens : Pubkey → Option TokenAccount
first_tokens key =
    if bytes_eq key depositor_ata
    then some (record { mint = mint_key; owner = depositor_key; amount = 100 })
    else if bytes_eq key recipient_ata
    then some (record { mint = mint_key; owner = recipient_key; amount = 0 })
    else none

-- The chain before the program has run.
abbrev pub start : Chain toy_runtime
start = record {
  pools = λ key. none;
  trees = λ key. none;
  nullifiers = λ key. none;
  tokens = first_tokens;
  mints = λ key. if bytes_eq key mint_key then some (record { decimals = 6 }) else none;
  programs = λ key. bytes_eq key verifier_key;
  program_data = λ key. if bytes_eq key program_data_key then some (some authority_key) else none;
  programdata_address = λ key. if bytes_eq key program_id then some program_data_key else none;
  others = λ key. false;
  events = [];
}

abbrev pub after : Chain toy_runtime → Res (Chain toy_runtime) → Chain toy_runtime
after s (ok t) = t
after s (err e) = s

abbrev pub init_keys : InitPoolAccounts
init_keys = record {
  pool = pool_key;
  tree = tree_key;
  mint = mint_key;
  vault = vault_key;
  verifier_program = verifier_key;
  authority = authority_key;
  authority_signed = true;
  pool_program = program_id;
  program_data = program_data_key;
  token_program = 6 ∷ [];
  associated_token_program = 16 ∷ [];
  system_program = replicate 32 0;
  pool_writable = true;
  tree_writable = true;
  vault_writable = true;
  authority_writable = true;
}

abbrev pub shield_keys : ShieldAccounts
shield_keys = record {
  pool = pool_key;
  tree = tree_key;
  vault = vault_key;
  mint = mint_key;
  depositor = depositor_key;
  depositor_signed = true;
  tree_writable = true;
  vault_writable = true;
  depositor_writable = true;
  depositor_ata_writable = true;
  depositor_ata = depositor_ata;
  token_program = 6 ∷ [];
}

abbrev pub npk : Bytes
npk = be_bytes 32 77

abbrev pub note : Bytes
note = 1 ∷ 2 ∷ 3 ∷ []

abbrev pub nullifier_0 : Bytes
nullifier_0 = be_bytes 32 11

abbrev pub nullifier_1 : Bytes
nullifier_1 = be_bytes 32 12

abbrev pub withdraw_args : TransactArgs
withdraw_args = record {
  proof = 1 ∷ replicate 387 0;
  root = be_bytes 32 2;
  nullifiers = (nullifier_0, nullifier_1);
  out_commitments = (be_bytes 32 21, be_bytes 32 22);
  ext_amount = negsuc 9;
  ext_data = record { recipient = recipient_key; encrypted_notes = (note, []) };
}

abbrev record_key : Bytes → Pubkey
record_key n = (toy_runtime.find_program_address (Tx.nullifier_seeds pool_key n) program_id).0

abbrev pub withdraw_keys : TransactAccounts
withdraw_keys = record {
  pool = pool_key;
  tree = tree_key;
  vault = vault_key;
  mint = mint_key;
  nullifier_0_record = record_key nullifier_0;
  nullifier_1_record = record_key nullifier_1;
  recipient_ata = recipient_ata;
  verifier_program = verifier_key;
  payer_signed = true;
  system_program = replicate 32 0;
  tree_writable = true;
  vault_writable = true;
  record_0_writable = true;
  record_1_writable = true;
  recipient_ata_writable = true;
  payer_writable = true;
  token_program = 6 ∷ [];
}

unfoldable pub initialized : Chain toy_runtime
unfolding init_pool Init.init_accounts Init.init_checks Init.handle Tree.initialize asset_id toy_sum
    Bytes_discrete
initialized = after start (init_pool toy_runtime start init_keys domain)

unfoldable pub shielded : Chain toy_runtime
unfolding initialized shield Sh.shield_accounts Sh.shield_guards Sh.deposit Sh.note_commitment
    Sh.handle is_canonical_field poseidon u64_be32 Tree.insert Tree.append
shielded = after initialized (shield toy_runtime initialized shield_keys npk 40 note)

unfoldable pub withdrawn : Chain toy_runtime
unfolding shielded transact Tx.transact_accounts Tx.load_accounts Tx.init_nullifier
    Tx.account_checks Tx.transact_guards Tx.check_proof Tx.spend Tx.pay Tx.insert_outputs Tx.handle
    Tree.contains_root verify public_amount_field
withdrawn = after shielded (transact toy_runtime shielded withdraw_keys withdraw_args)

pub init_runs : init_pool toy_runtime start init_keys domain ≡ ok initialized
unfolding initialized
init_runs = refl

pub shield_runs : shield toy_runtime initialized shield_keys npk 40 note ≡ ok shielded
unfolding shielded
shield_runs = refl

pub transact_runs : transact toy_runtime shielded withdraw_keys withdraw_args ≡ ok withdrawn
unfolding withdrawn
transact_runs = refl

-- The tokens end where they should.
amounts :
    (Option.map (λ (a : TokenAccount). a.amount) (withdrawn.tokens vault_key) ≡ some 30)
    × (Option.map (λ (a : TokenAccount). a.amount) (withdrawn.tokens depositor_ata) ≡ some 60)
    × (Option.map (λ (a : TokenAccount). a.amount) (withdrawn.tokens recipient_ata) ≡ some 10)
unfolding withdrawn
amounts = (refl, refl, refl)
