-- ===== src/Tests/Execution.antt =====
-- The withdrawal of Proving on a chain where the pool is deployed and the recipient has a token account.
use veil.Prelude.{
  ◌≡◌, ◌≢◌, refl, false, none, some, [], ◌++◌, replicate, if◌then◌else◌, arith, length,
}
use veil.Prelude.Res.{ok}
use veil.Bytes.{Bytes, bytes_eq, bytes_eq_iff, Bytes_discrete}
use veil.Crypto.Toy.{toy_sum}
use veil.Program.Runtime.{TokenAccount}
use veil.Program.Runtime.Laws.{IsRuntime}
use veil.Program.State as State
use veil.Program.State.{Chain, program_id}
use veil.Program.Tree as Tree
use veil.Sdk.Field as F
use veil.Sdk.Note as N
use veil.Sdk.Solana as S
use veil.Sdk.Solana.{Pool, Withdrawal, new_pool, new_withdrawal}
use veil.Sdk.Agreement.Deployed.{IsDeployed, IsPayable, IsFresh}
use veil.Sdk.Agreement.Executed.{Executed, withdraw-transact}
use veil.Tests.Runtime.{toy_runtime-IsRuntime, toy_tree-IsTreeLib}
use veil.Tests.Client.{mint, recipient, domain, payment_request, pool_run}
use veil.Tests.ProvingWitnesses.{own_vault, empty-IsReady}
use veil.Tests.Proving.{
  toy_platform, toy_veil, naming_runtime, frames, named_pool, asked, withdraw_run,
}

abbrev pub naming_runtime-IsRuntime : IsRuntime naming_runtime
naming_runtime-IsRuntime = record {
  is_crypto = toy_runtime-IsRuntime.is_crypto;
  is_tree = record {
    leaves = toy_tree-IsTreeLib.leaves;
    height = toy_tree-IsTreeLib.height;
    opens = toy_tree-IsTreeLib.opens;
    opens_as = toy_tree-IsTreeLib.opens_as;
    same_view = toy_tree-IsTreeLib.same_view;
    initial = toy_tree-IsTreeLib.initial;
    next_index_lem = toy_tree-IsTreeLib.next_index_lem;
    append_leaves = toy_tree-IsTreeLib.append_leaves;
    append_full = toy_tree-IsTreeLib.append_full;
    append_room = toy_tree-IsTreeLib.append_room;
  };
  is_token = toy_runtime-IsRuntime.is_token;
  bump_recreates = toy_runtime-IsRuntime.bump_recreates;
}

pub named_new : new_pool naming_runtime program_id (replicate 32 3) mint domain ≡ ok named_pool
unfolding named_pool pool_run new_pool S.asset F.from_bytes F.parse_field F.field_bytes N.poseidon
    toy_sum F.from_raw_u64 Bytes_discrete
named_new = refl

abbrev pool_state : State.Pool
pool_state = record {
  verifier = replicate 32 3;
  asset = record { mint = mint; id = [] };
  domain = domain;
  bump = 255;
}

abbrev vault_account : TokenAccount
vault_account = record { mint = mint; owner = named_pool.address; amount = 40 }

abbrev recipient_account : TokenAccount
recipient_account = record { mint = mint; owner = recipient; amount = 0 }

abbrev pub the_chain : Chain naming_runtime
the_chain = record {
  pools = λ key. if bytes_eq key named_pool.address then some pool_state else none;
  trees = λ key.
      if bytes_eq key named_pool.tree then some (record { height = 20; leaves = [] }) else none;
  nullifiers = λ key. none;
  tokens = λ key.
      if bytes_eq key named_pool.vault
      then some vault_account
      else if bytes_eq key (mint ++ recipient)
      then some recipient_account
      else none;
  mints = λ key. if bytes_eq key mint then some (record { decimals = 6 }) else none;
  programs = λ key. bytes_eq key (replicate 32 3);
  program_data = λ key. none;
  programdata_address = λ key. none;
  others = λ key. false;
  events = [];
}

pub chain-IsDeployed : IsDeployed naming_runtime the_chain named_pool
unfolding named_pool pool_run toy_sum Bytes_discrete
chain-IsDeployed = record {
  state = pool_state;
  vault = vault_account;
  mint = record { decimals = 6 };
  pool_found = refl;
  same_verifier = refl;
  same_domain = refl;
  same_mint = refl;
  bump = refl;
  vault_found = refl;
  vault_mint = refl;
  vault_owner = refl;
  mint_found = refl;
  executable = refl;
}

chain-IsPayable : IsPayable naming_runtime the_chain named_pool chain-IsDeployed recipient 10
unfolding chain-IsDeployed named_pool pool_run toy_sum Bytes_discrete
chain-IsPayable = record {
  ata = recipient_account;
  after = _;
  ata_found = refl;
  ata_mint = refl;
  ata_owner = refl;
  covered = omega arith;
  moved = refl;
}

pub differ : (a b : Bytes) → bytes_eq a b ≡ false → a ≢ b
differ a b e same = absurd (cc ((bytes_eq_iff a b).1 same, e))

chain-IsFresh :
    IsFresh naming_runtime naming_runtime-IsRuntime the_chain named_pool withdraw_run.0.proof.bytes
      withdraw_run.0.proof.public
unfolding named_pool pool_run toy_sum Bytes_discrete withdraw_run payment_request frames
    Tree.contains_root
chain-IsFresh = record {
  room = record {
    account = record { height = 20; leaves = [] };
    tree = record { height = 20; leaves = [] };
    found = refl;
    opened = refl;
    room = omega (arith, toy_tree-IsTreeLib.next_index_lem (record { height = 20; leaves = [] }));
  };
  known = refl;
  free_0 = refl;
  free_1 = refl;
  apart = differ _ _ refl;
  verified = refl;
}

accepted : new_withdrawal recipient 10 ≡ ok asked
unfolding new_withdrawal
accepted = refl

full_proof : length withdraw_run.0.proof.bytes ≡ 388
unfolding withdraw_run frames
full_proof = refl

withdraw-transact_example :
    Executed toy_platform naming_runtime-IsRuntime the_chain named_pool recipient 10 withdraw_run.0
withdraw-transact_example =
    withdraw-transact toy_platform naming_runtime-IsRuntime (replicate 32 3) mint domain named_pool
      recipient 10 asked 3 toy_veil none payment_request (replicate 32 15) 0 frames withdraw_run.0
      the_chain named_new accepted empty-IsReady own_vault withdraw_run.1 full_proof
      chain-IsDeployed chain-IsPayable chain-IsFresh
