-- ===== src/Tests/Planning.antt =====
-- The planning of the payment of Client with a random source and a Poseidon that are constant.
use mathlib.Core.Option.{some-injective}
use mathlib.Core.Path.{subst}
use veil.Prelude.{ℕ, zero, ◌+◌, ◌%◌, ◌^◌, suc, ◌≡◌, ◌≢◌, ◌↔◌, refl, false, some, arith}
use veil.Prelude.Res.{ok}
use veil.Bytes.{bytes_eq, bytes_eq_iff, be_bytes, be_value, Bytes_discrete}
use veil.Crypto.{Crypto, IsCrypto, IsScalar}
use veil.Crypto.Toy.{toy, toy-IsCrypto}
use veil.Program.Field.Canonical.{be_bytes-IsScalar}
use veil.Sdk.Field as F
use veil.Sdk.Field.{Field, Rng, zero_field}
use veil.Sdk.Field.Random.{Draws, accepted}
use veil.Sdk.Note as N
use veil.Sdk.Note.{Owner, nullifier}
use veil.Sdk.Transaction.{Plan, plan}
use veil.Sdk.Transaction.Draws.{DrawsMany, nothing, another, Pass, fresh, IsLively}
use veil.Sdk.Transaction.Termination.{IsPlannable, plan_iff}
use veil.Tests.Client.{payment_request, pool_run}

abbrev one : Field
one = be_bytes 32 1

abbrev constant : Crypto
constant = record toy { poseidon_hashv = λ xs. some one }

one-IsScalar : IsScalar one
one-IsScalar = be_bytes-IsScalar 1 (omega arith)

constant-IsCrypto : IsCrypto constant
constant-IsCrypto = record {
  value = toy-IsCrypto.value;
  value-lt = toy-IsCrypto.value-lt;
  value-from_be_bytes = toy-IsCrypto.value-from_be_bytes;
  value-from_uint = toy-IsCrypto.value-from_uint;
  value-neg = toy-IsCrypto.value-neg;
  to_bytes_be-value = toy-IsCrypto.to_bytes_be-value;
  poseidon-IsScalar = λ xs e. rw (some-injective _ _ e) at one-IsScalar;
  poseidon_accepts = λ xs lo hi scalars. (one, refl);
  keccak_concat = toy-IsCrypto.keccak_concat;
  keccak-IsArray = toy-IsCrypto.keccak-IsArray;
}

abbrev ones : Rng
ones = record { State = ℕ; try_fill_bytes = λ n s. some (be_bytes n 1, suc s) }

differs : bytes_eq one zero_field ≡ false
unfolding Bytes_discrete be_bytes
differs = refl

one_nonzero : one ≢ zero_field
one_nonzero e = absurd (cc ((bytes_eq_iff one zero_field).1 e, differs))

nullifier_one : (owner : Owner) (index : ℕ) → nullifier constant owner index ≡ ok one
unfolding nullifier N.nullifier_key N.poseidon F.from_bytes F.parse_field F.field_bytes be_value
    Bytes_discrete be_bytes
nullifier_one owner index = refl

ones-Draws : (s : ℕ) → Draws ones 1 s one (suc s)
ones-Draws s = accepted s (suc s) one refl one-IsScalar one_nonzero

ones-DrawsMany : (n s : ℕ) → DrawsMany ones 1 n s (n + s)
ones-DrawsMany zero s = subst (λ k. DrawsMany ones 1 zero s k) (omega arith) (nothing s)
ones-DrawsMany (suc n) s =
    subst (λ k. DrawsMany ones 1 (suc n) s k) (omega arith)
      (another n 1 s (suc s) (n + suc s) one (omega arith) (ones-Draws s)
        (ones-DrawsMany n (suc s)))

ones-Pass : (s : ℕ) → Pass constant ones 1 s (s + 24) one
ones-Pass s = record {
  bytes = be_bytes 4 1;
  index_drawn = suc s;
  siblings_drawn = 20 + suc s;
  blind_drawn = suc (20 + suc s);
  spend_drawn = suc (suc (20 + suc s));
  blind = one;
  spend = one;
  view = one;
  counts = (1, 1, 1);
  few = (omega arith, omega arith, omega arith);
  index = refl;
  siblings = ones-DrawsMany 20 (suc s);
  draws_blind = ones-Draws (20 + suc s);
  draws_spend = ones-Draws (suc (20 + suc s));
  draws_view =
      subst (λ k. Draws ones 1 (suc (suc (20 + suc s))) one k) (omega arith)
        (ones-Draws (suc (suc (20 + suc s))));
  derived = nullifier_one (record { spend = one; view = one }) (be_value (be_bytes 4 1) % 2 ^ 20);
}

lively : IsLively constant ones 1
lively = record {
  fills = λ n s. (be_bytes n 1, suc s, refl);
  scalar_within = λ s. (1, one, suc s, omega arith, ones-Draws s);
  fresh_within = λ s. (1, omega arith, fresh s (s + 24) one (ones-Pass s) one_nonzero);
}

plan_iff_example :
    ((p : Plan) × (s' : ℕ) × (plan constant ones 2 payment_request pool_run.0.asset 0 ≡ ok (p, s')))
    ↔ IsPlannable payment_request pool_run.0.asset
plan_iff_example =
    plan_iff constant constant-IsCrypto ones 1 lively 2 payment_request pool_run.0.asset 0
      (omega arith)

payment-IsPlannable : IsPlannable payment_request pool_run.0.asset
unfolding payment_request
payment-IsPlannable = record {
  same_asset = (refl, tt);
  few_spends = omega arith;
  few_sends = omega arith;
}
