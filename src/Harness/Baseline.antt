-- ===== src/Harness/Baseline.antt =====
-- The transaction that the end-to-end tests begin with.
use veil.Prelude.{ℕ, ◌+◌, ◌*◌, ◌^◌, ◌<◌, ◌≡◌, refl, sym, ap, ◌∙◌, true, replicate, arith}
use veil.Prelude.Res.{ok, require-true}
use veil.Bytes.{Bytes, IsArray, be_value}
use veil.Bytes.Laws.{padded-IsArray, padded_value}
use veil.Crypto.{IsCrypto, IsScalar}
use veil.Program.Error.{pool_error, invalid_proof}
use veil.Program.Field.{is_canonical_field}
use veil.Program.Field.Canonical.{is_canonical_field_iff}
use veil.Program.Runtime.{Pubkey, Runtime}
use veil.Program.Transact.{TransactAccounts, TransactArgs, transact_guards}
use veil.Program.Transact.Guards.{IsAdmissible, transact_guards_iff}
use veil.Program.Verifier.{PublicInputs, verify}
use veil.Harness.{
  Transaction, Fixture, field, success_proof, process_instruction, fixture_transaction,
}

field-IsArray : (n : ℕ) → IsArray 32 (field n)
unfolding field
field-IsArray = padded-IsArray

field_value : (n : ℕ) → n < 2 ^ 64 → be_value (field n) ≡ n
unfolding field
field_value = padded_value

field-injective : (m n : ℕ) → m < 2 ^ 64 → n < 2 ^ 64 → field m ≡ field n → m ≡ n
field-injective m n hm hn e = sym (field_value m hm) ∙ ap be_value e ∙ field_value n hn

zero_only : (n : ℕ) → n < 2 ^ 64 → field n ≡ replicate 32 0 → n ≡ 0
unfolding be_value
zero_only n h e = sym (field_value n h) ∙ ap be_value e

-- The arguments of a transaction, as the program has them.
abbrev program_args : Transaction → TransactArgs
program_args tx = record {
  proof = tx.proof;
  root = tx.root;
  nullifiers = tx.nullifiers;
  out_commitments = tx.out_commitments;
  ext_amount = tx.amount;
  ext_data = record { recipient = tx.recipient; encrypted_notes = tx.encrypted_notes };
}

module _ (r : Runtime) (C : IsCrypto r.crypto) where
  canonical : (n : ℕ) → n < 2 ^ 64 → is_canonical_field r.crypto (field n) ≡ true
  canonical n h =
      (is_canonical_field_iff r.crypto C (field n) (field-IsArray n)).1
        (rw (field_value n h) (omega (arith, h)))

  -- The guards let the transaction of any number other than zero through, if the numbers made from it fit a
  -- `u64` and the root is a canonical field element, whatever the accounts are; and a verifier that decides
  -- as the mock verifier does accepts its proof for any public inputs.
  fixture_transaction-passes :
      (f : Fixture) (root : Bytes) (unique : ℕ) (k : TransactAccounts) (p : PublicInputs)
      (verifier : Pubkey)
      → 0 < unique
      → unique * 2 + 1001 < 2 ^ 64
      → IsScalar root
      → ((bytes : Bytes) → r.invoke verifier bytes ≡ process_instruction bytes)
      → (transact_guards r k (program_args (fixture_transaction f root unique)) ≡ ok tt)
        × (verify r p verifier (fixture_transaction f root unique).proof ≡ ok tt)
  unfolding fixture_transaction success_proof verify process_instruction
  fixture_transaction-passes f root unique k p verifier positive fits scalar mock =
      let admissible : IsAdmissible r k (program_args (fixture_transaction f root unique)) =
        record {
          no_deposit = refl;
          proof_size = refl;
          root_canonical = (is_canonical_field_iff r.crypto C root scalar.array).1 scalar.reduced;
          nullifier_0_canonical = canonical (unique * 2) (omega (arith, fits));
          nullifier_1_canonical = canonical (unique * 2 + 1) (omega (arith, fits));
          commitment_0_canonical = canonical (unique * 2 + 1000) (omega (arith, fits));
          commitment_1_canonical = canonical (unique * 2 + 1001) fits;
          nullifier_0_nonzero =
              λ e. absurd (omega (arith, positive, zero_only (unique * 2) (omega (arith, fits)) e));
          nullifier_1_nonzero =
              λ e. absurd (omega (arith, zero_only (unique * 2 + 1) (omega (arith, fits)) e));
          distinct = λ e. absurd (
              omega (
                arith,
                field-injective (unique * 2) (unique * 2 + 1) (omega (arith, fits))
                    (omega (arith, fits)) e,
              ));
          note_0_fits = omega arith;
          note_1_fits = omega arith;
          to_another = λ neg. absurd (cc);
        } in
      (
        (transact_guards_iff r k (program_args (fixture_transaction f root unique))).1 admissible,
        require-true _ (pool_error invalid_proof) (mock _),
      )
