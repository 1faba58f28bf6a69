-- ===== src/Program/Transact/Guards.antt =====
-- The guards of `transact` on its arguments, and what they admit.
use veil.Prelude.{
  ℕ, ◌≤◌, ◌≡◌, ◌≢◌, ◌↔◌, Bool, true, not, ◌&&◌, ◌==◌, leb, length, replicate, if◌then◌else◌, arith,
  ==_iff,
}
use veil.Prelude.Int.{ℤ, pos_part, is_negative}
use veil.Prelude.Res.{ok, then_inv, then_ok, require, require-true, require-eq-ok}
use veil.Bytes.{Bytes, bytes_eq}
use veil.Program.Error.{
  pool_error, ext_amount_must_be_non_positive, invalid_proof_length, invalid_field, zero_nullifier,
  duplicate_nullifier, note_too_large, self_transfer,
}
use veil.Program.Field.{is_canonical_field}
use veil.Program.Runtime.{Runtime}
use veil.Program.State.{proof_bytes}
use veil.Program.Transact.{TransactAccounts, TransactArgs, nonpositive, transact_guards}

abbrev pub zero_field : Bytes
zero_field = replicate 32 0

-- The arguments that pass.
pub record IsAdmissible (r : Runtime) (k : TransactAccounts) (x : TransactArgs) : Type 0 where
  pub no_deposit : pos_part x.ext_amount ≡ 0
  pub proof_size : length x.proof ≡ 388
  pub root_canonical : is_canonical_field r.crypto x.root ≡ true
  pub nullifier_0_canonical : is_canonical_field r.crypto x.nullifiers.0 ≡ true
  pub nullifier_1_canonical : is_canonical_field r.crypto x.nullifiers.1 ≡ true
  pub commitment_0_canonical : is_canonical_field r.crypto x.out_commitments.0 ≡ true
  pub commitment_1_canonical : is_canonical_field r.crypto x.out_commitments.1 ≡ true
  pub nullifier_0_nonzero : x.nullifiers.0 ≢ zero_field
  pub nullifier_1_nonzero : x.nullifiers.1 ≢ zero_field
  pub distinct : x.nullifiers.0 ≢ x.nullifiers.1
  pub note_0_fits : length x.ext_data.encrypted_notes.0 ≤ 128
  pub note_1_fits : length x.ext_data.encrypted_notes.1 ≤ 128
  pub to_another : is_negative x.ext_amount ≡ true → k.recipient_ata ≢ k.vault

and_iff : (a b : Bool) → ((a && b) ≡ true) ↔ ((a ≡ true) × (b ≡ true))
and_iff a b = ground arith

not_eq_iff : (a b : Bytes) → (not (bytes_eq a b) ≡ true) ↔ (a ≢ b)
not_eq_iff a b = ground arith

nonpositive_iff : (a : ℤ) → (nonpositive a ≡ true) ↔ (pos_part a ≡ 0)
nonpositive_iff a = ground arith

leb_iff : (m n : ℕ) → (leb m n ≡ true) ↔ (m ≤ n)
leb_iff m n = ground arith

guarded_iff : (b c : Bool) → ((if b then c else true) ≡ true) ↔ (b ≡ true → c ≡ true)
guarded_iff b c = ground arith

module _ (r : Runtime) (k : TransactAccounts) (x : TransactArgs) where
  sound : transact_guards r k x ≡ ok tt → IsAdmissible r k x
  unfolding transact_guards
  sound e =
      then_inv (require (nonpositive x.ext_amount) (pool_error ext_amount_must_be_non_positive)) _ e
        λ e0 h0.
          then_inv (require (length x.proof == proof_bytes) (pool_error invalid_proof_length)) _ h0
            λ e1 h1. then_inv (require _ (pool_error invalid_field)) _ h1 λ e2 h2.
              then_inv (require _ (pool_error zero_nullifier)) _ h2 λ e3 h3.
                then_inv (require _ (pool_error duplicate_nullifier)) _ h3 λ e4 h4.
                  then_inv (require _ (pool_error note_too_large)) _ h4 λ e5 h5.
                    let (root, fields) = (and_iff _ _).0 (require-eq-ok _ _ e2) in
                    let (ns, cs) = (and_iff _ _).0 fields in
                    let (n0, n1) = (and_iff _ _).0 ns in
                    let (c0, c1) = (and_iff _ _).0 cs in
                    let (z0, z1) = (and_iff _ _).0 (require-eq-ok _ _ e3) in
                    let (l0, l1) = (and_iff _ _).0 (require-eq-ok _ _ e5) in
                    record {
                      no_deposit = (nonpositive_iff x.ext_amount).0 (require-eq-ok _ _ e0);
                      proof_size = (==_iff _ _).0 (require-eq-ok _ _ e1);
                      root_canonical = root;
                      nullifier_0_canonical = n0;
                      nullifier_1_canonical = n1;
                      commitment_0_canonical = c0;
                      commitment_1_canonical = c1;
                      nullifier_0_nonzero = (not_eq_iff _ _).0 z0;
                      nullifier_1_nonzero = (not_eq_iff _ _).0 z1;
                      distinct = (not_eq_iff _ _).0 (require-eq-ok _ _ e4);
                      note_0_fits = (leb_iff _ _).0 l0;
                      note_1_fits = (leb_iff _ _).0 l1;
                      to_another = λ neg.
                          (not_eq_iff _ _).0 ((guarded_iff _ _).0 (require-eq-ok _ _ h5) neg);
                    }

  complete : IsAdmissible r k x → transact_guards r k x ≡ ok tt
  unfolding transact_guards
  complete v =
      then_ok (require (nonpositive x.ext_amount) _) _
        (require-true _ (pool_error ext_amount_must_be_non_positive)
          ((nonpositive_iff x.ext_amount).1 v.no_deposit))
        (then_ok (require _ _) _
          (require-true _ (pool_error invalid_proof_length) ((==_iff _ _).1 v.proof_size))
          (then_ok (require _ _) _
            (require-true _ (pool_error invalid_field) (
              (and_iff _ _).1 (
                v.root_canonical,
                (and_iff _ _).1 (
                  (and_iff _ _).1 (v.nullifier_0_canonical, v.nullifier_1_canonical),
                  (and_iff _ _).1 (v.commitment_0_canonical, v.commitment_1_canonical),
                ),
              )))
            (then_ok (require _ _) _
              (require-true _ (pool_error zero_nullifier) (
                (and_iff _ _).1 (
                  (not_eq_iff _ _).1 v.nullifier_0_nonzero,
                  (not_eq_iff _ _).1 v.nullifier_1_nonzero,
                )))
              (then_ok (require _ _) _
                (require-true _ (pool_error duplicate_nullifier) ((not_eq_iff _ _).1 v.distinct))
                (then_ok (require _ _) _
                  (require-true _ (pool_error note_too_large) (
                    (and_iff _ _).1 ((leb_iff _ _).1 v.note_0_fits, (leb_iff _ _).1 v.note_1_fits)))
                  (require-true _ (pool_error self_transfer)
                    ((guarded_iff _ _).1 (λ neg. (not_eq_iff _ _).1 (v.to_another neg)))))))))

  -- The guards pass exactly the admissible arguments: no deposit, a proof of 388 bytes, canonical
  -- root, nullifiers and commitments, two different nullifiers other than zero, notes of at most 128
  -- bytes, and a withdrawal to an account other than the vault.
  pub transact_guards_iff : (transact_guards r k x ≡ ok tt) ↔ IsAdmissible r k x
  transact_guards_iff = (sound, complete)
