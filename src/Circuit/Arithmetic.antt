-- ===== src/Circuit/Arithmetic.antt =====
-- What the circuit's balance equation says of amounts.
use veil.Prelude.{ℕ, ◌+◌, ◌%◌, ◌<◌, ◌^◌, ◌≡◌, ltb_iff, ◌==◌, ==_iff, not, List, arith}
use veil.Prelude.Int.{ℤ, pos, ◌+ℤ◌, IsI64}
use veil.Prelude.Res.{ok, require, then_inv, require-eq-ok}
use veil.Bytes.{be_value}
use veil.Crypto.{Crypto, IsCrypto, modulus}
use veil.Program.Field.{public_amount_field}
use veil.Program.Field.Amount.{public_amount_conserves}
use veil.Circuit.{Inputs, assert_u64, check_input, check_output, check_sums, main}

pub reduce_sum : (a b : ℕ) → (a % modulus + b) % modulus ≡ (a + b) % modulus
reduce_sum a b = omega arith

module _ (hash : List ℕ → ℕ) where
  within_u64 : (n : ℕ) → assert_u64 n ≡ ok tt → n < 2 ^ 64
  within_u64 n e = (ltb_iff n (2 ^ 64)).0 (require-eq-ok _ "call to assert_max_bit_size" e)

  check_input_u64 :
      (root asset_id nullifier value random spending_key viewing_key leaf_index : ℕ)
      (siblings : List ℕ)
      → check_input hash root asset_id nullifier value random spending_key viewing_key leaf_index
          siblings
        ≡ ok tt
      → value < 2 ^ 64
  unfolding check_input
  check_input_u64 root asset_id nullifier value random spending_key viewing_key leaf_index siblings
        e =
      then_inv (assert_u64 value) _ e λ e0 h0. within_u64 value e0

  check_output_u64 :
      (asset_id out_commitment npk value : ℕ)
      → check_output hash asset_id out_commitment npk value ≡ ok tt
      → value < 2 ^ 64
  unfolding check_output
  check_output_u64 asset_id out_commitment npk value e =
      then_inv (assert_u64 value) _ e λ e0 h0. within_u64 value e0

  check_sums_eq :
      (x : Inputs) (sum_in sum_out : ℕ)
      → check_sums hash x sum_in sum_out ≡ ok tt
      → (sum_in + x.public_amount) % modulus ≡ sum_out
  unfolding check_sums
  check_sums_eq x sum_in sum_out e =
      then_inv (require ((sum_in + x.public_amount) % modulus == sum_out) "value not conserved") _ e
        λ e0 h0. (==_iff _ _).0 (require-eq-ok _ "value not conserved" e0)

  -- A proof creates no value: if the circuit accepts its inputs, and its public amount is the encoding of a
  -- signed 64-bit amount, then the input values with that amount are the output values, as integers.
  pub main_conserves :
      (c : Crypto) (C : IsCrypto c) (x : Inputs) (a : ℤ)
      → IsI64 a
      → x.public_amount ≡ be_value (public_amount_field c a)
      → main hash x ≡ ok tt
      → pos (x.in_values.0 + x.in_values.1) +ℤ a ≡ pos (x.out_values.0 + x.out_values.1)
  unfolding main
  main_conserves c C x a fits encoded e =
      then_inv
        (check_input hash x.root x.asset_id x.nullifiers.0 x.in_values.0 x.in_random.0
          x.spending_keys.0 x.viewing_keys.0 x.leaf_indices.0 x.siblings.0)
        _ e
        λ e0 h0.
          then_inv
            (check_input hash x.root x.asset_id x.nullifiers.1 x.in_values.1 x.in_random.1
              x.spending_keys.1 x.viewing_keys.1 x.leaf_indices.1 x.siblings.1)
            _ h0
            λ e1 h1.
              then_inv
                (require (not ((x.in_values.0 + x.in_values.1) % modulus == 0))
                  "transaction has no real input")
                _ h1
                λ e2 h2.
                  then_inv (require (not (x.nullifiers.0 == x.nullifiers.1)) "duplicate nullifier")
                    _ h2
                    λ e3 h3.
                      then_inv
                        (check_output hash x.asset_id x.out_commitments.0 x.out_npks.0
                          x.out_values.0)
                        _ h3
                        λ e4 h4.
                          then_inv
                            (check_output hash x.asset_id x.out_commitments.1 x.out_npks.1
                              x.out_values.1)
                            _ h4
                            λ e5 h5.
                              let in_0 =
                                check_input_u64 x.root x.asset_id x.nullifiers.0 x.in_values.0
                                  x.in_random.0 x.spending_keys.0 x.viewing_keys.0 x.leaf_indices.0
                                  x.siblings.0 e0 in
                              let in_1 =
                                check_input_u64 x.root x.asset_id x.nullifiers.1 x.in_values.1
                                  x.in_random.1 x.spending_keys.1 x.viewing_keys.1 x.leaf_indices.1
                                  x.siblings.1 e1 in
                              let out_0 =
                                check_output_u64 x.asset_id x.out_commitments.0 x.out_npks.0
                                  x.out_values.0 e4 in
                              let out_1 =
                                check_output_u64 x.asset_id x.out_commitments.1 x.out_npks.1
                                  x.out_values.1 e5 in
                              let balance = check_sums_eq x _ _ h5 in
                              (public_amount_conserves c C a (x.in_values.0 + x.in_values.1)
                                  (x.out_values.0 + x.out_values.1) fits (omega (arith, in_0, in_1))
                                  (omega (arith, out_0, out_1))).0
                                (rw
                                  (
                                    reduce_sum (x.in_values.0 + x.in_values.1) x.public_amount,
                                    encoded,
                                  )
                                  at balance)
