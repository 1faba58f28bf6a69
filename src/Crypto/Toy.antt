-- ===== src/Crypto/Toy.antt =====
-- A `Crypto` that computes: the real scalar arithmetic, with sums of numbers in place of the hashes.
use mathlib.Core.List.{flatten, append-nil}
use native.Mathlib.Nat.{mod-lt}
use veil.Prelude.{ℕ, ◌+◌, ◌-◌, ◌*◌, ◌%◌, ◌^◌, ◌≡◌, refl, Option, some, List, [], ◌∷◌, arith}
use veil.Bytes.{Bytes, be_bytes, be_value}
use veil.Bytes.Laws.{be_bytes-IsArray, be_value-be_bytes}
use mathlib.Core.Option.{some-injective}
use veil.Crypto.{Crypto, IsCrypto, IsScalar, modulus}

unfoldable pub toy_sum : ℕ → List Bytes → ℕ
unfolding be_value
toy_sum acc [] = acc
toy_sum acc (x ∷ xs) = toy_sum ((acc * 7 + be_value x + 1) % modulus) xs

abbrev pub toy_poseidon : List Bytes → Option Bytes
toy_poseidon xs = some (be_bytes 32 (toy_sum 1 xs % modulus))

abbrev pub toy_keccak : List Bytes → Bytes
toy_keccak xs = be_bytes 32 (be_value (flatten xs) % 2 ^ 256)

abbrev pub toy : Crypto
toy = record {
  Fr = ℕ;
  from_be_bytes_mod_order = λ bs. be_value bs % modulus;
  to_bytes_be = λ n. be_bytes 32 (n % modulus);
  from_uint = λ n. n % modulus;
  neg = λ n. (modulus - n % modulus) % modulus;
  poseidon_hashv = toy_poseidon;
  keccak_hashv = toy_keccak;
}

toy-IsScalar : (n : ℕ) → IsScalar (be_bytes 32 (n % modulus))
toy-IsScalar n = record {
  array = be_bytes-IsArray 32 _;
  reduced = rw (be_value-be_bytes 32 (n % modulus) (omega arith)) (omega arith);
}

toy_poseidon-IsScalar : (xs : List Bytes) {h : Bytes} → toy_poseidon xs ≡ some h → IsScalar h
toy_poseidon-IsScalar xs {h} e = rw (some-injective _ _ e) at (toy-IsScalar (toy_sum 1 xs))

toy_neg : (n : ℕ) → (n % modulus + (modulus - n % modulus) % modulus % modulus) % modulus ≡ 0
toy_neg n = omega arith

flatten_singleton : (bs : Bytes) → flatten (bs ∷ []) ≡ bs
unfolding flatten
flatten_singleton bs = append-nil bs

pub toy-IsCrypto : IsCrypto toy
toy-IsCrypto = record {
  value = λ n. n % modulus;
  value-lt = λ n. mod-lt n (omega arith);
  value-from_be_bytes = λ bs. omega arith;
  value-from_uint = λ n. omega arith;
  value-neg = toy_neg;
  to_bytes_be-value = λ n. refl;
  poseidon-IsScalar = toy_poseidon-IsScalar;
  poseidon_accepts = λ xs lo hi ok. (be_bytes 32 (toy_sum 1 xs % modulus), refl);
  keccak_concat = λ xs. rw (flatten_singleton (flatten xs));
  keccak-IsArray = λ xs. be_bytes-IsArray 32 _;
}
