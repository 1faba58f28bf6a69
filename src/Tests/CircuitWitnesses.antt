-- ===== src/Tests/CircuitWitnesses.antt =====
-- The theorems on the circuit at a planned withdrawal.
use mathlib.Core.Option.{some-injective}
use veil.Prelude.{ℕ, ◌+◌, ◌*◌, ◌%◌, ◌≡◌, refl, sym, ap, ◌∙◌, some, List, [], ◌∷◌, map, arith}
use veil.Prelude.Int.{pos, negsuc, ◌+ℤ◌}
use veil.Prelude.Res.{ok}
use veil.Bytes.{Bytes, be_value}
use veil.Bytes.Laws.{be_value-be_bytes}
use veil.Crypto.{modulus}
use veil.Crypto.Toy.{toy, toy-IsCrypto, toy_sum}
use veil.Program.Field as Program
use veil.Sdk.Field as F
use mathlib.Core.List.{flatten}
use veil.Sdk.Proving.Witness.{Noir, input_map}
use veil.Circuit.{Inputs, main}
use veil.Circuit.Assignment.{IsReducing, assigned, parameters}
use veil.Circuit.Encoding.{IsPoseidon}
use veil.Circuit.Completeness.{IsTyped, values-main, assigned_passes}
use veil.Circuit.Arithmetic.{main_conserves}
use veil.Tests.Client.{planned, plan_run, public, values_run}

-- The hash of `toy`, on numbers.
unfoldable number_sum : ℕ → List ℕ → ℕ
number_sum acc [] = acc
number_sum acc (n ∷ ns) = number_sum ((acc * 7 + n + 1) % modulus) ns

abbrev toy_hash : List ℕ → ℕ
toy_hash ns = number_sum 1 ns % modulus

number_sum-map : (acc : ℕ) (xs : List Bytes) → number_sum acc (map be_value xs) ≡ toy_sum acc xs
unfolding number_sum toy_sum
number_sum-map acc [] = refl
number_sum-map acc (x ∷ xs) = number_sum-map ((acc * 7 + be_value x + 1) % modulus) xs

toy_hash_agrees :
    (xs : List Bytes) (h : Bytes)
    → toy.poseidon_hashv xs ≡ some h
    → toy_hash (map be_value xs) ≡ be_value h
toy_hash_agrees xs h e =
    ap (λ (n : ℕ). n % modulus) (number_sum-map 1 xs)
    ∙ sym (be_value-be_bytes 32 (toy_sum 1 xs % modulus) (omega arith))
    ∙ ap be_value (some-injective _ _ e)

toy-IsPoseidon : IsPoseidon toy toy_hash
toy-IsPoseidon = record { agrees = toy_hash_agrees }

planned-IsTyped : IsTyped planned public
unfolding plan_run public
planned-IsTyped = record {
  in_0 = omega arith;
  in_1 = omega arith;
  out_0 = omega arith;
  out_1 = omega arith;
  amount = omega arith;
  asset_0 = refl;
  asset_1 = refl;
}

-- Numbers for the elements of the field, and lists of them for the values of the parameters.
abbrev number_noir : Noir ℕ
number_noir = record {
  Element = ℕ;
  InputValue = List ℕ;
  WitnessMap = List (Bytes × List ℕ);
  WitnessStack = List (Bytes × List ℕ);
  from_be_bytes_reduce = λ bs. be_value bs % modulus;
  field = λ e. e ∷ [];
  vec = flatten;
  encode = λ p inputs. some inputs;
  execute_program = λ p inputs. some inputs;
  serialize = λ stack. some (1 ∷ 2 ∷ []);
}

abbrev number_noir-IsReducing : IsReducing number_noir
number_noir-IsReducing = record { element = λ k. k % modulus; reduces = λ bs. refl }

-- The circuit accepts the planned withdrawal.
accepted : main toy_hash (assigned toy planned values_run.0) ≡ ok tt
accepted =
    assigned_passes toy toy-IsCrypto toy_hash toy-IsPoseidon planned public values_run.0
      planned-IsTyped values_run.1

values-main_example :
    (x : Inputs) × (input_map toy number_noir planned values_run.0
      ≡ parameters number_noir number_noir-IsReducing x)
    × (main toy_hash x ≡ ok tt)
values-main_example =
    values-main toy toy-IsCrypto toy_hash toy-IsPoseidon number_noir number_noir-IsReducing planned
      public values_run.0 planned-IsTyped values_run.1

abbrev inputs : ℕ × ℕ
inputs = (assigned toy planned values_run.0).in_values

abbrev outputs : ℕ × ℕ
outputs = (assigned toy planned values_run.0).out_values

main_conserves_example : pos (inputs.0 + inputs.1) +ℤ negsuc 9 ≡ pos (outputs.0 + outputs.1)
unfolding values_run F.from_signed F.from_fr F.field_bytes Program.public_amount_field
main_conserves_example =
    main_conserves toy_hash toy toy-IsCrypto (assigned toy planned values_run.0) (negsuc 9)
      (omega arith) refl accepted
