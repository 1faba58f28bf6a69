-- ===== src/Program/Error.antt =====
-- onchain/programs/pool/src/error.rs, and the failures that come from outside the program's own code.
use veil.Prelude.Res.{Result}

pub data PoolError : Type 0 where
  tree_error unknown_root wrong_verifier invalid_proof insufficient_vault recipient_mismatch
        ext_amount_must_be_non_positive note_too_large zero_amount invalid_proof_length
        invalid_field zero_nullifier duplicate_nullifier self_transfer unauthorized_initializer :
      PoolError

-- `invalid_argument` is `ProgramError::InvalidArgument`; `constraint` is a failed account constraint
-- that names no error of the program; `account_in_use` is an `init` of an address that is taken;
-- `token_failed` is an error of the token program.
pub data Error : Type 0 where
  pool_error : PoolError → Error
  invalid_argument constraint account_in_use token_failed : Error

abbrev pub Res {ℓ} : Type ℓ → Type ℓ
Res A = Result Error A
