-- ===== src/Sdk/Error.antt =====
-- crates/veil402-sdk/src/client/error.rs.
use Prim.Native.String.{String}
use veil.Prelude.Res.{Result}

-- `out_of_fuel` is no error of the client: it says that the fuel of a loop of the model has run out.
pub data Error : Type 0 where
  field random poseidon witness timeout out_of_fuel : Error
  transaction withdrawal artifacts prover : String → Error

abbrev pub Res {ℓ} : Type ℓ → Type ℓ
Res A = Result Error A
