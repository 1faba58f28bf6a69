-- ===== src/Bytes.antt =====
-- Byte strings, and Rust's big-endian encodings of integers.
pub mod Laws
use mathlib.Core.List.{foldl}
use veil.Prelude.{
  ℕ, zero, suc, ◌+◌, ◌-◌, ◌*◌, ◌/◌, ◌%◌, ◌^◌, ◌<◌, ◌≡◌, ◌↔◌, Bool, true, false, List, [], ◌∷◌, ◌++◌,
  length, All, ite, ℕ_discrete, arith,
}
use Prim.Native.Char.{code}
use Prim.Native.String.{String}
use veil.Prelude.Int.{ℤ, pos, negsuc}

-- `[u8]`, `Vec<u8>`: each entry is below 256.
abbrev pub Bytes : Type 0
Bytes = List ℕ

abbrev pub IsByte : ℕ → Type 0
IsByte b = b < 256

-- The values of the array type `[u8; n]`.
pub record IsArray (n : ℕ) (bs : Bytes) : Type 0 where
  pub size : length bs ≡ n
  pub bytes : All IsByte bs

unfoldable pub Bytes_discrete : Discrete Bytes
unfolding ℕ_discrete
Bytes_discrete = hlevel ℕ_discrete

-- A byte string literal, `b"…"`, of ASCII characters.
abbrev pub ascii : String → Bytes
ascii String.[] = []
ascii (String.◌∷◌ c s) = code c ∷ ascii s

-- `==` on byte strings
abbrev pub bytes_eq : Bytes → Bytes → Bool
bytes_eq a b = ite (Bytes_discrete a b) true false

pub bytes_eq_iff : (a b : Bytes) → (bytes_eq a b ≡ true) ↔ (a ≡ b)
bytes_eq_iff a b = ground arith

-- `n.to_be_bytes()` for an unsigned integer of `w` bytes
unfoldable pub be_bytes : ℕ → ℕ → Bytes
be_bytes zero n = []
be_bytes (suc w) n = be_bytes w (n / 256) ++ n % 256 ∷ []

-- `n.to_be_bytes()` for an `i64`: two's complement
unfoldable pub i64_bytes : ℤ → Bytes
unfolding be_bytes
i64_bytes (pos n) = be_bytes 8 n
i64_bytes (negsuc n) = be_bytes 8 (2 ^ 64 - suc n)

-- The number that bytes stand for, the first the most significant.
unfoldable pub be_value_from : ℕ → Bytes → ℕ
be_value_from acc [] = acc
be_value_from acc (b ∷ bs) = be_value_from (acc * 256 + b) bs

unfoldable pub be_value : Bytes → ℕ
unfolding be_value_from
be_value bs = be_value_from 0 bs
