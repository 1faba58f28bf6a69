-- ===== src/Bytes/Laws.antt =====
-- Big-endian numbers: lengths, ranges and the round trips between numbers and bytes.
use native.Mathlib.Nat.{pow-suc, le_trans}
use veil.Prelude.{
  ℕ, zero, suc, ◌+◌, ◌-◌, ◌*◌, ◌/◌, ◌%◌, ◌^◌, ◌≤◌, ◌<◌, ◌≡◌, refl, [], ◌∷◌, ◌++◌, length, All,
  length-append, All-append, replicate, arith, ap, ◌∙◌, sym,
}
use veil.Prelude.Int.{ℤ, pos, negsuc, IsI64}
use veil.Bytes.{Bytes, IsByte, IsArray, be_bytes, i64_bytes, be_value_from, be_value}

pub length-be_bytes : (w n : ℕ) → length (be_bytes w n) ≡ w
unfolding be_bytes
length-be_bytes zero n = refl
length-be_bytes (suc w) n =
    omega (arith, length-append (be_bytes w (n / 256)) (n % 256 ∷ []), length-be_bytes w (n / 256))

be_bytes-IsByte : (w n : ℕ) → All IsByte (be_bytes w n)
unfolding be_bytes
be_bytes-IsByte zero n = tt
be_bytes-IsByte (suc w) n =
    All-append IsByte (be_bytes w (n / 256)) (n % 256 ∷ []) (be_bytes-IsByte w (n / 256))
      (omega arith)

pub be_bytes-IsArray : (w n : ℕ) → IsArray w (be_bytes w n)
be_bytes-IsArray w n = record { size = length-be_bytes w n; bytes = be_bytes-IsByte w n }

be_value_from-append :
    (acc : ℕ) (xs ys : Bytes)
    → be_value_from acc (xs ++ ys) ≡ be_value_from (be_value_from acc xs) ys
unfolding be_value_from
be_value_from-append acc [] ys = refl
be_value_from-append acc (x ∷ xs) ys = be_value_from-append (acc * 256 + x) xs ys

-- A number that fits comes back from its encoding.
pub be_value-be_bytes : (w n : ℕ) → n < 256 ^ w → be_value (be_bytes w n) ≡ n
unfolding be_value be_value_from be_bytes
be_value-be_bytes zero n h = omega arith
be_value-be_bytes (suc w) n h =
    be_value_from-append 0 (be_bytes w (n / 256)) (n % 256 ∷ [])
    ∙ omega (arith, be_value-be_bytes w (n / 256) (omega (arith, pow-suc 256 w)))

be_value_from-injective :
    (acc acc' : ℕ) (xs ys : Bytes)
    → length xs ≡ length ys
    → All IsByte xs
    → All IsByte ys
    → be_value_from acc xs ≡ be_value_from acc' ys
    → (acc ≡ acc') × (xs ≡ ys)
unfolding be_value_from
be_value_from-injective acc acc' [] [] l hx hy e = (e, refl)
be_value_from-injective acc acc' [] (y ∷ ys) l hx hy e = absurd (omega arith)
be_value_from-injective acc acc' (x ∷ xs) [] l hx hy e = absurd (omega arith)
be_value_from-injective acc acc' (x ∷ xs) (y ∷ ys) l hx hy e = ground (
  arith,
  be_value_from-injective (acc * 256 + x) (acc' * 256 + y) xs ys (omega arith) hx.1 hy.1 e,
)

-- Byte strings of one length that stand for one number are equal.
pub be_value-injective :
    (xs ys : Bytes)
    → length xs ≡ length ys
    → All IsByte xs
    → All IsByte ys
    → be_value xs ≡ be_value ys
    → xs ≡ ys
unfolding be_value
be_value-injective xs ys l hx hy e = (be_value_from-injective 0 0 xs ys l hx hy e).1

digit_step : (acc b m : ℕ) → b < 256 → (acc * 256 + b + 1) * m ≤ (acc + 1) * (m * 256)
digit_step acc b m h = grind arith

be_value_from-lt :
    (acc : ℕ) (bs : Bytes) → All IsByte bs → be_value_from acc bs < (acc + 1) * 256 ^ length bs
unfolding be_value_from
be_value_from-lt acc [] h = omega arith
be_value_from-lt acc (b ∷ bs) h =
    rw (pow-suc 256 (length bs))
      (le_trans (be_value_from-lt (acc * 256 + b) bs h.1) (digit_step acc b (256 ^ length bs) h.0))

pub be_value-lt : (bs : Bytes) → All IsByte bs → be_value bs < 256 ^ length bs
unfolding be_value
be_value-lt bs h = omega (arith, be_value_from-lt 0 bs h)

-- Encoding the number that an array stands for gives the array back.
pub be_bytes-be_value : (w : ℕ) (bs : Bytes) → IsArray w bs → be_bytes w (be_value bs) ≡ bs
be_bytes-be_value w bs h =
    be_value-injective _ _ (length-be_bytes w _ ∙ sym h.size) (be_bytes-IsByte w _) h.bytes
      (be_value-be_bytes w _ (rw (← h.size) (be_value-lt bs h.bytes)))

pub be_bytes-injective :
    (w m n : ℕ) → m < 256 ^ w → n < 256 ^ w → be_bytes w m ≡ be_bytes w n → m ≡ n
be_bytes-injective w m n hm hn e =
    sym (be_value-be_bytes w m hm) ∙ ap be_value e ∙ be_value-be_bytes w n hn

-- The two's complement bytes of an `i64` determine it.
pub i64_bytes-injective : (a b : ℤ) → IsI64 a → IsI64 b → i64_bytes a ≡ i64_bytes b → a ≡ b
unfolding i64_bytes
i64_bytes-injective (pos m) (pos n) ha hb e =
    ap pos (be_bytes-injective 8 m n (omega arith) (omega arith) e)
i64_bytes-injective (pos m) (negsuc n) ha hb e =
    ground (arith, be_bytes-injective 8 m (2 ^ 64 - suc n) (omega arith) (omega arith) e)
i64_bytes-injective (negsuc m) (pos n) ha hb e =
    ground (arith, be_bytes-injective 8 (2 ^ 64 - suc m) n (omega arith) (omega arith) e)
i64_bytes-injective (negsuc m) (negsuc n) ha hb e =
    ground
      (arith, be_bytes-injective 8 (2 ^ 64 - suc m) (2 ^ 64 - suc n) (omega arith) (omega arith) e)

-- A `u64` behind 24 zeros.
zero_bytes : All IsByte (replicate 24 0)
unfolding be_bytes
zero_bytes = be_bytes-IsByte 24 0

pub padded-IsArray : (n : ℕ) → IsArray 32 (replicate 24 0 ++ be_bytes 8 n)
padded-IsArray n = record {
  size = omega (arith, length-be_bytes 8 n);
  bytes = All-append IsByte (replicate 24 0) (be_bytes 8 n) zero_bytes (be_bytes-IsByte 8 n);
}

pub padded_value : (n : ℕ) → n < 2 ^ 64 → be_value (replicate 24 0 ++ be_bytes 8 n) ≡ n
unfolding be_value be_value_from
padded_value n h = be_value-be_bytes 8 n h

pub padded-eq : (n : ℕ) → n < 2 ^ 64 → replicate 24 0 ++ be_bytes 8 n ≡ be_bytes 32 n
padded-eq n h =
    sym (be_bytes-be_value 32 (replicate 24 0 ++ be_bytes 8 n) (padded-IsArray n))
    ∙ ap (be_bytes 32) (padded_value n h)
