-- ===== src/Sdk/Transaction.antt =====
-- crates/veil402-sdk/src/protocol/transaction.rs: transactions, plans, and the values of a plan.
pub mod Statement
pub mod Completeness
pub mod Padding
pub mod Draws
pub mod Termination
use veil.Prelude.{
  ℕ, zero, suc, ◌+◌, ◌-◌, ◌*◌, ◌%◌, ◌^◌, ◌==◌, Bool, true, false, not, ◌&&◌, ◌||◌, Option, none,
  some, List, [], ◌∷◌, ◌++◌, length, take, drop, replicate, any, ltb, leb, if◌then◌else◌,
}
use veil.Prelude.Int.{ℤ, pos, pos_part, neg_part, ◌+ℤ◌}
use veil.Prelude.Res.{ok, err, ok_or, require, ◌>>=◌, ◌>>◌}
use veil.Bytes.{Bytes, bytes_eq, be_value}
use veil.Crypto.{Crypto}
use veil.Sdk.Error as Error
use veil.Sdk.Error.{Res, transaction, out_of_fuel}
use veil.Sdk.Field.{Field, Rng, zero_field, from_signed, random}
use veil.Sdk.Note.{
  Owner, Note, Send, nullifier, commitment, merkle_root, send_public_key, commitment_from_key,
  random_owner, dummy_send,
}

abbrev pub slots : ℕ
slots = 2

abbrev pub tree_depth : ℕ
tree_depth = 20

pub record MerklePath : Type 0 where
  pub index : ℕ
  pub siblings : List Field

pub record Spend : Type 0 where
  pub note : Note
  pub owner : Owner
  pub merkle : MerklePath

pub record Transaction : Type 0 where
  pub spends : List Spend
  pub sends : List Send

unfoldable pub new_transaction : List Spend → List Send → Res Transaction
new_transaction inputs outputs = do
  require (leb 1 (length inputs) && leb (length inputs) slots)
      (transaction "transaction requires one or two spends")
  require (leb (length outputs) slots) (transaction "transaction supports at most two sends")
  require (not (any (λ (spend : Spend). spend.note.value == 0) inputs))
      (transaction "spend value must be greater than zero")
  ok (record { spends = inputs; sends = outputs })

pub record PublicInputs : Type 0 where
  pub root : Field
  pub nullifiers : Field × Field
  pub commitments : Field × Field
  pub amount : Field
  pub hash : Field

unfoldable pub fields : PublicInputs → List Field
fields p =
    p.root ∷ p.nullifiers.0 ∷ p.nullifiers.1 ∷ p.commitments.0 ∷ p.commitments.1 ∷ p.amount ∷ p.hash
    ∷ []

-- `bytes[start..start + 32].copy_from_slice(field)` in the loop, from an offset on.
unfoldable pub write_fields : ℕ → List Field → Bytes → Bytes
write_fields offset [] bytes = bytes
write_fields offset (field ∷ rest) bytes =
    let start = 12 + offset * 32 in
    write_fields (suc offset) rest (take start bytes ++ field ++ drop (start + 32) bytes)

unfoldable pub witness_bytes : PublicInputs → Bytes
unfolding write_fields fields
witness_bytes p =
    let header = 0 ∷ 0 ∷ 0 ∷ 7 ∷ 0 ∷ 0 ∷ 0 ∷ 0 ∷ 0 ∷ 0 ∷ 0 ∷ 7 ∷ [] in
    write_fields 0 (fields p) (header ++ drop 12 (replicate 236 0))

-- The amount and the external data hash of a transaction.
pub record Public : Type 0 where
  pub amount : ℤ
  pub hash : Field

pub record Plan : Type 0 where
  pub spends : Spend × Spend
  pub sends : Send × Send
  pub asset : Field

pub record Values : Type 0 where
  pub public : PublicInputs
  pub output_keys : Field × Field

abbrev pub encrypted : Plan → Bytes × Bytes
encrypted plan = (plan.sends.0.encrypted, plan.sends.1.encrypted)

-- `root.replace(candidate).is_some_and(|current| current != candidate)`, negated
abbrev pub agrees : Option Field → Field → Bool
agrees none candidate = true
agrees (some current) candidate = bytes_eq current candidate

-- `==` on `i128`
abbrev pub int_eq : ℤ → ℤ → Bool
int_eq a b = pos_part a + neg_part b == pos_part b + neg_part a

module _ (c : Crypto) where
  -- A spend of a zero value proves no membership.
  unfoldable pub join_root : Option Field → Spend → Res (Option Field)
  join_root root spend = if spend.note.value == 0 then ok root else (do
    leaf ← commitment c spend.note spend.owner
    candidate ← merkle_root c leaf spend.merkle.index spend.merkle.siblings
    require (agrees root candidate) (transaction "spends do not share a Merkle root")
    ok (some candidate))

  -- One pass of the loop over the spends: the nullifier, and the root so far.
  unfoldable pub check_spend : Option Field → Spend → Res (Field × Option Field)
  unfolding join_root
  check_spend root spend = do
    require (ltb spend.merkle.index (2 ^ tree_depth))
        (transaction "leaf index exceeds tree capacity")
    n ← nullifier c spend.owner spend.merkle.index
    require (not (bytes_eq n zero_field)) (transaction "nullifier must not be zero")
    root' ← join_root root spend
    ok (n, root')

  -- `Plan::values`
  unfoldable pub values : Plan → Public → Res Values
  unfolding check_spend
  values plan public = do
    (n0, root0) ← check_spend none plan.spends.0
    (n1, root1) ← check_spend root0 plan.spends.1
    require (not (bytes_eq n0 n1)) (transaction "spend nullifiers must be distinct")
    key0 ← send_public_key c plan.sends.0
    key1 ← send_public_key c plan.sends.1
    commitment0 ← commitment_from_key c key0 plan.asset plan.sends.0.value
    commitment1 ← commitment_from_key c key1 plan.asset plan.sends.1.value
    let input_total = plan.spends.0.note.value + plan.spends.1.note.value
    let output_total = plan.sends.0.value + plan.sends.1.value
    require (int_eq (pos input_total +ℤ public.amount) (pos output_total))
        (transaction "value is not conserved")
    root ← ok_or root1 (transaction "transaction has no real input")
    ok (record {
      public = record {
        root = root;
        nullifiers = (n0, n1);
        commitments = (commitment0, commitment1);
        amount = from_signed c public.amount;
        hash = public.hash;
      };
      output_keys = (key0, key1);
    })

  module _ (rng : Rng) where
    -- `for sibling in &mut siblings { *sibling = Field::random(rng)?; }`
    unfoldable pub random_fields : ℕ → ℕ → rng.State → Res (List Field × rng.State)
    random_fields fuel zero s = ok ([], s)
    random_fields fuel (suc n) s = do
      (field, s1) ← random c rng fuel s
      (rest, s2) ← random_fields fuel n s1
      ok (field ∷ rest, s2)

    -- The loop, with fuel for its passes and for the draws of each.
    unfoldable pub dummy_spend : ℕ → ℕ → Field → rng.State → Res (Spend × rng.State)
    dummy_spend fuel zero asset s = err out_of_fuel
    dummy_spend fuel (suc passes) asset s = do
      (index_bytes, s1) ← ok_or (rng.try_fill_bytes 4 s) Error.random
      let index = be_value index_bytes % 2 ^ tree_depth
      (siblings, s2) ← random_fields fuel tree_depth s1
      (random', s3) ← random c rng fuel s2
      (owner, s4) ← random_owner c rng fuel s3
      let spend : Spend = record {
        note = record { value = 0; asset = asset; random = random' };
        owner = owner;
        merkle = record { index = index; siblings = siblings };
      }
      n ← nullifier c owner index
      let again = dummy_spend fuel passes asset s4
      if not (bytes_eq n zero_field) then ok (spend, s4) else again

    -- `while inputs.len() < SLOTS`, as many passes as slots are missing
    unfoldable pub pad_spends :
        ℕ → ℕ → Field → List Spend → rng.State → Res (List Spend × rng.State)
    unfolding dummy_spend
    pad_spends fuel zero asset inputs s = ok (inputs, s)
    pad_spends fuel (suc missing) asset inputs s = do
      (spend, s1) ← dummy_spend fuel fuel asset s
      pad_spends fuel missing asset (inputs ++ spend ∷ []) s1

    unfoldable pub pad_sends : ℕ → ℕ → ℕ → List Send → rng.State → Res (List Send × rng.State)
    pad_sends fuel zero payload_len outputs s = ok (outputs, s)
    pad_sends fuel (suc missing) payload_len outputs s = do
      (send, s1) ← dummy_send c rng fuel payload_len s
      pad_sends fuel missing payload_len (outputs ++ send ∷ []) s1

    abbrev pub swap_pair {ℓ} : {A : Type ℓ} → List A → List A
    swap_pair (x ∷ y ∷ rest) = y ∷ x ∷ rest
    swap_pair other = other

    unfoldable pub shuffle_pair {ℓ} : {A : Type ℓ} → List A → rng.State → Res (List A × rng.State)
    shuffle_pair items s = do
      (choice, s') ← ok_or (rng.try_fill_bytes 1 s) Error.random
      ok (if be_value choice % 2 == 1 then swap_pair items else items, s')

    -- `try_into` an array of two
    abbrev pub try_pair {ℓ} : {A : Type ℓ} → List A → Option (A × A)
    try_pair (x ∷ y ∷ []) = some (x, y)
    try_pair other = none

    -- `iter().map(|send| send.encrypted.len()).max().unwrap_or(0)`
    abbrev pub payload_length : List Send → ℕ
    payload_length [] = 0
    payload_length (send ∷ sends) =
        let rest = payload_length sends in
        if leb rest (length send.encrypted) then length send.encrypted else rest

    -- `Transaction::plan`
    unfoldable pub plan : ℕ → Transaction → Field → rng.State → Res (Plan × rng.State)
    unfolding pad_spends pad_sends shuffle_pair
    plan fuel t asset s = do
      require (not (any (λ (spend : Spend). not (bytes_eq spend.note.asset asset)) t.spends))
          (transaction "spend asset does not match the pool")
      (inputs, s1) ← pad_spends fuel (slots - length t.spends) asset t.spends s
      (outputs, s2) ← pad_sends fuel (slots - length t.sends) (payload_length t.sends) t.sends s1
      (inputs', s3) ← shuffle_pair inputs s2
      (outputs', s4) ← shuffle_pair outputs s3
      spends ← ok_or (try_pair inputs') (transaction "invalid spend arity")
      sends ← ok_or (try_pair outputs') (transaction "invalid send arity")
      ok (record { spends = spends; sends = sends; asset = asset }, s4)
