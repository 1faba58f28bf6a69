-- ===== src/Prover/Answers.antt =====
-- The client's requests and the worker's answers.
use veil.Prelude.{
  ℕ, ◌+◌, ◌%◌, ◌^◌, ◌<◌, ◌≡◌, ◌≢◌, ◌↔◌, refl, sym, ap, ◌∙◌, true, false, ◌==◌, ==_iff, Option, none,
  some, List, [], ◌∷◌, map, length, arith,
}
use veil.Prelude.Res.{ok}
use veil.Bytes.{Bytes}
use veil.Sdk.Os.{Os}
use veil.Sdk.Proving.Protocol.{Request}
use veil.Sdk.Proving.Worker.{Messages, Worker, validate_response, is_empty, with_next_id}
use veil.Sdk.Proving.Worker.Outcome.{IsAnswer, validate_response-IsAnswer}
use veil.Prover.{ProveFn, answer, respond, admit, serve_from}

pub same_id : (n : ℕ) → (n == n) ≡ true
same_id n = (==_iff n n).1 refl

respond_inv :
    (request : Request) (made : Option (Bytes × Bytes)) {proof public : Bytes}
    → IsAnswer request.id (respond request made) proof public
    → made ≡ some (proof, public)
respond_inv request none a = absurd (a.proof_given (sym a.proof_bytes))
respond_inv request (some (proof, public)) a = ap some (cc (a.proof_bytes, a.public_bytes))

filled : (a b : Bytes) → a ≢ [] → b ≢ [] → (is_empty a ≡ false) × (is_empty b ≡ false)
filled a b ha hb = ground arith

-- The client takes a proof and a public witness from the worker's answer to its request exactly when
-- the prover made them from the request's witness, and neither is empty.
pub validate_response-answer :
    (prove_fn : ProveFn) (request : Request) (proof public : Bytes)
    → (validate_response request.id (answer prove_fn request) ≡ ok (proof, public))
      ↔ ((prove_fn request.witness ≡ some (proof, public)) × (proof ≢ []) × (public ≢ []))
unfolding answer validate_response
validate_response-answer prove_fn request proof public = (
  λ e.
      let a = validate_response-IsAnswer request.id (answer prove_fn request) e in
      (respond_inv request (prove_fn request.witness) a, a.proof_given, a.public_given),
  λ (made, hp, hu).
      let (ep, eu) = filled proof public hp hu in
      rw made (rw (same_id request.id) (rw ep (rw eu refl))),
)

pub admit_next :
    (request : Request) (next : ℕ)
    → request.id ≡ next
    → next + 1 < 2 ^ 64
    → admit next request ≡ some (next + 1)
unfolding admit
admit_next request next e h =
    let within : (next + 1) % 2 ^ 64 ≡ next + 1 = omega (arith, h) in
    let going : (next + 1 == 0) ≡ false = ground arith in
    rw e (rw (same_id next) (rw within (rw going refl)))

module _ (os : Os) (m : Messages) where
  -- The requests that a worker's client sends for witnesses, one after the other.
  abbrev pub requests : Worker os m → List Bytes → List Request
  requests worker [] = []
  requests worker (witness ∷ witnesses) =
      record { id = (with_next_id os m worker).next_request_id; witness = witness }
      ∷ requests (with_next_id os m worker) witnesses

  -- The worker answers every request, in order, of a client whose counter is one behind, until the
  -- counter comes to the end of a `u64`.
  serve_from-requests :
      (prove_fn : ProveFn) (worker : Worker os m) (witnesses : List Bytes)
      → worker.next_request_id + length witnesses + 1 < 2 ^ 64
      → serve_from prove_fn (worker.next_request_id + 1) (requests worker witnesses)
        ≡ map (answer prove_fn) (requests worker witnesses)
  unfolding serve_from admit
  serve_from-requests prove_fn worker [] h = refl
  serve_from-requests prove_fn worker (witness ∷ witnesses) h =
      let n = worker.next_request_id in
      let id : (n + 1) % 2 ^ 64 ≡ n + 1 = omega (arith, h) in
      let rest =
        serve_from-requests prove_fn (with_next_id os m worker) witnesses (omega (arith, h, id)) in
      let now =
        admit_next (record { id = (n + 1) % 2 ^ 64; witness = witness }) (n + 1) id
          (omega (arith, h)) in
      let on : n + 1 + 1 ≡ (n + 1) % 2 ^ 64 + 1 = ap (λ (k : ℕ). k + 1) (sym id) in
      rw (now ∙ ap some on)
        (ap (λ rs. answer prove_fn (record { id = (n + 1) % 2 ^ 64; witness = witness }) ∷ rs) rest)
