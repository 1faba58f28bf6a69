-- ===== src/Prover.antt =====
-- prover/veil402-gnark/protocol.go: the worker's side of the protocol.
pub mod Framing
pub mod Answers
pub mod Session
pub mod Greeting
use veil.Prelude.{
  ℕ, suc, ◌+◌, ◌*◌, ◌%◌, ◌^◌, Bool, true, false, ◌==◌, Option, none, some, List, [], ◌∷◌, ◌++◌,
  length, leb, take, drop,
}
use veil.Prelude.Int.{pos}
use veil.Bytes.{Bytes, be_bytes, be_value}
use veil.Sdk.Proving.Protocol.{Message, Ready, Request, Response}

-- `protocolVersion` and `maxRequestBytes`
abbrev pub protocol_version : ℕ
protocol_version = 1

abbrev pub request_limit : ℕ
request_limit = 2 * 2 ^ 20

-- `maxResponseBytes`
abbrev pub response_limit : ℕ
response_limit = 64 * 2 ^ 10

abbrev pub full : Bool → ℕ → Bytes → Option (Bytes × Bytes)
full true n input = some (take n input, drop n input)
full false n input = none

-- `io.ReadFull`: as many bytes as asked for, and what is left of the input
unfoldable pub read_full : ℕ → Bytes → Option (Bytes × Bytes)
read_full n input = full (leb n (length input)) n input

abbrev pub decoded : {M : Type 0} → Option M → Bytes → Option (M × Bytes)
decoded none rest = none
decoded (some message) rest = some (message, rest)

abbrev pub unmarshal : {M : Type 0} → Message M → Option (Bytes × Bytes) → Option (M × Bytes)
unmarshal m none = none
unmarshal m (some (body, rest)) = decoded (m.decode body) rest

abbrev pub read_body : {M : Type 0} → Message M → Bool → ℕ → Bytes → Option (M × Bytes)
read_body m true size input = unmarshal m (read_full size input)
read_body m false size input = none

abbrev pub read_sized : {M : Type 0} → Message M → Option (Bytes × Bytes) → Option (M × Bytes)
read_sized m none = none
read_sized m (some (header, rest)) =
    read_body m (leb (be_value header) request_limit) (be_value header) rest

-- `readMessage`
unfoldable pub read_message : {M : Type 0} → Message M → Bytes → Option (M × Bytes)
unfolding read_full be_value
read_message m input = read_sized m (read_full 4 input)

-- The prover itself: a proof and its public witness, or an error.
abbrev pub ProveFn : Type 0
ProveFn = Bytes → Option (Bytes × Bytes)

abbrev pub respond : Request → Option (Bytes × Bytes) → Response
respond request none = record { id = request.id; proof = []; public = []; failure = pos 1 }
respond request (some (proof, public)) = record {
  id = request.id;
  proof = proof;
  public = public;
  failure = pos 0;
}

-- `prove`
unfoldable pub answer : ProveFn → Request → Response
answer prover request = respond request (prover request.witness)

abbrev pub counted : Bool → ℕ → Option ℕ
counted true next = none
counted false next = some next

abbrev pub expected : Bool → ℕ → Option ℕ
expected true next = counted ((next + 1) % 2 ^ 64 == 0) ((next + 1) % 2 ^ 64)
expected false next = none

-- The test of an identifier in `serve`, and the identifier that is expected next.
unfoldable pub admit : ℕ → Request → Option ℕ
admit next request = expected (request.id == next) next

abbrev pub respond_next : ProveFn → Request → Option ℕ → (ℕ → List Response) → List Response
respond_next prover request none others = []
respond_next prover request (some next) others = answer prover request ∷ others next

-- The responses of the loop of `serve` to requests, with the identifier that it expects.
unfoldable pub serve_from : ProveFn → ℕ → List Request → List Response
unfolding admit answer
serve_from prover next [] = []
serve_from prover next (request ∷ requests) =
    respond_next prover request (admit next request) λ next'. serve_from prover next' requests

abbrev pub framed : Bool → Bytes → Option Bytes
framed true body = some (be_bytes 4 (length body % 2 ^ 32) ++ body)
framed false body = none

abbrev pub write_body : Option Bytes → Option Bytes
write_body none = none
write_body (some body) = framed (leb (length body) response_limit) body

-- `writeMessage`: the bytes that are written
unfoldable pub write_message : {M : Type 0} → Message M → M → Option Bytes
write_message m message = write_body (m.encode message)

-- What the worker writes first.
abbrev pub greeting : Message Ready → Bytes → Option Bytes
greeting m artifact = write_message m (record { protocol = protocol_version; artifact = artifact })

abbrev pub written : Option Bytes → Bytes → ℕ → Option (Bytes × Bytes × ℕ)
written none rest next = none
written (some reply) rest next = some (reply, rest, next)

abbrev pub serve_request :
    Message Response → ProveFn → Request → Bytes → Option ℕ → Option (Bytes × Bytes × ℕ)
serve_request m prove_fn request rest none = none
serve_request m prove_fn request rest (some next) =
    written (write_message m (answer prove_fn request)) rest next

abbrev pub serve_read :
    Message Response → ProveFn → ℕ → Option (Request × Bytes) → Option (Bytes × Bytes × ℕ)
serve_read m prove_fn next none = none
serve_read m prove_fn next (some (request, rest)) =
    serve_request m prove_fn request rest (admit next request)

-- One turn of the loop of `serve`: what is written, what is left of the input, and the identifier
-- that is expected next.
unfoldable pub serve_one :
    Message Request → Message Response → ProveFn → ℕ → Bytes → Option (Bytes × Bytes × ℕ)
unfolding read_message write_message admit answer
serve_one requests responses prove_fn next input =
    serve_read responses prove_fn next (read_message requests input)
