-- ===== src/Prover/Framing.antt =====
-- What the client frames is what the worker reads.
use veil.Prelude.{
  ℕ, ◌*◌, ◌^◌, ◌≤◌, ◌≡◌, ◌↔◌, refl, ap, sym, ◌∙◌, true, some, ◌++◌, length, leb, leb_iff, ltb,
  ltb_iff, take-append-length, drop-append-length, length-append, arith,
}
use veil.Prelude.Res.{
  ok, require, ok_or, bind_inv, then_inv, require-eq-ok, ok_or-eq-ok, ok-injective,
}
use veil.Bytes.{Bytes, be_bytes, be_value}
use veil.Bytes.Laws.{length-be_bytes, be_value-be_bytes}
use veil.Sdk.Error.{prover}
use veil.Sdk.Os.{Os}
use veil.Sdk.Proving.Protocol.{Message, max_request_bytes, frame_parts}
use veil.Prover.{read_full, request_limit, read_message}

-- Decoding gives back a message that was encoded.
unfoldable pub IsMessage : {M : Type 0} → Message M → Type 0
IsMessage {M} m = (a : M) (body : Bytes) → m.encode a ≡ some body → m.decode body ≡ some a

read_full-append : (xs ys : Bytes) {n : ℕ} → length xs ≡ n → read_full n (xs ++ ys) ≡ some (xs, ys)
unfolding read_full
read_full-append xs ys {n} e =
    let fits : leb n (length (xs ++ ys)) ≡ true =
      (leb_iff _ _).1 (omega (arith, e, length-append xs ys)) in
    rw (fits, ← e, take-append-length xs ys, drop-append-length xs ys) refl

-- The parts of a frame: the length of the encoding, in four bytes, and the encoding.
frame_parts_inv :
    (os : Os) {M : Type 0} (m : Message M) (message : M) {size body : Bytes}
    → frame_parts os m message ≡ ok (size, body)
    → (m.encode message ≡ some body)
      × (length body ≤ max_request_bytes)
      × (size ≡ be_bytes 4 (length body))
unfolding frame_parts
frame_parts_inv os m message {size} {body} e =
    bind_inv (ok_or (m.encode message) (prover "worker request could not be encoded")) _ e
      λ b e0 h0.
        then_inv
          (require (leb (length b) max_request_bytes) (prover "witness exceeded its size limit")) _
          h0
          λ e1 h1.
            then_inv (require (ltb (length b) (2 ^ 32)) (prover "witness exceeded its size limit"))
              _ h1
              λ e2 h2.
                let same = ok-injective _ _ h2 in
                let same_body : b ≡ body = ap (λ (x : Bytes × Bytes). x.1) same in
                (
                  ok_or-eq-ok _ (prover "worker request could not be encoded") e0
                      ∙ ap some same_body,
                  rw same_body at (
                      (leb_iff _ _).0
                        (require-eq-ok _ (prover "witness exceeded its size limit") e1)),
                  rw (← same_body) (sym (ap (λ (x : Bytes × Bytes). x.0) same)),
                )

-- A frame that the client writes, with whatever follows it, is read by the worker as the message that
-- was sent, and what follows is left; decoding is taken to undo encoding.
pub read_message-frame_parts :
    (os : Os) {M : Type 0} (m : Message M) (message : M) {size body : Bytes} (rest : Bytes)
    → IsMessage m
    → frame_parts os m message ≡ ok (size, body)
    → read_message m (size ++ (body ++ rest)) ≡ some (message, rest)
unfolding read_message IsMessage
read_message-frame_parts os m message {size} {body} rest h e =
    let (encoded, fits, sized) = frame_parts_inv os m message e in
    let value : be_value size ≡ length body =
      rw sized (be_value-be_bytes 4 (length body) (omega (arith, fits))) in
    let within : leb (length body) request_limit ≡ true = (leb_iff _ _).1 fits in
    let header : length size ≡ 4 = rw sized (length-be_bytes 4 (length body)) in
    rw (read_full-append size (body ++ rest) header) (
      rw value
        (rw within (rw (read_full-append body rest refl) (rw (h message body encoded) refl))))

-- A message is framed exactly when it is encoded to at most 2 MiB: the length always fits a `u32`.
pub frame_parts_iff :
    (os : Os) {M : Type 0} (m : Message M) (message : M) (size body : Bytes)
    → (frame_parts os m message ≡ ok (size, body)) ↔ (
        (m.encode message ≡ some body)
        × (length body ≤ 2 * 2 ^ 20)
        × (size ≡ be_bytes 4 (length body)))
unfolding frame_parts
frame_parts_iff os m message size body = (
  frame_parts_inv os m message,
  λ (encoded, fits, sized).
      let small : leb (length body) max_request_bytes ≡ true = (leb_iff _ _).1 fits in
      let narrow : ltb (length body) (2 ^ 32) ≡ true = (ltb_iff _ _).1 (omega (arith, fits)) in
      rw encoded (rw small (rw narrow (rw sized refl))),
)
