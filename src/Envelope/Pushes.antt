-- ===== src/Envelope/Pushes.antt =====
-- envelope.js: `readPushes` and the `push` of the builders. A script is a list of bytes.
pub mod Laws
use diginaut_wallet.Prelude.{
  ℕ, zero, suc, ◌+◌, ◌%◌, List, [], ◌∷◌, ◌++◌, Option, none, some, Outcome, ok, throw, ◌>>=◌,
  length, take, drop, ltb, ◌==◌, if◌then◌else◌,
}

pub data EnvelopeError : Type 0 where
  -- `null.map` in `hexToBytes`
  type_error : EnvelopeError
  not_op_return : EnvelopeError
  -- the opcode and its offset
  unsupported_push : ℕ → ℕ → EnvelopeError
  not_metadata : EnvelopeError
  wrong_type : EnvelopeError
  bad_owner_key : EnvelopeError
  no_amount : EnvelopeError
  not_positive : EnvelopeError
  -- no JavaScript error: the loop of `read_pushes` ran out of fuel
  stuck : EnvelopeError

-- `[bytes.length, ...bytes]` in a Uint8Array.
unfoldable pub push : List ℕ → List ℕ
push bytes = length bytes % 256 ∷ bytes

unfoldable pub prepend :
    List ℕ → Outcome EnvelopeError (List (List ℕ)) → Outcome EnvelopeError (List (List ℕ))
prepend p (ok ps) = ok (p ∷ ps)
prepend p (throw e) = throw e

-- The loop from offset `i` on, over the bytes that are left. `subarray` stops at the end of the
-- script, and so do `take` and `drop`.
unfoldable pub read_loop : ℕ → ℕ → List ℕ → Outcome EnvelopeError (List (List ℕ))
unfolding prepend
read_loop fuel i [] = ok []
read_loop zero i (len ∷ rest) = throw stuck
read_loop (suc fuel) i (len ∷ rest) =
    let more = prepend (take len rest) (read_loop fuel (i + 1 + len) (drop len rest)) in
    if ltb 75 len then throw (unsupported_push len i) else more

-- Each round takes a byte at least, so as many rounds as there are bytes are enough.
unfoldable pub read_pushes : List ℕ → Outcome EnvelopeError (List (List ℕ))
unfolding read_loop
read_pushes [] = throw not_op_return
read_pushes (op ∷ rest) = if op == 0x6a then read_loop (length rest) 1 rest else throw not_op_return
