-- ===== src/Envelope/ScriptNum.antt =====
-- envelope.js: `leMinimal` and `leToBigInt`, Core's CScriptNum for values that are not negative, and
-- the conversion `Number(BigInt)`.
pub mod Laws
pub mod Nearest
use diginaut_wallet.Prelude.{
  ℕ, zero, suc, ◌+◌, ◌*◌, ◌/◌, ◌%◌, ◌^◌, ◌<◌, List, [], ◌∷◌, ◌||◌, ◌&&◌, ltb, ◌==◌, if◌then◌else◌,
  lt_wf, arith,
}
use mathlib.Core.WellFounded.{Acc}
use mathlib.Core.Logic.{dite}
use native.Mathlib.Decide.{dec_lt}

-- `if (out[out.length - 1] & 0x80) out.push(0x00)`, for the last byte `b`.
unfoldable pub sign_padded : ℕ → List ℕ
sign_padded b = if ltb b 128 then b ∷ [] else b ∷ 0 ∷ []

pub div_shrinks : (v : ℕ) → 0 < v / 256 → v / 256 < v
div_shrinks v h = omega arith

-- The loop `while (v > 0n)`, which pushes `v & 0xff` and shifts by a byte, from a positive `v` on;
-- the sign byte is added behind the last round.
unfoldable pub le_bytes : (v : ℕ) → Acc ◌<◌ v → List ℕ
unfolding sign_padded dec_lt
le_bytes v (Acc.intro _ smaller) =
    dite (dec_lt 0 (v / 256))
      (λ more. v % 256 ∷ le_bytes (v / 256) (smaller _ (div_shrinks v more)))
      (λ _. sign_padded (v % 256))

-- Zero is the empty array.
unfoldable pub le_minimal : ℕ → List ℕ
le_minimal zero = []
le_minimal (suc v) = le_bytes (suc v) (lt_wf.apply (suc v))

-- `bytes.reduceRight((acc, b) => (acc << 8n) | BigInt(b), 0n)`; the shifted accumulator has no bit
-- in common with a byte, so `|` adds.
unfoldable pub le_to_big_int : List ℕ → ℕ
le_to_big_int [] = 0
le_to_big_int (b ∷ bs) = le_to_big_int bs * 256 + b

-- The distance of neighbouring doubles at `n`; `fuel` bounds the bits of `n`.
unfoldable pub ulp : ℕ → ℕ → ℕ
ulp zero n = 1
ulp (suc fuel) n = if ltb n (2 ^ 53) then 1 else 2 * ulp fuel (n / 2)

-- Round to a multiple of `u`, a tie to the even one.
unfoldable pub round_even : ℕ → ℕ → ℕ
round_even n u =
    let q = n / u in
    let r = n % u in if ltb u (2 * r) || 2 * r == u && q % 2 == 1 then (q + 1) * u else q * u

-- `Number(v)`: the nearest double. A thousand bits are more than any push of 75 bytes holds.
unfoldable pub to_number : ℕ → ℕ
unfolding round_even
to_number v = if ltb v (2 ^ 53) then v else round_even v (ulp 1000 v)
