-- ===== src/Envelope/ScriptNum/Laws.antt =====
-- What `leMinimal` writes, and that `leToBigInt` reads it back.
use diginaut_wallet.Prelude.{
  ℕ, zero, suc, ◌+◌, ◌/◌, ◌%◌, ◌^◌, ◌<◌, ◌≤◌, ◌≡◌, refl, ◌⊎◌, inl, List, [], ◌∷◌, All, length,
  arith, lt_wf, lt→ltb,
}
use diginaut_wallet.Hex.{IsByte}
use diginaut_wallet.Envelope.ScriptNum.{
  div_shrinks, sign_padded, le_bytes, le_minimal, le_to_big_int, to_number,
}
use mathlib.Core.WellFounded.{Acc}
use mathlib.Core.Logic.{dif_pos}
use native.Mathlib.Decide.{dec_lt}
use native.Mathlib.Bridge.{le_prop}

module _ (v : ℕ) (smaller : (m : ℕ) → m < v → Acc ◌<◌ m) where
  le_bytes_more :
      (more : 0 < v / 256)
      → le_bytes v (Acc.intro v smaller)
        ≡ v % 256 ∷ le_bytes (v / 256) (smaller (v / 256) (div_shrinks v more))
  unfolding le_bytes
  le_bytes_more more =
      dif_pos (dec_lt 0 (v / 256)) le_prop more
        (λ m. v % 256 ∷ le_bytes (v / 256) (smaller (v / 256) (div_shrinks v m)))
        (λ _. sign_padded (v % 256))

  le_bytes_last : ¬ (0 < v / 256) → le_bytes v (Acc.intro v smaller) ≡ sign_padded (v % 256)
  unfolding le_bytes
  le_bytes_last last = ground arith

le_to_big_int-le_bytes : (v : ℕ) (w : Acc ◌<◌ v) → le_to_big_int (le_bytes v w) ≡ v
unfolding le_bytes le_to_big_int
le_to_big_int-le_bytes v (Acc.intro _ smaller) =
    grind (arith, λ (p : v / 256 < v). le_to_big_int-le_bytes (v / 256) (smaller (v / 256) p))

-- `leToBigInt` inverts `leMinimal` on every value that is not negative.
pub le_to_big_int-le_minimal : (v : ℕ) → le_to_big_int (le_minimal v) ≡ v
unfolding le_minimal le_to_big_int
le_to_big_int-le_minimal zero = refl
le_to_big_int-le_minimal (suc v) = le_to_big_int-le_bytes (suc v) (lt_wf.apply (suc v))

le_bytes-IsByte : (v : ℕ) (w : Acc ◌<◌ v) → All IsByte (le_bytes v w)
unfolding le_bytes
le_bytes-IsByte v (Acc.intro _ smaller) =
    grind (arith, λ (p : v / 256 < v). le_bytes-IsByte (v / 256) (smaller (v / 256) p))

pub le_minimal-IsByte : (v : ℕ) → All IsByte (le_minimal v)
unfolding le_minimal
le_minimal-IsByte v = ground (arith, le_bytes-IsByte v (lt_wf.apply v))

-- CScriptNum's minimality: the top byte has its sign bit clear, and it is a zero byte only to clear
-- the sign bit of the byte below.
abbrev pub IsMinimal : List ℕ → Type 0
IsMinimal [] = Unit
IsMinimal (b ∷ []) = (0 < b) × (b < 128)
IsMinimal (b ∷ t ∷ []) = ((0 < t) × (t < 128)) ⊎ ((t ≡ 0) × (128 ≤ b))
IsMinimal (b ∷ t ∷ u ∷ r) = IsMinimal (t ∷ u ∷ r)

IsMinimal-cons : (b : ℕ) (xs : List ℕ) → IsMinimal xs → 1 ≤ length xs → IsMinimal (b ∷ xs)
IsMinimal-cons b [] m h = absurd (omega arith)
IsMinimal-cons b (t ∷ []) m h = inl m
IsMinimal-cons b (t ∷ u ∷ r) m h = m

IsMinimal-sign_padded : (b : ℕ) → 0 < b → IsMinimal (sign_padded b) × (1 ≤ length (sign_padded b))
unfolding sign_padded
IsMinimal-sign_padded b h = ground arith

le_bytes-IsMinimal :
    (v : ℕ) (w : Acc ◌<◌ v) → 0 < v → IsMinimal (le_bytes v w) × (1 ≤ length (le_bytes v w))
le_bytes-IsMinimal v (Acc.intro _ smaller) h = elim (dec_lt 0 (v / 256)) [
  | yes more ↦
      let (m, l) = le_bytes-IsMinimal (v / 256) (smaller (v / 256) (div_shrinks v more)) more in
      rw (le_bytes_more v smaller more) (IsMinimal-cons (v % 256) _ m l, omega arith)
  | no last ↦ rw (le_bytes_last v smaller last) (IsMinimal-sign_padded (v % 256) (omega arith))
]

-- `leMinimal` writes the minimal encoding: empty for zero, and no byte more than the sign needs.
pub le_minimal-IsMinimal : (v : ℕ) → IsMinimal (le_minimal v)
unfolding le_minimal
le_minimal-IsMinimal zero = tt
le_minimal-IsMinimal (suc v) = (le_bytes-IsMinimal (suc v) (lt_wf.apply (suc v)) (omega arith)).0

length-le_bytes : (k v : ℕ) (w : Acc ◌<◌ v) → v < 256 ^ suc k → length (le_bytes v w) ≤ k + 2
unfolding le_bytes sign_padded
length-le_bytes zero v (Acc.intro _ smaller) h = ground arith
length-le_bytes (suc k) v (Acc.intro _ smaller) h =
    grind
      (arith, λ (p : v / 256 < v). length-le_bytes k (v / 256) (smaller (v / 256) p) (omega arith))

-- A value of `k` bytes is written in at most `k + 1`.
pub length-le_minimal : (k v : ℕ) → v < 256 ^ suc k → length (le_minimal v) ≤ k + 2
unfolding le_minimal
length-le_minimal k zero h = omega arith
length-le_minimal k (suc v) h = length-le_bytes k (suc v) (lt_wf.apply (suc v)) h

-- A non-zero value is not written as the empty array.
pub le_minimal-pos : (v : ℕ) → 0 < v → 1 ≤ length (le_minimal v)
unfolding le_minimal
le_minimal-pos zero h = absurd (omega arith)
le_minimal-pos (suc v) h = (le_bytes-IsMinimal (suc v) (lt_wf.apply (suc v)) h).1

-- A double holds every integer below 2 ^ 53 exactly.
pub to_number-exact : (v : ℕ) → v < 2 ^ 53 → to_number v ≡ v
unfolding to_number
to_number-exact v h = rw (lt→ltb v (2 ^ 53) h)
