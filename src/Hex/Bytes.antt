-- ===== src/Hex/Bytes.antt =====
-- `hexToBytes` makes bytes of every text.
use diginaut_wallet.Prelude.{
  ℕ, ◌<◌, ◌≡◌, List, [], ◌∷◌, Bool, true, false, Option, none, some, All, if◌then◌else◌, arith,
  subst,
}
use mathlib.Core.Option.{some-injective}
use diginaut_wallet.Hex.{
  IsByte, or_zero, negated, two_digits, digit_value, parse_pair, pairs, hex_to_bytes,
}

if-IsByte : (t : Bool) (a b : ℕ) → IsByte a → IsByte b → IsByte (if t then a else b)
if-IsByte true a b h k = h
if-IsByte false a b h k = k

abbrev IsDigit : Option ℕ → Type 0
IsDigit none = Unit
IsDigit (some d) = d < 16

digit_value-IsDigit : (c : ℕ) → IsDigit (digit_value c)
unfolding digit_value
digit_value-IsDigit c = ground arith

or_zero-IsByte : (o : Option ℕ) → IsDigit o → IsByte (or_zero o)
unfolding or_zero
or_zero-IsByte none h = omega arith
or_zero-IsByte (some d) h = omega arith

negated-IsByte : (v : ℕ) → IsByte (negated v)
unfolding negated
negated-IsByte v = omega arith

two_digits-IsByte :
    (high low : Option ℕ)
    → IsDigit high
    → IsDigit low
    → IsByte (elim high [ none ↦ 0 | some d ↦ two_digits d low ])
unfolding two_digits
two_digits-IsByte none low h k = omega arith
two_digits-IsByte (some d) none h k = omega arith
two_digits-IsByte (some d) (some e) h k = omega arith

parse_pair-IsByte : (a b : ℕ) → IsByte (parse_pair a b)
unfolding parse_pair
parse_pair-IsByte a b =
    let low = or_zero-IsByte (digit_value b) (digit_value-IsDigit b) in
    if-IsByte _ _ _ low (
      if-IsByte _ _ _ (negated-IsByte (or_zero (digit_value b))) (
        if-IsByte _ 0 _ (omega arith) (
          two_digits-IsByte (digit_value a) (digit_value b) (digit_value-IsDigit a)
            (digit_value-IsDigit b))))

pairs-IsByte : (hex : List ℕ) → All IsByte (pairs hex)
unfolding pairs
pairs-IsByte [] = tt
pairs-IsByte (a ∷ []) = tt
pairs-IsByte (a ∷ b ∷ rest) =
    ground (arith, pairs-IsByte (b ∷ rest), pairs-IsByte rest, parse_pair-IsByte a b)

pub hex_to_bytes-IsByte :
    (hex : List ℕ) {bytes : List ℕ} → hex_to_bytes hex ≡ some bytes → All IsByte bytes
unfolding hex_to_bytes
hex_to_bytes-IsByte hex {bytes} h = go (pairs hex) (pairs-IsByte hex) h
  where
    go :
        (bs : List ℕ)
        → All IsByte bs
        → (elim bs [ [] ↦ none | b ∷ more ↦ some (b ∷ more) ]) ≡ some bytes
        → All IsByte bytes
    go [] v e = cc
    go (b ∷ more) v e = subst (All IsByte) (some-injective _ _ e) v
