-- ===== src/Address/Base58/Prefix.antt =====
-- The first letters of a text in base 58, from the range of the number that it spells.
use mathlib.Core.List.{reverse, reverse-reverse}
use native.Mathlib.Nat.{pow-le-pow_right, pow-suc, pow-zero}
use diginaut_wallet.Prelude.{
  ℕ, ◌+◌, ◌*◌, ◌^◌, ◌<◌, ◌≤◌, ◌≡◌, refl, sym, subst, ap, ◌∙◌, List, [], ◌∷◌, arith, All, length,
}
use diginaut_wallet.Hex.{IsByte}
use diginaut_wallet.Address.Base58.{times_plus_all, base58_encode, b58_spelled, leading, copies}
use diginaut_wallet.Address.Base58.Digits.{IsTopped, number}
use diginaut_wallet.Address.Base58.Radix.{
  horner, reverse-first, converted-IsTopped, number-converted, number-reverse, times_plus_all-All,
  times_plus_all-first, All-reverse_aux,
}

moved : (d acc base p r p' : ℕ) → p' ≡ p * base → (d + acc * base) * p + r ≡ acc * p' + (d * p + r)
moved d acc base p r p' e = grind (arith, ap (λ (t : ℕ). acc * t) e)

within : (d base p r p' : ℕ) → p' ≡ p * base → d < base → r < p → d * p + r < p'
within d base p r p' e h k = grind arith

-- A number is its first digits, shifted, and a rest that is smaller.
module _ (base : ℕ) where
  horner-parts :
      (acc : ℕ) (ds : List ℕ)
      → All (λ d. d < base) ds
      → (r : ℕ) × (horner base acc ds ≡ acc * base ^ length ds + r) × (r < base ^ length ds)
  unfolding horner
  horner-parts acc [] h = (0, grind (arith, pow-zero base), grind (arith, pow-zero base))
  horner-parts acc (d ∷ ds) h =
      let (r, e, less) = horner-parts (d + acc * base) ds h.1 in
      let power = pow-suc base (length ds) in
      (
        d * base ^ length ds + r,
        e ∙ moved d acc base (base ^ length ds) r _ power,
        within d base (base ^ length ds) r _ power h.0 less,
      )

at_most : (q p r : ℕ) → q ≤ 3363 → r < p → q * p + r < 3364 * p
at_most q p r h k = grind arith

at_least : (q p r : ℕ) → 58 ≤ q → 58 * p ≤ q * p + r
at_least q p r h = grind arith

power-le : (a b : ℕ) → a ≤ b → 58 ^ a ≤ 58 ^ b
power-le a b h = pow-le-pow_right (omega arith) h

-- A number of 52 digits, after its first two.
module _ (k q r : ℕ) (less : r < 58 ^ k) (two : 58 ≤ q) (digits : q ≤ 3363)
    (low : 58 ^ 51 ≤ q * 58 ^ k + r) (high : q * 58 ^ k + r < 58 ^ 52) where
  not_fewer : ¬ (k < 50)
  not_fewer few =
      let power : 58 ^ k ≤ 58 ^ 49 = power-le k 49 (omega arith) in
      omega (arith, at_most q (58 ^ k) r digits less, power, low)

  not_more : ¬ (50 < k)
  not_more many =
      let power : 58 ^ 51 ≤ 58 ^ k = power-le 51 k many in
      omega (arith, at_least q (58 ^ k) r two, power, high)

  fifty_left : k ≡ 50
  fifty_left = omega (arith, not_fewer, not_more)

-- Thirty-eight bytes whose first two put the number between 58^51 and 58^52.
module _ (a b : ℕ) (rest : List ℕ) (positive : 0 < a) (size : length rest ≡ 36)
    (bytes : All IsByte (a ∷ b ∷ rest)) (low : 58 ^ 51 ≤ (b + a * 256) * 256 ^ 36)
    (high : (b + a * 256 + 1) * 256 ^ 36 ≤ 58 ^ 52) where
  digits : List ℕ
  digits = times_plus_all 58 256 (0 ∷ []) (a ∷ b ∷ rest)

  -- The number that the bytes spell.
  spelled_number :
      (r : ℕ) × (horner 256 0 (a ∷ b ∷ rest) ≡ (b + a * 256) * 256 ^ 36 + r) × (r < 256 ^ 36)
  unfolding horner
  spelled_number =
      let (r, e, less) = horner-parts 256 (b + (a + 0 * 256) * 256) rest bytes.1.1 in
      let start : a + 0 * 256 ≡ a = omega arith in
      let power : 256 ^ length rest ≡ 256 ^ 36 = ap (λ (k : ℕ). 256 ^ k) size in
      (
        r,
        e
            ∙ ap (λ (t : ℕ). (b + t * 256) * 256 ^ length rest + r) start
            ∙ ap (λ (t : ℕ). (b + a * 256) * t + r) power,
        subst (λ t. r < t) power less,
      )

  digits_lem : digits ≡ times_plus_all 58 256 (0 ∷ []) (a ∷ b ∷ rest)
  unfolding digits
  digits_lem = refl

  number-digits : number 58 digits ≡ horner 256 0 (a ∷ b ∷ rest)
  unfolding digits
  number-digits = number-converted 58 (omega arith) 256 (a ∷ b ∷ rest)

  -- The digits from the top: two of them, and fifty.
  record FirstTwo : Type 0 where
    pub x : ℕ
    pub y : ℕ
    pub later : List ℕ
    pub fits : All (λ d. d < 58) later
    pub from_top : reverse digits ≡ x ∷ y ∷ later
    pub small : y < 58
    pub left : ℕ
    pub same : (y + x * 58) * 58 ^ 50 + left ≡ (b + a * 256) * 256 ^ 36 + spelled_number.0
    pub less : left < 58 ^ 50

  two_of :
      (x : ℕ) (xs : List ℕ)
      → reverse digits ≡ x ∷ xs
      → All (λ d. d < 58) (x ∷ xs)
      → 0 < x
      → horner 58 0 (x ∷ xs) ≡ horner 256 0 (a ∷ b ∷ rest)
      → FirstTwo
  unfolding horner
  two_of x [] top fit first same =
      let (r, e, _) = spelled_number in absurd (one_digit x r fit.0 (same ∙ e))
    where
      one_digit : (x r : ℕ) → x < 58 → x + 0 * 58 ≡ (b + a * 256) * 256 ^ 36 + r → ⊥
      one_digit x r small e = omega (arith, e, low)
  two_of x (y ∷ later) top fit first same =
      let (r, e, less) = spelled_number in
      let (left, parts, below) = horner-parts 58 (y + (x + 0 * 58) * 58) later fit.1.1 in
      let start : x + 0 * 58 ≡ x = omega arith in
      let whole : (y + x * 58) * 58 ^ length later + left ≡ (b + a * 256) * 256 ^ 36 + r =
        ap (λ (t : ℕ). (y + t * 58) * 58 ^ length later + left) (sym start)
        ∙ sym parts
        ∙ same
        ∙ e in
      let fifty =
        fifty_left (length later) (y + x * 58) left below (omega arith)
          (omega (arith, fit.0, fit.1.0))
          (subst (λ t. 58 ^ 51 ≤ t) (sym whole) (omega (arith, low)))
          (subst (λ t. t < 58 ^ 52) (sym whole) (omega (arith, high, less))) in
      record {
        x = x;
        y = y;
        later = later;
        fits = fit.1.1;
        from_top = top;
        small = fit.1.0;
        left = left;
        same = ap (λ (k : ℕ). (y + x * 58) * 58 ^ k + left) (sym fifty) ∙ whole;
        less = subst (λ k. left < 58 ^ k) fifty below;
      }

  first_two : FirstTwo
  first_two =
      let (d, es, e) = times_plus_all-first 58 256 0 [] (a ∷ b ∷ rest) in
      let topped : IsTopped (d ∷ es) =
        subst IsTopped e
          (converted-IsTopped 58 (omega arith) 256 a (b ∷ rest) (omega arith) positive) in
      let (x, xs, first, high') = reverse-first d es topped in
      let whole : reverse digits ≡ x ∷ xs = ap reverse (digits_lem ∙ e) ∙ first in
      let fit : All (λ d. d < 58) (x ∷ xs) = subst (All (λ d. d < 58)) whole (
        All-reverse_aux _ digits []
          (subst (All (λ d. d < 58)) (sym digits_lem)
            (times_plus_all-All 58 (omega arith) 256 (0 ∷ []) (a ∷ b ∷ rest) (omega arith)))
          tt) in
      two_of x xs whole fit high' (
        ap (horner 58 0) (sym whole)
        ∙ sym (number-reverse 58 (reverse digits))
        ∙ ap (number 58) (reverse-reverse digits)
        ∙ number-digits)

  -- The two letters follow from where the number lies.
  pub encode-letters :
      (x y : ℕ)
      → y < 58
      → (y + x * 58) * 58 ^ 50 ≤ (b + a * 256) * 256 ^ 36
      → (b + a * 256 + 1) * 256 ^ 36 ≤ (y + x * 58 + 1) * 58 ^ 50
      → (later : List ℕ) × (base58_encode (a ∷ b ∷ rest) ≡ b58_spelled (x ∷ y ∷ later))
        × All (λ d. d < 58) later
  unfolding base58_encode leading copies digits
  encode-letters x y small above below =
      let f = first_two in
      let (r, _, less) = spelled_number in
      let q : f.y + f.x * 58 ≡ y + x * 58 = omega (arith, f.same, f.less, less, above, below) in
      let x_lem : f.x ≡ x = omega (arith, q, f.small, small) in
      let y_lem : f.y ≡ y = omega (arith, q, f.small, small) in
      (f.later, ground (arith, f.from_top, x_lem, y_lem), f.fits)
