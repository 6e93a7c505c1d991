-- ===== src/Address/Base58/Digits.antt =====
-- Numbers in a base, the least significant digit first, under one round of the source.
use diginaut_wallet.Prelude.{
  ℕ, zero, suc, ◌+◌, ◌*◌, ◌/◌, ◌%◌, ◌<◌, ◌≤◌, ◌≡◌, refl, sym, subst, ap, ◌∙◌, List, [], ◌∷◌, arith,
  All, ◌==◌, if◌then◌else◌, Bool-cases, inl, inr, ==_iff, false,
}
use native.Mathlib.Nat.{mod-lt, mod-add-div', le_refl}
use diginaut_wallet.Prelude.Powers.{quotient_of}
use diginaut_wallet.Address.Base58.{push_carry, times_plus}

unfoldable pub number : ℕ → List ℕ → ℕ
number base [] = 0
number base (d ∷ ds) = d + number base ds * base

-- The digit at the top is not zero. No digits at all stand for zero.
abbrev pub IsTopped : List ℕ → Type 0
IsTopped [] = Unit
IsTopped (d ∷ []) = 0 < d
IsTopped (d ∷ e ∷ ds) = IsTopped (e ∷ ds)

spread :
    (r q m factor base carry d : ℕ)
    → r + q * base ≡ carry + d * factor
    → r + (q + m * factor) * base ≡ carry + (d + m * base) * factor
spread r q m factor base carry d e = grind (arith, e)

pub product_positive : (c n f : ℕ) → 0 < n → 0 < f → 0 < c + n * f
product_positive c n f p q = grind arith

tail-IsTopped : (d : ℕ) (ds : List ℕ) → IsTopped (d ∷ ds) → IsTopped ds
tail-IsTopped d [] t = tt
tail-IsTopped d (e ∷ ds) t = t

module _ (base : ℕ) (radix : 2 ≤ base) where
  whole : (n : ℕ) → n % base + n / base * base ≡ n
  whole n = mod-add-div' n base

  digit-lt : (n : ℕ) → n % base < base
  digit-lt n = mod-lt n (omega arith)

  fewer : (n fuel : ℕ) → n ≤ suc fuel → (n == 0) ≡ false → n / base ≤ fuel
  fewer n fuel enough positive = grind arith

  number-push_carry :
      (fuel carry : ℕ) → carry ≤ fuel → number base (push_carry fuel base carry) ≡ carry
  unfolding number push_carry
  number-push_carry zero carry enough = omega arith
  number-push_carry (suc fuel) carry enough = elim (Bool-cases (carry == 0)) [
    | inl done ↦ rw (done, if◌then◌else◌) (sym ((==_iff carry 0).0 done))
    | inr more ↦
        rw (more, if◌then◌else◌)
          (ap (λ (t : ℕ). carry % base + t * base)
              (number-push_carry fuel (carry / base) (fewer carry fuel enough more))
            ∙ whole carry)
  ]

  pub push_carry-All : (fuel carry : ℕ) → All (λ d. d < base) (push_carry fuel base carry)
  unfolding push_carry
  push_carry-All zero carry = tt
  push_carry-All (suc fuel) carry = elim (Bool-cases (carry == 0)) [
    | inl done ↦ rw (done, if◌then◌else◌) tt
    | inr more ↦ rw (more, if◌then◌else◌) (digit-lt carry, push_carry-All fuel (carry / base))
  ]

  -- A digit on top of topped digits, or a positive digit on top.
  IsTopped-below :
      (x n : ℕ) (ds : List ℕ)
      → number base ds ≡ n
      → IsTopped ds
      → 0 < x + n * base
      → IsTopped (x ∷ ds)
  unfolding number
  IsTopped-below x n [] e t positive =
      let e' : n * base ≡ 0 = ap (λ (k : ℕ). k * base) (sym e) ∙ omega arith in omega arith
  IsTopped-below x n (d ∷ ds) e t positive = t

  push_carry-IsTopped : (fuel carry : ℕ) → carry ≤ fuel → IsTopped (push_carry fuel base carry)
  unfolding push_carry
  push_carry-IsTopped zero carry enough = tt
  push_carry-IsTopped (suc fuel) carry enough = elim (Bool-cases (carry == 0)) [
    | inl done ↦ rw (done, if◌then◌else◌) tt
    | inr more ↦
        rw (more, if◌then◌else◌)
          (IsTopped-below (carry % base) (carry / base) (push_carry fuel base (carry / base))
            (number-push_carry fuel (carry / base) (fewer carry fuel enough more))
            (push_carry-IsTopped fuel (carry / base) (fewer carry fuel enough more))
            (subst (λ t. 0 < t) (sym (whole carry)) (ground (arith, more))))
  ]

  number-positive : (d : ℕ) (ds : List ℕ) → IsTopped (d ∷ ds) → 0 < number base (d ∷ ds)
  unfolding number
  number-positive d [] t = omega arith
  number-positive d (e ∷ ds) t =
      product_positive d (number base (e ∷ ds)) base (number-positive e ds t) (omega arith)

  module _ (factor : ℕ) where
    pub number-times_plus :
        (carry : ℕ) (ds : List ℕ)
        → number base (times_plus base factor carry ds) ≡ carry + number base ds * factor
    unfolding number times_plus
    number-times_plus carry [] = number-push_carry carry carry (le_refl _) ∙ omega arith
    number-times_plus carry (d ∷ ds) =
        let n = carry + d * factor in
        ap (λ (t : ℕ). n % base + t * base) (number-times_plus (n / base) ds)
        ∙ spread (n % base) (n / base) (number base ds) factor base carry d (whole n)

    pub times_plus-All :
        (carry : ℕ) (ds : List ℕ) → All (λ d. d < base) (times_plus base factor carry ds)
    unfolding times_plus
    times_plus-All carry [] = push_carry-All carry carry
    times_plus-All carry (d ∷ ds) =
        (digit-lt (carry + d * factor), times_plus-All ((carry + d * factor) / base) ds)

    -- With a positive value the digits stay topped, also where the only digit was a zero.
    pub times_plus-IsTopped :
        (carry : ℕ) (ds : List ℕ)
        → 0 < factor
        → IsTopped ds
        → IsTopped (times_plus base factor carry ds)
    unfolding times_plus number
    times_plus-IsTopped carry [] positive t = push_carry-IsTopped carry carry (le_refl _)
    times_plus-IsTopped carry (d ∷ ds) positive t =
        let n = carry + d * factor in
        IsTopped-below (n % base) (number base (times_plus base factor (n / base) ds))
          (times_plus base factor (n / base) ds) refl
          (times_plus-IsTopped (n / base) ds positive (tail-IsTopped d ds t))
          (subst (λ v. 0 < v) (sym (number-times_plus carry (d ∷ ds)))
            (product_positive carry (number base (d ∷ ds)) factor (number-positive d ds t)
              positive))

    -- The zero that the loop starts from goes with the first digit that is not zero.
    pub times_plus-zero : (carry : ℕ) → 0 < carry → IsTopped (times_plus base factor carry (0 ∷ []))
    unfolding times_plus
    times_plus-zero carry positive =
        let n = carry + 0 * factor in
        IsTopped-below (n % base) (n / base) (push_carry (n / base) base (n / base))
          (number-push_carry (n / base) (n / base) (le_refl _))
          (push_carry-IsTopped (n / base) (n / base) (le_refl _))
          (subst (λ v. 0 < v) (sym (whole n)) (omega arith))

  pub number_unique :
      (xs ys : List ℕ)
      → All (λ d. d < base) xs
      → All (λ d. d < base) ys
      → IsTopped xs
      → IsTopped ys
      → number base xs ≡ number base ys
      → xs ≡ ys
  unfolding number
  number_unique [] [] p q t u e = refl
  number_unique [] (y ∷ ys) p q t u e = absurd (omega (arith, e, number-positive y ys u))
  number_unique (x ∷ xs) [] p q t u e = absurd (omega (arith, e, number-positive x xs t))
  number_unique (x ∷ xs) (y ∷ ys) p q t u e =
      let high : number base xs ≡ number base ys =
        sym (quotient_of (number base xs * base + x) (number base xs) x base p.0 refl)
        ∙ quotient_of (number base xs * base + x) (number base ys) y base q.0 (omega (arith, e)) in
      let low : x ≡ y = omega (arith, e, ap (λ (t : ℕ). t * base) high) in
      let rest = number_unique xs ys p.1 q.1 (tail-IsTopped x xs t) (tail-IsTopped y ys u) high in
      cc
