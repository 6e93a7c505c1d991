-- ===== src/Address/Checksum/Laws.antt =====
-- The checksum of bech32 is linear: five bits that are put in stay below the top ones for six
-- rounds, so the six digits that the encoder appends cancel the remainder exactly.
use Prim.Native.Nat.{bit_xor}
use diginaut_wallet.Prelude.{
  ℕ, ◌+◌, ◌*◌, ◌/◌, ◌%◌, ◌^◌, ◌<◌, ◌≡◌, refl, sym, ap, ◌∙◌, List, [], ◌∷◌, ◌++◌, arith, All,
  Bool-cases, inl, inr, ◌==◌, if◌then◌else◌,
}
use diginaut_wallet.Prelude.Xor.{
  bit_xor_assoc, bit_xor_comm, bit_xor_zero, zero-bit_xor, bit_xor_scale, bit_xor_low, bit_xor_lt,
  bit_xor_cancel,
}
use diginaut_wallet.Address.Checksum.{
  mix, polymod_step, polymod_from, polymod, generators, checksum_digits, six_zeros,
}

mix-bit_xor : (top i chk : ℕ) (gs : List ℕ) → mix top i chk gs ≡ bit_xor chk (mix top i 0 gs)
unfolding mix
mix-bit_xor top i chk [] = sym (bit_xor_zero chk)
mix-bit_xor top i chk (g ∷ gs) = elim (Bool-cases (top / 2 ^ i % 2 == 1)) [
  | inl odd ↦
      rw (odd, if◌then◌else◌)
        (cc (
          mix-bit_xor top (i + 1) (bit_xor chk g) gs,
          mix-bit_xor top (i + 1) (bit_xor 0 g) gs,
          zero-bit_xor g,
          bit_xor_assoc chk g (mix top (i + 1) 0 gs),
        ))
  | inr even ↦ rw (even, if◌then◌else◌) (mix-bit_xor top (i + 1) chk gs)
]

mix-lt :
    (top i chk : ℕ) (gs : List ℕ)
    → chk < 2 ^ 30
    → All (λ g. g < 2 ^ 30) gs
    → mix top i chk gs < 2 ^ 30
unfolding mix
mix-lt top i chk [] p h = p
mix-lt top i chk (g ∷ gs) p h = elim (Bool-cases (top / 2 ^ i % 2 == 1)) [
  | inl odd ↦
      rw (odd, if◌then◌else◌)
        (mix-lt top (i + 1) (bit_xor chk g) gs (bit_xor_lt 30 chk g p h.0) h.1)
  | inr even ↦ rw (even, if◌then◌else◌) (mix-lt top (i + 1) chk gs p h.1)
]

polymod_step-lt : (chk v : ℕ) → v < 2 ^ 30 → polymod_step chk v < 2 ^ 30
unfolding polymod_step
polymod_step-lt chk v p =
    mix-lt (chk / 2 ^ 25) 0 (bit_xor (chk % 2 ^ 25 * 2 ^ 5) v) generators
      (bit_xor_lt 30 (chk % 2 ^ 25 * 2 ^ 5) v (omega arith) p) (omega arith)

pub polymod_from-lt :
    (chk : ℕ) (vs : List ℕ) → chk < 2 ^ 30 → All (λ v. v < 2 ^ 30) vs → polymod_from chk vs < 2 ^ 30
unfolding polymod_from
polymod_from-lt chk [] p h = p
polymod_from-lt chk (v ∷ vs) p h =
    polymod_from-lt (polymod_step chk v) vs (polymod_step-lt chk v h.0) h.1

pub polymod_from-append :
    (chk : ℕ) (vs ws : List ℕ) → polymod_from chk (vs ++ ws) ≡ polymod_from (polymod_from chk vs) ws
unfolding polymod_from
polymod_from-append chk [] ws = refl
polymod_from-append chk (v ∷ vs) ws = polymod_from-append (polymod_step chk v) vs ws

-- What is in the low bits moves up by five, beside the round without it.
module _ (chk low v : ℕ) (fits : low < 2 ^ 25) (digit : v < 2 ^ 5) where
  low_field : bit_xor chk low ≡ chk / 2 ^ 25 * 2 ^ 25 + bit_xor (chk % 2 ^ 25) low
  low_field =
      let fields : chk ≡ chk / 2 ^ 25 * 2 ^ 25 + chk % 2 ^ 25 = omega arith in
      ap (λ t. bit_xor t low) fields
      ∙ bit_xor_low 25 (chk / 2 ^ 25) (chk % 2 ^ 25) low (omega arith) fits

  kept_top : bit_xor chk low / 2 ^ 25 ≡ chk / 2 ^ 25
  kept_top = omega (arith, low_field, bit_xor_lt 25 (chk % 2 ^ 25) low (omega arith) fits)

  kept_low : bit_xor chk low % 2 ^ 25 ≡ bit_xor (chk % 2 ^ 25) low
  kept_low = omega (arith, low_field, bit_xor_lt 25 (chk % 2 ^ 25) low (omega arith) fits)

  pushed : bit_xor (low * 2 ^ 5) v ≡ low * 2 ^ 5 + v
  pushed =
      let shifted : low * 2 ^ 5 ≡ low * 2 ^ 5 + 0 = omega arith in
      ap (λ t. bit_xor t v) shifted
      ∙ bit_xor_low 5 low 0 v (omega arith) digit
      ∙ ap (λ (t : ℕ). low * 2 ^ 5 + t) (zero-bit_xor v)

  pub polymod_step-bit_xor :
      polymod_step (bit_xor chk low) v ≡ bit_xor (polymod_step chk 0) (low * 2 ^ 5 + v)
  unfolding polymod_step
  polymod_step-bit_xor =
      let top = chk / 2 ^ 25 in
      let shifted = chk % 2 ^ 25 * 2 ^ 5 in
      rw (kept_top, kept_low)
        (cc (
          bit_xor_scale 5 (chk % 2 ^ 25) low,
          pushed,
          bit_xor_zero shifted,
          bit_xor_assoc shifted (low * 2 ^ 5) v,
          mix-bit_xor top 0 (bit_xor shifted (low * 2 ^ 5 + v)) generators,
          mix-bit_xor top 0 shifted generators,
          bit_xor_assoc shifted (low * 2 ^ 5 + v) (mix top 0 0 generators),
          bit_xor_comm (low * 2 ^ 5 + v) (mix top 0 0 generators),
          bit_xor_assoc shifted (mix top 0 0 generators) (low * 2 ^ 5 + v),
        ))

-- One round reads the next digit of x after the digits hi.
digit_in :
    (chk hi v x : ℕ) (vs : List ℕ)
    → hi < 2 ^ 25
    → v < 2 ^ 5
    → hi * 2 ^ 5 + v ≡ x
    → polymod_from (bit_xor chk hi) (v ∷ vs) ≡ polymod_from (bit_xor (polymod_step chk 0) x) vs
unfolding polymod_from
digit_in chk hi v x vs fits digit e =
    ap (λ s. polymod_from s vs)
      (polymod_step-bit_xor chk hi v fits digit ∙ ap (λ t. bit_xor (polymod_step chk 0) t) e)

-- Six digits that are read after a state leave what six zeros leave, with their number put in.
digits_in :
    (chk m : ℕ)
    → m < 2 ^ 30
    → polymod_from chk (checksum_digits m) ≡ bit_xor (polymod_from chk six_zeros) m
unfolding polymod_from checksum_digits
digits_in chk m fits =
    let d = λ (k : ℕ). m / 2 ^ k % 2 ^ 5 in
    let s1 = polymod_step chk 0 in
    let s2 = polymod_step s1 0 in
    let s3 = polymod_step s2 0 in
    let s4 = polymod_step s3 0 in
    let s5 = polymod_step s4 0 in
    ap (λ s. polymod_from s (checksum_digits m)) (sym (bit_xor_zero chk))
    ∙ digit_in chk 0 (d 25) (m / 2 ^ 25) (d 20 ∷ d 15 ∷ d 10 ∷ d 5 ∷ d 0 ∷ []) (omega arith)
        (omega arith) (omega arith)
    ∙ digit_in s1 (m / 2 ^ 25) (d 20) (m / 2 ^ 20) (d 15 ∷ d 10 ∷ d 5 ∷ d 0 ∷ []) (omega arith)
        (omega arith) (omega arith)
    ∙ digit_in s2 (m / 2 ^ 20) (d 15) (m / 2 ^ 15) (d 10 ∷ d 5 ∷ d 0 ∷ []) (omega arith)
        (omega arith) (omega arith)
    ∙ digit_in s3 (m / 2 ^ 15) (d 10) (m / 2 ^ 10) (d 5 ∷ d 0 ∷ []) (omega arith) (omega arith)
        (omega arith)
    ∙ digit_in s4 (m / 2 ^ 10) (d 5) (m / 2 ^ 5) (d 0 ∷ []) (omega arith) (omega arith)
        (omega arith)
    ∙ digit_in s5 (m / 2 ^ 5) (d 0) m [] (omega arith) (omega arith) (omega arith)

-- The digits that the encoder appends make the remainder the constant of the encoding.
pub polymod_checksum :
    (values : List ℕ) (spec : ℕ)
    → All (λ v. v < 2 ^ 30) values
    → spec < 2 ^ 30
    → polymod (values ++ checksum_digits (bit_xor (polymod (values ++ six_zeros)) spec)) ≡ spec
unfolding polymod
polymod_checksum values spec small fits =
    let chk = polymod_from 1 values in
    let rest = polymod_from chk six_zeros in
    rw (polymod_from-append 1 values six_zeros) (
      polymod_from-append 1 values (checksum_digits (bit_xor rest spec))
      ∙ digits_in chk (bit_xor rest spec) (
          bit_xor_lt 30 rest spec
            (polymod_from-lt chk six_zeros (polymod_from-lt 1 values (omega arith) small)
              (omega arith))
            fits)
      ∙ bit_xor_cancel rest spec)
