-- ===== src/Envelope/ScriptNum/Nearest.antt =====
-- How far `Number(BigInt)` is from the number.
use diginaut_wallet.Prelude.{
  ℕ, zero, suc, ◌+◌, ◌*◌, ◌/◌, ◌%◌, ◌^◌, ◌<◌, ◌≤◌, ◌≡◌, Bool-cases, ltb, ◌==◌, ◌&&◌, ◌||◌, inl, inr,
  arith,
}
use diginaut_wallet.Envelope.ScriptNum.{ulp, round_even, to_number}

ulp_small : (fuel n : ℕ) → 2 ^ 52 ≤ n → ulp fuel n * 2 ^ 52 ≤ n
unfolding ulp
ulp_small zero n h = omega arith
ulp_small (suc fuel) n h = elim (Bool-cases (ltb n (2 ^ 53))) [
  | inl small ↦ rw small (omega arith)
  | inr large ↦
      let half : 2 ^ 52 ≤ n / 2 = ground arith in
      rw large (omega (arith, ulp_small fuel (n / 2) half))
]

ulp_positive : (fuel n : ℕ) → 0 < ulp fuel n
unfolding ulp
ulp_positive zero n = omega arith
ulp_positive (suc fuel) n = ground (arith, ulp_positive fuel (n / 2))

-- Rounding goes at most half a step up or down.
round_even_near :
    (n u : ℕ) → 0 < u → (2 * round_even n u ≤ 2 * n + u) × (2 * n ≤ 2 * round_even n u + u)
unfolding round_even
round_even_near n u h =
    let whole : n ≡ n / u * u + n % u = grind arith in
    let rest : n % u < u = grind arith in
    let next : (n / u + 1) * u ≡ n / u * u + u = grind arith in
    elim (Bool-cases (ltb u (2 * (n % u)) || 2 * (n % u) == u && n / u % 2 == 1)) [
      | inl up ↦ rw up (ground (arith, whole, rest, next))
      | inr down ↦ rw down (ground (arith, whole, rest, next))
    ]

-- The nearest double is off by at most one part in 2 ^ 53.
pub to_number_near :
    (n : ℕ) → (to_number n * 2 ^ 53 ≤ n * 2 ^ 53 + n) × (n * 2 ^ 53 ≤ to_number n * 2 ^ 53 + n)
unfolding to_number
to_number_near n = elim (Bool-cases (ltb n (2 ^ 53))) [
  | inl small ↦ rw small (omega arith, omega arith)
  | inr large ↦
      let past : 2 ^ 52 ≤ n = ground arith in
      let (up, down) = round_even_near n (ulp 1000 n) (ulp_positive 1000 n) in
      rw large
        (omega (arith, up, ulp_small 1000 n past), omega (arith, down, ulp_small 1000 n past))
]
