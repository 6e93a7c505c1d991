-- ===== src/Indexer/Positions/Rounded.antt =====
-- `Math.round(value * 1e8)` of apps/indexer/server.js, from DGB as a double to satoshis.
use diginaut_wallet.Prelude.{ℕ, ◌+◌, ◌-◌, ◌*◌, ◌/◌, ◌^◌, ◌<◌, ◌≤◌, ◌≡◌, ◌∙◌, ap, arith}
use diginaut_wallet.Prelude.Powers.{two-pow-add, quotient_of, pow_positive}
use diginaut_wallet.Envelope.ScriptNum.{to_number}
use diginaut_wallet.Envelope.ScriptNum.Nearest.{to_number_near}
use diginaut_wallet.Indexer.Scan.{Double}
use diginaut_wallet.Indexer.Positions.{sats_of}

-- The double stands for so many satoshis in DGB, as near as the nearest double does: off by at most
-- one part in 2 ^ 53.
abbrev pub IsNearest : ℕ → Double → Type 0
IsNearest sats value =
    let exact = sats * 2 ^ value.halvings in
    (value.mantissa * 10 ^ 8 * 2 ^ 53 ≤ exact * 2 ^ 53 + exact)
    × (exact * 2 ^ 53 ≤ value.mantissa * 10 ^ 8 * 2 ^ 53 + exact)

scaled_below : (v h : ℕ) → v < 2 ^ 51 → v * h ≤ (2 ^ 51 - 1) * h
scaled_below v h p = grind arith

-- Two roundings of one part in 2 ^ 53 leave less than half a satoshi.
within_half :
    (number product exact half : ℕ)
    → 0 < half
    → exact ≤ (2 ^ 51 - 1) * half
    → number * 2 ^ 53 ≤ product * 2 ^ 53 + product
    → product * 2 ^ 53 ≤ number * 2 ^ 53 + product
    → product * 2 ^ 53 ≤ exact * 2 ^ 53 + exact
    → exact * 2 ^ 53 ≤ product * 2 ^ 53 + exact
    → (2 * exact ≤ 2 * number + half) × (2 * number < 2 * exact + half)
within_half number product exact half pos small a b c d = (omega arith, omega arith)

divided :
    (number v half : ℕ)
    → 2 * (v * half) ≤ 2 * number + half
    → 2 * number < 2 * (v * half) + half
    → (2 * number + half) / (half * 2) ≡ v
divided number v half low high =
    let twice : v * (half * 2) ≡ 2 * (v * half) = grind arith in
    quotient_of (2 * number + half) v (2 * number + half - 2 * (v * half)) (half * 2) (omega arith)
      (omega arith)

-- From a double that is at most one part in 2 ^ 53 away from so many satoshis in DGB, fewer
-- than 2 ^ 51 of them, `Math.round(value * 1e8)` gives exactly that many satoshis, although
-- the product is rounded a second time.
pub sats_of-IsNearest :
    (sats : ℕ) (value : Double) → sats < 2 ^ 51 → IsNearest sats value → sats_of value ≡ sats
unfolding sats_of
sats_of-IsNearest sats value few (high, low) =
    let half = 2 ^ value.halvings in
    let product = value.mantissa * 10 ^ 8 in
    let number = to_number product in
    let (up, down) = to_number_near product in
    let (a, b) =
      within_half number product (sats * half) half (pow_positive value.halvings)
        (scaled_below sats half few) up down high low in
    ap (λ d. (2 * number + half) / d) (two-pow-add value.halvings 1) ∙ divided number sats half a b
