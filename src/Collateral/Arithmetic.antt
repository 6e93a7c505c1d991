-- ===== src/Collateral/Arithmetic.antt =====
-- The arithmetic of the collateral formula.
use diginaut_wallet.Prelude.{ℕ, ◌+◌, ◌*◌, ◌<◌, ◌≤◌, arith}
use diginaut_wallet.Collateral.{ceil_div, with_margin}

-- `ceilDiv(n, d)` is the least number whose product with `d` reaches `n`.
pub ceil_div_bounds : (n d : ℕ) → 0 < d → (n ≤ ceil_div n d * d) × (ceil_div n d * d < n + d)
unfolding ceil_div
ceil_div_bounds n d h = (omega arith, omega arith)

pub ceil_div_least : (n d k : ℕ) → 0 < d → n ≤ k * d → ceil_div n d ≤ k
ceil_div_least n d k h e = grind (arith, ceil_div_bounds n d h)

pub ceil_div_mono : (n m d : ℕ) → 0 < d → n ≤ m → ceil_div n d ≤ ceil_div m d
ceil_div_mono n m d h e = ceil_div_least n d (ceil_div m d) h (omega (arith, ceil_div_bounds m d h))

pub ceil_div_anti : (n d e : ℕ) → 0 < d → d ≤ e → ceil_div n e ≤ ceil_div n d
ceil_div_anti n d e h k =
    ceil_div_least n e (ceil_div n d) (omega arith) (grind (arith, ceil_div_bounds n d h))

pub with_margin_mono : (a b : ℕ) → a ≤ b → with_margin a ≤ with_margin b
unfolding with_margin
with_margin_mono a b h = omega arith

pub le-with_margin : (a : ℕ) → a ≤ with_margin a
unfolding with_margin
le-with_margin a = omega arith
