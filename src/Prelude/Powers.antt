-- ===== src/Prelude/Powers.antt =====
-- Fields of a number: remainders and quotients by powers of two.
use Prim.Native.Nat.{ℕ, zero, suc, ◌+◌, ◌-◌, ◌*◌, ◌/◌, ◌%◌, ◌^◌, ◌<◌, ◌≤◌}
use native.Mathlib.Nat.{pow-suc, one-le-pow, suc-add, mod-lt}
use mathlib.Core.Path.{◌≡◌, sym, ap, ◌∙◌}
use native.Mathlib.Omega.{arith}

pub pow_positive : (k : ℕ) → 0 < 2 ^ k
pow_positive k = one-le-pow k 2 (omega arith)

pub two-pow-add : (a b : ℕ) → 2 ^ (a + b) ≡ 2 ^ a * 2 ^ b
two-pow-add zero b = grind arith
two-pow-add (suc a) b = grind (arith, suc-add a b, pow-suc 2 (a + b), pow-suc 2 a, two-pow-add a b)

-- The quotient and the remainder are determined by what they add up to.
pub quotient_of : (x q r n : ℕ) → r < n → x ≡ q * n + r → x / n ≡ q
quotient_of x q r n p e = grind arith

pub remainder_of : (x q r n : ℕ) → r < n → x ≡ q * n + r → x % n ≡ r
remainder_of x q r n p e = grind arith

within : (g v p q : ℕ) → g < p → v < q → g * q + v < p * q
within g v p q hg hv = grind arith

joined : (u h p g q v : ℕ) → u ≡ h * p + g → u * q + v ≡ h * (p * q) + (g * q + v)
joined u h p g q v e = grind (arith, ap (λ (t : ℕ). t * q) e)

-- A remainder by a product is a remainder of the quotient beside a remainder.
pub mod-mul : (x p q : ℕ) → 0 < p → 0 < q → x % (p * q) ≡ x / q % p * q + x % q
mod-mul x p q hp hq =
    let v = x % q in
    let low : v < q = grind arith in
    let g = x / q % p in
    let digit : g < p = grind arith in
    let whole : x ≡ x / q * q + v = grind arith in
    let high : x / q ≡ x / q / p * p + g = grind arith in
    remainder_of x (x / q / p) (g * q + v) (p * q) (within g v p q digit low)
      (whole ∙ joined (x / q) (x / q / p) p g q v high)

-- A remainder by a larger power of two does not change a remainder by a smaller one.
pub mod_low : (x low high : ℕ) → low ≤ high → x % 2 ^ high % 2 ^ low ≡ x % 2 ^ low
mod_low x low high h =
    let e : high - low + low ≡ high = omega arith in
    let p = 2 ^ (high - low) in
    let q = 2 ^ low in
    let powers : 2 ^ high ≡ p * q = ap (λ (k : ℕ). 2 ^ k) (sym e) ∙ two-pow-add (high - low) low in
    remainder_of (x % 2 ^ high) (x / q % p) (x % q) q (mod-lt x (pow_positive low))
      (ap (λ t. x % t) powers ∙ mod-mul x p q (pow_positive (high - low)) (pow_positive low))

-- What is shifted out at the top of a word is lost, and the places below are empty.
pub shift_word : (x k width : ℕ) → k ≤ width → x * 2 ^ k % 2 ^ width ≡ x % 2 ^ (width - k) * 2 ^ k
shift_word x k width h =
    let e : width - k + k ≡ width = omega arith in
    let p = 2 ^ (width - k) in
    let q = 2 ^ k in
    let powers : 2 ^ width ≡ p * q = ap (λ (j : ℕ). 2 ^ j) (sym e) ∙ two-pow-add (width - k) k in
    let whole : x * q / q ≡ x = quotient_of (x * q) x 0 q (pow_positive k) (omega arith) in
    let none_left : x * q % q ≡ 0 = remainder_of (x * q) x 0 q (pow_positive k) (omega arith) in
    ap (λ t. x * q % t) powers
    ∙ mod-mul (x * q) p q (pow_positive (width - k)) (pow_positive k)
    ∙ rw (whole, none_left) (omega arith)
