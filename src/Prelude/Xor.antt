-- ===== src/Prelude/Xor.antt =====
-- `^` and `|` on the native numbers. They mean a recursion on binary digits with fuel; more fuel
-- than the first number changes nothing, and so both have an equation for halves and lowest digits,
-- from which the laws follow.
use Prim.Native.Nat.{bit_or, bit_xor, max, digits, bitwise, differ, bit_or-bitwise, bit_xor-bitwise}
use native.Mathlib.Nat.{pow-suc, one-le-pow}
use mathlib.Core.Path.{◌≡◌, refl, sym, ap, ◌∙◌}
use Prim.Native.Nat.{ℕ, zero, suc, ◌+◌, ◌-◌, ◌*◌, ◌/◌, ◌%◌, ◌^◌, ◌≤◌, ◌<◌}
use native.Mathlib.Omega.{arith}

module _ (f : ℕ → ℕ → ℕ) where
  one_round_more :
      (rounds x y : ℕ)
      → x ≤ rounds
      → digits (λ y. y) f (suc rounds) x y ≡ digits (λ y. y) f rounds x y
  one_round_more zero zero y low = refl
  one_round_more zero (suc x) y low = absurd (omega arith)
  one_round_more (suc rounds) zero y low = refl
  one_round_more (suc rounds) (suc x) y low =
      ap (λ (high : ℕ). high * 2 + f (suc x % 2) (y % 2))
        (one_round_more rounds (suc x / 2) (y / 2) (omega arith))

  rounds_to_spare : (more x y : ℕ) → digits (λ y. y) f (x + more) x y ≡ bitwise (λ y. y) f x y
  rounds_to_spare zero x y =
      let same : x + 0 ≡ x = omega arith in ap (λ (n : ℕ). digits (λ y. y) f n x y) same
  rounds_to_spare (suc more) x y =
      let grown : x + suc more ≡ suc (x + more) = omega arith in
      ap (λ (n : ℕ). digits (λ y. y) f n x y) grown
      ∙ one_round_more (x + more) x y (omega arith)
      ∙ rounds_to_spare more x y

  halved :
      (left_unit : (y : ℕ) → f 0 y ≡ y) (x y : ℕ)
      → bitwise (λ y. y) f x y ≡ f (x % 2) (y % 2) + 2 * bitwise (λ y. y) f (x / 2) (y / 2)
  halved left_unit zero y = omega (arith, left_unit (y % 2))
  halved left_unit (suc x) y =
      let h = suc x / 2 in
      let all : h + (x - h) ≡ x = omega arith in
      let enough : digits (λ y. y) f x h (y / 2) ≡ bitwise (λ y. y) f h (y / 2) =
        ap (λ (n : ℕ). digits (λ y. y) f n h (y / 2)) (sym all)
        ∙ rounds_to_spare (x - h) h (y / 2) in
      omega (arith, enough)

or_halved : (a b : ℕ) → bit_or a b ≡ max (a % 2) (b % 2) + 2 * bit_or (a / 2) (b / 2)
or_halved a b = simp bit_or-bitwise (halved max (λ y. omega arith) a b)

xor_halved : (a b : ℕ) → bit_xor a b ≡ differ (a % 2) (b % 2) + 2 * bit_xor (a / 2) (b / 2)
xor_halved a b = simp bit_xor-bitwise (halved differ (λ y. refl) a b)

differ_binary : (x y : ℕ) → x < 2 → y < 2 → differ x y ≡ (x + y) % 2
differ_binary zero y p q = omega arith
differ_binary (suc zero) zero p q = omega arith
differ_binary (suc zero) (suc zero) p q = omega arith
differ_binary (suc zero) (suc (suc y)) p q = absurd (omega arith)
differ_binary (suc (suc x)) y p q = absurd (omega arith)

pub bit_xor_digits :
    (a b : ℕ) → (bit_xor a b / 2 ≡ bit_xor (a / 2) (b / 2)) × (bit_xor a b % 2 ≡ (a + b) % 2)
bit_xor_digits a b = (
  omega (arith, xor_halved a b, differ_binary (a % 2) (b % 2) (omega arith) (omega arith)),
  omega (arith, xor_halved a b, differ_binary (a % 2) (b % 2) (omega arith) (omega arith)),
)

pub zero-bit_xor : (b : ℕ) → bit_xor 0 b ≡ b
zero-bit_xor b = simp bit_xor-bitwise refl

-- Numbers with the same halves and the same lowest digits are the same.
bit_xor_comm_below : (n a b : ℕ) → a ≤ n → b ≤ n → bit_xor a b ≡ bit_xor b a
bit_xor_comm_below zero zero zero p q = refl
bit_xor_comm_below zero zero (suc b) p q = absurd (omega arith)
bit_xor_comm_below zero (suc a) b p q = absurd (omega arith)
bit_xor_comm_below (suc n) a b p q = omega (
  arith,
  bit_xor_digits a b,
  bit_xor_digits b a,
  bit_xor_comm_below n (a / 2) (b / 2) (omega arith) (omega arith),
)

pub bit_xor_comm : (a b : ℕ) → bit_xor a b ≡ bit_xor b a
bit_xor_comm a b = bit_xor_comm_below (a + b) a b (omega arith) (omega arith)

pub bit_xor_zero : (a : ℕ) → bit_xor a 0 ≡ a
bit_xor_zero a = bit_xor_comm a 0 ∙ zero-bit_xor a

bit_xor_self_below : (n a : ℕ) → a ≤ n → bit_xor a a ≡ 0
bit_xor_self_below zero zero p = refl
bit_xor_self_below zero (suc a) p = absurd (omega arith)
bit_xor_self_below (suc n) a p =
    omega (arith, bit_xor_digits a a, bit_xor_self_below n (a / 2) (omega arith))

pub bit_xor_self : (a : ℕ) → bit_xor a a ≡ 0
bit_xor_self a = bit_xor_self_below a a (omega arith)

bit_xor_assoc_below :
    (n a b c : ℕ) → a ≤ n → b ≤ n → c ≤ n → bit_xor (bit_xor a b) c ≡ bit_xor a (bit_xor b c)
bit_xor_assoc_below zero a b c p q r =
    let ea : a ≡ 0 = omega arith in
    let eb : b ≡ 0 = omega arith in let ec : c ≡ 0 = omega arith in rw (ea, eb, ec) refl
bit_xor_assoc_below (suc n) a b c p q r = omega (
  arith,
  bit_xor_digits a b,
  bit_xor_digits b c,
  bit_xor_digits (bit_xor a b) c,
  bit_xor_digits a (bit_xor b c),
  ap (λ (t : ℕ). bit_xor t (c / 2)) (bit_xor_digits a b).0,
  ap (λ (t : ℕ). bit_xor (a / 2) t) (bit_xor_digits b c).0,
  bit_xor_assoc_below n (a / 2) (b / 2) (c / 2) (omega arith) (omega arith) (omega arith),
)

pub bit_xor_assoc : (a b c : ℕ) → bit_xor (bit_xor a b) c ≡ bit_xor a (bit_xor b c)
bit_xor_assoc a b c =
    bit_xor_assoc_below (a + b + c) a b c (omega arith) (omega arith) (omega arith)

-- What is put in twice is gone.
pub bit_xor_cancel : (a b : ℕ) → bit_xor a (bit_xor a b) ≡ b
bit_xor_cancel a b =
    sym (bit_xor_assoc a a b) ∙ ap (λ t. bit_xor t b) (bit_xor_self a) ∙ zero-bit_xor b

shifted_twice : (q k : ℕ) → q * 2 ^ suc k ≡ 2 * (q * 2 ^ k)
shifted_twice q k = omega (arith, ap (λ (t : ℕ). q * t) (pow-suc 2 k))

-- High and low fields are combined one by one.
pub bit_xor_fields :
    (k q r s t : ℕ)
    → r < 2 ^ k
    → t < 2 ^ k
    → bit_xor (q * 2 ^ k + r) (s * 2 ^ k + t) ≡ bit_xor q s * 2 ^ k + bit_xor r t
bit_xor_fields zero q r s t p p' =
    let er : r ≡ 0 = omega arith in
    let et : t ≡ 0 = omega arith in rw (er, et) (ground (arith, zero-bit_xor 0))
bit_xor_fields (suc k) q r s t p p' = ground (
  arith,
  bit_xor_digits (q * 2 ^ suc k + r) (s * 2 ^ suc k + t),
  bit_xor_digits r t,
  shifted_twice q k,
  shifted_twice s k,
  shifted_twice (bit_xor q s) k,
  bit_xor_fields k q (r / 2) s (t / 2) (omega (arith, pow-suc 2 k)) (omega (arith, pow-suc 2 k)),
)

pub bit_xor_lt : (k a b : ℕ) → a < 2 ^ k → b < 2 ^ k → bit_xor a b < 2 ^ k
bit_xor_lt zero a b p q =
    let ea : a ≡ 0 = omega arith in
    let eb : b ≡ 0 = omega arith in rw (ea, eb) (ground (arith, zero-bit_xor 0))
bit_xor_lt (suc k) a b p q = omega (
  arith,
  pow-suc 2 k,
  bit_xor_digits a b,
  bit_xor_lt k (a / 2) (b / 2) (omega (arith, pow-suc 2 k)) (omega (arith, pow-suc 2 k)),
)

pub bit_xor_at :
    (k q r s t x y : ℕ)
    → r < 2 ^ k
    → t < 2 ^ k
    → x ≡ q * 2 ^ k + r
    → y ≡ s * 2 ^ k + t
    → bit_xor x y ≡ bit_xor q s * 2 ^ k + bit_xor r t
bit_xor_at k q r s t x y p p' ex ey = rw (ex, ey) (bit_xor_fields k q r s t p p')

-- A shift goes into both sides, and what is put into its empty places is added.
pub bit_xor_scale : (k q s : ℕ) → bit_xor (q * 2 ^ k) (s * 2 ^ k) ≡ bit_xor q s * 2 ^ k
bit_xor_scale k q s =
    let positive : 0 < 2 ^ k = one-le-pow k 2 (omega arith) in
    omega (
      arith,
      zero-bit_xor 0,
      bit_xor_at k q 0 s 0 (q * 2 ^ k) (s * 2 ^ k) positive positive (omega arith) (omega arith),
    )

pub bit_xor_low :
    (k q r t : ℕ) → r < 2 ^ k → t < 2 ^ k → bit_xor (q * 2 ^ k + r) t ≡ q * 2 ^ k + bit_xor r t
bit_xor_low k q r t p p' = omega (
  arith,
  bit_xor_at k q r 0 t (q * 2 ^ k + r) t p p' refl (omega arith),
  ap (λ (u : ℕ). u * 2 ^ k) (bit_xor_zero q),
)

-- `(q << k) | r` is a sum when `r` fits into k bits.
bit_or_zero : (n a : ℕ) → a ≤ n → bit_or a 0 ≡ a
bit_or_zero zero zero p = refl
bit_or_zero zero (suc a) p = absurd (omega arith)
bit_or_zero (suc n) a p = omega (arith, or_halved a 0, bit_or_zero n (a / 2) (omega arith))

pub bit_or_low : (k q r : ℕ) → r < 2 ^ k → bit_or (q * 2 ^ k) r ≡ q * 2 ^ k + r
bit_or_low zero q r p =
    let er : r ≡ 0 = omega arith in ground (arith, er, bit_or_zero q q (omega arith))
bit_or_low (suc k) q r p = ground (
  arith,
  or_halved (q * 2 ^ suc k) r,
  shifted_twice q k,
  bit_or_low k q (r / 2) (omega (arith, pow-suc 2 k)),
)
