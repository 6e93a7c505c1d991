-- ===== src/Collateral.antt =====
-- packages/digidollar-js/src/index.js: the lock tiers and the collateral of a mint. All amounts are
-- BigInts that are not negative, so the `<= 0n` guards are tests for zero.
pub mod Arithmetic
pub mod Tiers
pub mod Amount
pub mod Order
use diginaut_wallet.Prelude.{
  ℕ, ◌+◌, ◌-◌, ◌*◌, ◌/◌, ◌^◌, String, List, [], ◌∷◌, Option, none, some, Outcome, ok, throw, ◌>>=◌,
  ◌>>◌, throw_if, ltb, ◌==◌, if◌then◌else◌,
}
use diginaut_wallet.Envelope.ScriptNum.{to_number}
use text.Mathlib.Text.{◌==◌ as str_eq}

-- Satoshis per DGB.
abbrev pub coin : ℕ
coin = 100_000_000

abbrev pub max_money : ℕ
max_money = 21_000_000_000 * coin

abbrev pub blocks_per_day : ℕ
blocks_per_day = 24 * 60 * 4

-- 10000 basis points are the factor 1.
abbrev pub dca_bps_scale : ℕ
dca_bps_scale = 10_000

pub record LockTier : Type 0 where
  pub id : String
  pub lock_blocks : ℕ
  pub ratio_percent : ℕ
  pub label : String

unfoldable pub tier : String → ℕ → ℕ → String → LockTier
tier id lock_blocks ratio_percent label = record {
  id = id;
  lock_blocks = lock_blocks;
  ratio_percent = ratio_percent;
  label = label;
}

unfoldable pub lock_tiers : List LockTier
unfolding tier
lock_tiers =
    tier "1hour" 240 1000 "1 hour"
    ∷ tier "30days" (30 * blocks_per_day) 500 "30 days"
    ∷ tier "3months" (90 * blocks_per_day) 400 "3 months"
    ∷ tier "6months" (180 * blocks_per_day) 350 "6 months"
    ∷ tier "1year" (365 * blocks_per_day) 300 "1 year"
    ∷ tier "2years" (2 * 365 * blocks_per_day) 275 "2 years"
    ∷ tier "3years" (3 * 365 * blocks_per_day) 250 "3 years"
    ∷ tier "5years" (5 * 365 * blocks_per_day) 225 "5 years"
    ∷ tier "7years" (7 * 365 * blocks_per_day) 212 "7 years"
    ∷ tier "10years" (10 * 365 * blocks_per_day) 200 "10 years"
    ∷ []

-- `LOCK_TIERS.find((t) => t.id === tierId)`
unfoldable pub find_tier : String → List LockTier → Option LockTier
find_tier tier_id [] = none
find_tier tier_id (t ∷ ts) = if str_eq t.id tier_id then some t else find_tier tier_id ts

unfoldable pub tier_by_id : String → Option LockTier
unfolding find_tier lock_tiers
tier_by_id tier_id = find_tier tier_id lock_tiers

unfoldable pub ceil_div : ℕ → ℕ → ℕ
ceil_div n d = (n + d - 1) / d

unfoldable pub effective_ratio_percent : ℕ → ℕ → ℕ
effective_ratio_percent ratio_percent dca_multiplier_bps =
    to_number (ceil_div (ratio_percent * dca_multiplier_bps) dca_bps_scale)

pub data CollateralError : Type 0 where
  unknown_lock_tier amount_not_positive price_not_positive exceeds_max_money : CollateralError

pub record Quote : Type 0 where
  pub dd_cents : ℕ
  pub tier_id : String
  pub oracle_price_micro_usd : ℕ
  pub dca_multiplier_bps : ℕ

-- ceil(ddCents * COIN * ratio * 100 / priceMicroUsd)
unfoldable pub base_sats : ℕ → ℕ → ℕ → ℕ
base_sats dd_cents ratio price = ceil_div (dd_cents * coin * ratio * 100) price

-- floor(base * 101 / 100)
unfoldable pub with_margin : ℕ → ℕ
with_margin base = base * 101 / 100

unfoldable pub collateral_at : ℕ → Quote → Outcome CollateralError ℕ
collateral_at ratio_percent q = do
  throw_if (q.dd_cents == 0) amount_not_positive
  throw_if (q.oracle_price_micro_usd == 0) price_not_positive
  let effective_ratio = effective_ratio_percent ratio_percent q.dca_multiplier_bps
  let base = base_sats q.dd_cents effective_ratio q.oracle_price_micro_usd
  throw_if (ltb max_money base) exceeds_max_money
  throw_if (ltb max_money (with_margin base)) exceeds_max_money
  ok (with_margin base)

unfoldable pub required_collateral_sats : Quote → Outcome CollateralError ℕ
unfolding collateral_at
required_collateral_sats q = elim (tier_by_id q.tier_id) [
  | none ↦ throw unknown_lock_tier
  | some t ↦ collateral_at t.ratio_percent q
]
