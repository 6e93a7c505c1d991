-- ===== src/Tests/Collateral.antt =====
-- Runs of the collateral formula, and its theorems at concrete inputs.
use diginaut_wallet.Prelude.{◌*◌, ◌<◌, ◌≤◌, ◌≡◌, refl, some, ok, throw, arith, get_elem?}
use diginaut_wallet.Envelope.ScriptNum.{to_number}
use diginaut_wallet.Collateral.{
  coin, max_money, dca_bps_scale, LockTier, lock_tiers, tier_by_id, Quote, effective_ratio_percent,
  required_collateral_sats, unknown_lock_tier, ceil_div, base_sats, with_margin,
}
use diginaut_wallet.Collateral.Amount.{required_collateral-covers}
use diginaut_wallet.Collateral.Tiers.{lock_tiers-graded}

-- 50 dollars for six months at 2 cents a DGB and a healthy network.
abbrev quote : Quote
quote = record {
  dd_cents = 5000;
  tier_id = "6months";
  oracle_price_micro_usd = 20_000;
  dca_multiplier_bps = 10_000;
}

abbrev six_months : LockTier
six_months = record {
  id = "6months";
  lock_blocks = 1_036_800;
  ratio_percent = 350;
  label = "6 months";
}

quote_tier : tier_by_id "6months" ≡ some six_months
unfolding tier_by_id
quote_tier = refl

quote_run : required_collateral_sats quote ≡ ok 883_750_000_000
unfolding required_collateral_sats tier_by_id effective_ratio_percent to_number ceil_div base_sats
    with_margin
quote_run = refl

unknown_tier_run :
    required_collateral_sats (record quote { tier_id = "9years" }) ≡ throw unknown_lock_tier
unfolding required_collateral_sats tier_by_id
unknown_tier_run = refl

required_collateral-covers_example :
    (883_750_000_000 ≤ max_money)
    × (5000 * coin * (350 * 10_000) * 100 ≤ 883_750_000_000 * 20_000 * dca_bps_scale)
required_collateral-covers_example =
    required_collateral-covers quote six_months 883_750_000_000 (omega arith) quote_tier quote_run

abbrev ten_years : LockTier
ten_years = record {
  id = "10years";
  lock_blocks = 21_024_000;
  ratio_percent = 200;
  label = "10 years";
}

third_tier : get_elem? lock_tiers 3 ≡ some six_months
unfolding lock_tiers
third_tier = refl

last_tier : get_elem? lock_tiers 9 ≡ some ten_years
unfolding lock_tiers
last_tier = refl

lock_tiers-graded_example :
    (six_months.lock_blocks < ten_years.lock_blocks)
    × (ten_years.ratio_percent < six_months.ratio_percent)
lock_tiers-graded_example =
    lock_tiers-graded 3 9 six_months ten_years (omega arith) third_tier last_tier
