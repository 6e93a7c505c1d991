-- ===== src/Collateral/Amount.antt =====
-- What `requiredCollateralSats` returns on every branch.
use diginaut_wallet.Prelude.{
  ℕ, ◌+◌, ◌*◌, ◌<◌, ◌≤◌, ◌≡◌, some, ok, throw, ltb, ==_zero, if◌then◌else◌, arith, Option-cases,
  inl, inr,
}
use native.Mathlib.Nat.{mul-le-mul_left, mul-le-mul_right}
use diginaut_wallet.Envelope.ScriptNum.Laws.{to_number-exact}
use diginaut_wallet.Collateral.{
  coin, max_money, dca_bps_scale, LockTier, tier_by_id, ceil_div, effective_ratio_percent, Quote,
  base_sats, with_margin, collateral_at, required_collateral_sats, exceeds_max_money,
}
use diginaut_wallet.Collateral.Arithmetic.{ceil_div_bounds, le-with_margin}
use diginaut_wallet.Collateral.Tiers.{tier_by_id-InTable}

-- The multipliers that the wallet accepts from a node: at most 10, in basis points.
abbrev pub DcaBounded : ℕ → Type 0
DcaBounded bps = bps ≤ 100_000

-- The ratio is the exact ceiling: no double is rounded.
pub effective_ratio-bounds :
    (ratio bps : ℕ)
    → ratio ≤ 1000
    → DcaBounded bps
    → (effective_ratio_percent ratio bps ≡ ceil_div (ratio * bps) dca_bps_scale)
      × (ratio * bps ≤ effective_ratio_percent ratio bps * dca_bps_scale)
      × (effective_ratio_percent ratio bps * dca_bps_scale < ratio * bps + dca_bps_scale)
unfolding effective_ratio_percent
effective_ratio-bounds ratio bps hr hb =
    let (lo, hi) = ceil_div_bounds (ratio * bps) dca_bps_scale (omega arith) in
    let small : ratio * bps ≤ 1000 * 100_000 = grind arith in
    let exact = to_number-exact (ceil_div (ratio * bps) dca_bps_scale) (omega arith) in
    (exact, rw exact lo, rw exact hi)

abbrev pub collateral_of : ℕ → Quote → ℕ
collateral_of ratio q = with_margin (
    base_sats q.dd_cents (effective_ratio_percent ratio q.dca_multiplier_bps)
      q.oracle_price_micro_usd)

collateral_at-eq :
    (ratio : ℕ) (q : Quote)
    → 0 < q.dd_cents
    → 0 < q.oracle_price_micro_usd
    → collateral_at ratio q ≡ (
        if ltb max_money (collateral_of ratio q)
        then throw exceeds_max_money
        else ok (collateral_of ratio q))
unfolding collateral_at
collateral_at-eq ratio q hd hp =
    rw (==_zero q.dd_cents hd, ==_zero q.oracle_price_micro_usd hp)
      (ground (
        arith,
        le-with_margin (
            base_sats q.dd_cents (effective_ratio_percent ratio q.dca_multiplier_bps)
              q.oracle_price_micro_usd),
      ))

-- With a known tier, a positive amount and a positive price the result is the margin of the base
-- amount, unless that is more than all the money there can be: the check of the base amount alone
-- never decides.
pub required_collateral-eq :
    (q : Quote) (t : LockTier)
    → tier_by_id q.tier_id ≡ some t
    → 0 < q.dd_cents
    → 0 < q.oracle_price_micro_usd
    → required_collateral_sats q ≡ (
        if ltb max_money (collateral_of t.ratio_percent q)
        then throw exceeds_max_money
        else ok (collateral_of t.ratio_percent q))
unfolding required_collateral_sats
required_collateral-eq q t e hd hp =
    rw (e, required_collateral_sats) (collateral_at-eq t.ratio_percent q hd hp)

-- What a successful call tells of its arguments.
pub record Accepted (q : Quote) (c : ℕ) : Type 0 where
  pub lock_tier : LockTier
  pub found : tier_by_id q.tier_id ≡ some lock_tier
  pub amount : 0 < q.dd_cents
  pub price : 0 < q.oracle_price_micro_usd
  pub value : collateral_of lock_tier.ratio_percent q ≡ c
  pub capped : c ≤ max_money

module _ (ratio : ℕ) (q : Quote) {c : ℕ} (h : collateral_at ratio q ≡ ok c) where
  collateral_at-positive : (0 < q.dd_cents) × (0 < q.oracle_price_micro_usd)
  unfolding collateral_at
  collateral_at-positive = ground arith

  collateral_at-value : (collateral_of ratio q ≡ c) × (c ≤ max_money)
  collateral_at-value =
      let (hd, hp) = collateral_at-positive in ground (arith, collateral_at-eq ratio q hd hp)

required_collateral-some :
    (q : Quote) {c : ℕ}
    → required_collateral_sats q ≡ ok c
    → (t : LockTier) × (tier_by_id q.tier_id ≡ some t) × (collateral_at t.ratio_percent q ≡ ok c)
unfolding required_collateral_sats
required_collateral-some q h = elim (Option-cases (tier_by_id q.tier_id)) [
  | inl e ↦ cc (rw (e, required_collateral_sats) at h)
  | inr (t, e) ↦ (t, e, rw (e, required_collateral_sats) at h)
]

-- What a successful call tells of its arguments and its result.
pub required_collateral-Accepted :
    (q : Quote) {c : ℕ} → required_collateral_sats q ≡ ok c → Accepted q c
required_collateral-Accepted q h =
    let (t, e, at) = required_collateral-some q h in
    let (amount, price) = collateral_at-positive t.ratio_percent q at in
    let (value, capped) = collateral_at-value t.ratio_percent q at in
    record {
      lock_tier = t;
      found = e;
      amount = amount;
      price = price;
      value = value;
      capped = capped;
    }

base_sats_covers :
    (cents eff price : ℕ) → 0 < price → cents * coin * eff * 100 ≤ base_sats cents eff price * price
unfolding base_sats
base_sats_covers cents eff price h = (ceil_div_bounds (cents * coin * eff * 100) price h).0

-- The inequalities of the formula, from the ratio on.
formula_covers :
    (cents ratio bps eff price base c : ℕ)
    → ratio * bps ≤ eff * dca_bps_scale
    → cents * coin * eff * 100 ≤ base * price
    → base ≤ c
    → cents * coin * (ratio * bps) * 100 ≤ c * price * dca_bps_scale
formula_covers cents ratio bps eff price base c h k l =
    omega (arith, mul-le-mul_left cents h, mul-le-mul_right price l)

-- Every collateral that is returned is at most MAX_MONEY, and it is worth, at the oracle's price, at
-- least the amount times the tier's ratio times the multiplier, for multipliers of at most 10.
pub required_collateral-covers :
    (q : Quote) (t : LockTier) (c : ℕ)
    → DcaBounded q.dca_multiplier_bps
    → tier_by_id q.tier_id ≡ some t
    → required_collateral_sats q ≡ ok c
    → (c ≤ max_money)
      × (q.dd_cents * coin * (t.ratio_percent * q.dca_multiplier_bps) * 100
          ≤ c * q.oracle_price_micro_usd * dca_bps_scale)
required_collateral-covers q t c hb found h =
    let a = required_collateral-Accepted q h in
    let ratio = t.ratio_percent in
    let eff = effective_ratio_percent ratio q.dca_multiplier_bps in
    let base = base_sats q.dd_cents eff q.oracle_price_micro_usd in
    let (_, enough, _) =
      effective_ratio-bounds ratio q.dca_multiplier_bps (tier_by_id-InTable q.tier_id found).0.1
        hb in
    let value : with_margin base ≡ c =
      ground (arith, required_collateral-eq q t found a.amount a.price) in
    (
      a.capped,
      formula_covers q.dd_cents ratio q.dca_multiplier_bps eff q.oracle_price_micro_usd base c
          enough (base_sats_covers q.dd_cents eff q.oracle_price_micro_usd a.price)
          (omega (arith, le-with_margin base, value)),
    )
