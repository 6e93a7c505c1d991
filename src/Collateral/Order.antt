-- ===== src/Collateral/Order.antt =====
-- The collateral follows the amount, the price and the multiplier.
use diginaut_wallet.Prelude.{ℕ, ◌*◌, ◌<◌, ◌≤◌, ◌≡◌, some, ok, arith, ap, ◌∙◌}
use native.Mathlib.Nat.{mul-le-mul, le_trans, mul-le-mul_left}
use diginaut_wallet.Collateral.{
  coin, dca_bps_scale, tier_by_id, effective_ratio_percent, Quote, base_sats,
  required_collateral_sats,
}
use diginaut_wallet.Collateral.Arithmetic.{ceil_div_mono, ceil_div_anti, with_margin_mono}
use diginaut_wallet.Collateral.Tiers.{tier_by_id-InTable}
use diginaut_wallet.Collateral.Amount.{
  DcaBounded, effective_ratio-bounds, collateral_of, required_collateral-eq,
  required_collateral-Accepted,
}

effective_ratio_mono :
    (ratio bps bps' : ℕ)
    → ratio ≤ 1000
    → DcaBounded bps'
    → bps ≤ bps'
    → effective_ratio_percent ratio bps ≤ effective_ratio_percent ratio bps'
effective_ratio_mono ratio bps bps' hr hb h =
    let less = effective_ratio-bounds ratio bps hr (omega arith) in
    let more = effective_ratio-bounds ratio bps' hr hb in
    let step =
      ceil_div_mono (ratio * bps) (ratio * bps') dca_bps_scale (omega arith)
        (mul-le-mul_left ratio h) in
    omega (arith, less.0, more.0, step)

base_sats_mono :
    (cents cents' eff eff' price price' : ℕ)
    → cents ≤ cents'
    → eff ≤ eff'
    → 0 < price'
    → price' ≤ price
    → base_sats cents eff price ≤ base_sats cents' eff' price'
unfolding base_sats
base_sats_mono cents cents' eff eff' price price' hc he hp h =
    le_trans
      (ceil_div_mono (cents * coin * eff * 100) (cents' * coin * eff' * 100) price (omega arith)
        (omega (arith, mul-le-mul hc he)))
      (ceil_div_anti (cents' * coin * eff' * 100) price' price hp h)

-- If a quote is accepted, so is every quote of the same tier with a smaller positive amount, at a
-- price that is no lower and a multiplier that is no higher (and at most 10); and it locks no more.
pub required_collateral_mono :
    (q q' : Quote) (c' : ℕ)
    → q.tier_id ≡ q'.tier_id
    → 0 < q.dd_cents
    → q.dd_cents ≤ q'.dd_cents
    → q'.oracle_price_micro_usd ≤ q.oracle_price_micro_usd
    → q.dca_multiplier_bps ≤ q'.dca_multiplier_bps
    → DcaBounded q'.dca_multiplier_bps
    → required_collateral_sats q' ≡ ok c'
    → (c : ℕ) × (required_collateral_sats q ≡ ok c) × (c ≤ c')
required_collateral_mono q q' c' same hd hc hp hm hb h =
    let a = required_collateral-Accepted q' h in
    let t = a.lock_tier in
    let found : tier_by_id q.tier_id ≡ some t = ap tier_by_id same ∙ a.found in
    let eff =
      effective_ratio_mono t.ratio_percent q.dca_multiplier_bps q'.dca_multiplier_bps
        (tier_by_id-InTable q'.tier_id a.found).0.1 hb hm in
    let less : collateral_of t.ratio_percent q ≤ collateral_of t.ratio_percent q' =
      with_margin_mono _ _ (
        base_sats_mono q.dd_cents q'.dd_cents _ _ q.oracle_price_micro_usd q'.oracle_price_micro_usd
          hc eff a.price hp) in
    (
      collateral_of t.ratio_percent q,
      ground (
        arith,
        required_collateral-eq q t found hd (omega (arith, a.price)),
        a.capped,
        a.value,
        less,
      ),
      omega (arith, a.value, less),
    )
