-- ===== src/TxBuild/Amounts.antt =====
-- packages/digidollar-js/src/txbuild.js: what the builders of transfers, redemptions, mints and
-- plain spends compute of amounts before they sign, and that nothing is lost.
use diginaut_wallet.Prelude.{
  ℕ, ◌+◌, ◌-◌, ◌≤◌, ◌<◌, ◌≡◌, ◌⊎◌, List, sum, sum_map, none, some, Outcome, ok, throw, ◌>>=◌, ◌>>◌,
  throw_if, ltb, if◌then◌else◌, arith,
}
use diginaut_wallet.Collateral.{Quote, LockTier, tier_by_id, required_collateral_sats}
use diginaut_wallet.Coins.{Utxo}
use diginaut_wallet.Coins.Plan.{SpendPlan, plan_spend, recipient_output_wu}
use diginaut_wallet.Coins.Plan.Accounts.{total_sats, plan_spend-accounts}
use diginaut_wallet.TxBuild.{
  TxError, fee_below_floor, dd_input_too_small, fee_utxo_too_small, inputs_do_not_cover,
  funding_too_small, unknown_tier, from_collateral, min_dd_tx_fee_sats, change_fold_sats,
  mint_lock_confirmation_buffer_blocks, Recipient,
}

-- Change too small for an output of its own goes to the fee.
abbrev pub folded : ℕ → ℕ
folded change = if ltb change change_fold_sats then 0 else change

-- DD change and DGB change.
unfoldable pub transfer_amounts : ℕ → ℕ → ℕ → List Recipient → Outcome TxError (ℕ × ℕ)
transfer_amounts dd_cents fee_value fee recipients = do
  throw_if (ltb fee min_dd_tx_fee_sats) fee_below_floor
  let sent = sum_map (λ r. r.cents) recipients
  throw_if (ltb dd_cents sent) dd_input_too_small
  throw_if (ltb fee_value fee) fee_utxo_too_small
  ok (dd_cents - sent, folded (fee_value - fee))

-- The tokens that are burned must cover what was minted.
unfoldable pub redeem_amounts : ℕ → List ℕ → ℕ → ℕ → Outcome TxError (ℕ × ℕ)
redeem_amounts minted dd_inputs fee_value fee = do
  throw_if (ltb fee min_dd_tx_fee_sats) fee_below_floor
  throw_if (ltb (sum dd_inputs) minted) dd_input_too_small
  throw_if (ltb fee_value fee) fee_utxo_too_small
  ok (sum dd_inputs - minted, folded (fee_value - fee))

unfoldable pub spend_amounts : List Utxo → ℕ → ℕ → Outcome TxError ℕ
spend_amounts utxos amount fee = do
  let total = sum_map (λ u. u.value_sats) utxos
  throw_if (ltb total (amount + fee)) inputs_do_not_cover
  ok (folded (total - amount - fee))

pub record MintAmounts : Type 0 where
  pub collateral_sats : ℕ
  pub unlock_height : ℕ
  pub change_sats : ℕ

unfoldable pub mint_amounts : ℕ → Quote → ℕ → ℕ → Outcome TxError MintAmounts
mint_amounts value q tip_height fee = elim (tier_by_id q.tier_id) [
  | none ↦ throw unknown_tier
  | some t ↦ do
    throw_if (ltb fee min_dd_tx_fee_sats) fee_below_floor
    collateral ← from_collateral (required_collateral_sats q)
    throw_if (ltb value (collateral + fee)) funding_too_small
    ok (record {
      collateral_sats = collateral;
      unlock_height = tip_height + 1 + mint_lock_confirmation_buffer_blocks + t.lock_blocks;
      change_sats = folded (value - collateral - fee);
    })
]

-- What is left of a value after change is the fee that was asked for and at most the folded change,
-- and change is none at all or no dust.
pub record FeePaid (value fee change paid : ℕ) : Type 0 where
  pub balanced : value ≡ change + paid
  pub enough : fee ≤ paid
  pub little_more : paid < fee + change_fold_sats
  pub no_dust : (change ≡ 0) ⊎ (change_fold_sats ≤ change)

folded-FeePaid :
    (value fee : ℕ)
    → fee ≤ value
    → FeePaid value fee (folded (value - fee)) (value - folded (value - fee))
folded-FeePaid value fee h = ground arith

-- The amounts of a transfer that is built: the recipients' cents and the DD change are the cents of
-- the token that is spent, the fee is at least the floor of 0.1 DGB, and what the fee coin does not
-- return as change is the fee that was asked for and less than 100000 satoshis more.
pub transfer_amounts-conserves :
    (dd_cents fee_value fee : ℕ) (recipients : List Recipient) (dd dgb : ℕ)
    → transfer_amounts dd_cents fee_value fee recipients ≡ ok (dd, dgb)
    → (sum_map (λ r. r.cents) recipients + dd ≡ dd_cents)
      × (min_dd_tx_fee_sats ≤ fee)
      × FeePaid fee_value fee dgb (fee_value - dgb)
unfolding transfer_amounts
transfer_amounts-conserves dd_cents fee_value fee recipients dd dgb h = ground arith

-- The amounts of a redemption that is built: the tokens that go in are what was minted and the DD
-- change, so exactly the minted amount is burned; the fee is at least the floor of 0.1 DGB, and
-- what the fee coin does not return as change is the fee and less than 100000 satoshis more.
pub redeem_amounts-burns :
    (minted : ℕ) (dd_inputs : List ℕ) (fee_value fee dd dgb : ℕ)
    → redeem_amounts minted dd_inputs fee_value fee ≡ ok (dd, dgb)
    → (sum dd_inputs ≡ minted + dd)
      × (min_dd_tx_fee_sats ≤ fee)
      × FeePaid fee_value fee dgb (fee_value - dgb)
unfolding redeem_amounts
redeem_amounts-burns minted dd_inputs fee_value fee dd dgb h = ground arith

-- The amounts of a mint that is built, for a known tier: the collateral is the one that the tier
-- requires, it unlocks the tier's term and 100 blocks after the next block, and what the funding
-- coin holds besides it is the change, the fee, and less than 100000 satoshis more.
pub mint_amounts-conserves :
    (value tip_height fee : ℕ) (q : Quote) (t : LockTier) (a : MintAmounts)
    → tier_by_id q.tier_id ≡ some t
    → mint_amounts value q tip_height fee ≡ ok a
    → (required_collateral_sats q ≡ ok a.collateral_sats)
      × (a.unlock_height ≡ tip_height + 1 + 100 + t.lock_blocks)
      × (min_dd_tx_fee_sats ≤ fee)
      × (a.collateral_sats ≤ value)
      × FeePaid
          (value - a.collateral_sats)
          fee
          a.change_sats
          (value - a.collateral_sats - a.change_sats)
unfolding mint_amounts
mint_amounts-conserves value tip_height fee q t a known h = ground arith

pub spend_amounts-conserves :
    (utxos : List Utxo) (amount fee change : ℕ)
    → spend_amounts utxos amount fee ≡ ok change
    → (amount ≤ total_sats utxos)
      × FeePaid (total_sats utxos - amount) fee change (total_sats utxos - amount - change)
unfolding spend_amounts
spend_amounts-conserves utxos amount fee change h = ground arith

-- Every plan of `planSpend` is one that `buildSignedSpendTx` builds: it covers the amount and the
-- fee, and what the coins hold besides the amount is the change of the transaction, the planned
-- fee, and less than 100000 satoshis more.
pub plan_spend-is_built :
    (utxos : List Utxo) (amount rate : ℕ) (script : List ℕ) (recipient_wu : ℕ) (plan : SpendPlan)
    → recipient_output_wu script ≡ ok recipient_wu
    → plan_spend utxos amount rate script ≡ ok plan
    → (spend_amounts plan.inputs amount plan.fee_sats ≡ ok (folded plan.change_sats))
      × FeePaid
          (total_sats plan.inputs - amount)
          plan.fee_sats
          (folded plan.change_sats)
          (total_sats plan.inputs - amount - folded plan.change_sats)
unfolding spend_amounts
plan_spend-is_built utxos amount rate script recipient_wu plan known h =
    let (_, _, _, balance) =
      plan_spend-accounts utxos amount rate script plan recipient_wu known h in
    (ground arith, ground arith)
