-- ===== src/Coins/Plan.antt =====
-- packages/digidollar-js/src/txbuild.js: the weights of a plain DGB spend, `planSpend` and
-- `planMaxSpend`. Values, amounts and rates are BigInts that are not negative.
pub mod Accounts
pub mod Optimal
use diginaut_wallet.Prelude.{
  ℕ, ◌+◌, ◌-◌, ◌*◌, ◌/◌, ◌%◌, List, [], ◌∷◌, ◌++◌, Bool, Outcome, ok, throw, ◌>>=◌, ◌>>◌, throw_if,
  length, sum_map, ltb, leb, ◌==◌, if◌then◌else◌,
}
use diginaut_wallet.Coins.{Utxo, CoinType, p2tr, p2wpkh}
use diginaut_wallet.Coins.Sorting.{sort}

pub data PlanError : Type 0 where
  -- `BigInt(scriptHex.length / 2)` of an odd length
  fractional_length : PlanError
  insufficient_funds : PlanError
  no_spendable_coins : PlanError
  below_network_fee : PlanError

abbrev pub tx_overhead_wu : ℕ
tx_overhead_wu = 42

abbrev pub p2tr_input_wu : ℕ
p2tr_input_wu = 230

abbrev pub p2wpkh_input_wu : ℕ
p2wpkh_input_wu = 272

abbrev pub p2tr_output_wu : ℕ
p2tr_output_wu = 172

-- The count of the inputs takes three bytes from 253 inputs on.
unfoldable pub input_count_extra_wu : ℕ → ℕ
input_count_extra_wu n_in = if ltb n_in 0xfd then 0 else 8

unfoldable pub input_weight : Utxo → ℕ
input_weight u = elim u.coin_type [ p2tr ↦ p2tr_input_wu | p2wpkh ↦ p2wpkh_input_wu ]

unfoldable pub output_weight : List ℕ → Outcome PlanError ℕ
output_weight script_hex =
    if length script_hex % 2 == 0
    then ok ((9 + length script_hex / 2) * 4)
    else throw fractional_length

-- `recipientScriptHex ? outputWeight(recipientScriptHex) : P2TR_OUTPUT_WU`; the empty text stands
-- for a missing script.
unfoldable pub recipient_output_wu : List ℕ → Outcome PlanError ℕ
unfolding output_weight
recipient_output_wu [] = ok p2tr_output_wu
recipient_output_wu (c ∷ cs) = output_weight (c ∷ cs)

-- ceil(weight / 4) bytes at the rate for a thousand, rounded up.
unfoldable pub fee_of_weight : ℕ → ℕ → ℕ
fee_of_weight weight rate = ((weight + 3) / 4 * rate + 999) / 1000

pub record SpendPlan : Type 0 where
  pub inputs : List Utxo
  pub fee_sats : ℕ
  pub change_sats : ℕ

-- `(a, b) => (a.valueSats < b.valueSats ? 1 : -1)`
unfoldable pub larger_first : Utxo → Utxo → Bool
larger_first a b = leb b.value_sats a.value_sats

-- The loop of `planSpend` over the sorted coins that are left; `outputs_wu` is the weight of the two
-- outputs.
unfoldable pub plan_loop : ℕ → ℕ → ℕ → List Utxo → ℕ → ℕ → List Utxo → Outcome PlanError SpendPlan
unfolding input_count_extra_wu input_weight fee_of_weight
plan_loop amount_sats rate outputs_wu inputs total inputs_wu [] = throw insufficient_funds
plan_loop amount_sats rate outputs_wu inputs total inputs_wu (u ∷ us) =
    let inputs' = inputs ++ u ∷ [] in
    let total' = total + u.value_sats in
    let inputs_wu' = inputs_wu + input_weight u in
    let weight = tx_overhead_wu + input_count_extra_wu (length inputs') + inputs_wu' + outputs_wu in
    let fee_sats = fee_of_weight weight rate in
    let rest = plan_loop amount_sats rate outputs_wu inputs' total' inputs_wu' us in
    if leb (amount_sats + fee_sats) total'
    then ok (record {
      inputs = inputs';
      fee_sats = fee_sats;
      change_sats = total' - (amount_sats + fee_sats);
    })
    else rest

unfoldable pub plan_spend : List Utxo → ℕ → ℕ → List ℕ → Outcome PlanError SpendPlan
unfolding plan_loop recipient_output_wu
plan_spend utxos amount_sats rate recipient_script_hex = do
  recipient_wu ← recipient_output_wu recipient_script_hex
  plan_loop amount_sats rate (recipient_wu + p2tr_output_wu) [] 0 0 (sort larger_first utxos)

pub record MaxPlan : Type 0 where
  pub inputs : List Utxo
  pub fee_sats : ℕ
  pub amount_sats : ℕ

unfoldable pub plan_max_of : List Utxo → ℕ → ℕ → Outcome PlanError MaxPlan
plan_max_of utxos rate recipient_wu =
    let total = sum_map (λ u. u.value_sats) utxos in
    let inputs_wu = sum_map input_weight utxos in
    let weight = tx_overhead_wu + input_count_extra_wu (length utxos) + inputs_wu + recipient_wu in
    let fee_sats = fee_of_weight weight rate in
    if leb total fee_sats
    then throw below_network_fee
    else ok (record { inputs = utxos; fee_sats = fee_sats; amount_sats = total - fee_sats })

unfoldable pub plan_max_spend : List Utxo → ℕ → List ℕ → Outcome PlanError MaxPlan
unfolding plan_max_of recipient_output_wu
plan_max_spend [] rate recipient_script_hex = throw no_spendable_coins
plan_max_spend (u ∷ us) rate recipient_script_hex = do
  recipient_wu ← recipient_output_wu recipient_script_hex
  plan_max_of (u ∷ us) rate recipient_wu
