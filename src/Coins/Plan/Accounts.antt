-- ===== src/Coins/Plan/Accounts.antt =====
-- The accounts of a plan balance, and its fee is that of its inputs.
use diginaut_wallet.Prelude.{
  ℕ, ◌+◌, ◌-◌, ◌<◌, ◌≡◌, refl, sym, ap, ◌∙◌, List, [], ◌∷◌, ◌++◌, Outcome, ok, throw, length,
  sum_map, sum_map-append, arith, append_assoc, Bool-cases, inl, inr, leb, leb→le, if◌then◌else◌,
  Bool, true,
}
use mathlib.Core.List.{Perm}
use mathlib.Core.Path.{subst}
use diginaut_wallet.Coins.{Utxo}
use diginaut_wallet.Coins.Sorting.{sort}
use diginaut_wallet.Coins.Sorting.Laws.{sort-perm}
use diginaut_wallet.Coins.Plan.{
  tx_overhead_wu, p2tr_output_wu, input_count_extra_wu, input_weight, recipient_output_wu,
  fee_of_weight, larger_first, SpendPlan, plan_loop, plan_spend, MaxPlan, PlanError, plan_max_of,
  plan_max_spend, insufficient_funds,
}

abbrev pub total_sats : List Utxo → ℕ
total_sats us = sum_map (λ u. u.value_sats) us

-- The fee of a transaction with these inputs and outputs of this weight.
abbrev pub spend_fee : ℕ → ℕ → List Utxo → ℕ
spend_fee rate outputs_wu us =
    fee_of_weight
      (tx_overhead_wu + input_count_extra_wu (length us) + sum_map input_weight us + outputs_wu)
      rate

module _ (amount_sats rate outputs_wu : ℕ) where
  abbrev pub affords : List Utxo → Bool
  affords us = leb (amount_sats + spend_fee rate outputs_wu us) (total_sats us)

  abbrev pub plan_of : List Utxo → SpendPlan
  plan_of us = record {
    inputs = us;
    fee_sats = spend_fee rate outputs_wu us;
    change_sats = total_sats us - (amount_sats + spend_fee rate outputs_wu us);
  }

  -- The first front of the coins, behind `inputs`, that affords the amount and its fee.
  unfoldable pub first_front : List Utxo → List Utxo → Outcome PlanError SpendPlan
  first_front inputs [] = throw insufficient_funds
  first_front inputs (u ∷ us) =
      if affords (inputs ++ u ∷ [])
      then ok (plan_of (inputs ++ u ∷ []))
      else first_front (inputs ++ u ∷ []) us

  -- The running sums of the loop are those of its inputs.
  plan_loop-first_front :
      (inputs us : List Utxo)
      → plan_loop amount_sats rate outputs_wu inputs
          (total_sats inputs)
          (sum_map input_weight inputs)
          us
        ≡ first_front inputs us
  unfolding plan_loop first_front
  plan_loop-first_front inputs [] = refl
  plan_loop-first_front inputs (u ∷ us) =
      let values : total_sats inputs + u.value_sats ≡ total_sats (inputs ++ u ∷ []) =
        omega (arith, sum_map-append (λ (v : Utxo). v.value_sats) inputs (u ∷ [])) in
      let weights : sum_map input_weight inputs + input_weight u
          ≡ sum_map input_weight (inputs ++ u ∷ []) =
        omega (arith, sum_map-append input_weight inputs (u ∷ [])) in
      rw (values, weights, plan_loop-first_front (inputs ++ u ∷ []) us)

  -- What a plan over the sorted coins is.
  pub record IsFront (inputs us : List Utxo) (p : SpendPlan) : Type 0 where
    pub front : List Utxo
    pub rest : List Utxo
    pub splits : front ++ rest ≡ us
    pub plan : p ≡ plan_of (inputs ++ front)
    pub affordable : affords (inputs ++ front) ≡ true

  first_front-IsFront :
      (inputs us : List Utxo) (p : SpendPlan) → first_front inputs us ≡ ok p → IsFront inputs us p
  unfolding first_front
  first_front-IsFront inputs [] p h = cc
  first_front-IsFront inputs (u ∷ us) p h = elim (Bool-cases (affords (inputs ++ u ∷ []))) [
    | inl e ↦ record {
      front = u ∷ [];
      rest = us;
      splits = refl;
      plan = ground arith;
      affordable = e;
    }
    | inr e ↦
        let f = first_front-IsFront (inputs ++ u ∷ []) us p (ground arith) in
        let regroup = append_assoc inputs (u ∷ []) f.front in
        record {
          front = u ∷ f.front;
          rest = f.rest;
          splits = ap (λ t. u ∷ t) f.splits;
          plan = rw (← regroup) f.plan;
          affordable = rw (← regroup) f.affordable;
        }
  ]

-- The outputs that `planSpend` prices: the recipient's and a taproot change output.
abbrev pub outputs_of : ℕ → ℕ
outputs_of recipient_wu = recipient_wu + p2tr_output_wu

module _ (utxos : List Utxo) (amount_sats rate : ℕ) (script : List ℕ) where
  pub plan_spend-first_front :
      {recipient_wu : ℕ}
      → recipient_output_wu script ≡ ok recipient_wu
      → plan_spend utxos amount_sats rate script
        ≡ first_front amount_sats rate (outputs_of recipient_wu) [] (sort larger_first utxos)
  unfolding plan_spend
  plan_spend-first_front {recipient_wu} e =
      rw (e, plan_spend)
        (plan_loop-first_front amount_sats rate (outputs_of recipient_wu) []
          (sort larger_first utxos))

  abbrev IsAccounted : ℕ → SpendPlan → Type 0
  IsAccounted recipient_wu p =
      (rest : List Utxo) × Perm (p.inputs ++ rest) utxos
      × (p.fee_sats ≡ spend_fee rate (outputs_of recipient_wu) p.inputs)
      × (total_sats p.inputs ≡ amount_sats + p.fee_sats + p.change_sats)

  -- A plan uses each coin at most once and only the wallet's, its fee is the fee of the transaction
  -- with its inputs, and inputs equal amount, fee and change.
  pub plan_spend-accounts :
      (p : SpendPlan) (recipient_wu : ℕ)
      → recipient_output_wu script ≡ ok recipient_wu
      → plan_spend utxos amount_sats rate script ≡ ok p
      → (rest : List Utxo) × Perm (p.inputs ++ rest) utxos
        × (p.fee_sats ≡ spend_fee rate (outputs_of recipient_wu) p.inputs)
        × (total_sats p.inputs ≡ amount_sats + p.fee_sats + p.change_sats)
  plan_spend-accounts p recipient_wu e h =
      let f =
        first_front-IsFront amount_sats rate (outputs_of recipient_wu) [] (sort larger_first utxos)
          p (sym (plan_spend-first_front e) ∙ h) in
      subst (IsAccounted recipient_wu) (sym f.plan) (
        f.rest,
        rw f.splits (sort-perm larger_first utxos),
        refl,
        omega (arith, leb→le _ _ f.affordable),
      )

module _ (us : List Utxo) (rate recipient_wu : ℕ) where
  plan_max_of-ok :
      (p : MaxPlan)
      → plan_max_of us rate recipient_wu ≡ ok p
      → (p.inputs ≡ us)
        × (p.fee_sats ≡ spend_fee rate recipient_wu us)
        × (total_sats us ≡ p.amount_sats + p.fee_sats)
        × (0 < p.amount_sats)
  unfolding plan_max_of
  plan_max_of-ok p h = ground arith

pub plan_max_spend-ok :
    (u : Utxo) (us : List Utxo) (rate recipient_wu : ℕ) (script : List ℕ) (p : MaxPlan)
    → recipient_output_wu script ≡ ok recipient_wu
    → plan_max_spend (u ∷ us) rate script ≡ ok p
    → (p.inputs ≡ u ∷ us)
      × (p.fee_sats ≡ spend_fee rate recipient_wu (u ∷ us))
      × (total_sats (u ∷ us) ≡ p.amount_sats + p.fee_sats)
      × (0 < p.amount_sats)
unfolding plan_max_spend
plan_max_spend-ok u us rate recipient_wu script p e h =
    plan_max_of-ok (u ∷ us) rate recipient_wu p (rw e at h)
