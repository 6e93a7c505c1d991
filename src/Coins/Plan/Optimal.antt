-- ===== src/Coins/Plan/Optimal.antt =====
-- Largest first needs the fewest inputs, when all coins are of one type.
use diginaut_wallet.Prelude.{
  ℕ, zero, suc, ◌+◌, ◌*◌, ◌≤◌, ◌<◌, ◌≡◌, refl, sym, ap, ◌∙◌, Bool, true, false, List, [], ◌∷◌, ◌++◌,
  ok, length, length-append, sum_map, take, All, arith, append_assoc, Bool-cases, inl, inr, le→leb,
  leb→le,
}
use native.Mathlib.Nat.{le_trans}
use diginaut_wallet.Coins.{Utxo, CoinType, p2tr, p2wpkh}
use diginaut_wallet.Coins.Sorting.{insert_before, sort_onto, sort}
use diginaut_wallet.Coins.Sorting.Laws.{IsSorted, sort_onto-IsSorted}
use diginaut_wallet.Coins.Plan.{
  larger_first, input_weight, p2tr_input_wu, p2wpkh_input_wu, recipient_output_wu, SpendPlan,
  plan_spend,
}
use diginaut_wallet.Coins.Plan.Accounts.{
  total_sats, spend_fee, affords, plan_of, first_front, outputs_of, plan_spend-first_front,
}

-- The coins of a selection, given by a mask.
abbrev pub select : List Bool → List Utxo → List Utxo
select [] us = []
select (b ∷ bs) [] = []
select (true ∷ bs) (u ∷ us) = u ∷ select bs us
select (false ∷ bs) (u ∷ us) = select bs us

abbrev NoSmaller : Utxo → Utxo → Type 0
NoSmaller a b = b.value_sats ≤ a.value_sats

-- Inserting a coin does not make the `k` first ones worth less,
take-tail :
    (k : ℕ) (y : Utxo) (ys : List Utxo)
    → IsSorted NoSmaller (y ∷ ys)
    → total_sats (take k ys) ≤ total_sats (take k (y ∷ ys))
take-tail zero y ys s = omega arith
take-tail (suc k) y [] s = omega arith
take-tail (suc k) y (z ∷ zs) s = omega (arith, take-tail k z zs s.1)

take-insert_before :
    (k : ℕ) (u : Utxo) (ys : List Utxo)
    → IsSorted NoSmaller ys
    → total_sats (take k ys) ≤ total_sats (take k (insert_before larger_first u ys))
unfolding insert_before larger_first
take-insert_before zero u ys s = omega arith
take-insert_before (suc k) u [] s = omega arith
take-insert_before (suc k) u (y ∷ ys) s =
    ground (arith, take-insert_before k u ys s.1, take-tail k y ys s)

-- and the `k + 1` first ones are worth the coin and the `k` first ones before.
take-suc-insert_before :
    (k : ℕ) (u : Utxo) (ys : List Utxo)
    → u.value_sats + total_sats (take k ys)
      ≤ total_sats (take (suc k) (insert_before larger_first u ys))
unfolding insert_before larger_first
take-suc-insert_before zero u [] = omega arith
take-suc-insert_before zero u (y ∷ ys) = ground arith
take-suc-insert_before (suc k) u [] = omega arith
take-suc-insert_before (suc k) u (y ∷ ys) = ground (arith, take-suc-insert_before k u ys)

larger_sort_IsSorted :
    (acc us : List Utxo)
    → IsSorted NoSmaller acc
    → IsSorted NoSmaller (sort_onto larger_first acc us)
larger_sort_IsSorted =
    sort_onto-IsSorted larger_first NoSmaller (λ x y e. unfold larger_first in leb→le _ _ e)
      (λ x y e. unfold larger_first in ground arith) (λ x y z a b. le_trans b a)

insert_IsSorted :
    (u : Utxo) (acc : List Utxo)
    → IsSorted NoSmaller acc
    → IsSorted NoSmaller (insert_before larger_first u acc)
unfolding sort_onto
insert_IsSorted u acc s = larger_sort_IsSorted acc (u ∷ []) s

select-nil : (mask : List Bool) → select mask [] ≡ []
select-nil [] = refl
select-nil (b ∷ bs) = refl

-- No selection of the coins is worth more than the front of the sorted coins of its length.
front_dominates :
    (mask : List Bool) (acc us : List Utxo) (k m : ℕ)
    → IsSorted NoSmaller acc
    → k + length (select mask us) ≡ m
    → total_sats (take k acc) + total_sats (select mask us)
      ≤ total_sats (take m (sort_onto larger_first acc us))
unfolding sort_onto
front_dominates mask acc [] k m s e =
    let same : k ≡ m = omega (arith, ap (λ (xs : List Utxo). length xs) (select-nil mask)) in
    omega (arith, ap total_sats (select-nil mask), ap (λ (n : ℕ). total_sats (take n acc)) same)
front_dominates [] acc (u ∷ us) k m s e = omega (
  arith,
  take-insert_before k u acc s,
  front_dominates [] (insert_before larger_first u acc) us k m (insert_IsSorted u acc s) e,
)
front_dominates (true ∷ mask) acc (u ∷ us) k m s e = omega (
  arith,
  take-suc-insert_before k u acc,
  front_dominates mask (insert_before larger_first u acc) us (suc k) m (insert_IsSorted u acc s)
      (omega arith),
)
front_dominates (false ∷ mask) acc (u ∷ us) k m s e = omega (
  arith,
  take-insert_before k u acc s,
  front_dominates mask (insert_before larger_first u acc) us k m (insert_IsSorted u acc s) e,
)

module _ (P : Utxo → Type 0) where
  insert_before-All :
      (u : Utxo) (ys : List Utxo) → P u → All P ys → All P (insert_before larger_first u ys)
  unfolding insert_before
  insert_before-All u [] h k = (h, k)
  insert_before-All u (y ∷ ys) h k = elim (Bool-cases (larger_first u y)) [
    | inl e ↦ rw e (h, k)
    | inr e ↦ rw e (k.0, insert_before-All u ys h k.1)
  ]

  sort_onto-All :
      (acc us : List Utxo) → All P acc → All P us → All P (sort_onto larger_first acc us)
  unfolding sort_onto
  sort_onto-All acc [] h k = h
  sort_onto-All acc (u ∷ us) h k =
      sort_onto-All (insert_before larger_first u acc) us (insert_before-All u acc k.0 h) k.1

  take-All : (n : ℕ) (us : List Utxo) → All P us → All P (take n us)
  take-All zero us h = tt
  take-All (suc n) [] h = tt
  take-All (suc n) (u ∷ us) h = (h.0, take-All n us h.1)

  select-All : (mask : List Bool) (us : List Utxo) → All P us → All P (select mask us)
  select-All [] us h = tt
  select-All (b ∷ bs) [] h = tt
  select-All (true ∷ bs) (u ∷ us) h = (h.0, select-All bs us h.1)
  select-All (false ∷ bs) (u ∷ us) h = select-All bs us h.1

length-insert_before :
    (u : Utxo) (ys : List Utxo) → length (insert_before larger_first u ys) ≡ suc (length ys)
unfolding insert_before
length-insert_before u [] = refl
length-insert_before u (y ∷ ys) = ground (arith, length-insert_before u ys)

length-sort_onto :
    (acc us : List Utxo) → length (sort_onto larger_first acc us) ≡ length acc + length us
unfolding sort_onto
length-sort_onto acc [] = omega arith
length-sort_onto acc (u ∷ us) =
    omega
      (arith, length-sort_onto (insert_before larger_first u acc) us, length-insert_before u acc)

length-take_le : (n : ℕ) (us : List Utxo) → n ≤ length us → length (take n us) ≡ n
length-take_le zero us h = refl
length-take_le (suc n) [] h = absurd (omega arith)
length-take_le (suc n) (u ∷ us) h = ap suc (length-take_le n us (omega arith))

length-select : (mask : List Bool) (us : List Utxo) → length (select mask us) ≤ length us
length-select [] us = omega arith
length-select (b ∷ bs) [] = omega arith
length-select (true ∷ bs) (u ∷ us) = omega (arith, length-select bs us)
length-select (false ∷ bs) (u ∷ us) = omega (arith, length-select bs us)

-- The weight of an input by its type.
abbrev weight_of : CoinType → ℕ
weight_of p2tr = p2tr_input_wu
weight_of p2wpkh = p2wpkh_input_wu

abbrev pub OfType : CoinType → Utxo → Type 0
OfType t u = u.coin_type ≡ t

input_weight-OfType : (t : CoinType) (u : Utxo) → OfType t u → input_weight u ≡ weight_of t
unfolding input_weight
input_weight-OfType t u h = rw (h, input_weight) (weight_cases t)
  where
    weight_cases :
        (c : CoinType) → elim c [ p2tr ↦ p2tr_input_wu | p2wpkh ↦ p2wpkh_input_wu ] ≡ weight_of c
    weight_cases p2tr = refl
    weight_cases p2wpkh = refl

weights-OfType :
    (t : CoinType) (us : List Utxo)
    → All (OfType t) us
    → sum_map input_weight us ≡ length us * weight_of t
unfolding input_weight
weights-OfType t [] h = omega arith
weights-OfType t (u ∷ us) h = omega (arith, input_weight-OfType t u h.0, weights-OfType t us h.1)

module _ (amount_sats rate outputs_wu : ℕ) where
  -- If a front of the coins affords the amount, the loop stops there or before.
  first_front-reaches :
      (inputs us : List Utxo) (k : ℕ)
      → 0 < k
      → k ≤ length us
      → affords amount_sats rate outputs_wu (inputs ++ take k us) ≡ true
      → (p : SpendPlan) × (first_front amount_sats rate outputs_wu inputs us ≡ ok p)
        × (length p.inputs ≤ length inputs + k)
  unfolding first_front
  first_front-reaches inputs us zero hk hl h = absurd (omega arith)
  first_front-reaches inputs [] (suc k) hk hl h = absurd (omega arith)
  first_front-reaches inputs (u ∷ us) (suc zero) hk hl h = (
    plan_of amount_sats rate outputs_wu (inputs ++ u ∷ []),
    rw (h, first_front),
    omega (arith, length-append inputs (u ∷ [])),
  )
  first_front-reaches inputs (u ∷ us) (suc (suc k)) hk hl h =
      let more = inputs ++ u ∷ [] in
      elim (Bool-cases (affords amount_sats rate outputs_wu more)) [
        | inl e ↦ (
          plan_of amount_sats rate outputs_wu more,
          rw (e, first_front),
          omega (arith, length-append inputs (u ∷ [])),
        )
        | inr e ↦
            let (p, q, l) =
              first_front-reaches more us (suc k) (omega arith) (omega arith)
                (rw (append_assoc inputs (u ∷ []) (take (suc k) us)) h) in
            (p, rw (e, first_front) q, omega (arith, l, length-append inputs (u ∷ [])))
      ]

spend_fee-cong :
    (rate outputs_wu : ℕ) (us vs : List Utxo)
    → length us ≡ length vs
    → sum_map input_weight us ≡ sum_map input_weight vs
    → spend_fee rate outputs_wu us ≡ spend_fee rate outputs_wu vs
spend_fee-cong rate outputs_wu us vs h k = cc

-- When all coins are of one type and some selection of them affords the amount with its fee,
-- `planSpend` succeeds, with no more inputs than the selection has.
pub plan_spend-optimal :
    (utxos : List Utxo) (amount_sats rate recipient_wu : ℕ) (script : List ℕ) (t : CoinType)
    (mask : List Bool)
    → recipient_output_wu script ≡ ok recipient_wu
    → All (OfType t) utxos
    → 0 < length (select mask utxos)
    → amount_sats + spend_fee rate (outputs_of recipient_wu) (select mask utxos)
      ≤ total_sats (select mask utxos)
    → (p : SpendPlan) × (plan_spend utxos amount_sats rate script ≡ ok p)
      × (length p.inputs ≤ length (select mask utxos))
unfolding sort
plan_spend-optimal utxos amount_sats rate recipient_wu script t mask e same some_coin enough =
    let outputs_wu = outputs_of recipient_wu in
    let chosen = select mask utxos in
    let k = length chosen in
    let coins = sort_onto larger_first [] utxos in
    let front = take k coins in
    let fits : k ≤ length coins =
      omega (arith, length-select mask utxos, length-sort_onto [] utxos) in
    let as_many : length front ≡ k = length-take_le k coins fits in
    let as_heavy : sum_map input_weight front ≡ sum_map input_weight chosen =
      weights-OfType t front
        (take-All (OfType t) k coins (sort_onto-All (OfType t) [] utxos tt same))
      ∙ ap (λ (n : ℕ). n * weight_of t) as_many
      ∙ sym (weights-OfType t chosen (select-All (OfType t) mask utxos same)) in
    let richer = front_dominates mask [] utxos 0 k tt (omega arith) in
    let affordable : affords amount_sats rate outputs_wu front ≡ true = le→leb _ _ (
      omega
        (arith, enough, richer, spend_fee-cong rate outputs_wu front chosen as_many as_heavy)) in
    let (p, q, l) =
      first_front-reaches amount_sats rate outputs_wu [] coins k some_coin fits affordable in
    (p, plan_spend-first_front utxos amount_sats rate script e ∙ q, omega (arith, l))
