-- ===== src/Tests/Coins.antt =====
-- Runs of the coin choice, and its theorems at concrete inputs.
use diginaut_wallet.Prelude.{
  ℕ, ◌+◌, ◌≤◌, ◌≡◌, refl, true, false, List, [], ◌∷◌, some, ok, throw, length, arith,
}
use mathlib.Core.List.{Perm}
use diginaut_wallet.Coins.{Utxo, p2tr, p2wpkh, is_p2wpkh}
use diginaut_wallet.Coins.Sorting.{insert_before, sort_onto, sort}
use diginaut_wallet.Coins.Pick.{
  pick_dgb_coin, covers, smaller_first, is_taproot, is_preferred, text_eq,
}
use diginaut_wallet.Coins.Pick.Laws.{IsBest, pick_dgb_coin-IsBest}
use diginaut_wallet.Coins.Plan.{
  SpendPlan, plan_spend, plan_max_spend, input_weight, fee_of_weight, input_count_extra_wu,
  recipient_output_wu, larger_first, insufficient_funds,
}
use diginaut_wallet.Coins.Plan.Accounts.{total_sats, spend_fee, outputs_of, plan_spend-accounts}
use diginaut_wallet.Coins.Plan.Optimal.{plan_spend-optimal}

abbrev key_a : List ℕ
key_a = b'a' ∷ []

abbrev key_b : List ℕ
key_b = b'b' ∷ []

abbrev small : Utxo
small = record {
  txid_hex = [];
  vout = 0;
  value_sats = 50_000;
  coin_type = p2tr;
  priv_key_hex = key_a;
}

abbrev large : Utxo
large = record {
  txid_hex = [];
  vout = 1;
  value_sats = 900_000;
  coin_type = p2tr;
  priv_key_hex = key_a;
}

abbrev twin : Utxo
twin = record {
  txid_hex = [];
  vout = 2;
  value_sats = 300_000;
  coin_type = p2wpkh;
  priv_key_hex = key_b;
}

-- The taproot coin comes before the smaller witness-v0 coin.
pick_run : pick_dgb_coin (twin ∷ small ∷ large ∷ []) 100_000 (some key_b) ≡ some large
unfolding pick_dgb_coin sort sort_onto insert_before covers smaller_first is_taproot is_preferred
    text_eq is_p2wpkh
pick_run = refl

pick_dgb_coin-IsBest_example : IsBest (twin ∷ small ∷ large ∷ []) 100_000 (some key_b) large
pick_dgb_coin-IsBest_example =
    pick_dgb_coin-IsBest (twin ∷ small ∷ large ∷ []) 100_000 (some key_b) large pick_run

-- One input of 230, two outputs of 172 and an overhead of 42 weigh 616, which is 154 bytes.
abbrev plan : SpendPlan
plan = record { inputs = large ∷ []; fee_sats = 15_400; change_sats = 84_600 }

script_run : recipient_output_wu [] ≡ ok 172
unfolding recipient_output_wu
script_run = refl

plan_run : plan_spend (small ∷ large ∷ []) 800_000 100_000 [] ≡ ok plan
unfolding plan_spend sort sort_onto insert_before larger_first
plan_run = refl

plan_too_much : plan_spend (small ∷ large ∷ []) 950_000 100_000 [] ≡ throw insufficient_funds
unfolding plan_spend sort sort_onto insert_before larger_first
plan_too_much = refl

plan_spend-accounts_example :
    (rest : List Utxo) × Perm (large ∷ rest) (small ∷ large ∷ [])
    × (15_400 ≡ spend_fee 100_000 (outputs_of 172) (large ∷ []))
    × (total_sats (large ∷ []) ≡ 800_000 + 15_400 + 84_600)
plan_spend-accounts_example =
    plan_spend-accounts (small ∷ large ∷ []) 800_000 100_000 [] plan 172 script_run plan_run

fee_run : spend_fee 100_000 (outputs_of 172) (large ∷ []) ≡ 15_400
unfolding fee_of_weight input_count_extra_wu input_weight
fee_run = refl

plan_spend-optimal_example :
    (p : SpendPlan) × (plan_spend (small ∷ large ∷ []) 800_000 100_000 [] ≡ ok p)
    × (length p.inputs ≤ 1)
plan_spend-optimal_example =
    plan_spend-optimal (small ∷ large ∷ []) 800_000 100_000 172 [] p2tr (false ∷ true ∷ [])
      script_run (refl, (refl, tt)) (omega arith) (omega (arith, fee_run))

-- One input, one output of 172 and the overhead weigh 444, which is 111 bytes.
plan_max_run :
    plan_max_spend (small ∷ []) 100_000 []
    ≡ ok (record { inputs = small ∷ []; fee_sats = 11_100; amount_sats = 38_900 })
unfolding plan_max_spend fee_of_weight input_count_extra_wu input_weight
plan_max_run = refl

-- With coins of two types the largest first may take more inputs than are needed: a witness-v0 coin
-- of 116450 satoshis misses the amount and its fee by 50, and the smaller taproot coin has it.
abbrev heavy : Utxo
heavy = record {
  txid_hex = [];
  vout = 3;
  value_sats = 116_400;
  coin_type = p2wpkh;
  priv_key_hex = key_a;
}

abbrev light : Utxo
light = record {
  txid_hex = [];
  vout = 4;
  value_sats = 115_400;
  coin_type = p2tr;
  priv_key_hex = key_a;
}

mixed_plan :
    (plan_spend (light ∷ []) 100_000 100_000 []
      ≡ ok (record { inputs = light ∷ []; fee_sats = 15_400; change_sats = 0 }))
    × (plan_spend (heavy ∷ light ∷ []) 100_000 100_000 []
        ≡ ok (record { inputs = heavy ∷ light ∷ []; fee_sats = 22_200; change_sats = 109_600 }))
unfolding plan_spend sort sort_onto insert_before larger_first
mixed_plan = (refl, refl)
