-- ===== src/TxBuild/Signed/Progress.antt =====
-- A plain spend of coins whose keys the library takes is built.
use diginaut_wallet.Prelude.{
  ℕ, suc, ◌+◌, ◌≤◌, ◌<◌, ◌≡◌, refl, subst, ap, List, [], ◌∷◌, All, length, some, ok, Returns,
  get_elem?, Bool-cases, ltb, inl, inr, arith,
}
use diginaut_wallet.Hex.{bytes_to_hex}
use diginaut_wallet.Coins.{Utxo}
use diginaut_wallet.Coins.Plan.{SpendPlan, MaxPlan, plan_spend, plan_max_spend, recipient_output_wu}
use diginaut_wallet.Coins.Plan.Accounts.{spend_fee, total_sats, plan_max_spend-ok}
use diginaut_wallet.Envelope.Metadata.{bytes_of}
use diginaut_wallet.TxBuild.{Output, from_envelope, change_output}
use diginaut_wallet.TxBuild.Amounts.{folded, spend_amounts, plan_spend-is_built}
use diginaut_wallet.TxBuild.Taproot.{Library}
use diginaut_wallet.TxBuild.Sighash.{sign_dgb_leg}
use diginaut_wallet.TxBuild.Sighash.Progress.{
  IsSigningKey, Hashes160, dgb_leg_script-Returns, sign_dgb_leg-Returns,
}
use diginaut_wallet.TxBuild.Wire.{TxInput, Tx}
use diginaut_wallet.TxBuild.Wire.Progress.{
  IsShortHex, HasRoom, IsShortWitness, serialize_tx-Returns,
}
use diginaut_wallet.TxBuild.Signed.{map_indexed, spend_input, build_signed_spend_tx}

-- A coin whose txid is read as bytes and whose key the library takes.
pub record IsSpendable (lib : Library) (u : Utxo) : Type 0 where
  pub txid : Returns (from_envelope (bytes_of u.txid_hex))
  pub key : IsSigningKey lib u.priv_key_hex

abbrev HasScript : TxInput → Type 0
HasScript i = IsShortHex i.script_pub_key_hex

abbrev HasTxid : TxInput → Type 0
HasTxid i = Returns (from_envelope (bytes_of i.txid_hex))

module _ (lib : Library) (h160 : Hashes160 lib) where
  spend_inputs-Returns :
      (i : ℕ) (us : List Utxo)
      → All (IsSpendable lib) us
      → (inputs : List TxInput) × (map_indexed (λ j. spend_input lib) i us ≡ ok inputs)
        × All HasTxid inputs
        × All HasScript inputs
        × (length inputs ≡ length us)
  unfolding map_indexed spend_input
  spend_inputs-Returns i [] h = ([], refl, tt, tt, refl)
  spend_inputs-Returns i (u ∷ us) (v, h) =
      let (script, is_script, short) =
        dgb_leg_script-Returns lib u.priv_key_hex v.key h160 u.coin_type in
      let (inputs, made, txids, scripts, same) = spend_inputs-Returns (i + 1) us h in
      let input : TxInput = record {
        txid_hex = u.txid_hex;
        vout = u.vout;
        value_sats = u.value_sats;
        script_pub_key_hex = bytes_to_hex script;
        sequence = 0xfffffffd;
      } in
      (input ∷ inputs, rw (is_script, made) refl, (v.txid, txids), (short, scripts), ap suc same)

  -- What stands behind the inputs that are done.
  witnesses-Returns :
      (tx : Tx) (i : ℕ) (us : List Utxo) (inputs : List TxInput)
      → HasRoom tx
      → ((n : ℕ) (x : TxInput) → get_elem? inputs n ≡ some x → get_elem? tx.inputs (i + n) ≡ some x)
      → length inputs ≡ length us
      → All (IsSpendable lib) us
      → All HasTxid inputs
      → All HasScript inputs
      → (ws : List (List (List ℕ))) × (map_indexed
            (λ j (u : Utxo). sign_dgb_leg lib u.coin_type u.priv_key_hex tx j)
            i
            us
          ≡ ok ws)
        × All IsShortWitness ws
  unfolding map_indexed
  witnesses-Returns tx i [] inputs v at same h txids scripts = ([], refl, tt)
  witnesses-Returns tx i (u ∷ us) [] v at same h txids scripts = absurd (omega (arith, same))
  witnesses-Returns tx i (u ∷ us) (x ∷ inputs) v at same (c, h) (txid, txids) (script, scripts) =
      let here : get_elem? tx.inputs i ≡ some x =
        subst (λ (j : ℕ). get_elem? tx.inputs j ≡ some x) (omega arith) (at 0 x refl) in
      let (w, signed, short) =
        sign_dgb_leg-Returns lib u.priv_key_hex c.key u.coin_type tx i x v here script txid in
      let (ws, made, all_short) =
        witnesses-Returns tx (i + 1) us inputs v
          (λ n y e.
            subst (λ (j : ℕ). get_elem? tx.inputs j ≡ some y) (omega arith) (at (suc n) y e))
          (omega (arith, same)) h txids scripts in
      (w ∷ ws, rw (signed, made) refl, (short, all_short))

  change_output-Returns :
      (sats : ℕ) (hex : List ℕ)
      → IsShortHex hex
      → (outs : List Output) × (change_output sats hex ≡ ok outs)
        × All (λ (o : Output). length o.script ≤ 0xffff) outs
        × (length outs ≤ 1)
  unfolding change_output
  change_output-Returns sats hex (bytes, read, short) = elim (Bool-cases (ltb 0 sats)) [
    | inl some_ ↦ (
      record { value_sats = sats; script = bytes } ∷ [],
      rw (some_, read) refl,
      (short, tt),
      omega arith,
    )
    | inr none_ ↦ ([], rw none_ refl, tt, omega arith)
  ]

  build_signed_spend_tx-Returns :
      (utxos : List Utxo) (recipient_hex : List ℕ) (amount : ℕ) (change_hex : List ℕ)
      (fee change_sats : ℕ)
      → spend_amounts utxos amount fee ≡ ok change_sats
      → All (IsSpendable lib) utxos
      → length utxos ≤ 0xffff
      → IsShortHex recipient_hex
      → IsShortHex change_hex
      → (hex : List ℕ) × (build_signed_spend_tx lib utxos recipient_hex amount change_hex fee
          ≡ ok (hex, change_sats))
  unfolding build_signed_spend_tx
  build_signed_spend_tx-Returns utxos recipient_hex amount change_hex fee change_sats amounts h few
        (script, read, short) change_is =
      let (inputs, made, txids, scripts, same) = spend_inputs-Returns 0 utxos h in
      let (change, changed, all_short, at_most) =
        change_output-Returns change_sats change_hex change_is in
      let tx : Tx = record {
        version = 2;
        locktime = 0;
        inputs = inputs;
        outputs = record { value_sats = amount; script = script } ∷ change;
      } in
      let room : HasRoom tx = record {
        few_inputs = omega (arith, same, few);
        few_outputs = omega (arith, at_most);
        txids = txids;
        scripts = scripts;
        short = (short, all_short);
      } in
      let (ws, signed, ws_short) =
        witnesses-Returns tx 0 utxos inputs room
          (λ n x e. subst (λ (j : ℕ). get_elem? inputs j ≡ some x) (omega arith) e) same h txids
          scripts in
      let (hex, written) = serialize_tx-Returns tx ws room ws_short in
      (hex, rw (amounts, made, read, changed, signed, written) refl)

  -- For a plan that `planSpend` makes, of at most 65535 coins whose txids are read as bytes
  -- and whose keys the library takes (it gives their public keys and signatures, and the
  -- taproot tweak stays below the order), with scripts of the recipient and the change that
  -- are read as at most 65535 bytes, and a RIPEMD-160 of 20 bytes: `buildSignedSpendTx` with
  -- the coins and the fee of the plan returns a text, and the planned change, or none where
  -- that is below 100000 satoshis.
  pub build_signed_spend_tx-plan_spend :
      (utxos : List Utxo) (amount rate : ℕ) (recipient_hex : List ℕ) (recipient_wu : ℕ)
      (plan : SpendPlan) (change_hex : List ℕ)
      → recipient_output_wu recipient_hex ≡ ok recipient_wu
      → plan_spend utxos amount rate recipient_hex ≡ ok plan
      → All (IsSpendable lib) plan.inputs
      → length plan.inputs ≤ 0xffff
      → IsShortHex recipient_hex
      → IsShortHex change_hex
      → (hex : List ℕ) × (build_signed_spend_tx lib plan.inputs recipient_hex amount change_hex
            plan.fee_sats
          ≡ ok (hex, folded plan.change_sats))
  build_signed_spend_tx-plan_spend utxos amount rate recipient_hex recipient_wu plan change_hex
        known planned h few recipient change =
      build_signed_spend_tx-Returns plan.inputs recipient_hex amount change_hex plan.fee_sats _
        (plan_spend-is_built utxos amount rate recipient_hex recipient_wu plan known planned).0 h
        few recipient change

  -- For a plan that `planMaxSpend` makes, of one coin or more and at most 65535, whose txids
  -- are read as bytes and whose keys the library takes (it gives their public keys and
  -- signatures, and the taproot tweak stays below the order), with scripts of the recipient
  -- and the change that are read as at most 65535 bytes, and a RIPEMD-160 of 20 bytes: the
  -- plan spends every coin, its fee is that of a transaction with all of them and one output
  -- to the recipient, its amount is positive and is all that the fee leaves, and
  -- `buildSignedSpendTx` with the coins, the amount and the fee of the plan returns a text
  -- and no change.
  pub build_signed_spend_tx-plan_max_spend :
      (u : Utxo) (us : List Utxo) (rate : ℕ) (recipient_hex : List ℕ) (recipient_wu : ℕ)
      (plan : MaxPlan) (change_hex : List ℕ)
      → recipient_output_wu recipient_hex ≡ ok recipient_wu
      → plan_max_spend (u ∷ us) rate recipient_hex ≡ ok plan
      → All (IsSpendable lib) (u ∷ us)
      → length (u ∷ us) ≤ 0xffff
      → IsShortHex recipient_hex
      → IsShortHex change_hex
      → (plan.inputs ≡ u ∷ us)
        × (plan.fee_sats ≡ spend_fee rate recipient_wu (u ∷ us))
        × (total_sats (u ∷ us) ≡ plan.amount_sats + plan.fee_sats)
        × (0 < plan.amount_sats)
        × ((hex : List ℕ) × (build_signed_spend_tx lib plan.inputs recipient_hex plan.amount_sats
                change_hex plan.fee_sats
              ≡ ok (hex, 0)))
  unfolding spend_amounts
  build_signed_spend_tx-plan_max_spend u us rate recipient_hex recipient_wu plan change_hex known
        planned h few recipient change =
      let (inputs, fee, total, positive) =
        plan_max_spend-ok u us rate recipient_wu recipient_hex plan known planned in
      let amounts : spend_amounts (u ∷ us) plan.amount_sats plan.fee_sats ≡ ok 0 =
        ground (arith, total) in
      (
        inputs,
        fee,
        total,
        positive,
        rw inputs (
            build_signed_spend_tx-Returns (u ∷ us) recipient_hex plan.amount_sats change_hex
              plan.fee_sats 0 amounts h few recipient change),
      )
