-- ===== src/TxBuild/Signed.antt =====
-- packages/digidollar-js/src/txbuild.js: the four functions `buildSigned…`. An optional argument is
-- an Option, and a coin is signed for by the key that comes with it.
pub mod Burning
pub mod Legs
pub mod Mint
pub mod Progress
pub mod Redeem
pub mod Spend
pub mod Unlocking
pub mod Transfer
use diginaut_wallet.Prelude.{
  ℕ, ◌+◌, List, [], ◌∷◌, ◌++◌, map, Bool, true, false, ◌&&◌, not, String, Option, none, some,
  Outcome, ok, throw, ◌>>=◌, ◌>>◌, throw_if, ltb, ◌==◌, if◌then◌else◌, length, get_elem?,
}
use text.Mathlib.Text.{◌==◌ as str_eq}
use diginaut_wallet.Hex.{bytes_to_hex}
use diginaut_wallet.Text.{same_text}
use diginaut_wallet.Coins.{Utxo, CoinType, p2tr, p2wpkh}
use diginaut_wallet.Collateral.{Quote, LockTier, tier_by_id, lock_tiers}
use diginaut_wallet.Envelope.Version.{dd_version, transfer, redeem, mint}
use diginaut_wallet.Envelope.Metadata.{bytes_of, build_mint_metadata}
use diginaut_wallet.TxBuild.{
  TxError, wrong_order, unknown_tier, fee_below_floor, from_envelope, Output, Recipient,
  min_dd_tx_fee_sats, p2tr_script, change_output, build_transfer_outputs, build_redeem_outputs,
}
use diginaut_wallet.TxBuild.Amounts.{
  transfer_amounts, redeem_amounts, spend_amounts, mint_amounts, MintAmounts,
}
use diginaut_wallet.TxBuild.Wire.{TxInput, Tx, serialize_tx}
use diginaut_wallet.TxBuild.Taproot.{
  Library, collateral_output_key, collateral_control_block_hex, normal_redemption_leaf_hex,
  normal_redemption_leaf_hash,
}
use diginaut_wallet.TxBuild.Sighash.{
  from_library, tap_tweak_priv_key, p2wpkh_script, x_only_pub_key, taproot_sighash,
  key_path_witness, token_script, dgb_leg_script, sign_dgb_leg,
}

-- The coin that pays the fee, or funds a mint.
pub record DgbCoin : Type 0 where
  pub txid_hex : List ℕ
  pub vout : ℕ
  pub value_sats : ℕ
  pub coin_type : CoinType

pub record DdCoin : Type 0 where
  pub txid_hex : List ℕ
  pub vout : ℕ
  pub dd_cents : ℕ

pub record CollateralCoin : Type 0 where
  pub txid_hex : List ℕ
  pub vout : ℕ
  pub value_sats : ℕ
  pub lock_height : ℕ
  pub dd_cents : ℕ

-- What a DigiDollar builder returns, with the transaction that the text is of.
pub record SignedDd : Type 0 where
  pub hex : List ℕ
  pub dd_change_cents : ℕ
  pub dgb_change_sats : ℕ

abbrev pub given_or {ℓ} : {A : Type ℓ} → Option A → A → A
given_or none default = default
given_or (some a) default = a

-- `array.map((x, i) => …)`, from the index i on.
unfoldable pub map_indexed {ℓ κ} :
    {A : Type ℓ} {B : Type κ} → (ℕ → A → Outcome TxError B) → ℕ → List A → Outcome TxError (List B)
map_indexed f i [] = ok []
map_indexed f i (x ∷ xs) = do y ← f i x; ys ← map_indexed f (i + 1) xs; ok (y ∷ ys)

unfoldable pub dd_input : List ℕ → ℕ → DdCoin → TxInput
dd_input script_hex sequence u = record {
  txid_hex = u.txid_hex;
  vout = u.vout;
  value_sats = 0;
  script_pub_key_hex = script_hex;
  sequence = sequence;
}

unfoldable pub dgb_input : List ℕ → ℕ → DgbCoin → TxInput
dgb_input script_hex sequence u = record {
  txid_hex = u.txid_hex;
  vout = u.vout;
  value_sats = u.value_sats;
  script_pub_key_hex = script_hex;
  sequence = sequence;
}

unfoldable pub collateral_input : List ℕ → CollateralCoin → TxInput
collateral_input script_hex u = record {
  txid_hex = u.txid_hex;
  vout = u.vout;
  value_sats = u.value_sats;
  script_pub_key_hex = script_hex;
  sequence = 0xfffffffe;
}

pub record SignedMint : Type 0 where
  pub hex : List ℕ
  pub unlock_height : ℕ
  pub collateral_sats : ℕ
  pub change_sats : ℕ

-- `LOCK_TIERS.indexOf(tier)`, for the tier that `tierById` has found.
unfoldable pub index_of_tier : String → ℕ → List LockTier → ℕ
index_of_tier tier_id i [] = 0
index_of_tier tier_id i (t ∷ ts) =
    let later = index_of_tier tier_id (i + 1) ts in if str_eq t.id tier_id then i else later

-- The fee leg has to be where it is signed.
unfoldable pub check_fee_input : DgbCoin → Option TxInput → Outcome TxError (Unit {0})
check_fee_input fee_utxo none = throw wrong_order
check_fee_input fee_utxo (some i) =
    if same_text i.txid_hex fee_utxo.txid_hex && i.vout == fee_utxo.vout
    then ok tt
    else throw wrong_order

-- `!!tierById(tierId)`
unfoldable pub is_known_tier : String → Bool
is_known_tier tier_id = elim (tier_by_id tier_id) [ none ↦ false | some t ↦ true ]

module _ (lib : Library) where
  -- `dgbChangeScriptHex ?? bytesToHex(p2wpkhScript(privKeyHex))`
  unfoldable pub change_script : Option (List ℕ) → List ℕ → Outcome TxError (List ℕ)
  change_script (some script_hex) priv_key_hex = ok script_hex
  change_script none priv_key_hex = do
    script ← p2wpkh_script lib priv_key_hex
    ok (bytes_to_hex script)

  -- The fee leg is the second input.
  unfoldable pub transfer_witness :
      DgbCoin → List ℕ → List ℕ → Tx → ℕ → TxInput → Outcome TxError (List (List ℕ))
  transfer_witness fee_utxo fee_priv_key_hex tweaked_key tx input_index input =
      if input_index == 1
      then sign_dgb_leg lib fee_utxo.coin_type fee_priv_key_hex tx input_index
      else key_path_witness lib tweaked_key tx input_index

  unfoldable pub build_signed_transfer_tx :
      DdCoin
      → DgbCoin
      → List ℕ
      → Option (List ℕ)
      → List Recipient
      → ℕ
      → Option (List ℕ)
      → Outcome TxError SignedDd
  build_signed_transfer_tx dd_utxo fee_utxo priv_key_hex fee_key recipients fee_sats script = do
    let fee_priv_key_hex = given_or fee_key priv_key_hex
    (dd_change, dgb_change) ←
        transfer_amounts dd_utxo.dd_cents fee_utxo.value_sats fee_sats recipients
    owner_key ← x_only_pub_key lib priv_key_hex
    owner_script ← token_script lib owner_key
    fee_script ← dgb_leg_script lib fee_utxo.coin_type fee_priv_key_hex
    change_script_hex ← change_script script priv_key_hex
    outputs ←
        build_transfer_outputs lib.curve recipients dd_change owner_key dgb_change change_script_hex
    let tx : Tx = record {
      version = dd_version transfer;
      locktime = 0;
      inputs =
          dd_input (bytes_to_hex owner_script) 0xffffffff dd_utxo
          ∷ dgb_input (bytes_to_hex fee_script) 0xffffffff fee_utxo
          ∷ [];
      outputs = outputs;
    }
    tweaked ← tap_tweak_priv_key lib priv_key_hex
    tweaked_key ← from_envelope (bytes_of tweaked)
    witnesses ← map_indexed (transfer_witness fee_utxo fee_priv_key_hex tweaked_key tx) 0 tx.inputs
    hex ← serialize_tx tx witnesses
    ok (record { hex = hex; dd_change_cents = dd_change; dgb_change_sats = dgb_change })

  -- The witness of the collateral reveals the leaf.
  unfoldable pub collateral_witness :
      List ℕ → List ℕ → CollateralCoin → List ℕ → Tx → Outcome TxError (List (List ℕ))
  collateral_witness owner_key raw_key collateral leaf_hash tx = do
    sighash ← taproot_sighash lib tx 0 (some leaf_hash)
    sig ← from_library (lib.schnorr_sign sighash raw_key)
    leaf_hex ← normal_redemption_leaf_hex owner_key collateral.lock_height collateral.dd_cents
    leaf ← from_envelope (bytes_of leaf_hex)
    control_hex ←
        collateral_control_block_hex lib owner_key collateral.lock_height collateral.dd_cents
    control ← from_envelope (bytes_of control_hex)
    ok (sig ∷ leaf ∷ control ∷ [])

  unfoldable pub redeem_witness :
      List ℕ
      → List ℕ
      → CollateralCoin
      → List ℕ
      → DgbCoin
      → List ℕ
      → ℕ
      → List ℕ
      → Tx
      → ℕ
      → TxInput
      → Outcome TxError (List (List ℕ))
  redeem_witness owner_key raw_key collateral leaf_hash fee_utxo fee_key fee_index tweaked_key tx
        input_index input =
      if input_index == 0
      then collateral_witness owner_key raw_key collateral leaf_hash tx
      else if input_index == fee_index
      then sign_dgb_leg lib fee_utxo.coin_type fee_key tx input_index
      else key_path_witness lib tweaked_key tx input_index

  -- From the leaf's hash on.
  unfoldable pub sign_redeem_tx :
      List ℕ
      → CollateralCoin
      → DgbCoin
      → List ℕ
      → List ℕ
      → ℕ
      → List TxInput
      → List Output
      → ℕ
      → ℕ
      → Outcome TxError SignedDd
  sign_redeem_tx owner_key collateral fee_utxo priv_key_hex fee_key fee_index inputs outputs
        dd_change dgb_change =
      do
        leaf_hash ←
            normal_redemption_leaf_hash lib owner_key collateral.lock_height collateral.dd_cents
        raw_key ← from_envelope (bytes_of priv_key_hex)
        tweaked ← tap_tweak_priv_key lib priv_key_hex
        tweaked_key ← from_envelope (bytes_of tweaked)
        let tx : Tx = record {
          version = dd_version redeem;
          locktime = collateral.lock_height;
          inputs = inputs;
          outputs = outputs;
        }
        witnesses ←
            map_indexed
              (redeem_witness owner_key raw_key collateral leaf_hash fee_utxo fee_key fee_index
                tweaked_key tx)
              0 inputs
        hex ← serialize_tx tx witnesses
        ok (record { hex = hex; dd_change_cents = dd_change; dgb_change_sats = dgb_change })

  unfoldable pub build_signed_redeem_tx :
      CollateralCoin
      → List DdCoin
      → DgbCoin
      → List ℕ
      → Option (List ℕ)
      → ℕ
      → Option (List ℕ)
      → Outcome TxError SignedDd
  build_signed_redeem_tx collateral dd_utxos fee_utxo priv_key_hex fee_key fee_sats script = do
    let fee_priv_key_hex = given_or fee_key priv_key_hex
    (dd_change, dgb_change) ←
        redeem_amounts collateral.dd_cents (map (λ (u : DdCoin). u.dd_cents) dd_utxos)
          fee_utxo.value_sats fee_sats
    owner_key ← x_only_pub_key lib priv_key_hex
    collateral_key ← collateral_output_key lib owner_key collateral.lock_height collateral.dd_cents
    collateral_script ← p2tr_script collateral_key
    owner_script ← token_script lib owner_key
    fee_script ← dgb_leg_script lib fee_utxo.coin_type fee_priv_key_hex
    let inputs : List TxInput =
        collateral_input (bytes_to_hex collateral_script) collateral
        ∷ (map (dd_input (bytes_to_hex owner_script) 0xfffffffe) dd_utxos
            ++ dgb_input (bytes_to_hex fee_script) 0xffffffff fee_utxo ∷ [])
    let fee_index = 1 + length dd_utxos
    check_fee_input fee_utxo (get_elem? inputs fee_index)
    change_script_hex ← change_script script priv_key_hex
    outputs ←
        build_redeem_outputs lib.curve collateral.value_sats (bytes_to_hex owner_script) dd_change
          owner_key dgb_change change_script_hex
    sign_redeem_tx owner_key collateral fee_utxo priv_key_hex fee_priv_key_hex fee_index inputs
        outputs dd_change dgb_change

  unfoldable pub spend_input : Utxo → Outcome TxError TxInput
  spend_input u = do
    script ← dgb_leg_script lib u.coin_type u.priv_key_hex
    ok (record {
      txid_hex = u.txid_hex;
      vout = u.vout;
      value_sats = u.value_sats;
      script_pub_key_hex = bytes_to_hex script;
      sequence = 0xfffffffd;
    })

  -- Returns the text and the change.
  unfoldable pub build_signed_spend_tx :
      List Utxo → List ℕ → ℕ → List ℕ → ℕ → Outcome TxError (List ℕ × ℕ)
  build_signed_spend_tx utxos recipient_script_hex amount change_script_hex fee_sats = do
    change_sats ← spend_amounts utxos amount fee_sats
    inputs ← map_indexed (λ i. spend_input) 0 utxos
    script ← from_envelope (bytes_of recipient_script_hex)
    change ← change_output change_sats change_script_hex
    let tx : Tx = record {
      version = 2;
      locktime = 0;
      inputs = inputs;
      outputs = record { value_sats = amount; script = script } ∷ change;
    }
    witnesses ← map_indexed (λ i u. sign_dgb_leg lib u.coin_type u.priv_key_hex tx i) 0 utxos
    hex ← serialize_tx tx witnesses
    ok (hex, change_sats)

  -- The change of a mint goes to the owner's P2WPKH.
  unfoldable pub mint_change : ℕ → List ℕ → Outcome TxError (List Output)
  mint_change change_sats priv_key_hex =
      if ltb 0 change_sats
      then (p2wpkh_script lib priv_key_hex >>= λ script.
          ok (record { value_sats = change_sats; script = script } ∷ []))
      else ok []

  unfoldable pub mint_outputs :
      List ℕ → List ℕ → Quote → MintAmounts → Outcome TxError (List Output)
  mint_outputs priv_key_hex owner_key q a = do
    collateral_key ← collateral_output_key lib owner_key a.unlock_height q.dd_cents
    collateral ← p2tr_script collateral_key
    token ← token_script lib owner_key
    metadata_hex ← from_envelope (
        build_mint_metadata (record {
          dd_cents = q.dd_cents;
          unlock_height = a.unlock_height;
          lock_tier = index_of_tier q.tier_id 0 lock_tiers;
          owner_key_hex = owner_key;
        }))
    metadata ← from_envelope (bytes_of metadata_hex)
    change ← mint_change a.change_sats priv_key_hex
    ok (
        record { value_sats = a.collateral_sats; script = collateral }
        ∷ record { value_sats = 0; script = token }
        ∷ record { value_sats = 0; script = metadata }
        ∷ change)

  -- The known tier is tested for first, and `mint_amounts` tests it and the fee again.
  unfoldable pub build_signed_mint_tx :
      DgbCoin → List ℕ → Quote → ℕ → ℕ → Outcome TxError SignedMint
  build_signed_mint_tx utxo priv_key_hex q tip_height fee_sats = do
    throw_if (not (is_known_tier q.tier_id)) unknown_tier
    throw_if (ltb fee_sats min_dd_tx_fee_sats) fee_below_floor
    owner_key ← x_only_pub_key lib priv_key_hex
    a ← mint_amounts utxo.value_sats q tip_height fee_sats
    funding_script ← dgb_leg_script lib utxo.coin_type priv_key_hex
    outputs ← mint_outputs priv_key_hex owner_key q a
    let tx : Tx = record {
      version = dd_version mint;
      locktime = 0;
      inputs = dgb_input (bytes_to_hex funding_script) 0xfffffffd utxo ∷ [];
      outputs = outputs;
    }
    witness ← sign_dgb_leg lib utxo.coin_type priv_key_hex tx 0
    hex ← serialize_tx tx (witness ∷ [])
    ok (record {
      hex = hex;
      unlock_height = a.unlock_height;
      collateral_sats = a.collateral_sats;
      change_sats = a.change_sats;
    })
