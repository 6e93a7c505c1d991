-- ===== src/TxBuild/Signed/Redeem/Inversion.antt =====
-- The values that `buildSignedRedeemTx`, where it returns, has come by.
use diginaut_wallet.Prelude.{
  ok-injective, ℕ, ◌+◌, ◌≡◌, ap, ◌∙◌, List, [], ◌∷◌, ◌++◌, map, Option, ok, >>=_returned,
  >>_returned, length, get_elem?,
}
use diginaut_wallet.Hex.{bytes_to_hex}
use diginaut_wallet.Envelope.Version.{dd_version, redeem}
use diginaut_wallet.Envelope.Metadata.{bytes_of}
use diginaut_wallet.TxBuild.{Output, from_envelope, p2tr_script, build_redeem_outputs}
use diginaut_wallet.TxBuild.Amounts.{redeem_amounts}
use diginaut_wallet.TxBuild.Taproot.{Library, collateral_output_key, normal_redemption_leaf_hash}
use diginaut_wallet.TxBuild.Sighash.{
  tap_tweak_priv_key, x_only_pub_key, token_script, dgb_leg_script,
}
use diginaut_wallet.TxBuild.Wire.{TxInput, Tx, serialize_tx}
use diginaut_wallet.TxBuild.Signed.{
  DgbCoin, DdCoin, CollateralCoin, SignedDd, given_or, map_indexed, dd_input, dgb_input,
  collateral_input, change_script, redeem_witness, check_fee_input, sign_redeem_tx,
  build_signed_redeem_tx,
}

abbrev pub redeem_tx :
    CollateralCoin → List DdCoin → DgbCoin → List ℕ → List ℕ → List ℕ → List Output → Tx
redeem_tx collateral dd_utxos fee_utxo script owner_script fee_script outs = record {
  version = dd_version redeem;
  locktime = collateral.lock_height;
  inputs =
      collateral_input (bytes_to_hex script) collateral
      ∷ (map (dd_input (bytes_to_hex owner_script) 0xfffffffe) dd_utxos
          ++ dgb_input (bytes_to_hex fee_script) 0xffffffff fee_utxo ∷ []);
  outputs = outs;
}

-- The values that the signing of a redemption, where it returns, has come by.
pub record Signing (lib : Library) (owner : List ℕ) (collateral : CollateralCoin)
    (fee_utxo : DgbCoin) (priv_key fee_key : List ℕ) (fee_index : ℕ) (tx : Tx) (dd dgb : ℕ)
    (s : SignedDd) : Type 0 where
  pub leaf_hash : List ℕ
  pub raw_key : List ℕ
  pub tweaked : List ℕ
  pub tweaked_key : List ℕ
  pub ws : List (List (List ℕ))
  pub hashed :
      normal_redemption_leaf_hash lib owner collateral.lock_height collateral.dd_cents
      ≡ ok leaf_hash
  pub is_key : from_envelope (bytes_of priv_key) ≡ ok raw_key
  pub tweak : tap_tweak_priv_key lib priv_key ≡ ok tweaked
  pub as_bytes : from_envelope (bytes_of tweaked) ≡ ok tweaked_key
  pub witnessed :
      map_indexed
        (redeem_witness lib owner raw_key collateral leaf_hash fee_utxo fee_key fee_index
          tweaked_key tx)
        0
        tx.inputs
      ≡ ok ws
  pub written : serialize_tx tx ws ≡ ok s.hex
  pub is_dd : dd ≡ s.dd_change_cents
  pub is_dgb : dgb ≡ s.dgb_change_sats

abbrev tx_with : CollateralCoin → List TxInput → List Output → Tx
tx_with collateral inputs outs = record {
  version = dd_version redeem;
  locktime = collateral.lock_height;
  inputs = inputs;
  outputs = outs;
}

sign_redeem_tx-Signing :
    (lib : Library) (owner : List ℕ) (collateral : CollateralCoin) (fee_utxo : DgbCoin)
    (priv_key fee_key : List ℕ) (fee_index : ℕ) (inputs : List TxInput) (outs : List Output)
    (dd dgb : ℕ) (s : SignedDd)
    → sign_redeem_tx lib owner collateral fee_utxo priv_key fee_key fee_index inputs outs dd dgb
      ≡ ok s
    → Signing lib owner collateral fee_utxo priv_key fee_key fee_index
        (tx_with collateral inputs outs)
        dd
        dgb
        s
unfolding sign_redeem_tx
sign_redeem_tx-Signing lib owner collateral fee_utxo priv_key fee_key fee_index inputs outs dd dgb s
      h =
    let (leaf_hash, h_1, hashed) =
      >>=_returned _
        (normal_redemption_leaf_hash lib owner collateral.lock_height collateral.dd_cents) h in
    let (raw_key, h_2, is_key) = >>=_returned _ (from_envelope (bytes_of priv_key)) h_1 in
    let (tweaked, h_3, tweak) = >>=_returned _ (tap_tweak_priv_key lib priv_key) h_2 in
    let (tweaked_key, h_4, as_bytes) = >>=_returned _ (from_envelope (bytes_of tweaked)) h_3 in
    let (ws, h_5, witnessed) = >>=_returned _ _ h_4 in
    let (hex, made, written) = >>=_returned _ _ h_5 in
    let is = ok-injective made in
    record {
      leaf_hash = leaf_hash;
      raw_key = raw_key;
      tweaked = tweaked;
      tweaked_key = tweaked_key;
      ws = ws;
      hashed = hashed;
      is_key = is_key;
      tweak = tweak;
      as_bytes = as_bytes;
      witnessed = witnessed;
      written = written ∙ ap (λ (r : SignedDd). ok r.hex) is;
      is_dd = ap (λ (r : SignedDd). r.dd_change_cents) is;
      is_dgb = ap (λ (r : SignedDd). r.dgb_change_sats) is;
    }

module _ (lib : Library) (collateral : CollateralCoin) (dd_utxos : List DdCoin) (fee_utxo : DgbCoin)
    (priv_key : List ℕ) (fee_key : Option (List ℕ)) (fee : ℕ) (given : Option (List ℕ)) where
  -- The values that a run which returns has come by.
  pub record Run (s : SignedDd) : Type 0 where
    pub owner : List ℕ
    pub key : List ℕ
    pub script : List ℕ
    pub owner_script : List ℕ
    pub fee_script : List ℕ
    pub change : List ℕ
    pub outs : List Output
    pub dd : ℕ
    pub dgb : ℕ
    pub amounts :
        redeem_amounts collateral.dd_cents
          (map (λ (u : DdCoin). u.dd_cents) dd_utxos)
          fee_utxo.value_sats
          fee
        ≡ ok (dd, dgb)
    pub x_only : x_only_pub_key lib priv_key ≡ ok owner
    pub locked : collateral_output_key lib owner collateral.lock_height collateral.dd_cents ≡ ok key
    pub is_script : p2tr_script key ≡ ok script
    pub token : token_script lib owner ≡ ok owner_script
    pub leg : dgb_leg_script lib fee_utxo.coin_type (given_or fee_key priv_key) ≡ ok fee_script
    pub is_change : change_script lib given priv_key ≡ ok change
    pub built :
        build_redeem_outputs lib.curve collateral.value_sats
          (bytes_to_hex owner_script)
          dd
          owner
          dgb
          change
        ≡ ok outs
    pub signed :
        sign_redeem_tx lib owner collateral fee_utxo priv_key
          (given_or fee_key priv_key)
          (1 + length dd_utxos)
          (redeem_tx collateral dd_utxos fee_utxo script owner_script fee_script outs).inputs
          outs
          dd
          dgb
        ≡ ok s

  pub build_signed_redeem_tx-Run :
      (s : SignedDd)
      → build_signed_redeem_tx lib collateral dd_utxos fee_utxo priv_key fee_key fee given ≡ ok s
      → Run s
  unfolding build_signed_redeem_tx
  build_signed_redeem_tx-Run s h =
      let fee_priv_key = given_or fee_key priv_key in
      let ((dd, dgb), h_1, amounts) =
        >>=_returned _
          (redeem_amounts collateral.dd_cents (map (λ (u : DdCoin). u.dd_cents) dd_utxos)
            fee_utxo.value_sats fee)
          h in
      let (owner, h_2, x_only) = >>=_returned _ (x_only_pub_key lib priv_key) h_1 in
      let (key, h_3, locked) =
        >>=_returned _ (collateral_output_key lib owner collateral.lock_height collateral.dd_cents)
          h_2 in
      let (script, h_4, is_script) = >>=_returned _ (p2tr_script key) h_3 in
      let (owner_script, h_5, token) = >>=_returned _ (token_script lib owner) h_4 in
      let (fee_script, h_6, leg) =
        >>=_returned _ (dgb_leg_script lib fee_utxo.coin_type fee_priv_key) h_5 in
      let inputs : List TxInput =
        (redeem_tx collateral dd_utxos fee_utxo script owner_script fee_script []).inputs in
      let (h_7, _) =
        >>_returned (check_fee_input fee_utxo (get_elem? inputs (1 + length dd_utxos))) _ h_6 in
      let (change, h_8, is_change) = >>=_returned _ (change_script lib given priv_key) h_7 in
      let (outs, h_9, built) =
        >>=_returned _
          (build_redeem_outputs lib.curve collateral.value_sats (bytes_to_hex owner_script) dd owner
            dgb change)
          h_8 in
      record {
        owner = owner;
        key = key;
        script = script;
        owner_script = owner_script;
        fee_script = fee_script;
        change = change;
        outs = outs;
        dd = dd;
        dgb = dgb;
        amounts = amounts;
        x_only = x_only;
        locked = locked;
        is_script = is_script;
        token = token;
        leg = leg;
        is_change = is_change;
        built = built;
        signed = h_9;
      }

  pub Run-Signing :
      (s : SignedDd) (r : Run s)
      → Signing lib r.owner collateral fee_utxo priv_key
          (given_or fee_key priv_key)
          (1 + length dd_utxos)
          (redeem_tx collateral dd_utxos fee_utxo r.script r.owner_script r.fee_script r.outs)
          r.dd
          r.dgb
          s
  Run-Signing s r =
      sign_redeem_tx-Signing lib r.owner collateral fee_utxo priv_key (given_or fee_key priv_key) _
        _ r.outs r.dd r.dgb s r.signed
