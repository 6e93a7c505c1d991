-- ===== src/TxBuild/Signed/Redeem.antt =====
-- What the text of a signed redemption says to whoever reads it.
pub mod Inversion
use diginaut_wallet.Prelude.{
  ok-injective, ℕ, zero, suc, ◌+◌, ◌-◌, ◌≤◌, ◌<◌, ◌^◌, ◌≡◌, refl, sym, subst, ap, ◌∙◌, List, [],
  ◌∷◌, ◌++◌, map, sum, sum_map, All, All-append, Option, none, some, Outcome, ok, ◌>>=◌,
  >>=_returned, >>_returned, length, get_elem?, arith, Bool-cases, inl, inr, ltb, leb, ◌==◌,
  if◌then◌else◌,
}
use diginaut_wallet.Coins.{CoinType, p2tr}
use diginaut_wallet.Hex.{bytes_to_hex}
use diginaut_wallet.Envelope.Version.{dd_version, redeem, code_of}
use diginaut_wallet.Envelope.Metadata.{bytes_of}
use diginaut_wallet.Envelope.Metadata.RoundTrip.{Fits}
use diginaut_wallet.TxBuild.{
  TxError, Output, from_envelope, p2tr_script, build_redeem_outputs, min_dd_tx_fee_sats,
  dd_token_output_key,
}
use diginaut_wallet.TxBuild.Amounts.{redeem_amounts, FeePaid}
use diginaut_wallet.TxBuild.Redeem.{
  redeem_body, RedeemLayout, redeem_body-conserves, owner_script_of,
}
use diginaut_wallet.TxBuild.Taproot.{
  Library, tap_leaf, collateral_output_key, collateral_control_block_hex,
  normal_redemption_leaf_hex, normal_redemption_leaf_hash, tap_leaf_hash,
}
use diginaut_wallet.TxBuild.Taproot.Spending.{
  IsLibrary, SpendsLeaf, Revealed, collateral_output_key-Revealed, tap_leaf_hash-made,
  bytes_of-IsByte,
}
use diginaut_wallet.TxBuild.Taproot.Leaves.{read_back}
use diginaut_wallet.TxBuild.Sighash.{
  from_library, tap_tweak_priv_key, x_only_pub_key, taproot_sighash, key_path_witness, token_script,
  dgb_leg_script, sign_dgb_leg,
}
use diginaut_wallet.TxBuild.Wire.{TxInput, Tx, serialize_tx}
use diginaut_wallet.TxBuild.Wire.Reader.{read_tx}
use diginaut_wallet.TxBuild.Wire.RoundTrip.{IsInput, IsTx, shown_tx, serialize_tx-read_tx}
use diginaut_wallet.TxBuild.Signed.{
  DgbCoin, DdCoin, CollateralCoin, SignedDd, given_or, map_indexed, dd_input, dgb_input,
  collateral_input, change_script, collateral_witness, redeem_witness, check_fee_input,
  sign_redeem_tx, build_signed_redeem_tx,
}
use diginaut_wallet.TxBuild.Signed.Legs.{IsCoin, values_below, IsLeg, Leg, AllLegs, key_path-IsLeg}
use diginaut_wallet.TxBuild.Signed.Unlocking.{Unlocks, collateral_witness-Unlocks}
use diginaut_wallet.TxBuild.Signed.Burning.{
  IsRedeemable, length-map_indexed, redeem_inputs-IsInput, redeem_legs, map_indexed-AllLegs,
}
use diginaut_wallet.TxBuild.Signed.Redeem.Inversion.{
  redeem_tx, Run, build_signed_redeem_tx-Run, Run-Signing,
}

-- The transaction of a redemption: the collateral, the tokens and the fee coin come in, and what goes
-- out burns exactly what was minted. The collateral and the DD change go to the script that the
-- tokens stand under, and the DGB change to the given script or that of the owner.
pub record IsRedemption (lib : Library) (collateral : CollateralCoin) (dd_utxos : List DdCoin)
    (fee_utxo : DgbCoin) (priv_key : List ℕ) (given : Option (List ℕ)) (fee dd dgb : ℕ)
    (owner key : List ℕ) (tx : Tx) : Type 0 where
  pub is_version : tx.version ≡ dd_version redeem
  pub locked : tx.locktime ≡ collateral.lock_height
  pub script : List ℕ
  pub owner_script : List ℕ
  pub change_hex : List ℕ
  pub fee_script : List ℕ
  pub is_script : p2tr_script key ≡ ok script
  pub is_token : token_script lib owner ≡ ok owner_script
  pub is_change : change_script lib given priv_key ≡ ok change_hex
  pub spent :
      tx.inputs
      ≡ collateral_input (bytes_to_hex script) collateral
        ∷ (map (dd_input (bytes_to_hex owner_script) 0xfffffffe) dd_utxos
            ++ dgb_input fee_script 0xffffffff fee_utxo ∷ [])
  pub layout : RedeemLayout collateral.value_sats dd dgb owner_script change_hex tx.outputs
  pub burned : sum (map (λ (u : DdCoin). u.dd_cents) dd_utxos) ≡ collateral.dd_cents + dd
  pub floor : min_dd_tx_fee_sats ≤ fee
  pub paid : FeePaid fee_utxo.value_sats fee dgb (fee_utxo.value_sats - dgb)

-- The text reads as the transaction, whose first witness opens the collateral under a key, and the
-- others are signed for.
pub record RedeemsOnWire (lib : Library) (tx : Tx) (priv_key key : List ℕ) (legs : List Leg)
    (hex : List ℕ) : Type 0 where
  pub first : TxInput
  pub others : List TxInput
  pub inputs : tx.inputs ≡ first ∷ others
  pub witness : List (List ℕ)
  pub witnesses : List (List (List ℕ))
  pub bytes : List ℕ
  pub is_text : hex ≡ bytes_to_hex bytes
  pub reads : read_tx bytes ≡ some (shown_tx tx (witness ∷ witnesses), [])
  pub unlocks : Unlocks lib tx priv_key key witness
  pub all_legs : AllLegs lib tx 1 legs others witnesses

-- The script of the tokens, written as hex, reads as itself.
token_script-reads :
    (lib : Library) (owner script : List ℕ)
    → token_script lib owner ≡ ok script
    → from_envelope (bytes_of (bytes_to_hex script)) ≡ ok script
unfolding token_script p2tr_script
token_script-reads lib owner script h =
    let (key, h1, _) = >>=_returned _ (dd_token_output_key lib.curve owner) h in
    let (bytes, h2, read) = >>=_returned _ (from_envelope (bytes_of key)) h1 in
    let is : 0x51 ∷ 0x20 ∷ bytes ≡ script = ok-injective h2 in
    rw (sym is) (
      read_back (0x51 ∷ 0x20 ∷ bytes) (omega arith, (omega arith, bytes_of-IsByte key bytes read))
        (omega arith))

token_script-owner :
    (lib : Library) (owner script : List ℕ)
    → token_script lib owner ≡ ok script
    → owner_script_of lib.curve owner ≡ ok script
unfolding token_script
token_script-owner lib owner script h = h

redeem_body-made :
    (lib : Library) (collateral minted : ℕ) (cents : List ℕ) (fee_value fee : ℕ)
    (back owner script : List ℕ) (outs : List Output) (dd dgb : ℕ)
    → redeem_amounts minted cents fee_value fee ≡ ok (dd, dgb)
    → build_redeem_outputs lib.curve collateral back dd owner dgb script ≡ ok outs
    → redeem_body lib.curve collateral minted cents fee_value fee back owner script
      ≡ ok (outs, dd, dgb)
unfolding redeem_body
redeem_body-made lib collateral minted cents fee_value fee back owner script outs dd dgb a b =
    rw (a, b) refl

module _ (lib : Library) (collateral : CollateralCoin) (dd_utxos : List DdCoin) (fee_utxo : DgbCoin)
    (priv_key : List ℕ) (fee_key : Option (List ℕ)) (fee : ℕ) (given : Option (List ℕ)) where
  abbrev tx_of :
      {s : SignedDd} → Run lib collateral dd_utxos fee_utxo priv_key fee_key fee given s → Tx
  tx_of r = redeem_tx collateral dd_utxos fee_utxo r.script r.owner_script r.fee_script r.outs

  Run-IsRedemption :
      (s : SignedDd) (r : Run lib collateral dd_utxos fee_utxo priv_key fee_key fee given s)
      → IsRedeemable collateral dd_utxos fee_utxo
      → IsRedemption lib collateral dd_utxos fee_utxo priv_key given fee r.dd r.dgb r.owner r.key
          (tx_of r)
        × All (λ (o : Output). o.value_sats < 2 ^ 64) r.outs
  Run-IsRedemption s r v =
      let cents = map (λ (u : DdCoin). u.dd_cents) dd_utxos in
      let (layout, burned, total, floor, paid) =
        redeem_body-conserves lib.curve collateral.value_sats collateral.dd_cents cents
          fee_utxo.value_sats fee (bytes_to_hex r.owner_script) r.owner r.change r.outs r.dd r.dgb
          r.owner_script v.cents (token_script-reads lib r.owner r.owner_script r.token)
          (token_script-owner lib r.owner r.owner_script r.token)
          (redeem_body-made lib collateral.value_sats collateral.dd_cents cents fee_utxo.value_sats
            fee (bytes_to_hex r.owner_script) r.owner r.change r.outs r.dd r.dgb r.amounts
            r.built) in
      (
        record {
          is_version = refl;
          locked = refl;
          script = r.script;
          owner_script = r.owner_script;
          change_hex = r.change;
          fee_script = bytes_to_hex r.fee_script;
          is_script = r.is_script;
          is_token = r.token;
          is_change = r.is_change;
          spent = refl;
          layout = layout;
          burned = burned;
          floor = floor;
          paid = paid;
        },
        values_below (2 ^ 64) r.outs (omega (arith, total, paid.balanced, v.values)),
      )

  -- The witness of the collateral, and those behind it.
  Run-witnesses :
      (s : SignedDd) (r : Run lib collateral dd_utxos fee_utxo priv_key fee_key fee given s)
      → IsLibrary lib
      → let g = Run-Signing lib collateral dd_utxos fee_utxo priv_key fee_key fee given s r in
        (w : List (List ℕ)) × (rest : List (List (List ℕ))) × (g.ws ≡ w ∷ rest)
        × Unlocks lib (tx_of r) priv_key r.key w
        × AllLegs lib
            (tx_of r)
            1
            (redeem_legs dd_utxos priv_key (fee_utxo.coin_type, given_or fee_key priv_key))
            (map (dd_input (bytes_to_hex r.owner_script) 0xfffffffe) dd_utxos
              ++ dgb_input (bytes_to_hex r.fee_script) 0xffffffff fee_utxo ∷ [])
            rest
  unfolding map_indexed redeem_witness
  Run-witnesses s r v =
      let g = Run-Signing lib collateral dd_utxos fee_utxo priv_key fee_key fee given s r in
      let fee_priv_key = given_or fee_key priv_key in
      let fee_index = 1 + length dd_utxos in
      let f =
        redeem_witness lib r.owner g.raw_key collateral g.leaf_hash fee_utxo fee_priv_key fee_index
          g.tweaked_key (tx_of r) in
      let (w, h_1, opened) =
        >>=_returned _ (collateral_witness lib r.owner g.raw_key collateral g.leaf_hash (tx_of r))
          g.witnessed in
      let (rest, h_2, more) = >>=_returned _ _ h_1 in
      (
        w,
        rest,
        sym (ok-injective h_2),
        collateral_witness-Unlocks lib r.owner r.key g.raw_key priv_key g.leaf_hash collateral
            (tx_of r) w v r.locked g.hashed g.is_key opened,
        map_indexed-AllLegs lib (tx_of r) priv_key r.owner r.owner_script g.tweaked g.tweaked_key
            fee_utxo fee_priv_key r.fee_script f fee_index r.x_only r.token g.tweak g.as_bytes r.leg
            (λ i input pos below. ground arith) (λ input. ground arith) dd_utxos 1 rest
            (omega arith) refl more,
      )

  Run-RedeemsOnWire :
      (s : SignedDd) (r : Run lib collateral dd_utxos fee_utxo priv_key fee_key fee given s)
      → IsLibrary lib
      → IsRedeemable collateral dd_utxos fee_utxo
      → RedeemsOnWire lib
          (tx_of r)
          priv_key
          r.key
          (redeem_legs dd_utxos priv_key (fee_utxo.coin_type, given_or fee_key priv_key))
          s.hex
  unfolding dd_version code_of
  Run-RedeemsOnWire s r v coins =
      let g = Run-Signing lib collateral dd_utxos fee_utxo priv_key fee_key fee given s r in
      let (w, rest, is_ws, unlocks, legs) = Run-witnesses s r v in
      let (bytes, is_text, reads) =
        serialize_tx-read_tx (tx_of r) g.ws s.hex
          (record {
            small_version = omega arith;
            small_locktime = coins.height;
            all_inputs =
                redeem_inputs-IsInput collateral dd_utxos fee_utxo (bytes_to_hex r.script)
                  (bytes_to_hex r.owner_script) (bytes_to_hex r.fee_script) coins;
            all_outputs = (Run-IsRedemption s r coins).1;
            witnessed = length-map_indexed _ 0 (tx_of r).inputs g.ws g.witnessed;
          })
          g.written in
      record {
        first = collateral_input (bytes_to_hex r.script) collateral;
        others =
            map (dd_input (bytes_to_hex r.owner_script) 0xfffffffe) dd_utxos
            ++ dgb_input (bytes_to_hex r.fee_script) 0xffffffff fee_utxo ∷ [];
        inputs = refl;
        witness = w;
        witnesses = rest;
        bytes = bytes;
        is_text = is_text;
        reads = reads ∙ ap (λ ws. some (shown_tx (tx_of r) ws, [])) is_ws;
        unlocks = unlocks;
        all_legs = legs;
      }

  -- When `buildSignedRedeemTx` returns, with leaf hashes that are bytes, a parity of 0 or 1
  -- and x coordinates of 32 bytes, for coins with txids of 32 bytes and indices below 2 ^ 32,
  -- a lock height below 2 ^ 32, a collateral and a fee coin below 2 ^ 64 satoshis together
  -- and tokens below 2 ^ 592 cents together: a reader of the BIP-144 format reads the text as
  -- one transaction with nothing left. It has the lock height as its locktime and spends the
  -- collateral under the output key of the owner's leaves, the tokens and the fee coin, in
  -- this order and no other. The first witness has a signature with the owner's key for the
  -- leaf, and the leaf and the control block that pass the check of BIP-341 for a script path
  -- against that output key; each other one is what `signDgbLeg` makes with the owner's or
  -- the fee's key, for the input whose script is that of the key. The tokens are the minted
  -- cents and the DD change, which has its token and its metadata; the collateral comes back
  -- whole, to the script that the tokens stand under, which is the one of the owner's key;
  -- the token of the DD change has that script too, and the DGB change has the given script
  -- or else the P2WPKH script of the owner's key; the fee is not below the floor, and the fee
  -- coin pays for its change, the fee and less than 100000 satoshis more.
  pub build_signed_redeem_tx-RedeemsOnWire :
      (s : SignedDd)
      → IsLibrary lib
      → IsRedeemable collateral dd_utxos fee_utxo
      → build_signed_redeem_tx lib collateral dd_utxos fee_utxo priv_key fee_key fee given ≡ ok s
      → (tx : Tx) × (owner : List ℕ) × (key : List ℕ) × (x_only_pub_key lib priv_key ≡ ok owner)
        × (collateral_output_key lib owner collateral.lock_height collateral.dd_cents ≡ ok key)
        × RedeemsOnWire lib tx priv_key key
            (redeem_legs dd_utxos priv_key (fee_utxo.coin_type, given_or fee_key priv_key))
            s.hex
        × IsRedemption lib collateral dd_utxos fee_utxo priv_key given fee s.dd_change_cents
            s.dgb_change_sats owner key tx
  build_signed_redeem_tx-RedeemsOnWire s v coins h =
      let r =
        build_signed_redeem_tx-Run lib collateral dd_utxos fee_utxo priv_key fee_key fee given s
          h in
      let g = Run-Signing lib collateral dd_utxos fee_utxo priv_key fee_key fee given s r in
      (
        tx_of r,
        r.owner,
        r.key,
        r.x_only,
        r.locked,
        Run-RedeemsOnWire s r v coins,
        rw (sym g.is_dd, sym g.is_dgb) ((Run-IsRedemption s r coins).0),
      )
