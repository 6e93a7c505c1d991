-- ===== src/TxBuild/Signed/Transfer.antt =====
-- What the text of a signed transfer says to whoever reads it.
use diginaut_wallet.Prelude.{
  ok-injective, ℕ, ◌-◌, ◌≤◌, ◌<◌, ◌^◌, ◌≡◌, refl, sym, subst, ap, ◌∙◌, List, [], ◌∷◌, sum, sum_map,
  Option, ok, >>=_returned, length, arith,
}
use diginaut_wallet.Coins.{p2tr}
use diginaut_wallet.Hex.{bytes_to_hex}
use diginaut_wallet.Envelope.Version.{dd_version, transfer, code_of}
use diginaut_wallet.Envelope.Metadata.{bytes_of}
use diginaut_wallet.Envelope.Metadata.RoundTrip.{Fits}
use diginaut_wallet.TxBuild.{
  Output, Recipient, from_envelope, build_transfer_outputs, min_dd_tx_fee_sats,
}
use diginaut_wallet.TxBuild.Amounts.{transfer_amounts, FeePaid}
use diginaut_wallet.TxBuild.Outputs.{output_cents, TransferLayout}
use diginaut_wallet.TxBuild.Transfer.{transfer_body, transfer_body-conserves}
use diginaut_wallet.TxBuild.Taproot.{Library}
use diginaut_wallet.TxBuild.Sighash.{
  tap_tweak_priv_key, x_only_pub_key, key_path_witness, token_script, dgb_leg_script, sign_dgb_leg,
}
use diginaut_wallet.TxBuild.Wire.{TxInput, Tx, serialize_tx}
use diginaut_wallet.TxBuild.Wire.RoundTrip.{IsInput}
use diginaut_wallet.TxBuild.Signed.{
  DgbCoin, DdCoin, SignedDd, given_or, map_indexed, dd_input, dgb_input, change_script,
  transfer_witness, build_signed_transfer_tx,
}
use diginaut_wallet.TxBuild.Signed.Legs.{
  IsCoin, values_below, AllLegs, OnWire, OnWire-serialize_tx, key_path-IsLeg,
}

-- The transaction of a transfer: two inputs, and the outputs of a conserving transfer.
pub record IsTransfer (lib : Library) (dd_utxo : DdCoin) (fee_utxo : DgbCoin) (rs : List Recipient)
    (fee dd dgb : ℕ) (tx : Tx) : Type 0 where
  pub is_version : tx.version ≡ dd_version transfer
  pub no_locktime : tx.locktime ≡ 0
  pub dd_script : List ℕ
  pub fee_script : List ℕ
  pub spent :
      tx.inputs
      ≡ dd_input dd_script 0xffffffff dd_utxo ∷ dgb_input fee_script 0xffffffff fee_utxo ∷ []
  pub layout : TransferLayout lib.curve rs dd dgb tx.outputs
  pub all_cents : sum (output_cents rs dd) ≡ dd_utxo.dd_cents
  pub floor : min_dd_tx_fee_sats ≤ fee
  pub paid :
      FeePaid fee_utxo.value_sats fee
        (sum_map (λ (o : Output). o.value_sats) tx.outputs)
        (fee_utxo.value_sats - dgb)

transfer_body-made :
    (lib : Library) (dd_cents fee_value fee : ℕ) (rs : List Recipient) (owner script : List ℕ)
    (outs : List Output) (dd dgb : ℕ)
    → transfer_amounts dd_cents fee_value fee rs ≡ ok (dd, dgb)
    → build_transfer_outputs lib.curve rs dd owner dgb script ≡ ok outs
    → transfer_body lib.curve dd_cents fee_value fee rs owner script ≡ ok (outs, dd, dgb)
unfolding transfer_body
transfer_body-made lib dd_cents fee_value fee rs owner script outs dd dgb a b = rw (a, b) refl

coins-IsInput :
    (dd_utxo : DdCoin) (fee_utxo : DgbCoin) (dd_script fee_script : List ℕ)
    → IsCoin dd_utxo.txid_hex dd_utxo.vout
    → IsCoin fee_utxo.txid_hex fee_utxo.vout
    → IsInput (dd_input dd_script 0xffffffff dd_utxo)
      × IsInput (dgb_input fee_script 0xffffffff fee_utxo)
unfolding dd_input dgb_input
coins-IsInput dd_utxo fee_utxo dd_script fee_script c d = (
  record { whole = c.whole; small_vout = c.small; small_sequence = omega arith },
  record { whole = d.whole; small_vout = d.small; small_sequence = omega arith },
)

two_witnesses :
    (lib : Library) (fee_utxo : DgbCoin) (fee_key tweaked_key : List ℕ) (tx : Tx) (a b : TxInput)
    (ws : List (List (List ℕ)))
    → map_indexed (transfer_witness lib fee_utxo fee_key tweaked_key tx) 0 (a ∷ b ∷ []) ≡ ok ws
    → (w_0 : List (List ℕ)) × (w_1 : List (List ℕ)) × (ws ≡ w_0 ∷ w_1 ∷ [])
      × (key_path_witness lib tweaked_key tx 0 ≡ ok w_0)
      × (sign_dgb_leg lib fee_utxo.coin_type fee_key tx 1 ≡ ok w_1)
unfolding map_indexed transfer_witness
two_witnesses lib fee_utxo fee_key tweaked_key tx a b ws h =
    let (w_0, h1, e0) = >>=_returned _ (key_path_witness lib tweaked_key tx 0) h in
    let (rest, h2, e1) = >>=_returned _ _ h1 in
    let (w_1, h3, e2) = >>=_returned _ (sign_dgb_leg lib fee_utxo.coin_type fee_key tx 1) e1 in
    (w_0, w_1, sym (ok-injective h2) ∙ ap (λ t. w_0 ∷ t) (sym (ok-injective h3)), e0, e2)

abbrev transfer_tx : DdCoin → DgbCoin → List ℕ → List ℕ → List Output → Tx
transfer_tx dd_utxo fee_utxo owner_script fee_script outs = record {
  version = dd_version transfer;
  locktime = 0;
  inputs =
      dd_input (bytes_to_hex owner_script) 0xffffffff dd_utxo
      ∷ dgb_input (bytes_to_hex fee_script) 0xffffffff fee_utxo
      ∷ [];
  outputs = outs;
}

module _ (lib : Library) (dd_utxo : DdCoin) (fee_utxo : DgbCoin) (priv_key : List ℕ)
    (fee_key : Option (List ℕ)) (rs : List Recipient) (fee : ℕ) (script : Option (List ℕ)) where
  -- The values that a run which returns has come by.
  record Run (s : SignedDd) : Type 0 where
    owner : List ℕ
    owner_script : List ℕ
    fee_script : List ℕ
    change : List ℕ
    outs : List Output
    tweaked : List ℕ
    tweaked_key : List ℕ
    ws : List (List (List ℕ))
    amounts :
        transfer_amounts dd_utxo.dd_cents fee_utxo.value_sats fee rs
        ≡ ok (s.dd_change_cents, s.dgb_change_sats)
    x_only : x_only_pub_key lib priv_key ≡ ok owner
    token : token_script lib owner ≡ ok owner_script
    leg : dgb_leg_script lib fee_utxo.coin_type (given_or fee_key priv_key) ≡ ok fee_script
    built :
        build_transfer_outputs lib.curve rs s.dd_change_cents owner s.dgb_change_sats change
        ≡ ok outs
    tweak : tap_tweak_priv_key lib priv_key ≡ ok tweaked
    as_bytes : from_envelope (bytes_of tweaked) ≡ ok tweaked_key
    witnessed :
        map_indexed
          (transfer_witness lib fee_utxo
            (given_or fee_key priv_key)
            tweaked_key
            (transfer_tx dd_utxo fee_utxo owner_script fee_script outs))
          0
          (transfer_tx dd_utxo fee_utxo owner_script fee_script outs).inputs
        ≡ ok ws
    written : serialize_tx (transfer_tx dd_utxo fee_utxo owner_script fee_script outs) ws ≡ ok s.hex

  build_signed_transfer_tx-Run :
      (s : SignedDd)
      → build_signed_transfer_tx lib dd_utxo fee_utxo priv_key fee_key rs fee script ≡ ok s
      → Run s
  unfolding build_signed_transfer_tx
  build_signed_transfer_tx-Run s h =
      let key = given_or fee_key priv_key in
      let ((dd, dgb), h1, amounts) =
        >>=_returned _ (transfer_amounts dd_utxo.dd_cents fee_utxo.value_sats fee rs) h in
      let (owner, h2, x_only) = >>=_returned _ (x_only_pub_key lib priv_key) h1 in
      let (owner_script, h3, token) = >>=_returned _ (token_script lib owner) h2 in
      let (fee_script, h4, leg) = >>=_returned _ (dgb_leg_script lib fee_utxo.coin_type key) h3 in
      let (change, h5, _) = >>=_returned _ (change_script lib script priv_key) h4 in
      let (outs, h6, built) =
        >>=_returned _ (build_transfer_outputs lib.curve rs dd owner dgb change) h5 in
      let (tweaked, h7, tweak) = >>=_returned _ (tap_tweak_priv_key lib priv_key) h6 in
      let (tweaked_key, h8, as_bytes) = >>=_returned _ (from_envelope (bytes_of tweaked)) h7 in
      let (ws, h9, witnessed) = >>=_returned _ _ h8 in
      let (hex, made, written) = >>=_returned _ _ h9 in
      subst Run (ok-injective made) (record {
        owner = owner;
        owner_script = owner_script;
        fee_script = fee_script;
        change = change;
        outs = outs;
        tweaked = tweaked;
        tweaked_key = tweaked_key;
        ws = ws;
        amounts = amounts;
        x_only = x_only;
        token = token;
        leg = leg;
        built = built;
        tweak = tweak;
        as_bytes = as_bytes;
        witnessed = witnessed;
        written = written;
      })

  Run-IsTransfer :
      (s : SignedDd) (r : Run s)
      → Fits dd_utxo.dd_cents
      → IsTransfer lib dd_utxo fee_utxo rs fee s.dd_change_cents s.dgb_change_sats
          (transfer_tx dd_utxo fee_utxo r.owner_script r.fee_script r.outs)
  Run-IsTransfer s r fits =
      let (layout, cents, floor, paid) =
        transfer_body-conserves lib.curve dd_utxo.dd_cents fee_utxo.value_sats fee rs r.owner
          r.change r.outs s.dd_change_cents s.dgb_change_sats fits
          (transfer_body-made lib dd_utxo.dd_cents fee_utxo.value_sats fee rs r.owner r.change
            r.outs s.dd_change_cents s.dgb_change_sats r.amounts r.built) in
      record {
        is_version = refl;
        no_locktime = refl;
        dd_script = bytes_to_hex r.owner_script;
        fee_script = bytes_to_hex r.fee_script;
        spent = refl;
        layout = layout;
        all_cents = cents;
        floor = floor;
        paid = paid;
      }

  Run-OnWire :
      (s : SignedDd) (r : Run s)
      → Fits dd_utxo.dd_cents
      → IsCoin dd_utxo.txid_hex dd_utxo.vout
      → IsCoin fee_utxo.txid_hex fee_utxo.vout
      → fee_utxo.value_sats < 2 ^ 64
      → OnWire lib
          (transfer_tx dd_utxo fee_utxo r.owner_script r.fee_script r.outs)
          ((p2tr, priv_key) ∷ (fee_utxo.coin_type, given_or fee_key priv_key) ∷ [])
          s.hex
  unfolding dd_version code_of dd_input dgb_input
  Run-OnWire s r fits c d small =
      let key = given_or fee_key priv_key in
      let tx = transfer_tx dd_utxo fee_utxo r.owner_script r.fee_script r.outs in
      let is = Run-IsTransfer s r fits in
      let (w_0, w_1, is_ws, e_0, e_1) =
        two_witnesses lib fee_utxo key r.tweaked_key tx
          (dd_input (bytes_to_hex r.owner_script) 0xffffffff dd_utxo)
          (dgb_input (bytes_to_hex r.fee_script) 0xffffffff fee_utxo) r.ws r.witnessed in
      let (in_0, in_1) =
        coins-IsInput dd_utxo fee_utxo (bytes_to_hex r.owner_script) (bytes_to_hex r.fee_script) c
          d in
      OnWire-serialize_tx lib tx ((p2tr, priv_key) ∷ (fee_utxo.coin_type, key) ∷ []) r.ws s.hex
        (record {
          small_version = omega arith;
          small_locktime = omega arith;
          all_inputs = (in_0, (in_1, tt));
          all_outputs = values_below (2 ^ 64) r.outs (omega (arith, is.paid.balanced, small));
          witnessed = ap length is_ws;
        })
        (subst (AllLegs lib tx 0 ((p2tr, priv_key) ∷ (fee_utxo.coin_type, key) ∷ []) tx.inputs)
          (sym is_ws)
          (
            key_path-IsLeg lib tx 0 priv_key r.owner r.owner_script r.tweaked r.tweaked_key w_0
                r.x_only r.token r.tweak r.as_bytes e_0,
            (
              record { script = r.fee_script; is_script = r.leg; committed = refl; signed = e_1 },
              tt,
            ),
          ))
        r.written

  -- When `buildSignedTransferTx` returns, for a token below 2 ^ 592 cents, a fee coin below
  -- 2 ^ 64 satoshis, and coins with txids of 32 bytes and indices below 2 ^ 32: a reader of
  -- the BIP-144 format reads the text as one transaction with nothing left. It spends the two
  -- coins and no other, each witness is the one that `signDgbLeg` makes with the coin's key,
  -- for the input whose script is that of the key; the cents of the recipients and of the
  -- token change are those of the token, each not below the minimum, and the outputs pay the
  -- recipients; the fee is not below the floor, and the fee coin pays for its change, the fee
  -- and less than 100000 satoshis more.
  pub build_signed_transfer_tx-OnWire :
      (s : SignedDd)
      → Fits dd_utxo.dd_cents
      → IsCoin dd_utxo.txid_hex dd_utxo.vout
      → IsCoin fee_utxo.txid_hex fee_utxo.vout
      → fee_utxo.value_sats < 2 ^ 64
      → build_signed_transfer_tx lib dd_utxo fee_utxo priv_key fee_key rs fee script ≡ ok s
      → (tx : Tx) × OnWire lib tx
          ((p2tr, priv_key) ∷ (fee_utxo.coin_type, given_or fee_key priv_key) ∷ [])
          s.hex
        × IsTransfer lib dd_utxo fee_utxo rs fee s.dd_change_cents s.dgb_change_sats tx
  build_signed_transfer_tx-OnWire s fits c d small h =
      let r = build_signed_transfer_tx-Run s h in
      (
        transfer_tx dd_utxo fee_utxo r.owner_script r.fee_script r.outs,
        Run-OnWire s r fits c d small,
        Run-IsTransfer s r fits,
      )
