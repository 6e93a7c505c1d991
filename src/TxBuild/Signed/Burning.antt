-- ===== src/TxBuild/Signed/Burning.antt =====
-- The inputs of a redemption and the witnesses behind that of the collateral.
use diginaut_wallet.Prelude.{
  ok-injective, ℕ, suc, ◌+◌, ◌<◌, ◌^◌, ◌≡◌, refl, sym, subst, ap, ◌∙◌, List, [], ◌∷◌, ◌++◌, map,
  sum, All, All-append, Outcome, ok, >>=_returned, length, arith,
}
use diginaut_wallet.Coins.{p2tr}
use diginaut_wallet.Hex.{bytes_to_hex}
use diginaut_wallet.Envelope.Metadata.{bytes_of}
use diginaut_wallet.Envelope.Metadata.RoundTrip.{Fits}
use diginaut_wallet.TxBuild.{TxError, from_envelope}
use diginaut_wallet.TxBuild.Taproot.{Library}
use diginaut_wallet.TxBuild.Sighash.{
  tap_tweak_priv_key, x_only_pub_key, key_path_witness, token_script, dgb_leg_script, sign_dgb_leg,
}
use diginaut_wallet.TxBuild.Wire.{TxInput, Tx}
use diginaut_wallet.TxBuild.Wire.RoundTrip.{IsInput}
use diginaut_wallet.TxBuild.Signed.{
  DgbCoin, DdCoin, CollateralCoin, map_indexed, dd_input, dgb_input, collateral_input,
}
use diginaut_wallet.TxBuild.Signed.Legs.{IsCoin, Leg, AllLegs, key_path-IsLeg}

-- The coins of a redemption are coins of the chain, with a height and values that fit their fields.
pub record IsRedeemable (collateral : CollateralCoin) (dd_utxos : List DdCoin) (fee_utxo : DgbCoin)
    : Type 0 where
  pub collateral_coin : IsCoin collateral.txid_hex collateral.vout
  pub dd_coins : All (λ (u : DdCoin). IsCoin u.txid_hex u.vout) dd_utxos
  pub fee_coin : IsCoin fee_utxo.txid_hex fee_utxo.vout
  pub height : collateral.lock_height < 2 ^ 32
  pub values : collateral.value_sats + fee_utxo.value_sats < 2 ^ 64
  pub cents : Fits (sum (map (λ (u : DdCoin). u.dd_cents) dd_utxos))

pub length-map_indexed :
    {A B : Type 0} (f : ℕ → A → Outcome TxError B) (i : ℕ) (xs : List A) (ys : List B)
    → map_indexed f i xs ≡ ok ys
    → length ys ≡ length xs
unfolding map_indexed
length-map_indexed f i [] ys h = ap length (sym (ok-injective h))
length-map_indexed f i (x ∷ xs) ys h =
    let (y, h_1, _) = >>=_returned _ (f i x) h in
    let (rest, h_2, made) = >>=_returned _ (map_indexed f (i + 1) xs) h_1 in
    ap length (sym (ok-injective h_2)) ∙ ap suc (length-map_indexed f (i + 1) xs rest made)

dd_inputs-IsInput :
    (script : List ℕ) (us : List DdCoin)
    → All (λ (u : DdCoin). IsCoin u.txid_hex u.vout) us
    → All IsInput (map (dd_input script 0xfffffffe) us)
unfolding dd_input
dd_inputs-IsInput script [] h = tt
dd_inputs-IsInput script (u ∷ us) (c, h) = (
  record { whole = c.whole; small_vout = c.small; small_sequence = omega arith },
  dd_inputs-IsInput script us h,
)

pub redeem_inputs-IsInput :
    (collateral : CollateralCoin) (dd_utxos : List DdCoin) (fee_utxo : DgbCoin)
    (script dd_script fee_script : List ℕ)
    → IsRedeemable collateral dd_utxos fee_utxo
    → All IsInput (
        collateral_input script collateral
        ∷ (map (dd_input dd_script 0xfffffffe) dd_utxos
            ++ dgb_input fee_script 0xffffffff fee_utxo ∷ []))
unfolding collateral_input dgb_input
redeem_inputs-IsInput collateral dd_utxos fee_utxo script dd_script fee_script v =
    let c = v.collateral_coin in
    let f = v.fee_coin in
    (
      record { whole = c.whole; small_vout = c.small; small_sequence = omega arith },
      All-append IsInput (map (dd_input dd_script 0xfffffffe) dd_utxos) _
          (dd_inputs-IsInput dd_script dd_utxos v.dd_coins)
          (record { whole = f.whole; small_vout = f.small; small_sequence = omega arith }, tt),
    )

abbrev pub redeem_legs : List DdCoin → List ℕ → Leg → List Leg
redeem_legs us priv_key fee_leg = map (λ u. (p2tr, priv_key)) us ++ fee_leg ∷ []

-- Behind the collateral, each token is signed for by the owner, and the coin at the index of the fee
-- by the key of the fee, whatever function makes these witnesses.
module _ (lib : Library) (tx : Tx) (priv_key owner owner_script tweaked tweaked_key : List ℕ)
    (fee_utxo : DgbCoin) (fee_key fee_script : List ℕ)
    (f : ℕ → TxInput → Outcome TxError (List (List ℕ))) (fee_index : ℕ)
    (x_only : x_only_pub_key lib priv_key ≡ ok owner)
    (token : token_script lib owner ≡ ok owner_script)
    (tweak : tap_tweak_priv_key lib priv_key ≡ ok tweaked)
    (as_bytes : from_envelope (bytes_of tweaked) ≡ ok tweaked_key)
    (leg : dgb_leg_script lib fee_utxo.coin_type fee_key ≡ ok fee_script)
    (key_path : (i : ℕ) (input : TxInput)
      → 0 < i
      → i < fee_index
      → f i input ≡ key_path_witness lib tweaked_key tx i)
    (fee_path : (input : TxInput)
      → f fee_index input ≡ sign_dgb_leg lib fee_utxo.coin_type fee_key tx fee_index) where
  abbrev fee_input : TxInput
  fee_input = dgb_input (bytes_to_hex fee_script) 0xffffffff fee_utxo

  abbrev inputs_of : List DdCoin → List TxInput
  inputs_of us = map (dd_input (bytes_to_hex owner_script) 0xfffffffe) us ++ fee_input ∷ []

  pub map_indexed-AllLegs :
      (us : List DdCoin) (i : ℕ) (ws : List (List (List ℕ)))
      → 0 < i
      → i + length us ≡ fee_index
      → map_indexed f i (inputs_of us) ≡ ok ws
      → AllLegs lib tx i (redeem_legs us priv_key (fee_utxo.coin_type, fee_key)) (inputs_of us) ws
  unfolding map_indexed dd_input dgb_input
  map_indexed-AllLegs [] i ws pos at h =
      let here : i ≡ fee_index = omega (arith, at) in
      let (w, h_1, made) = >>=_returned _ (f i fee_input) h in
      let signed : sign_dgb_leg lib fee_utxo.coin_type fee_key tx i ≡ ok w =
        subst (λ j. sign_dgb_leg lib fee_utxo.coin_type fee_key tx j ≡ ok w) (sym here)
          (sym (fee_path fee_input) ∙ ap (λ j. f j fee_input) (sym here) ∙ made) in
      subst (AllLegs lib tx i ((fee_utxo.coin_type, fee_key) ∷ []) (fee_input ∷ []))
        (ok-injective h_1)
        (record { script = fee_script; is_script = leg; committed = refl; signed = signed }, tt)
  map_indexed-AllLegs (u ∷ us) i ws pos at h =
      let input = dd_input (bytes_to_hex owner_script) 0xfffffffe u in
      let legs = redeem_legs us priv_key (fee_utxo.coin_type, fee_key) in
      let (w, h_1, made) = >>=_returned _ (f i input) h in
      let (rest, h_2, more) = >>=_returned _ (map_indexed f (i + 1) (inputs_of us)) h_1 in
      let is_leg =
        key_path-IsLeg lib tx i priv_key owner owner_script tweaked tweaked_key w x_only token tweak
          as_bytes (sym (key_path i input pos (omega (arith, at))) ∙ made) in
      let later = map_indexed-AllLegs us (i + 1) rest (omega arith) (omega (arith, at)) more in
      subst (AllLegs lib tx i ((p2tr, priv_key) ∷ legs) (input ∷ inputs_of us)) (ok-injective h_2)
        (is_leg, later)
