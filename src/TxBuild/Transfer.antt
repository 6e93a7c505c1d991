-- ===== src/TxBuild/Transfer.antt =====
-- packages/digidollar-js/src/txbuild.js: a whole transfer, from the coins to the outputs that are
-- signed.
use diginaut_wallet.Prelude.{
  ok-injective, ℕ, ◌+◌, ◌-◌, ◌≤◌, ◌<◌, ◌^◌, ◌≡◌, sym, ap, ◌∙◌, List, [], ◌∷◌, ◌++◌, sum, sum_map,
  sum_map-append, All, Outcome, ok, ◌>>=◌, >>=_returned, arith,
}
use diginaut_wallet.Envelope.Metadata.RoundTrip.{Fits}
use diginaut_wallet.TxBuild.{
  TxError, Output, Recipient, Curve, build_transfer_outputs, min_dd_tx_fee_sats,
}
use diginaut_wallet.TxBuild.Amounts.{transfer_amounts, transfer_amounts-conserves, FeePaid}
use diginaut_wallet.TxBuild.Outputs.{
  output_cents, TransferLayout, build_transfer_outputs-layout, tokens-value,
}

sum_cents :
    (rs : List Recipient) (dd : ℕ) → sum (output_cents rs dd) ≡ sum_map (λ r. r.cents) rs + dd
sum_cents [] dd = ground arith
sum_cents (r ∷ rs) dd = omega (arith, sum_cents rs dd)

All-below : (bound : ℕ) (cents : List ℕ) → sum cents < bound → All (λ c. c < bound) cents
All-below bound [] h = tt
All-below bound (c ∷ cs) h = (omega arith, All-below bound cs (omega arith))

layout_value :
    (curve : Curve) (rs : List Recipient) (dd dgb : ℕ) (outs : List Output)
    → TransferLayout curve rs dd dgb outs
    → sum_map (λ o. o.value_sats) outs ≡ dgb
layout_value curve rs dd dgb outs l =
    let f : Output → ℕ = λ o. o.value_sats in
    omega (
      arith,
      ap (sum_map f) l.in_order,
      sum_map-append f l.tokens (l.change ++ l.metadata ∷ []),
      sum_map-append f l.change (l.metadata ∷ []),
      tokens-value l.tokens l.all_tokens,
      l.no_value,
      l.change_value,
    )

module _ (curve : Curve) where
  -- The outputs that `buildSignedTransferTx` signs, with the DD change and the DGB change.
  unfoldable pub transfer_body :
      ℕ → ℕ → ℕ → List Recipient → List ℕ → List ℕ → Outcome TxError (List Output × ℕ × ℕ)
  transfer_body dd_cents fee_value fee recipients owner script_hex = do
    (dd, dgb) ← transfer_amounts dd_cents fee_value fee recipients
    outs ← build_transfer_outputs curve recipients dd owner dgb script_hex
    ok (outs, dd, dgb)

  no_outputs :
      (dd : ℕ) (owner : List ℕ) (dgb : ℕ) (script_hex : List ℕ) (outs : List Output)
      → build_transfer_outputs curve [] dd owner dgb script_hex ≡ ok outs
      → ⊥
  unfolding build_transfer_outputs
  no_outputs dd owner dgb script_hex outs h = cc

  -- A transfer of a token below 2 ^ 592 cents that is built has token outputs, without value, the
  -- first of them for the recipients' keys in their order, then the DGB change, then a metadata
  -- output. The metadata announces the recipients' cents in their order and then the DD change, if
  -- there is any: as many amounts as there are token outputs, each at least a dollar, and together
  -- the cents that the token has. The outputs' satoshis are what the fee coin has, less the fee
  -- and less than 100000 satoshis more.
  pub transfer_body-conserves :
      (dd_cents fee_value fee : ℕ) (recipients : List Recipient) (owner script_hex : List ℕ)
      (outs : List Output) (dd dgb : ℕ)
      → Fits dd_cents
      → transfer_body dd_cents fee_value fee recipients owner script_hex ≡ ok (outs, dd, dgb)
      → TransferLayout curve recipients dd dgb outs
        × (sum (output_cents recipients dd) ≡ dd_cents)
        × (min_dd_tx_fee_sats ≤ fee)
        × FeePaid fee_value fee (sum_map (λ o. o.value_sats) outs) (fee_value - dgb)
  unfolding transfer_body
  transfer_body-conserves dd_cents fee_value fee [] owner script_hex outs dd dgb fits h =
      let (v, h1, _) = >>=_returned _ (transfer_amounts dd_cents fee_value fee []) h in
      let (outs', _, e2) =
        >>=_returned _ (build_transfer_outputs curve [] v.0 owner v.1 script_hex) h1 in
      absurd (no_outputs v.0 owner v.1 script_hex outs' e2)
  transfer_body-conserves dd_cents fee_value fee (r ∷ rs) owner script_hex outs dd dgb fits h =
      let (v, h1, e1) = >>=_returned _ (transfer_amounts dd_cents fee_value fee (r ∷ rs)) h in
      let (outs', h2, e2) =
        >>=_returned _ (build_transfer_outputs curve (r ∷ rs) v.0 owner v.1 script_hex) h1 in
      let q = ok-injective h2 in
      let amounts : transfer_amounts dd_cents fee_value fee (r ∷ rs) ≡ ok (dd, dgb) =
        e1 ∙ ap (λ t. ok (t.1, t.2)) q in
      let built : build_transfer_outputs curve (r ∷ rs) dd owner dgb script_hex ≡ ok outs =
        ap (λ t. build_transfer_outputs curve (r ∷ rs) t.1 owner t.2 script_hex) (sym q)
        ∙ e2
        ∙ ap (λ t. ok t.0) q in
      let (cents, floor, paid) =
        transfer_amounts-conserves dd_cents fee_value fee (r ∷ rs) dd dgb amounts in
      let total : sum (output_cents (r ∷ rs) dd) ≡ dd_cents = sum_cents (r ∷ rs) dd ∙ cents in
      let layout =
        build_transfer_outputs-layout curve r rs dd owner dgb script_hex outs
          (All-below (256 ^ 74) (output_cents (r ∷ rs) dd) (rw total fits)) built in
      (layout, total, floor, rw (layout_value curve (r ∷ rs) dd dgb outs layout) paid)
