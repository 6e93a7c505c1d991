-- ===== src/TxBuild/Redeem.antt =====
-- packages/digidollar-js/src/txbuild.js: a whole redemption, from the coins to the outputs that are
-- signed.
use diginaut_wallet.Prelude.{
  ok-injective, ℕ, ◌+◌, ◌-◌, ◌≤◌, ◌<◌, ◌^◌, ◌≡◌, refl, sym, ap, ◌∙◌, List, [], ◌∷◌, ◌++◌, sum,
  sum_map, sum_map-append, All, length, Outcome, ok, ◌>>=◌, >>=_returned, ltb, ltb→lt,
  if◌then◌else◌, arith, Bool-cases, inl, inr, ◌⊎◌,
}
use diginaut_wallet.Hex.{bytes_to_hex}
use diginaut_wallet.Envelope.Metadata.{bytes_of, build_redeem_metadata, parse_redeem_metadata}
use diginaut_wallet.Envelope.Metadata.RoundTrip.{Fits, parse-redeem_script}
use diginaut_wallet.TxBuild.{
  TxError, Output, Curve, build_redeem_outputs, redeem_data, dd_change_output, change_output,
  from_envelope, min_dd_tx_fee_sats, dd_token_output_key, p2tr_script,
}
use diginaut_wallet.TxBuild.Amounts.{redeem_amounts, redeem_amounts-burns, FeePaid}
use diginaut_wallet.TxBuild.Outputs.{
  IsToken, dd_change_output-tokens, change_output-value, tokens-value, from_envelope-ok,
}

-- Without DD change nothing is announced, and otherwise it is, in one output without value.
abbrev pub Announces : ℕ → List Output → Type 0
Announces dd outs =
    ((dd ≡ 0) × (outs ≡ []))
    ⊎ ((0 < dd)
        × ((script : List ℕ) × (outs ≡ record { value_sats = 0; script = script } ∷ [])
            × (parse_redeem_metadata (bytes_to_hex script) ≡ ok dd)))

-- The outputs of a redemption: the collateral, a token and its metadata if there is DD change, and
-- the DGB change, with the scripts that they go to.
pub record RedeemLayout (collateral dd dgb : ℕ) (owner_script change_hex : List ℕ)
    (outs : List Output) : Type 0 where
  pub back : Output
  pub tokens : List Output
  pub announcement : List Output
  pub change : List Output
  pub in_order : outs ≡ back ∷ (tokens ++ (announcement ++ change))
  pub returned : back.value_sats ≡ collateral
  pub to_owner : back.script ≡ owner_script
  pub tokens_to_owner : All (λ (o : Output). o.script ≡ owner_script) tokens
  pub to_change : All (λ (o : Output). from_envelope (bytes_of change_hex) ≡ ok o.script) change
  pub all_tokens : All IsToken tokens
  pub paired : length tokens ≡ (if ltb 0 dd then 1 else 0)
  pub change_value : sum_map (λ o. o.value_sats) change ≡ dgb
  pub announced : Announces dd announcement

redeem_data-Announces :
    (dd : ℕ) (outs : List Output) → Fits dd → redeem_data dd ≡ ok outs → Announces dd outs
unfolding redeem_data
redeem_data-Announces dd outs fits h = elim (Bool-cases (ltb 0 dd)) [
  | inr nothing ↦ inl (ground arith, ground arith)
  | inl some_change ↦
      let made : (from_envelope (build_redeem_metadata dd) >>= λ hex.
      from_envelope (bytes_of hex) >>= λ script.
      ok (record { value_sats = 0; script = script } ∷ []))
          ≡ ok outs =
        rw some_change at h in
      let (hex, h1, e1) = >>=_returned _ (from_envelope (build_redeem_metadata dd)) made in
      let (script, h2, e2) = >>=_returned _ (from_envelope (bytes_of hex)) h1 in
      inr (
        ltb→lt _ _ some_change,
        (
          script,
          sym (ok-injective h2),
          parse-redeem_script dd hex script (ltb→lt _ _ some_change) fits (from_envelope-ok _ e1)
              (from_envelope-ok _ e2),
        ),
      )
]

announcement_value :
    (dd : ℕ) (outs : List Output) → Announces dd outs → sum_map (λ o. o.value_sats) outs ≡ 0
announcement_value dd outs (inl (z, is)) = rw is
announcement_value dd outs (inr (pos, (script, is, _))) = rw is

layout_value :
    (collateral dd dgb : ℕ) (owner_script change_hex : List ℕ) (outs : List Output)
    → RedeemLayout collateral dd dgb owner_script change_hex outs
    → sum_map (λ o. o.value_sats) outs ≡ collateral + dgb
layout_value collateral dd dgb owner_script change_hex outs l =
    let f : Output → ℕ = λ o. o.value_sats in
    omega (
      arith,
      ap (sum_map f) l.in_order,
      sum_map-append f l.tokens (l.announcement ++ l.change),
      sum_map-append f l.announcement l.change,
      tokens-value l.tokens l.all_tokens,
      announcement_value dd l.announcement l.announced,
      l.returned,
      l.change_value,
    )

change_output-script :
    (sats : ℕ) (hex : List ℕ) (outs : List Output)
    → change_output sats hex ≡ ok outs
    → All (λ (o : Output). from_envelope (bytes_of hex) ≡ ok o.script) outs
unfolding change_output
change_output-script sats hex outs h = elim (Bool-cases (ltb 0 sats)) [
  | inr nothing ↦ ground arith
  | inl some_change ↦
      let made : (from_envelope (bytes_of hex) >>= λ script.
      ok (record { value_sats = sats; script = script } ∷ []))
          ≡ ok outs =
        rw some_change at h in
      let (script, h1, read) = >>=_returned _ (from_envelope (bytes_of hex)) made in
      let is : record { value_sats = sats; script = script } ∷ [] ≡ outs = ok-injective h1 in
      rw (sym is) (read, tt)
]

below : (bound total minted dd : ℕ) → total ≡ minted + dd → total < bound → dd < bound
below bound total minted dd e h = omega arith

module _ (curve : Curve) where
  -- The script of the owner's tokens.
  abbrev pub owner_script_of : List ℕ → Outcome TxError (List ℕ)
  owner_script_of owner = dd_token_output_key curve owner >>= λ key. p2tr_script key

  dd_change_output-script :
      (cents : ℕ) (owner owner_script : List ℕ) (outs : List Output)
      → owner_script_of owner ≡ ok owner_script
      → dd_change_output curve cents owner ≡ ok outs
      → All (λ (o : Output). o.script ≡ owner_script) outs
  unfolding dd_change_output
  dd_change_output-script cents owner owner_script outs is_token h =
      elim (Bool-cases (ltb 0 cents)) [
        | inr nothing ↦ ground arith
        | inl some_change ↦
            let made : (dd_token_output_key curve owner >>= λ key.
            p2tr_script key >>= λ script. ok (record { value_sats = 0; script = script } ∷ []))
                ≡ ok outs =
              rw some_change at h in
            let (key, h1, keyed) = >>=_returned _ (dd_token_output_key curve owner) made in
            let (script, h2, scripted) = >>=_returned _ (p2tr_script key) h1 in
            let is : record { value_sats = 0; script = script } ∷ [] ≡ outs = ok-injective h2 in
            let same : owner_script_of owner ≡ ok script = rw keyed scripted in
            rw (sym is) (ok-injective (sym same ∙ is_token), tt)
      ]

  -- The outputs that `buildSignedRedeemTx` signs, with the DD change and the DGB change.
  unfoldable pub redeem_body :
      ℕ → ℕ → List ℕ → ℕ → ℕ → List ℕ → List ℕ → List ℕ → Outcome TxError (List Output × ℕ × ℕ)
  redeem_body collateral minted dd_inputs fee_value fee back_hex owner script_hex = do
    (dd, dgb) ← redeem_amounts minted dd_inputs fee_value fee
    outs ← build_redeem_outputs curve collateral back_hex dd owner dgb script_hex
    ok (outs, dd, dgb)

  build_redeem_outputs-layout :
      (collateral : ℕ) (back_hex : List ℕ) (dd : ℕ) (owner : List ℕ) (dgb : ℕ) (script_hex : List ℕ)
      (outs : List Output) (owner_script : List ℕ)
      → Fits dd
      → from_envelope (bytes_of back_hex) ≡ ok owner_script
      → owner_script_of owner ≡ ok owner_script
      → build_redeem_outputs curve collateral back_hex dd owner dgb script_hex ≡ ok outs
      → RedeemLayout collateral dd dgb owner_script script_hex outs
  unfolding build_redeem_outputs
  build_redeem_outputs-layout collateral back_hex dd owner dgb script_hex outs owner_script fits
        read is_token h =
      let (back, h1, e1) = >>=_returned _ (from_envelope (bytes_of back_hex)) h in
      let (tokens, h2, e2) = >>=_returned _ (dd_change_output curve dd owner) h1 in
      let (told, h3, e3) = >>=_returned _ (redeem_data dd) h2 in
      let (change, h4, e4) = >>=_returned _ (change_output dgb script_hex) h3 in
      let (ts, n) = dd_change_output-tokens curve dd owner tokens e2 in
      record {
        back = record { value_sats = collateral; script = back };
        tokens = tokens;
        announcement = told;
        change = change;
        in_order = sym (ok-injective h4);
        returned = refl;
        to_owner = ok-injective (sym e1 ∙ read);
        tokens_to_owner = dd_change_output-script dd owner owner_script tokens is_token e2;
        to_change = change_output-script dgb script_hex change e4;
        all_tokens = ts;
        paired = n ∙ ground arith;
        change_value = change_output-value dgb script_hex change e4;
        announced = redeem_data-Announces dd told fits e3;
      }

  -- A redemption that is built, of tokens below 2 ^ 592 cents, burns exactly what was minted: the
  -- tokens that go in are that and the DD change. The collateral comes back whole in the first
  -- output, to the script of the owner's tokens; if there is DD change, one token output and one metadata output that announces it
  -- follow, and otherwise neither; the rest is DGB change, and what the fee coin does not return in
  -- it is the fee, at least 0.1 DGB, and less than 100000 satoshis more.
  pub redeem_body-conserves :
      (collateral minted : ℕ) (dd_inputs : List ℕ) (fee_value fee : ℕ)
      (back_hex owner script_hex : List ℕ) (outs : List Output) (dd dgb : ℕ) (owner_script : List ℕ)
      → Fits (sum dd_inputs)
      → from_envelope (bytes_of back_hex) ≡ ok owner_script
      → owner_script_of owner ≡ ok owner_script
      → redeem_body collateral minted dd_inputs fee_value fee back_hex owner script_hex
        ≡ ok (outs, dd, dgb)
      → RedeemLayout collateral dd dgb owner_script script_hex outs
        × (sum dd_inputs ≡ minted + dd)
        × (sum_map (λ o. o.value_sats) outs ≡ collateral + dgb)
        × (min_dd_tx_fee_sats ≤ fee)
        × FeePaid fee_value fee dgb (fee_value - dgb)
  unfolding redeem_body
  redeem_body-conserves collateral minted dd_inputs fee_value fee back_hex owner script_hex outs dd
        dgb owner_script fits read is_token h =
      let (v, h1, e1) = >>=_returned _ (redeem_amounts minted dd_inputs fee_value fee) h in
      let (outs', h2, e2) =
        >>=_returned _ (build_redeem_outputs curve collateral back_hex v.0 owner v.1 script_hex)
          h1 in
      let q = ok-injective h2 in
      let amounts : redeem_amounts minted dd_inputs fee_value fee ≡ ok (dd, dgb) =
        e1 ∙ ap (λ t. ok (t.1, t.2)) q in
      let built : build_redeem_outputs curve collateral back_hex dd owner dgb script_hex ≡ ok outs =
        ap (λ t. build_redeem_outputs curve collateral back_hex t.1 owner t.2 script_hex) (sym q)
        ∙ e2
        ∙ ap (λ t. ok t.0) q in
      let (burned, floor, paid) =
        redeem_amounts-burns minted dd_inputs fee_value fee dd dgb amounts in
      let layout =
        build_redeem_outputs-layout collateral back_hex dd owner dgb script_hex outs owner_script
          (below (256 ^ 74) (sum dd_inputs) minted dd burned fits) read is_token built in
      (
        layout,
        burned,
        layout_value collateral dd dgb owner_script script_hex outs layout,
        floor,
        paid,
      )
