-- ===== src/TxBuild/Outputs.antt =====
-- packages/digidollar-js/src/txbuild.js: the layout of the outputs of transfers and redemptions.
use diginaut_wallet.Prelude.{
  ok-injective, ℕ, ◌+◌, ◌≤◌, ◌<◌, ◌≡◌, refl, sym, ap, ◌∙◌, List, [], ◌∷◌, ◌++◌, map, sum_map, All,
  All-append, length, length-append, Outcome, ok, throw, ◌>>=◌, >>=_returned, >>_returned, suc, ltb,
  if◌then◌else◌, arith, append_assoc, Bool-cases, inl, inr,
}
use diginaut_wallet.Hex.{bytes_to_hex}
use diginaut_wallet.Envelope.Pushes.{EnvelopeError}
use diginaut_wallet.Envelope.Metadata.{bytes_of, build_transfer_metadata, parse_transfer_metadata}
use diginaut_wallet.Envelope.Metadata.RoundTrip.{
  Fits, IsPositive, parse-transfer_script, transfer_script-carrier,
}
use diginaut_wallet.TxBuild.{
  Output, Recipient, Curve, p2tr_script, recipient_outputs, check_minimum, change_output,
  dd_change_output, dd_token_output_key, build_transfer_outputs, min_dd_output_cents, from_envelope,
}

-- An output that consensus pairs with an amount: no value, and a taproot script.
abbrev pub IsToken : Output → Type 0
IsToken o = (o.value_sats ≡ 0) × ((key : List ℕ) × (o.script ≡ 0x51 ∷ 0x20 ∷ key))

abbrev pub IsSendable : ℕ → Type 0
IsSendable cents = min_dd_output_cents ≤ cents

-- The cents of the outputs of a transfer, in their order.
abbrev pub output_cents : List Recipient → ℕ → List ℕ
output_cents rs dd_change =
    map (λ x. x.cents) rs ++ (if ltb 0 dd_change then dd_change ∷ [] else [])

All-IsPositive : (cents : List ℕ) → All IsSendable cents → All IsPositive cents
All-IsPositive [] h = tt
All-IsPositive (c ∷ cs) h = (omega (arith, h.0), All-IsPositive cs h.1)

pub from_envelope-ok :
    {A : Type 0} (o : Outcome EnvelopeError A) {a : A} → from_envelope o ≡ ok a → o ≡ ok a
from_envelope-ok (ok b) h = cc
from_envelope-ok (throw e) h = cc

p2tr_script-IsToken :
    (key script : List ℕ)
    → p2tr_script key ≡ ok script
    → IsToken (record { value_sats = 0; script = script })
unfolding p2tr_script
p2tr_script-IsToken key script h =
    let (k, is, _) = >>=_returned (λ k. ok (0x51 ∷ 0x20 ∷ k)) (from_envelope (bytes_of key)) h in
    (refl, (k, cc))

check_minimum-All : (cents : List ℕ) → check_minimum cents ≡ ok tt → All IsSendable cents
unfolding check_minimum
check_minimum-All [] h = tt
check_minimum-All (c ∷ cs) h = ground (arith, check_minimum-All cs)

recipient_outputs-tokens :
    (rs : List Recipient) (outs : List Output)
    → recipient_outputs rs ≡ ok outs
    → All IsToken outs × (length outs ≡ length (map (λ x. x.cents) rs))
unfolding recipient_outputs
recipient_outputs-tokens [] outs h = ground arith
recipient_outputs-tokens (r ∷ rs) outs h =
    let (script, h1, token) = >>=_returned _ (p2tr_script r.output_key_hex) h in
    let (rest, h2, others) = >>=_returned _ (recipient_outputs rs) h1 in
    let is : record { value_sats = 0; script = script } ∷ rest ≡ outs = cc in
    let (tokens, lengths) = recipient_outputs-tokens rs rest others in
    rw (sym is) ((p2tr_script-IsToken r.output_key_hex script token, tokens), ap suc lengths)

-- The first outputs go to the recipients' keys, in their order.
abbrev pub Pays : List Recipient → List Output → Type 0
Pays [] outs = Unit
Pays (r ∷ rs) [] = ⊥
Pays (r ∷ rs) (o ∷ outs) = (p2tr_script r.output_key_hex ≡ ok o.script) × Pays rs outs

recipient_outputs-Pays :
    (rs : List Recipient) (outs more : List Output)
    → recipient_outputs rs ≡ ok outs
    → Pays rs (outs ++ more)
unfolding recipient_outputs
recipient_outputs-Pays [] outs more h = tt
recipient_outputs-Pays (r ∷ rs) outs more h =
    let (script, h1, token) = >>=_returned _ (p2tr_script r.output_key_hex) h in
    let (rest, h2, others) = >>=_returned _ (recipient_outputs rs) h1 in
    let is : record { value_sats = 0; script = script } ∷ rest ≡ outs = ok-injective h2 in
    rw (sym is) (token, recipient_outputs-Pays rs rest more others)

pub tokens-value : (outs : List Output) → All IsToken outs → sum_map (λ o. o.value_sats) outs ≡ 0
tokens-value [] h = refl
tokens-value (o ∷ outs) h = omega (arith, h.0.0, tokens-value outs h.1)

pub change_output-value :
    (sats : ℕ) (script_hex : List ℕ) (outs : List Output)
    → change_output sats script_hex ≡ ok outs
    → sum_map (λ o. o.value_sats) outs ≡ sats
unfolding change_output
change_output-value sats script_hex outs h = ground arith

change_output-positive :
    (sats : ℕ) (script_hex : List ℕ) (outs : List Output)
    → change_output sats script_hex ≡ ok outs
    → All (λ (o : Output). 0 < o.value_sats) outs
unfolding change_output
change_output-positive sats script_hex outs h = ground arith

module _ (curve : Curve) where
  pub dd_change_output-tokens :
      (cents : ℕ) (owner : List ℕ) (outs : List Output)
      → dd_change_output curve cents owner ≡ ok outs
      → All IsToken outs × (length outs ≡ length (if ltb 0 cents then cents ∷ [] else []))
  unfolding dd_change_output
  dd_change_output-tokens cents owner outs h = elim (Bool-cases (ltb 0 cents)) [
    | inr no_change ↦ ground arith
    | inl change ↦
        let made : (dd_token_output_key curve owner >>= λ key.
        p2tr_script key >>= λ script. ok (record { value_sats = 0; script = script } ∷ []))
            ≡ ok outs =
          rw change at h in
        let (key, h1, _) = >>=_returned _ (dd_token_output_key curve owner) made in
        let (script, h2, token) = >>=_returned _ (p2tr_script key) h1 in
        let is : record { value_sats = 0; script = script } ∷ [] ≡ outs = cc in
        rw (sym is) (rw change ((p2tr_script-IsToken key script token, tt), refl))
  ]

  -- What the outputs of a transfer are made of.
  pub record TransferLayout (rs : List Recipient) (dd_change dgb_change : ℕ) (outs : List Output)
      : Type 0 where
    pub tokens : List Output
    pub change : List Output
    pub metadata : Output
    pub in_order : outs ≡ tokens ++ (change ++ metadata ∷ [])
    pub all_tokens : All IsToken tokens
    pub paired : length tokens ≡ length (output_cents rs dd_change)
    pub paid : Pays rs tokens
    pub sendable : All IsSendable (output_cents rs dd_change)
    pub change_value : sum_map (λ o. o.value_sats) change ≡ dgb_change
    pub change_positive : All (λ (o : Output). 0 < o.value_sats) change
    pub carrier : (rest : List ℕ) × (metadata.script ≡ 0x6a ∷ rest)
    pub no_value : metadata.value_sats ≡ 0
    pub announced :
        parse_transfer_metadata (bytes_to_hex metadata.script) ≡ ok (output_cents rs dd_change)

  pub build_transfer_outputs-layout :
      (r : Recipient) (rs : List Recipient) (dd : ℕ) (owner : List ℕ) (dgb : ℕ)
      (script_hex : List ℕ) (outs : List Output)
      → All Fits (output_cents (r ∷ rs) dd)
      → build_transfer_outputs curve (r ∷ rs) dd owner dgb script_hex ≡ ok outs
      → TransferLayout (r ∷ rs) dd dgb outs
  unfolding build_transfer_outputs
  build_transfer_outputs-layout r rs dd owner dgb script_hex outs fits h =
      let cents = output_cents (r ∷ rs) dd in
      let (tokens, h1, e1) = >>=_returned _ (recipient_outputs (r ∷ rs)) h in
      let (change, h2, e2) = >>=_returned _ (dd_change_output curve dd owner) h1 in
      let (h3, checked) = >>_returned (check_minimum cents) _ h2 in
      let (dgb_outs, h4, e4) = >>=_returned _ (change_output dgb script_hex) h3 in
      let (hex, h5, e5) = >>=_returned _ (from_envelope (build_transfer_metadata cents)) h4 in
      let (script, h6, e6) = >>=_returned _ (from_envelope (bytes_of hex)) h5 in
      let sendable = check_minimum-All cents checked in
      let (ts, n) = recipient_outputs-tokens (r ∷ rs) tokens e1 in
      let (cs, k) = dd_change_output-tokens dd owner change e2 in
      record {
        tokens = tokens ++ change;
        change = dgb_outs;
        metadata = record { value_sats = 0; script = script };
        in_order = ok-injective (sym h6) ∙ sym (append_assoc tokens change _);
        all_tokens = All-append IsToken tokens change ts cs;
        paired =
            length-append tokens change
            ∙ ap (λ l. l + length change) n
            ∙ ap (λ l. length (map (λ x. x.cents) (r ∷ rs)) + l) k
            ∙ sym (length-append (map (λ x. x.cents) (r ∷ rs)) _);
        paid = recipient_outputs-Pays (r ∷ rs) tokens change e1;
        sendable = sendable;
        change_value = change_output-value dgb script_hex dgb_outs e4;
        change_positive = change_output-positive dgb script_hex dgb_outs e4;
        carrier = (
          _,
          transfer_script-carrier r.cents _ hex script (All-IsPositive cents sendable)
              (from_envelope-ok _ e5) (from_envelope-ok _ e6),
        );
        no_value = refl;
        announced =
            parse-transfer_script r.cents _ hex script (All-IsPositive cents sendable) fits
              (from_envelope-ok _ e5) (from_envelope-ok _ e6);
      }
