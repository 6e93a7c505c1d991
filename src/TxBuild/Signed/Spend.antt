-- ===== src/TxBuild/Signed/Spend.antt =====
-- What the text of a signed plain spend says to whoever reads it.
use diginaut_wallet.Prelude.{
  ok-injective, ℕ, ◌+◌, ◌-◌, ◌≤◌, ◌<◌, ◌^◌, ◌≡◌, refl, sym, subst, ◌∙◌, List, [], ◌∷◌, map, sum_map,
  All, ok, >>=_returned, length, arith,
}
use diginaut_wallet.Coins.{Utxo}
use diginaut_wallet.Coins.Plan.Accounts.{total_sats}
use diginaut_wallet.Hex.{bytes_to_hex}
use diginaut_wallet.Envelope.Metadata.{bytes_of}
use diginaut_wallet.TxBuild.{Output, from_envelope, change_output}
use diginaut_wallet.TxBuild.Amounts.{spend_amounts, FeePaid, spend_amounts-conserves}
use diginaut_wallet.TxBuild.Outputs.{change_output-value}
use diginaut_wallet.TxBuild.Taproot.{Library}
use diginaut_wallet.TxBuild.Sighash.{dgb_leg_script, sign_dgb_leg}
use diginaut_wallet.TxBuild.Wire.{TxInput, Tx, serialize_tx}
use diginaut_wallet.TxBuild.Wire.RoundTrip.{IsInput}
use diginaut_wallet.TxBuild.Signed.{map_indexed, spend_input, build_signed_spend_tx}
use diginaut_wallet.TxBuild.Signed.Burning.{length-map_indexed}
use diginaut_wallet.TxBuild.Signed.Legs.{
  IsCoin, values_below, Leg, AllLegs, OnWire, OnWire-serialize_tx,
}

-- An input spends a coin.
abbrev pub Spends : Utxo → TxInput → Type 0
Spends u i = (i.txid_hex ≡ u.txid_hex) × (i.vout ≡ u.vout) × (i.value_sats ≡ u.value_sats)

abbrev pub AllSpend : List Utxo → List TxInput → Type 0
AllSpend [] [] = Unit
AllSpend (u ∷ us) (i ∷ is) = Spends u i × AllSpend us is
AllSpend _ _ = ⊥

-- The transaction of a spend: the coins come in, in their order, and the recipient is paid first.
pub record IsSpend (utxos : List Utxo) (recipient_hex : List ℕ) (amount fee change : ℕ) (tx : Tx)
    : Type 0 where
  pub is_version : tx.version ≡ 2
  pub no_locktime : tx.locktime ≡ 0
  pub spent : AllSpend utxos tx.inputs
  pub script : List ℕ
  pub rest : List Output
  pub is_script : from_envelope (bytes_of recipient_hex) ≡ ok script
  pub in_order : tx.outputs ≡ record { value_sats = amount; script = script } ∷ rest
  pub change_value : sum_map (λ (o : Output). o.value_sats) rest ≡ change
  pub covered : amount ≤ total_sats utxos
  pub paid : FeePaid (total_sats utxos - amount) fee change (total_sats utxos - amount - change)

abbrev pub leg_of : Utxo → Leg
leg_of u = (u.coin_type, u.priv_key_hex)

abbrev spend_tx : List TxInput → ℕ → List ℕ → List Output → Tx
spend_tx inputs amount script change = record {
  version = 2;
  locktime = 0;
  inputs = inputs;
  outputs = record { value_sats = amount; script = script } ∷ change;
}

-- The inputs are those of the coins, fit their fields, and the witnesses that are made for the coins
-- are those of the inputs.
spend_inputs-legs :
    (lib : Library) (tx : Tx) (i : ℕ) (us : List Utxo) (inputs : List TxInput)
    (ws : List (List (List ℕ)))
    → All (λ (u : Utxo). IsCoin u.txid_hex u.vout) us
    → map_indexed (λ j. spend_input lib) i us ≡ ok inputs
    → map_indexed (λ j (u : Utxo). sign_dgb_leg lib u.coin_type u.priv_key_hex tx j) i us ≡ ok ws
    → AllSpend us inputs × All IsInput inputs × AllLegs lib tx i (map leg_of us) inputs ws
unfolding map_indexed spend_input
spend_inputs-legs lib tx i [] inputs ws h e s =
    rw (sym (ok-injective e), sym (ok-injective s)) (tt, tt, tt)
spend_inputs-legs lib tx i (u ∷ us) inputs ws (c, h) e s =
    let (input, e_1, made) = >>=_returned _ (spend_input lib u) e in
    let (more, e_2, later) = >>=_returned _ (map_indexed (λ j. spend_input lib) (i + 1) us) e_1 in
    let (w, s_1, signed) = >>=_returned _ (sign_dgb_leg lib u.coin_type u.priv_key_hex tx i) s in
    let (rest, s_2, others) =
      >>=_returned _
        (map_indexed (λ j (x : Utxo). sign_dgb_leg lib x.coin_type x.priv_key_hex tx j) (i + 1) us)
        s_1 in
    let (script, is, is_script) =
      >>=_returned _ (dgb_leg_script lib u.coin_type u.priv_key_hex) made in
    let (spends, fits, legs) = spend_inputs-legs lib tx (i + 1) us more rest h later others in
    let is_input : record {
      txid_hex = u.txid_hex;
      vout = u.vout;
      value_sats = u.value_sats;
      script_pub_key_hex = bytes_to_hex script;
      sequence = 0xfffffffd;
    }
        ≡ input =
      ok-injective is in
    rw (sym (ok-injective e_2), sym (ok-injective s_2), sym is_input)
      (
        ((refl, refl, refl), spends),
        (record { whole = c.whole; small_vout = c.small; small_sequence = omega arith }, fits),
        (
          record { script = script; is_script = is_script; committed = refl; signed = signed },
          legs,
        ),
      )

module _ (lib : Library) (utxos : List Utxo) (recipient_hex : List ℕ) (amount : ℕ)
    (change_hex : List ℕ) (fee : ℕ) where
  -- The values that a run which returns has come by.
  record Run (hex : List ℕ) (change_sats : ℕ) : Type 0 where
    inputs : List TxInput
    script : List ℕ
    change : List Output
    ws : List (List (List ℕ))
    amounts : spend_amounts utxos amount fee ≡ ok change_sats
    spent : map_indexed (λ i. spend_input lib) 0 utxos ≡ ok inputs
    is_script : from_envelope (bytes_of recipient_hex) ≡ ok script
    is_change : change_output change_sats change_hex ≡ ok change
    witnessed :
        map_indexed
          (λ i (u : Utxo).
            sign_dgb_leg lib u.coin_type u.priv_key_hex (spend_tx inputs amount script change) i)
          0
          utxos
        ≡ ok ws
    written : serialize_tx (spend_tx inputs amount script change) ws ≡ ok hex

  build_signed_spend_tx-Run :
      (hex : List ℕ) (change_sats : ℕ)
      → build_signed_spend_tx lib utxos recipient_hex amount change_hex fee ≡ ok (hex, change_sats)
      → Run hex change_sats
  unfolding build_signed_spend_tx
  build_signed_spend_tx-Run hex change_sats h =
      let (sats, h_1, amounts) = >>=_returned _ (spend_amounts utxos amount fee) h in
      let (inputs, h_2, spent) = >>=_returned _ (map_indexed (λ i. spend_input lib) 0 utxos) h_1 in
      let (script, h_3, is_script) = >>=_returned _ (from_envelope (bytes_of recipient_hex)) h_2 in
      let (change, h_4, is_change) = >>=_returned _ (change_output sats change_hex) h_3 in
      let (ws, h_5, witnessed) = >>=_returned _ _ h_4 in
      let (text, made, written) = >>=_returned _ _ h_5 in
      let is = ok-injective made in
      subst (λ (p : List ℕ × ℕ). Run p.0 p.1) is
        (record {
          inputs = inputs;
          script = script;
          change = change;
          ws = ws;
          amounts = amounts;
          spent = spent;
          is_script = is_script;
          is_change = is_change;
          witnessed = witnessed;
          written = written;
        })

  -- When `buildSignedSpendTx` returns, for coins with txids of 32 bytes and indices below
  -- 2 ^ 32, below 2 ^ 64 satoshis together: a reader of the BIP-144 format reads the text as
  -- one transaction with nothing left. It spends the coins in their order and no other, and
  -- each witness is the one that `signDgbLeg` makes with the coin's key, for the input whose
  -- script is that of the key. Its first output pays the amount to the recipient's script,
  -- the others are the change, and the coins pay for the amount, the change, the fee and less
  -- than 100000 satoshis more.
  pub build_signed_spend_tx-OnWire :
      (hex : List ℕ) (change_sats : ℕ)
      → All (λ (u : Utxo). IsCoin u.txid_hex u.vout) utxos
      → total_sats utxos < 2 ^ 64
      → build_signed_spend_tx lib utxos recipient_hex amount change_hex fee ≡ ok (hex, change_sats)
      → (tx : Tx) × OnWire lib tx (map leg_of utxos) hex
        × IsSpend utxos recipient_hex amount fee change_sats tx
  build_signed_spend_tx-OnWire hex change_sats coins small h =
      let r = build_signed_spend_tx-Run hex change_sats h in
      let tx = spend_tx r.inputs amount r.script r.change in
      let f : Output → ℕ = λ o. o.value_sats in
      let (spends, fits, legs) =
        spend_inputs-legs lib tx 0 utxos r.inputs r.ws coins r.spent r.witnessed in
      let (covered, paid) = spend_amounts-conserves utxos amount fee change_sats r.amounts in
      let change_value = change_output-value change_sats change_hex r.change r.is_change in
      let same_length : length r.ws ≡ length r.inputs =
        length-map_indexed _ 0 utxos r.ws r.witnessed
        ∙ sym (length-map_indexed _ 0 utxos r.inputs r.spent) in
      (
        tx,
        OnWire-serialize_tx lib tx (map leg_of utxos) r.ws hex
            (record {
              small_version = omega arith;
              small_locktime = omega arith;
              all_inputs = fits;
              all_outputs =
                  values_below (2 ^ 64) tx.outputs
                    (omega (arith, change_value, covered, paid.balanced, small));
              witnessed = same_length;
            })
            legs r.written,
        record {
          is_version = refl;
          no_locktime = refl;
          spent = spends;
          script = r.script;
          rest = r.change;
          is_script = r.is_script;
          in_order = refl;
          change_value = change_value;
          covered = covered;
          paid = paid;
        },
      )
