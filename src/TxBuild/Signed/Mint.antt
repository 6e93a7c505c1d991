-- ===== src/TxBuild/Signed/Mint.antt =====
-- What the text of a signed mint says to whoever reads it, and that what it locks can be redeemed.
pub mod Layout
use diginaut_wallet.Prelude.{
  ok-injective, ℕ, zero, suc, ◌+◌, ◌-◌, ◌≤◌, ◌<◌, ◌^◌, ◌≡◌, refl, sym, subst, ap, ◌∙◌, List, [],
  ◌∷◌, sum_map, All, Option, none, some, Outcome, ok, ◌>>=◌, >>=_returned, >>_returned, throw_if,
  length, get_elem?, arith, Bool, not, Bool-cases, Option-cases, inl, inr, ltb, if◌then◌else◌,
  String,
}
use text.Mathlib.Text.{◌==◌ as str_eq}
use diginaut_wallet.Hex.{IsByte, bytes_to_hex}
use diginaut_wallet.Collateral.{
  Quote, LockTier, tier, find_tier, tier_by_id, lock_tiers, required_collateral_sats,
}
use diginaut_wallet.Envelope.Version.{dd_version, mint, code_of}
use diginaut_wallet.Envelope.Metadata.{
  bytes_of, MintMetadata, build_mint_metadata, parse_mint_metadata,
}
use diginaut_wallet.Envelope.Metadata.RoundTrip.{Fits, mint_metadata, parse-mint_script}
use diginaut_wallet.TxBuild.{
  TxError, Output, from_envelope, p2tr_script, min_dd_tx_fee_sats, unknown_tier, fee_below_floor,
}
use diginaut_wallet.TxBuild.Amounts.{mint_amounts, MintAmounts, FeePaid, mint_amounts-conserves}
use diginaut_wallet.TxBuild.Outputs.{from_envelope-ok}
use diginaut_wallet.TxBuild.Taproot.{Library, collateral_output_key}
use diginaut_wallet.TxBuild.Taproot.Spending.{IsLibrary, Revealed, collateral_output_key-Revealed}
use diginaut_wallet.TxBuild.Sighash.{
  from_library, x_only_pub_key, p2wpkh_script, token_script, dgb_leg_script, sign_dgb_leg,
}
use diginaut_wallet.TxBuild.Wire.{TxInput, Tx, serialize_tx}
use diginaut_wallet.TxBuild.Signed.{
  DgbCoin, SignedMint, dgb_input, index_of_tier, is_known_tier, mint_change, mint_outputs,
  build_signed_mint_tx,
}
use diginaut_wallet.TxBuild.Signed.Legs.{IsCoin, values_below, OnWire, OnWire-serialize_tx}
use diginaut_wallet.TxBuild.Signed.Unlocking.{from_library-ok}
use diginaut_wallet.TxBuild.Signed.Mint.Layout.{MintLayout, mint_outputs-MintLayout}

-- The transaction of a mint of a tier: one coin comes in, and the collateral that the tier requires
-- is locked for the tier's term.
pub record IsMint (lib : Library) (utxo : DgbCoin) (owner : List ℕ) (q : Quote) (tip_height fee : ℕ)
    (m : SignedMint) (tx : Tx) : Type 0 where
  pub is_version : tx.version ≡ dd_version mint
  pub no_locktime : tx.locktime ≡ 0
  pub script : List ℕ
  pub spent : tx.inputs ≡ dgb_input script 0xfffffffd utxo ∷ []
  pub tier : LockTier
  pub known : tier_by_id q.tier_id ≡ some tier
  pub layout :
      MintLayout lib owner q
        (record {
          collateral_sats = m.collateral_sats;
          unlock_height = m.unlock_height;
          change_sats = m.change_sats;
        })
        tier
        tx.outputs
  pub required : required_collateral_sats q ≡ ok m.collateral_sats
  pub matures : m.unlock_height ≡ tip_height + 1 + 100 + tier.lock_blocks
  pub floor : min_dd_tx_fee_sats ≤ fee
  pub covered : m.collateral_sats ≤ utxo.value_sats
  pub paid :
      FeePaid
        (utxo.value_sats - m.collateral_sats)
        fee
        m.change_sats
        (utxo.value_sats - m.collateral_sats - m.change_sats)

abbrev mint_tx : DgbCoin → List ℕ → List Output → Tx
mint_tx utxo script outs = record {
  version = dd_version mint;
  locktime = 0;
  inputs = dgb_input (bytes_to_hex script) 0xfffffffd utxo ∷ [];
  outputs = outs;
}

x_only_pub_key-bytes :
    (lib : Library) (key owner : List ℕ)
    → IsLibrary lib
    → x_only_pub_key lib key ≡ ok owner
    → (x : List ℕ) × (owner ≡ bytes_to_hex x) × All IsByte x × (length x ≡ 32)
unfolding x_only_pub_key
x_only_pub_key-bytes lib key owner v h =
    let (raw, h_1, _) = >>=_returned _ (from_envelope (bytes_of key)) h in
    let (x, is, made) = >>=_returned _ (from_library (lib.get_x_only raw)) h_1 in
    let (x_bytes, x_length) = v.x_only_whole raw x (from_library-ok (lib.get_x_only raw) made) in
    (x, sym (ok-injective is), x_bytes, x_length)

tier_found :
    (value tip_height fee : ℕ) (q : Quote) (a : MintAmounts)
    → mint_amounts value q tip_height fee ≡ ok a
    → (t : LockTier) × (tier_by_id q.tier_id ≡ some t)
unfolding mint_amounts
tier_found value tip_height fee q a h = elim (Option-cases (tier_by_id q.tier_id)) [
  | inl none_ ↦ cc (rw (mint_amounts, none_) at h)
  | inr found ↦ found
]

module _ (lib : Library) (utxo : DgbCoin) (priv_key : List ℕ) (q : Quote) (tip_height fee : ℕ) where
  -- The values that a run which returns has come by.
  record Run (m : SignedMint) : Type 0 where
    owner : List ℕ
    script : List ℕ
    outs : List Output
    witness : List (List ℕ)
    x_only : x_only_pub_key lib priv_key ≡ ok owner
    amounts :
        mint_amounts utxo.value_sats q tip_height fee
        ≡ ok (record {
          collateral_sats = m.collateral_sats;
          unlock_height = m.unlock_height;
          change_sats = m.change_sats;
        })
    leg : dgb_leg_script lib utxo.coin_type priv_key ≡ ok script
    built :
        mint_outputs lib priv_key owner q (record {
          collateral_sats = m.collateral_sats;
          unlock_height = m.unlock_height;
          change_sats = m.change_sats;
        })
        ≡ ok outs
    signed : sign_dgb_leg lib utxo.coin_type priv_key (mint_tx utxo script outs) 0 ≡ ok witness
    written : serialize_tx (mint_tx utxo script outs) (witness ∷ []) ≡ ok m.hex

  build_signed_mint_tx-Run :
      (m : SignedMint) → build_signed_mint_tx lib utxo priv_key q tip_height fee ≡ ok m → Run m
  unfolding build_signed_mint_tx
  build_signed_mint_tx-Run m h =
      let (h_1, _) = >>_returned (throw_if (not (is_known_tier q.tier_id)) unknown_tier) _ h in
      let (h_2, _) = >>_returned (throw_if (ltb fee min_dd_tx_fee_sats) fee_below_floor) _ h_1 in
      let (owner, h_3, x_only) = >>=_returned _ (x_only_pub_key lib priv_key) h_2 in
      let (a, h_4, amounts) = >>=_returned _ (mint_amounts utxo.value_sats q tip_height fee) h_3 in
      let (script, h_5, leg) = >>=_returned _ (dgb_leg_script lib utxo.coin_type priv_key) h_4 in
      let (outs, h_6, built) = >>=_returned _ (mint_outputs lib priv_key owner q a) h_5 in
      let (witness, h_7, signed) =
        >>=_returned _ (sign_dgb_leg lib utxo.coin_type priv_key (mint_tx utxo script outs) 0)
          h_6 in
      let (hex, made, written) = >>=_returned _ _ h_7 in
      subst Run (ok-injective made) (record {
        owner = owner;
        script = script;
        outs = outs;
        witness = witness;
        x_only = x_only;
        amounts = amounts;
        leg = leg;
        built = built;
        signed = signed;
        written = written;
      })

  Run-IsMint :
      (m : SignedMint) (r : Run m)
      → IsLibrary lib
      → Fits q.dd_cents
      → m.unlock_height < 2 ^ 53
      → IsMint lib utxo r.owner q tip_height fee m (mint_tx utxo r.script r.outs)
  Run-IsMint m r v fits height =
      let a : MintAmounts = record {
        collateral_sats = m.collateral_sats;
        unlock_height = m.unlock_height;
        change_sats = m.change_sats;
      } in
      let (t, known) = tier_found utxo.value_sats tip_height fee q a r.amounts in
      let (required, matures, floor, covered, paid) =
        mint_amounts-conserves utxo.value_sats tip_height fee q t a known r.amounts in
      let (x, is_owner, x_bytes, x_length) = x_only_pub_key-bytes lib priv_key r.owner v r.x_only in
      record {
        is_version = refl;
        no_locktime = refl;
        script = bytes_to_hex r.script;
        spent = refl;
        tier = t;
        known = known;
        layout =
            mint_outputs-MintLayout lib priv_key r.owner x q a t r.outs is_owner x_bytes x_length
              known fits height r.built;
        required = required;
        matures = matures;
        floor = floor;
        covered = covered;
        paid = paid;
      }

  Run-OnWire :
      (m : SignedMint) (r : Run m)
      → IsMint lib utxo r.owner q tip_height fee m (mint_tx utxo r.script r.outs)
      → IsCoin utxo.txid_hex utxo.vout
      → utxo.value_sats < 2 ^ 64
      → OnWire lib (mint_tx utxo r.script r.outs) ((utxo.coin_type, priv_key) ∷ []) m.hex
  unfolding dd_version code_of dgb_input
  Run-OnWire m r is c small =
      let f : Output → ℕ = λ o. o.value_sats in
      let l = is.layout in
      OnWire-serialize_tx lib (mint_tx utxo r.script r.outs) ((utxo.coin_type, priv_key) ∷ [])
        (r.witness ∷ []) m.hex
        (record {
          small_version = omega arith;
          small_locktime = omega arith;
          all_inputs =
              (record { whole = c.whole; small_vout = c.small; small_sequence = omega arith }, tt);
          all_outputs = values_below (2 ^ 64) r.outs (
              omega (
                arith,
                ap (sum_map f) l.in_order,
                l.change_value,
                is.paid.balanced,
                is.covered,
                small,
              ));
          witnessed = refl;
        })
        (record { script = r.script; is_script = r.leg; committed = refl; signed = r.signed }, tt)
        r.written

  -- When `buildSignedMintTx` returns, with leaf hashes that are bytes, a parity of 0 or 1 and
  -- x coordinates of 32 bytes, for cents below 2 ^ 592, an unlock height below 2 ^ 53, and a
  -- coin with a txid of 32 bytes, an index below 2 ^ 32 and a value below 2 ^ 64: a reader of
  -- the BIP-144 format reads the text as one transaction with nothing left. It spends the
  -- coin, with the witness that `signDgbLeg` makes with the key, for the input whose script
  -- is that of the key. Its outputs are the collateral that the tier requires, under the
  -- output key of the owner's leaves, a token of the owner, metadata that `parseMintMetadata`
  -- reads as the cents, the unlock height, the tier's index and the owner, and the change.
  -- The unlock height is the tip, the tier's blocks and 101; the fee is not below the floor,
  -- and the coin pays for the collateral, the change, the fee and less than 100000 satoshis
  -- more. What a redemption of this owner, height and amount reveals is returned, and passes
  -- the check of BIP-341 for a script path against the key of the collateral.
  pub build_signed_mint_tx-OnWire :
      (m : SignedMint)
      → IsLibrary lib
      → Fits q.dd_cents
      → m.unlock_height < 2 ^ 53
      → IsCoin utxo.txid_hex utxo.vout
      → utxo.value_sats < 2 ^ 64
      → build_signed_mint_tx lib utxo priv_key q tip_height fee ≡ ok m
      → (tx : Tx) × (owner : List ℕ) × (x_only_pub_key lib priv_key ≡ ok owner)
        × OnWire lib tx ((utxo.coin_type, priv_key) ∷ []) m.hex
        × ((is : IsMint lib utxo owner q tip_height fee m tx) × Revealed lib owner m.unlock_height
              q.dd_cents is.layout.key)
  build_signed_mint_tx-OnWire m v fits height c small h =
      let r = build_signed_mint_tx-Run m h in
      let is = Run-IsMint m r v fits height in
      (
        mint_tx utxo r.script r.outs,
        r.owner,
        r.x_only,
        Run-OnWire m r is c small,
        (
          is,
          collateral_output_key-Revealed lib r.owner m.unlock_height q.dd_cents is.layout.key v
              is.layout.is_key,
        ),
      )
