-- ===== src/TxBuild.antt =====
-- packages/digidollar-js/src/txbuild.js: the outputs of the DigiDollar transactions and of a plain
-- spend, and the amounts that go into them. BigInts are natural numbers here, so a difference that
-- the code finds negative is a comparison. Hexadecimal texts are lists of code units.
pub mod Amounts
pub mod Outputs
pub mod Transfer
pub mod Redeem
pub mod Wire
pub mod Taproot
pub mod Sighash
pub mod Signed
use diginaut_wallet.Prelude.{
  ℕ, ◌+◌, ◌*◌, List, [], ◌∷◌, ◌++◌, map, Bool, true, false, ◌&&◌, ◌||◌, Option, none, some, Outcome,
  ok, throw, ◌>>=◌, ◌>>◌, throw_if, ltb, leb, ◌==◌, if◌then◌else◌, length, not,
}
use diginaut_wallet.Hex.{hex_to_bytes}
use diginaut_wallet.Envelope.Pushes.{EnvelopeError}
use diginaut_wallet.Envelope.Metadata.{bytes_of, build_transfer_metadata, build_redeem_metadata}
use diginaut_wallet.Collateral.{CollateralError}

abbrev pub min_dd_tx_fee_sats : ℕ
min_dd_tx_fee_sats = 10_000_000

abbrev pub min_dd_output_cents : ℕ
min_dd_output_cents = 100

abbrev pub change_fold_sats : ℕ
change_fold_sats = 100_000

abbrev pub mint_lock_confirmation_buffer_blocks : ℕ
mint_lock_confirmation_buffer_blocks = 100

pub data TxError : Type 0 where
  fee_below_floor : TxError
  dd_input_too_small : TxError
  fee_utxo_too_small : TxError
  no_recipient : TxError
  below_minimum : TxError
  inputs_do_not_cover : TxError
  funding_too_small : TxError
  unknown_tier : TxError
  bad_key : TxError
  tweak_overflow : TxError
  varint_too_long : TxError
  leaf_too_long : TxError
  wrong_order : TxError
  not_a_number : TxError
  in_library : TxError
  in_envelope : EnvelopeError → TxError
  in_collateral : CollateralError → TxError

module _ {A : Type 0} where
  abbrev pub from_envelope : Outcome EnvelopeError A → Outcome TxError A
  from_envelope (ok a) = ok a
  from_envelope (throw e) = throw (in_envelope e)

  abbrev pub from_collateral : Outcome CollateralError A → Outcome TxError A
  from_collateral (ok a) = ok a
  from_collateral (throw e) = throw (in_collateral e)

pub record Output : Type 0 where
  pub value_sats : ℕ
  pub script : List ℕ

pub record Recipient : Type 0 where
  pub output_key_hex : List ℕ
  pub cents : ℕ

-- What the curve library computes: the tagged hash `TapTweak`, the order of the group, and the x
-- coordinate of lift_x(internal) + t · G as a text; there is none where the library throws.
pub record Curve : Type 0 where
  pub tap_tweak_hash : List ℕ → List ℕ
  pub order : ℕ
  pub tweak_add : List ℕ → ℕ → Option (List ℕ)

-- BigInt('0x' + bytesToHex(bytes))
unfoldable pub big_endian : ℕ → List ℕ → ℕ
big_endian acc [] = acc
big_endian acc (b ∷ bs) = big_endian (acc * 256 + b) bs

-- The pattern [0-9a-f]
unfoldable pub is_lower_hex : ℕ → Bool
is_lower_hex c = leb b'0' c && leb c b'9' || leb b'a' c && leb c b'f'

unfoldable pub all_hex : List ℕ → Bool
unfolding is_lower_hex
all_hex [] = true
all_hex (c ∷ cs) = is_lower_hex c && all_hex cs

-- OP_1 <32B>
unfoldable pub p2tr_script : List ℕ → Outcome TxError (List ℕ)
p2tr_script x_only_hex = do key ← from_envelope (bytes_of x_only_hex); ok (0x51 ∷ 0x20 ∷ key)

-- The loop over the amounts that consensus checks.
unfoldable pub check_minimum : List ℕ → Outcome TxError (Unit {0})
check_minimum [] = ok tt
check_minimum (c ∷ cs) = throw_if (ltb c min_dd_output_cents) below_minimum >> check_minimum cs

unfoldable pub recipient_outputs : List Recipient → Outcome TxError (List Output)
recipient_outputs [] = ok []
recipient_outputs (r ∷ rs) = do
  script ← p2tr_script r.output_key_hex
  rest ← recipient_outputs rs
  ok (record { value_sats = 0; script = script } ∷ rest)

-- The output for DGB change, if there is any.
unfoldable pub change_output : ℕ → List ℕ → Outcome TxError (List Output)
change_output sats script_hex =
    if ltb 0 sats
    then (from_envelope (bytes_of script_hex) >>= λ script.
        ok (record { value_sats = sats; script = script } ∷ []))
    else ok []

-- The metadata of a redemption, if there is DD change to announce.
unfoldable pub redeem_data : ℕ → Outcome TxError (List Output)
redeem_data dd_change =
    if ltb 0 dd_change
    then (from_envelope (build_redeem_metadata dd_change) >>= λ hex.
        from_envelope (bytes_of hex) >>= λ script.
        ok (record { value_sats = 0; script = script } ∷ []))
    else ok []

module _ (curve : Curve) where
  unfoldable pub tap_tweak_output_key : List ℕ → Outcome TxError (List ℕ)
  unfolding big_endian
  tap_tweak_output_key internal_key_hex = do
    internal ← from_envelope (bytes_of internal_key_hex)
    let t = big_endian 0 (curve.tap_tweak_hash internal)
    throw_if (leb curve.order t) tweak_overflow
    elim (curve.tweak_add internal_key_hex t) [ none ↦ throw in_library | some x ↦ ok x ]

  unfoldable pub dd_token_output_key : List ℕ → Outcome TxError (List ℕ)
  unfolding all_hex
  dd_token_output_key owner_key_hex = do
    throw_if (not (length owner_key_hex == 64 && all_hex owner_key_hex)) bad_key
    tap_tweak_output_key owner_key_hex

  -- The token output for DD change, if there is any.
  unfoldable pub dd_change_output : ℕ → List ℕ → Outcome TxError (List Output)
  dd_change_output cents owner_key_hex =
      if ltb 0 cents
      then (dd_token_output_key owner_key_hex >>= λ key.
          p2tr_script key >>= λ script. ok (record { value_sats = 0; script = script } ∷ []))
      else ok []

  unfoldable pub build_transfer_outputs :
      List Recipient → ℕ → List ℕ → ℕ → List ℕ → Outcome TxError (List Output)
  build_transfer_outputs [] dd_change owner dgb_change script_hex = throw no_recipient
  build_transfer_outputs (r ∷ rs) dd_change owner dgb_change script_hex = do
    tokens ← recipient_outputs (r ∷ rs)
    change ← dd_change_output dd_change owner
    let amounts = map (λ x. x.cents) (r ∷ rs) ++ (if ltb 0 dd_change then dd_change ∷ [] else [])
    check_minimum amounts
    dgb ← change_output dgb_change script_hex
    metadata ← from_envelope (build_transfer_metadata amounts)
    script ← from_envelope (bytes_of metadata)
    ok (tokens ++ (change ++ (dgb ++ record { value_sats = 0; script = script } ∷ [])))

  -- The return of the collateral comes first; DD change brings its metadata along.
  unfoldable pub build_redeem_outputs :
      ℕ → List ℕ → ℕ → List ℕ → ℕ → List ℕ → Outcome TxError (List Output)
  build_redeem_outputs collateral script_hex dd_change owner dgb_change dgb_script_hex = do
    back ← from_envelope (bytes_of script_hex)
    tokens ← dd_change_output dd_change owner
    data_ ← redeem_data dd_change
    dgb ← change_output dgb_change dgb_script_hex
    ok (record { value_sats = collateral; script = back } ∷ (tokens ++ (data_ ++ dgb)))
