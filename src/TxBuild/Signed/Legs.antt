-- ===== src/TxBuild/Signed/Legs.antt =====
-- A transaction whose text is read back whole, and whose inputs are signed for: each by the key
-- whose script the signatures commit to.
use diginaut_wallet.Prelude.{
  ℕ, ◌+◌, ◌<◌, ◌^◌, ◌≡◌, refl, List, [], ◌∷◌, sum_map, All, none, some, ok, >>=_returned, length,
  arith,
}
use diginaut_wallet.Hex.{bytes_to_hex}
use diginaut_wallet.Coins.{CoinType, p2tr}
use diginaut_wallet.Envelope.Metadata.{bytes_of}
use diginaut_wallet.TxBuild.{Output, from_envelope}
use diginaut_wallet.TxBuild.Taproot.{Library}
use diginaut_wallet.TxBuild.Sighash.{
  tap_tweak_priv_key, x_only_pub_key, taproot_sighash, key_path_witness, token_script,
  dgb_leg_script, sign_dgb_leg,
}
use diginaut_wallet.TxBuild.Wire.{TxInput, Tx, serialize_tx}
use diginaut_wallet.TxBuild.Wire.Reader.{read_tx}
use diginaut_wallet.TxBuild.Wire.RoundTrip.{wire_txid, IsTx, shown_tx, serialize_tx-read_tx}

-- A coin that a transaction may spend: a txid of 32 bytes, and an index below 2 ^ 32.
pub record IsCoin (txid_hex : List ℕ) (vout : ℕ) : Type 0 where
  pub whole : length (wire_txid txid_hex) ≡ 32
  pub small : vout < 2 ^ 32

pub values_below :
    (bound : ℕ) (outs : List Output)
    → sum_map (λ (o : Output). o.value_sats) outs < bound
    → All (λ (o : Output). o.value_sats < bound) outs
values_below bound [] h = tt
values_below bound (o ∷ outs) h = (omega arith, values_below bound outs (omega arith))

-- A leg is signed by a key for the input whose script is that key's.
pub record IsLeg (lib : Library) (tx : Tx) (index : ℕ) (coin_type : CoinType) (key : List ℕ)
    (script_hex : List ℕ) (witness : List (List ℕ)) : Type 0 where
  pub script : List ℕ
  pub is_script : dgb_leg_script lib coin_type key ≡ ok script
  pub committed : script_hex ≡ bytes_to_hex script
  pub signed : sign_dgb_leg lib coin_type key tx index ≡ ok witness

-- The key of an input, with the type of its coin.
abbrev pub Leg : Type 0
Leg = CoinType × List ℕ

abbrev pub AllLegs : Library → Tx → ℕ → List Leg → List TxInput → List (List (List ℕ)) → Type 0
AllLegs lib tx i [] [] [] = Unit
AllLegs lib tx i ((coin_type, key) ∷ legs) (input ∷ inputs) (w ∷ ws) =
    IsLeg lib tx i coin_type key input.script_pub_key_hex w × AllLegs lib tx (i + 1) legs inputs ws
AllLegs lib tx i _ _ _ = ⊥

pub record OnWire (lib : Library) (tx : Tx) (legs : List Leg) (hex : List ℕ) : Type 0 where
  pub witnesses : List (List (List ℕ))
  pub bytes : List ℕ
  pub is_text : hex ≡ bytes_to_hex bytes
  pub reads : read_tx bytes ≡ some (shown_tx tx witnesses, [])
  pub all_legs : AllLegs lib tx 0 legs tx.inputs witnesses

pub OnWire-serialize_tx :
    (lib : Library) (tx : Tx) (legs : List Leg) (witnesses : List (List (List ℕ))) (hex : List ℕ)
    → IsTx tx witnesses
    → AllLegs lib tx 0 legs tx.inputs witnesses
    → serialize_tx tx witnesses ≡ ok hex
    → OnWire lib tx legs hex
OnWire-serialize_tx lib tx legs witnesses hex v h e =
    let (bytes, is_text, reads) = serialize_tx-read_tx tx witnesses hex v e in
    record { witnesses = witnesses; bytes = bytes; is_text = is_text; reads = reads; all_legs = h }

-- The tweaked key that is made once serves the legs of the owner's tokens.
pub key_path-IsLeg :
    (lib : Library) (tx : Tx) (index : ℕ) (key owner_key owner_script tweaked tweaked_key : List ℕ)
    (witness : List (List ℕ))
    → x_only_pub_key lib key ≡ ok owner_key
    → token_script lib owner_key ≡ ok owner_script
    → tap_tweak_priv_key lib key ≡ ok tweaked
    → from_envelope (bytes_of tweaked) ≡ ok tweaked_key
    → key_path_witness lib tweaked_key tx index ≡ ok witness
    → IsLeg lib tx index p2tr key (bytes_to_hex owner_script) witness
unfolding dgb_leg_script sign_dgb_leg key_path_witness
key_path-IsLeg lib tx index key owner_key owner_script tweaked tweaked_key witness a b c d e =
    let (sighash, signed, hashed) = >>=_returned _ (taproot_sighash lib tx index none) e in
    record {
      script = owner_script;
      is_script = rw a b;
      committed = refl;
      signed = rw (hashed, c, d) signed;
    }
