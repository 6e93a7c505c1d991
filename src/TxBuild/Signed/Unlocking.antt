-- ===== src/TxBuild/Signed/Unlocking.antt =====
-- The first witness of a signed redemption opens the collateral.
use diginaut_wallet.Prelude.{
  ok-injective, ℕ, ◌≡◌, sym, ap, List, [], ◌∷◌, Option, none, some, ok, >>=_returned, length,
}
use diginaut_wallet.Envelope.Metadata.{bytes_of}
use diginaut_wallet.TxBuild.{from_envelope}
use diginaut_wallet.TxBuild.Taproot.{
  Library, tap_leaf, collateral_output_key, normal_redemption_leaf_hex, normal_redemption_leaf_hash,
  tap_leaf_hash,
}
use diginaut_wallet.TxBuild.Taproot.Spending.{
  IsLibrary, SpendsLeaf, collateral_output_key-Revealed, tap_leaf_hash-made,
}
use diginaut_wallet.TxBuild.Sighash.{from_library, taproot_sighash}
use diginaut_wallet.TxBuild.Wire.{Tx}
use diginaut_wallet.TxBuild.Signed.{CollateralCoin, collateral_witness}

-- The witness of the collateral: a signature of the owner for the leaf, the leaf, and the control
-- block that ties it to the output key.
pub record Unlocks (lib : Library) (tx : Tx) (priv_key key : List ℕ) (witness : List (List ℕ))
    : Type 0 where
  pub sig : List ℕ
  pub leaf : List ℕ
  pub control : List ℕ
  pub leaf_hash : List ℕ
  pub sighash : List ℕ
  pub raw_key : List ℕ
  pub in_order : witness ≡ sig ∷ leaf ∷ control ∷ []
  pub spends : SpendsLeaf lib key leaf control
  pub is_hash : lib.tagged_hash tap_leaf (0xc0 ∷ length leaf ∷ leaf) ≡ leaf_hash
  pub committed : taproot_sighash lib tx 0 (some leaf_hash) ≡ ok sighash
  pub is_key : from_envelope (bytes_of priv_key) ≡ ok raw_key
  pub signed : lib.schnorr_sign sighash raw_key ≡ some sig

pub from_library-ok : {A : Type 0} (o : Option A) {a : A} → from_library o ≡ ok a → o ≡ some a
from_library-ok none h = cc
from_library-ok (some x) h = ap some (ok-injective h)

-- The hash that the signature commits to is that of the leaf that is revealed.
leaf_hash-made :
    (lib : Library) (owner leaf_hex leaf hash : List ℕ) (lock cents : ℕ)
    → normal_redemption_leaf_hex owner lock cents ≡ ok leaf_hex
    → from_envelope (bytes_of leaf_hex) ≡ ok leaf
    → normal_redemption_leaf_hash lib owner lock cents ≡ ok hash
    → lib.tagged_hash tap_leaf (0xc0 ∷ length leaf ∷ leaf) ≡ hash
unfolding normal_redemption_leaf_hash
leaf_hash-made lib owner leaf_hex leaf hash lock cents a b h =
    let made : tap_leaf_hash lib leaf ≡ ok hash = rw (a, b) at h in
    (tap_leaf_hash-made lib leaf hash made).1

pub collateral_witness-Unlocks :
    (lib : Library) (owner key raw_key priv_key leaf_hash : List ℕ) (collateral : CollateralCoin)
    (tx : Tx) (witness : List (List ℕ))
    → IsLibrary lib
    → collateral_output_key lib owner collateral.lock_height collateral.dd_cents ≡ ok key
    → normal_redemption_leaf_hash lib owner collateral.lock_height collateral.dd_cents
      ≡ ok leaf_hash
    → from_envelope (bytes_of priv_key) ≡ ok raw_key
    → collateral_witness lib owner raw_key collateral leaf_hash tx ≡ ok witness
    → Unlocks lib tx priv_key key witness
unfolding collateral_witness
collateral_witness-Unlocks lib owner key raw_key priv_key leaf_hash collateral tx witness v made
      hashed is_key h =
    let r =
      collateral_output_key-Revealed lib owner collateral.lock_height collateral.dd_cents key v
        made in
    let (sighash, h_1, committed) = >>=_returned _ (taproot_sighash lib tx 0 (some leaf_hash)) h in
    let (sig, h_2, signed) = >>=_returned _ (from_library (lib.schnorr_sign sighash raw_key)) h_1 in
    let revealed : ok (sig ∷ r.leaf ∷ r.control ∷ []) ≡ ok witness =
      rw (r.shows_leaf, r.leaf_bytes, r.shows_control, r.control_bytes) at h_2 in
    record {
      sig = sig;
      leaf = r.leaf;
      control = r.control;
      leaf_hash = leaf_hash;
      sighash = sighash;
      raw_key = raw_key;
      in_order = sym (ok-injective revealed);
      spends = r.spends;
      is_hash =
          leaf_hash-made lib owner r.leaf_hex r.leaf leaf_hash collateral.lock_height
            collateral.dd_cents r.shows_leaf r.leaf_bytes hashed;
      committed = committed;
      is_key = is_key;
      signed = from_library-ok (lib.schnorr_sign sighash raw_key) signed;
    }
