-- ===== src/TxBuild/Sighash.antt =====
-- packages/digidollar-js/src/txbuild.js: the keys and scripts of the wallet's coins, the messages
-- that are signed (BIP-143 and BIP-341), and the witnesses. The library stands outside; what a
-- signature has of randomness is fixed in it.
pub mod Keys
pub mod Progress
use mathlib.Core.List.{reverse}
use diginaut_wallet.Prelude.{
  ℕ, ◌+◌, ◌-◌, ◌*◌, ◌%◌, List, [], ◌∷◌, ◌++◌, Bool, true, ◌&&◌, Option, none, some, Outcome, ok,
  throw, ◌>>=◌, ◌==◌, if◌then◌else◌, length, drop, get_elem?,
}
use diginaut_wallet.Hex.{bytes_to_hex, digit_value, is_space}
use diginaut_wallet.Address.Base58.{copies}
use diginaut_wallet.Coins.{CoinType, p2tr, p2wpkh}
use diginaut_wallet.Envelope.ScriptNum.{le_minimal}
use diginaut_wallet.Envelope.Pushes.{type_error}
use diginaut_wallet.Envelope.Metadata.{bytes_of}
use diginaut_wallet.TxBuild.{
  TxError, not_a_number, in_library, in_envelope, from_envelope, p2tr_script, big_endian,
  dd_token_output_key,
}
use diginaut_wallet.TxBuild.Taproot.{Library, tap_sighash}
use diginaut_wallet.TxBuild.Wire.{
  u32le, u64le, TxInput, Tx, concat_map, outpoint, with_length, serialize_output,
}

abbrev pub from_library : {A : Type 0} → Option A → Outcome TxError A
from_library none = throw in_library
from_library (some a) = ok a

unfoldable pub only_space : List ℕ → Bool
only_space [] = true
only_space (c ∷ cs) = is_space c && only_space cs

-- `BigInt('0x' + text)`, from the second digit on; white space at the end is skipped.
unfoldable pub hex_number : ℕ → List ℕ → Option ℕ
hex_number acc [] = some acc
hex_number acc (c ∷ cs) = elim (digit_value c) [
  | none ↦ if only_space (c ∷ cs) then some acc else none
  | some d ↦ hex_number (acc * 16 + d) cs
]

unfoldable pub big_int_of_hex : List ℕ → Outcome TxError ℕ
big_int_of_hex [] = throw not_a_number
big_int_of_hex (c ∷ cs) = elim (digit_value c) [
  | none ↦ throw not_a_number
  | some d ↦ elim (hex_number d cs) [ none ↦ throw not_a_number | some n ↦ ok n ]
]

-- `n.toString(16).padStart(64, '0')`
unfoldable pub without_zeros : List ℕ → List ℕ
without_zeros [] = []
without_zeros (c ∷ cs) = let rest = without_zeros cs in if c == b'0' then rest else c ∷ cs

unfoldable pub hex_64 : ℕ → List ℕ
hex_64 n =
    let digits = without_zeros (bytes_to_hex (reverse (le_minimal n))) in
    copies (64 - length digits) b'0' ++ digits

module _ (lib : Library) where
  -- The secret is negated where its point has an odd y coordinate.
  unfoldable pub tap_tweak_priv_key : List ℕ → Outcome TxError (List ℕ)
  tap_tweak_priv_key priv_key_hex = do
    d_0 ← big_int_of_hex priv_key_hex
    (x, y) ← from_library (lib.base_multiply d_0)
    let d = if y % 2 == 0 then d_0 else lib.curve.order - d_0
    px ← from_envelope (bytes_of (hex_64 x))
    let t = big_endian 0 (lib.curve.tap_tweak_hash px)
    ok (hex_64 ((d + t) % lib.curve.order))

  unfoldable pub p2wpkh_program_hex : List ℕ → Outcome TxError (List ℕ)
  p2wpkh_program_hex priv_key_hex = do
    key ← from_envelope (bytes_of priv_key_hex)
    compressed ← from_library (lib.get_public_key key)
    ok (bytes_to_hex (lib.ripemd160 (lib.sha256 compressed)))

  unfoldable pub p2wpkh_script : List ℕ → Outcome TxError (List ℕ)
  p2wpkh_script priv_key_hex = do
    program_hex ← p2wpkh_program_hex priv_key_hex
    program ← from_envelope (bytes_of program_hex)
    ok (0 ∷ 0x14 ∷ program)

  unfoldable pub x_only_pub_key : List ℕ → Outcome TxError (List ℕ)
  x_only_pub_key priv_key_hex = do
    key ← from_envelope (bytes_of priv_key_hex)
    x ← from_library (lib.get_x_only key)
    ok (bytes_to_hex x)

  -- `concat(varint(spk.length), spk)` of an input's script.
  unfoldable pub script_part : TxInput → Outcome TxError (List ℕ)
  script_part i = do spk ← from_envelope (bytes_of i.script_pub_key_hex); with_length spk

  -- The message of BIP-341, for a key path or, with the hash of a leaf, for a script path.
  unfoldable pub taproot_message : Tx → ℕ → Option (List ℕ) → Outcome TxError (List ℕ)
  taproot_message tx input_index leaf_hash = do
    prevouts ← concat_map outpoint tx.inputs
    amounts ← concat_map (λ i. ok (u64le i.value_sats)) tx.inputs
    scripts ← concat_map script_part tx.inputs
    sequences ← concat_map (λ i. ok (u32le i.sequence)) tx.inputs
    outputs ← concat_map serialize_output tx.outputs
    let extension : List ℕ = elim leaf_hash [
      | none ↦ []
      | some hash ↦ hash ++ (0 ∷ u32le 0xffffffff)
    ]
    let spend_type : ℕ = elim leaf_hash [ none ↦ 0 | some hash ↦ 2 ]
    ok (
        0 ∷ u32le tx.version
        ++ (u32le tx.locktime
            ++ (lib.sha256 prevouts
                ++ (lib.sha256 amounts
                    ++ (lib.sha256 scripts
                        ++ (lib.sha256 sequences
                            ++ (lib.sha256 outputs
                                ++ (spend_type ∷ u32le input_index ++ extension))))))))

  unfoldable pub taproot_sighash : Tx → ℕ → Option (List ℕ) → Outcome TxError (List ℕ)
  taproot_sighash tx input_index leaf_hash = do
    msg ← taproot_message tx input_index leaf_hash
    ok (lib.tagged_hash tap_sighash (0 ∷ msg))

  abbrev pub hash_256 : List ℕ → List ℕ
  hash_256 bytes = lib.sha256 (lib.sha256 bytes)

  -- The preimage of BIP-143. An index out of range reads from undefined.
  unfoldable pub bip143_preimage : Tx → ℕ → Outcome TxError (List ℕ)
  bip143_preimage tx input_index = do
    prevouts ← concat_map outpoint tx.inputs
    sequences ← concat_map (λ i. ok (u32le i.sequence)) tx.inputs
    outputs ← concat_map serialize_output tx.outputs
    elim (get_elem? tx.inputs input_index) [
      | none ↦ throw (in_envelope type_error)
      | some input ↦ do
        spk ← from_envelope (bytes_of input.script_pub_key_hex)
        let script_code = 0x19 ∷ 0x76 ∷ 0xa9 ∷ 0x14 ∷ drop 2 spk ++ 0x88 ∷ 0xac ∷ []
        point ← outpoint input
        ok (
            u32le tx.version
            ++ (hash_256 prevouts
                ++ (hash_256 sequences
                    ++ (point
                        ++ (script_code
                            ++ (u64le input.value_sats
                                ++ (u32le input.sequence
                                    ++ (hash_256 outputs ++ (u32le tx.locktime ++ u32le 1)))))))))
    ]

  unfoldable pub bip143_sighash : Tx → ℕ → Outcome TxError (List ℕ)
  bip143_sighash tx input_index = do
    preimage ← bip143_preimage tx input_index
    ok (hash_256 preimage)

  unfoldable pub p2wpkh_witness : List ℕ → List ℕ → Outcome TxError (List (List ℕ))
  p2wpkh_witness sighash priv_key_hex = do
    key ← from_envelope (bytes_of priv_key_hex)
    der ← from_library (lib.ecdsa_sign sighash key)
    public ← from_library (lib.get_public_key key)
    ok ((der ++ 1 ∷ []) ∷ public ∷ [])

  -- `[schnorr.sign(taprootSighash({ … }), tweakedKey)]`
  unfoldable pub key_path_witness : List ℕ → Tx → ℕ → Outcome TxError (List (List ℕ))
  key_path_witness tweaked_key tx input_index = do
    sighash ← taproot_sighash tx input_index none
    sig ← from_library (lib.schnorr_sign sighash tweaked_key)
    ok (sig ∷ [])

  -- `p2trScript(ddTokenOutputKey(…))`
  unfoldable pub token_script : List ℕ → Outcome TxError (List ℕ)
  token_script x_only_hex = do key ← dd_token_output_key lib.curve x_only_hex; p2tr_script key

  unfoldable pub dgb_leg_script : CoinType → List ℕ → Outcome TxError (List ℕ)
  dgb_leg_script p2wpkh priv_key_hex = p2wpkh_script priv_key_hex
  dgb_leg_script p2tr priv_key_hex = do x ← x_only_pub_key priv_key_hex; token_script x

  unfoldable pub sign_dgb_leg : CoinType → List ℕ → Tx → ℕ → Outcome TxError (List (List ℕ))
  sign_dgb_leg p2wpkh priv_key_hex tx input_index = do
    sighash ← bip143_sighash tx input_index
    p2wpkh_witness sighash priv_key_hex
  sign_dgb_leg p2tr priv_key_hex tx input_index = do
    sighash ← taproot_sighash tx input_index none
    tweaked ← tap_tweak_priv_key priv_key_hex
    tweaked_key ← from_envelope (bytes_of tweaked)
    sig ← from_library (lib.schnorr_sign sighash tweaked_key)
    ok (sig ∷ [])
