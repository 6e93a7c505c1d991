-- ===== src/TxBuild/Wire.antt =====
-- packages/digidollar-js/src/txbuild.js: `u32le`, `u64le`, `varint` and `serializeTx`.
pub mod Progress
pub mod Reader
pub mod RoundTrip
use mathlib.Core.List.{reverse}
use diginaut_wallet.Prelude.{
  ℕ, zero, suc, ◌/◌, ◌%◌, ◌^◌, List, [], ◌∷◌, ◌++◌, Outcome, ok, throw, ◌>>=◌, ltb, leb,
  if◌then◌else◌, length,
}
use diginaut_wallet.Hex.{bytes_to_hex}
use diginaut_wallet.Envelope.Metadata.{bytes_of}
use diginaut_wallet.TxBuild.{TxError, varint_too_long, from_envelope, Output}

unfoldable pub u32le : ℕ → List ℕ
u32le n = n % 256 ∷ n / 2 ^ 8 % 256 ∷ n / 2 ^ 16 % 256 ∷ n / 2 ^ 24 % 256 ∷ []

-- The loop of `u64le`, for the bytes that are still to be written.
unfoldable pub le_fixed : ℕ → ℕ → List ℕ
le_fixed zero x = []
le_fixed (suc count) x = x % 256 ∷ le_fixed count (x / 256)

unfoldable pub u64le : ℕ → List ℕ
u64le v = le_fixed 8 v

unfoldable pub varint : ℕ → Outcome TxError (List ℕ)
varint n =
    if ltb n 0xfd
    then ok (n ∷ [])
    else if leb n 0xffff
    then ok (0xfd ∷ n % 256 ∷ n / 256 ∷ [])
    else throw varint_too_long

pub record TxInput : Type 0 where
  pub txid_hex : List ℕ
  pub vout : ℕ
  pub value_sats : ℕ
  pub script_pub_key_hex : List ℕ
  pub sequence : ℕ

pub record Tx : Type 0 where
  pub version : ℕ
  pub locktime : ℕ
  pub inputs : List TxInput
  pub outputs : List Output

-- The parts of each element, one behind the other.
unfoldable pub concat_map {ℓ} :
    {A : Type ℓ} → (A → Outcome TxError (List ℕ)) → List A → Outcome TxError (List ℕ)
concat_map part [] = ok []
concat_map part (x ∷ xs) = do bytes ← part x; rest ← concat_map part xs; ok (bytes ++ rest)

-- `hexToBytes(i.txidHex).reverse(), u32le(i.vout)`
unfoldable pub outpoint : TxInput → Outcome TxError (List ℕ)
outpoint i = do txid ← from_envelope (bytes_of i.txid_hex); ok (reverse txid ++ u32le i.vout)

unfoldable pub serialize_input : TxInput → Outcome TxError (List ℕ)
serialize_input i = do
  point ← outpoint i
  script_length ← varint 0
  ok (point ++ (script_length ++ u32le i.sequence))

-- `varint(bytes.length), bytes`
unfoldable pub with_length : List ℕ → Outcome TxError (List ℕ)
with_length bytes = do n ← varint (length bytes); ok (n ++ bytes)

unfoldable pub serialize_output : Output → Outcome TxError (List ℕ)
serialize_output o = do script ← with_length o.script; ok (u64le o.value_sats ++ script)

unfoldable pub serialize_witness : List (List ℕ) → Outcome TxError (List ℕ)
serialize_witness w = do n ← varint (length w); items ← concat_map with_length w; ok (n ++ items)

-- The parts of `serializeTx` in their order, before they become a text.
unfoldable pub tx_bytes : Tx → List (List (List ℕ)) → Outcome TxError (List ℕ)
tx_bytes tx witnesses = do
  n_in ← varint (length tx.inputs)
  ins ← concat_map serialize_input tx.inputs
  n_out ← varint (length tx.outputs)
  outs ← concat_map serialize_output tx.outputs
  wits ← concat_map serialize_witness witnesses
  ok (
      u32le tx.version
      ++ (0 ∷ 1 ∷ n_in ++ (ins ++ (n_out ++ (outs ++ (wits ++ u32le tx.locktime))))))

unfoldable pub serialize_tx : Tx → List (List (List ℕ)) → Outcome TxError (List ℕ)
serialize_tx tx witnesses = do bytes ← tx_bytes tx witnesses; ok (bytes_to_hex bytes)
