-- ===== src/BroadcastLog/Txid/Signed.antt =====
-- The transaction id that the log keeps is that of the transaction that `serializeTx` has written.
use mathlib.Core.List.{reverse}
use diginaut_wallet.Prelude.{
  ok-injective, ℕ, ◌<◌, ◌≡◌, refl, sym, subst, ap, ◌∙◌, ◌≢◌, List, [], ◌++◌, map, false, some,
  length, length-append, All, Outcome, ok, ◌>>=◌, >>=_returned, ◌==◌, arith,
}
use diginaut_wallet.Hex.{IsByte, hex_to_bytes, bytes_to_hex}
use diginaut_wallet.Hex.RoundTrip.{hex_to_bytes-bytes_to_hex, length-bytes_to_hex}
use diginaut_wallet.Text.{lower_letter}
use diginaut_wallet.Envelope.Metadata.{bytes_of}
use diginaut_wallet.TxBuild.{TxError, from_envelope}
use diginaut_wallet.TxBuild.Wire.{
  u32le, varint, TxInput, Tx, concat_map, outpoint, serialize_input, serialize_output,
  serialize_witness, tx_bytes, serialize_tx,
}
use diginaut_wallet.TxBuild.Wire.RoundTrip.{All-unit, wire_txid-read, IsInput, IsTx}
use diginaut_wallet.BroadcastLog.Txid.{
  skip_many, skip_input, skip_output, skip_witness, strip_witnesses, txid_from_signed_hex,
}
use diginaut_wallet.BroadcastLog.Txid.Skipping.{
  Skips, varint-Counts, skip_many-Skips, skip_output-Skips, skip_witness-Skips, skip_input-Skips,
}
use diginaut_wallet.BroadcastLog.Txid.Stripping.{strip_witnesses-made}
use diginaut_wallet.BroadcastLog.Txid.Texts.{
  all_any_hex-bytes_to_hex, lower_letter-bytes_to_hex, is_even-bytes_to_hex, IsByteTx,
  tx_bytes-IsByte,
}

-- A transaction in the format that its id is made of: without marker, flag and witnesses.
abbrev pub plain_bytes : Tx → Outcome TxError (List ℕ)
plain_bytes tx = do
  n_in ← varint (length tx.inputs)
  ins ← concat_map serialize_input tx.inputs
  n_out ← varint (length tx.outputs)
  outs ← concat_map serialize_output tx.outputs
  ok (u32le tx.version ++ (n_in ++ (ins ++ (n_out ++ (outs ++ u32le tx.locktime)))))

whole_input-Skips :
    (i : TxInput) (out : List ℕ) → IsInput i → serialize_input i ≡ ok out → Skips skip_input out
unfolding outpoint u32le serialize_input
whole_input-Skips i out v h =
    let (point, _, pointed) = >>=_returned _ (outpoint i) h in
    let (txid, is_point, read) = >>=_returned _ (from_envelope (bytes_of i.txid_hex)) pointed in
    let whole : length point ≡ 36 = omega (
      arith,
      ap length (ok-injective is_point),
      length-append (reverse txid) (u32le i.vout),
      ap length (wire_txid-read i.txid_hex txid read),
      v.whole,
    ) in
    skip_input-Skips i point out pointed whole h

plain_bytes-made :
    (tx : Tx) (n_in ins n_out outs : List ℕ)
    → varint (length tx.inputs) ≡ ok n_in
    → concat_map serialize_input tx.inputs ≡ ok ins
    → varint (length tx.outputs) ≡ ok n_out
    → concat_map serialize_output tx.outputs ≡ ok outs
    → plain_bytes tx
      ≡ ok (u32le tx.version ++ (n_in ++ (ins ++ (n_out ++ (outs ++ u32le tx.locktime)))))
plain_bytes-made tx n_in ins n_out outs a b c d = rw (a, b, c, d) refl

strip_witnesses-tx_bytes :
    (tx : Tx) (witnesses : List (List (List ℕ))) (bytes : List ℕ)
    → IsTx tx witnesses
    → 0 < length tx.inputs
    → tx_bytes tx witnesses ≡ ok bytes
    → (plain : List ℕ) × (plain_bytes tx ≡ ok plain)
      × (strip_witnesses bytes ≡ ok plain)
      × (0 < length bytes)
unfolding tx_bytes u32le
strip_witnesses-tx_bytes tx witnesses bytes v positive h =
    let (n_in, h_1, c_1) = >>=_returned _ (varint (length tx.inputs)) h in
    let (ins, h_2, c_2) = >>=_returned _ (concat_map serialize_input tx.inputs) h_1 in
    let (n_out, h_3, c_3) = >>=_returned _ (varint (length tx.outputs)) h_2 in
    let (outs, h_4, c_4) = >>=_returned _ (concat_map serialize_output tx.outputs) h_3 in
    let (wits, h_5, c_5) = >>=_returned _ (concat_map serialize_witness witnesses) h_4 in
    let s_wit =
      subst (λ n. Skips (skip_many skip_witness n) wits) v.witnessed
        (skip_many-Skips (λ x. Unit {0}) serialize_witness skip_witness
          (λ w o _ e. skip_witness-Skips w o e) witnesses wits (All-unit witnesses) c_5) in
    let stripped =
      strip_witnesses-made _ _ _ _ n_in ins n_out outs wits (u32le tx.locktime) (length tx.inputs)
        (length tx.outputs) refl positive (varint-Counts _ n_in c_1)
        (skip_many-Skips IsInput serialize_input skip_input whole_input-Skips tx.inputs ins
          v.all_inputs c_2)
        (varint-Counts _ n_out c_3)
        (skip_many-Skips (λ x. Unit {0}) serialize_output skip_output
          (λ o out _ e. skip_output-Skips o out e) tx.outputs outs (All-unit tx.outputs) c_4)
        s_wit in
    (
      u32le tx.version ++ (n_in ++ (ins ++ (n_out ++ (outs ++ u32le tx.locktime)))),
      plain_bytes-made tx n_in ins n_out outs c_1 c_2 c_3 c_4,
      ap strip_witnesses (sym (ok-injective h_5)) ∙ stripped,
      subst (λ (l : List ℕ). 0 < length l) (ok-injective h_5) (omega arith),
    )

txid_from_text :
    (sha256 : List ℕ → List ℕ) (bytes plain : List ℕ)
    → All IsByte bytes
    → 0 < length bytes
    → strip_witnesses bytes ≡ ok plain
    → txid_from_signed_hex sha256 (bytes_to_hex bytes)
      ≡ ok (bytes_to_hex (reverse (sha256 (sha256 plain))))
unfolding txid_from_signed_hex
txid_from_text sha256 bytes plain h positive stripped =
    let long : (length (bytes_to_hex bytes) == 0) ≡ false =
      ground (arith, length-bytes_to_hex bytes, positive) in
    let some_ : bytes ≢ [] = λ e. absurd (omega (arith, ap length e, positive)) in
    let read : hex_to_bytes (map lower_letter (bytes_to_hex bytes)) ≡ some bytes =
      ap hex_to_bytes (lower_letter-bytes_to_hex bytes h)
      ∙ hex_to_bytes-bytes_to_hex bytes h some_ in
    rw (all_any_hex-bytes_to_hex bytes h, is_even-bytes_to_hex bytes, long, read, stripped) refl

-- For any SHA-256, and a transaction with an input whose version, locktime, values, output
-- indices and sequences fit their fields, whose txids are of 32 bytes, which has a witness
-- for each input, and whose scripts and witness items are bytes: from the text that
-- `serializeTx` returns, `txidFromSignedHex` returns the reversed double hash of the version,
-- the inputs, the outputs and the locktime as they stand there, without the marker, the flag
-- and the witnesses.
pub txid_from_signed_hex-serialize_tx :
    (sha256 : List ℕ → List ℕ) (tx : Tx) (witnesses : List (List (List ℕ))) (hex : List ℕ)
    → IsTx tx witnesses
    → IsByteTx tx witnesses
    → 0 < length tx.inputs
    → serialize_tx tx witnesses ≡ ok hex
    → (plain : List ℕ) × (plain_bytes tx ≡ ok plain)
      × (txid_from_signed_hex sha256 hex ≡ ok (bytes_to_hex (reverse (sha256 (sha256 plain)))))
unfolding serialize_tx
txid_from_signed_hex-serialize_tx sha256 tx witnesses hex v b positive h =
    let (bytes, made, written) = >>=_returned _ (tx_bytes tx witnesses) h in
    let (plain, is_plain, stripped, some_) =
      strip_witnesses-tx_bytes tx witnesses bytes v positive written in
    (
      plain,
      is_plain,
      ap (txid_from_signed_hex sha256) (sym (ok-injective made))
          ∙ txid_from_text sha256 bytes plain (tx_bytes-IsByte tx witnesses bytes b written) some_
              stripped,
    )
