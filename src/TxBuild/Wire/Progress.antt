-- ===== src/TxBuild/Wire/Progress.antt =====
-- When `serializeTx` returns, and the parts that it shares with the messages that are signed.
use diginaut_wallet.Prelude.{
  ℕ, ◌≤◌, ◌≡◌, refl, ◌/◌, ◌%◌, leb, ltb, true, Bool-cases, inl, inr, List, [], ◌∷◌, ◌++◌, All,
  Outcome, ok, >>=-Returns, Returns, length, arith,
}
use mathlib.Core.List.{reverse}
use diginaut_wallet.Envelope.Metadata.{bytes_of}
use diginaut_wallet.TxBuild.{TxError, Output, from_envelope}
use diginaut_wallet.TxBuild.Wire.{
  u32le, u64le, varint, TxInput, Tx, concat_map, outpoint, serialize_input, with_length,
  serialize_output, serialize_witness, tx_bytes, serialize_tx,
}

-- A text that is read as bytes, no more of them than a count of the format has room for.
abbrev pub IsShortHex : List ℕ → Type 0
IsShortHex hex =
    (bytes : List ℕ) × (from_envelope (bytes_of hex) ≡ ok bytes) × (length bytes ≤ 0xffff)

-- A transaction that the format has room for.
pub record HasRoom (tx : Tx) : Type 0 where
  pub few_inputs : length tx.inputs ≤ 0xffff
  pub few_outputs : length tx.outputs ≤ 0xffff
  pub txids : All (λ (i : TxInput). Returns (from_envelope (bytes_of i.txid_hex))) tx.inputs
  pub scripts : All (λ (i : TxInput). IsShortHex i.script_pub_key_hex) tx.inputs
  pub short : All (λ (o : Output). length o.script ≤ 0xffff) tx.outputs

abbrev pub IsShortWitness : List (List ℕ) → Type 0
IsShortWitness w = (length w ≤ 0xffff) × All (λ (item : List ℕ). length item ≤ 0xffff) w

pub concat_map-Returns {ℓ} :
    {A : Type ℓ} (P : A → Type 0) (part : A → Outcome TxError (List ℕ))
    → ((x : A) → P x → Returns (part x))
    → (xs : List A) → All P xs
    → Returns (concat_map part xs)
unfolding concat_map
concat_map-Returns P part each [] h = ([], refl)
concat_map-Returns P part each (x ∷ xs) (here, later) =
    >>=-Returns (part x) _ (each x here) (λ bytes _.
      >>=-Returns (concat_map part xs) _ (concat_map-Returns P part each xs later)
        (λ rest _. (bytes ++ rest, refl)))

varint-Returns : (n : ℕ) → n ≤ 0xffff → Returns (varint n)
unfolding varint
varint-Returns n h =
    let fits : leb n 0xffff ≡ true = ground arith in
    elim (Bool-cases (ltb n 0xfd)) [
      | inl one ↦ (n ∷ [], rw one refl)
      | inr more ↦ (0xfd ∷ n % 256 ∷ n / 256 ∷ [], rw (more, fits) refl)
    ]

pub with_length-Returns : (bytes : List ℕ) → length bytes ≤ 0xffff → Returns (with_length bytes)
unfolding with_length
with_length-Returns bytes h =
    >>=-Returns (varint (length bytes)) _ (varint-Returns (length bytes) h)
      (λ n _. (n ++ bytes, refl))

pub outpoint-Returns :
    (i : TxInput) → Returns (from_envelope (bytes_of i.txid_hex)) → Returns (outpoint i)
unfolding outpoint
outpoint-Returns i h =
    >>=-Returns (from_envelope (bytes_of i.txid_hex)) _ h
      (λ txid _. (reverse txid ++ u32le i.vout, refl))

pub serialize_output-Returns :
    (o : Output) → length o.script ≤ 0xffff → Returns (serialize_output o)
unfolding serialize_output
serialize_output-Returns o h =
    >>=-Returns (with_length o.script) _ (with_length-Returns o.script h)
      (λ script _. (u64le o.value_sats ++ script, refl))

serialize_input-Returns :
    (i : TxInput) → Returns (from_envelope (bytes_of i.txid_hex)) → Returns (serialize_input i)
unfolding serialize_input
serialize_input-Returns i h = >>=-Returns (outpoint i) _ (outpoint-Returns i h) (λ point _.
    >>=-Returns (varint 0) _ (varint-Returns 0 (omega arith))
      (λ n _. (point ++ (n ++ u32le i.sequence), refl)))

serialize_witness-Returns : (w : List (List ℕ)) → IsShortWitness w → Returns (serialize_witness w)
unfolding serialize_witness
serialize_witness-Returns w (few, short) =
    >>=-Returns (varint (length w)) _ (varint-Returns (length w) few) (λ n _.
      >>=-Returns (concat_map with_length w) _
        (concat_map-Returns (λ (item : List ℕ). length item ≤ 0xffff) with_length
          with_length-Returns w short)
        (λ items _. (n ++ items, refl)))

pub serialize_tx-Returns :
    (tx : Tx) (witnesses : List (List (List ℕ)))
    → HasRoom tx
    → All IsShortWitness witnesses
    → Returns (serialize_tx tx witnesses)
unfolding serialize_tx tx_bytes
serialize_tx-Returns tx witnesses v h =
    >>=-Returns (tx_bytes tx witnesses) _
      (>>=-Returns (varint (length tx.inputs)) _ (varint-Returns _ v.few_inputs) (λ n_in _.
        >>=-Returns (concat_map serialize_input tx.inputs) _
          (concat_map-Returns _ serialize_input serialize_input-Returns tx.inputs v.txids)
          (λ ins _.
            >>=-Returns (varint (length tx.outputs)) _ (varint-Returns _ v.few_outputs) (λ n_out _.
              >>=-Returns (concat_map serialize_output tx.outputs) _
                (concat_map-Returns _ serialize_output serialize_output-Returns tx.outputs v.short)
                (λ outs _.
                  >>=-Returns (concat_map serialize_witness witnesses) _
                    (concat_map-Returns _ serialize_witness serialize_witness-Returns witnesses h)
                    (λ wits _. (_, refl)))))))
      (λ bytes _. (_, refl))
