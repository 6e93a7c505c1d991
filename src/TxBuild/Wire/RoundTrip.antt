-- ===== src/TxBuild/Wire/RoundTrip.antt =====
-- What `serializeTx` writes is read back.
use mathlib.Core.List.{reverse}
use native.Mathlib.Nat.{pow-suc}
use diginaut_wallet.Prelude.{
  ok-injective, ℕ, zero, suc, ◌/◌, ◌^◌, ◌<◌, ◌≡◌, refl, sym, subst, ap, ◌∙◌, List, [], ◌∷◌, ◌++◌,
  map, append-nil, append_assoc, none, some, Outcome, ok, >>=_returned, length, All, Option-cases,
  inl, inr, arith,
}
use diginaut_wallet.Hex.{hex_to_bytes, bytes_to_hex}
use diginaut_wallet.Envelope.Metadata.{bytes_of}
use diginaut_wallet.TxBuild.{TxError, Output, from_envelope}
use diginaut_wallet.TxBuild.Wire.{
  u32le, le_fixed, u64le, varint, TxInput, Tx, concat_map, outpoint, serialize_input, with_length,
  serialize_output, serialize_witness, tx_bytes, serialize_tx,
}
use diginaut_wallet.TxBuild.Wire.Reader.{
  Reader, done, ◌>>=◌, read_byte, read_le, read_varint, read_many, read_bytes, WireInput, WireTx,
  read_input, read_output, read_list, read_tail, read_witnesses, read_outputs, read_inputs,
  read_marked, read_tx, Reads, Reads-bind, Reads-done,
}

read_le-le_fixed : (k n : ℕ) → n < 256 ^ k → Reads (read_le k) (le_fixed k n) n
unfolding read_le le_fixed read_byte
read_le-le_fixed zero n h rest = let e : n ≡ 0 = omega arith in rw e refl
read_le-le_fixed (suc k) n h rest =
    rw (read_le-le_fixed k (n / 256) (omega (arith, pow-suc 256 k)) rest) (ground arith)

read_le-u32le : (n : ℕ) → n < 2 ^ 32 → Reads (read_le 4) (u32le n) n
unfolding read_le u32le read_byte
read_le-u32le n h rest = ground arith

read_le-u64le : (n : ℕ) → n < 2 ^ 64 → Reads (read_le 8) (u64le n) n
unfolding u64le
read_le-u64le n h = read_le-le_fixed 8 n (omega arith)

read_varint-varint : (n : ℕ) (bytes : List ℕ) → varint n ≡ ok bytes → Reads read_varint bytes n
unfolding read_varint varint read_byte read_le
read_varint-varint n bytes h rest = ground (arith, h)

read_many-bytes : (bytes : List ℕ) → Reads (read_many read_byte (length bytes)) bytes bytes
unfolding read_many read_byte
read_many-bytes [] rest = refl
read_many-bytes (b ∷ bytes) rest = rw (read_many-bytes bytes rest) refl

read_bytes-with_length :
    (bytes out : List ℕ) → with_length bytes ≡ ok out → Reads read_bytes out bytes
unfolding read_bytes with_length
read_bytes-with_length bytes out h =
    let (n, h1, counted) = >>=_returned _ (varint (length bytes)) h in
    subst (λ o. Reads read_bytes o bytes) (ok-injective h1)
      (Reads-bind read_varint (read_many read_byte) n bytes (length bytes) bytes
        (read_varint-varint (length bytes) n counted) (read_many-bytes bytes))

-- The parts of a list are read back when each of them is.
module _ {A : Type 0} {B : Type 0} (part : A → Outcome TxError (List ℕ)) (reader : Reader B)
    (P : A → Type 0) (image : A → B)
    (one : (x : A) (out : List ℕ) → P x → part x ≡ ok out → Reads reader out (image x)) where
  read_many-concat_map :
      (xs : List A) (out : List ℕ)
      → All P xs
      → concat_map part xs ≡ ok out
      → Reads (read_many reader (length xs)) out (map image xs)
  unfolding read_many concat_map
  read_many-concat_map [] out h e =
      subst (λ o. Reads {A = List B} (done []) o []) (ok-injective e) (λ rest. refl)
  read_many-concat_map (x ∷ xs) out h e =
      let (first, e1, made) = >>=_returned _ (part x) e in
      let (rest, e2, more) = >>=_returned _ (concat_map part xs) e1 in
      subst (λ o. Reads (read_many reader (suc (length xs))) o (image x ∷ map image xs))
        (ok-injective e2)
        (Reads-bind reader _ first rest (image x) (image x ∷ map image xs) (one x first h.0 made) (
          Reads-done (read_many reader (length xs)) (λ ys. image x ∷ ys) rest (map image xs)
            (read_many-concat_map xs rest h.1 more)))

-- The txid of an input as it stands on the wire.
abbrev pub wire_txid : List ℕ → List ℕ
wire_txid hex = elim (hex_to_bytes hex) [ none ↦ [] | some bytes ↦ reverse bytes ]

abbrev pub shown_input : TxInput → WireInput
shown_input i = record {
  txid = wire_txid i.txid_hex;
  vout = i.vout;
  script_sig = [];
  sequence = i.sequence;
}

-- What the format has room for.
pub record IsInput (i : TxInput) : Type 0 where
  pub whole : length (wire_txid i.txid_hex) ≡ 32
  pub small_vout : i.vout < 2 ^ 32
  pub small_sequence : i.sequence < 2 ^ 32

abbrev pub IsOutput : Output → Type 0
IsOutput o = o.value_sats < 2 ^ 64

pub wire_txid-read :
    (hex bytes : List ℕ) → from_envelope (bytes_of hex) ≡ ok bytes → wire_txid hex ≡ reverse bytes
unfolding bytes_of
wire_txid-read hex bytes h = elim (Option-cases (hex_to_bytes hex)) [
  | inl e ↦ ground (arith, e, h)
  | inr (b, e) ↦ ground (arith, e, h)
]

read_no_script : Reads read_bytes (0 ∷ []) []
unfolding read_bytes read_varint read_byte read_many
read_no_script rest = refl

read_input-serialize :
    (i : TxInput) (out : List ℕ)
    → IsInput i
    → serialize_input i ≡ ok out
    → Reads read_input out (shown_input i)
unfolding read_input serialize_input outpoint varint
read_input-serialize i out v h =
    let (point, made, pointed) = >>=_returned _ (outpoint i) h in
    let (bytes, point_is, read) = >>=_returned _ (from_envelope (bytes_of i.txid_hex)) pointed in
    let is_txid = wire_txid-read i.txid_hex bytes read in
    let txid = wire_txid i.txid_hex in
    let out_is : txid ++ (u32le i.vout ++ (0 ∷ [] ++ u32le i.sequence)) ≡ out =
      sym (append_assoc txid (u32le i.vout) (0 ∷ u32le i.sequence))
      ∙ ap (λ t. (t ++ u32le i.vout) ++ 0 ∷ u32le i.sequence) is_txid
      ∙ ap (λ p. p ++ 0 ∷ u32le i.sequence) (ok-injective point_is)
      ∙ ok-injective made in
    subst (λ o. Reads read_input o (shown_input i)) out_is
      (Reads-bind (read_many read_byte 32) _ txid _ txid (shown_input i)
        (subst (λ n. Reads (read_many read_byte n) txid txid) v.whole (read_many-bytes txid))
        (Reads-bind (read_le 4) _ (u32le i.vout) _ i.vout (shown_input i)
          (read_le-u32le i.vout v.small_vout)
          (Reads-bind read_bytes _ (0 ∷ []) (u32le i.sequence) [] (shown_input i) read_no_script (
            Reads-done (read_le 4) _ (u32le i.sequence) i.sequence
              (read_le-u32le i.sequence v.small_sequence)))))

read_output-serialize :
    (o : Output) (out : List ℕ) → IsOutput o → serialize_output o ≡ ok out → Reads read_output out o
unfolding read_output serialize_output
read_output-serialize o out v h =
    let (script, made, written) = >>=_returned _ (with_length o.script) h in
    subst (λ b. Reads read_output b o) (ok-injective made)
      (Reads-bind (read_le 8) _ (u64le o.value_sats) script o.value_sats o
        (read_le-u64le o.value_sats v)
        (Reads-done read_bytes _ script o.script (read_bytes-with_length o.script script written)))

map-id : {A : Type 0} (xs : List A) → map (λ (x : A). x) xs ≡ xs
map-id [] = refl
map-id (x ∷ xs) = ap (λ t. x ∷ t) (map-id xs)

pub All-unit : {A : Type 0} (xs : List A) → All (λ (x : A). Unit {0}) xs
All-unit [] = tt
All-unit (x ∷ xs) = (tt, All-unit xs)

read_witness-serialize :
    (w : List (List ℕ)) (out : List ℕ)
    → serialize_witness w ≡ ok out
    → Reads (read_list read_bytes) out w
unfolding read_list serialize_witness
read_witness-serialize w out h =
    let (n, h1, counted) = >>=_returned _ (varint (length w)) h in
    let (items, made, written) = >>=_returned _ (concat_map with_length w) h1 in
    subst (λ b. Reads (read_list read_bytes) b w) (ok-injective made)
      (Reads-bind read_varint (read_many read_bytes) n items (length w) w
        (read_varint-varint (length w) n counted)
        (subst (Reads (read_many read_bytes (length w)) items) (map-id w) (
          read_many-concat_map with_length read_bytes (λ x. Unit {0}) (λ x. x)
            (λ x out _ e. read_bytes-with_length x out e) w items (All-unit w) written)))

-- What a transaction is on the wire.
abbrev pub shown_tx : Tx → List (List (List ℕ)) → WireTx
shown_tx tx witnesses = record {
  version = tx.version;
  inputs = map shown_input tx.inputs;
  outputs = tx.outputs;
  witnesses = witnesses;
  locktime = tx.locktime;
}

pub record IsTx (tx : Tx) (witnesses : List (List (List ℕ))) : Type 0 where
  pub small_version : tx.version < 2 ^ 32
  pub small_locktime : tx.locktime < 2 ^ 32
  pub all_inputs : All IsInput tx.inputs
  pub all_outputs : All IsOutput tx.outputs
  pub witnessed : length witnesses ≡ length tx.inputs

with_marker :
    (version : ℕ) (bytes : List ℕ) (whole : WireTx)
    → Reads (read_varint >>= read_inputs version) bytes whole
    → Reads (read_marked version) (0 ∷ 1 ∷ bytes) whole
unfolding read_byte
with_marker version bytes whole h rest = h rest

-- The outputs behind their count, with what follows.
counted_outputs :
    (os : List Output) (n outs : List ℕ)
    → varint (length os) ≡ ok n
    → Reads (read_many read_output (length os)) outs os
    → (next : List Output → Reader WireTx) (ys : List ℕ) (b : WireTx) → Reads (next os) ys b
    → Reads (read_list read_output >>= next) (n ++ (outs ++ ys)) b
unfolding read_list
counted_outputs os n outs c h next ys b k =
    subst (λ xs. Reads (read_list read_output >>= next) xs b) (append_assoc n outs ys)
      (Reads-bind (read_list read_output) next (n ++ outs) ys os b
        (Reads-bind read_varint (read_many read_output) n outs (length os) os
          (read_varint-varint (length os) n c) h)
        k)

pub read_tx-tx_bytes :
    (tx : Tx) (witnesses : List (List (List ℕ))) (out : List ℕ)
    → IsTx tx witnesses
    → tx_bytes tx witnesses ≡ ok out
    → Reads read_tx out (shown_tx tx witnesses)
unfolding read_tx tx_bytes
read_tx-tx_bytes tx witnesses out v h =
    let (n_in, h1, c1) = >>=_returned _ (varint (length tx.inputs)) h in
    let (ins, h2, c2) = >>=_returned _ (concat_map serialize_input tx.inputs) h1 in
    let (n_out, h3, c3) = >>=_returned _ (varint (length tx.outputs)) h2 in
    let (outs, h4, c4) = >>=_returned _ (concat_map serialize_output tx.outputs) h3 in
    let (wits, h5, c5) = >>=_returned _ (concat_map serialize_witness witnesses) h4 in
    let whole = shown_tx tx witnesses in
    let ins_read =
      read_many-concat_map serialize_input read_input IsInput shown_input read_input-serialize
        tx.inputs ins v.all_inputs c2 in
    let outs_read =
      subst (Reads (read_many read_output (length tx.outputs)) outs) (map-id tx.outputs) (
        read_many-concat_map serialize_output read_output IsOutput (λ o. o) read_output-serialize
          tx.outputs outs v.all_outputs c4) in
    let wits_read =
      read_many-concat_map serialize_witness (read_list read_bytes) (λ x. Unit {0}) (λ w. w)
        (λ w o _ e. read_witness-serialize w o e) witnesses wits (All-unit witnesses) c5 in
    let wits_read' : Reads (read_many (read_list read_bytes) (length tx.inputs)) wits witnesses =
      subst (λ n. Reads (read_many (read_list read_bytes) n) wits witnesses) v.witnessed
        (subst (Reads (read_many (read_list read_bytes) (length witnesses)) wits) (map-id witnesses)
          wits_read) in
    let read_end =
      Reads-done (read_le 4) _ (u32le tx.locktime) tx.locktime
        (read_le-u32le tx.locktime v.small_locktime) in
    let from_witnesses =
      Reads-bind (read_many (read_list read_bytes) (length tx.inputs))
        (read_tail tx.version (map shown_input tx.inputs) tx.outputs) wits (u32le tx.locktime)
        witnesses whole wits_read' read_end in
    let from_outputs =
      counted_outputs tx.outputs n_out outs c3 outs_read
        (read_witnesses tx.version (length tx.inputs) (map shown_input tx.inputs))
        (wits ++ u32le tx.locktime) whole from_witnesses in
    let from_inputs =
      Reads-bind (read_many read_input (length tx.inputs))
        (read_outputs tx.version (length tx.inputs)) ins
        (n_out ++ (outs ++ (wits ++ u32le tx.locktime))) (map shown_input tx.inputs) whole ins_read
        from_outputs in
    let counted =
      Reads-bind read_varint (read_inputs tx.version) n_in
        (ins ++ (n_out ++ (outs ++ (wits ++ u32le tx.locktime)))) (length tx.inputs) whole
        (read_varint-varint (length tx.inputs) n_in c1) from_inputs in
    subst (λ b. Reads read_tx b whole) (ok-injective h5)
      (Reads-bind (read_le 4) read_marked (u32le tx.version) _ tx.version whole
        (read_le-u32le tx.version v.small_version)
        (λ rest. with_marker tx.version _ whole counted rest))

-- For a transaction whose version, locktime, values, output indices and sequences fit their
-- fields, whose txids are of 32 bytes, and which has a witness for each input: the text that
-- `serializeTx` returns is that of bytes which a reader of the BIP-144 format, written apart
-- from it, reads as this transaction with these witnesses and empty script signatures, with
-- nothing left.
pub serialize_tx-read_tx :
    (tx : Tx) (witnesses : List (List (List ℕ))) (hex : List ℕ)
    → IsTx tx witnesses
    → serialize_tx tx witnesses ≡ ok hex
    → (bytes : List ℕ) × (hex ≡ bytes_to_hex bytes)
      × (read_tx bytes ≡ some (shown_tx tx witnesses, []))
unfolding serialize_tx
serialize_tx-read_tx tx witnesses hex v h =
    let (bytes, made, written) = >>=_returned _ (tx_bytes tx witnesses) h in
    (
      bytes,
      sym (ok-injective made),
      ap read_tx (sym (append-nil bytes)) ∙ read_tx-tx_bytes tx witnesses bytes v written [],
    )
