-- ===== src/TxBuild/Wire/Reader.antt =====
-- A reader of the format of BIP-144, which knows nothing of the code that writes it, and what it
-- is for a reader to read a value off the front of any bytes.
use diginaut_wallet.Prelude.{
  ℕ, zero, suc, ◌+◌, ◌*◌, ◌≡◌, ap, ◌∙◌, List, [], ◌∷◌, ◌++◌, append_assoc, Option, none, some, ltb,
  ◌==◌, ◌&&◌, if◌then◌else◌,
}
use diginaut_wallet.TxBuild.{Output}

abbrev pub Reader {ℓ} : Type ℓ → Type ℓ
Reader A = List ℕ → Option (A × List ℕ)

-- What is made of a value that was read, with the bytes behind it.
abbrev pub and_then {ℓ κ} :
    {A : Type ℓ} {B : Type κ} → Option (A × List ℕ) → (A → Reader B) → Option (B × List ℕ)
and_then none next = none
and_then (some (a, rest)) next = next a rest

infixl 5 ◌>>=◌
abbrev pub ◌>>=◌ {ℓ κ} : {A : Type ℓ} {B : Type κ} → Reader A → (A → Reader B) → Reader B
(first >>= next) bytes = and_then (first bytes) next

abbrev pub done {ℓ} : {A : Type ℓ} → A → Reader A
done a bytes = some (a, bytes)

unfoldable pub read_byte : Reader ℕ
read_byte [] = none
read_byte (b ∷ bytes) = some (b, bytes)

-- A number of that many bytes, the lowest first.
unfoldable pub read_le : ℕ → Reader ℕ
read_le zero = done 0
read_le (suc count) = read_byte >>= λ b. read_le count >>= λ high. done (high * 256 + b)

unfoldable pub read_varint : Reader ℕ
read_varint =
    read_byte >>= λ b. if ltb b 0xfd then done b else if b == 0xfd then read_le 2 else λ bytes. none

unfoldable pub read_many {ℓ} : {A : Type ℓ} → Reader A → ℕ → Reader (List A)
read_many reader zero = done []
read_many reader (suc count) = reader >>= λ a. read_many reader count >>= λ as_. done (a ∷ as_)

unfoldable pub read_bytes : Reader (List ℕ)
read_bytes = read_varint >>= read_many read_byte

-- A transaction as it stands on the wire. A txid is in the order of the wire.
pub record WireInput : Type 0 where
  pub txid : List ℕ
  pub vout : ℕ
  pub script_sig : List ℕ
  pub sequence : ℕ

pub record WireTx : Type 0 where
  pub version : ℕ
  pub inputs : List WireInput
  pub outputs : List Output
  pub witnesses : List (List (List ℕ))
  pub locktime : ℕ

unfoldable pub read_input : Reader WireInput
read_input = read_many read_byte 32 >>= λ txid. read_le 4 >>= λ vout. read_bytes >>= λ script_sig.
    read_le 4 >>= λ sequence.
    done (record { txid = txid; vout = vout; script_sig = script_sig; sequence = sequence })

unfoldable pub read_output : Reader Output
read_output = read_le 8 >>= λ value.
    read_bytes >>= λ script. done (record { value_sats = value; script = script })

unfoldable pub read_list {ℓ} : {A : Type ℓ} → Reader A → Reader (List A)
read_list reader = read_varint >>= read_many reader

-- The parts of a transaction from the last to the first, each with those before it.
abbrev pub read_tail : ℕ → List WireInput → List Output → List (List (List ℕ)) → Reader WireTx
read_tail version inputs outputs witnesses = read_le 4 >>= λ locktime. done (record {
  version = version;
  inputs = inputs;
  outputs = outputs;
  witnesses = witnesses;
  locktime = locktime;
})

-- A witness for each input.
abbrev pub read_witnesses : ℕ → ℕ → List WireInput → List Output → Reader WireTx
read_witnesses version n_in inputs outputs =
    read_many (read_list read_bytes) n_in >>= read_tail version inputs outputs

abbrev pub read_outputs : ℕ → ℕ → List WireInput → Reader WireTx
read_outputs version n_in inputs = read_list read_output >>= read_witnesses version n_in inputs

abbrev pub read_inputs : ℕ → ℕ → Reader WireTx
read_inputs version n_in = read_many read_input n_in >>= read_outputs version n_in

-- The marker and the flag are those of a transaction with witnesses.
abbrev pub read_marked : ℕ → Reader WireTx
read_marked version = read_byte >>= λ marker. read_byte >>= λ flag.
    if marker == 0 && flag == 1 then read_varint >>= read_inputs version else λ bytes. none

unfoldable pub read_tx : Reader WireTx
read_tx = read_le 4 >>= read_marked

-- A reader takes the bytes off the front of any bytes, and makes the value of them.
abbrev pub Reads {ℓ} : {A : Type ℓ} → Reader A → List ℕ → A → Type ℓ
Reads reader bytes a = (rest : List ℕ) → reader (bytes ++ rest) ≡ some (a, rest)

pub Reads-bind {ℓ κ} :
    {A : Type ℓ} {B : Type κ} (first : Reader A) (next : A → Reader B) (xs ys : List ℕ) (a : A)
    (b : B)
    → Reads first xs a
    → Reads (next a) ys b
    → Reads (first >>= next) (xs ++ ys) b
Reads-bind first next xs ys a b h k rest =
    let e : first ((xs ++ ys) ++ rest) ≡ some (a, ys ++ rest) =
      ap first (append_assoc xs ys rest) ∙ h (ys ++ rest) in
    ap (λ r. and_then r next) e ∙ k rest

-- A last step that only puts together.
pub Reads-done {ℓ κ} :
    {A : Type ℓ} {B : Type κ} (first : Reader A) (f : A → B) (xs : List ℕ) (a : A)
    → Reads first xs a
    → Reads (first >>= λ x. done (f x)) xs (f a)
Reads-done first f xs a h rest = ap (λ r. and_then r (λ x. done (f x))) (h rest)
