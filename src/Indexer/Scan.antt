-- ===== src/Indexer/Scan.antt =====
-- ddAmountsByVout and scanDDUtxos of apps/indexer/server.js. The transaction of an id comes from outside, or its error does.
pub mod Firsts
pub mod Memo
pub mod Transfer
use diginaut_wallet.Prelude.{
  ℕ, ◌+◌, List, [], ◌∷◌, ◌++◌, Bool, true, false, ◌&&◌, Option, none, some, Outcome, ok, throw,
  ◌>>=◌, ◌==◌, if◌then◌else◌, filter, find,
}
use diginaut_wallet.Text.{same_text}
use diginaut_wallet.Envelope.Pushes.{EnvelopeError}
use diginaut_wallet.Envelope.Version.{TxType, mint, transfer, redeem, parse_dd_version}
use diginaut_wallet.Envelope.Metadata.{
  MintMetadata, parse_mint_metadata, parse_transfer_metadata, parse_redeem_metadata,
}
use diginaut_wallet.Address.DigiDollar.{starts_with}

-- A double that is not negative: the mantissa, halved so many times.
pub record Double : Type 0 where
  pub mantissa : ℕ
  pub halvings : ℕ

-- The value is in DGB, as JSON gives it.
pub record VerboseOut : Type 0 where
  pub n : ℕ
  pub value : Double
  pub script_hex : List ℕ

pub record VerboseTx : Type 0 where
  pub version : ℕ
  pub vout : List VerboseOut

unfoldable pub is_op_return : VerboseOut → Bool
is_op_return o = starts_with o.script_hex (b'6' ∷ b'a' ∷ [])

unfoldable pub is_dd_vout : VerboseOut → Bool
is_dd_vout o = o.value.mantissa == 0 && starts_with o.script_hex (b'5' ∷ b'1' ∷ b'2' ∷ b'0' ∷ [])

-- What the try block makes of a parse: nothing when it throws.
unfoldable pub caught : {A : Type 0} → Outcome EnvelopeError A → Option A
caught (ok a) = some a
caught (throw e) = none

-- The amounts that the metadata lists. Without an OP_RETURN only a redemption has some: none.
unfoldable pub announced_amounts : TxType → Option VerboseOut → Option (List ℕ)
announced_amounts mint none = none
announced_amounts mint (some o) =
    caught (parse_mint_metadata o.script_hex >>= λ (m : MintMetadata). ok (m.dd_cents ∷ []))
announced_amounts transfer none = none
announced_amounts transfer (some o) = caught (parse_transfer_metadata o.script_hex)
announced_amounts redeem none = some []
announced_amounts redeem (some o) =
    caught (parse_redeem_metadata o.script_hex >>= λ cents. ok (cents ∷ []))

-- The pairs of an output's number and the amount at its place, as long as there is one.
unfoldable pub paired_amounts : List VerboseOut → List ℕ → List (ℕ × ℕ)
paired_amounts [] amounts = []
paired_amounts (o ∷ os) [] = []
paired_amounts (o ∷ os) (cents ∷ amounts) = (o.n, cents) ∷ paired_amounts os amounts

unfoldable pub amounts_of_type : Option TxType → List VerboseOut → Option (List (ℕ × ℕ))
amounts_of_type none vout = none
amounts_of_type (some t) vout = elim (announced_amounts t (find is_op_return vout)) [
  | none ↦ none
  | some amounts ↦ some (paired_amounts (filter is_dd_vout vout) amounts)
]

unfoldable pub dd_amounts_by_vout : VerboseTx → Option (List (ℕ × ℕ))
dd_amounts_by_vout tx = amounts_of_type (parse_dd_version tx.version).tx_type tx.vout

-- `get` of the Map that is made of the pairs: a later pair of the same number replaces an earlier.
unfoldable pub amount_at : ℕ → List (ℕ × ℕ) → Option ℕ
amount_at n [] = none
amount_at n ((k, cents) ∷ rest) = elim (amount_at n rest) [
  | some later ↦ some later
  | none ↦ if k == n then some cents else none
]

pub record Unspent : Type 0 where
  pub tx_hash : List ℕ
  pub tx_pos : ℕ
  pub value_sats : ℕ
  pub height : ℕ

pub record DdUtxo : Type 0 where
  pub txid : List ℕ
  pub vout : ℕ
  pub cents : ℕ
  pub height : ℕ

-- `ddMaps.get(u.tx_hash)?.get(u.tx_pos)`
unfoldable pub cents_of : Unspent → Option (List (ℕ × ℕ)) → Option ℕ
cents_of u none = none
cents_of u (some amounts) = amount_at u.tx_pos amounts

-- The rest of the loop's body: nothing is pushed for an output without an amount.
unfoldable pub push_utxo : Unspent → Option ℕ → List DdUtxo → List DdUtxo
push_utxo u none out = out
push_utxo u (some cents) out =
    record { txid = u.tx_hash; vout = u.tx_pos; cents = cents; height = u.height } ∷ out

-- An entry of ddMaps.
pub record DdMap : Type 0 where
  pub tx_hash : List ℕ
  pub amounts : Option (List (ℕ × ℕ))

-- ddMaps, and the calls of `getTx` so far.
pub record Memos : Type 0 where
  pub maps : List DdMap
  pub asked : List (List ℕ)

module _ {E : Type 0} (get_tx : List ℕ → Outcome E VerboseTx) where
  -- The amounts of a transaction, with what is there afterwards.
  unfoldable pub memo_amounts : List ℕ → Memos → Outcome E (Option (List (ℕ × ℕ)) × Memos)
  memo_amounts h s = elim (find (λ m. same_text m.tx_hash h) s.maps) [
    | some m ↦ ok (m.amounts, s)
    | none ↦
        (get_tx h >>= λ tx.
        let new : DdMap = record { tx_hash = h; amounts = dd_amounts_by_vout tx } in
        ok (new.amounts, record { maps = s.maps ++ new ∷ []; asked = s.asked ++ h ∷ [] }))
  ]

  -- The loop, with the outputs that it has still to see. It returns its calls of `getTx` too.
  unfoldable pub scan_loop : Memos → List Unspent → Outcome E (List DdUtxo × List (List ℕ))
  scan_loop s [] = ok ([], s.asked)
  scan_loop s (u ∷ us) = do
    (amounts, s') ← memo_amounts u.tx_hash s
    (rest, asked) ← scan_loop s' us
    ok (push_utxo u (cents_of u amounts) rest, asked)

  unfoldable pub scan_dd_utxos : List Unspent → Outcome E (List DdUtxo × List (List ℕ))
  scan_dd_utxos unspent =
      scan_loop (record { maps = []; asked = [] }) (filter (λ u. u.value_sats == 0) unspent)
