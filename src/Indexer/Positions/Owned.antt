-- ===== src/Indexer/Positions/Owned.antt =====
-- What is listed as a position.
use diginaut_wallet.Prelude.{ℕ, ◌≡◌, List, ◌∷◌, true, Option, none, some, Outcome, ok}
use diginaut_wallet.Envelope.Metadata.{MintMetadata}
use diginaut_wallet.TxBuild.{Curve, dd_token_output_key}
use diginaut_wallet.Indexer.Scan.{VerboseOut, Unspent}
use diginaut_wallet.Indexer.Positions.{
  NamedTx, HistoryEntry, Position, mint_metadata_of, has_unspent, position,
}

module _ {E : Type 0} (curve : Curve) (get_tx : List ℕ → Outcome E NamedTx)
    (list_unspent : List ℕ → Outcome E (List Unspent)) (program_hex : List ℕ) where
  -- A mint of the owner, with its first output, which the server lists as unspent.
  pub record IsOwned (p : Position) : Type 0 where
    pub entry : HistoryEntry
    pub tx : NamedTx
    pub meta : MintMetadata
    pub collateral : VerboseOut
    pub others : List VerboseOut
    pub unspent : List Unspent
    pub fetched : get_tx entry.tx_hash ≡ ok tx
    pub is_mint : mint_metadata_of tx.body ≡ some meta
    pub owned : dd_token_output_key curve meta.owner_key_hex ≡ ok program_hex
    pub first_out : tx.body.vout ≡ collateral ∷ others
    pub listed : list_unspent collateral.script_hex ≡ ok unspent
    pub there : has_unspent tx.txid unspent ≡ true
    pub facts : p ≡ position entry tx meta collateral

  abbrev IsFound : Option Position → Type 0
  IsFound none = Unit
  IsFound (some p) = IsOwned p
