-- ===== src/Indexer/Positions.antt =====
-- scanPositions of apps/indexer/server.js. What the server says of a transaction and of the unspent
-- outputs of a script comes from outside, and so does the curve.
pub mod Owned
pub mod Rounded
use diginaut_wallet.Prelude.{
  ℕ, ◌+◌, ◌*◌, ◌/◌, ◌^◌, List, [], ◌∷◌, Bool, true, false, ◌&&◌, ◌||◌, Option, none, some, Outcome,
  ok, throw, ◌>>=◌, ◌==◌, if◌then◌else◌, get_elem?, find,
}
use diginaut_wallet.Text.{same_text}
use diginaut_wallet.Envelope.Version.{TxType, mint, transfer, redeem, parse_dd_version}
use diginaut_wallet.Envelope.Metadata.{MintMetadata, parse_mint_metadata}
use diginaut_wallet.Envelope.ScriptNum.{to_number}
use diginaut_wallet.Collateral.{LockTier, lock_tiers}
use diginaut_wallet.TxBuild.{TxError, Curve, dd_token_output_key}
use diginaut_wallet.Indexer.Scan.{Double, VerboseOut, VerboseTx, Unspent, is_op_return, caught}

-- A verbose transaction with its id, and an entry of a history.
pub record NamedTx : Type 0 where
  pub txid : List ℕ
  pub body : VerboseTx

pub record HistoryEntry : Type 0 where
  pub tx_hash : List ℕ
  pub height : ℕ

-- The tier is none for a number that LOCK_TIERS does not have: its id is null then.
pub record Position : Type 0 where
  pub txid : List ℕ
  pub height : ℕ
  pub dd_cents : ℕ
  pub lock_tier : ℕ
  pub tier_entry : Option LockTier
  pub unlock_height : ℕ
  pub collateral_sats : ℕ

pub data ScanError (E : Type 0) : Type 0 where
  of_server : E → ScanError E
  of_curve : TxError → ScanError E
  no_collateral : ScanError E

-- The first two tests and the try block: the metadata of a well-formed mint.
unfoldable pub metadata_of_type : Option TxType → List VerboseOut → Option MintMetadata
metadata_of_type none vout = none
metadata_of_type (some transfer) vout = none
metadata_of_type (some redeem) vout = none
metadata_of_type (some mint) vout = elim (find is_op_return vout) [
  | none ↦ none
  | some o ↦ caught (parse_mint_metadata o.script_hex)
]

unfoldable pub mint_metadata_of : VerboseTx → Option MintMetadata
mint_metadata_of tx = metadata_of_type (parse_dd_version tx.version).tx_type tx.vout

-- `some((u) => u.tx_hash === tx.txid && u.tx_pos === 0)`
unfoldable pub has_unspent : List ℕ → List Unspent → Bool
has_unspent txid [] = false
has_unspent txid (u ∷ us) = same_text u.tx_hash txid && u.tx_pos == 0 || has_unspent txid us

unfoldable pub from_server : {E A : Type 0} → Outcome E A → Outcome (ScanError E) A
from_server (ok a) = ok a
from_server (throw e) = throw (of_server e)

unfoldable pub from_curve : {E A : Type 0} → Outcome TxError A → Outcome (ScanError E) A
from_curve (ok a) = ok a
from_curve (throw e) = throw (of_curve e)

-- `Math.round(value * 1e8)`: the product as the nearest double, and then the nearest whole number, or
-- the one above. Where a value of 53 bits is rounded does not depend on how often it is halved.
unfoldable pub sats_of : Double → ℕ
unfolding to_number
sats_of value =
    (2 * to_number (value.mantissa * 10 ^ 8) + 2 ^ value.halvings) / 2 ^ (value.halvings + 1)

unfoldable pub position : HistoryEntry → NamedTx → MintMetadata → VerboseOut → Position
unfolding lock_tiers sats_of
position h tx meta collateral = record {
  txid = tx.txid;
  height = h.height;
  dd_cents = meta.dd_cents;
  lock_tier = meta.lock_tier;
  tier_entry = get_elem? lock_tiers meta.lock_tier;
  unlock_height = meta.unlock_height;
  collateral_sats = sats_of collateral.value;
}

-- `positions.push`, where the body does not continue with the next entry.
unfoldable pub push_position : Option Position → List Position → List Position
push_position none ps = ps
push_position (some p) ps = p ∷ ps

module _ {E : Type 0} (curve : Curve) (get_tx : List ℕ → Outcome E NamedTx)
    (list_unspent : List ℕ → Outcome E (List Unspent)) (program_hex : List ℕ) where
  -- The question for the collateral, which is the first output.
  unfoldable pub if_unspent :
      HistoryEntry
      → NamedTx
      → MintMetadata
      → List VerboseOut
      → Outcome (ScanError E) (Option Position)
  if_unspent h tx meta [] = throw no_collateral
  if_unspent h tx meta (collateral ∷ rest) = do
    unspent ← from_server (list_unspent collateral.script_hex)
    ok (if has_unspent tx.txid unspent then some (position h tx meta collateral) else none)

  unfoldable pub if_owned :
      HistoryEntry → NamedTx → Option MintMetadata → Outcome (ScanError E) (Option Position)
  if_owned h tx none = ok none
  if_owned h tx (some meta) = do
    key ← from_curve (dd_token_output_key curve meta.owner_key_hex)
    elim (same_text key program_hex) [ true ↦ if_unspent h tx meta tx.body.vout | false ↦ ok none ]

  -- The loop's body.
  unfoldable pub position_of : HistoryEntry → Outcome (ScanError E) (Option Position)
  position_of h = do tx ← from_server (get_tx h.tx_hash); if_owned h tx (mint_metadata_of tx.body)

  unfoldable pub scan_positions : List HistoryEntry → Outcome (ScanError E) (List Position)
  scan_positions [] = ok []
  scan_positions (h ∷ hs) = do
    found ← position_of h
    rest ← scan_positions hs
    ok (push_position found rest)
