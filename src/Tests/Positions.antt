-- ===== src/Tests/Positions.antt =====
-- A scan of a history with one mint, on a curve without a tweak.
use diginaut_wallet.Prelude.{ℕ, ◌≡◌, refl, List, [], ◌∷◌, none, some, Outcome, ok, arith}
use diginaut_wallet.Hex.{
  hex_to_bytes, bytes_to_hex, hex_digit, pairs, parse_pair, is_line_terminator,
}
use diginaut_wallet.Envelope.Version.{parse_dd_version, type_of_code}
use diginaut_wallet.Envelope.Pushes.{read_pushes}
use diginaut_wallet.Envelope.ScriptNum.{le_to_big_int, to_number}
use diginaut_wallet.Envelope.Metadata.{MintMetadata, parse_mint_metadata, bytes_of}
use diginaut_wallet.Address.DigiDollar.{starts_with}
use diginaut_wallet.Tests.TxBuild.{owner, zeros, hex_zeros}
use diginaut_wallet.Indexer.Scan.{Double, VerboseOut, Unspent, is_op_return, caught}
use diginaut_wallet.Indexer.Positions.{
  NamedTx, HistoryEntry, Position, mint_metadata_of, metadata_of_type, sats_of,
}
use diginaut_wallet.Indexer.Positions.Rounded.{sats_of-IsNearest}

abbrev entry : HistoryEntry
entry = record { tx_hash = b'a' ∷ []; height = 7 }

-- The double nearest to 0.000009.
abbrev nine_millionths : Double
nine_millionths = record { mantissa = 5312662293228351; halvings = 69 }

abbrev collateral : VerboseOut
collateral = record { n = 0; value = nine_millionths; script_hex = b'5' ∷ b'1' ∷ [] }

abbrev metadata : VerboseOut
metadata = record {
  n = 1;
  value = record { mantissa = 0; halvings = 0 };
  script_hex =
      bytes_to_hex (0x6a ∷ 2 ∷ 0x44 ∷ 0x44 ∷ 1 ∷ 1 ∷ 1 ∷ 50 ∷ 1 ∷ 5 ∷ 1 ∷ 99 ∷ 32 ∷ zeros 32);
}

abbrev mint_tx : NamedTx
mint_tx = record {
  txid = b'a' ∷ [];
  body = record { version = 0x01000770; vout = collateral ∷ metadata ∷ [] };
}

abbrev meta : MintMetadata
meta = record { dd_cents = 50; unlock_height = 5; lock_tier = 99; owner_key_hex = owner }

abbrev one_tx : List ℕ → Outcome ℕ NamedTx
one_tx h = ok mint_tx

abbrev one_unspent : List ℕ → Outcome ℕ (List Unspent)
one_unspent h = ok (record { tx_hash = b'a' ∷ []; tx_pos = 0; value_sats = 900; height = 7 } ∷ [])

abbrev listed : Position
listed = record {
  txid = b'a' ∷ [];
  height = 7;
  dd_cents = 50;
  lock_tier = 99;
  tier_entry = none;
  unlock_height = 5;
  collateral_sats = 900;
}

meta_run : mint_metadata_of mint_tx.body ≡ some meta
unfolding mint_metadata_of metadata_of_type parse_dd_version type_of_code is_op_return starts_with
    caught parse_mint_metadata bytes_of hex_to_bytes bytes_to_hex hex_digit pairs parse_pair
    is_line_terminator read_pushes le_to_big_int to_number zeros hex_zeros
meta_run = refl

sats_of-IsNearest_example : sats_of nine_millionths ≡ 900
sats_of-IsNearest_example =
    sats_of-IsNearest 900 nine_millionths (omega arith) (omega arith, omega arith)
