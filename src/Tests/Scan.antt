-- ===== src/Tests/Scan.antt =====
-- The indexer's reading of the transfer that Tests.TxBuild builds, and a scan of two outputs of it.
use diginaut_wallet.Prelude.{
  ℕ, ◌≡◌, refl, inl, inr, List, [], ◌∷◌, some, Outcome, ok, ◌==◌, ◌*◌, ◌/◌, ◌^◌, ◌>>=◌, ◌↔◌, In,
  map, filter, All, arith,
}
use diginaut_wallet.Hex.{bytes_to_hex, hex_digit}
use diginaut_wallet.Address.DigiDollar.{starts_with}
use diginaut_wallet.Envelope.Version.{build_dd_version, type_of_name, dd_version, code_of}
use diginaut_wallet.Tests.TxBuild.{plain_curve, payee, outs, transfer_run}
use diginaut_wallet.Indexer.Scan.{Double, VerboseTx, Unspent, dd_amounts_by_vout, scan_dd_utxos}
use diginaut_wallet.Indexer.Scan.Firsts.{IsOnce}
use diginaut_wallet.Indexer.Scan.Memo.{scan_each, scan_dd_utxos-each}
use diginaut_wallet.Indexer.Scan.Transfer.{IsSpendable, shown, dd_amounts_by_vout-transfer}

version_run : build_dd_version "transfer" ≡ ok 0x02000770
unfolding build_dd_version type_of_name dd_version code_of
version_run = refl

outs-IsSpendable : All IsSpendable outs
unfolding starts_with bytes_to_hex hex_digit
outs-IsSpendable = (inl refl, (inr refl, (inl refl, tt)))

-- Satoshis as DGB, cut off at 30 bits behind the point.
abbrev in_dgb : ℕ → Double
in_dgb v = record { mantissa = v * 2 ^ 30 / 10 ^ 8; halvings = 30 }

zero_in_dgb : (v : ℕ) → ((in_dgb v).mantissa == 0) ≡ (v == 0)
zero_in_dgb v = ground arith

abbrev transfer_tx : VerboseTx
transfer_tx = record { version = 0x02000770; vout = shown in_dgb 0 outs }

dd_amounts_by_vout-transfer_example : dd_amounts_by_vout transfer_tx ≡ some ((0, 500) ∷ [])
dd_amounts_by_vout-transfer_example =
    dd_amounts_by_vout-transfer in_dgb zero_in_dgb plain_curve 500 50_000_000 12_000_000
      (payee ∷ []) [] (b'1' ∷ b'7' ∷ []) outs 0 38_000_000 0x02000770 (omega arith) transfer_run
      version_run outs-IsSpendable

abbrev always : List ℕ → Outcome ℕ VerboseTx
always h = ok transfer_tx

-- The token output, and the metadata's, which has no amount.
abbrev two_unspent : List Unspent
two_unspent =
    record { tx_hash = b'a' ∷ []; tx_pos = 0; value_sats = 0; height = 7 }
    ∷ record { tx_hash = b'a' ∷ []; tx_pos = 2; value_sats = 0; height = 7 }
    ∷ []

abbrev zero_unspent : List Unspent
zero_unspent = filter (λ (u : Unspent). u.value_sats == 0) two_unspent

scan_dd_utxos-each_example :
    (asked : List (List ℕ)) × (scan_dd_utxos always two_unspent
      ≡ (scan_each always zero_unspent >>= λ out. ok (out, asked)))
    × IsOnce asked
    × ((h : List ℕ) → In h asked ↔ In h (map (λ (u : Unspent). u.tx_hash) zero_unspent))
scan_dd_utxos-each_example = scan_dd_utxos-each always two_unspent
