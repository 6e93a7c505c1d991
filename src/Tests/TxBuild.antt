-- ===== src/Tests/TxBuild.antt =====
-- Runs of the transaction builders, and what the other tests share.
use diginaut_wallet.Prelude.{ℕ, zero, suc, ◌≡◌, refl, List, [], ◌∷◌, some, ok, lt_wf}
use diginaut_wallet.Collateral.{Quote}
use diginaut_wallet.TxBuild.{
  Output, Recipient, Curve, build_transfer_outputs, recipient_outputs, p2tr_script,
  dd_change_output, check_minimum, change_output,
}
use diginaut_wallet.Envelope.Metadata.{bytes_of, build_transfer_metadata}
use diginaut_wallet.Hex.{
  hex_to_bytes, bytes_to_hex, pairs, is_line_terminator, hex_digit, parse_pair,
}
use diginaut_wallet.Envelope.ScriptNum.{le_minimal, le_bytes}
use diginaut_wallet.TxBuild.Amounts.{transfer_amounts}
use diginaut_wallet.TxBuild.Transfer.{transfer_body}

unfoldable pub zeros : ℕ → List ℕ
zeros zero = []
zeros (suc n) = 0 ∷ zeros n

unfoldable pub hex_zeros : ℕ → List ℕ
hex_zeros zero = []
hex_zeros (suc n) = b'0' ∷ hex_zeros n

-- A curve without a tweak.
abbrev pub plain_curve : Curve
plain_curve = record { tap_tweak_hash = λ bytes. bytes; order = 2; tweak_add = λ hex t. some hex }

abbrev pub payee : Recipient
payee = record { output_key_hex = b'a' ∷ b'a' ∷ []; cents = 500 }

abbrev pub outs : List Output
outs =
    record { value_sats = 0; script = 0x51 ∷ 0x20 ∷ 0xaa ∷ [] }
    ∷ record { value_sats = 38_000_000; script = 0x17 ∷ [] }
    ∷ record { value_sats = 0; script = 0x6a ∷ 2 ∷ 0x44 ∷ 0x44 ∷ 1 ∷ 2 ∷ 2 ∷ 0xf4 ∷ 0x01 ∷ [] }
    ∷ []

pub transfer_run :
    transfer_body plain_curve 500 50_000_000 12_000_000 (payee ∷ []) [] (b'1' ∷ b'7' ∷ [])
    ≡ ok (outs, 0, 38_000_000)
unfolding transfer_body transfer_amounts build_transfer_outputs recipient_outputs p2tr_script
    dd_change_output check_minimum change_output bytes_of build_transfer_metadata hex_to_bytes
    bytes_to_hex le_minimal pairs is_line_terminator hex_digit parse_pair le_bytes lt_wf
transfer_run = refl

abbrev pub owner : List ℕ
owner = hex_zeros 64

abbrev pub quote : Quote
quote = record {
  dd_cents = 5000;
  tier_id = "6months";
  oracle_price_micro_usd = 20_000;
  dca_multiplier_bps = 10_000;
}
