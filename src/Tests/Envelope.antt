-- ===== src/Tests/Envelope.antt =====
-- Runs of envelope.js, and its theorems at concrete inputs.
use diginaut_wallet.Prelude.{
  ℕ, ◌+◌, ◌^◌, ◌≡◌, ◌≢◌, refl, List, [], ◌∷◌, some, none, ok, throw, lt_wf,
}
use native.Mathlib.Decide.{dec_lt}
use diginaut_wallet.Hex.{hex_to_bytes, pairs, parse_pair, is_line_terminator}
use diginaut_wallet.Envelope.ScriptNum.{le_minimal, le_bytes, to_number, ulp}
use diginaut_wallet.Envelope.Version.{build_dd_version, unknown_tx_type}
use diginaut_wallet.Envelope.Pushes.{read_pushes, stuck, unsupported_push}
use diginaut_wallet.Envelope.Pushes.Laws.{read_pushes-ne-stuck}
use diginaut_wallet.Envelope.Metadata.{parse_redeem_metadata}
use diginaut_wallet.Envelope.ScriptNum.{le_to_big_int}

-- 0x1234 has no sign byte and 0x80 has one.
le_minimal_runs : (le_minimal 0x1234 ≡ 0x34 ∷ 0x12 ∷ []) × (le_minimal 0x80 ≡ 0x80 ∷ 0 ∷ [])
unfolding le_minimal le_bytes lt_wf dec_lt
le_minimal_runs = (refl, refl)

-- A tie goes to the even neighbour.
to_number_runs : (to_number (2 ^ 53 + 1) ≡ 2 ^ 53) × (to_number (2 ^ 53 + 3) ≡ 2 ^ 53 + 4)
unfolding to_number ulp
to_number_runs = (refl, refl)

-- `parseInt` stops at the first character that is no digit, and a line end splits the pairs.
hex_to_bytes_runs :
    (hex_to_bytes (b'f' ∷ b'F' ∷ b'1' ∷ b'g' ∷ []) ≡ some (0xff ∷ 1 ∷ []))
    × (hex_to_bytes (b'0' ∷ 10 ∷ b'1' ∷ b'2' ∷ []) ≡ some (0x12 ∷ []))
    × (hex_to_bytes (b'0' ∷ []) ≡ none)
unfolding hex_to_bytes pairs parse_pair is_line_terminator
hex_to_bytes_runs = (refl, refl, refl)

version_runs :
    (build_dd_version "transfer" ≡ ok 0x2000770) × (build_dd_version "burn" ≡ throw unknown_tx_type)
unfolding build_dd_version
version_runs = (refl, refl)

pushes_run : read_pushes (0x6a ∷ 1 ∷ 9 ∷ 0 ∷ 3 ∷ 7 ∷ []) ≡ ok ((9 ∷ []) ∷ [] ∷ (7 ∷ []) ∷ [])
unfolding read_pushes
pushes_run = refl

long_push_run : read_pushes (0x6a ∷ 76 ∷ []) ≡ throw (unsupported_push 76 1)
unfolding read_pushes
long_push_run = refl

read_pushes-ne-stuck_example : read_pushes (0x6a ∷ 3 ∷ 7 ∷ []) ≢ throw stuck
read_pushes-ne-stuck_example = read_pushes-ne-stuck (0x6a ∷ 3 ∷ 7 ∷ [])

-- The hexadecimal text 6a024444010301320 with its change of 50 cents.
abbrev redeem_script : List ℕ
redeem_script =
    b'6' ∷ b'a' ∷ b'0' ∷ b'2' ∷ b'4' ∷ b'4' ∷ b'4' ∷ b'4' ∷ b'0' ∷ b'1' ∷ b'0' ∷ b'3' ∷ b'0' ∷ b'1'
    ∷ b'3' ∷ b'2' ∷ []

redeem_script_run : parse_redeem_metadata redeem_script ≡ ok 50
unfolding parse_redeem_metadata hex_to_bytes pairs parse_pair is_line_terminator read_pushes
    le_to_big_int
redeem_script_run = refl
