-- ===== src/Hex/RoundTrip.antt =====
-- `hexToBytes` reads back what `bytesToHex` wrote.
use diginaut_wallet.Prelude.{
  ℕ, ◌*◌, ◌/◌, ◌%◌, ◌<◌, ◌≡◌, refl, ◌≢◌, true, false, List, [], ◌∷◌, some, All, arith, ◌==◌, ==_iff,
  holds_below, holds_below-at, length,
}
use diginaut_wallet.Hex.{
  IsByte, is_line_terminator, parse_pair, pairs, hex_to_bytes, hex_digit, bytes_to_hex,
}

hex_digit-not_terminator : (d : ℕ) → d < 16 → is_line_terminator (hex_digit d) ≡ false
unfolding is_line_terminator hex_digit
hex_digit-not_terminator d h = ground arith

pair_table : holds_below (λ b. parse_pair (hex_digit (b / 16)) (hex_digit (b % 16)) == b) 256 ≡ true
unfolding parse_pair hex_digit holds_below
pair_table = refl

parse_pair-hex_digit : (b : ℕ) → b < 256 → parse_pair (hex_digit (b / 16)) (hex_digit (b % 16)) ≡ b
parse_pair-hex_digit b h =
    (==_iff (parse_pair (hex_digit (b / 16)) (hex_digit (b % 16))) b).0
      (holds_below-at _ 256 b h pair_table)

pub pairs-bytes_to_hex : (bs : List ℕ) → All IsByte bs → pairs (bytes_to_hex bs) ≡ bs
unfolding pairs bytes_to_hex
pairs-bytes_to_hex [] h = refl
pairs-bytes_to_hex (b ∷ bs) (hb, hbs) = rw (
  hex_digit-not_terminator (b / 16) (omega arith),
  hex_digit-not_terminator (b % 16) (omega arith),
  parse_pair-hex_digit b hb,
  pairs-bytes_to_hex bs hbs,
)

-- A non-empty byte array survives the round trip through hexadecimal text.
pub hex_to_bytes-bytes_to_hex :
    (bs : List ℕ) → All IsByte bs → bs ≢ [] → hex_to_bytes (bytes_to_hex bs) ≡ some bs
unfolding hex_to_bytes
hex_to_bytes-bytes_to_hex [] h ne = absurd (ne refl)
hex_to_bytes-bytes_to_hex (b ∷ bs) h ne = rw (pairs-bytes_to_hex (b ∷ bs) h, hex_to_bytes)

-- Two characters for each byte.
pub length-bytes_to_hex : (bs : List ℕ) → length (bytes_to_hex bs) ≡ 2 * length bs
unfolding bytes_to_hex
length-bytes_to_hex [] = refl
length-bytes_to_hex (b ∷ bs) = omega (arith, length-bytes_to_hex bs)
