-- ===== src/TxBuild/Sighash/Keys.antt =====
-- The texts of 64 hexadecimal digits in txbuild.js: of a number, and of bytes.
use mathlib.Core.List.{reverse}
use diginaut_wallet.Prelude.{
  ℕ, zero, suc, ◌+◌, ◌-◌, ◌/◌, ◌%◌, ◌≤◌, ◌<◌, ◌≡◌, refl, ap, List, [], ◌∷◌, ◌++◌, All, All-append,
  length, length-append, some, Returns, true, false, ◌==◌, Bool-cases, inl, inr, arith,
}
use diginaut_wallet.Hex.{
  IsByte, bytes_to_hex, hex_to_bytes, pairs, is_line_terminator, hex_digit, parse_pair,
}
use diginaut_wallet.Address.Base58.{copies}
use diginaut_wallet.Address.Base58.Radix.{All-reverse_aux}
use diginaut_wallet.Envelope.Metadata.{bytes_of}
use diginaut_wallet.Envelope.ScriptNum.{le_minimal}
use diginaut_wallet.Envelope.ScriptNum.Laws.{le_minimal-IsByte}
use diginaut_wallet.TxBuild.{from_envelope, is_lower_hex, all_hex}
use diginaut_wallet.TxBuild.Sighash.{without_zeros, hex_64}

-- A line of text: no character ends it.
abbrev IsLine : List ℕ → Type 0
IsLine text = All (λ c. is_line_terminator c ≡ false) text

bytes_of-Returns :
    (a b : ℕ) (text : List ℕ)
    → IsLine (a ∷ b ∷ text)
    → Returns (from_envelope (bytes_of (a ∷ b ∷ text)))
unfolding bytes_of hex_to_bytes pairs
bytes_of-Returns a b text (a_in, (b_in, _)) =
    let bytes : List ℕ = parse_pair a b ∷ pairs text in
    let is_pairs : pairs (a ∷ b ∷ text) ≡ bytes = rw (a_in, b_in) refl in
    let is_bytes : hex_to_bytes (a ∷ b ∷ text) ≡ some bytes = rw (is_pairs, hex_to_bytes) refl in
    (bytes, rw (is_bytes, bytes_of) refl)

hex_digit-is_lower : (d : ℕ) → d < 16 → is_lower_hex (hex_digit d) ≡ true
unfolding is_lower_hex hex_digit
hex_digit-is_lower d h = ground arith

pub all_hex-bytes_to_hex : (bytes : List ℕ) → All IsByte bytes → all_hex (bytes_to_hex bytes) ≡ true
unfolding all_hex bytes_to_hex
all_hex-bytes_to_hex [] h = refl
all_hex-bytes_to_hex (b ∷ bytes) (here, later) =
    rw
      (
        hex_digit-is_lower (b / 16) (omega (arith, here)),
        hex_digit-is_lower (b % 16) (omega arith),
        all_hex-bytes_to_hex bytes later,
      )
      refl

is_lower-in_line : (c : ℕ) → is_lower_hex c ≡ true → is_line_terminator c ≡ false
unfolding is_lower_hex is_line_terminator
is_lower-in_line c h = ground arith

all_hex-IsLine : (text : List ℕ) → all_hex text ≡ true → IsLine text
unfolding all_hex
all_hex-IsLine [] h = tt
all_hex-IsLine (c ∷ text) h =
    let here : is_lower_hex c ≡ true = ground (arith, h) in
    let later : all_hex text ≡ true = ground (arith, h) in
    (is_lower-in_line c here, all_hex-IsLine text later)

without_zeros-IsLine : (text : List ℕ) → IsLine text → IsLine (without_zeros text)
unfolding without_zeros
without_zeros-IsLine [] h = tt
without_zeros-IsLine (c ∷ text) (here, later) = elim (Bool-cases (c == b'0')) [
  | inl zero_ ↦ rw zero_ (without_zeros-IsLine text later)
  | inr other ↦ rw other (here, later)
]

copies-IsLine : (n : ℕ) → IsLine (copies n b'0')
unfolding copies is_line_terminator
copies-IsLine zero = tt
copies-IsLine (suc n) = (refl, copies-IsLine n)

length-copies : (n c : ℕ) → length (copies n c) ≡ n
unfolding copies
length-copies zero c = refl
length-copies (suc n) c = ap suc (length-copies n c)

at_least : (n k l : ℕ) → l ≡ k + n → k ≡ 64 - n → 64 ≤ l
at_least n k l h e = omega arith

-- The digits of a number are read as bytes.
pub hex_64-Returns : (n : ℕ) → Returns (from_envelope (bytes_of (hex_64 n)))
unfolding hex_64
hex_64-Returns n =
    let digits = without_zeros (bytes_to_hex (reverse (le_minimal n))) in
    let text : List ℕ = copies (64 - length digits) b'0' ++ digits in
    let in_line : IsLine text =
      All-append _ (copies (64 - length digits) b'0') digits (copies-IsLine (64 - length digits)) (
        without_zeros-IsLine _ (
          all_hex-IsLine _ (
            all_hex-bytes_to_hex (reverse (le_minimal n))
              (All-reverse_aux IsByte (le_minimal n) [] (le_minimal-IsByte n) tt)))) in
    let long : 64 ≤ length text =
      at_least (length digits) _ _ (length-append (copies (64 - length digits) b'0') digits)
        (length-copies (64 - length digits) b'0') in
    long_line text long in_line
  where
    long_line :
        (text : List ℕ) → 64 ≤ length text → IsLine text → Returns (from_envelope (bytes_of text))
    long_line [] h l = absurd (omega arith)
    long_line (a ∷ []) h l = absurd (omega arith)
    long_line (a ∷ b ∷ text) h l = bytes_of-Returns a b text l
