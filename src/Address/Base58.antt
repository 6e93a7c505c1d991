-- ===== src/Address/Base58.antt =====
-- address.js: base58Encode, base58Decode and their checked forms. SHA-256 of a byte array is a
-- parameter. The digits of a number stand with the least significant first, as in the source.
pub mod Digits
pub mod Radix
pub mod Alphabet
pub mod RoundTrip
pub mod Prefix
use mathlib.Core.List.{reverse}
use diginaut_wallet.Prelude.{
  ℕ, zero, suc, ◌+◌, ◌-◌, ◌*◌, ◌/◌, ◌%◌, List, [], ◌∷◌, ◌++◌, Bool, ◌==◌, Option, none, some,
  Outcome, ok, throw, ◌>>=◌, ◌>>◌, throw_if, not, ltb, if◌then◌else◌, length, get_elem?, take, drop,
}
use diginaut_wallet.Address.{AddressError}
use diginaut_wallet.Address.Charset.{index_of}
use diginaut_wallet.Text.{same_text}

-- B58_ALPHABET
abbrev pub b58_alphabet : List ℕ
b58_alphabet =
    b'1' ∷ b'2' ∷ b'3' ∷ b'4' ∷ b'5' ∷ b'6' ∷ b'7' ∷ b'8' ∷ b'9' ∷ b'A' ∷ b'B' ∷ b'C' ∷ b'D' ∷ b'E'
    ∷ b'F' ∷ b'G' ∷ b'H' ∷ b'J' ∷ b'K' ∷ b'L' ∷ b'M' ∷ b'N' ∷ b'P' ∷ b'Q' ∷ b'R' ∷ b'S' ∷ b'T'
    ∷ b'U' ∷ b'V' ∷ b'W' ∷ b'X' ∷ b'Y' ∷ b'Z' ∷ b'a' ∷ b'b' ∷ b'c' ∷ b'd' ∷ b'e' ∷ b'f' ∷ b'g'
    ∷ b'h' ∷ b'i' ∷ b'j' ∷ b'k' ∷ b'm' ∷ b'n' ∷ b'o' ∷ b'p' ∷ b'q' ∷ b'r' ∷ b's' ∷ b't' ∷ b'u'
    ∷ b'v' ∷ b'w' ∷ b'x' ∷ b'y' ∷ b'z' ∷ []

-- `while (carry > 0) { digits.push(carry % base); carry = carry / base; }`: the carry falls in each
-- round, so that it is itself enough fuel.
unfoldable pub push_carry : ℕ → ℕ → ℕ → List ℕ
push_carry zero base carry = []
push_carry (suc fuel) base carry =
    let rest = push_carry fuel base (carry / base) in if carry == 0 then [] else carry % base ∷ rest

-- One round of the outer loop: the digits times `factor`, plus `carry`.
unfoldable pub times_plus : ℕ → ℕ → ℕ → List ℕ → List ℕ
unfolding push_carry
times_plus base factor carry [] = push_carry carry base carry
times_plus base factor carry (d ∷ ds) =
    (carry + d * factor) % base ∷ times_plus base factor ((carry + d * factor) / base) ds

unfoldable pub times_plus_all : ℕ → ℕ → List ℕ → List ℕ → List ℕ
unfolding times_plus
times_plus_all base factor digits [] = digits
times_plus_all base factor digits (c ∷ cs) =
    times_plus_all base factor (times_plus base factor c digits) cs

-- `while (zeros < bytes.length && bytes[zeros] === 0) zeros++`, and the same loop over `1`s.
unfoldable pub leading : ℕ → List ℕ → ℕ
leading c [] = 0
leading c (x ∷ xs) = let more = leading c xs in if x == c then suc more else 0

unfoldable pub copies : ℕ → ℕ → List ℕ
copies zero c = []
copies (suc n) c = c ∷ copies n c

abbrev undefined_text : List ℕ
undefined_text = b'u' ∷ b'n' ∷ b'd' ∷ b'e' ∷ b'f' ∷ b'i' ∷ b'n' ∷ b'e' ∷ b'd' ∷ []

-- `out += B58_ALPHABET[digits[i]]`
unfoldable pub b58_spelled : List ℕ → List ℕ
b58_spelled [] = []
b58_spelled (d ∷ ds) = elim (get_elem? b58_alphabet d) [
  | none ↦ undefined_text ++ b58_spelled ds
  | some c ↦ c ∷ b58_spelled ds
]

unfoldable pub base58_encode : List ℕ → List ℕ
unfolding leading copies times_plus_all b58_spelled
base58_encode bytes =
    let zeros = leading 0 bytes in
    copies zeros b'1' ++ b58_spelled (reverse (times_plus_all 58 256 (0 ∷ []) (drop zeros bytes)))

unfoldable pub b58_digits : List ℕ → Outcome AddressError (List ℕ)
unfolding index_of
b58_digits [] = ok []
b58_digits (c ∷ cs) = elim (index_of c 0 b58_alphabet) [
  | none ↦ throw AddressError.invalid_base58_character
  | some d ↦ b58_digits cs >>= λ ds. ok (d ∷ ds)
]

unfoldable pub base58_decode : List ℕ → Outcome AddressError (List ℕ)
unfolding b58_digits leading copies times_plus_all
base58_decode text = do
  digits ← b58_digits text
  ok (copies (leading b'1' text) 0 ++ reverse (times_plus_all 256 58 (0 ∷ []) digits))

module _ (sha256 : List ℕ → List ℕ) where
  -- `sha256d(payload).slice(0, 4)`
  unfoldable pub checksum_of : List ℕ → List ℕ
  checksum_of payload = take 4 (sha256 (sha256 payload))

  unfoldable pub base58_check_encode : List ℕ → List ℕ
  base58_check_encode payload = base58_encode (payload ++ checksum_of payload)

  -- `slice(0, -4)` and `slice(-4)` of at least four bytes.
  unfoldable pub base58_check_decode : List ℕ → Outcome AddressError (List ℕ)
  base58_check_decode text = do
    full ← base58_decode text
    throw_if (ltb (length full) 4) AddressError.too_short
    let payload = take (length full - 4) full
    throw_if (not (same_text (drop (length full - 4) full) (checksum_of payload)))
        AddressError.bad_base58_checksum
    ok payload
