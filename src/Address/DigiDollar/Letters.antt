-- ===== src/Address/DigiDollar/Letters.antt =====
-- The letters of a DigiDollar address in base58check: the two of its network, and no white space.
use diginaut_wallet.Prelude.{
  ℕ, ◌/◌, ◌%◌, ◌<◌, ◌≡◌, refl, sym, subst, ◌∙◌, List, [], ◌∷◌, ◌++◌, map, arith, ok, ◌==◌,
  if◌then◌else◌, false, true, All, length, holds_below, holds_below-at, Bool,
}
use diginaut_wallet.Hex.{IsByte, bytes_to_hex, hex_digit, digit_value, is_space}
use diginaut_wallet.Text.{lower_letter, same_text}
use diginaut_wallet.Address.Base58.{base58_encode, b58_spelled}
use diginaut_wallet.Address.Base58.Alphabet.{spelled-solid}
use diginaut_wallet.Address.Base58.Prefix.{encode-letters}
use diginaut_wallet.Address.Payment.RoundTrip.{IsAscii}
use diginaut_wallet.Address.DigiDollar.{
  Network, mainnet, testnet, regtest, network_name, version_high, version_low, network_hrp,
  is_any_hex, all_any_hex, starts_with, known_network,
}

-- A digit that is written is a digit of either case, and small.
digit_fine : ℕ → Bool
digit_fine d = if is_any_hex (hex_digit d) then lower_letter (hex_digit d) == hex_digit d else false

digits_fine : holds_below digit_fine 16 ≡ true
unfolding holds_below digit_fine is_any_hex hex_digit lower_letter digit_value
digits_fine = refl

digit_from :
    (d : ℕ)
    → digit_fine d ≡ true
    → (is_any_hex (hex_digit d) ≡ true) × (lower_letter (hex_digit d) ≡ hex_digit d)
unfolding digit_fine
digit_from d h = (ground (arith, h), ground (arith, h))

digit_lem :
    (d : ℕ)
    → d < 16
    → (is_any_hex (hex_digit d) ≡ true) × (lower_letter (hex_digit d) ≡ hex_digit d)
digit_lem d p = digit_from d (holds_below-at digit_fine 16 d p digits_fine)

pub bytes_to_hex-fine :
    (bytes : List ℕ)
    → All IsByte bytes
    → (all_any_hex (bytes_to_hex bytes) ≡ true)
      × (map lower_letter (bytes_to_hex bytes) ≡ bytes_to_hex bytes)
unfolding all_any_hex bytes_to_hex
bytes_to_hex-fine [] h = (refl, refl)
bytes_to_hex-fine (b ∷ bytes) h =
    let (high, high') = digit_lem (b / 16) (omega (arith, h.0)) in
    let (low, low') = digit_lem (b % 16) (omega arith) in
    let (rest, rest') = bytes_to_hex-fine bytes h.1 in (ground (arith, high, low, rest), cc)

pub known_network-name : (n : Network) → known_network (network_name n) ≡ ok n
unfolding known_network same_text
known_network-name mainnet = refl
known_network-name testnet = refl
known_network-name regtest = refl

-- The digits of the two letters in the alphabet of base 58.
first_digit : Network → ℕ
first_digit mainnet = 12
first_digit testnet = 26
first_digit regtest = 24

first_digit-lt : (n : Network) → first_digit n < 58
unfolding first_digit
first_digit-lt mainnet = omega arith
first_digit-lt testnet = omega arith
first_digit-lt regtest = omega arith

-- "DD", "TD" and "RD".
abbrev pub prefix : Network → List ℕ
prefix mainnet = b'D' ∷ b'D' ∷ []
prefix testnet = b'T' ∷ b'D' ∷ []
prefix regtest = b'R' ∷ b'D' ∷ []

prefix_spelled :
    (n : Network) (later : List ℕ)
    → b58_spelled (first_digit n ∷ 12 ∷ later) ≡ prefix n ++ b58_spelled later
unfolding first_digit b58_spelled
prefix_spelled mainnet later = refl
prefix_spelled testnet later = refl
prefix_spelled regtest later = refl

-- Where the number lies fixes the two letters.
text_letters :
    (n : Network) (rest : List ℕ)
    → length rest ≡ 36
    → All IsByte rest
    → (later : List ℕ) × (base58_encode (version_high n ∷ version_low n ∷ rest)
        ≡ b58_spelled (first_digit n ∷ 12 ∷ later))
      × All (λ d. d < 58) later
unfolding first_digit
text_letters mainnet rest size bytes =
    encode-letters 0x52 0x85 rest (omega arith) size (omega arith, (omega arith, bytes))
      (omega arith) (omega arith) 12 12 (omega arith) (omega arith) (omega arith)
text_letters testnet rest size bytes =
    encode-letters 0xb1 0x29 rest (omega arith) size (omega arith, (omega arith, bytes))
      (omega arith) (omega arith) 26 12 (omega arith) (omega arith) (omega arith)
text_letters regtest rest size bytes =
    encode-letters 0xa3 0xa4 rest (omega arith) size (omega arith, (omega arith, bytes))
      (omega arith) (omega arith) 24 12 (omega arith) (omega arith) (omega arith)

-- The text is the prefix and letters of the alphabet, so it is no text in bech32m.
pub record IsText (n : Network) (text : List ℕ) : Type 0 where
  pub letters : List ℕ
  pub prefixed : text ≡ prefix n ++ letters
  pub solid : All (λ c. is_space c ≡ false) text
  pub ascii : All IsAscii text

pub base58_encode-IsText :
    (n : Network) (rest : List ℕ)
    → length rest ≡ 36
    → All IsByte rest
    → IsText n (base58_encode (version_high n ∷ version_low n ∷ rest))
base58_encode-IsText n rest size bytes =
    let (later, e, fits) = text_letters n rest size bytes in
    let (solid, ascii) =
      spelled-solid (first_digit n ∷ 12 ∷ later) (first_digit-lt n, (omega arith, fits)) in
    record {
      letters = b58_spelled later;
      prefixed = e ∙ prefix_spelled n later;
      solid = subst (All (λ c. is_space c ≡ false)) (sym e) solid;
      ascii = subst (All IsAscii) (sym e) ascii;
    }

pub no_hrp :
    (n m : Network) (rest : List ℕ)
    → starts_with (map lower_letter (prefix n ++ rest)) (network_hrp m ++ b'1' ∷ []) ≡ false
unfolding starts_with lower_letter
no_hrp mainnet mainnet rest = refl
no_hrp mainnet testnet rest = refl
no_hrp mainnet regtest rest = refl
no_hrp testnet mainnet rest = refl
no_hrp testnet testnet rest = refl
no_hrp testnet regtest rest = refl
no_hrp regtest mainnet rest = refl
no_hrp regtest testnet rest = refl
no_hrp regtest regtest rest = refl
