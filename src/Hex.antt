-- ===== src/Hex.antt =====
-- The hexadecimal helpers that envelope.js, address.js and txbuild.js each declare:
--   hexToBytes = (hex) => Uint8Array.from(hex.match(/../g).map((b) => parseInt(b, 16)))
--   bytesToHex = (bytes) => [...bytes].map((b) => b.toString(16).padStart(2, '0')).join('')
-- A text is the list of its UTF-16 code units and a byte array is a list of numbers.
pub mod RoundTrip
pub mod Bytes
use diginaut_wallet.Prelude.{
  ℕ, ◌+◌, ◌-◌, ◌*◌, ◌/◌, ◌%◌, ◌<◌, Bool, ◌&&◌, ◌||◌, List, [], ◌∷◌, Option, none, some, ltb, leb,
  ◌==◌, if◌then◌else◌,
}

abbrev pub IsByte : ℕ → Type 0
IsByte b = b < 256

-- The value of a hexadecimal digit of either case.
unfoldable pub digit_value : ℕ → Option ℕ
digit_value c =
    if leb b'0' c && leb c b'9'
    then some (c - b'0')
    else if leb b'a' c && leb c b'f'
    then some (c - b'a' + 10)
    else if leb b'A' c && leb c b'F'
    then some (c - b'A' + 10)
    else none

-- What the dot of a regular expression does not match.
unfoldable pub is_line_terminator : ℕ → Bool
is_line_terminator c = c == 10 || c == 13 || c == 0x2028 || c == 0x2029

-- The white space that `parseInt` and `trim` skip.
unfoldable pub is_space : ℕ → Bool
unfolding is_line_terminator
is_space c =
    leb 9 c && leb c 13
    || is_line_terminator c
    || c == 32
    || c == 0xa0
    || c == 0x1680
    || leb 0x2000 c && leb c 0x200a
    || c == 0x202f
    || c == 0x205f
    || c == 0x3000
    || c == 0xfeff

unfoldable pub or_zero : Option ℕ → ℕ
or_zero none = 0
or_zero (some v) = v

unfoldable pub negated : ℕ → ℕ
negated v = (256 - v) % 256

unfoldable pub two_digits : ℕ → Option ℕ → ℕ
two_digits hi none = hi
two_digits hi (some lo) = hi * 16 + lo

-- `parseInt(b, 16)` of two code units, stored into a Uint8Array: NaN becomes 0 and a value is taken
-- modulo 256. White space and a sign may come first; a `0x` with no digit behind it is NaN.
unfoldable pub parse_pair : ℕ → ℕ → ℕ
unfolding or_zero negated two_digits digit_value is_space
parse_pair a b =
    if is_space a || a == b'+'
    then or_zero (digit_value b)
    else if a == b'-'
    then negated (or_zero (digit_value b))
    else if a == b'0' && (b == b'x' || b == b'X')
    then 0
    else elim (digit_value a) [ none ↦ 0 | some hi ↦ two_digits hi (digit_value b) ]

-- `hex.match(/../g)` from left to right, each match read by `parse_pair`.
unfoldable pub pairs : List ℕ → List ℕ
pairs [] = []
pairs (a ∷ []) = []
pairs (a ∷ b ∷ rest) =
    if is_line_terminator a
    then pairs (b ∷ rest)
    else let more = pairs rest in if is_line_terminator b then more else parse_pair a b ∷ more

-- With no match at all `match` is null, and `.map` of null throws a TypeError: `none`.
unfoldable pub hex_to_bytes : List ℕ → Option (List ℕ)
hex_to_bytes hex = elim (pairs hex) [ [] ↦ none | b ∷ bs ↦ some (b ∷ bs) ]

-- `toString(16)` of one digit.
unfoldable pub hex_digit : ℕ → ℕ
hex_digit d = if ltb d 10 then d + b'0' else d - 10 + b'a'

unfoldable pub bytes_to_hex : List ℕ → List ℕ
bytes_to_hex [] = []
bytes_to_hex (b ∷ bs) = hex_digit (b / 16) ∷ hex_digit (b % 16) ∷ bytes_to_hex bs
