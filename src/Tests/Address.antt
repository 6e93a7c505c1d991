-- ===== src/Tests/Address.antt =====
-- Runs of the address codecs, on the vectors of packages/digidollar-js/test/address.test.js and of
-- BIP-350, and their theorems at concrete inputs. SHA-256 is replaced by a constant hash.
use diginaut_wallet.Prelude.{
  ℕ, ◌≡◌, refl, List, [], ◌∷◌, ◌++◌, map, ok, arith, inr, inl, All, length,
}
use diginaut_wallet.Hex.{
  IsByte, bytes_to_hex, hex_digit, hex_to_bytes, pairs, parse_pair, is_line_terminator,
}
use diginaut_wallet.Text.{lower_letter, same_text}
use diginaut_wallet.Address.{bytes_of_hex}
use diginaut_wallet.Address.Checksum.{polymod, hrp_expand, checksum_digits, polymod_step}
use diginaut_wallet.Address.Regroup.{convert_bits}
use diginaut_wallet.Address.Charset.{spelled, charset_digits}
use diginaut_wallet.Address.Witness.{
  encode_witness_address, decode_witness_address, bad_length, separator, digits_of, first_of, inner,
  bad_v0, witness_script_hex,
}
use diginaut_wallet.Address.Witness.RoundTrip.{IsProgram, decode_witness_address-encode}
use diginaut_wallet.Address.Base58.{base58_encode, base58_decode}
use diginaut_wallet.Address.Base58.RoundTrip.{IsHash}
use diginaut_wallet.Address.Payment.{
  Descriptor, decode_address, script_pub_key_from_address, networks_of_hrp, inherited, witness,
  p2tr, describe_witness, witness_type,
}
use diginaut_wallet.Address.Payment.Scripts.{opcode, IsPayable, decode_address-IsPayable}
use diginaut_wallet.Address.Payment.RoundTrip.{
  LowersAscii, keeps_small, script_pub_key_from_address-encode,
}
use diginaut_wallet.Address.DigiDollar.{
  mainnet, testnet, network_hrp, network_name, encode_dd_address, decode_dd_address, to_dd_address,
  has_space,
}
use diginaut_wallet.Address.DigiDollar.Letters.{prefix}
use diginaut_wallet.Address.DigiDollar.RoundTrip.{decode_dd_address-encode}
use diginaut_wallet.Address.DigiDollar.Forms.{to_dd_address-forms}

abbrev key : List ℕ
key =
    121 ∷ 190 ∷ 102 ∷ 126 ∷ 249 ∷ 220 ∷ 187 ∷ 172 ∷ 85 ∷ 160 ∷ 98 ∷ 149 ∷ 206 ∷ 135 ∷ 11 ∷ 7 ∷ 2
    ∷ 155 ∷ 252 ∷ 219 ∷ 45 ∷ 206 ∷ 40 ∷ 217 ∷ 89 ∷ 242 ∷ 129 ∷ 91 ∷ 22 ∷ 248 ∷ 23 ∷ 152 ∷ []

abbrev bip350_text : List ℕ
bip350_text =
    b'b' ∷ b'c' ∷ b'1' ∷ b'p' ∷ b'0' ∷ b'x' ∷ b'l' ∷ b'x' ∷ b'v' ∷ b'l' ∷ b'h' ∷ b'e' ∷ b'm' ∷ b'j'
    ∷ b'a' ∷ b'6' ∷ b'c' ∷ b'4' ∷ b'd' ∷ b'q' ∷ b'v' ∷ b'2' ∷ b'2' ∷ b'u' ∷ b'a' ∷ b'p' ∷ b'c'
    ∷ b't' ∷ b'q' ∷ b'u' ∷ b'p' ∷ b'f' ∷ b'h' ∷ b'l' ∷ b'x' ∷ b'm' ∷ b'9' ∷ b'h' ∷ b'8' ∷ b'z'
    ∷ b'3' ∷ b'k' ∷ b'2' ∷ b'e' ∷ b'7' ∷ b'2' ∷ b'q' ∷ b'4' ∷ b'k' ∷ b'9' ∷ b'h' ∷ b'c' ∷ b'z'
    ∷ b'7' ∷ b'v' ∷ b'q' ∷ b'z' ∷ b'k' ∷ b'5' ∷ b'j' ∷ b'j' ∷ b'0' ∷ []

abbrev legacy_text : List ℕ
legacy_text =
    b'D' ∷ b'D' ∷ b'B' ∷ b'U' ∷ b'd' ∷ b'b' ∷ b'q' ∷ b'Z' ∷ b'j' ∷ b'U' ∷ b'g' ∷ b'V' ∷ b'K' ∷ b'k'
    ∷ b'Q' ∷ b'X' ∷ b'5' ∷ b'j' ∷ b'u' ∷ b'6' ∷ b'K' ∷ b'm' ∷ b'r' ∷ b'U' ∷ b'K' ∷ b'Z' ∷ b'Z'
    ∷ b'z' ∷ b'P' ∷ b'u' ∷ b'2' ∷ b'a' ∷ b'Z' ∷ b'c' ∷ []

abbrev legacy_bytes : List ℕ
legacy_bytes =
    30 ∷ 88 ∷ 52 ∷ 71 ∷ 158 ∷ 219 ∷ 190 ∷ 5 ∷ 57 ∷ 179 ∷ 31 ∷ 253 ∷ 58 ∷ 143 ∷ 142 ∷ 186 ∷ 220 ∷ 33
    ∷ 101 ∷ 237 ∷ 1 ∷ 235 ∷ 71 ∷ 50 ∷ 111 ∷ []

bip350_run : encode_witness_address (b'b' ∷ b'c' ∷ []) 1 (bytes_to_hex key) ≡ ok bip350_text
unfolding encode_witness_address bytes_to_hex bytes_of_hex bad_length convert_bits spelled polymod
    hrp_expand checksum_digits polymod_step hex_digit hex_to_bytes pairs is_line_terminator
    parse_pair
bip350_run = refl

base58_run : base58_encode legacy_bytes ≡ legacy_text
unfolding base58_encode
base58_run = refl

base58_back : base58_decode legacy_text ≡ ok legacy_bytes
unfolding base58_decode
base58_back = refl

-- A prefix that is no network's: the list of networks is not empty, against the comment.
inherited_run :
    networks_of_hrp
      (b'c' ∷ b'o' ∷ b'n' ∷ b's' ∷ b't' ∷ b'r' ∷ b'u' ∷ b'c' ∷ b't' ∷ b'o' ∷ b'r' ∷ [])
    ≡ inherited ∷ []
unfolding networks_of_hrp same_text
inherited_run = refl

-- A hash of 32 bytes, and the case of letters in ASCII.
abbrev constant_hash : List ℕ → List ℕ
constant_hash bytes = key

abbrev lowered : List ℕ → List ℕ
lowered = map lower_letter

key_bytes : (length key ≡ 32) × All IsByte key
key_bytes = (refl, omega arith)

constant_hash-IsHash : IsHash constant_hash
constant_hash-IsHash bytes = key_bytes

lowered-LowersAscii : LowersAscii lowered
lowered-LowersAscii s h = refl

key-IsProgram : IsProgram 1 key
key-IsProgram = record {
  bytes = key_bytes.1;
  opcode = omega arith;
  long_enough = omega arith;
  short_enough = omega arith;
  v0 = λ e. absurd (omega (arith, e));
}

abbrev hrp : List ℕ
hrp = b'x' ∷ b'7' ∷ []

decode_witness_address-encode_example :
    (addr : List ℕ) × (encode_witness_address hrp 1 (bytes_to_hex key) ≡ ok addr)
    × (decode_witness_address lowered lowered addr
        ≡ ok (record { hrp = hrp; version = 1; program_hex = bytes_to_hex key }))
decode_witness_address-encode_example =
    decode_witness_address-encode lowered lowered (keeps_small lowered lowered-LowersAscii) hrp 1
      key (inr (omega arith, omega arith), (inl (omega arith), tt)) (omega arith) key-IsProgram
      (omega arith)

script_pub_key_from_address-encode_example :
    (addr : List ℕ) × (encode_witness_address (network_hrp testnet) 1 (bytes_to_hex key) ≡ ok addr)
    × (script_pub_key_from_address constant_hash lowered lowered addr
        ≡ ok (bytes_to_hex (opcode 1 ∷ length key ∷ key)))
script_pub_key_from_address-encode_example =
    script_pub_key_from_address-encode constant_hash lowered lowered lowered-LowersAscii testnet 1
      key key-IsProgram

decode_dd_address-encode_example :
    (addr : List ℕ) × (letters : List ℕ) × (encode_dd_address constant_hash
        (bytes_to_hex key)
        (network_name mainnet)
      ≡ ok addr)
    × (addr ≡ prefix mainnet ++ letters)
    × (decode_dd_address constant_hash lowered lowered addr
        ≡ ok (record { output_key_hex = bytes_to_hex key; network = mainnet }))
decode_dd_address-encode_example =
    decode_dd_address-encode constant_hash lowered lowered constant_hash-IsHash lowered-LowersAscii
      mainnet key key_bytes.0 key_bytes.1

to_dd_address-forms_example :
    (bech32m base58 : List ℕ) × (encode_witness_address (network_hrp testnet) 1 (bytes_to_hex key)
      ≡ ok bech32m)
    × (encode_dd_address constant_hash (bytes_to_hex key) (network_name testnet) ≡ ok base58)
    × (to_dd_address constant_hash lowered lowered bech32m ≡ ok base58)
    × (to_dd_address constant_hash lowered lowered base58 ≡ ok base58)
to_dd_address-forms_example =
    to_dd_address-forms constant_hash lowered lowered constant_hash-IsHash lowered-LowersAscii
      testnet key key_bytes.0 key_bytes.1

-- The vector of BIP-350 is read as a taproot output of no network of DigiByte.
abbrev bip350_descriptor : Descriptor
bip350_descriptor = record {
  kind = witness;
  address_type = p2tr;
  networks = [];
  script_pub_key_hex = bytes_to_hex (0x51 ∷ 32 ∷ key);
}

bip350_decoded : decode_address constant_hash lowered lowered bip350_text ≡ ok bip350_descriptor
unfolding decode_address bytes_to_hex bytes_of_hex bad_length convert_bits polymod hrp_expand
    polymod_step hex_digit hex_to_bytes pairs is_line_terminator parse_pair lower_letter same_text
    has_space decode_witness_address separator digits_of charset_digits first_of inner bad_v0
    describe_witness witness_script_hex witness_type networks_of_hrp
bip350_decoded = refl

decode_address-IsPayable_example : IsPayable (bytes_to_hex (0x51 ∷ 32 ∷ key))
decode_address-IsPayable_example =
    decode_address-IsPayable constant_hash lowered lowered bip350_text bip350_decoded
