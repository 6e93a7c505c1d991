-- ===== src/Address/DigiDollar.antt =====
-- address.js: encodeDDAddress, decodeDDAddress and toDDAddress. A network is named by a text, and
-- any other text than the three names is unknown. Parameters: SHA-256, `toLowerCase`, `toUpperCase`.
pub mod Letters
pub mod RoundTrip
pub mod Forms
use diginaut_wallet.Prelude.{
  ℕ, zero, suc, List, [], ◌∷◌, ◌++◌, map, Bool, true, false, ◌&&◌, ◌||◌, not, Option, none, some,
  Outcome, ok, throw, ◌>>=◌, ◌>>◌, throw_if, ◌==◌, if◌then◌else◌, length, drop, find,
}
use diginaut_wallet.Hex.{bytes_to_hex, digit_value, is_space}
use diginaut_wallet.Text.{same_text, lower_letter}
use diginaut_wallet.Address.{AddressError, bytes_of_hex}
use diginaut_wallet.Address.Witness.{Witness, decode_witness_address}
use diginaut_wallet.Address.Base58.{base58_check_encode, base58_check_decode}

pub data Network : Type 0 where
  mainnet : Network
  testnet : Network
  regtest : Network

-- `Object.keys(DD_NETWORKS)`, in their order.
abbrev pub networks : List Network
networks = mainnet ∷ testnet ∷ regtest ∷ []

abbrev pub network_name : Network → List ℕ
network_name mainnet = b'm' ∷ b'a' ∷ b'i' ∷ b'n' ∷ b'n' ∷ b'e' ∷ b't' ∷ []
network_name testnet = b't' ∷ b'e' ∷ b's' ∷ b't' ∷ b'n' ∷ b'e' ∷ b't' ∷ []
network_name regtest = b'r' ∷ b'e' ∷ b'g' ∷ b't' ∷ b'e' ∷ b's' ∷ b't' ∷ []

-- The two bytes of a version.
abbrev pub version_high : Network → ℕ
version_high mainnet = 0x52
version_high testnet = 0xb1
version_high regtest = 0xa3

abbrev pub version_low : Network → ℕ
version_low mainnet = 0x85
version_low testnet = 0x29
version_low regtest = 0xa4

abbrev pub network_hrp : Network → List ℕ
network_hrp mainnet = b'd' ∷ b'g' ∷ b'b' ∷ []
network_hrp testnet = b'd' ∷ b'g' ∷ b'b' ∷ b't' ∷ []
network_hrp regtest = b'd' ∷ b'g' ∷ b'b' ∷ b'r' ∷ b't' ∷ []

-- `DD_NETWORKS[network]`
unfoldable pub network_named : List ℕ → Option Network
network_named text = find (λ n. same_text text (network_name n)) networks

-- The class `[0-9a-fA-F]`.
unfoldable pub is_any_hex : ℕ → Bool
is_any_hex c = elim (digit_value c) [ none ↦ false | some v ↦ true ]

unfoldable pub all_any_hex : List ℕ → Bool
all_any_hex [] = true
all_any_hex (c ∷ cs) = is_any_hex c && all_any_hex cs

-- `/\s/.test(addr)`
unfoldable pub has_space : List ℕ → Bool
has_space [] = false
has_space (c ∷ cs) = is_space c || has_space cs

unfoldable pub starts_with : List ℕ → List ℕ → Bool
starts_with text [] = true
starts_with [] (p ∷ ps) = false
starts_with (c ∷ cs) (p ∷ ps) = c == p && starts_with cs ps

unfoldable pub known_network : List ℕ → Outcome AddressError Network
unfolding network_named
known_network text = elim (network_named text) [
  | none ↦ throw AddressError.unknown_network
  | some n ↦ ok n
]

-- `n.version[0] === payload[0] && n.version[1] === payload[1]`
unfoldable pub network_of_version : List ℕ → Option Network
network_of_version [] = none
network_of_version (a ∷ []) = none
network_of_version (a ∷ b ∷ rest) = find (λ n. version_high n == a && version_low n == b) networks

pub record Destination : Type 0 where
  pub output_key_hex : List ℕ
  pub network : Network

-- The base58check form behind its checksum.
unfoldable pub destination_of : List ℕ → Outcome AddressError Destination
unfolding network_of_version
destination_of payload = do
  throw_if (not (length payload == 34)) AddressError.bad_payload_length
  elim (network_of_version payload) [
    | none ↦ throw AddressError.unrecognized_version
    | some n ↦ ok (record { output_key_hex = bytes_to_hex (drop 2 payload); network = n })
  ]

-- The bech32m form behind its checksum.
unfoldable pub taproot_destination : Network → Witness → Outcome AddressError Destination
taproot_destination n w = do
  throw_if (not (same_text w.hrp (network_hrp n))) AddressError.prefix_mismatch
  throw_if (not (w.version == 1)) AddressError.not_taproot
  throw_if (not (length w.program_hex == 64)) AddressError.bad_taproot_length
  ok (record { output_key_hex = w.program_hex; network = n })

module _ (sha256 : List ℕ → List ℕ) where
  unfoldable pub encode_dd_address : List ℕ → List ℕ → Outcome AddressError (List ℕ)
  encode_dd_address output_key_hex network = do
    n ← known_network network
    throw_if (not (length output_key_hex == 64 && all_any_hex output_key_hex))
        AddressError.bad_output_key
    key ← bytes_of_hex (map lower_letter output_key_hex)
    ok (base58_check_encode sha256 (version_high n ∷ version_low n ∷ key))

  module _ (to_lower to_upper : List ℕ → List ℕ) where
    unfoldable pub decode_form : Option Network → List ℕ → Outcome AddressError Destination
    decode_form none addr = base58_check_decode sha256 addr >>= destination_of
    decode_form (some n) addr =
        decode_witness_address to_lower to_upper addr >>= taproot_destination n

    unfoldable pub decode_dd_address : List ℕ → Outcome AddressError Destination
    unfolding decode_form
    decode_dd_address addr = do
      throw_if (has_space addr) AddressError.has_whitespace
      decode_form (find (λ n. starts_with (to_lower addr) (network_hrp n ++ b'1' ∷ [])) networks)
          addr

    unfoldable pub to_dd_address : List ℕ → Outcome AddressError (List ℕ)
    unfolding decode_dd_address encode_dd_address
    to_dd_address addr = do
      destination ← decode_dd_address addr
      encode_dd_address destination.output_key_hex (network_name destination.network)
