-- ===== src/Address.antt =====
-- packages/digidollar-js/src/address.js: segwit addresses in bech32 and bech32m, DigiDollar and
-- legacy addresses in base58check. A text is the list of its UTF-16 code units. Each error message
-- of the file is a constructor; `no_pairs` is the TypeError of `hexToBytes` of a text without pairs.
pub mod Checksum
pub mod Regroup
pub mod Charset
pub mod Witness
pub mod Base58
pub mod DigiDollar
pub mod Payment
use diginaut_wallet.Prelude.{ℕ, List, Option, none, some, Outcome, ok, throw}
use diginaut_wallet.Hex.{hex_to_bytes}

pub data AddressError : Type 0 where
  invalid_padding : AddressError
  version_out_of_range : AddressError
  program_length_out_of_range : AddressError
  mixed_case : AddressError
  too_long : AddressError
  malformed : AddressError
  invalid_bech32_character : AddressError
  bad_bech32_checksum : AddressError
  bad_v0_length : AddressError
  invalid_base58_character : AddressError
  too_short : AddressError
  bad_base58_checksum : AddressError
  unknown_network : AddressError
  bad_output_key : AddressError
  has_whitespace : AddressError
  prefix_mismatch : AddressError
  not_taproot : AddressError
  bad_taproot_length : AddressError
  bad_payload_length : AddressError
  unrecognized_version : AddressError
  bad_hash_length : AddressError
  not_an_address : AddressError
  no_pairs : AddressError

-- `hexToBytes`, whose TypeError is an error here.
unfoldable pub bytes_of_hex : List ℕ → Outcome AddressError (List ℕ)
unfolding hex_to_bytes
bytes_of_hex hex = elim (hex_to_bytes hex) [ none ↦ throw no_pairs | some bytes ↦ ok bytes ]
