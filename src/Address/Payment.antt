-- ===== src/Address/Payment.antt =====
-- address.js: legacyScriptHex, decodeLegacyAddress, witnessType, decodeAddress and
-- scriptPubKeyFromAddress.
pub mod Scripts
pub mod RoundTrip
use diginaut_wallet.Prelude.{
  ℕ, zero, suc, ◌*◌, ◌/◌, List, [], ◌∷◌, ◌++◌, Bool, true, false, ◌&&◌, not, Option, none, some,
  Outcome, ok, throw, ◌>>=◌, ◌>>◌, throw_if, ◌==◌, if◌then◌else◌, length, drop,
}
use diginaut_wallet.Hex.{bytes_to_hex}
use diginaut_wallet.Text.{same_text}
use diginaut_wallet.Address.{AddressError, bytes_of_hex}
use diginaut_wallet.Address.Witness.{Witness, decode_witness_address, witness_script_hex, first_of}
use diginaut_wallet.Address.Base58.{base58_check_decode}
use diginaut_wallet.Address.DigiDollar.{has_space}

pub data AddressType : Type 0 where
  p2pkh : AddressType
  p2sh : AddressType
  p2wpkh : AddressType
  p2wsh : AddressType
  p2tr : AddressType
  other_witness : ℕ → AddressType

-- An entry of `networks`. `inherited` is what an object literal has from Object.prototype under a
-- name that is none of its own keys.
pub data NetworkEntry : Type 0 where
  on_mainnet : NetworkEntry
  on_testnet : NetworkEntry
  on_regtest : NetworkEntry
  inherited : NetworkEntry

pub record VersionInfo : Type 0 where
  pub address_type : AddressType
  pub networks : List NetworkEntry

-- LEGACY_VERSIONS
unfoldable pub legacy_version : ℕ → Option VersionInfo
legacy_version v =
    if v == 30
    then some (record { address_type = p2pkh; networks = on_mainnet ∷ [] })
    else if v == 63
    then some (record { address_type = p2sh; networks = on_mainnet ∷ [] })
    else if v == 5
    then some (record { address_type = p2sh; networks = on_mainnet ∷ [] })
    else if v == 126
    then some (record { address_type = p2pkh; networks = on_testnet ∷ on_regtest ∷ [] })
    else if v == 140
    then some (record { address_type = p2sh; networks = on_testnet ∷ on_regtest ∷ [] })
    else none

-- The bytes of a legacy script.
abbrev pub legacy_script : AddressType → List ℕ → List ℕ
legacy_script p2pkh h = 0x76 ∷ 0xa9 ∷ 0x14 ∷ (h ++ 0x88 ∷ 0xac ∷ [])
legacy_script other h = 0xa9 ∷ 0x14 ∷ (h ++ 0x87 ∷ [])

unfoldable pub legacy_script_hex : AddressType → List ℕ → Outcome AddressError (List ℕ)
legacy_script_hex type_ hash160_hex = do
  h ← bytes_of_hex hash160_hex
  throw_if (not (length h == 20)) AddressError.bad_hash_length
  ok (bytes_to_hex (legacy_script type_ h))

pub record Legacy : Type 0 where
  pub info : VersionInfo
  pub hash160_hex : List ℕ

-- A legacy address behind its checksum.
unfoldable pub legacy_of : List ℕ → Outcome AddressError Legacy
legacy_of payload = do
  throw_if (not (length payload == 21)) AddressError.bad_payload_length
  elim (legacy_version (first_of payload)) [
    | none ↦ throw AddressError.unrecognized_version
    | some info ↦ ok (record { info = info; hash160_hex = bytes_to_hex (drop 1 payload) })
  ]

-- WITNESS_HRP[hrp], as a list. Of the names in Object.prototype, two have no capital.
unfoldable pub networks_of_hrp : List ℕ → List NetworkEntry
networks_of_hrp hrp =
    if same_text hrp (b'd' ∷ b'g' ∷ b'b' ∷ [])
    then on_mainnet ∷ []
    else if same_text hrp (b'd' ∷ b'g' ∷ b'b' ∷ b't' ∷ [])
    then on_testnet ∷ []
    else if same_text hrp (b'd' ∷ b'g' ∷ b'b' ∷ b'r' ∷ b't' ∷ [])
    then on_regtest ∷ []
    else if same_text hrp
        (b'c' ∷ b'o' ∷ b'n' ∷ b's' ∷ b't' ∷ b'r' ∷ b'u' ∷ b'c' ∷ b't' ∷ b'o' ∷ b'r' ∷ [])
    then inherited ∷ []
    else if same_text hrp (b'_' ∷ b'_' ∷ b'p' ∷ b'r' ∷ b'o' ∷ b't' ∷ b'o' ∷ b'_' ∷ b'_' ∷ [])
    then inherited ∷ []
    else []

-- `programHex.length / 2` is compared with whole numbers: an odd length is neither.
unfoldable pub witness_type : ℕ → List ℕ → AddressType
witness_type version program_hex =
    if version == 0 && length program_hex == 40
    then p2wpkh
    else if version == 0 && length program_hex == 64
    then p2wsh
    else if version == 1 && length program_hex == 64
    then p2tr
    else other_witness version

pub data Kind : Type 0 where
  witness : Kind
  legacy : Kind

pub record Descriptor : Type 0 where
  pub kind : Kind
  pub address_type : AddressType
  pub networks : List NetworkEntry
  pub script_pub_key_hex : List ℕ

unfoldable pub describe_witness : Witness → Outcome AddressError Descriptor
describe_witness w = do
  script ← witness_script_hex w.version w.program_hex
  ok (record {
    kind = witness;
    address_type = witness_type w.version w.program_hex;
    networks = networks_of_hrp w.hrp;
    script_pub_key_hex = script;
  })

unfoldable pub describe_legacy : Legacy → Outcome AddressError Descriptor
describe_legacy l = do
  script ← legacy_script_hex l.info.address_type l.hash160_hex
  ok (record {
    kind = legacy;
    address_type = l.info.address_type;
    networks = l.info.networks;
    script_pub_key_hex = script;
  })

-- `try { return first; } catch { }` before another attempt.
unfoldable pub or_otherwise :
    Outcome AddressError Descriptor
    → Outcome AddressError Descriptor
    → Outcome AddressError Descriptor
or_otherwise (ok d) next = ok d
or_otherwise (throw e) next = next

module _ (sha256 to_lower to_upper : List ℕ → List ℕ) where
  unfoldable pub decode_legacy_address : List ℕ → Outcome AddressError Legacy
  decode_legacy_address addr = do
    throw_if (has_space addr) AddressError.has_whitespace
    payload ← base58_check_decode sha256 addr
    legacy_of payload

  unfoldable pub decode_address : List ℕ → Outcome AddressError Descriptor
  unfolding or_otherwise
  decode_address addr = do
    throw_if (has_space addr) AddressError.has_whitespace
    or_otherwise (decode_witness_address to_lower to_upper addr >>= describe_witness) (
        or_otherwise (decode_legacy_address addr >>= describe_legacy)
          (throw AddressError.not_an_address))

  unfoldable pub script_pub_key_from_address : List ℕ → Outcome AddressError (List ℕ)
  unfolding decode_address
  script_pub_key_from_address addr = decode_address addr >>= λ d. ok d.script_pub_key_hex
