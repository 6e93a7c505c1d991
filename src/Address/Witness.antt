-- ===== src/Address/Witness.antt =====
-- address.js: encodeWitnessAddress, decodeWitnessAddress and witnessScriptHex. `toLowerCase` and
-- `toUpperCase` of all of Unicode are parameters.
pub mod Layout
pub mod RoundTrip
pub mod Accepted
use Prim.Native.Nat.{bit_xor}
use diginaut_wallet.Prelude.{
  ℕ, zero, suc, ◌+◌, ◌-◌, List, [], ◌∷◌, ◌++◌, Bool, true, false, ◌&&◌, ◌||◌, not, Option, none,
  some, Outcome, ok, throw, ◌>>=◌, ◌>>◌, throw_if, ltb, ◌==◌, if◌then◌else◌, length, take, drop,
}
use diginaut_wallet.Hex.{bytes_to_hex}
use diginaut_wallet.Text.{same_text}
use diginaut_wallet.Address.{AddressError, bytes_of_hex}
use diginaut_wallet.Address.Checksum.{
  bech32_const, bech32m_const, polymod, hrp_expand, checksum_digits, six_zeros,
}
use diginaut_wallet.Address.Regroup.{convert_bits}
use diginaut_wallet.Address.Charset.{charset_digits, spelled, last_index_of}

-- `version === 0 ? BECH32_CONST : BECH32M_CONST`
abbrev pub spec_of : ℕ → ℕ
spec_of version = if version == 0 then bech32_const else bech32m_const

unfoldable pub bad_length : List ℕ → Bool
bad_length program = ltb (length program) 2 || ltb 40 (length program)

-- `version === 0 && program.length !== 20 && program.length !== 32`
unfoldable pub bad_v0 : ℕ → List ℕ → Bool
bad_v0 version program = version == 0 && not (length program == 20) && not (length program == 32)

unfoldable pub encode_witness_address : List ℕ → ℕ → List ℕ → Outcome AddressError (List ℕ)
encode_witness_address hrp version program_hex = do
  throw_if (ltb 16 version) AddressError.version_out_of_range
  program ← bytes_of_hex program_hex
  throw_if (bad_length program) AddressError.program_length_out_of_range
  groups ← convert_bits program 8 5 true
  let data_ = version ∷ groups
  let mod_ = bit_xor (polymod (hrp_expand hrp ++ data_ ++ six_zeros)) (spec_of version)
  ok (hrp ++ b'1' ∷ spelled (data_ ++ checksum_digits mod_))

-- OP_n of a witness version, and the push of the program behind it.
unfoldable pub witness_script_hex : ℕ → List ℕ → Outcome AddressError (List ℕ)
witness_script_hex version program_hex = do
  program ← bytes_of_hex program_hex
  ok (bytes_to_hex ((if version == 0 then 0 else 0x50 + version) ∷ length program ∷ program))

pub record Witness : Type 0 where
  pub hrp : List ℕ
  pub version : ℕ
  pub program_hex : List ℕ

-- `sep < 1 || sep + 7 > lower.length`, where a text without a separator has sep = -1.
unfoldable pub separator : List ℕ → Outcome AddressError ℕ
unfolding last_index_of
separator lower = elim (last_index_of b'1' 0 none lower) [
  | none ↦ throw AddressError.malformed
  | some sep ↦
      if ltb sep 1 || ltb (length lower) (sep + 7) then throw AddressError.malformed else ok sep
]

unfoldable pub digits_of : List ℕ → Outcome AddressError (List ℕ)
digits_of text = elim (charset_digits text) [
  | none ↦ throw AddressError.invalid_bech32_character
  | some digits ↦ ok digits
]

-- `data[0]`: there are at least six digits when it is read.
unfoldable pub first_of : List ℕ → ℕ
first_of [] = 0
first_of (d ∷ ds) = d

-- `data.slice(1, -6)`
unfoldable pub inner : List ℕ → List ℕ
inner digits = take (length digits - 7) (drop 1 digits)

-- What is behind the tests of the text itself.
unfoldable pub decode_lower : List ℕ → Outcome AddressError Witness
decode_lower lower = do
  sep ← separator lower
  digits ← digits_of (drop (sep + 1) lower)
  throw_if (ltb 16 (first_of digits)) AddressError.version_out_of_range
  throw_if (not (polymod (hrp_expand (take sep lower) ++ digits) == spec_of (first_of digits)))
      AddressError.bad_bech32_checksum
  program ← convert_bits (inner digits) 5 8 false
  throw_if (bad_length program) AddressError.program_length_out_of_range
  throw_if (bad_v0 (first_of digits) program) AddressError.bad_v0_length
  ok (record {
    hrp = take sep lower;
    version = first_of digits;
    program_hex = bytes_to_hex program;
  })

module _ (to_lower to_upper : List ℕ → List ℕ) where
  unfoldable pub decode_witness_address : List ℕ → Outcome AddressError Witness
  unfolding decode_lower
  decode_witness_address addr = do
    let lower = to_lower addr
    throw_if (not (same_text addr lower) && not (same_text addr (to_upper addr)))
        AddressError.mixed_case
    throw_if (ltb 90 (length lower)) AddressError.too_long
    decode_lower lower
