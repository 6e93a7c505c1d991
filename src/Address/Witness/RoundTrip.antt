-- ===== src/Address/Witness/RoundTrip.antt =====
-- An address that was encoded is decoded to what it was made of.
use Prim.Native.Nat.{bit_xor}
use diginaut_wallet.Prelude.{
  ℕ, ◌+◌, ◌*◌, ◌/◌, ◌<◌, ◌≤◌, ◌≡◌, refl, ap, ◌∙◌, List, [], ◌∷◌, ◌++◌, arith, All, All-append,
  length, length-append, drop, take-append, ok, false, ◌⊎◌, true,
}
use diginaut_wallet.Hex.{IsByte, bytes_to_hex, is_space}
use diginaut_wallet.Hex.RoundTrip.{hex_to_bytes-bytes_to_hex}
use diginaut_wallet.Text.{same_text_refl}
use diginaut_wallet.Address.{bytes_of_hex}
use diginaut_wallet.Address.Checksum.{hrp_expand, polymod, checksum_digits, six_zeros}
use diginaut_wallet.Address.Regroup.{convert_bits}
use diginaut_wallet.Address.Regroup.RoundTrip.{
  Padded, convert_bits-Padded, convert_bits-Padded_read,
}
use diginaut_wallet.Address.Charset.{spelled, IsSmall, charset_digits-spelled, spelled-solid}
use diginaut_wallet.Address.Witness.{
  spec_of, bad_length, bad_v0, encode_witness_address, decode_lower, decode_witness_address,
  digits_of, first_of,
}
use diginaut_wallet.Address.Witness.Layout.{
  IsDigit, checksum-passes, checksum_digits-lt, length-checksum_digits, spec_of-lt,
  separator-spelled, length-encoded, encoded-IsSmall, drop_past, inner-groups,
}

-- What BIP-173 and BIP-350 allow as a version and a program.
pub record IsProgram (version : ℕ) (program : List ℕ) : Type 0 where
  pub bytes : All IsByte program
  pub opcode : version ≤ 16
  pub long_enough : 2 ≤ length program
  pub short_enough : length program ≤ 40
  pub v0 : version ≡ 0 → (length program ≡ 20) ⊎ (length program ≡ 32)

pub bad_length-IsProgram :
    (version : ℕ) (program : List ℕ) → IsProgram version program → bad_length program ≡ false
unfolding bad_length
bad_length-IsProgram version program p = ground (arith, p.long_enough, p.short_enough)

pub bad_v0-IsProgram :
    (version : ℕ) (program : List ℕ) → IsProgram version program → bad_v0 version program ≡ false
unfolding bad_v0
bad_v0-IsProgram version program p = ground (arith, p.v0)

bytes_of_hex-bytes_to_hex :
    (version : ℕ) (program : List ℕ)
    → IsProgram version program
    → bytes_of_hex (bytes_to_hex program) ≡ ok program
unfolding bytes_of_hex
bytes_of_hex-bytes_to_hex version [] p = absurd (omega (arith, p.long_enough))
bytes_of_hex-bytes_to_hex version (b ∷ program) p =
    rw (hex_to_bytes-bytes_to_hex (b ∷ program) p.bytes (λ e. cc), bytes_of_hex) refl

digits_of-spelled : (ds : List ℕ) → All IsDigit ds → digits_of (spelled ds) ≡ ok ds
unfolding digits_of
digits_of-spelled ds h = rw (charset_digits-spelled ds h, digits_of) refl

-- The text of an encoded address, by its groups.
encoded : List ℕ → List ℕ → ℕ → List ℕ
encoded hrp groups version =
    let digits = version ∷ groups in
    hrp
    ++ b'1'
      ∷ spelled (
          digits
          ++ checksum_digits
              (bit_xor (polymod (hrp_expand hrp ++ digits ++ six_zeros)) (spec_of version)))

module _ (hrp : List ℕ) (version : ℕ) (program : List ℕ) (p : IsProgram version program) where
  encode-encoded :
      (groups : List ℕ)
      → convert_bits program 8 5 true ≡ ok groups
      → encode_witness_address hrp version (bytes_to_hex program) ≡ ok (encoded hrp groups version)
  unfolding encode_witness_address encoded
  encode-encoded groups converted = ground (
    arith,
    p.opcode,
    bytes_of_hex-bytes_to_hex version program p,
    bad_length-IsProgram version program p,
    converted,
  )

  module _ (groups sums : List ℕ) (padded : Padded program groups) (six : length sums ≡ 6)
      (few : All IsDigit (version ∷ groups ++ sums))
      (passes : polymod (hrp_expand hrp ++ (version ∷ groups ++ sums)) ≡ spec_of version) where
    decode_lower-digits :
        0 < length hrp
        → decode_lower (hrp ++ b'1' ∷ spelled (version ∷ groups ++ sums))
          ≡ ok (record { hrp = hrp; version = version; program_hex = bytes_to_hex program })
    unfolding decode_lower first_of
    decode_lower-digits positive =
        let digits = version ∷ groups ++ sums in
        let read : digits_of (drop (length hrp + 1) (hrp ++ b'1' ∷ spelled digits)) ≡ ok digits =
          ap digits_of (drop_past hrp b'1' (spelled digits)) ∙ digits_of-spelled digits few in
        ground (
          arith,
          p.opcode,
          separator-spelled hrp digits few positive (omega (arith, length-append groups sums, six)),
          read,
          take-append hrp (b'1' ∷ spelled digits),
          passes,
          inner-groups version groups sums six,
          convert_bits-Padded_read program groups p.bytes padded,
          bad_length-IsProgram version program p,
          bad_v0-IsProgram version program p,
        )

module _ (to_lower to_upper : List ℕ → List ℕ)
    (keeps : (s : List ℕ) → All IsSmall s → to_lower s ≡ s) (hrp : List ℕ) (version : ℕ)
    (program : List ℕ) where
  -- Also, the text has no white space if the prefix has none.
  pub encoded_lem :
      All IsSmall hrp
      → 0 < length hrp
      → IsProgram version program
      → length hrp + (length program * 8 + 4) / 5 + 8 ≤ 90
      → (addr : List ℕ) × (encode_witness_address hrp version (bytes_to_hex program) ≡ ok addr)
        × (decode_witness_address to_lower to_upper addr
            ≡ ok (record { hrp = hrp; version = version; program_hex = bytes_to_hex program }))
        × All IsSmall addr
        × (rest : List ℕ) × (addr ≡ hrp ++ b'1' ∷ rest)
        × All (λ c. is_space c ≡ false) rest
  unfolding decode_witness_address encoded
  encoded_lem small positive p short =
      let (groups, converted, padded) = convert_bits-Padded program p.bytes in
      let digits = version ∷ groups in
      let mod_ = bit_xor (polymod (hrp_expand hrp ++ digits ++ six_zeros)) (spec_of version) in
      let sums = checksum_digits mod_ in
      let some_digits : All IsDigit digits = (omega (arith, p.opcode), padded.in_range) in
      let few = All-append IsDigit digits sums some_digits (checksum_digits-lt mod_) in
      let same =
        keeps (encoded hrp groups version) (encoded-IsSmall hrp (digits ++ sums) few small) in
      let decoded =
        decode_lower-digits hrp version program p groups sums padded (length-checksum_digits mod_)
          few (checksum-passes hrp digits (spec_of version) small some_digits (spec_of-lt version))
          positive in
      let fits : length (encoded hrp groups version) ≤ 90 = omega (
        arith,
        length-encoded hrp (digits ++ sums) few,
        length-append groups sums,
        length-checksum_digits mod_,
        padded.counted,
        padded.few,
      ) in
      (
        encoded hrp groups version,
        encode-encoded hrp version program p groups converted,
        rw same (ground (arith, same_text_refl (encoded hrp groups version), fits, decoded)),
        encoded-IsSmall hrp (digits ++ sums) few small,
        spelled (digits ++ sums),
        refl,
        spelled-solid (digits ++ sums) few,
      )

  -- With a `toLowerCase` that leaves ASCII without capitals as it is: from a prefix of such
  -- characters, not empty, a version of 0 to 16 and a program of bytes of a length that the
  -- version allows, if the text fits into 90 characters, an address is encoded, and decoding it
  -- gives the prefix, the version and the program.
  pub decode_witness_address-encode :
      All IsSmall hrp
      → 0 < length hrp
      → IsProgram version program
      → length hrp + (length program * 8 + 4) / 5 + 8 ≤ 90
      → (addr : List ℕ) × (encode_witness_address hrp version (bytes_to_hex program) ≡ ok addr)
        × (decode_witness_address to_lower to_upper addr
            ≡ ok (record { hrp = hrp; version = version; program_hex = bytes_to_hex program }))
  decode_witness_address-encode small positive p short =
      let (addr, made, read, _, _, _, _) = encoded_lem small positive p short in (addr, made, read)
