-- ===== src/Address/DigiDollar/Forms.antt =====
-- The two forms of a DigiDollar address stand for one destination.
use diginaut_wallet.Prelude.{
  ℕ, ◌≡◌, refl, ap, ◌∙◌, List, [], ◌∷◌, ◌++◌, arith, ok, All, All-append, length, some, find, false,
}
use diginaut_wallet.Hex.{IsByte, bytes_to_hex}
use diginaut_wallet.Hex.RoundTrip.{length-bytes_to_hex}
use diginaut_wallet.Text.{same_text_refl}
use diginaut_wallet.Address.Witness.{encode_witness_address}
use diginaut_wallet.Address.Witness.RoundTrip.{IsProgram, encoded_lem}
use diginaut_wallet.Address.Base58.RoundTrip.{IsHash}
use diginaut_wallet.Address.Payment.RoundTrip.{
  LowersAscii, keeps_small, has_space-solid, hrp_small, hrp_solid, one_solid, fits,
}
use diginaut_wallet.Address.DigiDollar.{
  Network, mainnet, testnet, regtest, networks, network_name, network_hrp, has_space, starts_with,
  taproot_destination, encode_dd_address, decode_dd_address, to_dd_address,
}
use diginaut_wallet.Address.DigiDollar.RoundTrip.{decode_dd_address-encode}

found_by_hrp :
    (n : Network) (rest : List ℕ)
    → find (λ m. starts_with (network_hrp n ++ b'1' ∷ rest) (network_hrp m ++ b'1' ∷ [])) networks
      ≡ some n
unfolding starts_with
found_by_hrp mainnet rest = refl
found_by_hrp testnet rest = refl
found_by_hrp regtest rest = refl

key-IsProgram : (key : List ℕ) → length key ≡ 32 → All IsByte key → IsProgram 1 key
key-IsProgram key size bytes = record {
  bytes = bytes;
  opcode = omega arith;
  long_enough = omega (arith, size);
  short_enough = omega (arith, size);
  v0 = λ absurd_. absurd (omega (arith, absurd_));
}

module _ (sha256 to_lower to_upper : List ℕ → List ℕ) (hash : IsHash sha256)
    (lowers : LowersAscii to_lower) (n : Network) (key : List ℕ) (size : length key ≡ 32)
    (bytes : All IsByte key) where
  decode_dd_address-bech32m :
      (addr : List ℕ) × (encode_witness_address (network_hrp n) 1 (bytes_to_hex key) ≡ ok addr)
      × (decode_dd_address sha256 to_lower to_upper addr
          ≡ ok (record { output_key_hex = bytes_to_hex key; network = n }))
  unfolding decode_dd_address taproot_destination
  decode_dd_address-bech32m =
      let (small, positive, short) = hrp_small n in
      let (addr, made, read, plain, rest, parts, solid) =
        encoded_lem to_lower to_upper (keeps_small to_lower lowers) (network_hrp n) 1 key small
          positive (key-IsProgram key size bytes)
          (fits (length (network_hrp n)) (length key) short (omega (arith, size))) in
      let clean : has_space addr ≡ false =
        ap has_space parts
        ∙ has_space-solid (network_hrp n ++ b'1' ∷ rest)
            (All-append _ (network_hrp n) (b'1' ∷ rest) (hrp_solid n) (one_solid, solid)) in
      let lower = keeps_small to_lower lowers addr plain ∙ parts in
      let found =
        ap (λ l. find (λ m. starts_with l (network_hrp m ++ b'1' ∷ [])) networks) lower
        ∙ found_by_hrp n rest in
      (
        addr,
        made,
        ground (
          arith,
          clean,
          found,
          read,
          same_text_refl (network_hrp n),
          length-bytes_to_hex key,
          size,
        ),
      )

  -- With a `toLowerCase` that is right on ASCII and a hash of 32 bytes: the address in bech32m
  -- and the one in base58check of a key of 32 bytes on a network are both encoded, and both are
  -- re-encoded to the one in base58check.
  pub to_dd_address-forms :
      (bech32m base58 : List ℕ) × (encode_witness_address (network_hrp n) 1 (bytes_to_hex key)
        ≡ ok bech32m)
      × (encode_dd_address sha256 (bytes_to_hex key) (network_name n) ≡ ok base58)
      × (to_dd_address sha256 to_lower to_upper bech32m ≡ ok base58)
      × (to_dd_address sha256 to_lower to_upper base58 ≡ ok base58)
  unfolding to_dd_address
  to_dd_address-forms =
      let (long, long_made, long_read) = decode_dd_address-bech32m in
      let (short, _, short_made, _, short_read) =
        decode_dd_address-encode sha256 to_lower to_upper hash lowers n key size bytes in
      (
        long,
        short,
        long_made,
        short_made,
        ground (arith, long_read, short_made),
        ground (arith, short_read, short_made),
      )
