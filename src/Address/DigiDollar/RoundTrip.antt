-- ===== src/Address/DigiDollar/RoundTrip.antt =====
-- A DigiDollar address begins with the two letters of its network, and is read back from both forms.
use diginaut_wallet.Prelude.{
  ℕ, ◌<◌, ◌≡◌, ap, ◌∙◌, List, [], ◌∷◌, ◌++◌, map, arith, ok, All, All-append, length, length-append,
}
use diginaut_wallet.Hex.{IsByte, bytes_to_hex}
use diginaut_wallet.Hex.RoundTrip.{length-bytes_to_hex}
use diginaut_wallet.Text.{lower_letter}
use diginaut_wallet.Address.Base58.{
  base58_check_encode, base58_check_decode, base58_encode, checksum_of, leading,
}
use diginaut_wallet.Address.Base58.RoundTrip.{IsHash, checksum_bytes, base58_check_decode-encode}
use diginaut_wallet.Address.Payment.Scripts.{bytes_back}
use diginaut_wallet.Address.Payment.RoundTrip.{LowersAscii, has_space-solid}
use diginaut_wallet.Address.DigiDollar.{
  Network, mainnet, testnet, regtest, network_name, version_high, version_low, network_hrp,
  starts_with, destination_of, encode_dd_address, decode_dd_address,
}
use diginaut_wallet.Address.DigiDollar.Letters.{
  prefix, known_network-name, no_hrp, base58_encode-IsText, bytes_to_hex-fine,
}

destination_of-version :
    (n : Network) (key : List ℕ)
    → length key ≡ 32
    → destination_of (version_high n ∷ version_low n ∷ key)
      ≡ ok (record { output_key_hex = bytes_to_hex key; network = n })
unfolding destination_of
destination_of-version mainnet key size = ground (arith, size)
destination_of-version testnet key size = ground (arith, size)
destination_of-version regtest key size = ground (arith, size)

positive_version :
    (n : Network) (rest : List ℕ)
    → leading 0 (version_high n ∷ version_low n ∷ rest)
      < length (version_high n ∷ version_low n ∷ rest)
unfolding leading
positive_version mainnet rest = omega arith
positive_version testnet rest = omega arith
positive_version regtest rest = omega arith

version-IsByte : (n : Network) → IsByte (version_high n) × IsByte (version_low n)
version-IsByte mainnet = omega arith
version-IsByte testnet = omega arith
version-IsByte regtest = omega arith

module _ (sha256 to_lower to_upper : List ℕ → List ℕ) (hash : IsHash sha256)
    (lowers : LowersAscii to_lower) (n : Network) (key : List ℕ) where
  -- With a `toLowerCase` that is right on ASCII and a hash of 32 bytes: for each network and
  -- each key of 32 bytes a DigiDollar address is encoded, it begins with DD, TD or RD for the
  -- network, and decoding it gives the key and the network.
  pub decode_dd_address-encode :
      length key ≡ 32
      → All IsByte key
      → (addr : List ℕ) × (letters : List ℕ) × (encode_dd_address sha256
            (bytes_to_hex key)
            (network_name n)
          ≡ ok addr)
        × (addr ≡ prefix n ++ letters)
        × (decode_dd_address sha256 to_lower to_upper addr
            ≡ ok (record { output_key_hex = bytes_to_hex key; network = n }))
  unfolding encode_dd_address decode_dd_address base58_check_encode
  decode_dd_address-encode size bytes =
      let payload = version_high n ∷ version_low n ∷ key in
      let (four, sums) = checksum_bytes sha256 hash payload in
      let tail = key ++ checksum_of sha256 payload in
      let text =
        base58_encode-IsText n tail
          (omega (arith, length-append key (checksum_of sha256 payload), size, four))
          (All-append IsByte key (checksum_of sha256 payload) bytes sums) in
      let addr = base58_encode (version_high n ∷ version_low n ∷ tail) in
      let lower : to_lower addr ≡ map lower_letter (prefix n ++ text.letters) =
        lowers addr text.ascii ∙ ap (map lower_letter) text.prefixed in
      let (fine, same) = bytes_to_hex-fine key bytes in
      let other = λ (m : Network).
        ap (λ l. starts_with l (network_hrp m ++ b'1' ∷ [])) lower ∙ no_hrp n m text.letters in
      let (high, low) = version-IsByte n in
      let read : base58_check_decode sha256 addr ≡ ok payload =
        base58_check_decode-encode sha256 hash payload (high, (low, bytes))
          (positive_version n key) in
      (
        addr,
        text.letters,
        ground (
          arith,
          known_network-name n,
          fine,
          same,
          length-bytes_to_hex key,
          bytes_back key bytes (omega (arith, size)),
        ),
        text.prefixed,
        ground (
          arith,
          has_space-solid addr text.solid,
          other mainnet,
          other testnet,
          other regtest,
          read,
          destination_of-version n key size,
        ),
      )
