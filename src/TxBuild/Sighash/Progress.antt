-- ===== src/TxBuild/Sighash/Progress.antt =====
-- With a key that the library takes, a coin has a script and is signed for.
use diginaut_wallet.Prelude.{
  ok-injective, ℕ, ◌+◌, ◌-◌, ◌%◌, if◌then◌else◌, ◌≤◌, ◌<◌, ◌≡◌, refl, sym, subst, ◌∙◌, List, [],
  ◌∷◌, ◌++◌, All, length, length-append, Option, none, some, ok, >>=-Returns, Returns, leb, true,
  false, ◌==◌, get_elem?, arith,
}
use diginaut_wallet.Hex.{IsByte, bytes_to_hex}
use diginaut_wallet.Hex.RoundTrip.{length-bytes_to_hex}
use diginaut_wallet.Coins.{CoinType, p2tr, p2wpkh}
use diginaut_wallet.Envelope.Metadata.{bytes_of}
use diginaut_wallet.TxBuild.{
  from_envelope, p2tr_script, big_endian, dd_token_output_key, tap_tweak_output_key,
}
use diginaut_wallet.TxBuild.Taproot.{Library}
use diginaut_wallet.TxBuild.Taproot.Leaves.{read_back}
use diginaut_wallet.TxBuild.Sighash.{
  big_int_of_hex, hex_64, tap_tweak_priv_key, p2wpkh_program_hex, p2wpkh_script, x_only_pub_key,
  script_part, taproot_message, taproot_sighash, bip143_preimage, bip143_sighash, p2wpkh_witness,
  token_script, dgb_leg_script, sign_dgb_leg,
}
use diginaut_wallet.TxBuild.Sighash.Keys.{all_hex-bytes_to_hex, hex_64-Returns}
use diginaut_wallet.TxBuild.Wire.{u32le, u64le, TxInput, Tx, concat_map, outpoint, serialize_output}
use diginaut_wallet.TxBuild.Wire.Progress.{
  IsShortHex, HasRoom, IsShortWitness, concat_map-Returns, with_length-Returns, outpoint-Returns,
  serialize_output-Returns,
}

-- A private key that the library takes: it has its public keys, its taproot tweak stays below the
-- order, and signatures are made with it and with its tweaked key.
pub record IsSigningKey (lib : Library) (priv_key_hex : List ℕ) : Type 0 where
  pub raw : List ℕ
  pub number : ℕ
  pub public_key : List ℕ
  pub x : List ℕ
  pub point : ℕ × ℕ
  pub output_key : List ℕ
  pub is_raw : from_envelope (bytes_of priv_key_hex) ≡ ok raw
  pub is_number : big_int_of_hex priv_key_hex ≡ ok number
  pub is_public : lib.get_public_key raw ≡ some public_key
  pub compressed : length public_key ≡ 33
  pub is_x : lib.get_x_only raw ≡ some x
  pub x_bytes : All IsByte x
  pub x_whole : length x ≡ 32
  pub is_point : lib.base_multiply number ≡ some point
  pub tweak_below : big_endian 0 (lib.curve.tap_tweak_hash x) < lib.curve.order
  pub tweaked :
      lib.curve.tweak_add (bytes_to_hex x) (big_endian 0 (lib.curve.tap_tweak_hash x))
      ≡ some (bytes_to_hex output_key)
  pub output_bytes : All IsByte output_key
  pub output_whole : length output_key ≡ 32
  pub ecdsa :
      (message : List ℕ)
      → (sig : List ℕ) × (lib.ecdsa_sign message raw ≡ some sig) × (length sig ≤ 72)
  pub schnorr :
      (message tweaked_hex key : List ℕ)
      → tap_tweak_priv_key lib priv_key_hex ≡ ok tweaked_hex
      → from_envelope (bytes_of tweaked_hex) ≡ ok key
      → (sig : List ℕ) × (lib.schnorr_sign message key ≡ some sig) × (length sig ≡ 64)

-- RIPEMD-160 gives 20 bytes.
abbrev pub Hashes160 : Library → Type 0
Hashes160 lib =
    (bytes : List ℕ) → All IsByte (lib.ripemd160 bytes) × (length (lib.ripemd160 bytes) ≡ 20)

module _ (lib : Library) where
  script_part-Returns :
      (i : TxInput) → IsShortHex i.script_pub_key_hex → Returns (script_part lib i)
  unfolding script_part
  script_part-Returns i (bytes, read, short) =
      >>=-Returns (from_envelope (bytes_of i.script_pub_key_hex)) _ (bytes, read)
        (λ spk is.
          with_length-Returns spk
            (subst (λ (b : List ℕ). length b ≤ 0xffff) (ok-injective (sym read ∙ is)) short))

  pub taproot_sighash-Returns :
      (tx : Tx) (i : ℕ) (leaf : Option (List ℕ))
      → HasRoom tx
      → Returns (taproot_sighash lib tx i leaf)
  unfolding taproot_sighash taproot_message
  taproot_sighash-Returns tx i leaf v =
      >>=-Returns (taproot_message lib tx i leaf) _
        (>>=-Returns (concat_map outpoint tx.inputs) _
          (concat_map-Returns _ outpoint outpoint-Returns tx.inputs v.txids)
          (λ prevouts _.
            >>=-Returns (concat_map (λ j. ok (u64le j.value_sats)) tx.inputs) _
              (concat_map-Returns _ _ (λ j _. (_, refl)) tx.inputs v.txids)
              (λ amounts _.
                >>=-Returns (concat_map (script_part lib) tx.inputs) _
                  (concat_map-Returns _ _ script_part-Returns tx.inputs v.scripts)
                  (λ scripts _.
                    >>=-Returns (concat_map (λ j. ok (u32le j.sequence)) tx.inputs) _
                      (concat_map-Returns _ _ (λ j _. (_, refl)) tx.inputs v.txids)
                      (λ sequences _.
                        >>=-Returns (concat_map serialize_output tx.outputs) _
                          (concat_map-Returns _ _ serialize_output-Returns tx.outputs v.short)
                          (λ outputs _. (_, refl)))))))
        (λ msg _. (_, refl))

  bip143_sighash-Returns :
      (tx : Tx) (i : ℕ) (input : TxInput)
      → HasRoom tx
      → get_elem? tx.inputs i ≡ some input
      → IsShortHex input.script_pub_key_hex
      → Returns (from_envelope (bytes_of input.txid_hex))
      → Returns (bip143_sighash lib tx i)
  unfolding bip143_sighash bip143_preimage
  bip143_sighash-Returns tx i input v present (spk, read, short) txid =
      let (point, is_point) = outpoint-Returns input txid in
      >>=-Returns (bip143_preimage lib tx i) _
        (>>=-Returns (concat_map outpoint tx.inputs) _
          (concat_map-Returns _ outpoint outpoint-Returns tx.inputs v.txids)
          (λ prevouts _.
            >>=-Returns (concat_map (λ j. ok (u32le j.sequence)) tx.inputs) _
              (concat_map-Returns _ _ (λ j _. (_, refl)) tx.inputs v.txids)
              (λ sequences _.
                >>=-Returns (concat_map serialize_output tx.outputs) _
                  (concat_map-Returns _ _ serialize_output-Returns tx.outputs v.short)
                  (λ outputs _. rw (present, read, is_point) (_, refl)))))
        (λ preimage _. (_, refl))

  module _ (priv_key_hex : List ℕ) (k : IsSigningKey lib priv_key_hex) where
    x_only_is : x_only_pub_key lib priv_key_hex ≡ ok (bytes_to_hex k.x)
    unfolding x_only_pub_key
    x_only_is = rw (k.is_raw, k.is_x) refl

    x_read : from_envelope (bytes_of (bytes_to_hex k.x)) ≡ ok k.x
    x_read = read_back k.x k.x_bytes (omega (arith, k.x_whole))

    token_is : token_script lib (bytes_to_hex k.x) ≡ ok (0x51 ∷ 0x20 ∷ k.output_key)
    unfolding token_script dd_token_output_key tap_tweak_output_key p2tr_script
    token_is =
        let digits : (length (bytes_to_hex k.x) == 64) ≡ true =
          rw (length-bytes_to_hex k.x, k.x_whole) refl in
        let below : leb lib.curve.order (big_endian 0 (lib.curve.tap_tweak_hash k.x)) ≡ false =
          ground (arith, k.tweak_below) in
        rw
          (
            digits,
            all_hex-bytes_to_hex k.x k.x_bytes,
            x_read,
            below,
            k.tweaked,
            read_back k.output_key k.output_bytes (omega (arith, k.output_whole)),
          )
          refl

    pub dgb_leg_script-Returns :
        Hashes160 lib
        → (t : CoinType)
        → (script : List ℕ) × (dgb_leg_script lib t priv_key_hex ≡ ok script)
          × IsShortHex (bytes_to_hex script)
    unfolding dgb_leg_script p2wpkh_script p2wpkh_program_hex
    dgb_leg_script-Returns h p2tr = (
      0x51 ∷ 0x20 ∷ k.output_key,
      rw (x_only_is, token_is) refl,
      (
        0x51 ∷ 0x20 ∷ k.output_key,
        read_back (0x51 ∷ 0x20 ∷ k.output_key) (omega arith, (omega arith, k.output_bytes))
            (omega arith),
        omega (arith, k.output_whole),
      ),
    )
    dgb_leg_script-Returns h p2wpkh =
        let hash = lib.ripemd160 (lib.sha256 k.public_key) in
        let (bytes, whole) = h (lib.sha256 k.public_key) in
        let read = read_back hash bytes (omega (arith, whole)) in
        (
          0 ∷ 0x14 ∷ hash,
          rw (k.is_raw, k.is_public, read) refl,
          (
            0 ∷ 0x14 ∷ hash,
            read_back (0 ∷ 0x14 ∷ hash) (omega arith, (omega arith, bytes)) (omega arith),
            omega (arith, whole),
          ),
        )

    tap_tweak_priv_key-hex : (n : ℕ) × (tap_tweak_priv_key lib priv_key_hex ≡ ok (hex_64 n))
    unfolding tap_tweak_priv_key
    tap_tweak_priv_key-hex =
        let (px, is_px) = hex_64-Returns k.point.0 in
        let d = if k.point.1 % 2 == 0 then k.number else lib.curve.order - k.number in
        let t = big_endian 0 (lib.curve.tap_tweak_hash px) in
        ((d + t) % lib.curve.order, rw (k.is_number, k.is_point, is_px) refl)

    pub sign_dgb_leg-Returns :
        (t : CoinType) (tx : Tx) (i : ℕ) (input : TxInput)
        → HasRoom tx
        → get_elem? tx.inputs i ≡ some input
        → IsShortHex input.script_pub_key_hex
        → Returns (from_envelope (bytes_of input.txid_hex))
        → (w : List (List ℕ)) × (sign_dgb_leg lib t priv_key_hex tx i ≡ ok w) × IsShortWitness w
    unfolding sign_dgb_leg p2wpkh_witness
    sign_dgb_leg-Returns p2tr tx i input v present script txid =
        let (hash, hashed) = taproot_sighash-Returns tx i none v in
        let (n, tweaked) = tap_tweak_priv_key-hex in
        let (key, read) = hex_64-Returns n in
        let (sig, signed, whole) = k.schnorr hash (hex_64 n) key tweaked read in
        (
          sig ∷ [],
          rw (hashed, tweaked, read, signed) refl,
          (omega arith, (omega (arith, whole), tt)),
        )
    sign_dgb_leg-Returns p2wpkh tx i input v present script txid =
        let (hash, hashed) = bip143_sighash-Returns tx i input v present script txid in
        let (der, signed, short) = k.ecdsa hash in
        (
          (der ++ 1 ∷ []) ∷ k.public_key ∷ [],
          rw (hashed, k.is_raw, signed, k.is_public) refl,
          (
            omega arith,
            (omega (arith, short, length-append der (1 ∷ [])), (omega (arith, k.compressed), tt)),
          ),
        )
