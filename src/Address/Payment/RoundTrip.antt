-- ===== src/Address/Payment/RoundTrip.antt =====
-- An address of one of DigiByte's networks is paid by the script that it was made from, and a
-- taproot key is read from both of its forms.
use diginaut_wallet.Prelude.{
  ℕ, ◌+◌, ◌*◌, ◌/◌, ◌<◌, ◌≤◌, ◌≡◌, refl, ap, ◌∙◌, List, [], ◌∷◌, ◌++◌, map, arith, ok, false, All,
  All-append, length, inl, inr,
}
use diginaut_wallet.Hex.{bytes_to_hex, is_space}
use diginaut_wallet.Text.{lower_letter}
use diginaut_wallet.Address.Charset.{IsSmall}
use diginaut_wallet.Address.Witness.{encode_witness_address, witness_script_hex}
use diginaut_wallet.Address.Witness.RoundTrip.{IsProgram, encoded_lem}
use diginaut_wallet.Address.DigiDollar.{Network, mainnet, testnet, regtest, network_hrp, has_space}
use diginaut_wallet.Address.Payment.{script_pub_key_from_address, describe_witness}
use diginaut_wallet.Address.Payment.Scripts.{opcode, bytes_back}

abbrev pub IsAscii : ℕ → Type 0
IsAscii c = c < 128

-- What `toLowerCase` does to a text in ASCII.
abbrev pub LowersAscii : (List ℕ → List ℕ) → Type 0
LowersAscii to_lower = (s : List ℕ) → All IsAscii s → to_lower s ≡ map lower_letter s

lower_small : (c : ℕ) → IsSmall c → (lower_letter c ≡ c) × (c < 128)
unfolding lower_letter
lower_small c (inl low) = (ground (arith, low), omega (arith, low))
lower_small c (inr high) = (ground (arith, high), high.1)

map-lower_small : (s : List ℕ) → All IsSmall s → (map lower_letter s ≡ s) × All IsAscii s
map-lower_small [] h = (refl, tt)
map-lower_small (c ∷ s) h =
    let (same, ascii) = lower_small c h.0 in
    let (rest, all) = map-lower_small s h.1 in (cc, (ascii, all))

pub keeps_small :
    (to_lower : List ℕ → List ℕ)
    → LowersAscii to_lower
    → (s : List ℕ) → All IsSmall s
    → to_lower s ≡ s
keeps_small to_lower lowers s h = let (same, ascii) = map-lower_small s h in lowers s ascii ∙ same

pub has_space-solid : (s : List ℕ) → All (λ c. is_space c ≡ false) s → has_space s ≡ false
unfolding has_space
has_space-solid [] h = refl
has_space-solid (c ∷ s) h = ground (arith, h.0, has_space-solid s h.1)

pub hrp_solid : (n : Network) → All (λ c. is_space c ≡ false) (network_hrp n)
unfolding is_space
hrp_solid mainnet = (refl, (refl, (refl, tt)))
hrp_solid testnet = (refl, (refl, (refl, (refl, tt))))
hrp_solid regtest = (refl, (refl, (refl, (refl, (refl, tt)))))

letter : (c : ℕ) → (b'Z' < c) × (c < 128) → IsSmall c
letter c h = inr h

pub hrp_small :
    (n : Network)
    → All IsSmall (network_hrp n) × (0 < length (network_hrp n)) × (length (network_hrp n) ≤ 5)
hrp_small mainnet = (
  (letter b'd' (omega arith), (letter b'g' (omega arith), (letter b'b' (omega arith), tt))),
  omega arith,
  omega arith,
)
hrp_small testnet = (
  (
    letter b'd' (omega arith),
    (letter b'g' (omega arith), (letter b'b' (omega arith), (letter b't' (omega arith), tt))),
  ),
  omega arith,
  omega arith,
)
hrp_small regtest = (
  (
    letter b'd' (omega arith),
    (
      letter b'g' (omega arith),
      (letter b'b' (omega arith), (letter b'r' (omega arith), (letter b't' (omega arith), tt))),
    ),
  ),
  omega arith,
  omega arith,
)

pub one_solid : is_space b'1' ≡ false
unfolding is_space
one_solid = refl

pub fits : (h n : ℕ) → h ≤ 5 → n ≤ 40 → h + (n * 8 + 4) / 5 + 8 ≤ 90
fits h n p q = omega arith

module _ (sha256 to_lower to_upper : List ℕ → List ℕ) (lowers : LowersAscii to_lower) (n : Network)
    (version : ℕ) (program : List ℕ) where
  -- With a `toLowerCase` that is right on ASCII: for each network, a version and a program that
  -- is allowed for it, the address that is encoded is paid with the script of that version and
  -- program.
  pub script_pub_key_from_address-encode :
      IsProgram version program
      → (addr : List ℕ) × (encode_witness_address (network_hrp n) version (bytes_to_hex program)
          ≡ ok addr)
        × (script_pub_key_from_address sha256 to_lower to_upper addr
            ≡ ok (bytes_to_hex (opcode version ∷ length program ∷ program)))
  unfolding script_pub_key_from_address describe_witness witness_script_hex
  script_pub_key_from_address-encode p =
      let (small, positive, short) = hrp_small n in
      let (addr, made, read, _, rest, parts, solid) =
        encoded_lem to_lower to_upper (keeps_small to_lower lowers) (network_hrp n) version program
          small positive p (fits (length (network_hrp n)) (length program) short p.short_enough) in
      let clean : has_space addr ≡ false =
        ap has_space parts
        ∙ has_space-solid (network_hrp n ++ b'1' ∷ rest)
            (All-append _ (network_hrp n) (b'1' ∷ rest) (hrp_solid n) (one_solid, solid)) in
      (
        addr,
        made,
        ground (arith, clean, read, bytes_back program p.bytes (omega (arith, p.long_enough))),
      )
