-- ===== src/Address/Checksum.antt =====
-- address.js: `polymod` and `hrpExpand`, the checksum of bech32. The values are code units, so that
-- every intermediate number is below 2^30 and no bit operation of JavaScript wraps.
pub mod Laws
use Prim.Native.Nat.{bit_xor}
use diginaut_wallet.Prelude.{
  ℕ, ◌+◌, ◌-◌, ◌*◌, ◌/◌, ◌%◌, ◌^◌, List, [], ◌∷◌, ◌++◌, map, foldl, Bool, ◌&&◌, leb, ◌==◌,
  if◌then◌else◌,
}

abbrev pub bech32_const : ℕ
bech32_const = 1

abbrev pub bech32m_const : ℕ
bech32m_const = 0x2bc830a3

-- GEN
abbrev pub generators : List ℕ
generators = 0x3b6a57b2 ∷ 0x26508e6d ∷ 0x1ea119fa ∷ 0x3d4233dd ∷ 0x2a1462b3 ∷ []

-- The inner loop, from the round i on.
unfoldable pub mix : ℕ → ℕ → ℕ → List ℕ → ℕ
mix top i chk [] = chk
mix top i chk (g ∷ gs) = mix top (i + 1) (if top / 2 ^ i % 2 == 1 then bit_xor chk g else chk) gs

unfoldable pub polymod_step : ℕ → ℕ → ℕ
unfolding mix
polymod_step chk v = mix (chk / 2 ^ 25) 0 (bit_xor (chk % 2 ^ 25 * 2 ^ 5) v) generators

unfoldable pub polymod_from : ℕ → List ℕ → ℕ
polymod_from chk [] = chk
polymod_from chk (v ∷ vs) = polymod_from (polymod_step chk v) vs

unfoldable pub polymod : List ℕ → ℕ
unfolding polymod_from
polymod values = polymod_from 1 values

-- `[...hrp]` has the code points of the text, and `charCodeAt(0)` is the first unit of each: the
-- second unit of a surrogate pair is left out.
unfoldable pub leading_units : List ℕ → List ℕ
leading_units [] = []
leading_units (a ∷ []) = a ∷ []
leading_units (a ∷ b ∷ rest) =
    let after_pair = leading_units rest in
    let after_unit = leading_units (b ∷ rest) in
    if leb 0xd800 a && leb a 0xdbff && leb 0xdc00 b && leb b 0xdfff
    then a ∷ after_pair
    else a ∷ after_unit

unfoldable pub hrp_expand : List ℕ → List ℕ
unfolding leading_units
hrp_expand hrp =
    map (λ c. c / 2 ^ 5) (leading_units hrp) ++ 0 ∷ map (λ c. c % 2 ^ 5) (leading_units hrp)

-- `Array.from({ length: 6 }, (_, i) => (mod >>> (5 * (5 - i))) & 31)`
unfoldable pub checksum_digits : ℕ → List ℕ
checksum_digits mod_ = map (λ i. mod_ / 2 ^ (5 * (5 - i)) % 2 ^ 5) (0 ∷ 1 ∷ 2 ∷ 3 ∷ 4 ∷ 5 ∷ [])

abbrev pub six_zeros : List ℕ
six_zeros = 0 ∷ 0 ∷ 0 ∷ 0 ∷ 0 ∷ 0 ∷ []
