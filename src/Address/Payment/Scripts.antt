-- ===== src/Address/Payment/Scripts.antt =====
-- What an address that is accepted may be paid with: a standard script, whatever the text was.
use mathlib.Core.List.{reverse}
use diginaut_wallet.Prelude.{
  ℕ, zero, suc, ◌+◌, ◌-◌, ◌<◌, ◌≡◌, refl, sym, subst, ap, ◌∙◌, List, [], ◌∷◌, arith, ok, throw,
  ◌==◌, if◌then◌else◌, not, All, All-append, length, take, drop, Option-cases, inl, inr, ◌⊎◌, ◌>>=◌,
  Outcome, >>=_returned, >>_returned, ok-injective,
}
use diginaut_wallet.Hex.{IsByte, bytes_to_hex}
use diginaut_wallet.Hex.RoundTrip.{hex_to_bytes-bytes_to_hex}
use diginaut_wallet.Address.{AddressError, bytes_of_hex}
use diginaut_wallet.Address.Witness.{Witness, decode_witness_address, witness_script_hex, first_of}
use diginaut_wallet.Address.Witness.RoundTrip.{IsProgram}
use diginaut_wallet.Address.Witness.Accepted.{IsAccepted, decode_witness_address-IsAccepted, passed}
use diginaut_wallet.Address.Base58.{
  times_plus_all, copies, base58_decode, base58_check_decode, b58_digits, leading,
}
use diginaut_wallet.Address.Base58.Radix.{times_plus_all-All, All-reverse_aux}
use diginaut_wallet.Address.Payment.{
  AddressType, legacy_script, legacy_script_hex, legacy_of, legacy_version, Legacy,
  describe_witness, describe_legacy, Descriptor, decode_legacy_address, decode_address,
  or_otherwise,
}

abbrev pub opcode : ℕ → ℕ
opcode version = if version == 0 then 0 else 0x50 + version

-- The scripts that a payment may have: a witness program with its opcode, the two of legacy.
pub data IsPayable (script_hex : List ℕ) : Type 0 where
  witness_program :
      (version : ℕ) (program : List ℕ)
      → IsProgram version program
      → script_hex ≡ bytes_to_hex (opcode version ∷ length program ∷ program)
      → IsPayable script_hex
  legacy_hash :
      (type_ : AddressType) (h : List ℕ)
      → length h ≡ 20
      → All IsByte h
      → script_hex ≡ bytes_to_hex (legacy_script type_ h)
      → IsPayable script_hex

copies-All : (n c : ℕ) → IsByte c → All IsByte (copies n c)
unfolding copies
copies-All zero c h = tt
copies-All (suc n) c h = (h, copies-All n c h)

take-All : (n : ℕ) (xs : List ℕ) → All IsByte xs → All IsByte (take n xs)
take-All zero xs h = tt
take-All (suc n) [] h = tt
take-All (suc n) (x ∷ xs) h = (h.0, take-All n xs h.1)

base58_decode-All :
    (text : List ℕ) {bytes : List ℕ} → base58_decode text ≡ ok bytes → All IsByte bytes
unfolding base58_decode
base58_decode-All text h =
    let (digits, made, _) = >>=_returned _ (b58_digits text) h in
    subst (All IsByte) (ok-injective made) (
      All-append IsByte (copies (leading b'1' text) 0)
        (reverse (times_plus_all 256 58 (0 ∷ []) digits))
        (copies-All (leading b'1' text) 0 (omega arith))
        (All-reverse_aux IsByte (times_plus_all 256 58 (0 ∷ []) digits) []
          (times_plus_all-All 256 (omega arith) 58 (0 ∷ []) digits (omega arith)) tt))

base58_check_decode-All :
    (sha256 : List ℕ → List ℕ) (text : List ℕ) {payload : List ℕ}
    → base58_check_decode sha256 text ≡ ok payload
    → All IsByte payload
unfolding base58_check_decode
base58_check_decode-All sha256 text h =
    let (full, h1, decoded) = >>=_returned _ (base58_decode text) h in
    let (h2, _) = >>_returned _ _ h1 in
    let (h3, _) = >>_returned _ _ h2 in
    subst (All IsByte) (ok-injective h3)
      (take-All (length full - 4) full (base58_decode-All text decoded))

pub bytes_back :
    (bytes : List ℕ)
    → All IsByte bytes
    → 0 < length bytes
    → bytes_of_hex (bytes_to_hex bytes) ≡ ok bytes
unfolding bytes_of_hex
bytes_back [] h positive = absurd (omega arith)
bytes_back (b ∷ bytes) h positive =
    rw (hex_to_bytes-bytes_to_hex (b ∷ bytes) h (λ e. cc), bytes_of_hex) refl

describe_witness-IsPayable :
    (w : Witness)
    → IsAccepted w
    → {d : Descriptor} → describe_witness w ≡ ok d
    → IsPayable d.script_pub_key_hex
unfolding describe_witness witness_script_hex
describe_witness-IsPayable w a h =
    let (script, made, scripted) = >>=_returned _ (witness_script_hex w.version w.program_hex) h in
    let (program, written, read) = >>=_returned _ (bytes_of_hex w.program_hex) scripted in
    let same : program ≡ a.program = ok-injective (
      sym read
      ∙ ap bytes_of_hex a.spelled_out
      ∙ bytes_back a.program a.allowed.bytes (omega (arith, a.allowed.long_enough))) in
    witness_program w.version a.program a.allowed (
      ap (λ (d : Descriptor). d.script_pub_key_hex) (sym (ok-injective made))
      ∙ sym (ok-injective written)
      ∙ ap (λ p. bytes_to_hex (opcode w.version ∷ length p ∷ p)) same)

legacy_of-hash :
    (payload : List ℕ)
    → All IsByte payload
    → {l : Legacy} → legacy_of payload ≡ ok l
    → (l.hash160_hex ≡ bytes_to_hex (drop 1 payload))
      × (length (drop 1 payload) ≡ 20)
      × All IsByte (drop 1 payload)
unfolding legacy_of
legacy_of-hash [] h made = cc
legacy_of-hash (v ∷ payload) h made =
    let (rest, long) = >>_returned _ _ made in
    let size = passed (not (length (v ∷ payload) == 21)) AddressError.bad_payload_length long in
    elim (Option-cases (legacy_version (first_of (v ∷ payload)))) [
      | inl e ↦ ground (arith, e, rest)
      | inr (info, e) ↦ (ground (arith, e, rest), ground (arith, size), h.1)
    ]

twenty_positive : (h : List ℕ) → length h ≡ 20 → 0 < length h
twenty_positive h e = omega arith

describe_legacy-IsPayable :
    (l : Legacy) (hash : List ℕ)
    → l.hash160_hex ≡ bytes_to_hex hash
    → length hash ≡ 20
    → All IsByte hash
    → {d : Descriptor} → describe_legacy l ≡ ok d
    → IsPayable d.script_pub_key_hex
unfolding describe_legacy legacy_script_hex
describe_legacy-IsPayable l hash same twenty h made =
    let (script, made', scripted) =
      >>=_returned _ (legacy_script_hex l.info.address_type l.hash160_hex) made in
    let (bytes, written, read) = >>=_returned _ (bytes_of_hex l.hash160_hex) scripted in
    let (written', _) = >>_returned _ _ written in
    let equal : bytes ≡ hash =
      ok-injective
        (sym read ∙ ap bytes_of_hex same ∙ bytes_back hash h (twenty_positive hash twenty)) in
    legacy_hash l.info.address_type hash twenty h (
      ap (λ (d : Descriptor). d.script_pub_key_hex) (sym (ok-injective made'))
      ∙ sym (ok-injective written')
      ∙ ap (λ p. bytes_to_hex (legacy_script l.info.address_type p)) equal)

or_otherwise-cases :
    (a b : Outcome AddressError Descriptor) {d : Descriptor}
    → or_otherwise a b ≡ ok d
    → (a ≡ ok d) ⊎ (b ≡ ok d)
unfolding or_otherwise
or_otherwise-cases (ok d) b h = inl h
or_otherwise-cases (throw e) b h = inr h

module _ (sha256 to_lower to_upper : List ℕ → List ℕ) where
  decode_legacy_address-IsPayable :
      (addr : List ℕ) {d : Descriptor}
      → (decode_legacy_address sha256 to_lower to_upper addr >>= describe_legacy) ≡ ok d
      → IsPayable d.script_pub_key_hex
  unfolding decode_legacy_address
  decode_legacy_address-IsPayable addr h =
      let (l, described, found) =
        >>=_returned _ (decode_legacy_address sha256 to_lower to_upper addr) h in
      let (found', _) = >>_returned _ _ found in
      let (payload, made, decoded) = >>=_returned _ (base58_check_decode sha256 addr) found' in
      let (same, twenty, bytes) =
        legacy_of-hash payload (base58_check_decode-All sha256 addr decoded) made in
      describe_legacy-IsPayable l (drop 1 payload) same twenty bytes described

  -- Whatever text is accepted as an address, in either form, the script that it is paid with is
  -- OP_0 or OP_1 to OP_16 with a program of a length that the version allows, or the P2PKH or
  -- P2SH script of a hash of 20 bytes. So it is never an OP_RETURN.
  pub decode_address-IsPayable :
      (addr : List ℕ) {d : Descriptor}
      → decode_address sha256 to_lower to_upper addr ≡ ok d
      → IsPayable d.script_pub_key_hex
  unfolding decode_address
  decode_address-IsPayable addr h =
      let (h1, _) = >>_returned _ _ h in
      elim (or_otherwise-cases (decode_witness_address to_lower to_upper addr >>= describe_witness)
        _ h1) [
          | inl is_witness ↦
              let (w, described, decoded) =
                >>=_returned _ (decode_witness_address to_lower to_upper addr) is_witness in
              describe_witness-IsPayable w
                (decode_witness_address-IsAccepted to_lower to_upper addr decoded) described
          | inr other ↦ elim (or_otherwise-cases _ (throw AddressError.not_an_address) other) [
            | inl is_legacy ↦ decode_legacy_address-IsPayable addr is_legacy
            | inr nothing ↦ cc
          ]
        ]
