-- ===== src/TxBuild/Taproot/Leaves.antt =====
-- The bytes that taproot.js makes of a leaf and of a control block, and the order of the two children
-- of its branch.
use Prim.Native.Nat.{bit_or}
use diginaut_wallet.Prelude.{
  ℕ, zero, suc, ◌*◌, ◌/◌, ◌%◌, ◌<◌, ◌≡◌, refl, ap, List, [], ◌∷◌, ◌++◌, true, false, ok, ◌==◌,
  if◌then◌else◌, length, length-append, All, All-append, Bool-cases, inl, inr, arith,
}
use diginaut_wallet.Hex.{
  IsByte, bytes_to_hex, hex_to_bytes, pairs, parse_pair, digit_value, is_space, is_line_terminator,
  hex_digit,
}
use diginaut_wallet.Hex.RoundTrip.{hex_to_bytes-bytes_to_hex}
use diginaut_wallet.Envelope.ScriptNum.{le_minimal}
use diginaut_wallet.Envelope.ScriptNum.Laws.{le_minimal-IsByte}
use diginaut_wallet.Envelope.Metadata.{bytes_of}
use diginaut_wallet.TxBuild.{from_envelope}
use diginaut_wallet.TxBuild.Taproot.{
  Library, Leaf, tap_branch, collateral_nums_key, leaf_version, lex_le, push_script_num, push_data,
  normal_redemption_script, tap_branch_hash, cltv, drop_op, digidollar, ddverify, checksig,
}

-- A branch has the smaller child first.
abbrev pub sorted_branch : Library → List ℕ → List ℕ → List ℕ
sorted_branch lib k e = lib.tagged_hash tap_branch (if lex_le e k then e ++ k else k ++ e)

abbrev pub nums_bytes : List ℕ
nums_bytes =
    0x50 ∷ 0x92 ∷ 0x9b ∷ 0x74 ∷ 0xc1 ∷ 0xa0 ∷ 0x49 ∷ 0x54 ∷ 0xb7 ∷ 0x8b ∷ 0x4b ∷ 0x60 ∷ 0x35 ∷ 0xe9
    ∷ 0x7a ∷ 0x5e ∷ 0x07 ∷ 0x8a ∷ 0x5a ∷ 0x0f ∷ 0x28 ∷ 0xec ∷ 0x96 ∷ 0xd5 ∷ 0x47 ∷ 0xbf ∷ 0xee
    ∷ 0x9a ∷ 0xce ∷ 0x80 ∷ 0x3a ∷ 0xc0 ∷ []

lex_le_antisym : (a b : List ℕ) → lex_le a b ≡ true → lex_le b a ≡ true → a ≡ b
unfolding lex_le
lex_le_antisym [] [] h k = refl
lex_le_antisym [] (y ∷ b) h k = cc
lex_le_antisym (x ∷ a) [] h k = cc
lex_le_antisym (x ∷ a) (y ∷ b) h k = ground (arith, lex_le_antisym a b)

lex_le_total : (a b : List ℕ) → lex_le a b ≡ false → lex_le b a ≡ true
unfolding lex_le
lex_le_total [] b h = cc
lex_le_total (x ∷ a) [] h = refl
lex_le_total (x ∷ a) (y ∷ b) h = ground (arith, lex_le_total a b)

same_order :
    (a b : List ℕ)
    → (if lex_le a b then a ++ b else b ++ a) ≡ (if lex_le b a then b ++ a else a ++ b)
same_order a b = ground (arith, lex_le_total a b, lex_le_total b a, lex_le_antisym a b)

pub tap_branch_hash-sorted :
    (lib : Library) (a b : List ℕ) → tap_branch_hash lib a b ≡ sorted_branch lib a b
unfolding tap_branch_hash
tap_branch_hash-sorted lib a b = ap (lib.tagged_hash tap_branch) (same_order a b)

push_script_num-IsByte : (v : ℕ) → length (push_script_num v) < 256 → All IsByte (push_script_num v)
unfolding push_script_num
push_script_num-IsByte v h = elim (Bool-cases (v == 0)) [
  | inl zero_ ↦ rw zero_ (omega arith, tt)
  | inr more ↦
      let short : suc (length (le_minimal v)) < 256 = rw more at h in
      rw more (omega (arith, short), le_minimal-IsByte v)
]

-- The parts of a leaf that fits are short enough for their lengths to be bytes.
pub normal-IsByte :
    (l : Leaf)
    → All IsByte l.owner_key
    → length (normal_redemption_script l) < 0xfd
    → All IsByte (normal_redemption_script l)
unfolding normal_redemption_script push_data
normal-IsByte l h short =
    let height = push_script_num l.lock_height in
    let cents = push_script_num l.dd_cents in
    let key = l.owner_key in
    let end_ : List ℕ = ddverify ∷ (length key ∷ key) ++ checksig ∷ [] in
    let mid : List ℕ = cltv ∷ drop_op ∷ digidollar ∷ cents ++ end_ in
    let e_1 = length-append height mid in
    let e_2 = length-append cents end_ in
    let e_3 = length-append key (checksig ∷ []) in
    All-append IsByte height mid (push_script_num-IsByte l.lock_height (omega (arith, short, e_1)))
      (
        omega arith,
        (
          omega arith,
          (
            omega arith,
            All-append IsByte cents end_
                (push_script_num-IsByte l.dd_cents (omega (arith, short, e_1, e_2)))
                (
                  omega arith,
                  (
                    omega (arith, short, e_1, e_2, e_3),
                    All-append IsByte key (checksig ∷ []) h (omega arith, tt),
                  ),
                ),
          ),
        ),
      )

bytes_of-bytes_to_hex :
    (b : ℕ) (bytes : List ℕ)
    → All IsByte (b ∷ bytes)
    → from_envelope (bytes_of (bytes_to_hex (b ∷ bytes))) ≡ ok (b ∷ bytes)
unfolding bytes_of
bytes_of-bytes_to_hex b bytes h =
    rw (hex_to_bytes-bytes_to_hex (b ∷ bytes) h (λ e. cc), bytes_of) refl

pub bytes_to_hex-append :
    (xs ys : List ℕ) → bytes_to_hex (xs ++ ys) ≡ bytes_to_hex xs ++ bytes_to_hex ys
unfolding bytes_to_hex
bytes_to_hex-append [] ys = refl
bytes_to_hex-append (x ∷ xs) ys =
    ap (λ t. hex_digit (x / 16) ∷ hex_digit (x % 16) ∷ t) (bytes_to_hex-append xs ys)

pub nums_back : bytes_to_hex nums_bytes ≡ collateral_nums_key
unfolding bytes_to_hex hex_digit
nums_back = refl

pub nums_read : from_envelope (bytes_of collateral_nums_key) ≡ ok nums_bytes
unfolding bytes_of hex_to_bytes pairs parse_pair digit_value is_space is_line_terminator
nums_read = refl

pub nums-IsByte : All IsByte nums_bytes
nums-IsByte = omega arith

pub nums-whole : length nums_bytes ≡ 32
nums-whole = refl

-- The first byte of a control block, for each parity.
pub first_byte :
    (parity : ℕ)
    → parity < 2
    → (bit_or leaf_version parity / 2 * 2 ≡ 0xc0)
      × (bit_or leaf_version parity % 2 ≡ parity)
      × (bit_or leaf_version parity < 256)
first_byte zero h = (refl, refl, omega arith)
first_byte (suc zero) h = (refl, refl, omega arith)
first_byte (suc (suc p)) h = absurd (omega arith)

pub read_back :
    (bytes : List ℕ)
    → All IsByte bytes
    → 0 < length bytes
    → from_envelope (bytes_of (bytes_to_hex bytes)) ≡ ok bytes
read_back [] h positive = absurd (omega arith)
read_back (b ∷ bytes) h positive = bytes_of-bytes_to_hex b bytes h

pub normal_pos : (l : Leaf) → 0 < length (normal_redemption_script l)
unfolding normal_redemption_script
normal_pos l = omega (
  arith,
  length-append (push_script_num l.lock_height) (
      cltv ∷ drop_op ∷ digidollar ∷ push_script_num l.dd_cents
      ++ (ddverify ∷ push_data l.owner_key ++ checksig ∷ [])),
)
