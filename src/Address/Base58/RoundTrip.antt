-- ===== src/Address/Base58/RoundTrip.antt =====
-- What was written in base 58 is read back, and so is what was written with a checksum.
use mathlib.Core.List.{reverse, reverse-reverse}
use diginaut_wallet.Prelude.{
  ℕ, zero, suc, ◌+◌, ◌-◌, ◌<◌, ◌≡◌, refl, sym, subst, ap, ◌∙◌, List, [], ◌∷◌, ◌++◌, arith, ok, ◌==◌,
  ==_iff, if◌then◌else◌, All, All-append, length, length-append, take, drop, take-append,
  drop-append, Bool-cases, inl, inr,
}
use diginaut_wallet.Hex.{IsByte}
use diginaut_wallet.Text.{same_text_refl}
use diginaut_wallet.Address.Base58.{
  copies, leading, times_plus, times_plus_all, b58_spelled, b58_digits, base58_encode,
  base58_decode, checksum_of, base58_check_encode, base58_check_decode,
}
use diginaut_wallet.Address.Base58.Digits.{IsTopped}
use diginaut_wallet.Address.Base58.Radix.{
  reverse-first, there_and_back, times_plus_all-first, converted-IsTopped, times_plus_all-All,
  All-reverse_aux,
}
use diginaut_wallet.Address.Base58.Alphabet.{
  b58_digits-spelled, leading-spelled, leading-copies, b58_digits-copies,
}

zeros_first :
    (n : ℕ) (ds : List ℕ)
    → times_plus_all 256 58 (0 ∷ []) (copies n 0 ++ ds) ≡ times_plus_all 256 58 (0 ∷ []) ds
unfolding times_plus_all copies times_plus
zeros_first zero ds = refl
zeros_first (suc n) ds = zeros_first n ds

drop_leading : (n : ℕ) (xs : List ℕ) (c : ℕ) → drop n (copies n c ++ xs) ≡ xs
unfolding copies
drop_leading zero xs c = refl
drop_leading (suc n) xs c = drop_leading n xs c

-- Bytes are their leading zeros and the rest.
split_leading :
    (bytes : List ℕ)
    → leading 0 bytes < length bytes
    → (c : ℕ) × (cs : List ℕ) × (bytes ≡ copies (leading 0 bytes) 0 ++ c ∷ cs) × (0 < c)
unfolding leading copies
split_leading [] h = absurd (omega arith)
split_leading (x ∷ xs) h = elim (Bool-cases (x == 0)) [
  | inl none_yet ↦
      let (c, cs, parts, positive) = split_leading xs (ground (arith, none_yet)) in
      (c, cs, rw (none_yet, if◌then◌else◌) (cc ((==_iff x 0).0 none_yet, parts)), positive)
  | inr here ↦ (x, xs, rw (here, if◌then◌else◌) refl, ground (arith, here))
]

All-after : (z : ℕ) (xs : List ℕ) → All IsByte (copies z 0 ++ xs) → All IsByte xs
unfolding copies
All-after zero xs h = h
All-after (suc z) xs h = All-after z xs h.1

module _ (z c : ℕ) (cs : List ℕ) (positive : 0 < c) (bytes : All IsByte (c ∷ cs)) where
  leading_lem : leading 0 (copies z 0 ++ c ∷ cs) ≡ z
  unfolding leading
  leading_lem = ground (arith, leading-copies z 0 (c ∷ cs))

  module _ (ds : List ℕ) (t : IsTopped ds) (fit : All (λ d. d < 58) ds) where
    leading_letters :
        (d : ℕ) (es : List ℕ)
        → ds ≡ d ∷ es
        → leading b'1' (copies z b'1' ++ b58_spelled (reverse ds)) ≡ z
    leading_letters d es e =
        let (x, xs, first, high) = reverse-first d es (subst IsTopped e t) in
        let whole : reverse ds ≡ x ∷ xs = ap reverse e ∙ first in
        let small : All (λ d. d < 58) (x ∷ xs) =
          subst (All (λ d. d < 58)) whole (All-reverse_aux _ ds [] fit tt) in
        leading-copies z b'1' (b58_spelled (reverse ds))
        ∙ ap (λ (l : List ℕ). z + leading b'1' (b58_spelled l)) whole
        ∙ omega (arith, leading-spelled x xs small.0 high)

  digits : List ℕ
  digits = times_plus_all 58 256 (0 ∷ []) (c ∷ cs)

  text : List ℕ
  text = copies z b'1' ++ b58_spelled (reverse digits)

  encode_text : base58_encode (copies z 0 ++ c ∷ cs) ≡ text
  unfolding base58_encode text digits
  encode_text = rw leading_lem (
      ap (λ l. copies z b'1' ++ b58_spelled (reverse (times_plus_all 58 256 (0 ∷ []) l)))
        (drop_leading z (c ∷ cs) 0))

  topped : IsTopped digits
  unfolding digits
  topped = converted-IsTopped 58 (omega arith) 256 c cs (omega arith) positive

  in_base : All (λ d. d < 58) digits
  unfolding digits
  in_base = times_plus_all-All 58 (omega arith) 256 (0 ∷ []) (c ∷ cs) (omega arith)

  leading-text : leading b'1' text ≡ z
  unfolding text digits
  leading-text =
      let (d, es, e) = times_plus_all-first 58 256 0 [] (c ∷ cs) in
      leading_letters digits topped in_base d es e

  read_text : b58_digits text ≡ ok (copies z 0 ++ reverse digits)
  unfolding text
  read_text =
      b58_digits-copies z (b58_spelled (reverse digits)) (reverse digits)
        (b58_digits-spelled (reverse digits) (All-reverse_aux _ digits [] in_base tt))

  bytes_back : reverse (times_plus_all 256 58 (0 ∷ []) (copies z 0 ++ reverse digits)) ≡ c ∷ cs
  unfolding digits
  bytes_back =
      ap reverse (
        zeros_first z (reverse digits)
        ∙ there_and_back 256 58 c cs (omega arith) (omega arith) positive bytes)
      ∙ reverse-reverse (c ∷ cs)

  decode_text : base58_decode text ≡ ok (copies z 0 ++ c ∷ cs)
  unfolding base58_decode
  decode_text = ground (arith, read_text, leading-text, bytes_back)

-- Bytes that are not all zero are read back from what they are written as.
pub base58_decode-encode :
    (bytes : List ℕ)
    → All IsByte bytes
    → leading 0 bytes < length bytes
    → base58_decode (base58_encode bytes) ≡ ok bytes
base58_decode-encode bytes h some_left =
    let (c, cs, parts, positive) = split_leading bytes some_left in
    let rest = All-after (leading 0 bytes) (c ∷ cs) (subst (All IsByte) parts h) in
    let z = leading 0 bytes in
    ap (λ l. base58_decode (base58_encode l)) parts
    ∙ ap base58_decode (encode_text z c cs positive rest)
    ∙ decode_text z c cs positive rest
    ∙ ap (λ l. ok l) (sym parts)

-- What SHA-256 returns.
abbrev pub IsHash : (List ℕ → List ℕ) → Type 0
IsHash sha256 = (bytes : List ℕ) → (length (sha256 bytes) ≡ 32) × All IsByte (sha256 bytes)

take_four :
    (xs : List ℕ)
    → length xs ≡ 32
    → All IsByte xs
    → (length (take 4 xs) ≡ 4) × All IsByte (take 4 xs)
take_four (a ∷ b ∷ c ∷ d ∷ xs) l h = (refl, omega arith)
take_four [] l h = absurd (omega arith)
take_four (a ∷ []) l h = absurd (omega arith)
take_four (a ∷ b ∷ []) l h = absurd (omega arith)
take_four (a ∷ b ∷ c ∷ []) l h = absurd (omega arith)

leading-append :
    (xs ys : List ℕ) → leading 0 xs < length xs → leading 0 (xs ++ ys) < length (xs ++ ys)
unfolding leading
leading-append [] ys h = absurd (omega arith)
leading-append (x ∷ xs) ys h = ground (arith, leading-append xs ys)

module _ (sha256 : List ℕ → List ℕ) (hash : IsHash sha256) where
  pub checksum_bytes :
      (payload : List ℕ)
      → (length (checksum_of sha256 payload) ≡ 4) × All IsByte (checksum_of sha256 payload)
  unfolding checksum_of
  checksum_bytes payload =
      let (size, bytes) = hash (sha256 payload) in take_four (sha256 (sha256 payload)) size bytes

  -- With a checksum too.
  pub base58_check_decode-encode :
      (payload : List ℕ)
      → All IsByte payload
      → leading 0 payload < length payload
      → base58_check_decode sha256 (base58_check_encode sha256 payload) ≡ ok payload
  unfolding base58_check_decode base58_check_encode
  base58_check_decode-encode payload h some_left =
      let sums = checksum_of sha256 payload in
      let (four, sum_bytes) = checksum_bytes payload in
      let size : length (payload ++ sums) ≡ length payload + 4 =
        omega (arith, length-append payload sums, four) in
      let front : length (payload ++ sums) - 4 ≡ length payload = omega (arith, size) in
      let read =
        base58_decode-encode (payload ++ sums) (All-append IsByte payload sums h sum_bytes)
          (leading-append payload sums some_left) in
      ground (
        arith,
        read,
        size,
        front,
        take-append payload sums,
        drop-append payload sums,
        same_text_refl sums,
      )
