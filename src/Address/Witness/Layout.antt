-- ===== src/Address/Witness/Layout.antt =====
-- What the parts of an encoded address are when it is taken apart.
use Prim.Native.Nat.{bit_xor}
use diginaut_wallet.Prelude.{
  ℕ, suc, ◌+◌, ◌-◌, ◌/◌, ◌%◌, ◌^◌, ◌<◌, ◌≤◌, ◌≡◌, refl, sym, ap, ◌∙◌, List, [], ◌∷◌, ◌++◌, map,
  arith, All, All-append, length, length-append, take, drop, take-append, none, ok, inl, inr,
  append_assoc,
}
use diginaut_wallet.Address.Checksum.{
  leading_units, hrp_expand, polymod, checksum_digits, six_zeros,
}
use diginaut_wallet.Address.Checksum.Laws.{polymod_checksum}
use diginaut_wallet.Address.Charset.{
  spelled, IsSmall, last_index_of-spelled, spelled-IsSmall, length-spelled,
}
use diginaut_wallet.Address.Witness.{separator, inner, spec_of}

abbrev pub IsDigit : ℕ → Type 0
IsDigit d = d < 32

module _ {A B : Type 0} (P : A → Type 0) (Q : B → Type 0) (f : A → B) where
  All-map : (xs : List A) → ((x : A) → P x → Q (f x)) → All P xs → All Q (map f xs)
  All-map [] keeps h = tt
  All-map (x ∷ xs) keeps h = (keeps x h.0, All-map xs keeps h.1)

All-weaken :
    {A : Type 0} (P Q : A → Type 0) (xs : List A) → ((x : A) → P x → Q x) → All P xs → All Q xs
All-weaken P Q [] keeps h = tt
All-weaken P Q (x ∷ xs) keeps h = (keeps x h.0, All-weaken P Q xs keeps h.1)

IsSmall-lt : (c : ℕ) → IsSmall c → c < 128
IsSmall-lt c (inl low) = omega arith
IsSmall-lt c (inr high) = high.1

-- A text in ASCII has no surrogate pairs.
pub leading_units-IsSmall : (s : List ℕ) → All IsSmall s → leading_units s ≡ s
unfolding leading_units
leading_units-IsSmall [] h = refl
leading_units-IsSmall (a ∷ []) h = refl
leading_units-IsSmall (a ∷ b ∷ rest) h =
    ground (arith, IsSmall-lt a h.0, leading_units-IsSmall (b ∷ rest) h.1)

hrp_expand-lt : (hrp : List ℕ) → All IsSmall hrp → All (λ v. v < 2 ^ 30) (hrp_expand hrp)
unfolding hrp_expand
hrp_expand-lt hrp h = rw (leading_units-IsSmall hrp h) (
    All-append _ (map (λ c. c / 2 ^ 5) hrp) (0 ∷ map (λ c. c % 2 ^ 5) hrp)
      (All-map IsSmall _ (λ c. c / 2 ^ 5) hrp (λ c small. omega (arith, IsSmall-lt c small)) h)
      (omega arith, All-map IsSmall _ (λ c. c % 2 ^ 5) hrp (λ c small. omega arith) h))

-- The digits that are appended make the text pass the test of the decoder.
pub checksum-passes :
    (hrp digits : List ℕ) (spec : ℕ)
    → All IsSmall hrp
    → All IsDigit digits
    → spec < 2 ^ 30
    → polymod (
        hrp_expand hrp
        ++ (digits
            ++ checksum_digits (bit_xor (polymod (hrp_expand hrp ++ digits ++ six_zeros)) spec)))
      ≡ spec
checksum-passes hrp digits spec small few fits =
    let values = hrp_expand hrp ++ digits in
    let fine : All (λ v. v < 2 ^ 30) values =
      All-append _ (hrp_expand hrp) digits (hrp_expand-lt hrp small)
        (All-weaken IsDigit _ digits (λ d h. omega (arith, h)) few) in
    ap polymod (
      sym (
        append_assoc (hrp_expand hrp) digits
          (checksum_digits (bit_xor (polymod (values ++ six_zeros)) spec))))
    ∙ polymod_checksum values spec fine fits

pub checksum_digits-lt : (m : ℕ) → All IsDigit (checksum_digits m)
unfolding checksum_digits
checksum_digits-lt m = omega arith

pub length-checksum_digits : (m : ℕ) → length (checksum_digits m) ≡ 6
unfolding checksum_digits
length-checksum_digits m = refl

pub spec_of-lt : (version : ℕ) → spec_of version < 2 ^ 30
spec_of-lt version = ground arith

module _ (hrp digits : List ℕ) (few : All IsDigit digits) where
  pub separator-spelled :
      0 < length hrp
      → 6 ≤ length digits
      → separator (hrp ++ b'1' ∷ spelled digits) ≡ ok (length hrp)
  unfolding separator
  separator-spelled positive enough = ground (
    arith,
    last_index_of-spelled 0 none hrp digits few,
    length-append hrp (b'1' ∷ spelled digits),
    length-spelled digits few,
  )

  pub length-encoded : length (hrp ++ b'1' ∷ spelled digits) ≡ length hrp + (length digits + 1)
  length-encoded =
      omega (arith, length-append hrp (b'1' ∷ spelled digits), length-spelled digits few)

  pub encoded-IsSmall : All IsSmall hrp → All IsSmall (hrp ++ b'1' ∷ spelled digits)
  encoded-IsSmall small =
      All-append IsSmall hrp (b'1' ∷ spelled digits) small
        (inl (omega arith), spelled-IsSmall digits few)

pub drop_past :
    (hrp : List ℕ) (c : ℕ) (rest : List ℕ) → drop (length hrp + 1) (hrp ++ c ∷ rest) ≡ rest
drop_past [] c rest = refl
drop_past (x ∷ hrp) c rest =
    let e : suc (length hrp) + 1 ≡ suc (length hrp + 1) = omega arith in
    ap (λ k. drop k (x ∷ (hrp ++ c ∷ rest))) e ∙ drop_past hrp c rest

pub inner-groups :
    (v : ℕ) (groups sums : List ℕ) → length sums ≡ 6 → inner (v ∷ groups ++ sums) ≡ groups
unfolding inner
inner-groups v groups sums six =
    let e : suc (length (groups ++ sums)) - 7 ≡ length groups =
      omega (arith, length-append groups sums, six) in
    ap (λ k. take k (groups ++ sums)) e ∙ take-append groups sums
