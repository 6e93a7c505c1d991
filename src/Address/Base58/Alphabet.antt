-- ===== src/Address/Base58/Alphabet.antt =====
-- The letters of base58 are found where they stand, and `1` is the first of them.
use diginaut_wallet.Prelude.{
  ℕ, zero, suc, ◌+◌, ◌<◌, ◌≡◌, refl, List, [], ◌∷◌, ◌++◌, arith, Option, none, some, ok, ◌==◌,
  if◌then◌else◌, get_elem?, All, holds_below, holds_below-at, ltb, ltb→lt, Bool, true, false,
}
use diginaut_wallet.Hex.{is_space}
use diginaut_wallet.Address.Charset.{index_of}
use diginaut_wallet.Address.Base58.{b58_alphabet, b58_spelled, b58_digits, copies, leading}

same_test : Bool → Bool → Bool
same_test true b = b
same_test false true = false
same_test false false = true

is_index : ℕ → ℕ → Option ℕ → Bool
is_index d c none = false
is_index d c (some e) =
    if d == e
    then if is_space c then false else if ltb c 128 then same_test (c == b'1') (d == 0) else false
    else false

is_letter : ℕ → Option ℕ → Bool
unfolding is_index index_of
is_letter d none = false
is_letter d (some c) = is_index d c (index_of c 0 b58_alphabet)

is_found : ℕ → Bool
unfolding is_letter
is_found d = is_letter d (get_elem? b58_alphabet d)

every_digit : holds_below is_found 58 ≡ true
unfolding holds_below is_found is_letter is_index same_test index_of is_space
every_digit = refl

record Letter (d c : ℕ) : Type 0 where
  pub at : get_elem? b58_alphabet d ≡ some c
  pub found : index_of c 0 b58_alphabet ≡ some d
  pub solid : is_space c ≡ false
  pub ascii : c < 128
  pub one : (c == b'1') ≡ (d == 0)

same_test-eq : (a b : Bool) → same_test a b ≡ true → a ≡ b
unfolding same_test
same_test-eq true b h = ground arith
same_test-eq false true h = cc
same_test-eq false false h = refl

index_from :
    (d c : ℕ) (o : Option ℕ)
    → is_index d c o ≡ true
    → (o ≡ some d)
      × (is_space c ≡ false)
      × (ltb c 128 ≡ true)
      × (same_test (c == b'1') (d == 0) ≡ true)
unfolding is_index
index_from d c none h = absurd (ground (arith, h))
index_from d c (some e) h =
    (ground (arith, h), ground (arith, h), ground (arith, h), ground (arith, h))

spelling_found :
    (d : ℕ) (o : Option ℕ)
    → get_elem? b58_alphabet d ≡ o
    → is_letter d o ≡ true
    → (c : ℕ) × Letter d c
unfolding is_letter
spelling_found d none e h = ground (arith, h)
spelling_found d (some c) e h =
    let (found, solid, ascii, same) = index_from d c (index_of c 0 b58_alphabet) h in
    (
      c,
      record {
        at = e;
        found = found;
        solid = solid;
        ascii = ltb→lt c 128 ascii;
        one = same_test-eq _ _ same;
      },
    )

spelling_of : (d : ℕ) → d < 58 → (c : ℕ) × Letter d c
unfolding is_found
spelling_of d p = spelling_found d _ refl (holds_below-at is_found 58 d p every_digit)

pub b58_digits-spelled : (ds : List ℕ) → All (λ d. d < 58) ds → b58_digits (b58_spelled ds) ≡ ok ds
unfolding b58_digits b58_spelled
b58_digits-spelled [] h = refl
b58_digits-spelled (d ∷ ds) h =
    let (c, letter) = spelling_of d h.0 in
    rw (letter.at, b58_spelled)
      (rw (letter.found, b58_digits) (rw (b58_digits-spelled ds h.1) refl))

pub leading-spelled :
    (d : ℕ) (ds : List ℕ) → d < 58 → 0 < d → leading b'1' (b58_spelled (d ∷ ds)) ≡ 0
unfolding leading b58_spelled
leading-spelled d ds p positive =
    let (c, letter) = spelling_of d p in rw (letter.at, b58_spelled) (ground (arith, letter.one))

pub leading-copies : (n c : ℕ) (xs : List ℕ) → leading c (copies n c ++ xs) ≡ n + leading c xs
unfolding leading copies
leading-copies zero c xs = omega arith
leading-copies (suc n) c xs = ground (arith, leading-copies n c xs)

-- The `1`s at the start are digits that are zero.
pub b58_digits-copies :
    (n : ℕ) (xs ds : List ℕ)
    → b58_digits xs ≡ ok ds
    → b58_digits (copies n b'1' ++ xs) ≡ ok (copies n 0 ++ ds)
unfolding b58_digits copies index_of
b58_digits-copies zero xs ds h = h
b58_digits-copies (suc n) xs ds h = rw (b58_digits-copies n xs ds h) refl

pub spelled-solid :
    (ds : List ℕ)
    → All (λ d. d < 58) ds
    → All (λ c. is_space c ≡ false) (b58_spelled ds) × All (λ c. c < 128) (b58_spelled ds)
unfolding b58_spelled
spelled-solid [] h = (tt, tt)
spelled-solid (d ∷ ds) h =
    let (c, letter) = spelling_of d h.0 in
    let (solid, ascii) = spelled-solid ds h.1 in
    rw (letter.at, b58_spelled) ((letter.solid, solid), (letter.ascii, ascii))
