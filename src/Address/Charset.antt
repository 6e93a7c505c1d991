-- ===== src/Address/Charset.antt =====
-- address.js: the alphabet of bech32, the search in it, and the search for the last separator.
use diginaut_wallet.Prelude.{
  ℕ, suc, ◌+◌, ◌<◌, ◌≡◌, refl, List, [], ◌∷◌, ◌++◌, arith, Option, none, some, ◌==◌, if◌then◌else◌,
  get_elem?, All, length, holds_below, holds_below-at, Bool-cases, Bool, true, false, ltb, ltb→lt,
  ◌||◌, ◌&&◌, ◌⊎◌, inl, inr, ap, ◌∙◌,
}
use diginaut_wallet.Hex.{is_space}

-- CHARSET
abbrev pub charset : List ℕ
charset =
    b'q' ∷ b'p' ∷ b'z' ∷ b'r' ∷ b'y' ∷ b'9' ∷ b'x' ∷ b'8' ∷ b'g' ∷ b'f' ∷ b'2' ∷ b't' ∷ b'v' ∷ b'd'
    ∷ b'w' ∷ b'0' ∷ b's' ∷ b'3' ∷ b'j' ∷ b'n' ∷ b'5' ∷ b'4' ∷ b'k' ∷ b'h' ∷ b'c' ∷ b'e' ∷ b'6'
    ∷ b'm' ∷ b'u' ∷ b'a' ∷ b'7' ∷ b'l' ∷ []

-- `CHARSET.indexOf(c)` of one character, from the index i on; `none` for -1.
unfoldable pub index_of : ℕ → ℕ → List ℕ → Option ℕ
index_of c i [] = none
index_of c i (x ∷ xs) = let later = index_of c (i + 1) xs in if x == c then some i else later

-- `.map((c) => CHARSET.indexOf(c))`; `none` where the result includes -1.
unfoldable pub charset_digits : List ℕ → Option (List ℕ)
unfolding index_of
charset_digits [] = some []
charset_digits (c ∷ cs) = elim (index_of c 0 charset) [
  | none ↦ none
  | some d ↦ elim (charset_digits cs) [ none ↦ none | some ds ↦ some (d ∷ ds) ]
]

-- `.map((d) => CHARSET[d]).join('')`: what is beyond the alphabet is undefined and joins as nothing.
unfoldable pub spelled : List ℕ → List ℕ
spelled [] = []
spelled (d ∷ ds) = elim (get_elem? charset d) [ none ↦ spelled ds | some c ↦ c ∷ spelled ds ]

-- `lastIndexOf(c)`, from the index i on.
unfoldable pub last_index_of : ℕ → ℕ → Option ℕ → List ℕ → Option ℕ
last_index_of c i found [] = found
last_index_of c i found (x ∷ xs) = last_index_of c (i + 1) (if x == c then some i else found) xs

-- ASCII without capitals, which `toLowerCase` leaves as it is.
abbrev pub IsSmall : ℕ → Type 0
IsSmall c = (c < b'A') ⊎ ((b'Z' < c) × (c < 128))

is_small : ℕ → Bool
is_small c = ltb c b'A' || ltb b'Z' c && ltb c 128

is_small-IsSmall : (c : ℕ) → is_small c ≡ true → IsSmall c
unfolding is_small
is_small-IsSmall c h = elim (Bool-cases (ltb c b'A')) [
  | inl low ↦ inl (ltb→lt c b'A' low)
  | inr high ↦ inr (ground arith, ground arith)
]

-- Each letter of the alphabet is found where it stands, is small, and is not the separator.
is_index : ℕ → ℕ → Option ℕ → Bool
is_index d c none = false
is_index d c (some e) =
    if d == e then if c == b'1' then false else if is_space c then false else is_small c else false

is_letter : ℕ → Option ℕ → Bool
is_letter d none = false
is_letter d (some c) = is_index d c (index_of c 0 charset)

is_found : ℕ → Bool
is_found d = is_letter d (get_elem? charset d)

every_digit : holds_below is_found 32 ≡ true
unfolding holds_below is_found is_letter is_index index_of is_small is_space
every_digit = refl

record Letter (d c : ℕ) : Type 0 where
  pub at : get_elem? charset d ≡ some c
  pub found : index_of c 0 charset ≡ some d
  pub other : (c == b'1') ≡ false
  pub solid : is_space c ≡ false
  pub small : IsSmall c

-- Inversion of the test.
index_from :
    (d c : ℕ) (o : Option ℕ)
    → is_index d c o ≡ true
    → (o ≡ some d) × ((c == b'1') ≡ false) × (is_space c ≡ false) × (is_small c ≡ true)
unfolding is_index
index_from d c none h = absurd (ground (arith, h))
index_from d c (some e) h =
    (ground (arith, h), ground (arith, h), ground (arith, h), ground (arith, h))

spelling_found :
    (d : ℕ) (o : Option ℕ) → get_elem? charset d ≡ o → is_letter d o ≡ true → (c : ℕ) × Letter d c
unfolding is_letter
spelling_found d none e h = absurd (ground (arith, h))
spelling_found d (some c) e h =
    let (found, other, solid, small) = index_from d c (index_of c 0 charset) h in
    (
      c,
      record {
        at = e;
        found = found;
        other = other;
        solid = solid;
        small = is_small-IsSmall c small;
      },
    )

spelling_of : (d : ℕ) → d < 32 → (c : ℕ) × Letter d c
unfolding is_found
spelling_of d p = spelling_found d _ refl (holds_below-at is_found 32 d p every_digit)

pub charset_digits-spelled :
    (ds : List ℕ) → All (λ d. d < 32) ds → charset_digits (spelled ds) ≡ some ds
unfolding charset_digits spelled
charset_digits-spelled [] h = refl
charset_digits-spelled (d ∷ ds) h =
    let (c, letter) = spelling_of d h.0 in
    rw (letter.at, spelled)
      (rw (letter.found, charset_digits) (rw (charset_digits-spelled ds h.1) refl))

pub length-spelled : (ds : List ℕ) → All (λ d. d < 32) ds → length (spelled ds) ≡ length ds
unfolding spelled
length-spelled [] h = refl
length-spelled (d ∷ ds) h =
    let (c, letter) = spelling_of d h.0 in rw (letter.at, spelled) (ap suc (length-spelled ds h.1))

pub spelled-IsSmall : (ds : List ℕ) → All (λ d. d < 32) ds → All IsSmall (spelled ds)
unfolding spelled
spelled-IsSmall [] h = tt
spelled-IsSmall (d ∷ ds) h =
    let (c, letter) = spelling_of d h.0 in
    rw (letter.at, spelled) (letter.small, spelled-IsSmall ds h.1)

pub spelled-solid :
    (ds : List ℕ) → All (λ d. d < 32) ds → All (λ c. is_space c ≡ false) (spelled ds)
unfolding spelled
spelled-solid [] h = tt
spelled-solid (d ∷ ds) h =
    let (c, letter) = spelling_of d h.0 in
    rw (letter.at, spelled) (letter.solid, spelled-solid ds h.1)

-- The separator does not occur behind itself.
later_none :
    (i : ℕ) (found : Option ℕ) (ds : List ℕ)
    → All (λ d. d < 32) ds
    → last_index_of b'1' i found (spelled ds) ≡ found
unfolding spelled last_index_of
later_none i found [] h = refl
later_none i found (d ∷ ds) h =
    let (c, letter) = spelling_of d h.0 in
    rw (letter.at, spelled) (rw letter.other (later_none (i + 1) found ds h.1))

pub last_index_of-spelled :
    (i : ℕ) (found : Option ℕ) (hrp ds : List ℕ)
    → All (λ d. d < 32) ds
    → last_index_of b'1' i found (hrp ++ b'1' ∷ spelled ds) ≡ some (i + length hrp)
unfolding last_index_of
last_index_of-spelled i found [] ds h = later_none (i + 1) (some i) ds h ∙ ap some (omega arith)
last_index_of-spelled i found (x ∷ hrp) ds h =
    last_index_of-spelled (i + 1) (if x == b'1' then some i else found) hrp ds h
    ∙ ap some (omega arith)
