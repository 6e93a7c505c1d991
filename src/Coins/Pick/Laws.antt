-- ===== src/Coins/Pick/Laws.antt =====
-- `pickDgbCoin` returns the best coin that covers the amount, and fails only if there is none.
use diginaut_wallet.Prelude.{
  ℕ, ◌≤◌, ◌<◌, ◌≡◌, refl, ◌⊎◌, ◌↔◌, inl, inr, Bool, true, false, List, [], ◌∷◌, Option, none, some,
  arith, In, All-In, filter, find, In-filter, filter-In, find-In, find-none, Option-cases,
  if◌then◌else◌, leb→le, le→leb,
}
use native.Mathlib.Nat.{le_trans}
use diginaut_wallet.Coins.{Utxo, is_p2wpkh}
use diginaut_wallet.Coins.Sorting.{sort}
use diginaut_wallet.Coins.Sorting.Laws.{In-sort, sort-In, sort-IsSorted, IsSorted, filter-IsSorted}
use diginaut_wallet.Coins.Pick.{
  smaller_first, covers, is_preferred, is_taproot, or_else, first, pick_dgb_coin,
}

-- The tiers: a taproot coin on the preferred key, any taproot coin, a witness-v0 coin.
abbrev pub rank : Option (List ℕ) → Utxo → ℕ
rank prefer_key u = if is_p2wpkh u then 2 else if is_preferred prefer_key u then 0 else 1

-- A better tier, or a value that is no larger in the same tier.
abbrev pub AtLeastAsGood : Option (List ℕ) → Utxo → Utxo → Type 0
AtLeastAsGood prefer_key c d =
    (rank prefer_key c < rank prefer_key d)
    ⊎ ((rank prefer_key c ≡ rank prefer_key d) × (c.value_sats ≤ d.value_sats))

pub record IsBest (utxos : List Utxo) (min_sats : ℕ) (prefer_key : Option (List ℕ)) (c : Utxo)
    : Type 0 where
  pub member : In c utxos
  pub enough : min_sats ≤ c.value_sats
  pub best : (d : Utxo) → In d utxos → min_sats ≤ d.value_sats → AtLeastAsGood prefer_key c d

abbrev NoLarger : Utxo → Utxo → Type 0
NoLarger c d = c.value_sats ≤ d.value_sats

-- In a sorted list, what `find` returns is no larger than any other that passes the test.
find_least :
    (p : Utxo → Bool) (xs : List Utxo) (c d : Utxo)
    → IsSorted NoLarger xs
    → find p xs ≡ some c
    → In d xs
    → p d ≡ true
    → NoLarger c d
find_least p [] c d s h i e = absurd i
find_least p (x ∷ xs) c d s h i e =
    ground (arith, All-In (NoLarger x) d xs s.0, find_least p xs c d s.1)

first_least :
    (xs : List Utxo) (c d : Utxo)
    → IsSorted NoLarger xs
    → first xs ≡ some c
    → In d xs
    → NoLarger c d
unfolding first
first_least [] c d s h i = absurd i
first_least (x ∷ xs) c d s h i = ground (arith, All-In (NoLarger x) d xs s.0)

first-In : (xs : List Utxo) {c : Utxo} → first xs ≡ some c → In c xs
unfolding first
first-In [] h = cc
first-In (x ∷ xs) h = inl (cc)

first-none : (d : Utxo) (xs : List Utxo) → first xs ≡ none → ¬ In d xs
unfolding first
first-none d [] h i = i
first-none d (x ∷ xs) h i = cc

or_else-some :
    (a b : Option Utxo) {c : Utxo}
    → or_else a b ≡ some c
    → (a ≡ some c) ⊎ ((a ≡ none) × (b ≡ some c))
unfolding or_else
or_else-some none b h = inr (refl, h)
or_else-some (some u) b h = inl h

or_else-none : (a b : Option Utxo) → or_else a b ≡ none → (a ≡ none) × (b ≡ none)
unfolding or_else
or_else-none none b h = (refl, h)
or_else-none (some u) b h = cc

module _ (utxos : List Utxo) (min_sats : ℕ) (prefer_key : Option (List ℕ)) where
  abbrev enough : List Utxo
  enough = sort smaller_first (filter (covers min_sats) utxos)

  enough-IsSorted : IsSorted NoLarger enough
  enough-IsSorted =
      sort-IsSorted smaller_first NoLarger (λ x y e. unfold smaller_first in ground arith)
        (λ x y e. unfold smaller_first in ground arith) (λ x y z. le_trans) _

  enough-In : (d : Utxo) → In d utxos → min_sats ≤ d.value_sats → In d enough
  enough-In d i h =
      sort-In smaller_first d _
        (filter-In (covers min_sats) d utxos i (unfold covers in le→leb _ _ h))

  In-enough : (d : Utxo) → In d enough → In d utxos × (min_sats ≤ d.value_sats)
  In-enough d i =
      let (j, e) = In-filter (covers min_sats) d utxos (In-sort smaller_first d _ i) in
      (j, unfold covers in leb→le _ _ e)

  abbrev taproot : List Utxo
  taproot = filter is_taproot enough

  taproot-IsSorted : IsSorted NoLarger taproot
  taproot-IsSorted = filter-IsSorted NoLarger is_taproot enough enough-IsSorted

  taproot-In : (d : Utxo) → In d enough → is_p2wpkh d ≡ false → In d taproot
  unfolding is_taproot
  taproot-In d i e = filter-In is_taproot d enough i (rw e)

  In-taproot : (d : Utxo) → In d taproot → In d enough × (is_p2wpkh d ≡ false)
  unfolding is_taproot
  In-taproot d i = let (j, e) = In-filter is_taproot d enough i in (j, ground arith)

  -- The coin of each tier.
  preferred-IsBest :
      (c : Utxo)
      → find (is_preferred prefer_key) taproot ≡ some c
      → IsBest utxos min_sats prefer_key c
  preferred-IsBest c e =
      let (i, preferred) = find-In (is_preferred prefer_key) taproot e in
      let (j, v0) = In-taproot c i in
      let (member, large) = In-enough c j in
      record {
        member = member;
        enough = large;
        best = λ d m h. ground (
          arith,
          find_least (is_preferred prefer_key) taproot c d taproot-IsSorted e,
          taproot-In d (enough-In d m h),
        );
      }

  module _ (no_preferred : find (is_preferred prefer_key) taproot ≡ none) where
    taproot-IsBest : (c : Utxo) → first taproot ≡ some c → IsBest utxos min_sats prefer_key c
    taproot-IsBest c e =
        let i = first-In taproot e in
        let (j, v0) = In-taproot c i in
        let (member, large) = In-enough c j in
        let other = find-none (is_preferred prefer_key) c taproot no_preferred i in
        record {
          member = member;
          enough = large;
          best = λ d m h. ground (
            arith,
            first_least taproot c d taproot-IsSorted e,
            find-none (is_preferred prefer_key) d taproot no_preferred,
            taproot-In d (enough-In d m h),
          );
        }

    module _ (no_taproot : first taproot ≡ none) where
      p2wpkh-IsBest :
          (c : Utxo) → find is_p2wpkh enough ≡ some c → IsBest utxos min_sats prefer_key c
      p2wpkh-IsBest c e =
          let (i, v0) = find-In is_p2wpkh enough e in
          let (member, large) = In-enough c i in
          record {
            member = member;
            enough = large;
            best = λ d m h. ground (
              arith,
              find_least is_p2wpkh enough c d enough-IsSorted e (enough-In d m h),
              first-none d taproot no_taproot,
              taproot-In d (enough-In d m h),
            );
          }

  -- The coin that `pickDgbCoin` returns is one of the wallet's, covers the amount, and no
  -- covering coin is in a better tier, or in the same tier with a smaller value.
  pub pick_dgb_coin-IsBest :
      (c : Utxo)
      → pick_dgb_coin utxos min_sats prefer_key ≡ some c
      → IsBest utxos min_sats prefer_key c
  unfolding pick_dgb_coin
  pick_dgb_coin-IsBest c h = elim (or_else-some _ _ h) [
    | inl e ↦ preferred-IsBest c e
    | inr (no_preferred, r) ↦ elim (or_else-some _ _ r) [
      | inl e ↦ taproot-IsBest no_preferred c e
      | inr (no_taproot, e) ↦ p2wpkh-IsBest no_preferred no_taproot c e
    ]
  ]

  none_small :
      pick_dgb_coin utxos min_sats prefer_key ≡ none
      → (d : Utxo) → In d utxos
      → d.value_sats < min_sats
  unfolding pick_dgb_coin
  none_small h d i =
      let (no_preferred, r) = or_else-none _ _ h in
      let (no_taproot, no_v0) = or_else-none (first taproot) (find is_p2wpkh enough) r in
      ground (
        arith,
        find-none is_p2wpkh d enough no_v0,
        enough-In d i,
        taproot-In d,
        first-none d taproot no_taproot,
      )

  -- No coin is picked exactly when every coin is too small.
  pub pick_dgb_coin-none :
      (pick_dgb_coin utxos min_sats prefer_key ≡ none)
      ↔ ((d : Utxo) → In d utxos → d.value_sats < min_sats)
  pick_dgb_coin-none = (
    none_small,
    λ small. elim (Option-cases (pick_dgb_coin utxos min_sats prefer_key)) [
      | inl e ↦ e
      | inr (c, e) ↦
          let b = pick_dgb_coin-IsBest c e in absurd (omega (arith, small c b.member, b.enough))
    ],
  )
