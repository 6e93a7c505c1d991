-- ===== src/Prelude/Membership.antt =====
-- Membership in a filtered list, and what `find` returns.
use mathlib.Core.Path.{◌≡◌, sym, subst}
use mathlib.Core.Logic.{inl, inr}
use mathlib.Core.Bool.{Bool, true, false}
use mathlib.Core.List.{List, [], ◌∷◌}
use mathlib.Core.Option.{none, some}
use native.Mathlib.Omega.{arith}
use diginaut_wallet.Prelude.Tests.{Bool-cases}
use diginaut_wallet.Prelude.Lists.{In, All, filter, find}

module _ {A : Type 0} (p : A → Bool) where
  pub In-filter : (d : A) (xs : List A) → In d (filter p xs) → In d xs × (p d ≡ true)
  In-filter d [] h = absurd h
  In-filter d (x ∷ xs) h = ground (arith, In-filter d xs)

  pub filter-In : (d : A) (xs : List A) → In d xs → p d ≡ true → In d (filter p xs)
  filter-In d [] h e = absurd h
  filter-In d (x ∷ xs) h e = ground (arith, filter-In d xs)

  pub find-In : (xs : List A) {c : A} → find p xs ≡ some c → In c xs × (p c ≡ true)
  find-In [] h = cc
  find-In (x ∷ xs) {c} h = ground (arith, find-In xs {c = c})

  pub find-none : (d : A) (xs : List A) → find p xs ≡ none → In d xs → p d ≡ false
  find-none d [] h i = absurd i
  find-none d (x ∷ xs) h i = ground (arith, find-none d xs)

module _ {ℓ} {A : Type ℓ} (p : A → Bool) where
  pub All-filter {κ} : (P : A → Type κ) (xs : List A) → All P xs → All P (filter p xs)
  All-filter P [] h = tt
  All-filter P (x ∷ xs) h = elim (Bool-cases (p x)) [
    | inl e ↦ rw (e, filter) (h.0, All-filter P xs h.1)
    | inr e ↦ rw (e, filter) (All-filter P xs h.1)
  ]

pub All-In {κ} : {A : Type 0} (P : A → Type κ) (d : A) (xs : List A) → All P xs → In d xs → P d
All-In P d [] h i = absurd i
All-In P d (x ∷ xs) h (inl e) = subst P (sym e) h.0
All-In P d (x ∷ xs) h (inr i) = All-In P d xs h.1 i
