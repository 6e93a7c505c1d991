-- ===== src/Coins/Sorting/Laws.antt =====
-- The sort is a permutation of its input, and keeps a relation between neighbours.
use diginaut_wallet.Prelude.{
  Bool, true, false, List, [], ◌∷◌, ◌++◌, ◌≡◌, ◌⊎◌, inl, inr, arith, In, All, Bool-cases,
  append-nil, filter, All-filter,
}
use mathlib.Core.List.{Perm, perm_middle}
use mathlib.Core.List.Perm
use diginaut_wallet.Coins.Sorting.{insert_before, sort_onto, sort}

module _ {ℓ} {A : Type ℓ} (before : A → A → Bool) where
  insert_before-perm : (x : A) (ys : List A) → Perm (insert_before before x ys) (x ∷ ys)
  unfolding insert_before
  insert_before-perm x [] = Perm.refl _
  insert_before-perm x (y ∷ ys) = elim (Bool-cases (before x y)) [
    | inl e ↦ rw e (Perm.refl _)
    | inr e ↦ rw e (Perm.trans (Perm.cons y (insert_before-perm x ys)) (Perm.swap x y ys))
  ]

  sort_onto-perm : (acc xs : List A) → Perm (sort_onto before acc xs) (acc ++ xs)
  unfolding sort_onto
  sort_onto-perm acc [] = rw append-nil (Perm.refl acc)
  sort_onto-perm acc (x ∷ xs) = Perm.trans (sort_onto-perm (insert_before before x acc) xs) (
      Perm.trans (Perm.append (insert_before-perm x acc) (Perm.refl xs))
        (Perm.symm (perm_middle acc xs)))

  pub sort-perm : (xs : List A) → Perm (sort before xs) xs
  unfolding sort
  sort-perm xs = sort_onto-perm [] xs

module _ {A : Type 0} (before : A → A → Bool) where
  In-insert_before : (d x : A) (ys : List A) → In d (insert_before before x ys) → (d ≡ x) ⊎ In d ys
  unfolding insert_before
  In-insert_before d x [] h = h
  In-insert_before d x (y ∷ ys) h = ground (arith, In-insert_before d x ys)

  insert_before-In : (d x : A) (ys : List A) → (d ≡ x) ⊎ In d ys → In d (insert_before before x ys)
  unfolding insert_before
  insert_before-In d x [] h = h
  insert_before-In d x (y ∷ ys) h = ground (arith, insert_before-In d x ys)

  In-sort_onto : (d : A) (acc xs : List A) → In d (sort_onto before acc xs) → In d acc ⊎ In d xs
  unfolding sort_onto
  In-sort_onto d acc [] h = inl h
  In-sort_onto d acc (x ∷ xs) h =
      ground (arith, In-sort_onto d (insert_before before x acc) xs h, In-insert_before d x acc)

  sort_onto-In : (d : A) (acc xs : List A) → In d acc ⊎ In d xs → In d (sort_onto before acc xs)
  unfolding sort_onto
  sort_onto-In d acc [] h = ground arith
  sort_onto-In d acc (x ∷ xs) h =
      ground (arith, sort_onto-In d (insert_before before x acc) xs, insert_before-In d x acc)

  -- Sorting keeps the elements.
  pub In-sort : (d : A) (xs : List A) → In d (sort before xs) → In d xs
  unfolding sort
  In-sort d xs h = ground (arith, In-sort_onto d [] xs h)

  pub sort-In : (d : A) (xs : List A) → In d xs → In d (sort before xs)
  unfolding sort
  sort-In d xs h = sort_onto-In d [] xs (inr h)

-- Each element is in the relation to all that follow it.
abbrev pub IsSorted {ℓ κ} : {A : Type ℓ} → (A → A → Type κ) → List A → Type κ
IsSorted R [] = Unit
IsSorted R (x ∷ xs) = All (R x) xs × IsSorted R xs

module _ {ℓ κ} {A : Type ℓ} (before : A → A → Bool) (R : A → A → Type κ)
    (true_R : (x y : A) → before x y ≡ true → R x y)
    (false_R : (x y : A) → before x y ≡ false → R y x)
    (R_trans : (x y z : A) → R x y → R y z → R x z) where
  All-insert_before :
      (z x : A) (ys : List A) → R z x → All (R z) ys → All (R z) (insert_before before x ys)
  unfolding insert_before
  All-insert_before z x [] h k = (h, k)
  All-insert_before z x (y ∷ ys) h k = elim (Bool-cases (before x y)) [
    | inl e ↦ rw e (h, k)
    | inr e ↦ rw e (k.0, All-insert_before z x ys h k.1)
  ]

  All-trans : (x y : A) (zs : List A) → R x y → All (R y) zs → All (R x) zs
  All-trans x y [] h k = tt
  All-trans x y (z ∷ zs) h k = (R_trans x y z h k.0, All-trans x y zs h k.1)

  insert_before-IsSorted :
      (x : A) (ys : List A) → IsSorted R ys → IsSorted R (insert_before before x ys)
  unfolding insert_before
  insert_before-IsSorted x [] s = (tt, tt)
  insert_before-IsSorted x (y ∷ ys) s = elim (Bool-cases (before x y)) [
    | inl e ↦ rw e ((true_R x y e, All-trans x y ys (true_R x y e) s.0), s)
    | inr e ↦ rw e (All-insert_before y x ys (false_R x y e) s.0, insert_before-IsSorted x ys s.1)
  ]

  pub sort_onto-IsSorted : (acc xs : List A) → IsSorted R acc → IsSorted R (sort_onto before acc xs)
  unfolding sort_onto
  sort_onto-IsSorted acc [] s = s
  sort_onto-IsSorted acc (x ∷ xs) s =
      sort_onto-IsSorted (insert_before before x acc) xs (insert_before-IsSorted x acc s)

  pub sort-IsSorted : (xs : List A) → IsSorted R (sort before xs)
  unfolding sort
  sort-IsSorted xs = sort_onto-IsSorted [] xs tt

pub filter-IsSorted {ℓ κ} :
    {A : Type ℓ} (R : A → A → Type κ) (p : A → Bool) (xs : List A)
    → IsSorted R xs
    → IsSorted R (filter p xs)
filter-IsSorted R p [] s = tt
filter-IsSorted R p (x ∷ xs) s = elim (Bool-cases (p x)) [
  | inl e ↦ rw (e, filter) (All-filter p (R x) xs s.0, filter-IsSorted R p xs s.1)
  | inr e ↦ rw (e, filter) (filter-IsSorted R p xs s.1)
]
