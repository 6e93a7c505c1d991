-- ===== src/Coins/Sorting.antt =====
-- `Array.prototype.sort` with a comparator that answers "before" or "after": each element is
-- inserted into the sorted part in front of it, as the insertion sort of V8 does. Both comparators
-- of the program are of this form and never answer 0, so the order of equal coins is the engine's.
pub mod Laws
use diginaut_wallet.Prelude.{Bool, List, [], ◌∷◌, foldl, if◌then◌else◌}

module _ {ℓ} {A : Type ℓ} (before : A → A → Bool) where
  -- `before x y` stands for `compare(x, y) < 0`.
  unfoldable pub insert_before : A → List A → List A
  insert_before x [] = x ∷ []
  insert_before x (y ∷ ys) = if before x y then x ∷ y ∷ ys else y ∷ insert_before x ys

  unfoldable pub sort_onto : List A → List A → List A
  sort_onto sorted [] = sorted
  sort_onto sorted (x ∷ xs) = sort_onto (insert_before x sorted) xs

  unfoldable pub sort : List A → List A
  sort xs = sort_onto [] xs
