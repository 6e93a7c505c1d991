-- ===== src/Text.antt =====
-- Equality of texts, `===`, and the case of letters.
use diginaut_wallet.Prelude.{
  ℕ, leb, ◌+◌, if◌then◌else◌, List, [], ◌∷◌, Bool, true, false, ◌&&◌, ◌==◌, ◌≡◌, refl, arith,
}

-- The lower case of the letters A to Z.
unfoldable pub lower_letter : ℕ → ℕ
lower_letter c = if leb b'A' c && leb c b'Z' then c + 32 else c

-- `===` of two texts.
unfoldable pub same_text : List ℕ → List ℕ → Bool
same_text [] [] = true
same_text [] (d ∷ ds) = false
same_text (c ∷ cs) [] = false
same_text (c ∷ cs) (d ∷ ds) = c == d && same_text cs ds

pub same_text_refl : (s : List ℕ) → same_text s s ≡ true
unfolding same_text
same_text_refl [] = refl
same_text_refl (c ∷ cs) = ground (arith, same_text_refl cs)

pub same_text-eq : (s t : List ℕ) → same_text s t ≡ true → s ≡ t
unfolding same_text
same_text-eq [] [] h = refl
same_text-eq [] (d ∷ ds) h = cc
same_text-eq (c ∷ cs) [] h = cc
same_text-eq (c ∷ cs) (d ∷ ds) h = ground (arith, same_text-eq cs ds)

pub same_text-sym : (s t : List ℕ) → same_text s t ≡ same_text t s
unfolding same_text
same_text-sym [] [] = refl
same_text-sym [] (d ∷ ds) = refl
same_text-sym (c ∷ cs) [] = refl
same_text-sym (c ∷ cs) (d ∷ ds) = ground (arith, same_text-sym cs ds)
