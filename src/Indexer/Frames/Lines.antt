-- ===== src/Indexer/Frames/Lines.antt =====
-- The reference: a stream of bytes is its lines, each ended by a newline, and a rest without one.
use diginaut_wallet.Prelude.{
  ℕ, ◌≡◌, refl, List, [], ◌∷◌, ◌++◌, ◌==◌, if◌then◌else◌, false, All, Bool-cases, inl, inr,
}
use diginaut_wallet.Indexer.Frames.{newline}

-- A byte in front of a stream that is split.
unfoldable pub in_front : ℕ → List (List ℕ) × List ℕ → List (List ℕ) × List ℕ
in_front b ([], rest) = ([], b ∷ rest)
in_front b (line ∷ lines, rest) = ((b ∷ line) ∷ lines, rest)

unfoldable pub split : List ℕ → List (List ℕ) × List ℕ
unfolding in_front
split [] = ([], [])
split (b ∷ bs) = let s = split bs in if b == newline then ([] ∷ s.0, s.1) else in_front b s

abbrev pub Interior : List ℕ → Type 0
Interior = All (λ b. (b == newline) ≡ false)

pub split-rest : (bs : List ℕ) → Interior bs → split bs ≡ ([], bs)
unfolding split
split-rest [] h = refl
split-rest (b ∷ bs) h = rw (h.0, if◌then◌else◌) (rw (split-rest bs h.1) refl)

pub split-line :
    (line bs : List ℕ)
    → Interior line
    → split (line ++ newline ∷ bs) ≡ (line ∷ (split bs).0, (split bs).1)
unfolding split
split-line [] bs h = refl
split-line (b ∷ line) bs h = rw (h.0, if◌then◌else◌) (rw (split-line line bs h.1) refl)

in_front-append :
    (b : ℕ) (s : List (List ℕ) × List ℕ) (ys : List ℕ)
    → (b == newline) ≡ false
    → in_front b (s.0 ++ (split (s.1 ++ ys)).0, (split (s.1 ++ ys)).1)
      ≡ ((in_front b s).0 ++ (split ((in_front b s).1 ++ ys)).0, (split ((in_front b s).1 ++ ys)).1)
unfolding in_front split
in_front-append b ([], rest) ys h = rw (h, if◌then◌else◌) refl
in_front-append b (line ∷ lines, rest) ys h = refl

-- A stream may be split as it arrives: the rest of what came goes in front of what comes.
pub split-append :
    (xs ys : List ℕ)
    → split (xs ++ ys)
      ≡ ((split xs).0 ++ (split ((split xs).1 ++ ys)).0, (split ((split xs).1 ++ ys)).1)
unfolding split
split-append [] ys = refl
split-append (b ∷ xs) ys = elim (Bool-cases (b == newline)) [
  | inl ended ↦ rw (ended, if◌then◌else◌) (rw (split-append xs ys) refl)
  | inr inside ↦
      rw (inside, if◌then◌else◌) (rw (split-append xs ys) (in_front-append b (split xs) ys inside))
]

in_front-Interior :
    (b : ℕ) (s : List (List ℕ) × List ℕ)
    → (b == newline) ≡ false
    → Interior s.1
    → Interior (in_front b s).1
unfolding in_front
in_front-Interior b ([], rest) e h = (e, h)
in_front-Interior b (line ∷ lines, rest) e h = h

-- The rest has no newline.
pub split-Interior : (bs : List ℕ) → Interior (split bs).1
unfolding split
split-Interior [] = tt
split-Interior (b ∷ bs) = elim (Bool-cases (b == newline)) [
  | inl ended ↦ rw (ended, if◌then◌else◌) (split-Interior bs)
  | inr inside ↦
      rw (inside, if◌then◌else◌) (in_front-Interior b (split bs) inside (split-Interior bs))
]
