-- ===== src/Address/Base58/Radix.antt =====
-- Numbers in a base, the least significant digit first.
use diginaut_wallet.Prelude.{
  ℕ, ◌+◌, ◌*◌, ◌/◌, ◌%◌, ◌<◌, ◌≤◌, ◌≡◌, refl, sym, subst, ap, ◌∙◌, List, [], ◌∷◌, arith, All,
}
use mathlib.Core.List.{reverse, reverse_aux, reverse-reverse}
use diginaut_wallet.Address.Base58.{times_plus, times_plus_all}
use diginaut_wallet.Address.Base58.Digits.{
  times_plus-zero, product_positive, number, times_plus-All, number_unique, number-times_plus,
  IsTopped, times_plus-IsTopped,
}

-- The number of digits, the most significant first.
unfoldable pub horner : ℕ → ℕ → List ℕ → ℕ
horner base acc [] = acc
horner base acc (d ∷ ds) = horner base (d + acc * base) ds

horner-reverse_aux :
    (base : ℕ) (ds acc : List ℕ)
    → number base (reverse_aux ds acc) ≡ horner base (number base acc) ds
unfolding horner number
horner-reverse_aux base [] acc = refl
horner-reverse_aux base (d ∷ ds) acc = horner-reverse_aux base ds (d ∷ acc)

pub number-reverse : (base : ℕ) (ds : List ℕ) → number base (reverse ds) ≡ horner base 0 ds
unfolding number
number-reverse base ds = horner-reverse_aux base ds []

reverse_aux-IsTopped :
    (ds : List ℕ) (x : ℕ) (acc : List ℕ) → IsTopped (x ∷ acc) → IsTopped (reverse_aux ds (x ∷ acc))
reverse_aux-IsTopped [] x acc t = t
reverse_aux-IsTopped (d ∷ ds) x acc t = reverse_aux-IsTopped ds d (x ∷ acc) t

pub reverse-IsTopped : (d : ℕ) (ds : List ℕ) → 0 < d → IsTopped (reverse (d ∷ ds))
reverse-IsTopped d ds positive = reverse_aux-IsTopped ds d [] positive

top_first :
    (d : ℕ) (ds acc : List ℕ)
    → IsTopped (d ∷ ds)
    → (t : ℕ) × (ts : List ℕ) × (reverse_aux (d ∷ ds) acc ≡ t ∷ ts) × (0 < t)
top_first d [] acc t = (d, acc, refl, t)
top_first d (e ∷ ds) acc t = top_first e ds (d ∷ acc) t

-- Topped digits start with a positive one when they are read from the top.
pub reverse-first :
    (d : ℕ) (ds : List ℕ)
    → IsTopped (d ∷ ds)
    → (t : ℕ) × (ts : List ℕ) × (reverse (d ∷ ds) ≡ t ∷ ts) × (0 < t)
reverse-first d ds t = top_first d ds [] t

pub times_plus_all-first :
    (base factor d : ℕ) (ds cs : List ℕ)
    → (e : ℕ) × (es : List ℕ) × (times_plus_all base factor (d ∷ ds) cs ≡ e ∷ es)
unfolding times_plus_all times_plus
times_plus_all-first base factor d ds [] = (d, ds, refl)
times_plus_all-first base factor d ds (c ∷ cs) =
    times_plus_all-first base factor ((c + d * factor) % base)
      (times_plus base factor ((c + d * factor) / base) ds) cs

module _ (base : ℕ) (radix : 2 ≤ base) (factor : ℕ) where
  pub number-times_plus_all :
      (ds cs : List ℕ)
      → number base (times_plus_all base factor ds cs) ≡ horner factor (number base ds) cs
  unfolding times_plus_all horner
  number-times_plus_all ds [] = refl
  number-times_plus_all ds (c ∷ cs) =
      number-times_plus_all (times_plus base factor c ds) cs
      ∙ ap (λ n. horner factor n cs) (number-times_plus base radix factor c ds)

  pub number-converted :
      (cs : List ℕ) → number base (times_plus_all base factor (0 ∷ []) cs) ≡ horner factor 0 cs
  unfolding number
  number-converted cs =
      let start : 0 + 0 * base ≡ 0 = omega arith in
      number-times_plus_all (0 ∷ []) cs ∙ ap (λ n. horner factor n cs) start

  pub times_plus_all-All :
      (ds cs : List ℕ)
      → All (λ d. d < base) ds
      → All (λ d. d < base) (times_plus_all base factor ds cs)
  unfolding times_plus_all
  times_plus_all-All ds [] h = h
  times_plus_all-All ds (c ∷ cs) h =
      times_plus_all-All (times_plus base factor c ds) cs (times_plus-All base radix factor c ds)

  times_plus_all-IsTopped :
      (ds cs : List ℕ) → 0 < factor → IsTopped ds → IsTopped (times_plus_all base factor ds cs)
  unfolding times_plus_all
  times_plus_all-IsTopped ds [] positive t = t
  times_plus_all-IsTopped ds (c ∷ cs) positive t =
      times_plus_all-IsTopped (times_plus base factor c ds) cs positive
        (times_plus-IsTopped base radix factor c ds positive t)

  -- What the loop of the source makes of digits that start with a positive one.
  pub converted-IsTopped :
      (c : ℕ) (cs : List ℕ)
      → 0 < factor
      → 0 < c
      → IsTopped (times_plus_all base factor (0 ∷ []) (c ∷ cs))
  unfolding times_plus_all
  converted-IsTopped c cs positive first =
      times_plus_all-IsTopped (times_plus base factor c (0 ∷ [])) cs positive
        (times_plus-zero base radix factor c first)

horner-positive : (base acc : ℕ) (ds : List ℕ) → 0 < base → 0 < acc → 0 < horner base acc ds
unfolding horner
horner-positive base acc [] p q = q
horner-positive base acc (d ∷ ds) p q =
    horner-positive base (d + acc * base) ds p (product_positive d acc base q p)

pub All-reverse_aux :
    (P : ℕ → Type 0) (ds acc : List ℕ) → All P ds → All P acc → All P (reverse_aux ds acc)
All-reverse_aux P [] acc h k = k
All-reverse_aux P (d ∷ ds) acc h k = All-reverse_aux P ds (d ∷ acc) h.1 (h.0, k)

-- Converted to another base and back, digits that start with a positive one are the same.
module _ (b e c : ℕ) (cs : List ℕ) (two : 2 ≤ b) (two' : 2 ≤ e) (positive : 0 < c) where
  back :
      (ds : List ℕ)
      → IsTopped ds
      → number e ds ≡ horner b 0 (c ∷ cs)
      → All (λ d. d < b) (c ∷ cs)
      → times_plus_all b e (0 ∷ []) (reverse ds) ≡ reverse (c ∷ cs)
  unfolding horner number
  back [] t same fit =
      absurd (omega (arith, same, horner-positive b (c + 0 * b) cs (omega arith) (omega arith)))
  back (d ∷ ds) t same fit =
      let (x, xs, first, high) = reverse-first d ds t in
      let digits = times_plus_all b e (0 ∷ []) (reverse (d ∷ ds)) in
      let topped : IsTopped digits =
        subst (λ l. IsTopped (times_plus_all b e (0 ∷ []) l)) (sym first)
          (converted-IsTopped b two e x xs (omega arith) high) in
      let equal : number b digits ≡ number b (reverse (c ∷ cs)) =
        number-converted b two e (reverse (d ∷ ds))
        ∙ sym (number-reverse e (reverse (d ∷ ds)))
        ∙ ap (number e) (reverse-reverse (d ∷ ds))
        ∙ same
        ∙ sym (number-reverse b (c ∷ cs)) in
      number_unique b two digits (reverse (c ∷ cs))
        (times_plus_all-All b two e (0 ∷ []) (reverse (d ∷ ds)) (omega arith))
        (All-reverse_aux _ (c ∷ cs) [] fit tt) topped (reverse-IsTopped c cs positive) equal

  pub there_and_back :
      All (λ d. d < b) (c ∷ cs)
      → times_plus_all b e (0 ∷ []) (reverse (times_plus_all e b (0 ∷ []) (c ∷ cs)))
        ≡ reverse (c ∷ cs)
  there_and_back fit =
      back (times_plus_all e b (0 ∷ []) (c ∷ cs))
        (converted-IsTopped e two' b c cs (omega arith) positive)
        (number-converted e two' b (c ∷ cs)) fit
