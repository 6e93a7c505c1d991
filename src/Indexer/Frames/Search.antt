-- ===== src/Indexer/Frames/Search.antt =====
-- The search of the assembler: the first newline in the chunks that were not scanned, if there is one.
use diginaut_wallet.Prelude.{
  ℕ, ◌+◌, ◌≡◌, refl, sym, subst, ap, ◌∙◌, List, [], ◌∷◌, ◌++◌, arith, ◌==◌, All-append, length,
  Option, none, some, Bool-cases, Option-cases, inl, inr, append_assoc,
}
use diginaut_wallet.Indexer.Frames.{Found, newline, newline_at, search_chunks, concat}
use diginaut_wallet.Indexer.Frames.Lines.{Interior}

pub concat-append : (xs ys : List (List ℕ)) → concat (xs ++ ys) ≡ concat xs ++ concat ys
unfolding concat
concat-append [] ys = refl
concat-append (x ∷ xs) ys =
    ap (λ t. x ++ t) (concat-append xs ys) ∙ sym (append_assoc x (concat xs) (concat ys))

-- A chunk around its first newline.
pub record Cut (chunk : List ℕ) (i p : ℕ) : Type 0 where
  pub head : List ℕ
  pub tail : List ℕ
  pub parts : chunk ≡ head ++ newline ∷ tail
  pub interior : Interior head
  pub place : p ≡ i + length head

newline_at-none : (i : ℕ) (bs : List ℕ) → newline_at i bs ≡ none → Interior bs
unfolding newline_at
newline_at-none i [] h = tt
newline_at-none i (b ∷ bs) h = elim (Bool-cases (b == newline)) [
  | inl e ↦ absurd (ground (arith, e, h))
  | inr e ↦ (e, newline_at-none (i + 1) bs (ground (arith, e, h)))
]

newline_at-Cut : (i : ℕ) (bs : List ℕ) {p : ℕ} → newline_at i bs ≡ some p → Cut bs i p
unfolding newline_at
newline_at-Cut i [] h = absurd (ground (arith, h))
newline_at-Cut i (b ∷ bs) {p} h = elim (Bool-cases (b == newline)) [
  | inl e ↦ record {
    head = [];
    tail = bs;
    parts = ground (arith, e);
    interior = tt;
    place = ground (arith, e, h);
  }
  | inr e ↦
      let c = newline_at-Cut (i + 1) bs {p = p} (ground (arith, e, h)) in
      record {
        head = b ∷ c.head;
        tail = c.tail;
        parts = ap (λ t. b ∷ t) c.parts;
        interior = (e, c.interior);
        place = omega (arith, c.place);
      }
]

-- Chunks around the first one with a newline.
pub record CutAt (chunks : List (List ℕ)) (i : ℕ) (f : Found) : Type 0 where
  pub before : List (List ℕ)
  pub chunk : List ℕ
  pub after : List (List ℕ)
  pub parts : chunks ≡ before ++ chunk ∷ after
  pub interior : Interior (concat before)
  pub place : f.nl_chunk ≡ i + length before
  pub cut : Cut chunk 0 f.nl_pos

pub search_chunks-none :
    (i : ℕ) (chunks : List (List ℕ))
    → (search_chunks i chunks).1 ≡ none
    → Interior (concat chunks) × ((search_chunks i chunks).0 ≡ i + length chunks)
unfolding search_chunks concat
search_chunks-none i [] h = (tt, omega arith)
search_chunks-none i (chunk ∷ chunks) h = elim (Option-cases (newline_at 0 chunk)) [
  | inl e ↦
      let (inside, scanned) = search_chunks-none (i + 1) chunks (ground (arith, e, h)) in
      (
        All-append _ chunk (concat chunks) (newline_at-none 0 chunk e) inside,
        ground (arith, e, scanned),
      )
  | inr (p, e) ↦ absurd (ground (arith, e, h))
]

pub search_chunks-CutAt :
    (i : ℕ) (chunks : List (List ℕ)) {f : Found}
    → (search_chunks i chunks).1 ≡ some f
    → CutAt chunks i f
unfolding search_chunks concat
search_chunks-CutAt i [] h = absurd (ground (arith, h))
search_chunks-CutAt i (chunk ∷ chunks) {f} h = elim (Option-cases (newline_at 0 chunk)) [
  | inl e ↦
      let c = search_chunks-CutAt (i + 1) chunks {f = f} (ground (arith, e, h)) in
      record {
        before = chunk ∷ c.before;
        chunk = c.chunk;
        after = c.after;
        parts = ap (λ t. chunk ∷ t) c.parts;
        interior = All-append _ chunk (concat c.before) (newline_at-none 0 chunk e) c.interior;
        place = omega (arith, c.place);
        cut = c.cut;
      }
  | inr (p, e) ↦
      let position : p ≡ f.nl_pos = ground (arith, e, h) in
      record {
        before = [];
        chunk = chunk;
        after = chunks;
        parts = refl;
        interior = tt;
        place = ground (arith, e, h);
        cut = subst (Cut chunk 0) position (newline_at-Cut 0 chunk e);
      }
]

pub some-injective : {A : Type 0} {x y : A} → ◌≡◌ {A = Option A} (some x) (some y) → x ≡ y
some-injective h = cc
