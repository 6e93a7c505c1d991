-- ===== src/Indexer/Scan/Firsts.antt =====
-- The hashes that a scan has not seen yet, each where it comes first.
use diginaut_wallet.Prelude.{
  ℕ, ◌≡◌, refl, sym, subst, List, [], ◌∷◌, ◌++◌, Bool, true, false, ◌||◌, In, All, All-In,
  Bool-cases, inl, inr, arith, ◌↔◌,
}
use diginaut_wallet.Text.{same_text, same_text-eq, same_text_refl}

abbrev pub has : List ℕ → List (List ℕ) → Bool
has h [] = false
has h (k ∷ known) = same_text k h || has h known

abbrev pub firsts : List (List ℕ) → List (List ℕ) → List (List ℕ)
firsts known [] = []
firsts known (h ∷ hs) = elim (has h known) [
  | true ↦ firsts known hs
  | false ↦ h ∷ firsts (known ++ h ∷ []) hs
]

-- No hash comes twice.
abbrev pub IsOnce : List (List ℕ) → Type 0
IsOnce [] = Unit
IsOnce (h ∷ hs) = ¬ (In h hs) × IsOnce hs

module _ (h : List ℕ) (known hs : List (List ℕ)) where
  pub firsts_old : has h known ≡ true → firsts known (h ∷ hs) ≡ firsts known hs
  firsts_old e = rw (firsts, e) refl

  pub firsts_new : has h known ≡ false → firsts known (h ∷ hs) ≡ h ∷ firsts (known ++ h ∷ []) hs
  firsts_new e = rw (firsts, e) refl

has-append_older :
    (h : List ℕ) (known : List (List ℕ)) (more : List (List ℕ))
    → has h (known ++ more) ≡ false
    → has h known ≡ false
has-append_older h [] more e = refl
has-append_older h (k ∷ known) more e = elim (Bool-cases (same_text k h)) [
  | inl same ↦ absurd (ground (arith, same, e))
  | inr other ↦ ground (arith, other, e, has-append_older h known more)
]

has-append_last : (h : List ℕ) (known : List (List ℕ)) → has h (known ++ h ∷ []) ≡ true
has-append_last h [] = rw (same_text_refl h) refl
has-append_last h (k ∷ known) = elim (Bool-cases (same_text k h)) [
  | inl same ↦ rw same refl
  | inr other ↦ rw other (has-append_last h known)
]

has-append_other :
    (x h : List ℕ) (known : List (List ℕ))
    → has x known ≡ false
    → same_text h x ≡ false
    → has x (known ++ h ∷ []) ≡ false
has-append_other x h [] e d = rw d refl
has-append_other x h (k ∷ known) e d = elim (Bool-cases (same_text k x)) [
  | inl same ↦ absurd (ground (arith, same, e))
  | inr other ↦ ground (arith, other, e, has-append_other x h known)
]

abbrev IsNew : List (List ℕ) → List ℕ → Type 0
IsNew known h = has h known ≡ false

All-older :
    (known more : List (List ℕ)) (hs : List (List ℕ))
    → All (IsNew (known ++ more)) hs
    → All (IsNew known) hs
All-older known more [] h = tt
All-older known more (x ∷ hs) h = (has-append_older x known more h.0, All-older known more hs h.1)

firsts-IsNew : (known hs : List (List ℕ)) → All (IsNew known) (firsts known hs)
firsts-IsNew known [] = tt
firsts-IsNew known (h ∷ hs) = elim (Bool-cases (has h known)) [
  | inl old ↦ rw (firsts_old h known hs old) (firsts-IsNew known hs)
  | inr new ↦
      rw (firsts_new h known hs new)
        (new, All-older known (h ∷ []) _ (firsts-IsNew (known ++ h ∷ []) hs))
]

-- The first hashes come once each.
pub firsts-IsOnce : (known hs : List (List ℕ)) → IsOnce (firsts known hs)
firsts-IsOnce known [] = tt
firsts-IsOnce known (h ∷ hs) = elim (Bool-cases (has h known)) [
  | inl old ↦ rw (firsts_old h known hs old) (firsts-IsOnce known hs)
  | inr new ↦
      let rest = firsts (known ++ h ∷ []) hs in
      let twice : ¬ (In h rest) = λ i.
        let unseen : has h (known ++ h ∷ []) ≡ false =
          All-In (IsNew (known ++ h ∷ [])) h rest (firsts-IsNew (known ++ h ∷ []) hs) i in
        cc (has-append_last h known, unseen) in
      rw (firsts_new h known hs new) (twice, firsts-IsOnce (known ++ h ∷ []) hs)
]

firsts-In : (x : List ℕ) (known hs : List (List ℕ)) → In x (firsts known hs) → In x hs
firsts-In x known [] i = i
firsts-In x known (h ∷ hs) i = elim (Bool-cases (has h known)) [
  | inl old ↦ inr (firsts-In x known hs (rw (firsts_old h known hs old) at i))
  | inr new ↦
      let found : In x (h ∷ firsts (known ++ h ∷ []) hs) = rw (firsts_new h known hs new) at i in
      elim found [ inl same ↦ inl same | inr later ↦ inr (firsts-In x (known ++ h ∷ []) hs later) ]
]

In-firsts :
    (x : List ℕ) (known hs : List (List ℕ)) → has x known ≡ false → In x hs → In x (firsts known hs)
In-firsts x known [] e i = i
In-firsts x known (h ∷ hs) e (inl same) =
    let unseen : has h known ≡ false = subst (λ y. has y known ≡ false) same e in
    rw (firsts_new h known hs unseen) (inl same)
In-firsts x known (h ∷ hs) e (inr i) = elim (Bool-cases (has h known)) [
  | inl old ↦ rw (firsts_old h known hs old) (In-firsts x known hs e i)
  | inr new ↦ elim (Bool-cases (same_text h x)) [
    | inl same ↦ rw (firsts_new h known hs new) (inl (sym (same_text-eq h x same)))
    | inr other ↦
        rw (firsts_new h known hs new)
          (inr (In-firsts x (known ++ h ∷ []) hs (has-append_other x h known e other) i))
  ]
]

-- They are the hashes themselves, where none is known before.
pub firsts_iff : (x : List ℕ) (hs : List (List ℕ)) → In x (firsts [] hs) ↔ In x hs
firsts_iff x hs = (firsts-In x [] hs, In-firsts x [] hs refl)
