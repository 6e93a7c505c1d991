-- ===== src/Prelude/Outcomes.antt =====
-- A JavaScript call that returns a value or throws. Each component has its own type of errors.
use mathlib.Core.Path.{◌≡◌, refl}
use mathlib.Core.Bool.{Bool, true, false}
use mathlib.Core.Logic.{◌⊎◌, inl, inr}

pub data Outcome {ℓ} (E : Type 0) (A : Type ℓ) : Type ℓ where
  ok : A → Outcome E A
  throw : E → Outcome E A

module _ {E : Type 0} where
  infixl 5 ◌>>=◌
  abbrev pub ◌>>=◌ {ℓ κ} : {A : Type ℓ} {B : Type κ} → Outcome E A → (A → Outcome E B) → Outcome E B
  throw why >>= next = throw why
  ok value >>= next = next value

  infixl 5 ◌>>◌
  abbrev pub ◌>>◌ {κ} : {B : Type κ} → Outcome E (Unit {0}) → Outcome E B → Outcome E B
  throw why >> then_ = throw why
  ok done >> then_ = then_

  -- `if (b) throw e;`
  abbrev pub throw_if : Bool → E → Outcome E (Unit {0})
  throw_if true e = throw e
  throw_if false e = ok tt

module _ {ℓ κ} {E : Type 0} {A : Type ℓ} {B : Type κ} (next : A → Outcome E B) where
  -- Two steps that return have passed a value from the one to the other.
  pub >>=_returned :
      (first : Outcome E A) {result : B}
      → (first >>= next) ≡ ok result
      → (value : A) × (next value ≡ ok result) × (first ≡ ok value)
  >>=_returned (throw why) returned = cc
  >>=_returned (ok value) returned = (value, returned, refl)

  -- What follows a first step that returned may be put after both.
  pub >>=-chain {μ} :
      {C : Type μ} (first : Outcome E A) (last : B → Outcome E C) {result : B}
      → (first >>= next) ≡ ok result
      → (first >>= λ x. next x >>= last) ≡ last result
  >>=-chain (throw why) last returned = cc
  >>=-chain (ok value) last returned = rw returned

pub >>_returned {κ} :
    {E : Type 0} {B : Type κ} (first : Outcome E (Unit {0})) (rest : Outcome E B) {result : B}
    → (first >> rest) ≡ ok result
    → (rest ≡ ok result) × (first ≡ ok tt)
>>_returned (throw why) rest returned = cc
>>_returned (ok done) rest returned = (returned, refl)

pub ok-injective {ℓ} :
    {E : Type 0} {A : Type ℓ} {a b : A} → ◌≡◌ {A = Outcome E A} (ok a) (ok b) → a ≡ b
ok-injective h = cc

pub Outcome-cases {ℓ} :
    {E : Type 0} {A : Type ℓ} (o : Outcome E A) → ((a : A) × (o ≡ ok a)) ⊎ ((e : E) × (o ≡ throw e))
Outcome-cases (ok a) = inl (a, refl)
Outcome-cases (throw e) = inr (e, refl)

-- A call that returns, with its result.
abbrev pub Returns {ℓ} : {E : Type 0} {A : Type ℓ} → Outcome E A → Type ℓ
Returns {A = A} o = (a : A) × (o ≡ ok a)

pub >>=-Returns {ℓ κ} :
    {E : Type 0} {A : Type ℓ} {B : Type κ} (first : Outcome E A) (next : A → Outcome E B)
    → Returns first
    → ((a : A) → first ≡ ok a → Returns (next a))
    → Returns (first >>= next)
>>=-Returns (throw why) next (a, h) more = cc
>>=-Returns (ok value) next returned more = more value refl
