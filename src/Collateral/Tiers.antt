-- ===== src/Collateral/Tiers.antt =====
-- The table of lock tiers and the lookup in it.
use diginaut_wallet.Prelude.{
  ℕ, zero, suc, ◌*◌, ◌<◌, ◌≤◌, ◌≡◌, String, List, [], ◌∷◌, some, All, get_elem?, arith, Bool-cases,
  inl, inr, some,
}
use diginaut_wallet.Collateral.{LockTier, lock_tiers, find_tier, tier_by_id, blocks_per_day}
use text.Mathlib.Text.{◌==◌ as str_eq}
use mathlib.Core.Path.{subst}
use text.Mathlib.TextEquality.{eq_iff}

find_tier-All :
    (P : LockTier → Type 0) (id : String) (ts : List LockTier) {t : LockTier}
    → All P ts
    → find_tier id ts ≡ some t
    → P t × (t.id ≡ id)
unfolding find_tier
find_tier-All P id [] h e = cc
find_tier-All P id (u ∷ us) {t} h e = elim (Bool-cases (str_eq u.id id)) [
  | inl same ↦
      let found : some u ≡ some t = rw same at e in
      let is_t : u ≡ t = cc in
      (subst P is_t h.0, subst (λ (w : LockTier). w.id ≡ id) is_t ((eq_iff u.id id).0 same))
  | inr other ↦ find_tier-All P id us h.1 (rw other at e)
]

-- The bounds of the table.
abbrev pub InTable : LockTier → Type 0
InTable t =
    (200 ≤ t.ratio_percent)
    × (t.ratio_percent ≤ 1000)
    × (240 ≤ t.lock_blocks)
    × (t.lock_blocks ≤ 3650 * blocks_per_day)

lock_tiers-InTable : All InTable lock_tiers
unfolding lock_tiers
lock_tiers-InTable = omega arith

-- A tier that is found has the id that was asked for, a ratio of 200 to 1000 percent, and a lock of
-- one hour to ten years.
pub tier_by_id-InTable :
    (id : String) {t : LockTier} → tier_by_id id ≡ some t → InTable t × (t.id ≡ id)
unfolding tier_by_id
tier_by_id-InTable id e = find_tier-All InTable id lock_tiers lock_tiers-InTable e

-- Each tier before all the later ones: shorter lock, higher ratio.
abbrev Precedes : LockTier → LockTier → Type 0
Precedes t u = (t.lock_blocks < u.lock_blocks) × (u.ratio_percent < t.ratio_percent)

abbrev IsGraded : List LockTier → Type 0
IsGraded [] = Unit
IsGraded (t ∷ ts) = All (Precedes t) ts × IsGraded ts

lock_tiers-IsGraded : IsGraded lock_tiers
unfolding lock_tiers
lock_tiers-IsGraded = omega arith

get_elem?-All :
    (P : LockTier → Type 0) (ts : List LockTier) (i : ℕ) {t : LockTier}
    → All P ts
    → get_elem? ts i ≡ some t
    → P t
get_elem?-All P [] i h e = cc
get_elem?-All P (u ∷ us) zero {t} h e = let is_t : u ≡ t = cc in subst P is_t h.0
get_elem?-All P (u ∷ us) (suc i) h e = get_elem?-All P us i h.1 e

IsGraded-get_elem? :
    (ts : List LockTier) (i j : ℕ) {t u : LockTier}
    → IsGraded ts
    → i < j
    → get_elem? ts i ≡ some t
    → get_elem? ts j ≡ some u
    → Precedes t u
IsGraded-get_elem? [] i j g h e d = cc
IsGraded-get_elem? (x ∷ xs) zero zero g h e d = absurd (omega arith)
IsGraded-get_elem? (x ∷ xs) zero (suc j) {t} {u} g h e d =
    let is_t : x ≡ t = cc in
    subst (λ (w : LockTier). Precedes w u) is_t (get_elem?-All (Precedes x) xs j g.0 d)
IsGraded-get_elem? (x ∷ xs) (suc i) zero g h e d = absurd (omega arith)
IsGraded-get_elem? (x ∷ xs) (suc i) (suc j) g h e d =
    IsGraded-get_elem? xs i j g.1 (omega arith) e d

-- A tier further down the table has a longer lock and a lower ratio.
pub lock_tiers-graded :
    (i j : ℕ) (t u : LockTier)
    → i < j
    → get_elem? lock_tiers i ≡ some t
    → get_elem? lock_tiers j ≡ some u
    → (t.lock_blocks < u.lock_blocks) × (u.ratio_percent < t.ratio_percent)
lock_tiers-graded i j t u h e d = IsGraded-get_elem? lock_tiers i j lock_tiers-IsGraded h e d
