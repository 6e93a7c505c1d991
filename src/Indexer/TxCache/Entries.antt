-- ===== src/Indexer/TxCache/Entries.antt =====
-- The entries of the cache under deletion, insertion and eviction.
use diginaut_wallet.Prelude.{
  ℕ, zero, suc, ◌≤◌, ◌≡◌, refl, subst, ◌∙◌, List, [], ◌∷◌, ◌++◌, true, false, none, some, ltb,
  if◌then◌else◌, length, length-append, drop, get_elem?, find, All, All-append, Bool-cases, inl,
  inr, arith,
}
use diginaut_wallet.Text.{same_text-eq, same_text-sym}
use diginaut_wallet.Indexer.TxCache.{CacheEntry, is_of, delete_entry, evict}

abbrev pub IsOther : List ℕ → CacheEntry → Type 0
IsOther txid e = is_of txid e ≡ false

abbrev pub IsDistinct : List CacheEntry → Type 0
IsDistinct [] = Unit
IsDistinct (e ∷ es) = All (IsOther e.txid) es × IsDistinct es

-- The call of the entry's promise asked for the entry's transaction.
abbrev pub IsHonest : List (List ℕ) → CacheEntry → Type 0
IsHonest calls e = get_elem? calls e.promise ≡ some e.txid

get_elem?-append :
    (xs ys : List (List ℕ)) (i : ℕ) {x : List ℕ}
    → get_elem? xs i ≡ some x
    → get_elem? (xs ++ ys) i ≡ some x
get_elem?-append [] ys i h = cc
get_elem?-append (x ∷ xs) ys zero h = h
get_elem?-append (x ∷ xs) ys (suc i) h = get_elem?-append xs ys i h

pub get_elem?-last :
    (xs : List (List ℕ)) (x : List ℕ) → get_elem? (xs ++ x ∷ []) (length xs) ≡ some x
get_elem?-last [] x = refl
get_elem?-last (y ∷ xs) x = get_elem?-last xs x

pub All-IsHonest_append :
    (calls : List (List ℕ)) (txid : List ℕ) (es : List CacheEntry)
    → All (IsHonest calls) es
    → All (IsHonest (calls ++ txid ∷ [])) es
All-IsHonest_append calls txid [] h = tt
All-IsHonest_append calls txid (e ∷ es) h =
    (get_elem?-append calls (txid ∷ []) e.promise h.0, All-IsHonest_append calls txid es h.1)

module _ (txid : List ℕ) where
  pub delete_entry-All :
      (P : CacheEntry → Type 0) (es : List CacheEntry) → All P es → All P (delete_entry txid es)
  unfolding delete_entry
  delete_entry-All P [] h = tt
  delete_entry-All P (e ∷ es) h = elim (Bool-cases (is_of txid e)) [
    | inl same ↦ rw (same, if◌then◌else◌) h.1
    | inr other ↦ rw (other, if◌then◌else◌) (h.0, delete_entry-All P es h.1)
  ]

  pub length-delete_entry : (es : List CacheEntry) → length (delete_entry txid es) ≤ length es
  unfolding delete_entry
  length-delete_entry [] = omega arith
  length-delete_entry (e ∷ es) = ground (arith, length-delete_entry es)

  pub delete_entry-IsDistinct :
      (es : List CacheEntry)
      → IsDistinct es
      → IsDistinct (delete_entry txid es) × All (IsOther txid) (delete_entry txid es)
  unfolding delete_entry
  delete_entry-IsDistinct [] h = (tt, tt)
  delete_entry-IsDistinct (e ∷ es) h = elim (Bool-cases (is_of txid e)) [
    | inl same ↦
        rw (same, if◌then◌else◌)
          (h.1, subst (λ (t : List ℕ). All (IsOther t) es) (same_text-eq e.txid txid same) h.0)
    | inr other ↦
        let rest = delete_entry-IsDistinct es h.1 in
        rw (other, if◌then◌else◌)
          ((delete_entry-All (IsOther e.txid) es h.0, rest.0), (other, rest.1))
  ]

pub append-IsDistinct :
    (es : List CacheEntry) (new : CacheEntry)
    → IsDistinct es
    → All (IsOther new.txid) es
    → IsDistinct (es ++ new ∷ [])
append-IsDistinct [] new h k = (tt, tt)
append-IsDistinct (e ∷ es) new h k = (
  All-append (IsOther e.txid) es (new ∷ []) h.0 (same_text-sym new.txid e.txid ∙ k.0, tt),
  append-IsDistinct es new h.1 k.1,
)

-- What an insertion leaves of the entries before it.
abbrev pub spared : List CacheEntry → List CacheEntry
spared xs = if ltb 499 (length xs) then drop 1 xs else xs

pub evict-append :
    (xs : List CacheEntry) (new : CacheEntry) → evict (xs ++ new ∷ []) ≡ spared xs ++ new ∷ []
unfolding evict
evict-append [] new = refl
evict-append (x ∷ xs) new = elim (Bool-cases (ltb 499 (length (x ∷ xs)))) [
  | inl full ↦ ground (arith, full, length-append xs (new ∷ []))
  | inr room ↦ ground (arith, room, length-append xs (new ∷ []))
]

pub spared-All : (P : CacheEntry → Type 0) (xs : List CacheEntry) → All P xs → All P (spared xs)
spared-All P [] h = tt
spared-All P (x ∷ xs) h = elim (Bool-cases (ltb 499 (length (x ∷ xs)))) [
  | inl full ↦ rw (full, if◌then◌else◌) h.1
  | inr room ↦ rw (room, if◌then◌else◌) h
]

pub spared-IsDistinct : (xs : List CacheEntry) → IsDistinct xs → IsDistinct (spared xs)
spared-IsDistinct [] h = tt
spared-IsDistinct (x ∷ xs) h = elim (Bool-cases (ltb 499 (length (x ∷ xs)))) [
  | inl full ↦ rw (full, if◌then◌else◌) h.1
  | inr room ↦ rw (room, if◌then◌else◌) h
]

pub length-spared : (xs : List CacheEntry) → length xs ≤ 500 → length (spared xs) ≤ 499
length-spared [] h = omega arith
length-spared (x ∷ xs) h = ground (arith, h)

pub find-last :
    (txid : List ℕ) (xs : List CacheEntry) (new : CacheEntry)
    → All (IsOther txid) xs
    → is_of txid new ≡ true
    → find (is_of txid) (xs ++ new ∷ []) ≡ some new
find-last txid [] new h k = ground (arith, k)
find-last txid (x ∷ xs) new h k = ground (arith, h.0, find-last txid xs new h.1 k)

pub find-none :
    (txid : List ℕ) (xs : List CacheEntry) → All (IsOther txid) xs → find (is_of txid) xs ≡ none
find-none txid [] h = refl
find-none txid (x ∷ xs) h = ground (arith, h.0, find-none txid xs h.1)
