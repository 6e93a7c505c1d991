-- ===== src/Vault/Wallets/Ids.antt =====
-- Wallet ids in apps/wallet/public/vault.js: rows found by id, seeds keyed by id, and fresh ids.
use diginaut_wallet.Prelude.{
  ℕ, zero, suc, ◌+◌, ◌≤◌, ◌<◌, ◌≡◌, ◌≢◌, refl, sym, Bool, true, false, not, ◌==◌, leb,
  if◌then◌else◌, List, [], ◌∷◌, ◌++◌, map, filter, Option, none, some, length, In, In-filter, inl,
  inr, ◌⊎◌, arith, Bool-cases,
}
use diginaut_wallet.Prelude.Dict.{put, remove}
use diginaut_wallet.Vault.State.{WalletRow, Meta, Secrets}
use diginaut_wallet.Vault.Manager.{taken, bump_id, new_wallet_id}
use diginaut_wallet.Vault.Wallets.{find_row, on_row, neighbour, neighbour_from}

abbrev pub ids : List WalletRow → List ℕ
ids rows = map (λ r. r.id) rows

abbrev pub keys : List (ℕ × List ℕ) → List ℕ
keys d = map (λ e. e.0) d

abbrev pub Distinct : List ℕ → Type 0
Distinct [] = Unit
Distinct (n ∷ ns) = ¬ In n ns × Distinct ns

-- The seeds are kept in the order of the rows, no id stands twice, and the active wallet exists.
pub record WellFormed (m : Meta) (s : Secrets) : Type 0 where
  pub matched : keys s.mnemonics ≡ ids m.wallets
  pub distinct : Distinct (ids m.wallets)
  pub active : In m.active_id (ids m.wallets)

taken-In : (n : ℕ) (rows : List WalletRow) → taken n rows ≡ false → ¬ In n (ids rows)
unfolding taken
taken-In n [] h i = i
taken-In n (r ∷ rs) h i = ground (arith, taken-In n rs)

-- How many rows have this id or a larger one.
above : ℕ → List WalletRow → ℕ
above n [] = 0
above n (r ∷ rs) = (if leb n r.id then 1 else 0) + above n rs

above-le : (n : ℕ) (rows : List WalletRow) → above n rows ≤ length rows
unfolding above
above-le n [] = omega arith
above-le n (r ∷ rs) = ground (arith, above-le n rs)

above-suc : (n : ℕ) (rows : List WalletRow) → above (suc n) rows ≤ above n rows
unfolding above
above-suc n [] = omega arith
above-suc n (r ∷ rs) = ground (arith, above-suc n rs)

above-taken :
    (n : ℕ) (rows : List WalletRow) → taken n rows ≡ true → above (suc n) rows < above n rows
unfolding above taken
above-taken n [] h = cc
above-taken n (r ∷ rs) h = ground (arith, above-taken n rs, above-suc n rs)

bump_id_fresh :
    (fuel n : ℕ) (rows : List WalletRow)
    → above n rows ≤ fuel
    → taken (bump_id fuel n rows) rows ≡ false
unfolding bump_id
bump_id_fresh zero n rows h = ground (arith, above-taken n rows)
bump_id_fresh (suc fuel) n rows h =
    ground (arith, above-taken n rows, bump_id_fresh fuel (suc n) rows)

-- The loop finds an id that no row has, within the rounds that it is given.
pub new_wallet_id-fresh :
    (now : ℕ) (rows : List WalletRow) → ¬ In (new_wallet_id now rows) (ids rows)
unfolding new_wallet_id
new_wallet_id-fresh now rows =
    taken-In _ rows (bump_id_fresh (length rows) now rows (above-le now rows))

pub keys-put :
    (k : ℕ) (v : List ℕ) (d : List (ℕ × List ℕ))
    → ¬ In k (keys d)
    → keys (put k v d) ≡ keys d ++ k ∷ []
unfolding put
keys-put k v [] h = refl
keys-put k v ((j, w) ∷ d) h = ground (arith, keys-put k v d)

pub keys-remove :
    (k : ℕ) (d : List (ℕ × List ℕ)) → keys (remove k d) ≡ filter (λ n. not (n == k)) (keys d)
unfolding remove
keys-remove k [] = refl
keys-remove k ((j, w) ∷ d) = ground (arith, keys-remove k d)

pub ids-filter :
    (k : ℕ) (rows : List WalletRow)
    → ids (filter (λ r. not (r.id == k)) rows) ≡ filter (λ n. not (n == k)) (ids rows)
ids-filter k [] = refl
ids-filter k (r ∷ rs) = ground (arith, ids-filter k rs)

pub ids-on_row :
    (k : ℕ) (f : WalletRow → WalletRow) (rows : List WalletRow)
    → ((r : WalletRow) → (f r).id ≡ r.id)
    → ids (map (on_row k f) rows) ≡ ids rows
ids-on_row k f [] h = refl
ids-on_row k f (r ∷ rs) h = ground (arith, ids-on_row k f rs h, h r)

In-snoc : (m n : ℕ) (ns : List ℕ) → In m (ns ++ n ∷ []) → In m ns ⊎ (m ≡ n)
In-snoc m n [] h = ground arith
In-snoc m n (k ∷ ns) h = ground (arith, In-snoc m n ns)

pub snoc-In : (m n : ℕ) (ns : List ℕ) → In m ns → In m (ns ++ n ∷ [])
snoc-In m n [] h = absurd h
snoc-In m n (k ∷ ns) (inl e) = inl e
snoc-In m n (k ∷ ns) (inr i) = inr (snoc-In m n ns i)

pub Distinct-snoc : (n : ℕ) (ns : List ℕ) → Distinct ns → ¬ In n ns → Distinct (ns ++ n ∷ [])
Distinct-snoc n [] d h = (λ i. i, tt)
Distinct-snoc n (m ∷ ns) d h = (
  λ (i : In m (ns ++ n ∷ [])). ground (arith, In-snoc m n ns i, d.0, h),
  Distinct-snoc n ns d.1 (λ i. h (inr i)),
)

pub Distinct-filter : (p : ℕ → Bool) (ns : List ℕ) → Distinct ns → Distinct (filter p ns)
Distinct-filter p [] d = tt
Distinct-filter p (n ∷ ns) d = elim (Bool-cases (p n)) [
  | inl e ↦
      rw (e, filter)
        ((λ (i : In n (filter p ns)). d.0 (In-filter p n ns i).0), Distinct-filter p ns d.1)
  | inr e ↦ rw (e, filter) (Distinct-filter p ns d.1)
]

pub find_row-In :
    (k : ℕ) (rows : List WalletRow) (r : WalletRow)
    → find_row k rows ≡ some r
    → In k (ids rows) × (r.id ≡ k)
unfolding find_row
find_row-In k [] r h = cc
find_row-In k (x ∷ rs) r h = ground (arith, find_row-In k rs r)

-- A row keeps its place in a table to which an update or a new row is added.
pub find_row-on_row :
    (k j : ℕ) (f : WalletRow → WalletRow) (rows : List WalletRow) (r : WalletRow)
    → ((x : WalletRow) → (f x).id ≡ x.id)
    → find_row j rows ≡ some r
    → find_row j (map (on_row k f) rows) ≡ some (on_row k f r)
unfolding find_row
find_row-on_row k j f [] r h found = cc
find_row-on_row k j f (x ∷ rs) r h found = ground (arith, find_row-on_row k j f rs r h, h x)

pub find_row-snoc :
    (j : ℕ) (new : WalletRow) (rows : List WalletRow) (r : WalletRow)
    → find_row j rows ≡ some r
    → find_row j (rows ++ new ∷ []) ≡ some r
unfolding find_row
find_row-snoc j new [] r found = cc
find_row-snoc j new (x ∷ rs) r found = ground (arith, find_row-snoc j new rs r)

pub find_row-filter :
    (k j : ℕ) (rows : List WalletRow) (r : WalletRow)
    → j ≢ k
    → find_row j rows ≡ some r
    → find_row j (filter (λ x. not (x.id == k)) rows) ≡ some r
unfolding find_row
find_row-filter k j [] r ne found = cc
find_row-filter k j (x ∷ rs) r ne found = ground (arith, find_row-filter k j rs r)

-- The wallet that takes over is another one of the table.
neighbour_from_lem :
    (before : Option WalletRow) (k : ℕ) (rows : List WalletRow) (n : WalletRow)
    → Distinct (ids rows)
    → ((b : WalletRow) → before ≡ some b → b.id ≢ k)
    → neighbour_from before k rows ≡ some n
    → (n.id ≢ k) × (In n.id (ids rows) ⊎ (before ≡ some n))
unfolding neighbour_from
neighbour_from_lem before k [] n d h e = cc
neighbour_from_lem before k (r ∷ []) n d h e = ground (arith, h n)
neighbour_from_lem before k (r ∷ s ∷ rs) n d h e = elim (Bool-cases (r.id == k)) [
  | inl same ↦ ground (arith, λ (i : s.id ≡ r.id). d.0 (inl (sym i)))
  | inr other ↦ ground (
    arith,
    neighbour_from_lem (some r) k (s ∷ rs) n d.1
        (λ (b : WalletRow) (q : some r ≡ some b). ground arith),
  )
]

pub neighbour-In :
    (k : ℕ) (rows : List WalletRow) (n : WalletRow)
    → Distinct (ids rows)
    → neighbour k rows ≡ some n
    → (n.id ≢ k) × In n.id (ids rows)
unfolding neighbour
neighbour-In k rows n d e = ground (arith, neighbour_from_lem none k rows n d (λ b q. cc) e)
