-- ===== src/Vault/Wallets/Changes.antt =====
-- The tables of wallets and seeds that the operations of apps/wallet/public/vault.js compute.
use diginaut_wallet.Prelude.{
  ℕ, ◌≡◌, ◌≢◌, refl, sym, ap, ◌∙◌, Bool, true, false, not, ◌==◌, ==_iff, List, [], ◌∷◌, ◌++◌,
  map-append, filter, filter-In, some, In, inl, inr, arith, Bool-cases, Option-cases,
}
use diginaut_wallet.Prelude.Dict.{get, put, remove, get-put, get-remove}
use diginaut_wallet.Vault.State.{WalletRow, Meta, Secrets, Call}
use diginaut_wallet.Vault.Manager.{Draft, wallet_meta_row, new_wallet_id}
use diginaut_wallet.Vault.Wallets.{
  find_row, on_row, update_row, neighbour, next_active, stored_index, raised_index, with_source,
}
use diginaut_wallet.Vault.Wallets.Ids.{
  ids, Distinct, keys, WellFormed, new_wallet_id-fresh, keys-put, keys-remove, ids-filter,
  ids-on_row, Distinct-snoc, Distinct-filter, find_row-In, find_row-on_row, find_row-snoc,
  find_row-filter, neighbour-In, snoc-In,
}
use diginaut_wallet.Vault.Wallets.Operations.{
  Kept, Operation, RowKept, RowKept-refl, add, remove_one,
}

module _ (m : Meta) (s : Secrets) (wf : WellFormed m s) where
  -- An update of one row that leaves its id alone.
  pub update_row-WellFormed :
      (k : ℕ) (f : WalletRow → WalletRow)
      → ((r : WalletRow) → (f r).id ≡ r.id)
      → WellFormed (update_row k f m) s
  update_row-WellFormed k f h =
      let e = ids-on_row k f m.wallets h in
      record { matched = wf.matched ∙ sym e; distinct = rw e wf.distinct; active = rw e wf.active }

  pub on_row-RowKept :
      (k j : ℕ) (f : WalletRow → WalletRow) (r : WalletRow)
      → (find_row k m.wallets ≡ some r → RowKept r (f r))
      → find_row j m.wallets ≡ some r
      → RowKept r (on_row k f r)
  on_row-RowKept k j f r h e = elim (Bool-cases (r.id == k)) [
    | inl same ↦
        let at_k : k ≡ j = sym ((==_iff _ _).0 same) ∙ (find_row-In j m.wallets r e).1 in
        rw same (h (rw at_k e))
    | inr other ↦ rw other (RowKept-refl r)
  ]

  pub update_row-Kept :
      (op : Operation) (k : ℕ) (f : WalletRow → WalletRow)
      → ((x : WalletRow) → (f x).id ≡ x.id)
      → ((r : WalletRow) → find_row k m.wallets ≡ some r → RowKept r (f r))
      → Kept op m (update_row k f m) s s
  update_row-Kept op k f same h = record {
    seeds = λ j v stays e. e;
    rows = λ j r stays e.
        (on_row k f r, find_row-on_row k j f m.wallets r same e, on_row-RowKept k j f r (h r) e);
  }

pub back_up-RowKept : (r : WalletRow) → RowKept r (record r { backed_up = true })
unfolding stored_index
back_up-RowKept r = record { same_id = refl; backed = λ _. refl; index = omega arith }

pub renamed-RowKept : (n : List ℕ) (r : WalletRow) → RowKept r (record r { name = n })
unfolding stored_index
renamed-RowKept n r = record { same_id = refl; backed = λ h. h; index = omega arith }

pub derived-RowKept : (r : WalletRow) → RowKept r (record r { derived = true })
unfolding stored_index
derived-RowKept r = record { same_id = refl; backed = λ h. h; index = omega arith }

pub raised-RowKept :
    (index : ℕ) (r x : WalletRow)
    → r ≡ x
    → RowKept x (record x { receive_index = some (raised_index index r) })
unfolding stored_index raised_index
raised-RowKept index r x e = record { same_id = refl; backed = λ h. h; index = ground arith }

abbrev pub is_blank : List ℕ → Bool
is_blank [] = true
is_blank (x ∷ xs) = false

pub get-In : (j : ℕ) (v : List ℕ) (d : List (ℕ × List ℕ)) → get j d ≡ some v → In j (keys d)
unfolding get
get-In j v [] e = cc
get-In j v ((i, x) ∷ d) e = ground (arith, get-In j v d)

module _ (c : Call) (m : Meta) (s : Secrets) (wf : WellFormed m s) (d : Draft) where
  abbrev pub added_meta : Meta
  added_meta = record m {
    wallets = m.wallets ++ wallet_meta_row (new_wallet_id c.fresh.now m.wallets) c.fresh.now d ∷ [];
  }

  abbrev pub added_secrets : Secrets
  added_secrets =
      let id = new_wallet_id c.fresh.now m.wallets in
      record {
        mnemonics = put id d.mnemonic s.mnemonics;
        sources = with_source id d.source s.sources;
      }

  pub fresh_key : ¬ In (new_wallet_id c.fresh.now m.wallets) (keys s.mnemonics)
  fresh_key = rw wf.matched (new_wallet_id-fresh c.fresh.now m.wallets)

  pub added-ids : ids added_meta.wallets ≡ ids m.wallets ++ new_wallet_id c.fresh.now m.wallets ∷ []
  unfolding wallet_meta_row
  added-ids = map-append (λ r. r.id) m.wallets _

  pub added-WellFormed : WellFormed added_meta added_secrets
  added-WellFormed = record {
    matched =
        keys-put _ d.mnemonic s.mnemonics fresh_key
        ∙ ap (λ l. l ++ new_wallet_id c.fresh.now m.wallets ∷ []) wf.matched
        ∙ sym added-ids;
    distinct =
        rw added-ids
          (Distinct-snoc _ (ids m.wallets) wf.distinct (new_wallet_id-fresh c.fresh.now m.wallets));
    active = rw added-ids (snoc-In m.active_id _ (ids m.wallets) wf.active);
  }

  pub added_seed :
      (j : ℕ) (v : List ℕ) → get j s.mnemonics ≡ some v → get j added_secrets.mnemonics ≡ some v
  added_seed j v e =
      let id = new_wallet_id c.fresh.now m.wallets in
      elim (Bool-cases (id == j)) [
        | inl same ↦ absurd (fresh_key (rw ((==_iff _ _).0 same) (get-In j v s.mnemonics e)))
        | inr other ↦ get-put id j d.mnemonic s.mnemonics ∙ rw other e
      ]

  pub added-Kept : Kept (add d) m added_meta s added_secrets
  added-Kept = record {
    seeds = λ j v stays e. added_seed j v e;
    rows = λ j r stays e. (r, find_row-snoc j _ m.wallets r e, RowKept-refl r);
  }

abbrev pub removed_secrets : ℕ → Secrets → Secrets
removed_secrets id s = record { mnemonics = remove id s.mnemonics; sources = remove id s.sources }

abbrev pub removed_meta : ℕ → ℕ → Meta → Meta
removed_meta id next m = record {
  active_id = next;
  wallets = filter (λ x. not (x.id == id)) m.wallets;
}

pub next_active-In :
    (id : ℕ) (m : Meta) (s : Secrets)
    → WellFormed m s
    → (next : ℕ) → next_active id m ≡ some next
    → In next (ids m.wallets) × (not (next == id) ≡ true)
unfolding next_active
next_active-In id m s wf next to = elim (Option-cases (neighbour id m.wallets)) [
  | inl none_left ↦ ground (arith, wf.active)
  | inr (n, e) ↦ ground (arith, wf.active, neighbour-In id m.wallets n wf.distinct e)
]

pub removed-WellFormed :
    (id : ℕ) (m : Meta) (s : Secrets)
    → WellFormed m s
    → (next : ℕ) → next_active id m ≡ some next
    → WellFormed (removed_meta id next m) (removed_secrets id s)
removed-WellFormed id m s wf next to =
    let e = ids-filter id m.wallets in
    let (there, other) = next_active-In id m s wf next to in
    record {
      matched = keys-remove id s.mnemonics ∙ ap (filter (λ n. not (n == id))) wf.matched ∙ sym e;
      distinct = rw e (Distinct-filter _ (ids m.wallets) wf.distinct);
      active = rw e (filter-In (λ n. not (n == id)) next (ids m.wallets) there other);
    }

pub removed-Kept :
    (id : ℕ) (m : Meta) (s : Secrets) (next : ℕ)
    → Kept (remove_one id) m (removed_meta id next m) s (removed_secrets id s)
removed-Kept id m s next = record {
  seeds = λ j v (stays : j ≢ id) e. ground (arith, get-remove id j s.mnemonics);
  rows = λ j r stays e. (r, find_row-filter id j m.wallets r stays e, RowKept-refl r);
}

pub only_id :
    (id : ℕ) (rows : List WalletRow)
    → Distinct (ids rows)
    → In id (ids rows)
    → filter (λ x. not (x.id == id)) rows ≡ []
    → ids rows ≡ id ∷ []
only_id id [] d i e = absurd i
only_id id (r ∷ []) d i e = ground arith
only_id id (r ∷ q ∷ rs) d i e = ground (arith, d.0)
