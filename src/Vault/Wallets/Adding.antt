-- ===== src/Vault/Wallets/Adding.antt =====
-- What `addWallet` returns: a fresh wallet that has the seed phrase, or the one that has it already.
use diginaut_wallet.Prelude.{
  ℕ, ◌≡◌, ap, ◌∙◌, Bool, true, false, List, [], ◌∷◌, some, ok, In, inl, inr, arith, Bool-cases,
}
use diginaut_wallet.Prelude.Dict.{get, get-put}
use diginaut_wallet.Vault.State.{Secrets, VaultRecord, World, Platform, Call}
use diginaut_wallet.Vault.Names.{norm_mnemonic}
use diginaut_wallet.Vault.Manager.{Draft, new_wallet_id}
use diginaut_wallet.Vault.Manager.Commit.{next_record, committed, commit_lem}
use diginaut_wallet.Vault.Wallets.{add_wallet, get_mnemonic, find_mnemonic, same_text}
use diginaut_wallet.Vault.Wallets.Ids.{ids, keys, WellFormed, Distinct, new_wallet_id-fresh}
use diginaut_wallet.Vault.Wallets.Changes.{get-In, added_meta, added_secrets}

find_mnemonic-get :
    (p : Platform) (m : List ℕ) (d : List (ℕ × List ℕ)) (id : ℕ)
    → Distinct (keys d)
    → find_mnemonic p m d ≡ some id
    → (v : List ℕ) × (get id d ≡ some v)
      × (same_text (norm_mnemonic p.to_lower_case v) (norm_mnemonic p.to_lower_case m) ≡ true)
unfolding find_mnemonic get
find_mnemonic-get p m [] id dist found = absurd (cc)
find_mnemonic-get p m ((j, v) ∷ d) id dist found =
    elim (Bool-cases
      (same_text (norm_mnemonic p.to_lower_case v) (norm_mnemonic p.to_lower_case m))) [
        | inl same ↦ (v, ground arith, same)
        | inr other ↦
            let (u, at, eq) = find_mnemonic-get p m d id dist.1 (ground arith) in
            (u, ground (arith, get-In id u d at, dist.0), eq)
      ]

module _ (p : Platform) (c : Call) (w : World) (base : VaultRecord) (s : Secrets) (k : List ℕ)
    (held : w.tab.key ≡ some k) (seen : w.tab.record_ ≡ some base) (plain : w.tab.secrets ≡ some s)
    (wf : WellFormed base.meta s) (d : Draft) (id : ℕ) where
  -- What is there after the addition of a new wallet.
  abbrev after_addition : World
  after_addition =
      let m = added_meta c base.meta s wf d in
      let t = added_secrets c base.meta s wf d in
      committed (next_record p c k base m t) t (c.between w)

  added_new :
      (add_wallet p c d w).0 ≡ ok (id, false)
      → (id ≡ new_wallet_id c.fresh.now base.meta.wallets)
        × ((add_wallet p c d w).1 ≡ after_addition)
  unfolding add_wallet
  added_new done = ground (
    arith,
    commit_lem p c (added_meta c base.meta s wf d) (added_secrets c base.meta s wf d) w k base held
        seen,
  )

  known_seed :
      (add_wallet p c d w).0 ≡ ok (id, true) → find_mnemonic p d.mnemonic s.mnemonics ≡ some id
  unfolding add_wallet
  known_seed done = ground arith

  read_back :
      (x : ℕ) (xs k' : List ℕ)
      → d.mnemonic ≡ x ∷ xs
      → (c.between w).tab.key ≡ some k'
      → get_mnemonic (new_wallet_id c.fresh.now base.meta.wallets) after_addition
        ≡ (ok d.mnemonic, after_addition)
  unfolding get_mnemonic
  read_back x xs k' full open_ =
      let id' = new_wallet_id c.fresh.now base.meta.wallets in
      ground (arith, get-put id' id' d.mnemonic s.mnemonics)

  -- When the addition of a seed phrase that is not empty to an open, well-formed vault
  -- succeeds, and the tab was not locked meanwhile, it names either a new wallet, whose id no
  -- wallet had before and whose seed phrase can be read back at once, or a wallet that was
  -- there with the same seed phrase up to case and white space.
  pub add_wallet-get_mnemonic :
      (existed : Bool) (x : ℕ) (xs k' : List ℕ)
      → d.mnemonic ≡ x ∷ xs
      → (c.between w).tab.key ≡ some k'
      → let (o, w2) = add_wallet p c d w in
        o ≡ ok (id, existed)
        → (existed ≡ false
            → (¬ In id (ids base.meta.wallets)) × (get_mnemonic id w2 ≡ (ok d.mnemonic, w2)))
          × (existed ≡ true
              → (v : List ℕ) × (get id s.mnemonics ≡ some v)
                × (same_text
                      (norm_mnemonic p.to_lower_case v)
                      (norm_mnemonic p.to_lower_case d.mnemonic)
                    ≡ true))
  add_wallet-get_mnemonic existed x xs k' full open_ done = (
    (λ (new : existed ≡ false).
        let (same, after) = added_new (done ∙ ap (λ b. ok (id, b)) new) in
        (
          rw same (new_wallet_id-fresh c.fresh.now base.meta.wallets),
          rw after (rw same (read_back x xs k' full open_)),
        )),
    (λ (old : existed ≡ true).
        find_mnemonic-get p d.mnemonic s.mnemonics id (rw wf.matched wf.distinct)
          (known_seed (done ∙ ap (λ b. ok (id, b)) old))),
  )
