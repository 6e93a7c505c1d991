-- ===== src/Vault/Manager/Creation.antt =====
-- Laws of `createVault` and `unlock` in apps/wallet/public/vault.js.
use diginaut_wallet.Prelude.{ℕ, ◌≡◌, refl, ap, sym, ◌∙◌, List, [], ◌∷◌, some, ok, arith}
use diginaut_wallet.Vault.State.{Meta, Secrets, VaultRecord, Tab, World, Platform, Call, Kdf, Disk}
use diginaut_wallet.Vault.Keystore.{
  blob_of, rev_of, decrypt_json, encrypt_json_with_key, decrypt_json_with_key, save_vault_record,
  pbkdf2_iterations,
}
use diginaut_wallet.Vault.Manager.{
  Draft, sources_of, wallet_meta_row, lock, commit, create_vault, unlock, meta_of,
}
use diginaut_wallet.Vault.Manager.Commit.{decrypt-encrypt_by_password, commit-compare_and_set}

module _ (p : Platform) where
  -- Unlocking what the password opens.
  unlock_opens :
      (c : Call) (password : List ℕ) (w : World) (r : VaultRecord) (s : Secrets) (key : List ℕ)
      → w.disk.vault ≡ some r
      → decrypt_json p (blob_of r) password ≡ ok (s, key)
      → let (o, w2) = unlock p c password w in
        (o ≡ ok (some r.meta))
        × (w2.disk.vault ≡ some r)
        × (w2.tab.key ≡ some key)
        × (w2.tab.secrets ≡ some s)
  unfolding unlock
  unlock_opens c password w r s key stored opens = ground arith

  abbrev first_secrets : ℕ → Draft → Secrets
  first_secrets id d = record {
    mnemonics = (id, d.mnemonic) ∷ [];
    sources = sources_of id d.source;
  }

  abbrev pub first_key : Call → List ℕ → List ℕ
  first_key c password = p.derive_key password c.fresh.salt pbkdf2_iterations

  abbrev first_record : Call → List ℕ → Draft → ℕ → VaultRecord
  first_record c password d id =
      let kdf : Kdf = record { iterations = pbkdf2_iterations; salt = c.fresh.salt } in
      let b = encrypt_json_with_key p c.fresh (first_secrets id d) (first_key c password) kdf in
      record {
        rev = 1;
        kdf = kdf;
        cipher = b.cipher;
        meta = record { active_id = id; wallets = wallet_meta_row id c.fresh.now d ∷ [] };
      }

  -- What a creation that succeeded left behind.
  create_done :
      (c : Call) (password : List ℕ) (d : Draft) (w : World) (id : ℕ)
      → let (r, w1) = create_vault p c password d w in
        r ≡ ok id
        → (w1.disk.vault ≡ some (first_record c password d id))
          × (w1.tab.record_ ≡ some (first_record c password d id))
          × (w1.tab.key ≡ some (first_key c password))
          × (w1.tab.secrets ≡ some (first_secrets id d))
  unfolding create_vault encrypt_json_with_key save_vault_record
  create_done c password d w id made = ground arith

  first_opens :
      (c : Call) (password : List ℕ) (d : Draft) (id : ℕ)
      → decrypt_json p (blob_of (first_record c password d id)) password
        ≡ ok (first_secrets id d, first_key c password)
  unfolding encrypt_json_with_key
  first_opens c password d id =
      decrypt-encrypt_by_password p c.fresh (first_secrets id d) password
        (record { iterations = pbkdf2_iterations; salt = c.fresh.salt })

  meta_of-some : (t : Tab) (r : VaultRecord) → t.record_ ≡ some r → meta_of t ≡ some r.meta
  unfolding meta_of
  meta_of-some t r e = ground arith

  -- A vault that was created, locked and then unlocked with its password is open again with the
  -- same key, and with the one seed phrase that it was created with, whatever other tabs did while
  -- the creation waited.
  pub unlock-create_vault :
      (c c' : Call) (password : List ℕ) (d : Draft) (w : World) (id : ℕ)
      → let (r, w1) = create_vault p c password d w in
        r ≡ ok id
        → let (r', w2) = unlock p c' password (record w1 { tab = lock w1.tab }) in
          (r' ≡ ok (meta_of w1.tab))
          × (w2.disk.vault ≡ w1.disk.vault)
          × (w2.tab.key ≡ w1.tab.key)
          × (w2.tab.secrets ≡ w1.tab.secrets)
          × ((secrets : Secrets) × (w2.tab.secrets ≡ some secrets)
              × (secrets.mnemonics ≡ (id, d.mnemonic) ∷ []))
  unlock-create_vault c c' password d w id made =
      let (v, r, k, s) = create_done c password d w id made in
      let w1 = (create_vault p c password d w).1 in
      let (o, v', k', s') =
        unlock_opens c' password (record w1 { tab = lock w1.tab }) _ _ _ v
          (first_opens c password d id) in
      (
        o ∙ ap ok (sym (meta_of-some w1.tab _ r)),
        v' ∙ sym v,
        k' ∙ sym k,
        s' ∙ sym s,
        (first_secrets id d, s', refl),
      )

  -- A tab that holds revision 1 of a vault overwrites the vault that another tab created in its
  -- place: the new vault has revision 1 too, the comparison passes, and what is stored afterwards
  -- is the stale tab's data under its own key.
  pub commit-overwrites_recreated :
      (c c' : Call) (m : Meta) (s : Secrets) (w other : World) (key : List ℕ) (base : VaultRecord)
      (password : List ℕ) (d : Draft) (id : ℕ)
      → w.tab.key ≡ some key
      → w.tab.record_ ≡ some base
      → base.rev ≡ 1
      → (create_vault p c' password d other).0 ≡ ok id
      → (c.between w).disk ≡ (create_vault p c' password d other).1.disk
      → let (r, w2) = commit p c m s w in
        (r ≡ ok tt)
        × ((stored : VaultRecord) × (w2.disk.vault ≡ some stored)
            × (stored.kdf ≡ base.kdf)
            × (decrypt_json_with_key p (blob_of stored) key ≡ ok s))
  commit-overwrites_recreated c c' m s w other key base password d id held seen first made shared =
      let (v, _, _, _) = create_done c' password d other id made in
      let same : rev_of (c.between w).disk.vault ≡ base.rev =
        rw (ap (λ (x : Disk). x.vault) shared ∙ v) (sym first) in
      let (o, (stored, a, _, _, k, opens)) =
        (commit-compare_and_set p c m s w key base held seen).0 same in
      (o, (stored, a, k, opens))
