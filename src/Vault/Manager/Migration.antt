-- ===== src/Vault/Manager/Migration.antt =====
-- Laws of `migrateV1` in apps/wallet/public/vault.js.
use diginaut_wallet.Prelude.{
  ℕ, ◌+◌, ◌≡◌, refl, ◌≢◌, ◌==◌, if◌then◌else◌, List, [], ◌∷◌, none, some, ok, throw, arith, ==_iff,
}
use diginaut_wallet.Vault.State.{
  Secrets, VaultRecord, LegacyRecord, World, Platform, Call, Kdf, conflict,
}
use diginaut_wallet.Vault.Keystore.{
  blob_of, rev_of, decrypt_json, encrypt_json_with_key, decrypt_json_with_key, decrypt_mnemonic,
  save_vault_record, delete_keystore, pbkdf2_iterations,
}
use diginaut_wallet.Vault.Manager.{first_row, migrate_v1}
use diginaut_wallet.Vault.Manager.Commit.{decrypt-encrypt_with_key, decrypt-encrypt_by_password}
use diginaut_wallet.Vault.Manager.Creation.{first_key}

module _ (p : Platform) where
  abbrev migrated_secrets : Call → List ℕ → Secrets
  migrated_secrets c mnemonic = record { mnemonics = (c.fresh.now, mnemonic) ∷ []; sources = [] }

  abbrev migrated_record : Call → List ℕ → List ℕ → ℕ → VaultRecord
  migrated_record c password mnemonic base =
      let kdf : Kdf = record { iterations = pbkdf2_iterations; salt = c.fresh.salt } in
      let s = migrated_secrets c mnemonic in
      let b = encrypt_json_with_key p c.fresh s (first_key p c password) kdf in
      record {
        rev = base + 1;
        kdf = kdf;
        cipher = b.cipher;
        meta = record { active_id = c.fresh.now; wallets = first_row c.fresh.now c.fresh.now ∷ [] };
      }

  abbrev after_migration : Call → List ℕ → List ℕ → VaultRecord → World
  after_migration c password mnemonic r = record {
    disk = record { vault = some r; primary = none };
    tab = record {
      record_ = some r;
      key = some (first_key p c password);
      secrets = some (migrated_secrets c mnemonic);
      primary = none;
    };
  }

  -- The check of what was saved passes.
  migrated_verifies :
      (c : Call) (password mnemonic : List ℕ) (base : ℕ)
      → decrypt_json_with_key p
          (blob_of (migrated_record c password mnemonic base))
          (first_key p c password)
        ≡ ok (migrated_secrets c mnemonic)
  unfolding encrypt_json_with_key
  migrated_verifies c password mnemonic base =
      decrypt-encrypt_with_key p c.fresh (migrated_secrets c mnemonic) (first_key p c password)
        (record { iterations = pbkdf2_iterations; salt = c.fresh.salt })

  migrated_opens :
      (c : Call) (password mnemonic : List ℕ) (base : ℕ)
      → decrypt_json p (blob_of (migrated_record c password mnemonic base)) password
        ≡ ok (migrated_secrets c mnemonic, first_key p c password)
  unfolding encrypt_json_with_key
  migrated_opens c password mnemonic base =
      decrypt-encrypt_by_password p c.fresh (migrated_secrets c mnemonic) password
        (record { iterations = pbkdf2_iterations; salt = c.fresh.salt })

  migrate_v1_lem :
      (c : Call) (password : List ℕ) (w : World) (old : LegacyRecord) (mnemonic : List ℕ)
      → decrypt_mnemonic p old password ≡ ok mnemonic
      → let w1 = c.between w in
        let r = migrated_record c password mnemonic (rev_of w1.tab.record_) in
        migrate_v1 p c old password w ≡ (
          if rev_of w1.disk.vault == rev_of w1.tab.record_
          then (ok (some r.meta), after_migration c password mnemonic r)
          else (throw conflict, w1))
  unfolding migrate_v1 encrypt_json_with_key save_vault_record delete_keystore
  migrate_v1_lem c password w old mnemonic opens =
      ground (arith, migrated_verifies c password mnemonic (rev_of (c.between w).tab.record_))

  -- A migration whose old record opens with the password succeeds exactly when, after the wait, the
  -- stored revision is the one that this tab knows of. Then the new record opens with the password
  -- to the old seed phrase alone, and the old record is gone; otherwise the migration reports a
  -- conflict, and the storage is as the others left it, the old record included.
  pub migrate_v1-loss_proof :
      (c : Call) (password : List ℕ) (w : World) (old : LegacyRecord) (mnemonic : List ℕ)
      → decrypt_mnemonic p old password ≡ ok mnemonic
      → let w1 = c.between w in
        let (r, w2) = migrate_v1 p c old password w in
        (rev_of w1.disk.vault ≡ rev_of w1.tab.record_
          → (w2.disk.primary ≡ none)
            × ((stored : VaultRecord) × (secrets : Secrets) × (key : List ℕ) × (r
                  ≡ ok (some stored.meta))
                × (w2.disk.vault ≡ some stored)
                × (decrypt_json p (blob_of stored) password ≡ ok (secrets, key))
                × (secrets.mnemonics ≡ (stored.meta.active_id, mnemonic) ∷ [])))
        × (rev_of w1.disk.vault ≢ rev_of w1.tab.record_
            → (r ≡ throw conflict) × (w2.disk ≡ w1.disk))
  migrate_v1-loss_proof c password w old mnemonic opens =
      let e = migrate_v1_lem c password w old mnemonic opens in
      let base = rev_of (c.between w).tab.record_ in
      let key = first_key p c password in
      (
        λ (same : rev_of (c.between w).disk.vault ≡ base). rw e (
            rw ((==_iff _ _).1 same) (
              refl,
              (
                migrated_record c password mnemonic base,
                migrated_secrets c mnemonic,
                key,
                refl,
                refl,
                migrated_opens c password mnemonic base,
                refl,
              ),
            )),
        λ (moved : rev_of (c.between w).disk.vault ≢ base). (ground (arith, e), ground (arith, e)),
      )
