-- ===== src/Vault/Manager/Commit.antt =====
-- Laws of `commit` in apps/wallet/public/vault.js.
use diginaut_wallet.Prelude.{
  ℕ, ◌+◌, ◌≡◌, refl, ◌≢◌, ◌==◌, if◌then◌else◌, List, none, some, ok, throw, arith, ==_iff,
}
use diginaut_wallet.Vault.State.{
  Meta, Secrets, VaultRecord, World, Platform, Fresh, Call, Kdf, VaultError, conflict,
}
use diginaut_wallet.Vault.Keystore.{
  blob_of, rev_of, decrypt_json, encrypt_json_with_key, decrypt_json_with_key, save_vault_record,
}
use diginaut_wallet.Vault.Manager.{Status, status, lock, refresh, commit}

-- What `commit` writes.
abbrev pub next_record : Platform → Call → List ℕ → VaultRecord → Meta → Secrets → VaultRecord
next_record p c key base m s =
    let b = encrypt_json_with_key p c.fresh s key base.kdf in
    record { rev = base.rev + 1; kdf = b.kdf; cipher = b.cipher; meta = m }

abbrev pub committed : VaultRecord → Secrets → World → World
committed r s w = record {
  disk = record w.disk { vault = some r };
  tab = record w.tab { record_ = some r; secrets = some s };
}

module _ (p : Platform) (c : Call) (m : Meta) (s : Secrets) where
  -- What `commit` does, on every branch.
  pub commit_lem :
      (w : World) (key : List ℕ) (base : VaultRecord)
      → w.tab.key ≡ some key
      → w.tab.record_ ≡ some base
      → commit p c m s w ≡ (
          if rev_of (c.between w).disk.vault == base.rev
          then (ok tt, committed (next_record p c key base m s) s (c.between w))
          else (throw conflict, refresh p (c.between w)))
  unfolding commit save_vault_record
  commit_lem w key base hk hb = ground arith

  pub commit_locked :
      (w : World) → w.tab.key ≡ none → commit p c m s w ≡ (throw VaultError.locked, w)
  unfolding commit
  commit_locked w hk = rw hk

pub refresh-disk : (p : Platform) (w : World) → (refresh p w).disk ≡ w.disk
unfolding refresh
refresh-disk p w = refl

module _ (p : Platform) where
  pub decrypt-encrypt_with_key :
      (f : Fresh) (s : Secrets) (key : List ℕ) (kdf : Kdf)
      → decrypt_json_with_key p (encrypt_json_with_key p f s key kdf) key ≡ ok s
  unfolding decrypt_json_with_key encrypt_json_with_key
  decrypt-encrypt_with_key f s key kdf =
      rw (p.decrypt-encrypt f.iv key (p.stringify s)) (rw (p.parse-stringify s))

  -- A record written under the key of its own salt opens with the password.
  pub decrypt-encrypt_by_password :
      (f : Fresh) (s : Secrets) (password : List ℕ) (kdf : Kdf)
      → let key = p.derive_key password kdf.salt kdf.iterations in
        decrypt_json p (encrypt_json_with_key p f s key kdf) password ≡ ok (s, key)
  unfolding decrypt_json encrypt_json_with_key
  decrypt-encrypt_by_password f s password kdf =
      rw (p.decrypt-encrypt f.iv (p.derive_key password kdf.salt kdf.iterations) (p.stringify s))
        (rw (p.parse-stringify s))

  module _ (c : Call) (m : Meta) (s : Secrets) (w : World) (key : List ℕ) (base : VaultRecord)
      (held : w.tab.key ≡ some key) (seen : w.tab.record_ ≡ some base) where
    opens : decrypt_json_with_key p (blob_of (next_record p c key base m s)) key ≡ ok s
    unfolding encrypt_json_with_key
    opens = decrypt-encrypt_with_key c.fresh s key base.kdf

    -- A commit of an open vault succeeds exactly when, after the wait, the stored revision is the
    -- one it started from: then it stores the next revision with the given metadata under the old
    -- key derivation block, and the held key opens it to the given secrets. Otherwise it reports a
    -- conflict and leaves the storage as the others wrote it.
    pub commit-compare_and_set :
        let w1 = c.between w in
        let (r, w2) = commit p c m s w in
        (rev_of w1.disk.vault ≡ base.rev
          → (r ≡ ok tt)
            × ((stored : VaultRecord) × (w2.disk.vault ≡ some stored)
                × (stored.rev ≡ base.rev + 1)
                × (stored.meta ≡ m)
                × (stored.kdf ≡ base.kdf)
                × (decrypt_json_with_key p (blob_of stored) key ≡ ok s)))
        × (rev_of w1.disk.vault ≢ base.rev → (r ≡ throw conflict) × (w2.disk ≡ w1.disk))
    unfolding encrypt_json_with_key
    commit-compare_and_set =
        let e = commit_lem p c m s w key base held seen in
        let next = next_record p c key base m s in
        (
          λ (same : rev_of (c.between w).disk.vault ≡ base.rev).
              rw e (rw ((==_iff _ _).1 same) (refl, (next, refl, refl, refl, refl, opens))),
          λ (moved : rev_of (c.between w).disk.vault ≢ base.rev).
              (ground (arith, e), ground (arith, e, refresh-disk p (c.between w))),
        )

  commit_done :
      (c : Call) (m : Meta) (s : Secrets) (w : World) (key : List ℕ) (base : VaultRecord)
      → w.tab.key ≡ some key
      → w.tab.record_ ≡ some base
      → (commit p c m s w).0 ≡ ok tt
      → commit p c m s w ≡ (ok tt, committed (next_record p c key base m s) s (c.between w))
  commit_done c m s w key base held seen done =
      ground (arith, commit_lem p c m s w key base held seen)

  -- The password that opened the vault opens it after every commit that succeeds, to the secrets
  -- that were committed and the key that is held, although it is not asked for again.
  pub commit-password :
      (c : Call) (m : Meta) (s : Secrets) (w : World) (base : VaultRecord) (password : List ℕ)
      → w.tab.record_ ≡ some base
      → w.tab.key ≡ some (p.derive_key password base.kdf.salt base.kdf.iterations)
      → let (r, w2) = commit p c m s w in
        r ≡ ok tt
        → (stored : VaultRecord) × (w2.disk.vault ≡ some stored)
          × (w2.tab.record_ ≡ some stored)
          × (w2.tab.key ≡ (c.between w).tab.key)
          × (decrypt_json p (blob_of stored) password
              ≡ ok (s, p.derive_key password base.kdf.salt base.kdf.iterations))
  commit-password c m s w base password seen held done =
      let key = p.derive_key password base.kdf.salt base.kdf.iterations in
      rw (commit_done c m s w key base held seen done) (
        next_record p c key base m s,
        refl,
        refl,
        refl,
        decrypt-encrypt_by_password c.fresh s password base.kdf,
      )

  -- A lock while a commit waits does not hold: once the commit is through, the tab has no key and
  -- reports that it is locked, and still keeps the plaintext secrets.
  pub commit-lock_leaves_secrets :
      (c : Call) (m : Meta) (s : Secrets) (w : World) (key : List ℕ) (base : VaultRecord)
      → w.tab.key ≡ some key
      → w.tab.record_ ≡ some base
      → rev_of w.disk.vault ≡ base.rev
      → c.between w ≡ record w { tab = lock w.tab }
      → let (r, w2) = commit p c m s w in
        (r ≡ ok tt)
        × (w2.tab.key ≡ none)
        × (status w2.tab ≡ Status.locked)
        × (w2.tab.secrets ≡ some s)
  unfolding status lock
  commit-lock_leaves_secrets c m s w key base held seen same locking =
      ground (arith, commit_lem p c m s w key base held seen)
