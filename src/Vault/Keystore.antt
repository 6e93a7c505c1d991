-- ===== src/Vault/Keystore.antt =====
-- The wallet keystore, apps/wallet/public/keystore.js: its encryption and its object store.
use diginaut_wallet.Prelude.{
  ℕ, ◌+◌, List, Option, none, some, Outcome, ok, throw, ◌>>=◌, ◌>>◌, throw_if, ◌==◌, if◌then◌else◌,
  not,
}
use diginaut_wallet.Vault.State.{
  Platform, Fresh, Kdf, Cipher, Secrets, Meta, VaultRecord, LegacyRecord, Disk, VaultError,
  conflict, decrypt_failed, syntax_error, unsupported_version,
}

abbrev pub pbkdf2_iterations : ℕ
pbkdf2_iterations = 600000

-- The two blocks of a record, { kdf, cipher }.
pub record Blob : Type 0 where
  pub kdf : Kdf
  pub cipher : Cipher

abbrev pub opened : Option (List ℕ) → Outcome VaultError (List ℕ)
opened none = throw decrypt_failed
opened (some text) = ok text

abbrev pub parsed : Option Secrets → Outcome VaultError Secrets
parsed none = throw syntax_error
parsed (some s) = ok s

abbrev pub blob_of : VaultRecord → Blob
blob_of r = record { kdf = r.kdf; cipher = r.cipher }

module _ (p : Platform) where
  -- The blob and the key.
  unfoldable pub encrypt_string : Fresh → List ℕ → List ℕ → Blob × List ℕ
  encrypt_string f text password =
      let key = p.derive_key password f.salt pbkdf2_iterations in
      (
        record {
          kdf = record { iterations = pbkdf2_iterations; salt = f.salt };
          cipher = record { iv = f.iv; bytes = p.encrypt f.iv key text };
        },
        key,
      )

  -- The text and the key.
  unfoldable pub decrypt_string : Blob → List ℕ → Outcome VaultError (List ℕ × List ℕ)
  decrypt_string b password =
      let key = p.derive_key password b.kdf.salt b.kdf.iterations in
      do text ← opened (p.decrypt b.cipher.iv key b.cipher.bytes); ok (text, key)

  unfoldable pub encrypt_mnemonic : Fresh → List ℕ → List ℕ → LegacyRecord
  unfolding encrypt_string
  encrypt_mnemonic f mnemonic password =
      let (b, _) = encrypt_string f mnemonic password in
      record { v = 1; kdf = b.kdf; cipher = b.cipher }

  unfoldable pub decrypt_mnemonic : LegacyRecord → List ℕ → Outcome VaultError (List ℕ)
  unfolding decrypt_string
  decrypt_mnemonic r password = do
    throw_if (not (r.v == 1)) unsupported_version
    (text, _) ← decrypt_string (record { kdf = r.kdf; cipher = r.cipher }) password
    ok text

  unfoldable pub encrypt_json : Fresh → Secrets → List ℕ → Blob × List ℕ
  unfolding encrypt_string
  encrypt_json f s password = encrypt_string f (p.stringify s) password

  -- The secrets and the key.
  unfoldable pub decrypt_json : Blob → List ℕ → Outcome VaultError (Secrets × List ℕ)
  unfolding decrypt_string
  decrypt_json b password = do
    (text, key) ← decrypt_string b password
    s ← parsed (p.parse text)
    ok (s, key)

  -- The block `kdf` of the stored record is echoed.
  unfoldable pub encrypt_json_with_key : Fresh → Secrets → List ℕ → Kdf → Blob
  encrypt_json_with_key f s key kdf = record {
    kdf = kdf;
    cipher = record { iv = f.iv; bytes = p.encrypt f.iv key (p.stringify s) };
  }

  unfoldable pub decrypt_json_with_key : Blob → List ℕ → Outcome VaultError Secrets
  decrypt_json_with_key b key = do
    text ← opened (p.decrypt b.cipher.iv key b.cipher.bytes)
    parsed (p.parse text)

-- `current?.rev ?? 0`
abbrev pub rev_of : Option VaultRecord → ℕ
rev_of none = 0
rev_of (some r) = r.rev

unfoldable pub load_keystore_any : Disk → Option VaultRecord × Option LegacyRecord
load_keystore_any d = (d.vault, d.primary)

unfoldable pub save_keystore : LegacyRecord → Disk → Disk
save_keystore r d = record d { primary = some r }

unfoldable pub delete_keystore : Disk → Disk
delete_keystore d = record d { primary = none }

-- The read, the comparison and the write are one transaction.
unfoldable pub save_vault_record : Blob → Meta → ℕ → Disk → Outcome VaultError VaultRecord × Disk
save_vault_record b m base_rev d =
    let next : VaultRecord = record {
      rev = base_rev + 1;
      kdf = b.kdf;
      cipher = b.cipher;
      meta = m;
    } in
    if rev_of d.vault == base_rev
    then (ok next, record d { vault = some next })
    else (throw conflict, d)

unfoldable pub delete_vault_record : ℕ → Disk → Outcome VaultError (Unit {0}) × Disk
delete_vault_record base_rev d =
    if rev_of d.vault == base_rev then (ok tt, record d { vault = none }) else (throw conflict, d)

unfoldable pub delete_all_records : Disk → Disk
delete_all_records d = record { vault = none; primary = none }
