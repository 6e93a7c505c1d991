-- ===== src/Vault/Manager.antt =====
-- The life of the vault, apps/wallet/public/vault.js: `load`, `refresh`, `commit`, `createVault`,
-- `unlock`, `migrateV1`, `lock`.
pub mod Commit
pub mod Creation
pub mod Migration
use diginaut_wallet.Prelude.{
  ℕ, Bool, true, false, List, [], ◌∷◌, map, Option, none, some, Outcome, ok, throw, ◌==◌,
  if◌then◌else◌, suc, zero, ◌+◌, length, ◌||◌, not,
}
use diginaut_wallet.Vault.State.{
  WalletRow, Meta, Source, Secrets, VaultRecord, LegacyRecord, Tab, World, Platform, Fresh, Call,
  VaultError, conflict, vault_exists, no_wallet, type_error, Exec, ◌>>=◌, ◌>>◌, continue, pure,
  raise, handle, try, require, gets, modify, set_tab, transact, lift,
}
use diginaut_wallet.Vault.Names.{trim}
use diginaut_wallet.Vault.Keystore.{
  Blob, blob_of, rev_of, encrypt_json, decrypt_json, encrypt_json_with_key, decrypt_json_with_key,
  decrypt_mnemonic, load_keystore_any, delete_keystore, save_vault_record,
}

pub data Status : Type 0 where
  no_vault : Status
  locked : Status
  unlocked : Status

abbrev pub is_some : {A : Type 0} → Option A → Bool
is_some none = false
is_some (some _) = true

unfoldable pub status : Tab → Status
status t = elim t.key [
  | some _ ↦ unlocked
  | none ↦ elim t.record_ [
    | some _ ↦ Status.locked
    | none ↦ elim t.primary [ some _ ↦ Status.locked | none ↦ no_vault ]
  ]
]

unfoldable pub meta_of : Tab → Option Meta
meta_of t = elim t.record_ [ some r ↦ some r.meta | none ↦ none ]

unfoldable pub lock : Tab → Tab
lock t = record t { key = none; secrets = none }

-- `while (taken.has(id)) n += 1`, with fuel.
unfoldable pub taken : ℕ → List WalletRow → Bool
taken n [] = false
taken n (r ∷ rs) = r.id == n || taken n rs

unfoldable pub bump_id : ℕ → ℕ → List WalletRow → ℕ
unfolding taken
bump_id zero n rows = n
bump_id (suc fuel) n rows =
    let later = bump_id fuel (suc n) rows in if taken n rows then later else n

-- One round for each wallet is enough.
unfoldable pub new_wallet_id : ℕ → List WalletRow → ℕ
unfolding bump_id
new_wallet_id now rows = bump_id (length rows) now rows

-- The argument of `createVault` and `addWallet`.
pub record Draft : Type 0 where
  pub name : List ℕ
  pub mnemonic : List ℕ
  pub backed_up : Bool
  pub source : Option Source

-- The cleartext row has no more of the source than that there is one.
unfoldable pub wallet_meta_row : ℕ → ℕ → Draft → WalletRow
unfolding trim
wallet_meta_row id now d = record {
  id = id;
  name = trim d.name;
  created_at = now;
  backed_up = d.backed_up;
  derived = is_some d.source;
  receive_index = none;
}

-- The wallet that a migration makes, `Wallet 1`.
abbrev pub first_row : ℕ → ℕ → WalletRow
first_row id now = record {
  id = id;
  name = b'W' ∷ b'a' ∷ b'l' ∷ b'l' ∷ b'e' ∷ b't' ∷ b' ' ∷ b'1' ∷ [];
  created_at = now;
  backed_up = false;
  derived = false;
  receive_index = none;
}

abbrev pub load_tab : World → Tab
load_tab w = let (v, l) = load_keystore_any w.disk in record w.tab { record_ = v; primary = l }

unfoldable pub load : World → World
unfolding load_keystore_any
load w = record w { tab = load_tab w }

abbrev pub sources_of : ℕ → Option Source → List (ℕ × Source)
sources_of id none = []
sources_of id (some s) = (id, s) ∷ []

abbrev pub require_none : Status → Exec (Unit {0})
require_none no_vault = pure tt
require_none Status.locked = raise vault_exists
require_none unlocked = raise vault_exists

module _ (p : Platform) where
  -- What the held key makes of the record that was read.
  unfoldable pub reopen : Option VaultRecord → List ℕ → Option Secrets
  unfolding decrypt_json_with_key
  reopen none key = none
  reopen (some r) key = elim (decrypt_json_with_key p (blob_of r) key) [
    | ok s ↦ some s
    | throw _ ↦ none
  ]

  unfoldable pub refresh : World → World
  unfolding load reopen lock
  refresh w =
      let t = (load w).tab in
      record w {
        tab = elim t.key [
          | none ↦ t
          | some key ↦ elim (reopen t.record_ key) [
            | none ↦ lock t
            | some s ↦ record t { secrets = some s }
          ]
        ];
      }

  -- A lost race reads the storage again and throws.
  abbrev pub refresh_on_conflict : {A : Type 0} → VaultError → Exec A
  refresh_on_conflict conflict = modify refresh >> raise conflict
  refresh_on_conflict e = raise e

  unfoldable pub commit : Call → Meta → Secrets → Exec (Unit {0})
  unfolding encrypt_json_with_key save_vault_record refresh
  commit c next_meta next_secrets = do
    key ← (gets λ w. w.tab.key) >>= λ k. require k VaultError.locked
    base ← (gets λ w. w.tab.record_) >>= λ r. require r type_error
    let blob = encrypt_json_with_key p c.fresh next_secrets key base.kdf
    modify c.between
    try
        (do
          saved ← transact (save_vault_record blob next_meta base.rev)
          set_tab (λ t. record t { record_ = some saved; secrets = some next_secrets }))
        refresh_on_conflict

  unfoldable pub create_vault : Call → List ℕ → Draft → Exec ℕ
  unfolding encrypt_json save_vault_record load status new_wallet_id wallet_meta_row
  create_vault c password d = do
    modify load
    s ← gets λ w. status w.tab
    require_none s
    let id = new_wallet_id c.fresh.now []
    let secrets : Secrets = record {
      mnemonics = (id, d.mnemonic) ∷ [];
      sources = sources_of id d.source;
    }
    let m : Meta = record { active_id = id; wallets = wallet_meta_row id c.fresh.now d ∷ [] }
    let (blob, key) = encrypt_json p c.fresh secrets password
    modify c.between
    saved ← transact (save_vault_record blob m 0)
    set_tab (λ t. record t { record_ = some saved; key = some key; secrets = some secrets })
    pure id

  -- `record?.rev ?? 0` is read after the wait for the encryption.
  unfoldable pub migrate_v1 : Call → LegacyRecord → List ℕ → Exec (Option Meta)
  unfolding decrypt_mnemonic encrypt_json save_vault_record decrypt_json_with_key delete_keystore
      new_wallet_id meta_of
  migrate_v1 c old password = do
    mnemonic ← lift (decrypt_mnemonic p old password)
    let id = new_wallet_id c.fresh.now []
    let secrets : Secrets = record { mnemonics = (id, mnemonic) ∷ []; sources = [] }
    let m : Meta = record { active_id = id; wallets = first_row id c.fresh.now ∷ [] }
    let (blob, key) = encrypt_json p c.fresh secrets password
    modify c.between
    base ← gets λ w. rev_of w.tab.record_
    saved ← transact (save_vault_record blob m base)
    lift (decrypt_json_with_key p (blob_of saved) key)
    modify λ w. record w { disk = delete_keystore w.disk }
    set_tab
        λ t. record { record_ = some saved; key = some key; secrets = some secrets; primary = none }
    gets λ w. meta_of w.tab

  -- After the vault opened: an orphan of version 1 is deleted.
  finish_unlock : Secrets × List ℕ → Exec (Option Meta)
  unfolding delete_keystore meta_of
  finish_unlock (s, k) = do
    set_tab λ t. record t { key = some k; secrets = some s }
    modify λ w. elim w.tab.primary [
      | none ↦ w
      | some _ ↦ record { disk = delete_keystore w.disk; tab = record w.tab { primary = none } }
    ]
    gets λ w. meta_of w.tab

  unfoldable pub unlock : Call → List ℕ → Exec (Option Meta)
  unfolding load decrypt_json migrate_v1 finish_unlock
  unlock c password = do
    modify load
    t ← gets λ w. w.tab
    elim t.record_ [
      | some r ↦ elim (decrypt_json p (blob_of r) password) [
        | ok found ↦ finish_unlock found
        | throw e ↦ elim t.primary [ none ↦ raise e | some old ↦ migrate_v1 c old password ]
      ]
      | none ↦ elim t.primary [ none ↦ raise no_wallet | some old ↦ migrate_v1 c old password ]
    ]

  unfoldable pub verify_password : Tab → List ℕ → Bool
  unfolding decrypt_json
  verify_password t password = elim t.record_ [
    | none ↦ false
    | some r ↦ elim (decrypt_json p (blob_of r) password) [ ok _ ↦ true | throw _ ↦ false ]
  ]
