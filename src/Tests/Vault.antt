-- ===== src/Tests/Vault.antt =====
-- Runs of the vault, and its theorems at concrete inputs.
use diginaut_wallet.Prelude.{
  ℕ, ◌+◌, ◌≡◌, ◌≢◌, refl, ◌⊎◌, inl, true, false, List, [], ◌∷◌, ◌++◌, none, some, ok, throw, In,
}
use diginaut_wallet.Prelude.Dict.{get}
use diginaut_wallet.Vault.State.{
  WalletRow, Meta, Secrets, Kdf, VaultRecord, LegacyRecord, World, Call, VaultError, conflict,
}
use diginaut_wallet.Vault.Names.{norm_mnemonic}
use diginaut_wallet.Vault.Keystore.{
  pbkdf2_iterations, blob_of, rev_of, decrypt_json, decrypt_json_with_key, decrypt_mnemonic,
}
use diginaut_wallet.Vault.Manager.{
  Draft, Status, status, lock, commit, create_vault, unlock, migrate_v1, meta_of, new_wallet_id,
}
use diginaut_wallet.Vault.Manager.Commit.{
  next_record, commit-compare_and_set, commit-password, commit-lock_leaves_secrets,
}
use diginaut_wallet.Vault.Manager.Creation.{unlock-create_vault, commit-overwrites_recreated}
use diginaut_wallet.Vault.Manager.Migration.{migrate_v1-loss_proof}
use diginaut_wallet.Vault.Wallets.{
  find_row, add_wallet, set_backed_up, get_mnemonic, same_text, update_row, find_mnemonic,
  name_clash,
}
use diginaut_wallet.Vault.Wallets.Ids.{ids, WellFormed}
use diginaut_wallet.Vault.Wallets.Operations.{back_up, perform, Kept}
use diginaut_wallet.Vault.Wallets.Invariant.{perform-WellFormed, perform-Kept, perform_throw}
use diginaut_wallet.Vault.Wallets.Adding.{add_wallet-get_mnemonic}
use diginaut_wallet.Tests.Browser.{browser}

abbrev password : List ℕ
password = b'p' ∷ b'w' ∷ []

abbrev kdf_1 : Kdf
kdf_1 = record { iterations = pbkdf2_iterations; salt = 7 ∷ [] }

abbrev key_1 : List ℕ
key_1 = browser.derive_key password kdf_1.salt kdf_1.iterations

abbrev quiet : Call
quiet = record { fresh = record { salt = 9 ∷ []; iv = 3 ∷ []; now = 1000 }; between = λ w. w }

abbrev row_1 : WalletRow
row_1 = record {
  id = 1;
  name = b'A' ∷ [];
  created_at = 1;
  backed_up = false;
  derived = false;
  receive_index = some 4;
}

abbrev seed_1 : List ℕ
seed_1 = b's' ∷ b'1' ∷ []

abbrev secrets_1 : Secrets
secrets_1 = record { mnemonics = (1, seed_1) ∷ []; sources = [] }

abbrev meta_1 : Meta
meta_1 = record { active_id = 1; wallets = row_1 ∷ [] }

abbrev base_1 : VaultRecord
base_1 = record { rev = 1; kdf = kdf_1; cipher = record { iv = []; bytes = [] }; meta = meta_1 }

-- A tab with an open vault.
abbrev home : World
home = record {
  disk = record { vault = some base_1; primary = none };
  tab = record {
    record_ = some base_1;
    key = some key_1;
    secrets = some secrets_1;
    primary = none;
  };
}

abbrev nowhere : World
nowhere = record {
  disk = record { vault = none; primary = none };
  tab = record { record_ = none; key = none; secrets = none; primary = none };
}

abbrev draft : Draft
draft = record {
  name = b' ' ∷ b'B' ∷ [];
  mnemonic = b's' ∷ b'2' ∷ [];
  backed_up = true;
  source = none;
}

home-WellFormed : WellFormed meta_1 secrets_1
home-WellFormed = record { matched = refl; distinct = ((λ i. i), tt); active = inl refl }

created_ok : (create_vault browser quiet password draft nowhere).0 ≡ ok 1000
unfolding create_vault
created_ok = refl

commit-compare_and_set_example :
    let (r, w2) = commit browser quiet meta_1 secrets_1 home in
    (1 ≡ base_1.rev
      → (r ≡ ok tt)
        × ((stored : VaultRecord) × (w2.disk.vault ≡ some stored)
            × (stored.rev ≡ base_1.rev + 1)
            × (stored.meta ≡ meta_1)
            × (stored.kdf ≡ kdf_1)
            × (decrypt_json_with_key browser (blob_of stored) key_1 ≡ ok secrets_1)))
    × (1 ≢ base_1.rev → (r ≡ throw conflict) × (w2.disk ≡ home.disk))
commit-compare_and_set_example =
    commit-compare_and_set browser quiet meta_1 secrets_1 home key_1 base_1 refl refl

committed_ok : (commit browser quiet meta_1 secrets_1 home).0 ≡ ok tt
unfolding commit
committed_ok = refl

commit-password_example :
    let (r, w2) = commit browser quiet meta_1 secrets_1 home in
    (stored : VaultRecord) × (w2.disk.vault ≡ some stored)
    × (w2.tab.record_ ≡ some stored)
    × (w2.tab.key ≡ home.tab.key)
    × (decrypt_json browser (blob_of stored) password ≡ ok (secrets_1, key_1))
commit-password_example =
    commit-password browser quiet meta_1 secrets_1 home base_1 password refl refl committed_ok

unlock-create_vault_example :
    let w1 = (create_vault browser quiet password draft nowhere).1 in
    let (r', w2) = unlock browser quiet password (record w1 { tab = lock w1.tab }) in
    (r' ≡ ok (meta_of w1.tab))
    × (w2.disk.vault ≡ w1.disk.vault)
    × (w2.tab.key ≡ w1.tab.key)
    × (w2.tab.secrets ≡ w1.tab.secrets)
    × ((secrets : Secrets) × (w2.tab.secrets ≡ some secrets)
        × (secrets.mnemonics ≡ (1000, draft.mnemonic) ∷ []))
unlock-create_vault_example =
    unlock-create_vault browser quiet quiet password draft nowhere 1000 created_ok

abbrev old_record : LegacyRecord
old_record = record { v = 1; kdf = kdf_1; cipher = record { iv = []; bytes = key_1 ++ seed_1 } }

abbrev legacy : World
legacy = record {
  disk = record { vault = none; primary = some old_record };
  tab = record { record_ = none; key = none; secrets = none; primary = some old_record };
}

old_opens : decrypt_mnemonic browser old_record password ≡ ok seed_1
unfolding decrypt_mnemonic browser
old_opens = refl

migrate_v1-loss_proof_example :
    let (r, w2) = migrate_v1 browser quiet old_record password legacy in
    (0 ≡ rev_of legacy.tab.record_
      → (w2.disk.primary ≡ none)
        × ((stored : VaultRecord) × (secrets : Secrets) × (key : List ℕ) × (r
              ≡ ok (some stored.meta))
            × (w2.disk.vault ≡ some stored)
            × (decrypt_json browser (blob_of stored) password ≡ ok (secrets, key))
            × (secrets.mnemonics ≡ (stored.meta.active_id, seed_1) ∷ [])))
    × (0 ≢ rev_of legacy.tab.record_ → (r ≡ throw conflict) × (w2.disk ≡ legacy.disk))
migrate_v1-loss_proof_example =
    migrate_v1-loss_proof browser quiet password legacy old_record seed_1 old_opens

abbrev while_locking : Call
while_locking = record {
  fresh = quiet.fresh;
  between = λ w. record w { tab = record w.tab { key = none; secrets = none } };
}

locking : while_locking.between home ≡ record home { tab = lock home.tab }
unfolding lock
locking = refl

commit-lock_leaves_secrets_example :
    let (r, w2) = commit browser while_locking meta_1 secrets_1 home in
    (r ≡ ok tt)
    × (w2.tab.key ≡ none)
    × (status w2.tab ≡ Status.locked)
    × (w2.tab.secrets ≡ some secrets_1)
commit-lock_leaves_secrets_example =
    commit-lock_leaves_secrets browser while_locking meta_1 secrets_1 home key_1 base_1 refl refl
      refl locking

-- Another tab removes the last wallet and creates a vault anew.
abbrev while_recreating : Call
while_recreating = record {
  fresh = quiet.fresh;
  between = λ w. record w { disk = (create_vault browser quiet password draft nowhere).1.disk };
}

commit-overwrites_recreated_example :
    let (r, w2) = commit browser while_recreating meta_1 secrets_1 home in
    (r ≡ ok tt)
    × ((stored : VaultRecord) × (w2.disk.vault ≡ some stored)
        × (stored.kdf ≡ kdf_1)
        × (decrypt_json_with_key browser (blob_of stored) key_1 ≡ ok secrets_1))
commit-overwrites_recreated_example =
    commit-overwrites_recreated browser while_recreating quiet meta_1 secrets_1 home nowhere key_1
      base_1 password draft 1000 refl refl refl created_ok refl

abbrev backed_meta : Meta
backed_meta = update_row 1 (λ r. record r { backed_up = true }) meta_1

abbrev backed_record : VaultRecord
backed_record = next_record browser quiet key_1 base_1 backed_meta secrets_1

backed_ok : (perform browser quiet (back_up 1) home).0 ≡ ok tt
unfolding set_backed_up find_row commit
backed_ok = refl

backed_is : (perform browser quiet (back_up 1) home).1.tab.record_ ≡ some backed_record
unfolding set_backed_up find_row commit
backed_is = refl

backed_secrets : (perform browser quiet (back_up 1) home).1.tab.secrets ≡ some secrets_1
unfolding set_backed_up find_row commit
backed_secrets = refl

perform-WellFormed_example : WellFormed backed_record.meta secrets_1
perform-WellFormed_example =
    perform-WellFormed browser quiet (back_up 1) home base_1 secrets_1 key_1 refl refl refl
      home-WellFormed backed_record secrets_1 backed_ok backed_is backed_secrets

perform-Kept_example : Kept (back_up 1) meta_1 backed_record.meta secrets_1 secrets_1
perform-Kept_example =
    perform-Kept browser quiet (back_up 1) home base_1 secrets_1 key_1 refl refl refl
      home-WellFormed backed_record secrets_1 backed_ok backed_is backed_secrets

abbrev base_2 : VaultRecord
base_2 = record base_1 { rev = 2 }

-- A tab that has seen revision 2.
abbrev away : World
away = record {
  disk = record { vault = some base_2; primary = none };
  tab = record {
    record_ = some base_2;
    key = some key_1;
    secrets = some secrets_1;
    primary = none;
  };
}

recreated_conflict : (perform browser while_recreating (back_up 1) away).0 ≡ throw conflict
unfolding set_backed_up find_row commit create_vault
recreated_conflict = refl

perform_throw_example :
    let (o, w2) = perform browser while_recreating (back_up 1) away in
    (w2 ≡ away)
    ⊎ ((VaultError.conflict ≡ conflict)
        × ((w2.disk ≡ away.disk) ⊎ (w2.disk ≡ (while_recreating.between away).disk)))
perform_throw_example =
    perform_throw browser while_recreating (back_up 1) away base_2 secrets_1 key_1 refl refl refl
      home-WellFormed conflict recreated_conflict

added_ok : (add_wallet browser quiet draft home).0 ≡ ok (1000, false)
unfolding add_wallet find_mnemonic name_clash new_wallet_id commit browser
added_ok = refl

add_wallet-get_mnemonic_example :
    let (o, w2) = add_wallet browser quiet draft home in
    (false ≡ false
      → (¬ In 1000 (ids meta_1.wallets)) × (get_mnemonic 1000 w2 ≡ (ok draft.mnemonic, w2)))
    × (false ≡ true
        → (v : List ℕ) × (get 1000 secrets_1.mnemonics ≡ some v)
          × (same_text
                (norm_mnemonic browser.to_lower_case v)
                (norm_mnemonic browser.to_lower_case draft.mnemonic)
              ≡ true))
add_wallet-get_mnemonic_example =
    add_wallet-get_mnemonic browser quiet home base_1 secrets_1 key_1 refl refl refl home-WellFormed
      draft 1000 false b's' (b'2' ∷ []) key_1 refl refl added_ok
