-- ===== src/Vault/Wallets/Operations.antt =====
-- The operations of apps/wallet/public/vault.js that write, and what each may come to: it is refused,
-- or changes nothing, or is one commit of data that is well formed and keeps what it should.
use diginaut_wallet.Prelude.{
  ℕ, ◌≤◌, ◌≡◌, ◌≢◌, refl, true, ◌==◌, if◌then◌else◌, List, [], ◌∷◌, none, some, Outcome, ok, throw,
  arith,
}
use diginaut_wallet.Prelude.Dict.{get}
use diginaut_wallet.Vault.State.{
  WalletRow, Meta, Secrets, World, Platform, Call, VaultError, locked, Exec, ◌>>◌, pure,
}
use diginaut_wallet.Vault.Keystore.{rev_of}
use diginaut_wallet.Vault.Manager.{refresh, Draft, commit, lock}
use diginaut_wallet.Vault.Wallets.{
  find_row, stored_index, add_wallet, rename_wallet, remove_wallet, set_active, set_backed_up,
  set_receive_index,
}
use diginaut_wallet.Vault.Wallets.Ids.{ids, WellFormed}

-- The operations that write.
pub data Operation : Type 0 where
  add : Draft → Operation
  rename : ℕ → List ℕ → Operation
  remove_one : ℕ → Operation
  activate : ℕ → Operation
  back_up : ℕ → Operation
  raise_index : ℕ → ℕ → Operation

module _ (p : Platform) (c : Call) where
  abbrev pub perform : Operation → Exec (Unit {0})
  perform (add d) = add_wallet p c d >> pure tt
  perform (rename id name) = rename_wallet p c id name
  perform (remove_one id) = remove_wallet p c id
  perform (activate id) = set_active p c id
  perform (back_up id) = set_backed_up p c id
  perform (raise_index id index) = set_receive_index p c id index

  -- While the vault is locked, every operation that writes throws and changes nothing: neither the
  -- storage nor the variables of the tab.
  pub perform_locked :
      (op : Operation) (w : World) → w.tab.key ≡ none → perform op w ≡ (throw locked, w)
  unfolding add_wallet rename_wallet remove_wallet set_active set_backed_up set_receive_index
  perform_locked (add d) w h = rw h
  perform_locked (rename id name) w h = rw h
  perform_locked (remove_one id) w h = rw h
  perform_locked (activate id) w h = rw h
  perform_locked (back_up id) w h = rw h
  perform_locked (raise_index id index) w h = rw h

-- The wallets that an operation must not take away.
abbrev pub Stays : Operation → ℕ → Type 0
Stays (add d) j = Unit
Stays (rename id name) j = Unit
Stays (remove_one id) j = j ≢ id
Stays (activate id) j = Unit
Stays (back_up id) j = Unit
Stays (raise_index id index) j = Unit

-- A backed-up wallet stays backed up, and a receive index is never walked back.
pub record RowKept (old new : WalletRow) : Type 0 where
  pub same_id : new.id ≡ old.id
  pub backed : old.backed_up ≡ true → new.backed_up ≡ true
  pub index : stored_index old ≤ stored_index new

pub record Kept (op : Operation) (m m' : Meta) (s s' : Secrets) : Type 0 where
  pub seeds :
      (j : ℕ) (v : List ℕ) → Stays op j → get j s.mnemonics ≡ some v → get j s'.mnemonics ≡ some v
  pub rows :
      (j : ℕ) (r : WalletRow)
      → Stays op j
      → find_row j m.wallets ≡ some r
      → (r' : WalletRow) × (find_row j m'.wallets ≡ some r') × RowKept r r'

abbrev pub deleted : Platform → ℕ → World → Outcome VaultError (Unit {0}) × World
deleted p rev w =
    if rev_of w.disk.vault == rev
    then (
      ok tt,
      record {
        disk = record w.disk { vault = none };
        tab = lock (record w.tab { record_ = none });
      },
    )
    else (throw VaultError.conflict, refresh p w)

-- What an operation may come to, in a tab whose variables hold m and s.
pub data Effect (p : Platform) (c : Call) (op : Operation) (m : Meta) (s : Secrets) (w : World)
    (o : Outcome VaultError (Unit {0}) × World) : Type 0 where
  refused : (e : VaultError) → o ≡ (throw e, w) → Effect p c op m s w o
  unchanged : o ≡ (ok tt, w) → Effect p c op m s w o
  commits :
      (m' : Meta) (s' : Secrets)
      → WellFormed m' s'
      → Kept op m m' s s'
      → o ≡ commit p c m' s' w
      → Effect p c op m s w o
  -- The last wallet goes, and its record with it, unless another tab was first.
  deletes :
      (id rev : ℕ)
      → op ≡ remove_one id
      → ids m.wallets ≡ id ∷ []
      → o ≡ deleted p rev w
      → Effect p c op m s w o

pub RowKept-refl : (r : WalletRow) → RowKept r r
RowKept-refl r = record { same_id = refl; backed = λ h. h; index = omega arith }
