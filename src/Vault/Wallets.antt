-- ===== src/Vault/Wallets.antt =====
-- The operations on the wallets of an open vault, apps/wallet/public/vault.js from `addWallet` to
-- `getMnemonic`.
pub mod Ids
pub mod Operations
mod Changes
mod Effects
pub mod Invariant
pub mod Adding
use diginaut_wallet.Prelude.{
  ℕ, Bool, true, false, not, ◌&&◌, ◌||◌, List, [], ◌∷◌, ◌++◌, map, filter, find, Option, none, some,
  Outcome, ok, throw, ◌==◌, ltb, ◌^◌, if◌then◌else◌,
}
use mathlib.Core.Option
use diginaut_wallet.Prelude.Dict.{get, put, remove}
use diginaut_wallet.Vault.State.{
  WalletRow, Meta, Source, Secrets, VaultRecord, Tab, World, Platform, Fresh, Call, VaultError,
  locked, unknown_wallet, name_taken, empty_name, type_error, Exec, ◌>>=◌, ◌>>◌, continue, pure,
  raise, handle, try, require, gets, modify, set_tab, transact, lift,
}
unfoldable pub use diginaut_wallet.Text.{same_text}
use diginaut_wallet.Vault.Names.{trim, norm_mnemonic}
use diginaut_wallet.Vault.Keystore.{delete_vault_record}
use diginaut_wallet.Vault.Manager.{
  Draft, wallet_meta_row, new_wallet_id, commit, lock, refresh_on_conflict, is_some,
}

unfoldable pub find_row : ℕ → List WalletRow → Option WalletRow
find_row id rows = find (λ r. r.id == id) rows

abbrev pub on_row : ℕ → (WalletRow → WalletRow) → WalletRow → WalletRow
on_row id f r = if r.id == id then f r else r

-- `wallets.map((w) => (w.id === id ? f(w) : w))`
abbrev pub update_row : ℕ → (WalletRow → WalletRow) → Meta → Meta
update_row id f m = record m { wallets = map (on_row id f) m.wallets }

-- The wallet after the one that goes, or else the one before it.
unfoldable pub neighbour_from : Option WalletRow → ℕ → List WalletRow → Option WalletRow
neighbour_from before id [] = none
neighbour_from before id (r ∷ rs) =
    let later = neighbour_from (some r) id rs in
    if r.id == id then elim rs [ s ∷ _ ↦ some s | [] ↦ before ] else later

unfoldable pub neighbour : ℕ → List WalletRow → Option WalletRow
unfolding neighbour_from
neighbour id rows = neighbour_from none id rows

-- The active wallet after one is removed; there is none if the table has no other.
unfoldable pub next_active : ℕ → Meta → Option ℕ
unfolding neighbour
next_active id m =
    if m.active_id == id then Option.map (λ r. r.id) (neighbour id m.wallets) else some m.active_id

-- `Math.max(want, w.receiveIndex ?? 0)`, where a value that is no positive safe integer counts as 0.
unfoldable pub stored_index : WalletRow → ℕ
stored_index r = elim r.receive_index [ none ↦ 0 | some i ↦ i ]

abbrev pub safe_index : ℕ → ℕ
safe_index index = if ltb index (2 ^ 53) then index else 0

unfoldable pub raised_index : ℕ → WalletRow → ℕ
unfolding stored_index
raised_index index r =
    let want = safe_index index in if ltb (stored_index r) want then want else stored_index r

-- What an operation works on, after `assertUnlocked`.
abbrev pub assert_unlocked : Exec (List ℕ)
assert_unlocked = (gets λ w. w.tab.key) >>= λ k. require k locked

abbrev pub current_record : Exec VaultRecord
current_record = (gets λ w. w.tab.record_) >>= λ r. require r type_error

abbrev pub current_secrets : Exec Secrets
current_secrets = (gets λ w. w.tab.secrets) >>= λ s. require s type_error

abbrev pub rows_of : Option VaultRecord → List WalletRow
rows_of none = []
rows_of (some r) = r.meta.wallets

abbrev pub get_wallet : ℕ → Exec WalletRow
get_wallet id = (gets λ w. find_row id (rows_of w.tab.record_)) >>= λ r. require r unknown_wallet

abbrev pub with_source : ℕ → Option Source → List (ℕ × Source) → List (ℕ × Source)
with_source id none d = d
with_source id (some s) d = put id s d

abbrev pub assert_named : List ℕ → Exec (Unit {0})
assert_named [] = raise empty_name
assert_named (c ∷ cs) = pure tt

abbrev pub throw_when : Bool → VaultError → Exec (Unit {0})
throw_when true e = raise e
throw_when false e = pure tt

module _ (p : Platform) where
  unfoldable pub name_clash : List ℕ → Option ℕ → List WalletRow → Bool
  unfolding trim same_text
  name_clash name self [] = false
  name_clash name self (r ∷ rs) =
      not (elim self [ none ↦ false | some id ↦ r.id == id ])
        && same_text (p.to_lower_case (trim r.name)) (p.to_lower_case (trim name))
      || name_clash name self rs

  -- `Object.entries(secrets.mnemonics).find(…)`
  unfoldable pub find_mnemonic : List ℕ → List (ℕ × List ℕ) → Option ℕ
  unfolding norm_mnemonic same_text
  find_mnemonic m [] = none
  find_mnemonic m ((id, known) ∷ rest) =
      let later = find_mnemonic m rest in
      if same_text (norm_mnemonic p.to_lower_case known) (norm_mnemonic p.to_lower_case m)
      then some id
      else later

  -- A seed that is in the vault may still gain its source.
  unfoldable pub upgrade : Call → ℕ → Option Source → Exec (Unit {0})
  upgrade c id none = pure tt
  upgrade c id (some s) = do
    secrets ← current_secrets
    base ← current_record
    if is_some (get id secrets.sources)
        then pure tt
        else commit p c (update_row id (λ r. record r { derived = true }) base.meta)
            (record secrets { sources = put id s secrets.sources })

  -- The id, and whether the seed was there.
  unfoldable pub add_wallet : Call → Draft → Exec (ℕ × Bool)
  add_wallet c d = do
    assert_unlocked
    secrets ← current_secrets
    elim (find_mnemonic d.mnemonic secrets.mnemonics) [
      | some id ↦ upgrade c id d.source >> pure (id, true)
      | none ↦ do
        base ← current_record
        throw_when (name_clash d.name none base.meta.wallets) name_taken
        let id = new_wallet_id c.fresh.now base.meta.wallets
        commit p c
            (record base.meta {
              wallets = base.meta.wallets ++ wallet_meta_row id c.fresh.now d ∷ [];
            })
            (record {
              mnemonics = put id d.mnemonic secrets.mnemonics;
              sources = with_source id d.source secrets.sources;
            })
        pure (id, false)
    ]

  unfoldable pub rename_wallet : Call → ℕ → List ℕ → Exec (Unit {0})
  rename_wallet c id name = do
    assert_unlocked
    get_wallet id
    assert_named (trim name)
    base ← current_record
    throw_when (name_clash (trim name) (some id) base.meta.wallets) name_taken
    secrets ← current_secrets
    commit p c (update_row id (λ r. record r { name = trim name }) base.meta) secrets

  unfoldable pub remove_wallet : Call → ℕ → Exec (Unit {0})
  remove_wallet c id = do
    assert_unlocked
    get_wallet id
    base ← current_record
    elim (filter (λ r. not (r.id == id)) base.meta.wallets) [
      | [] ↦ do
        try (transact (delete_vault_record base.rev)) (refresh_on_conflict p)
        set_tab λ t. lock (record t { record_ = none })
      | r ∷ rs ↦ do
        secrets ← current_secrets
        next ← require (next_active id base.meta) type_error
        commit p c (record { active_id = next; wallets = r ∷ rs })
            (record {
              mnemonics = remove id secrets.mnemonics;
              sources = remove id secrets.sources;
            })
    ]

  unfoldable pub set_active : Call → ℕ → Exec (Unit {0})
  set_active c id = do
    assert_unlocked
    get_wallet id
    base ← current_record
    secrets ← current_secrets
    if base.meta.active_id == id
        then pure tt
        else commit p c (record base.meta { active_id = id }) secrets

  unfoldable pub set_backed_up : Call → ℕ → Exec (Unit {0})
  set_backed_up c id = do
    assert_unlocked
    get_wallet id
    base ← current_record
    secrets ← current_secrets
    commit p c (update_row id (λ r. record r { backed_up = true }) base.meta) secrets

  unfoldable pub set_receive_index : Call → ℕ → ℕ → Exec (Unit {0})
  set_receive_index c id index = do
    assert_unlocked
    row ← get_wallet id
    base ← current_record
    secrets ← current_secrets
    let next = raised_index index row
    if next == stored_index row
        then pure tt
        else commit p c (update_row id (λ r. record r { receive_index = some next }) base.meta)
            secrets

unfoldable pub get_mnemonic : ℕ → Exec (List ℕ)
get_mnemonic id = do
  assert_unlocked
  secrets ← current_secrets
  elim (get id secrets.mnemonics) [
    | none ↦ raise unknown_wallet
    | some [] ↦ raise unknown_wallet
    | some (c ∷ cs) ↦ pure (c ∷ cs)
  ]

unfoldable pub get_source : ℕ → Exec (Option Source)
get_source id = do
  assert_unlocked
  get_wallet id
  secrets ← current_secrets
  pure (get id secrets.sources)

abbrev sol : List ℕ
sol = b's' ∷ b'o' ∷ b'l' ∷ []

module _ (p : Platform) where
  -- Solana addresses are compared exactly, others without regard to case.
  unfoldable pub norm_address : List ℕ → List ℕ → List ℕ
  unfolding same_text
  norm_address kind a = if same_text kind sol then a else p.to_lower_case a

  abbrev pub same_source : List ℕ → List ℕ → Source → Bool
  same_source kind address src =
      same_text src.kind kind
      && same_text (norm_address kind src.address) (norm_address kind address)

  abbrev pub has_fp : Option (List ℕ) → Source → Bool
  has_fp none src = false
  has_fp (some fp) src = same_text src.fp fp

  -- With a fingerprint only an exact match counts; without one, the first match.
  unfoldable pub find_source_in :
      List ℕ
      → List ℕ
      → Option (List ℕ)
      → List (ℕ × Source)
      → Option (ℕ × Source)
      → Option (ℕ × Source)
  unfolding norm_address same_text
  find_source_in kind address fp [] any = if is_some fp then none else any
  find_source_in kind address fp ((id, src) ∷ rest) any =
      let here = same_source kind address src in
      let any' = if here then elim any [ none ↦ some (id, src) | some a ↦ some a ] else any in
      let later = find_source_in kind address fp rest any' in
      if here && has_fp fp src then some (id, src) else later

  unfoldable pub find_source : List ℕ → List ℕ → Option (List ℕ) → Exec (Option (ℕ × Source))
  find_source kind address fp = do
    assert_unlocked
    secrets ← current_secrets
    pure (find_source_in kind address fp secrets.sources none)
