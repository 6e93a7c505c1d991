-- ===== src/Vault/State.antt =====
-- The data of the vault, its storage, and actions that may throw. Texts are lists of code units and
-- byte arrays are lists of numbers; base64 is left out, since every field is written and read by it
-- alike. A wallet id `w<n>` is the number n.
use diginaut_wallet.Prelude.{ℕ, List, Bool, Option, none, some, Outcome, ok, throw, ◌≡◌}

pub record WalletRow : Type 0 where
  pub id : ℕ
  pub name : List ℕ
  pub created_at : ℕ
  pub backed_up : Bool
  pub derived : Bool
  pub receive_index : Option ℕ

-- The cleartext part of the record.
pub record Meta : Type 0 where
  pub active_id : ℕ
  pub wallets : List WalletRow

pub record Source : Type 0 where
  pub kind : List ℕ
  pub brand : List ℕ
  pub address : List ℕ
  pub fp : List ℕ

-- The plaintext of the vault. Missing `sources` are the empty ones.
pub record Secrets : Type 0 where
  pub mnemonics : List (ℕ × List ℕ)
  pub sources : List (ℕ × Source)

pub record Kdf : Type 0 where
  pub iterations : ℕ
  pub salt : List ℕ

pub record Cipher : Type 0 where
  pub iv : List ℕ
  pub bytes : List ℕ

pub record VaultRecord : Type 0 where
  pub rev : ℕ
  pub kdf : Kdf
  pub cipher : Cipher
  pub meta : Meta

-- The single-wallet record of version 1.
pub record LegacyRecord : Type 0 where
  pub v : ℕ
  pub kdf : Kdf
  pub cipher : Cipher

-- The two records of the object store, under the ids 'vault' and 'primary'.
pub record Disk : Type 0 where
  pub vault : Option VaultRecord
  pub primary : Option LegacyRecord

-- The four variables of `createVaultManager`.
pub record Tab : Type 0 where
  pub record_ : Option VaultRecord
  pub key : Option (List ℕ)
  pub secrets : Option Secrets
  pub primary : Option LegacyRecord

pub record World : Type 0 where
  pub disk : Disk
  pub tab : Tab

-- What the browser provides: WebCrypto's PBKDF2 and AES-GCM with the text coding round them, the
-- JSON text of the secrets, and the lower case of Unicode. The laws say that decryption and parsing invert what was written.
pub record Platform : Type 0 where
  pub derive_key : List ℕ → List ℕ → ℕ → List ℕ
  pub encrypt : List ℕ → List ℕ → List ℕ → List ℕ
  pub decrypt : List ℕ → List ℕ → List ℕ → Option (List ℕ)
  pub stringify : Secrets → List ℕ
  pub parse : List ℕ → Option Secrets
  pub to_lower_case : List ℕ → List ℕ
  pub decrypt-encrypt : (iv key text : List ℕ) → decrypt iv key (encrypt iv key text) ≡ some text
  pub parse-stringify : (s : Secrets) → parse (stringify s) ≡ some s

-- What one call draws from the random generator and the clock.
pub record Fresh : Type 0 where
  pub salt : List ℕ
  pub iv : List ℕ
  pub now : ℕ

-- `between` is what happens to the world while a call waits for the encryption: other tabs write,
-- and the handlers of this tab run. The waits for the storage alone are taken as prompt.
pub record Call : Type 0 where
  pub fresh : Fresh
  pub between : World → World

pub data VaultError : Type 0 where
  -- VaultConflictError
  conflict : VaultError
  locked : VaultError
  unknown_wallet : VaultError
  name_taken : VaultError
  empty_name : VaultError
  vault_exists : VaultError
  no_wallet : VaultError
  decrypt_failed : VaultError
  unsupported_version : VaultError
  -- JSON.parse refuses the text
  syntax_error : VaultError
  -- a property of null
  type_error : VaultError

-- What was written before a throw stays written.
abbrev pub Exec : Type 0 → Type 0
Exec A = World → Outcome VaultError A × World

module _ {A B : Type 0} where
  abbrev pub continue : Outcome VaultError A → (A → Exec B) → World → Outcome VaultError B × World
  continue (ok a) f w = f a w
  continue (throw e) f w = (throw e, w)

  infixl 10 ◌>>=◌ ◌>>◌
  abbrev pub ◌>>=◌ : Exec A → (A → Exec B) → Exec B
  ◌>>=◌ m f w = let (r, w') = m w in continue r f w'

  abbrev pub ◌>>◌ : Exec A → Exec B → Exec B
  m >> n = m >>= λ _. n

module _ {A : Type 0} where
  abbrev pub pure : A → Exec A
  pure a w = (ok a, w)

  abbrev pub raise : VaultError → Exec A
  raise e w = (throw e, w)

  abbrev pub handle :
      Outcome VaultError A → (VaultError → Exec A) → World → Outcome VaultError A × World
  handle (ok a) h w = (ok a, w)
  handle (throw e) h w = h e w

  -- `try { m } catch (e) { h e }`
  abbrev pub try : Exec A → (VaultError → Exec A) → Exec A
  try m h w = let (r, w') = m w in handle r h w'

  -- The value of a variable that is not null.
  abbrev pub require : Option A → VaultError → Exec A
  require none e w = (throw e, w)
  require (some a) e w = (ok a, w)

abbrev pub gets : {A : Type 0} → (World → A) → Exec A
gets f w = (ok (f w), w)

abbrev pub modify : (World → World) → Exec (Unit {0})
modify f w = (ok tt, f w)

abbrev pub set_tab : (Tab → Tab) → Exec (Unit {0})
set_tab f w = (ok tt, record w { tab = f w.tab })

-- One transaction of the object store.
abbrev pub transact : {A : Type 0} → (Disk → Outcome VaultError A × Disk) → Exec A
transact f w = let (r, d) = f w.disk in (r, record w { disk = d })

-- A computation that touches no variable.
abbrev pub lift : {A : Type 0} → Outcome VaultError A → Exec A
lift r w = (r, w)
