-- ===== src/Envelope/Version.antt =====
-- envelope.js: `buildDDVersion` and `parseDDVersion`, the DigiDollar marker in nVersion.
pub mod Laws
use diginaut_wallet.Prelude.{
  ℕ, ◌+◌, ◌*◌, ◌/◌, ◌%◌, ◌^◌, Bool, true, false, String, Option, none, some, Outcome, ok, throw,
  ◌==◌, if◌then◌else◌,
}
use text.Mathlib.Text.{◌==◌ as str_eq}

pub data TxType : Type 0 where
  mint transfer redeem : TxType

-- The low 16 bits of nVersion.
abbrev pub dd_marker : ℕ
dd_marker = 0x0770

-- The keys of CODE_BY_TYPE and its values.
unfoldable pub type_name : TxType → String
type_name mint = "mint"
type_name transfer = "transfer"
type_name redeem = "redeem"

unfoldable pub code_of : TxType → ℕ
code_of mint = 1
code_of transfer = 2
code_of redeem = 3

unfoldable pub type_of_name : String → Option TxType
type_of_name name =
    if str_eq name "mint"
    then some mint
    else if str_eq name "transfer"
    then some transfer
    else if str_eq name "redeem"
    then some redeem
    else none

-- TYPE_BY_CODE[code] ?? null
unfoldable pub type_of_code : ℕ → Option TxType
type_of_code c =
    if c == 1
    then some mint
    else if c == 2
    then some transfer
    else if c == 3
    then some redeem
    else none

pub data VersionError : Type 0 where
  unknown_tx_type : VersionError

-- `(code << 24) | DD_MARKER`: the two operands share no bit.
unfoldable pub dd_version : TxType → ℕ
unfolding code_of
dd_version t = code_of t * 2 ^ 24 + dd_marker

unfoldable pub build_dd_version : String → Outcome VersionError ℕ
unfolding type_of_name dd_version
build_dd_version name = elim (type_of_name name) [
  | none ↦ throw unknown_tx_type
  | some t ↦ ok (dd_version t)
]

pub record Classified : Type 0 where
  pub is_digi_dollar : Bool
  pub tx_type : Option TxType

-- The operators `&` and `>>>` read the low 32 bits.
unfoldable pub parse_dd_version : ℕ → Classified
unfolding type_of_code
parse_dd_version version =
    if version % 2 ^ 16 == dd_marker
    then record { is_digi_dollar = true; tx_type = type_of_code (version % 2 ^ 32 / 2 ^ 24) }
    else record { is_digi_dollar = false; tx_type = none }
