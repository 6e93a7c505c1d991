-- ===== src/Envelope/Version/Laws.antt =====
-- The version of a transaction and its classification.
use diginaut_wallet.Prelude.{ℕ, ◌/◌, ◌%◌, ◌^◌, ◌<◌, ◌≡◌, refl, ◌↔◌, true, some, ok, arith}
use diginaut_wallet.Envelope.Version.{
  TxType, mint, transfer, redeem, dd_marker, type_name, code_of, dd_version, build_dd_version,
  parse_dd_version, type_of_code,
}

-- `buildDDVersion` of each known type gives a version that `parseDDVersion` classifies as
-- DigiDollar of that type, and it fits a signed 32-bit integer.
pub parse_dd_version-build_dd_version :
    (t : TxType)
    → (v : ℕ) × (build_dd_version (type_name t) ≡ ok v)
      × (parse_dd_version v ≡ record { is_digi_dollar = true; tx_type = some t })
      × (v < 2 ^ 31)
unfolding build_dd_version parse_dd_version type_name
parse_dd_version-build_dd_version mint = (dd_version mint, refl, refl, omega arith)
parse_dd_version-build_dd_version transfer = (dd_version transfer, refl, refl, omega arith)
parse_dd_version-build_dd_version redeem = (dd_version redeem, refl, refl, omega arith)

type_of_code_iff : (c : ℕ) (t : TxType) → (type_of_code c ≡ some t) ↔ (c ≡ code_of t)
unfolding type_of_code code_of
type_of_code_iff c mint = ground arith
type_of_code_iff c transfer = ground arith
type_of_code_iff c redeem = ground arith

-- A version is read as DigiDollar of type `t` exactly when its low 16 bits are the marker and its
-- top byte is the code of `t`; the byte between is not looked at.
pub parse_dd_version_iff :
    (v : ℕ) (t : TxType)
    → ((parse_dd_version v).tx_type ≡ some t)
      ↔ ((v % 2 ^ 16 ≡ dd_marker) × (v % 2 ^ 32 / 2 ^ 24 ≡ code_of t))
unfolding parse_dd_version
parse_dd_version_iff v t =
    let code = type_of_code_iff (v % 2 ^ 32 / 2 ^ 24) t in
    (λ e. ground (arith, code.0), λ h. ground (arith, code.1))
