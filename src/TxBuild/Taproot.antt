-- ===== src/TxBuild/Taproot.antt =====
-- packages/digidollar-js/src/taproot.js: the two leaves of a mint's collateral, its output key, and
-- what a redemption reveals of it. Scripts are lists of bytes.
pub mod Leaves
pub mod Spending
use Prim.Native.Nat.{bit_or}
use diginaut_wallet.Prelude.{
  ℕ, ◌+◌, List, [], ◌∷◌, ◌++◌, Bool, true, false, ◌&&◌, not, Option, none, some, Outcome, ok, throw,
  ◌>>=◌, ◌>>◌, throw_if, ltb, leb, ◌==◌, if◌then◌else◌, length,
}
use diginaut_wallet.Hex.{bytes_to_hex}
use diginaut_wallet.Envelope.ScriptNum.{le_minimal}
use diginaut_wallet.Envelope.Metadata.{bytes_of}
use diginaut_wallet.TxBuild.{
  TxError, leaf_too_long, bad_key, tweak_overflow, in_library, from_envelope, Curve, big_endian,
  all_hex,
}

-- COLLATERAL_NUMS_KEY
abbrev pub collateral_nums_key : List ℕ
collateral_nums_key =
    b'5' ∷ b'0' ∷ b'9' ∷ b'2' ∷ b'9' ∷ b'b' ∷ b'7' ∷ b'4' ∷ b'c' ∷ b'1' ∷ b'a' ∷ b'0' ∷ b'4' ∷ b'9'
    ∷ b'5' ∷ b'4' ∷ b'b' ∷ b'7' ∷ b'8' ∷ b'b' ∷ b'4' ∷ b'b' ∷ b'6' ∷ b'0' ∷ b'3' ∷ b'5' ∷ b'e'
    ∷ b'9' ∷ b'7' ∷ b'a' ∷ b'5' ∷ b'e' ∷ b'0' ∷ b'7' ∷ b'8' ∷ b'a' ∷ b'5' ∷ b'a' ∷ b'0' ∷ b'f'
    ∷ b'2' ∷ b'8' ∷ b'e' ∷ b'c' ∷ b'9' ∷ b'6' ∷ b'd' ∷ b'5' ∷ b'4' ∷ b'7' ∷ b'b' ∷ b'f' ∷ b'e'
    ∷ b'e' ∷ b'9' ∷ b'a' ∷ b'c' ∷ b'e' ∷ b'8' ∷ b'0' ∷ b'3' ∷ b'a' ∷ b'c' ∷ b'0' ∷ []

-- The opcodes of OP.
abbrev pub cltv : ℕ
cltv = 0xb1

abbrev pub drop_op : ℕ
drop_op = 0x75

abbrev pub not_op : ℕ
not_op = 0x91

abbrev pub verify : ℕ
verify = 0x69

abbrev pub checksig : ℕ
checksig = 0xac

abbrev pub digidollar : ℕ
digidollar = 0xbb

abbrev pub ddverify : ℕ
ddverify = 0xbc

abbrev pub checkcollateral : ℕ
checkcollateral = 0xbe

abbrev pub leaf_version : ℕ
leaf_version = 0xc0

-- `pushScriptNum`: its loop is that of `leMinimal`.
unfoldable pub push_script_num : ℕ → List ℕ
push_script_num value =
    if value == 0 then 0 ∷ [] else let bytes = le_minimal value in length bytes ∷ bytes

unfoldable pub push_data : List ℕ → List ℕ
push_data bytes = length bytes ∷ bytes

-- The parameters of a leaf, with the owner's key as bytes.
pub record Leaf : Type 0 where
  pub owner_key : List ℕ
  pub lock_height : ℕ
  pub dd_cents : ℕ

unfoldable pub normal_redemption_script : Leaf → List ℕ
normal_redemption_script l =
    push_script_num l.lock_height
    ++ (cltv ∷ drop_op ∷ digidollar ∷ push_script_num l.dd_cents
        ++ (ddverify ∷ push_data l.owner_key ++ checksig ∷ []))

unfoldable pub err_redemption_script : Leaf → List ℕ
err_redemption_script l =
    push_script_num l.lock_height
    ++ (cltv ∷ drop_op ∷ push_script_num 100
        ++ (checkcollateral ∷ not_op ∷ verify ∷ digidollar ∷ push_script_num l.dd_cents
            ++ (ddverify ∷ push_data l.owner_key ++ checksig ∷ [])))

-- `lexicographicCompare(a, b) <= 0`
unfoldable pub lex_le : List ℕ → List ℕ → Bool
lex_le [] b = true
lex_le (x ∷ a) [] = false
lex_le (x ∷ a) (y ∷ b) = let rest = lex_le a b in if x == y then rest else ltb x y

-- The tags of the hashes besides `TapTweak`, which the curve has.
pub data Tag : Type 0 where
  tap_leaf tap_branch tap_sighash : Tag

-- What @noble/curves and @noble/hashes compute. A private key is a list of bytes; there is none
-- where the library throws. `tweak_parity` is the parity of the y coordinate of the point that
-- `tweak_add` gives the x coordinate of.
pub record Library : Type 0 where
  pub curve : Curve
  pub tagged_hash : Tag → List ℕ → List ℕ
  pub tweak_parity : List ℕ → ℕ → ℕ
  pub sha256 : List ℕ → List ℕ
  pub ripemd160 : List ℕ → List ℕ
  pub get_public_key : List ℕ → Option (List ℕ)
  pub get_x_only : List ℕ → Option (List ℕ)
  pub base_multiply : ℕ → Option (ℕ × ℕ)
  pub ecdsa_sign : List ℕ → List ℕ → Option (List ℕ)
  pub schnorr_sign : List ℕ → List ℕ → Option (List ℕ)

unfoldable pub check_owner_key : List ℕ → Outcome TxError (Unit {0})
check_owner_key owner_key_hex =
    throw_if (not (length owner_key_hex == 64 && all_hex owner_key_hex)) bad_key

module _ (lib : Library) where
  unfoldable pub tap_leaf_hash : List ℕ → Outcome TxError (List ℕ)
  tap_leaf_hash script =
      throw_if (ltb 0xfc (length script)) leaf_too_long
      >> ok (lib.tagged_hash tap_leaf (leaf_version ∷ length script ∷ script))

  unfoldable pub tap_branch_hash : List ℕ → List ℕ → List ℕ
  tap_branch_hash a b = lib.tagged_hash tap_branch (if lex_le a b then a ++ b else b ++ a)

  -- `tapTweakOutputKeyWithParity` with a root.
  unfoldable pub tap_tweak_with_root : List ℕ → List ℕ → Outcome TxError (List ℕ × ℕ)
  tap_tweak_with_root internal_key_hex root = do
    internal ← from_envelope (bytes_of internal_key_hex)
    let t = big_endian 0 (lib.curve.tap_tweak_hash (internal ++ root))
    throw_if (leb lib.curve.order t) tweak_overflow
    elim (lib.curve.tweak_add internal_key_hex t) [
      | none ↦ throw in_library
      | some x_hex ↦ ok (x_hex, lib.tweak_parity internal_key_hex t)
    ]

  unfoldable pub leaf_root : Leaf → Outcome TxError (List ℕ)
  leaf_root l = do
    normal ← tap_leaf_hash (normal_redemption_script l)
    err ← tap_leaf_hash (err_redemption_script l)
    ok (tap_branch_hash normal err)

  unfoldable pub collateral_output_key : List ℕ → ℕ → ℕ → Outcome TxError (List ℕ)
  collateral_output_key owner_key_hex lock_height dd_cents = do
    check_owner_key owner_key_hex
    owner ← from_envelope (bytes_of owner_key_hex)
    root ← leaf_root (record { owner_key = owner; lock_height = lock_height; dd_cents = dd_cents })
    (x_hex, parity) ← tap_tweak_with_root collateral_nums_key root
    ok x_hex

  unfoldable pub collateral_control_block_hex : List ℕ → ℕ → ℕ → Outcome TxError (List ℕ)
  collateral_control_block_hex owner_key_hex lock_height dd_cents = do
    check_owner_key owner_key_hex
    owner ← from_envelope (bytes_of owner_key_hex)
    let l : Leaf = record { owner_key = owner; lock_height = lock_height; dd_cents = dd_cents }
    err ← tap_leaf_hash (err_redemption_script l)
    normal ← tap_leaf_hash (normal_redemption_script l)
    (x_hex, parity) ← tap_tweak_with_root collateral_nums_key (tap_branch_hash normal err)
    ok (bytes_to_hex (bit_or leaf_version parity ∷ []) ++ (collateral_nums_key ++ bytes_to_hex err))

unfoldable pub normal_redemption_leaf_hex : List ℕ → ℕ → ℕ → Outcome TxError (List ℕ)
normal_redemption_leaf_hex owner_key_hex lock_height dd_cents = do
  check_owner_key owner_key_hex
  owner ← from_envelope (bytes_of owner_key_hex)
  ok (
      bytes_to_hex (
        normal_redemption_script
          (record { owner_key = owner; lock_height = lock_height; dd_cents = dd_cents })))

unfoldable pub normal_redemption_leaf_hash : Library → List ℕ → ℕ → ℕ → Outcome TxError (List ℕ)
normal_redemption_leaf_hash lib owner_key_hex lock_height dd_cents = do
  leaf_hex ← normal_redemption_leaf_hex owner_key_hex lock_height dd_cents
  leaf ← from_envelope (bytes_of leaf_hex)
  tap_leaf_hash lib leaf
