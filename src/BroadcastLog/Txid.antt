-- ===== src/BroadcastLog/Txid.antt =====
-- apps/wallet/public/broadcastlog.js: `txidFromSignedHex`, which reads a signed transaction by
-- positions in its bytes. SHA-256 stands outside.
pub mod Skipping
pub mod Signed
pub mod Stripping
pub mod Texts
use mathlib.Core.List.{reverse}
use diginaut_wallet.Prelude.{
  ℕ, zero, suc, ◌+◌, ◌-◌, ◌*◌, ◌^◌, List, [], ◌∷◌, ◌++◌, map, Bool, true, false, not, ◌&&◌, Option,
  none, some, Outcome, ok, throw, ◌>>=◌, ◌>>◌, throw_if, ltb, leb, ◌==◌, if◌then◌else◌, length,
  take, drop, get_elem?,
}
use diginaut_wallet.Hex.{hex_to_bytes, bytes_to_hex}
use diginaut_wallet.Address.DigiDollar.{all_any_hex}
use diginaut_wallet.Text.{lower_letter}

pub data TxidError : Type 0 where
  not_hex truncated out_of_range no_inputs trailing_bytes type_error : TxidError

-- `bytes[pos]` under a bit operation: undefined counts as 0.
unfoldable pub byte_at : List ℕ → ℕ → ℕ
byte_at bytes pos = elim (get_elem? bytes pos) [ none ↦ 0 | some b ↦ b ]

-- The bytes from a position on, the lowest first.
unfoldable pub number_at : ℕ → List ℕ → ℕ → ℕ
number_at zero bytes pos = 0
number_at (suc count) bytes pos = byte_at bytes pos + 256 * number_at count bytes (pos + 1)

-- Returns the value and the next position.
unfoldable pub read_varint_at : List ℕ → ℕ → Outcome TxidError (ℕ × ℕ)
read_varint_at bytes pos = elim (get_elem? bytes pos) [
  | none ↦ throw truncated
  | some first ↦
      if ltb first 0xfd
      then ok (first, pos + 1)
      else if first == 0xfd
      then ok (number_at 2 bytes (pos + 1), pos + 3)
      else if first == 0xfe
      then ok (number_at 4 bytes (pos + 1), pos + 5)
      else (throw_if (ltb 0xffffffff (number_at 8 bytes (pos + 1))) out_of_range
          >> ok (number_at 8 bytes (pos + 1), pos + 9))
]

-- A part that follows its length.
unfoldable pub skip_part : List ℕ → ℕ → Outcome TxidError ℕ
skip_part bytes pos = do (part_length, next) ← read_varint_at bytes pos; ok (next + part_length)

-- A loop of so many rounds, each from the position that the one before has left.
unfoldable pub skip_many : (List ℕ → ℕ → Outcome TxidError ℕ) → ℕ → List ℕ → ℕ → Outcome TxidError ℕ
skip_many skip zero bytes pos = ok pos
skip_many skip (suc count) bytes pos = do next ← skip bytes pos; skip_many skip count bytes next

unfoldable pub skip_input : List ℕ → ℕ → Outcome TxidError ℕ
skip_input bytes pos = do next ← skip_part bytes (pos + 36); ok (next + 4)

unfoldable pub skip_output : List ℕ → ℕ → Outcome TxidError ℕ
skip_output bytes pos = skip_part bytes (pos + 8)

unfoldable pub skip_witness : List ℕ → ℕ → Outcome TxidError ℕ
skip_witness bytes pos = do
  (items, next) ← read_varint_at bytes pos
  skip_many skip_part items bytes next

unfoldable pub is_segwit : List ℕ → Bool
is_segwit bytes = elim (get_elem? bytes 4) [
  | none ↦ false
  | some marker ↦ elim (get_elem? bytes 5) [ none ↦ false | some flag ↦ marker == 0 && flag == 1 ]
]

-- Without the marker, the flag and the witnesses.
unfoldable pub strip_witnesses : List ℕ → Outcome TxidError (List ℕ)
strip_witnesses bytes = do
  let in_start = if is_segwit bytes then 6 else 4
  (n_in, in_next) ← read_varint_at bytes in_start
  throw_if (n_in == 0) no_inputs
  in_end ← skip_many skip_input n_in bytes in_next
  (n_out, out_next) ← read_varint_at bytes in_end
  body_end ← skip_many skip_output n_out bytes out_next
  end_ ← if is_segwit bytes then skip_many skip_witness n_in bytes body_end else ok body_end
  throw_if (not (end_ + 4 == length bytes)) trailing_bytes
  ok (
      take 4 bytes
      ++ (take (body_end - in_start) (drop in_start bytes) ++ drop (length bytes - 4) bytes))

-- The pattern ([0-9a-fA-F]{2})+
unfoldable pub is_even : ℕ → Bool
is_even zero = true
is_even (suc n) = not (is_even n)

unfoldable pub txid_from_signed_hex : (List ℕ → List ℕ) → List ℕ → Outcome TxidError (List ℕ)
txid_from_signed_hex sha256 hex = do
  throw_if (not (all_any_hex hex && is_even (length hex) && not (length hex == 0))) not_hex
  bytes ← (elim (hex_to_bytes (map lower_letter hex)) [ none ↦ throw type_error | some bs ↦ ok bs ])
  stripped ← strip_witnesses bytes
  ok (bytes_to_hex (reverse (sha256 (sha256 stripped))))
