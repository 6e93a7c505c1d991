-- ===== src/Envelope/Metadata.antt =====
-- envelope.js: the OP_RETURN metadata of mints, transfers and redemptions, built and parsed. The
-- hexadecimal texts are lists of code units. Amounts, heights and tiers are not negative; the
-- builders' `<= 0n` guards are tests for zero.
pub mod RoundTrip
pub mod Kinds
use diginaut_wallet.Prelude.{
  ℕ, ◌+◌, ◌%◌, List, [], ◌∷◌, ◌++◌, Bool, true, false, not, ◌||◌, Option, none, some, Outcome, ok,
  throw, ◌>>=◌, ◌>>◌, throw_if, length, ◌==◌, if◌then◌else◌, map,
}
use diginaut_wallet.Hex.{hex_to_bytes, bytes_to_hex}
use diginaut_wallet.Envelope.Version.{TxType, mint, transfer, redeem, code_of}
use diginaut_wallet.Envelope.ScriptNum.{le_minimal, le_to_big_int, to_number}
use diginaut_wallet.Envelope.Pushes.{
  EnvelopeError, type_error, not_metadata, wrong_type, bad_owner_key, no_amount, not_positive, push,
  read_pushes,
}

-- `hexToBytes`, throwing.
unfoldable pub bytes_of : List ℕ → Outcome EnvelopeError (List ℕ)
bytes_of hex = elim (hex_to_bytes hex) [ none ↦ throw type_error | some bs ↦ ok bs ]

-- `bytesToHex(magic) === '4444'` : two bytes 0x44.
unfoldable pub is_magic : List ℕ → Bool
is_magic (a ∷ b ∷ []) = if a == 0x44 then b == 0x44 else false
is_magic _ = false

-- `type.length === 1 && type[0] === code`
unfoldable pub is_type : TxType → List ℕ → Bool
unfolding code_of
is_type t (c ∷ []) = c == code_of t
is_type t _ = false

pub record MintMetadata : Type 0 where
  pub dd_cents : ℕ
  pub unlock_height : ℕ
  pub lock_tier : ℕ
  pub owner_key_hex : List ℕ

unfoldable pub mint_fields : List (List ℕ) → Outcome EnvelopeError MintMetadata
unfolding is_magic is_type
mint_fields (magic ∷ type ∷ dd_cents ∷ unlock_height ∷ lock_tier ∷ owner_key ∷ []) = do
  throw_if (not (is_magic magic)) not_metadata
  throw_if (not (is_type mint type)) wrong_type
  throw_if (not (length owner_key == 32)) bad_owner_key
  ok (record {
    dd_cents = le_to_big_int dd_cents;
    unlock_height = to_number (le_to_big_int unlock_height);
    lock_tier = to_number (le_to_big_int lock_tier);
    owner_key_hex = bytes_to_hex owner_key;
  })
mint_fields _ = throw not_metadata

unfoldable pub parse_mint_metadata : List ℕ → Outcome EnvelopeError MintMetadata
unfolding bytes_of mint_fields
parse_mint_metadata hex = do script ← bytes_of hex; pushes ← read_pushes script; mint_fields pushes

unfoldable pub transfer_fields : List (List ℕ) → Outcome EnvelopeError (List ℕ)
unfolding is_magic is_type
transfer_fields (magic ∷ type ∷ amount ∷ amounts) = do
  throw_if (not (is_magic magic)) not_metadata
  throw_if (not (is_type transfer type)) wrong_type
  ok (map le_to_big_int (amount ∷ amounts))
transfer_fields _ = throw not_metadata

unfoldable pub parse_transfer_metadata : List ℕ → Outcome EnvelopeError (List ℕ)
unfolding bytes_of transfer_fields
parse_transfer_metadata hex = do
  script ← bytes_of hex
  pushes ← read_pushes script
  transfer_fields pushes

unfoldable pub redeem_fields : List (List ℕ) → Outcome EnvelopeError ℕ
unfolding is_magic is_type
redeem_fields (magic ∷ type ∷ change ∷ []) = do
  throw_if (not (is_magic magic)) not_metadata
  throw_if (not (is_type redeem type)) wrong_type
  ok (le_to_big_int change)
redeem_fields _ = throw not_metadata

unfoldable pub parse_redeem_metadata : List ℕ → Outcome EnvelopeError ℕ
unfolding bytes_of redeem_fields
parse_redeem_metadata hex = do
  script ← bytes_of hex
  pushes ← read_pushes script
  redeem_fields pushes

-- `[0x6a, ...push([0x44, 0x44]), ...push([code])]`
unfoldable pub preamble : TxType → List ℕ
unfolding push code_of
preamble t = 0x6a ∷ push (0x44 ∷ 0x44 ∷ []) ++ push (code_of t ∷ [])

-- The loop over the amounts.
unfoldable pub amount_pushes : List ℕ → Outcome EnvelopeError (List ℕ)
unfolding push
amount_pushes [] = ok []
amount_pushes (cents ∷ rest) = do
  throw_if (cents == 0) not_positive
  parts ← amount_pushes rest
  ok (push (le_minimal cents) ++ parts)

unfoldable pub build_transfer_metadata : List ℕ → Outcome EnvelopeError (List ℕ)
unfolding amount_pushes preamble
build_transfer_metadata [] = throw no_amount
build_transfer_metadata (cents ∷ rest) = do
  parts ← amount_pushes (cents ∷ rest)
  ok (bytes_to_hex (preamble transfer ++ parts))

unfoldable pub build_redeem_metadata : ℕ → Outcome EnvelopeError (List ℕ)
unfolding preamble push
build_redeem_metadata dd_change_cents = do
  throw_if (dd_change_cents == 0) not_positive
  ok (bytes_to_hex (preamble redeem ++ push (le_minimal dd_change_cents)))

unfoldable pub build_mint_metadata : MintMetadata → Outcome EnvelopeError (List ℕ)
unfolding preamble push bytes_of
build_mint_metadata m = do
  owner_key ← bytes_of m.owner_key_hex
  throw_if (not (length owner_key == 32)) bad_owner_key
  ok (
      bytes_to_hex (
        preamble mint
        ++ (push (le_minimal m.dd_cents)
            ++ (push (le_minimal m.unlock_height)
                ++ (push (le_minimal m.lock_tier) ++ push owner_key)))))
