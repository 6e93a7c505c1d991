-- ===== src/Coins/Pick.antt =====
-- apps/wallet/public/coinpick.js: the one coin that pays the DGB side of a DigiDollar transaction.
pub mod Laws
use diginaut_wallet.Prelude.{
  ℕ, Bool, true, false, not, ◌&&◌, List, [], ◌∷◌, Option, none, some, ltb, leb, ◌==◌, filter, find,
  if◌then◌else◌,
}
use diginaut_wallet.Coins.{Utxo, is_p2wpkh}
use diginaut_wallet.Coins.Sorting.{sort}

-- `===` of two texts.
unfoldable pub text_eq : List ℕ → List ℕ → Bool
text_eq [] [] = true
text_eq (a ∷ s) (b ∷ t) = a == b && text_eq s t
text_eq _ _ = false

-- `(a, b) => (a.valueSats < b.valueSats ? -1 : 1)`
unfoldable pub smaller_first : Utxo → Utxo → Bool
smaller_first a b = ltb a.value_sats b.value_sats

unfoldable pub covers : ℕ → Utxo → Bool
covers min_sats u = leb min_sats u.value_sats

-- `undefined` prefers no key.
unfoldable pub is_preferred : Option (List ℕ) → Utxo → Bool
is_preferred prefer_key u = elim prefer_key [ none ↦ false | some k ↦ text_eq u.priv_key_hex k ]

unfoldable pub is_taproot : Utxo → Bool
is_taproot u = not (is_p2wpkh u)

-- `a ?? b`
unfoldable pub or_else : Option Utxo → Option Utxo → Option Utxo
or_else none b = b
or_else (some u) b = some u

unfoldable pub first : List Utxo → Option Utxo
first [] = none
first (u ∷ us) = some u

unfoldable pub pick_dgb_coin : List Utxo → ℕ → Option (List ℕ) → Option Utxo
unfolding or_else first
pick_dgb_coin utxos min_sats prefer_key =
    let enough = sort smaller_first (filter (covers min_sats) utxos) in
    let taproot = filter is_taproot enough in
    or_else (find (is_preferred prefer_key) taproot)
      (or_else (first taproot) (find is_p2wpkh enough))
