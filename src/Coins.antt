-- ===== src/Coins.antt =====
-- The DGB coins of the wallet, and how txbuild.js and coinpick.js choose among them.
pub mod Sorting
pub mod Pick
pub mod Plan
use diginaut_wallet.Prelude.{ℕ, List, Bool, true, false}

-- `type: 'p2wpkh'` marks a witness-v0 coin; every other coin is a key-path taproot output.
pub data CoinType : Type 0 where
  p2tr p2wpkh : CoinType

pub record Utxo : Type 0 where
  pub txid_hex : List ℕ
  pub vout : ℕ
  pub value_sats : ℕ
  pub coin_type : CoinType
  pub priv_key_hex : List ℕ

-- `u.type === 'p2wpkh'`
unfoldable pub is_p2wpkh : Utxo → Bool
is_p2wpkh u = elim u.coin_type [ p2tr ↦ false | p2wpkh ↦ true ]
