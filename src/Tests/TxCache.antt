-- ===== src/Tests/TxCache.antt =====
-- The indexer's cache of transactions at a concrete run: one `get`, and one that shares its promise.
use diginaut_wallet.Prelude.{ℕ, ◌≡◌, refl, List, [], ◌∷◌, some, get_elem?, length, arith}
use diginaut_wallet.Text.{same_text}
use diginaut_wallet.Indexer.TxCache.{
  CacheEntry, TxCache, empty_cache, entry_of, delete_entry, evict, fetch, get_tx, failed_call,
  cache_run,
}
use diginaut_wallet.Indexer.TxCache.Laws.{IsCache, get_tx-asked, get_tx-shares}

abbrev tx_a : List ℕ
tx_a = b'a' ∷ []

abbrev got : ℕ × TxCache
got = get_tx 1000 3 5 tx_a (cache_run 1000 [] empty_cache)

abbrev made : CacheEntry
made = record { txid = tx_a; at = 5; promise = 0 }

got-made : entry_of tx_a got.1.entries ≡ some made
unfolding get_tx cache_run empty_cache entry_of fetch delete_entry evict same_text
got-made = refl

get_tx-asked_example : (get_elem? got.1.calls got.0 ≡ some tx_a) × IsCache got.1
get_tx-asked_example = get_tx-asked 1000 [] 3 5 tx_a

get_tx-shares_example :
    (get_tx 1000 900 901 tx_a got.1 ≡ got)
    × ((get_tx 1000 900 901 tx_a (failed_call got.0 tx_a got.1)).0 ≡ length got.1.calls)
get_tx-shares_example = get_tx-shares 1000 [] 3 5 tx_a made got-made 900 901 (omega arith)
