-- ===== src/Indexer/TxCache.antt =====
-- createTxCache of apps/indexer/server.js. A promise is the number of the upstream call that made
-- it, `calls` has the transaction id that each call asked for, and the clock is read where the
-- code reads it.
pub mod Entries
pub mod Laws
use diginaut_wallet.Prelude.{
  ℕ, ◌+◌, List, [], ◌∷◌, ◌++◌, Bool, true, false, Option, none, some, ltb, ◌==◌, if◌then◌else◌,
  length, drop, find,
}
use diginaut_wallet.Text.{same_text}

-- TX_CACHE_MAX
abbrev pub tx_cache_max : ℕ
tx_cache_max = 500

pub record CacheEntry : Type 0 where
  pub txid : List ℕ
  pub at : ℕ
  pub promise : ℕ

pub record TxCache : Type 0 where
  pub entries : List CacheEntry
  pub calls : List (List ℕ)

unfoldable pub empty_cache : TxCache
empty_cache = record { entries = []; calls = [] }

abbrev pub is_of : List ℕ → CacheEntry → Bool
is_of txid e = same_text e.txid txid

-- `Map.prototype.get` and `delete` of the entries.
unfoldable pub entry_of : List ℕ → List CacheEntry → Option CacheEntry
entry_of txid entries = find (is_of txid) entries

unfoldable pub delete_entry : List ℕ → List CacheEntry → List CacheEntry
delete_entry txid [] = []
delete_entry txid (e ∷ es) = if is_of txid e then es else e ∷ delete_entry txid es

-- `if (entries.size > TX_CACHE_MAX) entries.delete(entries.keys().next().value)`
unfoldable pub evict : List CacheEntry → List CacheEntry
evict entries = if ltb tx_cache_max (length entries) then drop 1 entries else entries

-- The call upstream, and its promise at the tail of the entries.
unfoldable pub fetch : ℕ → List ℕ → TxCache → ℕ × TxCache
fetch at txid c =
    let promise = length c.calls in
    let new : CacheEntry = record { txid = txid; at = at; promise = promise } in
    (
      promise,
      record {
        entries = evict (delete_entry txid c.entries ++ new ∷ []);
        calls = c.calls ++ txid ∷ [];
      },
    )

-- `get`, which reads the clock for the test and again for a new entry. The clock may go back.
unfoldable pub get_tx : ℕ → ℕ → ℕ → List ℕ → TxCache → ℕ × TxCache
get_tx ttl_ms now later txid c = elim (entry_of txid c.entries) [
  | none ↦ fetch later txid c
  | some hit ↦ if ltb now (hit.at + ttl_ms) then (hit.promise, c) else fetch later txid c
]

-- The handler that waits for a failure of the promise.
unfoldable pub failed_call : ℕ → List ℕ → TxCache → TxCache
failed_call promise txid c = elim (entry_of txid c.entries) [
  | none ↦ c
  | some e ↦ if e.promise == promise then record c { entries = delete_entry txid c.entries } else c
]

-- What happens to the cache: a `get`, or a failure of the promise that one gave.
pub data CacheEvent : Type 0 where
  gets : (now later : ℕ) (txid : List ℕ) → CacheEvent
  call_fails : (promise : ℕ) (txid : List ℕ) → CacheEvent

unfoldable pub cache_step : ℕ → CacheEvent → TxCache → TxCache
cache_step ttl_ms (gets now later txid) c = (get_tx ttl_ms now later txid c).1
cache_step ttl_ms (call_fails promise txid) c = failed_call promise txid c

unfoldable pub cache_run : ℕ → List CacheEvent → TxCache → TxCache
cache_run ttl_ms [] c = c
cache_run ttl_ms (e ∷ es) c = cache_run ttl_ms es (cache_step ttl_ms e c)
