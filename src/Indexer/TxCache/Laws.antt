-- ===== src/Indexer/TxCache/Laws.antt =====
-- What the cache of transactions answers, and how large it gets.
use diginaut_wallet.Prelude.{
  ℕ, ◌+◌, ◌≤◌, ◌≡◌, refl, sym, subst, ap, ◌∙◌, List, [], ◌∷◌, ◌++◌, none, some, ltb, ◌==◌, length,
  length-append, get_elem?, find, find-In, All, All-append, All-In, Bool-cases, Option-cases, inl,
  inr, ◌⊎◌, ◌<◌, arith,
}
use mathlib.Core.Option.{some-injective}
use diginaut_wallet.Text.{same_text_refl, same_text-eq}
use diginaut_wallet.Indexer.TxCache.{
  CacheEntry, TxCache, empty_cache, is_of, entry_of, delete_entry, fetch, get_tx, failed_call,
  CacheEvent, gets, call_fails, cache_step, cache_run, tx_cache_max,
}
use diginaut_wallet.Indexer.TxCache.Entries.{
  IsOther, IsDistinct, IsHonest, get_elem?-last, All-IsHonest_append, delete_entry-All,
  length-delete_entry, delete_entry-IsDistinct, append-IsDistinct, spared, evict-append, spared-All,
  spared-IsDistinct, length-spared, find-last, find-none,
}

pub record IsCache (c : TxCache) : Type 0 where
  pub bounded : length c.entries ≤ tx_cache_max
  pub distinct : IsDistinct c.entries
  pub honest : All (IsHonest c.calls) c.entries

-- After a `get`: a cache as before, with an entry for the transaction that has the promise.
record HasGot (txid : List ℕ) (r : ℕ × TxCache) : Type 0 where
  valid : IsCache r.1
  entry : CacheEntry
  present : entry_of txid r.1.entries ≡ some entry
  same_promise : entry.promise ≡ r.0

fetch-HasGot : (at : ℕ) (txid : List ℕ) (c : TxCache) → IsCache c → HasGot txid (fetch at txid c)
unfolding fetch entry_of
fetch-HasGot at txid c v =
    let older = delete_entry txid c.entries in
    let new : CacheEntry = record { txid = txid; at = at; promise = length c.calls } in
    let apart = delete_entry-IsDistinct txid c.entries v.distinct in
    let shape = evict-append older new in
    record {
      valid = record {
        bounded = omega (
          arith,
          ap length shape,
          length-append (spared older) (new ∷ []),
          length-spared older (omega (arith, v.bounded, length-delete_entry txid c.entries)),
        );
        distinct = subst IsDistinct (sym shape) (
            append-IsDistinct (spared older) new (spared-IsDistinct older apart.0)
              (spared-All (IsOther txid) older apart.1));
        honest = subst (All (IsHonest (c.calls ++ txid ∷ []))) (sym shape) (
            All-append (IsHonest (c.calls ++ txid ∷ [])) (spared older) (new ∷ [])
              (spared-All _ older (
                All-IsHonest_append c.calls txid older
                  (delete_entry-All txid (IsHonest c.calls) c.entries v.honest)))
              (get_elem?-last c.calls txid, tt));
      };
      entry = new;
      present =
          ap (find (is_of txid)) shape
          ∙ find-last txid (spared older) new (spared-All (IsOther txid) older apart.1)
              (same_text_refl txid);
      same_promise = refl;
    }

get_tx-cases :
    (ttl_ms now later : ℕ) (txid : List ℕ) (c : TxCache)
    → (get_tx ttl_ms now later txid c ≡ fetch later txid c)
      ⊎ ((e : CacheEntry) × (entry_of txid c.entries ≡ some e)
          × (get_tx ttl_ms now later txid c ≡ (e.promise, c)))
unfolding get_tx
get_tx-cases ttl_ms now later txid c = elim (Option-cases (entry_of txid c.entries)) [
  | inl absent ↦ inl (ground (arith, absent))
  | inr (e, present) ↦ elim (Bool-cases (ltb now (e.at + ttl_ms))) [
    | inl young ↦ inr (e, present, ground (arith, present, young))
    | inr old ↦ inl (ground (arith, present, old))
  ]
]

get_tx-HasGot :
    (ttl_ms now later : ℕ) (txid : List ℕ) (c : TxCache)
    → IsCache c
    → HasGot txid (get_tx ttl_ms now later txid c)
get_tx-HasGot ttl_ms now later txid c v = elim (get_tx-cases ttl_ms now later txid c) [
  | inl fetched ↦ subst (HasGot txid) (sym fetched) (fetch-HasGot later txid c v)
  | inr (e, present, hit) ↦
      subst (HasGot txid) (sym hit)
        (record { valid = v; entry = e; present = present; same_promise = refl })
]

failed_call-cases :
    (promise : ℕ) (txid : List ℕ) (c : TxCache)
    → (failed_call promise txid c ≡ c)
      ⊎ (failed_call promise txid c ≡ record c { entries = delete_entry txid c.entries })
unfolding failed_call
failed_call-cases promise txid c = elim (Option-cases (entry_of txid c.entries)) [
  | inl absent ↦ inl (ground (arith, absent))
  | inr (e, present) ↦ elim (Bool-cases (e.promise == promise)) [
    | inl same ↦ inr (ground (arith, present, same))
    | inr other ↦ inl (ground (arith, present, other))
  ]
]

failed_call-IsCache :
    (promise : ℕ) (txid : List ℕ) (c : TxCache) → IsCache c → IsCache (failed_call promise txid c)
failed_call-IsCache promise txid c v = elim (failed_call-cases promise txid c) [
  | inl kept ↦ subst IsCache (sym kept) v
  | inr gone ↦ subst IsCache (sym gone) (record {
    bounded = omega (arith, v.bounded, length-delete_entry txid c.entries);
    distinct = (delete_entry-IsDistinct txid c.entries v.distinct).0;
    honest = delete_entry-All txid (IsHonest c.calls) c.entries v.honest;
  })
]

cache_run-IsCache :
    (ttl_ms : ℕ) (events : List CacheEvent) (c : TxCache)
    → IsCache c
    → IsCache (cache_run ttl_ms events c)
unfolding cache_run cache_step
cache_run-IsCache ttl_ms [] c v = v
cache_run-IsCache ttl_ms (gets now later txid ∷ es) c v =
    cache_run-IsCache ttl_ms es (get_tx ttl_ms now later txid c).1
      (get_tx-HasGot ttl_ms now later txid c v).valid
cache_run-IsCache ttl_ms (call_fails promise txid ∷ es) c v =
    cache_run-IsCache ttl_ms es (failed_call promise txid c) (failed_call-IsCache promise txid c v)

empty-IsCache : IsCache empty_cache
unfolding empty_cache
empty-IsCache = record { bounded = omega arith; distinct = tt; honest = tt }

got-asked : (txid : List ℕ) (r : ℕ × TxCache) → HasGot txid r → get_elem? r.1.calls r.0 ≡ some txid
unfolding entry_of
got-asked txid r g =
    let (there, same) = find-In (is_of txid) r.1.entries g.present in
    ap (get_elem? r.1.calls) (sym g.same_promise)
    ∙ All-In (IsHonest r.1.calls) g.entry r.1.entries g.valid.honest there
    ∙ ap some (same_text-eq g.entry.txid txid same)

got-again :
    (ttl_ms now later : ℕ) (txid : List ℕ) (r : ℕ × TxCache) (e : CacheEntry)
    → entry_of txid r.1.entries ≡ some e
    → e.promise ≡ r.0
    → now < e.at + ttl_ms
    → get_tx ttl_ms now later txid r.1 ≡ r
unfolding get_tx
got-again ttl_ms now later txid r e present same young = ground (arith, present, same, young)

failed-anew :
    (promise : ℕ) (txid : List ℕ) (c : TxCache) (e : CacheEntry)
    → IsCache c
    → entry_of txid c.entries ≡ some e
    → e.promise ≡ promise
    → (ttl_ms now later : ℕ)
    → (get_tx ttl_ms now later txid (failed_call promise txid c)).0 ≡ length c.calls
unfolding failed_call get_tx entry_of fetch
failed-anew promise txid c e v present same ttl_ms now later =
    let gone : find (is_of txid) (delete_entry txid c.entries) ≡ none =
      find-none txid (delete_entry txid c.entries)
        (delete_entry-IsDistinct txid c.entries v.distinct).1 in
    ground (arith, present, same, gone)

got-same :
    (txid : List ℕ) (r : ℕ × TxCache) (e : CacheEntry)
    → HasGot txid r
    → entry_of txid r.1.entries ≡ some e
    → e.promise ≡ r.0
got-same txid r e g present =
    let same : g.entry ≡ e = some-injective _ _ (sym g.present ∙ present) in
    ap (λ (d : CacheEntry). d.promise) (sym same) ∙ g.same_promise

module _ (ttl_ms : ℕ) (events : List CacheEvent) (now later : ℕ) (txid : List ℕ) where
  -- After any gets and failures, the promise that a `get` gives is of an upstream call for the
  -- transaction asked for, and the cache has at most 500 entries, none of them for the same
  -- transaction.
  pub get_tx-asked :
      let r = get_tx ttl_ms now later txid (cache_run ttl_ms events empty_cache) in
      (get_elem? r.1.calls r.0 ≡ some txid) × IsCache r.1
  get_tx-asked =
      let c = cache_run ttl_ms events empty_cache in
      let g =
        get_tx-HasGot ttl_ms now later txid c
          (cache_run-IsCache ttl_ms events empty_cache empty-IsCache) in
      (got-asked txid (get_tx ttl_ms now later txid c) g, g.valid)

  -- After any gets and failures, and a `get` whose entry is e: until the time to live has passed
  -- since e, a further `get` of the same transaction gives the same promise and changes nothing,
  -- but if that promise fails, it makes a new call.
  pub get_tx-shares :
      let r = get_tx ttl_ms now later txid (cache_run ttl_ms events empty_cache) in
      (e : CacheEntry)
      → entry_of txid r.1.entries ≡ some e
      → (now' later' : ℕ) → now' < e.at + ttl_ms
      → (get_tx ttl_ms now' later' txid r.1 ≡ r)
        × ((get_tx ttl_ms now' later' txid (failed_call r.0 txid r.1)).0 ≡ length r.1.calls)
  get_tx-shares e present now' later' young =
      let c = cache_run ttl_ms events empty_cache in
      let r = get_tx ttl_ms now later txid c in
      let g =
        get_tx-HasGot ttl_ms now later txid c
          (cache_run-IsCache ttl_ms events empty_cache empty-IsCache) in
      let same = got-same txid r e g present in
      (
        got-again ttl_ms now' later' txid r e present same young,
        failed-anew r.0 txid r.1 e g.valid present same ttl_ms now' later',
      )
