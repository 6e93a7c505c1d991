-- ===== src/Indexer/Scan/Memo.antt =====
-- The memo of scanDDUtxos does not show but in the calls that it spares.
use diginaut_wallet.Prelude.{
  ℕ, ◌≡◌, refl, sym, ap, ◌∙◌, List, [], ◌∷◌, ◌++◌, true, false, none, some, Outcome, ok, throw,
  ◌>>=◌, ◌==◌, filter, map, In, append-nil, append_assoc, ◌↔◌, find, find-In, All, All-append,
  All-In, Option-cases, Outcome-cases, inl, inr, arith,
}
use diginaut_wallet.Text.{same_text, same_text-eq}
use diginaut_wallet.Indexer.Scan.{
  VerboseTx, Unspent, DdUtxo, DdMap, Memos, dd_amounts_by_vout, cents_of, push_utxo, memo_amounts,
  scan_loop, scan_dd_utxos,
}
use diginaut_wallet.Indexer.Scan.Firsts.{
  has, firsts, firsts_old, firsts_new, IsOnce, firsts-IsOnce, firsts_iff,
}

module _ {E : Type 0} (get_tx : List ℕ → Outcome E VerboseTx) where
  -- The same scan that reads the transaction of each output.
  abbrev pub scan_each : List Unspent → Outcome E (List DdUtxo)
  scan_each [] = ok []
  scan_each (u ∷ us) = do
    tx ← get_tx u.tx_hash
    rest ← scan_each us
    ok (push_utxo u (cents_of u (dd_amounts_by_vout tx)) rest)

  -- A memo has what the transactions say.
  abbrev IsMemo : DdMap → Type 0
  IsMemo m = (tx : VerboseTx) × (get_tx m.tx_hash ≡ ok tx) × (m.amounts ≡ dd_amounts_by_vout tx)

  abbrev map_of : List ℕ → VerboseTx → DdMap
  map_of h tx = record { tx_hash = h; amounts = dd_amounts_by_vout tx }

  abbrev hashes : List DdMap → List (List ℕ)
  hashes maps = map (λ (m : DdMap). m.tx_hash) maps

  -- The scan that reads each transaction, with the hashes that are asked for behind the earlier.
  abbrev scan_from :
      List (List ℕ) → List (List ℕ) → List Unspent → Outcome E (List DdUtxo × List (List ℕ))
  scan_from known asked us =
      scan_each us >>= λ out. ok (out, asked ++ firsts known (map (λ (u : Unspent). u.tx_hash) us))

  find-has :
      (h : List ℕ) (maps : List DdMap) {m : DdMap}
      → find (λ m. same_text m.tx_hash h) maps ≡ some m
      → has h (hashes maps) ≡ true
  find-has h [] e = cc
  find-has h (n ∷ maps) {m} e = ground (arith, find-has h maps {m = m})

  find-has_not :
      (h : List ℕ) (maps : List DdMap)
      → find (λ m. same_text m.tx_hash h) maps ≡ none
      → has h (hashes maps) ≡ false
  find-has_not h [] e = refl
  find-has_not h (m ∷ maps) e = ground (arith, find-has_not h maps)

  hashes-append :
      (maps : List DdMap) (m : DdMap) → hashes (maps ++ m ∷ []) ≡ hashes maps ++ m.tx_hash ∷ []
  hashes-append [] m = refl
  hashes-append (n ∷ maps) m = ap (λ t. n.tx_hash ∷ t) (hashes-append maps m)

  memo_known :
      (h : List ℕ) (s : Memos) (m : DdMap)
      → find (λ m. same_text m.tx_hash h) s.maps ≡ some m
      → memo_amounts get_tx h s ≡ ok (m.amounts, s)
  unfolding memo_amounts
  memo_known h s m present = rw (present, memo_amounts) refl

  memo_new :
      (h : List ℕ) (s : Memos)
      → find (λ m. same_text m.tx_hash h) s.maps ≡ none
      → memo_amounts get_tx h s ≡ (
          get_tx h >>= λ tx. ok (
            dd_amounts_by_vout tx,
            record { maps = s.maps ++ map_of h tx ∷ []; asked = s.asked ++ h ∷ [] },
          ))
  unfolding memo_amounts
  memo_new h s absent = rw (absent, memo_amounts) refl

  -- A hash that is known is not asked for.
  loop_known :
      (u : Unspent) (us : List Unspent) (s : Memos) (m : DdMap) (tx : VerboseTx)
      → find (λ m. same_text m.tx_hash u.tx_hash) s.maps ≡ some m
      → get_tx u.tx_hash ≡ ok tx
      → m.amounts ≡ dd_amounts_by_vout tx
      → scan_loop get_tx s us ≡ scan_from (hashes s.maps) s.asked us
      → scan_loop get_tx s (u ∷ us) ≡ scan_from (hashes s.maps) s.asked (u ∷ us)
  unfolding scan_loop
  loop_known u us s m tx present fetched says rest =
      rw
        (
          memo_known u.tx_hash s m present,
          fetched,
          firsts_old u.tx_hash (hashes s.maps) (map (λ (u : Unspent). u.tx_hash) us)
              (find-has u.tx_hash s.maps present),
          says,
          rest,
        )
        (elim (Outcome-cases (scan_each us)) [
          | inl (out, done) ↦ rw done refl
          | inr (e, failed) ↦ rw failed refl
        ])

  -- A new one is, and is known from then on.
  loop_new :
      (u : Unspent) (us : List Unspent) (maps : List DdMap) (asked : List (List ℕ)) (tx : VerboseTx)
      → find (λ m. same_text m.tx_hash u.tx_hash) maps ≡ none
      → get_tx u.tx_hash ≡ ok tx
      → scan_loop get_tx
          (record { maps = maps ++ map_of u.tx_hash tx ∷ []; asked = asked ++ u.tx_hash ∷ [] })
          us
        ≡ scan_from (hashes (maps ++ map_of u.tx_hash tx ∷ [])) (asked ++ u.tx_hash ∷ []) us
      → scan_loop get_tx (record { maps = maps; asked = asked }) (u ∷ us)
        ≡ scan_from (hashes maps) asked (u ∷ us)
  unfolding scan_loop
  loop_new u us maps asked tx absent fetched rest =
      let behind = firsts (hashes maps ++ u.tx_hash ∷ []) (map (λ (u : Unspent). u.tx_hash) us) in
      rw
        (
          memo_new u.tx_hash (record { maps = maps; asked = asked }) absent,
          fetched,
          firsts_new u.tx_hash (hashes maps) (map (λ (u : Unspent). u.tx_hash) us)
              (find-has_not u.tx_hash maps absent),
          rest,
          hashes-append maps (map_of u.tx_hash tx),
          append_assoc asked (u.tx_hash ∷ []) behind,
        )
        (elim (Outcome-cases (scan_each us)) [
          | inl (out, done) ↦ rw done refl
          | inr (e, failed) ↦ rw failed refl
        ])

  loop_throws :
      (u : Unspent) (us : List Unspent) (s : Memos) (e : E)
      → find (λ m. same_text m.tx_hash u.tx_hash) s.maps ≡ none
      → get_tx u.tx_hash ≡ throw e
      → scan_loop get_tx s (u ∷ us) ≡ scan_from (hashes s.maps) s.asked (u ∷ us)
  unfolding scan_loop
  loop_throws u us s e absent failed = rw (memo_new u.tx_hash s absent, failed) refl

  scan_loop-each :
      (s : Memos) (us : List Unspent)
      → All IsMemo s.maps
      → scan_loop get_tx s us ≡ scan_from (hashes s.maps) s.asked us
  unfolding scan_loop
  scan_loop-each s [] h = ap (λ t. ok ([], t)) (sym (append-nil s.asked))
  scan_loop-each s (u ∷ us) h =
      elim (Option-cases (find (λ m. same_text m.tx_hash u.tx_hash) s.maps)) [
        | inr (m, present) ↦
            let (there, same) = find-In (λ m. same_text m.tx_hash u.tx_hash) s.maps present in
            let (tx, fetched, says) = All-In IsMemo m s.maps h there in
            let fetched' : get_tx u.tx_hash ≡ ok tx =
              ap get_tx (sym (same_text-eq m.tx_hash u.tx_hash same)) ∙ fetched in
            loop_known u us s m tx present fetched' says (scan_loop-each s us h)
        | inl absent ↦ elim (Outcome-cases (get_tx u.tx_hash)) [
          | inl (tx, fetched) ↦ loop_new u us s.maps s.asked tx absent fetched (
              scan_loop-each
                (record {
                  maps = s.maps ++ map_of u.tx_hash tx ∷ [];
                  asked = s.asked ++ u.tx_hash ∷ [];
                })
                us (All-append IsMemo s.maps _ h ((tx, fetched, refl), tt)))
          | inr (e, failed) ↦ loop_throws u us s e absent failed
        ]
      ]

  -- `scanDDUtxos` returns, or throws, what a scan does that reads the transaction of every
  -- output again, of those without a value; and when it returns, it has asked for the
  -- transactions of the hashes of those outputs and of no others, and for none of them twice.
  pub scan_dd_utxos-each :
      (unspent : List Unspent)
      → let zeros = filter (λ (u : Unspent). u.value_sats == 0) unspent in
        (asked : List (List ℕ)) × (scan_dd_utxos get_tx unspent
          ≡ (scan_each zeros >>= λ out. ok (out, asked)))
        × IsOnce asked
        × ((h : List ℕ) → In h asked ↔ In h (map (λ (u : Unspent). u.tx_hash) zeros))
  unfolding scan_dd_utxos
  scan_dd_utxos-each unspent =
      let zeros = filter (λ (u : Unspent). u.value_sats == 0) unspent in
      let hs = map (λ (u : Unspent). u.tx_hash) zeros in
      (
        firsts [] hs,
        scan_loop-each (record { maps = []; asked = [] }) zeros tt,
        firsts-IsOnce [] hs,
        λ h. firsts_iff h hs,
      )
