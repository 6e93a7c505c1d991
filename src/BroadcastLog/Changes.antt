-- ===== src/BroadcastLog/Changes.antt =====
-- What the operations of the log do to its entries.
use diginaut_wallet.Prelude.{
  ℕ, ◌≤◌, ◌≡◌, refl, ap, ◌∙◌, List, [], ◌∷◌, map, Bool, true, not, Option, none, some,
  if◌then◌else◌, length, filter, find, All, All-filter, Bool-cases, Option-cases, inl, inr, arith,
}
use mathlib.Core.Option
use diginaut_wallet.Text.{lower_letter, same_text, same_text_refl, same_text-eq, same_text-sym}
use diginaut_wallet.Coins.Sorting.Laws.{IsSorted, filter-IsSorted}
use diginaut_wallet.BroadcastLog.{
  Raw, Entry, normalize, LogStorage, read_log, write_log, get_entry, without, record_entry,
  drop_entry, change_first, mutate, marked, mark_ambiguous, max_records, states, one_of,
}
use diginaut_wallet.BroadcastLog.Laws.{
  IsClean, IsFresh, IsKept, IsNotOlder, read_log_lem, read-write, normalize-IsClean, take-all,
  lower_digits,
}

abbrev has_id : List ℕ → Entry → Bool
has_id k e = same_text e.txid k

find-without :
    (key k : List ℕ) (es : List Entry)
    → find (has_id k) (without key es) ≡ (if same_text k key then none else find (has_id k) es)
find-without key k [] = ground arith
find-without key k (e ∷ es) = ground (
  arith,
  find-without key k es,
  same_text-eq e.txid key,
  same_text-eq e.txid k,
  same_text-sym k key,
)

find-change_first :
    (key k : List ℕ) (f : Entry → Entry) (es : List Entry)
    → ((e : Entry) → (f e).txid ≡ e.txid)
    → find (has_id k) (change_first key f es)
      ≡ (if same_text k key then Option.map f (find (has_id k) es) else find (has_id k) es)
unfolding change_first
find-change_first key k f [] h = ground arith
find-change_first key k f (e ∷ es) h = ground (
  arith,
  find-change_first key k f es h,
  h e,
  same_text-eq e.txid key,
  same_text-eq e.txid k,
  same_text-sym k key,
)

module _ (key : List ℕ) (f : Entry → Entry) where
  change_first-All :
      (P : Entry → Type 0) (es : List Entry)
      → ((e : Entry) → P e → P (f e))
      → All P es
      → All P (change_first key f es)
  unfolding change_first
  change_first-All P [] h k = tt
  change_first-All P (e ∷ es) h k = elim (Bool-cases (same_text e.txid key)) [
    | inl hit ↦ rw (hit, All) (h e k.0, k.1)
    | inr miss ↦ rw (miss, All) (k.0, change_first-All P es h k.1)
  ]

  change_first-IsSorted :
      (es : List Entry)
      → ((e : Entry) → (f e).at ≡ e.at)
      → IsSorted IsNotOlder es
      → IsSorted IsNotOlder (change_first key f es)
  unfolding change_first
  change_first-IsSorted [] h k = tt
  change_first-IsSorted (e ∷ es) h k = elim (Bool-cases (same_text e.txid key)) [
    | inl hit ↦ rw (hit, IsSorted) (rw (h e) k.0, k.1)
    | inr miss ↦
        rw (miss, IsSorted)
          (
            change_first-All (IsNotOlder e) es (λ x q. rw (h x) q) k.0,
            change_first-IsSorted es h k.1,
          )
  ]

  length-change_first : (es : List Entry) → length (change_first key f es) ≡ length es
  unfolding change_first
  length-change_first [] = refl
  length-change_first (e ∷ es) = ground (arith, length-change_first es)

marked-IsKept :
    (now : ℕ) (message : Option (List ℕ)) (e : Entry) → IsKept now e → IsKept now (marked message e)
unfolding one_of states same_text
marked-IsKept now message e (clean, fresh) = (
  record {
    id = clean.id;
    bytes = clean.bytes;
    known_kind = clean.known_kind;
    known_chain = clean.known_chain;
    known_state = refl;
    tried = omega arith;
  },
  fresh,
)

length-filter_le : (p : Entry → Bool) (es : List Entry) → length (filter p es) ≤ length es
length-filter_le p [] = omega arith
length-filter_le p (e ∷ es) = ground (arith, length-filter_le p es)

lower_id : (e : Entry) → IsClean e → map lower_letter e.txid ≡ e.txid
lower_id e clean = lower_digits e.txid (ground (arith, clean.id))

none_missing :
    (k key : List ℕ) (es : List Entry) (f : Entry → Entry)
    → find (has_id key) es ≡ none
    → find (has_id k) es
      ≡ (if same_text k key then Option.map f (find (has_id k) es) else find (has_id k) es)
none_missing k key es f missing = ground (arith, same_text-eq k key)

module _ (now : ℕ) (st : LogStorage) (r : st.readable ≡ true) (w : st.writable ≡ true) where
  read_back :
      (es : List Entry)
      → All (IsKept now) es
      → IsSorted IsNotOlder es
      → length es ≤ max_records
      → read_log now (write_log es st) ≡ es
  read_back es kept sorted short =
      read-write now st es r w kept sorted ∙ take-all max_records es short

  -- With a storage that works, a transaction that is dropped is not found any more, at the same
  -- time, and every other one is found as before.
  pub get_entry-drop_entry :
      (txid other : List ℕ)
      → get_entry other now (drop_entry txid now st) ≡ (
          if same_text (map lower_letter other) (map lower_letter txid)
          then none
          else get_entry other now st)
  unfolding get_entry drop_entry
  get_entry-drop_entry txid other =
      let key = map lower_letter txid in
      let before = read_log now st in
      let (short, sorted, kept) = read_log_lem now st in
      let p : Entry → Bool = λ e. not (same_text e.txid key) in
      ap (find (has_id (map lower_letter other))) (
        read_back (without key before) (All-filter p (IsKept now) before kept)
          (filter-IsSorted IsNotOlder p before sorted)
          (omega (arith, length-filter_le p before, short)))
      ∙ find-without key (map lower_letter other) before

  read_log-change_first :
      (key : List ℕ) (message : Option (List ℕ))
      → read_log now (write_log (change_first key (marked message) (read_log now st)) st)
        ≡ change_first key (marked message) (read_log now st)
  read_log-change_first key message =
      let before = read_log now st in
      let (short, sorted, kept) = read_log_lem now st in
      read_back (change_first key (marked message) before)
        (change_first-All key (marked message) (IsKept now) before (marked-IsKept now message) kept)
        (change_first-IsSorted key (marked message) before (λ x. refl) sorted)
        (omega (arith, length-change_first key (marked message) before, short))

  -- With a storage that works, marking a transaction as ambiguous keeps its entry, with the state,
  -- the message and one more attempt, and every other entry is found as before. A transaction that
  -- is not in the log gets no entry.
  pub get_entry-mark_ambiguous :
      (txid other : List ℕ) (message : Option (List ℕ))
      → let (found, after) = mark_ambiguous txid message now st in
        (found ≡ Option.map (marked message) (get_entry txid now st))
        × (get_entry other now after ≡ (
            if same_text (map lower_letter other) (map lower_letter txid)
            then Option.map (marked message) (get_entry other now st)
            else get_entry other now st))
  unfolding mark_ambiguous mutate get_entry
  get_entry-mark_ambiguous txid other message =
      let key = map lower_letter txid in
      let before = read_log now st in
      elim (Option-cases (find (has_id key) before)) [
        | inl missing ↦
            rw (missing, mutate)
              (refl, none_missing (map lower_letter other) key before (marked message) missing)
        | inr (e, hit) ↦
            rw (hit, mutate)
              (
                refl,
                ap (find (has_id (map lower_letter other))) (read_log-change_first key message)
                    ∙ find-change_first key (map lower_letter other) (marked message) before
                        (λ x. refl),
              )
      ]

  -- With a storage that works, a usable record of a transaction is found as it was recorded, if it
  -- is not older than 30 days and no entry of the list is newer.
  pub get_entry-record_entry :
      (raw : Raw) (clean : Entry)
      → normalize now raw ≡ some clean
      → IsFresh now clean
      → All (IsNotOlder clean) (read_log now st)
      → let (recorded, after) = record_entry raw now st in
        (recorded ≡ some clean) × (get_entry clean.txid now after ≡ some clean)
  unfolding record_entry get_entry
  get_entry-record_entry raw clean usable fresh newest =
      let before = read_log now st in
      let (short, sorted, kept) = read_log_lem now st in
      let p : Entry → Bool = λ e. not (same_text e.txid clean.txid) in
      let id = lower_id clean (normalize-IsClean now raw clean usable) in
      rw (usable, record_entry)
        (
          refl,
          ap (find (has_id (map lower_letter clean.txid))) (
                read-write now st (clean ∷ without clean.txid before) r w
                  (
                    (normalize-IsClean now raw clean usable, fresh),
                    All-filter p (IsKept now) before kept,
                  )
                  (
                    All-filter p (IsNotOlder clean) before newest,
                    filter-IsSorted IsNotOlder p before sorted,
                  ))
              ∙ rw id (rw (same_text_refl clean.txid)),
        )
