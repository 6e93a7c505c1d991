-- ===== src/BroadcastLog/Laws.antt =====
-- What the log keeps and what it forgets.
use diginaut_wallet.Prelude.{
  ℕ, ◌+◌, ◌≤◌, ◌<◌, ◌≡◌, refl, sym, ap, ◌∙◌, List, [], ◌∷◌, ◌++◌, map, true, false, ◌&&◌, Option,
  none, some, leb, length, take, In, All-In, zero, suc, All, Bool-cases, inl, inr, arith,
  append-nil, append_assoc, leb→le, le→leb,
}
use diginaut_wallet.Text.{lower_letter, same_text}
use diginaut_wallet.Coins.Sorting.{sort, sort_onto, insert_before}
use diginaut_wallet.Coins.Sorting.Laws.{IsSorted, In-sort, sort-IsSorted}
use diginaut_wallet.BroadcastLog.{
  Raw, Entry, to_raw, all_digits, is_txid, is_hex, one_of, kinds, chains, states, send, testnet,
  pending, known_or, coerced, normalize, LogStorage, with_fresh, usable, newer, read_array,
  read_log, write_log, max_records, max_age_ms,
}

-- An entry as `normalize` leaves it.
pub record IsClean (e : Entry) : Type 0 where
  pub id : is_txid e.txid ≡ true
  pub bytes : is_hex e.hex ≡ true
  pub known_kind : one_of e.kind kinds ≡ true
  pub known_chain : one_of e.chain chains ≡ true
  pub known_state : one_of e.state states ≡ true
  pub tried : 0 < e.attempts

abbrev pub IsFresh : ℕ → Entry → Type 0
IsFresh now e = now ≤ e.at + max_age_ms

abbrev pub IsNotOlder : Entry → Entry → Type 0
IsNotOlder a b = b.at ≤ a.at

pub lower_digits : (s : List ℕ) → all_digits s ≡ true → map lower_letter s ≡ s
unfolding all_digits lower_letter
lower_digits [] h = refl
lower_digits (c ∷ cs) h = ground (arith, lower_digits cs)

known_or-one_of :
    (s fallback : List ℕ) (known : List (List ℕ))
    → one_of fallback known ≡ true
    → one_of (known_or s known fallback) known ≡ true
known_or-one_of s fallback known h = ground arith

send_known : one_of send kinds ≡ true
unfolding one_of kinds
send_known = refl

testnet_known : one_of testnet chains ≡ true
unfolding one_of chains same_text
testnet_known = refl

pending_known : one_of pending states ≡ true
unfolding one_of states
pending_known = refl

coerced-IsClean :
    (now : ℕ) (r : Raw)
    → (is_txid (map lower_letter r.txid) && is_hex r.hex) ≡ true
    → IsClean (coerced now r)
coerced-IsClean now r h = record {
  id = ground arith;
  bytes = ground arith;
  known_kind = known_or-one_of r.kind send kinds send_known;
  known_chain = known_or-one_of r.chain testnet chains testnet_known;
  known_state = known_or-one_of r.state pending states pending_known;
  tried = ground arith;
}

pub normalize-IsClean : (now : ℕ) (r : Raw) (e : Entry) → normalize now r ≡ some e → IsClean e
unfolding normalize
normalize-IsClean now r e h =
    elim (Bool-cases (is_txid (map lower_letter r.txid) && is_hex r.hex)) [
      | inr refused ↦ absurd (ground arith)
      | inl accepted ↦
          let is : coerced now r ≡ e = ground arith in rw (sym is) (coerced-IsClean now r accepted)
    ]

-- What was normalized once reads back as it is.
normalize-to_raw : (now : ℕ) (e : Entry) → IsClean e → normalize now (to_raw e) ≡ some e
unfolding normalize
normalize-to_raw now e clean = ground (arith, lower_digits e.txid)

abbrev pub IsKept : ℕ → Entry → Type 0
IsKept now e = IsClean e × IsFresh now e

with_fresh-IsKept :
    (now : ℕ) (o : Option Entry) (rest : List Entry)
    → ((e : Entry) → o ≡ some e → IsClean e)
    → All (IsKept now) rest
    → All (IsKept now) (with_fresh now o rest)
with_fresh-IsKept now none rest clean h = h
with_fresh-IsKept now (some e) rest clean h = elim (Bool-cases (leb now (e.at + max_age_ms))) [
  | inl fresh ↦ rw fresh ((clean e refl, leb→le _ _ fresh), h)
  | inr old ↦ rw old h
]

usable-IsKept : (now : ℕ) (rs : List Raw) → All (IsKept now) (usable now rs)
unfolding usable
usable-IsKept now [] = tt
usable-IsKept now (r ∷ rs) =
    with_fresh-IsKept now (normalize now r) (usable now rs) (normalize-IsClean now r)
      (usable-IsKept now rs)

usable-to_raw : (now : ℕ) (es : List Entry) → All (IsKept now) es → usable now (map to_raw es) ≡ es
unfolding usable
usable-to_raw now [] h = refl
usable-to_raw now (e ∷ es) h =
    ap (λ o. with_fresh now o (usable now (map to_raw es))) (normalize-to_raw now e h.0.0)
    ∙ rw (le→leb _ _ h.0.1) (ap (λ l. e ∷ l) (usable-to_raw now es h.1))

insert_last :
    (e : Entry) (acc : List Entry)
    → All (λ a. IsNotOlder a e) acc
    → insert_before newer e acc ≡ acc ++ e ∷ []
unfolding insert_before newer
insert_last e [] h = refl
insert_last e (a ∷ acc) h = ground (arith, insert_last e acc)

All-at : (P : Entry → Type 0) (acc es : List Entry) (e : Entry) → All P (acc ++ e ∷ es) → P e
All-at P [] es e h = h.0
All-at P (a ∷ acc) es e h = All-at P acc es e h.1

All-last :
    (acc es : List Entry) (e : Entry)
    → IsSorted IsNotOlder (acc ++ e ∷ es)
    → All (λ a. IsNotOlder a e) acc
All-last [] es e h = tt
All-last (a ∷ acc) es e h = (All-at (IsNotOlder a) acc es e h.0, All-last acc es e h.1)

sort_onto-append :
    (acc es : List Entry) → IsSorted IsNotOlder (acc ++ es) → sort_onto newer acc es ≡ acc ++ es
unfolding sort_onto
sort_onto-append acc [] h = rw append-nil
sort_onto-append acc (e ∷ es) h =
    rw (insert_last e acc (All-last acc es e h))
      (sort_onto-append (acc ++ e ∷ []) es (rw append_assoc h) ∙ append_assoc acc (e ∷ []) es)

sort-sorted : (es : List Entry) → IsSorted IsNotOlder es → sort newer es ≡ es
unfolding sort
sort-sorted es h = sort_onto-append [] es h

module _ {A : Type 0} where
  length-take : (n : ℕ) (xs : List A) → length (take n xs) ≤ n
  length-take zero xs = omega arith
  length-take (suc n) [] = omega arith
  length-take (suc n) (x ∷ xs) = omega (arith, length-take n xs)

  pub take-all : (n : ℕ) (xs : List A) → length xs ≤ n → take n xs ≡ xs
  take-all zero [] h = refl
  take-all zero (x ∷ xs) h = absurd (omega arith)
  take-all (suc n) [] h = refl
  take-all (suc n) (x ∷ xs) h = ap (λ l. x ∷ l) (take-all n xs (omega arith))

  All-take : (P : A → Type 0) (n : ℕ) (xs : List A) → All P xs → All P (take n xs)
  All-take P zero xs h = tt
  All-take P (suc n) [] h = tt
  All-take P (suc n) (x ∷ xs) h = (h.0, All-take P n xs h.1)

  take-IsSorted :
      (R : A → A → Type 0) (n : ℕ) (xs : List A) → IsSorted R xs → IsSorted R (take n xs)
  take-IsSorted R zero xs h = tt
  take-IsSorted R (suc n) [] h = tt
  take-IsSorted R (suc n) (x ∷ xs) h = (All-take (R x) n xs h.0, take-IsSorted R n xs h.1)

  In-All : (P : A → Type 0) (xs : List A) → ((d : A) → In d xs → P d) → All P xs
  In-All P [] h = tt
  In-All P (x ∷ xs) h = (h x (inl refl), In-All P xs (λ d i. h d (inr i)))

newer-true : (x y : Entry) → newer x y ≡ true → IsNotOlder x y
unfolding newer
newer-true x y h = ground arith

newer-false : (x y : Entry) → newer x y ≡ false → IsNotOlder y x
unfolding newer
newer-false x y h = ground arith

-- Whatever the storage holds, the list has at most 20 entries, the newest first, and each is not
-- older than 30 days, with a transaction id and a transaction in lower case hexadecimal, a kind, a
-- chain and a state that are known, and at least one attempt.
pub read_log_lem :
    (now : ℕ) (st : LogStorage)
    → (length (read_log now st) ≤ max_records)
      × IsSorted IsNotOlder (read_log now st)
      × All (IsKept now) (read_log now st)
unfolding read_log
read_log_lem now st =
    let all = usable now (read_array st) in
    (
      length-take max_records (sort newer all),
      take-IsSorted IsNotOlder max_records (sort newer all)
          (sort-IsSorted newer IsNotOlder newer-true newer-false (λ x y z h k. omega arith) all),
      All-take (IsKept now) max_records (sort newer all) (
          In-All (IsKept now) (sort newer all) (λ d i.
            All-In (IsKept now) d all (usable-IsKept now (read_array st)) (In-sort newer d all i))),
    )

-- What is written is read back, as far as there is room.
pub read-write :
    (now : ℕ) (st : LogStorage) (es : List Entry)
    → st.readable ≡ true
    → st.writable ≡ true
    → All (IsKept now) es
    → IsSorted IsNotOlder es
    → read_log now (write_log es st) ≡ take max_records es
unfolding read_log write_log read_array
read-write now st es r w kept sorted =
    let front = take max_records es in
    rw w (
      rw r (
        ap (λ l. take max_records (sort newer l))
          (usable-to_raw now front (All-take (IsKept now) max_records es kept))
        ∙ ap (take max_records) (sort-sorted front (take-IsSorted IsNotOlder max_records es sorted))
        ∙ take-all max_records front (length-take max_records es)))
