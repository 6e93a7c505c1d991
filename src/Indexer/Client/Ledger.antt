-- ===== src/Indexer/Client/Ledger.antt =====
-- The requests that were written and their replies, over every sequence of events.
use diginaut_wallet.Prelude.{
  ℕ, ◌+◌, ◌<◌, ◌≤◌, ◌≡◌, refl, subst, ◌∙◌, List, [], ◌∷◌, arith, false, ◌==◌, if◌then◌else◌, none,
  some, ok, >>=_returned, ok-injective, Bool-cases, Option-cases, inl, inr,
}
use native.Mathlib.Nat.{le_refl}
use diginaut_wallet.Indexer.Client.{
  Client, Parsed, settle, has_request, connect, send_request, time_out, fail, Event, connects,
  sends, timer, fails, arrives, step, run, new_client, timed_out,
}
use diginaut_wallet.Indexer.Client.Counts.{
  times-delete_request, Kept-refl, fail-Kept, replies-append, times-append, connect-Kept, Kept,
  times, total, data_event-Kept, settle-Kept, replies,
}

times-has_request : (id : ℕ) (xs : List ℕ) → has_request id xs ≡ false → times id xs ≡ 0
unfolding times has_request
times-has_request id [] h = refl
times-has_request id (x ∷ xs) h = ground (arith, times-has_request id xs)

-- Behind the timer a request that was made once is among the replies.
timer_last : (id : ℕ) (c : Client) → total id c ≡ 1 → replies id (time_out id c).settled ≡ 1
unfolding time_out settle total replies
timer_last id c one = elim (Bool-cases (has_request id c.pending)) [
  | inl there ↦
      rw (there, if◌then◌else◌)
        (ground (
          arith,
          one,
          replies-append id c.settled (record { id = id; how = timed_out } ∷ []),
          times-delete_request id id c.pending there,
        ))
  | inr absent ↦
      rw (absent, if◌then◌else◌) (omega (arith, one, times-has_request id c.pending absent))
]

-- No request stands twice among the pending ones and the replies, and none has an id to come.
pub record IsLedger (c : Client) : Type 0 where
  pub once : (id : ℕ) → total id c ≤ 1
  pub fresh : (id : ℕ) → c.next_id ≤ id → total id c ≡ 0

-- What a step may do to the ids that were spent before it.
pub record Grown (c c' : Client) : Type 0 where
  pub valid : IsLedger c'
  pub kept : (id : ℕ) → id < c.next_id → total id c' ≡ total id c
  pub spent : c.next_id ≤ c'.next_id

Kept-Grown : (c c' : Client) → Kept c c' → IsLedger c → Grown c c'
Kept-Grown c c' k v = record {
  valid = record {
    once = λ id. omega (arith, k.all id, v.once id);
    fresh = λ id later. omega (arith, k.all id, k.next, v.fresh id);
  };
  kept = λ id before. k.all id;
  spent = omega (arith, k.next);
}

total-sent :
    (id s : ℕ) (c : Client)
    → c.sock ≡ some s
    → total id (send_request c) ≡ total id c + (if c.next_id == id then 1 else 0)
unfolding total send_request times
total-sent id s c e =
    rw (e, send_request) (omega (arith, times-append id c.pending (c.next_id ∷ [])))

next-send_request : (c : Client) → (send_request c).next_id ≡ c.next_id + 1
unfolding send_request
next-send_request c = elim (Option-cases c.sock) [
  | inl e ↦ rw (e, send_request) refl
  | inr (s, e) ↦ rw (e, send_request) refl
]

total-not_sent : (id : ℕ) (c : Client) → c.sock ≡ none → total id (send_request c) ≡ total id c
unfolding total send_request
total-not_sent id c e = rw (e, send_request) refl

send_request-Grown : (c : Client) → IsLedger c → Grown c (send_request c)
send_request-Grown c v = elim (Option-cases c.sock) [
  | inl e ↦ record {
    valid = record {
      once = λ id. omega (arith, total-not_sent id c e, v.once id);
      fresh = λ id later. omega (arith, total-not_sent id c e, next-send_request c, v.fresh id);
    };
    kept = λ id before. total-not_sent id c e;
    spent = omega (arith, next-send_request c);
  }
  | inr (s, e) ↦ record {
    valid = record {
      once = λ id. ground (arith, total-sent id s c e, v.once id, v.fresh id);
      fresh = λ id later. ground (arith, total-sent id s c e, next-send_request c, v.fresh id);
    };
    kept = λ id before. ground (arith, total-sent id s c e);
    spent = omega (arith, next-send_request c);
  }
]

new_client-IsLedger : IsLedger new_client
unfolding new_client total times replies
new_client-IsLedger = record { once = λ id. omega arith; fresh = λ id later. refl }

Grown-Grown : (a b c : Client) → Grown a b → Grown b c → Grown a c
Grown-Grown a b c g h = record {
  valid = h.valid;
  kept = λ id before. h.kept id (omega (arith, g.spent)) ∙ g.kept id before;
  spent = omega (arith, g.spent, h.spent);
}

module _ (to_text : List ℕ → List ℕ) (parse : List ℕ → Parsed) where
  step-Grown :
      (e : Event) (c c' : Client) → IsLedger c → step to_text parse e c ≡ ok c' → Grown c c'
  unfolding step time_out
  step-Grown connects c c' v h =
      subst (Grown c) (ok-injective h) (Kept-Grown c (connect c) (connect-Kept c) v)
  step-Grown sends c c' v h = subst (Grown c) (ok-injective h) (send_request-Grown c v)
  step-Grown (timer id) c c' v h =
      subst (Grown c) (ok-injective h)
        (Kept-Grown c (settle id timed_out c) (settle-Kept id timed_out c) v)
  step-Grown (fails s) c c' v h =
      subst (Grown c) (ok-injective h) (Kept-Grown c (fail s c) (fail-Kept s c) v)
  step-Grown (arrives s d) c c' v h = Kept-Grown c c' (data_event-Kept to_text parse s d c c' h) v

  pub run-Grown :
      (es : List Event) (c c' : Client) → IsLedger c → run to_text parse es c ≡ ok c' → Grown c c'
  unfolding run
  run-Grown [] c c' v h = subst (Grown c) (ok-injective h) (Kept-Grown c c (Kept-refl c) v)
  run-Grown (e ∷ es) c c' v h =
      let (d, rest, first) = >>=_returned _ (step to_text parse e c) h in
      let g = step-Grown e c d v first in Grown-Grown c d c' g (run-Grown es d c' g.valid rest)

  -- After any events without a crash, no id stands more than once among the pending requests
  -- and the replies together, and none that is still to be given stands there.
  pub run-IsLedger :
      (es : List Event) {c : Client} → run to_text parse es new_client ≡ ok c → IsLedger c
  run-IsLedger es {c} h = (run-Grown es new_client c new_client-IsLedger h).valid

  -- After any events without a crash, for a request that is sent on a socket: whatever events
  -- follow without a crash, behind its timer the request has been settled exactly once.
  pub timer-settles :
      (before later : List Event) (s : ℕ) {c c' : Client}
      → run to_text parse before new_client ≡ ok c
      → c.sock ≡ some s
      → run to_text parse later (send_request c) ≡ ok c'
      → replies c.next_id (time_out c.next_id c').settled ≡ 1
  timer-settles before later s {c} {c'} h open_ h' =
      let v = run-IsLedger before h in
      let g = run-Grown later (send_request c) c' (send_request-Grown c v).valid h' in
      let sent : total c.next_id (send_request c) ≡ 1 =
        ground (arith, total-sent c.next_id s c open_, v.fresh c.next_id (le_refl _)) in
      let still : total c.next_id c' ≡ 1 =
        g.kept c.next_id (omega (arith, next-send_request c)) ∙ sent in
      timer_last c.next_id c' still
