-- ===== src/Indexer/Client/Counts.antt =====
-- How often a request stands among the pending ones and the replies: only `#send` changes it.
use diginaut_wallet.Prelude.{
  ℕ, zero, suc, ◌+◌, ◌≡◌, refl, sym, subst, ◌∙◌, List, [], ◌∷◌, ◌++◌, map, arith, true, ◌==◌,
  if◌then◌else◌, none, some, Outcome, ok, ◌>>=◌, >>=_returned, ok-injective, ltb, Bool-cases,
  Option-cases, inl, inr,
}
use diginaut_wallet.Indexer.Frames.{next_frame, push_chunk, no_frames, max_electrum_frame}
use diginaut_wallet.Indexer.Client.{
  Client, Reply, How, Crash, Parsed, not_json, null_value, message, settle, has_request,
  delete_request, reject_all, connect, fail, overflow, is_current, receive, dispatch, read_frames,
  on_data, data_event, is_blank_line, refused, resolved, closed, overflowed,
}

-- How often an id stands among the pending requests, and among the replies.
unfoldable pub times : ℕ → List ℕ → ℕ
times id [] = 0
times id (x ∷ xs) = (if x == id then 1 else 0) + times id xs

unfoldable pub replies : ℕ → List Reply → ℕ
replies id [] = 0
replies id (r ∷ rs) = (if r.id == id then 1 else 0) + replies id rs

unfoldable pub total : ℕ → Client → ℕ
total id c = times id c.pending + replies id c.settled

module _ (id : ℕ) where
  pub times-append : (xs ys : List ℕ) → times id (xs ++ ys) ≡ times id xs + times id ys
  unfolding times
  times-append [] ys = omega arith
  times-append (x ∷ xs) ys = omega (arith, times-append xs ys)

  pub replies-append : (rs ss : List Reply) → replies id (rs ++ ss) ≡ replies id rs + replies id ss
  unfolding replies
  replies-append [] ss = omega arith
  replies-append (r ∷ rs) ss = omega (arith, replies-append rs ss)

  replies-map :
      (how : How) (xs : List ℕ)
      → replies id (map (λ x. record { id = x; how = how }) xs) ≡ times id xs
  unfolding replies times
  replies-map how [] = refl
  replies-map how (x ∷ xs) = omega (arith, replies-map how xs)

  pub times-delete_request :
      (j : ℕ) (xs : List ℕ)
      → has_request j xs ≡ true
      → times id xs ≡ (if j == id then 1 else 0) + times id (delete_request j xs)
  unfolding times has_request delete_request
  times-delete_request j [] h = cc
  times-delete_request j (x ∷ xs) h = ground (arith, times-delete_request j xs)

  -- Requests are moved to the replies, and none is lost or made.
  total-settle : (j : ℕ) (how : How) (c : Client) → total id (settle j how c) ≡ total id c
  unfolding total settle replies
  total-settle j how c = elim (Bool-cases (has_request j c.pending)) [
    | inl there ↦
        rw (there, if◌then◌else◌)
          (omega (
            arith,
            replies-append c.settled (record { id = j; how = how } ∷ []),
            times-delete_request j c.pending there,
          ))
    | inr absent ↦ rw (absent, if◌then◌else◌) refl
  ]

  total-reject_all : (how : How) (c : Client) → total id (reject_all how c) ≡ total id c
  unfolding total reject_all times
  total-reject_all how c = omega (
    arith,
    replies-append c.settled (map (λ x. record { id = x; how = how }) c.pending),
    replies-map how c.pending,
  )

-- No request is lost or made, and no id is spent.
pub record Kept (c c' : Client) : Type 0 where
  pub all : (id : ℕ) → total id c' ≡ total id c
  pub next : c'.next_id ≡ c.next_id

pub Kept-refl : (c : Client) → Kept c c
Kept-refl c = record { all = λ id. refl; next = refl }

Kept-trans : (a b c : Client) → Kept a b → Kept b c → Kept a c
Kept-trans a b c h k = record { all = λ id. k.all id ∙ h.all id; next = k.next ∙ h.next }

pub connect-Kept : (c : Client) → Kept c (connect c)
unfolding connect total
connect-Kept c = elim (Option-cases c.sock) [
  | inl e ↦ record { all = λ id. rw (e, connect) refl; next = rw (e, connect) refl }
  | inr (s, e) ↦ record { all = λ id. rw (e, connect) refl; next = rw (e, connect) refl }
]

pub settle-Kept : (j : ℕ) (how : How) (c : Client) → Kept c (settle j how c)
unfolding settle
settle-Kept j how c = record { all = λ id. total-settle id j how c; next = ground arith }

reject_all-Kept : (how : How) (c : Client) → Kept c (reject_all how c)
unfolding reject_all
reject_all-Kept how c = record { all = λ id. total-reject_all id how c; next = refl }

-- Frames and sockets are no requests.
apart :
    (c c' : Client)
    → c'.pending ≡ c.pending
    → c'.settled ≡ c.settled
    → c'.next_id ≡ c.next_id
    → Kept c c'
unfolding total
apart c c' p s n = record { all = λ id. rw (p, s) refl; next = n }

pub fail-Kept : (s : ℕ) (c : Client) → Kept c (fail s c)
unfolding fail
fail-Kept s c = elim (Bool-cases (is_current s c.sock)) [
  | inl e ↦
      rw (e, if◌then◌else◌)
        (Kept-trans c _ _ (apart c (record c { sock = none; frames = no_frames }) refl refl refl)
          (reject_all-Kept closed (record c { sock = none; frames = no_frames })))
  | inr e ↦ rw (e, if◌then◌else◌) (Kept-refl c)
]

overflow-Kept : (c : Client) → Kept c (overflow c)
unfolding overflow
overflow-Kept c =
    Kept-trans c _ _ (apart c (record c { sock = none; frames = no_frames }) refl refl refl)
      (reject_all-Kept overflowed (record c { sock = none; frames = no_frames }))

receive-Kept : (p : Parsed) (c c' : Client) → receive p c ≡ ok c' → Kept c c'
unfolding receive
receive-Kept not_json c c' h = subst (Kept c) (ok-injective h) (Kept-refl c)
receive-Kept null_value c c' h = cc
receive-Kept (message none failed) c c' h = subst (Kept c) (ok-injective h) (Kept-refl c)
receive-Kept (message (some id) failed) c c' h =
    subst (Kept c) (ok-injective h) (settle-Kept id (if failed then refused else resolved) c)

module _ (to_text : List ℕ → List ℕ) (parse : List ℕ → Parsed) where
  dispatch-Kept :
      (line : List ℕ) (c c' : Client) → dispatch to_text parse line c ≡ ok c' → Kept c c'
  unfolding dispatch
  dispatch-Kept line c c' h = elim (Bool-cases (is_blank_line (to_text line))) [
    | inl e ↦ subst (Kept c) (ok-injective (rw e at h)) (Kept-refl c)
    | inr e ↦ receive-Kept (parse (to_text line)) c c' (rw e at h)
  ]

  -- One round of the loop, by what the assembler gives.
  module _ (rounds : ℕ) (c : Client) where
    reframed : Client
    reframed = record c { frames = (next_frame c.frames).1 }

    round_ends :
        (next_frame c.frames).0 ≡ none → read_frames to_text parse (suc rounds) c ≡ ok reframed
    unfolding read_frames reframed
    round_ends e = rw (e, read_frames) refl

    round_goes_on :
        (line : List ℕ)
        → (next_frame c.frames).0 ≡ some line
        → read_frames to_text parse (suc rounds) c
          ≡ (dispatch to_text parse line reframed >>= read_frames to_text parse rounds)
    unfolding read_frames reframed
    round_goes_on line e = rw (e, read_frames) refl

    reframed-Kept : Kept c reframed
    unfolding reframed
    reframed-Kept = apart c (record c { frames = (next_frame c.frames).1 }) refl refl refl

  read_frames-Kept :
      (rounds : ℕ) (c c' : Client) → read_frames to_text parse rounds c ≡ ok c' → Kept c c'
  unfolding read_frames
  read_frames-Kept zero c c' h = subst (Kept c) (ok-injective h) (Kept-refl c)
  read_frames-Kept (suc rounds) c c' h = elim (Option-cases (next_frame c.frames).0) [
    | inl e ↦
        subst (Kept c) (ok-injective (sym (round_ends rounds c e) ∙ h)) (reframed-Kept rounds c)
    | inr (line, e) ↦
        let (d, rest, first) =
          >>=_returned _ (dispatch to_text parse line (reframed rounds c))
            (sym (round_goes_on rounds c line e) ∙ h) in
        Kept-trans c (reframed rounds c) c' (reframed-Kept rounds c) (
          Kept-trans (reframed rounds c) d c' (dispatch-Kept line (reframed rounds c) d first)
            (read_frames-Kept rounds d c' rest))
  ]

  pub data_event-Kept :
      (s : ℕ) (d : List ℕ) (c c' : Client) → data_event to_text parse s d c ≡ ok c' → Kept c c'
  unfolding data_event on_data
  data_event-Kept s d c c' h =
      let a = push_chunk d c.frames in
      elim (Bool-cases (is_current s c.sock)) [
        | inr e ↦ subst (Kept c) (ok-injective (rw e at h)) (Kept-refl c)
        | inl e ↦ elim (Bool-cases (ltb max_electrum_frame a.chunks_length)) [
          | inl beyond ↦
              let h' : ◌≡◌ {A = Outcome Crash Client} (ok (overflow (record c { frames = a })))
                  (ok c') =
                ground (arith, e, beyond, h) in
              subst (Kept c) (ok-injective h') (
                Kept-trans c (record c { frames = a }) _
                  (apart c (record c { frames = a }) refl refl refl)
                  (overflow-Kept (record c { frames = a })))
          | inr within ↦
              Kept-trans c (record c { frames = a }) c'
                (apart c (record c { frames = a }) refl refl refl)
                (read_frames-Kept (a.chunks_length + 1) (record c { frames = a }) c'
                  (ground (arith, e, within, h)))
        ]
      ]
