-- ===== src/Indexer/Client/Dispatch.antt =====
-- The reference for the loop of frames: lines that are dispatched one after the other. What a line
-- does has nothing to do with the chunks that are held.
use diginaut_wallet.Prelude.{
  ℕ, ◌≤◌, ◌≡◌, refl, ap, ◌∙◌, List, [], ◌∷◌, ◌++◌, arith, if◌then◌else◌, length, none, some,
  Outcome, ok, throw, ◌>>=◌, Bool-cases, inl, inr,
}
use diginaut_wallet.Indexer.Frames.{Assembler, max_electrum_frame}
use diginaut_wallet.Indexer.Frames.Lines.{split}
use diginaut_wallet.Indexer.Frames.Assembly.{IsAssembler, held}
use diginaut_wallet.Indexer.Client.{
  Client, Crash, Parsed, not_json, null_value, message, settle, receive, How, refused, resolved,
  dispatch, is_blank_line,
}

abbrev pub with_frames : Assembler → Client → Client
with_frames a c = record c { frames = a }

-- A result that may be a crash, with other frames.
abbrev pub reframed : Assembler → Outcome Crash Client → Outcome Crash Client
reframed a (throw e) = throw e
reframed a (ok c) = ok (with_frames a c)

settle-frames :
    (id : ℕ) (how : How) (a : Assembler) (c : Client)
    → settle id how (with_frames a c) ≡ with_frames a (settle id how c)
unfolding settle
settle-frames id how a c = ground arith

receive-frames :
    (p : Parsed) (a : Assembler) (c : Client)
    → receive p (with_frames a c) ≡ reframed a (receive p c)
unfolding receive
receive-frames not_json a c = refl
receive-frames null_value a c = refl
receive-frames (message none failed) a c = refl
receive-frames (message (some id) failed) a c =
    ap (λ t. ok t) (settle-frames id (if failed then refused else resolved) a c)

reframed_next :
    (a : Assembler) (next : Client → Outcome Crash Client)
    → ((c : Client) → next (with_frames a c) ≡ reframed a (next c))
    → (r : Outcome Crash Client) → (reframed a r >>= next) ≡ reframed a (r >>= next)
reframed_next a next keeps (throw e) = refl
reframed_next a next keeps (ok c) = keeps c

pub reframed_twice :
    (a b : Assembler) (r : Outcome Crash Client) → reframed a (reframed b r) ≡ reframed a r
reframed_twice a b (throw e) = refl
reframed_twice a b (ok c) = refl

next_next :
    (first last both : Client → Outcome Crash Client)
    → ((c : Client) → both c ≡ (first c >>= last))
    → (r : Outcome Crash Client) → (r >>= both) ≡ (r >>= first >>= last)
next_next first last both same (throw e) = refl
next_next first last both same (ok c) = same c

-- Whenever a chunk arrives, it and the bytes that are held are within the limit.
abbrev pub Fits : List ℕ → List (List ℕ) → Type 0
Fits rest [] = Unit
Fits rest (d ∷ ds) = (length (rest ++ d) ≤ max_electrum_frame) × Fits (split (rest ++ d)).1 ds

pub sized_held : (a : Assembler) → IsAssembler a → a.chunks_length ≡ length (held a)
unfolding held
sized_held a v = v.sized

module _ (to_text : List ℕ → List ℕ) (parse : List ℕ → Parsed) where
  -- The reference: lines that are dispatched in their order.
  unfoldable pub dispatch_all : List (List ℕ) → Client → Outcome Crash Client
  dispatch_all [] c = ok c
  dispatch_all (line ∷ lines) c = dispatch to_text parse line c >>= dispatch_all lines

  pub dispatch-frames :
      (line : List ℕ) (a : Assembler) (c : Client)
      → dispatch to_text parse line (with_frames a c) ≡ reframed a (dispatch to_text parse line c)
  unfolding dispatch
  dispatch-frames line a c = elim (Bool-cases (is_blank_line (to_text line))) [
    | inl e ↦ rw (e, if◌then◌else◌) refl
    | inr e ↦ rw (e, if◌then◌else◌) (receive-frames (parse (to_text line)) a c)
  ]

  pub dispatch_all-frames :
      (lines : List (List ℕ)) (a : Assembler) (c : Client)
      → dispatch_all lines (with_frames a c) ≡ reframed a (dispatch_all lines c)
  unfolding dispatch_all
  dispatch_all-frames [] a c = refl
  dispatch_all-frames (line ∷ lines) a c =
      ap (λ r. r >>= dispatch_all lines) (dispatch-frames line a c)
      ∙ reframed_next a (dispatch_all lines) (dispatch_all-frames lines a)
          (dispatch to_text parse line c)

  pub dispatch_all-append :
      (xs ys : List (List ℕ)) (c : Client)
      → dispatch_all (xs ++ ys) c ≡ (dispatch_all xs c >>= dispatch_all ys)
  unfolding dispatch_all
  dispatch_all-append [] ys c = refl
  dispatch_all-append (line ∷ xs) ys c =
      next_next (dispatch_all xs) (dispatch_all ys) (dispatch_all (xs ++ ys))
        (λ c'. dispatch_all-append xs ys c') (dispatch to_text parse line c)
