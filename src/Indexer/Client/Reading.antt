-- ===== src/Indexer/Client/Reading.antt =====
-- The loop of frames does what its lines do, and keeps the rest.
use diginaut_wallet.Prelude.{
  ℕ, zero, suc, ◌<◌, ◌≡◌, refl, sym, subst, ap, ◌∙◌, List, ◌∷◌, arith, length, length-append, none,
  some, Outcome, ok, throw, ◌>>=◌, Option-cases, inl, inr,
}
use diginaut_wallet.Indexer.Frames.{Assembler, next_frame, newline}
use diginaut_wallet.Indexer.Frames.Lines.{split, split-line, split-rest}
use diginaut_wallet.Indexer.Frames.Assembly.{
  IsAssembler, held, NextFrame, next_frame-none, next_frame-some,
}
use diginaut_wallet.Indexer.Client.{Client, Crash, Parsed, dispatch, read_frames}
use diginaut_wallet.Indexer.Client.Dispatch.{
  dispatch-frames, with_frames, reframed_twice, dispatch_all-frames, dispatch_all, reframed,
}

module _ (to_text : List ℕ → List ℕ) (parse : List ℕ → Parsed) where
  -- The loop's result: what the lines do, with frames that hold the rest.
  pub record Reads (bytes : List ℕ) (c : Client) (result : Outcome Crash Client) : Type 0 where
    pub left : Assembler
    pub valid : IsAssembler left
    pub rest : held left ≡ (split bytes).1
    pub same : result ≡ reframed left (dispatch_all to_text parse (split bytes).0 c)

  one_round :
      (rounds : ℕ) (c : Client) (line : List ℕ)
      → (next_frame c.frames).0 ≡ some line
      → read_frames to_text parse (suc rounds) c ≡ (
          reframed (next_frame c.frames).1 (dispatch to_text parse line c)
          >>= read_frames to_text parse rounds)
  unfolding read_frames
  one_round rounds c line e =
      rw (e, read_frames)
        (ap (λ r. r >>= read_frames to_text parse rounds)
          (dispatch-frames to_text parse line (next_frame c.frames).1 c))

  ended :
      (rounds : ℕ) (c : Client)
      → (next_frame c.frames).0 ≡ none
      → read_frames to_text parse (suc rounds) c ≡ ok (with_frames (next_frame c.frames).1 c)
  unfolding read_frames
  ended rounds c e = rw (e, read_frames) refl

  pub other_frames :
      (bytes : List ℕ) (a : Assembler) (c : Client) (result : Outcome Crash Client)
      → Reads bytes (with_frames a c) result
      → Reads bytes c result
  other_frames bytes a c result r = record {
    left = r.left;
    valid = r.valid;
    rest = r.rest;
    same =
        r.same
        ∙ ap (reframed r.left) (dispatch_all-frames to_text parse (split bytes).0 a c)
        ∙ reframed_twice r.left a (dispatch_all to_text parse (split bytes).0 c);
  }

  -- A round that finds nothing ends the loop.
  last_round :
      (rounds : ℕ) (c : Client)
      → (next_frame c.frames).0 ≡ none
      → IsAssembler c.frames
      → Reads (held c.frames) c (read_frames to_text parse (suc rounds) c)
  unfolding read_frames dispatch_all
  last_round rounds c e v =
      let n = next_frame-none c.frames v e in
      let whole = split-rest (held c.frames) n.interior in
      record {
        left = (next_frame c.frames).1;
        valid = n.valid;
        rest = n.unchanged ∙ sym (ap (λ (s : List (List ℕ) × List ℕ). s.1) whole);
        same =
            ended rounds c e
            ∙ ap
                (λ (s : List (List ℕ) × List ℕ).
                  reframed (next_frame c.frames).1 (dispatch_all to_text parse s.0 c))
                (sym whole);
      }

  -- A round that finds a line goes on behind it, unless the line ends the process.
  module _ (rounds : ℕ) (c : Client) (line : List ℕ) (a : Assembler)
      (n : NextFrame c.frames a line) where
    parted : split (held c.frames) ≡ (line ∷ (split (held a)).0, (split (held a)).1)
    parted = ap split n.parts ∙ split-line line (held a) n.interior

    behind :
        (r : Outcome Crash Client)
        → dispatch to_text parse line c ≡ r
        → ((c' : Client) → Reads (held a) c' (read_frames to_text parse rounds (with_frames a c')))
        → Reads (held c.frames) c (reframed a r >>= read_frames to_text parse rounds)
    unfolding dispatch_all
    behind (throw w) e go = record {
      left = (go c).left;
      valid = (go c).valid;
      rest = (go c).rest ∙ sym (ap (λ (s : List (List ℕ) × List ℕ). s.1) parted);
      same = rw (parted, e) refl;
    }
    behind (ok c') e go = record {
      left = (go c').left;
      valid = (go c').valid;
      rest = (go c').rest ∙ sym (ap (λ (s : List (List ℕ) × List ℕ). s.1) parted);
      same = (go c').same ∙ rw (parted, e) refl;
    }

  pub read_frames-Reads :
      (rounds : ℕ) (c : Client)
      → IsAssembler c.frames
      → length (held c.frames) < rounds
      → Reads (held c.frames) c (read_frames to_text parse rounds c)
  read_frames-Reads zero c v enough = absurd (omega arith)
  read_frames-Reads (suc rounds) c v enough = elim (Option-cases (next_frame c.frames).0) [
    | inl e ↦ last_round rounds c e v
    | inr (line, e) ↦
        let a = (next_frame c.frames).1 in
        let n = next_frame-some c.frames v e in
        let shorter : length (held a) < rounds =
          omega (arith, enough, ap length n.parts, length-append line (newline ∷ held a)) in
        subst (Reads (held c.frames) c) (sym (one_round rounds c line e)) (
          behind rounds c line a n _ refl (λ c'.
            other_frames (held a) a c' _
              (read_frames-Reads rounds (with_frames a c') n.valid shorter)))
  ]
