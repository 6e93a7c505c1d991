-- ===== src/Indexer/Client/Stream.antt =====
-- What arrives is dispatched line by line, however it is cut into chunks.
use diginaut_wallet.Prelude.{
  ℕ, ◌+◌, ◌≤◌, ◌≡◌, refl, sym, subst, ap, ◌∙◌, List, [], ◌∷◌, ◌++◌, arith, false, if◌then◌else◌,
  length, Outcome, ok, throw, ◌>>=◌, ltb, append_assoc, append-nil,
}
use diginaut_wallet.Indexer.Frames.{Assembler, push_chunk, newline, concat, max_electrum_frame}
use diginaut_wallet.Indexer.Frames.Lines.{
  split, split-line, split-rest, split-append, split-Interior, Interior,
}
use diginaut_wallet.Indexer.Frames.Assembly.{IsAssembler, held, push_chunk-IsAssembler}
use diginaut_wallet.Indexer.Client.{
  Client, Crash, Parsed, null_value, receive, id_of_null, dispatch, read_frames, on_data,
  is_blank_line,
}
use diginaut_wallet.Indexer.Client.Dispatch.{
  with_frames, sized_held, dispatch_all, Fits, reframed, dispatch_all-append,
}
use diginaut_wallet.Indexer.Client.Reading.{Reads, read_frames-Reads, other_frames}

module _ (to_text : List ℕ → List ℕ) (parse : List ℕ → Parsed) where
  on_data-Reads :
      (d : List ℕ) (c : Client)
      → IsAssembler c.frames
      → length (held c.frames ++ d) ≤ max_electrum_frame
      → Reads to_text parse (held c.frames ++ d) c (on_data to_text parse d c)
  unfolding on_data
  on_data-Reads d c v fits =
      let a = push_chunk d c.frames in
      let (valid, grown) = push_chunk-IsAssembler d c.frames v in
      let size : a.chunks_length ≡ length (held c.frames ++ d) =
        sized_held a valid ∙ ap length grown in
      let within : ltb max_electrum_frame a.chunks_length ≡ false = ground (arith, size, fits) in
      subst (Reads to_text parse (held c.frames ++ d) c) (sym (rw (within, if◌then◌else◌) refl)) (
        other_frames to_text parse (held c.frames ++ d) a c _ (
          subst
            (λ b.
              Reads to_text parse b (with_frames a c)
                (read_frames to_text parse (a.chunks_length + 1) (with_frames a c)))
            grown
            (read_frames-Reads to_text parse (a.chunks_length + 1) (with_frames a c) valid
              (omega (arith, sized_held a valid)))))

  -- Chunks that arrive one after the other, as long as the process runs.
  unfoldable pub feed : List (List ℕ) → Client → Outcome Crash Client
  feed [] c = ok c
  feed (d ∷ ds) c = on_data to_text parse d c >>= feed ds

  -- What the lines of the first bytes did, and then what the others do.
  module _ (bytes : List ℕ) (c : Client) (ds : List (List ℕ)) where
    joined : split (bytes ++ concat ds) ≡ (
      (split bytes).0 ++ (split ((split bytes).1 ++ concat ds)).0,
      (split ((split bytes).1 ++ concat ds)).1,
    )
    joined = split-append bytes (concat ds)

    all_lines : dispatch_all to_text parse (split (bytes ++ concat ds)).0 c ≡ (
        dispatch_all to_text parse (split bytes).0 c
        >>= dispatch_all to_text parse (split ((split bytes).1 ++ concat ds)).0)
    all_lines =
        ap (λ (s : List (List ℕ) × List ℕ). dispatch_all to_text parse s.0 c) joined
        ∙ dispatch_all-append to_text parse (split bytes).0 (split ((split bytes).1 ++ concat ds)).0
            c

    ended_before :
        (left : Assembler) (w : Crash)
        → dispatch_all to_text parse (split bytes).0 c ≡ throw w
        → reframed left (dispatch_all to_text parse (split (bytes ++ concat ds)).0 c) ≡ throw w
    ended_before left w e = rw (all_lines, e) refl

    went_on :
        (left : Assembler) (c' : Client)
        → dispatch_all to_text parse (split bytes).0 c ≡ ok c'
        → reframed left (dispatch_all to_text parse (split (bytes ++ concat ds)).0 c)
          ≡ reframed left (dispatch_all to_text parse (split ((split bytes).1 ++ concat ds)).0 c')
    went_on left c' e = rw (all_lines, e) refl

    feed_after :
        (left : Assembler) (o : Outcome Crash Client)
        → dispatch_all to_text parse (split bytes).0 c ≡ o
        → ((c' : Client)
            → Reads to_text parse ((split bytes).1 ++ concat ds) c' (feed ds (with_frames left c')))
        → Reads to_text parse (bytes ++ concat ds) c (reframed left o >>= feed ds)
    feed_after left o e go = by_outcome o e
      where
        by_outcome :
            (o : Outcome Crash Client)
            → dispatch_all to_text parse (split bytes).0 c ≡ o
            → Reads to_text parse (bytes ++ concat ds) c (reframed left o >>= feed ds)
        by_outcome (throw w) e = record {
          left = (go c).left;
          valid = (go c).valid;
          rest = (go c).rest ∙ sym (ap (λ (s : List (List ℕ) × List ℕ). s.1) joined);
          same = sym (ended_before (go c).left w e);
        }
        by_outcome (ok c') e = record {
          left = (go c').left;
          valid = (go c').valid;
          rest = (go c').rest ∙ sym (ap (λ (s : List (List ℕ) × List ℕ). s.1) joined);
          same = (go c').same ∙ sym (went_on (go c').left c' e);
        }

    feed_on :
        (result : Outcome Crash Client) (r : Reads to_text parse bytes c result)
        → ((c' : Client)
            → Reads to_text parse
                ((split bytes).1 ++ concat ds)
                c'
                (feed ds (with_frames r.left c')))
        → Reads to_text parse (bytes ++ concat ds) c (result >>= feed ds)
    feed_on result r go =
        subst (λ o. Reads to_text parse (bytes ++ concat ds) c (o >>= feed ds)) (sym r.same)
          (feed_after r.left _ refl go)

  -- From an assembler whose bytes have no newline, as long as the bytes that are held and each
  -- chunk that arrives are within the limit: the client does what it does with the lines of the
  -- whole stream, one after the other, or crashes if it does, and holds the rest behind the
  -- last newline. So it does not matter how the stream is cut into chunks.
  pub feed-Reads :
      (ds : List (List ℕ)) (c : Client)
      → IsAssembler c.frames
      → Interior (held c.frames)
      → Fits (held c.frames) ds
      → Reads to_text parse (held c.frames ++ concat ds) c (feed ds c)
  unfolding feed concat dispatch_all
  feed-Reads [] c v inside fits =
      let whole : split (held c.frames ++ []) ≡ ([], held c.frames) =
        ap split (append-nil (held c.frames)) ∙ split-rest (held c.frames) inside in
      record {
        left = c.frames;
        valid = v;
        rest = sym (ap (λ (s : List (List ℕ) × List ℕ). s.1) whole);
        same =
            ap
              (λ (s : List (List ℕ) × List ℕ). reframed c.frames (dispatch_all to_text parse s.0 c))
              (sym whole);
      }
  feed-Reads (d ∷ ds) c v inside fits =
      let r = on_data-Reads d c v fits.0 in
      let rest = (split (held c.frames ++ d)).1 in
      subst (λ b. Reads to_text parse b c (on_data to_text parse d c >>= feed ds))
        (append_assoc (held c.frames) d (concat ds))
        (feed_on (held c.frames ++ d) c ds (on_data to_text parse d c) r (λ c'.
          other_frames to_text parse (rest ++ concat ds) r.left c' (feed ds (with_frames r.left c'))
            (subst
              (λ b.
                Reads to_text parse (b ++ concat ds) (with_frames r.left c')
                  (feed ds (with_frames r.left c')))
              r.rest
              (feed-Reads ds (with_frames r.left c') r.valid
                (subst Interior (sym r.rest) (split-Interior (held c.frames ++ d)))
                (subst (λ b. Fits b ds) (sym r.rest) fits.1)))))

  -- With nothing held, if a line that is not blank arrives within the limit and its JSON value
  -- is null, an exception leaves the listener of the socket, whatever follows the line.
  pub on_data-null :
      (line more : List ℕ) (c : Client)
      → IsAssembler c.frames
      → held c.frames ≡ []
      → length (line ++ newline ∷ more) ≤ max_electrum_frame
      → Interior line
      → is_blank_line (to_text line) ≡ false
      → parse (to_text line) ≡ null_value
      → on_data to_text parse (line ++ newline ∷ more) c ≡ throw id_of_null
  unfolding dispatch_all dispatch receive
  on_data-null line more c v empty fits inside text null_ =
      let bytes = line ++ newline ∷ more in
      let r =
        subst (λ b. Reads to_text parse (b ++ bytes) c (on_data to_text parse bytes c)) empty
          (on_data-Reads bytes c v
            (subst (λ b. length (b ++ bytes) ≤ max_electrum_frame) (sym empty) fits)) in
      r.same
      ∙ ap (λ (s : List (List ℕ) × List ℕ). reframed r.left (dispatch_all to_text parse s.0 c))
          (split-line line more inside)
      ∙ ground (arith, text, null_)
