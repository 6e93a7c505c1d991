-- ===== src/Indexer/Frames/Assembly.antt =====
-- One round of the assembler takes the first line of the stream that it holds, whatever the chunks.
use diginaut_wallet.Prelude.{
  ℕ, suc, ◌+◌, ◌≡◌, refl, sym, subst, ap, ◌∙◌, List, [], ◌∷◌, ◌++◌, arith, All-append, length,
  length-append, take, drop, take-append, drop-append, get_elem?, Option, none, some, append-nil,
  append_assoc,
}
use diginaut_wallet.Indexer.Frames.{
  Assembler, Found, newline, search_chunks, concat, chunk_at, keep_rest, frame_of, without_frame,
  after_search, next_frame, push_chunk, no_frames,
}
use diginaut_wallet.Indexer.Frames.Lines.{Interior}
use diginaut_wallet.Indexer.Frames.Search.{
  search_chunks-CutAt, concat-append, some-injective, search_chunks-none,
}

-- What the fields of an assembler say of each other.
pub record IsAssembler (a : Assembler) : Type 0 where
  pub scanned : List (List ℕ)
  pub unscanned : List (List ℕ)
  pub parts : a.chunks ≡ scanned ++ unscanned
  pub counted : a.scan_chunk ≡ length scanned
  pub interior : Interior (concat scanned)
  pub sized : a.chunks_length ≡ length (concat a.chunks)

pub no_frames-IsAssembler : IsAssembler no_frames
unfolding no_frames concat
no_frames-IsAssembler = record {
  scanned = [];
  unscanned = [];
  parts = refl;
  counted = refl;
  interior = tt;
  sized = refl;
}

-- The bytes that are held.
unfoldable pub held : Assembler → List ℕ
held a = concat a.chunks

pub push_chunk-IsAssembler :
    (d : List ℕ) (a : Assembler)
    → IsAssembler a
    → IsAssembler (push_chunk d a) × (held (push_chunk d a) ≡ held a ++ d)
unfolding push_chunk held concat
push_chunk-IsAssembler d a v =
    let grown : concat (a.chunks ++ d ∷ []) ≡ concat a.chunks ++ d =
      concat-append a.chunks (d ∷ []) ∙ ap (λ t. concat a.chunks ++ t) (append-nil d) in
    (
      record {
        scanned = v.scanned;
        unscanned = v.unscanned ++ d ∷ [];
        parts = ap (λ t. t ++ d ∷ []) v.parts ∙ append_assoc v.scanned v.unscanned (d ∷ []);
        counted = v.counted;
        interior = v.interior;
        sized = omega (arith, v.sized, ap length grown, length-append (concat a.chunks) d);
      },
      grown,
    )

concat-keep_rest :
    (rest : List ℕ) (later : List (List ℕ)) → concat (keep_rest rest later) ≡ rest ++ concat later
unfolding concat keep_rest
concat-keep_rest [] later = refl
concat-keep_rest (b ∷ rest) later = refl

drop_one_more :
    {A : Type 0} (xs : List A) (x : A) (ys : List A) → drop (length xs + 1) (xs ++ x ∷ ys) ≡ ys
drop_one_more [] x ys = refl
drop_one_more (y ∷ xs) x ys =
    let e : suc (length xs) + 1 ≡ suc (length xs + 1) = omega arith in
    ap (λ k. drop k (y ∷ (xs ++ x ∷ ys))) e ∙ drop_one_more xs x ys

get_elem?-append :
    {A : Type 0} (xs : List A) (x : A) (ys : List A) → get_elem? (xs ++ x ∷ ys) (length xs) ≡ some x
get_elem?-append [] x ys = refl
get_elem?-append (y ∷ xs) x ys = get_elem?-append xs x ys

-- A round around a newline: what is before, the chunk in which it is, what is after.
module _ (a : Assembler) (f : Found) (before after : List (List ℕ)) (head tail : List ℕ)
    (parts : a.chunks ≡ before ++ (head ++ newline ∷ tail) ∷ after)
    (at_chunk : f.nl_chunk ≡ length before) (at_byte : f.nl_pos ≡ length head) where
  chunk_there : chunk_at a.chunks f.nl_chunk ≡ head ++ newline ∷ tail
  unfolding chunk_at
  chunk_there =
      rw (parts, at_chunk)
        (rw (get_elem?-append before (head ++ newline ∷ tail) after, chunk_at) refl)

  frame_there : frame_of a f ≡ concat before ++ head
  unfolding frame_of concat
  frame_there =
      let first : take f.nl_chunk a.chunks ≡ before =
        ap (λ k. take k a.chunks) at_chunk
        ∙ ap (take (length before)) parts
        ∙ take-append before ((head ++ newline ∷ tail) ∷ after) in
      let last : take f.nl_pos (chunk_at a.chunks f.nl_chunk) ≡ head =
        ap (λ k. take k (chunk_at a.chunks f.nl_chunk)) at_byte
        ∙ ap (take (length head)) chunk_there
        ∙ take-append head (newline ∷ tail) in
      concat-append (take f.nl_chunk a.chunks) (take f.nl_pos (chunk_at a.chunks f.nl_chunk) ∷ [])
      ∙ ap (λ t. concat t ++ concat (take f.nl_pos (chunk_at a.chunks f.nl_chunk) ∷ [])) first
      ∙ ap (λ t. concat before ++ (t ++ [])) last
      ∙ ap (λ t. concat before ++ t) (append-nil head)

  left_there : held (without_frame a f) ≡ tail ++ concat after
  unfolding held without_frame
  left_there =
      let rest : drop (f.nl_pos + 1) (chunk_at a.chunks f.nl_chunk) ≡ tail =
        ap (λ k. drop (k + 1) (chunk_at a.chunks f.nl_chunk)) at_byte
        ∙ ap (drop (length head + 1)) chunk_there
        ∙ drop_one_more head newline tail in
      let later : drop (f.nl_chunk + 1) a.chunks ≡ after =
        ap (λ k. drop (k + 1) a.chunks) at_chunk
        ∙ ap (drop (length before + 1)) parts
        ∙ drop_one_more before (head ++ newline ∷ tail) after in
      concat-keep_rest (drop (f.nl_pos + 1) (chunk_at a.chunks f.nl_chunk))
        (drop (f.nl_chunk + 1) a.chunks)
      ∙ ap (λ t. t ++ concat (drop (f.nl_chunk + 1) a.chunks)) rest
      ∙ ap (λ t. tail ++ concat t) later

  held_there : held a ≡ frame_of a f ++ newline ∷ held (without_frame a f)
  unfolding held concat
  held_there =
      ap concat parts
      ∙ concat-append before ((head ++ newline ∷ tail) ∷ after)
      ∙ ap (λ t. concat before ++ t) (append_assoc head (newline ∷ tail) (concat after))
      ∙ sym (append_assoc (concat before) head (newline ∷ (tail ++ concat after)))
      ∙ ap (λ t. t ++ newline ∷ (tail ++ concat after)) (sym frame_there)
      ∙ ap (λ t. frame_of a f ++ newline ∷ t) (sym left_there)

-- One round: with no newline in what is held nothing is taken; else the first line is.
pub record NoFrame (a a' : Assembler) : Type 0 where
  pub interior : Interior (held a)
  pub unchanged : held a' ≡ held a
  pub valid : IsAssembler a'

pub record NextFrame (a a' : Assembler) (line : List ℕ) : Type 0 where
  pub parts : held a ≡ line ++ newline ∷ held a'
  pub interior : Interior line
  pub valid : IsAssembler a'

module _ (a : Assembler) (v : IsAssembler a) where
  unscanned_lem : drop a.scan_chunk a.chunks ≡ v.unscanned
  unscanned_lem =
      ap (λ k. drop k a.chunks) v.counted
      ∙ ap (drop (length v.scanned)) v.parts
      ∙ drop-append v.scanned v.unscanned

  searched :
      (scan : ℕ) (found : Option Found)
      → search_chunks a.scan_chunk (drop a.scan_chunk a.chunks) ≡ (scan, found)
      → search_chunks a.scan_chunk v.unscanned ≡ (scan, found)
  searched scan found e = ap (search_chunks a.scan_chunk) (sym unscanned_lem) ∙ e

  left_valid :
      (f : Found)
      → held a ≡ frame_of a f ++ newline ∷ held (without_frame a f)
      → IsAssembler (without_frame a f)
  unfolding held concat without_frame
  left_valid f whole = record {
    scanned = [];
    unscanned = (without_frame a f).chunks;
    parts = refl;
    counted = refl;
    interior = tt;
    sized = omega (
      arith,
      v.sized,
      ap length whole,
      length-append (frame_of a f) (newline ∷ concat (without_frame a f).chunks),
    );
  }

  nothing_found :
      (scan : ℕ)
      → search_chunks a.scan_chunk v.unscanned ≡ (scan, none)
      → NoFrame a (record a { scan_chunk = scan })
  unfolding held
  nothing_found scan e =
      let (inside, ended) =
        search_chunks-none a.scan_chunk v.unscanned (ap (λ (r : ℕ × Option Found). r.1) e) in
      let whole : concat a.chunks ≡ concat v.scanned ++ concat v.unscanned =
        ap concat v.parts ∙ concat-append v.scanned v.unscanned in
      let all_inside : Interior (concat a.chunks) =
        subst Interior (sym whole)
          (All-append _ (concat v.scanned) (concat v.unscanned) v.interior inside) in
      record {
        interior = all_inside;
        unchanged = refl;
        valid = record {
          scanned = a.chunks;
          unscanned = [];
          parts = sym (append-nil a.chunks);
          counted = omega (
            arith,
            ap (λ (r : ℕ × Option Found). r.0) e,
            ended,
            v.counted,
            ap length v.parts,
            length-append v.scanned v.unscanned,
          );
          interior = all_inside;
          sized = v.sized;
        };
      }

  frame_found :
      (scan : ℕ) (f : Found)
      → search_chunks a.scan_chunk v.unscanned ≡ (scan, some f)
      → NextFrame a (without_frame a f) (frame_of a f)
  frame_found scan f e =
      let c =
        search_chunks-CutAt a.scan_chunk v.unscanned {f = f}
          (ap (λ (r : ℕ × Option Found). r.1) e) in
      let before = v.scanned ++ c.before in
      let parts : a.chunks ≡ before ++ (c.cut.head ++ newline ∷ c.cut.tail) ∷ c.after =
        v.parts
        ∙ ap (λ t. v.scanned ++ t) c.parts
        ∙ sym (append_assoc v.scanned c.before (c.chunk ∷ c.after))
        ∙ ap (λ t. before ++ t ∷ c.after) c.cut.parts in
      let at_chunk : f.nl_chunk ≡ length before =
        omega (arith, c.place, v.counted, length-append v.scanned c.before) in
      let at_byte : f.nl_pos ≡ length c.cut.head = omega (arith, c.cut.place) in
      let inside : Interior (concat before) =
        subst Interior (sym (concat-append v.scanned c.before))
          (All-append _ (concat v.scanned) (concat c.before) v.interior c.interior) in
      let line = frame_there a f before c.after c.cut.head c.cut.tail parts at_chunk at_byte in
      let whole = held_there a f before c.after c.cut.head c.cut.tail parts at_chunk at_byte in
      record {
        parts = whole;
        interior =
            subst Interior (sym line)
              (All-append _ (concat before) c.cut.head inside c.cut.interior);
        valid = left_valid f whole;
      }

  pub next_frame-none : (next_frame a).0 ≡ none → NoFrame a (next_frame a).1
  unfolding next_frame
  next_frame-none = by_search _ refl
    where
      by_search :
          (r : ℕ × Option Found)
          → search_chunks a.scan_chunk (drop a.scan_chunk a.chunks) ≡ r
          → (after_search a r).0 ≡ none
          → NoFrame a (after_search a r).1
      by_search (scan, none) e h = nothing_found scan (searched scan none e)
      by_search (scan, some f) e h = absurd (cc)

  pub next_frame-some :
      {line : List ℕ} → (next_frame a).0 ≡ some line → NextFrame a (next_frame a).1 line
  unfolding next_frame
  next_frame-some = by_search _ refl
    where
      by_search :
          (r : ℕ × Option Found)
          → search_chunks a.scan_chunk (drop a.scan_chunk a.chunks) ≡ r
          → {line : List ℕ} → (after_search a r).0 ≡ some line
          → NextFrame a (after_search a r).1 line
      by_search (scan, none) e h = absurd (cc)
      by_search (scan, some f) e h =
          subst (NextFrame a (without_frame a f)) (some-injective h)
            (frame_found scan f (searched scan (some f) e))
