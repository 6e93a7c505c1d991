-- ===== src/Indexer/Frames.antt =====
-- ElectrumClient: the chunks that arrive on a socket and the frames, ended by a newline, that are
-- assembled of them. A Buffer is a list of bytes.
pub mod Lines
pub mod Search
pub mod Assembly
use diginaut_wallet.Prelude.{
  ℕ, zero, suc, ◌+◌, ◌-◌, ◌*◌, List, [], ◌∷◌, ◌++◌, Option, none, some, ◌==◌, if◌then◌else◌, length,
  take, drop, get_elem?,
}

abbrev pub newline : ℕ
newline = 10

-- MAX_ELECTRUM_FRAME
abbrev pub max_electrum_frame : ℕ
max_electrum_frame = 16 * 1024 * 1024

pub record Assembler : Type 0 where
  pub chunks : List (List ℕ)
  pub chunks_length : ℕ
  pub scan_chunk : ℕ

-- `#resetFrames()`, and the fields that the constructor sets.
unfoldable pub no_frames : Assembler
no_frames = record { chunks = []; chunks_length = 0; scan_chunk = 0 }

-- `chunk.indexOf(0x0a)`, from the position i on; `none` for -1.
unfoldable pub newline_at : ℕ → List ℕ → Option ℕ
newline_at i [] = none
newline_at i (b ∷ bs) = let later = newline_at (i + 1) bs in if b == newline then some i else later

-- The newline that the search finds: its chunk, and its place in it.
pub record Found : Type 0 where
  pub nl_chunk : ℕ
  pub nl_pos : ℕ

-- The inner loop from the chunk i on: where `scanChunk` ends, and what is found.
unfoldable pub search_chunks : ℕ → List (List ℕ) → ℕ × Option Found
unfolding newline_at
search_chunks i [] = (i, none)
search_chunks i (chunk ∷ chunks) =
    let later = search_chunks (i + 1) chunks in
    elim (newline_at 0 chunk) [
      | none ↦ later
      | some p ↦ (i, some (record { nl_chunk = i; nl_pos = p }))
    ]

unfoldable pub concat : List (List ℕ) → List ℕ
concat [] = []
concat (chunk ∷ chunks) = chunk ++ concat chunks

unfoldable pub chunk_at : List (List ℕ) → ℕ → List ℕ
chunk_at chunks i = elim (get_elem? chunks i) [ none ↦ [] | some chunk ↦ chunk ]

-- `rest.length ? [rest, ...later] : later`
unfoldable pub keep_rest : List ℕ → List (List ℕ) → List (List ℕ)
keep_rest [] later = later
keep_rest (b ∷ rest) later = (b ∷ rest) ∷ later

unfoldable pub frame_of : Assembler → Found → List ℕ
unfolding chunk_at concat
frame_of a f =
    concat (take f.nl_chunk a.chunks ++ take f.nl_pos (chunk_at a.chunks f.nl_chunk) ∷ [])

unfoldable pub without_frame : Assembler → Found → Assembler
unfolding chunk_at keep_rest frame_of
without_frame a f = record {
  chunks =
      keep_rest (drop (f.nl_pos + 1) (chunk_at a.chunks f.nl_chunk))
        (drop (f.nl_chunk + 1) a.chunks);
  chunks_length = a.chunks_length - (length (frame_of a f) + 1);
  scan_chunk = 0;
}

-- What is made of a search: no frame, or the next one and what is left.
unfoldable pub after_search : Assembler → ℕ × Option Found → Option (List ℕ) × Assembler
after_search a (scan, none) = (none, record a { scan_chunk = scan })
after_search a (scan, some f) = (some (frame_of a f), without_frame a f)

-- One round of the outer loop.
unfoldable pub next_frame : Assembler → Option (List ℕ) × Assembler
unfolding search_chunks after_search
next_frame a = after_search a (search_chunks a.scan_chunk (drop a.scan_chunk a.chunks))

-- `this.chunks.push(d); this.chunksLength += d.length;`
unfoldable pub push_chunk : List ℕ → Assembler → Assembler
push_chunk d a = record a {
  chunks = a.chunks ++ d ∷ [];
  chunks_length = a.chunks_length + length d;
}
