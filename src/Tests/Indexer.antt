-- ===== src/Tests/Indexer.antt =====
-- Runs of the indexer's client, and its theorems at concrete inputs. The text of a buffer is its
-- bytes; the only texts that are parsed are `null`, which is n, and a reply to request 1, which is r.
use diginaut_wallet.Prelude.{
  ℕ, ◌≡◌, refl, List, [], ◌∷◌, ◌++◌, ok, throw, arith, some, ◌==◌, if◌then◌else◌, false,
}
use diginaut_wallet.Hex.{is_space}
use diginaut_wallet.Indexer.Frames.{
  newline, newline_at, concat, no_frames, next_frame, frame_of, without_frame, push_chunk, chunk_at,
  keep_rest,
}
use diginaut_wallet.Indexer.Frames.Lines.{Interior, split, in_front}
use diginaut_wallet.Indexer.Frames.Assembly.{IsAssembler, no_frames-IsAssembler, held}
use diginaut_wallet.Indexer.Client.{
  Client, Parsed, not_json, null_value, message, id_of_null, new_client, connect, send_request, run,
  step, connects, sends, arrives, on_data, dispatch, read_frames, receive, settle, is_blank_line,
  data_event, is_current, has_request, delete_request, time_out, resolved,
}
use diginaut_wallet.Indexer.Client.Dispatch.{Fits}
use diginaut_wallet.Indexer.Client.Reading.{Reads}
use diginaut_wallet.Indexer.Client.Stream.{feed, feed-Reads, on_data-null}
use diginaut_wallet.Indexer.Client.Counts.{replies}
use diginaut_wallet.Indexer.Client.Ledger.{timer-settles}

abbrev as_text : List ℕ → List ℕ
as_text bytes = bytes

abbrev parse : List ℕ → Parsed
parse [] = not_json
parse (c ∷ cs) =
    if c == b'n' then null_value else if c == b'r' then message (some 1) false else not_json

-- A client that waits for the reply to its first request.
abbrev waiting : Client
waiting = record {
  sock = some 0;
  opened = 1;
  next_id = 2;
  pending = 1 ∷ [];
  frames = record { chunks = []; chunks_length = 0; scan_chunk = 0 };
  settled = [];
}

run-waiting : run as_text parse (connects ∷ sends ∷ []) new_client ≡ ok waiting
unfolding run step connect send_request new_client
run-waiting = refl

-- "r" and its newline in two chunks, and a byte of the next line.
abbrev chunks : List (List ℕ)
chunks = (b'r' ∷ []) ∷ (newline ∷ b'x' ∷ []) ∷ []

chunks_run :
    feed as_text parse chunks waiting
    ≡ ok (record waiting {
      pending = [];
      frames = record { chunks = (b'x' ∷ []) ∷ []; chunks_length = 1; scan_chunk = 1 };
      settled = record { id = 1; how = resolved } ∷ [];
    })
unfolding feed on_data read_frames dispatch receive settle is_blank_line is_space next_frame
    frame_of without_frame push_chunk chunk_at keep_rest newline_at concat has_request
    delete_request
chunks_run = refl

waiting-IsAssembler : IsAssembler waiting.frames
unfolding no_frames
waiting-IsAssembler = no_frames-IsAssembler

nothing_held : held waiting.frames ≡ []
unfolding held concat
nothing_held = refl

inside : Interior (held waiting.frames)
unfolding held concat
inside = tt

within : Fits (held waiting.frames) chunks
unfolding held concat split in_front
within = (omega arith, (omega arith, tt))

feed-Reads_example :
    Reads as_text parse
      (held waiting.frames ++ concat chunks)
      waiting
      (feed as_text parse chunks waiting)
feed-Reads_example = feed-Reads as_text parse chunks waiting waiting-IsAssembler inside within

solid : is_blank_line (b'n' ∷ []) ≡ false
unfolding is_blank_line is_space
solid = refl

on_data-null_example : on_data as_text parse (b'n' ∷ newline ∷ []) waiting ≡ throw id_of_null
on_data-null_example =
    on_data-null as_text parse (b'n' ∷ []) [] waiting waiting-IsAssembler nothing_held (omega arith)
      (refl, tt) solid refl

-- The same client before the request, and behind the reply to it.
abbrev connected : Client
connected = record waiting { next_id = 1; pending = [] }

abbrev answered : Client
answered = record waiting { pending = []; settled = record { id = 1; how = resolved } ∷ [] }

run-connected : run as_text parse (connects ∷ []) new_client ≡ ok connected
unfolding run step connect new_client
run-connected = refl

run-answered :
    run as_text parse (arrives 0 (b'r' ∷ newline ∷ []) ∷ []) (send_request connected) ≡ ok answered
unfolding run step send_request data_event is_current on_data read_frames dispatch receive settle
    is_blank_line is_space next_frame frame_of without_frame push_chunk chunk_at keep_rest
    newline_at concat has_request delete_request
run-answered = refl

timer-settles_example : replies 1 (time_out 1 answered).settled ≡ 1
timer-settles_example =
    timer-settles as_text parse (connects ∷ []) (arrives 0 (b'r' ∷ newline ∷ []) ∷ []) 0
      run-connected refl run-answered
