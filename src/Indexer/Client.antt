-- ===== src/Indexer/Client.antt =====
-- ElectrumClient: sockets, requests and replies. Each callback of the source is an event. A promise
-- that is settled is a reply, and `settled` has the replies in the order in which they were made.
-- Parameters: `Buffer.toString('utf8')`, and what `JSON.parse` makes of a text.
pub mod Dispatch
pub mod Reading
pub mod Stream
pub mod Counts
pub mod Ledger
use diginaut_wallet.Prelude.{
  ℕ, zero, suc, ◌+◌, List, [], ◌∷◌, ◌++◌, map, Bool, true, false, ◌&&◌, ◌||◌, Option, none, some,
  Outcome, ok, throw, ◌>>=◌, ltb, ◌==◌, if◌then◌else◌,
}
use diginaut_wallet.Hex.{is_space}
use diginaut_wallet.Indexer.Frames.{
  Assembler, no_frames, next_frame, push_chunk, max_electrum_frame,
}

-- What a promise is settled with: a result, the server's error, or an error of the client.
pub data How : Type 0 where
  resolved : How
  refused : How
  closed : How
  overflowed : How
  timed_out : How

pub record Reply : Type 0 where
  pub id : ℕ
  pub how : How

-- A socket is named by the number of those that were opened before it.
pub record Client : Type 0 where
  pub sock : Option ℕ
  pub opened : ℕ
  pub next_id : ℕ
  pub pending : List ℕ
  pub frames : Assembler
  pub settled : List Reply

pub data Parsed : Type 0 where
  not_json : Parsed
  null_value : Parsed
  message : Option ℕ → Bool → Parsed

-- An exception that leaves a callback of a socket ends the process.
pub data Crash : Type 0 where
  id_of_null : Crash

-- The constructor of the class.
unfoldable pub new_client : Client
unfolding no_frames
new_client = record {
  sock = none;
  opened = 0;
  next_id = 1;
  pending = [];
  frames = no_frames;
  settled = [];
}

unfoldable pub is_current : ℕ → Option ℕ → Bool
is_current s none = false
is_current s (some t) = t == s

-- `Map.prototype.has` and `delete` of the pending requests.
unfoldable pub has_request : ℕ → List ℕ → Bool
has_request id [] = false
has_request id (x ∷ xs) = x == id || has_request id xs

unfoldable pub delete_request : ℕ → List ℕ → List ℕ
delete_request id [] = []
delete_request id (x ∷ xs) = if x == id then xs else x ∷ delete_request id xs

unfoldable pub settle : ℕ → How → Client → Client
unfolding delete_request has_request
settle id how c =
    if has_request id c.pending
    then record c {
      pending = delete_request id c.pending;
      settled = c.settled ++ record { id = id; how = how } ∷ [];
    }
    else c

unfoldable pub reject_all : How → Client → Client
reject_all how c = record c {
  pending = [];
  settled = c.settled ++ map (λ id. record { id = id; how = how }) c.pending;
}

-- `if (this.sock) return this.ready;`, or else a new socket.
unfoldable pub connect : Client → Client
connect c = elim c.sock [
  | none ↦ record c { sock = some c.opened; opened = c.opened + 1 }
  | some s ↦ c
]

-- `#send`: without a socket `write` is a TypeError, which rejects the request; its id is spent.
unfoldable pub send_request : Client → Client
send_request c = elim c.sock [
  | none ↦ record c { next_id = c.next_id + 1 }
  | some s ↦ record c { next_id = c.next_id + 1; pending = c.pending ++ c.next_id ∷ [] }
]

-- The callback of `setTimeout`.
unfoldable pub time_out : ℕ → Client → Client
time_out id c = settle id timed_out c

-- `fail` of a socket, on 'error' and on 'close'.
unfoldable pub fail : ℕ → Client → Client
fail s c =
    if is_current s c.sock
    then reject_all closed (record c { sock = none; frames = no_frames })
    else c

-- The branch of `#onData` beyond the limit.
unfoldable pub overflow : Client → Client
overflow c = reject_all overflowed (record c { sock = none; frames = no_frames })

-- `!line.trim()`
unfoldable pub is_blank_line : List ℕ → Bool
is_blank_line [] = true
is_blank_line (c ∷ cs) = is_space c && is_blank_line cs

unfoldable pub receive : Parsed → Client → Outcome Crash Client
receive not_json c = ok c
receive null_value c = throw id_of_null
receive (message none failed) c = ok c
receive (message (some id) failed) c = ok (settle id (if failed then refused else resolved) c)

module _ (to_text : List ℕ → List ℕ) (parse : List ℕ → Parsed) where
  -- The loop's body behind the assembly of a frame.
  unfoldable pub dispatch : List ℕ → Client → Outcome Crash Client
  dispatch frame c =
      if is_blank_line (to_text frame) then ok c else receive (parse (to_text frame)) c

  -- `for (;;)`: each round takes at least a newline, so that one round more than bytes is enough.
  unfoldable pub read_frames : ℕ → Client → Outcome Crash Client
  read_frames zero c = ok c
  read_frames (suc rounds) c = elim (next_frame c.frames).0 [
    | none ↦ ok (record c { frames = (next_frame c.frames).1 })
    | some frame ↦
        dispatch frame (record c { frames = (next_frame c.frames).1 }) >>= read_frames rounds
  ]

  -- `#onData`
  unfoldable pub on_data : List ℕ → Client → Outcome Crash Client
  on_data d c =
      let a = push_chunk d c.frames in
      if ltb max_electrum_frame a.chunks_length
      then ok (overflow (record c { frames = a }))
      else read_frames (a.chunks_length + 1) (record c { frames = a })

  -- The listener of 'data' on the socket s.
  unfoldable pub data_event : ℕ → List ℕ → Client → Outcome Crash Client
  data_event s d c = if is_current s c.sock then on_data d c else ok c

-- What may call into the client.
pub data Event : Type 0 where
  connects : Event
  sends : Event
  timer : ℕ → Event
  fails : ℕ → Event
  arrives : ℕ → List ℕ → Event

module _ (to_text : List ℕ → List ℕ) (parse : List ℕ → Parsed) where
  unfoldable pub step : Event → Client → Outcome Crash Client
  step connects c = ok (connect c)
  step sends c = ok (send_request c)
  step (timer id) c = ok (time_out id c)
  step (fails s) c = ok (fail s c)
  step (arrives s d) c = data_event to_text parse s d c

  unfoldable pub run : List Event → Client → Outcome Crash Client
  run [] c = ok c
  run (e ∷ es) c = step e c >>= run es
