-- ===== src/BroadcastLog.antt =====
-- apps/wallet/public/broadcastlog.js: the log of transactions that were signed and of which the
-- node may or may not have heard. A stored record is any JSON object: its fields are the texts that
-- `String` makes of them, and a missing text is the empty one. A number of attempts that is no
-- positive integer is 0, and times are natural numbers.
pub mod Laws
pub mod Txid
pub mod Changes
use diginaut_wallet.Prelude.{
  ℕ, ◌+◌, ◌-◌, ◌*◌, List, [], ◌∷◌, map, Bool, true, false, not, ◌&&◌, ◌||◌, Option, none, some, leb,
  ltb, ◌==◌, if◌then◌else◌, length, take, filter, find,
}
use diginaut_wallet.Text.{lower_letter, same_text}
use diginaut_wallet.Coins.Sorting.{sort}

abbrev pub max_records : ℕ
max_records = 20

abbrev pub max_age_ms : ℕ
max_age_ms = 30 * 24 * 3600 * 1000

pub record Raw : Type 0 where
  pub txid : List ℕ
  pub hex : List ℕ
  pub kind : List ℕ
  pub chain : List ℕ
  pub wallet_id : Option (List ℕ)
  pub summary : List ℕ
  pub at : Option ℕ
  pub state : List ℕ
  pub attempts : ℕ
  pub last_error : Option (List ℕ)

pub record Entry : Type 0 where
  pub txid : List ℕ
  pub hex : List ℕ
  pub kind : List ℕ
  pub chain : List ℕ
  pub wallet_id : Option (List ℕ)
  pub summary : List ℕ
  pub at : ℕ
  pub state : List ℕ
  pub attempts : ℕ
  pub last_error : Option (List ℕ)

-- What JSON.stringify and JSON.parse make of an entry.
abbrev pub to_raw : Entry → Raw
to_raw e = record {
  txid = e.txid;
  hex = e.hex;
  kind = e.kind;
  chain = e.chain;
  wallet_id = e.wallet_id;
  summary = e.summary;
  at = some e.at;
  state = e.state;
  attempts = e.attempts;
  last_error = e.last_error;
}

unfoldable pub is_hex_digit : ℕ → Bool
is_hex_digit c = leb b'0' c && leb c b'9' || leb b'a' c && leb c b'f'

unfoldable pub all_digits : List ℕ → Bool
unfolding is_hex_digit
all_digits [] = true
all_digits (c ∷ cs) = is_hex_digit c && all_digits cs

-- /^[0-9a-f]{64}$/
abbrev pub is_txid : List ℕ → Bool
is_txid s = length s == 64 && all_digits s

unfoldable pub all_pairs : List ℕ → Bool
unfolding is_hex_digit
all_pairs [] = true
all_pairs (a ∷ []) = false
all_pairs (a ∷ b ∷ rest) = is_hex_digit a && (is_hex_digit b && all_pairs rest)

-- /^([0-9a-f]{2})+$/
abbrev pub is_hex : List ℕ → Bool
is_hex s = not (length s == 0) && all_pairs s

unfoldable pub one_of : List ℕ → List (List ℕ) → Bool
unfolding same_text
one_of s [] = false
one_of s (t ∷ ts) = same_text s t || one_of s ts

abbrev pub send : List ℕ
send = b's' ∷ b'e' ∷ b'n' ∷ b'd' ∷ []

unfoldable pub kinds : List (List ℕ)
kinds =
    send
    ∷ (b't' ∷ b'r' ∷ b'a' ∷ b'n' ∷ b's' ∷ b'f' ∷ b'e' ∷ b'r' ∷ [])
    ∷ (b'm' ∷ b'i' ∷ b'n' ∷ b't' ∷ [])
    ∷ (b'r' ∷ b'e' ∷ b'd' ∷ b'e' ∷ b'e' ∷ b'm' ∷ [])
    ∷ (b'c' ∷ b'o' ∷ b'n' ∷ b's' ∷ b'o' ∷ b'l' ∷ b'i' ∷ b'd' ∷ b'a' ∷ b't' ∷ b'e' ∷ [])
    ∷ []

abbrev pub testnet : List ℕ
testnet = b't' ∷ b'e' ∷ b's' ∷ b't' ∷ b'n' ∷ b'e' ∷ b't' ∷ []

unfoldable pub chains : List (List ℕ)
chains =
    (b'm' ∷ b'a' ∷ b'i' ∷ b'n' ∷ b'n' ∷ b'e' ∷ b't' ∷ [])
    ∷ testnet
    ∷ (b'r' ∷ b'e' ∷ b'g' ∷ b't' ∷ b'e' ∷ b's' ∷ b't' ∷ [])
    ∷ []

abbrev pub pending : List ℕ
pending = b'p' ∷ b'e' ∷ b'n' ∷ b'd' ∷ b'i' ∷ b'n' ∷ b'g' ∷ []

abbrev pub ambiguous : List ℕ
ambiguous = b'a' ∷ b'm' ∷ b'b' ∷ b'i' ∷ b'g' ∷ b'u' ∷ b'o' ∷ b'u' ∷ b's' ∷ []

unfoldable pub states : List (List ℕ)
states = pending ∷ ambiguous ∷ []

-- `SET.has(x) ? x : fallback`
abbrev pub known_or : List ℕ → List (List ℕ) → List ℕ → List ℕ
known_or s known fallback = if one_of s known then s else fallback

abbrev pub time_or : Option ℕ → ℕ → ℕ
time_or none now = now
time_or (some t) now = t

-- The fields, coerced.
abbrev pub coerced : ℕ → Raw → Entry
coerced now r = record {
  txid = map lower_letter r.txid;
  hex = r.hex;
  kind = known_or r.kind kinds send;
  chain = known_or r.chain chains testnet;
  wallet_id = r.wallet_id;
  summary = r.summary;
  at = time_or r.at now;
  state = known_or r.state states pending;
  attempts = if ltb 0 r.attempts then r.attempts else 1;
  last_error = r.last_error;
}

unfoldable pub normalize : ℕ → Raw → Option Entry
normalize now r =
    if is_txid (map lower_letter r.txid) && is_hex r.hex then some (coerced now r) else none

-- Storage may refuse to be read or written; there may be nothing in it, or no JSON array.
pub record LogStorage : Type 0 where
  pub readable : Bool
  pub writable : Bool
  pub stored : Option (List Raw)

-- `r !== null && r.at >= cutoff`, where the cutoff is `now` less the greatest age.
abbrev pub with_fresh : ℕ → Option Entry → List Entry → List Entry
with_fresh now none rest = rest
with_fresh now (some e) rest = if leb now (e.at + max_age_ms) then e ∷ rest else rest

-- `.map(normalize).filter(…)`
unfoldable pub usable : ℕ → List Raw → List Entry
usable now [] = []
usable now (r ∷ rs) = with_fresh now (normalize now r) (usable now rs)

-- `b.at - a.at < 0`
unfoldable pub newer : Entry → Entry → Bool
newer a b = ltb b.at a.at

unfoldable pub read_array : LogStorage → List Raw
read_array st = if st.readable then (elim st.stored [ none ↦ [] | some raws ↦ raws ]) else []

unfoldable pub read_log : ℕ → LogStorage → List Entry
read_log now st = take max_records (sort newer (usable now (read_array st)))

unfoldable pub write_log : List Entry → LogStorage → LogStorage
write_log recs st =
    if st.writable then record st { stored = some (map to_raw (take max_records recs)) } else st

unfoldable pub get_entry : List ℕ → ℕ → LogStorage → Option Entry
unfolding lower_letter
get_entry txid now st = find (λ e. same_text e.txid (map lower_letter txid)) (read_log now st)

abbrev pub without : List ℕ → List Entry → List Entry
without txid es = filter (λ e. not (same_text e.txid txid)) es

-- The entry, or nothing for a record that is not usable.
unfoldable pub record_entry : Raw → ℕ → LogStorage → Option Entry × LogStorage
record_entry raw now st = elim (normalize now raw) [
  | none ↦ (none, st)
  | some clean ↦ (some clean, write_log (clean ∷ without clean.txid (read_log now st)) st)
]

unfoldable pub drop_entry : List ℕ → ℕ → LogStorage → LogStorage
unfolding lower_letter
drop_entry txid now st = write_log (without (map lower_letter txid) (read_log now st)) st

-- The first entry with the id is changed in place.
unfoldable pub change_first : List ℕ → (Entry → Entry) → List Entry → List Entry
unfolding same_text
change_first key f [] = []
change_first key f (e ∷ es) =
    let rest = change_first key f es in if same_text e.txid key then f e ∷ es else e ∷ rest

unfoldable pub mutate : List ℕ → (Entry → Entry) → ℕ → LogStorage → Option Entry × LogStorage
unfolding lower_letter change_first
mutate txid f now st =
    let key = map lower_letter txid in
    elim (find (λ e. same_text e.txid key) (read_log now st)) [
      | none ↦ (none, st)
      | some hit ↦ (some (f hit), write_log (change_first key f (read_log now st)) st)
    ]

abbrev pub marked : Option (List ℕ) → Entry → Entry
marked message e = record e { state = ambiguous; last_error = message; attempts = e.attempts + 1 }

unfoldable pub mark_ambiguous :
    List ℕ → Option (List ℕ) → ℕ → LogStorage → Option Entry × LogStorage
mark_ambiguous txid message now st = mutate txid (marked message) now st

abbrev pub bumped : Entry → Entry
bumped e = record e { attempts = e.attempts + 1 }

unfoldable pub bump_attempt : List ℕ → ℕ → LogStorage → Option Entry × LogStorage
bump_attempt txid now st = mutate txid bumped now st
