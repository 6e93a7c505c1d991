-- ===== src/Tests/BroadcastLog.antt =====
-- Runs of the broadcast log, and its theorems at concrete inputs.
use diginaut_wallet.Prelude.{
  ℕ, suc, zero, ◌≡◌, refl, List, [], ◌∷◌, map, true, none, some, if◌then◌else◌, All, arith,
}
use mathlib.Core.Option
use diginaut_wallet.Text.{lower_letter, same_text}
use diginaut_wallet.Coins.Sorting.{sort, sort_onto}
use diginaut_wallet.BroadcastLog.{
  Raw, Entry, LogStorage, to_raw, read_log, get_entry, record_entry, mark_ambiguous, marked,
  normalize, send, testnet, pending, all_digits, all_pairs, one_of, kinds, chains, states, usable,
  read_array,
}
use diginaut_wallet.BroadcastLog.Laws.{IsNotOlder}
use diginaut_wallet.BroadcastLog.Changes.{get_entry-mark_ambiguous, get_entry-record_entry}

repeated : ℕ → List ℕ
repeated zero = []
repeated (suc n) = b'a' ∷ repeated n

abbrev id_a : List ℕ
id_a = repeated 64

abbrev entry : Entry
entry = record {
  txid = id_a;
  hex = b'0' ∷ b'2' ∷ [];
  kind = send;
  chain = testnet;
  wallet_id = none;
  summary = [];
  at = 5000;
  state = pending;
  attempts = 1;
  last_error = none;
}

-- A record whose kind is not known.
abbrev raw : Raw
raw = record {
  txid = id_a;
  hex = b'0' ∷ b'2' ∷ [];
  kind = [];
  chain = testnet;
  wallet_id = none;
  summary = [];
  at = none;
  state = [];
  attempts = 0;
  last_error = none;
}

abbrev empty : LogStorage
empty = record { readable = true; writable = true; stored = none }

raw_run : normalize 5000 raw ≡ some entry
unfolding normalize lower_letter all_digits all_pairs one_of kinds chains states repeated
raw_run = refl

empty_run : read_log 5000 empty ≡ []
unfolding read_log read_array usable sort sort_onto
empty_run = refl

nothing_newer : All (IsNotOlder entry) (read_log 5000 empty)
unfolding read_log read_array usable sort sort_onto
nothing_newer = tt

abbrev full : LogStorage
full = record { readable = true; writable = true; stored = some (to_raw entry ∷ []) }

get_entry-record_entry_example :
    let (recorded, after) = record_entry raw 5000 empty in
    (recorded ≡ some entry) × (get_entry id_a 5000 after ≡ some entry)
get_entry-record_entry_example =
    get_entry-record_entry 5000 empty refl refl raw entry raw_run (omega arith) nothing_newer

get_entry-mark_ambiguous_example :
    let (found, after) = mark_ambiguous id_a none 5000 full in
    (found ≡ Option.map (marked none) (get_entry id_a 5000 full))
    × (get_entry id_a 5000 after ≡ (
        if same_text (map lower_letter id_a) (map lower_letter id_a)
        then Option.map (marked none) (get_entry id_a 5000 full)
        else get_entry id_a 5000 full))
get_entry-mark_ambiguous_example = get_entry-mark_ambiguous 5000 full refl refl id_a id_a none
