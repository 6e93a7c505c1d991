-- ===== src/BroadcastLog/Txid/Skipping.antt =====
-- The positions that `txidFromSignedHex` passes are the ends of what `serializeTx` writes.
use diginaut_wallet.Prelude.{
  ok-injective, ℕ, suc, ◌+◌, ◌/◌, ◌%◌, ◌≤◌, ◌≡◌, refl, sym, subst, ap, ◌∙◌, List, [], ◌∷◌, ◌++◌,
  append_assoc, append-nil, length, length-append, All, Outcome, ok, ◌>>=◌, >>=_returned, get_elem?,
  some, ltb, leb, true, Bool-cases, inl, inr, arith,
}
use diginaut_wallet.TxBuild.{TxError, Output}
use diginaut_wallet.TxBuild.Wire.{
  u32le, le_fixed, u64le, varint, TxInput, concat_map, outpoint, serialize_input, with_length,
  serialize_output, serialize_witness,
}
use diginaut_wallet.TxBuild.Wire.RoundTrip.{All-unit}
use diginaut_wallet.BroadcastLog.Txid.{
  TxidError, byte_at, number_at, read_varint_at, skip_part, skip_many, skip_input, skip_output,
  skip_witness,
}

-- From the end of whatever stands before, the position goes on to the end of these bytes.
abbrev pub Skips : (List ℕ → ℕ → Outcome TxidError ℕ) → List ℕ → Type 0
Skips f xs =
    (before rest : List ℕ) → f (before ++ (xs ++ rest)) (length before) ≡ ok (length (before ++ xs))

-- Likewise, with a number that is read off these bytes.
abbrev pub Counts : ℕ → List ℕ → Type 0
Counts n xs =
    (before rest : List ℕ)
    → read_varint_at (before ++ (xs ++ rest)) (length before) ≡ ok (n, length (before ++ xs))

split_front : (a x y rest : List ℕ) → a ++ ((x ++ y) ++ rest) ≡ (a ++ x) ++ (y ++ rest)
split_front a x y rest =
    ap (λ t. a ++ t) (append_assoc x y rest) ∙ sym (append_assoc a x (y ++ rest))

Skips-seq :
    (f g : List ℕ → ℕ → Outcome TxidError ℕ) (x y : List ℕ)
    → Skips f x
    → Skips g y
    → Skips (λ bytes pos. f bytes pos >>= λ next. g bytes next) (x ++ y)
Skips-seq f g x y h k before rest =
    let first : f (before ++ ((x ++ y) ++ rest)) (length before) ≡ ok (length (before ++ x)) =
      ap (λ b. f (before ++ b) (length before)) (append_assoc x y rest) ∙ h before (y ++ rest) in
    let second : g (before ++ ((x ++ y) ++ rest)) (length (before ++ x))
        ≡ ok (length ((before ++ x) ++ y)) =
      ap (λ b. g b (length (before ++ x))) (split_front before x y rest) ∙ k (before ++ x) rest in
    ap (λ o. o >>= λ next. g (before ++ ((x ++ y) ++ rest)) next) first
    ∙ second
    ∙ ap (λ b. ok (length b)) (append_assoc before x y)

Counts-seq :
    (g : ℕ → List ℕ → ℕ → Outcome TxidError ℕ) (n : ℕ) (x y : List ℕ)
    → Counts n x
    → Skips (g n) y
    → Skips (λ bytes pos. read_varint_at bytes pos >>= λ (r : ℕ × ℕ). g r.0 bytes r.1) (x ++ y)
Counts-seq g n x y h k before rest =
    let first : read_varint_at (before ++ ((x ++ y) ++ rest)) (length before)
        ≡ ok (n, length (before ++ x)) =
      ap (λ b. read_varint_at (before ++ b) (length before)) (append_assoc x y rest)
      ∙ h before (y ++ rest) in
    let second : g n (before ++ ((x ++ y) ++ rest)) (length (before ++ x))
        ≡ ok (length ((before ++ x) ++ y)) =
      ap (λ b. g n b (length (before ++ x))) (split_front before x y rest) ∙ k (before ++ x) rest in
    ap (λ o. o >>= λ (r : ℕ × ℕ). g r.0 (before ++ ((x ++ y) ++ rest)) r.1) first
    ∙ second
    ∙ ap (λ b. ok (length b)) (append_assoc before x y)

abbrev advance : ℕ → List ℕ → ℕ → Outcome TxidError ℕ
advance n bytes pos = ok (pos + n)

advance-Skips : (n : ℕ) (xs : List ℕ) → length xs ≡ n → Skips (advance n) xs
advance-Skips n xs h before rest = ap ok (omega (arith, h, length-append before xs))

get_elem-append :
    (before ys : List ℕ) (k : ℕ) → get_elem? (before ++ ys) (length before + k) ≡ get_elem? ys k
get_elem-append [] ys k = ap (get_elem? ys) (omega arith)
get_elem-append (b ∷ before) ys k =
    let e : suc (length before) + k ≡ suc (length before + k) = omega arith in
    ap (get_elem? (b ∷ (before ++ ys))) e ∙ get_elem-append before ys k

get_elem-at :
    (before ys : List ℕ) (k p : ℕ) {b : ℕ}
    → p ≡ length before + k
    → get_elem? ys k ≡ some b
    → get_elem? (before ++ ys) p ≡ some b
get_elem-at before ys k p is h = ap (get_elem? (before ++ ys)) is ∙ get_elem-append before ys k ∙ h

one_byte-Counts : (n : ℕ) → ltb n 0xfd ≡ true → Counts n (n ∷ [])
unfolding read_varint_at
one_byte-Counts n one before rest =
    let at = get_elem-at before (n ∷ rest) 0 (length before) (omega arith) refl in
    let read : read_varint_at (before ++ n ∷ rest) (length before) ≡ ok (n, length before + 1) =
      rw (at, read_varint_at, one) refl in
    read ∙ ap (λ (p : ℕ). ok (n, p)) (omega (arith, length-append before (n ∷ [])))

byte_at-append :
    (before ys : List ℕ) (k p b : ℕ)
    → p ≡ length before + k
    → get_elem? ys k ≡ some b
    → byte_at (before ++ ys) p ≡ b
unfolding byte_at
byte_at-append before ys k p b is h = rw (get_elem-at before ys k p is h, byte_at) refl

three_bytes-Counts : (n : ℕ) → n ≤ 0xffff → Counts n (0xfd ∷ n % 256 ∷ n / 256 ∷ [])
unfolding read_varint_at number_at
three_bytes-Counts n h before rest =
    let ys : List ℕ = 0xfd ∷ n % 256 ∷ n / 256 ∷ rest in
    let at = get_elem-at before ys 0 (length before) (omega arith) refl in
    let low = byte_at-append before ys 1 (length before + 1) (n % 256) refl refl in
    let high = byte_at-append before ys 2 (length before + 1 + 1) (n / 256) (omega arith) refl in
    let number : number_at 2 (before ++ ys) (length before + 1) ≡ n = omega (arith, low, high) in
    let read : read_varint_at (before ++ ys) (length before) ≡ ok (n, length before + 3) =
      rw (at, read_varint_at, number) refl in
    read
    ∙ ap (λ (p : ℕ). ok (n, p))
        (omega (arith, length-append before (0xfd ∷ n % 256 ∷ n / 256 ∷ [])))

pub varint-Counts : (n : ℕ) (xs : List ℕ) → varint n ≡ ok xs → Counts n xs
unfolding varint
varint-Counts n xs h = elim (Bool-cases (ltb n 0xfd)) [
  | inl one ↦ subst (Counts n) (ok-injective (rw one at h)) (one_byte-Counts n one)
  | inr more ↦ elim (Bool-cases (leb n 0xffff)) [
    | inl fits ↦
        let made : ok (0xfd ∷ n % 256 ∷ n / 256 ∷ []) ≡ ok xs = rw (more, fits) at h in
        subst (Counts n) (ok-injective made) (three_bytes-Counts n (ground (arith, fits)))
    | inr long ↦ cc (rw (more, long) at h)
  ]
]

pub skip_part-Skips : (bytes out : List ℕ) → with_length bytes ≡ ok out → Skips skip_part out
unfolding skip_part with_length
skip_part-Skips bytes out h =
    let (n, made, counted) = >>=_returned _ (varint (length bytes)) h in
    subst (Skips skip_part) (ok-injective made) (
      Counts-seq advance (length bytes) n bytes (varint-Counts (length bytes) n counted)
        (advance-Skips (length bytes) bytes refl))

pub skip_many-Skips :
    {A : Type 0} (P : A → Type 0) (part : A → Outcome TxError (List ℕ))
    (skip : List ℕ → ℕ → Outcome TxidError ℕ)
    → ((x : A) (out : List ℕ) → P x → part x ≡ ok out → Skips skip out)
    → (xs : List A) (out : List ℕ) → All P xs
    → concat_map part xs ≡ ok out
    → Skips (skip_many skip (length xs)) out
unfolding skip_many concat_map
skip_many-Skips P part skip one [] out h e =
    subst (Skips (skip_many skip 0)) (ok-injective e)
      (λ before rest. ap (λ (p : ℕ). ok p) (omega (arith, length-append before [])))
skip_many-Skips P part skip one (x ∷ xs) out h e =
    let (first, e_1, made) = >>=_returned _ (part x) e in
    let (rest, e_2, more) = >>=_returned _ (concat_map part xs) e_1 in
    subst (Skips (skip_many skip (suc (length xs)))) (ok-injective e_2) (
      Skips-seq skip (skip_many skip (length xs)) first rest (one x first h.0 made)
        (skip_many-Skips P part skip one xs rest h.1 more))

pub skip_output-Skips :
    (o : Output) (out : List ℕ) → serialize_output o ≡ ok out → Skips skip_output out
unfolding skip_output serialize_output u64le le_fixed
skip_output-Skips o out h =
    let (script, made, written) = >>=_returned _ (with_length o.script) h in
    subst (Skips skip_output) (ok-injective made) (
      Skips-seq (advance 8) skip_part (u64le o.value_sats) script
        (advance-Skips 8 (u64le o.value_sats) refl) (skip_part-Skips o.script script written))

pub skip_witness-Skips :
    (w : List (List ℕ)) (out : List ℕ) → serialize_witness w ≡ ok out → Skips skip_witness out
unfolding skip_witness serialize_witness
skip_witness-Skips w out h =
    let (n, h_1, counted) = >>=_returned _ (varint (length w)) h in
    let (items, made, written) = >>=_returned _ (concat_map with_length w) h_1 in
    subst (Skips skip_witness) (ok-injective made) (
      Counts-seq (skip_many skip_part) (length w) n items (varint-Counts (length w) n counted) (
        skip_many-Skips (λ x. Unit {0}) with_length skip_part (λ x o _ e. skip_part-Skips x o e) w
          items (All-unit w) written))

empty_part : (n : List ℕ) → varint 0 ≡ ok n → with_length [] ≡ ok n
unfolding with_length
empty_part n h = rw h (ap (λ (b : List ℕ). ok b) (append-nil n))

-- An input with a txid of 32 bytes.
pub skip_input-Skips :
    (i : TxInput) (point out : List ℕ)
    → outpoint i ≡ ok point
    → length point ≡ 36
    → serialize_input i ≡ ok out
    → Skips skip_input out
unfolding skip_input serialize_input u32le
skip_input-Skips i point out pointed whole h =
    let made : varint 0 >>= (λ n. ok (point ++ (n ++ u32le i.sequence))) ≡ ok out =
      rw pointed at h in
    let (n, is_out, counted) = >>=_returned _ (varint 0) made in
    subst (Skips skip_input) (ok-injective is_out) (
      Skips-seq (advance 36) (λ bytes pos. skip_part bytes pos >>= λ next. ok (next + 4)) point
        (n ++ u32le i.sequence) (advance-Skips 36 point whole)
        (Skips-seq skip_part (advance 4) n (u32le i.sequence)
          (skip_part-Skips [] n (empty_part n counted)) (advance-Skips 4 (u32le i.sequence) refl)))
