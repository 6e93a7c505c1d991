-- ===== src/BroadcastLog/Txid/Texts.antt =====
-- What `serializeTx` writes is bytes, and the text of bytes passes the test of `txidFromSignedHex`.
use diginaut_wallet.Prelude.{
  ok-injective, ℕ, zero, suc, ◌/◌, ◌%◌, ◌≤◌, ◌<◌, ◌≡◌, refl, subst, List, [], ◌∷◌, map, true,
  length, All, All-append, Outcome, ok, >>=_returned, ltb, leb, Bool-cases, inl, inr, arith,
}
use diginaut_wallet.Hex.{IsByte, bytes_to_hex, hex_digit, digit_value}
use diginaut_wallet.Address.DigiDollar.{is_any_hex, all_any_hex}
use diginaut_wallet.Address.Base58.Radix.{All-reverse_aux}
use diginaut_wallet.Text.{lower_letter}
use diginaut_wallet.Envelope.Metadata.{bytes_of}
use diginaut_wallet.TxBuild.{TxError, Output, from_envelope}
use diginaut_wallet.TxBuild.Taproot.Spending.{bytes_of-IsByte}
use diginaut_wallet.TxBuild.Wire.{
  u32le, le_fixed, u64le, varint, TxInput, Tx, concat_map, outpoint, serialize_input, with_length,
  serialize_output, serialize_witness, tx_bytes,
}
use diginaut_wallet.TxBuild.Wire.RoundTrip.{All-unit}
use diginaut_wallet.BroadcastLog.Txid.{is_even}

digit_passes :
    (d : ℕ)
    → d < 16
    → (is_any_hex (hex_digit d) ≡ true) × (lower_letter (hex_digit d) ≡ hex_digit d)
unfolding is_any_hex digit_value hex_digit lower_letter
digit_passes d h = (ground arith, ground arith)

pub all_any_hex-bytes_to_hex :
    (bytes : List ℕ) → All IsByte bytes → all_any_hex (bytes_to_hex bytes) ≡ true
unfolding all_any_hex bytes_to_hex
all_any_hex-bytes_to_hex [] h = refl
all_any_hex-bytes_to_hex (b ∷ bytes) (here, later) =
    rw
      (
        (digit_passes (b / 16) (omega (arith, here))).0,
        (digit_passes (b % 16) (omega arith)).0,
        all_any_hex-bytes_to_hex bytes later,
      )
      refl

pub lower_letter-bytes_to_hex :
    (bytes : List ℕ) → All IsByte bytes → map lower_letter (bytes_to_hex bytes) ≡ bytes_to_hex bytes
unfolding bytes_to_hex
lower_letter-bytes_to_hex [] h = refl
lower_letter-bytes_to_hex (b ∷ bytes) (here, later) =
    rw
      (
        (digit_passes (b / 16) (omega (arith, here))).1,
        (digit_passes (b % 16) (omega arith)).1,
        lower_letter-bytes_to_hex bytes later,
      )
      refl

pub is_even-bytes_to_hex : (bytes : List ℕ) → is_even (length (bytes_to_hex bytes)) ≡ true
unfolding is_even bytes_to_hex
is_even-bytes_to_hex [] = refl
is_even-bytes_to_hex (b ∷ bytes) = rw (is_even-bytes_to_hex bytes) refl

-- The scripts and witness items of a transaction are bytes.
pub record IsByteTx (tx : Tx) (witnesses : List (List (List ℕ))) : Type 0 where
  pub scripts : All (λ (o : Output). All IsByte o.script) tx.outputs
  pub items : All (λ (w : List (List ℕ)). All (All IsByte) w) witnesses

u32le-IsByte : (n : ℕ) → All IsByte (u32le n)
unfolding u32le
u32le-IsByte n = omega arith

le_fixed-IsByte : (k n : ℕ) → All IsByte (le_fixed k n)
unfolding le_fixed
le_fixed-IsByte zero n = tt
le_fixed-IsByte (suc k) n = (omega arith, le_fixed-IsByte k (n / 256))

varint-IsByte : (n : ℕ) (out : List ℕ) → varint n ≡ ok out → All IsByte out
unfolding varint
varint-IsByte n out h = elim (Bool-cases (ltb n 0xfd)) [
  | inl one ↦
      let small : n < 256 = ground (arith, one) in
      subst (All IsByte) (ok-injective (rw one at h)) (small, tt)
  | inr more ↦ elim (Bool-cases (leb n 0xffff)) [
    | inl fits ↦
        let made : ok (0xfd ∷ n % 256 ∷ n / 256 ∷ []) ≡ ok out = rw (more, fits) at h in
        let small : n ≤ 0xffff = ground (arith, fits) in
        subst (All IsByte) (ok-injective made) (omega arith, (omega arith, (omega arith, tt)))
    | inr long ↦ cc (rw (more, long) at h)
  ]
]

concat_map-IsByte :
    {A : Type 0} (P : A → Type 0) (part : A → Outcome TxError (List ℕ))
    → ((x : A) (out : List ℕ) → P x → part x ≡ ok out → All IsByte out)
    → (xs : List A) (out : List ℕ) → All P xs
    → concat_map part xs ≡ ok out
    → All IsByte out
unfolding concat_map
concat_map-IsByte P part one [] out h e = subst (All IsByte) (ok-injective e) tt
concat_map-IsByte P part one (x ∷ xs) out h e =
    let (first, e_1, made) = >>=_returned _ (part x) e in
    let (rest, e_2, more) = >>=_returned _ (concat_map part xs) e_1 in
    subst (All IsByte) (ok-injective e_2) (
      All-append IsByte first rest (one x first h.0 made)
        (concat_map-IsByte P part one xs rest h.1 more))

with_length-IsByte :
    (bytes out : List ℕ) → All IsByte bytes → with_length bytes ≡ ok out → All IsByte out
unfolding with_length
with_length-IsByte bytes out h e =
    let (n, made, counted) = >>=_returned _ (varint (length bytes)) e in
    subst (All IsByte) (ok-injective made)
      (All-append IsByte n bytes (varint-IsByte (length bytes) n counted) h)

serialize_input-IsByte : (i : TxInput) (out : List ℕ) → serialize_input i ≡ ok out → All IsByte out
unfolding serialize_input outpoint
serialize_input-IsByte i out h =
    let (point, h_1, pointed) = >>=_returned _ (outpoint i) h in
    let (txid, is_point, read) = >>=_returned _ (from_envelope (bytes_of i.txid_hex)) pointed in
    let (n, made, counted) = >>=_returned _ (varint 0) h_1 in
    let point_bytes : All IsByte point = subst (All IsByte) (ok-injective is_point) (
      All-append IsByte _ (u32le i.vout)
        (All-reverse_aux IsByte txid [] (bytes_of-IsByte i.txid_hex txid read) tt)
        (u32le-IsByte i.vout)) in
    subst (All IsByte) (ok-injective made) (
      All-append IsByte point _ point_bytes
        (All-append IsByte n _ (varint-IsByte 0 n counted) (u32le-IsByte i.sequence)))

serialize_output-IsByte :
    (o : Output) (out : List ℕ) → All IsByte o.script → serialize_output o ≡ ok out → All IsByte out
unfolding serialize_output u64le
serialize_output-IsByte o out h e =
    let (script, made, written) = >>=_returned _ (with_length o.script) e in
    subst (All IsByte) (ok-injective made) (
      All-append IsByte (u64le o.value_sats) script (le_fixed-IsByte 8 o.value_sats)
        (with_length-IsByte o.script script h written))

serialize_witness-IsByte :
    (w : List (List ℕ)) (out : List ℕ)
    → All (All IsByte) w
    → serialize_witness w ≡ ok out
    → All IsByte out
unfolding serialize_witness
serialize_witness-IsByte w out h e =
    let (n, e_1, counted) = >>=_returned _ (varint (length w)) e in
    let (items, made, written) = >>=_returned _ (concat_map with_length w) e_1 in
    subst (All IsByte) (ok-injective made) (
      All-append IsByte n items (varint-IsByte (length w) n counted)
        (concat_map-IsByte (All IsByte) with_length with_length-IsByte w items h written))

pub tx_bytes-IsByte :
    (tx : Tx) (witnesses : List (List (List ℕ))) (out : List ℕ)
    → IsByteTx tx witnesses
    → tx_bytes tx witnesses ≡ ok out
    → All IsByte out
unfolding tx_bytes
tx_bytes-IsByte tx witnesses out v h =
    let (n_in, h_1, c_1) = >>=_returned _ (varint (length tx.inputs)) h in
    let (ins, h_2, c_2) = >>=_returned _ (concat_map serialize_input tx.inputs) h_1 in
    let (n_out, h_3, c_3) = >>=_returned _ (varint (length tx.outputs)) h_2 in
    let (outs, h_4, c_4) = >>=_returned _ (concat_map serialize_output tx.outputs) h_3 in
    let (wits, h_5, c_5) = >>=_returned _ (concat_map serialize_witness witnesses) h_4 in
    let join = All-append IsByte in
    subst (All IsByte) (ok-injective h_5) (
      join (u32le tx.version) _ (u32le-IsByte tx.version) (
        omega arith,
        (
          omega arith,
          join n_in _ (varint-IsByte _ n_in c_1) (
              join ins _
                (concat_map-IsByte (λ x. Unit {0}) serialize_input
                  (λ i o _ e. serialize_input-IsByte i o e) tx.inputs ins (All-unit tx.inputs) c_2)
                (join n_out _ (varint-IsByte _ n_out c_3) (
                  join outs _
                    (concat_map-IsByte _ serialize_output serialize_output-IsByte tx.outputs outs
                      v.scripts c_4)
                    (join wits _
                      (concat_map-IsByte _ serialize_witness serialize_witness-IsByte witnesses wits
                        v.items c_5)
                      (u32le-IsByte tx.locktime))))),
        ),
      ))
