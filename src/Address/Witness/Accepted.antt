-- ===== src/Address/Witness/Accepted.antt =====
-- What the decoder lets through: only versions and programs that BIP-173 and BIP-350 allow.
use diginaut_wallet.Prelude.{
  ok-injective, ℕ, zero, suc, ◌+◌, ◌-◌, ◌/◌, ◌%◌, ◌^◌, ◌<◌, ◌≡◌, refl, subst, List, [], ◌∷◌, arith,
  ok, ◌==◌, ==_iff, if◌then◌else◌, ltb, leb, true, false, All, All-append, length, drop, Bool-cases,
  inl, inr, throw_if, Bool, >>=_returned, >>_returned,
}
use diginaut_wallet.Hex.{IsByte, bytes_to_hex}
use diginaut_wallet.Address.{AddressError}
use diginaut_wallet.Address.Regroup.{
  Regrouping, take_in, write_out, write_all, regroup, finish, convert_bits,
}
use diginaut_wallet.Address.Regroup.Value.{group-lt}
use diginaut_wallet.Address.Regroup.RoundTrip.{empty_regrouping}
use diginaut_wallet.Address.Witness.{
  Witness, separator, digits_of, first_of, inner, bad_length, bad_v0, decode_lower,
  decode_witness_address,
}
use diginaut_wallet.Address.Witness.RoundTrip.{IsProgram}

module _ (to : ℕ) where
  write_all-All :
      (rounds : ℕ) (r : Regrouping)
      → All (λ g. g < 2 ^ to) r.out
      → All (λ g. g < 2 ^ to) (write_all rounds to r).out
  unfolding write_all write_out
  write_all-All zero r h = h
  write_all-All (suc rounds) r h = elim (Bool-cases (leb to r.bits)) [
    | inl more ↦
        rw (more, if◌then◌else◌)
          (write_all-All rounds (write_out to r)
            (All-append _ r.out (r.acc / 2 ^ (r.bits - to) % 2 ^ to ∷ []) h (group-lt _ to, tt)))
    | inr done ↦ rw (done, if◌then◌else◌) h
  ]

  regroup-All :
      (from : ℕ) (data_ : List ℕ) (r : Regrouping)
      → All (λ g. g < 2 ^ to) r.out
      → All (λ g. g < 2 ^ to) (regroup from to data_ r).out
  unfolding regroup take_in
  regroup-All from [] r h = h
  regroup-All from (b ∷ data_) r h =
      regroup-All from data_ (write_all (take_in from b r).bits to (take_in from b r))
        (write_all-All (take_in from b r).bits (take_in from b r) h)

finish_out :
    (from to : ℕ) (r : Regrouping) {out : List ℕ} → finish from to false r ≡ ok out → r.out ≡ out
unfolding finish
finish_out from to r h = ground (arith, h)

convert_bits-All :
    (gs : List ℕ) {program : List ℕ} → convert_bits gs 5 8 false ≡ ok program → All IsByte program
unfolding convert_bits
convert_bits-All gs h =
    subst (All IsByte) (finish_out 5 8 (regroup 5 8 gs empty_regrouping) h)
      (regroup-All 8 5 gs empty_regrouping tt)

-- The facts that the tests of the decoder leave.
IsProgram-of :
    (version : ℕ) (program : List ℕ)
    → All IsByte program
    → ltb 16 version ≡ false
    → bad_length program ≡ false
    → bad_v0 version program ≡ false
    → IsProgram version program
unfolding bad_length bad_v0
IsProgram-of version program bytes opcode lengths v0 = record {
  bytes = bytes;
  opcode = ground (arith, opcode);
  long_enough = ground (arith, lengths);
  short_enough = ground (arith, lengths);
  v0 = λ is_zero. elim (Bool-cases (length program == 20)) [
    | inl twenty ↦ inl ((==_iff (length program) 20).0 twenty)
    | inr other ↦ inr ((==_iff (length program) 32).0 (ground (arith, v0, is_zero, other)))
  ];
}

pub passed : (b : Bool) (e : AddressError) → throw_if b e ≡ ok tt → b ≡ false
passed true e h = cc
passed false e h = refl

-- A witness and the program that its text stands for.
pub record IsAccepted (w : Witness) : Type 0 where
  pub program : List ℕ
  pub spelled_out : w.program_hex ≡ bytes_to_hex program
  pub allowed : IsProgram w.version program

decode_lower-IsAccepted : (lower : List ℕ) {w : Witness} → decode_lower lower ≡ ok w → IsAccepted w
unfolding decode_lower
decode_lower-IsAccepted lower h =
    let (sep, h1, _) = >>=_returned _ (separator lower) h in
    let (digits, h2, _) = >>=_returned _ (digits_of (drop (sep + 1) lower)) h1 in
    let (h3, opcode) = >>_returned _ _ h2 in
    let (h4, _) = >>_returned _ _ h3 in
    let (program, h5, converted) = >>=_returned _ (convert_bits (inner digits) 5 8 false) h4 in
    let (h6, lengths) = >>_returned _ _ h5 in
    let (h7, v0) = >>_returned _ _ h6 in
    let version = first_of digits in
    let fine =
      IsProgram-of version program (convert_bits-All (inner digits) converted)
        (passed (ltb 16 version) AddressError.version_out_of_range opcode)
        (passed (bad_length program) AddressError.program_length_out_of_range lengths)
        (passed (bad_v0 version program) AddressError.bad_v0_length v0) in
    subst IsAccepted (ok-injective h7)
      (record { program = program; spelled_out = refl; allowed = fine })

module _ (to_lower to_upper : List ℕ → List ℕ) where
  -- Whatever text is decoded, the version has an opcode and the program a length that is allowed.
  pub decode_witness_address-IsAccepted :
      (addr : List ℕ) {w : Witness}
      → decode_witness_address to_lower to_upper addr ≡ ok w
      → IsAccepted w
  unfolding decode_witness_address
  decode_witness_address-IsAccepted addr h =
      let (h1, _) = >>_returned _ _ h in
      let (h2, _) = >>_returned _ _ h1 in decode_lower-IsAccepted (to_lower addr) h2
