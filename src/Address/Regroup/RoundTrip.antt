-- ===== src/Address/Regroup/RoundTrip.antt =====
-- Bytes that are regrouped by five, with padding, are read back from the groups.
use diginaut_wallet.Prelude.{
  ℕ, ◌+◌, ◌-◌, ◌*◌, ◌%◌, ◌^◌, ◌<◌, ◌≤◌, ◌≡◌, refl, sym, subst, ap, ◌∙◌, List, [], ◌∷◌, ◌++◌, arith,
  All, All-append, length, ltb, if◌then◌else◌, Bool-cases, inl, inr, true, false, ok, ltb→lt,
}
use diginaut_wallet.Prelude.Powers.{
  pow_positive, two-pow-add, mod_low, shift_word, quotient_of, remainder_of,
}
use diginaut_wallet.Address.Regroup.{Regrouping, regroup, finish, last_group, convert_bits}
use diginaut_wallet.Address.Regroup.Value.{
  value, value_end, length_end, group-lt, Holds, regroup-Holds,
}

-- Groups of the same size that spell the same number are the same.
value_injective :
    (w a b : ℕ) (xs ys : List ℕ)
    → length xs ≡ length ys
    → All (λ x. x < 2 ^ w) xs
    → All (λ x. x < 2 ^ w) ys
    → value w a xs ≡ value w b ys
    → (a ≡ b) × (xs ≡ ys)
unfolding value
value_injective w a b [] [] l p q e = (e, refl)
value_injective w a b [] (y ∷ ys) l p q e = absurd (omega arith)
value_injective w a b (x ∷ xs) [] l p q e = absurd (omega arith)
value_injective w a b (x ∷ xs) (y ∷ ys) l p q e =
    let (heads, tails) =
      value_injective w (a * 2 ^ w + x) (b * 2 ^ w + y) xs ys (omega arith) p.1 q.1 e in
    let high : a ≡ b =
      sym (quotient_of _ a x (2 ^ w) p.0 refl) ∙ quotient_of _ b y (2 ^ w) q.0 heads in
    let low : x ≡ y =
      sym (remainder_of _ a x (2 ^ w) p.0 refl) ∙ remainder_of _ b y (2 ^ w) q.0 heads in
    (high, cc)

-- The bits that wait, moved to the top of a group.
last_group_lem :
    (to : ℕ) (r : Regrouping)
    → to ≤ 32
    → r.bits ≤ to
    → last_group to r ≡ r.acc % 2 ^ r.bits * 2 ^ (to - r.bits)
unfolding last_group
last_group_lem to r small few =
    let e : to - (to - r.bits) ≡ r.bits = omega arith in
    mod_low (r.acc * 2 ^ (to - r.bits)) to 32 small
    ∙ shift_word r.acc (to - r.bits) to (omega arith)
    ∙ ap (λ (k : ℕ). r.acc % 2 ^ k * 2 ^ (to - r.bits)) e

abbrev pub empty_regrouping : Regrouping
empty_regrouping = record { acc = 0; bits = 0; out = [] }

empty-Holds : (to : ℕ) → Holds to 0 0 empty_regrouping
unfolding value
empty-Holds to = record { number = refl; counted = omega arith; in_range = tt }

last_group-lt : (r : Regrouping) → last_group 5 r < 2 ^ 5
unfolding last_group
last_group-lt r = group-lt _ 5

no_bits : (n : ℕ) → ltb 0 n ≡ false → n ≡ 0
no_bits n h = ground arith

at_end : (v a bits n : ℕ) → bits ≡ 0 → v * 2 ^ bits + a % 2 ^ bits ≡ n → v ≡ n * 2 ^ 0
at_end v a bits n e h = let h' = subst (λ k. v * 2 ^ k + a % 2 ^ k ≡ n) e h in omega arith

-- What the encoder's call returns: the number of the data, shifted by the p bits of padding.
pub record Padded (data_ gs : List ℕ) : Type 0 where
  pub pad : ℕ
  pub few : pad < 5
  pub number : value 5 0 gs ≡ value 8 0 data_ * 2 ^ pad
  pub counted : length gs * 5 ≡ length data_ * 8 + pad
  pub in_range : All (λ g. g < 2 ^ 5) gs

moved : (v b a n q full : ℕ) → full ≡ b * q → v * b + a ≡ n → v * full + a * q ≡ n * q
moved v b a n q full e h = grind (arith, ap (λ (t : ℕ). t * q) h, ap (λ (t : ℕ). v * t) e)

module _ (data_ : List ℕ) where
  finish-Padded :
      (r : Regrouping)
      → Holds 5 (value 8 0 data_) (length data_ * 8 + 0) r
      → r.bits < 5
      → (gs : List ℕ) × (finish 8 5 true r ≡ ok gs) × Padded data_ gs
  unfolding finish
  finish-Padded r h few = elim (Bool-cases (ltb 0 r.bits)) [
    | inl some_left ↦ (
      r.out ++ last_group 5 r ∷ [],
      rw (some_left, if◌then◌else◌) refl,
      record {
        pad = 5 - r.bits;
        few = omega (arith, ltb→lt 0 r.bits some_left);
        number =
            let e : 5 ≡ r.bits + (5 - r.bits) = omega arith in
            value_end 5 r.out (last_group 5 r)
            ∙ ap (λ (t : ℕ). value 5 0 r.out * 2 ^ 5 + t)
                (last_group_lem 5 r (omega arith) (omega arith))
            ∙ moved (value 5 0 r.out) (2 ^ r.bits) (r.acc % 2 ^ r.bits) _ (2 ^ (5 - r.bits)) (2 ^ 5)
                (ap (λ (k : ℕ). 2 ^ k) e ∙ two-pow-add r.bits (5 - r.bits)) h.number;
        counted = omega (arith, h.counted, length_end r.out (last_group 5 r));
        in_range = All-append _ r.out (last_group 5 r ∷ []) h.in_range (last_group-lt r, tt);
      },
    )
    | inr none_left ↦
        let e : r.bits ≡ 0 = no_bits r.bits none_left in
        (
          r.out,
          rw (none_left, if◌then◌else◌) refl,
          record {
            pad = 0;
            few = omega arith;
            number = at_end (value 5 0 r.out) r.acc r.bits (value 8 0 data_) e h.number;
            counted = omega (arith, h.counted);
            in_range = h.in_range;
          },
        )
  ]

  pub convert_bits-Padded :
      All (λ b. b < 2 ^ 8) data_
      → (gs : List ℕ) × (convert_bits data_ 8 5 true ≡ ok gs) × Padded data_ gs
  unfolding convert_bits
  convert_bits-Padded bytes =
      let (h, few) =
        regroup-Holds 8 5 (omega arith) (omega arith) 0 0 data_ empty_regrouping bytes (omega arith)
          (empty-Holds 5) in
      finish-Padded (regroup 8 5 data_ empty_regrouping) h few

same_count :
    (l n bits pad : ℕ) → bits < 8 → pad < 5 → l * 8 + bits ≡ n * 8 + pad → (l ≡ n) × (bits ≡ pad)
same_count l n bits pad few less e = (omega arith, omega arith)

same_number : (v n q a : ℕ) → 0 < q → a < q → v * q + a ≡ n * q → (v ≡ n) × (a ≡ 0)
same_number v n q a positive small e = (
  sym (quotient_of (v * q + a) v a q small refl)
      ∙ quotient_of (v * q + a) n 0 q positive (e ∙ omega arith),
  sym (remainder_of (v * q + a) v a q small refl)
      ∙ remainder_of (v * q + a) n 0 q positive (e ∙ omega arith),
)

module _ (data_ gs : List ℕ) (bytes : All (λ b. b < 2 ^ 8) data_) (p : Padded data_ gs) where
  finish-read :
      (r : Regrouping)
      → Holds 8 (value 5 0 gs) (length gs * 5 + 0) r
      → r.bits < 8
      → finish 5 8 false r ≡ ok data_
  unfolding finish
  finish-read r h few =
      let (lengths, pads) =
        same_count (length r.out) (length data_) r.bits p.pad few p.few
          (omega (arith, h.counted, p.counted)) in
      let aligned : value 8 0 r.out * 2 ^ r.bits + r.acc % 2 ^ r.bits
          ≡ value 8 0 data_ * 2 ^ r.bits =
        h.number ∙ p.number ∙ ap (λ (k : ℕ). value 8 0 data_ * 2 ^ k) (sym pads) in
      let (numbers, nothing) =
        same_number (value 8 0 r.out) (value 8 0 data_) (2 ^ r.bits) (r.acc % 2 ^ r.bits)
          (pow_positive r.bits) (group-lt r.acc r.bits) aligned in
      let (_, same) = value_injective 8 0 0 r.out data_ lengths h.in_range bytes numbers in
      let clean : last_group 8 r ≡ 0 =
        last_group_lem 8 r (omega arith) (omega arith)
        ∙ ap (λ (t : ℕ). t * 2 ^ (8 - r.bits)) nothing
        ∙ omega arith in
      ground (arith, clean, same, p.few, pads)

  pub convert_bits-Padded_read : convert_bits gs 5 8 false ≡ ok data_
  unfolding convert_bits
  convert_bits-Padded_read =
      let (h, few) =
        regroup-Holds 5 8 (omega arith) (omega arith) 0 0 gs empty_regrouping p.in_range
          (omega arith) (empty-Holds 8) in
      finish-read (regroup 5 8 gs empty_regrouping) h few
