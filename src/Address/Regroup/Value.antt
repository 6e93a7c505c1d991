-- ===== src/Address/Regroup/Value.antt =====
-- What `convertBits` keeps: the groups that are written and the bits that wait are together the
-- number that the data spell in base 2^from.
use Prim.Native.Nat.{bit_or}
use diginaut_wallet.Prelude.{
  ℕ, zero, suc, ◌+◌, ◌-◌, ◌*◌, ◌/◌, ◌%◌, ◌^◌, ◌<◌, ◌≤◌, ◌≡◌, refl, sym, subst, ap, ◌∙◌, List, [],
  ◌∷◌, ◌++◌, arith, All, All-append, length, length-append, leb, if◌then◌else◌, Bool-cases, inl,
  inr, leb→le, leb→lt,
}
use diginaut_wallet.Prelude.Powers.{
  pow_positive, two-pow-add, mod-mul, mod_low, shift_word, quotient_of, remainder_of,
}
use native.Mathlib.Nat.{mod-lt, le_refl}
use diginaut_wallet.Prelude.Xor.{bit_or_low}
use diginaut_wallet.Address.Regroup.{Regrouping, take_in, write_out, write_all, regroup}

-- The number that groups of w bits spell after acc, the most significant group first.
unfoldable pub value : ℕ → ℕ → List ℕ → ℕ
value w acc [] = acc
value w acc (g ∷ gs) = value w (acc * 2 ^ w + g) gs

pub value-append :
    (w acc : ℕ) (xs ys : List ℕ) → value w acc (xs ++ ys) ≡ value w (value w acc xs) ys
unfolding value
value-append w acc [] ys = refl
value-append w acc (x ∷ xs) ys = value-append w (acc * 2 ^ w + x) xs ys

-- The state stands for the number n of `count` bits.
pub record Holds (to n count : ℕ) (r : Regrouping) : Type 0 where
  pub number : value to 0 r.out * 2 ^ r.bits + r.acc % 2 ^ r.bits ≡ n
  pub counted : length r.out * to + r.bits ≡ count
  pub in_range : All (λ g. g < 2 ^ to) r.out

written :
    (v a p q n : ℕ)
    → 0 < p
    → 0 < q
    → v * (p * q) + a % (p * q) ≡ n
    → (v * p + a / q % p) * q + a % q ≡ n
written v a p q n hp hq h = grind (arith, mod-mul a p q hp hq)

pub value_end : (w : ℕ) (xs : List ℕ) (x : ℕ) → value w 0 (xs ++ x ∷ []) ≡ value w 0 xs * 2 ^ w + x
unfolding value
value_end w xs x = value-append w 0 xs (x ∷ [])

pub group-lt : (a to : ℕ) → a % 2 ^ to < 2 ^ to
group-lt a to = mod-lt a (pow_positive to)

pub length_end : {A : Type 0} (xs : List A) (x : A) → length (xs ++ x ∷ []) ≡ suc (length xs)
length_end xs x = omega (arith, length-append xs (x ∷ []))

one_more :
    (l to bits count : ℕ) → to ≤ bits → l * to + bits ≡ count → suc l * to + (bits - to) ≡ count
one_more l to bits count enough h = grind arith

module _ (to n count : ℕ) (r : Regrouping) where
  pub write_out-Holds : to ≤ r.bits → Holds to n count r → Holds to n count (write_out to r)
  unfolding write_out
  write_out-Holds enough h =
      let e : to + (r.bits - to) ≡ r.bits = omega arith in
      let powers : 2 ^ r.bits ≡ 2 ^ to * 2 ^ (r.bits - to) =
        ap (λ (k : ℕ). 2 ^ k) (sym e) ∙ two-pow-add to (r.bits - to) in
      let group = r.acc / 2 ^ (r.bits - to) % 2 ^ to in
      let number : value to 0 r.out * (2 ^ to * 2 ^ (r.bits - to))
            + r.acc % (2 ^ to * 2 ^ (r.bits - to))
          ≡ n =
        sym (ap (λ (t : ℕ). value to 0 r.out * t + r.acc % t) powers) ∙ h.number in
      record {
        number =
            ap (λ (t : ℕ). t * 2 ^ (r.bits - to) + r.acc % 2 ^ (r.bits - to))
              (value_end to r.out group)
            ∙ written (value to 0 r.out) r.acc (2 ^ to) (2 ^ (r.bits - to)) n (pow_positive to)
                (pow_positive (r.bits - to)) number;
        counted =
            ap (λ (l : ℕ). l * to + (r.bits - to)) (length_end r.out group)
            ∙ one_more (length r.out) to r.bits count enough h.counted;
        in_range = All-append _ r.out (group ∷ []) h.in_range (group-lt _ to, tt);
      }

module _ (to n count : ℕ) where
  -- The inner loop ends by its test, with what it stands for unchanged.
  pub write_all-Holds :
      (rounds : ℕ) (r : Regrouping)
      → 0 < to
      → r.bits ≤ rounds
      → Holds to n count r
      → Holds to n count (write_all rounds to r) × ((write_all rounds to r).bits < to)
  unfolding write_all
  write_all-Holds zero r positive enough h = (h, omega arith)
  write_all-Holds (suc rounds) r positive enough h = elim (Bool-cases (leb to r.bits)) [
    | inl more ↦
        rw (more, if◌then◌else◌)
          (write_all-Holds rounds (write_out to r) positive (omega (arith, leb→le to r.bits more))
            (write_out-Holds to n count r (leb→le to r.bits more) h))
    | inr done ↦ rw (done, if◌then◌else◌) (h, leb→lt to r.bits done)
  ]

-- A group that is read is appended to the number.
filled_acc :
    (acc from bits b : ℕ)
    → b < 2 ^ from
    → bits + from ≤ 32
    → bit_or (acc * 2 ^ from % 2 ^ 32) b % 2 ^ (bits + from) ≡ acc % 2 ^ bits * 2 ^ from + b
filled_acc acc from bits b fits room =
    let kept = acc % 2 ^ (32 - from) in
    let sum_of : bit_or (acc * 2 ^ from % 2 ^ 32) b ≡ kept * 2 ^ from + b =
      ap (λ t. bit_or t b) (shift_word acc from 32 (omega arith)) ∙ bit_or_low from kept b fits in
    ap (λ t. t % 2 ^ (bits + from)) sum_of
    ∙ ap (λ t. (kept * 2 ^ from + b) % t) (two-pow-add bits from)
    ∙ mod-mul (kept * 2 ^ from + b) (2 ^ bits) (2 ^ from) (pow_positive bits) (pow_positive from)
    ∙ rw
        (
          quotient_of (kept * 2 ^ from + b) kept b (2 ^ from) fits refl,
          remainder_of (kept * 2 ^ from + b) kept b (2 ^ from) fits refl,
          mod_low acc bits (32 - from) (omega arith),
        )
        refl

appended : (v b f a n x : ℕ) → v * b + a ≡ n → v * (b * f) + (a * f + x) ≡ n * f + x
appended v b f a n x e = grind (arith, ap (λ (t : ℕ). t * f) e)

module _ (from to : ℕ) (positive : 0 < to) (room : to + from ≤ 32) where
  take_in-Holds :
      (n count b : ℕ) (r : Regrouping)
      → b < 2 ^ from
      → r.bits < to
      → Holds to n count r
      → Holds to (n * 2 ^ from + b) (count + from) (take_in from b r)
  unfolding take_in
  take_in-Holds n count b r fits few h = record {
    number =
        ap (λ (t : ℕ). value to 0 r.out * 2 ^ (r.bits + from) + t)
          (filled_acc r.acc from r.bits b fits (omega arith))
        ∙ ap (λ (t : ℕ). value to 0 r.out * t + (r.acc % 2 ^ r.bits * 2 ^ from + b))
            (two-pow-add r.bits from)
        ∙ appended (value to 0 r.out) (2 ^ r.bits) (2 ^ from) (r.acc % 2 ^ r.bits) n b h.number;
    counted = omega (arith, h.counted);
    in_range = h.in_range;
  }

  -- The whole loop: the number that the data spell, in groups of the new size.
  pub regroup-Holds :
      (n count : ℕ) (data_ : List ℕ) (r : Regrouping)
      → All (λ b. b < 2 ^ from) data_
      → r.bits < to
      → Holds to n count r
      → Holds to (value from n data_) (length data_ * from + count) (regroup from to data_ r)
        × ((regroup from to data_ r).bits < to)
  unfolding regroup value
  regroup-Holds n count [] r fit few h =
      let e : count ≡ 0 * from + count = omega arith in (subst (λ k. Holds to n k r) e h, few)
  regroup-Holds n count (b ∷ data_) r fit few h =
      let filled = take_in from b r in
      let next =
        write_all-Holds to (n * 2 ^ from + b) (count + from) filled.bits filled positive (le_refl _)
          (take_in-Holds n count b r fit.0 few h) in
      let rest =
        regroup-Holds (n * 2 ^ from + b) (count + from) data_ (write_all filled.bits to filled)
          fit.1 next.1 next.0 in
      (
        subst
            (λ k.
              Holds to (value from (n * 2 ^ from + b) data_) k
                (regroup from to data_ (write_all filled.bits to filled)))
            (grind arith) rest.0,
        rest.1,
      )
