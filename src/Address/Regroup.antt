-- ===== src/Address/Regroup.antt =====
-- address.js: `convertBits`, which regroups the bits of `data`. The accumulator is never masked in
-- the source: it is an int32 whose pattern is a number below 2^32.
pub mod Value
pub mod RoundTrip
use Prim.Native.Nat.{bit_or}
use diginaut_wallet.Prelude.{
  ℕ, zero, suc, ◌-◌, ◌+◌, ◌*◌, ◌/◌, ◌%◌, ◌^◌, List, [], ◌∷◌, ◌++◌, Bool, true, false, ◌||◌, not,
  Outcome, ok, throw, ltb, leb, ◌==◌, if◌then◌else◌,
}
use diginaut_wallet.Address.{AddressError}

-- The accumulator, the number of its bits that are still to be written, and what is written.
pub record Regrouping : Type 0 where
  pub acc : ℕ
  pub bits : ℕ
  pub out : List ℕ

-- `acc = (acc << from) | b; bits += from;`
unfoldable pub take_in : ℕ → ℕ → Regrouping → Regrouping
take_in from b r = record r { acc = bit_or (r.acc * 2 ^ from % 2 ^ 32) b; bits = r.bits + from }

-- `bits -= to; out.push((acc >>> bits) & maxv);`
unfoldable pub write_out : ℕ → Regrouping → Regrouping
write_out to r = record r {
  bits = r.bits - to;
  out = r.out ++ r.acc / 2 ^ (r.bits - to) % 2 ^ to ∷ [];
}

-- `while (bits >= to)`: each round takes at least one bit, so that as many rounds as bits are enough.
unfoldable pub write_all : ℕ → ℕ → Regrouping → Regrouping
unfolding write_out
write_all zero to r = r
write_all (suc rounds) to r =
    let rest = write_all rounds to (write_out to r) in if leb to r.bits then rest else r

unfoldable pub regroup : ℕ → ℕ → List ℕ → Regrouping → Regrouping
unfolding take_in write_all
regroup from to [] r = r
regroup from to (b ∷ data_) r =
    let filled = take_in from b r in regroup from to data_ (write_all filled.bits to filled)

-- `(acc << (to - bits)) & maxv`
unfoldable pub last_group : ℕ → Regrouping → ℕ
last_group to r = r.acc * 2 ^ (to - r.bits) % 2 ^ 32 % 2 ^ to

unfoldable pub finish : ℕ → ℕ → Bool → Regrouping → Outcome AddressError (List ℕ)
unfolding last_group
finish from to true r = ok (if ltb 0 r.bits then r.out ++ last_group to r ∷ [] else r.out)
finish from to false r =
    if leb from r.bits || not (last_group to r == 0)
    then throw AddressError.invalid_padding
    else ok r.out

unfoldable pub convert_bits : List ℕ → ℕ → ℕ → Bool → Outcome AddressError (List ℕ)
unfolding regroup finish
convert_bits data_ from to pad =
    finish from to pad (regroup from to data_ (record { acc = 0; bits = 0; out = [] }))
