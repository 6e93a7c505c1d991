-- ===== src/Envelope/Pushes/Laws.antt =====
-- `readPushes` reads back the pushes of a script, and ends on every script.
use diginaut_wallet.Prelude.{
  ℕ, zero, suc, ◌+◌, ◌≤◌, ◌≡◌, refl, ◌≢◌, List, [], ◌∷◌, ◌++◌, Outcome, ok, throw, length,
  length-append, take, drop, take-append, drop-append, All, Bool-cases, inl, inr, arith, ltb,
}
use diginaut_wallet.Envelope.Pushes.{EnvelopeError, stuck, push, prepend, read_loop, read_pushes}

-- The bytes of a list of pushes.
abbrev pub pushes : List (List ℕ) → List ℕ
pushes [] = []
pushes (p ∷ ps) = push p ++ pushes ps

abbrev pub IsDirect : List ℕ → Type 0
IsDirect p = length p ≤ 75

read_loop_step :
    (fuel i : ℕ) (p rest : List ℕ)
    → IsDirect p
    → read_loop (suc fuel) i (push p ++ rest) ≡ prepend p (read_loop fuel (i + 1 + length p) rest)
unfolding read_loop push
read_loop_step fuel i p rest h = ground (arith, take-append p rest, drop-append p rest)

pub read_loop-pushes :
    (ps : List (List ℕ)) (fuel i : ℕ)
    → All IsDirect ps
    → length (pushes ps) ≤ fuel
    → read_loop fuel i (pushes ps) ≡ ok ps
unfolding prepend
read_loop-pushes [] fuel i h f = unfold read_loop in refl
read_loop-pushes (p ∷ ps) zero i h f = absurd (unfold push in omega arith)
read_loop-pushes (p ∷ ps) (suc fuel) i (hp, hps) f = rw (
  read_loop_step fuel i p (pushes ps) hp,
  read_loop-pushes ps fuel (i + 1 + length p) hps
      (unfold push in omega (arith, length-append p (pushes ps))),
)

-- `readPushes` returns the pushes that a script was built from, when none is longer than 75 bytes.
pub read_pushes-pushes :
    (ps : List (List ℕ)) → All IsDirect ps → read_pushes (0x6a ∷ pushes ps) ≡ ok ps
unfolding read_pushes
read_pushes-pushes ps h = read_loop-pushes ps _ 1 h (omega arith)

prepend-ne-stuck :
    (p : List ℕ) (r : Outcome EnvelopeError (List (List ℕ)))
    → r ≢ throw stuck
    → prepend p r ≢ throw stuck
unfolding prepend
prepend-ne-stuck p (ok ps) h e = cc
prepend-ne-stuck p (throw x) h e = h e

length-drop_le : (n : ℕ) (xs : List ℕ) → length (drop n xs) ≤ length xs
length-drop_le zero xs = omega arith
length-drop_le (suc n) [] = omega arith
length-drop_le (suc n) (x ∷ xs) = omega (arith, length-drop_le n xs)

read_loop-ne-stuck :
    (fuel i : ℕ) (bs : List ℕ) → length bs ≤ fuel → read_loop fuel i bs ≢ throw stuck
unfolding read_loop
read_loop-ne-stuck fuel i [] h = λ e. cc
read_loop-ne-stuck zero i (b ∷ bs) h = absurd (omega arith)
read_loop-ne-stuck (suc fuel) i (b ∷ bs) h =
    let more = read_loop fuel (i + 1 + b) (drop b bs) in
    let ends =
      prepend-ne-stuck (take b bs) more
        (read_loop-ne-stuck fuel _ (drop b bs) (omega (arith, length-drop_le b bs))) in
    elim (Bool-cases (ltb 75 b)) [ inl e ↦ rw e (λ x. cc) | inr e ↦ rw e ends ]

-- The loop of `readPushes` ends on every script, well formed or not.
pub read_pushes-ne-stuck : (script : List ℕ) → read_pushes script ≢ throw stuck
unfolding read_pushes
read_pushes-ne-stuck [] = λ e. cc
read_pushes-ne-stuck (op ∷ rest) = ground (arith, read_loop-ne-stuck (length rest) 1 rest)
