-- ===== src/Indexer/Scan/Transfer.antt =====
-- What the indexer reads out of a transfer that the wallet has built.
use diginaut_wallet.Prelude.{
  ℕ, ◌+◌, ◌<◌, ◌≡◌, ◌⊎◌, refl, sym, subst, ap, ◌∙◌, List, [], ◌∷◌, ◌++◌, ◌==◌, append-nil,
  ok-injective, Bool, true, false, some, ok, length, filter, find, All, arith,
}
use diginaut_wallet.Hex.{bytes_to_hex, hex_digit}
use diginaut_wallet.Envelope.Version.{
  transfer, type_name, build_dd_version, parse_dd_version, Classified,
}
use diginaut_wallet.Envelope.Version.Laws.{parse_dd_version-build_dd_version}
use diginaut_wallet.Envelope.Metadata.RoundTrip.{Fits}
use diginaut_wallet.Address.DigiDollar.{starts_with}
use diginaut_wallet.TxBuild.{Output, Recipient, Curve}
use diginaut_wallet.TxBuild.Outputs.{IsToken, output_cents, TransferLayout}
use diginaut_wallet.TxBuild.Transfer.{transfer_body, transfer_body-conserves}
use diginaut_wallet.Indexer.Scan.{
  Double, VerboseOut, is_op_return, is_dd_vout, caught, announced_amounts, paired_amounts,
  amounts_of_type, dd_amounts_by_vout,
}

abbrev shown_out : (ℕ → Double) → ℕ → Output → VerboseOut
shown_out in_dgb i o = record {
  n = i;
  value = in_dgb o.value_sats;
  script_hex = bytes_to_hex o.script;
}

-- The outputs as a node shows them, numbered from i on, with their values in DGB.
abbrev pub shown : (ℕ → Double) → ℕ → List Output → List VerboseOut
shown in_dgb i [] = []
shown in_dgb i (o ∷ outs) = shown_out in_dgb i o ∷ shown in_dgb (i + 1) outs

-- The amounts in their order, with the numbers of the outputs from i on.
abbrev pub numbered : ℕ → List ℕ → List (ℕ × ℕ)
numbered i [] = []
numbered i (c ∷ cs) = (i, c) ∷ numbered (i + 1) cs

-- An output with a value is not taken for metadata.
abbrev pub IsSpendable : Output → Type 0
IsSpendable o =
    (o.value_sats ≡ 0) ⊎ (starts_with (bytes_to_hex o.script) (b'6' ∷ b'a' ∷ []) ≡ false)

filter-append :
    (p : VerboseOut → Bool) (xs ys : List VerboseOut)
    → filter p (xs ++ ys) ≡ filter p xs ++ filter p ys
filter-append p [] ys = refl
filter-append p (x ∷ xs) ys = ground (arith, filter-append p xs ys)

All-parts : (P : Output → Type 0) (xs ys : List Output) → All P (xs ++ ys) → All P xs × All P ys
All-parts P [] ys h = (tt, h)
All-parts P (x ∷ xs) ys h = let (left_, right_) = All-parts P xs ys h.1 in ((h.0, left_), right_)

transfer_version :
    (version : ℕ)
    → build_dd_version "transfer" ≡ ok version
    → (parse_dd_version version).tx_type ≡ some transfer
unfolding type_name
transfer_version version h =
    let (v, made, read, _) = parse_dd_version-build_dd_version transfer in
    let same : v ≡ version = ok-injective (sym made ∙ h) in
    ap (λ (n : ℕ). (parse_dd_version n).tx_type) (sym same)
    ∙ ap (λ (c : Classified). c.tx_type) read

-- The values in DGB are those that a node shows for satoshis: it shows none as none, and nothing
-- else as none.
module _ (in_dgb : ℕ → Double) (zero_shown : (v : ℕ) → ((in_dgb v).mantissa == 0) ≡ (v == 0)) where
  shown-append :
      (i : ℕ) (xs ys : List Output)
      → shown in_dgb i (xs ++ ys) ≡ shown in_dgb i xs ++ shown in_dgb (i + length xs) ys
  shown-append i [] ys = ap (λ (j : ℕ). shown in_dgb j ys) (omega arith)
  shown-append i (x ∷ xs) ys =
      ap (λ t. shown_out in_dgb i x ∷ t)
        (shown-append (i + 1) xs ys
          ∙ ap (λ (j : ℕ). shown in_dgb (i + 1) xs ++ shown in_dgb j ys) (omega arith))

  token-is_dd_vout : (i : ℕ) (o : Output) → IsToken o → is_dd_vout (shown_out in_dgb i o) ≡ true
  unfolding is_dd_vout starts_with bytes_to_hex hex_digit
  token-is_dd_vout i o (free, (key, script)) = rw (zero_shown o.value_sats, free, script) refl

  token-is_op_return :
      (i : ℕ) (o : Output) → IsToken o → is_op_return (shown_out in_dgb i o) ≡ false
  unfolding is_op_return starts_with bytes_to_hex hex_digit
  token-is_op_return i o (free, (key, script)) = rw script refl

  carrier-is_dd_vout :
      (i : ℕ) (o : Output) (rest : List ℕ)
      → o.script ≡ 0x6a ∷ rest
      → is_dd_vout (shown_out in_dgb i o) ≡ false
  unfolding is_dd_vout starts_with bytes_to_hex hex_digit
  carrier-is_dd_vout i o rest script = rw script (ground arith)

  carrier-is_op_return :
      (i : ℕ) (o : Output) (rest : List ℕ)
      → o.script ≡ 0x6a ∷ rest
      → is_op_return (shown_out in_dgb i o) ≡ true
  unfolding is_op_return starts_with bytes_to_hex hex_digit
  carrier-is_op_return i o rest script = rw script refl

  filter-tokens :
      (i : ℕ) (tokens : List Output)
      → All IsToken tokens
      → filter is_dd_vout (shown in_dgb i tokens) ≡ shown in_dgb i tokens
  filter-tokens i [] h = refl
  filter-tokens i (o ∷ tokens) h =
      ground (arith, token-is_dd_vout i o h.0, filter-tokens (i + 1) tokens h.1)

  filter-change :
      (i : ℕ) (change : List Output)
      → All (λ (o : Output). 0 < o.value_sats) change
      → filter is_dd_vout (shown in_dgb i change) ≡ []
  unfolding is_dd_vout
  filter-change i [] h = refl
  filter-change i (o ∷ change) h =
      ground (arith, zero_shown o.value_sats, h.0, filter-change (i + 1) change h.1)

  find-tokens :
      (i : ℕ) (tokens : List Output) (more : List VerboseOut)
      → All IsToken tokens
      → find is_op_return (shown in_dgb i tokens ++ more) ≡ find is_op_return more
  find-tokens i [] more h = refl
  find-tokens i (o ∷ tokens) more h =
      ground (arith, token-is_op_return i o h.0, find-tokens (i + 1) tokens more h.1)

  find-change :
      (i : ℕ) (change : List Output) (more : List VerboseOut)
      → All (λ (o : Output). 0 < o.value_sats) change
      → All IsSpendable change
      → find is_op_return (shown in_dgb i change ++ more) ≡ find is_op_return more
  unfolding is_op_return
  find-change i [] more h k = refl
  find-change i (o ∷ change) more h k =
      ground (arith, h.0, k.0, find-change (i + 1) change more h.1 k.1)

  paired-numbered :
      (i : ℕ) (tokens : List Output) (cents : List ℕ)
      → length tokens ≡ length cents
      → paired_amounts (shown in_dgb i tokens) cents ≡ numbered i cents
  unfolding paired_amounts
  paired-numbered i [] [] h = refl
  paired-numbered i [] (c ∷ cents) h = absurd (omega (arith, h))
  paired-numbered i (o ∷ tokens) [] h = absurd (omega (arith, h))
  paired-numbered i (o ∷ tokens) (c ∷ cents) h =
      ap (λ t. (i, c) ∷ t) (paired-numbered (i + 1) tokens cents (omega (arith, h)))

  module _ (curve : Curve) (rs : List Recipient) (dd dgb : ℕ) (outs : List Output)
      (l : TransferLayout curve rs dd dgb outs) where
    parts : List VerboseOut
    parts =
        shown in_dgb 0 l.tokens
        ++ (shown in_dgb (length l.tokens) l.change
            ++ shown_out in_dgb (length l.tokens + length l.change) l.metadata ∷ [])

    shown-parts : shown in_dgb 0 outs ≡ parts
    unfolding parts
    shown-parts =
        ap (shown in_dgb 0) l.in_order
        ∙ shown-append 0 l.tokens (l.change ++ l.metadata ∷ [])
        ∙ ap (λ (j : ℕ). shown in_dgb 0 l.tokens ++ shown in_dgb j (l.change ++ l.metadata ∷ []))
            (omega arith)
        ∙ ap (λ t. shown in_dgb 0 l.tokens ++ t)
            (shown-append (length l.tokens) l.change (l.metadata ∷ []))

    filter-parts : filter is_dd_vout (shown in_dgb 0 outs) ≡ shown in_dgb 0 l.tokens
    unfolding parts
    filter-parts =
        let (rest, carried) = l.carrier in
        let at = length l.tokens + length l.change in
        let change_shown = shown in_dgb (length l.tokens) l.change in
        let last = shown_out in_dgb at l.metadata in
        ap (filter is_dd_vout) shown-parts
        ∙ filter-append is_dd_vout (shown in_dgb 0 l.tokens) (change_shown ++ last ∷ [])
        ∙ ap (λ t. filter is_dd_vout (shown in_dgb 0 l.tokens) ++ t)
            (filter-append is_dd_vout change_shown (last ∷ [])
              ∙ ground (
                arith,
                filter-change (length l.tokens) l.change l.change_positive,
                carrier-is_dd_vout at l.metadata rest carried,
              ))
        ∙ append-nil (filter is_dd_vout (shown in_dgb 0 l.tokens))
        ∙ filter-tokens 0 l.tokens l.all_tokens

    find-parts :
        All IsSpendable outs
        → find is_op_return (shown in_dgb 0 outs)
          ≡ some (shown_out in_dgb (length l.tokens + length l.change) l.metadata)
    unfolding parts
    find-parts h =
        let (rest, carried) = l.carrier in
        let at = length l.tokens + length l.change in
        let last = shown_out in_dgb at l.metadata in
        let (_, later) =
          All-parts IsSpendable l.tokens (l.change ++ l.metadata ∷ [])
            (subst (All IsSpendable) l.in_order h) in
        let (spendable, _) = All-parts IsSpendable l.change (l.metadata ∷ []) later in
        ap (find is_op_return) shown-parts
        ∙ find-tokens 0 l.tokens (shown in_dgb (length l.tokens) l.change ++ last ∷ []) l.all_tokens
        ∙ find-change (length l.tokens) l.change (last ∷ []) l.change_positive spendable
        ∙ ground (arith, carrier-is_op_return at l.metadata rest carried)

    amounts_of_type-parts :
        All IsSpendable outs
        → amounts_of_type (some transfer) (shown in_dgb 0 outs)
          ≡ some (numbered 0 (output_cents rs dd))
    unfolding amounts_of_type announced_amounts caught
    amounts_of_type-parts h =
        rw (find-parts h, amounts_of_type, announced_amounts, l.announced, filter-parts)
          (ap some (paired-numbered 0 l.tokens (output_cents rs dd) l.paired))

  -- When a transfer of a token below 2 ^ 592 cents is built under the version of transfers,
  -- the node shows a value of zero, and no other, as zero, and no output with a value has an
  -- OP_RETURN script: the indexer reads the recipients' cents and then the DD change, if
  -- there is any, as the amounts of the outputs from the first one on, and none of any other
  -- output.
  pub dd_amounts_by_vout-transfer :
      (curve : Curve) (dd_cents fee_value fee : ℕ) (recipients : List Recipient)
      (owner script_hex : List ℕ) (outs : List Output) (dd dgb version : ℕ)
      → Fits dd_cents
      → transfer_body curve dd_cents fee_value fee recipients owner script_hex ≡ ok (outs, dd, dgb)
      → build_dd_version "transfer" ≡ ok version
      → All IsSpendable outs
      → dd_amounts_by_vout (record { version = version; vout = shown in_dgb 0 outs })
        ≡ some (numbered 0 (output_cents recipients dd))
  unfolding dd_amounts_by_vout
  dd_amounts_by_vout-transfer curve dd_cents fee_value fee recipients owner script_hex outs dd dgb
        version fits h built spendable =
      let l =
        (transfer_body-conserves curve dd_cents fee_value fee recipients owner script_hex outs dd
          dgb fits h).0 in
      ap (λ t. amounts_of_type t (shown in_dgb 0 outs)) (transfer_version version built)
      ∙ amounts_of_type-parts curve recipients dd dgb outs l spendable
