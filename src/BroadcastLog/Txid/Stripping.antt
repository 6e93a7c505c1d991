-- ===== src/BroadcastLog/Txid/Stripping.antt =====
-- The witnesses are cut out of the bytes of a transaction, for parts that the positions pass.
use diginaut_wallet.Prelude.{
  ℕ, ◌+◌, ◌-◌, ◌<◌, ◌≡◌, sym, ap, ◌∙◌, List, [], ◌∷◌, ◌++◌, true, false, append_assoc, length,
  length-append, take, drop, take-append, drop-append, ok, ◌==◌, ==_iff, arith,
}
use diginaut_wallet.BroadcastLog.Txid.{
  read_varint_at, skip_many, skip_input, skip_output, skip_witness, is_segwit, strip_witnesses,
}
use diginaut_wallet.BroadcastLog.Txid.Skipping.{Skips, Counts}

module _ (v_0 v_1 v_2 v_3 : ℕ) (n_in ins n_out outs wits end_ : List ℕ) (a b : ℕ) where
  abbrev front : List ℕ
  front = v_0 ∷ v_1 ∷ v_2 ∷ v_3 ∷ 0 ∷ 1 ∷ []

  abbrev whole : List ℕ
  whole = front ++ (n_in ++ (ins ++ (n_out ++ (outs ++ (wits ++ end_)))))

  abbrev body : List ℕ
  body = n_in ++ (ins ++ (n_out ++ outs))

  abbrev to_outputs : List ℕ
  to_outputs = (((front ++ n_in) ++ ins) ++ n_out) ++ outs

  at_inputs : whole ≡ (front ++ n_in) ++ (ins ++ (n_out ++ (outs ++ (wits ++ end_))))
  at_inputs = sym (append_assoc front n_in (ins ++ (n_out ++ (outs ++ (wits ++ end_)))))

  at_count : whole ≡ ((front ++ n_in) ++ ins) ++ (n_out ++ (outs ++ (wits ++ end_)))
  at_count = at_inputs ∙ sym (append_assoc (front ++ n_in) ins (n_out ++ (outs ++ (wits ++ end_))))

  at_outputs : whole ≡ (((front ++ n_in) ++ ins) ++ n_out) ++ (outs ++ (wits ++ end_))
  at_outputs = at_count ∙ sym (append_assoc ((front ++ n_in) ++ ins) n_out (outs ++ (wits ++ end_)))

  at_witnesses : whole ≡ to_outputs ++ (wits ++ end_)
  at_witnesses =
      at_outputs ∙ sym (append_assoc (((front ++ n_in) ++ ins) ++ n_out) outs (wits ++ end_))

  at_end : whole ≡ (to_outputs ++ wits) ++ end_
  at_end = at_witnesses ∙ sym (append_assoc to_outputs wits end_)

  body_is : (rest : List ℕ) → body ++ rest ≡ n_in ++ (ins ++ (n_out ++ (outs ++ rest)))
  body_is rest =
      append_assoc n_in (ins ++ (n_out ++ outs)) rest
      ∙ ap (λ t. n_in ++ t)
          (append_assoc ins (n_out ++ outs) rest
            ∙ ap (λ t. ins ++ t) (append_assoc n_out outs rest))

  length-to_outputs : length to_outputs ≡ 6 + length body
  length-to_outputs = omega (
    arith,
    length-append (((front ++ n_in) ++ ins) ++ n_out) outs,
    length-append ((front ++ n_in) ++ ins) n_out,
    length-append (front ++ n_in) ins,
    length-append front n_in,
    length-append n_in (ins ++ (n_out ++ outs)),
    length-append ins (n_out ++ outs),
    length-append n_out outs,
  )

  length-whole : length end_ ≡ 4 → length whole ≡ length (to_outputs ++ wits) + 4
  length-whole h = ap length at_end ∙ omega (arith, h, length-append (to_outputs ++ wits) end_)

  body_taken : take (length to_outputs - 6) (drop 6 whole) ≡ body
  body_taken =
      let n : length to_outputs - 6 ≡ length body = omega (arith, length-to_outputs) in
      ap (λ k. take k (drop 6 whole)) n
      ∙ ap (take (length body)) (sym (body_is (wits ++ end_)))
      ∙ take-append body (wits ++ end_)

  end_taken : length end_ ≡ 4 → drop (length whole - 4) whole ≡ end_
  end_taken h =
      let n : length whole - 4 ≡ length (to_outputs ++ wits) = omega (arith, length-whole h) in
      ap (λ k. drop k whole) n
      ∙ ap (drop (length (to_outputs ++ wits))) at_end
      ∙ drop-append (to_outputs ++ wits) end_

  pub strip_witnesses-made :
      length end_ ≡ 4
      → 0 < a
      → Counts a n_in
      → Skips (skip_many skip_input a) ins
      → Counts b n_out
      → Skips (skip_many skip_output b) outs
      → Skips (skip_many skip_witness a) wits
      → strip_witnesses whole
        ≡ ok (v_0 ∷ v_1 ∷ v_2 ∷ v_3 ∷ n_in ++ (ins ++ (n_out ++ (outs ++ end_))))
  unfolding strip_witnesses is_segwit
  strip_witnesses-made short positive c_in s_in c_out s_out s_wit =
      let some_in : (a == 0) ≡ false = ground (arith, positive) in
      let p_1 = c_in front (ins ++ (n_out ++ (outs ++ (wits ++ end_)))) in
      let p_2 : skip_many skip_input a whole (length (front ++ n_in))
          ≡ ok (length ((front ++ n_in) ++ ins)) =
        ap (λ w. skip_many skip_input a w (length (front ++ n_in))) at_inputs
        ∙ s_in (front ++ n_in) (n_out ++ (outs ++ (wits ++ end_))) in
      let p_3 : read_varint_at whole (length ((front ++ n_in) ++ ins))
          ≡ ok (b, length (((front ++ n_in) ++ ins) ++ n_out)) =
        ap (λ w. read_varint_at w (length ((front ++ n_in) ++ ins))) at_count
        ∙ c_out ((front ++ n_in) ++ ins) (outs ++ (wits ++ end_)) in
      let p_4 : skip_many skip_output b whole (length (((front ++ n_in) ++ ins) ++ n_out))
          ≡ ok (length to_outputs) =
        ap (λ w. skip_many skip_output b w (length (((front ++ n_in) ++ ins) ++ n_out))) at_outputs
        ∙ s_out (((front ++ n_in) ++ ins) ++ n_out) (wits ++ end_) in
      let p_5 : skip_many skip_witness a whole (length to_outputs)
          ≡ ok (length (to_outputs ++ wits)) =
        ap (λ w. skip_many skip_witness a w (length to_outputs)) at_witnesses
        ∙ s_wit to_outputs end_ in
      let at_last : (length (to_outputs ++ wits) + 4 == length whole) ≡ true =
        (==_iff _ _).1 (sym (length-whole short)) in
      rw (p_1, some_in, p_2, p_3, p_4, p_5, at_last)
        (ap (λ t. ok (v_0 ∷ v_1 ∷ v_2 ∷ v_3 ∷ t))
          (ap (λ t. t ++ drop (length whole - 4) whole) body_taken
            ∙ ap (λ t. body ++ t) (end_taken short)
            ∙ body_is end_))
