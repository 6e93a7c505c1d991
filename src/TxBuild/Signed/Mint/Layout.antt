-- ===== src/TxBuild/Signed/Mint/Layout.antt =====
-- The outputs of a mint, and what they announce.
use diginaut_wallet.Prelude.{
  ok-injective, ℕ, suc, ◌+◌, ◌<◌, ◌^◌, ◌≡◌, sym, subst, ap, ◌∙◌, List, [], ◌∷◌, sum_map, All, some,
  ok, ◌>>=◌, >>=_returned, length, get_elem?, arith, Bool-cases, inl, inr, ltb, String,
}
use text.Mathlib.Text.{◌==◌ as str_eq}
use diginaut_wallet.Hex.{IsByte, bytes_to_hex}
use diginaut_wallet.Collateral.{Quote, LockTier, find_tier, tier_by_id, lock_tiers}
use diginaut_wallet.Envelope.Metadata.{
  bytes_of, MintMetadata, build_mint_metadata, parse_mint_metadata,
}
use diginaut_wallet.Envelope.Metadata.RoundTrip.{Fits, parse-mint_script}
use diginaut_wallet.TxBuild.{Output, from_envelope, p2tr_script}
use diginaut_wallet.TxBuild.Amounts.{MintAmounts}
use diginaut_wallet.TxBuild.Outputs.{from_envelope-ok}
use diginaut_wallet.TxBuild.Taproot.{Library, collateral_output_key}
use diginaut_wallet.TxBuild.Sighash.{p2wpkh_script, token_script}
use diginaut_wallet.TxBuild.Signed.{index_of_tier, mint_change, mint_outputs}

-- The outputs of a mint in their order, with what the third of them announces.
pub record MintLayout (lib : Library) (owner : List ℕ) (q : Quote) (a : MintAmounts) (t : LockTier)
    (outs : List Output) : Type 0 where
  pub key : List ℕ
  pub lock : List ℕ
  pub token : List ℕ
  pub metadata : List ℕ
  pub change : List Output
  pub in_order :
      outs
      ≡ record { value_sats = a.collateral_sats; script = lock }
        ∷ record { value_sats = 0; script = token }
        ∷ record { value_sats = 0; script = metadata }
        ∷ change
  pub is_key : collateral_output_key lib owner a.unlock_height q.dd_cents ≡ ok key
  pub is_lock : p2tr_script key ≡ ok lock
  pub is_token : token_script lib owner ≡ ok token
  pub tier_index : ℕ
  pub indexed : get_elem? lock_tiers tier_index ≡ some t
  pub announced :
      parse_mint_metadata (bytes_to_hex metadata)
      ≡ ok (record {
        dd_cents = q.dd_cents;
        unlock_height = a.unlock_height;
        lock_tier = tier_index;
        owner_key_hex = owner;
      })
  pub change_value : sum_map (λ (o : Output). o.value_sats) change ≡ a.change_sats

index_of_tier-find :
    (tier_id : String) (i : ℕ) (ts : List LockTier) (t : LockTier)
    → find_tier tier_id ts ≡ some t
    → (n : ℕ) × (index_of_tier tier_id i ts ≡ i + n) × (get_elem? ts n ≡ some t) × (n < length ts)
unfolding find_tier index_of_tier
index_of_tier-find tier_id i [] t h = cc
index_of_tier-find tier_id i (x ∷ ts) t h = elim (Bool-cases (str_eq x.id tier_id)) [
  | inl here ↦ (0, rw here (omega arith), rw here at h, omega arith)
  | inr later ↦
      let (n, is, found, below) = index_of_tier-find tier_id (i + 1) ts t (rw later at h) in
      (suc n, rw later (omega (arith, is)), found, omega (arith, below))
]

tier_index_lem :
    (tier_id : String) (t : LockTier)
    → tier_by_id tier_id ≡ some t
    → (get_elem? lock_tiers (index_of_tier tier_id 0 lock_tiers) ≡ some t)
      × (index_of_tier tier_id 0 lock_tiers < 10)
unfolding tier_by_id
tier_index_lem tier_id t h =
    let (n, is, found, below) = index_of_tier-find tier_id 0 lock_tiers t h in
    let at : n ≡ index_of_tier tier_id 0 lock_tiers = omega (arith, is) in
    (subst (λ k. get_elem? lock_tiers k ≡ some t) at found, subst (λ (k : ℕ). k < 10) at below)

mint_change-value :
    (lib : Library) (sats : ℕ) (key : List ℕ) (outs : List Output)
    → mint_change lib sats key ≡ ok outs
    → sum_map (λ (o : Output). o.value_sats) outs ≡ sats
unfolding mint_change
mint_change-value lib sats key outs h = elim (Bool-cases (ltb 0 sats)) [
  | inl some_ ↦
      let made : (p2wpkh_script lib key >>= λ script.
      ok (record { value_sats = sats; script = script } ∷ []))
          ≡ ok outs =
        rw some_ at h in
      let (script, is, _) = >>=_returned _ (p2wpkh_script lib key) made in
      ap (sum_map (λ (o : Output). o.value_sats)) (sym (ok-injective is)) ∙ omega arith
  | inr none_ ↦
      let none' : ok [] ≡ ok outs = rw none_ at h in
      let zero_ : sats ≡ 0 = ground arith in
      ap (sum_map (λ (o : Output). o.value_sats)) (sym (ok-injective none')) ∙ sym zero_
]

announced_lem :
    (dd_cents unlock_height lock_tier : ℕ) (owner x hex script : List ℕ)
    → owner ≡ bytes_to_hex x
    → All IsByte x
    → length x ≡ 32
    → Fits dd_cents
    → unlock_height < 2 ^ 53
    → lock_tier < 2 ^ 53
    → (let m : MintMetadata = record {
      dd_cents = dd_cents;
      unlock_height = unlock_height;
      lock_tier = lock_tier;
      owner_key_hex = owner;
    } in
        build_mint_metadata m ≡ ok hex
        → bytes_of hex ≡ ok script
        → parse_mint_metadata (bytes_to_hex script) ≡ ok m)
announced_lem dd_cents unlock_height lock_tier owner x hex script is hb hl fits hu ht built read =
    rw is (
      parse-mint_script dd_cents unlock_height lock_tier x hb hl hex script fits hu ht
        (rw is at built) read)

pub mint_outputs-MintLayout :
    (lib : Library) (priv_key owner x : List ℕ) (q : Quote) (a : MintAmounts) (t : LockTier)
    (outs : List Output)
    → owner ≡ bytes_to_hex x
    → All IsByte x
    → length x ≡ 32
    → tier_by_id q.tier_id ≡ some t
    → Fits q.dd_cents
    → a.unlock_height < 2 ^ 53
    → mint_outputs lib priv_key owner q a ≡ ok outs
    → MintLayout lib owner q a t outs
unfolding mint_outputs
mint_outputs-MintLayout lib priv_key owner x q a t outs is_owner x_bytes x_length known fits height
      h =
    let (key, h_1, is_key) =
      >>=_returned _ (collateral_output_key lib owner a.unlock_height q.dd_cents) h in
    let (lock, h_2, is_lock) = >>=_returned _ (p2tr_script key) h_1 in
    let (token, h_3, is_token) = >>=_returned _ (token_script lib owner) h_2 in
    let (hex, h_4, built) =
      >>=_returned _
        (from_envelope (
          build_mint_metadata (record {
            dd_cents = q.dd_cents;
            unlock_height = a.unlock_height;
            lock_tier = index_of_tier q.tier_id 0 lock_tiers;
            owner_key_hex = owner;
          })))
        h_3 in
    let (metadata, h_5, read) = >>=_returned _ (from_envelope (bytes_of hex)) h_4 in
    let (change, h_6, is_change) = >>=_returned _ (mint_change lib a.change_sats priv_key) h_5 in
    let index = index_of_tier q.tier_id 0 lock_tiers in
    let (indexed, below) = tier_index_lem q.tier_id t known in
    let announced =
      announced_lem q.dd_cents a.unlock_height index owner x hex metadata is_owner x_bytes x_length
        fits height (omega (arith, below)) (from_envelope-ok _ built) (from_envelope-ok _ read) in
    record {
      key = key;
      lock = lock;
      token = token;
      metadata = metadata;
      change = change;
      in_order = sym (ok-injective h_6);
      is_key = is_key;
      is_lock = is_lock;
      is_token = is_token;
      tier_index = index;
      indexed = indexed;
      announced = announced;
      change_value = mint_change-value lib a.change_sats priv_key change is_change;
    }
