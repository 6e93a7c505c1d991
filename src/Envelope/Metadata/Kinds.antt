-- ===== src/Envelope/Metadata/Kinds.antt =====
-- The three kinds of metadata exclude one another.
use diginaut_wallet.Prelude.{ℕ, ◌≡◌, List, [], ◌∷◌, Outcome, ok, ◌>>=◌, >>=_returned, true, arith}
use mathlib.Core.Path.{subst}
use diginaut_wallet.Envelope.Version.{TxType, mint, transfer, redeem, code_of}
use diginaut_wallet.Envelope.Pushes.{EnvelopeError, read_pushes}
use diginaut_wallet.Envelope.Metadata.{
  bytes_of, is_type, MintMetadata, mint_fields, parse_mint_metadata, transfer_fields,
  parse_transfer_metadata, redeem_fields, parse_redeem_metadata,
}

-- The pushes carry the type byte of `t`.
abbrev HasType : TxType → List (List ℕ) → Type 0
HasType t (magic ∷ type ∷ rest) = type ≡ code_of t ∷ []
HasType t _ = ⊥

HasType-unique : (t u : TxType) (ps : List (List ℕ)) → HasType t ps → HasType u ps → t ≡ u
unfolding code_of
HasType-unique t u (m ∷ p ∷ ps) h k = ground arith
HasType-unique t u (m ∷ []) h k = absurd h
HasType-unique t u [] h k = absurd h

is_type-eq : (t : TxType) (p : List ℕ) → is_type t p ≡ true → p ≡ code_of t ∷ []
unfolding is_type
is_type-eq t [] h = cc
is_type-eq t (c ∷ []) h = ground arith
is_type-eq t (c ∷ d ∷ r) h = cc

mint_fields-HasType :
    (ps : List (List ℕ)) (m : MintMetadata) → mint_fields ps ≡ ok m → HasType mint ps
unfolding mint_fields
mint_fields-HasType (magic ∷ type ∷ a ∷ b ∷ c ∷ d ∷ []) m h = ground (arith, is_type-eq mint type)
mint_fields-HasType _ m h = cc

transfer_fields-HasType :
    (ps : List (List ℕ)) (vs : List ℕ) → transfer_fields ps ≡ ok vs → HasType transfer ps
unfolding transfer_fields
transfer_fields-HasType (magic ∷ type ∷ a ∷ as') vs h = ground (arith, is_type-eq transfer type)
transfer_fields-HasType _ vs h = cc

redeem_fields-HasType : (ps : List (List ℕ)) (v : ℕ) → redeem_fields ps ≡ ok v → HasType redeem ps
unfolding redeem_fields
redeem_fields-HasType (magic ∷ type ∷ a ∷ []) v h = ground (arith, is_type-eq redeem type)
redeem_fields-HasType _ v h = cc

-- What a parser accepted, as pushes.
pub accepted_pushes {ℓ} :
    {A : Type ℓ} (hex : List ℕ) (g : List (List ℕ) → Outcome EnvelopeError A) {a : A}
    → (bytes_of hex >>= λ s. read_pushes s >>= g) ≡ ok a
    → (ps : List (List ℕ)) × ((bytes_of hex >>= read_pushes) ≡ ok ps) × (g ps ≡ ok a)
accepted_pushes hex g h =
    let (s, hg, hs) = >>=_returned (λ s. read_pushes s >>= g) (bytes_of hex) h in
    let (ps, ha, hp) = >>=_returned g (read_pushes s) hg in (ps, rw hs hp, ha)

-- The kind of metadata that the pushes of a script show.
abbrev ShowsType : TxType → List ℕ → Type 0
ShowsType t hex = (ps : List (List ℕ)) × ((bytes_of hex >>= read_pushes) ≡ ok ps) × HasType t ps

ShowsType-unique : (t u : TxType) (hex : List ℕ) → ShowsType t hex → ShowsType u hex → t ≡ u
ShowsType-unique t u hex (ps, e, h) (qs, d, k) =
    let same : qs ≡ ps = cc in HasType-unique t u ps h (subst (HasType u) same k)

mint-ShowsType :
    (hex : List ℕ) (m : MintMetadata) → parse_mint_metadata hex ≡ ok m → ShowsType mint hex
unfolding parse_mint_metadata
mint-ShowsType hex m h =
    let (ps, e, f) = accepted_pushes hex mint_fields h in (ps, e, mint_fields-HasType ps m f)

transfer-ShowsType :
    (hex : List ℕ) (vs : List ℕ) → parse_transfer_metadata hex ≡ ok vs → ShowsType transfer hex
unfolding parse_transfer_metadata
transfer-ShowsType hex vs h =
    let (ps, e, f) = accepted_pushes hex transfer_fields h in
    (ps, e, transfer_fields-HasType ps vs f)

redeem-ShowsType : (hex : List ℕ) (v : ℕ) → parse_redeem_metadata hex ≡ ok v → ShowsType redeem hex
unfolding parse_redeem_metadata
redeem-ShowsType hex v h =
    let (ps, e, f) = accepted_pushes hex redeem_fields h in (ps, e, redeem_fields-HasType ps v f)

-- No script is accepted by two of the three metadata parsers.
pub kinds_exclusive :
    (hex : List ℕ) (m : MintMetadata) (vs : List ℕ) (v : ℕ)
    → ¬ ((parse_mint_metadata hex ≡ ok m) × (parse_transfer_metadata hex ≡ ok vs))
      × ¬ ((parse_mint_metadata hex ≡ ok m) × (parse_redeem_metadata hex ≡ ok v))
      × ¬ ((parse_transfer_metadata hex ≡ ok vs) × (parse_redeem_metadata hex ≡ ok v))
kinds_exclusive hex m vs v = (
  λ (p, q).
      cc
        (ShowsType-unique mint transfer hex (mint-ShowsType hex m p) (transfer-ShowsType hex vs q)),
  λ (p, q).
      cc (ShowsType-unique mint redeem hex (mint-ShowsType hex m p) (redeem-ShowsType hex v q)),
  λ (p, q). cc (
      ShowsType-unique transfer redeem hex (transfer-ShowsType hex vs p)
        (redeem-ShowsType hex v q)),
)
