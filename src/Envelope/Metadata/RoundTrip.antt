-- ===== src/Envelope/Metadata/RoundTrip.antt =====
-- The parsers read back what the builders wrote.
use diginaut_wallet.Prelude.{
  ℕ, ◌^◌, ◌<◌, ◌≡◌, refl, ap, ◌≢◌, List, [], ◌∷◌, ◌++◌, Outcome, ok, ◌>>=◌, length, All, All-append,
  arith, map, append-nil, ==_zero, >>=-chain, ◌∙◌, sym,
}
use diginaut_wallet.Hex.{IsByte, bytes_to_hex}
use diginaut_wallet.Hex.RoundTrip.{hex_to_bytes-bytes_to_hex}
use diginaut_wallet.Envelope.Version.{TxType, mint, transfer, redeem, code_of}
use diginaut_wallet.Envelope.ScriptNum.{le_minimal, le_to_big_int}
use diginaut_wallet.Envelope.ScriptNum.Laws.{
  le_to_big_int-le_minimal, le_minimal-IsByte, length-le_minimal, to_number-exact,
}
use diginaut_wallet.Envelope.Pushes.{EnvelopeError, push, read_pushes}
use diginaut_wallet.Envelope.Pushes.Laws.{pushes, IsDirect, read_pushes-pushes}
use diginaut_wallet.Envelope.Metadata.{
  bytes_of, MintMetadata, mint_fields, parse_mint_metadata, transfer_fields,
  parse_transfer_metadata, redeem_fields, parse_redeem_metadata, preamble, amount_pushes,
  build_transfer_metadata, build_redeem_metadata, build_mint_metadata,
}

-- A value whose encoding is a direct push: below 2 ^ 592, so at most 75 bytes with the sign byte.
abbrev pub Fits : ℕ → Type 0
Fits v = v < 256 ^ 74

le_minimal-IsDirect : (v : ℕ) → Fits v → IsDirect (le_minimal v)
le_minimal-IsDirect v h = length-le_minimal 73 v h

push-IsByte : (p : List ℕ) → All IsByte p → All IsByte (push p)
unfolding push
push-IsByte p h = (omega arith, h)

pushes-IsByte : (ps : List (List ℕ)) → All (All IsByte) ps → All IsByte (pushes ps)
pushes-IsByte [] h = tt
pushes-IsByte (p ∷ ps) h =
    All-append IsByte (push p) (pushes ps) (push-IsByte p h.0) (pushes-IsByte ps h.1)

-- The pushes of a metadata script behind its OP_RETURN.
abbrev fields : TxType → List (List ℕ) → List (List ℕ)
fields t ps = (0x44 ∷ 0x44 ∷ []) ∷ (code_of t ∷ []) ∷ ps

preamble-pushes :
    (t : TxType) (ps : List (List ℕ)) → preamble t ++ pushes ps ≡ 0x6a ∷ pushes (fields t ps)
unfolding preamble
preamble-pushes t ps = refl

code_of-IsByte : (t : TxType) → code_of t < 256
unfolding code_of
code_of-IsByte mint = omega arith
code_of-IsByte transfer = omega arith
code_of-IsByte redeem = omega arith

fields-IsByte :
    (t : TxType) (ps : List (List ℕ)) → All (All IsByte) ps → All (All IsByte) (fields t ps)
fields-IsByte t ps h = ((omega arith, (omega arith, tt)), ((code_of-IsByte t, tt), h))

-- Reading a built script in hexadecimal gives its pushes.
read_script :
    (t : TxType) (ps : List (List ℕ))
    → All (All IsByte) ps
    → All IsDirect ps
    → (bytes_of (bytes_to_hex (0x6a ∷ pushes (fields t ps))) >>= read_pushes) ≡ ok (fields t ps)
unfolding bytes_of code_of
read_script t ps hb hd =
    let bytes : All IsByte (0x6a ∷ pushes (fields t ps)) =
      (omega arith, pushes-IsByte (fields t ps) (fields-IsByte t ps hb)) in
    rw (hex_to_bytes-bytes_to_hex (0x6a ∷ pushes (fields t ps)) bytes (λ e. cc), bytes_of)
      (read_pushes-pushes (fields t ps) (omega arith, (omega arith, hd)))

read_fields {ℓ} :
    {A : Type ℓ} (t : TxType) (ps : List (List ℕ)) (g : List (List ℕ) → Outcome EnvelopeError A)
    → All (All IsByte) ps
    → All IsDirect ps
    → (bytes_of (bytes_to_hex (0x6a ∷ pushes (fields t ps))) >>= λ s. read_pushes s >>= g)
      ≡ g (fields t ps)
read_fields t ps g hb hd =
    >>=-chain read_pushes (bytes_of (bytes_to_hex (0x6a ∷ pushes (fields t ps)))) g
      (read_script t ps hb hd)

abbrev amounts_of : List ℕ → List (List ℕ)
amounts_of = map le_minimal

amounts-IsByte : (vs : List ℕ) → All (All IsByte) (amounts_of vs)
amounts-IsByte [] = tt
amounts-IsByte (v ∷ vs) = (le_minimal-IsByte v, amounts-IsByte vs)

amounts-IsDirect : (vs : List ℕ) → All Fits vs → All IsDirect (amounts_of vs)
amounts-IsDirect [] h = tt
amounts-IsDirect (v ∷ vs) h = (le_minimal-IsDirect v h.0, amounts-IsDirect vs h.1)

amounts_read : (vs : List ℕ) → map le_to_big_int (amounts_of vs) ≡ vs
amounts_read [] = refl
amounts_read (v ∷ vs) = cc (le_to_big_int-le_minimal v, amounts_read vs)

abbrev pub IsPositive : ℕ → Type 0
IsPositive v = 0 < v

amount_pushes-pushes :
    (vs : List ℕ) → All IsPositive vs → amount_pushes vs ≡ ok (pushes (amounts_of vs))
unfolding amount_pushes
amount_pushes-pushes [] h = refl
amount_pushes-pushes (v ∷ vs) h = rw (==_zero v h.0, amount_pushes-pushes vs h.1)

build_transfer-eq :
    (v : ℕ) (vs : List ℕ)
    → All IsPositive (v ∷ vs)
    → build_transfer_metadata (v ∷ vs)
      ≡ ok (bytes_to_hex (0x6a ∷ pushes (fields transfer (amounts_of (v ∷ vs)))))
unfolding build_transfer_metadata
build_transfer-eq v vs h =
    rw (amount_pushes-pushes (v ∷ vs) h, preamble-pushes transfer (amounts_of (v ∷ vs)))

-- `parseTransferMetadata` returns the list of amounts that `buildTransferMetadata` was given, for
-- every non-empty list of positive amounts below 2 ^ 592.
pub parse-build_transfer :
    (v : ℕ) (vs : List ℕ)
    → All IsPositive (v ∷ vs)
    → All Fits (v ∷ vs)
    → (build_transfer_metadata (v ∷ vs) >>= parse_transfer_metadata) ≡ ok (v ∷ vs)
unfolding parse_transfer_metadata
parse-build_transfer v vs hp hf = rw (build_transfer-eq v vs hp) (
    read_fields transfer (amounts_of (v ∷ vs)) transfer_fields (amounts-IsByte (v ∷ vs))
      (amounts-IsDirect (v ∷ vs) hf)
    ∙ unfold transfer_fields in ap ok (amounts_read (v ∷ vs)))

script_bytes :
    (t : TxType) (ps : List (List ℕ))
    → All (All IsByte) ps
    → bytes_of (bytes_to_hex (0x6a ∷ pushes (fields t ps))) ≡ ok (0x6a ∷ pushes (fields t ps))
unfolding bytes_of
script_bytes t ps hb = rw (
  hex_to_bytes-bytes_to_hex (0x6a ∷ pushes (fields t ps))
      (omega arith, pushes-IsByte (fields t ps) (fields-IsByte t ps hb)) (λ e. cc),
  bytes_of,
)

pub transfer_script-carrier :
    (v : ℕ) (vs hex script : List ℕ)
    → All IsPositive (v ∷ vs)
    → build_transfer_metadata (v ∷ vs) ≡ ok hex
    → bytes_of hex ≡ ok script
    → script ≡ 0x6a ∷ pushes (fields transfer (amounts_of (v ∷ vs)))
transfer_script-carrier v vs hex script hp built read =
    let hex_is : hex ≡ bytes_to_hex (0x6a ∷ pushes (fields transfer (amounts_of (v ∷ vs)))) =
      cc (build_transfer-eq v vs hp) in
    cc (script_bytes transfer (amounts_of (v ∷ vs)) (amounts-IsByte (v ∷ vs)), hex_is)

-- The metadata as the bytes of a script, written in hexadecimal again.
pub parse-transfer_script :
    (v : ℕ) (vs hex script : List ℕ)
    → All IsPositive (v ∷ vs)
    → All Fits (v ∷ vs)
    → build_transfer_metadata (v ∷ vs) ≡ ok hex
    → bytes_of hex ≡ ok script
    → parse_transfer_metadata (bytes_to_hex script) ≡ ok (v ∷ vs)
parse-transfer_script v vs hex script hp hf built read =
    let hex_is : hex ≡ bytes_to_hex (0x6a ∷ pushes (fields transfer (amounts_of (v ∷ vs)))) =
      cc (build_transfer-eq v vs hp) in
    let script_is = transfer_script-carrier v vs hex script hp built read in
    let parsed : parse_transfer_metadata hex ≡ ok (v ∷ vs) =
      sym (ap (λ m. m >>= parse_transfer_metadata) built) ∙ parse-build_transfer v vs hp hf in
    ap (λ s. parse_transfer_metadata (bytes_to_hex s)) script_is
    ∙ ap parse_transfer_metadata (sym hex_is)
    ∙ parsed

build_redeem-eq :
    (v : ℕ)
    → 0 < v
    → build_redeem_metadata v
      ≡ ok (bytes_to_hex (0x6a ∷ pushes (fields redeem (le_minimal v ∷ []))))
unfolding build_redeem_metadata
build_redeem-eq v h = rw (==_zero v h, append-nil)

-- `parseRedeemMetadata` returns the change that `buildRedeemMetadata` was given, for every positive
-- change below 2 ^ 592.
pub parse-build_redeem :
    (v : ℕ) → 0 < v → Fits v → (build_redeem_metadata v >>= parse_redeem_metadata) ≡ ok v
unfolding parse_redeem_metadata
parse-build_redeem v hp hf = rw (build_redeem-eq v hp) (
    read_fields redeem (le_minimal v ∷ []) redeem_fields (le_minimal-IsByte v, tt)
      (le_minimal-IsDirect v hf, tt)
    ∙ unfold redeem_fields in ap ok (le_to_big_int-le_minimal v))

pub parse-redeem_script :
    (v : ℕ) (hex script : List ℕ)
    → 0 < v
    → Fits v
    → build_redeem_metadata v ≡ ok hex
    → bytes_of hex ≡ ok script
    → parse_redeem_metadata (bytes_to_hex script) ≡ ok v
parse-redeem_script v hex script hp hf built read =
    let hex_is : hex ≡ bytes_to_hex (0x6a ∷ pushes (fields redeem (le_minimal v ∷ []))) =
      cc (build_redeem-eq v hp) in
    let script_is : script ≡ 0x6a ∷ pushes (fields redeem (le_minimal v ∷ [])) =
      cc (script_bytes redeem (le_minimal v ∷ []) (le_minimal-IsByte v, tt), hex_is) in
    let parsed : parse_redeem_metadata hex ≡ ok v =
      sym (ap (λ m. m >>= parse_redeem_metadata) built) ∙ parse-build_redeem v hp hf in
    ap (λ s. parse_redeem_metadata (bytes_to_hex s)) script_is
    ∙ ap parse_redeem_metadata (sym hex_is)
    ∙ parsed

-- The pushes of a mint behind the type.
abbrev mint_pushes : ℕ → ℕ → ℕ → List ℕ → List (List ℕ)
mint_pushes dd_cents unlock_height lock_tier owner_key =
    le_minimal dd_cents ∷ le_minimal unlock_height ∷ le_minimal lock_tier ∷ owner_key ∷ []

module _ (dd_cents unlock_height lock_tier : ℕ) (owner_key : List ℕ) where
  abbrev pub mint_metadata : MintMetadata
  mint_metadata = record {
    dd_cents = dd_cents;
    unlock_height = unlock_height;
    lock_tier = lock_tier;
    owner_key_hex = bytes_to_hex owner_key;
  }

  module _ (hb : All IsByte owner_key) (hl : length owner_key ≡ 32) where
    owner_key-ne-nil : owner_key ≢ []
    owner_key-ne-nil e = absurd (omega (arith, ap length e))

    owner_key_read : bytes_of (bytes_to_hex owner_key) ≡ ok owner_key
    unfolding bytes_of
    owner_key_read = rw (hex_to_bytes-bytes_to_hex owner_key hb owner_key-ne-nil, bytes_of)

    build_mint-eq :
        build_mint_metadata mint_metadata
        ≡ ok (
            bytes_to_hex (
              0x6a ∷ pushes (fields mint (mint_pushes dd_cents unlock_height lock_tier owner_key))))
    unfolding build_mint_metadata
    build_mint-eq = rw (owner_key_read, hl, append-nil)

    mint_fields_lem :
        unlock_height < 2 ^ 53
        → lock_tier < 2 ^ 53
        → mint_fields (fields mint (mint_pushes dd_cents unlock_height lock_tier owner_key))
          ≡ ok mint_metadata
    unfolding mint_fields
    mint_fields_lem hu ht = rw (
      hl,
      le_to_big_int-le_minimal dd_cents,
      le_to_big_int-le_minimal unlock_height,
      le_to_big_int-le_minimal lock_tier,
      to_number-exact unlock_height hu,
      to_number-exact lock_tier ht,
    )

    -- `parseMintMetadata` returns the four fields that `buildMintMetadata` was given: the amount
    -- (below 2 ^ 592), the unlock height and the tier (both below 2 ^ 53, where a double is exact) and
    -- the owner key, when it is the hexadecimal text of 32 bytes in lower case.
    pub parse-build_mint :
        Fits dd_cents
        → unlock_height < 2 ^ 53
        → lock_tier < 2 ^ 53
        → (build_mint_metadata mint_metadata >>= parse_mint_metadata) ≡ ok mint_metadata
    unfolding parse_mint_metadata
    parse-build_mint fits hu ht = rw build_mint-eq (
        read_fields mint (mint_pushes dd_cents unlock_height lock_tier owner_key) mint_fields
          (
            le_minimal-IsByte dd_cents,
            (le_minimal-IsByte unlock_height, (le_minimal-IsByte lock_tier, (hb, tt))),
          )
          (
            le_minimal-IsDirect dd_cents fits,
            (
              le_minimal-IsDirect unlock_height (omega arith),
              (le_minimal-IsDirect lock_tier (omega arith), (omega arith, tt)),
            ),
          )
        ∙ mint_fields_lem hu ht)

    -- The script that is made of the text of a mint's metadata is read as they were given.
    pub parse-mint_script :
        (hex script : List ℕ)
        → Fits dd_cents
        → unlock_height < 2 ^ 53
        → lock_tier < 2 ^ 53
        → build_mint_metadata mint_metadata ≡ ok hex
        → bytes_of hex ≡ ok script
        → parse_mint_metadata (bytes_to_hex script) ≡ ok mint_metadata
    parse-mint_script hex script fits hu ht built read =
        let ps = mint_pushes dd_cents unlock_height lock_tier owner_key in
        let hex_is : hex ≡ bytes_to_hex (0x6a ∷ pushes (fields mint ps)) = cc build_mint-eq in
        let is_bytes : All (All IsByte) ps = (
          le_minimal-IsByte dd_cents,
          (le_minimal-IsByte unlock_height, (le_minimal-IsByte lock_tier, (hb, tt))),
        ) in
        let script_is : script ≡ 0x6a ∷ pushes (fields mint ps) =
          cc (script_bytes mint ps is_bytes, hex_is) in
        ap (λ s. parse_mint_metadata (bytes_to_hex s)) script_is
        ∙ ap parse_mint_metadata (sym hex_is)
        ∙ sym (ap (λ m. m >>= parse_mint_metadata) built)
        ∙ parse-build_mint fits hu ht
