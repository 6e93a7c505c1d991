-- ===== src/TxBuild/Taproot/Spending.antt =====
-- The collateral that a mint creates can be spent by what a redemption reveals: the script-path check
-- of BIP-341, stated apart from the code that builds the leaf and the control block.
use Prim.Native.Nat.{bit_or}
use diginaut_wallet.Prelude.{
  ok-injective, ℕ, ◌*◌, ◌/◌, ◌%◌, ◌<◌, ◌≡◌, refl, sym, subst, ap, ◌∙◌, List, [], ◌∷◌, ◌++◌, none,
  some, ok, ◌>>◌, throw, throw_if, >>=_returned, >>_returned, ltb, leb, length, All, All-append,
  Option-cases, inl, inr, arith,
}
use diginaut_wallet.Hex.{IsByte, bytes_to_hex, hex_to_bytes}
use diginaut_wallet.Envelope.Metadata.{bytes_of}
use diginaut_wallet.TxBuild.{from_envelope, big_endian, leaf_too_long, tweak_overflow, in_library}
use diginaut_wallet.TxBuild.Taproot.{
  Library, Leaf, tap_leaf, collateral_nums_key, leaf_version, normal_redemption_script,
  err_redemption_script, tap_leaf_hash, tap_branch_hash, tap_tweak_with_root, leaf_root,
  check_owner_key, collateral_output_key, collateral_control_block_hex, normal_redemption_leaf_hex,
}
use diginaut_wallet.TxBuild.Taproot.Leaves.{
  sorted_branch, nums_bytes, tap_branch_hash-sorted, normal-IsByte, bytes_to_hex-append, nums_back,
  nums_read, nums-IsByte, nums-whole, first_byte, read_back, normal_pos,
}
use diginaut_wallet.Hex.Bytes.{hex_to_bytes-IsByte}

-- The check of BIP-341 for a leaf beside one other: the control block has the leaf's version with
-- the parity of the output key, the internal key, and the other leaf's hash, and the internal key
-- tweaked with the root is the output key.
pub record SpendsLeaf (lib : Library) (output_key_hex leaf control : List ℕ) : Type 0 where
  pub first : ℕ
  pub internal : List ℕ
  pub sibling : List ℕ
  pub in_order : control ≡ first ∷ (internal ++ sibling)
  pub whole : length internal ≡ 32
  pub is_version : first / 2 * 2 ≡ 0xc0
  pub small : length leaf < 0xfd
  pub tweaked :
      let k = lib.tagged_hash tap_leaf (first / 2 * 2 ∷ length leaf ∷ leaf) in
      let t = big_endian 0 (lib.curve.tap_tweak_hash (internal ++ sorted_branch lib k sibling)) in
      (lib.curve.tweak_add (bytes_to_hex internal) t ≡ some output_key_hex)
      × (lib.tweak_parity (bytes_to_hex internal) t ≡ first % 2)

-- Hashes are bytes, a parity is 0 or 1, and an x coordinate is 32 bytes.
pub record IsLibrary (lib : Library) : Type 0 where
  pub hash_bytes : (bytes : List ℕ) → All IsByte (lib.tagged_hash tap_leaf bytes)
  pub parity_bit : (internal : List ℕ) (t : ℕ) → lib.tweak_parity internal t < 2
  pub x_only_whole : (key x : List ℕ) → lib.get_x_only key ≡ some x → All IsByte x × (length x ≡ 32)

-- What a redemption of the owner's collateral reveals, for the output key of the mint.
pub record Revealed (lib : Library) (owner_hex : List ℕ) (lock cents : ℕ) (key : List ℕ)
    : Type 0 where
  pub leaf_hex : List ℕ
  pub control_hex : List ℕ
  pub leaf : List ℕ
  pub control : List ℕ
  pub shows_leaf : normal_redemption_leaf_hex owner_hex lock cents ≡ ok leaf_hex
  pub leaf_bytes : from_envelope (bytes_of leaf_hex) ≡ ok leaf
  pub shows_control : collateral_control_block_hex lib owner_hex lock cents ≡ ok control_hex
  pub control_bytes : from_envelope (bytes_of control_hex) ≡ ok control
  pub spends : SpendsLeaf lib key leaf control

-- The steps of `collateral_output_key` where it returns, for the owner's key as bytes.
record Made (lib : Library) (owner_hex owner : List ℕ) (l : Leaf) (key : List ℕ) : Type 0 where
  normal : List ℕ
  err : List ℕ
  parity : ℕ
  checked : check_owner_key owner_hex ≡ ok tt
  read : from_envelope (bytes_of owner_hex) ≡ ok owner
  owner_bytes : All IsByte owner
  is_normal : tap_leaf_hash lib (normal_redemption_script l) ≡ ok normal
  is_err : tap_leaf_hash lib (err_redemption_script l) ≡ ok err
  tweak :
      tap_tweak_with_root lib collateral_nums_key (tap_branch_hash lib normal err)
      ≡ ok (key, parity)

abbrev leaf_of : List ℕ → ℕ → ℕ → Leaf
leaf_of owner lock cents = record { owner_key = owner; lock_height = lock; dd_cents = cents }

pub bytes_of-IsByte :
    (hex bytes : List ℕ) → from_envelope (bytes_of hex) ≡ ok bytes → All IsByte bytes
unfolding bytes_of
bytes_of-IsByte hex bytes h = elim (Option-cases (hex_to_bytes hex)) [
  | inl none_ ↦ cc (rw (from_envelope, none_) at h)
  | inr (b, some_) ↦
      subst (All IsByte) (ok-injective (rw (from_envelope, some_) at h))
        (hex_to_bytes-IsByte hex some_)
]

module _ (lib : Library) where
  pub tap_leaf_hash-made :
      (script hash : List ℕ)
      → tap_leaf_hash lib script ≡ ok hash
      → (length script < 0xfd) × (lib.tagged_hash tap_leaf (0xc0 ∷ length script ∷ script) ≡ hash)
  unfolding tap_leaf_hash
  tap_leaf_hash-made script hash h =
      let (made, short) = >>_returned (throw_if (ltb 0xfc (length script)) leaf_too_long) _ h in
      (ground (arith, short), ok-injective made)

  tap_tweak_with_root-made :
      (root key : List ℕ) (parity : ℕ)
      → tap_tweak_with_root lib collateral_nums_key root ≡ ok (key, parity)
      → let t = big_endian 0 (lib.curve.tap_tweak_hash (nums_bytes ++ root)) in
        (lib.curve.tweak_add collateral_nums_key t ≡ some key)
        × (lib.tweak_parity collateral_nums_key t ≡ parity)
  unfolding tap_tweak_with_root
  tap_tweak_with_root-made root key parity h =
      let t = big_endian 0 (lib.curve.tap_tweak_hash (nums_bytes ++ root)) in
      let read : (throw_if (leb lib.curve.order t) tweak_overflow
            >> elim (lib.curve.tweak_add collateral_nums_key t) [
              | none ↦ throw in_library
              | some x_hex ↦ ok (x_hex, lib.tweak_parity collateral_nums_key t)
            ])
          ≡ ok (key, parity) =
        rw nums_read at h in
      let (rest, _) = >>_returned (throw_if (leb lib.curve.order t) tweak_overflow) _ read in
      elim (Option-cases (lib.curve.tweak_add collateral_nums_key t)) [
        | inl none_ ↦ cc (rw none_ at rest)
        | inr (x, some_) ↦
            let made = ok-injective (rw some_ at rest) in
            (some_ ∙ ap (λ (p : List ℕ × ℕ). some p.0) made, ap (λ (p : List ℕ × ℕ). p.1) made)
      ]

  tweaked_lem :
      (leaf normal err key : List ℕ) (first parity : ℕ)
      → lib.tagged_hash tap_leaf (0xc0 ∷ length leaf ∷ leaf) ≡ normal
      → first / 2 * 2 ≡ 0xc0
      → first % 2 ≡ parity
      → tap_tweak_with_root lib collateral_nums_key (tap_branch_hash lib normal err)
        ≡ ok (key, parity)
      → let k = lib.tagged_hash tap_leaf (first / 2 * 2 ∷ length leaf ∷ leaf) in
        let t = big_endian 0 (lib.curve.tap_tweak_hash (nums_bytes ++ sorted_branch lib k err)) in
        (lib.curve.tweak_add (bytes_to_hex nums_bytes) t ≡ some key)
        × (lib.tweak_parity (bytes_to_hex nums_bytes) t ≡ first % 2)
  tweaked_lem leaf normal err key first parity is_normal is_version is_parity tweak =
      let (added, parity_is) =
        tap_tweak_with_root-made (tap_branch_hash lib normal err) key parity tweak in
      let same_root : tap_branch_hash lib normal err
          ≡ sorted_branch lib (lib.tagged_hash tap_leaf (first / 2 * 2 ∷ length leaf ∷ leaf)) err =
        rw (is_version, is_normal) (tap_branch_hash-sorted lib normal err) in
      rw (nums_back, sym same_root, is_parity) (added, parity_is)

  reveal :
      (owner_hex owner : List ℕ) (lock cents : ℕ) (key : List ℕ)
      → IsLibrary lib
      → Made lib owner_hex owner (leaf_of owner lock cents) key
      → Revealed lib owner_hex lock cents key
  unfolding normal_redemption_leaf_hex collateral_control_block_hex bytes_to_hex
  reveal owner_hex owner lock cents key v m =
      let leaf = normal_redemption_script (leaf_of owner lock cents) in
      let (short, is_normal) = tap_leaf_hash-made leaf m.normal m.is_normal in
      let (_, is_err) =
        tap_leaf_hash-made (err_redemption_script (leaf_of owner lock cents)) m.err m.is_err in
      let (_, parity_is) =
        tap_tweak_with_root-made (tap_branch_hash lib m.normal m.err) key m.parity m.tweak in
      let bit : m.parity < 2 =
        subst (λ (p : ℕ). p < 2) parity_is (v.parity_bit collateral_nums_key _) in
      let (is_version, is_parity, is_byte) = first_byte m.parity bit in
      let first = bit_or leaf_version m.parity in
      let err_bytes : All IsByte m.err = subst (All IsByte) is_err (v.hash_bytes _) in
      let control : List ℕ = first ∷ (nums_bytes ++ m.err) in
      let control_text : bytes_to_hex control
          ≡ bytes_to_hex (first ∷ []) ++ (collateral_nums_key ++ bytes_to_hex m.err) =
        ap (λ t. bytes_to_hex (first ∷ []) ++ t)
          (bytes_to_hex-append nums_bytes m.err ∙ ap (λ t. t ++ bytes_to_hex m.err) nums_back) in
      record {
        leaf_hex = bytes_to_hex leaf;
        control_hex = bytes_to_hex (first ∷ []) ++ (collateral_nums_key ++ bytes_to_hex m.err);
        leaf = leaf;
        control = control;
        shows_leaf = rw (m.checked, m.read) refl;
        leaf_bytes =
            read_back leaf (normal-IsByte (leaf_of owner lock cents) m.owner_bytes short)
              (normal_pos (leaf_of owner lock cents));
        shows_control = rw (m.checked, m.read, m.is_err, m.is_normal, m.tweak) refl;
        control_bytes =
            subst (λ t. from_envelope (bytes_of t) ≡ ok control) control_text
              (read_back control (is_byte, All-append IsByte nums_bytes m.err nums-IsByte err_bytes)
                (omega arith));
        spends = record {
          first = first;
          internal = nums_bytes;
          sibling = m.err;
          in_order = refl;
          whole = nums-whole;
          is_version = is_version;
          small = short;
          tweaked =
              tweaked_lem leaf m.normal m.err key first m.parity is_normal is_version is_parity
                m.tweak;
        };
      }

  collateral_output_key-Made :
      (owner_hex : List ℕ) (lock cents : ℕ) (key : List ℕ)
      → collateral_output_key lib owner_hex lock cents ≡ ok key
      → (owner : List ℕ) × Made lib owner_hex owner (leaf_of owner lock cents) key
  unfolding collateral_output_key leaf_root
  collateral_output_key-Made owner_hex lock cents key h =
      let (h_1, checked) = >>_returned (check_owner_key owner_hex) _ h in
      let (owner, h_2, read) = >>=_returned _ (from_envelope (bytes_of owner_hex)) h_1 in
      let (root, h_3, is_root) = >>=_returned _ (leaf_root lib (leaf_of owner lock cents)) h_2 in
      let (normal, h_4, is_normal) =
        >>=_returned _ (tap_leaf_hash lib (normal_redemption_script (leaf_of owner lock cents)))
          is_root in
      let (err, h_5, is_err) =
        >>=_returned _ (tap_leaf_hash lib (err_redemption_script (leaf_of owner lock cents))) h_4 in
      let (pair, h_6, tweak) =
        >>=_returned _ (tap_tweak_with_root lib collateral_nums_key root) h_3 in
      let same : tap_branch_hash lib normal err ≡ root = ok-injective h_5 in
      let is_key : pair.0 ≡ key = ok-injective h_6 in
      (
        owner,
        record {
          normal = normal;
          err = err;
          parity = pair.1;
          checked = checked;
          read = read;
          owner_bytes = bytes_of-IsByte owner_hex owner read;
          is_normal = is_normal;
          is_err = is_err;
          tweak = rw (same, sym is_key) tweak;
        },
      )

-- With leaf hashes that are bytes, a parity of 0 or 1, and x coordinates of 32 bytes: when
-- `collateralOutputKey` returns a key, `normalRedemptionLeafHex` and
-- `collateralControlBlockHex` return for the same owner, height and amount, and what they
-- return passes the check of BIP-341 for a script path against that key: the leaf's version
-- and the parity in the first byte, then the internal key and the hash of one other leaf, and
-- the internal key tweaked with the root over both leaves, the smaller hash first, is that
-- key.
pub collateral_output_key-Revealed :
    (lib : Library) (owner_hex : List ℕ) (lock cents : ℕ) (key : List ℕ)
    → IsLibrary lib
    → collateral_output_key lib owner_hex lock cents ≡ ok key
    → Revealed lib owner_hex lock cents key
collateral_output_key-Revealed lib owner_hex lock cents key v h =
    let (owner, m) = collateral_output_key-Made lib owner_hex lock cents key h in
    reveal lib owner_hex owner lock cents key v m
