-- ===== src/Vault/Names.antt =====
-- The text of names and seed phrases in apps/wallet/public/vault.js: `trim`, `normMnemonic`.
use diginaut_wallet.Prelude.{ℕ, Bool, false, List, [], ◌∷◌, if◌then◌else◌}
use mathlib.Core.List.{reverse}
use diginaut_wallet.Hex.{is_space}

unfoldable pub skip_space : List ℕ → List ℕ
unfolding is_space
skip_space [] = []
skip_space (c ∷ cs) = let rest = skip_space cs in if is_space c then rest else c ∷ cs

unfoldable pub trim : List ℕ → List ℕ
unfolding skip_space
trim s = reverse (skip_space (reverse (skip_space s)))

-- `split(/\s+/).join(' ')`: each run of white space becomes one space.
unfoldable pub one_space : Bool → List ℕ → List ℕ
unfolding is_space
one_space after [] = []
one_space after (c ∷ cs) =
    let rest = one_space (is_space c) cs in
    if is_space c then (if after then rest else 32 ∷ rest) else c ∷ rest

unfoldable pub norm_mnemonic : (List ℕ → List ℕ) → List ℕ → List ℕ
unfolding trim one_space
norm_mnemonic lower m = one_space false (lower (trim m))
