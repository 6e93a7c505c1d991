-- ===== src/Tests/Browser.antt =====
-- A browser for the tests: the key is the password with the salt, a cipher text is the key with the
-- text behind it, and the secrets are written with the lengths before their parts.
use diginaut_wallet.Prelude.{
  ℕ, zero, suc, ◌≡◌, refl, ◌==◌, List, [], ◌∷◌, ◌++◌, Option, none, some, length, take, drop,
  take-append, drop-append, if◌then◌else◌, arith,
}
use diginaut_wallet.Vault.State.{Source, Secrets, Platform}

pub strip : List ℕ → List ℕ → Option (List ℕ)
strip [] text = some text
strip (k ∷ ks) [] = none
strip (k ∷ ks) (c ∷ cs) = let rest = strip ks cs in if k == c then rest else none

pub strip-append : (key text : List ℕ) → strip key (key ++ text) ≡ some text
unfolding strip
strip-append [] text = refl
strip-append (k ∷ ks) text = ground (arith, strip-append ks text)

pub write_text : List ℕ → List ℕ → List ℕ
write_text t rest = length t ∷ (t ++ rest)

pub read_text : List ℕ → List ℕ × List ℕ
read_text [] = ([], [])
read_text (n ∷ l) = (take n l, drop n l)

pub read-write_text : (t rest : List ℕ) → read_text (write_text t rest) ≡ (t, rest)
unfolding read_text write_text
read-write_text t rest = rw (take-append t rest) (rw (drop-append t rest))

pub write_seeds : List (ℕ × List ℕ) → List ℕ → List ℕ
write_seeds [] rest = rest
write_seeds ((id, m) ∷ d) rest = id ∷ write_text m (write_seeds d rest)

pub read_seeds : ℕ → List ℕ → List (ℕ × List ℕ) × List ℕ
read_seeds zero l = ([], l)
read_seeds (suc n) [] = ([], [])
read_seeds (suc n) (id ∷ l) =
    let (m, l1) = read_text l in let (d, l2) = read_seeds n l1 in ((id, m) ∷ d, l2)

pub read-write_seeds :
    (d : List (ℕ × List ℕ)) (rest : List ℕ) → read_seeds (length d) (write_seeds d rest) ≡ (d, rest)
unfolding read_seeds write_seeds
read-write_seeds [] rest = refl
read-write_seeds ((id, m) ∷ d) rest =
    rw (read-write_text m (write_seeds d rest)) (rw (read-write_seeds d rest))

pub write_sources : List (ℕ × Source) → List ℕ → List ℕ
write_sources [] rest = rest
write_sources ((id, s) ∷ d) rest =
    id
    ∷ write_text s.kind
        (write_text s.brand (write_text s.address (write_text s.fp (write_sources d rest))))

pub read_sources : ℕ → List ℕ → List (ℕ × Source)
read_sources zero l = []
read_sources (suc n) [] = []
read_sources (suc n) (id ∷ l) =
    let (kind, l1) = read_text l in
    let (brand, l2) = read_text l1 in
    let (address, l3) = read_text l2 in
    let (fp, l4) = read_text l3 in
    (id, record { kind = kind; brand = brand; address = address; fp = fp }) ∷ read_sources n l4

pub read-write_sources : (d : List (ℕ × Source)) → read_sources (length d) (write_sources d []) ≡ d
unfolding read_sources write_sources
read-write_sources [] = refl
read-write_sources ((id, s) ∷ d) = simp (read-write_text, read-write_sources d)

pub write_secrets : Secrets → List ℕ
write_secrets s =
    length s.mnemonics ∷ length s.sources ∷ write_seeds s.mnemonics (write_sources s.sources [])

pub read_secrets : List ℕ → Option Secrets
read_secrets [] = none
read_secrets (n ∷ []) = none
read_secrets (n ∷ k ∷ l) =
    let (d, rest) = read_seeds n l in some (record { mnemonics = d; sources = read_sources k rest })

pub read-write_secrets : (s : Secrets) → read_secrets (write_secrets s) ≡ some s
unfolding read_secrets write_secrets
read-write_secrets s =
    rw (read-write_seeds s.mnemonics (write_sources s.sources []))
      (rw (read-write_sources s.sources))

unfoldable pub browser : Platform
unfolding strip write_text read_text write_seeds read_seeds write_sources read_sources write_secrets
    read_secrets
browser = record {
  derive_key = λ password salt iterations. password ++ salt;
  encrypt = λ iv key text. key ++ text;
  decrypt = λ iv key bytes. strip key bytes;
  stringify = write_secrets;
  parse = read_secrets;
  to_lower_case = λ s. s;
  decrypt-encrypt = λ iv key text. strip-append key text;
  parse-stringify = read-write_secrets;
}
