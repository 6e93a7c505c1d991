-- ===== src/Vault/Wallets/Invariant.antt =====
-- What holds after every operation on the wallets of an open vault.
use diginaut_wallet.Prelude.{ℕ, ◌≡◌, sym, ap, ◌∙◌, List, some, Outcome, ok, throw, inl, ◌⊎◌, arith}
use diginaut_wallet.Vault.State.{
  Meta, Secrets, VaultRecord, World, Platform, Call, VaultError, conflict,
}
use diginaut_wallet.Vault.Manager.{commit, lock}
use diginaut_wallet.Vault.Manager.Commit.{commit_lem, refresh-disk}
use diginaut_wallet.Vault.Wallets.Ids.{WellFormed}
use diginaut_wallet.Vault.Wallets.Effects.{perform-Effect}
use diginaut_wallet.Vault.Wallets.Operations.{
  Operation, perform, Effect, refused, unchanged, commits, deletes, Kept, RowKept-refl,
}

Kept-refl : (op : Operation) (m : Meta) (s : Secrets) → Kept op m m s s
Kept-refl op m s = record { seeds = λ j v _ e. e; rows = λ j r _ e. (r, e, RowKept-refl r) }

-- What an effect comes to, when it succeeded and when it threw.
module _ (p : Platform) (c : Call) (op : Operation) (w : World) (base : VaultRecord) (s : Secrets)
    (k : List ℕ) (held : w.tab.key ≡ some k) (seen : w.tab.record_ ≡ some base)
    (plain : w.tab.secrets ≡ some s) (wf : WellFormed base.meta s) where
  done_commit :
      (m' : Meta) (s' : Secrets) (r : VaultRecord) (t : Secrets)
      → let (o, w2) = commit p c m' s' w in
        o ≡ ok tt → w2.tab.record_ ≡ some r → w2.tab.secrets ≡ some t → (r.meta ≡ m') × (t ≡ s')
  done_commit m' s' r t done at_r at_t = ground (arith, commit_lem p c m' s' w k base held seen)

  abbrev Result : Outcome VaultError (Unit {0}) × World → Type 0
  Result o =
      (r : VaultRecord) (t : Secrets)
      → o.0 ≡ ok tt
      → o.1.tab.record_ ≡ some r
      → o.1.tab.secrets ≡ some t
      → WellFormed r.meta t × Kept op base.meta r.meta s t

  Effect-Result :
      (o : Outcome VaultError (Unit {0}) × World) → Effect p c op base.meta s w o → Result o
  unfolding lock
  Effect-Result o (refused e q) r t done at_r at_t = absurd (ground arith)
  Effect-Result o (unchanged q) r t done at_r at_t =
      let em : r.meta ≡ base.meta = ground arith in
      let es : t ≡ s = ground arith in rw em (rw es (wf, Kept-refl op base.meta s))
  Effect-Result o (commits m' s' wf' kept q) r t done at_r at_t =
      let (em, es) =
        done_commit m' s' r t (sym (ap (λ x. x.0) q) ∙ done)
          (sym (ap (λ x. x.1.tab.record_) q) ∙ at_r) (sym (ap (λ x. x.1.tab.secrets) q) ∙ at_t) in
      rw em (rw es (wf', kept))
  Effect-Result o (deletes id rev q only d) r t done at_r at_t = absurd (ground (arith, lock))

  -- After every operation that succeeds on an open, well-formed vault, the vault that the tab then
  -- holds, if there is one, is well formed: the seeds stand under the ids of the rows, no id twice,
  -- and the active wallet exists.
  pub perform-WellFormed :
      (r : VaultRecord) (t : Secrets)
      → let (o, w2) = perform p c op w in
        o ≡ ok tt → w2.tab.record_ ≡ some r → w2.tab.secrets ≡ some t → WellFormed r.meta t
  perform-WellFormed r t done at_r at_t =
      (Effect-Result _ (perform-Effect p c w base s k held seen plain wf op) r t done at_r at_t).0

  -- After every operation that succeeds on an open, well-formed vault, the vault that the tab then
  -- holds, if there is one, still has every wallet but one that was removed: its seed phrase
  -- unchanged, its backup mark not cleared, and its receive index not lower.
  pub perform-Kept :
      (r : VaultRecord) (t : Secrets)
      → let (o, w2) = perform p c op w in
        o ≡ ok tt → w2.tab.record_ ≡ some r → w2.tab.secrets ≡ some t → Kept op base.meta r.meta s t
  perform-Kept r t done at_r at_t =
      (Effect-Result _ (perform-Effect p c w base s k held seen plain wf op) r t done at_r at_t).1

  Effect-throw :
      (o : Outcome VaultError (Unit {0}) × World) (e : VaultError)
      → Effect p c op base.meta s w o
      → o.0 ≡ throw e
      → (o.1 ≡ w) ⊎ ((e ≡ conflict) × ((o.1.disk ≡ w.disk) ⊎ (o.1.disk ≡ (c.between w).disk)))
  Effect-throw o e (refused e' q) thrown = inl (ground arith)
  Effect-throw o e (unchanged q) thrown = absurd (ground arith)
  Effect-throw o e (commits m' s' wf' kept q) thrown =
      ground (arith, commit_lem p c m' s' w k base held seen, refresh-disk p (c.between w))
  Effect-throw o e (deletes id rev q only d) thrown = ground (arith, refresh-disk p w)

  -- An operation on an open, well-formed vault that throws has written nothing: either the world is
  -- as it was, or the error is the conflict, and the storage is as it was or as the other tabs left
  -- it during the wait.
  pub perform_throw :
      (e : VaultError)
      → let (o, w2) = perform p c op w in
        o ≡ throw e
        → (w2 ≡ w) ⊎ ((e ≡ conflict) × ((w2.disk ≡ w.disk) ⊎ (w2.disk ≡ (c.between w).disk)))
  perform_throw e thrown =
      Effect-throw _ e (perform-Effect p c w base s k held seen plain wf op) thrown
