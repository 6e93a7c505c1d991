-- ===== src/Vault/Wallets/Effects.antt =====
-- Each operation of apps/wallet/public/vault.js on an open, well-formed vault has one of the effects.
use diginaut_wallet.Prelude.{
  ℕ, ◌≡◌, refl, sym, true, not, ◌==◌, List, [], ◌∷◌, filter, Option, none, some, inl, inr, arith,
  Bool-cases, Option-cases,
}
use diginaut_wallet.Prelude.Dict.{get, put}
use diginaut_wallet.Vault.State.{
  WalletRow, Source, Secrets, VaultRecord, World, Platform, Call, unknown_wallet, empty_name,
  name_taken, type_error, ◌>>◌, pure,
}
use diginaut_wallet.Vault.Names.{trim}
use diginaut_wallet.Vault.Keystore.{delete_vault_record}
use diginaut_wallet.Vault.Manager.{Draft, is_some}
use diginaut_wallet.Vault.Wallets.{
  find_row, update_row, next_active, stored_index, raised_index, add_wallet, rename_wallet,
  remove_wallet, set_active, set_backed_up, set_receive_index, upgrade, find_mnemonic, name_clash,
}
use diginaut_wallet.Vault.Wallets.Ids.{WellFormed, find_row-In}
use diginaut_wallet.Vault.Wallets.Operations.{
  Effect, Operation, RowKept-refl, perform, add, rename, remove_one, activate, back_up, raise_index,
  refused, unchanged, commits, deletes,
}
use diginaut_wallet.Vault.Wallets.Changes.{
  added-Kept, added-WellFormed, back_up-RowKept, derived-RowKept, is_blank, only_id, raised-RowKept,
  removed-Kept, removed-WellFormed, removed_secrets, renamed-RowKept, update_row-Kept,
  update_row-WellFormed,
}

module _ (p : Platform) (c : Call) (w : World) (base : VaultRecord) (s : Secrets) (k : List ℕ)
    (held : w.tab.key ≡ some k) (seen : w.tab.record_ ≡ some base) (plain : w.tab.secrets ≡ some s)
    (wf : WellFormed base.meta s) where
  activate-Effect : (id : ℕ) → Effect p c (activate id) base.meta s w (set_active p c id w)
  unfolding set_active
  activate-Effect id = elim (Option-cases (find_row id base.meta.wallets)) [
    | inl e ↦ refused unknown_wallet (ground arith)
    | inr (r, e) ↦ elim (Bool-cases (base.meta.active_id == id)) [
      | inl same ↦ unchanged (ground arith)
      | inr other ↦
          commits (record base.meta { active_id = id }) s
            (record {
              matched = wf.matched;
              distinct = wf.distinct;
              active = (find_row-In id base.meta.wallets r e).0;
            })
            (record { seeds = λ j v stays q. q; rows = λ j x stays q. (x, q, RowKept-refl x) })
            (ground arith)
    ]
  ]

  back_up-Effect : (id : ℕ) → Effect p c (back_up id) base.meta s w (set_backed_up p c id w)
  unfolding set_backed_up
  back_up-Effect id = elim (Option-cases (find_row id base.meta.wallets)) [
    | inl e ↦ refused unknown_wallet (ground arith)
    | inr (r, e) ↦
        let f : WalletRow → WalletRow = λ x. record x { backed_up = true } in
        commits (update_row id f base.meta) s
          (update_row-WellFormed base.meta s wf id f (λ x. refl))
          (update_row-Kept base.meta s wf (back_up id) id f (λ x. refl) (λ x _. back_up-RowKept x))
          (ground arith)
  ]

  raise_index-Effect :
      (id index : ℕ)
      → Effect p c (raise_index id index) base.meta s w (set_receive_index p c id index w)
  unfolding set_receive_index
  raise_index-Effect id index = elim (Option-cases (find_row id base.meta.wallets)) [
    | inl e ↦ refused unknown_wallet (ground arith)
    | inr (r, e) ↦ elim (Bool-cases (raised_index index r == stored_index r)) [
      | inl same ↦ unchanged (ground arith)
      | inr other ↦
          let f : WalletRow → WalletRow =
            λ x. record x { receive_index = some (raised_index index r) } in
          commits (update_row id f base.meta) s
            (update_row-WellFormed base.meta s wf id f (λ x. refl))
            (update_row-Kept base.meta s wf (raise_index id index) id f (λ x. refl)
              (λ x found. raised-RowKept index r x (ground arith)))
            (ground arith)
    ]
  ]

  rename-Effect :
      (id : ℕ) (name : List ℕ)
      → Effect p c (rename id name) base.meta s w (rename_wallet p c id name w)
  unfolding rename_wallet
  rename-Effect id name = elim (Option-cases (find_row id base.meta.wallets)) [
    | inl e ↦ refused unknown_wallet (ground arith)
    | inr (r, e) ↦ elim (Bool-cases (is_blank (trim name))) [
      | inl blank ↦ refused empty_name (ground (arith, is_blank))
      | inr named ↦ elim (Bool-cases (name_clash p (trim name) (some id) base.meta.wallets)) [
        | inl clash ↦ refused name_taken (ground (arith, is_blank))
        | inr free ↦
            let f : WalletRow → WalletRow = λ x. record x { name = trim name } in
            commits (update_row id f base.meta) s
              (update_row-WellFormed base.meta s wf id f (λ x. refl))
              (update_row-Kept base.meta s wf (rename id name) id f (λ x. refl)
                (λ x _. renamed-RowKept (trim name) x))
              (ground (arith, is_blank))
      ]
    ]
  ]

  upgrade-Effect :
      (d : Draft) (known : ℕ)
      → find_mnemonic p d.mnemonic s.mnemonics ≡ some known
      → (source : Option Source) → d.source ≡ source
      → Effect p c (add d) base.meta s w ((add_wallet p c d >> pure tt) w)
  unfolding add_wallet upgrade
  upgrade-Effect d known e none from = unchanged (ground arith)
  upgrade-Effect d known e (some src) from = elim (Bool-cases (is_some (get known s.sources))) [
    | inl has ↦ unchanged (ground arith)
    | inr lacks ↦
        let f : WalletRow → WalletRow = λ x. record x { derived = true } in
        let wf' : WellFormed base.meta (record s { sources = put known src s.sources }) = record {
          matched = wf.matched;
          distinct = wf.distinct;
          active = wf.active;
        } in
        commits (update_row known f base.meta) (record s { sources = put known src s.sources })
          (update_row-WellFormed base.meta (record s { sources = put known src s.sources }) wf'
            known f (λ x. refl))
          (record {
            seeds = λ j v stays q. q;
            rows =
                (update_row-Kept base.meta s wf (add d) known f (λ x. refl)
                  (λ x _. derived-RowKept x)).rows;
          })
          (ground arith)
  ]

  add-Effect : (d : Draft) → Effect p c (add d) base.meta s w ((add_wallet p c d >> pure tt) w)
  unfolding add_wallet upgrade
  add-Effect d = elim (Option-cases (find_mnemonic p d.mnemonic s.mnemonics)) [
    | inl new ↦ elim (Bool-cases (name_clash p d.name none base.meta.wallets)) [
      | inl clash ↦ refused name_taken (ground arith)
      | inr free ↦
          commits _ _ (added-WellFormed c base.meta s wf d) (added-Kept c base.meta s wf d)
            (ground arith)
    ]
    | inr (known, e) ↦ upgrade-Effect d known e (d.source) refl
  ]

  remove_rest :
      (id : ℕ) (r : WalletRow)
      → find_row id base.meta.wallets ≡ some r
      → (rest : List WalletRow) → filter (λ x. not (x.id == id)) base.meta.wallets ≡ rest
      → Effect p c (remove_one id) base.meta s w (remove_wallet p c id w)
  unfolding remove_wallet delete_vault_record
  remove_rest id r e [] left =
      deletes id base.rev refl
        (only_id id base.meta.wallets wf.distinct (find_row-In id _ r e).0 left) (ground arith)
  remove_rest id r e (x ∷ rs) left = elim (Option-cases (next_active id base.meta)) [
    | inl gone ↦ refused type_error (ground arith)
    | inr (next, to) ↦
        commits (record { active_id = next; wallets = x ∷ rs }) (removed_secrets id s)
          (rw (sym left) (removed-WellFormed id base.meta s wf next to))
          (rw (sym left) (removed-Kept id base.meta s next)) (ground (arith, next_active))
  ]

  remove-Effect : (id : ℕ) → Effect p c (remove_one id) base.meta s w (remove_wallet p c id w)
  unfolding remove_wallet
  remove-Effect id = elim (Option-cases (find_row id base.meta.wallets)) [
    | inl e ↦ refused unknown_wallet (ground arith)
    | inr (r, e) ↦ remove_rest id r e _ refl
  ]

  -- Each operation on an open, well-formed vault is refused without a trace, changes nothing, is
  -- one commit of well-formed data that keeps the other wallets' seeds and rows, or deletes the
  -- record of the last wallet.
  pub perform-Effect : (op : Operation) → Effect p c op base.meta s w (perform p c op w)
  perform-Effect (add d) = add-Effect d
  perform-Effect (rename id name) = rename-Effect id name
  perform-Effect (remove_one id) = remove-Effect id
  perform-Effect (activate id) = activate-Effect id
  perform-Effect (back_up id) = back_up-Effect id
  perform-Effect (raise_index id index) = raise_index-Effect id index
