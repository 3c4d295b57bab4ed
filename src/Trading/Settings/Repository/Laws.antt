-- ===== src/Trading/Settings/Repository/Laws.antt =====
-- Storing a configuration and reading it back.
use tonatiuh_trading_saas.Prelude.{
  ℕ, ◌≡◌, refl, sym, ap, subst, ◌∙◌, ◌⊎◌, inl, inr, not, none, some, List, [], ◌∷◌, ◌++◌, find?,
  is_some, if◌then◌else◌, arith, Bool-cases, Option-cases, ◌or_maybe◌, ◌==◌ as nat_eq,
}
use tonatiuh_trading_saas.Prelude.Maps.{nat_eq_refl, nat_eq_sound}
use tonatiuh_trading_saas.Prelude.Action.{
  ok, Action, Done, when, throw, After, After-bind, After-mono,
}
use tonatiuh_trading_saas.Trading.Outside.{Outside, Failure, other_failure}
use tonatiuh_trading_saas.Trading.Settings.Encryption.{Crypto, encrypt}
use tonatiuh_trading_saas.Trading.Settings.Encryption.Laws.{IsAead}
use tonatiuh_trading_saas.Trading.Settings.Config.{Config}
use tonatiuh_trading_saas.Trading.Settings.Repository.{
  ConfigRow, Configs, has_id, selected, all_entries, statement, decrypt_config, decrypt_rows,
  inserted, read_row, get_config, update_config, create_config, check_created, first_has_id,
  sync_missing, sync_runtime_config,
}
use tonatiuh_trading_saas.Trading.Settings.Repository.Columns.{inserted-eq}
use tonatiuh_trading_saas.Trading.Settings.Repository.Reads.{
  statement-Changes, Result-Known, find?-decrypt_rows, decrypt_config-id, decrypt_rows-cons,
  decrypt_rows-nil, decrypt_config-sealed,
}
use tonatiuh_trading_saas.Trading.Settings.Repository.Update.{Full, Readable, update_config-Stores}

module _ {N X : Type 0} (out : Outside N X) (crypto : Crypto X) (law : IsAead crypto) where
  -- reading changes no row
  pub get_config-Reads :
      (s : Configs N X)
      → After
          (λ configs t. (t.rows ≡ s.rows) × (decrypt_rows crypto s.rows ≡ ok configs))
          (λ _ t. t.rows ≡ s.rows)
          (get_config out crypto s)
  unfolding get_config
  get_config-Reads s =
      let keep : List (ConfigRow N) → List (ConfigRow N) = λ rows. rows in
      After-bind (λ configs t. (t.rows ≡ s.rows) × (decrypt_rows crypto s.rows ≡ ok configs))
        (λ _ t. t.rows ≡ s.rows) (λ _ t. t.rows ≡ s.rows) (statement out keep)
        (λ _ t. (decrypt_rows crypto t.rows, t)) s (statement-Changes out keep s)
        (λ _ t same.
          After-mono (decrypt_rows crypto t.rows, t)
            (λ configs u known.
              (rw known.0 same, ap (λ rows. decrypt_rows crypto rows) (sym same) ∙ known.1))
            (λ e u known. rw known same) (Result-Known (decrypt_rows crypto t.rows) t))

  one_row-Readable :
      (c : Config N) (r : ConfigRow N)
      → r.config.id ≡ c.id
      → decrypt_config crypto r.config ≡ ok (record (selected c) { id = r.config.id })
      → Readable out crypto law c (r ∷ [])
  one_row-Readable c r id_eq reads =
      let found : find? (has_id c.id) (r ∷ []) ≡ some r =
        ap (λ b. if b then some r else none) (ap (λ i. nat_eq i c.id) id_eq ∙ nat_eq_refl c.id) in
      ap (λ o. read_row crypto o) found
      ∙ reads
      ∙ ap (λ i. ok (record (selected c) { id = i })) id_eq

  module _ (next_id : X → ℕ × X) (defaults : Config N) where
    -- what a created row is
    create_config-Adds :
        (c : Config N) (s : Configs N X)
        → Full c
        → After
            (λ _ t.
              (r : ConfigRow N) × (t.rows ≡ s.rows ++ r ∷ [])
              × (decrypt_config crypto r.config ≡ ok (record (selected c) { id = r.config.id })))
            (λ _ t. t.rows ≡ s.rows)
            (create_config out crypto next_id defaults c s)
    unfolding create_config
    create_config-Adds c s (full_key, full_private, full_password) =
        let (a, x) = encrypt crypto c.api_key s.venue in
        let (p, y) = encrypt crypto c.private_key x in
        let (w, z) = encrypt crypto c.password y in
        let (id, v) = next_id z in
        let r = inserted defaults c id a p w in
        let d : Config N = record c {
          id = id;
          is_config_updated = defaults.is_config_updated;
          balance_distribution = c.balance_distribution or_maybe defaults.balance_distribution;
        } in
        let reads =
          ap (λ q. decrypt_config crypto q) (inserted-eq defaults c id a p w)
          ∙ decrypt_config-sealed crypto law d s.venue x y full_key full_private full_password in
        let add : List (ConfigRow N) → List (ConfigRow N) = λ rows. rows ++ r ∷ [] in
        let t : Configs N X = record s { venue = v } in
        After-mono (statement out add t) (λ _ u same. (r, same, reads)) (λ _ u same. same)
          (statement-Changes out add t)

    check_created-Reads :
        (c : Config N) (r : ConfigRow N) (t : Configs N X)
        → t.rows ≡ r ∷ []
        → decrypt_config crypto r.config ≡ ok (record (selected c) { id = r.config.id })
        → After
            (λ _ u. Readable out crypto law c u.rows)
            (λ _ u. Unit {0})
            (check_created out crypto next_id defaults c t)
    check_created-Reads c r t rows reads =
        let rest : List (Config N) → Action (Configs N X) Failure Done = λ created.
          when (not (first_has_id c.id created))
            (throw (other_failure "Runtime config was created with another id")) in
        After-bind (λ _ u. Readable out crypto law c u.rows) (λ _ u. Unit {0})
          (λ created u. (u.rows ≡ t.rows) × (decrypt_rows crypto t.rows ≡ ok created))
          (get_config out crypto) rest t
          (After-mono (get_config out crypto t) (λ _ u known. known) (λ _ u _. tt)
            (get_config-Reads t))
          (λ created u (same, good).
            let (d, ds, first, others, shape) =
              decrypt_rows-cons crypto r [] created
                (ap (λ rs. decrypt_rows crypto rs) (sym rows) ∙ good) in
            elim (Bool-cases (nat_eq d.id c.id)) [
              | inl right ↦
                  let id_eq : r.config.id ≡ c.id =
                    sym (decrypt_config-id crypto r.config d first)
                    ∙ nat_eq_sound d.id c.id right in
                  rw shape (
                    rw right (
                      subst (Readable out crypto law c) (sym (same ∙ rows))
                        (one_row-Readable c r id_eq reads)))
              | inr wrong ↦ rw shape (rw wrong tt)
            ])

    sync_missing-Stores :
        (c : Config N) (configs : List (Config N)) (s : Configs N X)
        → Full c
        → decrypt_rows crypto s.rows ≡ ok configs
        → After
            (λ _ t. Readable out crypto law c t.rows)
            (λ _ t. (t.rows ≡ s.rows) ⊎ (s.rows ≡ []))
            (sync_missing out crypto next_id defaults configs c s)
    sync_missing-Stores c [] s full h =
        let none_there = decrypt_rows-nil crypto s.rows h in
        After-bind (λ _ t. Readable out crypto law c t.rows)
          (λ _ t. (t.rows ≡ s.rows) ⊎ (s.rows ≡ []))
          (λ _ t.
            (r : ConfigRow N) × (t.rows ≡ s.rows ++ r ∷ [])
            × (decrypt_config crypto r.config ≡ ok (record (selected c) { id = r.config.id })))
          (create_config out crypto next_id defaults c)
          (λ _. check_created out crypto next_id defaults c) s
          (After-mono (create_config out crypto next_id defaults c s) (λ _ t known. known)
            (λ _ t known. inl known) (create_config-Adds c s full))
          (λ _ t (r, rows, reads).
            After-mono (check_created out crypto next_id defaults c t) (λ _ u known. known)
              (λ _ u _. inr none_there)
              (check_created-Reads c r t (rows ∙ ap (λ rs. rs ++ r ∷ []) none_there) reads))
    sync_missing-Stores c (d ∷ ds) s full h = inl refl

    -- A configuration whose credentials are not empty, once it is synchronized, is read back from
    -- the table as it was, less the two settings that are not selected; with an error the rows are
    -- as they were, or there were none. Ciphertexts of AES-GCM can be opened.
    pub sync_runtime_config-Stores :
        (c : Config N) (s : Configs N X)
        → Full c
        → After
            (λ _ t. Readable out crypto law c t.rows)
            (λ _ t. (t.rows ≡ s.rows) ⊎ (s.rows ≡ []))
            (sync_runtime_config out crypto next_id defaults c s)
    unfolding sync_runtime_config
    sync_runtime_config-Stores c s full =
        let rest : List (Config N) → Action (Configs N X) Failure Done = λ configs.
          if is_some (find? (λ item. nat_eq item.id c.id) configs)
          then update_config out crypto (all_entries c) c.id
          else sync_missing out crypto next_id defaults configs c in
        let P : Done → Configs N X → Type 0 = λ _ t. Readable out crypto law c t.rows in
        let Q : Failure → Configs N X → Type 0 = λ _ t. (t.rows ≡ s.rows) ⊎ (s.rows ≡ []) in
        After-bind P Q (λ configs t. (t.rows ≡ s.rows) × (decrypt_rows crypto s.rows ≡ ok configs))
          (get_config out crypto) rest s
          (After-mono (get_config out crypto s) (λ _ t known. known) (λ _ t known. inl known)
            (get_config-Reads s))
          (λ configs t (same, good).
            let good' = ap (λ rs. decrypt_rows crypto rs) same ∙ good in
            elim (Bool-cases (is_some (find? (λ item. nat_eq item.id c.id) configs))) [
              | inl there ↦ elim (Option-cases (find? (has_id c.id) t.rows)) [
                | inl missing ↦
                    absurd
                      (ground (arith, find?-decrypt_rows crypto c.id t.rows configs good' there))
                | inr (r, row) ↦ rw there (
                    After-mono (update_config out crypto (all_entries c) c.id t)
                      (λ _ u known. known) (λ _ u known. inl (known ∙ same))
                      (update_config-Stores out crypto law c r t full row))
              ]
              | inr missing ↦ rw missing (
                  After-mono (sync_missing out crypto next_id defaults configs c t)
                    (λ _ u known. known)
                    (λ _ u known. elim known [
                      | inl k ↦ inl (k ∙ same)
                      | inr k ↦ inr (sym same ∙ k)
                    ])
                    (sync_missing-Stores c configs t full good'))
            ])
