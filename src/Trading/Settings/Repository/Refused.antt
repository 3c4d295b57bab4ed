-- ===== src/Trading/Settings/Repository/Refused.antt =====
-- A configuration with an empty password, in an empty table.
use tonatiuh_trading_saas.Prelude.{
  ℕ, ◌≡◌, ap, ◌∙◌, true, List, [], ◌∷◌, ◌++◌, arith, inl, inr, find?, is_some, not, ◌==◌ as nat_eq,
  if◌then◌else◌,
}
use tonatiuh_trading_saas.Prelude.Action.{
  err, Action, Done, throw, when, After, After-bind, After-mono, Result-cases,
}
use tonatiuh_trading_saas.Trading.Outside.{Outside, Failure, other_failure}
use tonatiuh_trading_saas.Trading.Settings.Encryption.{Crypto, empty, encrypt, decrypt, invalid}
use tonatiuh_trading_saas.Trading.Settings.Encryption.Laws.{IsAead, encrypt-decrypt}
use tonatiuh_trading_saas.Trading.Settings.Config.{Config}
use tonatiuh_trading_saas.Trading.Settings.Repository.{
  ConfigRow, Configs, statement, inserted, decrypt_config, decrypt_rows, get_config, create_config,
  check_created, first_has_id, sync_runtime_config, sync_missing, update_config, all_entries,
}
use tonatiuh_trading_saas.Trading.Settings.Repository.Reads.{statement-Changes}
use tonatiuh_trading_saas.Trading.Settings.Repository.Laws.{get_config-Reads}

module _ {N X : Type 0} (crypto : Crypto X) where
  -- a row that cannot be read
  abbrev Unreadable : List (ConfigRow N) → Type 0
  Unreadable rows = (e : Failure) × (decrypt_rows crypto rows ≡ err e)

  decrypt_config-unreadable :
      (d : Config N)
      → decrypt crypto d.password ≡ invalid
      → (e : Failure) × (decrypt_config crypto d ≡ err e)
  unfolding decrypt_config
  decrypt_config-unreadable d h = elim (Result-cases (decrypt crypto d.api_key)) [
    | inr (e, bad) ↦ (e, ground arith)
    | inl (a, good) ↦ elim (Result-cases (decrypt crypto d.private_key)) [
      | inr (e, bad) ↦ (e, ground arith)
      | inl (p, good') ↦ (other_failure "Invalid encrypted value.", ground arith)
    ]
  ]

module _ {N X : Type 0} (out : Outside N X) (crypto : Crypto X) (law : IsAead crypto)
    (next_id : X → ℕ × X) (defaults : Config N) where
  create_config-Unreadable :
      (c : Config N) (s : Configs N X)
      → empty c.password ≡ true
      → s.rows ≡ []
      → After
          (λ _ t. Unreadable crypto t.rows)
          (λ _ t. Unit {0})
          (create_config out crypto next_id defaults c s)
  unfolding create_config
  create_config-Unreadable c s h none_there =
      let (a, x) = encrypt crypto c.api_key s.venue in
      let (p, y) = encrypt crypto c.private_key x in
      let (w, z) = encrypt crypto c.password y in
      let (id, v) = next_id z in
      let r = inserted defaults c id a p w in
      let add : List (ConfigRow N) → List (ConfigRow N) = λ rows. rows ++ r ∷ [] in
      let t : Configs N X = record s { venue = v } in
      let bad : decrypt crypto r.config.password ≡ invalid =
        ground (arith, encrypt-decrypt crypto law c.password y) in
      let (e, refused) = decrypt_config-unreadable crypto r.config bad in
      let one : decrypt_rows crypto (r ∷ []) ≡ err e = ground arith in
      After-mono (statement out add t)
        (λ _ u same. (e, ap (λ rows. decrypt_rows crypto rows) (same ∙ ap add none_there) ∙ one))
        (λ _ u same. tt) (statement-Changes out add t)

  check_created-Never :
      (c : Config N) (t : Configs N X)
      → Unreadable crypto t.rows
      → After (λ _ u. ⊥) (λ _ u. Unit {0}) (check_created out crypto next_id defaults c t)
  check_created-Never c t (e, bad) =
      let rest : List (Config N) → Action (Configs N X) Failure Done = λ created.
        when (not (first_has_id c.id created))
          (throw (other_failure "Runtime config was created with another id")) in
      After-bind (λ _ u. ⊥) (λ _ u. Unit {0}) (λ _ u. ⊥) (get_config out crypto) rest t
        (After-mono (get_config out crypto t)
          (λ created u known. absurd (ground (arith, known.1, bad))) (λ _ u _. tt)
          (get_config-Reads out crypto law t))
        (λ created u never. absurd never)

  -- Synchronizing a configuration with an empty password into an empty table never succeeds.
  pub sync_runtime_config-Never :
      (c : Config N) (s : Configs N X)
      → empty c.password ≡ true
      → s.rows ≡ []
      → After (λ _ u. ⊥) (λ _ u. Unit {0}) (sync_runtime_config out crypto next_id defaults c s)
  unfolding sync_runtime_config
  sync_runtime_config-Never c s h none_there =
      let rest : List (Config N) → Action (Configs N X) Failure Done = λ configs.
        if is_some (find? (λ item. nat_eq item.id c.id) configs)
        then update_config out crypto (all_entries c) c.id
        else sync_missing out crypto next_id defaults configs c in
      let never : Done → Configs N X → Type 0 = λ _ u. ⊥ in
      let any : Failure → Configs N X → Type 0 = λ _ u. Unit {0} in
      After-bind never any (λ configs t. (t.rows ≡ []) × (configs ≡ [])) (get_config out crypto)
        rest s
        (After-mono (get_config out crypto s)
          (λ configs t known. (known.0 ∙ none_there, ground (arith, known.1, none_there)))
          (λ _ u _. tt) (get_config-Reads out crypto law s))
        (λ configs t (still, no_configs). rw no_configs (
          After-bind never any (λ _ u. Unreadable crypto u.rows)
            (create_config out crypto next_id defaults c)
            (λ _. check_created out crypto next_id defaults c) t
            (create_config-Unreadable c t h still) (λ _ u bad. check_created-Never c u bad)))
