-- ===== src/Trading/Settings/Repository/Update.antt =====
-- An update with a whole configuration.
use tonatiuh_trading_saas.Prelude.{
  String, ◌≡◌, refl, sym, ap, subst, ◌∙◌, inl, inr, true, false, some, List, [], ◌∷◌, find?,
  Bool-cases, ◌or_maybe◌, ◌==◌ as nat_eq,
}
use tonatiuh_trading_saas.Prelude.Maps.{nat_eq_refl}
use tonatiuh_trading_saas.Prelude.Action.{ok, After}
use tonatiuh_trading_saas.Trading.Outside.{Outside}
use tonatiuh_trading_saas.Trading.Settings.Encryption.{Crypto, empty, encrypt}
use tonatiuh_trading_saas.Trading.Settings.Encryption.Laws.{IsAead}
use tonatiuh_trading_saas.Trading.Settings.Config.{Config, Setting, plain_entries}
use tonatiuh_trading_saas.Trading.Settings.Repository.{
  ConfigRow, Configs, Entries, has_id, selected, all_entries, update_row, update_entries,
  decrypt_config, read_row, encrypt_entry, set_row, update_config,
}
use tonatiuh_trading_saas.Trading.Settings.Repository.Columns.{
  sealed_entries, destructure-all_entries, set_all-sealed_entries, find?-map,
}
use tonatiuh_trading_saas.Trading.Settings.Repository.Reads.{decrypt_config-sealed}

abbrev pub Full : {N : Type 0} → Config N → Type 0
Full c = (empty c.api_key ≡ false) × (empty c.private_key ≡ false) × (empty c.password ≡ false)

module _ {N X : Type 0} (out : Outside N X) (crypto : Crypto X) (law : IsAead crypto) where
  abbrev pub Readable : Config N → List (ConfigRow N) → Type 0
  Readable c rows = read_row crypto (find? (has_id c.id) rows) ≡ ok (selected c)

  encrypt_entry-full :
      (key : String → Setting N) (text : String) (s : Configs N X)
      → empty text ≡ false
      → encrypt_entry crypto key (some text) s ≡ (
        ok (key (encrypt crypto text s.venue).0 ∷ []),
        record s { venue = (encrypt crypto text s.venue).1 },
      )
  encrypt_entry-full key text s h = rw h refl

  -- the update that a whole configuration becomes
  abbrev after_entries : Config N → Configs N X → Configs N X
  after_entries c s =
      let x = (encrypt crypto c.api_key s.venue).1 in
      let y = (encrypt crypto c.private_key x).1 in
      record s { venue = (encrypt crypto c.password y).1 }

  abbrev stored_entries : Config N → X → List (Setting N)
  stored_entries c x₀ =
      let (a, x) = encrypt crypto c.api_key x₀ in
      let (p, y) = encrypt crypto c.private_key x in
      sealed_entries c a p (encrypt crypto c.password y).0

  update_config-eq :
      (c : Config N) (s : Configs N X)
      → Full c
      → update_config out crypto (all_entries c) c.id s
        ≡ update_row out (stored_entries c s.venue) c.id (after_entries c s)
  unfolding update_config
  update_config-eq c s (a, p, w) =
      let entries : Entries N = record {
        api_key = some c.api_key;
        private_key = some c.private_key;
        password = some c.password;
        config_temp = plain_entries c;
      } in
      let known : update_entries out crypto entries c.id s
          ≡ update_row out (stored_entries c s.venue) c.id (after_entries c s) =
        rw a (rw p (rw w refl)) in
      ap (λ e. update_entries out crypto e c.id s) (destructure-all_entries c) ∙ known

  set_row-Reads :
      (c : Config N) (r : ConfigRow N) (x : X)
      → Full c
      → decrypt_config crypto (set_row (stored_entries c x) r).config ≡ ok (selected c)
  set_row-Reads c r x (a, p, w) =
      let y = (encrypt crypto c.api_key x).1 in
      let z = (encrypt crypto c.private_key y).1 in
      let same =
        set_all-sealed_entries c r.config (encrypt crypto c.api_key x).0
          (encrypt crypto c.private_key y).0 (encrypt crypto c.password z).0 in
      let d : Config N = record c {
        is_config_updated = r.config.is_config_updated;
        balance_distribution = c.balance_distribution or_maybe r.config.balance_distribution;
      } in
      ap (λ q. decrypt_config crypto q) same ∙ decrypt_config-sealed crypto law d x y z a p w

  set_row-keeps_id :
      (c : Config N) (q : ConfigRow N) (x : X) → has_id c.id (set_row (stored_entries c x) q) ≡ true
  set_row-keeps_id c q x =
      let y = (encrypt crypto c.api_key x).1 in
      let z = (encrypt crypto c.private_key y).1 in
      ap (λ d. nat_eq d.id c.id)
        (set_all-sealed_entries c q.config (encrypt crypto c.api_key x).0
          (encrypt crypto c.private_key y).0 (encrypt crypto c.password z).0)
      ∙ nat_eq_refl c.id

  update_row-Stores :
      (c : Config N) (r : ConfigRow N) (x : X) (t : Configs N X)
      → Full c
      → find? (has_id c.id) t.rows ≡ some r
      → After
          (λ _ u. Readable c u.rows)
          (λ _ u. u.rows ≡ t.rows)
          (update_row out (stored_entries c x) c.id t)
  update_row-Stores c r x t full h =
      let change = set_row (stored_entries c x) in
      let there = find?-map c.id change t.rows r (λ q. set_row-keeps_id c q x) h in
      elim (Bool-cases (out.query_accepted t.venue).0) [
        | inr refused ↦ rw refused refl
        | inl accepted ↦ rw accepted (ap (λ o. read_row crypto o) there ∙ set_row-Reads c r x full)
      ]

  -- An update with a whole configuration, whose credentials are not empty, of a number that has a
  -- row: if it succeeds, that row reads as the configuration.
  pub update_config-Stores :
      (c : Config N) (r : ConfigRow N) (s : Configs N X)
      → Full c
      → find? (has_id c.id) s.rows ≡ some r
      → After
          (λ _ t. Readable c t.rows)
          (λ _ t. t.rows ≡ s.rows)
          (update_config out crypto (all_entries c) c.id s)
  update_config-Stores c r s full h =
      subst (λ o. After (λ _ t. Readable c t.rows) (λ _ t. t.rows ≡ s.rows) o)
        (sym (update_config-eq c s full)) (update_row-Stores c r s.venue (after_entries c s) full h)
