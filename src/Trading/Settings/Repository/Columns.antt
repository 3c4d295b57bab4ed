-- ===== src/Trading/Settings/Repository/Columns.antt =====
-- The entries of a whole configuration, and the columns that they set.
use tonatiuh_trading_saas.Prelude.{
  ℕ, String, ◌≡◌, refl, inl, inr, Bool, true, Option, none, some, List, [], ◌∷◌, map, find?,
  if◌then◌else◌, arith, Bool-cases, ◌or_maybe◌,
}
use tonatiuh_trading_saas.Trading.Settings.Config.{
  Config, Setting, set_api_key, set_private_key, set_password, plain_entries,
}
use tonatiuh_trading_saas.Trading.Settings.Repository.{
  ConfigRow, has_id, set_all, all_entries, destructure, inserted,
}

-- the entries with the credentials replaced by what is stored of them
abbrev pub sealed_entries : {N : Type 0} → Config N → String → String → String → List (Setting N)
sealed_entries c a p w = set_api_key a ∷ set_private_key p ∷ set_password w ∷ plain_entries c

module _ {N : Type 0} where
  pub destructure-all_entries :
      (c : Config N)
      → destructure (all_entries c) ≡ record {
        api_key = some c.api_key;
        private_key = some c.private_key;
        password = some c.password;
        config_temp = plain_entries c;
      }
  destructure-all_entries c = go c.balance_distribution
    where
      go :
          (d : Option Bool)
          → destructure (all_entries (record c { balance_distribution = d })) ≡ record {
            api_key = some c.api_key;
            private_key = some c.private_key;
            password = some c.password;
            config_temp = plain_entries (record c { balance_distribution = d });
          }
      go none = refl
      go (some b) = refl

  -- setting every column of a row
  pub set_all-sealed_entries :
      (c r : Config N) (a p w : String)
      → set_all (sealed_entries c a p w) r ≡ record c {
        api_key = a;
        private_key = p;
        password = w;
        is_config_updated = r.is_config_updated;
        balance_distribution = c.balance_distribution or_maybe r.balance_distribution;
      }
  set_all-sealed_entries c r a p w = go c.balance_distribution
    where
      go :
          (d : Option Bool)
          → set_all (sealed_entries (record c { balance_distribution = d }) a p w) r ≡ record c {
            api_key = a;
            private_key = p;
            password = w;
            is_config_updated = r.is_config_updated;
            balance_distribution = d or_maybe r.balance_distribution;
          }
      go none = refl
      go (some b) = refl

  pub inserted-eq :
      (defaults c : Config N) (id : ℕ) (a p w : String)
      → (inserted defaults c id a p w).config ≡ record c {
        id = id;
        api_key = a;
        private_key = p;
        password = w;
        is_config_updated = defaults.is_config_updated;
        balance_distribution = c.balance_distribution or_maybe defaults.balance_distribution;
      }
  inserted-eq defaults c id a p w = go c.balance_distribution
    where
      go :
          (d : Option Bool)
          → (inserted defaults (record c { balance_distribution = d }) id a p w).config ≡ record c {
            id = id;
            api_key = a;
            private_key = p;
            password = w;
            is_config_updated = defaults.is_config_updated;
            balance_distribution = d or_maybe defaults.balance_distribution;
          }
      go none = refl
      go (some b) = refl

  -- changing the rows with a number
  pub find?-map :
      (id : ℕ) (change : ConfigRow N → ConfigRow N) (rows : List (ConfigRow N)) (r : ConfigRow N)
      → ((q : ConfigRow N) → has_id id (change q) ≡ true)
      → find? (has_id id) rows ≡ some r
      → find? (has_id id) (map (λ q. if has_id id q then change q else q) rows) ≡ some (change r)
  find?-map id change [] r keeps h = absurd (ground arith)
  find?-map id change (q ∷ rows) r keeps h = elim (Bool-cases (has_id id q)) [
    | inl here ↦ ground (arith, keeps q)
    | inr other ↦ ground (arith, find?-map id change rows r keeps)
  ]
