-- ===== src/Trading/Settings/Repository.antt =====
-- src/repository/repository/config.repository.ts: the rows of trade_config.
pub mod Columns
pub mod Reads
pub mod Update
pub mod Laws
pub mod Refused
use tonatiuh_trading_saas.Prelude.{
  ℕ, String, Bool, true, false, not, ◌&&◌, Option, none, some, List, [], ◌∷◌, ◌++◌, map, find?,
  reduce, if◌then◌else◌, is_some, ◌==◌ as nat_eq,
}
use tonatiuh_trading_saas.Prelude.Action.{
  Result, ok, err, Action, Done, pure, gets, throw, modify, when, ◌>>=◌, ◌>>◌,
}
use tonatiuh_trading_saas.Trading.Outside.{Outside, Failure, database, other_failure}
use tonatiuh_trading_saas.Trading.Settings.Encryption.{Crypto, empty, encrypt, decrypt}
use tonatiuh_trading_saas.Trading.Settings.Config.{
  Config, Setting, set_id, set_api_key, set_private_key, set_password, set_is_config_updated,
  apply_setting, plain_entries,
}

-- A row holds its credentials encrypted. `logger_event` is a column that no configuration has.
pub record ConfigRow (N : Type 0) : Type 0 where
  pub config : Config N
  pub logger_event : Option String

pub record Configs (N X : Type 0) : Type 0 where
  pub rows : List (ConfigRow N)
  pub venue : X

-- The credentials among the entries, and the entries that are neither one of them nor
-- `isConfigUpdated`.
pub record Entries (N : Type 0) : Type 0 where
  pub api_key : Option String
  pub private_key : Option String
  pub password : Option String
  pub config_temp : List (Setting N)

module _ {N : Type 0} where
  abbrev pub has_id : ℕ → ConfigRow N → Bool
  has_id config_id r = nat_eq r.config.id config_id

  -- `created && created.id === id`
  abbrev pub first_has_id : ℕ → List (Config N) → Bool
  first_has_id id [] = false
  first_has_id id (created ∷ _) = nat_eq created.id id

  -- the columns that are selected
  abbrev pub selected : Config N → Config N
  selected c = record c { is_config_updated = none; balance_distribution = none }

  abbrev with_credentials : Config N → String → String → String → Config N
  with_credentials c api_key private_key password = record c {
    api_key = api_key;
    private_key = private_key;
    password = password;
  }

  abbrev pub set_all : List (Setting N) → Config N → Config N
  set_all settings c = reduce apply_setting c settings

  abbrev file_entry : Setting N → Entries N → Entries N
  file_entry (set_api_key v) e = record e { api_key = some v }
  file_entry (set_private_key v) e = record e { private_key = some v }
  file_entry (set_password v) e = record e { password = some v }
  file_entry (set_is_config_updated v) e = e
  file_entry s e = record e { config_temp = s ∷ e.config_temp }

  abbrev pub destructure : List (Setting N) → Entries N
  destructure [] = record { api_key = none; private_key = none; password = none; config_temp = [] }
  destructure (s ∷ settings) = file_entry s (destructure settings)

  -- all entries of a configuration, its credentials first
  abbrev pub all_entries : Config N → List (Setting N)
  all_entries c =
      set_api_key c.api_key
      ∷ set_private_key c.private_key
      ∷ set_password c.password
      ∷ plain_entries c

  abbrev pub set_row : List (Setting N) → ConfigRow N → ConfigRow N
  set_row settings r = record r { config = set_all settings r.config }

-- the inserted row: the columns of the entries over the defaults of the table
abbrev pub inserted :
    {N : Type 0} → Config N → Config N → ℕ → String → String → String → ConfigRow N
inserted defaults c id api_key private_key password = record {
  config = record (set_all (all_entries c) defaults) {
    id = id;
    api_key = api_key;
    private_key = private_key;
    password = password;
  };
  logger_event = none;
}

module _ {N X : Type 0} (crypto : Crypto X) where
  -- the three credentials in the clear
  unfoldable pub decrypt_config : Config N → Result Failure (Config N)
  decrypt_config c = elim (decrypt crypto c.api_key) [
    | err e ↦ err e
    | ok api_key ↦ elim (decrypt crypto c.private_key) [
      | err e ↦ err e
      | ok private_key ↦ elim (decrypt crypto c.password) [
        | err e ↦ err e
        | ok password ↦ ok (with_credentials (selected c) api_key private_key password)
      ]
    ]
  ]

  abbrev pub decrypt_rows : List (ConfigRow N) → Result Failure (List (Config N))
  decrypt_rows [] = ok []
  decrypt_rows (r ∷ rs) = elim (decrypt_config r.config) [
    | err e ↦ err e
    | ok c ↦ elim (decrypt_rows rs) [ err e ↦ err e | ok cs ↦ ok (c ∷ cs) ]
  ]

  -- the first row with the number; without one, reading its credentials throws
  abbrev pub read_row : Option (ConfigRow N) → Result Failure (Config N)
  read_row none = err (other_failure "Cannot read properties of undefined (reading 'apiKey')")
  read_row (some r) = decrypt_config r.config

  abbrev pub encrypt_text : String → Action (Configs N X) Failure String
  encrypt_text text s =
      let (sealed, x) = encrypt crypto text s.venue in (ok sealed, record s { venue = x })

  -- `if (text) configMapping.key = encrypt(text)`
  abbrev pub encrypt_entry :
      (String → Setting N) → Option String → Action (Configs N X) Failure (List (Setting N))
  encrypt_entry key none = pure []
  encrypt_entry key (some text) =
      if empty text then pure [] else (do sealed ← encrypt_text text; pure (key sealed ∷ []))

module _ {N X : Type 0} (out : Outside N X) where
  -- a statement, which throws if the database refuses it
  abbrev pub statement :
      (List (ConfigRow N) → List (ConfigRow N)) → Action (Configs N X) Failure Done
  statement change s =
      let (accepted, x) = out.query_accepted s.venue in
      if accepted
      then (ok tt, record { rows = change s.rows; venue = x })
      else (err database, record s { venue = x })

  abbrev pub update_where :
      (ConfigRow N → Bool) → (ConfigRow N → ConfigRow N) → Action (Configs N X) Failure Done
  update_where chosen change = statement (map (λ r. if chosen r then change r else r))

  -- `_updateQuery` refuses an empty list of values
  abbrev pub update_row : List (Setting N) → ℕ → Action (Configs N X) Failure Done
  update_row [] config_id = throw (other_failure "Update values cannot be empty.")
  update_row (s ∷ ss) config_id = update_where (has_id config_id) (set_row (s ∷ ss))

module _ {N X : Type 0} (out : Outside N X) (crypto : Crypto X) where
  unfoldable pub get_config : Action (Configs N X) Failure (List (Config N))
  unfolding decrypt_config
  get_config = do statement out (λ rows. rows); (λ s. (decrypt_rows crypto s.rows, s))

  unfoldable pub get_config_by_id : ℕ → Action (Configs N X) Failure (Config N)
  get_config_by_id config_id = do
    statement out (λ rows. rows)
    (λ s. (read_row crypto (find? (has_id config_id) s.rows), s))

  abbrev pub update_entries : Entries N → ℕ → Action (Configs N X) Failure Done
  update_entries e config_id = do
    api_key ← encrypt_entry crypto set_api_key e.api_key
    private_key ← encrypt_entry crypto set_private_key e.private_key
    password ← encrypt_entry crypto set_password e.password
    update_row out (api_key ++ private_key ++ password ++ e.config_temp) config_id

  unfoldable pub update_config : List (Setting N) → ℕ → Action (Configs N X) Failure Done
  update_config settings config_id = update_entries (destructure settings) config_id

  module _ (next_id : X → ℕ × X) (defaults : Config N) where
    unfoldable pub create_config : Config N → Action (Configs N X) Failure Done
    create_config c = do
      api_key ← encrypt_text crypto c.api_key
      private_key ← encrypt_text crypto c.private_key
      password ← encrypt_text crypto c.password
      (λ s.
          let (id, x) = next_id s.venue in
          let row = inserted defaults c id api_key private_key password in
          statement out (λ rows. rows ++ row ∷ []) (record s { venue = x }))

    -- from the second look on
    abbrev pub check_created : Config N → Action (Configs N X) Failure Done
    check_created c = do
      created ← get_config
      when (not (first_has_id c.id created))
          (throw (other_failure "Runtime config was created with another id"))

    abbrev pub sync_missing : List (Config N) → Config N → Action (Configs N X) Failure Done
    sync_missing [] c = do create_config c; check_created c
    sync_missing (_ ∷ _) c =
        throw (other_failure "Runtime config was not found in a non-empty config database.")

    unfoldable pub sync_runtime_config : Config N → Action (Configs N X) Failure Done
    sync_runtime_config c = do
      configs ← get_config
      if is_some (find? (λ item. nat_eq item.id c.id) configs)
          then update_config (all_entries c) c.id
          else sync_missing configs c
