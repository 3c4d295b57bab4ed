-- ===== src/Trading/Settings/Config.antt =====
-- `ConfigType` of src/repository/types/types.ts, and a `Partial<ConfigType>` as the entries that are
-- there. Booleans stand for the 0 and 1 of the tables, and a number of grid lines is natural.
use tonatiuh_trading_saas.Prelude.{ℕ, String, Bool, Option, none, some, List, [], ◌∷◌}

-- The settings of a bot. `is_config_updated` and `balance_distribution` are missing in what the
-- table gives, since they are not selected.
pub record Config (N : Type 0) : Type 0 where
  pub id : ℕ
  pub api_key : String
  pub private_key : String
  pub password : String
  pub symbol : String
  pub position_size : N
  pub count_grid_size : Option ℕ
  pub grid_size : Option N
  pub percent_buy_back_step : N
  pub take_profit : Option N
  pub stop_loss : Option N
  pub is_emergency_stop : Bool
  pub is_fibonacci : Bool
  pub percent_profit : N
  pub percent_from_balance : N
  pub candle_price_range : String
  pub is_percent_target_after_take_profit : Bool
  pub is_capitalize_delta_from_sale : Bool
  pub is_coin_accumulation : Bool
  pub is_config_updated : Option Bool
  pub is_auto_start_trading : Bool
  pub is_stop_trading : Bool
  pub is_only_buy : Bool
  pub percent_target_after_take_profit : N
  pub balance_distribution : Option Bool
  pub exchange : String

-- An entry of a `Partial<ConfigType>`: a key with its value.
pub data Setting (N : Type 0) : Type 0 where
  set_id : ℕ → Setting N
  set_api_key : String → Setting N
  set_private_key : String → Setting N
  set_password : String → Setting N
  set_symbol : String → Setting N
  set_position_size : N → Setting N
  set_count_grid_size : Option ℕ → Setting N
  set_grid_size : Option N → Setting N
  set_percent_buy_back_step : N → Setting N
  set_take_profit : Option N → Setting N
  set_stop_loss : Option N → Setting N
  set_is_emergency_stop : Bool → Setting N
  set_is_fibonacci : Bool → Setting N
  set_percent_profit : N → Setting N
  set_percent_from_balance : N → Setting N
  set_candle_price_range : String → Setting N
  set_is_percent_target_after_take_profit : Bool → Setting N
  set_is_capitalize_delta_from_sale : Bool → Setting N
  set_is_coin_accumulation : Bool → Setting N
  set_is_config_updated : Bool → Setting N
  set_is_auto_start_trading : Bool → Setting N
  set_is_stop_trading : Bool → Setting N
  set_is_only_buy : Bool → Setting N
  set_percent_target_after_take_profit : N → Setting N
  set_balance_distribution : Bool → Setting N
  set_exchange : String → Setting N

module _ {N : Type 0} where
  -- `column = value` of an update
  abbrev pub apply_setting : Config N → Setting N → Config N
  apply_setting c (set_id v) = record c { id = v }
  apply_setting c (set_api_key v) = record c { api_key = v }
  apply_setting c (set_private_key v) = record c { private_key = v }
  apply_setting c (set_password v) = record c { password = v }
  apply_setting c (set_symbol v) = record c { symbol = v }
  apply_setting c (set_position_size v) = record c { position_size = v }
  apply_setting c (set_count_grid_size v) = record c { count_grid_size = v }
  apply_setting c (set_grid_size v) = record c { grid_size = v }
  apply_setting c (set_percent_buy_back_step v) = record c { percent_buy_back_step = v }
  apply_setting c (set_take_profit v) = record c { take_profit = v }
  apply_setting c (set_stop_loss v) = record c { stop_loss = v }
  apply_setting c (set_is_emergency_stop v) = record c { is_emergency_stop = v }
  apply_setting c (set_is_fibonacci v) = record c { is_fibonacci = v }
  apply_setting c (set_percent_profit v) = record c { percent_profit = v }
  apply_setting c (set_percent_from_balance v) = record c { percent_from_balance = v }
  apply_setting c (set_candle_price_range v) = record c { candle_price_range = v }
  apply_setting c (set_is_percent_target_after_take_profit v) = record c {
    is_percent_target_after_take_profit = v;
  }
  apply_setting c (set_is_capitalize_delta_from_sale v) = record c {
    is_capitalize_delta_from_sale = v;
  }
  apply_setting c (set_is_coin_accumulation v) = record c { is_coin_accumulation = v }
  apply_setting c (set_is_config_updated v) = record c { is_config_updated = some v }
  apply_setting c (set_is_auto_start_trading v) = record c { is_auto_start_trading = v }
  apply_setting c (set_is_stop_trading v) = record c { is_stop_trading = v }
  apply_setting c (set_is_only_buy v) = record c { is_only_buy = v }
  apply_setting c (set_percent_target_after_take_profit v) = record c {
    percent_target_after_take_profit = v;
  }
  apply_setting c (set_balance_distribution v) = record c { balance_distribution = some v }
  apply_setting c (set_exchange v) = record c { exchange = v }

  abbrev distribution : Option Bool → List (Setting N)
  distribution none = []
  distribution (some b) = set_balance_distribution b ∷ []

  -- the entries of a whole configuration, less its credentials and `isConfigUpdated`
  abbrev pub plain_entries : Config N → List (Setting N)
  plain_entries c =
      set_id c.id
      ∷ set_symbol c.symbol
      ∷ set_position_size c.position_size
      ∷ set_count_grid_size c.count_grid_size
      ∷ set_grid_size c.grid_size
      ∷ set_percent_buy_back_step c.percent_buy_back_step
      ∷ set_take_profit c.take_profit
      ∷ set_stop_loss c.stop_loss
      ∷ set_is_emergency_stop c.is_emergency_stop
      ∷ set_is_fibonacci c.is_fibonacci
      ∷ set_percent_profit c.percent_profit
      ∷ set_percent_from_balance c.percent_from_balance
      ∷ set_candle_price_range c.candle_price_range
      ∷ set_is_percent_target_after_take_profit c.is_percent_target_after_take_profit
      ∷ set_is_capitalize_delta_from_sale c.is_capitalize_delta_from_sale
      ∷ set_is_coin_accumulation c.is_coin_accumulation
      ∷ set_is_auto_start_trading c.is_auto_start_trading
      ∷ set_is_stop_trading c.is_stop_trading
      ∷ set_is_only_buy c.is_only_buy
      ∷ set_percent_target_after_take_profit c.percent_target_after_take_profit
      ∷ set_exchange c.exchange
      ∷ distribution c.balance_distribution
