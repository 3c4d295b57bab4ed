-- ===== src/Trading/Settings/Tests.antt =====
-- The theorems on the settings at concrete inputs.
use tonatiuh_trading_saas.Prelude.{
  ℕ, String, true, false, ◌≡◌, refl, ◌⊎◌, none, some, [], ◌∷◌, if◌then◌else◌,
}
use tonatiuh_trading_saas.Prelude.Action.{ok, Action, Done, After}
use tonatiuh_trading_saas.Number.Fixed.{Fixed, fixed_number}
use tonatiuh_trading_saas.Trading.Outside.{Failure}
use tonatiuh_trading_saas.Trading.Simulated.{amount, simulated, cipher, cipher-IsAead}
use tonatiuh_trading_saas.Trading.Settings.Encryption.{empty, encrypt, decrypt, invalid}
use tonatiuh_trading_saas.Trading.Settings.Encryption.Laws.{encrypt-decrypt}
use tonatiuh_trading_saas.Trading.Settings.Config.{Config}
use tonatiuh_trading_saas.Trading.Settings.Repository.{Configs, sync_runtime_config}
use tonatiuh_trading_saas.Trading.Settings.Repository.Update.{Readable}
use tonatiuh_trading_saas.Trading.Settings.Repository.Laws.{sync_runtime_config-Stores}
use tonatiuh_trading_saas.Trading.Settings.Repository.Refused.{sync_runtime_config-Never}
use tonatiuh_trading_saas.Trading.Settings.Flags.{
  get_emergency_stop, disable_emergency_stop, checking_is_emergency_stop,
}
use tonatiuh_trading_saas.Trading.Settings.Flags.Laws.{
  Running, Flagged, disable_emergency_stop-Running, checking_is_emergency_stop-Closes,
}

abbrev pub settings : String → Config Fixed
settings password = record {
  id = 1;
  api_key = "key:1";
  private_key = "secret";
  password = password;
  symbol = "ETH/USDT";
  position_size = amount 2;
  count_grid_size = some 1;
  grid_size = some (amount 1);
  percent_buy_back_step = amount 1;
  take_profit = none;
  stop_loss = none;
  is_emergency_stop = true;
  is_fibonacci = false;
  percent_profit = amount 1;
  percent_from_balance = amount 1;
  candle_price_range = "1h";
  is_percent_target_after_take_profit = true;
  is_capitalize_delta_from_sale = false;
  is_coin_accumulation = false;
  is_config_updated = some false;
  is_auto_start_trading = false;
  is_stop_trading = false;
  is_only_buy = true;
  percent_target_after_take_profit = amount 1;
  balance_distribution = some false;
  exchange = "binance";
}

abbrev empty_table : Configs Fixed ℕ
empty_table = record { rows = []; venue = 0 }

abbrev next_id : ℕ → ℕ × ℕ
next_id x = (1, x)

encrypt-decrypt_example :
    decrypt cipher (encrypt cipher "a:b" 0).0 ≡ (if empty "a:b" then invalid else ok "a:b")
encrypt-decrypt_example = encrypt-decrypt cipher cipher-IsAead "a:b" 0

sync_runtime_config-Stores_example :
    After
      (λ _ t. Readable simulated cipher cipher-IsAead (settings "pass") t.rows)
      (λ _ t. (t.rows ≡ []) ⊎ (empty_table.rows ≡ []))
      (sync_runtime_config simulated cipher next_id (settings "") (settings "pass") empty_table)
sync_runtime_config-Stores_example =
    sync_runtime_config-Stores simulated cipher cipher-IsAead next_id (settings "")
      (settings "pass") empty_table (refl, refl, refl)

sync_runtime_config-Never_example :
    After
      (λ _ t. ⊥)
      (λ _ t. Unit {0})
      (sync_runtime_config simulated cipher next_id (settings "") (settings "") empty_table)
sync_runtime_config-Never_example =
    sync_runtime_config-Never simulated cipher cipher-IsAead next_id (settings "") (settings "")
      empty_table refl refl

abbrev one_stopped : Configs Fixed ℕ
one_stopped = record {
  rows = record { config = settings "pass"; logger_event = none } ∷ [];
  venue = 0;
}

disable_emergency_stop-Running_example :
    After
      (λ _ t. Running t.rows)
      (λ _ t. t.rows ≡ one_stopped.rows)
      (disable_emergency_stop simulated one_stopped)
disable_emergency_stop-Running_example = disable_emergency_stop-Running simulated one_stopped

abbrev close_nothing : Action (Configs Fixed ℕ) Failure Done
close_nothing s = (ok tt, s)

stops : (checking_is_emergency_stop simulated 1 close_nothing one_stopped).0 ≡ true
unfolding checking_is_emergency_stop get_emergency_stop disable_emergency_stop
stops = refl

checking_is_emergency_stop-Closes_example :
    (t : Configs Fixed ℕ) × (u : Configs Fixed ℕ) × Flagged simulated 1 one_stopped true t
    × (close_nothing t ≡ (ok tt, u))
    × Running (checking_is_emergency_stop simulated 1 close_nothing one_stopped).1.rows
checking_is_emergency_stop-Closes_example =
    checking_is_emergency_stop-Closes simulated 1 close_nothing one_stopped stops
