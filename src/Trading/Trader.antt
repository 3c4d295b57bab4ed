-- ===== src/Trading/Trader.antt =====
-- src/trading-service: a trading service with the services that it uses. The children model what a
-- session ends with (End), the tracker of a price (Tracker), entering a position (Entry), one turn
-- of the loop that watches it (Turn), and the loop with what starts it (Watch).
pub mod Keeps
pub mod End
pub mod Tracker
pub mod Entry
pub mod Turn
pub mod Watch
pub mod Opens
mod Tests
use tonatiuh_trading_saas.Prelude.{ℕ, String, Bool, Option, List, [], ◌∷◌}
use tonatiuh_trading_saas.Prelude.Action.{Result, ok, err, Action, Done, modify, ◌>>=◌}
use tonatiuh_trading_saas.Number.{Number}
use tonatiuh_trading_saas.Trading.Types.{Order, SettingOrder, Side}
use tonatiuh_trading_saas.Trading.Outside.{Outside, Failure, Balance, other_failure}
use tonatiuh_trading_saas.Trading.Exchange as Exchange
use tonatiuh_trading_saas.Trading.Math.{
  Checked, value, thrown, MathError, no_entry_order, bad_metrics, bad_buy_back,
}
use tonatiuh_trading_saas.Trading.Orders.Desk.{Desk}
use tonatiuh_trading_saas.Trading.Orders.Open.{open_position_for_strategy}
use tonatiuh_trading_saas.Trading.SessionService.{Service}
use tonatiuh_trading_saas.Trading.Settings.Config.{Config}
use tonatiuh_trading_saas.Trading.Settings.Encryption.{Crypto}
use tonatiuh_trading_saas.Trading.Settings.Repository.{ConfigRow, Configs, get_config_by_id}

-- `AbstractTradingClass`. `orders` and `balance_cache` are those of its own order and exchange
-- services; the session service has others. `services_config` is
-- the configuration with which the services were made, which `reload_config` does not change.
pub record Trader (N X : Type 0) : Type 0 where
  pub initialized : Bool
  pub has_services : Bool
  pub config : Config N
  pub services_config : Config N
  pub symbol : String
  pub index_operation : String
  pub orders : List (Order N)
  pub balance_cache : Option (Balance N × ℕ)
  pub service : Service N X
  pub configs : List (ConfigRow N)

abbrev math_text : MathError → String
math_text no_entry_order = "Position side requires at least one entry order."
math_text bad_metrics =
    "Position metrics require positive prices and a non-negative position amount."
math_text bad_buy_back =
    "Buyback calculation requires a positive price, non-negative step percentage, and drawdown step."

module _ {N X : Type 0} where
  abbrev pub put_desk : Trader N X → Desk N X → Trader N X
  put_desk t d = record t {
    orders = d.orders;
    service = record t.service { desk = record d { orders = t.service.desk.orders } };
  }

  abbrev pub desk_of : Trader N X → Desk N X
  desk_of t = record t.service.desk { orders = t.orders }

  abbrev pub put_venue : Trader N X → X → Trader N X
  put_venue t x = record t {
    service = record t.service { desk = record t.service.desk { venue = x } };
  }

  -- a call of the order service
  abbrev pub on_desk : {A : Type 0} → Action (Desk N X) Failure A → Action (Trader N X) Failure A
  on_desk m t = let (r, d) = m (desk_of t) in (r, put_desk t d)

  -- a call of the session service
  abbrev pub on_service :
      {A : Type 0} → Action (Service N X) Failure A → Action (Trader N X) Failure A
  on_service m t = let (r, s) = m t.service in (r, record t { service = s })

  -- a call of the exchange service, without and with its cache
  abbrev pub on_venue : {A : Type 0} → Action X Failure A → Action (Trader N X) Failure A
  on_venue m t = let (r, x) = m t.service.desk.venue in (r, put_venue t x)

  abbrev pub on_exchange :
      {A : Type 0} → Action (Option (Balance N × ℕ) × X) Failure A → Action (Trader N X) Failure A
  on_exchange m t =
      let (r, (cache, x)) = m (t.balance_cache, t.service.desk.venue) in
      (r, put_venue (record t { balance_cache = cache }) x)

  -- a call of the table of configurations
  abbrev pub on_configs :
      {A : Type 0} → Action (Configs N X) Failure A → Action (Trader N X) Failure A
  on_configs m t =
      let (r, s) = m (record { rows = t.configs; venue = t.service.desk.venue }) in
      (r, put_venue (record t { configs = s.rows }) s.venue)

  -- what a function of the arithmetic throws is thrown
  abbrev pub checked : {A : Type 0} → Checked A → Action (Trader N X) Failure A
  checked (value a) t = (ok a, t)
  checked (thrown e) t = (err (other_failure (math_text e)), t)

module _ {N X : Type 0} ⦃num : Number N⦄ (out : Outside N X) where
  unfoldable pub get_price : Action (Trader N X) Failure N
  get_price t = on_venue (Exchange.get_price out t.symbol) t

  abbrev pub sleep_timeout : ℕ → Action (Trader N X) Failure Done
  sleep_timeout ms = modify (λ t. put_venue t (out.sleep ms t.service.desk.venue))

  -- `_openPositionForStrategy`
  unfoldable pub open_position : Side → SettingOrder N → Action (Trader N X) Failure (Order N)
  open_position side setting t =
      on_desk (open_position_for_strategy out side setting t.index_operation) t

  unfoldable pub reload_config : Crypto X → ℕ → Action (Trader N X) Failure Done
  reload_config crypto config_id = do
    config ← on_configs (get_config_by_id out crypto config_id)
    modify (λ t. record t { config = config })
