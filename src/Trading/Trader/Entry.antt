-- ===== src/Trading/Trader/Entry.antt =====
-- `_enteringPosition` of src/trading-service/abstract.trading.ts: the first orders of a position.
pub mod Laws
use tonatiuh_trading_saas.Prelude.{
  ℕ, zero, suc, ◌+◌, ◌*◌, ◌-◌, String, Bool, true, false, ◌||◌, Option, none, some, List, [], ◌∷◌,
  last?, any, if◌then◌else◌, ◌==◌ as nat_eq,
}
use text.Mathlib.Text.{◌==◌}
use tonatiuh_trading_saas.Prelude.Action.{Result, ok, err, Action, Done, pure, throw, ◌>>=◌, ◌>>◌}
use tonatiuh_trading_saas.Number.{Number, lit, to_number, neg, falsy, ◌⊕◌, ◌⊗◌}
use tonatiuh_trading_saas.Trading.Types.{Side, buy, sell, Order, SettingOrder, limit, is_buy}
use tonatiuh_trading_saas.Trading.Outside.{Outside, Failure, Candle, other_failure}
use tonatiuh_trading_saas.Trading.Exchange.{get_tick, get_balance, call}
use tonatiuh_trading_saas.Trading.Orders.Open.{FirstPosition, open_first_position}
use tonatiuh_trading_saas.Trading.Trader.{Trader, on_desk, on_venue, on_exchange, open_position}

-- `typeTrading`
pub data TradingType : Type 0 where
  grid one_trade : TradingType

-- `settingForFirstOrder`, `firstOrder` and `price` of `WatchingProcessParamType`; the grid has none.
pub record Entered (N : Type 0) : Type 0 where
  pub setting : Option (SettingOrder N)
  pub first_order : Option (Order N)
  pub price : Option N

-- the values of `TimeFrame`
abbrev time_frames : List String
time_frames =
    "1s" ∷ "1m" ∷ "3m" ∷ "5m" ∷ "15m" ∷ "30m" ∷ "1h" ∷ "2h" ∷ "4h" ∷ "6h" ∷ "8h" ∷ "12h" ∷ "1d"
    ∷ "3d" ∷ "1w" ∷ "1M" ∷ []

-- `TimeFrame[candlePriceRange]`; the empty text stands for `undefined`
abbrev pub time_frame : String → String
time_frame range = if any (λ t. t == range) time_frames then range else ""

module _ {N X : Type 0} ⦃num : Number N⦄ (out : Outside N X) where
  -- `ohlc[ohlc.length - 1]`, of which the bounds are read
  abbrev pub last_candle : Option (Candle N) → Action (Trader N X) Failure (Candle N)
  last_candle none = throw (other_failure "Cannot read properties of undefined (reading '2')")
  last_candle (some candle) = pure candle

  -- `getInfoPrice`; the balance is only logged
  unfoldable pub get_info_price : String → String → Action (Trader N X) Failure (N × Candle N)
  get_info_price symbol candle_price_range = do
    last ← on_venue (get_tick out symbol)
    ohlc ← on_venue (call (out.fetch_candles symbol (time_frame candle_price_range)))
    prev_candle ← last_candle (last? ohlc)
    on_exchange (get_balance out)
    pure (to_number last, prev_candle)

  abbrev pub limit_order : String → N → N → SettingOrder N
  limit_order symbol amount price = record {
    symbol = symbol;
    type_ = limit;
    amount = amount;
    price = price;
  }

  -- the arguments of `openFirstPosition`
  abbrev pub first_position : Trader N X → N × Candle N → FirstPosition N
  first_position t (price, candle) = record {
    setting = limit_order t.symbol t.config.position_size price;
    price = price;
    lowest_in_candle = candle.lowest;
    highest_in_candle = candle.highest;
    index_operation = t.index_operation;
    is_only_buy = t.services_config.is_only_buy;
  }

  abbrev pub entered_one :
      Trader N X → N × Candle N → Order N → Action (Trader N X) Failure (Entered N)
  entered_one t (price, candle) first_order = pure (record {
    setting = some (limit_order t.symbol t.config.position_size price);
    first_order = some first_order;
    price = some price;
  })

  unfoldable pub one_trading_behavior : Action (Trader N X) Failure (Entered N)
  one_trading_behavior t =
      (do
        info ← get_info_price t.symbol t.config.candle_price_range
        first_order ← on_desk (open_first_position out (first_position t info))
        entered_one t info first_order)
        t

  -- The price of line `i`: `i * 2` steps from the ticker, or one if there is one line.
  unfoldable pub grid_price : Side → N → N → ℕ → ℕ → N
  grid_price side tick_price grid_size count_grid_size i =
      let condition = lit (if nat_eq count_grid_size 1 then 1 else i * 2) in
      tick_price ⊕ (if is_buy side then grid_size ⊗ condition else neg (grid_size ⊗ condition))

  -- the lines of one side from `i` on, with those that are left
  unfoldable pub grid_side : Side → N → N → N → ℕ → ℕ → ℕ → Action (Trader N X) Failure Done
  unfolding grid_price
  grid_side side tick_price grid_size position_size count i zero = pure tt
  grid_side side tick_price grid_size position_size count i (suc left) = do
    (λ t.
        open_position out side
          (limit_order t.symbol position_size (grid_price side tick_price grid_size count i)) t)
    grid_side side tick_price grid_size position_size count (i + 1) left

  abbrev pub no_grid : Action (Trader N X) Failure (ℕ × N)
  no_grid = throw (other_failure "Parameters countGridSize or gridSize must be provided.")

  -- A size of zero is as a missing one.
  abbrev pub grid_settings : Option ℕ → Option N → Action (Trader N X) Failure (ℕ × N)
  grid_settings (some (suc count)) (some grid_size) =
      if falsy grid_size then no_grid else pure (suc count, grid_size)
  grid_settings _ _ = no_grid

  -- the lines of both sides
  abbrev pub grid_lines : N → N → ℕ × N → Action (Trader N X) Failure (Entered N)
  grid_lines tick_price position_size (count, grid_size) = do
    grid_side buy tick_price grid_size position_size count 0 count
    grid_side sell tick_price grid_size position_size count 0 count
    pure (record { setting = none; first_order = none; price = none })

  unfoldable pub grid_trading_behavior : Action (Trader N X) Failure (Entered N)
  unfolding grid_side
  grid_trading_behavior t =
      (do
        last ← on_venue (get_tick out t.symbol)
        settings ← grid_settings t.config.count_grid_size t.config.grid_size
        grid_lines (to_number last) t.config.position_size settings)
        t

  unfoldable pub entering_position : TradingType → Action (Trader N X) Failure (Entered N)
  entering_position one_trade = one_trading_behavior
  entering_position grid = grid_trading_behavior
