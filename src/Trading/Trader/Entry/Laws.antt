-- ===== src/Trading/Trader/Entry/Laws.antt =====
-- What entering a position guarantees.
use tonatiuh_trading_saas.Prelude.{ℕ, zero, suc, ◌+◌, String, Option, none, some, List, refl, last?}
use tonatiuh_trading_saas.Prelude.Action.{Action, Done, pure, ◌>>=◌}
use tonatiuh_trading_saas.Number.{Number, to_number, falsy}
use tonatiuh_trading_saas.Trading.Types.{Side, buy, sell, Order}
use tonatiuh_trading_saas.Trading.Outside.{Outside, Failure, Candle, Balance}
use tonatiuh_trading_saas.Trading.Exchange.{get_tick, get_balance, call}
use tonatiuh_trading_saas.Trading.Orders.Open.{open_first_position}
use tonatiuh_trading_saas.Trading.Trader.{Trader, on_desk, on_venue, on_exchange, open_position}
use tonatiuh_trading_saas.Trading.Trader.Keeps.{
  Keeps, Keeps-bind, on_desk-Keeps, on_venue-Keeps, on_exchange-Keeps, open_position-Keeps,
  if-Keeps,
}
use tonatiuh_trading_saas.Trading.Trader.Entry.{
  TradingType, one_trade, grid, Entered, last_candle, time_frame, get_info_price, limit_order,
  first_position, entered_one, one_trading_behavior, grid_price, grid_side, grid_settings,
  grid_lines, grid_trading_behavior, entering_position, no_grid,
}

module _ {N X : Type 0} ⦃num : Number N⦄ (out : Outside N X) where
  last_candle-Keeps : (o : Option (Candle N)) → Keeps (last_candle out o)
  last_candle-Keeps none = λ t. (refl, refl)
  last_candle-Keeps (some candle) = λ t. (refl, refl)

  get_info_price-Keeps : (symbol range : String) → Keeps (get_info_price out symbol range)
  unfolding get_info_price
  get_info_price-Keeps symbol range =
      let tick = get_tick out symbol in
      let candles = call (out.fetch_candles symbol (time_frame range)) in
      let end : Option N → Candle N → Balance N → Action (Trader N X) Failure (N × Candle N) =
        λ last candle _. pure (to_number last, candle) in
      let with_candle : Option N → Candle N → Action (Trader N X) Failure (N × Candle N) =
        λ last candle. on_exchange (get_balance out) >>= end last candle in
      let with_candles : Option N → List (Candle N) → Action (Trader N X) Failure (N × Candle N) =
        λ last ohlc. last_candle out (last? ohlc) >>= with_candle last in
      let with_tick : Option N → Action (Trader N X) Failure (N × Candle N) =
        λ last. on_venue candles >>= with_candles last in
      Keeps-bind (on_venue tick) with_tick (on_venue-Keeps tick) (λ last.
        Keeps-bind (on_venue candles) (with_candles last) (on_venue-Keeps candles) (λ ohlc.
          Keeps-bind (last_candle out (last? ohlc)) (with_candle last)
            (last_candle-Keeps (last? ohlc))
            (λ candle.
              Keeps-bind (on_exchange (get_balance out)) (end last candle)
                (on_exchange-Keeps (get_balance out)) (λ _ t. (refl, refl)))))

  one_trading_behavior-Keeps : Keeps (one_trading_behavior out)
  unfolding one_trading_behavior
  one_trading_behavior-Keeps t =
      let opened : N × Candle N → Action (Trader N X) Failure (Entered N) = λ info.
        on_desk (open_first_position out (first_position out t info)) >>= entered_one out t info in
      Keeps-bind (get_info_price out t.symbol t.config.candle_price_range) opened
        (get_info_price-Keeps t.symbol t.config.candle_price_range)
        (λ info.
          let first = open_first_position out (first_position out t info) in
          Keeps-bind (on_desk first) (entered_one out t info) (on_desk-Keeps first)
            (λ _ u. (refl, refl)))
        t

  grid_side-Keeps :
      (side : Side) (tick_price grid_size position_size : N) (count i left : ℕ)
      → Keeps (grid_side out side tick_price grid_size position_size count i left)
  unfolding grid_side
  grid_side-Keeps side tick_price grid_size position_size count i zero = λ t. (refl, refl)
  grid_side-Keeps side tick_price grid_size position_size count i (suc left) =
      let price = grid_price out side tick_price grid_size count i in
      let place : Action (Trader N X) Failure (Order N) =
        λ t. open_position out side (limit_order out t.symbol position_size price) t in
      let rest : Order N → Action (Trader N X) Failure Done =
        λ _. grid_side out side tick_price grid_size position_size count (i + 1) left in
      Keeps-bind place rest
        (λ t. open_position-Keeps out side (limit_order out t.symbol position_size price) t)
        (λ _. grid_side-Keeps side tick_price grid_size position_size count (i + 1) left)

  grid_settings-Keeps : (count : Option ℕ) (size : Option N) → Keeps (grid_settings out count size)
  grid_settings-Keeps none size = λ t. (refl, refl)
  grid_settings-Keeps (some zero) size = λ t. (refl, refl)
  grid_settings-Keeps (some (suc n)) none = λ t. (refl, refl)
  grid_settings-Keeps (some (suc n)) (some size) =
      if-Keeps (falsy size) (no_grid out) (pure (suc n, size)) (λ t. (refl, refl))
        (λ t. (refl, refl))

  grid_lines-Keeps :
      (tick_price position_size : N) (s : ℕ × N) → Keeps (grid_lines out tick_price position_size s)
  grid_lines-Keeps tick_price position_size (count, grid_size) =
      let bought = grid_side out buy tick_price grid_size position_size count 0 count in
      let sold = grid_side out sell tick_price grid_size position_size count 0 count in
      let end : Done → Action (Trader N X) Failure (Entered N) =
        λ _. pure (record { setting = none; first_order = none; price = none }) in
      let sell_lines : Done → Action (Trader N X) Failure (Entered N) = λ _. sold >>= end in
      Keeps-bind bought sell_lines
        (grid_side-Keeps buy tick_price grid_size position_size count 0 count)
        (λ _.
          Keeps-bind sold end
            (grid_side-Keeps sell tick_price grid_size position_size count 0 count)
            (λ _ t. (refl, refl)))

  grid_trading_behavior-Keeps : Keeps (grid_trading_behavior out)
  unfolding grid_trading_behavior
  grid_trading_behavior-Keeps t =
      let tick = get_tick out t.symbol in
      let settings = grid_settings out t.config.count_grid_size t.config.grid_size in
      let lines : Option N → ℕ × N → Action (Trader N X) Failure (Entered N) =
        λ last s. grid_lines out (to_number last) t.config.position_size s in
      let set : Option N → Action (Trader N X) Failure (Entered N) =
        λ last. settings >>= lines last in
      Keeps-bind (on_venue tick) set (on_venue-Keeps tick)
        (λ last.
          Keeps-bind settings (lines last)
            (grid_settings-Keeps t.config.count_grid_size t.config.grid_size)
            (λ s. grid_lines-Keeps (to_number last) t.config.position_size s))
        t

  pub entering_position-Keeps : (type_ : TradingType) → Keeps (entering_position out type_)
  unfolding entering_position
  entering_position-Keeps one_trade = one_trading_behavior-Keeps
  entering_position-Keeps grid = grid_trading_behavior-Keeps
