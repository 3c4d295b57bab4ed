-- ===== src/Trading/Trader/Turn/Laws.antt =====
-- What one turn does to the session.
use tonatiuh_trading_saas.Prelude.{
  ℕ, suc, Bool, true, false, Option, none, some, refl, ap, ◌⊎◌, inl, inr, map, if◌then◌else◌,
}
use tonatiuh_trading_saas.Prelude.Action.{
  Action, Done, pure, throw, when, ◌>>=◌, ◌>>◌, After, After-bind, After-mono,
}
use tonatiuh_trading_saas.Number.{Number, lit, ◌≺◌, ◌⊕◌}
use tonatiuh_trading_saas.Trading.Types.{Side, limit, Order}
use tonatiuh_trading_saas.Trading.Outside.{Outside, Failure, Balance, other_failure}
use tonatiuh_trading_saas.Trading.Exchange.{get_balance}
use tonatiuh_trading_saas.Trading.Math.{
  PositionMetrics, resolve_position_side, calculate_position_metrics, calculate_buy_back_amount,
  calculate_buy_back_order_amount,
}
use tonatiuh_trading_saas.Trading.Sessions.Laws.{active_sessions}
use tonatiuh_trading_saas.Trading.Settings.Encryption.{Crypto}
use tonatiuh_trading_saas.Trading.Settings.Flags.{disable_emergency_stop}
use tonatiuh_trading_saas.Trading.Trader.{
  Trader, on_exchange, on_configs, checked, get_price, open_position, reload_config, sleep_timeout,
}
use tonatiuh_trading_saas.Trading.Trader.Keeps.{
  Still, Still-trans, Keeps, Keeps-bind, Keeps-then, on_exchange-Keeps, on_configs-Keeps,
  checked-Keeps, get_price-Keeps, open_position-Keeps, reload_config-Keeps, if-Keeps,
}
use tonatiuh_trading_saas.Trading.Trader.End.{end_trade_session}
use tonatiuh_trading_saas.Trading.Trader.End.Laws.{
  Ended, MayEnd, Removed-Still, MayEnd-Still, end_trade_session-Ended,
}
use tonatiuh_trading_saas.Trading.Trader.Tracker.{close_position}
use tonatiuh_trading_saas.Trading.Trader.Tracker.Laws.{close_position-Keeps}
use tonatiuh_trading_saas.Trading.Trader.Turn.{
  Watching, Options, Seen, TakeProfit, Turn, leave, still_tracking, next_turn, of_side,
  total_amount, average_price, take_profit_param, stop_loss_reached, bad_delta, observe, measure,
  seen_with, close_and_leave, buy_back_with, buy_back_params, buy_back_from, buys_back, buy_back,
  take_profit_result, after_take_profit, watch_profit, watch_strategy, decide, watch_turn,
}

module _ {N X : Type 0} where
  -- logics that do not touch the sessions themselves
  abbrev pub TakesKeep : Option (TakeProfit N → Action (Trader N X) Failure (Option Bool)) → Type 0
  TakesKeep none = Unit
  TakesKeep (some logic) = (p : TakeProfit N) → Keeps (logic p)

  abbrev pub GridKeeps : Option (Action (Trader N X) Failure Done) → Type 0
  GridKeeps none = Unit
  GridKeeps (some logic) = Keeps logic

  -- What a turn leaves: it goes on with the session as it was, and stops with the session as it
  -- was or ended.
  abbrev pub AfterTurn : ℕ → Trader N X → Turn N → Trader N X → Type 0
  AfterTurn c t leave u = Still t u ⊎ Ended c t u
  AfterTurn c t still_tracking u = Still t u
  AfterTurn c t (next_turn options) u = Still t u

  AfterTurn-Still :
      (c : ℕ) (t u v : Trader N X) (turn : Turn N)
      → Still t u
      → AfterTurn c u turn v
      → AfterTurn c t turn v
  AfterTurn-Still c t u v leave same (inl kept) = inl (Still-trans t u v same kept)
  AfterTurn-Still c t u v leave same (inr ended) = inr (Removed-Still c t u v same ended.0, ended.1)
  AfterTurn-Still c t u v still_tracking same kept = Still-trans t u v same kept
  AfterTurn-Still c t u v (next_turn options) same kept = Still-trans t u v same kept

module _ {N X : Type 0} ⦃num : Number N⦄ (out : Outside N X) (crypto : Crypto X)
    (keeps_alias : Bool) (w : Watching N X) (c : ℕ) where
  abbrev Good : Action (Trader N X) Failure (Turn N) → Type 0
  Good m = (t : Trader N X) → After (AfterTurn c t) (λ _ u. MayEnd c t u) (m t)

  -- a turn after an action that keeps the session
  then-Good :
      {A : Type 0} (m : Action (Trader N X) Failure A)
      (f : A → Action (Trader N X) Failure (Turn N))
      → Keeps m
      → ((a : A) → Good (f a))
      → Good (m >>= f)
  then-Good m f keeps k t =
      Keeps-then (AfterTurn c t) (λ _ u. MayEnd c t u) m f t keeps
        (λ _ u same. inl (ap (active_sessions c) same.0))
        (λ a u same.
          After-mono (f a u) (λ turn v known. AfterTurn-Still c t u v turn same known)
            (λ _ v may. MayEnd-Still c t u v same may) (k a u))

  -- ending the session is the last thing of a turn
  end-Good : (delta : N) → Good (end_trade_session out keeps_alias delta >> pure leave)
  end-Good delta t =
      let end : Done → Action (Trader N X) Failure (Turn N) = λ _. pure leave in
      After-bind (AfterTurn c t) (λ _ u. MayEnd c t u) (λ _ u. Ended c t u)
        (end_trade_session out keeps_alias delta) end t
        (end_trade_session-Ended out keeps_alias c delta t) (λ _ u ended. inr ended)

  if-Good :
      (b : Bool) (m n : Action (Trader N X) Failure (Turn N))
      → Good m
      → Good n
      → Good (if b then m else n)
  if-Good true m n h k = h
  if-Good false m n h k = k

  closed-Good :
      (delta : N) (closed : Bool)
      → Good (when closed (end_trade_session out keeps_alias delta) >> pure leave)
  closed-Good delta true = end-Good delta
  closed-Good delta false = λ t. inl (refl, refl)

  close_and_leave-Good : (delta : N) → Good (close_and_leave out crypto keeps_alias w delta)
  unfolding close_and_leave
  close_and_leave-Good delta =
      let rest : Bool → Action (Trader N X) Failure (Turn N) =
        λ closed. when closed (end_trade_session out keeps_alias delta) >> pure leave in
      then-Good (close_position out) rest (close_position-Keeps out) (closed-Good delta)

  buy_back_with-Keeps :
      (amount : N) (options : Options N) (seen : Seen N)
      → Keeps (buy_back_with out crypto keeps_alias w amount options seen)
  buy_back_with-Keeps amount options seen =
      let place : Action (Trader N X) Failure (Order N) = λ t.
        open_position out seen.side
          (record { symbol = t.symbol; type_ = limit; amount = amount; price = seen.last_price })
          t in
      let count : Order N → Action (Trader N X) Failure (Options N) = λ _. pure (record {
        buying_back = options.buying_back ⊕ amount;
        drawdown_step = suc options.drawdown_step;
      }) in
      if-Keeps (lit 0 ≺ amount) (place >>= count) (pure options)
        (Keeps-bind place count
          (λ t.
            open_position-Keeps out seen.side
              (record {
                symbol = t.symbol;
                type_ = limit;
                amount = amount;
                price = seen.last_price;
              })
              t)
          (λ _ t. (refl, refl)))
        (λ t. (refl, refl))

  buy_back_from-Keeps :
      (available : Option N) (t : Trader N X) (options : Options N) (seen : Seen N)
      → Keeps (buy_back_from out crypto keeps_alias w available t options seen)
  buy_back_from-Keeps none t options seen = λ _. (refl, refl)
  buy_back_from-Keeps (some available) t options seen =
      buy_back_with-Keeps
        (calculate_buy_back_order_amount
          (buy_back_params out crypto keeps_alias w t options seen available))
        options seen

  buy_back-Keeps :
      (options : Options N) (seen : Seen N) → Keeps (buy_back out crypto keeps_alias w options seen)
  unfolding buy_back
  buy_back-Keeps options seen t =
      if-Keeps (buys_back out crypto keeps_alias w seen)
        (buy_back_from out crypto keeps_alias w seen.available_balance t options seen)
        (pure options) (buy_back_from-Keeps seen.available_balance t options seen)
        (λ _. (refl, refl)) t

  take_profit_result-Keeps :
      (logic : Option (TakeProfit N → Action (Trader N X) Failure (Option Bool))) (p : TakeProfit N)
      → TakesKeep logic
      → Keeps (take_profit_result out crypto keeps_alias w logic p)
  take_profit_result-Keeps none p h = λ t. (refl, refl)
  take_profit_result-Keeps (some logic) p h = h p

  after_take_profit-Good :
      (taken : Option Bool) (options : Options N) (seen : Seen N)
      → Good (after_take_profit out crypto keeps_alias w taken options seen)
  after_take_profit-Good none options seen = λ t. (refl, refl)
  after_take_profit-Good (some true) options seen = end-Good seen.delta_for_sale
  after_take_profit-Good (some false) options seen =
      let wait : Options N → Action (Trader N X) Failure (Turn N) =
        λ options'. sleep_timeout out 1000 >> pure (next_turn options') in
      then-Good (buy_back out crypto keeps_alias w options seen) wait (buy_back-Keeps options seen)
        (λ options' t. (refl, refl))

  watch_profit-Good :
      (options : Options N) (seen : Seen N)
      → TakesKeep w.take_profit_logic
      → Good (watch_profit out crypto keeps_alias w options seen)
  unfolding watch_profit
  watch_profit-Good options seen takes t =
      let param = take_profit_param t.config t.symbol options seen in
      let result = take_profit_result out crypto keeps_alias w w.take_profit_logic param in
      let rest : Option Bool → Action (Trader N X) Failure (Turn N) =
        λ taken. after_take_profit out crypto keeps_alias w taken options seen in
      if-Good (stop_loss_reached t.config.stop_loss seen.metrics.pnl_ratio)
        (close_and_leave out crypto keeps_alias w seen.delta_for_sale) (result >>= rest)
        (close_and_leave-Good seen.delta_for_sale)
        (then-Good result rest (take_profit_result-Keeps w.take_profit_logic param takes)
          (λ taken. after_take_profit-Good taken options seen))
        t

  watch_strategy-Good :
      (grid : Option (Action (Trader N X) Failure Done)) (options : Options N) (seen : Seen N)
      → TakesKeep w.take_profit_logic
      → GridKeeps grid
      → Good (watch_strategy out crypto keeps_alias w grid options seen)
  watch_strategy-Good none options seen takes grids = watch_profit-Good options seen takes
  watch_strategy-Good (some logic) options seen takes grids =
      let end : Done → Action (Trader N X) Failure (Turn N) = λ _. pure leave in
      then-Good logic end grids (λ _ t. inl (refl, refl))

  decide-Good :
      (options : Options N) (seen : Seen N)
      → TakesKeep w.take_profit_logic
      → GridKeeps w.grid_logic
      → Good (decide out crypto keeps_alias w options seen)
  unfolding decide
  decide-Good options seen takes grids t =
      let stop : Done → Action (Trader N X) Failure (Turn N) =
        λ _. close_and_leave out crypto keeps_alias w seen.delta_for_sale in
      let disable = disable_emergency_stop out in
      let bad : Action (Trader N X) Failure (Turn N) =
        throw (other_failure "Delta is not a number!") in
      let strategy = watch_strategy out crypto keeps_alias w w.grid_logic options seen in
      if-Good t.config.is_emergency_stop (on_configs disable >>= stop)
        (if bad_delta t.config seen then bad else strategy)
        (then-Good (on_configs disable) stop (on_configs-Keeps disable)
          (λ _. close_and_leave-Good seen.delta_for_sale))
        (if-Good (bad_delta t.config seen) bad strategy (λ u. inl refl)
          (watch_strategy-Good w.grid_logic options seen takes grids))
        t

  measure-Keeps :
      (t : Trader N X) (b : Balance N) (options : Options N) (side : Side) (last_price : N)
      → Keeps (measure out crypto keeps_alias w t b options side last_price)
  measure-Keeps t b options side last_price =
      let entry_orders = of_side side t.orders in
      let average = average_price entry_orders w.price in
      let metrics =
        calculate_position_metrics side average last_price (total_amount entry_orders) in
      let step =
        calculate_buy_back_amount average t.config.percent_buy_back_step
          (lit options.drawdown_step) in
      let end : PositionMetrics N → N → Action (Trader N X) Failure (Seen N) =
        λ m a. pure (seen_with out crypto keeps_alias w t b options side last_price m a) in
      let stepped : PositionMetrics N → Action (Trader N X) Failure (Seen N) =
        λ m. checked step >>= end m in
      Keeps-bind (checked metrics) stepped (checked-Keeps metrics)
        (λ m. Keeps-bind (checked step) (end m) (checked-Keeps step) (λ a u. (refl, refl)))

  observe-Keeps : (options : Options N) → Keeps (observe out crypto keeps_alias w options)
  unfolding observe
  observe-Keeps options =
      let reload : Action (Trader N X) Failure Done = λ t. reload_config out crypto t.config.id t in
      let balance = on_exchange (get_balance out) in
      let priced : Trader N X → Balance N → Side → Action (Trader N X) Failure (Seen N) =
        λ t b side. get_price out >>= measure out crypto keeps_alias w t b options side in
      let sided : Balance N → Action (Trader N X) Failure (Seen N) = λ b t.
        (checked (resolve_position_side w.first_side (map (λ order. order.side) t.orders))
            >>= priced t b)
          t in
      Keeps-bind reload (λ _. balance >>= sided) (λ t. reload_config-Keeps out crypto t.config.id t)
        (λ _. Keeps-bind balance sided (on_exchange-Keeps (get_balance out)) (λ b t.
          let resolved = resolve_position_side w.first_side (map (λ order. order.side) t.orders) in
          Keeps-bind (checked resolved) (priced t b) (checked-Keeps resolved)
            (λ side.
              Keeps-bind (get_price out) (measure out crypto keeps_alias w t b options side)
                (get_price-Keeps out) (λ last_price. measure-Keeps t b options side last_price))
            t))

  -- A turn of the loop that goes on, or whose logic has not ended, leaves the sessions as they were;
  -- one that leaves the loop may have ended its own session, and then the service has no orders;
  -- after an error the active sessions are as before, or only without its own. The logics of the
  -- service do not touch the sessions themselves.
  pub watch_turn-Good :
      (options : Options N)
      → TakesKeep w.take_profit_logic
      → GridKeeps w.grid_logic
      → Good (watch_turn out crypto keeps_alias w options)
  unfolding watch_turn
  watch_turn-Good options takes grids =
      let next : Seen N → Action (Trader N X) Failure (Turn N) =
        λ seen. decide out crypto keeps_alias w options seen in
      then-Good (observe out crypto keeps_alias w options) next (observe-Keeps options)
        (λ seen. decide-Good options seen takes grids)
