-- ===== src/Trading/Trader/Tracker.antt =====
-- `_onPriceTracker` of src/trading-service/abstract.trading.ts: following a price that runs in
-- favour of a position, and closing it when the price turns.
pub mod Laws
use tonatiuh_trading_saas.Prelude.{
  ℕ, zero, suc, Bool, true, false, ◌||◌, Option, none, some, List, [], ◌∷◌, if◌then◌else◌, is_some,
}
use tonatiuh_trading_saas.Prelude.Action.{
  Result, ok, err, Action, Done, pure, throw, catch, ◌>>=◌, ◌>>◌,
}
use tonatiuh_trading_saas.Number.{Number, to_number, ◌⊕◌, ◌⊖◌, ◌⊗◌, ◌≼◌}
use tonatiuh_trading_saas.Trading.Types.{Side, buy, sell, Order}
use tonatiuh_trading_saas.Trading.Outside.{Outside, Failure, no_orders}
use tonatiuh_trading_saas.Trading.Exchange.{get_unrealized_pnl}
use tonatiuh_trading_saas.Trading.Orders.Close.{close_filled_position}
use tonatiuh_trading_saas.Trading.Trader.{Trader, on_desk, on_venue, get_price, sleep_timeout}

-- `targetTakeProfit` and `targetStopProfit`
pub record Targets (N : Type 0) : Type 0 where
  pub take_profit : N
  pub stop_profit : N

-- what one look decides: closing, or watching on
pub data Look (N : Type 0) : Type 0 where
  close_now : Look N
  watch_on : Targets N → Look N

module _ {N : Type 0} ⦃num : Number N⦄ where
  -- `calculateTarget`, for both modes
  unfoldable pub targets_at : Side → N → N → Targets N
  targets_at sell indent actual_price = record {
    take_profit = actual_price ⊕ indent;
    stop_profit = actual_price ⊖ indent;
  }
  targets_at buy indent actual_price = record {
    take_profit = actual_price ⊖ indent;
    stop_profit = actual_price ⊕ indent;
  }

  unfoldable pub stop_reached : Side → N → Targets N → Bool
  stop_reached sell last_price t = last_price ≼ t.stop_profit
  stop_reached buy last_price t = t.stop_profit ≼ last_price

  unfoldable pub take_reached : Side → N → Targets N → Bool
  take_reached sell last_price t = t.take_profit ≼ last_price
  take_reached buy last_price t = last_price ≼ t.take_profit

  -- the two `if`s of a turn
  unfoldable pub look : Side → N → N → Targets N → Look N
  look side indent last_price t =
      if stop_reached side last_price t
      then close_now
      else watch_on
          (if take_reached side last_price t then targets_at side indent last_price else t)

  module _ {X : Type 0} (out : Outside N X) where
    -- `false` without a closing order
    unfoldable pub close_position : Action (Trader N X) Failure Bool
    close_position t =
        (do
          closing_order ← on_desk (close_filled_position out t.symbol t.index_operation)
          pure (is_some closing_order))
          t

    -- the unrealized profit of the first order; its value is only logged
    abbrev pub first_pnl : List (Order N) → Action (Trader N X) Failure N
    first_pnl [] = throw no_orders
    first_pnl (o ∷ os) =
        λ t. on_venue (get_unrealized_pnl out t.symbol (to_number o.price) o.side) t

    abbrev pub require_orders : List (Order N) → Action (Trader N X) Failure Done
    require_orders [] = throw no_orders
    require_orders (_ ∷ _) = pure tt

    -- what a look decides, with what watches on
    abbrev pub act_on_look :
        (Targets N → Action (Trader N X) Failure (Option Bool))
        → Look N
        → Action (Trader N X) Failure (Option Bool)
    act_on_look again close_now = do closed ← close_position; pure (some closed)
    act_on_look again (watch_on targets) = do sleep_timeout out 1000; again targets

    -- The `while (true)` loop: `none` is a loop that is still watching after its fuel.
    unfoldable pub track : ℕ → Side → N → Targets N → Action (Trader N X) Failure (Option Bool)
    track zero side indent targets = pure none
    track (suc fuel) side indent targets = do
      (λ t. require_orders t.orders t)
      last_price ← get_price out
      (λ t. first_pnl t.orders t)
      act_on_look (track fuel side indent) (look side indent last_price targets)

    -- Every error is caught.
    unfoldable pub on_price_tracker : ℕ → Side → Action (Trader N X) Failure (Option Bool)
    on_price_tracker fuel side =
        catch
          (do
            price ← get_price out
            (λ t.
                let indent = price ⊗ t.config.percent_target_after_take_profit in
                track fuel side indent (targets_at side indent price) t))
          (λ _. pure (some false))
