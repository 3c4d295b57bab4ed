-- ===== src/Trading/Orders/Wait.antt =====
-- `_waitForExecution`: polling a submitted order until it is executed, refused or too old.
pub mod Laws
use tonatiuh_trading_saas.Prelude.{
  ℕ, zero, suc, String, Bool, true, false, not, ◌&&◌, Option, none, some, if◌then◌else◌, ◌or◌,
}
use Prim.Native.String.{◌++◌ as ◌joined◌}
use text.Mathlib.Text.{◌==◌}
use tonatiuh_trading_saas.Prelude.Action.{
  Result, ok, err, Action, Done, pure, throw, modify, when, ◌>>=◌, ◌>>◌,
}
use tonatiuh_trading_saas.Number.{Number, lit, ◌≺◌}
use tonatiuh_trading_saas.Trading.Types.{
  Order, Status, open_order, closed, canceled, rejected, expired,
}
use tonatiuh_trading_saas.Trading.Outside.{Outside, Failure, not_executed, ended_before_execution}
use tonatiuh_trading_saas.Trading.Exchange.{check_status_order_by_id, cancel_all_orders}
use tonatiuh_trading_saas.Trading.Orders.Desk.{Desk, at_venue}
use tonatiuh_trading_saas.Trading.Orders.Publish.{filled_or_zero, publish_order}

abbrev pub is_closed : Option Status → Bool
is_closed (some closed) = true
is_closed _ = false

-- `['canceled', 'rejected', 'expired'].includes(String(latest.status))`
abbrev pub is_ended : Option Status → Bool
is_ended (some canceled) = true
is_ended (some rejected) = true
is_ended (some expired) = true
is_ended _ = false

abbrev status_text : Option Status → String
status_text none = "undefined"
status_text (some open_order) = "open"
status_text (some closed) = "closed"
status_text (some canceled) = "canceled"
status_text (some rejected) = "rejected"
status_text (some expired) = "expired"

-- what one look at the order decides
pub data Verdict : Type 0 where
  executed refused waiting : Verdict

module _ {N : Type 0} ⦃num : Number N⦄ where
  -- `Number(order.filled ?? 0) > 0`
  abbrev pub has_fill : Order N → Bool
  has_fill order = lit 0 ≺ filled_or_zero order

  abbrev remaining_text : Option N → String
  remaining_text none = ""
  remaining_text (some r) = num.print r

  unfoldable pub order_state : Order N → String
  order_state latest =
      status_text latest.status
      joined ":"
      joined num.print (filled_or_zero latest)
      joined ":"
      joined remaining_text latest.remaining

  unfoldable pub judge : Order N → Verdict
  judge latest =
      if is_closed latest.status && has_fill latest
      then executed
      else if is_ended latest.status
      then if has_fill latest then executed else refused
      else waiting

  module _ {X : Type 0} (out : Outside N X) where
    -- after the last attempt: cancel, and look once more
    unfoldable pub give_up_waiting : Order N → String → Action (Desk N X) Failure (Order N)
    give_up_waiting order symbol = do
      at_venue (cancel_all_orders out symbol)
      latest ← at_venue (check_status_order_by_id out order.id symbol)
      publish_order out latest
      if has_fill latest then pure latest else throw (not_executed order.id)

    -- what follows a look: return, throw, or wait a second and look again
    abbrev pub act_on :
        Verdict
        → Order N
        → Order N
        → Action (Desk N X) Failure (Order N)
        → Action (Desk N X) Failure (Order N)
    act_on executed order latest again = pure latest
    act_on refused order latest again = throw (ended_before_execution order.id)
    act_on waiting order latest again = do
      modify (λ d. record d { venue = out.sleep 1000 d.venue })
      again

    -- The `for` loop, with the attempts that are left and the state that was published last.
    unfoldable pub poll_execution :
        Order N → String → ℕ → String → Action (Desk N X) Failure (Order N)
    unfolding give_up_waiting
    poll_execution order symbol zero published_state = give_up_waiting order symbol
    poll_execution order symbol (suc left) published_state = do
      latest ← at_venue (check_status_order_by_id out order.id symbol)
      let state = order_state latest
      when (not (state == published_state)) (publish_order out latest)
      let again = poll_execution order symbol left state
      act_on (judge latest) order latest again

    unfoldable pub wait_for_execution : Order N → String → Action (Desk N X) Failure (Order N)
    wait_for_execution order symbol =
        if has_fill order && is_closed order.status
        then (do publish_order out order; pure order)
        else poll_execution order symbol 60 ""
