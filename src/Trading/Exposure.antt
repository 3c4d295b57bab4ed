-- ===== src/Trading/Exposure.antt =====
-- src/utils/OrdersOperationService/position-exposure.ts: what filled orders leave open, and the
-- order that closes it.
pub mod Laws
use tonatiuh_trading_saas.Prelude.{
  Bool, not, ◌&&◌, ◌||◌, Option, none, some, List, if◌then◌else◌, reduce,
}
use tonatiuh_trading_saas.Number.{Number, lit, neg, ◌⊕◌, ◌≺◌, ◌≼◌}
use tonatiuh_trading_saas.Trading.Types.{Side, buy, sell, is_buy}

pub record FilledOrderExposure (N : Type 0) : Type 0 where
  pub side : Side
  pub filled : N

pub record ClosingOrderExposure (N : Type 0) : Type 0 where
  pub side : Side
  pub amount : N

module _ {N : Type 0} ⦃num : Number N⦄ where
  -- the callback of `reduce`
  unfoldable pub add_filled : N → FilledOrderExposure N → N
  add_filled total order =
      if not (num.finite order.filled) || order.filled ≼ lit 0
      then total
      else total ⊕ (if is_buy order.side then order.filled else neg order.filled)

  unfoldable pub net_base_amount : List (FilledOrderExposure N) → N
  net_base_amount orders = reduce add_filled (lit 0) orders

  -- the order that closes a net amount
  unfoldable pub closing_for : N → Option (ClosingOrderExposure N)
  closing_for net =
      if num.absolute net ≼ num.epsilon
      then none
      else some (record { side = if lit 0 ≺ net then sell else buy; amount = num.absolute net })

  unfoldable pub calculate_closing_order_exposure :
      List (FilledOrderExposure N) → Option (ClosingOrderExposure N)
  calculate_closing_order_exposure orders = closing_for (net_base_amount orders)
