-- ===== src/Trading/Reconciliation.antt =====
-- src/utils/SessionTrading/session-reconciliation.ts: whether the orders of a session already
-- closed its position.
pub mod Laws
use tonatiuh_trading_saas.Prelude.{
  Bool, false, not, ◌||◌, List, [], ◌∷◌, if◌then◌else◌, any, reduce, length, ltb,
}
use tonatiuh_trading_saas.Number.{Number, lit, neg, ◌⊕◌, ◌⊗◌, ◌≼◌}
use tonatiuh_trading_saas.Trading.Types.{Side, same_side, is_buy}

pub record SessionOrderExposure (N : Type 0) : Type 0 where
  pub side : Side
  pub amount : N

module _ {N : Type 0} ⦃num : Number N⦄ where
  -- `orders.some((order) => order.side !== orders[0].side)`
  unfoldable pub has_other_side : List (SessionOrderExposure N) → Bool
  has_other_side [] = false
  has_other_side (o ∷ os) = any (λ order. not (same_side order.side o.side)) (o ∷ os)

  unfoldable pub bad_amount : SessionOrderExposure N → Bool
  bad_amount order = not (num.finite order.amount) || order.amount ≼ lit 0

  unfoldable pub add_net : N → SessionOrderExposure N → N
  add_net total order = total ⊕ (if is_buy order.side then order.amount else neg order.amount)

  unfoldable pub add_total : N → SessionOrderExposure N → N
  add_total total order = total ⊕ num.absolute order.amount

  unfoldable pub is_session_exposure_closed : List (SessionOrderExposure N) → Bool
  unfolding has_other_side bad_amount add_net add_total
  is_session_exposure_closed orders =
      if ltb (length orders) 2 || not (has_other_side orders)
      then false
      else if any bad_amount orders
      then false
      else let net_amount = reduce add_net (lit 0) orders in
        let total_amount = reduce add_total (lit 0) orders in
        let tolerance = num.larger (num.literal 1 12) (total_amount ⊗ num.literal 1 8) in
        num.absolute net_amount ≼ tolerance
