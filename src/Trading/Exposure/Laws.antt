-- ===== src/Trading/Exposure/Laws.antt =====
-- What the closing order does to the position.
use tonatiuh_trading_saas.Prelude.{
  true, false, ◌≡◌, some, List, [], ◌∷◌, ◌++◌, arith, reduce-concat,
}
use tonatiuh_trading_saas.Number.{Number, IsIeee, lit, neg}
use tonatiuh_trading_saas.Trading.Types.{buy, sell}
use tonatiuh_trading_saas.Trading.Exposure.{
  FilledOrderExposure, ClosingOrderExposure, add_filled, net_base_amount, closing_for,
  calculate_closing_order_exposure,
}

-- The closing order, filled in full.
abbrev pub filled_in_full : {N : Type 0} → ClosingOrderExposure N → FilledOrderExposure N
filled_in_full c = record { side = c.side; filled = c.amount }

module _ {N : Type 0} ⦃num : Number N⦄ where
  -- An order of the opposite side and the same size as a net amount.
  pub record IsOpposite (net : N) (c : ClosingOrderExposure N) : Type 0 where
    pub positive : num.less (lit 0) c.amount ≡ true
    pub long : num.less (lit 0) net ≡ true → (c.side ≡ sell) × (c.amount ≡ net)
    pub short : num.less (lit 0) net ≡ false → (c.side ≡ buy) × (c.amount ≡ neg net)
    pub short_less : num.less (lit 0) net ≡ false → num.less net (lit 0) ≡ true

module _ {N : Type 0} ⦃num : Number N⦄ (laws : IsIeee num) where
  pub closing_for-IsOpposite :
      (net : N) (c : ClosingOrderExposure N)
      → num.finite net ≡ true
      → closing_for net ≡ some c
      → IsOpposite net c
  unfolding closing_for
  closing_for-IsOpposite net c fin e = ground (
    arith,
    laws.sign_of_absolute net num.epsilon laws.epsilon_nonneg,
    laws.absolute_pos net,
    laws.absolute_neg net,
    laws.negate_pos net,
  )

  -- an order that was filled in part counts, whatever its side
  pub add_filled-opposite :
      (net : N) (c : ClosingOrderExposure N)
      → num.finite net ≡ true
      → IsOpposite net c
      → add_filled net (filled_in_full c) ≡ lit 0
  unfolding add_filled
  add_filled-opposite net c fin h = ground (
    arith,
    laws.negate_finite net,
    laws.negate_negate net,
    laws.plus_negate net,
    laws.le_lt c.amount (lit 0),
  )

  -- If the order that `calculateClosingOrderExposure` asks for is filled in full, the net amount of
  -- all orders together with it is zero, and its amount is positive. The net amount before is taken
  -- to be finite.
  pub closing_order_neutralises :
      (orders : List (FilledOrderExposure N)) (c : ClosingOrderExposure N)
      → num.finite (net_base_amount orders) ≡ true
      → calculate_closing_order_exposure orders ≡ some c
      → (net_base_amount (orders ++ filled_in_full c ∷ []) ≡ lit 0)
        × (num.less (lit 0) c.amount ≡ true)
  unfolding calculate_closing_order_exposure net_base_amount
  closing_order_neutralises orders c fin e =
      let opposite = closing_for-IsOpposite (net_base_amount orders) c fin e in
      (
        rw (reduce-concat add_filled (lit 0) orders (filled_in_full c))
            (add_filled-opposite (net_base_amount orders) c fin opposite),
        opposite.positive,
      )
