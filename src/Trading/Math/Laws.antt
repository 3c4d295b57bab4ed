-- ===== src/Trading/Math/Laws.antt =====
-- What an amount that is bought back costs.
use tonatiuh_trading_saas.Prelude.{true, ◌≡◌, Bool-cases, inl, inr, arith}
use tonatiuh_trading_saas.Number.{Number, IsIeee, lit, ◌≺◌, ◌≼◌}
use tonatiuh_trading_saas.Trading.Math.{
  BuyBackParams, wanted_amount, required_balance, calculate_buy_back_order_amount,
}

module _ {N : Type 0} ⦃num : Number N⦄ (ieee : IsIeee num) where
  -- An amount above zero that is bought back is the wanted one, and the available balance covers
  -- what it costs.
  pub calculate_buy_back_order_amount-le_balance :
      (p : BuyBackParams N)
      → (lit 0 ≺ calculate_buy_back_order_amount p) ≡ true
      → (calculate_buy_back_order_amount p ≡ wanted_amount p)
        × ((required_balance p.side p.last_price (wanted_amount p) ≼ p.available_balance) ≡ true)
  unfolding calculate_buy_back_order_amount
  calculate_buy_back_order_amount-le_balance p h =
      let zero = ieee.le_lt (lit 0) (lit 0) ieee.zero_le_zero in
      elim (Bool-cases (lit 0 ≺ p.available_balance)) [
        | inr poor ↦ absurd (ground arith)
        | inl rich ↦ elim (Bool-cases (lit 0 ≺ p.last_price)) [
          | inr bad ↦ absurd (ground arith)
          | inl priced ↦ elim (Bool-cases (lit 0 ≺ wanted_amount p)) [
            | inr none_wanted ↦ absurd (ground arith)
            | inl wanted ↦
                elim (Bool-cases
                  (required_balance p.side p.last_price (wanted_amount p) ≼ p.available_balance)) [
                    | inr dear ↦ absurd (ground arith)
                    | inl covered ↦ (ground arith, covered)
                  ]
          ]
        ]
      ]
