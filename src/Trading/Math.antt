-- ===== src/Trading/Math.antt =====
-- src/trading-service/trading-math.ts: profit of a position, and the size of a buyback.
pub mod Laws
use tonatiuh_trading_saas.Prelude.{
  Bool, not, ◌&&◌, ◌||◌, Option, none, some, List, [], ◌∷◌, if◌then◌else◌, ◌or_maybe◌,
}
use tonatiuh_trading_saas.Number.{Number, lit, ◌⊖◌, ◌⊗◌, ◌⊘◌, ◌≺◌, ◌≼◌}
use tonatiuh_trading_saas.Trading.Types.{Side, is_buy}

pub data MathError : Type 0 where
  no_entry_order bad_metrics bad_buy_back : MathError

-- A returned value, or what the function throws.
pub data Checked {ℓ} (A : Type ℓ) : Type ℓ where
  value : A → Checked A
  thrown : MathError → Checked A

pub record PositionMetrics (N : Type 0) : Type 0 where
  pub pnl_per_unit : N
  pub pnl_ratio : N
  pub position_pnl : N

abbrev first_side : List Side → Option Side
first_side [] = none
first_side (s ∷ _) = some s

unfoldable pub resolve_position_side : Option Side → List Side → Checked Side
resolve_position_side first_order_side order_sides =
    elim (first_order_side or_maybe first_side order_sides) [
      | none ↦ thrown no_entry_order
      | some side ↦ value side
    ]

-- The arguments of `calculateBuyBackOrderAmount`.
pub record BuyBackParams (N : Type 0) : Type 0 where
  pub side : Side
  pub available_balance : N
  pub last_price : N
  pub percent_from_balance : N
  pub position_size : N
  pub drawdown_step : N
  pub fibonacci : Bool

module _ {N : Type 0} ⦃num : Number N⦄ where
  unfoldable pub calculate_position_metrics : Side → N → N → N → Checked (PositionMetrics N)
  calculate_position_metrics entry_side average_entry_price last_price position_amount =
      if not (lit 0 ≺ average_entry_price)
        || not (lit 0 ≺ last_price)
        || not (lit 0 ≼ position_amount)
      then thrown bad_metrics
      else let pnl =
          if is_buy entry_side
          then last_price ⊖ average_entry_price
          else average_entry_price ⊖ last_price in
        value (record {
          pnl_per_unit = pnl;
          pnl_ratio = pnl ⊘ average_entry_price;
          position_pnl = pnl ⊗ position_amount;
        })

  unfoldable pub calculate_buy_back_amount : N → N → N → Checked N
  calculate_buy_back_amount average_entry_price percent_buy_back_step drawdown_step =
      if not (lit 0 ≺ average_entry_price)
        || not (lit 0 ≼ percent_buy_back_step)
        || not (lit 1 ≼ drawdown_step)
      then thrown bad_buy_back
      else value (average_entry_price ⊗ percent_buy_back_step ⊗ drawdown_step)

  -- the amount before the balance is checked
  unfoldable pub wanted_amount : BuyBackParams N → N
  wanted_amount p =
      if p.fibonacci
      then p.position_size ⊗ p.drawdown_step
      else (p.available_balance ⊗ p.percent_from_balance)
        ⊘ (if is_buy p.side then p.last_price else lit 1)

  -- what an amount costs, in the currency that pays for it
  unfoldable pub required_balance : Side → N → N → N
  required_balance side last_price amount = if is_buy side then amount ⊗ last_price else amount

  unfoldable pub calculate_buy_back_order_amount : BuyBackParams N → N
  unfolding wanted_amount required_balance
  calculate_buy_back_order_amount p =
      if not (lit 0 ≺ p.available_balance) || not (lit 0 ≺ p.last_price)
      then lit 0
      else let amount = wanted_amount p in
        if lit 0 ≺ amount && required_balance p.side p.last_price amount ≼ p.available_balance
        then amount
        else lit 0
