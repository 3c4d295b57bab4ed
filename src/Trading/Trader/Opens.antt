-- ===== src/Trading/Trader/Opens.antt =====
-- What opening one order leaves in a trading service.
pub mod Lines
pub mod Grid
use tonatiuh_trading_saas.Prelude.{
  ℕ, zero, suc, ◌+◌, ◌*◌, String, Bool, true, false, Option, none, some, List, [], ◌∷◌, ◌++◌, ◌≡◌,
  refl, ap, ◌∙◌, inl, inr, all, all-append, subst, sym, arith, Bool-cases, if◌then◌else◌,
  ◌==◌ as nat_eq,
}
use mathlib.Core.Path.{ap₂}
use mathlib.Core.List.{append_assoc, append-nil}
use tonatiuh_trading_saas.Prelude.Action.{
  ok, Result, Action, Done, pure, ◌>>=◌, ◌>>◌, After, After-bind, After-lift, After-mono,
  Outcome-cases,
}
use tonatiuh_trading_saas.Number.{Number, lit, to_number, falsy, neg, ◌⊕◌, ◌⊗◌}
use tonatiuh_trading_saas.Trading.Types.{Side, buy, sell, Order, SettingOrder, limit}
use tonatiuh_trading_saas.Trading.Outside.{Outside, Failure}
use tonatiuh_trading_saas.Trading.Exchange.{get_tick}
use tonatiuh_trading_saas.Trading.Orders.Open.{open_position_for_strategy}
use tonatiuh_trading_saas.Trading.Orders.Open.Laws.{Placed, open_position_for_strategy-Opens}
use tonatiuh_trading_saas.Trading.Orders.Wait.{has_fill}
use tonatiuh_trading_saas.Trading.Trader.{
  Trader, put_desk, desk_of, on_venue, put_venue, open_position,
}
use tonatiuh_trading_saas.Trading.Trader.Entry.{
  Entered, limit_order, grid_price, grid_side, grid_settings, grid_lines, grid_trading_behavior,
}

module _ {N X : Type 0} ⦃num : Number N⦄ (out : Outside N X) where
  -- one executed order more
  abbrev pub Pushes : Trader N X → Order N → Trader N X → Type 0
  Pushes t order u = (u.orders ≡ t.orders ++ order ∷ []) × (has_fill order ≡ true)

  abbrev pub Places : Side → SettingOrder N → Trader N X → Order N → Trader N X → Type 0
  Places side setting t order u =
      Pushes t order u × Placed out side setting order × (u.symbol ≡ t.symbol)

  pub open_position-Places :
      (side : Side) (setting : SettingOrder N) (t : Trader N X)
      → After
          (Places side setting t)
          (λ _ u. u.orders ≡ t.orders)
          (open_position out side setting t)
  unfolding open_position
  open_position-Places side setting t =
      let run = open_position_for_strategy out side setting t.index_operation (desk_of t) in
      After-lift (Places side setting t) (λ _ u. u.orders ≡ t.orders) (put_desk t) run
        (After-mono run (λ order d known. ((known.0.pushed, known.0.executed), known.2, refl))
          (λ _ d kept. kept.0)
          (open_position_for_strategy-Opens out side setting t.index_operation (desk_of t)))

  pub open_position-Pushes :
      (side : Side) (setting : SettingOrder N) (t : Trader N X)
      → After (Pushes t) (λ _ u. u.orders ≡ t.orders) (open_position out side setting t)
  open_position-Pushes side setting t =
      After-mono (open_position out side setting t) (λ _ _ known. known.0) (λ _ _ kept. kept)
        (open_position-Places side setting t)
