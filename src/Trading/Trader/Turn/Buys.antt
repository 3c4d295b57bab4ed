-- ===== src/Trading/Trader/Turn/Buys.antt =====
-- When the loop of a trading service buys back, and what it then opens.
use tonatiuh_trading_saas.Prelude.{some, suc, Bool, true, ◌≡◌, ◌⊎◌}
use tonatiuh_trading_saas.Prelude.Action.{Action}
use tonatiuh_trading_saas.Number.{Number, IsIeee, ◌≼◌, ◌⊕◌}
use tonatiuh_trading_saas.Trading.Types.{Order, SettingOrder, limit}
use tonatiuh_trading_saas.Trading.Outside.{Outside}
use tonatiuh_trading_saas.Trading.Math.{BuyBackParams, wanted_amount, required_balance}
use tonatiuh_trading_saas.Trading.Settings.Encryption.{Crypto}
use tonatiuh_trading_saas.Trading.Trader.{Trader}
use tonatiuh_trading_saas.Trading.Trader.Opens.{Pushes}
use tonatiuh_trading_saas.Trading.Trader.Turn.{Watching, Options, Seen, buy_back_params, buys_back}

module _ {N X : Type 0} ⦃num : Number N⦄ (ieee : IsIeee num) (out : Outside N X) (crypto : Crypto X)
    (keeps_alias : Bool) (w : Watching N X) where
  abbrev params : Trader N X → Options N → Seen N → N → BuyBackParams N
  params = buy_back_params out crypto keeps_alias w

  abbrev setting : Trader N X → Seen N → N → SettingOrder N
  setting t seen amount = record {
    symbol = t.symbol;
    type_ = limit;
    amount = amount;
    price = seen.last_price;
  }

  -- One executed order more, for the loss that was seen, at a price that the balance covers; the
  -- options count it.
  pub record BoughtBack (t : Trader N X) (options : Options N) (seen : Seen N)
      (options' : Options N) (u : Trader N X) : Type 0 where
    pub order : Order N
    pub pushes : Pushes out t order u
    pub loss_seen : buys_back out crypto keeps_alias w seen ≡ true
    pub available : N
    pub balance : seen.available_balance ≡ some available
    pub covered :
        (required_balance seen.side seen.last_price
            (wanted_amount (params t options seen available))
          ≼ available)
        ≡ true
    pub counted : options' ≡ record {
      buying_back = options.buying_back ⊕ wanted_amount (params t options seen available);
      drawdown_step = suc options.drawdown_step;
    }

  abbrev pub Unchanged : Trader N X → Options N → Options N → Trader N X → Type 0
  Unchanged t options options' u = (options' ≡ options) × (u.orders ≡ t.orders)

  -- what a turn of the loop may have bought back
  abbrev pub Affordable : Trader N X → Options N → Seen N → Options N → Trader N X → Type 0
  Affordable t options seen options' u =
      Unchanged t options options' u ⊎ BoughtBack t options seen options' u
