-- ===== src/Trading/Trader/Opens/Lines.antt =====
-- Several orders that were opened one after the other.
use tonatiuh_trading_saas.Prelude.{
  true, List, [], ◌∷◌, ◌++◌, ◌≡◌, refl, ap, ◌∙◌, all, all-append, sym,
}
use mathlib.Core.List.{append_assoc, append-nil}
use tonatiuh_trading_saas.Prelude.Action.{Result, After, After-mono}
use tonatiuh_trading_saas.Number.{Number}
use tonatiuh_trading_saas.Trading.Types.{Side, Order, SettingOrder}
use tonatiuh_trading_saas.Trading.Outside.{Outside, Failure}
use tonatiuh_trading_saas.Trading.Orders.Open.Laws.{Placed}
use tonatiuh_trading_saas.Trading.Orders.Wait.{has_fill}
use tonatiuh_trading_saas.Trading.Trader.{Trader}
use tonatiuh_trading_saas.Trading.Trader.Opens.{Places}

module _ {N X : Type 0} ⦃num : Number N⦄ (out : Outside N X) where
  -- a side with the settings of an order
  abbrev pub Line : Type 0
  Line = Side × SettingOrder N

  -- each order was placed for its line
  abbrev pub AllPlaced : List Line → List (Order N) → Type 0
  AllPlaced [] [] = Unit
  AllPlaced [] (o ∷ os) = ⊥
  AllPlaced (line ∷ lines) [] = ⊥
  AllPlaced (line ∷ lines) (o ∷ os) = Placed out line.0 line.1 o × AllPlaced lines os

  AllPlaced-append :
      (ls ms : List Line) (os ps : List (Order N))
      → AllPlaced ls os
      → AllPlaced ms ps
      → AllPlaced (ls ++ ms) (os ++ ps)
  AllPlaced-append [] ms [] ps h k = k
  AllPlaced-append [] ms (o ∷ os) ps h k = absurd h
  AllPlaced-append (l ∷ ls) ms [] ps h k = absurd h
  AllPlaced-append (l ∷ ls) ms (o ∷ os) ps h k = (h.0, AllPlaced-append ls ms os ps h.1 k)

  -- The orders of `t` stay where they are, and executed ones for these lines follow them.
  pub record Opened (lines : List Line) (t u : Trader N X) : Type 0 where
    pub fresh : List (Order N)
    pub orders_are : u.orders ≡ t.orders ++ fresh
    pub placed : AllPlaced lines fresh
    pub executed : all has_fill fresh ≡ true
    pub symbol_is : u.symbol ≡ t.symbol

  -- no order of `t` is lost, and those that follow them are executed
  pub record OpenedSome (t u : Trader N X) : Type 0 where
    pub fresh : List (Order N)
    pub orders_are : u.orders ≡ t.orders ++ fresh
    pub executed : all has_fill fresh ≡ true

  pub Opened-one :
      (side : Side) (setting : SettingOrder N) (t u : Trader N X) (order : Order N)
      → Places out side setting t order u
      → Opened ((side, setting) ∷ []) t u
  Opened-one side setting t u order ((pushed, executed), placed, same) = record {
    fresh = order ∷ [];
    orders_are = pushed;
    placed = (placed, tt);
    executed = rw executed refl;
    symbol_is = same;
  }

  pub nothing : (t u : Trader N X) → u.orders ≡ t.orders → OpenedSome t u
  nothing t u same = record {
    fresh = [];
    orders_are = same ∙ sym (append-nil t.orders);
    executed = refl;
  }

  pub Opened-nil : (t u : Trader N X) → u.orders ≡ t.orders → u.symbol ≡ t.symbol → Opened [] t u
  Opened-nil t u same symbol = record {
    fresh = [];
    orders_are = same ∙ sym (append-nil t.orders);
    placed = tt;
    executed = refl;
    symbol_is = symbol;
  }

  appended :
      (t u v : Trader N X) (xs ys : List (Order N))
      → u.orders ≡ t.orders ++ xs
      → v.orders ≡ u.orders ++ ys
      → v.orders ≡ t.orders ++ (xs ++ ys)
  appended t u v xs ys a b = b ∙ ap (λ zs. zs ++ ys) a ∙ append_assoc t.orders xs ys

  -- what follows opened orders
  pub then-Opened :
      {A : Type 0} (ls ms : List Line) (t u : Trader N X) (r : Result Failure A × Trader N X)
      → Opened ls t u
      → After (λ _ v. Opened ms u v) (λ _ v. OpenedSome u v) r
      → After (λ _ v. Opened (ls ++ ms) t v) (λ _ v. OpenedSome t v) r
  then-Opened ls ms t u r a =
      After-mono r
        (λ _ v b. record {
          fresh = a.fresh ++ b.fresh;
          orders_are = appended t u v a.fresh b.fresh a.orders_are b.orders_are;
          placed = AllPlaced-append ls ms a.fresh b.fresh a.placed b.placed;
          executed = all-append has_fill a.fresh b.fresh a.executed b.executed;
          symbol_is = b.symbol_is ∙ a.symbol_is;
        })
        (λ _ v b. record {
          fresh = a.fresh ++ b.fresh;
          orders_are = appended t u v a.fresh b.fresh a.orders_are b.orders_are;
          executed = all-append has_fill a.fresh b.fresh a.executed b.executed;
        })
