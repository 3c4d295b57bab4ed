-- ===== src/Trading/Trader/End/Laws.antt =====
-- What the end of a session guarantees.
use tonatiuh_trading_saas.Prelude.{
  ℕ, String, Bool, not, Option, some, List, [], ◌≡◌, refl, ap, ◌∙◌, ◌⊎◌, inl, inr, filter,
}
use text.Mathlib.Text.{◌==◌}
use tonatiuh_trading_saas.Prelude.Action.{
  Action, Done, ◌>>=◌, ◌>>◌, After, After-bind, After-lift, After-mono,
}
use tonatiuh_trading_saas.Number.{Number, ◌⊕◌}
use tonatiuh_trading_saas.Trading.Outside.{Outside, Failure, Balance}
use tonatiuh_trading_saas.Trading.Orders.Desk.{clearing_order_list, revert_active_state_order}
use tonatiuh_trading_saas.Trading.Sessions as Sessions
use tonatiuh_trading_saas.Trading.Sessions.Laws.{active_sessions}
use tonatiuh_trading_saas.Trading.SessionService.{
  Service, calculate_profit_session, save_balance_state, null_as_zero, on_sessions,
}
use tonatiuh_trading_saas.Trading.SessionService.Keeps as ServiceKeeps
use tonatiuh_trading_saas.Trading.SessionService.Laws as ServiceLaws
use tonatiuh_trading_saas.Trading.Trader.{Trader, on_desk, on_service}
use tonatiuh_trading_saas.Trading.Trader.Keeps.{Still, Keeps-then, on_desk-Keeps, on_service-Keeps}
use tonatiuh_trading_saas.Trading.Trader.End.{end_with, end_trade_session}

module _ {N X : Type 0} (c : ℕ) where
  abbrev pub active : Trader N X → List String
  active t = active_sessions c t.service.sessions

  -- the session of `t` is no longer among the active ones
  abbrev pub Removed : Trader N X → Trader N X → Type 0
  Removed t u = active u ≡ filter (λ i. not (i == t.index_operation)) (active t)

  -- ... and the service has no orders
  abbrev pub Ended : Trader N X → Trader N X → Type 0
  Ended t u = Removed t u × (u.orders ≡ [])

  abbrev pub MayEnd : Trader N X → Trader N X → Type 0
  MayEnd t u = (active u ≡ active t) ⊎ Removed t u

  -- the same, from an earlier state with the same sessions
  pub Removed-Still : (t u v : Trader N X) → Still t u → Removed u v → Removed t v
  Removed-Still t u v (rows, index) h =
      h
      ∙ ap (λ i. filter (λ j. not (j == i)) (active u)) index
      ∙ ap (λ l. filter (λ j. not (j == t.index_operation)) (active_sessions c l)) rows

  pub MayEnd-Still : (t u v : Trader N X) → Still t u → MayEnd u v → MayEnd t v
  MayEnd-Still t u v same (inl kept) = inl (kept ∙ ap (active_sessions c) same.0)
  MayEnd-Still t u v same (inr gone) = inr (Removed-Still t u v same gone)

module _ {N X : Type 0} ⦃num : Number N⦄ (out : Outside N X) (keeps_alias : Bool) (c : ℕ) where
  -- after the row of the session
  settle-Ended :
      (t u : Trader N X)
      → Removed c t u
      → After
          (λ _ v. Ended c t v)
          (λ _ v. MayEnd c t v)
          ((on_desk (revert_active_state_order out t.index_operation)
              >> on_desk clearing_order_list)
            u)
  unfolding clearing_order_list
  settle-Ended t u gone =
      let revert = revert_active_state_order out t.index_operation in
      let clear : Done → Action (Trader N X) Failure Done = λ _. on_desk clearing_order_list in
      Keeps-then (λ _ v. Ended c t v) (λ _ v. MayEnd c t v) (on_desk revert) clear u
        (on_desk-Keeps revert) (λ _ v same. inr (ap (active_sessions c) same.0 ∙ gone))
        (λ _ v same. (ap (active_sessions c) same.0 ∙ gone, refl))

  end_row-Removed :
      (profit : Option N) (exchange : String) (t u : Trader N X)
      → u.service.sessions ≡ t.service.sessions
      → After
          (λ _ v. Removed c t v)
          (λ _ v. active c v ≡ active c t)
          (on_service (on_sessions (Sessions.end_trade_session out profit t.index_operation)) u)
  end_row-Removed profit exchange t u same =
      let ending : Action (Service N X) Failure Done =
        on_sessions (Sessions.end_trade_session out profit t.index_operation) in
      let put : Service N X → Trader N X = λ s. record u { service = s } in
      After-lift (λ _ v. Removed c t v) (λ _ v. active c v ≡ active c t) put (ending u.service)
        (After-mono (ending u.service)
          (λ _ s gone.
            gone ∙ ap (λ l. filter (λ j. not (j == t.index_operation)) (active_sessions c l)) same)
          (λ _ s kept. kept ∙ ap (active_sessions c) same)
          (ServiceLaws.end_session-Removes out exchange keeps_alias c profit t.index_operation
            u.service))

  end_with-Ended :
      (profit : N) (t : Trader N X)
      → After (λ _ v. Ended c t v) (λ _ v. MayEnd c t v) (end_with out keeps_alias profit t)
  end_with-Ended profit t =
      let P : Done → Trader N X → Type 0 = λ _ v. Ended c t v in
      let Q : Failure → Trader N X → Type 0 = λ _ v. MayEnd c t v in
      let exchange = t.services_config.exchange in
      let save = save_balance_state out exchange keeps_alias (some profit) t.orders in
      let ending : Action (Trader N X) Failure Done =
        on_service (on_sessions (Sessions.end_trade_session out (some profit) t.index_operation)) in
      let settle : Done → Action (Trader N X) Failure Done = λ _.
        on_desk (revert_active_state_order out t.index_operation) >> on_desk clearing_order_list in
      let rest : Option (Balance N) → Action (Trader N X) Failure Done = λ _. ending >>= settle in
      Keeps-then P Q (on_service save) rest t
        (on_service-Keeps save
          (ServiceKeeps.save_balance_state-Keeps out exchange keeps_alias (some profit) t.orders))
        (λ _ u same. inl (ap (active_sessions c) same.0))
        (λ _ u same.
          After-bind P Q (λ _ v. Removed c t v) ending settle u
            (After-mono (ending u) (λ _ v gone. gone) (λ _ v kept. inl kept)
              (end_row-Removed (some profit) exchange t u same.0))
            (λ _ v gone. settle-Ended t v gone))

  -- If ending a session succeeds, its index is no longer active and the service has no orders;
  -- after an error the active sessions are as before, or only without it.
  pub end_trade_session-Ended :
      (delta_for_sale : N) (t : Trader N X)
      → After
          (λ _ u. Ended c t u)
          (λ _ u. MayEnd c t u)
          (end_trade_session out keeps_alias delta_for_sale t)
  unfolding end_trade_session
  end_trade_session-Ended delta_for_sale t =
      let exchange = t.services_config.exchange in
      let calculate =
        calculate_profit_session out exchange keeps_alias t.index_operation t.orders in
      let rest : Option N → Action (Trader N X) Failure Done =
        λ profit. end_with out keeps_alias (null_as_zero profit ⊕ delta_for_sale) in
      Keeps-then (λ _ u. Ended c t u) (λ _ u. MayEnd c t u) (on_service calculate) rest t
        (on_service-Keeps calculate (
          ServiceLaws.calculate_profit_session-Keeps out exchange keeps_alias c t.index_operation
            t.orders))
        (λ _ u same. inl (ap (active_sessions c) same.0))
        (λ profit u same.
          After-mono (rest profit u) (λ _ v ended. (Removed-Still c t u v same ended.0, ended.1))
            (λ _ v may. MayEnd-Still c t u v same may)
            (end_with-Ended (null_as_zero profit ⊕ delta_for_sale) u))
