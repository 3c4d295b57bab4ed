-- ===== src/Trading/Trader/Watch/Laws.antt =====
-- What trading leaves of the sessions of a configuration.
use tonatiuh_trading_saas.Prelude.{
  ℕ, zero, suc, String, Bool, true, false, Option, some, List, [], ◌∷◌, ◌≡◌, refl, ap, sym, ◌∙◌,
  ◌⊎◌, inl, inr, length, if◌then◌else◌, filter, not, ◌or◌,
}
use text.Mathlib.Text.{◌==◌}
use tonatiuh_trading_saas.Prelude.Action.{
  ok, Action, Done, pure, modify, ◌>>=◌, ◌>>◌, After, After-bind, After-mono, After-lift,
}
use tonatiuh_trading_saas.Number.{Number, lit, ◌≼◌}
use tonatiuh_trading_saas.Trading.Types.{Order, opposite}
use tonatiuh_trading_saas.Trading.Outside.{Outside, Failure}
use tonatiuh_trading_saas.Trading.Orders.Desk.{get_all_orders_by_index_operation}
use tonatiuh_trading_saas.Trading.Orders.Publish.{set_orders}
use tonatiuh_trading_saas.Trading.Sessions.Laws.{active_sessions}
use tonatiuh_trading_saas.Trading.SessionService.{
  Service, TypeSession, start_new_trade, start_old_trade, init_trade_session,
}
use tonatiuh_trading_saas.Trading.SessionService.Laws.{init_trade_session-OneActive}
use tonatiuh_trading_saas.Trading.SessionService.Keeps.{AtMostOne, remove_only}
use tonatiuh_trading_saas.Trading.Settings.Encryption.{Crypto}
use tonatiuh_trading_saas.Trading.Trader.{Trader, on_desk, on_service, sleep_timeout}
use tonatiuh_trading_saas.Trading.Trader.Keeps.{
  Still, Still-trans, Keeps, Keeps-bind, Keeps-then, on_desk-Keeps, if-Keeps,
}
use tonatiuh_trading_saas.Trading.Trader.End.Laws.{
  active, Removed, Ended, MayEnd, Removed-Still, MayEnd-Still,
}
use tonatiuh_trading_saas.Trading.Trader.Tracker.{on_price_tracker, close_position}
use tonatiuh_trading_saas.Trading.Trader.Tracker.Laws.{close_position-Keeps, on_price_tracker-Keeps}
use tonatiuh_trading_saas.Trading.Trader.Entry.{Entered, entering_position}
use tonatiuh_trading_saas.Trading.Trader.Entry.Laws.{entering_position-Keeps}
use tonatiuh_trading_saas.Trading.Trader.Turn.{
  Watching, Options, TakeProfit, Turn, leave, still_tracking, next_turn, watch_turn,
}
use tonatiuh_trading_saas.Trading.Trader.Turn.Laws.{
  TakesKeep, GridKeeps, AfterTurn, watch_turn-Good,
}
use tonatiuh_trading_saas.Trading.Trader.Watch.{
  StartAlgorithms, is_empty, watching_entered, watching_stored, watch_loop, watching_process,
  start_new_trade_session, watch_stored, checking_existing_orders, continue_session,
  start_trading_session, watching_take_profit_logic,
}

module _ {N X : Type 0} where
  -- What the loop leaves: the session as it was, or, once the loop ended, an ended one.
  abbrev pub AfterLoop : ℕ → Trader N X → Bool → Trader N X → Type 0
  AfterLoop c t true u = Still t u ⊎ Ended c t u
  AfterLoop c t false u = Still t u

  AfterLoop-Still :
      (c : ℕ) (t u v : Trader N X) (ended : Bool)
      → Still t u
      → AfterLoop c u ended v
      → AfterLoop c t ended v
  AfterLoop-Still c t u v true same (inl kept) = inl (Still-trans t u v same kept)
  AfterLoop-Still c t u v true same (inr e) = inr (Removed-Still c t u v same e.0, e.1)
  AfterLoop-Still c t u v false same kept = Still-trans t u v same kept

  idle-AfterLoop : (c : ℕ) (t : Trader N X) (ended : Bool) → AfterLoop c t ended t
  idle-AfterLoop c t true = inl (refl, refl)
  idle-AfterLoop c t false = (refl, refl)

  -- One session is active, that of the service, or none is and the service has no orders.
  abbrev pub Left : ℕ → Bool → Trader N X → Type 0
  Left c true u = (active c u ≡ u.index_operation ∷ []) ⊎ ((active c u ≡ []) × (u.orders ≡ []))
  Left c false u = active c u ≡ u.index_operation ∷ []

  Still-one :
      (c : ℕ) (t u : Trader N X)
      → active c t ≡ t.index_operation ∷ []
      → Still t u
      → active c u ≡ u.index_operation ∷ []
  Still-one c t u only (rows, index) =
      ap (active_sessions c) rows ∙ only ∙ ap (λ i. i ∷ []) (sym index)

  Removed-none :
      (c : ℕ) (t u : Trader N X)
      → active c t ≡ t.index_operation ∷ []
      → Removed c t u
      → active c u ≡ []
  Removed-none c t u only gone =
      gone
      ∙ ap (λ l. filter (λ i. not (i == t.index_operation)) l) only
      ∙ remove_only t.index_operation

  Left-AfterLoop :
      (c : ℕ) (t u : Trader N X) (ended : Bool)
      → active c t ≡ t.index_operation ∷ []
      → AfterLoop c t ended u
      → Left c ended u
  Left-AfterLoop c t u true only (inl kept) = inl (Still-one c t u only kept)
  Left-AfterLoop c t u true only (inr e) = inr (Removed-none c t u only e.0, e.1)
  Left-AfterLoop c t u false only kept = Still-one c t u only kept

  AtMostOne-MayEnd :
      (c : ℕ) (t u : Trader N X)
      → active c t ≡ t.index_operation ∷ []
      → MayEnd c t u
      → AtMostOne (active c u)
  AtMostOne-MayEnd c t u only (inl kept) = inr (t.index_operation, kept ∙ only)
  AtMostOne-MayEnd c t u only (inr gone) = inl (Removed-none c t u only gone)

module _ {N X : Type 0} ⦃num : Number N⦄ (out : Outside N X) (crypto : Crypto X)
    (keeps_alias : Bool) (fuel : ℕ) (c : ℕ) where
  abbrev Good : Action (Trader N X) Failure Bool → Type 0
  Good m = (t : Trader N X) → After (AfterLoop c t) (λ _ u. MayEnd c t u) (m t)

  then-Good :
      {A : Type 0} (m : Action (Trader N X) Failure A) (f : A → Action (Trader N X) Failure Bool)
      → Keeps m
      → ((a : A) → Good (f a))
      → Good (m >>= f)
  then-Good m f keeps k t =
      Keeps-then (AfterLoop c t) (λ _ u. MayEnd c t u) m f t keeps
        (λ _ u same. inl (ap (active_sessions c) same.0))
        (λ a u same.
          After-mono (f a u) (λ ended v known. AfterLoop-Still c t u v ended same known)
            (λ _ v may. MayEnd-Still c t u v same may) (k a u))

  abbrev after_turn : Watching N X → ℕ → Turn N → Action (Trader N X) Failure Bool
  after_turn w left turn = elim turn [
    | leave ↦ pure true
    | still_tracking ↦ pure false
    | next_turn options' ↦ watch_loop out crypto keeps_alias fuel w left options'
  ]

  loop_turn-Good :
      (w : Watching N X) (left : ℕ) (turn : Turn N) (t u : Trader N X)
      → ((options : Options N) → Good (watch_loop out crypto keeps_alias fuel w left options))
      → AfterTurn c t turn u
      → After (AfterLoop c t) (λ _ v. MayEnd c t v) (after_turn w left turn u)
  loop_turn-Good w left leave t u h known = known
  loop_turn-Good w left still_tracking t u h known = known
  loop_turn-Good w left (next_turn options) t u h known =
      After-mono (watch_loop out crypto keeps_alias fuel w left options u)
        (λ ended v k. AfterLoop-Still c t u v ended known k)
        (λ _ v may. MayEnd-Still c t u v known may) (h options u)

  turns-Good :
      (w : Watching N X) (left : ℕ) (options : Options N)
      → TakesKeep w.take_profit_logic
      → GridKeeps w.grid_logic
      → (t : Trader N X) (stop : Bool)
      → ((o : Options N) → Good (watch_loop out crypto keeps_alias fuel w left o))
      → After
          (AfterLoop c t)
          (λ _ u. MayEnd c t u)
          (if stop
            then (ok true, t)
            else (watch_turn out crypto keeps_alias w options >>= after_turn w left) t)
  turns-Good w left options takes grids t true h = inl (refl, refl)
  turns-Good w left options takes grids t false h =
      After-bind (AfterLoop c t) (λ _ u. MayEnd c t u) (AfterTurn c t)
        (watch_turn out crypto keeps_alias w options) (after_turn w left) t
        (watch_turn-Good out crypto keeps_alias w c options takes grids t)
        (λ r u known. loop_turn-Good w left r t u h known)

  watch_loop-Good :
      (w : Watching N X) (left : ℕ) (options : Options N)
      → TakesKeep w.take_profit_logic
      → GridKeeps w.grid_logic
      → Good (watch_loop out crypto keeps_alias fuel w left options)
  unfolding watch_loop
  watch_loop-Good w zero options takes grids t = idle-AfterLoop c t (is_empty t.orders)
  watch_loop-Good w (suc left) options takes grids t =
      turns-Good w left options takes grids t (is_empty t.orders)
        (λ o. watch_loop-Good w left o takes grids)

  watching_process-Good :
      (w : Watching N X)
      → TakesKeep w.take_profit_logic
      → GridKeeps w.grid_logic
      → Good (watching_process out crypto keeps_alias fuel w)
  unfolding watching_process
  watching_process-Good w takes grids t =
      watch_loop-Good w fuel
        (record { buying_back = w.setting_amount or lit 0; drawdown_step = length t.orders }) takes
        grids t

  module _ (param : StartAlgorithms N X) (takes : TakesKeep param.take_profit_logic)
      (grids : GridKeeps param.grid_logic) where
    start_new_trade_session-Good : Good (start_new_trade_session out crypto keeps_alias fuel param)
    unfolding start_new_trade_session
    start_new_trade_session-Good =
        let entering = entering_position out param.type_trading in
        let watch : Entered N → Action (Trader N X) Failure Bool = λ entered.
          watching_process out crypto keeps_alias fuel (watching_entered param entered) in
        then-Good entering watch (entering_position-Keeps out param.type_trading)
          (λ entered. watching_process-Good (watching_entered param entered) takes grids)

    watch_stored-Good :
        (orders : List (Order N)) → Good (watch_stored out crypto keeps_alias fuel param orders)
    watch_stored-Good [] = λ t. inl (refl, refl)
    watch_stored-Good (first ∷ orders) =
        let set = set_orders out (first ∷ orders) in
        let w = watching_stored param first orders in
        let watch : Done → Action (Trader N X) Failure Bool =
          λ _. watching_process out crypto keeps_alias fuel w in
        then-Good (on_desk set) watch (on_desk-Keeps set) (λ _. watching_process-Good w takes grids)

    checking_existing_orders-Good :
        Good (checking_existing_orders out crypto keeps_alias fuel param)
    unfolding checking_existing_orders
    checking_existing_orders-Good t =
        let read = get_all_orders_by_index_operation out t.index_operation in
        let watch : List (Order N) → Action (Trader N X) Failure Bool =
          λ orders. watch_stored out crypto keeps_alias fuel param orders in
        then-Good (on_desk read) watch (on_desk-Keeps read) watch_stored-Good t

    continue_session-Good :
        (type_ : TypeSession) → Good (continue_session out crypto keeps_alias fuel type_ param)
    continue_session-Good start_new_trade = start_new_trade_session-Good
    continue_session-Good start_old_trade = checking_existing_orders-Good

    -- after the session is known
    session-Leaves :
        (session : TypeSession × String) (t : Trader N X)
        → active c t ≡ session.1 ∷ []
        → After
            (λ ended u. Left c ended u)
            (λ _ u. AtMostOne (active c u))
            (continue_session out crypto keeps_alias fuel session.0 param
              (record t { index_operation = session.1 }))
    session-Leaves session t only =
        let u : Trader N X = record t { index_operation = session.1 } in
        let run = continue_session out crypto keeps_alias fuel session.0 param u in
        After-mono run (λ ended v known. Left-AfterLoop c u v ended only known)
          (λ _ v may. AtMostOne-MayEnd c u v only may) (continue_session-Good session.0 u)

module _ {N X : Type 0} ⦃num : Number N⦄ (out : Outside N X) (crypto : Crypto X)
    (keeps_alias : Bool) (fuel : ℕ) where
  -- A trading session of a configuration that has at most one active session ends with its own
  -- session as the only active one, or with none and without orders; it is the only active one
  -- while the loop has not ended, and after an error at most one session is active. The logics of
  -- the service do not touch the sessions themselves.
  pub start_trading_session-Left :
      (param : StartAlgorithms N X) (t : Trader N X)
      → TakesKeep param.take_profit_logic
      → GridKeeps param.grid_logic
      → AtMostOne (active t.config.id t)
      → After
          (Left t.config.id)
          (λ _ u. AtMostOne (active t.config.id u))
          (start_trading_session out crypto keeps_alias fuel param t)
  unfolding start_trading_session
  start_trading_session-Left param t takes grids most =
      let c = t.config.id in
      let start = init_trade_session out t.services_config.exchange keeps_alias c in
      let u = (sleep_timeout out 5000 t).1 in
      let continue_with : TypeSession × String → Action (Trader N X) Failure Bool = λ session.
        modify (λ v. record v { index_operation = session.1 })
        >> continue_session out crypto keeps_alias fuel session.0 param in
      let put : Service N X → Trader N X = λ s. record u { service = s } in
      After-bind (Left c) (λ _ v. AtMostOne (active c v)) (λ session v. active c v ≡ session.1 ∷ [])
        (on_service start) continue_with u
        (After-lift (λ session v. active c v ≡ session.1 ∷ []) (λ _ v. AtMostOne (active c v)) put
          (start u.service)
          (init_trade_session-OneActive out t.services_config.exchange keeps_alias c u.service
            most))
        (λ session v only.
          session-Leaves out crypto keeps_alias fuel c param takes grids session v only)

  pub watching_take_profit_logic-Keeps :
      (p : TakeProfit N) → Keeps (watching_take_profit_logic out crypto keeps_alias fuel p)
  unfolding watching_take_profit_logic
  watching_take_profit_logic-Keeps p t =
      let close : Action (Trader N X) Failure (Option Bool) =
        close_position out >>= λ closed. pure (some closed) in
      let track = on_price_tracker out fuel (opposite p.side) in
      let take = if t.config.is_percent_target_after_take_profit then track else close in
      if-Keeps (t.config.percent_profit ≼ p.unrealized_pnl) take (pure (some false))
        (if-Keeps t.config.is_percent_target_after_take_profit track close
          (on_price_tracker-Keeps out fuel (opposite p.side))
          (Keeps-bind (close_position out) (λ closed. pure (some closed)) (close_position-Keeps out)
            (λ _ u. (refl, refl))))
        (λ u. (refl, refl)) t
