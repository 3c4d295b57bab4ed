-- ===== src/Trading/SessionService/Laws.antt =====
-- One active session at a time.
use tonatiuh_trading_saas.Prelude.{
  ℕ, String, Bool, true, false, not, Option, none, some, List, [], ◌∷◌, ◌++◌, map, filter,
  if◌then◌else◌, last?, find?, ◌≡◌, refl, sym, ap, ◌∙◌, subst, ◌⊎◌, inl, inr, Bool-cases,
}
use text.Mathlib.Text.{◌==◌}
use tonatiuh_trading_saas.Prelude.Action.{
  Action, Done, pure, ◌>>=◌, ◌>>◌, After, After-bind, After-mono,
}
use tonatiuh_trading_saas.Number.{Number, lit}
use tonatiuh_trading_saas.Trading.Types.{Order}
use tonatiuh_trading_saas.Trading.Outside.{Outside, Failure, Balance}
use tonatiuh_trading_saas.Trading.Orders.Desk.{
  get_all_orders_by_index_operation, clearing_order_list, revert_active_state_order,
}
use tonatiuh_trading_saas.Trading.Orders.Publish.{set_orders}
use tonatiuh_trading_saas.Trading.Orders.Rows.{get_profit_for_trade_session}
use tonatiuh_trading_saas.Trading.Reconciliation.{is_session_exposure_closed}
use tonatiuh_trading_saas.Trading.Sessions.{
  SessionRow, Sessions, is_active_of, start_session, checking_active_session, end_trade_session,
}
use tonatiuh_trading_saas.Trading.Sessions.Laws.{
  active_sessions, checking_active_session-Reads, start_session-Adds, end_trade_session-Removes,
}
use tonatiuh_trading_saas.Trading.SessionService.{
  Service, TypeSession, start_new_trade, start_old_trade, on_desk, on_sessions, start_new, recover,
  resume, settle, exposure_of, profit_with, checking_if_closing_order_has_been_created,
  calculate_profit_session, save_balance_state, init_trade_session,
}
use tonatiuh_trading_saas.Trading.SessionService.Keeps.{
  AtMostOne, First, Keeps, Keeps-then, find?-First, on_desk-Keeps, on_sessions-After, only_one,
  remove_only, save_balance_state-Keeps,
}

module _ {N X : Type 0} ⦃num : Number N⦄ (out : Outside N X) (exchange : String)
    (keeps_alias : Bool) (c : ℕ) where
  abbrev pub active : Service N X → List String
  active s = active_sessions c s.sessions

  start_new-Adds :
      (s : Service N X)
      → active s ≡ []
      → After
          (λ a t. active t ≡ a.1 ∷ [])
          (λ _ t. active t ≡ [])
          (start_new out exchange keeps_alias c s)
  start_new-Adds s h =
      let started = start_session out c in
      let finish : String → Action (Service N X) Failure (TypeSession × String) =
        λ index. pure (start_new_trade, index) in
      After-bind (λ a t. active t ≡ a.1 ∷ []) (λ _ t. active t ≡ []) (λ i t. active t ≡ i ∷ [])
        (on_sessions started) finish s
        (on_sessions-After (λ i rows. active_sessions c rows ≡ i ∷ [])
          (λ _ rows. active_sessions c rows ≡ []) started s
          (After-mono (started (record { rows = s.sessions; venue = s.desk.venue }))
            (λ i t e. e ∙ ap (λ l. l ++ i ∷ []) h) (λ _ t e. ap (active_sessions c) e ∙ h)
            (start_session-Adds out c (record { rows = s.sessions; venue = s.desk.venue }))))
        (λ i t e. e)

  profit_with-Keeps :
      (index : String) (orders : List (Order N)) (o : Option (Order N))
      → Keeps (profit_with out exchange keeps_alias index orders o)
  profit_with-Keeps index orders none = λ s. refl
  profit_with-Keeps index orders (some order) =
      on_desk-Keeps (get_profit_for_trade_session out index order.side orders)

  pub calculate_profit_session-Keeps :
      (index : String) (orders : List (Order N))
      → Keeps (calculate_profit_session out exchange keeps_alias index orders)
  unfolding calculate_profit_session
  calculate_profit_session-Keeps index orders = profit_with-Keeps index orders (last? orders)

  pub end_session-Removes :
      (profit : Option N) (index : String) (s : Service N X)
      → After
          (λ _ t. active t ≡ filter (λ i. not (i == index)) (active s))
          (λ _ t. active t ≡ active s)
          (on_sessions (end_trade_session out profit index) s)
  end_session-Removes profit index s =
      let inner : Sessions N X = record { rows = s.sessions; venue = s.desk.venue } in
      let ending = end_trade_session out profit index in
      on_sessions-After
        (λ _ rows. active_sessions c rows ≡ filter (λ i. not (i == index)) (active s))
        (λ _ rows. active_sessions c rows ≡ active s) ending s
        (After-mono (ending inner) (λ _ t known. known) (λ _ t same. ap (active_sessions c) same)
          (end_trade_session-Removes out c profit index inner))

  -- what the recovery of a session leaves active
  abbrev Recovered : String → Service N X → Bool → Service N X → Type 0
  Recovered index s true t = active t ≡ filter (λ i. not (i == index)) (active s)
  Recovered index s false t = active t ≡ active s

  abbrev Either : String → Service N X → Service N X → Type 0
  Either index s t = Recovered index s true t ⊎ Recovered index s false t

  -- after the session ended
  settle-Recovered :
      (index : String) (s t : Service N X)
      → active t ≡ filter (λ i. not (i == index)) (active s)
      → After
          (Recovered index s)
          (λ _ u. Either index s u)
          (settle out exchange keeps_alias index t)
  unfolding clearing_order_list
  settle-Recovered index s t h =
      let clear : Action (Service N X) Failure Done = on_desk clearing_order_list in
      let revert : Action (Service N X) Failure Done =
        on_desk (revert_active_state_order out index) in
      let Q : Failure → Service N X → Type 0 = λ _ u. Either index s u in
      let end : Done → Action (Service N X) Failure Bool = λ _. clear >> pure true in
      Keeps-then (Recovered index s) Q revert end t
        (on_desk-Keeps (revert_active_state_order out index))
        (λ e u same. inl (ap (active_sessions c) same ∙ h))
        (λ _ u same. ap (active_sessions c) same ∙ h)

  completed-Recovered :
      (orders : List (Order N)) (index : String) (s : Service N X)
      → After
          (Recovered index s)
          (λ _ u. Either index s u)
          (checking_if_closing_order_has_been_created out exchange keeps_alias orders index s)
  unfolding checking_if_closing_order_has_been_created
  completed-Recovered orders index s =
      let P : Bool → Service N X → Type 0 = Recovered index s in
      let Q : Failure → Service N X → Type 0 = λ _ u. Either index s u in
      let save : Option N → Action (Service N X) Failure (Option (Balance N)) =
        λ profit. save_balance_state out exchange keeps_alias profit orders in
      let ending : Option N → Action (Service N X) Failure Done =
        λ profit. on_sessions (end_trade_session out profit index) in
      let finish : Done → Action (Service N X) Failure Bool =
        λ _. settle out exchange keeps_alias index in
      let saved : Option N → Option (Balance N) → Action (Service N X) Failure Bool =
        λ profit _. ending profit >>= finish in
      let calculated : Option N → Action (Service N X) Failure Bool =
        λ profit. save profit >>= saved profit in
      elim (Bool-cases (is_session_exposure_closed (map exposure_of orders))) [
        | inr unsettled ↦ rw unsettled refl
        | inl closed ↦ rw closed (
            Keeps-then P Q (calculate_profit_session out exchange keeps_alias index orders)
              calculated s (calculate_profit_session-Keeps index orders)
              (λ e t same. inr (ap (active_sessions c) same))
              (λ profit t same.
                Keeps-then P Q (save profit) (saved profit) t
                  (save_balance_state-Keeps out exchange keeps_alias profit orders)
                  (λ e u same'. inr (ap (active_sessions c) (same' ∙ same)))
                  (λ _ u same'.
                    let still : active u ≡ active s = ap (active_sessions c) (same' ∙ same) in
                    After-bind P Q (λ _ v. active v ≡ filter (λ i. not (i == index)) (active s))
                      (ending profit) finish u
                      (After-mono (ending profit u)
                        (λ _ v e. e ∙ ap (λ l. filter (λ i. not (i == index)) l) still)
                        (λ _ v e. inr (e ∙ still)) (end_session-Removes profit index u))
                      (λ _ v removed. settle-Recovered index s v removed))))
      ]

  -- after the check: a new session, or the old one
  next-One :
      (index : String) (o : Order N) (os : List (Order N)) (s t : Service N X) (completed : Bool)
      → active s ≡ index ∷ []
      → filter (λ i. not (i == index)) (active s) ≡ []
      → Recovered index s completed t
      → After
          (λ a u. active u ≡ a.1 ∷ [])
          (λ _ u. AtMostOne (active u))
          ((if completed
              then start_new out exchange keeps_alias c
              else on_desk (set_orders out (o ∷ os)) >> pure (start_old_trade, index))
            t)
  next-One index o os s t true h removed known =
      After-mono (start_new out exchange keeps_alias c t) (λ _ u e. e) (λ _ u e. inl e)
        (start_new-Adds t (known ∙ removed))
  next-One index o os s t false h removed known =
      let old : Done → Action (Service N X) Failure (TypeSession × String) =
        λ _. pure (start_old_trade, index) in
      Keeps-then (λ a u. active u ≡ a.1 ∷ []) (λ _ u. AtMostOne (active u))
        (on_desk (set_orders out (o ∷ os))) old t (on_desk-Keeps (set_orders out (o ∷ os)))
        (λ e u same. inr (index, ap (active_sessions c) same ∙ known ∙ h))
        (λ _ u same. ap (active_sessions c) same ∙ known ∙ h)

  recover-One :
      (index : String) (orders : List (Order N)) (s : Service N X)
      → active s ≡ index ∷ []
      → After
          (λ a t. active t ≡ a.1 ∷ [])
          (λ _ t. AtMostOne (active t))
          (recover out exchange keeps_alias c index orders s)
  recover-One index [] s h =
      let P : TypeSession × String → Service N X → Type 0 = λ a t. active t ≡ a.1 ∷ [] in
      let Q : Failure → Service N X → Type 0 = λ _ t. AtMostOne (active t) in
      let ending : Action (Service N X) Failure Done =
        on_sessions (end_trade_session out (some (lit 0)) index) in
      let again : Done → Action (Service N X) Failure (TypeSession × String) =
        λ _. start_new out exchange keeps_alias c in
      After-bind P Q (λ _ t. active t ≡ []) ending again s
        (After-mono (ending s)
          (λ _ t e. e ∙ ap (λ l. filter (λ i. not (i == index)) l) h ∙ remove_only index)
          (λ _ t e. inr (index, e ∙ h)) (end_session-Removes (some (lit 0)) index s))
        (λ _ t none_left.
          After-mono (start_new out exchange keeps_alias c t) (λ _ u e. e) (λ _ u e. inl e)
            (start_new-Adds t none_left))
  recover-One index (o ∷ os) s h =
      let P : TypeSession × String → Service N X → Type 0 = λ a t. active t ≡ a.1 ∷ [] in
      let Q : Failure → Service N X → Type 0 = λ _ t. AtMostOne (active t) in
      let removed : filter (λ i. not (i == index)) (active s) ≡ [] =
        ap (λ l. filter (λ i. not (i == index)) l) h ∙ remove_only index in
      let old : Action (Service N X) Failure (TypeSession × String) =
        on_desk (set_orders out (o ∷ os)) >> pure (start_old_trade, index) in
      let next : Bool → Action (Service N X) Failure (TypeSession × String) =
        λ completed. if completed then start_new out exchange keeps_alias c else old in
      let check =
        checking_if_closing_order_has_been_created out exchange keeps_alias (o ∷ os) index in
      After-bind P Q (Recovered index s) check next s
        (After-mono (check s) (λ _ t known. known)
          (λ _ t known. elim known [
            | inl gone ↦ inl (gone ∙ removed)
            | inr kept ↦ inr (index, kept ∙ h)
          ])
          (completed-Recovered (o ∷ os) index s))
        (λ completed t known. next-One index o os s t completed h removed known)

  resume-One :
      (o : Option (SessionRow N)) (s : Service N X)
      → First c s.sessions o
      → AtMostOne (active s)
      → After
          (λ a t. active t ≡ a.1 ∷ [])
          (λ _ t. AtMostOne (active t))
          (resume out exchange keeps_alias c o s)
  resume-One none s first most =
      After-mono (start_new out exchange keeps_alias c s) (λ _ u e. e) (λ _ u e. inl e)
        (start_new-Adds s first)
  resume-One (some r) s (rest, first) most =
      let index = r.index_session in
      let only : active s ≡ index ∷ [] =
        first ∙ ap (λ l. index ∷ l) (only_one index rest (subst AtMostOne first most)) in
      let read = get_all_orders_by_index_operation out index in
      let next : List (Order N) → Action (Service N X) Failure (TypeSession × String) =
        λ orders. recover out exchange keeps_alias c index orders in
      Keeps-then (λ a t. active t ≡ a.1 ∷ []) (λ _ t. AtMostOne (active t)) (on_desk read) next s
        (on_desk-Keeps read) (λ e t same. inr (index, ap (active_sessions c) same ∙ only))
        (λ orders t same. recover-One index orders t (ap (active_sessions c) same ∙ only))

  -- Starting a trade session of a configuration that has at most one active session: the returned
  -- session is its only active one, and after an error it has at most one.
  pub init_trade_session-OneActive :
      (s : Service N X)
      → AtMostOne (active s)
      → After
          (λ a t. active t ≡ a.1 ∷ [])
          (λ _ t. AtMostOne (active t))
          (init_trade_session out exchange keeps_alias c s)
  unfolding init_trade_session
  init_trade_session-OneActive s most =
      let inner : Sessions N X = record { rows = s.sessions; venue = s.desk.venue } in
      let check = checking_active_session out c in
      let next : Option (SessionRow N) → Action (Service N X) Failure (TypeSession × String) =
        λ o. resume out exchange keeps_alias c o in
      let moved : (rows : List (SessionRow N))
          → rows ≡ s.sessions
          → AtMostOne (active_sessions c rows) =
        λ rows same. subst (λ l. AtMostOne (active_sessions c l)) (sym same) most in
      After-bind (λ a t. active t ≡ a.1 ∷ []) (λ _ t. AtMostOne (active t))
        (λ o t. First c t.sessions o × AtMostOne (active t)) (on_sessions check) next s
        (on_sessions-After (λ o rows. First c rows o × AtMostOne (active_sessions c rows))
          (λ _ rows. AtMostOne (active_sessions c rows)) check s
          (After-mono (check inner)
            (λ o t known. (
              subst (First c t.rows)
                  (ap (λ rows. find? (is_active_of c) rows) known.1 ∙ sym known.0)
                  (find?-First c t.rows),
              moved t.rows known.1,
            ))
            (λ _ t same. moved t.rows same) (checking_active_session-Reads out c inner)))
        (λ o t known. resume-One o t known.0 known.1)
