-- ===== src/Trading/SessionService/Keeps.antt =====
-- What the parts of the session service leave as it is.
use tonatiuh_trading_saas.Prelude.{
  ℕ, String, Bool, not, Option, none, some, List, [], ◌∷◌, filter, find?, ◌≡◌, refl, sym, ◌∙◌,
  subst, arith, ◌⊎◌, inl, inr, Bool-cases,
}
use text.Mathlib.Text.{◌==◌}
use text.Mathlib.TextPositions.{eq_refl}
use tonatiuh_trading_saas.Prelude.Action.{
  Action, Done, pure, ◌>>=◌, After, After-bind, After-lift, After-mono, After-always,
}
use tonatiuh_trading_saas.Number.{Number, lit}
use tonatiuh_trading_saas.Trading.Types.{Order}
use tonatiuh_trading_saas.Trading.Outside.{Outside, Failure, Balance}
use tonatiuh_trading_saas.Trading.Orders.Desk.{Desk}
use tonatiuh_trading_saas.Trading.Balances.{
  Balances, StateBalance, create_state_balance, get_balance as latest_balance,
}
use tonatiuh_trading_saas.Trading.Exchange.{get_balance as exchange_balance}
use tonatiuh_trading_saas.Trading.Sessions.{
  get_all_profit_session, SessionRow, Sessions, is_active_of,
}
use tonatiuh_trading_saas.Trading.Sessions.Laws.{active_sessions, get_all_profit_session-Reads}
use tonatiuh_trading_saas.Trading.SessionService.{
  Service, save_balance, state_balance, next_profit_usdt, gain, null_as_zero, on_desk, on_sessions,
  on_balances, on_exchange, save_balance_state, usdt_of,
}

-- at most one, and taking it out
abbrev pub AtMostOne : List String → Type 0
AtMostOne active = (active ≡ []) ⊎ ((i : String) × (active ≡ i ∷ []))

module _ {N : Type 0} where
  -- the first active session of a configuration, as a row is found or not
  abbrev pub First : ℕ → List (SessionRow N) → Option (SessionRow N) → Type 0
  First c rows none = active_sessions c rows ≡ []
  First c rows (some r) = (rest : List String) × (active_sessions c rows ≡ r.index_session ∷ rest)

  First-idle :
      (c : ℕ) (q : SessionRow N) (rows : List (SessionRow N)) (o : Option (SessionRow N))
      → active_sessions c (q ∷ rows) ≡ active_sessions c rows
      → First c rows o
      → First c (q ∷ rows) o
  First-idle c q rows none same h = same ∙ h
  First-idle c q rows (some r) same (rest, h) = (rest, same ∙ h)

  pub find?-First :
      (c : ℕ) (rows : List (SessionRow N)) → First c rows (find? (is_active_of c) rows)
  find?-First c [] = refl
  find?-First c (q ∷ rows) = elim (Bool-cases (is_active_of c q)) [
    | inl active ↦
        let shape : active_sessions c (q ∷ rows) ≡ q.index_session ∷ active_sessions c rows =
          ground arith in
        let found : find? (is_active_of c) (q ∷ rows) ≡ some q = ground arith in
        subst (First c (q ∷ rows)) (sym found) (active_sessions c rows, shape)
    | inr idle ↦
        let shape : active_sessions c (q ∷ rows) ≡ active_sessions c rows = ground arith in
        let found : find? (is_active_of c) (q ∷ rows) ≡ find? (is_active_of c) rows =
          ground arith in
        subst (First c (q ∷ rows)) (sym found)
          (First-idle c q rows (find? (is_active_of c) rows) shape (find?-First c rows))
  ]

pub remove_only : (i : String) → filter (λ j. not (j == i)) (i ∷ []) ≡ []
remove_only i = rw (eq_refl i) refl

pub only_one : (i : String) (rest : List String) → AtMostOne (i ∷ rest) → rest ≡ []
only_one i rest (inl e) = absurd (ground arith)
only_one i rest (inr (j, e)) = ground arith

module _ {N X : Type 0} where
  -- the active sessions after an action on the sessions
  pub on_sessions-After :
      {A : Type 0} (P : A → List (SessionRow N) → Type 0)
      (Q : Failure → List (SessionRow N) → Type 0) (m : Action (Sessions N X) Failure A)
      (s : Service N X)
      → After
          (λ a t. P a t.rows)
          (λ e t. Q e t.rows)
          (m (record { rows = s.sessions; venue = s.desk.venue }))
      → After (λ a t. P a t.sessions) (λ e t. Q e t.sessions) (on_sessions m s)
  on_sessions-After P Q m s h =
      After-lift (λ a t. P a t.sessions) (λ e t. Q e t.sessions)
        (λ t. record s { sessions = t.rows; desk = record s.desk { venue = t.venue } })
        (m (record { rows = s.sessions; venue = s.desk.venue })) h

  -- an action that leaves the rows of the sessions as they are
  abbrev pub Keeps : {A : Type 0} → Action (Service N X) Failure A → Type 0
  Keeps m =
      (s : Service N X)
      → After (λ _ t. t.sessions ≡ s.sessions) (λ _ t. t.sessions ≡ s.sessions) (m s)

  Keeps-bind :
      {A B : Type 0} (m : Action (Service N X) Failure A) (f : A → Action (Service N X) Failure B)
      → Keeps m
      → ((a : A) → Keeps (f a))
      → Keeps (m >>= f)
  Keeps-bind m f h k s =
      After-bind (λ _ t. t.sessions ≡ s.sessions) (λ _ t. t.sessions ≡ s.sessions)
        (λ _ t. t.sessions ≡ s.sessions) m f s (h s)
        (λ a t same. After-mono (f a t) (λ _ u e. e ∙ same) (λ _ u e. e ∙ same) (k a t))

  -- what follows an action that keeps the sessions
  pub Keeps-then :
      {A B : Type 0} (P : B → Service N X → Type 0) (Q : Failure → Service N X → Type 0)
      (m : Action (Service N X) Failure A) (f : A → Action (Service N X) Failure B)
      (s : Service N X)
      → Keeps m
      → ((e : Failure) (t : Service N X) → t.sessions ≡ s.sessions → Q e t)
      → ((a : A) (t : Service N X) → t.sessions ≡ s.sessions → After P Q (f a t))
      → After P Q ((m >>= f) s)
  Keeps-then P Q m f s keeps failed k =
      After-bind P Q (λ _ t. t.sessions ≡ s.sessions) m f s
        (After-mono (m s) (λ _ _ same. same) failed (keeps s)) k

  pub on_desk-Keeps : {A : Type 0} (m : Action (Desk N X) Failure A) → Keeps (on_desk m)
  on_desk-Keeps m s =
      After-lift (λ _ t. t.sessions ≡ s.sessions) (λ _ t. t.sessions ≡ s.sessions)
        (λ d. record s { desk = d }) (m s.desk)
        (After-always (λ _. s.sessions ≡ s.sessions) (m s.desk) refl)

  on_balances-Keeps : {A : Type 0} (m : Action (Balances N X) Failure A) → Keeps (on_balances m)
  on_balances-Keeps m s =
      let r = m (record { rows = s.balances; venue = s.desk.venue }) in
      After-lift (λ _ t. t.sessions ≡ s.sessions) (λ _ t. t.sessions ≡ s.sessions)
        (λ b. record s { balances = b.rows; desk = record s.desk { venue = b.venue } }) r
        (After-always (λ _. s.sessions ≡ s.sessions) r refl)

  on_exchange-Keeps :
      {A : Type 0} (m : Action (Option (Balance N × ℕ) × X) Failure A) → Keeps (on_exchange m)
  on_exchange-Keeps m s =
      let r = m (s.balance_cache, s.desk.venue) in
      After-lift (λ _ t. t.sessions ≡ s.sessions) (λ _ t. t.sessions ≡ s.sessions)
        (λ e. record s { balance_cache = e.0; desk = record s.desk { venue = e.1 } }) r
        (After-always (λ _. s.sessions ≡ s.sessions) r refl)

module _ {N X : Type 0} ⦃num : Number N⦄ (out : Outside N X) (exchange : String)
    (keeps_alias : Bool) where
  get_all_profit_session-Keeps : Keeps (on_sessions (get_all_profit_session out))
  get_all_profit_session-Keeps s =
      let inner : Sessions N X = record { rows = s.sessions; venue = s.desk.venue } in
      let all_profit = get_all_profit_session out in
      on_sessions-After (λ _ rows. rows ≡ s.sessions) (λ _ rows. rows ≡ s.sessions) all_profit s
        (After-mono (all_profit inner) (λ _ t known. known.1) (λ _ t same. same)
          (get_all_profit_session-Reads out inner))

  usdt_of-Keeps : (usdt : Option N) → Keeps (usdt_of out exchange keeps_alias usdt)
  usdt_of-Keeps none = λ s. refl
  usdt_of-Keeps (some usdt) = λ s. refl

  save_balance-Keeps :
      (balance : Balance N) (existing : Option (StateBalance N)) (profit : Option N)
      (first : Order N)
      → Keeps (save_balance out exchange keeps_alias balance existing profit first)
  save_balance-Keeps balance none profit first =
      let read = usdt_of out exchange keeps_alias (balance.free "USDT") in
      let create : N → Action (Balances N X) Failure Done = λ usdt.
        create_state_balance out
          (state_balance out exchange keeps_alias balance usdt (lit 0) (lit 0)) in
      let end : Done → Action (Service N X) Failure (Option (Balance N)) = λ _. pure none in
      Keeps-bind read (λ usdt. on_balances (create usdt) >>= end)
        (usdt_of-Keeps (balance.free "USDT"))
        (λ usdt.
          Keeps-bind (on_balances (create usdt)) end (on_balances-Keeps (create usdt))
            (λ _ s. refl))
  save_balance-Keeps balance (some _) profit first =
      let read = usdt_of out exchange keeps_alias (balance.free "USDT") in
      let write : Option N → N → Option (StateBalance N) → Action (Balances N X) Failure Done =
        λ all usdt prev. create_state_balance out (
          state_balance out exchange keeps_alias balance usdt (null_as_zero all) (
            next_profit_usdt out exchange keeps_alias prev
              (gain out exchange keeps_alias profit first))) in
      let end : Done → Action (Service N X) Failure (Option (Balance N)) =
        λ _. pure (some balance) in
      let after_prev : Option N
          → N
          → Option (StateBalance N)
          → Action (Service N X) Failure (Option (Balance N)) =
        λ all usdt prev. on_balances (write all usdt prev) >>= end in
      let after_usdt : Option N → N → Action (Service N X) Failure (Option (Balance N)) =
        λ all usdt. on_balances (latest_balance out) >>= after_prev all usdt in
      let after_all : Option N → Action (Service N X) Failure (Option (Balance N)) =
        λ all. read >>= after_usdt all in
      Keeps-bind (on_sessions (get_all_profit_session out)) after_all get_all_profit_session-Keeps
        (λ all. Keeps-bind read (after_usdt all) (usdt_of-Keeps (balance.free "USDT")) (λ usdt.
          Keeps-bind (on_balances (latest_balance out)) (after_prev all usdt)
            (on_balances-Keeps (latest_balance out))
            (λ prev.
              Keeps-bind (on_balances (write all usdt prev)) end
                (on_balances-Keeps (write all usdt prev)) (λ _ s. refl))))

  save_orders-Keeps :
      (profit : Option N) (balance : Balance N) (existing : Option (StateBalance N))
      (orders : List (Order N))
      → Keeps (elim orders as (λ _. Action (Service N X) Failure (Option (Balance N))) [
        | [] ↦ pure none
        | first ∷ _ ↦ save_balance out exchange keeps_alias balance existing profit first
      ])
  save_orders-Keeps profit balance existing [] = λ s. refl
  save_orders-Keeps profit balance existing (o ∷ os) = save_balance-Keeps balance existing profit o

  pub save_balance_state-Keeps :
      (profit : Option N) (orders : List (Order N))
      → Keeps (save_balance_state out exchange keeps_alias profit orders)
  unfolding save_balance_state
  save_balance_state-Keeps profit orders =
      let rest : Balance N
          → Option (StateBalance N)
          → Action (Service N X) Failure (Option (Balance N)) =
        λ balance existing. elim orders [
          | [] ↦ pure none
          | first ∷ _ ↦ save_balance out exchange keeps_alias balance existing profit first
        ] in
      let after_balance : Balance N → Action (Service N X) Failure (Option (Balance N)) =
        λ balance. on_balances (latest_balance out) >>= rest balance in
      Keeps-bind (on_exchange (exchange_balance out)) after_balance
        (on_exchange-Keeps (exchange_balance out))
        (λ balance.
          Keeps-bind (on_balances (latest_balance out)) (rest balance)
            (on_balances-Keeps (latest_balance out))
            (λ existing. save_orders-Keeps profit balance existing orders))
