-- ===== src/Trading/Trader/Keeps.antt =====
-- What the parts of a trading service leave as it is: its session, and the rows of the sessions.
use tonatiuh_trading_saas.Prelude.{ℕ, Bool, true, false, Option, ◌≡◌, refl, ◌∙◌, if◌then◌else◌}
use tonatiuh_trading_saas.Prelude.Action.{
  Action, Done, catch, modify, ◌>>=◌, After, After-bind, After-mono, After-lift, After-always,
  After-catch,
}
use tonatiuh_trading_saas.Number.{Number}
use tonatiuh_trading_saas.Trading.Types.{Side, SettingOrder}
use tonatiuh_trading_saas.Trading.Outside.{Outside, Failure, Balance}
use tonatiuh_trading_saas.Trading.Exchange as Exchange
use tonatiuh_trading_saas.Trading.Math.{Checked, value, thrown}
use tonatiuh_trading_saas.Trading.Orders.Desk.{Desk}
use tonatiuh_trading_saas.Trading.Orders.Open.{open_position_for_strategy}
use tonatiuh_trading_saas.Trading.SessionService.{Service}
use tonatiuh_trading_saas.Trading.SessionService.Keeps as ServiceKeeps
use tonatiuh_trading_saas.Trading.Settings.Config.{Config}
use tonatiuh_trading_saas.Trading.Settings.Encryption.{Crypto}
use tonatiuh_trading_saas.Trading.Settings.Repository.{Configs, get_config_by_id}
use tonatiuh_trading_saas.Trading.Trader.{
  Trader, put_desk, desk_of, put_venue, on_desk, on_service, on_venue, on_exchange, on_configs,
  checked, get_price, sleep_timeout, open_position, reload_config,
}

module _ {N X : Type 0} where
  abbrev pub Still : Trader N X → Trader N X → Type 0
  Still t u = (u.service.sessions ≡ t.service.sessions) × (u.index_operation ≡ t.index_operation)

  pub Still-trans : (t u v : Trader N X) → Still t u → Still u v → Still t v
  Still-trans t u v (a, b) (c, d) = (c ∙ a, d ∙ b)

  abbrev pub Keeps : {A : Type 0} → Action (Trader N X) Failure A → Type 0
  Keeps m = (t : Trader N X) → After (λ _ u. Still t u) (λ _ u. Still t u) (m t)

  pub Keeps-bind :
      {A B : Type 0} (m : Action (Trader N X) Failure A) (f : A → Action (Trader N X) Failure B)
      → Keeps m
      → ((a : A) → Keeps (f a))
      → Keeps (m >>= f)
  Keeps-bind m f h k t =
      After-bind (λ _ u. Still t u) (λ _ u. Still t u) (λ _ u. Still t u) m f t (h t)
        (λ a u same.
          After-mono (f a u) (λ _ v s. Still-trans t u v same s) (λ _ v s. Still-trans t u v same s)
            (k a u))

  -- what follows an action that keeps the session
  pub Keeps-then :
      {A B : Type 0} (P : B → Trader N X → Type 0) (Q : Failure → Trader N X → Type 0)
      (m : Action (Trader N X) Failure A) (f : A → Action (Trader N X) Failure B) (t : Trader N X)
      → Keeps m
      → ((e : Failure) (u : Trader N X) → Still t u → Q e u)
      → ((a : A) (u : Trader N X) → Still t u → After P Q (f a u))
      → After P Q ((m >>= f) t)
  Keeps-then P Q m f t keeps failed k =
      After-bind P Q (λ _ u. Still t u) m f t (After-mono (m t) (λ _ _ same. same) failed (keeps t))
        k

  pub on_desk-Keeps : {A : Type 0} (m : Action (Desk N X) Failure A) → Keeps (on_desk m)
  on_desk-Keeps m t =
      After-lift (λ _ u. Still t u) (λ _ u. Still t u) (put_desk t) (m (desk_of t))
        (After-always (λ d. Still t (put_desk t d)) (m (desk_of t)) (refl, refl))

  pub on_venue-Keeps : {A : Type 0} (m : Action X Failure A) → Keeps (on_venue m)
  on_venue-Keeps m t =
      After-lift (λ _ u. Still t u) (λ _ u. Still t u) (put_venue t) (m t.service.desk.venue)
        (After-always (λ x. Still t (put_venue t x)) (m t.service.desk.venue) (refl, refl))

  pub on_exchange-Keeps :
      {A : Type 0} (m : Action (Option (Balance N × ℕ) × X) Failure A) → Keeps (on_exchange m)
  on_exchange-Keeps m t =
      let put : Option (Balance N × ℕ) × X → Trader N X =
        λ e. put_venue (record t { balance_cache = e.0 }) e.1 in
      let r = m (t.balance_cache, t.service.desk.venue) in
      After-lift (λ _ u. Still t u) (λ _ u. Still t u) put r
        (After-always (λ e. Still t (put e)) r (refl, refl))

  pub on_configs-Keeps : {A : Type 0} (m : Action (Configs N X) Failure A) → Keeps (on_configs m)
  on_configs-Keeps m t =
      let put : Configs N X → Trader N X = λ s. put_venue (record t { configs = s.rows }) s.venue in
      let r = m (record { rows = t.configs; venue = t.service.desk.venue }) in
      After-lift (λ _ u. Still t u) (λ _ u. Still t u) put r
        (After-always (λ s. Still t (put s)) r (refl, refl))

  pub on_service-Keeps :
      {A : Type 0} (m : Action (Service N X) Failure A)
      → ServiceKeeps.Keeps m
      → Keeps (on_service m)
  on_service-Keeps m keeps t =
      let put : Service N X → Trader N X = λ s. record t { service = s } in
      After-lift (λ _ u. Still t u) (λ _ u. Still t u) put (m t.service)
        (After-mono (m t.service) (λ _ s same. (same, refl)) (λ _ s same. (same, refl))
          (keeps t.service))

  pub checked-Keeps : {A : Type 0} (c : Checked A) → Keeps (checked c)
  checked-Keeps (value a) = λ t. (refl, refl)
  checked-Keeps (thrown e) = λ t. (refl, refl)

  pub if-Keeps :
      {A : Type 0} (b : Bool) (m n : Action (Trader N X) Failure A)
      → Keeps m
      → Keeps n
      → Keeps (if b then m else n)
  if-Keeps true m n h k = h
  if-Keeps false m n h k = k

  pub catch-Keeps :
      {A : Type 0} (m : Action (Trader N X) Failure A) (f : Failure → Action (Trader N X) Failure A)
      → Keeps m
      → ((e : Failure) → Keeps (f e))
      → Keeps (catch m f)
  catch-Keeps m f h k t =
      After-catch (λ _ u. Still t u) (λ _ u. Still t u) (λ _ u. Still t u) m f t (h t)
        (λ e u same.
          After-mono (f e u) (λ _ v s. Still-trans t u v same s) (λ _ v s. Still-trans t u v same s)
            (k e u))

module _ {N X : Type 0} ⦃num : Number N⦄ (out : Outside N X) where
  pub get_price-Keeps : Keeps (get_price out)
  unfolding get_price
  get_price-Keeps t = on_venue-Keeps (Exchange.get_price out t.symbol) t

  pub sleep_timeout-Keeps : (ms : ℕ) → Keeps (sleep_timeout out ms)
  sleep_timeout-Keeps ms t = (refl, refl)

  pub open_position-Keeps :
      (side : Side) (setting : SettingOrder N) → Keeps (open_position out side setting)
  unfolding open_position
  open_position-Keeps side setting t =
      on_desk-Keeps (open_position_for_strategy out side setting t.index_operation) t

  pub reload_config-Keeps :
      (crypto : Crypto X) (config_id : ℕ) → Keeps (reload_config out crypto config_id)
  unfolding reload_config
  reload_config-Keeps crypto config_id =
      let read = get_config_by_id out crypto config_id in
      let store : Config N → Action (Trader N X) Failure Done =
        λ config. modify (λ t. record t { config = config }) in
      Keeps-bind (on_configs read) store (on_configs-Keeps read) (λ _ t. (refl, refl))
