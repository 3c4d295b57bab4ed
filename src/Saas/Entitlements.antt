-- ===== src/Saas/Entitlements.antt =====
-- What the plan of an organization allows: src/saas/entitlements/catalog.ts and service.ts, with the
-- transactions of src/saas/trading that ask for it. Transactions of one organization on one resource
-- hold its lock and so stand one after the other. The connection to the database does not fail.
pub mod Laws
mod Tests
use tonatiuh_trading_saas.Prelude.{
  ℕ, suc, ◌+◌, ◌-◌, String, Bool, true, false, not, ◌&&◌, ◌||◌, Option, none, some, List, [], ◌∷◌,
  length, filter, if◌then◌else◌, ltb, leb,
}
use tonatiuh_trading_saas.Prelude.Action.{
  Result, ok, err, Action, Done, pure, throw, when, modify, ◌>>=◌, ◌>>◌,
}
use tonatiuh_trading_saas.Prelude.Maps.{Map, lookup, set, nat_key}

pub data PlanId : Type 0 where
  free pro : PlanId

pub record Entitlements : Type 0 where
  pub max_exchange_connections : ℕ
  pub max_bots : ℕ
  pub max_members : ℕ
  pub monthly_bot_commands : ℕ
  pub live_trading : Bool

abbrev pub plan_catalog : PlanId → Entitlements
plan_catalog free = record {
  max_exchange_connections = 1;
  max_bots = 1;
  max_members = 1;
  monthly_bot_commands = 0;
  live_trading = false;
}
plan_catalog pro = record {
  max_exchange_connections = 5;
  max_bots = 10;
  max_members = 10;
  monthly_bot_commands = 10000;
  live_trading = true;
}

-- the values of the column `status` of `subscriptions`
pub data SubscriptionStatus : Type 0 where
  inactive active past_due cancelled : SubscriptionStatus

-- the columns of `subscriptions` that are read
pub record Subscription : Type 0 where
  pub plan : PlanId
  pub status : SubscriptionStatus
  pub current_period_end : Option ℕ
  pub grace_period_end : Option ℕ

-- the columns of `organization_invitations` that are read
pub record Invitation : Type 0 where
  pub accepted : Bool
  pub revoked : Bool
  pub expires_at : ℕ

-- The rows of one organization; of most tables their number. `usage` has the quantity of
-- BOT_COMMANDS for each month.
pub record Rows : Type 0 where
  pub subscription : Option Subscription
  pub exchange_connections : ℕ
  pub bots : ℕ
  pub memberships : ℕ
  pub invitations : List Invitation
  pub usage : Map ℕ ℕ

-- The rows, and the denials that the process has counted.
pub record Tenant : Type 0 where
  pub rows : Rows
  pub denials : List (String × PlanId)

-- the errors of these services; `refused` is one of the database or of another check of a request
pub data Denied : Type 0 where
  quota_exceeded : String → PlanId → ℕ → ℕ → Denied
  entitlement_required : String → PlanId → Denied
  not_found refused : Denied

-- `saasTransaction`: what is thrown undoes the rows, and no counter of the process
unfoldable pub transaction : {A : Type 0} → Action Tenant Denied A → Action Tenant Denied A
transaction work t =
    let (r, u) = work t in elim r [ ok a ↦ (ok a, u) | err e ↦ (err e, record u { rows = t.rows }) ]

-- `status IN ('ACTIVE','PAST_DUE')`
abbrev is_current : SubscriptionStatus → Bool
is_current active = true
is_current past_due = true
is_current inactive = false
is_current cancelled = false

-- `column>now()`, which a missing time is not
abbrev is_after : ℕ → Option ℕ → Bool
is_after now none = false
is_after now (some time) = ltb now time

abbrev selected : ℕ → Subscription → Bool
selected now s =
    is_current s.status && (is_after now s.current_period_end || is_after now s.grace_period_end)

unfoldable pub active_plan : ℕ → Option Subscription → PlanId
active_plan now none = free
active_plan now (some s) = if selected now s then s.plan else free

abbrev pub record_quota_denial : String → PlanId → Action Tenant Denied Done
record_quota_denial resource plan =
    modify (λ t. record t { denials = (resource, plan) ∷ t.denials })

abbrev pub exceeded : {A : Type 0} → String → PlanId → ℕ → ℕ → Action Tenant Denied A
exceeded resource plan limit current = do
  record_quota_denial resource plan
  throw (quota_exceeded resource plan limit current)

pub data Resource : Type 0 where
  exchange_connection bot : Resource

abbrev resource_text : Resource → String
resource_text exchange_connection = "exchangeConnections"
resource_text bot = "bots"

abbrev pub limit_of : Resource → Entitlements → ℕ
limit_of exchange_connection e = e.max_exchange_connections
limit_of bot e = e.max_bots

abbrev pub count_of : Resource → Rows → ℕ
count_of exchange_connection rows = rows.exchange_connections
count_of bot rows = rows.bots

unfoldable pub enforce_resource_quota : ℕ → Resource → Action Tenant Denied (PlanId × Entitlements)
enforce_resource_quota now resource t =
    let plan = active_plan now t.rows.subscription in
    let limit = limit_of resource (plan_catalog plan) in
    (if leb limit (count_of resource t.rows)
        then exceeded (resource_text resource) plan limit (count_of resource t.rows)
        else pure (plan, plan_catalog plan))
      t

abbrev pub is_open : ℕ → Invitation → Bool
is_open now i = not i.accepted && not i.revoked && ltb now i.expires_at

abbrev pub count_members : ℕ → Rows → ℕ
count_members now rows = rows.memberships + length (filter (is_open now) rows.invitations)

unfoldable pub enforce_member_quota : ℕ → Action Tenant Denied Done
enforce_member_quota now t =
    let plan = active_plan now t.rows.subscription in
    let limit = (plan_catalog plan).max_members in
    (if leb limit (count_members now t.rows)
        then exceeded "members" plan limit (count_members now t.rows)
        else pure tt)
      t

-- what a month has used
abbrev pub used : Map ℕ ℕ → ℕ → ℕ
used usage month = elim (lookup usage month) [ none ↦ 0 | some quantity ↦ quantity ]

-- after the plan was seen to have live trading
abbrev pub count_command : PlanId → ℕ → Action Tenant Denied Done
count_command plan month t =
    let quantity = suc (used t.rows.usage month) in
    let limit = (plan_catalog plan).monthly_bot_commands in
    (do
      modify (λ u. record u { rows = record u.rows { usage = set u.rows.usage month quantity } })
      when (ltb limit quantity) (exceeded "monthlyBotCommands" plan limit (quantity - 1)))
      t

abbrev pub no_live_trading : PlanId → Action Tenant Denied Done
no_live_trading plan = do
  record_quota_denial "liveTrading" plan
  throw (entitlement_required "liveTrading" plan)

-- `month_of` is `date_trunc('month', now())`.
unfoldable pub consume_bot_command : (ℕ → ℕ) → ℕ → Action Tenant Denied Done
consume_bot_command month_of now t =
    let plan = active_plan now t.rows.subscription in
    (if (plan_catalog plan).live_trading
        then count_command plan (month_of now)
        else no_live_trading plan)
      t

-- The row of a new bot or connection, which the database or a check of its columns may refuse.
abbrev pub insert : Resource → Bool → Action Tenant Denied Done
insert resource false = throw refused
insert exchange_connection true = modify (λ t. record t {
  rows = record t.rows { exchange_connections = suc t.rows.exchange_connections };
})
insert bot true = modify (λ t. record t { rows = record t.rows { bots = suc t.rows.bots } })

unfoldable pub create_exchange : ℕ → Bool → Action Tenant Denied Done
create_exchange now accepted =
    transaction
      (do enforce_resource_quota now exchange_connection; insert exchange_connection accepted)

-- `connected`: the enabled connection that the request names was found
unfoldable pub create_bot : ℕ → Bool → Bool → Action Tenant Denied Done
create_bot now connected accepted =
    transaction (do
      enforce_resource_quota now bot
      when (not connected) (throw not_found)
      insert bot accepted)
