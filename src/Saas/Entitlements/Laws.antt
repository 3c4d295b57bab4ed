-- ===== src/Saas/Entitlements/Laws.antt =====
-- What the quotas of a plan guarantee.
use tonatiuh_trading_saas.Prelude.{
  ℕ, suc, ◌≤◌, ◌<◌, Bool, true, false, List, [], ◌∷◌, ◌≡◌, refl, sym, subst, inl, inr, arith, ap,
  not, if◌then◌else◌, Bool-cases, All, leb, ltb,
}
use tonatiuh_trading_saas.Prelude.Action.{
  Result, ok, err, Done, Action, After, After-mono, After-bind, when, throw, ◌>>◌, ◌>>=◌,
}
use tonatiuh_trading_saas.Prelude.Maps.{set, nat_key, All-set}
use tonatiuh_trading_saas.Saas.Entitlements.{
  PlanId, free, pro, plan_catalog, Rows, Tenant, Denied, transaction, active_plan, Resource,
  exchange_connection, bot, limit_of, count_of, enforce_resource_quota, used, consume_bot_command,
  create_exchange, create_bot, Entitlements, not_found, insert, count_command, no_live_trading,
}

abbrev pub plan_of : ℕ → Tenant → PlanId
plan_of now t = active_plan now t.rows.subscription

abbrev pub one_more : Resource → Rows → Rows
one_more exchange_connection rows = record rows {
  exchange_connections = suc rows.exchange_connections;
}
one_more bot rows = record rows { bots = suc rows.bots }

-- a row more, of which the plan had room
abbrev pub Created : Resource → ℕ → Tenant → Tenant → Type 0
Created resource now t u =
    (u.rows ≡ one_more resource t.rows)
    × (count_of resource t.rows < limit_of resource (plan_catalog (plan_of now t)))

abbrev Nothing : Denied → Tenant → Type 0
Nothing _ _ = Unit {0}

transaction-After :
    {A : Type 0} (P : A → Tenant → Type 0) (work : Action Tenant Denied A) (t : Tenant)
    → After P Nothing (work t)
    → After P (λ _ u. u.rows ≡ t.rows) (transaction work t)
unfolding transaction
transaction-After {A} P work t = go (work t)
  where
    go :
        (r : Result Denied A × Tenant)
        → After P Nothing r
        → After {E = Denied} P
            (λ _ u. u.rows ≡ t.rows)
            (elim r.0 [ ok a ↦ (ok a, r.1) | err e ↦ (err e, record r.1 { rows = t.rows }) ])
    go (ok a, u) h = h
    go (err e, u) h = refl

abbrev Room : Resource → ℕ → Tenant → Tenant → Type 0
Room resource now t u =
    (u ≡ t) × (count_of resource t.rows < limit_of resource (plan_catalog (plan_of now t)))

enforce_resource_quota-Room :
    (now : ℕ) (resource : Resource) (t : Tenant)
    → After (λ _ u. Room resource now t u) Nothing (enforce_resource_quota now resource t)
unfolding enforce_resource_quota
enforce_resource_quota-Room now resource t =
    let limit = limit_of resource (plan_catalog (plan_of now t)) in
    elim (Bool-cases (leb limit (count_of resource t.rows))) [
      | inl full ↦ rw full tt
      | inr room ↦ rw room (refl, ground arith)
    ]

insert-Adds :
    (resource : Resource) (accepted : Bool) (now : ℕ) (t u : Tenant)
    → Room resource now t u
    → After (λ _ v. Created resource now t v) Nothing (insert resource accepted u)
insert-Adds resource false now t u h = tt
insert-Adds exchange_connection true now t u (same, room) =
    (ap (λ v. one_more exchange_connection v.rows) same, room)
insert-Adds bot true now t u (same, room) = (ap (λ v. one_more bot v.rows) same, room)

connect-Adds :
    (connected accepted : Bool) (now : ℕ) (t u : Tenant)
    → Room bot now t u
    → After
        (λ _ v. Created bot now t v)
        Nothing
        ((when (not connected) (throw not_found) >> insert bot accepted) u)
connect-Adds false accepted now t u h = tt
connect-Adds true accepted now t u h = insert-Adds bot accepted now t u h

-- A new bot is one row more of an organization whose plan had room for it; when creating it fails,
-- the rows are those of before.
pub create_bot-Creates :
    (now : ℕ) (connected accepted : Bool) (t : Tenant)
    → After
        (λ _ u. Created bot now t u)
        (λ _ u. u.rows ≡ t.rows)
        (create_bot now connected accepted t)
unfolding create_bot
create_bot-Creates now connected accepted t =
    let rest : PlanId × Entitlements → Action Tenant Denied Done =
      λ _. when (not connected) (throw not_found) >> insert bot accepted in
    transaction-After (λ _ u. Created bot now t u) (enforce_resource_quota now bot >>= rest) t
      (After-bind (λ _ u. Created bot now t u) Nothing (λ _ u. Room bot now t u)
        (enforce_resource_quota now bot) rest t (enforce_resource_quota-Room now bot t)
        (λ _ u h. connect-Adds connected accepted now t u h))

create_exchange-Creates :
    (now : ℕ) (accepted : Bool) (t : Tenant)
    → After
        (λ _ u. Created exchange_connection now t u)
        (λ _ u. u.rows ≡ t.rows)
        (create_exchange now accepted t)
unfolding create_exchange
create_exchange-Creates now accepted t =
    let rest : PlanId × Entitlements → Action Tenant Denied Done =
      λ _. insert exchange_connection accepted in
    transaction-After (λ _ u. Created exchange_connection now t u)
      (enforce_resource_quota now exchange_connection >>= rest) t
      (After-bind (λ _ u. Created exchange_connection now t u) Nothing
        (λ _ u. Room exchange_connection now t u) (enforce_resource_quota now exchange_connection)
        rest t (enforce_resource_quota-Room now exchange_connection t)
        (λ _ u h. insert-Adds exchange_connection accepted now t u h))

-- one command more in the month, of the paid plan, which had one left
abbrev pub Spent : (ℕ → ℕ) → ℕ → Tenant → Tenant → Type 0
Spent month_of now t u =
    (plan_of now t ≡ pro)
    × (used t.rows.usage (month_of now) < 10000)
    × (u.rows ≡ record t.rows {
      usage = set t.rows.usage (month_of now) (suc (used t.rows.usage (month_of now)));
    })

count_command-Spends :
    (plan : PlanId) (month_of : ℕ → ℕ) (now : ℕ) (t : Tenant)
    → plan_of now t ≡ plan
    → After
        (λ _ u. Spent month_of now t u)
        Nothing
        ((if (plan_catalog plan).live_trading
            then count_command plan (month_of now)
            else no_live_trading plan)
          t)
count_command-Spends free month_of now t same = tt
count_command-Spends pro month_of now t same =
    elim (Bool-cases (ltb 10000 (suc (used t.rows.usage (month_of now))))) [
      | inl over ↦ rw over tt
      | inr left ↦ rw left (same, ground arith, refl)
    ]

-- A bot command that is counted is of the paid plan, the month had less than ten thousand before
-- it, and its count is one more. A command that is denied leaves the rows as they were, though it
-- counts the command before it compares.
pub consume_bot_command-Spends :
    (month_of : ℕ → ℕ) (now : ℕ) (t : Tenant)
    → After
        (λ _ u. Spent month_of now t u)
        (λ _ u. u.rows ≡ t.rows)
        (transaction (consume_bot_command month_of now) t)
unfolding consume_bot_command
consume_bot_command-Spends month_of now t =
    transaction-After (λ _ u. Spent month_of now t u) (consume_bot_command month_of now) t
      (count_command-Spends (plan_of now t) month_of now t refl)

-- what a request asks for, at its time
pub data Request : Type 0 where
  new_exchange : ℕ → Bool → Request
  new_bot : ℕ → Bool → Bool → Request
  bot_command : ℕ → Request

abbrev pub handle : (ℕ → ℕ) → Request → Action Tenant Denied Done
handle month_of (new_exchange now accepted) = create_exchange now accepted
handle month_of (new_bot now connected accepted) = create_bot now connected accepted
handle month_of (bot_command now) = transaction (consume_bot_command month_of now)

-- the tenant after its requests, one after the other
abbrev pub handle_all : (ℕ → ℕ) → List Request → Tenant → Tenant
handle_all month_of [] t = t
handle_all month_of (r ∷ rs) t = handle_all month_of rs (handle month_of r t).1

-- no more rows than the largest plan has, and no month with more commands
abbrev pub Within : Rows → Type 0
Within rows =
    (rows.exchange_connections ≤ 5) × (rows.bots ≤ 10) × All (λ (e : ℕ × ℕ). e.1 ≤ 10000) rows.usage

After-state :
    {A : Type 0} (P : Tenant → Type 0) (r : Result Denied A × Tenant)
    → After (λ _ u. P u) (λ _ u. P u) r
    → P r.1
After-state P (ok a, u) h = h
After-state P (err e, u) h = h

limit_le :
    (resource : Resource) (plan : PlanId)
    → limit_of resource (plan_catalog plan) ≤ limit_of resource (plan_catalog pro)
limit_le exchange_connection free = omega arith
limit_le exchange_connection pro = omega arith
limit_le bot free = omega arith
limit_le bot pro = omega arith

Created-Within :
    (resource : Resource) (now : ℕ) (t u : Tenant)
    → Within t.rows
    → Created resource now t u
    → Within u.rows
Created-Within exchange_connection now t u (e, b, m) (same, room) =
    subst Within (sym same)
      (omega (arith, room, limit_le exchange_connection (plan_of now t)), b, m)
Created-Within bot now t u (e, b, m) (same, room) =
    subst Within (sym same) (e, omega (arith, room, limit_le bot (plan_of now t)), m)

Spent-Within :
    (month_of : ℕ → ℕ) (now : ℕ) (t u : Tenant)
    → Within t.rows
    → Spent month_of now t u
    → Within u.rows
Spent-Within month_of now t u (e, b, m) (paid, left, same) = subst Within (sym same) (
  e,
  b,
  All-set (λ (e : ℕ × ℕ). e.1 ≤ 10000) t.rows.usage (month_of now)
      (suc (used t.rows.usage (month_of now))) m (omega (arith, left)),
)

handle-Within :
    (month_of : ℕ → ℕ) (r : Request) (t : Tenant)
    → Within t.rows
    → Within (handle month_of r t).1.rows
handle-Within month_of (new_exchange now accepted) t h =
    let run = create_exchange now accepted t in
    After-state (λ u. Within u.rows) run
      (After-mono run (λ _ u. Created-Within exchange_connection now t u h)
        (λ _ u same. subst Within (sym same) h) (create_exchange-Creates now accepted t))
handle-Within month_of (new_bot now connected accepted) t h =
    let run = create_bot now connected accepted t in
    After-state (λ u. Within u.rows) run
      (After-mono run (λ _ u. Created-Within bot now t u h) (λ _ u same. subst Within (sym same) h)
        (create_bot-Creates now connected accepted t))
handle-Within month_of (bot_command now) t h =
    let run = transaction (consume_bot_command month_of now) t in
    After-state (λ u. Within u.rows) run
      (After-mono run (λ _ u. Spent-Within month_of now t u h)
        (λ _ u same. subst Within (sym same) h) (consume_bot_command-Spends month_of now t))

-- However many requests an organization makes and whenever, it never has more than five
-- connections and ten bots, and never a month with more than ten thousand commands, if it had none
-- of these before.
pub handle_all-Within :
    (month_of : ℕ → ℕ) (rs : List Request) (t : Tenant)
    → Within t.rows
    → Within (handle_all month_of rs t).rows
handle_all-Within month_of [] t h = h
handle_all-Within month_of (r ∷ rs) t h =
    handle_all-Within month_of rs (handle month_of r t).1 (handle-Within month_of r t h)
