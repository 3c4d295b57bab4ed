-- ===== src/Saas/Entitlements/Tests.antt =====
-- The theorems on the quotas at concrete inputs.
use tonatiuh_trading_saas.Prelude.{ℕ, true, false, some, none, [], ◌∷◌, ◌≡◌, refl, ◌/◌, arith}
use tonatiuh_trading_saas.Prelude.Action.{ok, err, After}
use tonatiuh_trading_saas.Prelude.Maps.{lookup, set, nat_key}
use tonatiuh_trading_saas.Saas.Entitlements.{
  Tenant, free, pro, active, transaction, active_plan, bot, create_bot, quota_exceeded,
  consume_bot_command, enforce_resource_quota, enforce_member_quota,
}
use tonatiuh_trading_saas.Saas.Entitlements.Laws.{
  Created, Spent, Within, handle_all, new_exchange, new_bot, bot_command, create_bot-Creates,
  consume_bot_command-Spends, handle_all-Within,
}

-- an organization that has paid until 100, with one bot
abbrev paid : Tenant
paid = record {
  rows = record {
    subscription = some (record {
      plan = pro;
      status = active;
      current_period_end = some 100;
      grace_period_end = none;
    });
    exchange_connections = 1;
    bots = 1;
    memberships = 1;
    invitations = record { accepted = false; revoked = false; expires_at = 90 } ∷ [];
    usage = [];
  };
  denials = [];
}

abbrev month_of : ℕ → ℕ
month_of now = now / 30

-- the second bot, while the plan is paid and afterwards
second_bot : (create_bot 50 true true paid).0 ≡ ok tt
unfolding create_bot transaction enforce_resource_quota active_plan
second_bot = refl

too_late : (create_bot 100 true true paid).0 ≡ err (quota_exceeded "bots" free 1 1)
unfolding create_bot transaction enforce_resource_quota active_plan
too_late = refl

-- an invitation counts until it expires
invited : (enforce_member_quota 110 paid).0 ≡ err (quota_exceeded "members" free 1 1)
unfolding enforce_member_quota active_plan
invited = refl

counted : (transaction (consume_bot_command month_of 50) paid).1.rows.usage ≡ (1, 1) ∷ []
unfolding transaction consume_bot_command active_plan lookup set
counted = refl

create_bot-Creates_example :
    After (λ _ u. Created bot 50 paid u) (λ _ u. u.rows ≡ paid.rows) (create_bot 50 true true paid)
create_bot-Creates_example = create_bot-Creates 50 true true paid

consume_bot_command-Spends_example :
    After
      (λ _ u. Spent month_of 50 paid u)
      (λ _ u. u.rows ≡ paid.rows)
      (transaction (consume_bot_command month_of 50) paid)
consume_bot_command-Spends_example = consume_bot_command-Spends month_of 50 paid

handle_all-Within_example :
    Within
      (handle_all month_of
        (new_bot 50 true true ∷ bot_command 51 ∷ new_exchange 120 true ∷ [])
        paid).rows
handle_all-Within_example =
    handle_all-Within month_of (new_bot 50 true true ∷ bot_command 51 ∷ new_exchange 120 true ∷ [])
      paid (omega arith, omega arith, tt)
