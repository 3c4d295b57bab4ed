-- ===== src/Saas/Features/Tests.antt =====
-- The theorems on the feature flags at concrete inputs.
use tonatiuh_trading_saas.Prelude.{ℕ, String, Option, true, some, none, ◌≡◌, refl, arith, ap}
use tonatiuh_trading_saas.Prelude.Action.{ok}
use tonatiuh_trading_saas.Saas.Features.{FlagRow, rollout_bucket, decide_feature, require_feature}
use tonatiuh_trading_saas.Saas.Features.Laws.{
  is_enabled, decide_feature-monotone, require_feature-full,
}

abbrev digest : String → ℕ
digest text = 142

abbrev half : FlagRow
half = record { key = "live"; enabled = true; rollout_percentage = 50; override_enabled = none }

in_the_half : is_enabled digest half "org" ≡ true
unfolding decide_feature rollout_bucket
in_the_half = refl

decide_feature-monotone_example :
    is_enabled digest (record half { rollout_percentage = 60 }) "org" ≡ true
decide_feature-monotone_example =
    decide_feature-monotone digest half "org" 60 (omega arith) in_the_half

abbrev no_flags : String → String → Option FlagRow
no_flags key organization_id = none

abbrev all_open : String → String → Option FlagRow
all_open key organization_id = some (record half { rollout_percentage = 100 })

abbrev percentage : Option FlagRow → ℕ
percentage none = 100
percentage (some row) = row.rollout_percentage

require_feature-full_example : require_feature digest all_open "live" (some "org") ≡ ok true
require_feature-full_example =
    require_feature-full digest all_open "live" "org"
      (λ row same. omega (arith, ap percentage same))
