-- ===== src/Saas/Features.antt =====
-- The feature flags of src/saas/features/service.ts. The first four bytes of a SHA-256 digest, and the
-- row that the database finds, are arguments.
pub mod Laws
mod Tests
use tonatiuh_trading_saas.Prelude.{
  ℕ, ◌%◌, String, Bool, true, false, Option, none, some, if◌then◌else◌, ltb, List, map,
}
use Prim.Native.String.{◌++◌ as ◌++ᵗ◌}
use tonatiuh_trading_saas.Prelude.Action.{Result, ok, err}

-- the columns of `FlagRow` that decide
pub record FlagRow : Type 0 where
  pub key : String
  pub enabled : Bool
  pub rollout_percentage : ℕ
  pub override_enabled : Option Bool

pub data Source : Type 0 where
  kill_switch organization_override percentage_rollout : Source

pub record FeatureDecision : Type 0 where
  pub key : String
  pub enabled : Bool
  pub source : Source

-- the errors, of status 401 and 503
pub data FeatureError : Type 0 where
  authentication_required configuration_missing : FeatureError
  feature_disabled : String → FeatureError

module _ (digest_u32 : String → ℕ) where
  unfoldable pub rollout_bucket : String → String → ℕ
  rollout_bucket flag_key organization_id =
      digest_u32 (flag_key ++ᵗ (":" ++ᵗ organization_id)) % 100

  abbrev pub decide_override : FlagRow → String → Option Bool → FeatureDecision
  decide_override row organization_id (some enabled) = record {
    key = row.key;
    enabled = enabled;
    source = organization_override;
  }
  decide_override row organization_id none = record {
    key = row.key;
    enabled = ltb (rollout_bucket row.key organization_id) row.rollout_percentage;
    source = percentage_rollout;
  }

  unfoldable pub decide_feature : FlagRow → String → FeatureDecision
  decide_feature row organization_id =
      if row.enabled
      then decide_override row organization_id row.override_enabled
      else record { key = row.key; enabled = false; source = kill_switch }

  -- `row` is what the query found.
  unfoldable pub evaluate_feature : Option FlagRow → String → Result FeatureError FeatureDecision
  evaluate_feature none organization_id = err configuration_missing
  evaluate_feature (some row) organization_id = ok (decide_feature row organization_id)

  -- whether `next()` is called
  abbrev pub passes : String → Result FeatureError FeatureDecision → Result FeatureError Bool
  passes flag_key (err e) = err e
  passes flag_key (ok decision) =
      if decision.enabled then ok true else err (feature_disabled flag_key)

  -- `find` is the query, for the flag and the organization.
  unfoldable pub require_feature :
      (String → String → Option FlagRow) → String → Option String → Result FeatureError Bool
  require_feature find flag_key none = err authentication_required
  require_feature find flag_key (some organization_id) =
      passes flag_key (evaluate_feature (find flag_key organization_id) organization_id)

  -- `rows` are those that the query found: the flags that clients see, by their keys.
  abbrev pub list_client_features : List FlagRow → String → List FeatureDecision
  list_client_features rows organization_id = map (λ row. decide_feature row organization_id) rows
