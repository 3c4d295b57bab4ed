-- ===== src/Saas/Features/Laws.antt =====
-- Who a feature is open to.
use tonatiuh_trading_saas.Prelude.{
  ℕ, ◌≤◌, ◌<◌, String, Bool, true, false, Option, none, some, ◌≡◌, refl, arith, ◌&&◌, if◌then◌else◌,
}
use tonatiuh_trading_saas.Prelude.Action.{ok, err}
use tonatiuh_trading_saas.Saas.Features.{
  FlagRow, rollout_bucket, decide_feature, evaluate_feature, passes, require_feature,
  configuration_missing, feature_disabled,
}

module _ (digest_u32 : String → ℕ) where
  abbrev pub is_enabled : FlagRow → String → Bool
  is_enabled row organization_id =
      let decision = decide_feature digest_u32 row organization_id in decision.enabled

  abbrev row_of : String → Bool → ℕ → Option Bool → FlagRow
  row_of key on percentage override = record {
    key = key;
    enabled = on;
    rollout_percentage = percentage;
    override_enabled = override;
  }

  monotone :
      (key organization_id : String) (on : Bool) (p q : ℕ) (override : Option Bool)
      → p ≤ q
      → is_enabled (row_of key on p override) organization_id ≡ true
      → is_enabled (row_of key on q override) organization_id ≡ true
  unfolding decide_feature
  monotone key organization_id false p q override more is_on = is_on
  monotone key organization_id true p q (some enabled) more is_on = is_on
  monotone key organization_id true p q none more is_on = ground arith

  -- Raising the percentage of a rollout closes a feature to no organization.
  pub decide_feature-monotone :
      (row : FlagRow) (organization_id : String) (percentage : ℕ)
      → row.rollout_percentage ≤ percentage
      → is_enabled row organization_id ≡ true
      → is_enabled (record row { rollout_percentage = percentage }) organization_id ≡ true
  decide_feature-monotone row organization_id percentage more is_on =
      monotone row.key organization_id row.enabled row.rollout_percentage percentage
        row.override_enabled more is_on

  rollout_bucket_lt :
      (key organization_id : String) → rollout_bucket digest_u32 key organization_id < 100
  unfolding rollout_bucket
  rollout_bucket_lt key organization_id = omega arith

  -- what a switched on flag says of an organization without an override, at a full rollout
  abbrev pub said : Option Bool → Bool
  said none = true
  said (some enabled) = enabled

  full :
      (key organization_id : String) (on : Bool) (percentage : ℕ) (override : Option Bool)
      → 100 ≤ percentage
      → is_enabled (row_of key on percentage override) organization_id ≡ on && said override
  unfolding decide_feature
  full key organization_id false percentage override all = refl
  full key organization_id true percentage (some enabled) all = refl
  full key organization_id true percentage none all =
      let small = rollout_bucket_lt key organization_id in ground arith

  -- At a rollout of a hundred percent a request with an account passes exactly if the flag is there,
  -- it is switched on, and no override shuts the organization out; a flag that is shut is the
  -- error of a disabled feature, and a missing one that of a missing configuration.
  pub require_feature-full :
      (find : String → String → Option FlagRow) (flag_key organization_id : String)
      → ((row : FlagRow) → find flag_key organization_id ≡ some row → 100 ≤ row.rollout_percentage)
      → require_feature digest_u32 find flag_key (some organization_id)
        ≡ elim (find flag_key organization_id) [
          | none ↦ err configuration_missing
          | some row ↦
              if row.enabled && said row.override_enabled
              then ok true
              else err (feature_disabled flag_key)
        ]
  unfolding require_feature evaluate_feature
  require_feature-full find flag_key organization_id rolled_out =
      go (find flag_key organization_id) refl
    where
      go :
          (found : Option FlagRow)
          → find flag_key organization_id ≡ found
          → passes digest_u32 flag_key (evaluate_feature digest_u32 found organization_id)
            ≡ elim found [
              | none ↦ err configuration_missing
              | some row ↦
                  if row.enabled && said row.override_enabled
                  then ok true
                  else err (feature_disabled flag_key)
            ]
      go none same = refl
      go (some row) same =
          rw
            (full row.key organization_id row.enabled row.rollout_percentage row.override_enabled
              (rolled_out row same))
            refl
