-- ===== src/Trading/Settings/Flags.antt =====
-- The flags of a row, the log that it keeps, and the emergency stop of
-- src/utils/EmergencyStop/EmergencyStopService.ts.
pub mod Laws
use tonatiuh_trading_saas.Prelude.{
  ℕ, String, Bool, true, false, not, ◌&&◌, ◌≡◌, refl, Option, none, some, List, [], ◌∷◌, map, find?,
  if◌then◌else◌, All, arith, inl, inr, Bool-cases,
}
use tonatiuh_trading_saas.Prelude.Action.{Result, ok, err, Action, Done, throw, After, ◌>>=◌, ◌>>◌}
use tonatiuh_trading_saas.Trading.Outside.{Outside, Failure, database, other_failure}
use tonatiuh_trading_saas.Trading.Settings.Config.{Config}
use tonatiuh_trading_saas.Trading.Settings.Repository.{
  ConfigRow, Configs, has_id, statement, update_where,
}

module _ {N : Type 0} where
  abbrev pub stopped_row : ConfigRow N → Bool
  stopped_row r = r.config.is_emergency_stop

  abbrev set_emergency : Bool → ConfigRow N → ConfigRow N
  set_emergency b r = record r { config = record r.config { is_emergency_stop = b } }

  abbrev set_stop_trading : Bool → ConfigRow N → ConfigRow N
  set_stop_trading b r = record r { config = record r.config { is_stop_trading = b } }

  abbrev set_auto_start : Bool → ConfigRow N → ConfigRow N
  set_auto_start b r = record r { config = record r.config { is_auto_start_trading = b } }

module _ {N X : Type 0} (out : Outside N X) where
  -- `result[0]`, whose flag the callers read: without a row that throws
  abbrev pub flag_of : Option (ConfigRow N) → Result Failure Bool
  flag_of none = err (other_failure "Cannot destructure property 'isEmergencyStop'")
  flag_of (some r) = ok r.config.is_emergency_stop

  unfoldable pub get_emergency_stop : ℕ → Action (Configs N X) Failure Bool
  get_emergency_stop config_id = do
    statement out (λ rows. rows)
    (λ s. (flag_of (find? (has_id config_id) s.rows), s))

  unfoldable pub enable_emergency_stop : ℕ → Action (Configs N X) Failure Done
  enable_emergency_stop config_id = update_where out (has_id config_id) (set_emergency true)

  -- The condition is the flag alone: the rows of every configuration are cleared.
  unfoldable pub disable_emergency_stop : Action (Configs N X) Failure Done
  disable_emergency_stop = update_where out stopped_row (set_emergency false)

  unfoldable pub enable_stop_trading : ℕ → Action (Configs N X) Failure Done
  enable_stop_trading config_id = update_where out (has_id config_id) (set_stop_trading true)

  unfoldable pub disable_stop_trading : ℕ → Action (Configs N X) Failure Done
  disable_stop_trading config_id =
      update_where out (λ r. r.config.is_stop_trading && has_id config_id r)
        (set_stop_trading false)

  unfoldable pub enabled_auto_start_trading : ℕ → Action (Configs N X) Failure Done
  enabled_auto_start_trading config_id = update_where out (has_id config_id) (set_auto_start true)

  unfoldable pub disable_auto_start_trading : ℕ → Action (Configs N X) Failure Done
  disable_auto_start_trading config_id = update_where out (has_id config_id) (set_auto_start false)

  -- The table has no column `is_config_update`: the database refuses the statement.
  unfoldable pub disable_config_update : ℕ → Action (Configs N X) Failure Done
  disable_config_update config_id s =
      let (accepted, x) = out.query_accepted s.venue in (err database, record s { venue = x })

  unfoldable pub record_logger : String → ℕ → Action (Configs N X) Failure Done
  record_logger logger_event config_id =
      update_where out (has_id config_id) (λ r. record r { logger_event = some logger_event })

  -- `emergencyDisableProcess`: the position is closed before the flag is cleared
  abbrev pub emergency_disable_process :
      Bool → Action (Configs N X) Failure Done → Action (Configs N X) Failure Bool
  emergency_disable_process false close_all_amount s = (ok false, s)
  emergency_disable_process true close_all_amount s =
      (do close_all_amount; disable_emergency_stop; (λ t. (ok true, t))) s

  -- `checkingIsEmergencyStop` catches every error; no answer is `false`.
  unfoldable pub checking_is_emergency_stop :
      ℕ → Action (Configs N X) Failure Done → Configs N X → Bool × Configs N X
  checking_is_emergency_stop config_id close_all_amount s =
      let (r, t) =
        (do
          is_emergency_stop ← get_emergency_stop config_id
          emergency_disable_process is_emergency_stop close_all_amount)
          s in
      elim r [ ok stopped ↦ (stopped, t) | err _ ↦ (false, t) ]
