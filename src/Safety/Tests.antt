-- ===== src/Safety/Tests.antt =====
-- The safety store on concrete snapshots.
use jqe.Prelude.{◌≡◌, refl, true, false, none, some, pos, is_some, all, [], ◌∷◌}
use jqe.Text.{text}
use jqe.Number.{float, zero_float}
use jqe.Number.Fixed.{Fixed, fixed_float}
use jqe.Store.{DateTime, ok}
use jqe.Safety.{
  EmergencyStopState, ExecutionMode, DailyStateAuthority, ExecutionAuthorization,
  ExecutionSafetySnapshot, RiskAuthorizationSnapshot, SafetyStore, valid_snapshot, valid_risk,
  publish, read, publish_risk, read_risk, has_text,
}
use jqe.Safety.Roundtrip.{on_one_line, read-publish, read_risk-publish_risk, read_risk_exposed}
use jqe.Samples.{price}

abbrev no_rows : SafetyStore Fixed
no_rows = record { safety = none; risk = none }

abbrev breach : ExecutionSafetySnapshot
breach = record {
  observed_at = DateTime.aware 7;
  emergency_stop_state = EmergencyStopState.active;
  execution_mode = ExecutionMode.durable;
  broker = text "weltrade";
  environment = text "demo";
  durable_executor_enabled = false;
  daily_state_authority = DailyStateAuthority.authoritative;
  unresolved_intent_count = pos 2;
  unresolved_intent_blocked = true;
  execution_authorization = ExecutionAuthorization.blocked;
  reason_codes = text "SIDE_MISMATCH" ∷ text "VOLUME_MISMATCH" ∷ [];
  schema_version = 1;
}

breach_valid : valid_snapshot breach ≡ true
unfolding valid_snapshot jqe.Text.nonblank
breach_valid = refl

breach_lines : all on_one_line breach.reason_codes ≡ true
breach_lines = refl

read-publish_example : read (publish breach no_rows) ≡ ok (some breach)
read-publish_example = read-publish breach no_rows breach_valid breach_lines

abbrev sized : RiskAuthorizationSnapshot Fixed
sized = record {
  observed_at = DateTime.aware 7;
  broker = text "deriv";
  environment = text "demo";
  account_id = some (text "VRTC1");
  evaluation_state = ExecutionAuthorization.authorized;
  balance = some (price 50000);
  equity = some (price 50000);
  currency = some (text "USD");
  max_daily_loss = some (price 3000);
  max_trades_daily = some (pos 10);
  daily_trades_count = some (pos 1);
  daily_loss_percent = some (price 500);
  risk_allowed = some true;
  risk_message = text "Limits OK";
  rejection_reason = [];
  authorized_risk_amount = some (price 250);
  authorized_risk_percent = some (price 500);
  execution_quantity_available = true;
  execution_quantity_value = some (price 1000);
  execution_quantity_unit = some (text "DERIV_STAKE");
  execution_quantity_reason = text "ok";
  schema_version = 2;
}

sized_valid : valid_risk sized ≡ true
unfolding valid_risk jqe.Text.nonblank
sized_valid = refl

read_risk-publish_risk_example : read_risk (publish_risk sized no_rows) ≡ ok (some sized)
read_risk-publish_risk_example = read_risk-publish_risk sized no_rows sized_valid

sized_read : read_risk (publish_risk sized no_rows) ≡ ok (some sized)
unfolding read_risk publish_risk jqe.Safety.authorization_of jqe.Text.text_eq valid_risk
    jqe.Text.nonblank
sized_read = refl

read_risk_exposed_example :
    (sized.evaluation_state ≡ ExecutionAuthorization.authorized)
    × (is_some sized.account_id ≡ true)
    × ((quantity : Fixed) × (sized.execution_quantity_value ≡ some quantity)
        × (fixed_float.is_finite quantity ≡ true)
        × (fixed_float.le (float quantity) zero_float ≡ false))
    × (has_text sized.execution_quantity_unit ≡ true)
read_risk_exposed_example = read_risk_exposed sized (publish_risk sized no_rows) sized_read refl
