-- ===== src/Safety/Data.antt =====
-- execution/safety.py: the two snapshots, the conditions of their constructors, and the values of
-- their enumerations.
use jqe.Prelude.{
  ℕ, ◌==◌, Bool, true, false, not, ◌&&◌, ◌||◌, Option, none, some, ℤ, pos, List, all, leb_ℤ,
  is_some, if◌then◌else◌,
}
use jqe.Text.{Text, text, text_eq, nonempty, nonblank}
use jqe.Number.{float, Float, zero_float}
use jqe.Store.{DateTime, naive, aware}

pub data EmergencyStopState : Type 0 where
  clear active stop_unknown : EmergencyStopState

pub data ExecutionMode : Type 0 where
  durable : ExecutionMode

pub data DailyStateAuthority : Type 0 where
  authoritative not_authoritative authority_not_evaluated authority_unknown : DailyStateAuthority

-- `ExecutionAuthorization`, and `RiskEvaluationState`, which has the same members.
pub data ExecutionAuthorization : Type 0 where
  authorized blocked not_evaluated authorization_unknown : ExecutionAuthorization

abbrev pub stop_value : EmergencyStopState → Text
stop_value clear = text "CLEAR"
stop_value active = text "ACTIVE"
stop_value stop_unknown = text "UNKNOWN"

-- `EmergencyStopState(t)`, and so on, where `none` is a ValueError.
unfoldable pub stop_of : Text → Option EmergencyStopState
stop_of t =
    if text_eq t (text "CLEAR")
    then some clear
    else if text_eq t (text "ACTIVE")
    then some active
    else if text_eq t (text "UNKNOWN")
    then some stop_unknown
    else none

abbrev pub mode_value : ExecutionMode → Text
mode_value durable = text "DURABLE"

unfoldable pub mode_of : Text → Option ExecutionMode
mode_of t = if text_eq t (text "DURABLE") then some durable else none

abbrev pub authority_value : DailyStateAuthority → Text
authority_value authoritative = text "AUTHORITATIVE"
authority_value not_authoritative = text "NOT_AUTHORITATIVE"
authority_value authority_not_evaluated = text "NOT_EVALUATED"
authority_value authority_unknown = text "UNKNOWN"

unfoldable pub authority_of : Text → Option DailyStateAuthority
authority_of t =
    if text_eq t (text "AUTHORITATIVE")
    then some authoritative
    else if text_eq t (text "NOT_AUTHORITATIVE")
    then some not_authoritative
    else if text_eq t (text "NOT_EVALUATED")
    then some authority_not_evaluated
    else if text_eq t (text "UNKNOWN")
    then some authority_unknown
    else none

abbrev pub authorization_value : ExecutionAuthorization → Text
authorization_value authorized = text "AUTHORIZED"
authorization_value blocked = text "BLOCKED"
authorization_value not_evaluated = text "NOT_EVALUATED"
authorization_value authorization_unknown = text "UNKNOWN"

unfoldable pub authorization_of : Text → Option ExecutionAuthorization
authorization_of t =
    if text_eq t (text "AUTHORIZED")
    then some authorized
    else if text_eq t (text "BLOCKED")
    then some blocked
    else if text_eq t (text "NOT_EVALUATED")
    then some not_evaluated
    else if text_eq t (text "UNKNOWN")
    then some authorization_unknown
    else none

pub record ExecutionSafetySnapshot : Type 0 where
  pub observed_at : DateTime
  pub emergency_stop_state : EmergencyStopState
  pub execution_mode : ExecutionMode
  pub broker : Text
  pub environment : Text
  pub durable_executor_enabled : Bool
  pub daily_state_authority : DailyStateAuthority
  pub unresolved_intent_count : ℤ
  pub unresolved_intent_blocked : Bool
  pub execution_authorization : ExecutionAuthorization
  pub reason_codes : List Text
  pub schema_version : ℕ

abbrev pub is_aware : DateTime → Bool
is_aware (naive t) = false
is_aware (aware t) = true

-- `ExecutionSafetySnapshot.__post_init__`: whether it raises nothing.
unfoldable pub valid_snapshot : ExecutionSafetySnapshot → Bool
valid_snapshot s =
    s.schema_version == 1
    && is_aware s.observed_at
    && nonblank s.broker
    && nonblank s.environment
    && leb_ℤ (pos 0) s.unresolved_intent_count
    && all nonblank s.reason_codes

pub record RiskAuthorizationSnapshot (F : Type 0) : Type 0 where
  pub observed_at : DateTime
  pub broker : Text
  pub environment : Text
  pub account_id : Option Text
  pub evaluation_state : ExecutionAuthorization
  pub balance : Option F
  pub equity : Option F
  pub currency : Option Text
  pub max_daily_loss : Option F
  pub max_trades_daily : Option ℤ
  pub daily_trades_count : Option ℤ
  pub daily_loss_percent : Option F
  pub risk_allowed : Option Bool
  pub risk_message : Text
  pub rejection_reason : Text
  pub authorized_risk_amount : Option F
  pub authorized_risk_percent : Option F
  pub execution_quantity_available : Bool
  pub execution_quantity_value : Option F
  pub execution_quantity_unit : Option Text
  pub execution_quantity_reason : Text
  pub schema_version : ℕ

abbrev pub is_authorized : ExecutionAuthorization → Bool
is_authorized authorized = true
is_authorized _ = false

abbrev pub is_authoritative : ExecutionAuthorization → Bool
is_authoritative authorized = true
is_authoritative blocked = true
is_authoritative _ = false

-- `value is None or value >= 0`
abbrev pub not_negative : Option ℤ → Bool
not_negative none = true
not_negative (some n) = leb_ℤ (pos 0) n

-- `bool` of an optional text
abbrev pub has_text : Option Text → Bool
has_text none = false
has_text (some t) = nonempty t

module _ {F : Type 0} ⦃o : Float F⦄ where
  -- `value is None or math.isfinite(value)`
  abbrev pub finite_or_none : Option F → Bool
  finite_or_none none = true
  finite_or_none (some x) = o.is_finite x

  -- `value is not None and not value <= 0`
  abbrev pub above_zero : Option F → Bool
  above_zero none = false
  above_zero (some x) = not (o.le (float x) zero_float)

  -- The last two conditions of `RiskAuthorizationSnapshot.__post_init__`.
  unfoldable pub valid_quantity : RiskAuthorizationSnapshot F → Bool
  valid_quantity s =
      if s.execution_quantity_available
      then above_zero s.execution_quantity_value && has_text s.execution_quantity_unit
      else not (is_some s.execution_quantity_value) && not (is_some s.execution_quantity_unit)

  -- `RiskAuthorizationSnapshot.__post_init__`: whether it raises nothing.
  unfoldable pub valid_risk : RiskAuthorizationSnapshot F → Bool
  unfolding valid_quantity
  valid_risk s =
      s.schema_version == 2
      && is_aware s.observed_at
      && nonblank s.broker
      && nonblank s.environment
      && (elim s.account_id [ none ↦ true | some a ↦ nonblank a ])
      && (not (is_authoritative s.evaluation_state) || is_some s.account_id)
      && finite_or_none s.balance
      && finite_or_none s.equity
      && finite_or_none s.max_daily_loss
      && finite_or_none s.daily_loss_percent
      && finite_or_none s.authorized_risk_amount
      && finite_or_none s.authorized_risk_percent
      && finite_or_none s.execution_quantity_value
      && not_negative s.max_trades_daily
      && not_negative s.daily_trades_count
      && (is_authorized s.evaluation_state
          || (not (is_some s.authorized_risk_amount)
              && not (is_some s.authorized_risk_percent)
              && not s.execution_quantity_available))
      && valid_quantity s
